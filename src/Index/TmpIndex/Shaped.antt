-- ===== src/Index/TmpIndex/Shaped.antt =====
-- The shape of the index: inserting complete formulas, and counting their solutions, keeps every
-- path of the tree a complete prefix term that ends in a leaf.
use mws.Prelude.{
  ℕ, zero, suc, ◌+◌, ◌≡◌, ◌≢◌, refl, sym, subst, none, some, List, [], ◌∷◌, arith, Option-cases,
  inl, inr, All,
}
use mws.Types.VectorMap.{VectorMap, find, assign}
use mws.Types.VectorMap.Assign.{All-assign}
use mws.Types.VectorMap.View.{find-eq-lookup, lookup}
use mws.Index.EncodedToken.{EncodedToken, EncodedFormula, token_comparator}
use mws.Index.Encoder.Shape.{pending, arities}
use mws.Index.TmpIndex.{
  TmpIndexNode, inner, leaf, Children, nil, cons, to_vector, of_vector, children, with_children,
  new_node, insert_from, increment_at,
}
use mws.Index.TmpIndex.Ordered.{
  IsOrdered, IsSorted-children, IsOrdered-assign, All-find, find-assign_self, find-IsOrdered,
}
use mws.Index.TmpIndex.Insert.{
  fresh_leaf, insert_last_new, insert_last_found, insert_new, insert_found,
}
use mws.Index.Iterator.Traversal.{IsShaped, AllShaped}

-- A node that may have no children yet: the root of an empty index, or a new node.
abbrev pub IsOpen : ℕ → TmpIndexNode → Type 0
IsOpen k (inner c) = AllShaped k c
IsOpen k (leaf id solutions c) = ⊥

-- The shape of one child.
abbrev ShapedChild : ℕ → EncodedToken × TmpIndexNode → Type 0
ShapedChild k e = IsShaped (k + e.0.arity) e.1

AllShaped→All : (k : ℕ) (c : Children) → AllShaped k c → All (ShapedChild k) (to_vector c)
AllShaped→All k nil a = tt
AllShaped→All k (cons t n rest) a = (a.0, AllShaped→All k rest a.1)

All→AllShaped :
    (k : ℕ) (v : VectorMap EncodedToken TmpIndexNode)
    → All (ShapedChild k) v
    → AllShaped k (of_vector v)
All→AllShaped k [] a = tt
All→AllShaped k ((t, n) ∷ rest) a = (a.0, All→AllShaped k rest a.1)

IsOpen-children :
    (k : ℕ) (node : TmpIndexNode) → IsOpen k node → All (ShapedChild k) (children node)
IsOpen-children k (inner c) o = AllShaped→All k c o
IsOpen-children k (leaf id s c) o = absurd o

pub IsOpen-IsShaped : (k : ℕ) (node : TmpIndexNode) → IsShaped (suc k) node → IsOpen k node
IsOpen-IsShaped k (inner nil) s = absurd s
IsOpen-IsShaped k (inner (cons t n rest)) s = s
IsOpen-IsShaped k (leaf id n c) s = absurd s

find_nil : (t : EncodedToken) {n : TmpIndexNode} → find {V = TmpIndexNode} [] t ≢ some n
unfolding lookup
find_nil t h =
    let e : find {V = TmpIndexNode} [] t ≡ none = find-eq-lookup {V = TmpIndexNode} [] t tt in
    absurd (cc)

-- An open node with a child has the shape of a node.
pub IsShaped-IsOpen :
    (k : ℕ) (node : TmpIndexNode) (t : EncodedToken) {child : TmpIndexNode}
    → IsOpen k node
    → find (children node) t ≡ some child
    → IsShaped (suc k) node
IsShaped-IsOpen k (inner nil) t o h = absurd (find_nil t h)
IsShaped-IsOpen k (inner (cons u n rest)) t o h = o
IsShaped-IsOpen k (leaf id s c) t o h = absurd o

pub find-IsShaped :
    (k : ℕ) (node : TmpIndexNode) (t : EncodedToken) {child : TmpIndexNode}
    → IsOrdered node
    → IsOpen k node
    → find (children node) t ≡ some child
    → IsShaped (k + t.arity) child
find-IsShaped k node t o op h =
    All-find (ShapedChild k) (children node) t (IsSorted-children node o)
      (IsOpen-children k node op) h

IsOpen-with_children :
    (k : ℕ) (node : TmpIndexNode) (v : VectorMap EncodedToken TmpIndexNode)
    → IsOpen k node
    → All (ShapedChild k) v
    → IsOpen k (with_children node v)
IsOpen-with_children k (inner c) v o a = All→AllShaped k v a
IsOpen-with_children k (leaf id s c) v o a = absurd o

-- A child of the right shape that is assigned closes the node.
pub IsShaped-assign :
    (k : ℕ) (node : TmpIndexNode) (t : EncodedToken) (child : TmpIndexNode)
    → IsOrdered node
    → IsOpen k node
    → IsShaped (k + t.arity) child
    → IsShaped (suc k) (with_children node (assign (children node) t child))
IsShaped-assign k node t child o op s =
    IsShaped-IsOpen k (with_children node (assign (children node) t child)) t
      (IsOpen-with_children k node (assign (children node) t child) op (
        All-assign (ShapedChild k) (children node) t child (IsSorted-children node o) s
          (IsOpen-children k node op)))
      (find-assign_self node t child o)

-- A token that is not the last leaves expressions open, and the last leaves none.
pending_more :
    (k : ℕ) (u : EncodedToken) (rest : List EncodedToken)
    → pending k (arities (u ∷ rest)) ≡ some 0
    → (j : ℕ) × (k ≡ suc j)
unfolding pending
pending_more zero u rest h = absurd (cc)
pending_more (suc j) u rest h = (j, refl)

leaf-IsShaped : (k next : ℕ) → k ≡ 0 → IsShaped k (fresh_leaf next)
leaf-IsShaped k next h = subst (λ z. IsShaped z (fresh_leaf next)) (sym h) tt

-- Inserting the tokens of complete expressions below a node of the right shape, or a new one,
-- keeps the shape.
pub insert_from-IsShaped :
    (k : ℕ) (t : EncodedToken) (rest : List EncodedToken) (node : TmpIndexNode) (next : ℕ)
    → IsOrdered node
    → IsOpen k node
    → pending (suc k) (arities (t ∷ rest)) ≡ some 0
    → IsShaped (suc k) (insert_from t rest node next).node
unfolding pending
insert_from-IsShaped k t [] node next o op h = elim (Option-cases (find (children node) t)) [
  | inl missing ↦ rw (insert_last_new t t [] node next missing) (
      IsShaped-assign k node t (fresh_leaf next) o op
        (leaf-IsShaped (k + t.arity) next (ground arith)))
  | inr (child, found) ↦
      rw (insert_last_found t t [] node next child found) (IsShaped-IsOpen k node t op found)
]
insert_from-IsShaped k t (u ∷ rest) node next o op h =
    let (j, more) = pending_more (k + t.arity) u rest h in
    let h' : pending (suc j) (arities (u ∷ rest)) ≡ some 0 =
      subst (λ z. pending z (arities (u ∷ rest)) ≡ some 0) more h in
    elim (Option-cases (find (children node) t)) [
      | inl missing ↦ rw (insert_new t u rest node next missing) (
          IsShaped-assign k node t _ o op (
            subst (λ z. IsShaped z (insert_from u rest new_node next).node) (sym more)
              (insert_from-IsShaped j u rest new_node next (tt, tt) tt h')))
      | inr (child, found) ↦ rw (insert_found t u rest node next child found) (
          let shaped : IsShaped (suc j) child =
            subst (λ z. IsShaped z child) more (find-IsShaped k node t o op found) in
          IsShaped-assign k node t _ o op (
            subst (λ z. IsShaped z (insert_from u rest child next).node) (sym more)
              (insert_from-IsShaped j u rest child next (find-IsOrdered node t o found)
                (IsOpen-IsShaped j child shaped) h')))
    ]

pub increment_missing :
    (t : EncodedToken) (f : EncodedFormula) (node : TmpIndexNode)
    → find (children node) t ≡ none
    → increment_at (t ∷ f) node ≡ node
unfolding increment_at
increment_missing t f node h = rw (h, increment_at)

pub increment_found :
    (t : EncodedToken) (f : EncodedFormula) (node : TmpIndexNode) {child : TmpIndexNode}
    → find (children node) t ≡ some child
    → increment_at (t ∷ f) node
      ≡ with_children node (assign (children node) t (increment_at f child))
unfolding increment_at
increment_found t f node h = rw (h, increment_at)

-- One more solution leaves the order of an index alone.
pub increment_at-IsOrdered :
    (f : EncodedFormula) (node : TmpIndexNode) → IsOrdered node → IsOrdered (increment_at f node)
unfolding increment_at
increment_at-IsOrdered [] (inner c) o = o
increment_at-IsOrdered [] (leaf id s c) o = o
increment_at-IsOrdered (t ∷ f) node o = elim (Option-cases (find (children node) t)) [
  | inl missing ↦ subst IsOrdered (sym (increment_missing t f node missing)) o
  | inr (child, found) ↦
      subst IsOrdered (sym (increment_found t f node found)) (
        IsOrdered-assign node t _ o
          (increment_at-IsOrdered f child (find-IsOrdered node t o found)))
]

-- And its shape.
pub increment_at-IsShaped :
    (k : ℕ) (f : EncodedFormula) (node : TmpIndexNode)
    → IsOrdered node
    → IsShaped k node
    → IsShaped k (increment_at f node)
unfolding increment_at lookup
increment_at-IsShaped zero [] (leaf id n nil) o s = tt
increment_at-IsShaped zero (t ∷ f) (leaf id n nil) o s =
    subst (IsShaped zero)
      (sym (increment_missing t f (leaf id n nil) (find-eq-lookup {V = TmpIndexNode} [] t tt))) tt
increment_at-IsShaped zero f (leaf id n (cons u m rest)) o s = absurd s
increment_at-IsShaped zero f (inner c) o s = absurd s
increment_at-IsShaped (suc k) [] (inner c) o s = s
increment_at-IsShaped (suc k) [] (leaf id n c) o s = absurd s
increment_at-IsShaped (suc k) (t ∷ f) node o s = elim (Option-cases (find (children node) t)) [
  | inl missing ↦ subst (IsShaped (suc k)) (sym (increment_missing t f node missing)) s
  | inr (child, found) ↦
      let op = IsOpen-IsShaped k node s in
      subst (IsShaped (suc k)) (sym (increment_found t f node found)) (
        IsShaped-assign k node t _ o op (
          increment_at-IsShaped (k + t.arity) f child (find-IsOrdered node t o found)
            (find-IsShaped k node t o op found)))
]
