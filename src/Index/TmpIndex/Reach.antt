-- ===== src/Index/TmpIndex/Reach.antt =====
-- Formula ids: a formula that leads to a leaf keeps leading to the leaf with that id.
use Prim.Native.Nat.Ordering.{eq}
use mws.Prelude.{
  ℕ, zero, suc, ◌+◌, ◌≡◌, refl, sym, ◌∙◌, subst, Option, none, some, List, [], ◌∷◌, arith,
  Option-cases, inl, inr,
}
use mws.Prelude.Bytes.{memcmp}
use mws.Types.VectorMap.{find, assign}
use mws.Types.VectorMap.Keys.{eq_of_cmp}
use mws.Index.EncodedToken.{EncodedToken, EncodedFormula, token_comparator}
use mws.Index.Encoder.Shape.{pending, arities}
use mws.Index.TmpIndex.{
  TmpIndexNode, inner, leaf, Children, nil, cons, children, with_children, insert_from,
  increment_at, walk, get_child,
}
use mws.Index.TmpIndex.Ordered.{IsOrdered, find-assign, find-IsOrdered}
use mws.Index.TmpIndex.Insert.{
  fresh_leaf, insert_last_new, insert_last_found, insert_new, insert_found,
}
use mws.Index.TmpIndex.Shaped.{IsOpen-IsShaped, find-IsShaped, increment_missing, increment_found}
use mws.Index.Iterator.Traversal.{IsShaped}

-- The id of a leaf.
unfoldable node_id : TmpIndexNode → Option ℕ
node_id (inner c) = none
node_id (leaf id solutions c) = some id

-- The id of the leaf at the end of a token sequence.
unfoldable pub id_at : EncodedFormula → TmpIndexNode → Option ℕ
unfolding node_id
id_at [] node = node_id node
id_at (t ∷ rest) node = elim (find (children node) t) [
  | none ↦ none
  | some child ↦ id_at rest child
]

id_at_root :
    (node : TmpIndexNode) (t : EncodedToken) (child : TmpIndexNode)
    → id_at [] (with_children node (assign (children node) t child)) ≡ id_at [] node
unfolding id_at node_id
id_at_root (inner c) t child = refl
id_at_root (leaf id n c) t child = refl

id_at_split :
    (node : TmpIndexNode) (t u : EncodedToken) (g : EncodedFormula) (child : TmpIndexNode)
    → IsOrdered node
    → id_at (u ∷ g) (with_children node (assign (children node) t child))
      ≡ (elim (memcmp (token_comparator.bytes t) (token_comparator.bytes u)) [
        | eq ↦ id_at g child
        | _ ↦ id_at (u ∷ g) node
      ])
unfolding id_at
id_at_split node t u g child o = ground (arith, find-assign node t u child o)

-- A child that is assigned keeps the ids, if it keeps those below the child that was there.
id_at-assign :
    (node : TmpIndexNode) (t : EncodedToken) (g : EncodedFormula) (child : TmpIndexNode) {id : ℕ}
    → IsOrdered node
    → ((rest : EncodedFormula) → g ≡ t ∷ rest → id_at g node ≡ some id → id_at rest child ≡ some id)
    → id_at g node ≡ some id
    → id_at g (with_children node (assign (children node) t child)) ≡ some id
id_at-assign node t [] child o below h = id_at_root node t child ∙ h
id_at-assign node t (u ∷ g) child o below h =
    ground (arith, id_at_split node t u g child o, eq_of_cmp t u, below g)

id_at_missing :
    (t : EncodedToken) (g : EncodedFormula) (node : TmpIndexNode)
    → find (children node) t ≡ none
    → id_at (t ∷ g) node ≡ none
unfolding id_at
id_at_missing t g node h = rw (h, id_at)

id_at_found :
    (t : EncodedToken) (g : EncodedFormula) (node : TmpIndexNode) {child : TmpIndexNode}
    → find (children node) t ≡ some child
    → id_at (t ∷ g) node ≡ id_at g child
unfolding id_at
id_at_found t g node h = rw (h, id_at)

-- In an index whose children are sorted, an insertion keeps the id of every formula that leads to
-- a leaf.
pub id_at-insert_from :
    (t : EncodedToken) (rest : List EncodedToken) (g : EncodedFormula) (node : TmpIndexNode)
    (next : ℕ) {id : ℕ}
    → IsOrdered node
    → id_at g node ≡ some id
    → id_at g (insert_from t rest node next).node ≡ some id
id_at-insert_from t [] g node next o h = elim (Option-cases (find (children node) t)) [
  | inl missing ↦ rw (insert_last_new t t [] node next missing) (
      id_at-assign node t g (fresh_leaf next) o
        (λ rest same there. absurd (cc (id_at_missing t rest node missing))) h)
  | inr (child, found) ↦ rw (insert_last_found t t [] node next child found) h
]
id_at-insert_from t (u ∷ rest) g node next o h = elim (Option-cases (find (children node) t)) [
  | inl missing ↦ rw (insert_new t u rest node next missing) (
      id_at-assign node t g _ o
        (λ rest' same there. absurd (cc (id_at_missing t rest' node missing))) h)
  | inr (child, found) ↦ rw (insert_found t u rest node next child found) (
      id_at-assign node t g _ o
        (λ rest' same there.
          id_at-insert_from u rest rest' child next (find-IsOrdered node t o found)
            (cc (id_at_found t rest' node found)))
        h)
]

-- So does one more solution of a formula.
pub id_at-increment_at :
    (f g : EncodedFormula) (node : TmpIndexNode) {id : ℕ}
    → IsOrdered node
    → id_at g node ≡ some id
    → id_at g (increment_at f node) ≡ some id
unfolding increment_at id_at node_id
id_at-increment_at [] g (inner c) o h = h
id_at-increment_at [] [] (leaf id n c) o h = h
id_at-increment_at [] (u ∷ g) (leaf id n c) o h = h
id_at-increment_at (t ∷ f) g node {id} o h = elim (Option-cases (find (children node) t)) [
  | inl missing ↦ subst (λ z. id_at g z ≡ some id) (sym (increment_missing t f node missing)) h
  | inr (child, found) ↦
      subst (λ z. id_at g z ≡ some id) (sym (increment_found t f node found))
        (id_at-assign node t g (increment_at f child) o
          (λ rest same there.
            id_at-increment_at f rest child (find-IsOrdered node t o found)
              (cc (id_at_found t rest node found)))
          h)
]

-- What the id says of a walk.
pub walk_of_id_at :
    (f : EncodedFormula) (node : TmpIndexNode) {id : ℕ}
    → id_at f node ≡ some id
    → (n : ℕ) × (c : Children) × (walk f node ≡ some (leaf id n c))
unfolding id_at walk get_child node_id
walk_of_id_at [] (inner c) h = absurd (cc)
walk_of_id_at [] (leaf id n c) h = (n, c, ground arith)
walk_of_id_at (t ∷ f) node h = elim (Option-cases (find (children node) t)) [
  | inl missing ↦ absurd (cc (id_at_missing t f node missing))
  | inr (child, found) ↦
      let (n, c, reached) = walk_of_id_at f child (sym (id_at_found t f node found) ∙ h) in
      (n, c, rw (found, walk) reached)
]

-- In an index of the right shape, complete expressions end in leaves without children.
pub walk-IsShaped :
    (k : ℕ) (f : EncodedFormula) (node : TmpIndexNode) {m : TmpIndexNode}
    → IsOrdered node
    → IsShaped k node
    → pending k (arities f) ≡ some 0
    → walk f node ≡ some m
    → (id n : ℕ) × (m ≡ leaf id n nil) × (id_at f node ≡ some id)
unfolding id_at walk get_child pending node_id
walk-IsShaped zero [] (leaf id n nil) o s p h = (id, n, ground arith, refl)
walk-IsShaped zero [] (leaf id n (cons t m rest)) o s p h = absurd s
walk-IsShaped zero [] (inner c) o s p h = absurd s
walk-IsShaped (suc k) [] node o s p h = absurd (ground arith)
walk-IsShaped zero (t ∷ f) node o s p h = absurd (cc)
walk-IsShaped (suc k) (t ∷ f) node o s p h = elim (Option-cases (find (children node) t)) [
  | inl missing ↦ absurd (ground arith)
  | inr (child, found) ↦
      let (id, n, is, there) =
        walk-IsShaped (k + t.arity) f child (find-IsOrdered node t o found)
          (find-IsShaped k node t o (IsOpen-IsShaped k node s) found) p (ground arith) in
      (id, n, is, rw (found, id_at) there)
]

-- A token with an id behind it leads to a child; an inner node has no id.
pub find_of_id_at :
    (t : EncodedToken) (f : EncodedFormula) (node : TmpIndexNode) {id : ℕ}
    → id_at (t ∷ f) node ≡ some id
    → (child : TmpIndexNode) × (find (children node) t ≡ some child)
find_of_id_at t f node h = elim (Option-cases (find (children node) t)) [
  | inl missing ↦ absurd (cc (id_at_missing t f node missing))
  | inr (child, found) ↦ (child, found)
]

pub id_at_inner : (c : Children) → id_at [] (inner c) ≡ none
unfolding id_at node_id
id_at_inner c = refl
