-- ===== src/Index/TmpIndex/Insert.antt =====
-- What each token sequence leads to, before and after an insertion.
use Prim.Native.Nat.Ordering.{eq}
use mws.Prelude.{
  ℕ, ◌+◌, ◌≡◌, ◌≢◌, refl, sym, ◌∙◌, ◌%◌, Option, none, some, List, [], ◌∷◌, arith, Option-cases,
  inl, inr,
}
use mws.Prelude.Bytes.{memcmp}
use mws.Prelude.Bits.{u32_mod}
use mws.Types.VectorMap.{VectorMap, find, assign}
use mws.Types.VectorMap.Keys.{eq_of_cmp}
use mws.Types.VectorMap.View.{lookup, find-eq-lookup}
use mws.Index.EncodedToken.{EncodedToken, EncodedFormula, token_comparator}
use mws.Index.TmpIndex.{
  TmpIndexNode, inner, leaf, nil, children, with_children, new_node, put_back, insert_from, walk,
  get_child, leaf_data,
}
use mws.Index.TmpIndex.Ordered.{
  IsOrdered, find-IsOrdered, IsOrdered-assign, find-assign, find-assign_self,
}

-- The id and the count of solutions of the leaf at the end of a token sequence.
unfoldable pub leaf_at : EncodedFormula → TmpIndexNode → Option (ℕ × ℕ)
leaf_at [] node = leaf_data node
leaf_at (t ∷ rest) node = elim (find (children node) t) [
  | none ↦ none
  | some child ↦ leaf_at rest child
]

leaf_data-with_children :
    (node : TmpIndexNode) (v : VectorMap EncodedToken TmpIndexNode)
    → leaf_data (with_children node v) ≡ leaf_data node
leaf_data-with_children (inner c) v = refl
leaf_data-with_children (leaf id s c) v = refl

find_nil : (t : EncodedToken) → find {V = TmpIndexNode} [] t ≡ none
unfolding find
find_nil t = find-eq-lookup [] t tt ∙ unfold lookup in refl

leaf_at-new_node : (g : EncodedFormula) → leaf_at g new_node ≡ none
unfolding leaf_at
leaf_at-new_node [] = refl
leaf_at-new_node (t ∷ g) = rw (find_nil t, leaf_at)

leaf_at_new_leaf :
    (id n : ℕ) (t : EncodedToken) (g : EncodedFormula) → leaf_at (t ∷ g) (leaf id n nil) ≡ none
unfolding leaf_at
leaf_at_new_leaf id n t g = rw (find_nil t, leaf_at)

abbrev pub fresh_leaf : ℕ → TmpIndexNode
fresh_leaf next = leaf ((next + 1) % u32_mod) 0 nil

module _ (t u : EncodedToken) (rest : List EncodedToken) (node : TmpIndexNode) (next : ℕ) where
  pub insert_last_new :
      find (children node) t ≡ none
      → insert_from t [] node next
        ≡ put_back node t (record {
          node = fresh_leaf next;
          next_id = (next + 1) % u32_mod;
          reached = fresh_leaf next;
        })
  unfolding insert_from
  insert_last_new h = rw (h, insert_from)

  pub insert_last_found :
      (child : TmpIndexNode)
      → find (children node) t ≡ some child
      → insert_from t [] node next ≡ record { node = node; next_id = next; reached = child }
  unfolding insert_from
  insert_last_found child h = rw (h, insert_from)

  pub insert_new :
      find (children node) t ≡ none
      → insert_from t (u ∷ rest) node next ≡ put_back node t (insert_from u rest new_node next)
  unfolding insert_from
  insert_new h = rw (h, insert_from)

  pub insert_found :
      (child : TmpIndexNode)
      → find (children node) t ≡ some child
      → insert_from t (u ∷ rest) node next ≡ put_back node t (insert_from u rest child next)
  unfolding insert_from
  insert_found child h = rw (h, insert_from)

walk_step :
    (t : EncodedToken) (g : EncodedFormula) (node : TmpIndexNode) {child : TmpIndexNode}
    → find (children node) t ≡ some child
    → walk (t ∷ g) node ≡ walk g child
unfolding walk get_child
walk_step t g node h = rw (h, walk)

-- In an index whose children are sorted, following a formula after its insertion leads to the
-- node that the insertion returned.
pub walk-insert_from :
    (t : EncodedToken) (rest : List EncodedToken) (node : TmpIndexNode) (next : ℕ)
    → IsOrdered node
    → walk (t ∷ rest) (insert_from t rest node next).node
      ≡ some (insert_from t rest node next).reached
walk-insert_from t [] node next o = elim (Option-cases (find (children node) t)) [
  | inl missing ↦
      rw (insert_last_new t t [] node next missing)
        (walk_step t [] _ (find-assign_self node t (fresh_leaf next) o) ∙ unfold walk in refl)
  | inr (child, found) ↦
      rw (insert_last_found t t [] node next child found)
        (walk_step t [] node found ∙ unfold walk in refl)
]
walk-insert_from t (u ∷ rest) node next o = elim (Option-cases (find (children node) t)) [
  | inl missing ↦ rw (insert_new t u rest node next missing) (
      walk_step t (u ∷ rest) _ (find-assign_self node t (insert_from u rest new_node next).node o)
      ∙ walk-insert_from u rest new_node next (tt, tt))
  | inr (child, found) ↦ rw (insert_found t u rest node next child found) (
      walk_step t (u ∷ rest) _ (find-assign_self node t (insert_from u rest child next).node o)
      ∙ walk-insert_from u rest child next (find-IsOrdered node t o found))
]

leaf_at_split :
    (node : TmpIndexNode) (t u : EncodedToken) (g : EncodedFormula) (child : TmpIndexNode)
    → IsOrdered node
    → leaf_at (u ∷ g) (with_children node (assign (children node) t child))
      ≡ (elim (memcmp (token_comparator.bytes t) (token_comparator.bytes u)) [
        | eq ↦ leaf_at g child
        | _ ↦ leaf_at (u ∷ g) node
      ])
unfolding leaf_at
leaf_at_split node t u g child o = ground (arith, find-assign node t u child o)

-- A new child leaves the sequences alone that read the same through it.
leaf_at_same :
    (node : TmpIndexNode) (t u : EncodedToken) (g : EncodedFormula) (child : TmpIndexNode)
    → IsOrdered node
    → (t ≡ u → leaf_at g child ≡ leaf_at (t ∷ g) node)
    → leaf_at (u ∷ g) (with_children node (assign (children node) t child)) ≡ leaf_at (u ∷ g) node
leaf_at_same node t u g child o same =
    ground (arith, leaf_at_split node t u g child o, eq_of_cmp t u, same)

leaf_at_missing :
    (t : EncodedToken) (g : EncodedFormula) (node : TmpIndexNode)
    → find (children node) t ≡ none
    → leaf_at (t ∷ g) node ≡ none
unfolding leaf_at
leaf_at_missing t g node h = rw (h, leaf_at)

leaf_at_found :
    (t : EncodedToken) (g : EncodedFormula) (node : TmpIndexNode) {child : TmpIndexNode}
    → find (children node) t ≡ some child
    → leaf_at (t ∷ g) node ≡ leaf_at g child
unfolding leaf_at
leaf_at_found t g node h = rw (h, leaf_at)

leaf_at_fresh :
    (next : ℕ) (t : EncodedToken) (g : EncodedFormula)
    → t ∷ g ≢ t ∷ []
    → leaf_at g (fresh_leaf next) ≡ none
leaf_at_fresh next t [] h = absurd (h refl)
leaf_at_fresh next t (v ∷ g) h = leaf_at_new_leaf ((next + 1) % u32_mod) 0 v g

-- In an index whose children are sorted, inserting a formula changes nothing for any other token
-- sequence: it leads to the leaf, or to none, that it led to before, with the same id and count.
pub leaf_at-insert_from :
    (t : EncodedToken) (rest : List EncodedToken) (g : EncodedFormula) (node : TmpIndexNode)
    (next : ℕ)
    → IsOrdered node
    → g ≢ t ∷ rest
    → leaf_at g (insert_from t rest node next).node ≡ leaf_at g node
leaf_at-insert_from t [] [] node next o h = elim (Option-cases (find (children node) t)) [
  | inl missing ↦
      rw (insert_last_new t t [] node next missing)
        (unfold leaf_at in leaf_data-with_children node _)
  | inr (child, found) ↦ rw (insert_last_found t t [] node next child found)
]
leaf_at-insert_from t [] (u ∷ g) node next o h = elim (Option-cases (find (children node) t)) [
  | inl missing ↦ rw (insert_last_new t t [] node next missing) (
      leaf_at_same node t u g (fresh_leaf next) o (λ q.
        leaf_at_fresh next t g (λ z. h (rw (← q) z)) ∙ sym (leaf_at_missing t g node missing)))
  | inr (child, found) ↦ rw (insert_last_found t t [] node next child found)
]
leaf_at-insert_from t (r ∷ rest) [] node next o h = elim (Option-cases (find (children node) t)) [
  | inl missing ↦
      rw (insert_new t r rest node next missing) (unfold leaf_at in leaf_data-with_children node _)
  | inr (child, found) ↦
      rw (insert_found t r rest node next child found)
        (unfold leaf_at in leaf_data-with_children node _)
]
leaf_at-insert_from t (r ∷ rest) (u ∷ g) node next o h =
    elim (Option-cases (find (children node) t)) [
      | inl missing ↦ rw (insert_new t r rest node next missing) (
          leaf_at_same node t u g (insert_from r rest new_node next).node o (λ q.
            leaf_at-insert_from r rest g new_node next (tt, tt) (λ z. h (cc))
            ∙ leaf_at-new_node g
            ∙ sym (leaf_at_missing t g node missing)))
      | inr (child, found) ↦ rw (insert_found t r rest node next child found) (
          leaf_at_same node t u g (insert_from r rest child next).node o (λ q.
            leaf_at-insert_from r rest g child next (find-IsOrdered node t o found) (λ z. h (cc))
            ∙ sym (leaf_at_found t g node found)))
    ]

-- An insertion keeps the children of every node of the index sorted by the bytes of their tokens.
pub insert_from-IsOrdered :
    (t : EncodedToken) (rest : List EncodedToken) (node : TmpIndexNode) (next : ℕ)
    → IsOrdered node
    → IsOrdered (insert_from t rest node next).node
insert_from-IsOrdered t [] node next o = elim (Option-cases (find (children node) t)) [
  | inl missing ↦
      rw (insert_last_new t t [] node next missing)
        (IsOrdered-assign node t (fresh_leaf next) o (tt, tt))
  | inr (child, found) ↦ rw (insert_last_found t t [] node next child found) o
]
insert_from-IsOrdered t (u ∷ rest) node next o = elim (Option-cases (find (children node) t)) [
  | inl missing ↦
      rw (insert_new t u rest node next missing)
        (IsOrdered-assign node t _ o (insert_from-IsOrdered u rest new_node next (tt, tt)))
  | inr (child, found) ↦ rw (insert_found t u rest node next child found) (
      IsOrdered-assign node t _ o
        (insert_from-IsOrdered u rest child next (find-IsOrdered node t o found)))
]
