-- ===== src/Index/TmpIndex.antt =====
-- src/mws/index/TmpIndex.{hpp,cpp}, TmpIndexAccessor.hpp: the index in memory, a tree whose edges
-- are encoded tokens. Nodes are owned by one parent each, so the heap of nodes is a tree of values,
-- and a write through a node's pointer is a write along its path.
pub mod Ordered
pub mod Insert
pub mod Shaped
pub mod Reach
use mws.Prelude.{ℕ, ◌+◌, ◌%◌, Option, none, some, List, [], ◌∷◌}
use mws.Prelude.Bits.{u32_mod}
use mws.Types.VectorMap.{VectorMap, find, assign}
use mws.Index.EncodedToken.{EncodedToken, EncodedFormula, token_comparator}

mutual
  -- A TmpLeafNode is a TmpIndexNode too: it has its id, its count of solutions, and children.
  pub data TmpIndexNode : Type 0 where
    inner : Children → TmpIndexNode
    leaf : ℕ → ℕ → Children → TmpIndexNode

  -- The vector of `_MapType`, as a type of the same block.
  pub data Children : Type 0 where
    nil : Children
    cons : EncodedToken → TmpIndexNode → Children → Children

abbrev pub to_vector : Children → VectorMap EncodedToken TmpIndexNode
to_vector nil = []
to_vector (cons t n rest) = (t, n) ∷ to_vector rest

abbrev pub of_vector : VectorMap EncodedToken TmpIndexNode → Children
of_vector [] = nil
of_vector ((t, n) ∷ rest) = cons t n (of_vector rest)

abbrev pub children : TmpIndexNode → VectorMap EncodedToken TmpIndexNode
children (inner c) = to_vector c
children (leaf id solutions c) = to_vector c

abbrev pub with_children : TmpIndexNode → VectorMap EncodedToken TmpIndexNode → TmpIndexNode
with_children (inner c) v = inner (of_vector v)
with_children (leaf id solutions c) v = leaf id solutions (of_vector v)

-- `new TmpIndexNode`
abbrev pub new_node : TmpIndexNode
new_node = inner nil

-- The member `mRoot` and the static `TmpLeafNode::nextId`, a uint32_t.
pub record TmpIndex : Type 0 where
  pub root : TmpIndexNode
  pub next_id : ℕ

abbrev pub empty : TmpIndex
empty = record { root = new_node; next_id = 0 }

-- What a descent leaves behind: the node it started at, `nextId`, and the node whose pointer is
-- returned.
pub record Descent : Type 0 where
  pub node : TmpIndexNode
  pub next_id : ℕ
  pub reached : TmpIndexNode

-- `children[t]` gets the node that the rest of the descent made of the child.
abbrev pub put_back : TmpIndexNode → EncodedToken → Descent → Descent
put_back node t d = record d { node = with_children node (assign (children node) t d.node) }

-- `insertData` from a node on, with the token `t` and the tokens behind it: a missing inner node
-- is made, and for the last token a missing leaf, with the next id and no solutions.
unfoldable pub insert_from : EncodedToken → List EncodedToken → TmpIndexNode → ℕ → Descent
insert_from t [] node next_id = elim (find (children node) t) [
  | some child ↦ record { node = node; next_id = next_id; reached = child }
  | none ↦
      let id = (next_id + 1) % u32_mod in
      put_back node t (record { node = leaf id 0 nil; next_id = id; reached = leaf id 0 nil })
]
insert_from t (u ∷ rest) node next_id = elim (find (children node) t) [
  | some child ↦ put_back node t (insert_from u rest child next_id)
  | none ↦ put_back node t (insert_from u rest new_node next_id)
]

-- `insertData`; `none` is the failed assertion that the formula has a token.
unfoldable pub insert_data : TmpIndex → EncodedFormula → Option (TmpIndex × TmpIndexNode)
insert_data index [] = none
insert_data index (t ∷ rest) =
    let d = insert_from t rest index.root index.next_id in
    some (record { root = d.node; next_id = d.next_id }, d.reached)

-- TmpIndexAccessor::getChild
unfoldable pub get_child : TmpIndexNode → EncodedToken → Option TmpIndexNode
get_child node t = find (children node) t

-- The node at the end of a token sequence.
unfoldable pub walk : EncodedFormula → TmpIndexNode → Option TmpIndexNode
walk [] node = some node
walk (t ∷ rest) node = elim (get_child node t) [ none ↦ none | some child ↦ walk rest child ]

-- TmpIndexAccessor::getFormulaId and getHitsCount, of a node that is a leaf.
abbrev pub leaf_data : TmpIndexNode → Option (ℕ × ℕ)
leaf_data (inner c) = none
leaf_data (leaf id solutions c) = some (id, solutions)

-- `leaf->solutions++` of IndexBuilder, through the pointer to the leaf; `unsigned int`.
unfoldable pub increment_at : EncodedFormula → TmpIndexNode → TmpIndexNode
increment_at [] (inner c) = inner c
increment_at [] (leaf id solutions c) = leaf id ((solutions + 1) % u32_mod) c
increment_at (t ∷ rest) node = elim (find (children node) t) [
  | none ↦ node
  | some child ↦ with_children node (assign (children node) t (increment_at rest child))
]
