-- ===== src/Index/Iterator.antt =====
-- src/mws/index/IndexIterator.hpp over TmpIndexAccessor, and ContainerIterator.hpp: the complete
-- expressions below a node, one after the other. An iterator over children is the list of the
-- entries from the current one on. `_arity` is an `int` that is never below 0: a push adds the
-- arity of a token less one while it is positive, and a pop takes the same away.
pub mod Callback
pub mod Traversal
use mws.Prelude.{ℕ, zero, suc, ◌+◌, ◌-◌, Option, none, some, List, [], ◌∷◌, ◌==◌, if◌then◌else◌}
use mws.Types.VectorMap.{VectorMap}
use mws.Index.EncodedToken.{EncodedToken}
use mws.Index.TmpIndex.{TmpIndexNode, children}

abbrev pub ContainerIterator : Type 0
ContainerIterator = VectorMap EncodedToken TmpIndexNode

-- TmpIndexAccessor::getToken and getNode; `none` reads through an iterator at the end.
abbrev pub get_token : ContainerIterator → Option EncodedToken
get_token [] = none
get_token ((t, n) ∷ rest) = some t

abbrev pub get_node : ContainerIterator → Option TmpIndexNode
get_node [] = none
get_node ((t, n) ∷ rest) = some n

-- The back of the list of iterators stands in front.
pub record IndexIterator : Type 0 where
  pub backtrack : List ContainerIterator
  pub arity : ℕ
  pub root : TmpIndexNode

-- The constructor, and `set`, which leaves the iterators alone.
abbrev pub new_iterator : TmpIndexNode → IndexIterator
new_iterator root = record { backtrack = []; arity = 1; root = root }

abbrev pub set_root : IndexIterator → TmpIndexNode → IndexIterator
set_root it root = record it { arity = 1; root = root }

-- `_push`
unfoldable pub push : IndexIterator → ContainerIterator → Option IndexIterator
push it c = elim (get_token c) [
  | none ↦ none
  | some t ↦ some (record it { backtrack = c ∷ it.backtrack; arity = it.arity + t.arity - 1 })
]

-- "complete expression": children are pushed while expressions are open; `none` is also an end of
-- the fuel.
unfoldable pub complete : ℕ → IndexIterator → Option IndexIterator
complete zero it = if it.arity == 0 then some it else none
complete (suc fuel) it = elim it.arity [
  | zero ↦ some it
  | suc more ↦ elim it.backtrack [
    | [] ↦ none
    | c ∷ cs ↦ elim (get_node c) [
      | none ↦ none
      | some n ↦ elim (push it (children n)) [ none ↦ none | some it' ↦ complete fuel it' ]
    ]
  ]
]

-- The loop of `_pop`, then `_next`: the iterators with the last unexplored branch taken, and the
-- arity; an empty list means that there is none.
unfoldable pub advance : List ContainerIterator → ℕ → List ContainerIterator × ℕ
advance [] arity = ([], arity)
advance ([] ∷ cs) arity = ([], arity)
advance (((t, n) ∷ []) ∷ cs) arity = advance cs (arity + 1 - t.arity)
advance (((t, n) ∷ (u, m) ∷ rest) ∷ cs) arity = (((u, m) ∷ rest) ∷ cs, arity + u.arity - t.arity)

-- The result of `next`: the iterator, and the node if there is one more expression.
unfoldable pub finish : ℕ → IndexIterator → Option (IndexIterator × Option TmpIndexNode)
unfolding complete
finish fuel it = elim (complete fuel it) [
  | none ↦ none
  | some it' ↦ elim it'.backtrack [
    | [] ↦ none
    | c ∷ cs ↦ elim (get_node c) [ none ↦ none | some n ↦ some (it', some n) ]
  ]
]

unfoldable pub next : ℕ → IndexIterator → Option (IndexIterator × Option TmpIndexNode)
next fuel it = elim it.backtrack [
  | [] ↦ elim (push it (children it.root)) [ none ↦ none | some it' ↦ finish fuel it' ]
  | c ∷ cs ↦
      let moved = advance (c ∷ cs) it.arity in
      elim (moved.0) [
        | [] ↦ some (record it { backtrack = []; arity = moved.1 }, none)
        | d ∷ ds ↦ finish fuel (record it { backtrack = d ∷ ds; arity = moved.1 })
      ]
]
