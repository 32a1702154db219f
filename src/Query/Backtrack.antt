-- ===== src/Query/Backtrack.antt =====
-- src/mws/query/SearchContext.cpp: the backtracking contexts, QvarCtxt and RangeCtxt, over
-- TmpIndexAccessor. `none` is undefined behaviour, a failed assertion, an exception, or an end of
-- the fuel. Whether a number is within the bounds of a range is a parameter, since it is computed
-- in doubles.
use mws.Prelude.{
  ℕ, Bool, true, false, ◌&&◌, Option, none, some, List, [], ◌∷◌, take, drop, ◌==◌, if◌then◌else◌,
}
use mws.Prelude.Bytes.{Bytes, codes, bytes_eq}
use mws.Dbc.{MemCrawlDb, MemFormulaDb}
use mws.Index.EncodedToken.{EncodedToken}
use mws.Index.Encoder.{decode_meaning_id}
use mws.Index.TmpIndex.{TmpIndexNode, children, get_child}
use mws.Index.Iterator.{ContainerIterator, IndexIterator, set_root, next}

-- What a context is searched in: the keys of the decoder, the databases, and the test of a number
-- against the bounds of the range with an id.
pub record Setting : Type 0 where
  pub table : List Bytes
  pub in_range : ℕ → Bytes → Bool
  pub crawl_db : Option MemCrawlDb
  pub formula_db : MemFormulaDb
  pub include_hits : Bool
  pub include_mws_ids : Bool
  pub iterator_fuel : ℕ

-- A slot of `bkTable`: a QvarCtxt, or a RangeCtxt with its bounds by id, iterator and root.
pub data BacktrackCtxt : Type 0 where
  qvar_ctxt : IndexIterator → Bool → BacktrackCtxt
  range_ctxt : ℕ → ContainerIterator → TmpIndexNode → Bool → BacktrackCtxt

-- RangeCtxt::validSubst: a number without children, in range.
unfoldable pub valid_subst : Setting → ℕ → EncodedToken → Option Bool
valid_subst setting bounds t =
    if t.arity == 0
    then elim (decode_meaning_id setting.table t.id) [
      | none ↦ none
      | some meaning ↦
          some (bytes_eq (take 3 meaning) (codes "cn#") && setting.in_range bounds (drop 3 meaning))
    ]
    else some false

-- The iterator at the first valid child, or else at the last one.
unfoldable pub seek : Setting → ℕ → ContainerIterator → Option ContainerIterator
seek setting bounds [] = none
seek setting bounds ((t, n) ∷ rest) =
    let later = seek setting bounds rest in
    elim (valid_subst setting bounds t) [
      | none ↦ none
      | some true ↦ some ((t, n) ∷ rest)
      | some false ↦ elim rest [ [] ↦ some ((t, n) ∷ []) | e ∷ es ↦ later ]
    ]

-- A context afterwards, and the node that it found.
abbrev pub Solved : Type 0
Solved = Option (BacktrackCtxt × Option TmpIndexNode)

-- The end of RangeCtxt::solve and nextSol, after the search for a valid child.
unfoldable pub settle : Setting → ℕ → ContainerIterator → TmpIndexNode → Solved
settle setting bounds [] root = none
settle setting bounds ((t, n) ∷ rest) root = elim (valid_subst setting bounds t) [
  | none ↦ none
  | some false ↦ some (range_ctxt bounds ((t, n) ∷ rest) root false, none)
  | some true ↦ elim (get_child root t) [
    | none ↦ none
    | some child ↦ some (range_ctxt bounds ((t, n) ∷ rest) root true, some child)
  ]
]

-- `solve`, of both contexts.
unfoldable pub solve : Setting → BacktrackCtxt → TmpIndexNode → Solved
solve setting (qvar_ctxt it solved) root = elim (next setting.iterator_fuel (set_root it root)) [
  | none ↦ none
  | some (it', found) ↦ elim found [
    | none ↦ some (qvar_ctxt it' solved, none)
    | some n ↦ some (qvar_ctxt it' true, some n)
  ]
]
solve setting (range_ctxt bounds it old solved) root = elim (seek setting bounds (children root)) [
  | none ↦ none
  | some it' ↦ settle setting bounds it' root
]

-- `nextSol`, of both contexts.
unfoldable pub next_sol : Setting → BacktrackCtxt → Solved
next_sol setting (qvar_ctxt it solved) = elim (next setting.iterator_fuel it) [
  | none ↦ none
  | some (it', found) ↦ elim found [
    | none ↦ some (qvar_ctxt it' false, none)
    | some n ↦ some (qvar_ctxt it' solved, some n)
  ]
]
next_sol setting (range_ctxt bounds [] root solved) = none
next_sol setting (range_ctxt bounds (e ∷ []) root solved) =
    some (range_ctxt bounds (e ∷ []) root false, none)
next_sol setting (range_ctxt bounds (e ∷ f ∷ rest) root solved) =
    elim (seek setting bounds (f ∷ rest)) [
      | none ↦ none
      | some it' ↦ settle setting bounds it' root
    ]
