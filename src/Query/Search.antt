-- ===== src/Query/Search.antt =====
-- src/mws/query/SearchContext.cpp: `getResult`, over TmpIndexAccessor. `none` is undefined
-- behaviour, a failed assertion, an exception, or an end of the fuel. The time of the search is
-- left out. `lastSolved` is an `int` from -1 on, so `last_solved` is one more.
pub mod Constants
use mws.Prelude.{
  ℕ, zero, suc, ◌+◌, ◌-◌, ◌%◌, false, ◌&&◌, Option, none, some, List, [], ◌∷◌, ◌++◌, length,
  get_elem?, set, reverse, ltb, leb, ◌==◌, if◌then◌else◌,
}
use mws.Prelude.Bytes.{Bytes}
use mws.Prelude.Bits.{u32_mod}
use mws.Common.Parcel.{FormulaPath}
use mws.Dbc.{thrown, query_answers}
use mws.Dbc.Page.{collect}
use mws.Index.EncodedToken.{encoded_token}
use mws.Index.TmpIndex.{TmpIndexNode, TmpIndex, get_child, leaf_data}
use mws.Index.Iterator.{ContainerIterator, new_iterator, next, get_token}
use mws.Query.Backtrack.{Setting, BacktrackCtxt, qvar_ctxt, range_ctxt, solve, next_sol}
use mws.Query.Context.{qvar_token, range_token, const_token, NodeTriple, ContextState}

-- The set-up of `bkTable` over the tokens, `specialId < bkTablePos` for those that were met.
unfoldable pub setup : List NodeTriple → List BacktrackCtxt → TmpIndexNode → List BacktrackCtxt
setup [] table root = table
setup (t ∷ rest) table root =
    setup rest
      (elim t.type_ [
        | const_token ↦ table
        | qvar_token ↦
            if ltb t.arity (length table)
            then table
            else table ++ qvar_ctxt (new_iterator root) false ∷ []
        | range_token ↦
            if ltb t.arity (length table)
            then table
            else table ++ range_ctxt t.meaning_id [] root false ∷ []
      ])
      root

-- MwsAnswset
pub record MwsAnswset : Type 0 where
  pub answers : List (FormulaPath × Bytes)
  pub ids : List ℕ
  pub total : ℕ

-- The local variables of the loop.
pub record SearchState : Type 0 where
  pub table : List BacktrackCtxt
  pub current_token : ℕ
  pub found : ℕ
  pub last_solved : ℕ
  pub node : Option TmpIndexNode
  pub answers : List (FormulaPath × Bytes)
  pub ids : List ℕ

-- `set::insert`
unfoldable pub insert_id : ℕ → List ℕ → List ℕ
insert_id id [] = id ∷ []
insert_id id (x ∷ xs) = let rest = insert_id id xs in if x == id then x ∷ xs else x ∷ rest

-- The path of a solved variable, followed from the current node.
unfoldable pub follow : List ContainerIterator → TmpIndexNode → Option (Option TmpIndexNode)
follow [] node = some (some node)
follow (c ∷ cs) node = elim (get_token c) [
  | none ↦ none
  | some t ↦ elim (get_child node t) [ none ↦ some none | some n ↦ follow cs n ]
]

-- A step at a token with a special id: the context is solved from the current node.
abbrev pub solve_at : Setting → ℕ → TmpIndexNode → SearchState → Option SearchState
solve_at setting id node s = elim (get_elem? s.table id) [
  | none ↦ none
  | some ctxt ↦ elim (solve setting ctxt node) [
    | none ↦ none
    | some (ctxt', found) ↦ elim found [
      | none ↦ some (record s { table = set s.table id ctxt'; node = none })
      | some n ↦
          some (record s { table = set s.table id ctxt'; node = some n; last_solved = id + 1 })
    ]
  ]
]

-- The evaluation of a token; the node is `none` afterwards if the search has to backtrack.
unfoldable pub evaluate : Setting → NodeTriple → SearchState → Option SearchState
evaluate setting t s = elim s.node [
  | none ↦ none
  | some node ↦ elim t.type_ [
    | const_token ↦ some (record s { node = get_child node (encoded_token t.meaning_id t.arity) })
    | range_token ↦ solve_at setting t.arity node s
    | qvar_token ↦ elim (get_elem? s.table t.arity) [
      | none ↦ none
      | some (range_ctxt bounds it root solved) ↦
          if solved then none else solve_at setting t.arity node s
      | some (qvar_ctxt it solved) ↦
          if solved
          then elim (follow (reverse it.backtrack) node) [
            | none ↦ none
            | some n ↦ some (record s { node = n })
          ]
          else solve_at setting t.arity node s
    ]
  ]
]

-- The page of hits that `dbQueryManager->query` is asked for.
abbrev pub db_offset : ℕ → ℕ → ℕ
db_offset offset found = if ltb offset found then 0 else offset - found

abbrev pub db_max_size : ℕ → ℕ → ℕ → ℕ
db_max_size offset size found = if ltb offset found then (size + offset) % u32_mod - found else size

-- "Handling the solutions", with `size` as it was cut to `maxTotal`.
unfoldable pub accept : Setting → ℕ → ℕ → ℕ → SearchState → Option SearchState
accept setting offset size max_total s = elim s.node [
  | none ↦ none
  | some node ↦ elim (leaf_data node) [
    | none ↦ none
    | some (formula_id, solutions) ↦
        let hits = if setting.include_hits then solutions else 1 in
        let counted = (s.found + hits) % u32_mod in
        let found' = if ltb max_total counted then max_total else counted in
        if ltb s.found ((size + offset) % u32_mod) && ltb offset (s.found + hits)
        then (let ids' = if setting.include_mws_ids then insert_id formula_id s.ids else s.ids in
            if setting.include_hits
            then (let asked =
                  query_answers setting.crawl_db setting.formula_db formula_id
                    (db_offset offset s.found) (db_max_size offset size s.found) collect
                    s.answers in
                elim (asked.1) [
                  | thrown ↦ none
                  | _ ↦ some (record s { found = found'; answers = asked.0; ids = ids' })
                ])
            else some (record s { found = found'; ids = ids' }))
        else some (record s { found = found' })
  ]
]

-- The loop over `nextSol`: the table, `lastSolved` and the next node, if there is one.
unfoldable pub backtrack :
    Setting → ℕ → List BacktrackCtxt → Option (List BacktrackCtxt × ℕ × Option TmpIndexNode)
backtrack setting zero table = some (table, 0, none)
backtrack setting (suc i) table = elim (get_elem? table i) [
  | none ↦ none
  | some ctxt ↦ elim (next_sol setting ctxt) [
    | none ↦ none
    | some (ctxt', found) ↦ elim found [
      | none ↦ backtrack setting i (set table i ctxt')
      | some n ↦ some (set table i ctxt', suc i, some n)
    ]
  ]
]

-- What a round ends with.
pub data Round : Type 0 where
  again : SearchState → Round
  finished : SearchState → Round

-- The end of a round that backtracks.
unfoldable pub retreat : Setting → List ℕ → SearchState → Option Round
retreat setting points s = elim (backtrack setting s.last_solved s.table) [
  | none ↦ none
  | some r ↦
      let s' = record s { table = r.0; last_solved = r.1; node = r.2 } in
      elim (r.1) [
        | zero ↦ some (finished s')
        | suc i ↦ elim (get_elem? points i) [
          | none ↦ none
          | some p ↦ some (again (record s' { current_token = p }))
        ]
      ]
]

-- One round of the loop, its condition included.
unfoldable pub round : Setting → ContextState → ℕ → ℕ → ℕ → SearchState → Option Round
round setting context offset size max_total s =
    if ltb s.found max_total
    then elim (get_elem? context.expr s.current_token) [
      | none ↦ elim (accept setting offset size max_total s) [
        | none ↦ none
        | some s' ↦ retreat setting context.backtrack_points s'
      ]
      | some t ↦ elim (evaluate setting t s) [
        | none ↦ none
        | some s' ↦ elim s'.node [
          | none ↦ retreat setting context.backtrack_points s'
          | some n ↦ some (again (record s' { current_token = s'.current_token + 1 }))
        ]
      ]
    ]
    else some (finished s)

unfoldable pub search_loop :
    ℕ → Setting → ContextState → ℕ → ℕ → ℕ → SearchState → Option SearchState
search_loop zero setting context offset size max_total s = none
search_loop (suc fuel) setting context offset size max_total s =
    elim (round setting context offset size max_total s) [
      | none ↦ none
      | some (finished s') ↦ some s'
      | some (again s') ↦ search_loop fuel setting context offset size max_total s'
    ]

-- "Checking the arguments": `offset + size` is an unsigned int.
abbrev pub cut_size : ℕ → ℕ → ℕ → ℕ
cut_size offset size max_total =
    if ltb max_total ((offset + size) % u32_mod)
    then (if leb max_total offset then 0 else max_total - offset)
    else size

abbrev pub start_search : ContextState → TmpIndexNode → SearchState
start_search context root = record {
  table = setup context.expr [] root;
  current_token = 0;
  found = 0;
  last_solved = 0;
  node = some root;
  answers = [];
  ids = [];
}

unfoldable pub get_result : ℕ → Setting → ContextState → TmpIndex → ℕ → ℕ → ℕ → Option MwsAnswset
get_result fuel setting context index offset size max_total =
    elim (search_loop fuel setting context offset (cut_size offset size max_total) max_total
      (start_search context index.root)) [
        | none ↦ none
        | some s ↦ some (record { answers = s.answers; ids = s.ids; total = s.found })
      ]
