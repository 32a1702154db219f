-- ===== src/Query/Handler/Reported.antt =====
-- The handler over an exported index, with the engine in C.
use mws.Prelude.{
  ℕ, suc, ◌+◌, ◌%◌, ◌≤◌, ◌≡◌, Bool, true, false, some, List, [], arith, Option-cases, inl, inr, All,
  length, take, drop, ◌++◌, nat_eq, list_eq,
}
use mws.Prelude.Bits.{u32_mod}
use mws.Prelude.Bytes.{Bytes}
use mws.Common.IdDictionary.{IdDictionary}
use mws.Dbc.Lev.{
  LevCrawlDb, LevFormulaDb, IsTogether, IsLevKnown, infos_of, lev_answers,
  lev_query_answers-collect,
}
use mws.Dbc.{FormulaInfo}
use mws.Index.EncodedToken.{EncodedToken, encoded_token_is_var}
use mws.Index.Encoder.{Encoded}
use mws.Index.Export.Walk.{walk_file}
use mws.Index.Memsector.{Piece}
use mws.Query.Engine.{query_continue, read_leaf, max_query_stack_size}
use mws.Query.Engine.Match.{query_engine_run}
use mws.Query.Engine.Constants.{has_no_vars, report, query_engine_run-report}
use mws.Query.Handler.{with_info, new_answset, encode_query, result_callback, handle_query_engine}
use mws.XmlParser.QueryReader.{Query}

module _ (digits : ℕ → Bytes) (crawl_db : LevCrawlDb) (before own behind : LevFormulaDb)
    (q : Query) where
  abbrev pub page : List FormulaInfo
  page = take (q.result_max_size % u32_mod) (drop (q.result_limit_min % u32_mod) (infos_of own))

  abbrev pub formula_db : LevFormulaDb
  formula_db = before ++ (own ++ behind)

  callback-collect :
      (num_hits id : ℕ)
      → IsTogether digits id before own behind
      → All (IsLevKnown digits crawl_db) page
      → result_callback digits crawl_db formula_db q (some new_answset) num_hits id ≡ (
        some
            (record { answers = lev_answers digits crawl_db page; ids = []; total = 0 + num_hits }),
        query_continue,
      )
  unfolding result_callback
  callback-collect num_hits id together known =
      let asked =
        lev_query_answers-collect digits crawl_db before own behind id
          (q.result_limit_min % u32_mod) (q.result_max_size % u32_mod) together known in
      ground (arith, asked)

  -- For a query that is encoded without failure to at most 512 constant tokens, a memory sector
  -- where no node on their path has an entry for a variable and where they lead to a leaf, a
  -- LevelDB database of formulas where the entries of the leaf's formula id stand together in
  -- the order of the keys, and one of crawled data that has the data of every formula of the
  -- page: with enough fuel IndexQueryHandler with the engine in C answers with the page of the
  -- formulas of that id, in the order of their keys, with their data, and with the leaf's count
  -- of hits as the total.
  pub handle_query_engine-leaf :
      (fuel : ℕ) (memory : List Piece) (root addr num_hits id : ℕ) (rename_ci : Bool)
      (dictionary : IdDictionary Bytes) {out : Encoded}
      → encode_query rename_ci dictionary q ≡ some out
      → out.ok ≡ true
      → length out.formula ≤ max_query_stack_size
      → All (λ (t : EncodedToken). encoded_token_is_var t ≡ false) out.formula
      → has_no_vars out.formula memory root ≡ true
      → walk_file out.formula memory root ≡ some (some addr)
      → read_leaf memory addr ≡ some (num_hits, id)
      → IsTogether digits id before own behind
      → All (IsLevKnown digits crawl_db) page
      → handle_query_engine
          (length out.formula + suc fuel)
          memory
          root
          rename_ci
          dictionary
          digits
          crawl_db
          formula_db
          q
        ≡ some (
            with_info out.info
              (record { answers = lev_answers digits crawl_db page; ids = []; total = num_hits }))
  unfolding handle_query_engine report
  handle_query_engine-leaf fuel memory root addr num_hits id rename_ci dictionary {out} h good room
        constants vars walked leaf together known =
      let callback = result_callback digits crawl_db formula_db q in
      let n = length out.formula + suc fuel in
      let collected = callback-collect num_hits id together known in
      let seen =
        query_engine_run-report memory callback out.formula fuel root (some new_answset) room
          constants vars in
      let reports : report memory callback out.formula root (some new_answset)
          ≡ some (callback (some new_answset) num_hits id) =
        ground arith in
      elim (Option-cases (query_engine_run memory callback n root out.formula (some new_answset))) [
        | inl stuck ↦ absurd (ground arith)
        | inr ((c, ret), ran) ↦ ground arith
      ]
