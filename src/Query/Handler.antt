-- ===== src/Query/Handler.antt =====
-- src/mws/daemon/HarvestQueryHandler.cpp and IndexQueryHandler.cpp: a query as it was read, encoded
-- and searched. The handler over a harvest has the members that its IndexBuilder fills; of the
-- handler over an exported index the branch with the engine in C is here. The test of a number
-- against the bounds of ranges is a parameter, as are the fuels. `total`, an int, is exact for
-- fewer than 2^31 hits. `none` is undefined behaviour, a
-- failed assertion, an exception, or an end of the fuel.
pub mod Indexed
pub mod Reported
use mws.Prelude.{
  ◌%◌, ℕ, ◌+◌, Bool, Option, none, some, List, [], ◌∷◌, if◌then◌else◌, nat_eq, list_eq,
}
use mws.Prelude.Bits.{u32_mod}
use mws.Prelude.Bytes.{Bytes}
use mws.Common.IdDictionary.{IdDictionary, reverse_lookup_table}
use mws.Common.Parcel.{FormulaPath}
use mws.Dbc.{thrown}
use mws.Dbc.Lev.{LevCrawlDb, LevFormulaDb, lev_query_answers}
use mws.Dbc.Page.{collect}
use mws.Types.CmmlToken.{CmmlToken}
use mws.Index.EncodedToken.{EncodedFormula}
use mws.Index.Encoder.{ExpressionInfo, Encoded, query, encode}
use mws.Index.Encoder.Roundtrip.{fresh}
use mws.Index.Builder.Load.{IndexBuilder, located}
use mws.Index.Memsector.{Piece}
use mws.Query.Backtrack.{Setting}
use mws.Query.Context.{search_context}
use mws.Query.Search.{MwsAnswset, get_result}
use mws.Query.Engine.{ResultCbReturn, query_continue}
use mws.Query.Engine.Match.{query_engine_run}
use mws.XmlParser.QueryReader.{Query}

-- MwsAnswset with the fields that the handlers set.
pub record Answered : Type 0 where
  pub result : MwsAnswset
  pub qvar_names : List Bytes
  pub qvar_xpaths : List Bytes

-- `new MwsAnswset()`
abbrev pub new_answset : MwsAnswset
new_answset = record { answers = []; ids = []; total = 0 }

abbrev pub new_info : ExpressionInfo
new_info = record { qvar_names = []; qvar_xpaths = []; range_bounds = [] }

-- "result->qvarNames = …"; `encode` leaves the info that it got filled.
abbrev pub with_info : Option ExpressionInfo → MwsAnswset → Answered
with_info none result = record { result = result; qvar_names = []; qvar_xpaths = [] }
with_info (some info) result = record {
  result = result;
  qvar_names = info.qvar_names;
  qvar_xpaths = info.qvar_xpaths;
}

abbrev pub bounds_of : Option ExpressionInfo → List (ℕ × CmmlToken)
bounds_of none = []
bounds_of (some info) = info.range_bounds

-- The query encoder's view of `query->tokens[0]`; `none` is a query without tokens.
unfoldable pub encode_query : Bool → IdDictionary Bytes → Query → Option Encoded
encode_query rename_ci dictionary q = elim q.tokens [
  | [] ↦ none
  | expression ∷ rest ↦
      encode rename_ci query (fresh dictionary) (located expression) (some new_info)
]

-- What SearchContext gets from the handler over a harvest.
abbrev pub harvest_setting :
    (List (ℕ × CmmlToken) → ℕ → Bytes → Bool) → ℕ → IndexBuilder → Query → Encoded → Setting
harvest_setting in_range iterator_fuel b q out = record {
  table = reverse_lookup_table [] b.meaning_dictionary;
  in_range = in_range (bounds_of out.info);
  crawl_db = b.crawl_db;
  formula_db = b.formula_db;
  include_hits = q.include_hits;
  include_mws_ids = q.include_mws_ids;
  iterator_fuel = iterator_fuel;
}

-- HarvestQueryHandler::handleQuery; the limits become `unsigned int`.
unfoldable pub handle_query :
    (List (ℕ × CmmlToken) → ℕ → Bytes → Bool) → ℕ → ℕ → IndexBuilder → Query → Option Answered
unfolding encode_query
handle_query in_range fuel iterator_fuel b q =
    elim (encode_query b.rename_ci b.meaning_dictionary q) [
      | none ↦ none
      | some out ↦
          if out.ok
          then elim (get_result fuel (harvest_setting in_range iterator_fuel b q out)
              (search_context out.formula) b.index (q.result_limit_min % u32_mod)
              (q.result_max_size % u32_mod) (q.result_total_req_nr % u32_mod)) [
                | none ↦ none
                | some result ↦ some (with_info out.info result)
              ]
          else some (with_info out.info new_answset)
    ]

-- `result_callback` of IndexQueryHandler, with the answset as its handle; `none` is an exception of
-- the database, which leaves the engine. The databases are those of IndexLoader, in LevelDB.
unfoldable pub result_callback :
    (ℕ → Bytes)
    → LevCrawlDb
    → LevFormulaDb
    → Query
    → Option MwsAnswset
    → ℕ
    → ℕ
    → Option MwsAnswset × ResultCbReturn
result_callback digits crawl_db formula_db q none num_hits formula_id = (none, query_continue)
result_callback digits crawl_db formula_db q (some result) num_hits formula_id =
    let asked =
      lev_query_answers digits crawl_db formula_db formula_id (q.result_limit_min % u32_mod)
        (q.result_max_size % u32_mod) collect result.answers in
    elim (asked.1) [
      | thrown ↦ (none, query_continue)
      | _ ↦ (
        some (record result { answers = asked.0; total = result.total + num_hits }),
        query_continue,
      )
    ]

-- IndexQueryHandler::handleQuery with `useExperimentalQueryEngine`, over the memory sector of an
-- index, the address of its root, and the databases, which are loaded.
unfoldable pub handle_query_engine :
    ℕ
    → List Piece
    → ℕ
    → Bool
    → IdDictionary Bytes
    → (ℕ → Bytes)
    → LevCrawlDb
    → LevFormulaDb
    → Query
    → Option Answered
unfolding encode_query result_callback
handle_query_engine fuel memory root rename_ci dictionary digits crawl_db formula_db q =
    elim (encode_query rename_ci dictionary q) [
      | none ↦ none
      | some out ↦
          if out.ok
          then elim (query_engine_run memory (result_callback digits crawl_db formula_db q) fuel
              root out.formula (some new_answset)) [
                | none ↦ none
                | some (c, ret) ↦ elim c.handle [
                  | none ↦ none
                  | some result ↦ some (with_info out.info result)
                ]
              ]
          else some (with_info out.info new_answset)
    ]
