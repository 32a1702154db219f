-- ===== src/Query/Handler/Indexed.antt =====
-- From the harvest to the answer: an expression that the builder indexed is found by a query for
-- it.
use mws.Prelude.{
  ℕ, ◌+◌, ◌%◌, ◌<◌, ◌≡◌, refl, ap, sym, ◌∙◌, subst, Bool, true, false, Option, none, some, List, [],
  ◌∷◌, arith, Option-cases, inl, inr, All, length, nat_eq, list_eq,
}
use mws.Prelude.Bytes.{Bytes}
use mws.Prelude.Bits.{u32_mod}
use mws.Common.IdDictionary.Laws.{IsValid}
use mws.Dbc.Infos.{HasInfo}
use mws.Types.CmmlToken.{CmmlToken}
use mws.Types.CmmlToken.Traverse.{Located, preorder}
use mws.Index.TmpIndex.{leaf, Children, walk}
use mws.Index.Encoder.{
  Encoder, EncoderKind, EncodeState, ExpressionInfo, Encoded, start, harvest, query, encode,
  encode_token, encode_constant,
}
use mws.Index.Encoder.Run.{run, run-none, run-some, encode-eq-run}
use mws.Index.Encoder.Shape
use mws.Index.Encoder.Tokens.{encode-constants}
use mws.Index.Encoder.Roundtrip.{fresh}
use mws.Index.Builder.Total.{IsWellFormed, info_of}
use mws.Index.Builder.Findable.{index_content_math-query, token_count, token_count-le}
use mws.Index.Builder.Load.{IndexBuilder, located, process_expression}
use mws.Query.Backtrack.{Setting}
use mws.Query.Context.{search_context}
use mws.Query.Search.{get_result, accept, insert_id, cut_size}
use mws.Query.Search.Constants.{IsConstant, outcome, get_result-constants}
use mws.Query.Handler.{new_info, encode_query, harvest_setting, handle_query}
use mws.XmlParser.QueryReader.{Query, ResponseFormatter, new_query}

module _ (rename_ci : Bool) (kind : EncoderKind) (info : Option ExpressionInfo) where
  encode_token-info :
      (l : Located) (s : EncodeState)
      → Shape.IsConstant l
      → encode_token rename_ci kind l (record s { info = info })
        ≡ (elim (encode_token rename_ci kind l s) [
          | none ↦ none
          | some s' ↦ some (record s' { info = info })
        ])
  unfolding encode_token encode_constant
  encode_token-info l s c = ground arith

  run-info :
      (ls : List Located) (s : EncodeState)
      → All Shape.IsConstant ls
      → run rename_ci kind ls (record s { info = info })
        ≡ record (run rename_ci kind ls s) { info = info }
  run-info [] s c = unfold run in refl
  run-info (l ∷ ls) s c =
      let same = encode_token-info l s c.0 in
      elim (Option-cases (encode_token rename_ci kind l s)) [
        | inl stop ↦
            rw
              (
                run-none rename_ci kind l ls s stop,
                run-none rename_ci kind l ls (record s { info = info }) (ground arith),
              )
              refl
        | inr (s', next) ↦
            rw
              (
                run-some rename_ci kind l ls s next,
                run-some rename_ci kind l ls (record s { info = info })
                    {s' = record s' { info = info }} (ground arith),
              )
              (run-info ls s' c.1)
      ]

  abbrev with_info : Encoded → Encoded
  with_info out = record out { info = info }

  -- An expression without variables and ranges is encoded alike whatever the info is.
  encode-info :
      (e : Encoder) (l : Located) {out : Encoded}
      → All Shape.IsConstant (preorder l)
      → encode rename_ci kind e l none ≡ some out
      → encode rename_ci kind e l info ≡ some (record out { info = info })
  encode-info e l {out} c h =
      let same : run rename_ci kind (preorder l) (start e none) ≡ out =
        cc (encode-eq-run rename_ci kind e l none) in
      encode-eq-run rename_ci kind e l info
      ∙ ap some (run-info (preorder l) (start e none) c ∙ ap with_info same)

-- A query that asks for formula ids and not for hits.
abbrev pub ids_query : ResponseFormatter → CmmlToken → ℕ → ℕ → Query
ids_query formatter expression size total = record (new_query formatter) {
  tokens = expression ∷ [];
  include_hits = false;
  include_mws_ids = true;
  result_max_size = size;
  result_total_req_nr = total;
}

-- The search of such a query ends at a leaf with the id of the leaf.
outcome_ids :
    (setting : Setting) (size total last id n : ℕ) (c : Children)
    → setting.include_hits ≡ false
    → setting.include_mws_ids ≡ true
    → 0 < size
    → size < u32_mod
    → 0 < total
    → total < u32_mod
    → outcome setting 0 (cut_size 0 size total) total last (some (leaf id n c))
      ≡ some (record { answers = []; ids = id ∷ []; total = 1 })
unfolding accept insert_id
outcome_ids setting size total last id n c hits ids some_size small wanted less = ground arith

module _ (in_range : List (ℕ × CmmlToken) → ℕ → Bytes → Bool) (fuel iterator_fuel : ℕ) where
  -- The handler, when the encoding and the search are known.
  handle_query-ids :
      (formatter : ResponseFormatter) (expression : CmmlToken) (size total : ℕ) (b : IndexBuilder)
      (out : Encoded) {id n : ℕ} {c : Children}
      → encode b.rename_ci query (fresh b.meaning_dictionary) (located expression) (some new_info)
        ≡ some out
      → out.ok ≡ true
      → out.info ≡ some new_info
      → All IsConstant out.formula
      → walk out.formula b.index.root ≡ some (leaf id n c)
      → length out.formula < fuel
      → 0 < size
      → size < u32_mod
      → 0 < total
      → total < u32_mod
      → handle_query in_range fuel iterator_fuel b (ids_query formatter expression size total)
        ≡ some (record {
          result = record { answers = []; ids = id ∷ []; total = 1 };
          qvar_names = [];
          qvar_xpaths = [];
        })
  unfolding handle_query encode_query
  handle_query-ids formatter expression size total b out {id} {n} {c} h ok info constants walked
        enough s1 s2 t1 t2 =
      let q = ids_query formatter expression size total in
      let setting = harvest_setting in_range iterator_fuel b q out in
      let found =
        get_result-constants setting out.formula b.index fuel 0 size total constants t1 enough in
      let ids = outcome_ids setting size total (length out.formula) id n c refl refl s1 s2 t1 t2 in
      let size_fits : size % u32_mod ≡ size = omega arith in
      let total_fits : total % u32_mod ≡ total = omega arith in
      let result : get_result fuel setting (search_context out.formula) b.index 0 (size % u32_mod)
            (total % u32_mod)
          ≡ some (record { answers = []; ids = id ∷ []; total = 1 }) =
        ap (λ z. get_result fuel setting (search_context out.formula) b.index 0 z (total % u32_mod))
          size_fits
        ∙ ap (get_result fuel setting (search_context out.formula) b.index 0 size) total_fits
        ∙ found
        ∙ ap (outcome setting 0 (cut_size 0 size total) total (length out.formula)) walked
        ∙ ids in
      ground arith

  -- For a builder that does not rename, with a valid dictionary that has room for the ids of
  -- all subexpressions in 24 bits and a well-formed index, an expression without variables and
  -- ranges that a harvest encodes, limits above 0 and below 2^32, and a fuel above the number
  -- of tokens: the indexer takes the expression in, and HarvestQueryHandler then answers a
  -- query for the same expression that asks for ids and not for hits with a total of 1 and one
  -- id, under which the database of formulas has the location of the expression.
  pub handle_query-process_expression :
      (b : IndexBuilder) (expression : CmmlToken) (xml_id : Bytes) (crawl_id : ℕ)
      (formatter : ResponseFormatter) (size total : ℕ) {out : Encoded}
      → b.rename_ci ≡ false
      → IsValid b.meaning_dictionary
      → b.meaning_dictionary.next_id + token_count (preorder (located expression)) + 161 < 16777216
      → IsWellFormed b.index.root
      → All Shape.IsConstant (preorder (located expression))
      → encode false harvest (fresh b.meaning_dictionary) (located expression) none ≡ some out
      → out.ok ≡ true
      → length out.formula < fuel
      → 0 < size
      → size < u32_mod
      → 0 < total
      → total < u32_mod
      → (b' : IndexBuilder) × (added : ℕ) × (process_expression (some b) expression xml_id crawl_id
          ≡ (some b', some added))
        × (id : ℕ) × (handle_query in_range fuel iterator_fuel b'
              (ids_query formatter expression size total)
            ≡ some (record {
              result = record { answers = []; ids = id ∷ []; total = 1 };
              qvar_names = [];
              qvar_xpaths = [];
            }))
        × HasInfo b'.formula_db id (info_of false xml_id crawl_id (located expression))
  unfolding process_expression
  handle_query-process_expression b expression xml_id crawl_id formatter size total {out} rename v
        room w c h ok enough s1 s2 t1 t2 =
      let l = located expression in
      let counted = token_count-le l in
      let (s, runs, q, encoded, q_ok, same, id, n, children, walked, info) =
        index_content_math-query xml_id crawl_id l b.meaning_dictionary b.index b.formula_db v
          (omega arith) w c h ok in
      let b' : IndexBuilder = record b {
        formula_db = s.formula_db;
        index = s.index;
        meaning_dictionary = s.encoder.dictionary;
      } in
      let constants : All IsConstant q.formula =
        subst (All IsConstant) (sym same)
          (encode-constants b.meaning_dictionary l v (omega arith) c h) in
      let as_query =
        encode-info false query (some new_info) (fresh s.encoder.dictionary) l c encoded in
      let full : Encoded = record q { info = some new_info } in
      let asked : encode b'.rename_ci query (fresh b'.meaning_dictionary) l (some new_info)
          ≡ some full =
        subst (λ z. encode z query (fresh s.encoder.dictionary) l (some new_info) ≡ some full)
          (sym rename) as_query in
      (
        b',
        s.num_sub_expressions,
        ground arith,
        id,
        handle_query-ids formatter expression size total b' full asked q_ok refl constants walked
            (subst (λ z. length z < fuel) (sym same) enough) s1 s2 t1 t2,
        info,
      )
