-- ===== src/Query/SchemaHandler.antt =====
-- src/mws/daemon/SchemaQueryHandler.cpp: schemata for the expressions of a query, with what the
-- variables of each stand for. One encoder with a new dictionary encodes all expressions. The
-- pointers that `getSubstitutions` gets are none of them null.
pub mod Substitutions
use mws.Prelude.{
  ℕ, zero, suc, ◌%◌, Bool, true, false, Option, none, some, List, [], ◌∷◌, ◌++◌, get_elem?, ◌==◌,
  if◌then◌else◌, nat_eq, list_eq,
}
use mws.Prelude.Bits.{u32_mod}
use mws.Prelude.Bytes.{Bytes, codes, bytes_eq}
use mws.Common.IdDictionary.{empty, reverse_lookup_table}
use mws.Types.CmmlToken.{
  CmmlToken, token, Tokens, nil, cons, count, qvar_tag, get_tag, get_child_nodes, get_attribute,
}
use mws.Index.EncodedToken.{EncodedFormula}
use mws.Index.Encoder.{Encoder, harvest, encode}
use mws.Index.Encoder.Roundtrip.{fresh}
use mws.Index.Builder.Load.{located}
use mws.Query.Schema.Schemata.{
  CutoffHeuristic, absolute, relative, ExprSchema, SchemaAnswset, get_schemata,
}
use mws.XmlParser.QueryReader.{Query}

-- The expressions that were encoded, with their formulas.
pub record EncodedQuery : Type 0 where
  pub encoder : Encoder
  pub exprs : List EncodedFormula
  pub exprs_tokens : List CmmlToken

-- The loop over the tokens of the query.
unfoldable pub encode_all : Bool → List CmmlToken → EncodedQuery → Option EncodedQuery
encode_all rename_ci [] s = some s
encode_all rename_ci (tok ∷ rest) s = elim (encode rename_ci harvest s.encoder (located tok) none) [
  | none ↦ none
  | some out ↦
      let next : EncodedQuery =
        if out.ok
        then record {
          encoder = out.encoder;
          exprs = s.exprs ++ out.formula ∷ [];
          exprs_tokens = s.exprs_tokens ++ tok ∷ [];
        }
        else record s { encoder = out.encoder } in
      encode_all rename_ci rest next
]

-- The `switch` on `cutoff_mode`, whose default is ABSOLUTE; `none` is a mode that was never set.
abbrev pub cutoff_heuristic : Option ℕ → Option CutoffHeuristic
cutoff_heuristic none = none
cutoff_heuristic (some mode) = some (if mode == b'R' then relative else absolute)

-- What is appended for a variable.
abbrev reference : CmmlToken → List Bytes
reference expr =
    let xref = get_attribute expr (codes "xref") in if bytes_eq xref [] then [] else xref ∷ []

unfoldable mutual
  -- What `getSubstitutions` appends to `subst`.
  pub get_substitutions : CmmlToken → CmmlToken → List Bytes
  get_substitutions expr (token tag attrs text xpath children) =
      let below = substitutions_of (get_child_nodes expr) children in
      let behind = substitutions_behind (get_child_nodes expr) children in
      if bytes_eq tag qvar_tag
      then reference expr
      else if count (get_child_nodes expr) == count children
      then (if bytes_eq (get_tag expr) tag
          then (if bytes_eq (get_tag expr) (codes "apply") then behind else below)
          else [])
      else []

  -- The loop over the children of both, which are as many.
  pub substitutions_of : Tokens → Tokens → List Bytes
  substitutions_of exprs nil = []
  substitutions_of nil (cons schema schemas) = []
  substitutions_of (cons expr exprs) (cons schema schemas) =
      get_substitutions expr schema ++ substitutions_of exprs schemas

  -- The same without the first child of both.
  pub substitutions_behind : Tokens → Tokens → List Bytes
  substitutions_behind exprs nil = []
  substitutions_behind nil (cons schema schemas) = []
  substitutions_behind (cons expr exprs) (cons schema schemas) = substitutions_of exprs schemas

-- The loop over the schemata: the representative is a token of the query; `none` is a schema
-- without formulas, or one behind the tokens.
unfoldable pub with_substitutions : List CmmlToken → List ExprSchema → Option (List ExprSchema)
unfolding get_substitutions
with_substitutions tokens [] = some []
with_substitutions tokens (sch ∷ rest) = elim sch.formulae [
  | [] ↦ none
  | representative_id ∷ others ↦ elim (get_elem? tokens representative_id) [
    | none ↦ none
    | some expr_root ↦ elim (with_substitutions tokens rest) [
      | none ↦ none
      | some schemata ↦
          some
            (record sch { subst_ = sch.subst_ ++ get_substitutions expr_root sch.root } ∷ schemata)
    ]
  ]
]

-- SchemaQueryHandler::handleQuery
unfoldable pub handle_schema_query : (ℕ → ℕ → ℕ) → Bool → Query → Option SchemaAnswset
unfolding encode_all with_substitutions
handle_schema_query percent rename_ci q =
    elim (encode_all rename_ci q.tokens
      (record { encoder = fresh empty; exprs = []; exprs_tokens = [] })) [
        | none ↦ none
        | some e ↦ elim (cutoff_heuristic q.cutoff_mode) [
          | none ↦ none
          | some heuristic ↦
              elim (get_schemata percent heuristic (reverse_lookup_table [] e.encoder.dictionary)
                e.exprs e.exprs_tokens (q.result_max_size % u32_mod) q.max_depth) [
                  | none ↦ none
                  | some result ↦ elim (with_substitutions q.tokens result.schemata) [
                    | none ↦ none
                    | some schemata ↦ some (record result { schemata = schemata })
                  ]
                ]
        ]
      ]
