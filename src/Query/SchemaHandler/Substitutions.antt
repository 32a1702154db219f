-- ===== src/Query/SchemaHandler/Substitutions.antt =====
-- The schemata that the handler answers with.
use mws.Prelude.{
  ℕ, ◌+◌, ◌<◌, ◌≤◌, ◌≡◌, ◌≢◌, refl, ap, sym, ◌∙◌, Bool, none, some, List, [], ◌∷◌, ◌++◌, length,
  suc, false, ◌&&◌, ◌==◌, get_elem?, if◌then◌else◌, arith, Option-cases, Bool-cases, inl, inr,
  nat_eq, list_eq,
}
use mws.Prelude.Bits.{u32_mod}
use mws.Prelude.Bytes.{Bytes, codes, bytes_eq, bytes_eq_refl}
use mws.Common.IdDictionary.{empty, reverse_lookup_table}
use mws.Types.CmmlToken.{
  CmmlToken, token, Tokens, nil, cons, qvar_tag, get_child_nodes, get_attribute, get_tag, count,
}
use mws.Index.Encoder.Roundtrip.{fresh}
use mws.Query.Schema.Schemata.{ExprSchema, SchemaAnswset, get_schemata}
use mws.Query.Schema.Groups.{occurs}
use mws.Query.Schema.Covered.{occurrences, get_schemata-occurrences}
use mws.Query.SchemaHandler.{
  EncodedQuery, encode_all, cutoff_heuristic, reference, get_substitutions, substitutions_of,
  substitutions_behind, with_substitutions, handle_schema_query,
}
use mws.XmlParser.QueryReader.{Query}

-- An instance of a schema: an expression in the place of each query variable, by its name.
unfoldable mutual
  pub substitute : (Bytes → CmmlToken) → CmmlToken → CmmlToken
  substitute value (token tag attrs text xpath children) =
      let below = substitute_all value children in
      if bytes_eq tag qvar_tag then value text else token tag attrs text xpath below

  pub substitute_all : (Bytes → CmmlToken) → Tokens → Tokens
  substitute_all value nil = nil
  substitute_all value (cons t ts) = cons (substitute value t) (substitute_all value ts)

-- The names of the query variables of a schema in order, without those in the operators of applications.
unfoldable mutual
  pub variables : CmmlToken → List Bytes
  variables (token tag attrs text xpath children) =
      let all = variables_of children in
      let arguments = variables_behind children in
      if bytes_eq tag qvar_tag
      then text ∷ []
      else if bytes_eq tag (codes "apply")
      then arguments
      else all

  pub variables_of : Tokens → List Bytes
  variables_of nil = []
  variables_of (cons t ts) = variables t ++ variables_of ts

  pub variables_behind : Tokens → List Bytes
  variables_behind nil = []
  variables_behind (cons t ts) = variables_of ts

-- The references of the expressions that stand for the variables, those without one left out.
unfoldable pub references : (Bytes → CmmlToken) → List Bytes → List Bytes
references value [] = []
references value (x ∷ xs) = elim (get_attribute (value x) (codes "xref")) [
  | [] ↦ references value xs
  | c ∷ cs ↦ (c ∷ cs) ∷ references value xs
]

references-append :
    (value : Bytes → CmmlToken) (xs ys : List Bytes)
    → references value (xs ++ ys) ≡ references value xs ++ references value ys
unfolding references
references-append value [] ys = refl
references-append value (x ∷ xs) ys = ground (arith, references-append value xs ys)

reference_of :
    (xref : Bytes)
    → (if bytes_eq xref [] then [] else xref ∷ [])
      ≡ elim xref as (λ z. List Bytes) [ [] ↦ [] | c ∷ cs ↦ (c ∷ cs) ∷ [] ]
unfolding bytes_eq
reference_of [] = refl
reference_of (c ∷ cs) = refl

references_one :
    (value : Bytes → CmmlToken) (x : Bytes) → reference (value x) ≡ references value (x ∷ [])
unfolding references
references_one value x = reference_of (get_attribute (value x) (codes "xref"))

count-substitute_all :
    (value : Bytes → CmmlToken) (ts : Tokens) → count (substitute_all value ts) ≡ count ts
unfolding substitute_all
count-substitute_all value nil = refl
count-substitute_all value (cons t ts) = ap suc (count-substitute_all value ts)

mutual
  unfolding get_substitutions substitutions_of substitutions_behind substitute substitute_all
      variables variables_of variables_behind references

  of_instance :
      (value : Bytes → CmmlToken) (schema : CmmlToken)
      → get_substitutions (substitute value schema) schema ≡ references value (variables schema)
  of_instance value (token tag attrs text xpath children) =
      elim (Bool-cases (bytes_eq tag qvar_tag)) [
        | inl variable ↦ rw variable (references_one value text)
        | inr other ↦
            rw (other, bytes_eq_refl tag, count-substitute_all value children)
              (ground (arith, of_instances value children, behind_instances value children))
      ]

  of_instances :
      (value : Bytes → CmmlToken) (ts : Tokens)
      → substitutions_of (substitute_all value ts) ts ≡ references value (variables_of ts)
  of_instances value nil = refl
  of_instances value (cons t ts) = ground (
    arith,
    of_instance value t,
    of_instances value ts,
    references-append value (variables t) (variables_of ts),
  )

  behind_instances :
      (value : Bytes → CmmlToken) (ts : Tokens)
      → substitutions_behind (substitute_all value ts) ts ≡ references value (variables_behind ts)
  behind_instances value nil = refl
  behind_instances value (cons t ts) = of_instances value ts

-- For every schema and every expression for each of its query variables, getSubstitutions of the
-- instance of the schema with these expressions appends the references of the expressions of the
-- variables, in order, those without a reference and those in the first child of an application
-- left out; and of an expression whose tag or number of children is not that of another schema,
-- which is no query variable, it appends nothing.
pub get_substitutions-substitute :
    (value : Bytes → CmmlToken) (schema expr other : CmmlToken)
    → bytes_eq (get_tag other) qvar_tag ≡ false
    → bytes_eq (get_tag expr) (get_tag other)
        && count (get_child_nodes expr) == count (get_child_nodes other)
      ≡ false
    → (get_substitutions (substitute value schema) schema ≡ references value (variables schema))
      × (get_substitutions expr other ≡ [])
unfolding get_substitutions
get_substitutions-substitute value schema expr (token tag attrs text xpath children) plain misfit =
    (of_instance value schema, ground arith)

with_substitutions-cons :
    (tokens : List CmmlToken) (sch : ExprSchema) (rest more : List ExprSchema) (formulae : List ℕ)
    {schemata' : List ExprSchema}
    → sch.formulae ≡ formulae
    → with_substitutions tokens rest ≡ some more
    → with_substitutions tokens (sch ∷ rest) ≡ some schemata'
    → (extra : List Bytes) × (record sch { subst_ = extra } ∷ more ≡ schemata')
unfolding with_substitutions
with_substitutions-cons tokens sch rest more [] f made h = absurd (ground arith)
with_substitutions-cons tokens sch rest more (id ∷ others) f made h =
    elim (Option-cases (get_elem? tokens id)) [
      | inl outside ↦ absurd (ground arith)
      | inr (expr_root, there) ↦ (sch.subst_ ++ get_substitutions expr_root sch.root, ground arith)
    ]

without_rest :
    (tokens : List CmmlToken) (sch : ExprSchema) (rest : List ExprSchema) (formulae : List ℕ)
    {schemata' : List ExprSchema}
    → sch.formulae ≡ formulae
    → with_substitutions tokens rest ≡ none
    → with_substitutions tokens (sch ∷ rest) ≢ some schemata'
unfolding with_substitutions
without_rest tokens sch rest [] f bad h = ground arith
without_rest tokens sch rest (id ∷ others) f bad h = elim (Option-cases (get_elem? tokens id)) [
  | inl outside ↦ ground arith
  | inr (expr_root, there) ↦ ground arith
]

-- The substitutions change nothing else.
occurrences-with_substitutions :
    (k : ℕ) (tokens : List CmmlToken) (schemata : List ExprSchema) {schemata' : List ExprSchema}
    → with_substitutions tokens schemata ≡ some schemata'
    → occurrences k schemata' ≡ occurrences k schemata
unfolding with_substitutions
occurrences-with_substitutions k tokens [] h =
    let same : [] ≡ _ = ground arith in ap (occurrences k) (sym same)
occurrences-with_substitutions k tokens (sch ∷ rest) {schemata'} h =
    elim (Option-cases (with_substitutions tokens rest)) [
      | inl bad ↦ absurd (without_rest tokens sch rest sch.formulae refl bad h)
      | inr (more, made) ↦
          let (extra, whole) =
            with_substitutions-cons tokens sch rest more sch.formulae refl made h in
          ap (occurrences k) (sym whole)
          ∙ ap (λ z. occurs k sch.formulae + z) (occurrences-with_substitutions k tokens rest made)
    ]

-- For a query without a limit on the number of schemata, and at most 2^32 encoded expressions:
-- when SchemaQueryHandler answers, each expression that was encoded belongs to exactly one
-- schema, once.
pub handle_schema_query-occurrences :
    (percent : ℕ → ℕ → ℕ) (rename_ci : Bool) (q : Query) (k : ℕ) {e : EncodedQuery}
    {r : SchemaAnswset}
    → q.result_max_size ≡ 0
    → encode_all rename_ci q.tokens
        (record { encoder = fresh empty; exprs = []; exprs_tokens = [] })
      ≡ some e
    → length e.exprs ≤ u32_mod
    → k < length e.exprs
    → handle_schema_query percent rename_ci q ≡ some r
    → occurrences k r.schemata ≡ 1
unfolding handle_schema_query
handle_schema_query-occurrences percent rename_ci q k {e} {r} all encoded fits below h =
    elim (Option-cases (cutoff_heuristic q.cutoff_mode)) [
      | inl unset ↦ absurd (ground arith)
      | inr (heuristic, mode) ↦
          let table = reverse_lookup_table [] e.encoder.dictionary in
          elim (Option-cases
            (get_schemata percent heuristic table e.exprs e.exprs_tokens 0 q.max_depth)) [
              | inl stuck ↦ absurd (ground arith)
              | inr (result, found) ↦
                  elim (Option-cases (with_substitutions q.tokens result.schemata)) [
                    | inl stuck ↦ absurd (ground arith)
                    | inr (schemata, made) ↦
                        let whole : record result { schemata = schemata } ≡ r = ground arith in
                        ap (λ z. occurrences k z.schemata) (sym whole)
                        ∙ occurrences-with_substitutions k q.tokens result.schemata made
                        ∙ (get_schemata-occurrences percent heuristic table q.max_depth e.exprs
                            e.exprs_tokens k fits below found).0
                  ]
            ]
    ]
