-- ===== src/Tests/Schemas.antt =====
-- The schemata of a query with one number twice.
use mws.Prelude.{ℕ, ◌≤◌, ◌≡◌, refl, none, some, [], ◌∷◌, List, length, arith, nat_eq, false}
use mws.Prelude.Tests.{list_eq}
use mws.Prelude.Bytes.{Bytes, codes, bytes_eq}
use mws.Common.IdDictionary.{empty, put, get, find_entry, reverse_lookup_table}
use mws.Types.CmmlToken.{
  CmmlToken, token, nil, cons, qvar_tag, get_expr_size, is_var, get_type, is_range, get_arity,
  get_meaning, set_tag, strip_prefix, append_text_content, is_space, get_attribute, find_attribute,
}
use mws.Index.Encoder.{
  encode, encode_loop, encode_token, encode_constant, constant_id, get_constant_encoding,
  decode_meaning_id,
}
use mws.Prelude.Decimal.{to_string, read_number}
use mws.Common.IdDictionary.{reverse_get}
use mws.Query.Schema.{
  reduce_formula, reduce_loop, is_apply, before_hash, after_hash, decode_meaning, starts_with,
  hash_expr, hash_tokens, unhash_expr, unhash_tokens, read_value, skip_space,
}
use mws.Query.Schema.Decode.{decode_formula, token_meaning}
use mws.Query.Schema.Schemata.{
  group_formulae, hash_of, add_to_group, set_cutoff, cutoff_of, sort_groups, insert_group,
  make_schemata,
}
use mws.Index.Encoder.Roundtrip.{fresh}
use mws.Query.Schema.Schemata.{SchemaAnswset, absolute, get_schemata}
use mws.Query.Schema.Covered.{occurrences, IsDescending, get_schemata-occurrences, get_schemata-le}
use mws.Query.SchemaHandler.{
  EncodedQuery, encode_all, handle_schema_query, get_substitutions, with_substitutions,
}
use mws.Query.SchemaHandler.Substitutions.{
  substitute, variables, references, get_substitutions-substitute, handle_schema_query-occurrences,
}
use mws.XmlParser.QueryReader.{Query, ResponseFormatter, new_query}
use mws.Tests.Building.{number}

abbrev no_percent : ℕ → ℕ → ℕ
no_percent depth n = 0

abbrev twice : Query
twice = record (new_query ResponseFormatter.schema_xml) {
  tokens = number.node ∷ number.node ∷ [];
  result_max_size = 0;
  cutoff_mode = some 65;
}

abbrev begun : EncodedQuery
begun = record { encoder = fresh empty; exprs = []; exprs_tokens = [] }

abbrev encoded : EncodedQuery
encoded = elim (encode_all false twice.tokens begun) [ none ↦ begun | some e ↦ e ]

encoded_runs : encode_all false twice.tokens begun ≡ some encoded
unfolding encode_all encode encode_loop get_expr_size encode_token is_var get_type bytes_eq is_range
    get_arity
encoded_runs = refl

abbrev table : List Bytes
table = reverse_lookup_table [] encoded.encoder.dictionary

abbrev schemata : SchemaAnswset
schemata = elim (get_schemata no_percent absolute table encoded.exprs encoded.exprs_tokens 0 3) [
  | none ↦ record { schemata = []; total = 0 }
  | some r ↦ r
]

schemata_made :
    get_schemata no_percent absolute table encoded.exprs encoded.exprs_tokens 0 3 ≡ some schemata
unfolding get_schemata group_formulae hash_of reduce_formula reduce_loop is_apply decode_meaning_id
    reverse_get before_hash after_hash decode_meaning starts_with hash_expr hash_tokens to_string
    add_to_group set_cutoff cutoff_of sort_groups insert_group make_schemata unhash_expr
    unhash_tokens read_value skip_space read_number is_space decode_formula token_meaning set_tag
    append_text_content strip_prefix encode_all encode encode_loop get_expr_size encode_token is_var
    get_type bytes_eq is_range get_arity encode_constant constant_id get_constant_encoding put get
    find_entry list_eq get_meaning reverse_lookup_table
schemata_made = refl

get_schemata-occurrences_example :
    (occurrences 1 schemata.schemata ≡ 1)
    × IsDescending schemata.schemata
    × (schemata.total ≡ length schemata.schemata)
unfolding encode_all encode encode_loop get_expr_size encode_token is_var get_type bytes_eq is_range
    get_arity encode_constant constant_id get_constant_encoding put get list_eq get_meaning
get_schemata-occurrences_example =
    get_schemata-occurrences no_percent absolute table 3 encoded.exprs encoded.exprs_tokens 1
      (omega arith) (omega arith) schemata_made

abbrev one_schema : SchemaAnswset
one_schema = elim (get_schemata no_percent absolute table encoded.exprs encoded.exprs_tokens 1 3) [
  | none ↦ record { schemata = []; total = 0 }
  | some r ↦ r
]

one_schema_made :
    get_schemata no_percent absolute table encoded.exprs encoded.exprs_tokens 1 3 ≡ some one_schema
unfolding get_schemata group_formulae hash_of reduce_formula reduce_loop is_apply decode_meaning_id
    reverse_get before_hash after_hash decode_meaning starts_with hash_expr hash_tokens to_string
    add_to_group set_cutoff cutoff_of sort_groups insert_group make_schemata unhash_expr
    unhash_tokens read_value skip_space read_number is_space decode_formula token_meaning set_tag
    append_text_content strip_prefix encode_all encode encode_loop get_expr_size encode_token is_var
    get_type bytes_eq is_range get_arity encode_constant constant_id get_constant_encoding put get
    find_entry list_eq get_meaning reverse_lookup_table
one_schema_made = refl

get_schemata-le_example :
    (length one_schema.schemata ≤ 1)
    × (length one_schema.schemata ≤ one_schema.total)
    × IsDescending one_schema.schemata
get_schemata-le_example =
    get_schemata-le no_percent absolute table 3 encoded.exprs encoded.exprs_tokens 1 (omega arith)
      one_schema_made

-- A schema with one variable, and an expression for it, with a reference.
abbrev x_value : Bytes → CmmlToken
x_value name = token (codes "ci") ((codes "xref", codes "m1") ∷ []) name [] nil

abbrev sum_schema : CmmlToken
sum_schema =
    token (codes "apply") [] [] []
      (cons (token (codes "plus") [] [] [] nil) (cons (token qvar_tag [] (codes "x1") [] nil) nil))

get_substitutions-substitute_example :
    (get_substitutions (substitute x_value sum_schema) sum_schema
      ≡ references x_value (variables sum_schema))
    × (get_substitutions (x_value (codes "x")) sum_schema ≡ [])
unfolding bytes_eq
get_substitutions-substitute_example =
    get_substitutions-substitute x_value sum_schema (x_value (codes "x")) sum_schema refl refl

abbrev answered : SchemaAnswset
answered = elim (handle_schema_query no_percent false twice) [
  | none ↦ record { schemata = []; total = 0 }
  | some r ↦ r
]

answer_found : handle_schema_query no_percent false twice ≡ some answered
unfolding handle_schema_query with_substitutions get_substitutions get_attribute find_attribute
    get_schemata group_formulae hash_of reduce_formula reduce_loop is_apply decode_meaning_id
    reverse_get before_hash after_hash decode_meaning starts_with hash_expr hash_tokens to_string
    add_to_group set_cutoff cutoff_of sort_groups insert_group make_schemata unhash_expr
    unhash_tokens read_value skip_space read_number is_space decode_formula token_meaning set_tag
    append_text_content strip_prefix encode_all encode encode_loop get_expr_size encode_token is_var
    get_type bytes_eq is_range get_arity encode_constant constant_id get_constant_encoding put get
    find_entry list_eq get_meaning reverse_lookup_table
answer_found = refl

handle_schema_query-occurrences_example : occurrences 1 answered.schemata ≡ 1
unfolding encode_all encode encode_loop get_expr_size encode_token is_var get_type bytes_eq is_range
    get_arity encode_constant constant_id get_constant_encoding put get list_eq get_meaning
handle_schema_query-occurrences_example =
    handle_schema_query-occurrences no_percent false twice 1 refl encoded_runs (omega arith)
      (omega arith) answer_found
