-- ===== src/Tests/Building.antt =====
-- A number, indexed from scratch.
use mws.Prelude.{ℕ, ◌∷◌, arith, ◌≡◌, refl, [], some, none, true, false, nat_eq}
use mws.Prelude.Tests.{list_eq}
use mws.Prelude.Bytes.{codes, bytes_eq, memcmp}
use mws.Dbc.{MemFormulaDb}
use mws.Dbc.Infos.{HasInfo}
use mws.Common.IdDictionary.Laws.{empty-IsValid}
use mws.Common.IdDictionary.{empty, put, get, find_entry}
use mws.Types.VectorMap.{find, find_index, find_loop}
use mws.Types.CmmlToken.{
  token, nil, is_var, is_range, get_type, get_meaning, get_arity, get_expr_size,
}
use mws.Types.CmmlToken.Traverse.{preorder_of, preorder_list, Located, foreach_subexpression, visit}
use mws.Index.EncodedToken.{token_comparator}
use mws.Index.Encoder.{
  Encoded, harvest, query, start, encode, encode_loop, encode_token, encode_constant, constant_id,
  get_constant_encoding,
}
use mws.Index.Encoder.Run.{run}
use mws.Index.Encoder.Roundtrip.{fresh}
use mws.Index.TmpIndex.{Children, leaf, walk, new_node, insert_data, insert_from, increment_at}
use mws.Index.Builder.{
  BuildState, start_build, index_content_math, index_all, index_subexpression, contains,
}
use mws.Index.Builder.Total.{IsWellFormed, KeepsIds, KeepsInfos, info_of}
use mws.Index.Builder.Findable.{index_content_math-IsWellFormed, index_content_math-query}

abbrev pub number : Located
number = record {
  node = token (codes "cn") [] (codes "1") (codes "/*[1]") nil;
  parent_tag = none;
  is_front = true;
}

abbrev indexed : BuildState
indexed = elim (index_content_math false (codes "p") 1 number empty mws.Index.TmpIndex.empty []) [
  | none ↦ start_build empty mws.Index.TmpIndex.empty []
  | some s ↦ s
]

indexed_runs :
    index_content_math false (codes "p") 1 number empty mws.Index.TmpIndex.empty [] ≡ some indexed
unfolding index_content_math index_all index_subexpression contains encode encode_loop encode_token
    encode_constant constant_id get_constant_encoding put get find_entry list_eq is_var is_range
    get_type bytes_eq get_meaning get_arity get_expr_size foreach_subexpression visit insert_data
    insert_from find find_index find_loop memcmp token_comparator
indexed_runs = refl

abbrev unused : MemFormulaDb
unused = []

pub new_index-IsWellFormed : IsWellFormed new_node
new_index-IsWellFormed = record { ordered = (tt, tt); open_root = tt }

index_content_math-IsWellFormed_example :
    (s : BuildState) × (index_content_math true
        (codes "p")
        1
        number
        empty
        mws.Index.TmpIndex.empty
        unused
      ≡ some s)
    × IsWellFormed s.index.root
    × KeepsIds new_node s.index.root
    × KeepsInfos unused s.formula_db
unfolding preorder_of preorder_list is_var is_range get_type bytes_eq
index_content_math-IsWellFormed_example =
    index_content_math-IsWellFormed true (codes "p") 1 number empty mws.Index.TmpIndex.empty unused
      new_index-IsWellFormed ((refl, refl), tt)

abbrev pub number_encoded : Encoded
number_encoded = run false harvest (number ∷ []) (start (fresh empty) none)

pub number_runs : encode false harvest (fresh empty) number none ≡ some number_encoded
unfolding encode encode_loop get_expr_size encode_token run is_var get_type bytes_eq is_range
    get_arity
number_runs = refl

index_content_math-query_example :
    (s : BuildState) × (index_content_math false
        (codes "p")
        1
        number
        empty
        mws.Index.TmpIndex.empty
        unused
      ≡ some s)
    × (q : Encoded) × (encode false query (fresh s.encoder.dictionary) number none ≡ some q)
    × (q.ok ≡ true)
    × (q.formula ≡ number_encoded.formula)
    × (id n : ℕ) × (c : Children) × (walk q.formula s.index.root ≡ some (leaf id n c))
    × HasInfo s.formula_db id (info_of false (codes "p") 1 number)
unfolding preorder_of preorder_list is_var is_range encode encode_loop encode_token encode_constant
    constant_id get_constant_encoding put get find_entry list_eq get_type bytes_eq get_meaning
    get_arity get_expr_size run
index_content_math-query_example =
    index_content_math-query (codes "p") 1 number empty mws.Index.TmpIndex.empty unused
      empty-IsValid (omega arith) new_index-IsWellFormed ((refl, refl), tt) number_runs refl
