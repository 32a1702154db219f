-- ===== src/Tests/Encoding.antt =====
-- A dictionary of two meanings, and the expression x + 1 encoded over it.
use mws.Prelude.{◌≡◌, refl, [], true, false, some, none, arith, All, nat_eq}
use mws.Prelude.Bytes.{codes, bytes_eq}
use mws.Prelude.Tests.{list_eq}
use mws.Common.IdDictionary.{empty, reverse_lookup_table, put, get, find_entry}
use mws.Common.IdDictionary.Laws.{empty-IsValid}
use mws.Types.CmmlToken.{
  token, nil, is_var, is_range, get_type, get_meaning, get_arity, get_var_name, find_attribute,
}
use mws.Types.CmmlToken.Traverse.{Located, preorder, preorder_of, preorder_list}
use mws.Index.EncodedToken.{encoded_token}
use mws.Index.Encoder.{
  Encoder, Encoded, harvest, query, get_constant_encoding, decode_meaning_id, encode, start,
  encode_token, encode_constant, constant_id, encode_var,
}
use mws.Index.Encoder.Constants.{decode-encode}
use mws.Index.Encoder.Run.{run, encode-eq-run}
use mws.Index.Encoder.Shape.{IsComplete, IsConstant, encode-IsComplete}
use mws.Index.Encoder.Roundtrip.{fresh, over, HasRoom, query-encode-harvest}
use mws.Tests.Dictionary.{two_meanings, two_meanings-IsValid, x_name, get_x}
use mws.Tests.Tokens.{located_sum}

abbrev encoder : Encoder
encoder = fresh two_meanings

decode-encode_example :
    let (e', id) = get_constant_encoding harvest encoder x_name in
    decode_meaning_id (reverse_lookup_table [] e'.dictionary) (encoded_token id 0).id ≡ some x_name
decode-encode_example = decode-encode encoder x_name two_meanings-IsValid (omega arith) 0

known_x : (get_constant_encoding query encoder x_name).1 ≡ 163
unfolding get_constant_encoding
known_x = rw get_x

encode-eq-run_example :
    encode false harvest encoder located_sum none
    ≡ some (run false harvest (preorder located_sum) (start encoder none))
encode-eq-run_example = encode-eq-run false harvest encoder located_sum none

-- What the harvest makes of the sum.
abbrev harvested : Encoded
harvested = run false harvest (preorder located_sum) (start (fresh empty) none)

harvest_runs : encode false harvest (fresh empty) located_sum none ≡ some harvested
harvest_runs = encode-eq-run false harvest (fresh empty) located_sum none

harvested_ok : harvested.ok ≡ true
unfolding run encode_token encode_constant constant_id get_constant_encoding put get find_entry
    list_eq is_var is_range get_type bytes_eq preorder_of preorder_list get_meaning get_arity
harvested_ok = refl

sum-IsConstant : All IsConstant (preorder located_sum)
unfolding is_var is_range get_type bytes_eq preorder_of preorder_list
sum-IsConstant = ((refl, refl), ((refl, refl), ((refl, refl), ((refl, refl), tt))))

sum_fits : HasRoom empty (preorder located_sum)
unfolding preorder_of preorder_list
sum_fits = omega arith

encode-IsComplete_example : IsComplete harvested.formula
encode-IsComplete_example =
    encode-IsComplete false harvest (fresh empty) located_sum none harvest_runs harvested_ok
      sum-IsConstant

query-encode-harvest_example :
    encode false query (fresh harvested.encoder.dictionary) located_sum none
    ≡ some (over harvested.encoder.dictionary harvested)
query-encode-harvest_example =
    query-encode-harvest empty harvested.encoder.dictionary located_sum none empty-IsValid sum_fits
      harvest_runs (λ k p. refl)

-- A query that is one variable with the name x.
abbrev variable : Located
variable = record {
  node = token (codes "mws:qvar") [] (codes "x") (codes "/*[1]") nil;
  parent_tag = none;
  is_front = true;
}

abbrev of_variable : Encoded
of_variable = run false query (preorder variable) (start (fresh empty) none)

of_variable_ok : of_variable.ok ≡ true
unfolding run encode_token encode_var is_var is_range get_type bytes_eq preorder_of preorder_list
    get_var_name find_attribute
of_variable_ok = refl
