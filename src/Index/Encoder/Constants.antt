-- ===== src/Index/Encoder/Constants.antt =====
-- The ids of constants: apart from those of variables and ranges, one for each meaning, and
-- decoded back to it.
use mws.Prelude.{
  ℕ, ◌+◌, ◌-◌, ◌<◌, ◌≤◌, ◌≡◌, ◌≢◌, refl, sym, ◌∙◌, true, false, some, [], arith, nat_eq, list_eq,
  ◌%◌, ◌^◌, beq_refl, leb,
}
use mws.Prelude.Bytes.{Bytes}
use mws.Common.IdDictionary.{get, put, reverse_lookup_table}
use mws.Common.IdDictionary.Laws.{
  IsValid, get-put, put-ne-zero, put-IsValid, get_injective, put_id-le, get-le,
}
use mws.Common.IdDictionary.Reverse.{reverse_get-get}
use mws.Index.EncodedToken.{
  encoded_token, encoded_token_is_var, encoded_token_is_range, constant_id_min,
}
use mws.Index.Encoder.{Encoder, harvest, query, get_constant_encoding, decode_meaning_id}

-- The ids that fit behind CONSTANT_ID_MIN in 24 bits.
abbrev pub max_meanings : ℕ
max_meanings = 2 ^ 24 - constant_id_min

module _ (e : Encoder) (meaning : Bytes) (v : IsValid e.dictionary)
    (room : e.dictionary.next_id < max_meanings) where
  -- The id of the meaning, before the offset.
  abbrev given : ℕ
  given = (put e.dictionary meaning).1

  given_bounds : (1 ≤ given) × (given < max_meanings)
  given_bounds = omega (arith, put-ne-zero e.dictionary meaning v, put_id-le e.dictionary meaning v)

  encoding-eq : (get_constant_encoding harvest e meaning).1 ≡ constant_id_min + given
  unfolding get_constant_encoding
  encoding-eq = omega (arith, given_bounds)

  -- For a valid dictionary with an id left, the token of a harvested constant is taken neither
  -- for a variable nor for a range, whatever the arity.
  pub constant_is_neither :
      (arity : ℕ)
      → let tok = encoded_token (get_constant_encoding harvest e meaning).1 arity in
        (encoded_token_is_var tok ≡ false) × (encoded_token_is_range tok ≡ false)
  unfolding encoded_token_is_var encoded_token_is_range
  constant_is_neither arity = ground (arith, encoding-eq, given_bounds)

  put-given-IsValid : IsValid (put e.dictionary meaning).0
  put-given-IsValid = put-IsValid e.dictionary meaning v (omega (arith, room))

  get-given : get (put e.dictionary meaning).0 meaning ≡ given
  get-given =
      get-put e.dictionary meaning meaning v ∙ rw (beq_refl ⦃e = list_eq ⦃e = nat_eq⦄⦄ meaning)

  dictionary-encoding :
      (get_constant_encoding harvest e meaning).0.dictionary ≡ (put e.dictionary meaning).0
  unfolding get_constant_encoding
  dictionary-encoding = refl

  -- For a valid dictionary with an id left, the decoder gives the meaning of a constant that
  -- the harvest encoded back, whatever the arity.
  pub decode-encode :
      (arity : ℕ)
      → let (e', id) = get_constant_encoding harvest e meaning in
        decode_meaning_id (reverse_lookup_table [] e'.dictionary) (encoded_token id arity).id
        ≡ some meaning
  unfolding decode_meaning_id
  decode-encode arity =
      let id_eq : (get_constant_encoding harvest e meaning).1 % 2 ^ 24 ≡ constant_id_min + given =
        omega (arith, encoding-eq, given_bounds) in
      let large : leb constant_id_min (constant_id_min + given) ≡ true = ground arith in
      let back : constant_id_min + given - constant_id_min ≡ given = omega arith in
      rw (id_eq, large, back, dictionary-encoding, ← get-given)
        (reverse_get-get (put e.dictionary meaning).0 [] meaning put-given-IsValid
          (λ z. put-ne-zero e.dictionary meaning v (sym get-given ∙ z)))

-- For a valid dictionary whose ids fit, a query gives two meanings the same id, other than 0,
-- only if they are the same meaning.
pub query_encoding_injective :
    (e : Encoder) (m n : Bytes)
    → IsValid e.dictionary
    → e.dictionary.next_id < max_meanings
    → (get_constant_encoding query e m).1 ≢ 0
    → (get_constant_encoding query e m).1 ≡ (get_constant_encoding query e n).1
    → m ≡ n
unfolding get_constant_encoding
query_encoding_injective e m n v room known same =
    get_injective e.dictionary m n v (λ z. known (rw z))
      (ground (arith, get-le e.dictionary m v, get-le e.dictionary n v))
