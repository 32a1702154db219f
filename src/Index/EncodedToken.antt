-- ===== src/Index/EncodedToken.antt =====
-- src/mws/index/encoded_token.h: a token as an 8-bit arity and a 24-bit id, and which ids stand
-- for variables, ranges and constants.
use mws.Prelude.{
  ℕ, ◌/◌, ◌%◌, ◌^◌, ◌≡◌, refl, Bool, ◌&&◌, ◌||◌, [], ◌∷◌, List, length, arith, leb, ltb,
}
use mws.Prelude.Bytes.{Bytes}
use mws.Types.VectorMap.{Comparator}

abbrev pub enc_tok_max_arity : ℕ
enc_tok_max_arity = 255

abbrev pub hvar_id_min : ℕ
hvar_id_min = 1

abbrev pub anon_hvar_id_min : ℕ
anon_hvar_id_min = 33

abbrev pub anon_hvar_id_max : ℕ
anon_hvar_id_max = 64

abbrev pub qvar_id_min : ℕ
qvar_id_min = 65

abbrev pub anon_qvar_id_min : ℕ
anon_qvar_id_min = 97

abbrev pub anon_qvar_id_max : ℕ
anon_qvar_id_max = 128

abbrev pub var_id_max : ℕ
var_id_max = 128

abbrev pub range_id_min : ℕ
range_id_min = 129

abbrev pub range_id_max : ℕ
range_id_max = 160

abbrev pub constant_id_min : ℕ
constant_id_min = 161

pub record EncodedToken : Type 0 where
  pub arity : ℕ
  pub id : ℕ

abbrev pub EncodedFormula : Type 0
EncodedFormula = List EncodedToken

-- `encoded_token`: the bit-fields keep the low bits.
abbrev pub encoded_token : ℕ → ℕ → EncodedToken
encoded_token id arity = record { arity = arity % 2 ^ 8; id = id % 2 ^ 24 }

unfoldable pub encoded_token_is_var : EncodedToken → Bool
encoded_token_is_var token = leb token.id var_id_max

unfoldable pub encoded_token_is_range : EncodedToken → Bool
encoded_token_is_range token = leb range_id_min token.id && leb token.id range_id_max

unfoldable pub encoded_token_is_anon_var : EncodedToken → Bool
encoded_token_is_anon_var token =
    (leb anon_hvar_id_min token.id && ltb token.id anon_hvar_id_max)
    || (leb anon_qvar_id_min token.id && ltb token.id anon_qvar_id_max)

-- The four bytes in memory, on a little-endian machine: the arity, then the id from its low byte.
-- An id has 24 bits, so its quotient by 2^16 is a byte.
unfoldable pub token_bytes : EncodedToken → Bytes
token_bytes t = t.arity ∷ (t.id % 256) ∷ (t.id / 256 % 256) ∷ (t.id / 65536) ∷ []

pub token_bytes_size : (t : EncodedToken) → length (token_bytes t) ≡ 4
unfolding token_bytes
token_bytes_size t = refl

pub token_bytes_injective : (a b : EncodedToken) → token_bytes a ≡ token_bytes b → a ≡ b
unfolding token_bytes
token_bytes_injective a b h = ground arith

-- Tokens are compared by `memcmp`.
instance unfoldable pub token_comparator : Comparator EncodedToken
unfolding token_bytes
token_comparator = record {
  bytes = token_bytes;
  size_of = 4;
  bytes_size = token_bytes_size;
  bytes_injective = token_bytes_injective;
}
