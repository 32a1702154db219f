-- ===== src/Query/Schema/Hash.antt =====
-- The hash of a formula can be read back.
use mws.Prelude.{ℕ, ◌≡◌, refl, sym, ap, ◌∙◌, true, false, some, [], ◌∷◌, ◌++◌, arith, All, length}
use mws.Prelude.Bytes.{Bytes, codes}
use mws.Prelude.Decimal.{
  to_string, starts_with_digit, read_number-to_string, starts_with_digit-to_string,
}
use mws.Types.CmmlToken.{is_space}
use mws.Index.EncodedToken.{EncodedToken, EncodedFormula, encoded_token}
use mws.Query.Schema.{hash_tokens, hash_expr, skip_space, read_value, unhash_tokens, unhash_expr}
use mws.Query.Schema.Complete.{IsPacked}

-- A digit is no white space.
skip_space_digit : (s : Bytes) → starts_with_digit s ≡ true → skip_space s ≡ s
unfolding skip_space is_space
skip_space_digit [] h = refl
skip_space_digit (c ∷ s) h = ground arith

skip_space_blank : (s : Bytes) → skip_space (codes " " ++ s) ≡ skip_space s
unfolding skip_space is_space
skip_space_blank s = refl

read_value-to_string :
    (n : ℕ) (rest : Bytes)
    → starts_with_digit rest ≡ false
    → read_value (to_string n ++ rest) ≡ some (n, rest)
unfolding read_value
read_value-to_string n rest h =
    rw (skip_space_digit (to_string n ++ rest) (starts_with_digit-to_string n rest))
      (read_number-to_string n rest h)

read_value_blank :
    (n : ℕ) (rest : Bytes)
    → starts_with_digit rest ≡ false
    → read_value (codes " " ++ (to_string n ++ rest)) ≡ some (n, rest)
unfolding read_value
read_value_blank n rest h =
    rw
      (
        skip_space_blank (to_string n ++ rest),
        skip_space_digit (to_string n ++ rest) (starts_with_digit-to_string n rest),
      )
      (read_number-to_string n rest h)

hash_tokens_front : (expr : EncodedFormula) → starts_with_digit (hash_tokens expr) ≡ false
unfolding hash_tokens
hash_tokens_front [] = refl
hash_tokens_front (t ∷ rest) = refl

packed_token : (t : EncodedToken) → IsPacked t → encoded_token t.id t.arity ≡ t
packed_token t p = ground arith

unhash-hash_tokens :
    (expr : EncodedFormula)
    → All IsPacked expr
    → unhash_tokens (length expr) (hash_tokens expr) ≡ some expr
unfolding unhash_tokens hash_tokens
unhash-hash_tokens [] p = refl
unhash-hash_tokens (t ∷ rest) p = rw (
  read_value_blank t.id (codes " " ++ (to_string t.arity ++ hash_tokens rest)) refl,
  unhash_tokens,
  read_value_blank t.arity (hash_tokens rest) (hash_tokens_front rest),
  unhash-hash_tokens rest p.1,
  packed_token t p.0,
)

-- A formula whose tokens have fields that fit is read back from its hash, the same tokens in the
-- same order.
pub unhash-hash_expr :
    (expr : EncodedFormula) → All IsPacked expr → unhash_expr (hash_expr expr) ≡ some expr
unfolding unhash_expr hash_expr
unhash-hash_expr expr p =
    rw (read_value-to_string (length expr) (hash_tokens expr) (hash_tokens_front expr), unhash_expr)
      (unhash-hash_tokens expr p)

-- Two formulas whose tokens have fields that fit have the same hash only if they are the same
-- formula.
pub hash_expr_injective :
    (e f : EncodedFormula) → All IsPacked e → All IsPacked f → hash_expr e ≡ hash_expr f → e ≡ f
hash_expr_injective e f p q h =
    let read : some e ≡ some f =
      sym (unhash-hash_expr e p) ∙ ap unhash_expr h ∙ unhash-hash_expr f q in
    cc
