-- ===== src/Index/Encoder/Tokens.antt =====
-- The tokens that a harvest writes for an expression without variables and ranges.
use mws.Prelude.{
  ◌+◌, ◌<◌, ◌≡◌, sym, subst, false, none, some, List, [], ◌∷◌, ◌++◌, ◌%◌, arith, Option-cases, inl,
  inr, All, All-append, length, nat_eq, list_eq,
}
use mws.Prelude.Bytes.{Bytes}
use mws.Common.IdDictionary.{IdDictionary, put}
use mws.Common.IdDictionary.Laws.{IsValid, put-lt, next_id-put-le}
use mws.Types.CmmlToken.{get_meaning, get_arity}
use mws.Types.CmmlToken.Traverse.{Located, preorder}
use mws.Index.EncodedToken.{
  EncodedToken, encoded_token, encoded_token_is_var, encoded_token_is_range,
}
use mws.Index.Encoder.{
  EncodeState, Encoded, start, harvest, encode, encode_token, encode_constant, constant_id,
  get_constant_encoding,
}
use mws.Index.Encoder.Run.{run, run-none, run-some, encode-eq-run}
use mws.Index.Encoder.Shape
use mws.Index.Encoder.Roundtrip.{Grows-encode_token, fresh}
use mws.Query.Search.Constants.{IsConstant}

-- The ids of constants that have 24 bits.
abbrev pub HasIds : IdDictionary Bytes → List Located → Type 0
HasIds d ls = d.next_id + length ls + 161 < 16777216

IsConstant-written :
    (l : Located) (s s' : EncodeState)
    → IsValid s.encoder.dictionary
    → s.encoder.dictionary.next_id + 1 + 161 < 16777216
    → Shape.IsConstant l
    → encode_token false harvest l s ≡ some s'
    → (t : EncodedToken) × (s'.formula ≡ s.formula ++ t ∷ []) × IsConstant t
unfolding encode_token encode_constant constant_id get_constant_encoding encoded_token_is_var
    encoded_token_is_range
IsConstant-written l s s' v room c h =
    let meaning = get_meaning l.node in
    let id = (put s.encoder.dictionary meaning).1 in
    let below = put-lt s.encoder.dictionary meaning v (omega arith) in
    let step = next_id-put-le s.encoder.dictionary meaning in
    (
      encoded_token ((161 + id) % 4294967296) (get_arity l.node),
      ground arith,
      (ground arith, ground arith, (omega arith, omega arith)),
    )

-- Every token of a pass is a constant, if those before it are.
constants-run :
    (ls : List Located) (s : EncodeState)
    → IsValid s.encoder.dictionary
    → HasIds s.encoder.dictionary ls
    → All Shape.IsConstant ls
    → All IsConstant s.formula
    → All IsConstant (run false harvest ls s).formula
constants-run [] s v room c before = unfold run in before
constants-run (l ∷ ls) s v room c before = elim (Option-cases (encode_token false harvest l s)) [
  | inl stop ↦ rw (run-none false harvest l ls s stop) before
  | inr (s', next) ↦
      let step = Grows-encode_token l s s' v (omega arith) next in
      let (t, written, constant) = IsConstant-written l s s' v (omega arith) c.0 next in
      let all = All-append IsConstant s.formula (t ∷ []) before (constant, tt) in
      rw (run-some false harvest l ls s next) (
        constants-run ls s' step.valid (omega (arith, step.next)) c.1
          (subst (All IsConstant) (sym written) all))
]

-- What a harvest writes for such an expression.
pub encode-constants :
    (d : IdDictionary Bytes) (l : Located) {out : Encoded}
    → IsValid d
    → HasIds d (preorder l)
    → All Shape.IsConstant (preorder l)
    → encode false harvest (fresh d) l none ≡ some out
    → All IsConstant out.formula
encode-constants d l {out} v room c h =
    let same : run false harvest (preorder l) (start (fresh d) none) ≡ out =
      cc (encode-eq-run false harvest (fresh d) l none) in
    subst (λ z. All IsConstant z.formula) same
      (constants-run (preorder l) (start (fresh d) none) v room c tt)
