-- ===== src/Index/Encoder/Run.antt =====
-- The loop of `encode` as a pass over the subexpressions in preorder.
use mws.Prelude.{
  ℕ, zero, suc, ◌≡◌, Bool, Option, none, some, List, [], ◌∷◌, ◌++◌, arith, Option-cases, inl, inr,
}
use mws.Types.CmmlToken.Traverse.{
  Located, children_of, visit, preorder, foreach_subexpression, foreach_subexpression-eq-preorder,
}
use mws.Index.Encoder.{
  EncoderKind, Encoder, EncodeState, ExpressionInfo, Encoded, start, finished, aborted,
  encode_token, encode_loop, encode,
}

module _ (rename_ci : Bool) (kind : EncoderKind) where
  unfoldable pub run : List Located → EncodeState → Encoded
  run [] s = finished s
  run (l ∷ ls) s = elim (encode_token rename_ci kind l s) [ none ↦ aborted s | some s' ↦ run ls s' ]

  pub run-none :
      (l : Located) (ls : List Located) (s : EncodeState)
      → encode_token rename_ci kind l s ≡ none
      → run (l ∷ ls) s ≡ aborted s
  unfolding run
  run-none l ls s h = rw (h, run)

  pub run-some :
      (l : Located) (ls : List Located) (s : EncodeState) {s' : EncodeState}
      → encode_token rename_ci kind l s ≡ some s'
      → run (l ∷ ls) s ≡ run ls s'
  unfolding run
  run-some l ls s h = rw (h, run)

  loop-eq-run :
      (fuel : ℕ) (stack seen : List Located) (s : EncodeState)
      → visit fuel stack ≡ some seen
      → encode_loop rename_ci kind fuel stack s ≡ some (run seen s)
  unfolding encode_loop run visit
  loop-eq-run fuel [] seen s h = ground arith
  loop-eq-run zero (l ∷ stack) seen s h = absurd (cc)
  loop-eq-run (suc fuel) (l ∷ stack) seen s h =
      elim (Option-cases (visit fuel (children_of l ++ stack))) [
        | inl out ↦ absurd (ground arith)
        | inr (below, found) ↦
            let split : l ∷ below ≡ seen = ground arith in
            rw (← split) (elim (Option-cases (encode_token rename_ci kind l s)) [
              | inl stop ↦ rw (stop, encode_loop, run)
              | inr (s', next) ↦
                  rw (next, encode_loop, run)
                    (loop-eq-run fuel (children_of l ++ stack) below s' found)
            ])
      ]

  -- The loop of `encode` over its stack always ends, within one round for each token of the
  -- expression, with the effect of one pass over the subexpressions in preorder.
  pub encode-eq-run :
      (e : Encoder) (l : Located) (info : Option ExpressionInfo)
      → encode rename_ci kind e l info ≡ some (run (preorder l) (start e info))
  unfolding encode
  encode-eq-run e l info =
      loop-eq-run _ (l ∷ []) (preorder l) (start e info)
        (unfold foreach_subexpression in foreach_subexpression-eq-preorder l)
