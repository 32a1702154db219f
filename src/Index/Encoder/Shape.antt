-- ===== src/Index/Encoder/Shape.antt =====
-- The arities of an encoded formula, and when it is a complete prefix term.
use mws.Prelude.{
  ℕ, zero, suc, ◌+◌, ◌≡◌, refl, ap, sym, ◌∙◌, Bool, true, false, Option, none, some, List, [], ◌∷◌,
  ◌++◌, arith, Option-cases, inl, inr, append_assoc, append-nil, All, if◌then◌else◌, ◌||◌, nat_eq,
  list_eq,
}
use mws.Prelude.Bytes.{Bytes, bytes_eq}
use mws.Common.IdDictionary.{put}
use mws.Types.CmmlToken.{
  CmmlToken, token, Tokens, nil, cons, count, is_var, is_range, get_arity, get_var_name,
}
use mws.Types.CmmlToken.Traverse.{Located, preorder_of, preorder_list, preorder}
use mws.Index.EncodedToken.{EncodedToken, EncodedFormula, encoded_token}
use mws.Index.Encoder.{
  EncoderKind, Encoder, EncodeState, ExpressionInfo, Encoded, start, encode_var, encode_range,
  encode_constant, encode_token, encode, constant_id, get_anon_var_offset, get_named_var_offset,
  get_range_offset,
}
use mws.Index.Encoder.Run.{run, run-none, run-some, encode-eq-run}

-- The arity that `encode` writes for a token: 1 for a variable or a range.
unfoldable pub written_arity : Located → ℕ
written_arity l = if is_var l.node || is_range l.node then 1 else get_arity l.node

abbrev pub arities : EncodedFormula → List ℕ
arities [] = []
arities (t ∷ f) = t.arity ∷ arities f

arities-append : (f g : EncodedFormula) → arities (f ++ g) ≡ arities f ++ arities g
arities-append [] g = refl
arities-append (t ∷ f) g = ap (λ (r : List ℕ). t.arity ∷ r) (arities-append f g)

abbrev pub written_arities : List Located → List ℕ
written_arities [] = []
written_arities (l ∷ ls) = written_arity l ∷ written_arities ls

module _ (rename_ci : Bool) (kind : EncoderKind) where
  -- The token that a round writes, if it does not return.
  written_token : Located → EncodeState → EncodedToken
  written_token l s =
      if is_var l.node
      then (if bytes_eq (get_var_name l.node) []
          then encoded_token (get_anon_var_offset kind + s.anon_var_id) 1
          else encoded_token
              (get_named_var_offset kind + (put s.named_vars (get_var_name l.node)).1) 1)
      else if is_range l.node
      then encoded_token (get_range_offset kind + s.anon_range_id) 1
      else encoded_token (constant_id rename_ci kind s.encoder l).1 (get_arity l.node)

  formula-encode_token :
      (l : Located) (s s' : EncodeState)
      → encode_token rename_ci kind l s ≡ some s'
      → s'.formula ≡ s.formula ++ written_token l s ∷ []
  unfolding encode_token encode_var encode_range encode_constant written_token
  formula-encode_token l s s' h = ground arith

  arity-written_token :
      (l : Located) (s s' : EncodeState)
      → encode_token rename_ci kind l s ≡ some s'
      → (written_token l s).arity ≡ written_arity l
  unfolding encode_token written_token written_arity
  arity-written_token l s s' h = ground arith

  arities-run :
      (ls : List Located) (s : EncodeState)
      → (run rename_ci kind ls s).ok ≡ true
      → arities (run rename_ci kind ls s).formula ≡ arities s.formula ++ written_arities ls
  arities-run [] s h = unfold run in sym (append-nil (arities s.formula))
  arities-run (l ∷ ls) s h = elim (Option-cases (encode_token rename_ci kind l s)) [
    | inl stop ↦
        let bad : (run rename_ci kind (l ∷ ls) s).ok ≡ false =
          rw (run-none rename_ci kind l ls s stop) in
        absurd (cc)
    | inr (s', next) ↦
        let step = run-some rename_ci kind l ls s next in
        let grown = formula-encode_token l s s' next in
        let fits = arity-written_token l s s' next in
        rw step (arities-run ls s' (rw (← step) h) ∙ rw (grown, arities-append, append_assoc, fits))
  ]

  -- When `encode` succeeds, the arities that it wrote are those of the subexpressions in
  -- preorder, counting 1 for a variable or a range.
  pub encode-arities :
      (e : Encoder) (l : Located) (info : Option ExpressionInfo) {out : Encoded}
      → encode rename_ci kind e l info ≡ some out
      → out.ok ≡ true
      → arities out.formula ≡ written_arities (preorder l)
  encode-arities e l info {out} h ok =
      let same : run rename_ci kind (preorder l) (start e info) ≡ out =
        cc (encode-eq-run rename_ci kind e l info) in
      rw (← same) (arities-run (preorder l) (start e info) (rw same ok))

-- How many expressions are still to come: from `open` of them, after reading the tokens. `none`
-- is a token too many.
unfoldable pub pending : ℕ → List ℕ → Option ℕ
pending open' [] = some open'
pending zero (a ∷ rest) = none
pending (suc open') (a ∷ rest) = pending (open' + a) rest

-- One expression and nothing more, as IndexIterator and the schema engine count it.
abbrev pub IsComplete : EncodedFormula → Type 0
IsComplete f = pending 1 (arities f) ≡ some 0

abbrev pub IsConstant : Located → Type 0
IsConstant l = (is_var l.node ≡ false) × (is_range l.node ≡ false)

written_arities-append :
    (ls ms : List Located) → written_arities (ls ++ ms) ≡ written_arities ls ++ written_arities ms
written_arities-append [] ms = refl
written_arities-append (l ∷ ls) ms =
    ap (λ (r : List ℕ). written_arity l ∷ r) (written_arities-append ls ms)

constant_arity : (l : Located) → IsConstant l → written_arity l ≡ get_arity l.node
unfolding written_arity
constant_arity l h = ground arith

pub All-split {ℓ} :
    {A : Type ℓ} (P : A → Type 0) (xs ys : List A) → All P (xs ++ ys) → All P xs × All P ys
All-split P [] ys h = (tt, h)
All-split P (x ∷ xs) ys h = let (p, q) = All-split P xs ys h.1 in ((h.0, p), q)

mutual
  unfolding preorder_of preorder_list pending get_arity

  pending-preorder :
      (t : CmmlToken) (parent : Option Bytes) (front : Bool) (open' : ℕ) (rest : List ℕ)
      → All IsConstant (preorder_of t parent front)
      → pending (suc open') (written_arities (preorder_of t parent front) ++ rest)
        ≡ pending open' rest
  pending-preorder (token tag attrs text xpath children) parent front open' rest h =
      let here : Located = record {
        node = token tag attrs text xpath children;
        parent_tag = parent;
        is_front = front;
      } in
      rw (constant_arity here h.0) (pending-preorder_list children tag true open' rest h.1)

  pending-preorder_list :
      (ts : Tokens) (tag : Bytes) (front : Bool) (open' : ℕ) (rest : List ℕ)
      → All IsConstant (preorder_list ts tag front)
      → pending (open' + count ts) (written_arities (preorder_list ts tag front) ++ rest)
        ≡ pending open' rest
  pending-preorder_list nil tag front open' rest h = let e : open' + 0 ≡ open' = omega arith in rw e
  pending-preorder_list (cons t ts) tag front open' rest h =
      let e : open' + suc (count ts) ≡ suc (open' + count ts) = omega arith in
      let (now, later) =
        All-split IsConstant (preorder_of t (some tag) front) (preorder_list ts tag false) h in
      rw
        (
          e,
          written_arities-append (preorder_of t (some tag) front) (preorder_list ts tag false),
          append_assoc (written_arities (preorder_of t (some tag) front)),
        )
        (pending-preorder t (some tag) front (open' + count ts) _ now
          ∙ pending-preorder_list ts tag false open' rest later)

-- A successful encoding of an expression with neither variables nor ranges is a complete prefix
-- term: reading the arities as numbers of expressions to come, one expression is announced and it
-- ends with the last token.
pub encode-IsComplete :
    (rename_ci : Bool) (kind : EncoderKind) (e : Encoder) (l : Located)
    (info : Option ExpressionInfo) {out : Encoded}
    → encode rename_ci kind e l info ≡ some out
    → out.ok ≡ true
    → All IsConstant (preorder l)
    → IsComplete out.formula
unfolding pending
encode-IsComplete rename_ci kind e l info h ok c =
    rw (encode-arities rename_ci kind e l info h ok, ← append-nil (written_arities (preorder l)))
      (pending-preorder l.node l.parent_tag l.is_front 0 [] c)

pending-var :
    (t : CmmlToken) (parent : Option Bytes) (front : Bool)
    → is_var t ≡ true
    → get_arity t ≡ 0
    → pending 1 (written_arities (preorder_of t parent front)) ≡ some 1
unfolding preorder_of preorder_list pending get_arity written_arity
pending-var (token tag attrs text xpath nil) parent front v leaf = rw v
pending-var (token tag attrs text xpath (cons t ts)) parent front v leaf = absurd (omega arith)

-- A successful encoding of a variable without children is not complete: its arity is written as
-- 1, so after its only token one expression is still to come.
pub encode_var-not-IsComplete :
    (rename_ci : Bool) (kind : EncoderKind) (e : Encoder) (l : Located)
    (info : Option ExpressionInfo) {out : Encoded}
    → encode rename_ci kind e l info ≡ some out
    → out.ok ≡ true
    → is_var l.node ≡ true
    → get_arity l.node ≡ 0
    → pending 1 (arities out.formula) ≡ some 1
encode_var-not-IsComplete rename_ci kind e l info h ok v leaf =
    rw (encode-arities rename_ci kind e l info h ok)
      (pending-var l.node l.parent_tag l.is_front v leaf)
