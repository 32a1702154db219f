-- ===== src/Query/Schema/Complete.antt =====
-- `completeExpression` against the count of pending expressions.
use mws.Prelude.{
  ℕ, zero, suc, ◌+◌, ◌-◌, ◌<◌, ◌≤◌, ◌≡◌, refl, ap, ◌∙◌, inl, inr, subst, some, List, [], ◌∷◌, ◌++◌,
  arith, All, length, drop-append, Bool-cases, ◌==◌,
}
use mws.Index.EncodedToken.{EncodedToken, EncodedFormula}
use mws.Index.Encoder.Shape.{arities, pending, IsComplete}
use mws.Query.Schema.{one_less, close, step, complete_loop, complete_expression}

-- The fields of a token fit.
abbrev pub IsPacked : EncodedToken → Type 0
IsPacked t = (t.arity < 256) × (t.id < 16777216)

-- An entry of the stack expects at least one expression.
abbrev pub IsExpecting : ℕ → Type 0
IsExpecting n = (1 ≤ n) × (n < 256)

-- The expressions that a stack expects behind the one that is being read.
abbrev pub behind : List ℕ → ℕ
behind [] = 0
behind (n ∷ rest) = (n - 1) + behind rest

-- The stack expects that many expressions, counted from its top.
abbrev pub Expects : ℕ → List ℕ → Type 0
Expects total [] = total ≡ 0
Expects total (n ∷ rest) = (n + behind rest ≡ total) × All IsExpecting (n ∷ rest)

pub Expects-close : (s : List ℕ) → All IsExpecting s → Expects (behind s) (close s)
unfolding close
Expects-close [] a = refl
Expects-close (n ∷ rest) a = elim (Bool-cases (one_less n == 0)) [
  | inl last ↦
      let same : behind rest ≡ (n - 1) + behind rest = ground arith in
      let below = Expects-close rest a.1 in rw last (subst (λ b. Expects b (close rest)) same below)
  | inr more ↦ rw more (omega arith, (ground arith, a.1))
]

pub Expects-step :
    (arity : ℕ) (s : List ℕ)
    → arity < 256
    → All IsExpecting s
    → Expects (behind s + arity) (step arity s)
Expects-step arity s small a = elim (Bool-cases (arity == 0)) [
  | inl leaf ↦
      let same : behind s ≡ behind s + arity = ground arith in
      rw leaf (subst (λ b. Expects b (close s)) same (Expects-close s a))
  | inr inner ↦ rw inner (omega arith, ((ground arith, small), a))
]

complete_rest :
    (s : List ℕ) (g post : EncodedFormula) (curr total : ℕ)
    → ((s : List ℕ)
        → All IsExpecting s
        → pending (suc (behind s)) (arities g) ≡ some 0
        → complete_loop s (g ++ post) (curr + 1) ≡ some (curr + 1 + length g))
    → Expects total s
    → pending total (arities g) ≡ some 0
    → (elim s [ [] ↦ some (curr + 1) | n ∷ ns ↦ complete_loop (n ∷ ns) (g ++ post) (curr + 1) ])
      ≡ some (curr + suc (length g))
unfolding pending
complete_rest [] [] post curr total again e h = ap some (omega arith)
complete_rest [] (t ∷ g) post curr zero again e h = absurd (ground arith)
complete_rest [] (t ∷ g) post curr (suc total) again e h = absurd (omega arith)
complete_rest (n ∷ ns) g post curr total again e h =
    let same : total ≡ suc (behind (n ∷ ns)) = omega arith in
    again (n ∷ ns) e.1 (rw (← same) h) ∙ ap some (omega arith)

complete_loop-eq :
    (s : List ℕ) (g post : EncodedFormula) (curr : ℕ)
    → All IsExpecting s
    → All IsPacked g
    → pending (suc (behind s)) (arities g) ≡ some 0
    → complete_loop s (g ++ post) curr ≡ some (curr + length g)
unfolding complete_loop pending
complete_loop-eq s [] post curr a p h = absurd (ground arith)
complete_loop-eq s (t ∷ g) post curr a p h =
    complete_rest (step t.arity s) g post curr (behind s + t.arity)
      (λ s' a' h'. complete_loop-eq s' g post (curr + 1) a' p.1 h') (Expects-step t.arity s p.0.0 a)
      h

-- If a complete expression, whose tokens have fields that fit, stands somewhere in a formula,
-- `completeExpression` called at its first token returns the index right behind its last one.
pub complete_expression-IsComplete :
    (pre g post : EncodedFormula)
    → All IsPacked g
    → IsComplete g
    → complete_expression (pre ++ (g ++ post)) (length pre) ≡ some (length pre + length g)
unfolding complete_expression
complete_expression-IsComplete pre g post p h =
    rw (drop-append pre (g ++ post)) (complete_loop-eq [] g post (length pre) tt p h)
