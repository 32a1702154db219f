-- ===== src/Query/Context/Points.antt =====
-- The backtrack points and the special ids.
use mws.Prelude.{
  ℕ, zero, suc, ◌+◌, ◌-◌, ◌<◌, ◌≤◌, ◌≡◌, ◌≢◌, refl, ap, ◌∙◌, sym, ◌⊎◌, inl, inr, Bool-cases,
  Option-cases, some, List, [], ◌∷◌, ◌++◌, arith, length, length-append, get_elem?, All, All-append,
  subst,
}
use mws.Index.EncodedToken.{
  EncodedToken, EncodedFormula, encoded_token_is_var, encoded_token_is_range,
  encoded_token_is_anon_var,
}
use mws.Query.Context.{
  TokType, qvar_token, range_token, const_token, NodeTriple, ContextState, start_context, find_qvar,
  add_special, add_plain, add_token, add_tokens, search_context,
}

module _ {ℓ} {A : Type ℓ} where
  get_elem?-append_left :
      (xs ys : List A) (i : ℕ) {a : A} → get_elem? xs i ≡ some a → get_elem? (xs ++ ys) i ≡ some a
  get_elem?-append_left [] ys i h = absurd (cc)
  get_elem?-append_left (x ∷ xs) ys zero h = h
  get_elem?-append_left (x ∷ xs) ys (suc i) h = get_elem?-append_left xs ys i h

  get_elem?-append_last : (xs : List A) (y : A) → get_elem? (xs ++ y ∷ []) (length xs) ≡ some y
  get_elem?-append_last [] y = refl
  get_elem?-append_last (x ∷ xs) y = get_elem?-append_last xs y

  get_elem?-append_cases :
      (xs : List A) (y : A) (i : ℕ) {a : A}
      → get_elem? (xs ++ y ∷ []) i ≡ some a
      → (get_elem? xs i ≡ some a) ⊎ ((i ≡ length xs) × (a ≡ y))
  get_elem?-append_cases [] y zero h = inr (refl, cc)
  get_elem?-append_cases [] y (suc i) h = absurd (cc)
  get_elem?-append_cases (x ∷ xs) y zero h = inl h
  get_elem?-append_cases (x ∷ xs) y (suc i) h = elim (get_elem?-append_cases xs y i h) [
    | inl old ↦ inl old
    | inr (e, q) ↦ inr (ap suc e, q)
  ]

-- The token in front of a backtrack point is a variable or a range with the special id.
abbrev pub PointsAt : List NodeTriple → ℕ → ℕ → Type 0
PointsAt expr i p =
    (1 ≤ p)
    × (t : NodeTriple) × (get_elem? expr (p - 1) ≡ some t)
    × (t.arity ≡ i)
    × (t.type_ ≢ const_token)

-- A variable or a range has an id that was given out.
abbrev pub HasPoint : ℕ → NodeTriple → Type 0
HasPoint count t = (t.type_ ≡ const_token) ⊎ (t.arity < count)

pub record IsBuilt (s : ContextState) : Type 0 where
  pub tokens : s.token_count ≡ length s.expr
  pub specials : s.special_count ≡ length s.backtrack_points
  pub points : (i p : ℕ) → get_elem? s.backtrack_points i ≡ some p → PointsAt s.expr i p
  pub ids : All (HasPoint s.special_count) s.expr
  pub indexed : All (λ (e : ℕ × ℕ). e.1 < s.special_count) s.indexed_qvars

PointsAt-append :
    (expr : List NodeTriple) (t : NodeTriple) (i p : ℕ)
    → PointsAt expr i p
    → PointsAt (expr ++ t ∷ []) i p
PointsAt-append expr t i p (pos, u, at, q, r) =
    (pos, u, get_elem?-append_left expr (t ∷ []) (p - 1) at, q, r)

HasPoint-more :
    (n : ℕ) (expr : List NodeTriple) → All (HasPoint n) expr → All (HasPoint (n + 1)) expr
HasPoint-more n [] a = tt
HasPoint-more n (t ∷ expr) a =
    ((elim a.0 [ inl c ↦ inl c | inr b ↦ inr (omega arith) ]), HasPoint-more n expr a.1)

Below-more :
    (n : ℕ) (es : List (ℕ × ℕ))
    → All (λ (e : ℕ × ℕ). e.1 < n) es
    → All (λ (e : ℕ × ℕ). e.1 < n + 1) es
Below-more n [] a = tt
Below-more n (e ∷ es) a = (omega (arith, a.0), Below-more n es a.1)

add_special-IsBuilt :
    (type_ : TokType) (id : ℕ) (s : ContextState)
    → type_ ≢ const_token
    → IsBuilt s
    → IsBuilt (add_special type_ id s)
add_special-IsBuilt type_ id s special b =
    let new : NodeTriple = record { type_ = type_; meaning_id = id; arity = s.special_count } in
    record {
      tokens = omega (arith, b.tokens, length-append s.expr (new ∷ []));
      specials =
          omega (arith, b.specials, length-append s.backtrack_points ((s.token_count + 1) ∷ []));
      points = λ i p h. elim (get_elem?-append_cases s.backtrack_points (s.token_count + 1) i h) [
        | inl old ↦ PointsAt-append s.expr new i p (b.points i p old)
        | inr (e, q) ↦
            let place : p - 1 ≡ length s.expr = omega (arith, b.tokens) in
            (
              omega arith,
              new,
              subst (λ z. get_elem? (s.expr ++ new ∷ []) z ≡ some new) (sym place)
                  (get_elem?-append_last s.expr new),
              b.specials ∙ sym e,
              special,
            )
      ];
      ids =
          All-append (HasPoint (s.special_count + 1)) s.expr (new ∷ [])
            (HasPoint-more s.special_count s.expr b.ids) (inr (omega arith), tt);
      indexed = Below-more s.special_count s.indexed_qvars b.indexed;
    }

add_plain-IsBuilt :
    (type_ : TokType) (id arity : ℕ) (s : ContextState)
    → (type_ ≡ const_token) ⊎ (arity < s.special_count)
    → IsBuilt s
    → IsBuilt (add_plain type_ id arity s)
add_plain-IsBuilt type_ id arity s known b =
    let new : NodeTriple = record { type_ = type_; meaning_id = id; arity = arity } in
    record {
      tokens = omega (arith, b.tokens, length-append s.expr (new ∷ []));
      specials = b.specials;
      points = λ i p h. PointsAt-append s.expr new i p (b.points i p h);
      ids = All-append (HasPoint s.special_count) s.expr (new ∷ []) b.ids (known, tt);
      indexed = b.indexed;
    }

find_qvar-lt :
    (key n : ℕ) (es : List (ℕ × ℕ)) {v : ℕ}
    → All (λ (e : ℕ × ℕ). e.1 < n) es
    → find_qvar key es ≡ some v
    → v < n
unfolding find_qvar
find_qvar-lt key n [] a h = absurd (cc)
find_qvar-lt key n ((k, w) ∷ es) {v} a h = ground (arith, find_qvar-lt key n es {v = v} a.1)

add_token-IsBuilt : (t : EncodedToken) (s : ContextState) → IsBuilt s → IsBuilt (add_token t s)
unfolding add_token
add_token-IsBuilt t s b = elim (Bool-cases (encoded_token_is_var t)) [
  | inl var ↦ elim (Bool-cases (encoded_token_is_anon_var t)) [
    | inl anon ↦
        rw (var, add_token, anon) (add_special-IsBuilt qvar_token t.id s (λ q. absurd (cc)) b)
    | inr named ↦ elim (Option-cases (find_qvar t.id s.indexed_qvars)) [
      | inl new ↦
          rw (var, add_token, named, new)
            (let c = add_special-IsBuilt qvar_token t.id s (λ q. absurd (cc)) b in
              record {
                tokens = c.tokens;
                specials = c.specials;
                points = c.points;
                ids = c.ids;
                indexed = (omega arith, c.indexed);
              })
      | inr (special, old) ↦
          rw (var, add_token, named, old)
            (add_plain-IsBuilt qvar_token t.id special s
              (inr (find_qvar-lt t.id s.special_count s.indexed_qvars b.indexed old)) b)
    ]
  ]
  | inr other ↦ elim (Bool-cases (encoded_token_is_range t)) [
    | inl range ↦
        rw (other, add_token, range) (add_special-IsBuilt range_token t.id s (λ q. absurd (cc)) b)
    | inr const ↦
        rw (other, add_token, const) (add_plain-IsBuilt const_token t.id t.arity s (inl refl) b)
  ]
]

add_tokens-IsBuilt : (f : EncodedFormula) (s : ContextState) → IsBuilt s → IsBuilt (add_tokens f s)
unfolding add_tokens
add_tokens-IsBuilt [] s b = b
add_tokens-IsBuilt (t ∷ f) s b = add_tokens-IsBuilt f (add_token t s) (add_token-IsBuilt t s b)

-- The context built for any encoded formula is consistent: one entry per token, one backtrack
-- point per special id, each point right behind the variable or range with that id, and every
-- variable or range of the expression with an id below their number.
pub search_context-IsBuilt : (f : EncodedFormula) → IsBuilt (search_context f)
unfolding search_context
search_context-IsBuilt f = add_tokens-IsBuilt f start_context (record {
  tokens = refl;
  specials = refl;
  points = λ i p h. absurd (cc);
  ids = tt;
  indexed = tt;
})
