-- ===== src/Query/Schema/Term.antt =====
-- Formulas as trees of tokens, and what `reduceFormula` and `completeExpression` of
-- src/mws/query/SchemaEngine.cpp make of one.
use mws.Prelude.{
  ℕ, suc, ◌+◌, ◌≡◌, sym, ap, ◌∙◌, Bool, false, none, some, List, [], ◌∷◌, ◌++◌, arith, All,
  append_assoc, append-nil, length, length-append, leb, ◌&&◌, not, if◌then◌else◌, All-append,
}
use mws.Prelude.Bytes.{Bytes}
use mws.Index.EncodedToken.{EncodedToken, EncodedFormula}
use mws.Index.Encoder.Shape.{arities, pending, IsComplete}
use mws.Query.Schema.{is_apply, complete_many, complete_expression}
use mws.Query.Schema.Complete.{IsPacked, complete_expression-IsComplete}

mutual
  pub data Term : Type 0 where
    node : EncodedToken → Terms → Term

  pub data Terms : Type 0 where
    no_terms : Terms
    terms : Term → Terms → Terms

abbrev pub number_of : Terms → ℕ
number_of no_terms = 0
number_of (terms x xs) = suc (number_of xs)

-- The tokens of a tree in prefix order.
abbrev mutual
  pub flatten : Term → EncodedFormula
  flatten (node t xs) = t ∷ flatten_all xs

  pub flatten_all : Terms → EncodedFormula
  flatten_all no_terms = []
  flatten_all (terms x xs) = flatten x ++ flatten_all xs

-- The decoder knows the meaning of the token.
abbrev pub IsDecodable : List Bytes → EncodedToken → Type 0
IsDecodable table t = (b : Bool) × (is_apply table t ≡ some b)

-- The arities are the numbers of children, the fields fit, and the decoder knows all tokens.
abbrev mutual
  pub IsTree : List Bytes → Term → Type 0
  IsTree table (node t xs) =
      (t.arity ≡ number_of xs) × IsPacked t × IsDecodable table t × AllTree table xs

  pub AllTree : List Bytes → Terms → Type 0
  AllTree table no_terms = Unit
  AllTree table (terms x xs) = IsTree table x × AllTree table xs

abbrev pub applies : List Bytes → EncodedToken → Bool
applies table t = elim (is_apply table t) [ none ↦ false | some b ↦ b ]

-- The reference: the children at the depth or deeper are left out, but for the first child of an
-- apply, which is kept with what is kept below it.
unfoldable mutual
  pub cut_term : List Bytes → ℕ → ℕ → Term → EncodedFormula
  cut_term table max_depth depth (node t xs) =
      t ∷ cut_terms table max_depth (suc depth) (applies table t) xs

  pub cut_terms : List Bytes → ℕ → ℕ → Bool → Terms → EncodedFormula
  cut_terms table max_depth depth first no_terms = []
  cut_terms table max_depth depth first (terms x xs) =
      let kept = cut_term table max_depth depth x ++ cut_terms table max_depth depth false xs in
      if leb max_depth depth && not first then [] else kept

mutual
  unfolding pending

  pending-flatten :
      (table : List Bytes) (x : Term) (more : EncodedFormula) (k : ℕ)
      → IsTree table x
      → pending (suc k) (arities (flatten x ++ more)) ≡ pending k (arities more)
  pending-flatten table (node t xs) more k h =
      ap (λ z. pending z (arities (flatten_all xs ++ more))) (omega (arith, h.0))
      ∙ pending-flatten_all table xs more k h.3

  pending-flatten_all :
      (table : List Bytes) (xs : Terms) (more : EncodedFormula) (k : ℕ)
      → AllTree table xs
      → pending (number_of xs + k) (arities (flatten_all xs ++ more)) ≡ pending k (arities more)
  pending-flatten_all table no_terms more k h = ap (λ z. pending z (arities more)) (omega arith)
  pending-flatten_all table (terms x xs) more k h =
      ap (λ z. pending z (arities (flatten_all (terms x xs) ++ more))) (omega arith)
      ∙ ap (λ z. pending (suc (number_of xs + k)) (arities z))
          (append_assoc (flatten x) (flatten_all xs) more)
      ∙ pending-flatten table x (flatten_all xs ++ more) (number_of xs + k) h.0
      ∙ pending-flatten_all table xs more k h.1

mutual
  flatten-IsPacked : (table : List Bytes) (x : Term) → IsTree table x → All IsPacked (flatten x)
  flatten-IsPacked table (node t xs) h = (h.1, flatten_all-IsPacked table xs h.3)

  flatten_all-IsPacked :
      (table : List Bytes) (xs : Terms) → AllTree table xs → All IsPacked (flatten_all xs)
  flatten_all-IsPacked table no_terms h = tt
  flatten_all-IsPacked table (terms x xs) h =
      All-append IsPacked (flatten x) (flatten_all xs) (flatten-IsPacked table x h.0)
        (flatten_all-IsPacked table xs h.1)

flatten-IsComplete : (table : List Bytes) (x : Term) → IsTree table x → IsComplete (flatten x)
unfolding pending
flatten-IsComplete table x h =
    ap (λ z. pending 1 (arities z)) (sym (append-nil (flatten x))) ∙ pending-flatten table x [] 0 h

-- The skipping of the children of a node.
pub complete_many-flatten_all :
    (table : List Bytes) (expr pre : EncodedFormula) (xs : Terms) (post : EncodedFormula)
    → expr ≡ pre ++ (flatten_all xs ++ post)
    → AllTree table xs
    → complete_many expr (number_of xs) (length pre) ≡ some (length pre + length (flatten_all xs))
unfolding complete_many
complete_many-flatten_all table expr pre no_terms post e h = ap some (omega arith)
complete_many-flatten_all table expr pre (terms x xs) post e h =
    let e' : expr ≡ pre ++ (flatten x ++ (flatten_all xs ++ post)) =
      e ∙ ap (λ z. pre ++ z) (append_assoc (flatten x) (flatten_all xs) post) in
    let one : complete_expression expr (length pre) ≡ some (length (pre ++ flatten x)) =
      ap (λ z. complete_expression z (length pre)) e'
      ∙ complete_expression-IsComplete pre (flatten x) (flatten_all xs ++ post)
          (flatten-IsPacked table x h.0) (flatten-IsComplete table x h.0)
      ∙ ap some (sym (length-append pre (flatten x))) in
    rw (one, complete_many)
      (complete_many-flatten_all table expr (pre ++ flatten x) xs post
          (e' ∙ sym (append_assoc pre (flatten x) (flatten_all xs ++ post))) h.1
        ∙ ap some (
            omega
              (arith, length-append pre (flatten x), length-append (flatten x) (flatten_all xs))))
