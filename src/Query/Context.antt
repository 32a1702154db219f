-- ===== src/Query/Context.antt =====
-- src/mws/query/SearchContext.cpp: the constructor of a search context.
pub mod Points
use mws.Prelude.{
  ℕ, suc, ◌+◌, Bool, Option, none, some, List, [], ◌∷◌, ◌++◌, length, ◌==◌, if◌then◌else◌,
}
use mws.Index.EncodedToken.{
  EncodedToken, EncodedFormula, encoded_token_is_var, encoded_token_is_range,
  encoded_token_is_anon_var,
}

-- TokType
pub data TokType : Type 0 where
  qvar_token range_token const_token : TokType

-- _NodeTriple; the arity of a variable or range is its special id.
pub record NodeTriple : Type 0 where
  pub type_ : TokType
  pub meaning_id : ℕ
  pub arity : ℕ

-- The members that the constructor fills, and its local variables.
pub record ContextState : Type 0 where
  pub expr : List NodeTriple
  pub backtrack_points : List ℕ
  pub indexed_qvars : List (ℕ × ℕ)
  pub token_count : ℕ
  pub special_count : ℕ

abbrev pub start_context : ContextState
start_context = record {
  expr = [];
  backtrack_points = [];
  indexed_qvars = [];
  token_count = 0;
  special_count = 0;
}

unfoldable pub find_qvar : ℕ → List (ℕ × ℕ) → Option ℕ
find_qvar key [] = none
find_qvar key ((k, v) ∷ rest) = if k == key then some v else find_qvar key rest

-- A token that gets the next special id.
abbrev pub add_special : TokType → ℕ → ContextState → ContextState
add_special type_ meaning_id s = record s {
  expr = s.expr ++ record { type_ = type_; meaning_id = meaning_id; arity = s.special_count } ∷ [];
  backtrack_points = s.backtrack_points ++ (s.token_count + 1) ∷ [];
  token_count = s.token_count + 1;
  special_count = s.special_count + 1;
}

-- A token that gets none.
abbrev pub add_plain : TokType → ℕ → ℕ → ContextState → ContextState
add_plain type_ meaning_id arity s = record s {
  expr = s.expr ++ record { type_ = type_; meaning_id = meaning_id; arity = arity } ∷ [];
  token_count = s.token_count + 1;
}

-- The body of the loop.
unfoldable pub add_token : EncodedToken → ContextState → ContextState
add_token t s =
    if encoded_token_is_var t
    then (if encoded_token_is_anon_var t
        then add_special qvar_token t.id s
        else elim (find_qvar t.id s.indexed_qvars) [
          | none ↦
              add_special qvar_token t.id
                (record s { indexed_qvars = (t.id, s.special_count) ∷ s.indexed_qvars })
          | some special ↦ add_plain qvar_token t.id special s
        ])
    else if encoded_token_is_range t
    then add_special range_token t.id s
    else add_plain const_token t.id t.arity s

unfoldable pub add_tokens : EncodedFormula → ContextState → ContextState
add_tokens [] s = s
add_tokens (t ∷ rest) s = add_tokens rest (add_token t s)

unfoldable pub search_context : EncodedFormula → ContextState
search_context formula = add_tokens formula start_context
