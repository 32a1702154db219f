-- ===== src/Tests/Queries.antt =====
-- The formula x + y as tokens: cut off, hashed, and searched.
use mws.Query.Schema.{
  reduce_formula, reduce_loop, starts_with, is_apply, decode_meaning, copied, close_pairs,
  complete_many, complete_expression, complete_loop, close,
}
use mws.Prelude.{List, true, false, if◌then◌else◌, ◌==◌, All}
use mws.Prelude.Bytes.{Bytes, codes}
use mws.Prelude.{◌≡◌, ◌+◌, refl, [], ◌∷◌, ◌++◌, some, none, true, false, length, arith, All}
use mws.Prelude.Bytes.{codes, bytes_eq}
use mws.Index.EncodedToken.{
  EncodedFormula, encoded_token_is_var, encoded_token_is_range, encoded_token,
}
use mws.Index.Encoder.{decode_meaning_id}
use mws.Index.Encoder.Shape.{pending, IsComplete}
use mws.Index.TmpIndex.{TmpIndex, walk, insert_from, new_node}
use mws.Common.IdDictionary.{reverse_get}
use mws.Query.Schema.{complete_expression, hash_expr, unhash_expr, is_apply, before_hash}
use mws.Query.Schema.Complete.{IsPacked, complete_expression-IsComplete}
use mws.Query.Schema.Hash.{unhash-hash_expr}
use mws.Query.Schema.Term.{Term, node, terms, no_terms, flatten, IsTree, cut_term}
use mws.Query.Schema.Reduce.{reduce_formula-cut_term}
use mws.Index.EncodedToken.{EncodedToken}
use mws.Query.Context.{search_context}
use mws.Query.Context.Points.{IsBuilt, search_context-IsBuilt}
use mws.Query.Backtrack.{Setting}
use mws.Query.Search.{get_result, cut_size}
use mws.Query.Search.Constants.{outcome, IsConstant, get_result-constants}
use mws.Tests.Vector.{x_token, y_token, plus_token}

abbrev x_plus_y : EncodedFormula
x_plus_y = plus_token ∷ x_token ∷ y_token ∷ []

x_plus_y_fits : All IsPacked x_plus_y
x_plus_y_fits =
    ((omega arith, omega arith), ((omega arith, omega arith), ((omega arith, omega arith), tt)))

x_plus_y-IsComplete : IsComplete x_plus_y
unfolding pending
x_plus_y-IsComplete = refl

complete_expression-IsComplete_example :
    complete_expression ((plus_token ∷ []) ++ (x_plus_y ++ y_token ∷ [])) (length (plus_token ∷ []))
    ≡ some (length (plus_token ∷ []) + length x_plus_y)
complete_expression-IsComplete_example =
    complete_expression-IsComplete (plus_token ∷ []) x_plus_y (y_token ∷ []) x_plus_y_fits
      x_plus_y-IsComplete

unhash-hash_expr_example : unhash_expr (hash_expr x_plus_y) ≡ some x_plus_y
unhash-hash_expr_example = unhash-hash_expr x_plus_y x_plus_y_fits

-- An application whose operator is an application, cut off at depth 1.
abbrev apply_token : EncodedToken
apply_token = encoded_token 162 2

abbrev nested : Term
nested = node apply_token (
    terms
      (node apply_token (terms (node x_token no_terms) (terms (node x_token no_terms) no_terms)))
      (terms (node x_token no_terms) no_terms))

abbrev keys : List Bytes
keys = codes "apply#" ∷ codes "ci#x" ∷ []

nested-IsTree : IsTree keys nested
unfolding is_apply decode_meaning_id reverse_get before_hash starts_with decode_meaning
nested-IsTree = (
  refl,
  (omega arith, omega arith),
  (true, refl),
  (
    (
      refl,
      (omega arith, omega arith),
      (true, refl),
      (
        (refl, (omega arith, omega arith), (false, refl), tt),
        ((refl, (omega arith, omega arith), (false, refl), tt), tt),
      ),
    ),
    ((refl, (omega arith, omega arith), (false, refl), tt), tt),
  ),
)

reduce_formula-cut_term_example :
    reduce_formula keys (flatten nested) 1 ≡ some (if 1 == 0 then [] else cut_term keys 1 0 nested)
reduce_formula-cut_term_example = reduce_formula-cut_term keys 1 nested nested-IsTree

-- Of the application only the operator is kept, and of that one only its operator.
nested_cut :
    reduce_formula keys (flatten nested) 1 ≡ some (apply_token ∷ apply_token ∷ x_token ∷ [])
unfolding reduce_formula reduce_loop is_apply decode_meaning_id reverse_get before_hash starts_with
    decode_meaning copied close_pairs complete_many complete_expression complete_loop close
nested_cut = refl

-- The query ?x + ?x.
abbrev twice : EncodedFormula
twice = plus_token ∷ encoded_token 2 0 ∷ encoded_token 2 0 ∷ []

search_context-IsBuilt_example : IsBuilt (search_context twice)
search_context-IsBuilt_example = search_context-IsBuilt twice

abbrev setting : Setting
setting = record {
  table = codes "plus#" ∷ codes "ci#x" ∷ codes "ci#y" ∷ [];
  in_range = λ bounds number. bytes_eq number (codes "1");
  crawl_db = none;
  formula_db = [];
  include_hits = true;
  include_mws_ids = true;
  iterator_fuel = 10;
}

-- The index that holds just the formula.
one_formula : TmpIndex
one_formula = record {
  root = (insert_from plus_token (x_token ∷ y_token ∷ []) new_node 0).node;
  next_id = 1;
}

x_plus_y-IsConstant : All IsConstant x_plus_y
unfolding encoded_token_is_var encoded_token_is_range
x_plus_y-IsConstant = (
  (refl, refl, x_plus_y_fits.0),
  ((refl, refl, x_plus_y_fits.1.0), ((refl, refl, x_plus_y_fits.1.1.0), tt)),
)

get_result-constants_example :
    get_result 4 setting (search_context x_plus_y) one_formula 0 10 100
    ≡ outcome setting 0 (cut_size 0 10 100) 100 (length x_plus_y) (walk x_plus_y one_formula.root)
get_result-constants_example =
    get_result-constants setting x_plus_y one_formula 4 0 10 100 x_plus_y-IsConstant (omega arith)
      (omega arith)
