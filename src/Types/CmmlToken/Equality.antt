-- ===== src/Types/CmmlToken/Equality.antt =====
-- `equals`: when two tokens count as the same expression.
use mws.Prelude.{◌≡◌, refl, Bool, true, false, ◌&&◌, arith, ◌==◌, if◌then◌else◌}
use mws.Prelude.Bytes.{bytes_eq, bytes_eq_refl, bytes_eq_comm}
use mws.Types.CmmlToken.{
  CmmlToken, token, Tokens, nil, cons, TokenType, var, range, constant, get_type, get_var_name,
  get_meaning, get_child_nodes, count,
}

unfoldable pub same_type : TokenType → TokenType → Bool
same_type var var = true
same_type range range = true
same_type constant constant = true
same_type _ _ = false

unfoldable mutual
  pub equals : CmmlToken → CmmlToken → Bool
  equals (token tag attrs text xpath children) u =
      let t = token tag attrs text xpath children in
      let same_children = equals_list children (get_child_nodes u) in
      if same_type (get_type t) (get_type u)
      then elim (get_type t) [
        | var ↦ bytes_eq (get_var_name t) (get_var_name u)
        | constant ↦
            if bytes_eq (get_meaning t) (get_meaning u)
            then if count children == count (get_child_nodes u) then same_children else false
            else false
        | range ↦ false
      ]
      else false

  -- The loop over both lists, which have the same length.
  pub equals_list : Tokens → Tokens → Bool
  equals_list nil us = true
  equals_list (cons t ts) nil = false
  equals_list (cons t ts) (cons u us) = equals t u && equals_list ts us

unfoldable mutual
  -- No range is met before a variable.
  pub comparable : CmmlToken → Bool
  comparable (token tag attrs text xpath children) =
      let below = comparable_list children in
      elim (get_type (token tag attrs text xpath children)) [
        | var ↦ true
        | range ↦ false
        | constant ↦ below
      ]

  pub comparable_list : Tokens → Bool
  comparable_list nil = true
  comparable_list (cons t ts) = comparable t && comparable_list ts

mutual
  unfolding equals equals_list comparable comparable_list same_type

  equals_refl : (t : CmmlToken) → equals t t ≡ comparable t
  equals_refl (token tag attrs text xpath children) = ground (
    arith,
    equals_list_refl children,
    bytes_eq_refl (get_var_name (token tag attrs text xpath children)),
    bytes_eq_refl (get_meaning (token tag attrs text xpath children)),
  )

  equals_list_refl : (ts : Tokens) → equals_list ts ts ≡ comparable_list ts
  equals_list_refl nil = refl
  equals_list_refl (cons t ts) = ground (arith, equals_refl t, equals_list_refl ts)

same_type_sym : (a b : TokenType) → same_type a b ≡ same_type b a
unfolding same_type
same_type_sym a b = ground arith

eq_of_same_type : (a b : TokenType) → same_type a b ≡ true → a ≡ b
unfolding same_type
eq_of_same_type a b = ground arith

mutual
  unfolding equals equals_list

  equals_comm : (t u : CmmlToken) → equals t u ≡ equals u t
  equals_comm (token tag attrs text xpath children) (token tag' attrs' text' xpath' children') =
      let t = token tag attrs text xpath children in
      let u = token tag' attrs' text' xpath' children' in
      ground (
        arith,
        same_type_sym (get_type t) (get_type u),
        eq_of_same_type (get_type t) (get_type u),
        bytes_eq_comm (get_var_name t) (get_var_name u),
        bytes_eq_comm (get_meaning t) (get_meaning u),
        equals_list_comm children children',
      )

  equals_list_comm : (ts us : Tokens) → count ts ≡ count us → equals_list ts us ≡ equals_list us ts
  equals_list_comm nil nil h = refl
  equals_list_comm nil (cons u us) h = absurd (omega arith)
  equals_list_comm (cons t ts) nil h = absurd (omega arith)
  equals_list_comm (cons t ts) (cons u us) h =
      ground (arith, equals_comm t u, equals_list_comm ts us)

-- A token equals itself exactly if no range is met in it before a variable.
pub equals_self : (t : CmmlToken) → equals t t ≡ comparable t
equals_self t = equals_refl t

-- `equals` does not depend on the order of the two tokens.
pub equals_symmetric : (t u : CmmlToken) → equals t u ≡ equals u t
equals_symmetric t u = equals_comm t u
