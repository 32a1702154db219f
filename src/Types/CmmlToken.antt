-- ===== src/Types/CmmlToken.antt =====
-- src/mws/types/CmmlToken.{hpp,cpp}: a token of Content MathML with its children.
-- The parent pointer is not stored: a token below its root is reached through its parent. Counts
-- of nodes are exact, which holds of trees with fewer than 2^32 nodes.
pub mod Traverse
pub mod Equality
use mws.Prelude.{
  ℕ, suc, ◌+◌, Bool, true, false, ◌&&◌, ◌||◌, Option, none, some, List, [], ◌∷◌, ◌++◌, length, max,
  ◌==◌, leb, if◌then◌else◌, drop,
}
use mws.Prelude.Bytes.{Bytes, codes, bytes_eq}

abbrev pub Attributes : Type 0
Attributes = List (Bytes × Bytes)

mutual
  -- Tag, attributes, text content, xpath, children.
  pub data CmmlToken : Type 0 where
    token : Bytes → Attributes → Bytes → Bytes → Tokens → CmmlToken

  -- PtrList
  pub data Tokens : Type 0 where
    nil : Tokens
    cons : CmmlToken → Tokens → Tokens

-- CmmlToken::Type
pub data TokenType : Type 0 where
  var range constant : TokenType

abbrev pub qvar_tag : Bytes
qvar_tag = codes "mws:qvar"

abbrev pub var_name_attr : Bytes
var_name_attr = codes "name"

abbrev pub range_tag : Bytes
range_tag = codes "mws:range"

abbrev pub root_xpath_selector : Bytes
root_xpath_selector = codes "/*[1]"

abbrev pub get_tag : CmmlToken → Bytes
get_tag (token tag attrs text xpath children) = tag

abbrev pub get_attributes : CmmlToken → Attributes
get_attributes (token tag attrs text xpath children) = attrs

abbrev pub get_text_content : CmmlToken → Bytes
get_text_content (token tag attrs text xpath children) = text

abbrev pub get_xpath : CmmlToken → Bytes
get_xpath (token tag attrs text xpath children) = xpath

abbrev pub get_child_nodes : CmmlToken → Tokens
get_child_nodes (token tag attrs text xpath children) = children

-- The constructor, through `newRoot`.
abbrev pub new_root : CmmlToken
new_root = token [] [] [] root_xpath_selector nil

abbrev pub count : Tokens → ℕ
count nil = 0
count (cons t ts) = suc (count ts)

abbrev pub push_back : Tokens → CmmlToken → Tokens
push_back nil u = cons u nil
push_back (cons t ts) u = cons t (push_back ts u)

abbrev pub pop_back : Tokens → Tokens
pop_back nil = nil
pop_back (cons t nil) = nil
pop_back (cons t (cons u ts)) = cons t (pop_back (cons u ts))

-- The token that `newChildNode` returns and the parent that holds it; `digits` is `std::to_string`.
unfoldable pub new_child_node : (ℕ → Bytes) → CmmlToken → CmmlToken × CmmlToken
new_child_node digits (token tag attrs text xpath children) =
    let child =
      token [] [] [] (xpath ++ codes "/*[" ++ digits (suc (count children)) ++ codes "]") nil in
    (token tag attrs text xpath (push_back children child), child)

unfoldable pub pop_last_child : CmmlToken → CmmlToken
pop_last_child (token tag attrs text xpath children) =
    token tag attrs text xpath (pop_back children)

-- A prefix `m:` is dropped.
unfoldable pub strip_prefix : Bytes → Bytes
strip_prefix (a ∷ b ∷ rest) = if (a == b'm') && (b == b':') then rest else a ∷ b ∷ rest
strip_prefix short = short

unfoldable pub set_tag : CmmlToken → Bytes → CmmlToken
unfolding strip_prefix
set_tag (token tag attrs text xpath children) a_tag =
    token (strip_prefix a_tag) attrs text xpath children

unfoldable pub find_attribute : Bytes → Attributes → Option Bytes
find_attribute name [] = none
find_attribute name ((n, v) ∷ rest) = if bytes_eq n name then some v else find_attribute name rest

-- `map::insert` keeps the value that is there.
unfoldable pub add_attribute : CmmlToken → Bytes → Bytes → CmmlToken
unfolding find_attribute
add_attribute (token tag attrs text xpath children) name value = elim (find_attribute name attrs) [
  | none ↦ token tag (attrs ++ (name, value) ∷ []) text xpath children
  | some _ ↦ token tag attrs text xpath children
]

-- `isspace` in the C locale.
unfoldable pub is_space : ℕ → Bool
is_space c = c == 32 || (leb 9 c && leb c 13)

unfoldable pub visible : Bytes → Bytes
unfolding is_space
visible [] = []
visible (c ∷ rest) = let tail = visible rest in if is_space c then tail else c ∷ tail

unfoldable pub append_text_content : CmmlToken → Bytes → CmmlToken
unfolding visible
append_text_content (token tag attrs text xpath children) content =
    token tag attrs (text ++ visible content) xpath children

-- The xpath without the root selector.
unfoldable pub get_xpath_relative : CmmlToken → Bytes
get_xpath_relative t = drop (length root_xpath_selector) (get_xpath t)

unfoldable pub get_type : CmmlToken → TokenType
get_type t =
    if bytes_eq (get_tag t) qvar_tag
    then var
    else if bytes_eq (get_tag t) range_tag
    then range
    else constant

unfoldable pub is_var : CmmlToken → Bool
is_var t = elim (get_type t) [ var ↦ true | _ ↦ false ]

unfoldable pub is_range : CmmlToken → Bool
is_range t = elim (get_type t) [ range ↦ true | _ ↦ false ]

unfoldable pub get_attribute : CmmlToken → Bytes → Bytes
get_attribute t name = elim (find_attribute name (get_attributes t)) [ none ↦ [] | some v ↦ v ]

-- Called on variables only.
unfoldable pub get_var_name : CmmlToken → Bytes
get_var_name t = elim (find_attribute var_name_attr (get_attributes t)) [
  | none ↦ get_text_content t
  | some v ↦ v
]

-- Called on constants only.
unfoldable pub get_meaning : CmmlToken → Bytes
get_meaning t =
    if bytes_eq (get_tag t) (codes "mtext")
    then codes "mtext#"
    else get_tag t ++ codes "#" ++ get_text_content t

unfoldable pub get_arity : CmmlToken → ℕ
get_arity t = count (get_child_nodes t)

unfoldable mutual
  pub get_expr_depth : CmmlToken → ℕ
  get_expr_depth (token tag attrs text xpath children) = max_depth children

  -- The loop of `getExprDepth`.
  pub max_depth : Tokens → ℕ
  max_depth nil = 0
  max_depth (cons t ts) = max (get_expr_depth t + 1) (max_depth ts)

unfoldable mutual
  pub get_expr_size : CmmlToken → ℕ
  get_expr_size (token tag attrs text xpath children) = 1 + sum_size children

  -- The loop of `getExprSize`.
  pub sum_size : Tokens → ℕ
  sum_size nil = 0
  sum_size (cons t ts) = get_expr_size t + sum_size ts
