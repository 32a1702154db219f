-- ===== src/Common/Text.antt =====
-- src/common/utils/util.cpp (strings), getBoolType.cpp and src/common/types/DataFormat.cpp.
use mws.Prelude.{
  ℕ, ◌+◌, ◌-◌, ◌≡◌, Bool, true, false, ◌&&◌, List, [], ◌∷◌, ◌++◌, arith, length, length-append,
  drop, drop-append, leb, ◌==◌, if◌then◌else◌,
}
use mws.Prelude.Bytes.{Bytes, codes, bytes_eq, bytes_eq_refl}
use mws.Types.CmmlToken.{is_space}

-- What `escapeJsonString` writes for a character.
unfoldable pub escape_char : ℕ → Bytes
escape_char c =
    if c == b'\\'
    then b'\\' ∷ b'\\' ∷ []
    else if c == b'"'
    then b'\\' ∷ b'"' ∷ []
    else if c == b'/'
    then b'\\' ∷ b'/' ∷ []
    else if c == 8
    then b'\\' ∷ b'b' ∷ []
    else if c == 12
    then b'\\' ∷ b'f' ∷ []
    else if c == 10
    then b'\\' ∷ b'n' ∷ []
    else if c == 13
    then b'\\' ∷ b'r' ∷ []
    else if c == 9
    then b'\\' ∷ b't' ∷ []
    else c ∷ []

unfoldable pub escape_json_string : Bytes → Bytes
escape_json_string [] = []
escape_json_string (c ∷ rest) = escape_char c ++ escape_json_string rest

unfoldable pub has_suffix : Bytes → Bytes → Bool
has_suffix str suffix =
    leb (length suffix) (length str) && bytes_eq (drop (length str - length suffix) str) suffix

-- `input >> token` until the end: the words between white space, `word` being collected.
unfoldable pub words : Bytes → Bytes → List Bytes
words [] [] = []
words [] (w ∷ word) = (w ∷ word) ∷ []
words (c ∷ rest) word = elim (is_space c) [
  | true ↦ elim word [ [] ↦ words rest [] | w ∷ ws ↦ (w ∷ ws) ∷ words rest [] ]
  | false ↦ words rest (word ++ c ∷ [])
]

unfoldable pub join_words : List Bytes → Bytes
join_words [] = []
join_words (w ∷ []) = w
join_words (w ∷ v ∷ rest) = w ++ (32 ∷ join_words (v ∷ rest))

unfoldable pub remove_duplicate_spaces : Bytes → Bytes
unfolding words join_words
remove_duplicate_spaces str = join_words (words str [])

-- `tolower` in the C locale.
unfoldable pub to_lower : Bytes → Bytes
to_lower [] = []
to_lower (c ∷ rest) = (if leb 65 c && leb c 90 then c + 32 else c) ∷ to_lower rest

pub data BoolType : Type 0 where
  bool_yes bool_no bool_default : BoolType

-- `getBoolType`, of a string without NUL.
unfoldable pub get_bool_type : Bytes → BoolType
unfolding to_lower
get_bool_type str =
    let lower = to_lower str in
    if bytes_eq lower (codes "yes")
    then bool_yes
    else if bytes_eq lower (codes "1")
    then bool_yes
    else if bytes_eq lower (codes "no")
    then bool_no
    else if bytes_eq lower (codes "0")
    then bool_no
    else bool_default

-- A string that ends with a suffix is recognised.
pub has_suffix-append : (str suffix : Bytes) → has_suffix (str ++ suffix) suffix ≡ true
unfolding has_suffix
has_suffix-append str suffix =
    let sum = length-append str suffix in
    let front : length (str ++ suffix) - length suffix ≡ length str = omega arith in
    let fits : leb (length suffix) (length (str ++ suffix)) ≡ true = ground arith in
    rw (fits, front, drop-append str suffix) (bytes_eq_refl suffix)
