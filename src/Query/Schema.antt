-- ===== src/Query/Schema.antt =====
-- src/mws/query/SchemaEngine.cpp: formulas cut off at a depth, their hashes, and the decoding of
-- meanings. A read past the end of a formula, the top of an empty stack and an exception of the
-- decoder are `none`.
pub mod Complete
pub mod Hash
pub mod Term
pub mod Rounds
pub mod Reduce
pub mod Decode
pub mod Schemata
pub mod Groups
pub mod Covered
use mws.Prelude.{
  ℕ, zero, suc, ◌+◌, ◌-◌, ◌%◌, Bool, true, false, ◌&&◌, not, Option, none, some, List, [], ◌∷◌,
  ◌++◌, length, get_elem?, drop, ltb, leb, ◌==◌, if◌then◌else◌,
}
use mws.Prelude.Bytes.{Bytes, codes, bytes_eq}
use mws.Prelude.Bits.{u32_mod}
use mws.Prelude.Decimal.{to_string, read_number}
use mws.Types.CmmlToken.{is_space}
use mws.Index.EncodedToken.{EncodedToken, EncodedFormula, encoded_token}
use mws.Index.Encoder.{decode_meaning_id}

-- `top() - 1` in uint32_t.
abbrev pub one_less : ℕ → ℕ
one_less n = (n + u32_mod - 1) % u32_mod

-- The loop after an expression that is complete: its parents that are complete too are popped,
-- and the next one expects one expression less.
unfoldable pub close : List ℕ → List ℕ
close [] = []
close (n ∷ rest) = let below = close rest in if one_less n == 0 then below else one_less n ∷ rest

-- What a token makes of the stack of `completeExpression`.
abbrev pub step : ℕ → List ℕ → List ℕ
step arity stack = if arity == 0 then close stack else arity ∷ stack

-- The `do` loop over the tokens from the index `curr` on.
unfoldable pub complete_loop : List ℕ → EncodedFormula → ℕ → Option ℕ
complete_loop stack [] curr = none
complete_loop stack (t ∷ rest) curr = elim (step t.arity stack) [
  | [] ↦ some (curr + 1)
  | n ∷ ns ↦ complete_loop (n ∷ ns) rest (curr + 1)
]

-- `completeExpression`: the index behind the expression that starts at an index.
unfoldable pub complete_expression : EncodedFormula → ℕ → Option ℕ
complete_expression expr start = complete_loop [] (drop start expr) start

-- `find('#')` and the two `substr`.
unfoldable pub before_hash : Bytes → Bytes
before_hash [] = []
before_hash (c ∷ rest) = let tail = before_hash rest in if c == b'#' then [] else c ∷ tail

unfoldable pub after_hash : Bytes → Bytes
after_hash [] = []
after_hash (c ∷ rest) = let tail = after_hash rest in if c == b'#' then rest else tail

unfoldable pub decode_meaning : Bytes → Bytes × Bytes
decode_meaning meaning = (before_hash meaning, after_hash meaning)

-- `tag.find(prefix) == 0`
unfoldable pub starts_with : Bytes → Bytes → Bool
starts_with [] tag = true
starts_with (c ∷ rest) [] = false
starts_with (c ∷ rest) (d ∷ tag) = (c == d) && starts_with rest tag

-- `isApply`, over the keys of the decoder.
unfoldable pub is_apply : List Bytes → EncodedToken → Option Bool
unfolding decode_meaning starts_with
is_apply table t = elim (decode_meaning_id table t.id) [
  | none ↦ none
  | some meaning ↦ some (starts_with (codes "apply") (decode_meaning meaning).0)
]

-- The stack of `reduceFormula`: the expressions that a node still expects, and whether the next
-- one is the first child of an apply.
abbrev pub Unexplored : Type 0
Unexplored = List (ℕ × Bool)

unfoldable pub close_pairs : Unexplored → Unexplored
close_pairs [] = []
close_pairs ((n, first) ∷ rest) =
    let below = close_pairs rest in if one_less n == 0 then below else (one_less n, false) ∷ rest

-- The loop that skips `count` expressions.
unfoldable pub complete_many : EncodedFormula → ℕ → ℕ → Option ℕ
complete_many expr zero curr = some curr
complete_many expr (suc count) curr = elim (complete_expression expr curr) [
  | none ↦ none
  | some next ↦ complete_many expr count next
]

-- The stack after a token was copied.
unfoldable pub copied : List Bytes → EncodedToken → Unexplored → Option Unexplored
copied table t stack =
    if t.arity == 0
    then some (close_pairs stack)
    else elim (is_apply table t) [ none ↦ none | some apply ↦ some ((t.arity, apply) ∷ stack) ]

-- The `while` loop of `reduceFormula`; `none` is also an end of the fuel.
unfoldable pub reduce_loop :
    List Bytes → EncodedFormula → ℕ → ℕ → ℕ → Unexplored → EncodedFormula → Option EncodedFormula
reduce_loop table expr max_depth zero curr stack out =
    if ltb curr (length expr) then none else some out
reduce_loop table expr max_depth (suc fuel) curr stack out = elim (get_elem? expr curr) [
  | none ↦ some out
  | some t ↦ elim stack [
    | [] ↦ none
    | (n, first) ∷ rest ↦ elim (leb max_depth (suc (length rest)) && not first) [
      | true ↦ elim (complete_many expr n curr) [
        | none ↦ none
        | some next ↦ reduce_loop table expr max_depth fuel next (close_pairs rest) out
      ]
      | false ↦ elim (copied table t ((n, first) ∷ rest)) [
        | none ↦ none
        | some stack' ↦ reduce_loop table expr max_depth fuel (curr + 1) stack' (out ++ t ∷ [])
      ]
    ]
  ]
]

unfoldable pub reduce_formula : List Bytes → EncodedFormula → ℕ → Option EncodedFormula
reduce_formula table [] max_depth = some []
reduce_formula table (root ∷ rest) max_depth =
    if max_depth == 0 then some [] else elim (is_apply table root) [
      | none ↦ none
      | some apply ↦
          reduce_loop table (root ∷ rest) max_depth (length rest) 1 ((root.arity, apply) ∷ [])
            (root ∷ [])
    ]

-- The loop of `hashExpr`.
unfoldable pub hash_tokens : EncodedFormula → Bytes
hash_tokens [] = []
hash_tokens (t ∷ rest) =
    codes " " ++ (to_string t.id ++ (codes " " ++ (to_string t.arity ++ hash_tokens rest)))

unfoldable pub hash_expr : EncodedFormula → Bytes
hash_expr expr = to_string (length expr) ++ hash_tokens expr

unfoldable pub skip_space : Bytes → Bytes
skip_space [] = []
skip_space (c ∷ rest) = let tail = skip_space rest in if is_space c then tail else c ∷ rest

-- `serial >> x`: a number after white space. `none` is a stream that fails.
unfoldable pub read_value : Bytes → Option (ℕ × Bytes)
read_value serial = read_number (skip_space serial)

-- The loop of `unhashExpr`.
unfoldable pub unhash_tokens : ℕ → Bytes → Option EncodedFormula
unhash_tokens zero serial = some []
unhash_tokens (suc count) serial = elim (read_value serial) [
  | none ↦ none
  | some (id, after_id) ↦ elim (read_value after_id) [
    | none ↦ none
    | some (arity, after_arity) ↦ elim (unhash_tokens count after_arity) [
      | none ↦ none
      | some expr ↦ some (encoded_token id arity ∷ expr)
    ]
  ]
]

unfoldable pub unhash_expr : Bytes → Option EncodedFormula
unhash_expr expr_hash = elim (read_value expr_hash) [
  | none ↦ none
  | some (count, serial) ↦ unhash_tokens count serial
]
