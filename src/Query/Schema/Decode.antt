-- ===== src/Query/Schema/Decode.antt =====
-- `decodeFormula` of src/mws/query/SchemaEngine.cpp: a formula that was cut off, as Content MathML
-- with query variables for what is missing. The current token is the last child so many steps below
-- the root, as for the readers of XML. `none` is a read out of a formula, the top of an empty stack,
-- the parent of the root, an exception of the decoder, a failed assertion, or an end of the fuel.
use mws.Prelude.{
  ℕ, zero, suc, ◌+◌, ◌*◌, true, false, ◌&&◌, not, Option, none, some, List, [], ◌∷◌, ◌++◌, length,
  get_elem?, ltb, leb, ◌==◌, if◌then◌else◌,
}
use mws.Prelude.Bytes.{Bytes, codes}
use mws.Prelude.Decimal.{to_string}
use mws.Types.CmmlToken.{
  CmmlToken, new_root, qvar_tag, set_tag, append_text_content, new_child_node,
}
use mws.Index.EncodedToken.{EncodedToken, EncodedFormula}
use mws.Index.Encoder.{decode_meaning_id}
use mws.XmlParser.{OpenToken, update_at}
use mws.Query.Schema.{Unexplored, one_less, is_apply, decode_meaning}

abbrev pub default_qvar_prefix : Bytes
default_qvar_prefix = codes "x"

-- `setTag` and `appendTextContent`.
abbrev pub with_meaning : Bytes × Bytes → CmmlToken → CmmlToken
with_meaning meaning t = append_text_content (set_tag t meaning.0) meaning.1

-- The variables of the loops: the token tree with `currCmml`, the stack, and the two counts.
pub record DecodeState : Type 0 where
  pub cmml : OpenToken
  pub unexplored : Unexplored
  pub qvar_count : ℕ
  pub curr_tok : ℕ

-- `newChildNode` of the current token, with a meaning; the current token stays.
unfoldable pub grow : Bytes × Bytes → OpenToken → OpenToken
unfolding update_at new_child_node set_tag append_text_content
grow meaning o =
    let grown = update_at o.depth (λ t. (new_child_node to_string t).0) o.root in
    record o { root = update_at (suc o.depth) (with_meaning meaning) grown }

-- The loop over the expressions that were cut off.
unfoldable pub add_qvars : ℕ → DecodeState → DecodeState
unfolding grow
add_qvars zero s = s
add_qvars (suc n) s = add_qvars n (record s {
  cmml = grow (qvar_tag, default_qvar_prefix ++ to_string s.qvar_count) s.cmml;
  qvar_count = s.qvar_count + 1;
})

-- The loop over the parents that are complete too.
unfoldable pub close_parents : Unexplored → OpenToken → Option (Unexplored × OpenToken)
close_parents [] o = some ([], o)
close_parents ((n, first) ∷ rest) o = elim o.depth [
  | zero ↦ none
  | suc above ↦
      let below = close_parents rest (record o { depth = above }) in
      if one_less n == 0
      then below
      else some ((one_less n, false) ∷ rest, record o { depth = above })
]

abbrev pub closed : DecodeState → Option DecodeState
closed s = elim (close_parents s.unexplored s.cmml) [
  | none ↦ none
  | some (stack, o) ↦ some (record s { unexplored = stack; cmml = o })
]

-- The meaning of a token.
unfoldable pub token_meaning : List Bytes → EncodedToken → Option (Bytes × Bytes)
unfolding decode_meaning
token_meaning table t = elim (decode_meaning_id table t.id) [
  | none ↦ none
  | some meaning ↦ some (decode_meaning meaning)
]

-- The branch that copies a token.
unfoldable pub copy_token : List Bytes → EncodedFormula → DecodeState → Option DecodeState
unfolding token_meaning close_parents grow
copy_token table expr s = elim (get_elem? expr s.curr_tok) [
  | none ↦ none
  | some t ↦ elim (token_meaning table t) [
    | none ↦ none
    | some meaning ↦
        let o = grow meaning s.cmml in
        let s' = record s { cmml = record o { depth = suc o.depth }; curr_tok = s.curr_tok + 1 } in
        if t.arity == 0 then closed s' else elim (is_apply table t) [
          | none ↦ none
          | some apply ↦ some (record s' { unexplored = (t.arity, apply) ∷ s'.unexplored })
        ]
  ]
]

-- The branch that cuts off.
unfoldable pub cut_off : ℕ → Unexplored → DecodeState → Option DecodeState
unfolding add_qvars close_parents
cut_off anon_exprs rest s = closed (add_qvars anon_exprs (record s { unexplored = rest }))

-- One round of the `do` loop.
unfoldable pub decode_round : List Bytes → EncodedFormula → ℕ → DecodeState → Option DecodeState
unfolding copy_token cut_off
decode_round table expr max_depth s = elim s.unexplored [
  | [] ↦ none
  | (n, first) ∷ rest ↦
      if leb max_depth (suc (length rest)) && not first
      then cut_off n rest s
      else copy_token table expr s
]

unfoldable pub decode_loop : List Bytes → EncodedFormula → ℕ → ℕ → DecodeState → Option DecodeState
unfolding decode_round
decode_loop table expr max_depth zero s = none
decode_loop table expr max_depth (suc fuel) s = elim (decode_round table expr max_depth s) [
  | none ↦ none
  | some s' ↦
      if ltb s'.curr_tok (length expr) then decode_loop table expr max_depth fuel s' else some s'
]

-- The loop that completes the last token; the result is the root, if it is the current token.
unfoldable pub complete_last : ℕ → DecodeState → Option CmmlToken
unfolding cut_off
complete_last zero s = elim s.unexplored [
  | [] ↦ if s.cmml.depth == 0 then some s.cmml.root else none
  | e ∷ rest ↦ none
]
complete_last (suc fuel) s = elim s.unexplored [
  | [] ↦ if s.cmml.depth == 0 then some s.cmml.root else none
  | (n, first) ∷ rest ↦ elim first [
    | true ↦ none
    | false ↦ elim (cut_off n rest s) [ none ↦ none | some s' ↦ complete_last fuel s' ]
  ]
]

-- `decodeFormula`. A round uses up a token, or an entry of the stack that a token made.
unfoldable pub decode_formula : List Bytes → EncodedFormula → ℕ → Option CmmlToken
unfolding token_meaning decode_loop complete_last
decode_formula table [] max_depth =
    some (append_text_content (set_tag new_root qvar_tag) (codes "x0"))
decode_formula table (root ∷ rest) max_depth = elim (token_meaning table root) [
  | none ↦ none
  | some meaning ↦
      let t = with_meaning meaning new_root in
      if root.arity == 0 then some t else elim (is_apply table root) [
        | none ↦ none
        | some apply ↦
            let s : DecodeState = record {
              cmml = record { root = t; depth = 0 };
              unexplored = (root.arity, apply) ∷ [];
              qvar_count = 1;
              curr_tok = 1;
            } in
            elim (decode_loop table (root ∷ rest) max_depth (2 * suc (length rest)) s) [
              | none ↦ none
              | some s' ↦ complete_last (length s'.unexplored) s'
            ]
      ]
]
