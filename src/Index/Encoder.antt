-- ===== src/Index/Encoder.antt =====
-- src/mws/index/ExpressionEncoder.{hpp,cpp}: expressions of Content MathML as token sequences.
-- One encoder object serves a whole harvest entry: its renaming of `ci` names and the dictionary
-- it points to are the state. `double` is not modelled: the bounds of a range are read by a
-- parameter.
pub mod Run
pub mod Constants
pub mod Shape
pub mod Roundtrip
pub mod Tokens
use mws.Prelude.{
  ℕ, zero, suc, ◌+◌, ◌-◌, ◌%◌, Bool, true, false, ◌&&◌, ◌||◌, Option, none, some, List, [], ◌∷◌,
  ◌++◌, length, ltb, leb, ◌==◌, if◌then◌else◌, nat_eq, list_eq,
}
use mws.Prelude.Bytes.{Bytes, codes, bytes_eq}
use mws.Prelude.Bits.{u32_mod}
use mws.Prelude.Decimal.{to_string}
use mws.Common.IdDictionary.{IdDictionary, empty, get, put, reverse_get}
use mws.Types.CmmlToken.{
  CmmlToken, is_var, is_range, get_tag, get_var_name, get_meaning, get_arity, get_xpath_relative,
  get_expr_size,
}
use mws.Types.CmmlToken.Traverse.{Located, children_of}
use mws.Index.EncodedToken.{
  EncodedToken, EncodedFormula, encoded_token, enc_tok_max_arity, hvar_id_min, anon_hvar_id_min,
  qvar_id_min, anon_qvar_id_min, range_id_min, constant_id_min,
}

-- The two subclasses of ExpressionEncoder.
pub data EncoderKind : Type 0 where
  harvest query : EncoderKind

-- The members of an encoder; the dictionary is shared with the caller.
pub record Encoder : Type 0 where
  pub dictionary : IdDictionary Bytes
  pub ci_translations : List (Bytes × Bytes)
  pub ci_translation_counter : ℕ

-- `_getAnonVarOffset`, `_getNamedVarOffset` and `_getRangeOffset`, of both subclasses.
abbrev pub get_anon_var_offset : EncoderKind → ℕ
get_anon_var_offset harvest = anon_hvar_id_min
get_anon_var_offset query = anon_hvar_id_min

abbrev pub get_named_var_offset : EncoderKind → ℕ
get_named_var_offset harvest = hvar_id_min
get_named_var_offset query = hvar_id_min

abbrev pub get_range_offset : EncoderKind → ℕ
get_range_offset harvest = range_id_min
get_range_offset query = range_id_min

-- `_getConstantEncoding`; a MeaningId is a uint32_t.
unfoldable pub get_constant_encoding : EncoderKind → Encoder → Bytes → Encoder × ℕ
get_constant_encoding harvest e meaning =
    let (d, id) = put e.dictionary meaning in
    (record e { dictionary = d }, (constant_id_min + id) % u32_mod)
get_constant_encoding query e meaning =
    let id = get e.dictionary meaning in
    (e, if id == 0 then 0 else (constant_id_min + id) % u32_mod)

unfoldable pub find_translation : Bytes → List (Bytes × Bytes) → Option Bytes
find_translation key [] = none
find_translation key ((k, v) ∷ rest) = if bytes_eq k key then some v else find_translation key rest

-- The tests for a `ci` that keeps its name.
unfoldable pub keeps_name : Located → Bool
keeps_name l =
    let meaning = get_meaning l.node in
    bytes_eq meaning (codes "#P")
    || bytes_eq meaning (codes "#p")
    || ltb (2 + length (get_tag l.node)) (length meaning)
    || (elim l.parent_tag [ none ↦ false | some tag ↦ bytes_eq tag (codes "apply") && l.is_front ])

-- `_getCiMeaning`
unfoldable pub get_ci_meaning : EncoderKind → Encoder → Located → Encoder × ℕ
unfolding keeps_name find_translation
get_ci_meaning kind e l =
    let meaning = get_meaning l.node in
    if keeps_name l
    then get_constant_encoding kind e meaning
    else elim (find_translation meaning e.ci_translations) [
      | some translated ↦ get_constant_encoding kind e translated
      | none ↦
          let counter = (e.ci_translation_counter + 1) % u32_mod in
          let translated = codes "~" ++ to_string counter in
          get_constant_encoding kind
            (record e {
              ci_translations = (meaning, translated) ∷ e.ci_translations;
              ci_translation_counter = counter;
            })
            translated
    ]

-- ExpressionInfo. A range is kept by its id and its token; `getRangeBounds` reads its two doubles.
pub record ExpressionInfo : Type 0 where
  pub qvar_names : List Bytes
  pub qvar_xpaths : List Bytes
  pub range_bounds : List (ℕ × CmmlToken)

-- `unordered_map::insert` keeps the entry that is there.
unfoldable pub insert_bounds : ℕ → CmmlToken → List (ℕ × CmmlToken) → List (ℕ × CmmlToken)
insert_bounds id t [] = (id, t) ∷ []
insert_bounds id t ((i, u) ∷ rest) =
    if i == id then (i, u) ∷ rest else (i, u) ∷ insert_bounds id t rest

-- The local variables of `encode`. `info` is `none` for a null pointer; `rv_ok` is `rv == 0`.
pub record EncodeState : Type 0 where
  pub encoder : Encoder
  pub named_vars : IdDictionary Bytes
  pub anon_var_id : ℕ
  pub anon_range_id : ℕ
  pub formula : EncodedFormula
  pub info : Option ExpressionInfo
  pub rv_ok : Bool

abbrev pub start : Encoder → Option ExpressionInfo → EncodeState
start e info = record {
  encoder = e;
  named_vars = empty;
  anon_var_id = 0;
  anon_range_id = 0;
  formula = [];
  info = info;
  rv_ok = true;
}

-- The branch for a variable.
unfoldable pub encode_var : EncoderKind → Located → EncodeState → EncodeState
encode_var kind l s =
    let name = get_var_name l.node in
    let named = put s.named_vars name in
    if bytes_eq name []
    then record s {
      anon_var_id = s.anon_var_id + 1;
      formula = s.formula ++ encoded_token (get_anon_var_offset kind + s.anon_var_id) 1 ∷ [];
    }
    else record s {
      named_vars = named.0;
      formula = s.formula ++ encoded_token (get_named_var_offset kind + named.1) 1 ∷ [];
      info = elim s.info [
        | none ↦ none
        | some i ↦ some (record i {
          qvar_names = i.qvar_names ++ name ∷ [];
          qvar_xpaths = i.qvar_xpaths ++ get_xpath_relative l.node ∷ [];
        })
      ];
    }

-- The branch for a range.
unfoldable pub encode_range : EncoderKind → Located → EncodeState → EncodeState
unfolding insert_bounds
encode_range kind l s =
    let tok = encoded_token (get_range_offset kind + s.anon_range_id) 1 in
    record s {
      anon_range_id = s.anon_range_id + 1;
      formula = s.formula ++ tok ∷ [];
      info = elim s.info [
        | none ↦ none
        | some i ↦ some (record i { range_bounds = insert_bounds tok.id l.node i.range_bounds })
      ];
    }

-- The id of a constant.
unfoldable pub constant_id : Bool → EncoderKind → Encoder → Located → Encoder × ℕ
constant_id rename_ci kind e l =
    if rename_ci && bytes_eq (get_tag l.node) (codes "ci")
    then get_ci_meaning kind e l
    else get_constant_encoding kind e (get_meaning l.node)

-- The branch for a constant whose arity fits: an id that is KEY_NOT_FOUND in its 24 bits makes
-- the result -1, and the loop goes on.
unfoldable pub encode_constant : Bool → EncoderKind → Located → EncodeState → EncodeState
encode_constant rename_ci kind l s =
    let (e, id) = constant_id rename_ci kind s.encoder l in
    let tok = encoded_token id (get_arity l.node) in
    record s {
      encoder = e;
      formula = s.formula ++ tok ∷ [];
      rv_ok = (if tok.id == 0 then false else s.rv_ok);
    }

-- One round of the loop on the token that was popped; `none` is `return -1`.
unfoldable pub encode_token : Bool → EncoderKind → Located → EncodeState → Option EncodeState
encode_token rename_ci kind l s =
    if is_var l.node
    then some (encode_var kind l s)
    else if is_range l.node
    then some (encode_range kind l s)
    else if ltb enc_tok_max_arity (get_arity l.node)
    then none
    else some (encode_constant rename_ci kind l s)

-- What `encode` leaves behind: its result (true for 0), the encoder and what it wrote.
pub record Encoded : Type 0 where
  pub ok : Bool
  pub encoder : Encoder
  pub formula : EncodedFormula
  pub info : Option ExpressionInfo

abbrev pub finished : EncodeState → Encoded
finished s = record { ok = s.rv_ok; encoder = s.encoder; formula = s.formula; info = s.info }

abbrev pub aborted : EncodeState → Encoded
aborted s = record { ok = false; encoder = s.encoder; formula = s.formula; info = s.info }

-- The loop of `encode` over the stack of tokens; `none` means that the fuel ran out.
unfoldable pub encode_loop : Bool → EncoderKind → ℕ → List Located → EncodeState → Option Encoded
encode_loop rename_ci kind fuel [] s = some (finished s)
encode_loop rename_ci kind zero (l ∷ stack) s = none
encode_loop rename_ci kind (suc fuel) (l ∷ stack) s = elim (encode_token rename_ci kind l s) [
  | none ↦ some (aborted s)
  | some s' ↦ encode_loop rename_ci kind fuel (children_of l ++ stack) s'
]

unfoldable pub encode :
    Bool → EncoderKind → Encoder → Located → Option ExpressionInfo → Option Encoded
encode rename_ci kind e l info =
    encode_loop rename_ci kind (get_expr_size l.node) (l ∷ []) (start e info)

-- ExpressionDecoder::getMeaning over the keys by id; `none` is an exception. The subtraction of
-- ANON_QVAR_ID_MIN from the smaller id of an anonymous hvar wraps in uint32_t, as in the source.
unfoldable pub decode_meaning_id : List Bytes → ℕ → Option Bytes
decode_meaning_id table id =
    if leb constant_id_min id
    then reverse_get table (id - constant_id_min)
    else if leb range_id_min id
    then some (codes "range#" ++ to_string (id - range_id_min))
    else if leb anon_qvar_id_min id
    then some (codes "anonymous_qvar#" ++ to_string (id - anon_qvar_id_min))
    else if leb qvar_id_min id
    then some (codes "qvar#" ++ to_string (id - qvar_id_min))
    else if leb anon_hvar_id_min id
    then some (codes "anonymous_hvar#" ++ to_string ((id + u32_mod - anon_qvar_id_min) % u32_mod))
    else if leb hvar_id_min id
    then some (codes "hvar#" ++ to_string (id - hvar_id_min))
    else none
