-- ===== src/Index/Encoder/Roundtrip.antt =====
-- The harvest encoder and the query encoder agree: an expression that was indexed is found under
-- the same token sequence.
use mws.Prelude.{
  ℕ, ◌+◌, ◌<◌, ◌≤◌, ◌≡◌, ◌≢◌, refl, ap, sym, ◌∙◌, false, Option, none, some, List, [], ◌∷◌, arith,
  Option-cases, inl, inr, nat_eq, list_eq, length, ◌⊎◌,
}
use mws.Prelude.Bytes.{Bytes}
use mws.Prelude.Bits.{u32_mod}
use mws.Common.IdDictionary.{IdDictionary, get, put}
use mws.Common.IdDictionary.Laws.{
  IsValid, get-put_self, get-put_known, put-ne-zero, put-IsValid, next_id-put-le,
}
use mws.Types.CmmlToken.{get_meaning}
use mws.Types.CmmlToken.Traverse.{Located, preorder}
use mws.Index.Encoder.{
  Encoder, EncodeState, ExpressionInfo, Encoded, start, harvest, query, encode, encode_token,
  encode_var, encode_range, encode_constant, constant_id, get_constant_encoding,
}
use mws.Index.Encoder.Run.{run, run-none, run-some, encode-eq-run}

-- A later state of a dictionary: ids that were given out stay.
abbrev pub Extends : IdDictionary Bytes → IdDictionary Bytes → Type 0
Extends old new = (k : Bytes) → get old k ≢ 0 → get new k ≡ get old k

pub Extends-trans : (a b c : IdDictionary Bytes) → Extends a b → Extends b c → Extends a c
Extends-trans a b c p q k h = q k (λ z. h (sym (p k h) ∙ z)) ∙ p k h

Extends-put : (d : IdDictionary Bytes) (key : Bytes) → IsValid d → Extends d (put d key).0
Extends-put d key v k h = get-put_known d key k v h

-- A new encoder over a dictionary.
abbrev pub fresh : IdDictionary Bytes → Encoder
fresh d = record { dictionary = d; ci_translations = []; ci_translation_counter = 0 }

-- The same state of the loop, over another dictionary.
abbrev with_dictionary : IdDictionary Bytes → EncodeState → EncodeState
with_dictionary d s = record s { encoder = record (s.encoder) { dictionary = d } }

-- One round of a query over a later dictionary does what the harvest did.
encode_token-query :
    (l : Located) (s s' : EncodeState) (later : IdDictionary Bytes)
    → IsValid s.encoder.dictionary
    → encode_token false harvest l s ≡ some s'
    → Extends s'.encoder.dictionary later
    → encode_token false query l (with_dictionary later s) ≡ some (with_dictionary later s')
unfolding encode_token encode_var encode_range encode_constant constant_id get_constant_encoding
encode_token-query l s s' later v h ext = ground (
  arith,
  ext (get_meaning l.node),
  get-put_self s.encoder.dictionary (get_meaning l.node) v,
  put-ne-zero s.encoder.dictionary (get_meaning l.node) v,
)

dictionary-encode_token :
    (l : Located) (s s' : EncodeState)
    → encode_token false harvest l s ≡ some s'
    → (s'.encoder.dictionary ≡ s.encoder.dictionary)
      ⊎ (s'.encoder.dictionary ≡ (put s.encoder.dictionary (get_meaning l.node)).0)
unfolding encode_token encode_var encode_range encode_constant constant_id get_constant_encoding
dictionary-encode_token l s s' h = ground arith

encode_token-query_none :
    (l : Located) (s : EncodeState) (later : IdDictionary Bytes)
    → encode_token false harvest l s ≡ none
    → encode_token false query l (with_dictionary later s) ≡ none
unfolding encode_token
encode_token-query_none l s later h = ground arith

-- What one round of the harvest does to its dictionary.
pub record Grows (old new : IdDictionary Bytes) : Type 0 where
  pub valid : IsValid new
  pub extends : Extends old new
  pub next : new.next_id ≤ old.next_id + 1

pub Grows-encode_token :
    (l : Located) (s s' : EncodeState)
    → IsValid s.encoder.dictionary
    → s.encoder.dictionary.next_id + 1 < u32_mod
    → encode_token false harvest l s ≡ some s'
    → Grows s.encoder.dictionary s'.encoder.dictionary
Grows-encode_token l s s' v room h = elim (dictionary-encode_token l s s' h) [
  | inl same ↦ rw same (record { valid = v; extends = λ k p. refl; next = omega arith })
  | inr grown ↦ rw grown (
      let meaning = get_meaning l.node in
      record {
        valid = put-IsValid s.encoder.dictionary meaning v room;
        extends = Extends-put s.encoder.dictionary meaning v;
        next = next_id-put-le s.encoder.dictionary meaning;
      })
]

-- There is an id for one new meaning for each token.
abbrev pub HasRoom : IdDictionary Bytes → List Located → Type 0
HasRoom d ls = d.next_id + length ls < u32_mod

-- What a pass of the harvest over a number of tokens does to its dictionary.
pub record Grown (old new : IdDictionary Bytes) (tokens : ℕ) : Type 0 where
  pub valid : IsValid new
  pub extends : Extends old new
  pub next : new.next_id ≤ old.next_id + tokens

pub run-Grown :
    (ls : List Located) (s : EncodeState)
    → IsValid s.encoder.dictionary
    → HasRoom s.encoder.dictionary ls
    → Grown s.encoder.dictionary (run false harvest ls s).encoder.dictionary (length ls)
run-Grown [] s v room =
    unfold run in record { valid = v; extends = λ k p. refl; next = omega arith }
run-Grown (l ∷ ls) s v room = elim (Option-cases (encode_token false harvest l s)) [
  | inl stop ↦
      rw (run-none false harvest l ls s stop)
        (record { valid = v; extends = λ k p. refl; next = omega arith })
  | inr (s', next) ↦
      let step = Grows-encode_token l s s' v (omega arith) next in
      let rest = run-Grown ls s' step.valid (omega (arith, step.next)) in
      let later = (run false harvest ls s').encoder.dictionary in
      rw (run-some false harvest l ls s next) (record {
        valid = rest.valid;
        extends =
            Extends-trans s.encoder.dictionary s'.encoder.dictionary later step.extends
              rest.extends;
        next = omega (arith, step.next, rest.next);
      })
]

-- The same outcome, over another dictionary.
abbrev pub over : IdDictionary Bytes → Encoded → Encoded
over d out = record out { encoder = record (out.encoder) { dictionary = d } }

run-query :
    (ls : List Located) (s : EncodeState) (later : IdDictionary Bytes)
    → IsValid s.encoder.dictionary
    → HasRoom s.encoder.dictionary ls
    → Extends (run false harvest ls s).encoder.dictionary later
    → run false query ls (with_dictionary later s) ≡ over later (run false harvest ls s)
run-query [] s later v room ext = unfold run in refl
run-query (l ∷ ls) s later v room ext = elim (Option-cases (encode_token false harvest l s)) [
  | inl stop ↦ rw (
    run-none false harvest l ls s stop,
    run-none false query l ls (with_dictionary later s) (encode_token-query_none l s later stop),
  )
  | inr (s', next) ↦
      let step = Grows-encode_token l s s' v (omega arith) next in
      let rest = (run-Grown ls s' step.valid (omega (arith, step.next))).extends in
      let ext' : Extends (run false harvest ls s').encoder.dictionary later =
        rw (← run-some false harvest l ls s next) ext in
      let q = encode_token-query l s s' later v next (
        Extends-trans s'.encoder.dictionary (run false harvest ls s').encoder.dictionary later rest
          ext') in
      rw (run-some false harvest l ls s next, run-some false query l ls (with_dictionary later s) q)
        (run-query ls s' later step.valid (omega (arith, step.next)) ext')
]

-- For a valid dictionary with room for the meanings of the expression: if a harvest encodes the
-- expression without renaming, a query over that dictionary, or a later one that keeps its ids,
-- encodes it to the same result and the same tokens, and adds no meaning.
pub query-encode-harvest :
    (d later : IdDictionary Bytes) (l : Located) (info : Option ExpressionInfo) {out : Encoded}
    → IsValid d
    → HasRoom d (preorder l)
    → encode false harvest (fresh d) l info ≡ some out
    → Extends out.encoder.dictionary later
    → encode false query (fresh later) l info ≡ some (over later out)
query-encode-harvest d later l info {out} v room h ext =
    let same : run false harvest (preorder l) (start (fresh d) info) ≡ out =
      cc (encode-eq-run false harvest (fresh d) l info) in
    let ext' : Extends (run false harvest (preorder l) (start (fresh d) info)).encoder.dictionary
        later =
      rw same ext in
    encode-eq-run false query (fresh later) l info
    ∙ ap some
        (run-query (preorder l) (start (fresh d) info) later v room ext' ∙ ap (over later) same)
