-- ===== src/XmlParser/HarvestReader/Safety.antt =====
-- What holds of the reader of harvests over every sequence of SAX events, well-formed or not.
use mws.Prelude.{
  ℕ, ◌≡◌, ◌≢◌, ◌<◌, ◌⊎◌, refl, ap, ◌∙◌, sym, Bool, Option, none, some, List, [], ◌∷◌, ◌++◌,
  Option-cases, subst, arith, inl, inr,
}
use mws.Prelude.Bytes.{Bytes}
use mws.Types.CmmlToken.{Attributes}
use mws.XmlParser.{Event, start_element, end_element, characters, warning, error, end_document}
use mws.XmlParser.HarvestReader.{
  HarvestProcessor, XmlLibrary, SaxUserData, new_user_data, default, in_mws_harvest, in_mws_expr,
  in_mws_data, unknown,
}
use mws.XmlParser.HarvestReader.Handlers.{
  parse_document, handle, my_start_element, my_end_element, my_characters, end_expression, end_data,
  enter_data,
}

-- A token is open only inside an expression, there is a writer inside a data element if one could
-- be made, and an unknown or copied element has a depth.
pub record IsConsistent {P W : Type 0} (x : XmlLibrary W) (s : SaxUserData P W) : Type 0 where
  pub no_token : s.state ≢ in_mws_expr → s.current ≡ none
  pub has_writer : s.state ≡ in_mws_data → s.writer ≡ none → x.new_writer ≡ none
  pub copies : s.state ≡ in_mws_data → 0 < s.copy_depth
  pub is_inside : s.state ≡ unknown → 0 < s.unknown_depth
  pub goes_back : s.state ≡ unknown → (s.prev_state ≡ default) ⊎ (s.prev_state ≡ in_mws_harvest)

module _ {P W : Type 0} (digits : ℕ → Bytes) (h : HarvestProcessor P) (x : XmlLibrary W) where
  start-IsConsistent :
      (name : Bytes) (attrs : Attributes) (s t : SaxUserData P W)
      → IsConsistent x s
      → my_start_element digits h x name attrs s ≡ some t
      → IsConsistent x t
  unfolding my_start_element enter_data
  start-IsConsistent name attrs s t c e = ground arith

  end-IsConsistent :
      (s t : SaxUserData P W)
      → IsConsistent x s
      → my_end_element digits h x s ≡ some t
      → IsConsistent x t
  unfolding my_end_element end_data end_expression
  end-IsConsistent s t c e = ground arith

  handle-IsConsistent :
      (e : Event) (s t : SaxUserData P W)
      → IsConsistent x s
      → handle digits h x s e ≡ some t
      → IsConsistent x t
  unfolding handle my_characters
  handle-IsConsistent (start_element name attrs) s t c k = start-IsConsistent name attrs s t c k
  handle-IsConsistent end_element s t c k = end-IsConsistent s t c k
  handle-IsConsistent (characters text) s t c k = ground arith
  handle-IsConsistent warning s t c k = ground arith
  handle-IsConsistent error s t c k = ground arith
  handle-IsConsistent end_document s t c k = ground arith

  -- Why a handler fails on an event: an end in the state DEFAULT; a data element whose writer
  -- could not be made; or text in a data element that could not be encoded.
  abbrev pub Failing : SaxUserData P W → Event → Type 0
  Failing s e =
      ((e ≡ end_element) × (s.state ≡ default))
      ⊎ (((s.state ≡ in_mws_data) × (s.writer ≡ none) × (x.new_writer ≡ none))
          ⊎ ((text : Bytes) × (e ≡ characters text)
              × (s.state ≡ in_mws_data)
              × (x.encode text ≡ none)))

  handle-fails :
      (e : Event) (s : SaxUserData P W)
      → IsConsistent x s
      → handle digits h x s e ≡ none
      → Failing s e
  unfolding handle my_characters my_start_element my_end_element
  handle-fails (start_element name attrs) s c k = ground arith
  handle-fails end_element s c k = ground arith
  handle-fails (characters text) s c k = ground arith
  handle-fails warning s c k = ground arith
  handle-fails error s c k = ground arith
  handle-fails end_document s c k = ground arith

  new_user_data-IsConsistent :
      (processor : P) (should : Bool) (copy_depth : ℕ)
      → IsConsistent {P = P} {W = W} x (new_user_data processor should copy_depth)
  new_user_data-IsConsistent processor should copy_depth = record {
    no_token = λ n. refl;
    has_writer = λ n m. absurd (cc);
    copies = λ n. cc;
    is_inside = λ n. cc;
    goes_back = λ n. cc;
  }

  abbrev onward : List Event → Option (SaxUserData P W) → Option (SaxUserData P W)
  onward es z = elim z [ none ↦ none | some s ↦ parse_document digits h x es s ]

  parse-fails :
      (es : List Event) (s : SaxUserData P W)
      → IsConsistent x s
      → parse_document digits h x es s ≡ none
      → (before after : List Event) × (e : Event) × (t : SaxUserData P W) × (es
          ≡ before ++ e ∷ after)
        × (parse_document digits h x before s ≡ some t)
        × Failing t e
  unfolding parse_document
  parse-fails [] s c k = absurd (ground arith)
  parse-fails (e ∷ es) s c k = elim (Option-cases (handle digits h x s e)) [
    | inl fails ↦ ([], es, e, s, refl, refl, handle-fails e s c fails)
    | inr (s', moved) ↦
        let (before, after, last, t, split, reached, why) =
          parse-fails es s' (handle-IsConsistent e s s' c moved) (sym (ap (onward es) moved) ∙ k) in
        (e ∷ before, after, last, t, ap (λ z. e ∷ z) split, ap (onward before) moved ∙ reached, why)
  ]

  -- If running the handlers of processMwsHarvest.cpp over a list of events, from the initial
  -- user data, fails, then it fails at one event, the handlers having run without failure over
  -- those before it, and for one of three reasons: the event is an end of an element in the
  -- state DEFAULT, which is asserted not to come; the state is IN_MWS_DATA without a writer,
  -- and writers cannot be made; or the event is text in that state which libxml2 cannot encode.
  pub parse_document-none :
      (es : List Event) (processor : P) (should : Bool) (copy_depth : ℕ)
      → parse_document digits h x es (new_user_data processor should copy_depth) ≡ none
      → (before after : List Event) × (e : Event) × (t : SaxUserData P W) × (es
          ≡ before ++ e ∷ after)
        × (parse_document digits h x before (new_user_data processor should copy_depth) ≡ some t)
        × Failing t e
  parse_document-none es processor should copy_depth k =
      parse-fails es (new_user_data processor should copy_depth)
        (new_user_data-IsConsistent processor should copy_depth) k

  parse-IsConsistent :
      (es : List Event) (s t : SaxUserData P W)
      → IsConsistent x s
      → parse_document digits h x es s ≡ some t
      → IsConsistent x t
  unfolding parse_document
  parse-IsConsistent [] s t c k = subst (IsConsistent x) (ground arith) c
  parse-IsConsistent (e ∷ es) s t c k = elim (Option-cases (handle digits h x s e)) [
    | inl fails ↦ absurd (ground arith)
    | inr (s', moved) ↦
        parse-IsConsistent es s' t (handle-IsConsistent e s s' c moved)
          (sym (ap (onward es) moved) ∙ k)
  ]

  pub parse_document-IsConsistent :
      (es : List Event) (processor : P) (should : Bool) (copy_depth : ℕ) (t : SaxUserData P W)
      → parse_document digits h x es (new_user_data processor should copy_depth) ≡ some t
      → IsConsistent x t
  parse_document-IsConsistent es processor should copy_depth t k =
      parse-IsConsistent es (new_user_data processor should copy_depth) t
        (new_user_data-IsConsistent processor should copy_depth) k
