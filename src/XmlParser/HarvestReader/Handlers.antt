-- ===== src/XmlParser/HarvestReader/Handlers.antt =====
-- src/mws/xmlparser/processMwsHarvest.cpp: the SAX callbacks and the function that runs them. A
-- handler is `none` where an assertion fails, or where libxml2 is handed a writer that was not made:
-- a null pointer, or the one left from before.
use mws.Prelude.{
  ℕ, zero, suc, ◌+◌, ◌-◌, Bool, true, Option, none, some, List, [], ◌∷◌, ◌==◌, if◌then◌else◌,
}
use mws.Prelude.Bytes.{Bytes, codes, bytes_eq}
use mws.Dbc.{crawl_id_null}
use mws.Types.CmmlToken.{CmmlToken, Attributes, append_text_content}
use mws.XmlParser.{
  Event, start_element, end_element, characters, warning, error, end_document, start_token,
  to_parent, update_at,
}
use mws.XmlParser.HarvestReader.{
  HarvestProcessor, XmlLibrary, SaxUserData, new_user_data, default, in_mws_harvest, in_mws_expr,
  in_mws_data, unknown, assign_id, last_value, add_parsed, crawl_id_of, known_id, write_attributes,
}

module _ {P W : Type 0} (digits : ℕ → Bytes) (h : HarvestProcessor P) (x : XmlLibrary W) where
  -- An element that the state does not expect.
  abbrev pub enter_unknown : SaxUserData P W → SaxUserData P W
  enter_unknown s = record s { prev_state = s.state; state = unknown; unknown_depth = 1 }

  -- An element mws:expr.
  abbrev pub enter_expr : Attributes → SaxUserData P W → SaxUserData P W
  enter_expr attrs s = record s {
    state = in_mws_expr;
    expr_uri = last_value (codes "url") attrs [];
    local_id = known_id s.should_process_data (last_value (codes "mws:data_id") attrs []) s.ids;
  }

  -- An element mws:data.
  unfoldable pub enter_data : Attributes → SaxUserData P W → SaxUserData P W
  enter_data attrs s =
      let named = record s { local_id = last_value (codes "mws:data_id") attrs [] } in
      if bytes_eq named.local_id []
      then enter_unknown named
      else record named { writer = x.new_writer; state = in_mws_data; copy_depth = 1 }

  unfoldable pub my_start_element : Bytes → Attributes → SaxUserData P W → Option (SaxUserData P W)
  unfolding enter_data
  my_start_element name attrs s = elim s.state [
    | default ↦ some (
        if bytes_eq name (codes "mws:harvest")
        then record s { state = in_mws_harvest }
        else enter_unknown s)
    | in_mws_harvest ↦ some (
        if bytes_eq name (codes "mws:expr")
        then enter_expr attrs s
        else if bytes_eq name (codes "mws:data")
        then enter_data attrs s
        else enter_unknown s)
    | in_mws_expr ↦ some (record s { current = some (start_token digits name attrs s.current) })
    | in_mws_data ↦ elim s.writer [
      | none ↦ none
      | some w ↦ some (record s {
        copy_depth = s.copy_depth + 1;
        writer = some (write_attributes x attrs (x.start w name));
      })
    ]
    | unknown ↦ some (record s { unknown_depth = s.unknown_depth + 1 })
  ]

  -- The end of a root token.
  unfoldable pub end_expression : CmmlToken → SaxUserData P W → SaxUserData P W
  end_expression root s =
      let r =
        h.process_expression s.processor root s.expr_uri
          (crawl_id_of s.should_process_data s.local_id s.ids) in
      record s { processor = r.0; parsed_expr = add_parsed r.1 s.parsed_expr; current = none }

  -- The end of an element mws:data.
  unfoldable pub end_data : W → SaxUserData P W → SaxUserData P W
  end_data w s =
      let copied = record s { data_ = x.end_writing w; writer = none; state = in_mws_harvest } in
      if s.should_process_data
      then (let r = h.process_data s.processor (x.end_writing w) in
          record copied {
            processor = r.0;
            ids = if r.1 == crawl_id_null then s.ids else assign_id s.local_id r.1 s.ids;
          })
      else copied

  unfoldable pub my_end_element : SaxUserData P W → Option (SaxUserData P W)
  unfolding end_expression end_data
  my_end_element s = elim s.state [
    | default ↦ none
    | in_mws_harvest ↦ some (record s { state = default })
    | in_mws_expr ↦ elim s.current [
      | none ↦ some (record s { state = in_mws_harvest })
      | some o ↦ elim o.depth [
        | zero ↦ some (end_expression o.root s)
        | suc d ↦ some (record s { current = some (to_parent o) })
      ]
    ]
    | in_mws_data ↦ elim s.writer [
      | none ↦ none
      | some w ↦
          let left = record s { writer = some (x.finish w); copy_depth = s.copy_depth - 1 } in
          if left.copy_depth == 0 then some (end_data (x.finish w) left) else some left
    ]
    | unknown ↦
        let depth = s.unknown_depth - 1 in
        some (
          if depth == 0
          then record s { unknown_depth = depth; state = s.prev_state }
          else record s { unknown_depth = depth })
  ]

  unfoldable pub my_characters : Bytes → SaxUserData P W → Option (SaxUserData P W)
  my_characters text s = elim s.state [
    | in_mws_expr ↦ elim s.current [
      | none ↦ some s
      | some o ↦ some (record s {
        current =
            some (record o { root = update_at o.depth (λ t. append_text_content t text) o.root });
      })
    ]
    | in_mws_data ↦ elim (x.encode text) [
      | none ↦ none
      | some encoded_chars ↦ elim s.writer [
        | none ↦ none
        | some w ↦ some (record s { writer = some (x.write_raw w encoded_chars) })
      ]
    ]
    | _ ↦ some s
  ]

  abbrev pub my_warning : SaxUserData P W → SaxUserData P W
  my_warning s = record s { warnings = s.warnings + 1 }

  abbrev pub my_error : SaxUserData P W → SaxUserData P W
  my_error s = record s { error_detected = true; current = none }

  -- The registration of the callbacks; `my_endDocument` only prints.
  unfoldable pub handle : SaxUserData P W → Event → Option (SaxUserData P W)
  unfolding my_start_element my_end_element my_characters
  handle s (start_element name attrs) = my_start_element name attrs s
  handle s end_element = my_end_element s
  handle s (characters text) = my_characters text s
  handle s warning = some (my_warning s)
  handle s error = some (my_error s)
  handle s end_document = some s

  -- `xmlParseDocument` calls the handlers on the events of the file.
  unfoldable pub parse_document : List Event → SaxUserData P W → Option (SaxUserData P W)
  unfolding handle
  parse_document [] s = some s
  parse_document (e ∷ es) s = elim (handle s e) [ none ↦ none | some s' ↦ parse_document es s' ]

  -- `processHarvestFromFd`: the processor afterwards, the status (-1 is `none`) and the number of
  -- expressions. The events, with the parser's status, are `none` without a parser's context.
  unfoldable pub process_harvest_from_fd :
      Option (List Event × Option ℕ) → P → Bool → ℕ → Option (P × Option ℕ × ℕ)
  unfolding parse_document
  process_harvest_from_fd none processor should copy_depth = some (processor, none, 0)
  process_harvest_from_fd (some (es, status)) processor should copy_depth =
      elim (parse_document es (new_user_data processor should copy_depth)) [
        | none ↦ none
        | some s ↦ some (s.processor, status, s.parsed_expr)
      ]
