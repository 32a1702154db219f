-- ===== src/XmlParser/HarvestReader/Events.antt =====
-- The SAX callbacks of processMwsHarvest.cpp over a well-formed document read it as the tree is
-- read.
use mws.Prelude.{
  ℕ, suc, ◌≡◌, refl, ap, ◌∙◌, sym, Option, none, some, List, [], ◌∷◌, ◌++◌, Option-cases, arith,
  inl, inr,
}
use mws.Prelude.Bytes.{Bytes}
use mws.Types.CmmlToken.{CmmlToken, Attributes, new_root, append_text_content, new_child_node}
use mws.XmlParser.{Event, end_element, start_token, update_at, decorate}
use mws.XmlParser.Document.{Nodes, empty, follow, element, text_node, events, fill}
use mws.XmlParser.Building.{update_child, update_at_compose, update_at_id}
use mws.XmlParser.HarvestReader.{
  HarvestProcessor, XmlWriter, succeeding, SaxUserData, in_mws_expr, in_mws_data, unknown,
  add_parsed, crawl_id_of, write_attributes, MwsHarvestState,
}
use mws.XmlParser.HarvestReader.Handlers.{
  parse_document, handle, my_start_element, my_end_element, my_characters, end_expression,
}
use mws.XmlParser.HarvestReader.Reading.{Progress, copy, read_expressions}

module _ {P W : Type 0} (digits : ℕ → Bytes) (h : HarvestProcessor P) (x : XmlWriter W) where
  abbrev onward : List Event → Option (SaxUserData P W) → Option (SaxUserData P W)
  onward es z = elim z [ none ↦ none | some s ↦ parse_document digits h (succeeding x) es s ]

  pub parse-append :
      (es fs : List Event) (s s' : SaxUserData P W)
      → parse_document digits h (succeeding x) es s ≡ some s'
      → parse_document digits h (succeeding x) (es ++ fs) s
        ≡ parse_document digits h (succeeding x) fs s'
  unfolding parse_document
  parse-append [] fs s s' p = ap (parse_document digits h (succeeding x) fs) (ground arith)
  parse-append (e ∷ es) fs s s' p = elim (Option-cases (handle digits h (succeeding x) s e)) [
    | inl fails ↦ absurd (ground arith)
    | inr (t, moved) ↦ ap (onward (es ++ fs)) moved ∙ parse-append es fs t s' (ground arith)
  ]

  pub parse-element :
      (name : Bytes) (attrs : Attributes) (inside rest : Nodes) (s s1 s2 s3 : SaxUserData P W)
      → my_start_element digits h (succeeding x) name attrs s ≡ some s1
      → parse_document digits h (succeeding x) (events inside) s1 ≡ some s2
      → my_end_element digits h (succeeding x) s2 ≡ some s3
      → parse_document digits h (succeeding x) (events (follow (element name attrs inside) rest)) s
        ≡ parse_document digits h (succeeding x) (events rest) s3
  unfolding parse_document handle events
  parse-element name attrs inside rest s s1 s2 s3 starts within ends =
      ap (onward (events inside ++ end_element ∷ events rest)) starts
      ∙ parse-append (events inside) (end_element ∷ events rest) s1 s2 within
      ∙ ap (onward (events rest)) ends

  abbrev pub in_unknown : SaxUserData P W → ℕ → SaxUserData P W
  in_unknown s u = record s { state = unknown; unknown_depth = u }

  -- Events in an unknown element leave the state as it was.
  pub skip :
      (inside : Nodes) (u : ℕ) (s : SaxUserData P W)
      → parse_document digits h (succeeding x) (events inside) (in_unknown s (suc u))
        ≡ some (in_unknown s (suc u))
  unfolding parse_document handle my_start_element my_end_element my_characters events
  skip empty u s = refl
  skip (follow (text_node t) rest) u s = skip rest u s
  skip (follow (element name attrs inside) rest) u s =
      parse-element name attrs inside rest (in_unknown s (suc u)) (in_unknown s (suc (suc u)))
        (in_unknown s (suc (suc u))) (in_unknown s (suc u))
        (ap (λ n. some (in_unknown s n)) (omega arith)) (skip inside (suc u) s) (ground arith)
      ∙ skip rest u s

  abbrev pub in_copy : SaxUserData P W → W → ℕ → SaxUserData P W
  in_copy s w n = record s { state = in_mws_data; writer = some w; copy_depth = n }

  -- Events in a data element are copied.
  pub copies :
      (inside : Nodes) (n : ℕ) (w : W) (s : SaxUserData P W)
      → parse_document digits h (succeeding x) (events inside) (in_copy s w (suc n))
        ≡ some (in_copy s (copy digits h x w inside) (suc n))
  unfolding parse_document handle my_start_element my_end_element my_characters events copy
  copies empty n w s = refl
  copies (follow (text_node t) rest) n w s = copies rest n (x.write_raw w (x.encode t)) s
  copies (follow (element name attrs inside) rest) n w s =
      let started = write_attributes (succeeding x) attrs (x.start w name) in
      let copied = copy digits h x started inside in
      parse-element name attrs inside rest (in_copy s w (suc n)) (in_copy s started (suc (suc n)))
        (in_copy s copied (suc (suc n))) (in_copy s (x.finish copied) (suc n))
        (ap (λ m. some (in_copy s started m)) (omega arith)) (copies inside (suc n) started s)
        (ground arith)
      ∙ copies rest n (x.finish copied) s

  abbrev pub in_token : SaxUserData P W → CmmlToken → ℕ → SaxUserData P W
  in_token s root d = record s {
    state = in_mws_expr;
    current = some (record { root = root; depth = d });
  }

  -- Events inside a token's element write to the current token.
  grow :
      (inside : Nodes) (root : CmmlToken) (d : ℕ) (s : SaxUserData P W)
      → parse_document digits h (succeeding x) (events inside) (in_token s root d)
        ≡ some (in_token s (update_at d (λ t. fill digits t inside) root) d)
  unfolding parse_document handle my_start_element my_end_element my_characters events fill
      start_token
  grow empty root d s = ap (λ z. some (in_token s z d)) (sym (update_at_id d root))
  grow (follow (text_node text) rest) root d s =
      grow rest (update_at d (λ t. append_text_content t text) root) d s
      ∙ ap (λ z. some (in_token s z d))
          (update_at_compose d (λ t. fill digits t rest) (λ t. append_text_content t text) root)
  grow (follow (element name attrs inside) rest) root d s =
      let made =
        update_at (suc d) (decorate name attrs)
          (update_at d (λ t. (new_child_node digits t).0) root) in
      let filled = update_at (suc d) (λ t. fill digits t inside) made in
      parse-element name attrs inside rest (in_token s root d) (in_token s made (suc d))
        (in_token s filled (suc d)) (in_token s filled d) refl (grow inside made (suc d) s)
        (ap (λ n. some (in_token s filled n)) (omega arith))
      ∙ grow rest filled d s
      ∙ ap (λ z. some (in_token s z d))
          (update_child digits d (λ t. fill digits t inside) (decorate name attrs)
            (λ t. fill digits t rest) root)

  -- The state with a harvest's progress, between two tokens.
  abbrev pub at_progress : SaxUserData P W → MwsHarvestState → Progress P → SaxUserData P W
  at_progress s st r = record s {
    state = st;
    current = none;
    processor = r.processor;
    ids = r.ids;
    parsed_expr = r.parsed_expr;
  }

  pub expressions :
      (inside : Nodes) (crawl_id : ℕ) (s : SaxUserData P W) (r : Progress P)
      → crawl_id_of s.should_process_data s.local_id r.ids ≡ crawl_id
      → parse_document digits h (succeeding x) (events inside) (at_progress s in_mws_expr r)
        ≡ some
            (at_progress s in_mws_expr (read_expressions digits h x s.expr_uri crawl_id inside r))
  unfolding parse_document handle my_start_element my_end_element my_characters events
      read_expressions start_token end_expression update_at
  expressions empty crawl_id s r linked = refl
  expressions (follow (text_node t) rest) crawl_id s r linked = expressions rest crawl_id s r linked
  expressions (follow (element name attrs inside) rest) crawl_id s r linked =
      let made = decorate name attrs new_root in
      let called = h.process_expression r.processor (fill digits made inside) s.expr_uri crawl_id in
      let after : Progress P = record r {
        processor = called.0;
        parsed_expr = add_parsed called.1 r.parsed_expr;
      } in
      parse-element name attrs inside rest (at_progress s in_mws_expr r)
        (in_token (at_progress s in_mws_expr r) made 0)
        (in_token (at_progress s in_mws_expr r) (fill digits made inside) 0)
        (at_progress s in_mws_expr after) refl (grow inside made 0 (at_progress s in_mws_expr r))
        (rw linked refl)
      ∙ expressions rest crawl_id s after linked
