-- ===== src/XmlParser/HarvestReader/Processor.antt =====
-- What the processor and its count keep through its two functions, they keep through every
-- sequence of SAX events.
use mws.Prelude.{
  ℕ, ◌≡◌, Option, none, some, List, [], ◌∷◌, Option-cases, Bool, ◌-◌, arith, inl, inr,
}
use mws.Prelude.Bytes.{Bytes}
use mws.Types.CmmlToken.{CmmlToken}
use mws.XmlParser.{Event, start_element, end_element, characters, warning, error, end_document}
use mws.XmlParser.HarvestReader.{
  HarvestProcessor, XmlLibrary, SaxUserData, new_user_data, add_parsed,
}
use mws.XmlParser.HarvestReader.Handlers.{
  parse_document, handle, my_start_element, my_end_element, my_characters, end_expression, end_data,
  enter_data, process_harvest_from_fd,
}

module _ {P W : Type 0} (digits : ℕ → Bytes) (h : HarvestProcessor P) (x : XmlLibrary W)
    (Keeps : P → ℕ → Type 0)
    (by_expression : (p : P) (n : ℕ) (t : CmmlToken) (uri : Bytes) (crawl_id : ℕ)
      → Keeps p n
      → Keeps
          (h.process_expression p t uri crawl_id).0
          (add_parsed (h.process_expression p t uri crawl_id).1 n))
    (by_data : (p : P) (n : ℕ) (text : Bytes) → Keeps p n → Keeps (h.process_data p text).0 n) where
  end_expression-Keeps :
      (root : CmmlToken) (s : SaxUserData P W)
      → Keeps s.processor s.parsed_expr
      → Keeps
          (end_expression digits h x root s).processor
          (end_expression digits h x root s).parsed_expr
  unfolding end_expression
  end_expression-Keeps root s k = by_expression s.processor s.parsed_expr root s.expr_uri _ k

  end_data-Keeps :
      (w : W) (s : SaxUserData P W)
      → Keeps s.processor s.parsed_expr
      → Keeps (end_data digits h x w s).processor (end_data digits h x w s).parsed_expr
  unfolding end_data
  end_data-Keeps w s k = ground (arith, by_data s.processor s.parsed_expr (x.end_writing w) k)

  end-Keeps :
      (s t : SaxUserData P W)
      → Keeps s.processor s.parsed_expr
      → my_end_element digits h x s ≡ some t
      → Keeps t.processor t.parsed_expr
  unfolding my_end_element
  end-Keeps s t k e = elim (Option-cases s.writer) [
    | inl missing ↦ elim (Option-cases s.current) [
      | inl closed ↦ ground arith
      | inr (o, opened) ↦ ground (arith, end_expression-Keeps o.root s k)
    ]
    | inr (w, found) ↦
        let copied = record s { writer = some (x.finish w); copy_depth = s.copy_depth - 1 } in
        let data_kept = end_data-Keeps (x.finish w) copied k in
        elim (Option-cases s.current) [
          | inl closed ↦ ground (arith, data_kept)
          | inr (o, opened) ↦ ground (arith, end_expression-Keeps o.root s k, data_kept)
        ]
  ]

  handle-Keeps :
      (e : Event) (s t : SaxUserData P W)
      → Keeps s.processor s.parsed_expr
      → handle digits h x s e ≡ some t
      → Keeps t.processor t.parsed_expr
  unfolding handle my_characters my_start_element my_end_element enter_data end_expression end_data
  handle-Keeps (start_element name attrs) s t k e = ground arith
  handle-Keeps end_element s t k e = end-Keeps s t k e
  handle-Keeps (characters text) s t k e = ground arith
  handle-Keeps warning s t k e = ground arith
  handle-Keeps error s t k e = ground arith
  handle-Keeps end_document s t k e = ground arith

  parse-Keeps :
      (es : List Event) (s t : SaxUserData P W)
      → Keeps s.processor s.parsed_expr
      → parse_document digits h x es s ≡ some t
      → Keeps t.processor t.parsed_expr
  unfolding parse_document
  parse-Keeps [] s t k e = ground arith
  parse-Keeps (v ∷ es) s t k e = elim (Option-cases (handle digits h x s v)) [
    | inl fails ↦ absurd (ground arith)
    | inr (s', moved) ↦ parse-Keeps es s' t (handle-Keeps v s s' k moved) (ground arith)
  ]

  pub process_harvest_from_fd-Keeps :
      (parsed : Option (List Event × Option ℕ)) (p : P) (should : Bool) (copy_depth : ℕ) {p' : P}
      {status : Option ℕ} {n : ℕ}
      → Keeps p 0
      → process_harvest_from_fd digits h x parsed p should copy_depth ≡ some (p', status, n)
      → Keeps p' n
  unfolding process_harvest_from_fd
  process_harvest_from_fd-Keeps none p should copy_depth k e = ground arith
  process_harvest_from_fd-Keeps (some (es, st)) p should copy_depth k e =
      elim (Option-cases (parse_document digits h x es (new_user_data p should copy_depth))) [
        | inl fails ↦ absurd (ground arith)
        | inr (t, reached) ↦
            let kept = parse-Keeps es (new_user_data p should copy_depth) t k reached in
            ground (arith, kept)
      ]
