-- ===== src/XmlParser/HarvestReader/Children.antt =====
-- What each child of the main element of a harvest leaves behind, by its events.
use mws.Prelude.{
  ℕ, ◌≡◌, refl, Bool, true, false, none, some, List, [], ◌∷◌, Bool-cases, arith, inl, inr,
}
use mws.Prelude.Bytes.{Bytes, codes, bytes_eq}
use mws.Types.CmmlToken.{Attributes}
use mws.XmlParser.Document.{Nodes, empty, follow, element, text_node, events}
use mws.XmlParser.HarvestReader.{
  HarvestProcessor, XmlWriter, succeeding, SaxUserData, in_mws_harvest, in_mws_expr, find_id,
  assign_id, last_value, crawl_id_of, known_id,
}
use mws.XmlParser.HarvestReader.Handlers.{
  parse_document, my_start_element, my_end_element, end_data, enter_data, enter_expr,
}
use mws.XmlParser.HarvestReader.Reading.{Progress, copy, read_expressions, read_data}
use mws.XmlParser.HarvestReader.Events.{
  parse-element, skip, copies, expressions, in_unknown, at_progress,
}

-- What is found for an expression does not depend on the check that forgets unknown ids.
crawl_id_of-known_id :
    (should : Bool) (key : Bytes) (ids : List (Bytes × ℕ))
    → find_id [] ids ≡ none
    → crawl_id_of should (known_id should key ids) ids ≡ crawl_id_of should key ids
unfolding crawl_id_of known_id
crawl_id_of-known_id should key ids empty_key = ground arith

find_id-assign_id :
    (key : Bytes) (value : ℕ) (ids : List (Bytes × ℕ))
    → bytes_eq key [] ≡ false
    → find_id [] ids ≡ none
    → find_id [] (assign_id key value ids) ≡ none
unfolding find_id assign_id
find_id-assign_id key value [] named absent = ground arith
find_id-assign_id key value ((k, v) ∷ rest) named absent =
    let below = find_id-assign_id key value rest named in ground (arith, below)

module _ {P W : Type 0} (digits : ℕ → Bytes) (h : HarvestProcessor P) (x : XmlWriter W) where
  pub ids-read_expressions :
      (uri : Bytes) (crawl_id : ℕ) (inside : Nodes) (r : Progress P)
      → (read_expressions digits h x uri crawl_id inside r).ids ≡ r.ids
  unfolding read_expressions
  ids-read_expressions uri crawl_id empty r = refl
  ids-read_expressions uri crawl_id (follow (text_node t) rest) r =
      ids-read_expressions uri crawl_id rest r
  ids-read_expressions uri crawl_id (follow (element name attrs inside) rest) r =
      ids-read_expressions uri crawl_id rest _

  pub ids-read_data :
      (should : Bool) (local_id : Bytes) (inside : Nodes) (r : Progress P)
      → find_id [] r.ids ≡ none
      → find_id [] (read_data digits h x should local_id inside r).ids ≡ none
  unfolding read_data
  ids-read_data should local_id inside r absent = ground (
    arith,
    absent,
    find_id-assign_id local_id
        (h.process_data r.processor
          (x.end_writing (x.finish (copy digits h x x.new_writer inside)))).1
        r.ids,
  )

  -- What a child of the main element leaves: the data of `t`, with the progress.
  abbrev pub Leaves :
      Nodes → SaxUserData P W → Progress P → Progress P → Bytes → Attributes → Type 0
  Leaves inside s r r' name attrs =
      (t : SaxUserData P W) × (t.should_process_data ≡ s.should_process_data)
      × ((rest : Nodes)
          → parse_document digits h (succeeding x)
              (events (follow (element name attrs inside) rest))
              (at_progress digits h x s in_mws_harvest r)
            ≡ parse_document digits h (succeeding x) (events rest)
                (at_progress digits h x t in_mws_harvest r'))

  pub expr-Leaves :
      (attrs : Attributes) (inside : Nodes) (s : SaxUserData P W) (r : Progress P) (name : Bytes)
      → bytes_eq name (codes "mws:expr") ≡ true
      → find_id [] r.ids ≡ none
      → Leaves inside s r
          (read_expressions digits h x
            (last_value (codes "url") attrs [])
            (crawl_id_of s.should_process_data (last_value (codes "mws:data_id") attrs []) r.ids)
            inside
            r)
          name
          attrs
  unfolding my_start_element my_end_element
  expr-Leaves attrs inside s r name is_expr absent =
      let entered =
        enter_expr digits h (succeeding x) attrs (at_progress digits h x s in_mws_harvest r) in
      (
        entered,
        refl,
        λ rest.
            parse-element digits h x name attrs inside rest
              (at_progress digits h x s in_mws_harvest r)
              (at_progress digits h x entered in_mws_expr r) _ _ (rw is_expr refl)
              (expressions digits h x inside
                (crawl_id_of s.should_process_data (last_value (codes "mws:data_id") attrs [])
                  r.ids)
                entered r (crawl_id_of-known_id s.should_process_data _ r.ids absent))
              refl,
      )

  pub unknown-Leaves :
      (attrs : Attributes) (inside : Nodes) (s : SaxUserData P W) (r : Progress P) (name : Bytes)
      → (t : SaxUserData P W)
      → my_start_element digits h
          (succeeding x)
          name
          attrs
          (at_progress digits h x s in_mws_harvest r)
        ≡ some (
            in_unknown digits h x
              (record (at_progress digits h x t in_mws_harvest r) { prev_state = in_mws_harvest })
              1)
      → t.should_process_data ≡ s.should_process_data
      → Leaves inside s r r name attrs
  unfolding my_end_element
  unknown-Leaves attrs inside s r name t starts same = (
    record t { unknown_depth = 0; prev_state = in_mws_harvest },
    same,
    λ rest.
        parse-element digits h x name attrs inside rest (at_progress digits h x s in_mws_harvest r)
          _ _ _ starts
          (skip digits h x inside 0
            (record (at_progress digits h x t in_mws_harvest r) { prev_state = in_mws_harvest }))
          refl,
  )

  pub data-Leaves :
      (attrs : Attributes) (inside : Nodes) (s : SaxUserData P W) (r : Progress P) (name : Bytes)
      → bytes_eq name (codes "mws:expr") ≡ false
      → bytes_eq name (codes "mws:data") ≡ true
      → Leaves inside s r
          (read_data digits h x s.should_process_data
            (last_value (codes "mws:data_id") attrs [])
            inside
            r)
          name
          attrs
  unfolding my_start_element my_end_element enter_data read_data end_data
  data-Leaves attrs inside s r name not_expr is_data =
      let key = last_value (codes "mws:data_id") attrs [] in
      let named = record s { local_id = key } in
      elim (Bool-cases (bytes_eq key [])) [
        | inl nameless ↦ rw nameless (
            unknown-Leaves attrs inside s r name named (rw (not_expr, is_data, nameless) refl) refl)
        | inr has_name ↦
            let copied = copy digits h x x.new_writer inside in
            let ended = record named {
              writer = none;
              copy_depth = 0;
              data_ = x.end_writing (x.finish copied);
            } in
            (
              ended,
              refl,
              λ rest.
                  parse-element digits h x name attrs inside rest
                    (at_progress digits h x s in_mws_harvest r) _ _
                    (at_progress digits h x ended in_mws_harvest
                      (read_data digits h x s.should_process_data key inside r))
                    (rw (not_expr, is_data, has_name) refl)
                    (copies digits h x inside 0 x.new_writer
                      (at_progress digits h x named in_mws_harvest r))
                    (elim (Bool-cases s.should_process_data) [
                      | inl should ↦ rw (should, has_name) refl
                      | inr ignored ↦ rw (ignored, has_name) refl
                    ]),
            )
      ]
