-- ===== src/XmlParser/QueryReader/Whole.antt =====
-- readMwsQuery over the events of a whole document.
use mws.Prelude.{ℕ, ◌≡◌, refl, ap, ◌∙◌, Option, none, some, [], ◌∷◌, ◌++◌, Bool-cases, inl, inr}
use mws.Prelude.Bytes.{Bytes, codes, bytes_eq}
use mws.Types.CmmlToken.{Attributes}
use mws.XmlParser.{end_document}
use mws.XmlParser.Document.{Nodes, empty, follow, element, text_node, events}
use mws.XmlParser.QueryReader.{
  Query, new_query, warn, QueryMode, query_mws, query_schema, mws_xml, schema_json, read_attributes,
}
use mws.XmlParser.QueryReader.Handlers.{
  MwsQueryState, default, in_mws_query, SaxUserData, new_user_data, parse_document, handle,
  my_start_element, my_end_element, my_characters, read_mws_query,
}
use mws.XmlParser.QueryReader.Reading.{read_expressions, add_tokens, read_inside, read_main}
use mws.XmlParser.QueryReader.Elements.{
  user_data, parse-append, parse-element, skip, read-expressions,
}

-- Events inside the main element; the depth and the state before an unknown one are left over.
read-inside :
    (digits : ℕ → Bytes) (strtol : Bytes → ℕ) (mode : QueryMode) (inside : Nodes) (u : ℕ)
    (p : MwsQueryState) (q : Query)
    → (u' : ℕ) × (p' : MwsQueryState) × (parse_document digits strtol
          (events inside)
          (user_data u in_mws_query p none (some q) mode)
        ≡ user_data u' in_mws_query p' none (some (read_inside digits inside q)) mode)
unfolding parse_document handle my_start_element my_end_element my_characters events read_inside
read-inside digits strtol mode empty u p q = (u, p, refl)
read-inside digits strtol mode (follow (text_node s) rest) u p q =
    read-inside digits strtol mode rest u p q
read-inside digits strtol mode (follow (element name attrs inside) rest) u p q =
    let before = user_data u in_mws_query p none (some q) mode in
    let split = parse-element digits strtol name attrs inside rest before in
    elim (Bool-cases (bytes_eq name (codes "mws:expr"))) [
      | inl expr ↦
          let (u', p', below) =
            read-inside digits strtol mode rest u p
              (add_tokens (read_expressions digits inside) q) in
          (
            u',
            p',
            split
                ∙ rw expr (
                    ap (λ z. parse_document digits strtol (events rest) (my_end_element z))
                      (read-expressions digits strtol p mode u inside q)
                    ∙ below),
          )
      | inr other ↦
          let (u', p', below) = read-inside digits strtol mode rest 0 in_mws_query (warn q) in
          (
            u',
            p',
            split
                ∙ rw other (
                    ap (λ z. parse_document digits strtol (events rest) (my_end_element z))
                      (skip digits strtol in_mws_query mode inside 0 none (some (warn q)))
                    ∙ below),
          )
    ]

-- Over the events of a document with one main element, followed by the end of the document,
-- readMwsQuery returns the query that reading the document as a tree gives: for a main element
-- mws:query its attributes are read, then each mws:expr child adds the tokens of the elements
-- inside it in order, and any other child is skipped with one warning; for another main element
-- the query is the initial one with a warning.
pub read_mws_query-eq-read_main :
    (digits : ℕ → Bytes) (strtol : Bytes → ℕ) (u : ℕ) (p : MwsQueryState) (mode : QueryMode)
    (name : Bytes) (attrs : Attributes) (inside : Nodes)
    → read_mws_query digits strtol u p
        (some (some (events (follow (element name attrs inside) empty) ++ end_document ∷ [])))
        mode
      ≡ some (read_main digits strtol mode name attrs inside)
unfolding read_mws_query read_main events parse_document handle my_start_element my_end_element
read_mws_query-eq-read_main digits strtol u p mode name attrs inside =
    let start = new_user_data u p mode in
    let q = new_query (elim mode [ query_mws ↦ mws_xml | query_schema ↦ schema_json ]) in
    let split =
      parse-append digits strtol (events (follow (element name attrs inside) empty))
        (end_document ∷ []) start
      ∙ ap (parse_document digits strtol (end_document ∷ []))
          (parse-element digits strtol name attrs inside empty start) in
    let close : SaxUserData → Option Query = λ z.
      (parse_document digits strtol (events empty ++ end_document ∷ [])
        (my_end_element z)).result in
    elim (Bool-cases (bytes_eq name (codes "mws:query"))) [
      | inl main ↦
          let (u', p', below) =
            read-inside digits strtol mode inside u p (read_attributes strtol mode attrs q) in
          ap (λ z. z.result) split ∙ rw main (ap close below)
      | inr other ↦
          ap (λ z. z.result) split
          ∙ rw other (ap close (skip digits strtol default mode inside 0 none (some (warn q))))
    ]
