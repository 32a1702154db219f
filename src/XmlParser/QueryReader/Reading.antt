-- ===== src/XmlParser/QueryReader/Reading.antt =====
-- What readMwsQuery makes of a well-formed document, read as a tree.
use mws.Prelude.{ℕ, List, [], ◌∷◌, ◌++◌, if◌then◌else◌}
use mws.Prelude.Bytes.{Bytes, codes, bytes_eq}
use mws.Types.CmmlToken.{CmmlToken, Attributes, new_root}
use mws.XmlParser.{decorate}
use mws.XmlParser.Document.{Nodes, empty, follow, element, text_node, fill}
use mws.XmlParser.QueryReader.{
  Query, new_query, warn, QueryMode, query_mws, query_schema, mws_xml, schema_json, read_attributes,
}

-- The expressions inside an element mws:expr.
unfoldable pub read_expressions : (ℕ → Bytes) → Nodes → List CmmlToken
read_expressions digits empty = []
read_expressions digits (follow (text_node s) rest) = read_expressions digits rest
read_expressions digits (follow (element name attrs inside) rest) =
    fill digits (decorate name attrs new_root) inside ∷ read_expressions digits rest

abbrev pub add_tokens : List CmmlToken → Query → Query
add_tokens ts q = record q { tokens = q.tokens ++ ts }

-- The query after what stands inside the main element.
unfoldable pub read_inside : (ℕ → Bytes) → Nodes → Query → Query
unfolding read_expressions
read_inside digits empty q = q
read_inside digits (follow (text_node s) rest) q = read_inside digits rest q
read_inside digits (follow (element name attrs inside) rest) q =
    let found = add_tokens (read_expressions digits inside) q in
    read_inside digits rest (if bytes_eq name (codes "mws:expr") then found else warn q)

unfoldable pub read_main :
    (ℕ → Bytes) → (Bytes → ℕ) → QueryMode → Bytes → Attributes → Nodes → Query
unfolding read_inside
read_main digits strtol mode name attrs inside =
    let q = new_query (elim mode [ query_mws ↦ mws_xml | query_schema ↦ schema_json ]) in
    if bytes_eq name (codes "mws:query")
    then read_inside digits inside (read_attributes strtol mode attrs q)
    else warn q
