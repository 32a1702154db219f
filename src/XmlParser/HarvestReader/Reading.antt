-- ===== src/XmlParser/HarvestReader/Reading.antt =====
-- A harvest read as a tree, without the states of the parser.
use mws.Prelude.{ℕ, Bool, List, [], ◌==◌, if◌then◌else◌}
use mws.Prelude.Bytes.{Bytes, codes, bytes_eq}
use mws.Dbc.{crawl_id_null}
use mws.Types.CmmlToken.{new_root}
use mws.XmlParser.{decorate}
use mws.XmlParser.Document.{Nodes, empty, follow, element, text_node, fill}
use mws.XmlParser.HarvestReader.{
  HarvestProcessor, XmlWriter, succeeding, assign_id, last_value, add_parsed, crawl_id_of,
  write_attributes,
}

-- What a harvest has come to: the processor, the crawl ids of the data elements, and the count.
pub record Progress (P : Type 0) : Type 0 where
  pub processor : P
  pub ids : List (Bytes × ℕ)
  pub parsed_expr : ℕ

module _ {P W : Type 0} (digits : ℕ → Bytes) (h : HarvestProcessor P) (x : XmlWriter W) where
  -- The copy of what stands inside an element.
  unfoldable pub copy : W → Nodes → W
  copy w empty = w
  copy w (follow (text_node s) rest) = copy (x.write_raw w (x.encode s)) rest
  copy w (follow (element name attrs inside) rest) =
      copy (x.finish (copy (write_attributes (succeeding x) attrs (x.start w name)) inside)) rest

  -- The expressions inside an element mws:expr are processed in order.
  unfoldable pub read_expressions : Bytes → ℕ → Nodes → Progress P → Progress P
  read_expressions uri crawl_id empty r = r
  read_expressions uri crawl_id (follow (text_node s) rest) r = read_expressions uri crawl_id rest r
  read_expressions uri crawl_id (follow (element name attrs inside) rest) r =
      let expression = fill digits (decorate name attrs new_root) inside in
      let p = h.process_expression r.processor expression uri crawl_id in
      read_expressions uri crawl_id rest
        (record r { processor = p.0; parsed_expr = add_parsed p.1 r.parsed_expr })

  -- An element mws:data with its local id.
  unfoldable pub read_data : Bool → Bytes → Nodes → Progress P → Progress P
  unfolding copy
  read_data should local_id inside r =
      let p = h.process_data r.processor (x.end_writing (x.finish (copy x.new_writer inside))) in
      let stored = record r {
        processor = p.0;
        ids = if p.1 == crawl_id_null then r.ids else assign_id local_id p.1 r.ids;
      } in
      if bytes_eq local_id [] then r else if should then stored else r

  -- What stands inside the main element.
  unfoldable pub read_inside : Bool → Nodes → Progress P → Progress P
  unfolding read_expressions read_data
  read_inside should empty r = r
  read_inside should (follow (text_node s) rest) r = read_inside should rest r
  read_inside should (follow (element name attrs inside) rest) r =
      let local_id = last_value (codes "mws:data_id") attrs [] in
      let uri = last_value (codes "url") attrs [] in
      read_inside should rest (
        if bytes_eq name (codes "mws:expr")
        then read_expressions uri (crawl_id_of should local_id r.ids) inside r
        else if bytes_eq name (codes "mws:data")
        then read_data should local_id inside r
        else r)

  unfoldable pub read_main : Bool → P → Bytes → Nodes → Progress P
  unfolding read_inside
  read_main should processor name inside =
      let start : Progress P = record { processor = processor; ids = []; parsed_expr = 0 } in
      if bytes_eq name (codes "mws:harvest") then read_inside should inside start else start
