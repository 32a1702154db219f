-- ===== src/Tests/Harvest.antt =====
-- A harvest with a data element and an expression that refers to it.
use mws.Prelude.{ℕ, ◌≡◌, ◌%◌, ◌+◌, refl, [], ◌∷◌, ◌++◌, some, none, List, true, false, nat_eq}
use mws.Prelude.Bits.{u64_mod}
use mws.Prelude.Tests.{list_eq}
use mws.Prelude.Bytes.{Bytes, codes, bytes_eq, memcmp}
use mws.Common.IdDictionary.{put, get, find_entry}
use mws.Types.VectorMap.{find, find_index, find_loop}
use mws.Types.CmmlToken.{
  set_tag, strip_prefix, is_var, is_range, get_type, get_meaning, get_arity, get_expr_size,
  append_text_content, visible, is_space,
}
use mws.Types.CmmlToken.Traverse.{foreach_subexpression, visit}
use mws.Index.EncodedToken.{token_comparator}
use mws.Index.Encoder.{
  encode, encode_loop, encode_token, encode_constant, constant_id, get_constant_encoding,
}
use mws.Index.TmpIndex.{insert_data, insert_from, increment_at}
use mws.Index.Builder.{index_content_math, index_all, index_subexpression, contains}
use mws.Index.Builder.Load.{
  IndexBuilder, load_harvest_from_fd, process_expression, process_data, index_crawl_data,
}
use mws.Index.Builder.Stored.{stored}
use mws.Index.Builder.Load.Count.{load_harvest_from_fd-stored}
use mws.Dbc.{new_crawl_db, find_key, put_data, insert_formula}
use mws.XmlParser.{Event, end_document, start_token, decorate, add_attributes, update_at}
use mws.XmlParser.Document.{Nodes, empty, follow, element, text_node, events}
use mws.XmlParser.HarvestReader.{
  HarvestProcessor, XmlWriter, XmlLibrary, SaxUserData, succeeding, new_user_data, find_id,
  assign_id, last_value, add_parsed, crawl_id_of, known_id, write_attributes,
}
use mws.XmlParser.HarvestReader.Handlers.{
  parse_document, handle, my_start_element, my_end_element, my_characters, end_expression, end_data,
  enter_data, process_harvest_from_fd,
}
use mws.XmlParser.HarvestReader.Safety.{Failing, parse_document-none}
use mws.Tests.Reading.{digits}

abbrev writer : XmlWriter Bytes
writer = record {
  new_writer = [];
  start = λ w name. w ++ codes "<" ++ name ++ codes ">";
  write_attribute = λ w name value. w ++ name ++ value;
  finish = λ w. w ++ codes "</>";
  write_raw = λ w text. w ++ text;
  end_writing = λ w. w;
  encode = λ text. text;
}

-- Keeps what it is handed.
abbrev keeper : HarvestProcessor (List (Bytes × ℕ))
keeper = record {
  process_expression = λ p t uri crawl_id. ((uri, crawl_id) ∷ p, some 1);
  process_data = λ p text. ((text, 0) ∷ p, 7);
}

abbrev children : Nodes
children =
    follow
      (element (codes "mws:data") ((codes "mws:data_id", codes "d") ∷ [])
        (follow (text_node (codes "t")) empty))
      (follow
        (element (codes "mws:expr")
          ((codes "mws:data_id", codes "d") ∷ (codes "url", codes "u") ∷ [])
          (follow (element (codes "m:cn") [] (follow (text_node (codes "1")) empty)) empty))
        empty)

abbrev document : List Event
document = events (follow (element (codes "mws:harvest") [] children) empty) ++ end_document ∷ []

-- No writer can be made.
abbrev no_writer : XmlLibrary Bytes
no_writer = record (succeeding writer) { new_writer = none }

document_fails : parse_document digits keeper no_writer document (new_user_data [] true 9) ≡ none
unfolding parse_document handle my_start_element my_end_element my_characters enter_data last_value
    events bytes_eq
document_fails = refl

parse_document-none_example :
    (before after : List Event) × (e : Event) × (t : SaxUserData (List (Bytes × ℕ)) Bytes)
    × (document ≡ before ++ e ∷ after)
    × (parse_document digits keeper no_writer before (new_user_data [] true 9) ≡ some t)
    × Failing digits keeper no_writer t e
parse_document-none_example =
    parse_document-none digits keeper no_writer document [] true 9 document_fails

abbrev builder : IndexBuilder
builder = record {
  formula_db = [];
  crawl_db = some new_crawl_db;
  index = mws.Index.TmpIndex.empty;
  meaning_dictionary = mws.Common.IdDictionary.empty;
  rename_ci = false;
}

abbrev loaded : IndexBuilder × ℕ
loaded =
    elim (load_harvest_from_fd digits (succeeding writer) (some (document, some 0)) builder true
      9) [ none ↦ (builder, 5) | some r ↦ elim (r.0) [ none ↦ (builder, 6) | some b ↦ (b, r.2) ] ]

load_runs :
    load_harvest_from_fd digits (succeeding writer) (some (document, some 0)) builder true 9
    ≡ some (some loaded.0, some 0, loaded.1)
unfolding load_harvest_from_fd process_harvest_from_fd parse_document handle my_start_element
    my_end_element my_characters end_expression end_data enter_data find_id assign_id last_value
    add_parsed crawl_id_of known_id write_attributes start_token decorate add_attributes update_at
    process_expression process_data index_crawl_data put_data find_key events set_tag strip_prefix
    append_text_content visible is_space index_content_math index_all index_subexpression contains
    encode encode_loop encode_token encode_constant constant_id get_constant_encoding put get
    find_entry list_eq is_var is_range get_type bytes_eq get_meaning get_arity get_expr_size
    foreach_subexpression visit insert_data insert_from find find_index find_loop memcmp
    token_comparator insert_formula increment_at
load_runs = refl

load_harvest_from_fd-stored_example :
    stored loaded.0.formula_db % u64_mod ≡ (stored builder.formula_db + loaded.1) % u64_mod
load_harvest_from_fd-stored_example =
    load_harvest_from_fd-stored digits (succeeding writer) (some (document, some 0)) builder
      loaded.0 true 9 load_runs
