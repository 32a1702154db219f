-- ===== src/Tests/Handling.antt =====
-- Queries for a number, to both handlers.
use mws.Dbc.Lev.{LevFormulaDb, LevCrawlDb, IsTogether, lev_get_data, lev_get, is_less}
use mws.Tests.Reading.{digits}
use mws.Prelude.{
  ℕ, suc, ◌+◌, ◌≡◌, refl, none, some, false, [], ◌∷◌, List, length, arith, nat_eq, Bool,
}
use mws.Prelude.Tests.{list_eq}
use mws.Prelude.Bytes.{Bytes, codes, bytes_eq, memcmp}
use mws.Common.IdDictionary.{empty, put, get, find_entry}
use mws.Common.IdDictionary.Laws.{empty-IsValid}
use mws.Prelude.{◌++◌}
use mws.Dbc.{new_crawl_db, FormulaInfo}
use mws.Dbc.Infos.{HasInfo}
use mws.Types.CmmlToken.{
  CmmlToken, is_var, is_range, get_type, get_meaning, get_arity, get_expr_size,
}
use mws.Types.CmmlToken.Traverse.{preorder_of, preorder_list}
use mws.Index.EncodedToken.{encoded_token, encoded_token_is_var, token_bytes, token_comparator}
use mws.Index.Encoder.{
  Encoded, encode, encode_loop, encode_token, encode_constant, constant_id, get_constant_encoding,
}
use mws.Index.Encoder.Run.{run}
use mws.Index.TmpIndex.{TmpIndexNode, inner, leaf, nil, cons}
use mws.Index.Builder.Total.{info_of}
use mws.Index.Builder.Load.{IndexBuilder, located, process_expression}
use mws.Index.Iterator.Callback.{iterate, complete, advance, drain}
use mws.Index.Memsector.{
  MemsectorFile, memsector_create, memsector_write, memsector_save, memsector_off2addr,
  memsector_get_current_offset, read_at,
}
use mws.Index.Memsector.Inode.{
  memsector_write_inode_begin, memsector_write_inode_encoded_token_entry, memsector_write_inode_end,
  memsector_write_leaf, get_child_loop, inode_get_child, inode_long_get_child, inode_data,
  inode_long_data,
}
use mws.Index.Memsector.Accessor.{write_entries, write_children_offsets, child_off, get_child}
use mws.Index.Export.{export_to_memsector, finish_export, export_push, export_pop}
use mws.Index.Export.Walk.{walk_file}
use mws.Query.Engine.{inode_get_max_var, max_var_loop, read_leaf}
use mws.Query.Engine.Constants.{has_no_vars}
use mws.Query.Handler.{handle_query, handle_query_engine, encode_query, with_info}
use mws.Query.Handler.Indexed.{ids_query, handle_query-process_expression}
use mws.Query.Handler.Reported.{handle_query_engine-leaf}
use mws.XmlParser.QueryReader.{Query, ResponseFormatter, new_query}
use mws.Tests.Building.{number, number_runs, number_encoded, new_index-IsWellFormed}
use mws.Tests.Memory.{crc32}

abbrev builder : IndexBuilder
builder = record {
  formula_db = [];
  crawl_db = some new_crawl_db;
  index = mws.Index.TmpIndex.empty;
  meaning_dictionary = empty;
  rename_ci = false;
}

-- No number is in a range.
abbrev in_no_range : List (ℕ × CmmlToken) → ℕ → Bytes → Bool
in_no_range bounds id text = false

handle_query-process_expression_example :
    (b' : IndexBuilder) × (added : ℕ) × (process_expression (some builder) number.node (codes "p") 1
      ≡ (some b', some added))
    × (id : ℕ) × (handle_query in_no_range 2 0 b'
          (ids_query ResponseFormatter.mws_ids number.node 30 100)
        ≡ some (record {
          result = record { answers = []; ids = id ∷ []; total = 1 };
          qvar_names = [];
          qvar_xpaths = [];
        }))
    × HasInfo b'.formula_db id (info_of false (codes "p") 1 (located number.node))
unfolding preorder_of preorder_list is_var is_range get_type bytes_eq run encode_token
    encode_constant constant_id get_constant_encoding put get find_entry list_eq get_meaning
    get_arity
handle_query-process_expression_example =
    handle_query-process_expression in_no_range 2 0 builder number.node (codes "p") 1
      ResponseFormatter.mws_ids 30 100 refl empty-IsValid (omega arith) new_index-IsWellFormed
      ((refl, refl), tt) number_runs refl (omega arith) (omega arith) (omega arith) (omega arith)
      (omega arith)

-- An exported index of the number, and databases that have it once, with its data.
abbrev file : MemsectorFile
file =
    elim (export_to_memsector crc32 2 (inner (cons (encoded_token 162 0) (leaf 1 1 nil) nil))
      memsector_create) [
        | none ↦ record { header = memsector_create.ms; contents = [] }
        | some f ↦ f
      ]

abbrev root : ℕ
root = memsector_off2addr file.header.root_off

abbrev number_path : FormulaInfo
number_path = record { crawl_id = 7; formula_path = record { xml_id = codes "p"; xpath = [] } }

abbrev before : LevFormulaDb
before = (codes "0!1", record number_path { crawl_id = 0 }) ∷ []

abbrev own : LevFormulaDb
own = (codes "1!2", number_path) ∷ []

abbrev behind : LevFormulaDb
behind = (codes "2!3", record number_path { crawl_id = 0 }) ∷ []

abbrev crawled : LevCrawlDb
crawled = (codes "7", codes "data") ∷ []

own-IsTogether : IsTogether digits 1 before own behind
unfolding is_less
own-IsTogether = record {
  less = (refl, tt);
  from_first = (refl, (refl, tt));
  to_last = (refl, tt);
  beyond = (refl, tt);
}

abbrev number_query : Query
number_query = record (new_query ResponseFormatter.mws_xml) { tokens = number.node ∷ [] }

abbrev queried : Encoded
queried = elim (encode_query false number_encoded.encoder.dictionary number_query) [
  | none ↦ number_encoded
  | some out ↦ out
]

-- The leaf stands in front of the root.
abbrev addr : ℕ
addr = memsector_off2addr 7

number_queried : encode_query false number_encoded.encoder.dictionary number_query ≡ some queried
unfolding encode_query encode encode_loop get_expr_size encode_token run is_var get_type bytes_eq
    is_range get_arity encode_constant constant_id get_constant_encoding put get find_entry list_eq
    get_meaning
number_queried = refl

handle_query_engine-leaf_example :
    handle_query_engine
      (length queried.formula + suc 0)
      file.contents
      root
      false
      number_encoded.encoder.dictionary
      digits
      crawled
      (before ++ (own ++ behind))
      number_query
    ≡ some (
        with_info queried.info (record {
          answers = (record { xml_id = codes "p"; xpath = [] }, codes "data") ∷ [];
          ids = [];
          total = 1;
        }))
unfolding encode_query encode encode_loop get_expr_size encode_token run is_var get_type bytes_eq
    is_range get_arity encode_constant constant_id get_constant_encoding put get find_entry list_eq
    get_meaning has_no_vars inode_get_max_var max_var_loop get_child child_off read_at
    inode_get_child inode_long_get_child get_child_loop inode_data inode_long_data memcmp
    token_bytes export_to_memsector finish_export export_push export_pop iterate complete advance
    drain write_children_offsets write_entries memsector_write_inode_begin
    memsector_write_inode_encoded_token_entry memsector_write_inode_end memsector_write_leaf
    memsector_write memsector_get_current_offset memsector_save encoded_token_is_var walk_file
    read_leaf lev_get_data lev_get
handle_query_engine-leaf_example =
    handle_query_engine-leaf digits crawled before own behind number_query 0 file.contents root addr
      1 1 false number_encoded.encoder.dictionary number_queried refl (omega arith) (refl, tt) refl
      refl refl own-IsTogether ((codes "data", refl), tt)
