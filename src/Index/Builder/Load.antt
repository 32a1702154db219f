-- ===== src/Index/Builder/Load.antt =====
-- src/mws/index/IndexBuilder.cpp: `indexCrawlData`, and `loadHarvestFromFd`, which indexes what the
-- reader of harvests hands on, over databases in memory.
pub mod Count
use mws.Prelude.{ℕ, Bool, true, Option, none, some, List, []}
use mws.Prelude.Bytes.{Bytes}
use mws.Common.IdDictionary.{IdDictionary}
use mws.Dbc.{MemCrawlDb, MemFormulaDb, put_data, crawl_id_null}
use mws.Types.CmmlToken.{CmmlToken}
use mws.Types.CmmlToken.Traverse.{Located}
use mws.Index.TmpIndex.{TmpIndex}
use mws.Index.Builder.{index_content_math}
use mws.XmlParser.{Event}
use mws.XmlParser.HarvestReader.{HarvestProcessor, XmlLibrary}
use mws.XmlParser.HarvestReader.Handlers.{process_harvest_from_fd}

-- The members of IndexBuilder; a database of `none` is a null pointer.
pub record IndexBuilder : Type 0 where
  pub formula_db : MemFormulaDb
  pub crawl_db : Option MemCrawlDb
  pub index : TmpIndex
  pub meaning_dictionary : IdDictionary Bytes
  pub rename_ci : Bool

-- `indexCrawlData`; the id is `none` for the exception of the database.
unfoldable pub index_crawl_data : IndexBuilder → Bytes → IndexBuilder × Option ℕ
index_crawl_data b crawl_data = elim b.crawl_db [
  | none ↦ (b, some crawl_id_null)
  | some db ↦ let r = put_data db crawl_data in (record b { crawl_db = some r.0 }, r.1)
]

-- A root token has no parent.
abbrev pub located : CmmlToken → Located
located expression = record { node = expression; parent_tag = none; is_front = true }

-- HarvestIndexer; `none` is the state after an exception or a failed assertion.
unfoldable pub process_expression :
    Option IndexBuilder → CmmlToken → Bytes → ℕ → Option IndexBuilder × Option ℕ
process_expression none expression expr_uri crawl_id = (none, none)
process_expression (some b) expression expr_uri crawl_id =
    elim (index_content_math b.rename_ci expr_uri crawl_id (located expression) b.meaning_dictionary
      b.index b.formula_db) [
        | none ↦ (none, none)
        | some s ↦ (
          some (record b {
            formula_db = s.formula_db;
            index = s.index;
            meaning_dictionary = s.encoder.dictionary;
          }),
          some s.num_sub_expressions,
        )
      ]

unfoldable pub process_data : Option IndexBuilder → Bytes → Option IndexBuilder × ℕ
unfolding index_crawl_data
process_data none crawl_data = (none, crawl_id_null)
process_data (some b) crawl_data =
    let r = index_crawl_data b crawl_data in
    elim (r.1) [ none ↦ (none, crawl_id_null) | some id ↦ (some r.0, id) ]

abbrev pub harvest_indexer : HarvestProcessor (Option IndexBuilder)
harvest_indexer = record { process_expression = process_expression; process_data = process_data }

-- `loadHarvestFromFd`, with the parser's events and status.
unfoldable pub load_harvest_from_fd :
    {W : Type 0}
    → (ℕ → Bytes)
    → XmlLibrary W
    → Option (List Event × Option ℕ)
    → IndexBuilder
    → Bool
    → ℕ
    → Option (Option IndexBuilder × Option ℕ × ℕ)
unfolding process_expression process_data
load_harvest_from_fd digits x parsed b should copy_depth =
    process_harvest_from_fd digits harvest_indexer x parsed (some b) should copy_depth
