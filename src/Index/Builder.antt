-- ===== src/Index/Builder.antt =====
-- src/mws/index/IndexBuilder.cpp: `indexContentMath`, which puts every subexpression of a formula
-- into the index and the database of formulas, over the models of those parts.
pub mod Stored
pub mod Load
pub mod Total
pub mod Findable
use mws.Prelude.{ℕ, ◌+◌, Bool, true, false, Option, none, some, List, [], ◌∷◌, ◌==◌, if◌then◌else◌}
use mws.Prelude.Bytes.{Bytes}
use mws.Common.IdDictionary.{IdDictionary}
use mws.Common.Parcel.{FormulaPath}
use mws.Dbc.{MemFormulaDb, insert_formula}
use mws.Types.CmmlToken.{get_xpath}
use mws.Types.CmmlToken.Traverse.{Located, foreach_subexpression}
use mws.Index.Encoder.{Encoder, harvest, encode}
use mws.Index.TmpIndex.{TmpIndex, insert_data, leaf_data, increment_at}

-- The members of IndexBuilder that change, the encoder, and the local variables.
pub record BuildState : Type 0 where
  pub encoder : Encoder
  pub index : TmpIndex
  pub formula_db : MemFormulaDb
  pub unique_formula_ids : List ℕ
  pub num_sub_expressions : ℕ

unfoldable pub contains : ℕ → List ℕ → Bool
contains id [] = false
contains id (x ∷ xs) = let rest = contains id xs in if x == id then true else rest

-- The callback on a subexpression; `none` is an empty formula, which `insertData` asserts away, or
-- a node that is no leaf.
unfoldable pub index_subexpression : Bool → Bytes → ℕ → Located → BuildState → Option BuildState
index_subexpression rename_ci xml_id crawl_id l s =
    elim (encode rename_ci harvest s.encoder l none) [
      | none ↦ none
      | some out ↦
          if out.ok
          then elim (insert_data s.index out.formula) [
            | none ↦ none
            | some (index, node) ↦ elim (leaf_data node) [
              | none ↦ none
              | some (id, solutions) ↦
                  if contains id s.unique_formula_ids
                  then some (record s { encoder = out.encoder; index = index })
                  else some (record {
                    encoder = out.encoder;
                    index = record index { root = increment_at out.formula index.root };
                    formula_db =
                        insert_formula s.formula_db id crawl_id
                          (record { xml_id = xml_id; xpath = get_xpath l.node });
                    unique_formula_ids = id ∷ s.unique_formula_ids;
                    num_sub_expressions = s.num_sub_expressions + 1;
                  })
            ]
          ]
          else some (record s { encoder = out.encoder })
    ]

-- The callback on each of the tokens.
unfoldable pub index_all : Bool → Bytes → ℕ → List Located → BuildState → Option BuildState
index_all rename_ci xml_id crawl_id [] s = some s
index_all rename_ci xml_id crawl_id (l ∷ rest) s =
    elim (index_subexpression rename_ci xml_id crawl_id l s) [
      | none ↦ none
      | some s' ↦ index_all rename_ci xml_id crawl_id rest s'
    ]

abbrev pub start_build : IdDictionary Bytes → TmpIndex → MemFormulaDb → BuildState
start_build dictionary index formula_db = record {
  encoder = record { dictionary = dictionary; ci_translations = []; ci_translation_counter = 0 };
  index = index;
  formula_db = formula_db;
  unique_formula_ids = [];
  num_sub_expressions = 0;
}

-- The state afterwards; its last field is the result.
unfoldable pub index_content_math :
    Bool → Bytes → ℕ → Located → IdDictionary Bytes → TmpIndex → MemFormulaDb → Option BuildState
index_content_math rename_ci xml_id crawl_id l dictionary index formula_db =
    elim (foreach_subexpression l) [
      | none ↦ none
      | some tokens ↦
          index_all rename_ci xml_id crawl_id tokens (start_build dictionary index formula_db)
    ]
