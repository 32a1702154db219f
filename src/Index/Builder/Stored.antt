-- ===== src/Index/Builder/Stored.antt =====
-- How many formulas an indexed expression adds.
use mws.Prelude.{
  ℕ, ◌+◌, ◌≤◌, ◌≡◌, Bool, none, some, List, [], ◌∷◌, arith, length, length-append, Option-cases,
  inl, inr,
}
use mws.Prelude.Bytes.{Bytes}
use mws.Common.IdDictionary.{IdDictionary}
use mws.Common.Parcel.{FormulaPath}
use mws.Dbc.{MemFormulaDb, insert_formula}
use mws.Types.CmmlToken.{get_expr_size, get_xpath}
use mws.Types.CmmlToken.Traverse.{
  Located, preorder, foreach_subexpression-eq-preorder, length-preorder,
}
use mws.Index.Encoder.{harvest, encode}
use mws.Index.TmpIndex.{TmpIndex, insert_data, leaf_data}
use mws.Index.Builder.{BuildState, index_subexpression, index_all, start_build, index_content_math}

-- The number of formulas in a database.
abbrev pub stored : MemFormulaDb → ℕ
stored [] = 0
stored ((id, infos) ∷ rest) = length infos + stored rest

pub stored-insert_formula :
    (db : MemFormulaDb) (id crawl_id : ℕ) (path : FormulaPath)
    → stored (insert_formula db id crawl_id path) ≡ stored db + 1
unfolding insert_formula
stored-insert_formula [] id crawl_id path = omega arith
stored-insert_formula ((k, infos) ∷ rest) id crawl_id path = ground (
  arith,
  stored-insert_formula rest id crawl_id path,
  length-append infos (record { crawl_id = crawl_id; formula_path = path } ∷ []),
)

module _ (rename_ci : Bool) (xml_id : Bytes) (crawl_id : ℕ) where
  -- What one or more subexpressions add to the database and to the count.
  record Adds (s s' : BuildState) (most : ℕ) : Type 0 where
    same :
        stored s'.formula_db + s.num_sub_expressions ≡ stored s.formula_db + s'.num_sub_expressions
    bound : s'.num_sub_expressions ≤ s.num_sub_expressions + most

  index_subexpression-Adds :
      (l : Located) (s s' : BuildState)
      → index_subexpression rename_ci xml_id crawl_id l s ≡ some s'
      → Adds s s' 1
  unfolding index_subexpression
  index_subexpression-Adds l s s' h =
      elim (Option-cases (encode rename_ci harvest s.encoder l none)) [
        | inl stuck ↦ absurd (ground arith)
        | inr (out, encoded) ↦ elim (Option-cases (insert_data s.index out.formula)) [
          | inl empty ↦ record { same = ground arith; bound = ground arith }
          | inr ((index, node), inserted) ↦ elim (Option-cases (leaf_data node)) [
            | inl inner ↦ record { same = ground arith; bound = ground arith }
            | inr ((id, solutions), at_leaf) ↦
                let path : FormulaPath = record { xml_id = xml_id; xpath = get_xpath l.node } in
                let more = stored-insert_formula s.formula_db id crawl_id path in
                record { same = ground (arith, more); bound = ground arith }
          ]
        ]
      ]

  index_all-Adds :
      (ls : List Located) (s s' : BuildState)
      → index_all rename_ci xml_id crawl_id ls s ≡ some s'
      → Adds s s' (length ls)
  unfolding index_all
  index_all-Adds [] s s' h = record { same = ground arith; bound = ground arith }
  index_all-Adds (l ∷ ls) s s' h =
      elim (Option-cases (index_subexpression rename_ci xml_id crawl_id l s)) [
        | inl stuck ↦ absurd (ground arith)
        | inr (s1, done) ↦
            let first = index_subexpression-Adds l s s1 done in
            let rest = index_all-Adds ls s1 s' (ground arith) in
            record {
              same = omega (arith, first.same, rest.same);
              bound = omega (arith, first.bound, rest.bound);
            }
      ]

  -- When an expression was indexed, the database holds as many more formulas as the number
  -- returned, and that is at most the number of subexpressions.
  pub stored-index_content_math :
      (l : Located) (d : IdDictionary Bytes) (index : TmpIndex) (db : MemFormulaDb) {s : BuildState}
      → index_content_math rename_ci xml_id crawl_id l d index db ≡ some s
      → (stored s.formula_db ≡ stored db + s.num_sub_expressions)
        × (s.num_sub_expressions ≤ get_expr_size l.node)
  unfolding index_content_math
  stored-index_content_math l d index db {s} h =
      let all : index_all rename_ci xml_id crawl_id (preorder l) (start_build d index db) ≡ some s =
        ground (arith, foreach_subexpression-eq-preorder l) in
      let a = index_all-Adds (preorder l) (start_build d index db) s all in
      (omega (arith, a.same), omega (arith, a.bound, length-preorder l))
