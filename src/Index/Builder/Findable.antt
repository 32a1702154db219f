-- ===== src/Index/Builder/Findable.antt =====
-- An expression that was indexed is found again: by the tokens that a query makes of it, in the
-- index, and by the id of the leaf, in the database of formulas.
use mws.Prelude.{
  list_eq, nat_eq, ℕ, ◌+◌, ◌<◌, ◌≤◌, ◌≡◌, refl, ap, sym, ◌∙◌, subst, Bool, true, false, Option,
  none, some, List, [], ◌∷◌, arith, Option-cases, inl, inr, All, length,
}
use mws.Prelude.Bytes.{Bytes}
use mws.Prelude.Bits.{u32_mod}
use mws.Common.IdDictionary.{IdDictionary}
use mws.Common.IdDictionary.Laws.{IsValid}
use mws.Dbc.{MemFormulaDb}
use mws.Dbc.Infos.{HasInfo}
use mws.Types.CmmlToken.{CmmlToken, token}
use mws.Types.CmmlToken.Traverse.{Located, preorder, preorder_of, foreach_subexpression-eq-preorder}
use mws.Index.Encoder.{Encoded, harvest, query, encode, start}
use mws.Index.Encoder.Run.{encode-eq-run}
use mws.Index.Encoder.Shape.{IsConstant}
use mws.Index.Encoder.Roundtrip.{
  Extends, Extends-trans, HasRoom, Grown, run-Grown, fresh, over, query-encode-harvest,
}
use mws.Index.TmpIndex.{TmpIndex, leaf, Children, walk}
use mws.Index.TmpIndex.Reach.{walk_of_id_at}
use mws.Index.Builder.{
  BuildState, index_subexpression, index_all, start_build, index_content_math, contains,
}
use mws.Index.Builder.Total.{
  IsWellFormed, KeepsIds, KeepsInfos, IsFindable, encoded, info_of, index_subexpression-Indexed,
  preorder-constants,
}

module _ (rename_ci : Bool) (xml_id : Bytes) (crawl_id : ℕ) where
  -- Several subexpressions in a well-formed index.
  record AllIndexed (ls : List Located) (s s' : BuildState) : Type 0 where
    runs : index_all rename_ci xml_id crawl_id ls s ≡ some s'
    well_formed : IsWellFormed s'.index.root
    keeps_ids : KeepsIds s.index.root s'.index.root
    keeps_infos : KeepsInfos s.formula_db s'.formula_db

  index_all-AllIndexed :
      (ls : List Located) (s : BuildState)
      → IsWellFormed s.index.root
      → All (λ (l : Located). All IsConstant (preorder l)) ls
      → (s' : BuildState) × AllIndexed ls s s'
  unfolding index_all
  index_all-AllIndexed [] s w c = (
    s,
    record { runs = refl; well_formed = w; keeps_ids = λ g id h. h; keeps_infos = λ id info h. h },
  )
  index_all-AllIndexed (l ∷ ls) s w c =
      let (s1, now) = index_subexpression-Indexed rename_ci xml_id crawl_id l s w c.0 in
      let (s', later) = index_all-AllIndexed ls s1 now.well_formed c.1 in
      (
        s',
        record {
          runs = ground (arith, now.runs, later.runs);
          well_formed = later.well_formed;
          keeps_ids = λ g id h. later.keeps_ids g id (now.keeps_ids g id h);
          keeps_infos = λ id info h. later.keeps_infos id info (now.keeps_infos id info h);
        },
      )

  -- Indexing an expression without variables and ranges into a well-formed index always ends,
  -- with a well-formed index in which every formula that led to a leaf leads to a leaf with the
  -- same id, and with a database of formulas that holds all infos that it held.
  pub index_content_math-IsWellFormed :
      (l : Located) (d : IdDictionary Bytes) (index : TmpIndex) (db : MemFormulaDb)
      → IsWellFormed index.root
      → All IsConstant (preorder l)
      → (s : BuildState) × (index_content_math rename_ci xml_id crawl_id l d index db ≡ some s)
        × IsWellFormed s.index.root
        × KeepsIds index.root s.index.root
        × KeepsInfos db s.formula_db
  unfolding index_content_math
  index_content_math-IsWellFormed l d index db w c =
      let (s, all) =
        index_all-AllIndexed (preorder l) (start_build d index db) w (preorder-constants l c) in
      (
        s,
        ground (arith, foreach_subexpression-eq-preorder l, all.runs),
        all.well_formed,
        all.keeps_ids,
        all.keeps_infos,
      )

encoder-index_subexpression :
    (rename_ci : Bool) (xml_id : Bytes) (crawl_id : ℕ) (l : Located) (s s' : BuildState)
    → index_subexpression rename_ci xml_id crawl_id l s ≡ some s'
    → s'.encoder ≡ (encoded rename_ci xml_id crawl_id l s).encoder
unfolding index_subexpression
encoder-index_subexpression rename_ci xml_id crawl_id l s s' h =
    ground (arith, encode-eq-run rename_ci harvest s.encoder l none)

-- The number of tokens that are encoded for the subexpressions.
abbrev pub token_count : List Located → ℕ
token_count [] = 0
token_count (l ∷ ls) = length (preorder l) + token_count ls

module _ (xml_id : Bytes) (crawl_id : ℕ) where
  index_subexpression-Grown :
      (l : Located) (s s' : BuildState)
      → index_subexpression false xml_id crawl_id l s ≡ some s'
      → IsValid s.encoder.dictionary
      → HasRoom s.encoder.dictionary (preorder l)
      → Grown s.encoder.dictionary s'.encoder.dictionary (length (preorder l))
  index_subexpression-Grown l s s' h v room =
      subst (λ z. Grown s.encoder.dictionary z.dictionary (length (preorder l)))
        (sym (encoder-index_subexpression false xml_id crawl_id l s s' h))
        (run-Grown (preorder l) (start s.encoder none) v room)

  Extends-index_all :
      (ls : List Located) (s s' : BuildState)
      → index_all false xml_id crawl_id ls s ≡ some s'
      → IsValid s.encoder.dictionary
      → s.encoder.dictionary.next_id + token_count ls < u32_mod
      → Extends s.encoder.dictionary s'.encoder.dictionary
  unfolding index_all
  Extends-index_all [] s s' h v room =
      let same : s ≡ s' = ground arith in
      subst (λ z. Extends s.encoder.dictionary z.encoder.dictionary) same (λ k p. refl)
  Extends-index_all (l ∷ ls) s s' h v room =
      elim (Option-cases (index_subexpression false xml_id crawl_id l s)) [
        | inl stuck ↦ absurd (ground arith)
        | inr (s1, done) ↦
            let g = index_subexpression-Grown l s s1 done v (omega arith) in
            let rest = Extends-index_all ls s1 s' (ground arith) g.valid (omega (arith, g.next)) in
            Extends-trans s.encoder.dictionary s1.encoder.dictionary s'.encoder.dictionary g.extends
              rest
      ]

  -- The dictionary after the first of the subexpressions, and in the end.
  Extends-first :
      (l : Located) (ls : List Located) (s s' : BuildState)
      → index_all false xml_id crawl_id (l ∷ ls) s ≡ some s'
      → IsValid s.encoder.dictionary
      → s.encoder.dictionary.next_id + token_count (l ∷ ls) < u32_mod
      → Extends (encoded false xml_id crawl_id l s).encoder.dictionary s'.encoder.dictionary
  unfolding index_all
  Extends-first l ls s s' h v room =
      elim (Option-cases (index_subexpression false xml_id crawl_id l s)) [
        | inl stuck ↦ absurd (ground arith)
        | inr (s1, done) ↦
            let g = index_subexpression-Grown l s s1 done v (omega arith) in
            subst (λ z. Extends z.dictionary s'.encoder.dictionary)
              (encoder-index_subexpression false xml_id crawl_id l s s1 done)
              (Extends-index_all ls s1 s' (ground arith) g.valid (omega (arith, g.next)))
      ]

preorder_of-front :
    (t : CmmlToken) (parent : Option Bytes) (front : Bool)
    → (rest : List Located) × (preorder_of t parent front
        ≡ record { node = t; parent_tag = parent; is_front = front } ∷ rest)
unfolding preorder_of
preorder_of-front (token tag attrs text xpath children) parent front = (_, refl)

module _ (xml_id : Bytes) (crawl_id : ℕ) where
  -- The expression itself, which is the first of its subexpressions, and the rest.
  first_indexed :
      (l : Located) (rest : List Located) (s : BuildState)
      → IsWellFormed s.index.root
      → All (λ (m : Located). All IsConstant (preorder m)) (l ∷ rest)
      → (encoded false xml_id crawl_id l s).ok ≡ true
      → (s' : BuildState) × (index_all false xml_id crawl_id (l ∷ rest) s ≡ some s')
        × IsFindable false xml_id crawl_id l s s'
  unfolding index_all
  first_indexed l rest s w c ok =
      let (s1, now) = index_subexpression-Indexed false xml_id crawl_id l s w c.0 in
      let (s', later) = index_all-AllIndexed false xml_id crawl_id rest s1 now.well_formed c.1 in
      let (id, there, info) = now.findable ok in
      (
        s',
        ground (arith, now.runs, later.runs),
        (
          id,
          later.keeps_ids _ id there,
          λ new. later.keeps_infos id (info_of false xml_id crawl_id l) (info new),
        ),
      )

  -- For a valid dictionary with room for the meanings of all subexpressions, a well-formed
  -- index, and an expression without variables and ranges that a harvest encodes without
  -- renaming: indexing the expression ends, and a query for the same expression over the
  -- resulting dictionary is encoded to the same formula, which leads, in the resulting index,
  -- to a leaf, and the resulting database of formulas has the location of the expression under
  -- the id of that leaf.
  pub index_content_math-query :
      (l : Located) (d : IdDictionary Bytes) (index : TmpIndex) (db : MemFormulaDb) {out : Encoded}
      → IsValid d
      → d.next_id + token_count (preorder l) < u32_mod
      → IsWellFormed index.root
      → All IsConstant (preorder l)
      → encode false harvest (fresh d) l none ≡ some out
      → out.ok ≡ true
      → (s : BuildState) × (index_content_math false xml_id crawl_id l d index db ≡ some s)
        × (q : Encoded) × (encode false query (fresh s.encoder.dictionary) l none ≡ some q)
        × (q.ok ≡ true)
        × (q.formula ≡ out.formula)
        × (id n : ℕ) × (c : Children) × (walk q.formula s.index.root ≡ some (leaf id n c))
        × HasInfo s.formula_db id (info_of false xml_id crawl_id l)
  unfolding index_content_math contains
  index_content_math-query l d index db {out} v room w c h ok =
      let s0 = start_build d index db in
      let (rest, split) = preorder_of-front l.node l.parent_tag l.is_front in
      let same : encoded false xml_id crawl_id l s0 ≡ out =
        cc (encode-eq-run false harvest (fresh d) l none) in
      let all =
        subst (All (λ (m : Located). All IsConstant (preorder m))) split (preorder-constants l c) in
      let (s, runs, f) = first_indexed l rest s0 w all (ap (λ z. z.ok) same ∙ ok) in
      let (id, there, info) = f in
      let whole : index_all false xml_id crawl_id (preorder l) s0 ≡ some s =
        subst (λ z. index_all false xml_id crawl_id z s0 ≡ some s) (sym split) runs in
      let (n, children, walked) = walk_of_id_at _ s.index.root there in
      let later = s.encoder.dictionary in
      let room' : d.next_id + token_count (l ∷ rest) < u32_mod =
        subst (λ z. d.next_id + token_count z < u32_mod) split room in
      let ext = Extends-first xml_id crawl_id l rest s0 s runs v room' in
      (
        s,
        ground (arith, foreach_subexpression-eq-preorder l, whole),
        over later out,
        query-encode-harvest d later l none v (omega (arith, room')) h
            (subst (λ z. Extends z.encoder.dictionary s.encoder.dictionary) same ext),
        ok,
        refl,
        id,
        n,
        children,
        subst (λ z. walk z.formula s.index.root ≡ some (leaf id n children)) same walked,
        info refl,
      )

-- An expression is the first of its subexpressions, so its tokens are counted.
pub token_count-le : (l : Located) → length (preorder l) ≤ token_count (preorder l)
token_count-le l =
    let (rest, split) = preorder_of-front l.node l.parent_tag l.is_front in
    let e : token_count (preorder l) ≡ length (preorder l) + token_count rest =
      ap token_count split in
    omega arith
