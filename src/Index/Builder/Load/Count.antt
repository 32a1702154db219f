-- ===== src/Index/Builder/Load/Count.antt =====
-- The number that loadHarvestFromFd returns, against the formulas in the database.
use mws.Prelude.{
  ℕ, ◌+◌, ◌%◌, ◌≡◌, refl, sym, subst, Bool, Option, none, some, List, Option-cases, inl, inr, arith,
}
use mws.Prelude.Bits.{u64_mod}
use mws.Prelude.Bytes.{Bytes}
use mws.Types.CmmlToken.{CmmlToken}
use mws.Index.Builder.{index_content_math}
use mws.Index.Builder.Stored.{stored, stored-index_content_math}
use mws.Index.Builder.Load.{
  IndexBuilder, located, process_expression, process_data, index_crawl_data, harvest_indexer,
  load_harvest_from_fd,
}
use mws.XmlParser.{Event}
use mws.XmlParser.HarvestReader.{XmlLibrary, add_parsed}
use mws.XmlParser.HarvestReader.Processor.{process_harvest_from_fd-Keeps}

-- The builder has as many more formulas than `before` as were counted, in 64 bits.
abbrev Counted : ℕ → Option IndexBuilder → ℕ → Type 0
Counted before p n =
    (b : IndexBuilder) → p ≡ some b → stored b.formula_db % u64_mod ≡ (before + n) % u64_mod

add_mod :
    (s s' before n m : ℕ)
    → s' ≡ s + m
    → s % u64_mod ≡ (before + n) % u64_mod
    → s' % u64_mod ≡ (before + (n + m) % u64_mod) % u64_mod
add_mod s s' before n m same k = omega arith

process_expression-Counted :
    (before : ℕ) (p : Option IndexBuilder) (n : ℕ) (t : CmmlToken) (uri : Bytes) (crawl_id : ℕ)
    → Counted before p n
    → Counted before
        (process_expression p t uri crawl_id).0
        (add_parsed (process_expression p t uri crawl_id).1 n)
unfolding process_expression add_parsed
process_expression-Counted before none n t uri crawl_id k b' e = absurd (cc)
process_expression-Counted before (some b) n t uri crawl_id k b' e =
    let indexing =
      index_content_math b.rename_ci uri crawl_id (located t) b.meaning_dictionary b.index
        b.formula_db in
    elim (Option-cases indexing) [
      | inl fails ↦ absurd (ground arith)
      | inr (s, indexed) ↦
          let more =
            stored-index_content_math b.rename_ci uri crawl_id (located t) b.meaning_dictionary
              b.index b.formula_db indexed in
          let counted =
            add_mod (stored b.formula_db) (stored s.formula_db) before n s.num_sub_expressions
              more.0 (k b refl) in
          ground (arith, indexed, counted)
    ]

process_data-Counted :
    (before : ℕ) (p : Option IndexBuilder) (n : ℕ) (text : Bytes)
    → Counted before p n
    → Counted before (process_data p text).0 n
unfolding process_data index_crawl_data
process_data-Counted before none n text k b' e = absurd (cc)
process_data-Counted before (some b) n text k b' e =
    let kept = k b refl in
    let same : b'.formula_db ≡ b.formula_db = ground arith in
    subst (λ z. stored z % u64_mod ≡ (before + n) % u64_mod) (sym same) kept

-- Whatever events the parser reports, if loadHarvestFromFd returns a number and the builder is
-- left without an exception or failed assertion, then modulo 2^64 the database of formulas has as
-- many more entries as that number says.
pub load_harvest_from_fd-stored :
    {W : Type 0} (digits : ℕ → Bytes) (x : XmlLibrary W) (parsed : Option (List Event × Option ℕ))
    (b b' : IndexBuilder) (should : Bool) (copy_depth : ℕ) {status : Option ℕ} {n : ℕ}
    → load_harvest_from_fd digits x parsed b should copy_depth ≡ some (some b', status, n)
    → stored b'.formula_db % u64_mod ≡ (stored b.formula_db + n) % u64_mod
unfolding load_harvest_from_fd
load_harvest_from_fd-stored digits x parsed b b' should copy_depth loaded =
    let before = stored b.formula_db in
    process_harvest_from_fd-Keeps digits harvest_indexer x (Counted before)
      (process_expression-Counted before) (process_data-Counted before) parsed (some b) should
      copy_depth
      (λ c same.
        let e : c ≡ b = cc in
        subst (λ z. stored z.formula_db % u64_mod ≡ (before + 0) % u64_mod) (sym e) (omega arith))
      loaded b' refl
