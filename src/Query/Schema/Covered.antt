-- ===== src/Query/Schema/Covered.antt =====
-- The schemata of `getSchemata`: every formula belongs to one of them, and the largest come first.
use mws.Prelude.{
  ℕ, suc, ◌+◌, ◌%◌, ◌<◌, ◌≤◌, ◌≡◌, refl, ap, sym, ◌∙◌, subst, some, List, [], ◌∷◌, length, ltb, leb,
  ◌==◌, ◌&&◌, if◌then◌else◌, arith, All, Option-cases, inl, inr,
}
use mws.Prelude.Bits.{u32_mod}
use mws.Prelude.Bytes.{Bytes}
use mws.Types.CmmlToken.{CmmlToken}
use mws.Index.EncodedToken.{EncodedFormula}
use mws.Query.Schema.{unhash_expr}
use mws.Query.Schema.Decode.{decode_formula}
use mws.Query.Schema.Schemata.{
  CutoffHeuristic, ExprSchema, SchemaAnswset, Groups, add_to_group, set_cutoff, cutoff_of, next_of,
  hash_of, group_formulae, sort_groups, cut_groups, make_schemata, get_schemata,
}
use mws.Query.Schema.Groups.{
  occurs, occurs_all, occurs_all-add_to_group, occurs_all-sort_groups, length-sort_groups, IsSorted,
  sort_groups-IsSorted, cut_groups-IsSorted, length-cut_groups, length-cut_groups-le,
}

-- How often a formula is in some schemata.
abbrev pub occurrences : ℕ → List ExprSchema → ℕ
occurrences k [] = 0
occurrences k (s ∷ rest) = occurs k s.formulae + occurrences k rest

-- The schemata are in descending order of their coverages.
abbrev pub IsDescending : List ExprSchema → Type 0
IsDescending [] = Unit
IsDescending (s ∷ rest) = All (λ (r : ExprSchema). r.coverage ≤ s.coverage) rest × IsDescending rest

-- What the schemata keep of the groups.
record Kept (groups : Groups) (schemata : List ExprSchema) : Type 0 where
  same_length : length schemata ≡ length groups
  same_occurrences : (k : ℕ) → occurrences k schemata ≡ occurs_all k groups
  same_order : IsSorted groups → IsDescending schemata
  same_sizes :
      (most : ℕ)
      → All (λ (h : Bytes × List ℕ). length h.1 ≤ most) groups
      → All (λ (r : ExprSchema). r.coverage ≤ most) schemata

make_schemata-Kept :
    (table : List Bytes) (cutoffs : List (Bytes × ℕ)) (groups : Groups) {schemata : List ExprSchema}
    → make_schemata table cutoffs groups ≡ some schemata
    → Kept groups schemata
unfolding make_schemata
make_schemata-Kept table cutoffs [] h =
    let none_left : [] ≡ _ = ground arith in
    subst (Kept []) none_left (record {
      same_length = refl;
      same_occurrences = λ k. refl;
      same_order = λ s. tt;
      same_sizes = λ most a. tt;
    })
make_schemata-Kept table cutoffs ((hash, formulae) ∷ rest) {schemata} h =
    elim (Option-cases (unhash_expr hash)) [
      | inl bad ↦ absurd (ground arith)
      | inr (expr, hashed) ↦
          elim (Option-cases (decode_formula table expr (cutoff_of hash cutoffs))) [
            | inl bad ↦ absurd (ground arith)
            | inr (root, decoded) ↦ elim (Option-cases (make_schemata table cutoffs rest)) [
              | inl bad ↦ absurd (ground arith)
              | inr (more, made) ↦
                  let kept = make_schemata-Kept table cutoffs rest made in
                  let first : ExprSchema = record {
                    root = root;
                    coverage = length formulae;
                    formulae = formulae;
                    subst_ = [];
                  } in
                  let whole : first ∷ more ≡ schemata = ground arith in
                  subst (Kept ((hash, formulae) ∷ rest)) whole (record {
                    same_length = ap suc kept.same_length;
                    same_occurrences =
                        λ k. ap (λ z. occurs k formulae + z) (kept.same_occurrences k);
                    same_order = λ s. (kept.same_sizes (length formulae) s.0, kept.same_order s.1);
                    same_sizes = λ most a. (a.0, kept.same_sizes most a.1);
                  })
            ]
          ]
    ]

-- Whether a formula is among so many from an index on.
abbrev among : ℕ → ℕ → ℕ → ℕ
among k i n = if leb i k && ltb k (i + n) then 1 else 0

module _ (percent : ℕ → ℕ → ℕ) (heuristic : CutoffHeuristic) (table : List Bytes) (depth : ℕ) where
  occurs_all-group_formulae :
      (k i : ℕ) (formulae : List EncodedFormula) (tokens : List CmmlToken) (groups : Groups)
      (cutoffs : List (Bytes × ℕ)) {groups' : Groups} {cutoffs' : List (Bytes × ℕ)}
      → i + length formulae ≤ u32_mod
      → group_formulae percent heuristic table depth i formulae tokens groups cutoffs
        ≡ some (groups', cutoffs')
      → occurs_all k groups' ≡ occurs_all k groups + among k i (length formulae)
  unfolding group_formulae
  occurs_all-group_formulae k i [] tokens groups cutoffs {groups'} fits h =
      let same : groups ≡ groups' = ground arith in
      let all : occurs_all k groups ≡ occurs_all k groups' = ap (occurs_all k) same in
      ground (arith, all)
  occurs_all-group_formulae k i (expr ∷ formulae) tokens groups cutoffs {groups'} {cutoffs'} fits
        h =
      elim (Option-cases (hash_of percent heuristic table depth expr (next_of tokens).0)) [
        | inl bad ↦ absurd (ground arith)
        | inr ((cutoff, hash), hashed) ↦
            let later : group_formulae percent heuristic table depth (i + 1) formulae
                  (next_of tokens).1 (add_to_group hash (i % u32_mod) groups)
                  (set_cutoff hash cutoff cutoffs)
                ≡ some (groups', cutoffs') =
              ground arith in
            let rest =
              occurs_all-group_formulae k (i + 1) formulae (next_of tokens).1
                (add_to_group hash (i % u32_mod) groups) (set_cutoff hash cutoff cutoffs)
                (omega arith) later in
            let added = occurs_all-add_to_group k (i % u32_mod) hash groups in
            let exact : i % u32_mod ≡ i = omega arith in
            let added' : occurs_all k (add_to_group hash (i % u32_mod) groups)
                ≡ occurs_all k groups + (if i == k then 1 else 0) =
              added ∙ ap (λ z. occurs_all k groups + (if z == k then 1 else 0)) exact in
            ground (arith, rest, added')
      ]

  -- When fewer than 2^32 formulas are schematized without a limit on the number of schemata, each
  -- formula belongs to exactly one schema, once, the coverages descend, and the total is the
  -- number of schemata.
  pub get_schemata-occurrences :
      (formulae : List EncodedFormula) (tokens : List CmmlToken) (k : ℕ) {r : SchemaAnswset}
      → length formulae ≤ u32_mod
      → k < length formulae
      → get_schemata percent heuristic table formulae tokens 0 depth ≡ some r
      → (occurrences k r.schemata ≡ 1) × IsDescending r.schemata × (r.total ≡ length r.schemata)
  unfolding get_schemata
  get_schemata-occurrences formulae tokens k {r} fits below h =
      elim (Option-cases (group_formulae percent heuristic table depth 0 formulae tokens [] [])) [
        | inl bad ↦ absurd (ground arith)
        | inr ((groups, cutoffs), grouped) ↦
            elim (Option-cases (make_schemata table cutoffs (cut_groups 0 (sort_groups groups)))) [
              | inl bad ↦ absurd (ground arith)
              | inr (schemata, made) ↦
                  let uncut : cut_groups 0 (sort_groups groups) ≡ sort_groups groups =
                    ground arith in
                  let kept =
                    make_schemata-Kept table cutoffs (sort_groups groups)
                      (ap (make_schemata table cutoffs) (sym uncut) ∙ made) in
                  let once =
                    occurs_all-group_formulae k 0 formulae tokens [] [] (omega arith) grouped in
                  let result : record { schemata = schemata; total = length groups } ≡ r =
                    ground arith in
                  subst
                    (λ (z : SchemaAnswset).
                      (occurrences k z.schemata ≡ 1)
                      × IsDescending z.schemata
                      × (z.total ≡ length z.schemata))
                    result
                    (
                      kept.same_occurrences k
                          ∙ occurs_all-sort_groups k groups
                          ∙ ground (arith, once),
                      kept.same_order (sort_groups-IsSorted groups),
                      sym (kept.same_length ∙ length-sort_groups groups),
                    )
            ]
      ]

  -- When getSchemata ends with a result, with a limit above 0 on the number of schemata: there
  -- are no more schemata than the limit allows, nor than the total, and their coverages
  -- descend.
  pub get_schemata-le :
      (formulae : List EncodedFormula) (tokens : List CmmlToken) (max_total : ℕ) {r : SchemaAnswset}
      → 0 < max_total
      → get_schemata percent heuristic table formulae tokens max_total depth ≡ some r
      → (length r.schemata ≤ max_total) × (length r.schemata ≤ r.total) × IsDescending r.schemata
  unfolding get_schemata
  get_schemata-le formulae tokens max_total {r} limit h =
      elim (Option-cases (group_formulae percent heuristic table depth 0 formulae tokens [] [])) [
        | inl bad ↦ absurd (ground arith)
        | inr ((groups, cutoffs), grouped) ↦
            let cut = cut_groups max_total (sort_groups groups) in
            elim (Option-cases (make_schemata table cutoffs cut)) [
              | inl bad ↦ absurd (ground arith)
              | inr (schemata, made) ↦
                  let kept = make_schemata-Kept table cutoffs cut made in
                  let most = length-cut_groups max_total (sort_groups groups) limit in
                  let fewer = length-cut_groups-le max_total (sort_groups groups) in
                  let sorted = length-sort_groups groups in
                  let result : record { schemata = schemata; total = length groups } ≡ r =
                    ground arith in
                  subst
                    (λ (z : SchemaAnswset).
                      (length z.schemata ≤ max_total)
                      × (length z.schemata ≤ z.total)
                      × IsDescending z.schemata)
                    result
                    (
                      omega (arith, kept.same_length, most),
                      omega (arith, kept.same_length, fewer, sorted),
                      kept.same_order (
                          cut_groups-IsSorted max_total (sort_groups groups)
                            (sort_groups-IsSorted groups)),
                    )
            ]
      ]
