-- ===== src/Query/Schema/Reduce.antt =====
-- The loop of `reduceFormula` cuts a tree off at a depth.
use mws.Prelude.{
  ℕ, suc, ◌+◌, ◌≡◌, refl, sym, ap, ◌∙◌, inl, inr, Bool, false, none, some, List, [], ◌∷◌, ◌++◌,
  arith, append_assoc, append-nil, length, length-append, leb, Bool-cases, ◌==◌, ◌&&◌, not,
  if◌then◌else◌,
}
use mws.Prelude.Bytes.{Bytes}
use mws.Index.EncodedToken.{EncodedToken, EncodedFormula}
use mws.Query.Schema.{is_apply, Unexplored, close_pairs, reduce_formula}
use mws.Query.Schema.Complete.{IsExpecting}
use mws.Query.Schema.Term.{
  Term, node, Terms, no_terms, terms, number_of, flatten, flatten_all, IsTree, AllTree, applies,
  cut_term, cut_terms,
}
use mws.Query.Schema.Rounds.{
  loop, loop_end, round_copies, copied_inner, copied_leaf, close_pairs_more, close_pairs_one,
  cut_terms_kept, loop_skips,
}

module _ (table : List Bytes) (expr : EncodedFormula) (max_depth : ℕ) where
  mutual
    unfolding cut_term

    loop-cut_terms :
        (fuel : ℕ) (first : Bool) (s : Unexplored) (out done post : EncodedFormula) (xs : Terms)
        → expr ≡ done ++ (flatten_all xs ++ post)
        → AllTree table xs
        → IsExpecting (number_of xs)
        → (k : ℕ) × (loop table expr max_depth
              (length (flatten_all xs) + fuel)
              (length done)
              ((number_of xs, first) ∷ s)
              out
            ≡ loop table expr max_depth
                (k + fuel)
                (length (done ++ flatten_all xs))
                (close_pairs s)
                (out ++ cut_terms table max_depth (suc (length s)) first xs))
    loop-cut_terms fuel first s out done post no_terms e h small = absurd (omega (arith, small))
    loop-cut_terms fuel first s out done post (terms x no_terms) e h small =
        elim (Bool-cases (leb max_depth (suc (length s)) && not first)) [
          | inl cut ↦ loop_skips table expr max_depth fuel first s out done post x no_terms e h cut
          | inr kept ↦
              let only = append-nil (flatten x) in
              let tokens = cut_term table max_depth (suc (length s)) x in
              let (k, one) =
                loop-cut_term fuel 1 first s out done post x
                  (e ∙ ap (λ z. done ++ (z ++ post)) only) h.0 kept in
              (
                k,
                ap
                      (λ z.
                        loop table expr max_depth (length z + fuel) (length done) ((1, first) ∷ s)
                          out)
                      only
                    ∙ one
                    ∙ ap
                        (λ z.
                          loop table expr max_depth (k + fuel) (length (done ++ flatten x)) z
                            (out ++ tokens))
                        (close_pairs_one table expr max_depth first s)
                    ∙ ap
                        (λ z.
                          loop table expr max_depth (k + fuel) (length (done ++ z)) (close_pairs s)
                            (out ++ tokens))
                        (sym only)
                    ∙ ap
                        (λ z.
                          loop table expr max_depth (k + fuel)
                            (length (done ++ flatten_all (terms x no_terms))) (close_pairs s)
                            (out ++ z))
                        (sym (
                          cut_terms_kept table expr max_depth (suc (length s)) first x no_terms kept
                          ∙ append-nil tokens)),
              )
        ]
    loop-cut_terms fuel first s out done post (terms x (terms y ys)) e h small =
        elim (Bool-cases (leb max_depth (suc (length s)) && not first)) [
          | inl cut ↦
              loop_skips table expr max_depth fuel first s out done post x (terms y ys) e h cut
          | inr kept ↦
              let fx = flatten x in
              let fy = flatten_all (terms y ys) in
              let m = number_of ys in
              let depth = suc (length s) in
              let tokens = cut_term table max_depth depth x in
              let others = cut_terms table max_depth depth false (terms y ys) in
              let e' : expr ≡ done ++ (fx ++ (fy ++ post)) =
                e ∙ ap (λ z. done ++ z) (append_assoc fx fy post) in
              let (k, one) =
                loop-cut_term (length fy + fuel) (suc (suc m)) first s out done (fy ++ post) x e'
                  h.0 kept in
              let (j, rest) =
                loop-cut_terms (k + fuel) false s (out ++ tokens) (done ++ fx) post (terms y ys)
                  (e' ∙ sym (append_assoc done fx (fy ++ post))) h.1 (omega (arith, small)) in
              (
                j + k,
                ap (λ z. loop table expr max_depth z (length done) ((suc (suc m), first) ∷ s) out)
                      (omega (arith, length-append fx fy))
                    ∙ one
                    ∙ ap
                        (λ z.
                          loop table expr max_depth z (length (done ++ fx))
                            (close_pairs ((suc (suc m), first) ∷ s)) (out ++ tokens))
                        (omega arith)
                    ∙ ap
                        (λ z.
                          loop table expr max_depth (length fy + (k + fuel)) (length (done ++ fx)) z
                            (out ++ tokens))
                        (close_pairs_more table expr max_depth m first s small.1)
                    ∙ rest
                    ∙ ap
                        (λ z.
                          loop table expr max_depth z (length ((done ++ fx) ++ fy)) (close_pairs s)
                            ((out ++ tokens) ++ others))
                        (omega arith)
                    ∙ ap
                        (λ z.
                          loop table expr max_depth ((j + k) + fuel) (length z) (close_pairs s)
                            ((out ++ tokens) ++ others))
                        (append_assoc done fx fy)
                    ∙ ap
                        (loop table expr max_depth ((j + k) + fuel) (length (done ++ (fx ++ fy)))
                          (close_pairs s))
                        (append_assoc out tokens others
                          ∙ ap (λ z. out ++ z)
                              (sym (
                                cut_terms_kept table expr max_depth depth first x (terms y ys)
                                  kept))),
              )
        ]

    loop-cut_term :
        (fuel n : ℕ) (first : Bool) (s : Unexplored) (out done post : EncodedFormula) (x : Term)
        → expr ≡ done ++ (flatten x ++ post)
        → IsTree table x
        → leb max_depth (suc (length s)) && not first ≡ false
        → (k : ℕ) × (loop table expr max_depth
              (length (flatten x) + fuel)
              (length done)
              ((n, first) ∷ s)
              out
            ≡ loop table expr max_depth
                (k + fuel)
                (length (done ++ flatten x))
                (close_pairs ((n, first) ∷ s))
                (out ++ cut_term table max_depth (suc (length s)) x))
    loop-cut_term fuel n first s out done post (node t no_terms) e h kept = (
      0,
      ap (λ z. loop table expr max_depth z (length done) ((n, first) ∷ s) out) (omega arith)
          ∙ round_copies table expr max_depth (0 + fuel) n first s out done post t e kept
              (copied_leaf table expr max_depth t ((n, first) ∷ s) h.0),
    )
    loop-cut_term fuel n first s out done post (node t (terms x xs)) e h kept =
        let m = number_of xs in
        let s' = (n, first) ∷ s in
        let done' = done ++ t ∷ [] in
        let children = flatten_all (terms x xs) in
        let (k, below) =
          loop-cut_terms fuel (applies table t) s' (out ++ t ∷ []) done' post (terms x xs)
            (e ∙ sym (append_assoc done (t ∷ []) (children ++ post))) h.3
            (omega (arith, h.0, h.1.0)) in
        (
          k,
          ap (λ z. loop table expr max_depth z (length done) s' out) (omega arith)
              ∙ round_copies table expr max_depth (length children + fuel) n first s out done
                  (children ++ post) t e kept (copied_inner table expr max_depth t m s' h.0 h.2)
              ∙ below
              ∙ ap
                  (λ z. loop table expr max_depth (k + fuel) z (close_pairs s') (
                    out
                    ++ t ∷ []
                    ++ cut_terms table max_depth (suc (length s')) (applies table t) (terms x xs)))
                  (ap length (append_assoc done (t ∷ []) children))
              ∙ ap
                  (λ z.
                    loop table expr max_depth (k + fuel) (length (done ++ t ∷ children))
                      (close_pairs s') z)
                  (append_assoc out (t ∷ [])
                    (cut_terms table max_depth (suc (length s')) (applies table t) (terms x xs))),
        )

cut_term_node :
    (table : List Bytes) (max_depth depth : ℕ) (t : EncodedToken) (xs : Terms) {flag : Bool}
    → is_apply table t ≡ some flag
    → cut_term table max_depth depth (node t xs) ≡ t ∷ cut_terms table max_depth (suc depth) flag xs
unfolding cut_term
cut_term_node table max_depth depth t xs known =
    ap (λ z. t ∷ cut_terms table max_depth (suc depth) (elim z [ none ↦ false | some b ↦ b ]) xs)
      known

cut_term_leaf :
    (table : List Bytes) (max_depth depth : ℕ) (t : EncodedToken)
    → cut_term table max_depth depth (node t no_terms) ≡ t ∷ []
unfolding cut_term
cut_term_leaf table max_depth depth t = refl

-- For a formula that is a tree, each token with as many children as its arity says, with fields
-- that fit, and known to the decoder: reduceFormula ends, and gives nothing for the depth 0, and
-- otherwise the tree in prefix order without the nodes at the given depth or deeper, the root
-- being at depth 0, but for the first child of an apply, which is kept at any depth, with what
-- the same rule keeps below it.
pub reduce_formula-cut_term :
    (table : List Bytes) (max_depth : ℕ) (x : Term)
    → IsTree table x
    → reduce_formula table (flatten x) max_depth
      ≡ some (if max_depth == 0 then [] else cut_term table max_depth 0 x)
unfolding reduce_formula
reduce_formula-cut_term table max_depth (node t no_terms) h = elim (Bool-cases (max_depth == 0)) [
  | inl nothing ↦ rw nothing refl
  | inr some_depth ↦
      let known = h.2.1 in
      rw (some_depth, known)
        (loop_end table (t ∷ []) max_depth 0 ((t.arity, h.2.0) ∷ []) (t ∷ [])
          ∙ ap some (sym (cut_term_leaf table max_depth 0 t)))
]
reduce_formula-cut_term table max_depth (node t (terms x xs)) h =
    elim (Bool-cases (max_depth == 0)) [
      | inl nothing ↦ rw nothing refl
      | inr some_depth ↦
          let (flag, known) = h.2 in
          let children = flatten_all (terms x xs) in
          let (k, run) =
            loop-cut_terms table (t ∷ children) max_depth 0 flag [] (t ∷ []) (t ∷ []) []
              (terms x xs) (ap (λ z. t ∷ z) (sym (append-nil children))) h.3
              (omega (arith, h.0, h.1.0)) in
          let start : loop table (t ∷ children) max_depth (length children) 1
                ((suc (number_of xs), flag) ∷ []) (t ∷ [])
              ≡ some (t ∷ cut_terms table max_depth 1 flag (terms x xs)) =
            ap
              (λ z.
                loop table (t ∷ children) max_depth z 1 ((suc (number_of xs), flag) ∷ []) (t ∷ []))
              (omega arith)
            ∙ run
            ∙ loop_end table (t ∷ children) max_depth (k + 0) (close_pairs [])
                (t ∷ cut_terms table max_depth 1 flag (terms x xs)) in
          let whole = cut_term_node table max_depth 0 t (terms x xs) known in
          rw (some_depth, known)
            (ap
                (λ z.
                  loop table (t ∷ children) max_depth (length children) 1 ((z, flag) ∷ []) (t ∷ []))
                h.0
              ∙ start
              ∙ ap some (sym whole))
    ]
