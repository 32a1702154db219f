-- ===== src/Query/Schema/Rounds.antt =====
-- The rounds of the loop of `reduceFormula`: a token is copied, or what a node expects is skipped.
use mws.Prelude.{
  ℕ, zero, suc, ◌+◌, ◌<◌, ◌≡◌, refl, sym, ap, ◌∙◌, Bool, true, false, Option, none, some, List, [],
  ◌∷◌, ◌++◌, arith, append-nil, length, length-append, get_elem?, leb, ltb, ◌&&◌, not,
}
use mws.Prelude.Bytes.{Bytes}
use mws.Index.EncodedToken.{EncodedToken, EncodedFormula}
use mws.Query.Schema.{Unexplored, close_pairs, copied, complete_many, reduce_loop}
use mws.Query.Schema.Term.{
  Term, node, Terms, terms, number_of, flatten_all, AllTree, IsDecodable, applies, cut_term,
  cut_terms, complete_many-flatten_all,
}

get_elem?-next :
    (done : EncodedFormula) (t : EncodedToken) (rest : EncodedFormula)
    → get_elem? (done ++ t ∷ rest) (length done) ≡ some t
get_elem?-next [] t rest = refl
get_elem?-next (u ∷ done) t rest = get_elem?-next done t rest

get_elem?-end : (done : EncodedFormula) → get_elem? done (length done) ≡ none
get_elem?-end [] = refl
get_elem?-end (u ∷ done) = get_elem?-end done

module _ (table : List Bytes) (expr : EncodedFormula) (max_depth : ℕ) where
  abbrev pub loop : ℕ → ℕ → Unexplored → EncodedFormula → Option EncodedFormula
  loop = reduce_loop table expr max_depth

  -- Past the last token the loop ends, whatever the stack holds.
  pub loop_end :
      (fuel : ℕ) (s : Unexplored) (out : EncodedFormula) → loop fuel (length expr) s out ≡ some out
  unfolding reduce_loop
  loop_end zero s out = let end : ltb (length expr) (length expr) ≡ false = ground arith in rw end
  loop_end (suc fuel) s out = rw (get_elem?-end expr, reduce_loop)

  -- A round that copies a token, and one that skips what the node on top expects.
  pub round_copies :
      (fuel n : ℕ) (first : Bool) (s : Unexplored) (out done rest : EncodedFormula)
      (t : EncodedToken) {s' : Unexplored}
      → expr ≡ done ++ t ∷ rest
      → leb max_depth (suc (length s)) && not first ≡ false
      → copied table t ((n, first) ∷ s) ≡ some s'
      → loop (suc fuel) (length done) ((n, first) ∷ s) out
        ≡ loop fuel (length (done ++ t ∷ [])) s' (out ++ t ∷ [])
  unfolding reduce_loop
  round_copies fuel n first s out done rest t {s'} e kept c =
      let here : get_elem? expr (length done) ≡ some t =
        ap (λ z. get_elem? z (length done)) e ∙ get_elem?-next done t rest in
      rw (here, reduce_loop, kept, c)
        (ap (λ z. loop fuel z s' (out ++ t ∷ [])) (sym (length-append done (t ∷ []))))

  pub round_skips :
      (fuel n : ℕ) (first : Bool) (s : Unexplored) (out done rest : EncodedFormula)
      (t : EncodedToken) {next : ℕ}
      → expr ≡ done ++ t ∷ rest
      → leb max_depth (suc (length s)) && not first ≡ true
      → complete_many expr n (length done) ≡ some next
      → loop (suc fuel) (length done) ((n, first) ∷ s) out ≡ loop fuel next (close_pairs s) out
  unfolding reduce_loop
  round_skips fuel n first s out done rest t e cut c =
      let here : get_elem? expr (length done) ≡ some t =
        ap (λ z. get_elem? z (length done)) e ∙ get_elem?-next done t rest in
      rw (here, reduce_loop, cut, c) refl

  pub copied_inner :
      (t : EncodedToken) (m : ℕ) (s : Unexplored)
      → t.arity ≡ suc m
      → IsDecodable table t
      → copied table t s ≡ some ((suc m, applies table t) ∷ s)
  unfolding copied
  copied_inner t m s a d = let known = d.1 in ground (arith, known)

  pub copied_leaf :
      (t : EncodedToken) (s : Unexplored) → t.arity ≡ 0 → copied table t s ≡ some (close_pairs s)
  unfolding copied
  copied_leaf t s a = rw a refl

  pub close_pairs_more :
      (m : ℕ) (first : Bool) (s : Unexplored)
      → suc (suc m) < 256
      → close_pairs ((suc (suc m), first) ∷ s) ≡ (suc m, false) ∷ s
  unfolding close_pairs
  close_pairs_more m first s small = ground arith

  pub close_pairs_one :
      (first : Bool) (s : Unexplored) → close_pairs ((1, first) ∷ s) ≡ close_pairs s
  unfolding close_pairs
  close_pairs_one first s = refl

  pub cut_terms_cut :
      (depth : ℕ) (first : Bool) (x : Term) (xs : Terms)
      → leb max_depth depth && not first ≡ true
      → cut_terms table max_depth depth first (terms x xs) ≡ []
  unfolding cut_terms
  cut_terms_cut depth first x xs cut = rw cut refl

  pub cut_terms_kept :
      (depth : ℕ) (first : Bool) (x : Term) (xs : Terms)
      → leb max_depth depth && not first ≡ false
      → cut_terms table max_depth depth first (terms x xs)
        ≡ cut_term table max_depth depth x ++ cut_terms table max_depth depth false xs
  unfolding cut_terms
  cut_terms_kept depth first x xs kept = rw kept refl

  -- The children that are left of a node, at the depth.
  pub loop_skips :
      (fuel : ℕ) (first : Bool) (s : Unexplored) (out done post : EncodedFormula) (x : Term)
      (xs : Terms)
      → expr ≡ done ++ (flatten_all (terms x xs) ++ post)
      → AllTree table (terms x xs)
      → leb max_depth (suc (length s)) && not first ≡ true
      → (k : ℕ) × (loop
            (length (flatten_all (terms x xs)) + fuel)
            (length done)
            ((number_of (terms x xs), first) ∷ s)
            out
          ≡ loop
              (k + fuel)
              (length (done ++ flatten_all (terms x xs)))
              (close_pairs s)
              (out ++ cut_terms table max_depth (suc (length s)) first (terms x xs)))
  loop_skips fuel first s out done post (node t ts) xs e h cut =
      let more = flatten_all ts ++ flatten_all xs in
      let n = suc (number_of xs) in
      let k = length more in
      (
        k,
        ap (λ z. loop z (length done) ((n, first) ∷ s) out) (omega arith)
            ∙ round_skips (k + fuel) n first s out done (more ++ post) t e cut
                (complete_many-flatten_all table expr done (terms (node t ts) xs) post e h)
            ∙ ap (λ z. loop (k + fuel) z (close_pairs s) out) (sym (length-append done (t ∷ more)))
            ∙ ap (loop (k + fuel) (length (done ++ t ∷ more)) (close_pairs s)) (
                sym (append-nil out)
                ∙ ap (λ z. out ++ z)
                    (sym (cut_terms_cut (suc (length s)) first (node t ts) xs cut))),
      )
