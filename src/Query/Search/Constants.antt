-- ===== src/Query/Search/Constants.antt =====
-- The search of a query without variables and ranges.
use mws.Prelude.{
  ℕ, zero, suc, ◌+◌, ◌<◌, ◌≡◌, refl, ap, sym, ◌∙◌, subst, inl, inr, Option-cases, Option, none,
  some, true, false, List, [], ◌∷◌, ◌++◌, arith, All, append-nil, append_assoc, length,
  length-append, get_elem?, ltb,
}
use mws.Index.EncodedToken.{
  EncodedToken, EncodedFormula, encoded_token, encoded_token_is_var, encoded_token_is_range,
}
use mws.Index.TmpIndex.{TmpIndexNode, TmpIndex, get_child, walk}
use mws.Query.Schema.Complete.{IsPacked}
use mws.Query.Context.{
  const_token, NodeTriple, ContextState, start_context, add_token, add_tokens, search_context,
}
use mws.Query.Backtrack.{Setting}
use mws.Query.Search.{
  SearchState, MwsAnswset, again, finished, evaluate, accept, backtrack, retreat, round,
  search_loop, get_result, cut_size, setup,
}

-- A constant whose fields fit.
abbrev pub IsConstant : EncodedToken → Type 0
IsConstant t = (encoded_token_is_var t ≡ false) × (encoded_token_is_range t ≡ false) × IsPacked t

abbrev constant : EncodedToken → NodeTriple
constant t = record { type_ = const_token; meaning_id = t.id; arity = t.arity }

abbrev constants : EncodedFormula → List NodeTriple
constants [] = []
constants (t ∷ f) = constant t ∷ constants f

-- The context after constants.
abbrev plain : List NodeTriple → ℕ → ContextState
plain expr n = record {
  expr = expr;
  backtrack_points = [];
  indexed_qvars = [];
  token_count = n;
  special_count = 0;
}

add_tokens-constants :
    (f : EncodedFormula) (expr : List NodeTriple) (n : ℕ)
    → All IsConstant f
    → add_tokens f (plain expr n) ≡ plain (expr ++ constants f) (n + length f)
unfolding add_tokens add_token
add_tokens-constants [] expr n a = let same : n ≡ n + 0 = omega arith in rw (append-nil, ← same)
add_tokens-constants (t ∷ f) expr n a =
    let same : n + 1 + length f ≡ n + suc (length f) = omega arith in
    rw (a.0.0, a.0.1, ← append_assoc expr (constant t ∷ []) (constants f), ← same)
      (add_tokens-constants f (expr ++ constant t ∷ []) (n + 1) a.1)

length-constants : (f : EncodedFormula) → length (constants f) ≡ length f
length-constants [] = refl
length-constants (t ∷ f) = ap suc (length-constants f)

setup-constants : (f : EncodedFormula) (root : TmpIndexNode) → setup (constants f) [] root ≡ []
unfolding setup
setup-constants [] root = refl
setup-constants (t ∷ f) root = setup-constants f root

packed_token : (t : EncodedToken) → IsPacked t → encoded_token t.id t.arity ≡ t
packed_token t p = ground arith

get_elem?-next :
    (done : List NodeTriple) (t : NodeTriple) (rest : List NodeTriple)
    → get_elem? (done ++ t ∷ rest) (length done) ≡ some t
get_elem?-next [] t rest = refl
get_elem?-next (u ∷ done) t rest = get_elem?-next done t rest

get_elem?-end : (done : List NodeTriple) → get_elem? done (length done) ≡ none
get_elem?-end [] = refl
get_elem?-end (u ∷ done) = get_elem?-end done

-- The state at a token, before any solution.
abbrev pub state_at : ℕ → Option TmpIndexNode → SearchState
state_at i node = record {
  table = [];
  current_token = i;
  found = 0;
  last_solved = 0;
  node = node;
  answers = [];
  ids = [];
}

abbrev pub answset : Option SearchState → Option MwsAnswset
answset none = none
answset (some s) = some (record { answers = s.answers; ids = s.ids; total = s.found })

-- What a search comes to, given the node at the end of the tokens, if there is one.
abbrev pub outcome : Setting → ℕ → ℕ → ℕ → ℕ → Option TmpIndexNode → Option MwsAnswset
outcome setting offset size max_total last none =
    some (record { answers = []; ids = []; total = 0 })
outcome setting offset size max_total last (some node) =
    answset (accept setting offset size max_total (state_at last (some node)))

module _ (setting : Setting) (offset size max_total : ℕ) (expr : List NodeTriple) (count : ℕ)
    (wanted : 0 < max_total) where
  accept_keeps :
      (s s' : SearchState)
      → accept setting offset size max_total s ≡ some s'
      → (s'.last_solved ≡ s.last_solved) × (s'.table ≡ s.table)
  unfolding accept
  accept_keeps s s' h = (ground arith, ground arith)

  retreat-none :
      (s : SearchState)
      → s.last_solved ≡ 0
      → retreat setting [] s ≡ some (finished (record s { last_solved = 0; node = none }))
  unfolding retreat backtrack
  retreat-none s h = rw h

  loop_end :
      (fuel : ℕ) (i : ℕ) (node : TmpIndexNode)
      → get_elem? expr i ≡ none
      → answset (
          search_loop
            (suc fuel)
            setting
            (plain expr count)
            offset
            size
            max_total
            (state_at i (some node)))
        ≡ answset (accept setting offset size max_total (state_at i (some node)))
  unfolding search_loop round
  loop_end fuel i node out =
      let go : ltb 0 max_total ≡ true = ground (arith, wanted) in
      elim (Option-cases (accept setting offset size max_total (state_at i (some node)))) [
        | inl stuck ↦ rw (search_loop, go, round, out, stuck)
        | inr (s, done) ↦ rw (
          search_loop,
          go,
          round,
          out,
          done,
          retreat-none s (accept_keeps (state_at i (some node)) s done).0,
        )
      ]

  round_missing :
      (i : ℕ) (t : EncodedToken) (node : TmpIndexNode)
      → get_elem? expr i ≡ some (constant t)
      → IsPacked t
      → get_child node t ≡ none
      → round setting (plain expr count) offset size max_total (state_at i (some node))
        ≡ some (finished (state_at i none))
  unfolding round evaluate
  round_missing i t node here p missing =
      let go : ltb 0 max_total ≡ true = ground (arith, wanted) in
      let step : get_child node (encoded_token t.id t.arity) ≡ none =
        ap (get_child node) (packed_token t p) ∙ missing in
      rw (go, round, here, evaluate, step, step, retreat-none (state_at i none) refl)

  round_found :
      (i : ℕ) (t : EncodedToken) (node child : TmpIndexNode)
      → get_elem? expr i ≡ some (constant t)
      → IsPacked t
      → get_child node t ≡ some child
      → round setting (plain expr count) offset size max_total (state_at i (some node))
        ≡ some (again (state_at (i + 1) (some child)))
  unfolding round evaluate
  round_found i t node child here p found =
      let go : ltb 0 max_total ≡ true = ground (arith, wanted) in
      let step : get_child node (encoded_token t.id t.arity) ≡ some child =
        ap (get_child node) (packed_token t p) ∙ found in
      rw (go, round, here, evaluate, step, step)

  loop_constants :
      (done : List NodeTriple) (f : EncodedFormula) (fuel : ℕ) (node : TmpIndexNode)
      → done ++ constants f ≡ expr
      → All IsConstant f
      → length f < fuel
      → answset (
          search_loop fuel setting
            (plain expr count)
            offset
            size
            max_total
            (state_at (length done) (some node)))
        ≡ outcome setting offset size max_total (length expr) (walk f node)
  unfolding search_loop walk
  loop_constants done f zero node e a l = absurd (omega arith)
  loop_constants done [] (suc fuel) node e a l =
      let same : done ≡ expr = sym (append-nil done) ∙ e in
      rw same (loop_end fuel (length expr) node (get_elem?-end expr))
  loop_constants done (t ∷ f) (suc fuel) node e a l =
      let here : get_elem? expr (length done) ≡ some (constant t) =
        subst (λ z. get_elem? z (length done) ≡ some (constant t)) e
          (get_elem?-next done (constant t) (constants f)) in
      elim (Option-cases (get_child node t)) [
        | inl missing ↦
            rw (search_loop, round_missing (length done) t node here a.0.2 missing, walk, missing)
        | inr (child, found) ↦
            let more : length (done ++ constant t ∷ []) ≡ length done + 1 =
              length-append done (constant t ∷ []) in
            rw
              (
                search_loop,
                round_found (length done) t node child here a.0.2 found,
                walk,
                found,
                ← more,
              )
              (loop_constants (done ++ constant t ∷ []) f fuel child
                (append_assoc done (constant t ∷ []) (constants f) ∙ e) a.1 (omega arith))
      ]

-- For a query of constants whose fields fit, with at least one result wanted and more fuel than
-- tokens, the search follows the tokens from the root: if they lead to no node it returns no
-- answers and a total of 0, and otherwise what the handling of a solution makes of the node at
-- their end, once.
pub get_result-constants :
    (setting : Setting) (f : EncodedFormula) (index : TmpIndex) (fuel offset size max_total : ℕ)
    → All IsConstant f
    → 0 < max_total
    → length f < fuel
    → get_result fuel setting (search_context f) index offset size max_total
      ≡ outcome setting offset
          (cut_size offset size max_total)
          max_total
          (length f)
          (walk f index.root)
unfolding get_result search_context
get_result-constants setting f index fuel offset size max_total a wanted l =
    let built : add_tokens f start_context ≡ plain (constants f) (0 + length f) =
      add_tokens-constants f [] 0 a in
    let long : length (constants f) ≡ length f = length-constants f in
    rw (built, setup-constants f index.root, ← long, get_result)
      (loop_constants setting offset (cut_size offset size max_total) max_total (constants f)
        (0 + length (constants f)) wanted [] f fuel index.root refl a l)
