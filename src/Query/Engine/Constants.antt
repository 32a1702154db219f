-- ===== src/Query/Engine/Constants.antt =====
-- A query of constants in the query engine follows the tokens with getChild of IndexAccessor.
use mws.Prelude.{
  ℕ, zero, suc, ◌+◌, ◌≤◌, ◌<◌, ◌≡◌, refl, ap, sym, ◌∙◌, subst, Bool, true, false, Option, none,
  some, List, [], ◌∷◌, ◌==◌, length, replicate, nat_eq, arith, Option-cases, Bool-cases, inl, inr,
  All,
}
use mws.Index.EncodedToken.{EncodedToken, EncodedFormula, encoded_token_is_var, var_id_max}
use mws.Index.Memsector.{Piece, memsector_off_null, memsector_rel_off2addr}
use mws.Index.Memsector.Accessor.{child_off, get_child}
use mws.Index.Export.Walk.{walk_file}
use mws.Query.Engine.{
  token_stack_push, ResultCbReturn, query_continue, query_stop, query_error, QueryCtxt, Outcome,
  Call, process_token, inode_get_max_var, read_leaf, max_query_stack_size,
}
use mws.Query.Engine.Process.{hvar_loop, revert_child, process_regular, process_query_token}
use mws.Query.Engine.Match.{call, query_ctxt_init, query_engine_run}
use mws.Query.Engine.Backtracking.{call-SamePlace}

-- No node on the path of a formula has variables of the harvest.
unfoldable pub has_no_vars : EncodedFormula → List Piece → ℕ → Bool
has_no_vars [] memory node = true
has_no_vars (t ∷ rest) memory node = elim (inode_get_max_var memory node) [
  | some zero ↦ elim (get_child memory node t) [
    | some (some child) ↦ has_no_vars rest memory child
    | _ ↦ true
  ]
  | _ ↦ false
]

-- What the caller sees: the handle and the result.
abbrev pub visible {ℓ} : {S : Type ℓ} → Outcome S → Option (S × ResultCbReturn)
visible none = none
visible (some (c, r)) = some (c.handle, r)

module _ {ℓ} {S : Type ℓ} (memory : List Piece) (result_cb : S → ℕ → ℕ → S × ResultCbReturn) where
  -- The leaf at the end of the path is reported, if there is one.
  unfoldable pub report : EncodedFormula → ℕ → S → Option (S × ResultCbReturn)
  report query root handle = elim (walk_file query memory root) [
    | none ↦ none
    | some none ↦ some (handle, query_continue)
    | some (some node) ↦ elim (read_leaf memory node) [
      | none ↦ none
      | some found ↦ some (result_cb handle found.0 found.1)
    ]
  ]

  revert_child-visible :
      (rec : Call → QueryCtxt S → Outcome S) (fuel : ℕ) (token : EncodedToken) (curr : ℕ)
      (c : QueryCtxt S)
      → length c.query_stack < max_query_stack_size
      → inode_get_max_var memory curr ≡ some 0
      → visible (revert_child memory result_cb rec fuel token curr c)
        ≡ some (c.handle, query_continue)
  unfolding revert_child token_stack_push hvar_loop
  revert_child-visible rec fuel token curr c room vars = ground arith

  report-none :
      (t : EncodedToken) (rest : EncodedFormula) (root : ℕ) (handle : S)
      → child_off memory root t ≡ none
      → report (t ∷ rest) root handle ≡ none
  unfolding report walk_file get_child
  report-none t rest root handle h = ground arith

  report-null :
      (t : EncodedToken) (rest : EncodedFormula) (root off : ℕ) (handle : S)
      → child_off memory root t ≡ some off
      → (off == memsector_off_null) ≡ true
      → report (t ∷ rest) root handle ≡ some (handle, query_continue)
  unfolding report walk_file get_child
  report-null t rest root off handle h null = ground arith

  report-child :
      (t : EncodedToken) (rest : EncodedFormula) (root off : ℕ) (handle : S)
      → child_off memory root t ≡ some off
      → (off == memsector_off_null) ≡ false
      → report (t ∷ rest) root handle ≡ report rest (memsector_rel_off2addr root off) handle
  unfolding report walk_file get_child
  report-child t rest root off handle h null = ground arith

  abbrev initial : ℕ → EncodedFormula → S → QueryCtxt S
  initial root query handle = record {
    query_stack = query;
    curr_index_inode = root;
    index_stack = [];
    vars = replicate var_id_max (record { solved = false; tokens = none });
    solving_var_id = 0;
    handle = handle;
  }

  call-leaf :
      (n : ℕ) (c : QueryCtxt S)
      → c.query_stack ≡ []
      → visible (call memory result_cb (suc n) process_token c)
        ≡ report [] c.curr_index_inode c.handle
  unfolding call process_query_token report walk_file
  call-leaf n c q = ground arith

  call-regular :
      (n : ℕ) (t : EncodedToken) (query : EncodedFormula) (c : QueryCtxt S)
      → c.query_stack ≡ t ∷ query
      → c.index_stack ≡ []
      → encoded_token_is_var t ≡ false
      → call memory result_cb (suc n) process_token c
        ≡ process_regular memory result_cb
            (call memory result_cb n)
            n
            t
            (record c { query_stack = query })
  unfolding call process_query_token
  call-regular n t query c q i constant = ground arith

  regular-none :
      (n : ℕ) (t : EncodedToken) (c : QueryCtxt S)
      → child_off memory c.curr_index_inode t ≡ none
      → visible (process_regular memory result_cb (call memory result_cb n) n t c) ≡ none
  unfolding process_regular
  regular-none n t c h = ground arith

  regular-null :
      (n off : ℕ) (t : EncodedToken) (c : QueryCtxt S)
      → child_off memory c.curr_index_inode t ≡ some off
      → (off == memsector_off_null) ≡ true
      → length c.query_stack < max_query_stack_size
      → visible (process_regular memory result_cb (call memory result_cb n) n t c)
        ≡ some (c.handle, query_continue)
  unfolding process_regular token_stack_push
  regular-null n off t c h null room = ground arith

  -- Through a child, when what is below it is known.
  regular-child :
      (n off : ℕ) (t : EncodedToken) (c : QueryCtxt S)
      → child_off memory c.curr_index_inode t ≡ some off
      → (off == memsector_off_null) ≡ false
      → length c.query_stack < max_query_stack_size
      → inode_get_max_var memory c.curr_index_inode ≡ some 0
      → visible (process_regular memory result_cb (call memory result_cb n) n t c)
        ≡ visible (
            call memory result_cb n process_token
              (record c { curr_index_inode = memsector_rel_off2addr c.curr_index_inode off }))
  unfolding process_regular
  regular-child n off t c found child room vars =
      let below : QueryCtxt S = record c {
        curr_index_inode = memsector_rel_off2addr c.curr_index_inode off;
      } in
      elim (Option-cases (call memory result_cb n process_token below)) [
        | inl stuck ↦ ground arith
        | inr ((c1, query_stop), done) ↦ ground arith
        | inr ((c1, query_error), done) ↦ ground arith
        | inr ((c1, query_continue), done) ↦
            let same = call-SamePlace memory result_cb n process_token below c1 done in
            let room1 : length c1.query_stack < max_query_stack_size =
              subst (λ z. length z < max_query_stack_size) (sym same.query_same) room in
            let last =
              revert_child-visible (call memory result_cb n) n t c.curr_index_inode c1 room1 vars in
            ground arith
      ]

  max_var_zero :
      (t : EncodedToken) (rest : EncodedFormula) (node : ℕ)
      → has_no_vars (t ∷ rest) memory node ≡ true
      → inode_get_max_var memory node ≡ some 0
  unfolding has_no_vars
  max_var_zero t rest node h = ground arith

  has_no_vars_below :
      (t : EncodedToken) (rest : EncodedFormula) (node off : ℕ)
      → has_no_vars (t ∷ rest) memory node ≡ true
      → child_off memory node t ≡ some off
      → (off == memsector_off_null) ≡ false
      → has_no_vars rest memory (memsector_rel_off2addr node off) ≡ true
  unfolding has_no_vars get_child
  has_no_vars_below t rest node off h found child = ground arith

  call-report :
      (query : EncodedFormula) (fuel : ℕ) (c : QueryCtxt S)
      → c.query_stack ≡ query
      → c.index_stack ≡ []
      → length query ≤ max_query_stack_size
      → All (λ (t : EncodedToken). encoded_token_is_var t ≡ false) query
      → has_no_vars query memory c.curr_index_inode ≡ true
      → visible (call memory result_cb (length query + suc fuel) process_token c)
        ≡ report query c.curr_index_inode c.handle
  call-report [] fuel c q i room constants vars =
      let e : 0 + suc fuel ≡ suc fuel = omega arith in rw e (call-leaf fuel c q)
  call-report (t ∷ query) fuel c q i room constants vars =
      let e : suc (length query) + suc fuel ≡ suc (length query + suc fuel) = omega arith in
      let n = length query + suc fuel in
      let popped : QueryCtxt S = record c { query_stack = query } in
      let curr = c.curr_index_inode in
      ap (λ z. visible (call memory result_cb z process_token c)) e
      ∙ ap visible (call-regular n t query c q i constants.0)
      ∙ elim (Option-cases (child_off memory curr t)) [
        | inl stuck ↦ regular-none n t popped stuck ∙ sym (report-none t query curr c.handle stuck)
        | inr (off, found) ↦ elim (Bool-cases (off == memsector_off_null)) [
          | inl null ↦
              regular-null n off t popped found null (omega arith)
              ∙ sym (report-null t query curr off c.handle found null)
          | inr child ↦
              regular-child n off t popped found child (omega arith)
                (max_var_zero t query curr vars)
              ∙ call-report query fuel
                  (record popped { curr_index_inode = memsector_rel_off2addr curr off }) refl i
                  (omega arith) constants.1 (has_no_vars_below t query curr off vars found child)
              ∙ sym (report-child t query curr off c.handle found child)
        ]
      ]

  -- For a query of at most 512 constant tokens and a memory sector where no node on the path of
  -- the query has an entry for a variable: with a fuel of one more than the number of tokens,
  -- or more, query_engine_run calls the callback on the leaf that following the tokens with
  -- getChild of IndexAccessor reaches, and returns what it returns; if a child is missing it
  -- calls nothing and returns QUERY_CONTINUE; and it is undefined only where following the
  -- tokens, or reading the leaf, is.
  pub query_engine_run-report :
      (query : EncodedFormula) (fuel root : ℕ) (handle : S)
      → length query ≤ max_query_stack_size
      → All (λ (t : EncodedToken). encoded_token_is_var t ≡ false) query
      → has_no_vars query memory root ≡ true
      → visible (query_engine_run memory result_cb (length query + suc fuel) root query handle)
        ≡ report query root handle
  unfolding query_engine_run query_ctxt_init
  query_engine_run-report query fuel root handle room constants vars =
      let c : QueryCtxt S = initial root query handle in
      let starts : query_engine_run memory result_cb (length query + suc fuel) root query handle
          ≡ call memory result_cb (length query + suc fuel) process_token c =
        ground arith in
      ap visible starts ∙ call-report query fuel c refl refl room constants vars
