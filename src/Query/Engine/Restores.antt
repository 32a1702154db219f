-- ===== src/Query/Engine/Restores.antt =====
-- The steps of the query engine on a query token leave the stacks and the node as they were, if the
-- calls that they make do.
use mws.Prelude.Bytes.{bytes_eq}
use mws.Prelude.{
  ℕ, zero, suc, ◌+◌, ◌≡◌, ap, sym, ◌∙◌, subst, some, List, [], ◌∷◌, ◌++◌, ◌==◌, get_elem?, length,
  reverse, nat_eq, list_eq, arith, Option-cases, Bool-cases, inl, inr,
}
use mws.Index.EncodedToken.{EncodedToken, encoded_token_is_var, token_bytes}
use mws.Index.Memsector.{Piece, memsector_off_null, memsector_rel_off2addr}
use mws.Index.Memsector.Accessor.{child_off}
use mws.Query.Engine.{
  TokenStack, push_all, token_stack_pop_many, ResultCbReturn, query_continue, QueryCtxt, of_query,
  Outcome, Call, process_token, var_to_index, var_to_stack, inode_get_max_var,
}
use mws.Query.Engine.Process.{
  continue_with, push_query, set_var, process_var, process_stacked, hvar_loop, push_index,
  revert_solved, revert_child, process_regular,
}
use mws.Query.Engine.Undo.{
  push_all-reverse, pop_many_append, SamePlace, continued, push_query-some, push_index-some,
}

module _ {ℓ} {S : Type ℓ} where
  module _ (memory : List Piece) (result_cb : S → ℕ → ℕ → S × ResultCbReturn)
      (rec : Call → QueryCtxt S → Outcome S) (fuel : ℕ)
      (restores : (f : Call) (c c' : QueryCtxt S)
        → rec f c ≡ some (c', query_continue)
        → SamePlace c c') where
    hvar_loop-SamePlace :
        (n hvar_id : ℕ) (c c' : QueryCtxt S)
        → hvar_loop memory result_cb rec fuel n hvar_id c ≡ some (c', query_continue)
        → SamePlace c c'
    unfolding hvar_loop
    hvar_loop-SamePlace zero hvar_id c c' h = record {
      query_same = ground arith;
      index_same = ground arith;
      node_same = ground arith;
    }
    hvar_loop-SamePlace (suc n) hvar_id c c' h =
        let (c1, done, later) =
          continued (rec (var_to_stack of_query) (record c { solving_var_id = hvar_id }))
            (hvar_loop memory result_cb rec fuel n (hvar_id + 1)) h in
        let first =
          restores (var_to_stack of_query) (record c { solving_var_id = hvar_id }) c1 done in
        let rest = hvar_loop-SamePlace n (hvar_id + 1) c1 c' later in
        record {
          query_same = rest.query_same ∙ first.query_same;
          index_same = rest.index_same ∙ first.index_same;
          node_same = rest.node_same ∙ first.node_same;
        }

    -- What is put back, from a context with that stack below.
    revert_child-SamePlace :
        (token : EncodedToken) (curr : ℕ) (c c' : QueryCtxt S)
        → revert_child memory result_cb rec fuel token curr c ≡ some (c', query_continue)
        → SamePlace (record c { query_stack = token ∷ c.query_stack; curr_index_inode = curr }) c'
    unfolding revert_child
    revert_child-SamePlace token curr c c' h =
        let (c1, pushed, hvars) =
          continued (push_query token (record c { curr_index_inode = curr })) _ h in
        let p = push_query-some token (record c { curr_index_inode = curr }) c1 pushed in
        elim (Option-cases (inode_get_max_var memory curr)) [
          | inl stuck ↦ absurd (ground arith)
          | inr (most, vars) ↦
              subst (λ z. SamePlace z c') p (hvar_loop-SamePlace most 0 c1 c' (ground arith))
        ]

    pub process_regular-SamePlace :
        (token : EncodedToken) (c c' : QueryCtxt S)
        → process_regular memory result_cb rec fuel token c ≡ some (c', query_continue)
        → SamePlace (record c { query_stack = token ∷ c.query_stack }) c'
    unfolding process_regular
    process_regular-SamePlace token c c' h =
        let curr = c.curr_index_inode in
        elim (Option-cases (child_off memory curr token)) [
          | inl stuck ↦ absurd (ground arith)
          | inr (off, found) ↦ elim (Bool-cases (off == memsector_off_null)) [
            | inl null ↦
                let p = push_query-some token c c' (ground arith) in
                record { query_same = cc; index_same = cc; node_same = cc }
            | inr child ↦
                let below : QueryCtxt S = record c {
                  curr_index_inode = memsector_rel_off2addr curr off;
                } in
                let revert = revert_child memory result_cb rec fuel token curr in
                let (c1, done, later) = continued (rec process_token below) revert (ground arith) in
                let first = restores process_token below c1 done in
                let rest = revert_child-SamePlace token curr c1 c' later in
                record {
                  query_same = rest.query_same ∙ ap (λ z. token ∷ z) first.query_same;
                  index_same = rest.index_same ∙ first.index_same;
                  node_same = rest.node_same;
                }
          ]
        ]

    revert_solved-SamePlace :
        (token : EncodedToken) (tokens query : List EncodedToken) (c c' : QueryCtxt S)
        → c.query_stack ≡ tokens ++ query
        → revert_solved token (length tokens) c ≡ some (c', query_continue)
        → SamePlace (record c { query_stack = token ∷ query }) c'
    unfolding revert_solved
    revert_solved-SamePlace token tokens query c c' stack h =
        let popped : token_stack_pop_many c.query_stack (length tokens) ≡ some query =
          ap (λ z. token_stack_pop_many z (length tokens)) stack ∙ pop_many_append tokens query in
        let p = push_query-some token (record c { query_stack = query }) c' (ground arith) in
        record { query_same = cc; index_same = cc; node_same = cc }

    pub process_var-SamePlace :
        (token : EncodedToken) (c c' : QueryCtxt S)
        → process_var memory result_cb rec fuel token c ≡ some (c', query_continue)
        → SamePlace (record c { query_stack = token ∷ c.query_stack }) c'
    unfolding process_var
    process_var-SamePlace token c c' h = elim (Option-cases (get_elem? c.vars token.id)) [
      | inl outside ↦ absurd (ground arith)
      | inr (var, there) ↦ elim (Bool-cases var.solved) [
        | inr unsolved ↦
            let begun : QueryCtxt S =
              set_var token.id (record var { tokens = some [] })
                (record c { solving_var_id = token.id }) in
            let (c1, done, later) =
              continued (rec (var_to_index 1) begun) (push_query token) (ground arith) in
            let first = restores (var_to_index 1) begun c1 done in
            let p = push_query-some token c1 c' later in
            record {
              query_same = ap (λ z. z.query_stack) p ∙ ap (λ z. token ∷ z) first.query_same;
              index_same = ap (λ z. z.index_stack) p ∙ first.index_same;
              node_same = ap (λ z. z.curr_index_inode) p ∙ first.node_same;
            }
        | inl solved ↦ elim (Option-cases var.tokens) [
          | inl unset ↦ absurd (ground arith)
          | inr (tokens, set_) ↦ elim (Option-cases (push_all c.query_stack (reverse tokens))) [
            | inl full ↦ absurd (ground arith)
            | inr (query, pushed) ↦
                let on_top = push_all-reverse c.query_stack tokens pushed in
                let begun : QueryCtxt S = record c { query_stack = query } in
                let (c1, done, later) =
                  continued (rec process_token begun) (revert_solved token (length tokens))
                    (ground arith) in
                let first = restores process_token begun c1 done in
                let rest =
                  revert_solved-SamePlace token tokens c.query_stack c1 c'
                    (first.query_same ∙ on_top) later in
                record {
                  query_same = rest.query_same;
                  index_same = rest.index_same ∙ first.index_same;
                  node_same = rest.node_same ∙ first.node_same;
                }
          ]
        ]
      ]
    ]

    pub process_stacked-SamePlace :
        (token top : EncodedToken) (index : TokenStack) (c c' : QueryCtxt S)
        → c.index_stack ≡ top ∷ index
        → process_stacked memory result_cb rec fuel token top index c ≡ some (c', query_continue)
        → SamePlace (record c { query_stack = token ∷ c.query_stack }) c'
    unfolding process_stacked
    process_stacked-SamePlace token top index c c' stack h =
        let popped : QueryCtxt S = record c { index_stack = index } in
        elim (Bool-cases (encoded_token_is_var top)) [
          | inl var ↦
              let next : QueryCtxt S → Outcome S = λ c1.
                continue_with (rec (var_to_stack of_query) (record c1 { solving_var_id = top.id }))
                  (push_index top) in
              let (c1, pushed, later) = continued (push_query token popped) next (ground arith) in
              let (c2, done, last) =
                continued (rec (var_to_stack of_query) (record c1 { solving_var_id = top.id }))
                  (push_index top) later in
              let p = push_query-some token popped c1 pushed in
              let first =
                restores (var_to_stack of_query) (record c1 { solving_var_id = top.id }) c2 done in
              let q = push_index-some top c2 c' last in
              record {
                query_same =
                    ap (λ z. z.query_stack) q ∙ first.query_same ∙ ap (λ z. z.query_stack) p;
                index_same =
                    ap (λ z. z.index_stack) q
                    ∙ ap (λ z. top ∷ z) (first.index_same ∙ ap (λ z. z.index_stack) p)
                    ∙ sym stack;
                node_same =
                    ap (λ z. z.curr_index_inode) q
                    ∙ first.node_same
                    ∙ ap (λ z. z.curr_index_inode) p;
              }
          | inr constant ↦ elim (Bool-cases (bytes_eq (token_bytes token) (token_bytes top))) [
            | inr differs ↦
                let (c1, pushed, last) =
                  continued (push_query token popped) (push_index top) (ground arith) in
                let p = push_query-some token popped c1 pushed in
                let q = push_index-some top c1 c' last in
                record {
                  query_same = ap (λ z. z.query_stack) q ∙ ap (λ z. z.query_stack) p;
                  index_same =
                      ap (λ z. z.index_stack) q ∙ ap (λ z. top ∷ z.index_stack) p ∙ sym stack;
                  node_same = ap (λ z. z.curr_index_inode) q ∙ ap (λ z. z.curr_index_inode) p;
                }
            | inl same ↦
                let next : QueryCtxt S → Outcome S =
                  λ c1. continue_with (push_query token c1) (push_index top) in
                let (c1, done, later) = continued (rec process_token popped) next (ground arith) in
                let (c2, pushed, last) = continued (push_query token c1) (push_index top) later in
                let first = restores process_token popped c1 done in
                let p = push_query-some token c1 c2 pushed in
                let q = push_index-some top c2 c' last in
                record {
                  query_same =
                      ap (λ z. z.query_stack) q
                      ∙ ap (λ z. z.query_stack) p
                      ∙ ap (λ z. token ∷ z) first.query_same;
                  index_same =
                      ap (λ z. z.index_stack) q
                      ∙ ap (λ z. top ∷ z) (ap (λ z. z.index_stack) p ∙ first.index_same)
                      ∙ sym stack;
                  node_same =
                      ap (λ z. z.curr_index_inode) q
                      ∙ ap (λ z. z.curr_index_inode) p
                      ∙ first.node_same;
                }
          ]
        ]
