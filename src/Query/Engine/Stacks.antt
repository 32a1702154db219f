-- ===== src/Query/Engine/Stacks.antt =====
-- Matching a variable to a stack leaves the stacks and the node of the query engine as they were.
use mws.Prelude.{
  ℕ, ◌≡◌, refl, ap, sym, ◌∙◌, true, false, some, List, ◌++◌, get_elem?, reverse, nat_eq, list_eq,
  arith, Option-cases, inl, inr,
}
use mws.Index.Memsector.{Piece}
use mws.Query.Engine.{
  VarInstantiation, TokenStack, push_all, ResultCbReturn, query_continue, QueryCtxt, StackName,
  of_query, of_index, get_stack, set_stack, Outcome, Call, process_token, pop_expression, finished,
  self_reference, no_solution, resolve,
}
use mws.Query.Engine.Process.{continue_with, set_var, unsolve, revert_stack}
use mws.Query.Engine.Match.{match_var_to_stack}
use mws.Query.Engine.Undo.{
  unsolve-SamePlace, push_all-reverse, pop_expression_lem, SamePlace, continued,
}

module _ {ℓ} {S : Type ℓ} where
  module _ (memory : List Piece) (result_cb : S → ℕ → ℕ → S × ResultCbReturn)
      (rec : Call → QueryCtxt S → Outcome S) (fuel : ℕ)
      (restores : (f : Call) (c c' : QueryCtxt S)
        → rec f c ≡ some (c', query_continue)
        → SamePlace c c') where
    -- Reverting a stack puts the popped tokens back, and reverting an index node the node.
    revert_stack-SamePlace :
        (name : StackName) (var_id : ℕ) (popped left : TokenStack) (c c1 c' : QueryCtxt S)
        → SamePlace (set_stack name left c) c1
        → popped ++ left ≡ get_stack name c
        → revert_stack name var_id popped c1 ≡ some (c', query_continue)
        → SamePlace c c'
    unfolding revert_stack
    revert_stack-SamePlace of_query var_id popped left c c1 c' s whole h =
        elim (Option-cases (push_all c1.query_stack (reverse popped))) [
          | inl full ↦ absurd (ground arith)
          | inr (stack, pushed) ↦
              let u = unsolve-SamePlace var_id c1 in
              let is : stack ≡ c.query_stack =
                push_all-reverse c1.query_stack popped pushed
                ∙ ap (λ z. popped ++ z) s.query_same
                ∙ whole in
              let last : record (unsolve var_id c1) { query_stack = stack } ≡ c' = ground arith in
              record {
                query_same = ap (λ z. z.query_stack) (sym last) ∙ is;
                index_same = ap (λ z. z.index_stack) (sym last) ∙ u.index_same ∙ s.index_same;
                node_same = ap (λ z. z.curr_index_inode) (sym last) ∙ u.node_same ∙ s.node_same;
              }
        ]
    revert_stack-SamePlace of_index var_id popped left c c1 c' s whole h =
        elim (Option-cases (push_all c1.index_stack (reverse popped))) [
          | inl full ↦ absurd (ground arith)
          | inr (stack, pushed) ↦
              let u = unsolve-SamePlace var_id c1 in
              let is : stack ≡ c.index_stack =
                push_all-reverse c1.index_stack popped pushed
                ∙ ap (λ z. popped ++ z) s.index_same
                ∙ whole in
              let last : record (unsolve var_id c1) { index_stack = stack } ≡ c' = ground arith in
              record {
                query_same = ap (λ z. z.query_stack) (sym last) ∙ u.query_same ∙ s.query_same;
                index_same = ap (λ z. z.index_stack) (sym last) ∙ is;
                node_same = ap (λ z. z.curr_index_inode) (sym last) ∙ u.node_same ∙ s.node_same;
              }
        ]

    -- A variable that is matched to what was popped, with a new value and the stack without it.
    matched-SamePlace :
        (name : StackName) (var_id : ℕ) (var : VarInstantiation) (popped left : TokenStack)
        (c c' : QueryCtxt S)
        → popped ++ left ≡ get_stack name c
        → continue_with
            (rec process_token (set_var var_id var (set_stack name left c)))
            (revert_stack name var_id popped)
          ≡ some (c', query_continue)
        → SamePlace c c'
    matched-SamePlace name var_id var popped left c c' whole h =
        let begun = set_var var_id var (set_stack name left c) in
        let (c1, done, later) =
          continued (rec process_token begun) (revert_stack name var_id popped) h in
        let first = restores process_token begun c1 done in
        revert_stack-SamePlace name var_id popped left c c1 c'
          (record {
            query_same = first.query_same;
            index_same = first.index_same;
            node_same = first.node_same;
          })
          whole later

    pub match_var_to_stack-SamePlace :
        (name : StackName) (c c' : QueryCtxt S)
        → match_var_to_stack memory result_cb rec fuel name c ≡ some (c', query_continue)
        → SamePlace c c'
    unfolding match_var_to_stack
    match_var_to_stack-SamePlace name c c' h =
        let id = c.solving_var_id in
        elim (Option-cases (pop_expression 1 (get_stack name c))) [
          | inl short ↦ absurd (ground arith)
          | inr ((popped, left), split) ↦ elim (Option-cases (get_elem? c.vars id)) [
            | inl outside ↦ absurd (ground arith)
            | inr (var, there) ↦ elim (Option-cases var.tokens) [
              | inl unset ↦ absurd (ground arith)
              | inr (tokens, set_) ↦
                  let whole = pop_expression_lem 1 (get_stack name c) popped left split in
                  elim (Option-cases (resolve fuel c.vars id popped tokens)) [
                    | inl stuck ↦ absurd (ground arith)
                    | inr ((finished, tokens'), resolves) ↦
                        matched-SamePlace name id (record { solved = true; tokens = some tokens' })
                          popped left c c' whole (ground arith)
                    | inr ((self_reference, tokens'), resolves) ↦
                        matched-SamePlace name id (record { solved = false; tokens = some tokens' })
                          popped left c c' whole (ground arith)
                    | inr ((no_solution, tokens'), resolves) ↦
                        let saved : VarInstantiation = record var { tokens = some tokens' } in
                        revert_stack-SamePlace name id popped left c
                          (set_var id saved (set_stack name left c)) c'
                          (record { query_same = refl; index_same = refl; node_same = refl }) whole
                          (ground arith)
                  ]
            ]
          ]
        ]
