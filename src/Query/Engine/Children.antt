-- ===== src/Query/Engine/Children.antt =====
-- Matching a variable to the index leaves the stacks and the node of the query engine as they were.
use mws.Prelude.{
  ℕ, zero, suc, ◌+◌, ◌-◌, ◌≡◌, refl, ap, sym, ◌∙◌, true, some, List, [], ◌∷◌, ltb, if◌then◌else◌,
  get_elem?, take, length, nat_eq, list_eq, arith, Option-cases, inl, inr,
}
use mws.Index.Memsector.{Piece, memsector_rel_off2addr}
use mws.Index.Memsector.Accessor.{node_size, node_entry}
use mws.Query.Engine.{
  TokenStack, ResultCbReturn, query_continue, QueryCtxt, of_index, Outcome, Call, process_token,
  var_to_index, var_to_stack, finished, self_reference, no_solution, resolve,
}
use mws.Query.Engine.Process.{continue_with, set_var, unsolve, revert_leaf, revert_index}
use mws.Query.Engine.Match.{children_loop, match_var_to_index}
use mws.Query.Engine.Undo.{unsolve-SamePlace, SamePlace, continued}

module _ {ℓ} {S : Type ℓ} where
  module _ (memory : List Piece) (result_cb : S → ℕ → ℕ → S × ResultCbReturn)
      (rec : Call → QueryCtxt S → Outcome S) (fuel : ℕ)
      (restores : (f : Call) (c c' : QueryCtxt S)
        → rec f c ≡ some (c', query_continue)
        → SamePlace c c') where
    -- One child, when the loop over those after it leaves all as it was.
    child-SamePlace :
        (var_id pushed further : ℕ) (next : QueryCtxt S → Outcome S) (begun c c' : QueryCtxt S)
        → ((c2 : QueryCtxt S) → next c2 ≡ some (c', query_continue) → SamePlace c2 c')
        → begun.query_stack ≡ c.query_stack
        → begun.index_stack ≡ c.index_stack
        → continue_with
            (rec (var_to_index further) begun)
            (revert_index var_id pushed c.curr_index_inode next)
          ≡ some (c', query_continue)
        → SamePlace c c'
    unfolding revert_index
    child-SamePlace var_id pushed further next begun c c' rest q i h =
        let curr = c.curr_index_inode in
        let (c1, done, later) =
          continued (rec (var_to_index further) begun) (revert_index var_id pushed curr next) h in
        let first = restores (var_to_index further) begun c1 done in
        elim (Option-cases (get_elem? c1.vars var_id)) [
          | inl outside ↦ absurd (ground arith)
          | inr (var, there) ↦ elim (Option-cases var.tokens) [
            | inl unset ↦ absurd (ground arith)
            | inr (tokens, set_) ↦
                let kept = take (length tokens - pushed) tokens in
                let r =
                  rest
                    (set_var var_id (record var { tokens = some kept })
                      (record c1 { curr_index_inode = curr }))
                    (ground arith) in
                record {
                  query_same = r.query_same ∙ first.query_same ∙ q;
                  index_same = r.index_same ∙ first.index_same ∙ i;
                  node_same = r.node_same;
                }
          ]
        ]

    children_loop-SamePlace :
        (n var_id arity : ℕ) (c c' : QueryCtxt S)
        → children_loop memory result_cb rec fuel n var_id arity c ≡ some (c', query_continue)
        → SamePlace c c'
    unfolding children_loop
    children_loop-SamePlace zero var_id arity c c' h = record {
      query_same = ground arith;
      index_same = ground arith;
      node_same = ground arith;
    }
    children_loop-SamePlace (suc n) var_id arity c c' h =
        let curr = c.curr_index_inode in
        elim (Option-cases (node_entry memory curr 0)) [
          | inl stuck ↦ absurd (ground arith)
          | inr (e, entry) ↦ elim (Option-cases (get_elem? c.vars var_id)) [
            | inl outside ↦ absurd (ground arith)
            | inr (var, there) ↦ elim (Option-cases var.tokens) [
              | inl unset ↦ absurd (ground arith)
              | inr (tokens, set_) ↦
                  elim (Option-cases (resolve fuel c.vars c.solving_var_id (e.0 ∷ []) tokens)) [
                    | inl stuck ↦ absurd (ground arith)
                    | inr ((no_solution, tokens'), resolves) ↦ absurd (ground arith)
                    | inr ((finished, tokens'), resolves) ↦
                        child-SamePlace var_id (length tokens' - length tokens)
                          (arity + e.0.arity - 1)
                          (children_loop memory result_cb rec fuel n var_id arity)
                          (set_var var_id (record var { tokens = some tokens' })
                            (record c { curr_index_inode = memsector_rel_off2addr curr e.1 }))
                          c c' (λ c2 z. children_loop-SamePlace n var_id arity c2 c' z) refl refl
                          (ground arith)
                    | inr ((self_reference, tokens'), resolves) ↦
                        child-SamePlace var_id (length tokens' - length tokens)
                          (arity + e.0.arity - 1)
                          (children_loop memory result_cb rec fuel n var_id arity)
                          (set_var var_id (record var { tokens = some tokens' })
                            (record c { curr_index_inode = memsector_rel_off2addr curr e.1 }))
                          c c' (λ c2 z. children_loop-SamePlace n var_id arity c2 c' z) refl refl
                          (ground arith)
                  ]
            ]
          ]
        ]

    index_from :
        (arity : ℕ) (index : TokenStack) (c c' : QueryCtxt S)
        → c.index_stack ≡ index
        → match_var_to_index memory result_cb rec fuel (suc arity) c ≡ some (c', query_continue)
        → SamePlace c c'
    unfolding match_var_to_index
    index_from arity [] c c' i h = elim (Option-cases (node_size memory c.curr_index_inode)) [
      | inl stuck ↦ absurd (ground arith)
      | inr (size, node) ↦
          children_loop-SamePlace size c.solving_var_id (suc arity) c c' (ground arith)
    ]
    index_from arity (token ∷ index) c c' i h = restores (var_to_stack of_index) c c' (ground arith)

    pub match_var_to_index-SamePlace :
        (arity : ℕ) (c c' : QueryCtxt S)
        → match_var_to_index memory result_cb rec fuel arity c ≡ some (c', query_continue)
        → SamePlace c c'
    unfolding match_var_to_index
    match_var_to_index-SamePlace zero c c' h =
        let id = c.solving_var_id in
        elim (Option-cases (get_elem? c.vars id)) [
          | inl outside ↦ absurd (ground arith)
          | inr (var, there) ↦ elim (Option-cases var.tokens) [
            | inl unset ↦ absurd (ground arith)
            | inr (tokens, set_) ↦
                let now = if ltb 0 (length tokens) then record var { solved = true } else var in
                let went_on : continue_with (rec process_token (set_var id now c)) (revert_leaf id)
                    ≡ some (c', query_continue) =
                  ground arith in
                let (c1, done, later) =
                  continued (rec process_token (set_var id now c)) (revert_leaf id) went_on in
                let first = restores process_token (set_var id now c) c1 done in
                let u = unsolve-SamePlace id (record c1 { solving_var_id = id }) in
                let last : unsolve id (record c1 { solving_var_id = id }) ≡ c' = ground arith in
                record {
                  query_same = ap (λ z. z.query_stack) (sym last) ∙ u.query_same ∙ first.query_same;
                  index_same = ap (λ z. z.index_stack) (sym last) ∙ u.index_same ∙ first.index_same;
                  node_same =
                      ap (λ z. z.curr_index_inode) (sym last) ∙ u.node_same ∙ first.node_same;
                }
          ]
        ]
    match_var_to_index-SamePlace (suc arity) c c' h = index_from arity c.index_stack c c' refl h
