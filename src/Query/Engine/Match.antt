-- ===== src/Query/Engine/Match.antt =====
-- The matching of a variable in src/mws/query/engine.c, and the engine: `call` ties its functions on
-- fuel.
use mws.Prelude.{
  ℕ, zero, suc, ◌+◌, ◌-◌, true, false, Option, none, some, List, [], ◌∷◌, leb, ltb, if◌then◌else◌,
  get_elem?, length, replicate, nat_eq, list_eq,
}
use mws.Index.EncodedToken.{EncodedFormula, var_id_max}
use mws.Index.Memsector.{Piece, memsector_rel_off2addr}
use mws.Index.Memsector.Accessor.{node_size, node_entry}
use mws.Query.Engine.{
  ResultCbReturn, query_continue, QueryCtxt, StackName, of_index, get_stack, set_stack, Outcome,
  Call, process_token, var_to_index, var_to_stack, pop_expression, finished, self_reference,
  no_solution, resolve, max_query_stack_size,
}
use mws.Query.Engine.Process.{
  continue_with, set_var, revert_leaf, revert_index, revert_stack, process_query_token,
}

-- The memory, the callback, the calls to be made, and fuel for the loops over a stack.
module _ {ℓ} {S : Type ℓ} (memory : List Piece) (result_cb : S → ℕ → ℕ → S × ResultCbReturn)
    (rec : Call → QueryCtxt S → Outcome S) (fuel : ℕ) where
  -- The loop over the children in `match_var_to_index`, with so many rounds to come, for the
  -- variable with the id `var_id`: `data` is not advanced, so each round has the first entry. After
  -- `goto` the node to go back to is not set.
  unfoldable pub children_loop : ℕ → ℕ → ℕ → QueryCtxt S → Outcome S
  unfolding revert_index
  children_loop zero var_id arity c = some (c, query_continue)
  children_loop (suc n) var_id arity c =
      let curr = c.curr_index_inode in
      elim (node_entry memory curr 0) [
        | none ↦ none
        | some e ↦ elim (get_elem? c.vars var_id) [
          | none ↦ none
          | some var ↦ elim var.tokens [
            | none ↦ none
            | some tokens ↦ elim (resolve fuel c.vars c.solving_var_id (e.0 ∷ []) tokens) [
              | none ↦ none
              | some (no_solution, tokens') ↦ none
              | some (_, tokens') ↦
                  let pushed = length tokens' - length tokens in
                  continue_with
                    (rec (var_to_index (arity + e.0.arity - 1)) (
                      set_var var_id (record var { tokens = some tokens' })
                        (record c { curr_index_inode = memsector_rel_off2addr curr e.1 })))
                    (revert_index var_id pushed curr (children_loop n var_id arity))
            ]
          ]
        ]
      ]

  unfoldable pub match_var_to_index : ℕ → QueryCtxt S → Outcome S
  unfolding children_loop
  match_var_to_index zero c =
      let var_id = c.solving_var_id in
      elim (get_elem? c.vars var_id) [
        | none ↦ none
        | some var ↦ elim var.tokens [
          | none ↦ none
          | some tokens ↦
              let now = if ltb 0 (length tokens) then record var { solved = true } else var in
              continue_with (rec process_token (set_var var_id now c)) (revert_leaf var_id)
        ]
      ]
  match_var_to_index (suc arity) c = elim c.index_stack [
    | token ∷ index ↦ rec (var_to_stack of_index) c
    | [] ↦ elim (node_size memory c.curr_index_inode) [
      | none ↦ none
      | some size ↦ children_loop size c.solving_var_id (suc arity) c
    ]
  ]

  unfoldable pub match_var_to_stack : StackName → QueryCtxt S → Outcome S
  unfolding revert_stack
  match_var_to_stack name c =
      let var_id = c.solving_var_id in
      elim (pop_expression 1 (get_stack name c)) [
        | none ↦ none
        | some (popped, left) ↦ elim (get_elem? c.vars var_id) [
          | none ↦ none
          | some var ↦ elim var.tokens [
            | none ↦ none
            | some tokens ↦ elim (resolve fuel c.vars var_id popped tokens) [
              | none ↦ none
              | some (how, tokens') ↦
                  let c1 = set_stack name left c in
                  let saved = record var { tokens = some tokens' } in
                  elim how [
                    | no_solution ↦ revert_stack name var_id popped (set_var var_id saved c1)
                    | finished ↦
                        continue_with
                          (rec process_token (set_var var_id (record saved { solved = true }) c1))
                          (revert_stack name var_id popped)
                    | self_reference ↦
                        continue_with
                          (rec process_token (set_var var_id (record saved { solved = false }) c1))
                          (revert_stack name var_id popped)
                  ]
            ]
          ]
        ]
      ]

module _ {ℓ} {S : Type ℓ} (memory : List Piece) (result_cb : S → ℕ → ℕ → S × ResultCbReturn) where
  unfoldable pub call : ℕ → Call → QueryCtxt S → Outcome S
  unfolding process_query_token match_var_to_index match_var_to_stack
  call zero f c = none
  call (suc fuel) process_token c = process_query_token memory result_cb (call fuel) fuel c
  call (suc fuel) (var_to_index arity) c =
      match_var_to_index memory result_cb (call fuel) fuel arity c
  call (suc fuel) (var_to_stack name) c =
      match_var_to_stack memory result_cb (call fuel) fuel name c

  -- `query_ctxt_init`; `none` is a query that is longer than the stack.
  unfoldable pub query_ctxt_init : ℕ → EncodedFormula → S → Option (QueryCtxt S)
  query_ctxt_init root query handle =
      if leb (length query) max_query_stack_size
      then some (record {
        query_stack = query;
        curr_index_inode = root;
        index_stack = [];
        vars = replicate var_id_max (record { solved = false; tokens = none });
        solving_var_id = 0;
        handle = handle;
      })
      else none

  unfoldable pub query_engine_run : ℕ → ℕ → EncodedFormula → S → Outcome S
  unfolding call query_ctxt_init
  query_engine_run fuel root query handle = elim (query_ctxt_init root query handle) [
    | none ↦ none
    | some c ↦ call fuel process_token c
  ]
