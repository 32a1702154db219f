-- ===== src/Query/Engine/Process.antt =====
-- `process_query_token` of src/mws/query/engine.c, and the steps back of all its functions. The
-- calls that a function makes are a parameter.
use mws.Prelude.{
  ℕ, zero, suc, ◌+◌, ◌-◌, false, none, some, List, [], ◌∷◌, ◌==◌, if◌then◌else◌, get_elem?, set,
  take, length, reverse, nat_eq, list_eq,
}
use mws.Prelude.Bytes.{bytes_eq}
use mws.Index.EncodedToken.{EncodedToken, encoded_token_is_var, token_bytes}
use mws.Index.Memsector.{Piece, memsector_off_null, memsector_rel_off2addr}
use mws.Index.Memsector.Accessor.{child_off}
use mws.Query.Engine.{
  VarInstantiation, TokenStack, token_stack_push, push_all, token_stack_pop_many, ResultCbReturn,
  query_continue, query_stop, query_error, QueryCtxt, StackName, of_query, get_stack, set_stack,
  Outcome, Call, process_token, var_to_index, var_to_stack, inode_get_max_var, read_leaf,
}

module _ {ℓ} {S : Type ℓ} where
  -- `if (ret != QUERY_CONTINUE) return ret;`
  abbrev pub continue_with : Outcome S → (QueryCtxt S → Outcome S) → Outcome S
  continue_with none k = none
  continue_with (some (c, query_continue)) k = k c
  continue_with (some (c, query_stop)) k = some (c, query_stop)
  continue_with (some (c, query_error)) k = some (c, query_error)

  abbrev pub push_query : EncodedToken → QueryCtxt S → Outcome S
  push_query token c = elim (token_stack_push c.query_stack token) [
    | none ↦ none
    | some query ↦ some (record c { query_stack = query }, query_continue)
  ]

  abbrev pub push_index : EncodedToken → QueryCtxt S → Outcome S
  push_index token c = elim (token_stack_push c.index_stack token) [
    | none ↦ none
    | some index ↦ some (record c { index_stack = index }, query_continue)
  ]

  -- A write to the variable that a pointer stands for.
  abbrev pub set_var : ℕ → VarInstantiation → QueryCtxt S → QueryCtxt S
  set_var id var c = record c { vars = set c.vars id var }

  abbrev pub unsolve : ℕ → QueryCtxt S → QueryCtxt S
  unsolve id c = elim (get_elem? c.vars id) [
    | none ↦ c
    | some var ↦ set_var id (record var { solved = false }) c
  ]

module _ {ℓ} {S : Type ℓ} where
  -- After the tokens of a solved variable: they are taken off, and the variable is put back.
  unfoldable pub revert_solved : EncodedToken → ℕ → QueryCtxt S → Outcome S
  unfolding token_stack_pop_many token_stack_push
  revert_solved query_token size c = elim (token_stack_pop_many c.query_stack size) [
    | none ↦ none
    | some query ↦ push_query query_token (record c { query_stack = query })
  ]

  -- After the subtree of a leaf that a variable was matched to.
  abbrev pub revert_leaf : ℕ → QueryCtxt S → Outcome S
  revert_leaf var_id c =
      some (unsolve var_id (record c { solving_var_id = var_id }), query_continue)

  -- `revert_index`, with the node to go back to and the rounds to come.
  unfoldable pub revert_index : ℕ → ℕ → ℕ → (QueryCtxt S → Outcome S) → QueryCtxt S → Outcome S
  revert_index var_id pushed_var_tokens curr next c = elim (get_elem? c.vars var_id) [
    | none ↦ none
    | some var ↦ elim var.tokens [
      | none ↦ none
      | some tokens ↦
          let kept = take (length tokens - pushed_var_tokens) tokens in
          next (
            set_var var_id (record var { tokens = some kept })
              (record c { curr_index_inode = curr }))
    ]
  ]

  -- `revert_stack`: the tokens that were popped go back.
  unfoldable pub revert_stack : StackName → ℕ → List EncodedToken → QueryCtxt S → Outcome S
  unfolding push_all
  revert_stack name var_id popped c = elim (push_all (get_stack name c) (reverse popped)) [
    | none ↦ none
    | some stack ↦ some (set_stack name stack (unsolve var_id c), query_continue)
  ]

-- The memory, the callback, the calls to be made, and fuel for the loops over a stack.
module _ {ℓ} {S : Type ℓ} (memory : List Piece) (result_cb : S → ℕ → ℕ → S × ResultCbReturn)
    (rec : Call → QueryCtxt S → Outcome S) (fuel : ℕ) where
  -- The variable query token, already popped.
  unfoldable pub process_var : EncodedToken → QueryCtxt S → Outcome S
  unfolding push_all revert_solved
  process_var query_token c = elim (get_elem? c.vars query_token.id) [
    | none ↦ none
    | some var ↦
        if var.solved
        then elim var.tokens [
          | none ↦ none
          | some tokens ↦ elim (push_all c.query_stack (reverse tokens)) [
            | none ↦ none
            | some query ↦
                continue_with (rec process_token (record c { query_stack = query }))
                  (revert_solved query_token (length tokens))
          ]
        ]
        else continue_with
            (rec (var_to_index 1) (
              set_var query_token.id (record var { tokens = some [] })
                (record c { solving_var_id = query_token.id })))
            (push_query query_token)
  ]

  -- The constant query token, already popped, and the index stack with a token.
  unfoldable pub process_stacked :
      EncodedToken → EncodedToken → TokenStack → QueryCtxt S → Outcome S
  process_stacked query_token index_token index_stack c =
      let popped : QueryCtxt S = record c { index_stack = index_stack } in
      if encoded_token_is_var index_token
      then continue_with (push_query query_token popped) (λ c1.
        continue_with (rec (var_to_stack of_query) (record c1 { solving_var_id = index_token.id }))
          (push_index index_token))
      else if bytes_eq (token_bytes query_token) (token_bytes index_token)
      then continue_with (rec process_token popped)
          (λ c1. continue_with (push_query query_token c1) (push_index index_token))
      else continue_with (push_query query_token popped) (push_index index_token)

  -- The loop over the variables of the harvest, from `hvar_id` on, with so many to come.
  unfoldable pub hvar_loop : ℕ → ℕ → QueryCtxt S → Outcome S
  hvar_loop zero hvar_id c = some (c, query_continue)
  hvar_loop (suc n) hvar_id c =
      continue_with (rec (var_to_stack of_query) (record c { solving_var_id = hvar_id }))
        (hvar_loop n (hvar_id + 1))

  -- After the subtree of a child: the node and the token are put back, and the variables of the
  -- harvest are tried.
  unfoldable pub revert_child : EncodedToken → ℕ → QueryCtxt S → Outcome S
  unfolding hvar_loop token_stack_push
  revert_child query_token curr c =
      continue_with (push_query query_token (record c { curr_index_inode = curr })) (λ c1.
        elim (inode_get_max_var memory curr) [
          | none ↦ none
          | some hvar_id_max ↦ hvar_loop hvar_id_max 0 c1
        ])

  -- The constant query token, already popped, and a node of the index.
  unfoldable pub process_regular : EncodedToken → QueryCtxt S → Outcome S
  unfolding revert_child token_stack_push
  process_regular query_token c =
      let curr = c.curr_index_inode in
      elim (child_off memory curr query_token) [
        | none ↦ none
        | some off ↦
            if off == memsector_off_null
            then push_query query_token c
            else continue_with
                (rec process_token
                  (record c { curr_index_inode = memsector_rel_off2addr curr off }))
                (revert_child query_token curr)
      ]

  unfoldable pub process_query_token : QueryCtxt S → Outcome S
  unfolding process_var process_stacked process_regular
  process_query_token c = elim c.query_stack [
    | [] ↦ elim (read_leaf memory c.curr_index_inode) [
      | none ↦ none
      | some found ↦
          let r = result_cb c.handle found.0 found.1 in some (record c { handle = r.0 }, r.1)
    ]
    | query_token ∷ query ↦
        let popped : QueryCtxt S = record c { query_stack = query } in
        if encoded_token_is_var query_token
        then process_var query_token popped
        else elim c.index_stack [
          | index_token ∷ index ↦ process_stacked query_token index_token index popped
          | [] ↦ process_regular query_token popped
        ]
  ]
