-- ===== src/Query/Engine.antt =====
-- src/mws/query/engine.c: the query engine in C, over the nodes of a memory sector. A stack is the
-- list of its tokens from the top down. The callback with its handle is a parameter: a function on
-- a state. `none` is a failed assertion, a read or write out of an array, a read of a variable that
-- was never set, or an end of the fuel.
pub mod Process
pub mod Match
pub mod Stacks
pub mod Children
pub mod Undo
pub mod Restores
pub mod Backtracking
pub mod Constants
use mws.Prelude.{
  ℕ, zero, suc, ◌+◌, ◌-◌, ◌&&◌, Bool, true, false, Option, none, some, List, [], ◌∷◌, ◌++◌, ◌==◌,
  leb, ltb, if◌then◌else◌, get_elem?, set, take, length, reverse, replicate, map, nat_eq, list_eq,
}
use mws.Prelude.Bytes.{bytes_eq}
use mws.Index.EncodedToken.{
  EncodedToken, EncodedFormula, encoded_token_is_var, token_bytes, var_id_max,
}
use mws.Index.Memsector.{
  Piece, inode_head, inode_long_head, entry, entry_long, leaf, read_at, memsector_off_null,
  memsector_rel_off2addr,
}
use mws.Index.Memsector.Accessor.{node_size, node_entry, child_off}

abbrev pub max_var_instantiation_size : ℕ
max_var_instantiation_size = 256

abbrev pub max_query_stack_size : ℕ
max_query_stack_size = 512

-- var_instantiation_t: the first `num_tokens` of the tokens, `none` before `num_tokens` is set.
pub record VarInstantiation : Type 0 where
  pub solved : Bool
  pub tokens : Option (List EncodedToken)

abbrev pub TokenStack : Type 0
TokenStack = List EncodedToken

-- token_stack_push, and a sequence of them.
unfoldable pub token_stack_push : TokenStack → EncodedToken → Option TokenStack
token_stack_push stack token =
    if ltb (length stack) max_query_stack_size then some (token ∷ stack) else none

unfoldable pub push_all : TokenStack → List EncodedToken → Option TokenStack
unfolding token_stack_push
push_all stack [] = some stack
push_all stack (token ∷ rest) = elim (token_stack_push stack token) [
  | none ↦ none
  | some stack' ↦ push_all stack' rest
]

-- token_stack_pop_many
unfoldable pub token_stack_pop_many : TokenStack → ℕ → Option TokenStack
token_stack_pop_many stack zero = some stack
token_stack_pop_many [] (suc to_pop) = none
token_stack_pop_many (token ∷ stack) (suc to_pop) = token_stack_pop_many stack to_pop

pub data ResultCbReturn : Type 0 where
  query_continue query_stop query_error : ResultCbReturn

-- query_ctxt_t without the memory and the callback; the handle's state is last.
pub record QueryCtxt {ℓ} (S : Type ℓ) : Type ℓ where
  pub query_stack : TokenStack
  pub curr_index_inode : ℕ
  pub index_stack : TokenStack
  pub vars : List VarInstantiation
  pub solving_var_id : ℕ
  pub handle : S

-- The two stacks of the context.
pub data StackName : Type 0 where
  of_query of_index : StackName

abbrev pub get_stack {ℓ} : {S : Type ℓ} → StackName → QueryCtxt S → TokenStack
get_stack of_query c = c.query_stack
get_stack of_index c = c.index_stack

abbrev pub set_stack {ℓ} : {S : Type ℓ} → StackName → TokenStack → QueryCtxt S → QueryCtxt S
set_stack of_query stack c = record c { query_stack = stack }
set_stack of_index stack c = record c { index_stack = stack }

abbrev pub Outcome {ℓ} : Type ℓ → Type ℓ
Outcome S = Option (QueryCtxt S × ResultCbReturn)

-- The calls among the functions of the engine. `solving_var_id` is in the context.
pub data Call : Type 0 where
  process_token : Call
  var_to_index : ℕ → Call
  var_to_stack : StackName → Call

-- The loop that moves one whole expression off the stack: the tokens in the order of the pops, and
-- what is left. `arity` is an `int` that stays at 0 or above.
unfoldable pub pop_expression : ℕ → TokenStack → Option (List EncodedToken × TokenStack)
pop_expression zero stack = some ([], stack)
pop_expression (suc arity) [] = none
pop_expression (suc arity) (token ∷ stack) = elim (pop_expression (arity + token.arity) stack) [
  | none ↦ none
  | some popped ↦ some (token ∷ popped.0, popped.1)
]

-- How the loop that resolves solved variables ends: with the stack empty, by `break`, or by `goto`.
pub data Resolved : Type 0 where
  finished self_reference no_solution : Resolved

-- The loop over `var_stack`, which appends to the tokens of the variable that is being solved; its
-- second result has these tokens.
unfoldable pub resolve :
    ℕ
    → List VarInstantiation
    → ℕ
    → TokenStack
    → List EncodedToken
    → Option (Resolved × List EncodedToken)
unfolding push_all
resolve fuel vars solving_var_id [] tokens = some (finished, tokens)
resolve zero vars solving_var_id (token ∷ stack) tokens = none
resolve (suc fuel) vars solving_var_id (token ∷ stack) tokens =
    let save =
      if ltb (length tokens) max_var_instantiation_size
      then resolve fuel vars solving_var_id stack (tokens ++ token ∷ [])
      else none in
    if encoded_token_is_var token
    then (if token.id == solving_var_id
        then some (
          if length stack == 0 && length tokens == 0 then self_reference else no_solution,
          tokens,
        )
        else elim (get_elem? vars token.id) [
          | none ↦ none
          | some var ↦
              if var.solved
              then elim var.tokens [
                | none ↦ none
                | some solved ↦ elim (push_all stack (reverse solved)) [
                  | none ↦ none
                  | some stack' ↦ resolve fuel vars solving_var_id stack' tokens
                ]
              ]
              else save
        ])
    else save

-- inode_get_max_var reads the entries as those of an inode_t: of an inode_long_t only the first
-- token is where it is read, and behind the node is none.
unfoldable pub max_var_loop : List Piece → ℕ → Option ℕ
max_var_loop (entry token off ∷ rest) i =
    if leb token.id var_id_max then max_var_loop rest (i + 1) else some i
max_var_loop (entry_long token off ∷ rest) i = if leb token.id var_id_max then none else some i
max_var_loop (inode_head size ∷ rest) i = none
max_var_loop (inode_long_head size ∷ rest) i = none
max_var_loop (leaf num_hits formula_id ∷ rest) i = none
max_var_loop [] i = none

unfoldable pub inode_get_max_var : List Piece → ℕ → Option ℕ
unfolding max_var_loop
inode_get_max_var memory node = elim (read_at memory node) [
  | some (inode_head size ∷ data_) ↦ max_var_loop data_ 0
  | some (inode_long_head size ∷ data_) ↦ max_var_loop data_ 0
  | _ ↦ none
]

-- The leaf that is reported.
unfoldable pub read_leaf : List Piece → ℕ → Option (ℕ × ℕ)
read_leaf memory node = elim (read_at memory node) [
  | some (leaf num_hits formula_id ∷ rest) ↦ some (num_hits, formula_id)
  | _ ↦ none
]
