-- ===== src/Query/Engine/Backtracking.antt =====
-- Backtracking in the query engine: whatever the engine does before it goes on, it leaves the
-- stacks and the node as they were.
use mws.Prelude.{
  ℕ, zero, suc, ◌≡◌, refl, sym, ◌∙◌, false, some, List, [], ◌∷◌, nat_eq, list_eq, arith, Bool-cases,
  inl, inr,
}
use mws.Index.EncodedToken.{EncodedToken, encoded_token_is_var}
use mws.Index.Memsector.{Piece}
use mws.Query.Engine.{
  TokenStack, ResultCbReturn, query_continue, QueryCtxt, Outcome, Call, process_token, var_to_index,
  var_to_stack,
}
use mws.Query.Engine.Process.{process_query_token}
use mws.Query.Engine.Match.{call}
use mws.Query.Engine.Undo.{SamePlace}
use mws.Query.Engine.Restores.{
  process_var-SamePlace, process_stacked-SamePlace, process_regular-SamePlace,
}
use mws.Query.Engine.Stacks.{match_var_to_stack-SamePlace}
use mws.Query.Engine.Children.{match_var_to_index-SamePlace}

module _ {ℓ} {S : Type ℓ} where
  module _ (memory : List Piece) (result_cb : S → ℕ → ℕ → S × ResultCbReturn)
      (rec : Call → QueryCtxt S → Outcome S) (fuel : ℕ)
      (restores : (f : Call) (c c' : QueryCtxt S)
        → rec f c ≡ some (c', query_continue)
        → SamePlace c c') where
    process_constant_from :
        (index : TokenStack) (token : EncodedToken) (query : TokenStack) (c c' : QueryCtxt S)
        → c.query_stack ≡ token ∷ query
        → c.index_stack ≡ index
        → encoded_token_is_var token ≡ false
        → process_query_token memory result_cb rec fuel c ≡ some (c', query_continue)
        → SamePlace (record c { query_stack = token ∷ query }) c'
    unfolding process_query_token
    process_constant_from [] token query c c' q i constant h =
        process_regular-SamePlace memory result_cb rec fuel restores token
          (record c { query_stack = query }) c' (ground arith)
    process_constant_from (top ∷ index) token query c c' q i constant h =
        process_stacked-SamePlace memory result_cb rec fuel restores token top index
          (record c { query_stack = query }) c' i (ground arith)

    process_from :
        (query index : TokenStack) (c c' : QueryCtxt S)
        → c.query_stack ≡ query
        → c.index_stack ≡ index
        → process_query_token memory result_cb rec fuel c ≡ some (c', query_continue)
        → SamePlace c c'
    unfolding process_query_token
    process_from [] index c c' q i h = record {
      query_same = ground arith;
      index_same = ground arith;
      node_same = ground arith;
    }
    process_from (token ∷ query) index c c' q i h =
        let popped : QueryCtxt S = record c { query_stack = query } in
        let back : SamePlace (record c { query_stack = token ∷ query }) c' → SamePlace c c' = λ s.
          record {
            query_same = s.query_same ∙ sym q;
            index_same = s.index_same;
            node_same = s.node_same;
          } in
        elim (Bool-cases (encoded_token_is_var token)) [
          | inl var ↦ back (
              process_var-SamePlace memory result_cb rec fuel restores token popped c'
                (ground arith))
          | inr constant ↦ back (process_constant_from index token query c c' q i constant h)
        ]

    process_query_token-SamePlace :
        (c c' : QueryCtxt S)
        → process_query_token memory result_cb rec fuel c ≡ some (c', query_continue)
        → SamePlace c c'
    process_query_token-SamePlace c c' h = process_from c.query_stack c.index_stack c c' refl refl h

-- From every context and with every fuel: when process_query_token, match_var_to_index or
-- match_var_to_stack returns QUERY_CONTINUE, both token stacks and the current node are what they
-- were when it was called.
pub call-SamePlace {ℓ} :
    {S : Type ℓ} (memory : List Piece) (result_cb : S → ℕ → ℕ → S × ResultCbReturn) (fuel : ℕ)
    (f : Call) (c c' : QueryCtxt S)
    → call memory result_cb fuel f c ≡ some (c', query_continue)
    → SamePlace c c'
unfolding call
call-SamePlace memory result_cb zero f c c' h = absurd (cc)
call-SamePlace memory result_cb (suc fuel) process_token c c' h =
    process_query_token-SamePlace memory result_cb (call memory result_cb fuel) fuel
      (call-SamePlace memory result_cb fuel) c c' h
call-SamePlace memory result_cb (suc fuel) (var_to_index arity) c c' h =
    match_var_to_index-SamePlace memory result_cb (call memory result_cb fuel) fuel
      (call-SamePlace memory result_cb fuel) arity c c' h
call-SamePlace memory result_cb (suc fuel) (var_to_stack name) c c' h =
    match_var_to_stack-SamePlace memory result_cb (call memory result_cb fuel) fuel
      (call-SamePlace memory result_cb fuel) name c c' h
