-- ===== src/Query/Engine/Undo.antt =====
-- What the steps back of the query engine put back: stacks, and the place in the index.
use mws.Prelude.{
  ℕ, zero, suc, ◌+◌, ◌≡◌, refl, ap, sym, ◌∙◌, none, some, List, [], ◌∷◌, ◌++◌, get_elem?, length,
  reverse, nat_eq, list_eq, arith, Option-cases, inl, inr, append_assoc,
}
use mathlib.Core.List.{reverse-cons, reverse-reverse}
use mws.Index.EncodedToken.{EncodedToken}
use mws.Query.Engine.{
  TokenStack, token_stack_push, push_all, token_stack_pop_many, query_continue, query_stop,
  query_error, QueryCtxt, Outcome, pop_expression,
}
use mws.Query.Engine.Process.{continue_with, push_query, unsolve, push_index}

pub push_all_lem :
    (stack : TokenStack) (tokens : List EncodedToken) {stack' : TokenStack}
    → push_all stack tokens ≡ some stack'
    → stack' ≡ reverse tokens ++ stack
unfolding push_all token_stack_push
push_all_lem stack [] h = ground arith
push_all_lem stack (token ∷ tokens) h =
    let rest : push_all (token ∷ stack) tokens ≡ some _ = ground arith in
    push_all_lem (token ∷ stack) tokens rest
    ∙ sym (append_assoc (reverse tokens) (token ∷ []) stack)
    ∙ ap (λ z. z ++ stack) (sym (reverse-cons token tokens))

-- The tokens of a list, pushed from its end, are on top of the stack.
pub push_all-reverse :
    (stack : TokenStack) (tokens : List EncodedToken) {stack' : TokenStack}
    → push_all stack (reverse tokens) ≡ some stack'
    → stack' ≡ tokens ++ stack
push_all-reverse stack tokens h =
    push_all_lem stack (reverse tokens) h ∙ ap (λ z. z ++ stack) (reverse-reverse tokens)

pub pop_many_append :
    (tokens : List EncodedToken) (stack : TokenStack)
    → token_stack_pop_many (tokens ++ stack) (length tokens) ≡ some stack
unfolding token_stack_pop_many
pop_many_append [] stack = refl
pop_many_append (token ∷ tokens) stack = pop_many_append tokens stack

pub pop_expression_lem :
    (arity : ℕ) (stack popped left : TokenStack)
    → pop_expression arity stack ≡ some (popped, left)
    → popped ++ left ≡ stack
unfolding pop_expression
pop_expression_lem zero stack popped left h = ground arith
pop_expression_lem (suc arity) [] popped left h = absurd (cc)
pop_expression_lem (suc arity) (token ∷ stack) popped left h =
    elim (Option-cases (pop_expression (arity + token.arity) stack)) [
      | inl stuck ↦ absurd (ground arith)
      | inr ((more, rest), done) ↦
          ground (arith, pop_expression_lem (arity + token.arity) stack more rest done)
    ]

module _ {ℓ} {S : Type ℓ} where
  -- The same stacks and the same node.
  pub record SamePlace (c c' : QueryCtxt S) : Type ℓ where
    pub query_same : c'.query_stack ≡ c.query_stack
    pub index_same : c'.index_stack ≡ c.index_stack
    pub node_same : c'.curr_index_inode ≡ c.curr_index_inode

  pub SamePlace-trans : {a b c : QueryCtxt S} → SamePlace a b → SamePlace b c → SamePlace a c
  SamePlace-trans p q = record {
    query_same = q.query_same ∙ p.query_same;
    index_same = q.index_same ∙ p.index_same;
    node_same = q.node_same ∙ p.node_same;
  }

  -- When the engine goes on in the end, it went on in between.
  pub continued :
      (o : Outcome S) (k : QueryCtxt S → Outcome S) {c' : QueryCtxt S}
      → continue_with o k ≡ some (c', query_continue)
      → (c1 : QueryCtxt S) × (o ≡ some (c1, query_continue)) × (k c1 ≡ some (c', query_continue))
  continued none k h = absurd (cc)
  continued (some (c, query_continue)) k h = (c, refl, h)
  continued (some (c, query_stop)) k h = absurd (ground arith)
  continued (some (c, query_error)) k h = absurd (ground arith)

  pub push_query-some :
      (token : EncodedToken) (c c' : QueryCtxt S)
      → push_query token c ≡ some (c', query_continue)
      → c' ≡ record c { query_stack = token ∷ c.query_stack }
  unfolding token_stack_push
  push_query-some token c c' h = ground arith

  pub push_index-some :
      (token : EncodedToken) (c c' : QueryCtxt S)
      → push_index token c ≡ some (c', query_continue)
      → c' ≡ record c { index_stack = token ∷ c.index_stack }
  unfolding token_stack_push
  push_index-some token c c' h = ground arith

  -- A variable that is set, or no longer solved, changes neither a stack nor the node.
  pub unsolve-SamePlace : (id : ℕ) (c : QueryCtxt S) → SamePlace c (unsolve id c)
  unsolve-SamePlace id c = elim (Option-cases (get_elem? c.vars id)) [
    | inl outside ↦ record {
      query_same = ground arith;
      index_same = ground arith;
      node_same = ground arith;
    }
    | inr (var, there) ↦ record {
      query_same = ground arith;
      index_same = ground arith;
      node_same = ground arith;
    }
  ]
