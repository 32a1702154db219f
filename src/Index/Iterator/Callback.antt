-- ===== src/Index/Iterator/Callback.antt =====
-- src/mws/index/CallbackIndexIterator.hpp over IndexIterator.hpp and TmpIndexAccessor: the iterator
-- with its callbacks, which pass a state on; `none` is a failed assertion, or a read through an
-- iterator at the end. The loop that completes an expression goes down the tree.
use mws.Prelude.{ℕ, zero, suc, ◌+◌, ◌-◌, ◌==◌, if◌then◌else◌, Option, none, some, List, [], ◌∷◌}
use mws.Index.TmpIndex.{TmpIndexNode, inner, leaf, nil, cons, to_vector}
use mws.Index.Iterator.{ContainerIterator, get_node}

-- `_onPush` and `_onPop`
pub record Callbacks (S : Type 0) : Type 0 where
  pub on_push : ContainerIterator → S → Option S
  pub on_pop : ContainerIterator → S → Option S

-- The members of the iterator, its back in front, and the state of the callbacks.
pub record Progress (S : Type 0) : Type 0 where
  pub backtrack : List ContainerIterator
  pub arity : ℕ
  pub state : S

module _ {S : Type 0} (cb : Callbacks S) where
  -- `_push` of the children of the node on top, while expressions are open.
  unfoldable pub complete : TmpIndexNode → List ContainerIterator → ℕ → S → Option (Progress S)
  complete n stack zero s = some (record { backtrack = stack; arity = 0; state = s })
  complete (inner nil) stack (suc k) s = none
  complete (leaf id solutions nil) stack (suc k) s = none
  complete (inner (cons t m rest)) stack (suc k) s =
      elim (cb.on_push (to_vector (cons t m rest)) s) [
        | none ↦ none
        | some s' ↦ complete m (to_vector (cons t m rest) ∷ stack) (k + t.arity) s'
      ]
  complete (leaf id solutions (cons t m rest)) stack (suc k) s =
      elim (cb.on_push (to_vector (cons t m rest)) s) [
        | none ↦ none
        | some s' ↦ complete m (to_vector (cons t m rest) ∷ stack) (k + t.arity) s'
      ]

  -- The loop of `_pop`, then `_next`: `onPop` comes before the arity is set, `onPush` after.
  unfoldable pub advance : List ContainerIterator → ℕ → S → Option (Progress S)
  advance [] arity s =
      if arity == 1 then some (record { backtrack = []; arity = arity; state = s }) else none
  advance ([] ∷ cs) arity s = none
  advance (((t, n) ∷ []) ∷ cs) arity s = elim (cb.on_pop ((t, n) ∷ []) s) [
    | none ↦ none
    | some s' ↦ advance cs (arity + 1 - t.arity) s'
  ]
  advance (((t, n) ∷ (u, m) ∷ rest) ∷ cs) arity s = elim (cb.on_pop ((t, n) ∷ (u, m) ∷ rest) s) [
    | none ↦ none
    | some s' ↦ elim (cb.on_push ((u, m) ∷ rest) s') [
      | none ↦ none
      | some s'' ↦ some (record {
        backtrack = ((u, m) ∷ rest) ∷ cs;
        arity = arity + u.arity - t.arity;
        state = s'';
      })
    ]
  ]

  -- `while (it.next() != nullptr) continue;` once there are iterators, on fuel.
  unfoldable pub drain : ℕ → Progress S → Option S
  drain zero p = none
  drain (suc fuel) p = elim (advance p.backtrack p.arity p.state) [
    | none ↦ none
    | some moved ↦ elim moved.backtrack [
      | [] ↦ some moved.state
      | c ∷ cs ↦ elim (get_node c) [
        | none ↦ none
        | some n ↦ elim (complete n (c ∷ cs) moved.arity moved.state) [
          | none ↦ none
          | some q ↦ drain fuel q
        ]
      ]
    ]
  ]

  -- The loop from a new iterator on, whose first round pushes the children of the root. The root
  -- of an empty index is read through an iterator at the end.
  unfoldable pub iterate : ℕ → TmpIndexNode → S → Option S
  unfolding complete drain
  iterate fuel root s = elim (complete root [] 1 s) [ none ↦ none | some q ↦ drain fuel q ]
