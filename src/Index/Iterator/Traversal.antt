-- ===== src/Index/Iterator/Traversal.antt =====
-- The loop over CallbackIndexIterator visits the nodes below the root in depth-first order.
use mws.Prelude.{
  ℕ, zero, suc, ◌+◌, ◌-◌, ◌≡◌, refl, ap, ◌∙◌, ◌≢◌, fun_ext, sym, Option, none, some, List, [], ◌∷◌,
  arith,
}
use mws.Index.EncodedToken.{EncodedToken}
use mws.Index.TmpIndex.{TmpIndexNode, inner, leaf, Children, nil, cons, to_vector}
use mws.Index.Iterator.{ContainerIterator, get_node}
use mws.Index.Iterator.Callback.{Callbacks, Progress, complete, advance, drain, iterate}

-- The trees that complete expressions build: with `open` arguments left the children are some,
-- and each leaves its own arguments open besides the others; without, there are none.
abbrev mutual
  pub IsShaped : ℕ → TmpIndexNode → Type 0
  IsShaped zero (inner c) = ⊥
  IsShaped zero (leaf id solutions nil) = Unit
  IsShaped zero (leaf id solutions (cons t n rest)) = ⊥
  IsShaped (suc k) (inner nil) = ⊥
  IsShaped (suc k) (inner (cons t n rest)) = IsShaped (k + t.arity) n × AllShaped k rest
  IsShaped (suc k) (leaf id solutions c) = ⊥

  pub AllShaped : ℕ → Children → Type 0
  AllShaped k nil = Unit
  AllShaped k (cons t n rest) = IsShaped (k + t.arity) n × AllShaped k rest

-- The leaves below a node but the first, and those below a list of children.
abbrev mutual
  pub moves : TmpIndexNode → ℕ
  moves (inner c) = moves_below c
  moves (leaf id solutions c) = 0

  pub moves_below : Children → ℕ
  moves_below nil = 0
  moves_below (cons t n nil) = moves n
  moves_below (cons t n (cons u m rest)) = moves n + suc (moves_below (cons u m rest))

abbrev pub andthen : {A B : Type 0} → Option A → (A → Option B) → Option B
andthen r f = elim r [ none ↦ none | some a ↦ f a ]

pub andthen_assoc :
    {A B C : Type 0} (r : Option A) (f : A → Option B) (g : B → Option C)
    → andthen (andthen r f) g ≡ andthen r (λ a. andthen (f a) g)
andthen_assoc none f g = refl
andthen_assoc (some a) f g = refl

andthen-some : {A : Type 0} (r : Option A) → andthen r (λ a. some a) ≡ r
andthen-some none = refl
andthen-some (some a) = refl

pub andthen_ext :
    {A B : Type 0} (r : Option A) (f g : A → Option B)
    → ((a : A) → f a ≡ g a)
    → andthen r f ≡ andthen r g
andthen_ext r f g same = ap (andthen r) (fun_ext same)

module _ {S : Type 0} (cb : Callbacks S) where
  -- Each child is pushed, then what is below it visited, then it is popped.
  unfoldable mutual
    pub visit : TmpIndexNode → S → Option S
    visit (inner c) s = visit_all c s
    visit (leaf id solutions c) s = visit_all c s

    pub visit_all : Children → S → Option S
    visit_all nil s = some s
    visit_all (cons t n rest) s = andthen (cb.on_push (to_vector (cons t n rest)) s) (λ s1.
        andthen (visit n s1)
          (λ s2. andthen (cb.on_pop (to_vector (cons t n rest)) s2) (visit_all rest)))

  -- A descent to the first leaf, with the loop behind it.
  abbrev descend : ℕ → TmpIndexNode → List ContainerIterator → ℕ → S → Option S
  descend fuel n stack k s = elim (complete cb n stack k s) [
    | none ↦ none
    | some q ↦ drain cb fuel q
  ]

  abbrev resume : ℕ → List ContainerIterator → ℕ → S → Option S
  resume fuel stack k s = drain cb fuel (record { backtrack = stack; arity = k; state = s })

  -- What a round of the loop does after its move.
  abbrev onwards : ℕ → Progress S → Option S
  onwards fuel moved = elim moved.backtrack [
    | [] ↦ some moved.state
    | c ∷ cs ↦ elim (get_node c) [
      | none ↦ none
      | some n ↦ descend fuel n (c ∷ cs) moved.arity moved.state
    ]
  ]

  -- The push of the first of the children and the descent below it; past the last one the loop
  -- goes on with the parent.
  abbrev enter : ℕ → Children → List ContainerIterator → ℕ → S → Option S
  enter fuel nil stack k s = resume fuel stack (suc k) s
  enter fuel (cons t n rest) stack k s =
      andthen (cb.on_push (to_vector (cons t n rest)) s)
        (descend fuel n (to_vector (cons t n rest) ∷ stack) (k + t.arity))

  visit_all-andthen :
      (t : EncodedToken) (n : TmpIndexNode) (rest : Children) (s : S) (f : S → Option S)
      → andthen (visit_all (cons t n rest) s) f
        ≡ andthen (cb.on_push (to_vector (cons t n rest)) s) (λ s1. andthen (visit n s1) (λ s2.
          andthen (cb.on_pop (to_vector (cons t n rest)) s2) (λ s3. andthen (visit_all rest s3) f)))
  unfolding visit
  visit_all-andthen t n rest s f =
      let c = to_vector (cons t n rest) in
      andthen_assoc (cb.on_push c s) _ f
      ∙ andthen_ext (cb.on_push c s) _ _ (λ s1.
        andthen_assoc (visit n s1) _ f
        ∙ andthen_ext (visit n s1) _ _ (λ s2. andthen_assoc (cb.on_pop c s2) (visit_all rest) f))

  descend-enter :
      (fuel k : ℕ) (c : Children) (stack : List ContainerIterator) (s : S)
      → AllShaped k c
      → c ≢ nil
      → descend fuel (inner c) stack (suc k) s ≡ enter fuel c stack k s
  unfolding complete
  descend-enter fuel k nil stack s shaped some_child = absurd (some_child refl)
  descend-enter fuel k (cons t n rest) stack s shaped some_child =
      andthen_assoc (cb.on_push (to_vector (cons t n rest)) s)
        (complete cb n (to_vector (cons t n rest) ∷ stack) (k + t.arity)) (drain cb fuel)

  -- The move past a child whose nodes are visited.
  move_on :
      (fuel k : ℕ) (t : EncodedToken) (n : TmpIndexNode) (rest : Children)
      (stack : List ContainerIterator) (s : S)
      → resume (suc fuel) (to_vector (cons t n rest) ∷ stack) (k + t.arity) s
        ≡ andthen
            (cb.on_pop (to_vector (cons t n rest)) s)
            (enter (elim rest [ nil ↦ suc fuel | cons u m r ↦ fuel ]) rest stack k)
  unfolding drain advance
  move_on fuel k t n nil stack s =
      andthen_assoc (cb.on_pop ((t, n) ∷ []) s) (advance cb stack (k + t.arity + 1 - t.arity))
        (onwards fuel)
      ∙ ap (λ z. andthen (cb.on_pop ((t, n) ∷ []) s) (resume (suc fuel) stack z)) (omega arith)
  move_on fuel k t n (cons u m r) stack s =
      let c = to_vector (cons u m r) in
      let a = k + t.arity + u.arity - t.arity in
      andthen_assoc (cb.on_pop (to_vector (cons t n (cons u m r))) s)
        (λ s'. elim (cb.on_push c s') [
          | none ↦ none
          | some s'' ↦ some (record { backtrack = c ∷ stack; arity = a; state = s'' })
        ])
        (onwards fuel)
      ∙ andthen_ext (cb.on_pop (to_vector (cons t n (cons u m r))) s) _ _ (λ s'.
        andthen_assoc (cb.on_push c s')
          (λ s''. some (record { backtrack = c ∷ stack; arity = a; state = s'' })) (onwards fuel)
        ∙ ap (λ z. andthen (cb.on_push c s') (descend fuel m (c ∷ stack) z)) (omega arith))

  mutual
    unfolding visit complete

    descend-visit :
        (fuel k : ℕ) (n : TmpIndexNode) (stack : List ContainerIterator) (s : S)
        → IsShaped k n
        → descend (moves n + suc fuel) n stack k s ≡ andthen (visit n s) (resume (suc fuel) stack k)
    descend-visit fuel zero (leaf id solutions nil) stack s shaped =
        ap (λ z. resume z stack 0 s) (omega arith)
    descend-visit fuel zero (leaf id solutions (cons t n rest)) stack s shaped = absurd shaped
    descend-visit fuel zero (inner c) stack s shaped = absurd shaped
    descend-visit fuel (suc k) (leaf id solutions c) stack s shaped = absurd shaped
    descend-visit fuel (suc k) (inner nil) stack s shaped = absurd shaped
    descend-visit fuel (suc k) (inner (cons t n rest)) stack s shaped =
        descend-enter (moves_below (cons t n rest) + suc fuel) k (cons t n rest) stack s shaped
          (λ e. cc)
        ∙ enter-visit fuel k (cons t n rest) stack s shaped

    enter-visit :
        (fuel k : ℕ) (c : Children) (stack : List ContainerIterator) (s : S)
        → AllShaped k c
        → enter (moves_below c + suc fuel) c stack k s
          ≡ andthen (visit_all c s) (resume (suc fuel) stack (suc k))
    enter-visit fuel k nil stack s shaped = ap (λ z. resume z stack (suc k) s) (omega arith)
    enter-visit fuel k (cons t n nil) stack s shaped =
        andthen_ext (cb.on_push ((t, n) ∷ []) s) _ _ (λ s1.
          descend-visit fuel (k + t.arity) n (((t, n) ∷ []) ∷ stack) s1 shaped.0
          ∙ andthen_ext (visit n s1) _ _ (λ s2. move_on fuel k t n nil stack s2))
        ∙ sym (visit_all-andthen t n nil s (resume (suc fuel) stack (suc k)))
    enter-visit fuel k (cons t n (cons u m r)) stack s shaped =
        let rest = cons u m r in
        let c = to_vector (cons t n rest) in
        let left = moves_below rest + suc fuel in
        andthen_ext (cb.on_push c s) _ _ (λ s1.
          ap (λ z. descend z n (c ∷ stack) (k + t.arity) s1) (omega arith)
          ∙ descend-visit left (k + t.arity) n (c ∷ stack) s1 shaped.0
          ∙ andthen_ext (visit n s1) _ _ (λ s2.
            move_on left k t n rest stack s2
            ∙ andthen_ext (cb.on_pop c s2) _ _
                (λ s3. enter-visit fuel k (cons u m r) stack s3 shaped.1)))
        ∙ sym (visit_all-andthen t n rest s (resume (suc fuel) stack (suc k)))

  -- For a root of the shape that complete formulas build, with one open argument, and a fuel of
  -- at least the number of its leaves, the loop over CallbackIndexIterator ends, and what its
  -- callbacks make of the state is what a depth-first visit makes of it that pushes each child,
  -- visits what is below it, and pops it.
  pub iterate-visit :
      (fuel : ℕ) (root : TmpIndexNode) (s : S)
      → IsShaped 1 root
      → iterate cb (moves root + suc fuel) root s ≡ visit root s
  unfolding iterate drain advance
  iterate-visit fuel root s shaped =
      descend-visit fuel 1 root [] s shaped ∙ andthen-some (visit root s)
