-- ===== src/Types/CmmlToken/Traverse.antt =====
-- `foreachSubexpression`: an explicit stack of tokens still to be visited. A pointer to a token
-- also gives its parent, so a visited token is `Located`: with the tag of its parent, if it has
-- one, and whether it is the first child there.
use mws.Prelude.{
  ℕ, zero, suc, ◌+◌, ◌<◌, ◌≡◌, refl, ap, sym, ◌∙◌, List, [], ◌∷◌, ◌++◌, Option, none, some, arith,
  append_assoc, append-nil, length, length-append, Bool, true, false,
}
use mws.Prelude.Bytes.{Bytes}
use mws.Types.CmmlToken.{
  CmmlToken, token, Tokens, nil, cons, get_child_nodes, get_tag, get_expr_size, sum_size,
  get_expr_depth, max_depth,
}

pub record Located : Type 0 where
  pub node : CmmlToken
  pub parent_tag : Option Bytes
  pub is_front : Bool

-- The children in order, the flag saying whether the next one is the first.
abbrev pub locate : Bytes → Bool → Tokens → List Located
locate tag front nil = []
locate tag front (cons t ts) =
    record { node = t; parent_tag = some tag; is_front = front } ∷ locate tag false ts

-- What is pushed for a token: its children, so that the first one comes to the top.
abbrev pub children_of : Located → List Located
children_of l = locate (get_tag l.node) true (get_child_nodes l.node)

-- The tokens that the callback gets, in order; the head of the list is the top of the stack.
-- `none` means that the fuel ran out.
unfoldable pub visit : ℕ → List Located → Option (List Located)
visit fuel [] = some []
visit zero (l ∷ stack) = none
visit (suc fuel) (l ∷ stack) = elim (visit fuel (children_of l ++ stack)) [
  | none ↦ none
  | some seen ↦ some (l ∷ seen)
]

unfoldable pub foreach_subexpression : Located → Option (List Located)
foreach_subexpression l = visit (get_expr_size l.node) (l ∷ [])

unfoldable mutual
  -- A token, then the subexpressions of its children from left to right.
  pub preorder_of : CmmlToken → Option Bytes → Bool → List Located
  preorder_of (token tag attrs text xpath children) parent front =
      record { node = token tag attrs text xpath children; parent_tag = parent; is_front = front }
      ∷ preorder_list children tag true

  pub preorder_list : Tokens → Bytes → Bool → List Located
  preorder_list nil tag front = []
  preorder_list (cons t ts) tag front = preorder_of t (some tag) front ++ preorder_list ts tag false

abbrev pub preorder : Located → List Located
preorder l = preorder_of l.node l.parent_tag l.is_front

abbrev prepend : List Located → Option (List Located) → Option (List Located)
prepend xs none = none
prepend xs (some ys) = some (xs ++ ys)

prepend-append :
    (xs ys : List Located) (o : Option (List Located))
    → prepend (xs ++ ys) o ≡ prepend xs (prepend ys o)
prepend-append xs ys none = refl
prepend-append xs ys (some zs) = ap some (append_assoc xs ys zs)

prepend-nil : (o : Option (List Located)) → prepend [] o ≡ o
prepend-nil none = refl
prepend-nil (some zs) = refl

mutual
  unfolding visit get_expr_size sum_size preorder_of preorder_list

  visit-preorder :
      (t : CmmlToken) (parent : Option Bytes) (front : Bool) (fuel : ℕ) (stack : List Located)
      → visit
          (get_expr_size t + fuel)
          (record { node = t; parent_tag = parent; is_front = front } ∷ stack)
        ≡ prepend (preorder_of t parent front) (visit fuel stack)
  visit-preorder (token tag attrs text xpath children) parent front fuel stack =
      let e : 1 + sum_size children + fuel ≡ suc (sum_size children + fuel) = omega arith in
      rw e (ground (arith, visit-preorder_list children tag true fuel stack))

  visit-preorder_list :
      (ts : Tokens) (tag : Bytes) (front : Bool) (fuel : ℕ) (stack : List Located)
      → visit (sum_size ts + fuel) (locate tag front ts ++ stack)
        ≡ prepend (preorder_list ts tag front) (visit fuel stack)
  visit-preorder_list nil tag front fuel stack =
      let e : 0 + fuel ≡ fuel = omega arith in rw e (sym (prepend-nil (visit fuel stack)))
  visit-preorder_list (cons t ts) tag front fuel stack =
      let e : get_expr_size t + sum_size ts + fuel ≡ get_expr_size t + (sum_size ts + fuel) =
        omega arith in
      rw e (
        visit-preorder t (some tag) front (sum_size ts + fuel) (locate tag false ts ++ stack)
        ∙ ap (prepend (preorder_of t (some tag) front))
            (visit-preorder_list ts tag false fuel stack)
        ∙ sym (
            prepend-append (preorder_of t (some tag) front) (preorder_list ts tag false)
              (visit fuel stack)))

-- The traversal with an explicit stack ends within `getExprSize` rounds and visits every
-- subexpression once, in preorder.
pub foreach_subexpression-eq-preorder : (l : Located) → foreach_subexpression l ≡ some (preorder l)
unfolding foreach_subexpression
foreach_subexpression-eq-preorder l =
    let e : get_expr_size l.node + 0 ≡ get_expr_size l.node = omega arith in
    rw (← e) (
      visit-preorder l.node l.parent_tag l.is_front 0 []
      ∙ unfold visit in ap some (append-nil (preorder l)))

mutual
  unfolding get_expr_size sum_size preorder_of preorder_list

  size-preorder :
      (t : CmmlToken) (parent : Option Bytes) (front : Bool)
      → length (preorder_of t parent front) ≡ get_expr_size t
  size-preorder (token tag attrs text xpath children) parent front =
      omega (arith, size-preorder_list children tag true)

  size-preorder_list :
      (ts : Tokens) (tag : Bytes) (front : Bool) → length (preorder_list ts tag front) ≡ sum_size ts
  size-preorder_list nil tag front = refl
  size-preorder_list (cons t ts) tag front = omega (
    arith,
    length-append (preorder_of t (some tag) front) (preorder_list ts tag false),
    size-preorder t (some tag) front,
    size-preorder_list ts tag false,
  )

-- The callback runs `getExprSize` times.
pub length-preorder : (l : Located) → length (preorder l) ≡ get_expr_size l.node
length-preorder l = size-preorder l.node l.parent_tag l.is_front

mutual
  unfolding get_expr_size sum_size get_expr_depth max_depth

  depth-lt : (t : CmmlToken) → get_expr_depth t < get_expr_size t
  depth-lt (token tag attrs text xpath children) = omega (arith, depth_list-le children)

  depth_list-le : (ts : Tokens) → max_depth ts < sum_size ts + 1
  depth_list-le nil = omega arith
  depth_list-le (cons t ts) = omega (arith, depth-lt t, depth_list-le ts)

-- An expression has more tokens than levels below its root.
pub depth-lt-size : (t : CmmlToken) → get_expr_depth t < get_expr_size t
depth-lt-size t = depth-lt t
