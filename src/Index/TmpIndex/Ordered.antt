-- ===== src/Index/TmpIndex/Ordered.antt =====
-- The children of a node: kept sorted, and what a token leads to after an assignment.
use Prim.Native.Nat.Ordering.{eq}
use mws.Prelude.{◌≡◌, refl, ap, sym, ◌∙◌, some, [], ◌∷◌, All}
use mws.Prelude.Bytes.{memcmp}
use mws.Types.VectorMap
use mws.Types.VectorMap.{VectorMap, find, assign}
use mws.Types.VectorMap.Keys.{IsSorted, cmp_refl}
use mws.Types.VectorMap.View.{All-lookup, find-eq-lookup}
use mws.Types.VectorMap.Assign.{assign-IsSorted, All-assign}
use mws.Index.EncodedToken.{EncodedToken, token_comparator}
use mws.Index.TmpIndex.{
  TmpIndexNode, inner, leaf, Children, nil, cons, to_vector, of_vector, children, with_children,
}

pub to_vector-of_vector : (v : VectorMap EncodedToken TmpIndexNode) → to_vector (of_vector v) ≡ v
to_vector-of_vector [] = refl
to_vector-of_vector ((t, n) ∷ rest) = ap (λ r. (t, n) ∷ r) (to_vector-of_vector rest)

pub children-with_children :
    (node : TmpIndexNode) (v : VectorMap EncodedToken TmpIndexNode)
    → children (with_children node v) ≡ v
children-with_children (inner c) v = to_vector-of_vector v
children-with_children (leaf id s c) v = to_vector-of_vector v

-- Every vector of children is sorted.
abbrev mutual
  pub IsOrdered : TmpIndexNode → Type 0
  IsOrdered (inner c) = IsSorted (to_vector c) × AllOrdered c
  IsOrdered (leaf id s c) = IsSorted (to_vector c) × AllOrdered c

  pub AllOrdered : Children → Type 0
  AllOrdered nil = Unit
  AllOrdered (cons t n rest) = IsOrdered n × AllOrdered rest

pub IsSorted-children : (node : TmpIndexNode) → IsOrdered node → IsSorted (children node)
IsSorted-children (inner c) o = o.0
IsSorted-children (leaf id s c) o = o.0

All→AllOrdered :
    (v : VectorMap EncodedToken TmpIndexNode)
    → All (λ (e : EncodedToken × TmpIndexNode). IsOrdered e.1) v
    → AllOrdered (of_vector v)
All→AllOrdered [] a = tt
All→AllOrdered ((t, n) ∷ rest) a = (a.0, All→AllOrdered rest a.1)

AllOrdered→All :
    (c : Children)
    → AllOrdered c
    → All (λ (e : EncodedToken × TmpIndexNode). IsOrdered e.1) (to_vector c)
AllOrdered→All nil a = tt
AllOrdered→All (cons t n rest) a = (a.0, AllOrdered→All rest a.1)

pub IsOrdered-children :
    (node : TmpIndexNode)
    → IsOrdered node
    → All (λ (e : EncodedToken × TmpIndexNode). IsOrdered e.1) (children node)
IsOrdered-children (inner c) o = AllOrdered→All c o.1
IsOrdered-children (leaf id s c) o = AllOrdered→All c o.1

pub All-find {κ} :
    (P : EncodedToken × TmpIndexNode → Type κ) (v : VectorMap EncodedToken TmpIndexNode)
    (t : EncodedToken) {n : TmpIndexNode}
    → IsSorted v
    → All P v
    → find v t ≡ some n
    → P (t, n)
All-find P v t s a h = All-lookup P v t a (sym (find-eq-lookup v t s) ∙ h)

pub find-IsOrdered :
    (node : TmpIndexNode) (t : EncodedToken) {child : TmpIndexNode}
    → IsOrdered node
    → find (children node) t ≡ some child
    → IsOrdered child
find-IsOrdered node t o h =
    All-find (λ (e : EncodedToken × TmpIndexNode). IsOrdered e.1) (children node) t
      (IsSorted-children node o) (IsOrdered-children node o) h

IsOrdered-with_children :
    (node : TmpIndexNode) (v : VectorMap EncodedToken TmpIndexNode)
    → IsSorted v
    → All (λ (e : EncodedToken × TmpIndexNode). IsOrdered e.1) v
    → IsOrdered (with_children node v)
IsOrdered-with_children (inner c) v s a = (rw (to_vector-of_vector v) s, All→AllOrdered v a)
IsOrdered-with_children (leaf id n c) v s a = (rw (to_vector-of_vector v) s, All→AllOrdered v a)

-- Replacing or adding an ordered child keeps a node ordered.
pub IsOrdered-assign :
    (node : TmpIndexNode) (t : EncodedToken) (child : TmpIndexNode)
    → IsOrdered node
    → IsOrdered child
    → IsOrdered (with_children node (assign (children node) t child))
IsOrdered-assign node t child o oc =
    IsOrdered-with_children node (assign (children node) t child)
      (assign-IsSorted (children node) t child (IsSorted-children node o))
      (All-assign (λ (e : EncodedToken × TmpIndexNode). IsOrdered e.1) (children node) t child
        (IsSorted-children node o) oc (IsOrdered-children node o))

-- After the assignment its token leads to the new child, and every other token where it led.
pub find-assign :
    (node : TmpIndexNode) (t u : EncodedToken) (child : TmpIndexNode)
    → IsOrdered node
    → find (children (with_children node (assign (children node) t child))) u
      ≡ (elim (memcmp (token_comparator.bytes t) (token_comparator.bytes u)) [
        | eq ↦ some child
        | _ ↦ find (children node) u
      ])
find-assign node t u child o =
    rw (children-with_children node (assign (children node) t child))
      (VectorMap.Assign.find-assign (children node) t u child (IsSorted-children node o))

pub find-assign_self :
    (node : TmpIndexNode) (t : EncodedToken) (child : TmpIndexNode)
    → IsOrdered node
    → find (children (with_children node (assign (children node) t child))) t ≡ some child
find-assign_self node t child o = find-assign node t t child o ∙ rw (cmp_refl t)
