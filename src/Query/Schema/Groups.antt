-- ===== src/Query/Schema/Groups.antt =====
-- The groups of `getSchemata`: how often a formula is in one of them, and the sort by their sizes.
use mws.Prelude.{
  ℕ, zero, suc, ◌+◌, ◌<◌, ◌≤◌, ◌≡◌, refl, ap, ◌∙◌, List, [], ◌∷◌, ◌++◌, length, take, ltb, ◌==◌,
  ◌&&◌, not, if◌then◌else◌, arith, All, All-imp, Bool-cases, inl, inr,
}
use mws.Prelude.Bytes.{Bytes, bytes_eq}
use mws.Query.Schema.Schemata.{Groups, add_to_group, insert_group, sort_groups, cut_groups}

-- How often a formula is in a group, and in some groups.
abbrev pub occurs : ℕ → List ℕ → ℕ
occurs k [] = 0
occurs k (i ∷ rest) = (if i == k then 1 else 0) + occurs k rest

abbrev pub occurs_all : ℕ → Groups → ℕ
occurs_all k [] = 0
occurs_all k (g ∷ rest) = occurs k g.1 + occurs_all k rest

occurs-append :
    (k i : ℕ) (formulae : List ℕ)
    → occurs k (formulae ++ i ∷ []) ≡ occurs k formulae + (if i == k then 1 else 0)
occurs-append k i [] = omega arith
occurs-append k i (j ∷ rest) = omega (arith, occurs-append k i rest)

pub occurs_all-add_to_group :
    (k i : ℕ) (hash : Bytes) (groups : Groups)
    → occurs_all k (add_to_group hash i groups) ≡ occurs_all k groups + (if i == k then 1 else 0)
unfolding add_to_group
occurs_all-add_to_group k i hash [] = omega arith
occurs_all-add_to_group k i hash ((h, formulae) ∷ rest) = elim (Bool-cases (bytes_eq h hash)) [
  | inl same ↦ rw same (omega (arith, occurs-append k i formulae))
  | inr other ↦ rw other (omega (arith, occurs_all-add_to_group k i hash rest))
]

occurs_all-insert_group :
    (k : ℕ) (g : Bytes × List ℕ) (groups : Groups)
    → occurs_all k (insert_group g groups) ≡ occurs k g.1 + occurs_all k groups
unfolding insert_group
occurs_all-insert_group k g [] = refl
occurs_all-insert_group k g (h ∷ rest) = elim (Bool-cases (ltb (length g.1) (length h.1))) [
  | inl less ↦ rw less (omega (arith, occurs_all-insert_group k g rest))
  | inr not_less ↦ rw not_less refl
]

pub occurs_all-sort_groups :
    (k : ℕ) (groups : Groups) → occurs_all k (sort_groups groups) ≡ occurs_all k groups
unfolding sort_groups
occurs_all-sort_groups k [] = refl
occurs_all-sort_groups k (g ∷ rest) =
    occurs_all-insert_group k g (sort_groups rest)
    ∙ ap (λ z. occurs k g.1 + z) (occurs_all-sort_groups k rest)

length-insert_group :
    (g : Bytes × List ℕ) (groups : Groups) → length (insert_group g groups) ≡ suc (length groups)
unfolding insert_group
length-insert_group g [] = refl
length-insert_group g (h ∷ rest) = elim (Bool-cases (ltb (length g.1) (length h.1))) [
  | inl less ↦ rw less (ap suc (length-insert_group g rest))
  | inr not_less ↦ rw not_less refl
]

pub length-sort_groups : (groups : Groups) → length (sort_groups groups) ≡ length groups
unfolding sort_groups
length-sort_groups [] = refl
length-sort_groups (g ∷ rest) =
    length-insert_group g (sort_groups rest) ∙ ap suc (length-sort_groups rest)

-- The groups are in descending order of their sizes.
abbrev pub IsSorted : Groups → Type 0
IsSorted [] = Unit
IsSorted (g ∷ rest) = All (λ (h : Bytes × List ℕ). length h.1 ≤ length g.1) rest × IsSorted rest

All-insert_group :
    (most : ℕ) (g : Bytes × List ℕ) (groups : Groups)
    → length g.1 ≤ most
    → All (λ (h : Bytes × List ℕ). length h.1 ≤ most) groups
    → All (λ (h : Bytes × List ℕ). length h.1 ≤ most) (insert_group g groups)
unfolding insert_group
All-insert_group most g [] l a = (l, tt)
All-insert_group most g (h ∷ rest) l a = elim (Bool-cases (ltb (length g.1) (length h.1))) [
  | inl less ↦ rw less (a.0, All-insert_group most g rest l a.1)
  | inr not_less ↦ rw not_less (l, a)
]

insert_group-IsSorted :
    (g : Bytes × List ℕ) (groups : Groups) → IsSorted groups → IsSorted (insert_group g groups)
unfolding insert_group
insert_group-IsSorted g [] s = (tt, tt)
insert_group-IsSorted g (h ∷ rest) s = elim (Bool-cases (ltb (length g.1) (length h.1))) [
  | inl less ↦
      rw less
        (All-insert_group (length h.1) g rest (ground arith) s.0, insert_group-IsSorted g rest s.1)
  | inr not_less ↦
      let most : length h.1 ≤ length g.1 = ground arith in
      rw not_less (
        (
          most,
          All-imp {P = λ (f : Bytes × List ℕ). length f.1 ≤ length h.1}
              {Q = λ (f : Bytes × List ℕ). length f.1 ≤ length g.1} (λ f l. omega arith) rest s.0,
        ),
        s,
      )
]

pub sort_groups-IsSorted : (groups : Groups) → IsSorted (sort_groups groups)
unfolding sort_groups
sort_groups-IsSorted [] = tt
sort_groups-IsSorted (g ∷ rest) =
    insert_group-IsSorted g (sort_groups rest) (sort_groups-IsSorted rest)

All-take {ℓ κ} : {A : Type ℓ} (P : A → Type κ) (n : ℕ) (xs : List A) → All P xs → All P (take n xs)
All-take P zero xs a = tt
All-take P (suc n) [] a = tt
All-take P (suc n) (x ∷ xs) a = (a.0, All-take P n xs a.1)

take-IsSorted : (n : ℕ) (groups : Groups) → IsSorted groups → IsSorted (take n groups)
take-IsSorted zero groups s = tt
take-IsSorted (suc n) [] s = tt
take-IsSorted (suc n) (g ∷ rest) s = (
  All-take (λ (h : Bytes × List ℕ). length h.1 ≤ length g.1) n rest s.0,
  take-IsSorted n rest s.1,
)

pub cut_groups-IsSorted :
    (n : ℕ) (groups : Groups) → IsSorted groups → IsSorted (cut_groups n groups)
cut_groups-IsSorted n groups s = elim (Bool-cases (ltb n (length groups) && not (n == 0))) [
  | inl cut ↦ rw cut (take-IsSorted n groups s)
  | inr whole ↦ rw whole s
]

length-take : (n : ℕ) (groups : Groups) → length (take n groups) ≤ n
length-take zero groups = omega arith
length-take (suc n) [] = omega arith
length-take (suc n) (g ∷ rest) = omega (arith, length-take n rest)

pub length-cut_groups : (n : ℕ) (groups : Groups) → 0 < n → length (cut_groups n groups) ≤ n
length-cut_groups n groups some_ = elim (Bool-cases (ltb n (length groups) && not (n == 0))) [
  | inl cut ↦ rw cut (length-take n groups)
  | inr whole ↦ rw whole (ground arith)
]

length-take-le : (n : ℕ) (groups : Groups) → length (take n groups) ≤ length groups
length-take-le zero groups = omega arith
length-take-le (suc n) [] = omega arith
length-take-le (suc n) (g ∷ rest) = omega (arith, length-take-le n rest)

pub length-cut_groups-le : (n : ℕ) (groups : Groups) → length (cut_groups n groups) ≤ length groups
length-cut_groups-le n groups = elim (Bool-cases (ltb n (length groups) && not (n == 0))) [
  | inl cut ↦ rw cut (length-take-le n groups)
  | inr whole ↦ rw whole (omega arith)
]
