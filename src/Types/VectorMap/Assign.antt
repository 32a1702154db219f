-- ===== src/Types/VectorMap/Assign.antt =====
-- `map[key] = value` on a sorted vector.
use Prim.Native.Nat.Ordering.{lt, eq}
use mws.Prelude.{
  ℕ, zero, suc, ◌≡◌, refl, ap, sym, ◌∙◌, Option, [], ◌∷◌, List, arith, All, All-set, get_elem?, set,
  some, none, Option-cases, inl, inr,
}
use mws.Prelude.Bytes.{memcmp}
use mws.Types.VectorMap.{Comparator, VectorMap, assign, store_at, find}
use mws.Types.VectorMap.Keys.{IsSorted, eq_of_cmp}
use mws.Types.VectorMap.Find.{position}
use mws.Types.VectorMap.Insert.{place, rank}
use mws.Types.VectorMap.View.{
  lookup, find-eq-lookup, position-lt, insert_absent, insert_present, place-IsSorted, lookup-place,
  get_elem?-rank, All-place,
}

set_same {ℓ} :
    {A : Type ℓ} (xs : List A) (i : ℕ) {x : A} → get_elem? xs i ≡ some x → set xs i x ≡ xs
set_same [] i h = refl
set_same (y ∷ xs) zero h = cc
set_same (y ∷ xs) (suc i) h = ap (λ l. y ∷ l) (set_same xs i h)

module _ {ℓ κ} {K : Type ℓ} {V : Type κ} ⦃c : Comparator K⦄ where
  assign_absent :
      (entries : VectorMap K V) (k : K) (v : V)
      → IsSorted entries
      → lookup k entries ≡ none
      → assign entries k v ≡ place entries (k, v)
  unfolding assign
  assign_absent entries k v s h =
      ap (λ p. store_at p v) (insert_absent entries k v s h)
      ∙ rw (get_elem?-rank entries (k, v), store_at)
          (set_same (place entries (k, v)) (rank entries (k, v)) (get_elem?-rank entries (k, v)))

  assign_present :
      (entries : VectorMap K V) (k : K) (v : V) {w : V}
      → IsSorted entries
      → lookup k entries ≡ some w
      → assign entries k v ≡ set entries (position k entries) (k, v)
  unfolding assign
  assign_present entries k v s h =
      ap (λ p. store_at p v) (insert_present entries k v s h)
      ∙ rw (position-lt k entries h, store_at)

  lookup-set-position :
      (entries : VectorMap K V) (k j : K) (v : V) {w : V}
      → lookup k entries ≡ some w
      → lookup j (set entries (position k entries) (k, v))
        ≡ (elim (memcmp (c.bytes k) (c.bytes j)) [ eq ↦ some v | _ ↦ lookup j entries ])
  unfolding lookup position
  lookup-set-position [] k j v h = cc
  lookup-set-position ((i, u) ∷ rest) k j v {w} h =
      ground
        (arith, lookup-set-position rest k j v {w = w}, eq_of_cmp k j, eq_of_cmp i j, eq_of_cmp i k)

  All-set-position {μ} :
      (P : K → Type μ) (entries : VectorMap K V) (k : K) (v : V) {w : V}
      → lookup k entries ≡ some w
      → All (λ (e : K × V). P e.0) entries
      → All (λ (e : K × V). P e.0) (set entries (position k entries) (k, v))
  unfolding lookup position
  All-set-position P [] k v h a = tt
  All-set-position P ((i, u) ∷ rest) k v {w} h a =
      ground (arith, All-set-position P rest k v {w = w}, eq_of_cmp i k)

  set-position-IsSorted :
      (entries : VectorMap K V) (k : K) (v : V) {w : V}
      → lookup k entries ≡ some w
      → IsSorted entries
      → IsSorted (set entries (position k entries) (k, v))
  unfolding lookup position
  set-position-IsSorted [] k v h s = tt
  set-position-IsSorted ((i, u) ∷ rest) k v {w} h s = ground (
    arith,
    set-position-IsSorted rest k v {w = w},
    All-set-position (λ (j : K). memcmp (c.bytes i) (c.bytes j) ≡ lt) rest k v {w = w},
    eq_of_cmp i k,
  )

  -- An assignment through operator[] keeps the vector sorted.
  pub assign-IsSorted :
      (entries : VectorMap K V) (k : K) (v : V) → IsSorted entries → IsSorted (assign entries k v)
  assign-IsSorted entries k v s = elim (Option-cases (lookup k entries)) [
    | inl absent ↦ rw (assign_absent entries k v s absent) (place-IsSorted entries k v s absent)
    | inr (w, there) ↦
        rw (assign_present entries k v s there) (set-position-IsSorted entries k v there s)
  ]

  -- It changes what its own key reads, and nothing else.
  pub lookup-assign :
      (entries : VectorMap K V) (k j : K) (v : V)
      → IsSorted entries
      → lookup j (assign entries k v)
        ≡ (elim (memcmp (c.bytes k) (c.bytes j)) [ eq ↦ some v | _ ↦ lookup j entries ])
  lookup-assign entries k j v s = elim (Option-cases (lookup k entries)) [
    | inl absent ↦ rw (assign_absent entries k v s absent) (lookup-place entries k j v absent)
    | inr (w, there) ↦
        rw (assign_present entries k v s there) (lookup-set-position entries k j v there)
  ]

  -- A property of all entries that the new one has too is kept.
  pub All-assign {μ} :
      (P : K × V → Type μ) (entries : VectorMap K V) (k : K) (v : V)
      → IsSorted entries
      → P (k, v)
      → All P entries
      → All P (assign entries k v)
  All-assign P entries k v s p a = elim (Option-cases (lookup k entries)) [
    | inl absent ↦ rw (assign_absent entries k v s absent) (All-place P entries (k, v) p a)
    | inr (w, there) ↦
        rw (assign_present entries k v s there) (All-set P entries (position k entries) (k, v) p a)
  ]

  -- After an assignment to a key of a sorted vector, the binary search finds the new value
  -- under that key, and under every other key what it found before.
  pub find-assign :
      (entries : VectorMap K V) (k j : K) (v : V)
      → IsSorted entries
      → find (assign entries k v) j
        ≡ (elim (memcmp (c.bytes k) (c.bytes j)) [ eq ↦ some v | _ ↦ find entries j ])
  find-assign entries k j v s =
      find-eq-lookup (assign entries k v) j (assign-IsSorted entries k v s)
      ∙ lookup-assign entries k j v s
      ∙ ap (λ (o : Option V). elim (memcmp (c.bytes k) (c.bytes j)) [ eq ↦ some v | _ ↦ o ])
          (sym (find-eq-lookup entries j s))
