-- ===== src/Types/VectorMap/View.antt =====
-- A sorted vector as a finite map: `find` and `insert` against a lookup that ignores the order.
use Prim.Native.Nat.Ordering.{lt, eq}
use mws.Prelude.{
  ℕ, ◌≡◌, refl, ap, sym, ◌∙◌, [], ◌∷◌, arith, All, All-get_elem?, get_elem?, Option, some, none,
  true, false, Option-cases, inl, inr,
}
use mws.Prelude.Bytes.{memcmp}
use mws.Types.VectorMap.{Comparator, VectorMap, insert, find}
use mws.Types.VectorMap.Keys.{IsSorted, eq_of_cmp, cmp_refl, lt_of_gt, cmp_trans}
use mws.Types.VectorMap.Find.{position, find_index-eq-position}
use mws.Types.VectorMap.Insert.{place, rank, sift-eq-place}

module _ {ℓ κ} {K : Type ℓ} {V : Type κ} ⦃c : Comparator K⦄ where
  -- The value of the first entry with the key.
  unfoldable pub lookup : K → VectorMap K V → Option V
  lookup key [] = none
  lookup key ((k, v) ∷ rest) = elim (memcmp (c.bytes k) (c.bytes key)) [
    | eq ↦ some v
    | _ ↦ lookup key rest
  ]

  abbrev pub value_at : VectorMap K V → ℕ → Option V
  value_at entries i = elim (get_elem? entries i) [ none ↦ none | some e ↦ some e.1 ]

  pub value_at-position :
      (key : K) (entries : VectorMap K V)
      → value_at entries (position key entries) ≡ lookup key entries
  unfolding lookup position
  value_at-position key [] = refl
  value_at-position key ((k, v) ∷ rest) = ground (arith, value_at-position key rest)

  pub position-lt :
      (key : K) (entries : VectorMap K V) {v : V}
      → lookup key entries ≡ some v
      → get_elem? entries (position key entries) ≡ some (key, v)
  unfolding lookup position
  position-lt key [] h = cc
  position-lt key ((k, w) ∷ rest) {v} h =
      ground (arith, position-lt key rest {v = v}, eq_of_cmp k key)

  -- On a sorted vector the binary search reads what the finite map holds.
  pub find-eq-lookup :
      (entries : VectorMap K V) (key : K) → IsSorted entries → find entries key ≡ lookup key entries
  unfolding find
  find-eq-lookup entries key s =
      rw (find_index-eq-position entries key s, find) (value_at-position key entries)

  pub lookup-place :
      (entries : VectorMap K V) (k j : K) (v : V)
      → lookup k entries ≡ none
      → lookup j (place entries (k, v))
        ≡ (elim (memcmp (c.bytes k) (c.bytes j)) [ eq ↦ some v | _ ↦ lookup j entries ])
  unfolding lookup place
  lookup-place [] k j v h = refl
  lookup-place ((i, w) ∷ rest) k j v h =
      ground (arith, lookup-place rest k j v, eq_of_cmp k j, eq_of_cmp i j)

  pub All-place {μ} :
      (P : K × V → Type μ) (entries : VectorMap K V) (e : K × V)
      → P e
      → All P entries
      → All P (place entries e)
  unfolding place
  All-place P [] e p a = (p, tt)
  All-place P (x ∷ rest) e p a = ground (arith, All-place P rest e)

  All-above :
      (entries : VectorMap K V) (k j : K)
      → memcmp (c.bytes k) (c.bytes j) ≡ lt
      → All (λ (e : K × V). memcmp (c.bytes j) (c.bytes e.0) ≡ lt) entries
      → All (λ (e : K × V). memcmp (c.bytes k) (c.bytes e.0) ≡ lt) entries
  All-above [] k j h a = tt
  All-above ((i, w) ∷ rest) k j h a = (cmp_trans k j i h a.0, All-above rest k j h a.1)

  pub place-IsSorted :
      (entries : VectorMap K V) (k : K) (v : V)
      → IsSorted entries
      → lookup k entries ≡ none
      → IsSorted (place entries (k, v))
  unfolding place lookup
  place-IsSorted [] k v s h = (tt, tt)
  place-IsSorted ((i, w) ∷ rest) k v s h = ground (
    arith,
    place-IsSorted rest k v s.1,
    All-place (λ (e : K × V). memcmp (c.bytes i) (c.bytes e.0) ≡ lt) rest (k, v),
    All-above rest k i,
    lt_of_gt k i,
    eq_of_cmp k i,
    cmp_refl k,
  )

  pub get_elem?-rank :
      (entries : VectorMap K V) (e : K × V) → get_elem? (place entries e) (rank entries e) ≡ some e
  unfolding place rank
  get_elem?-rank [] e = refl
  get_elem?-rank (x ∷ rest) e = ground (arith, get_elem?-rank rest e)

  position_absent :
      (key : K) (entries : VectorMap K V)
      → lookup key entries ≡ none
      → get_elem? entries (position key entries) ≡ none
  unfolding lookup position
  position_absent key [] h = refl
  position_absent key ((k, w) ∷ rest) h = ground (arith, position_absent key rest)

  pub insert_absent :
      (entries : VectorMap K V) (k : K) (v : V)
      → IsSorted entries
      → lookup k entries ≡ none
      → insert entries (k, v) ≡ (place entries (k, v), rank entries (k, v), true)
  unfolding insert
  insert_absent entries k v s h = rw (
    find_index-eq-position entries k s,
    insert,
    position_absent k entries h,
    sift-eq-place entries (k, v) s,
  )

  pub insert_present :
      (entries : VectorMap K V) (k : K) (v : V) {w : V}
      → IsSorted entries
      → lookup k entries ≡ some w
      → insert entries (k, v) ≡ (entries, position k entries, false)
  unfolding insert
  insert_present entries k v s h =
      rw (find_index-eq-position entries k s, insert, position-lt k entries h)

  -- Inserting into a sorted vector gives a sorted vector.
  pub insert-IsSorted :
      (entries : VectorMap K V) (k : K) (v : V)
      → IsSorted entries
      → IsSorted (insert entries (k, v)).0
  insert-IsSorted entries k v s = elim (Option-cases (lookup k entries)) [
    | inl absent ↦ rw (insert_absent entries k v s absent) (place-IsSorted entries k v s absent)
    | inr (w, present) ↦ rw (insert_present entries k v s present) s
  ]

  -- What a key reads after an insertion: an old value stays, and a new key gets the value.
  abbrev pub inserted : K → V → K → Option V → Option V
  inserted k v j before = elim before [
    | some w ↦ some w
    | none ↦ elim (memcmp (c.bytes k) (c.bytes j)) [ eq ↦ some v | _ ↦ none ]
  ]

  pub lookup-insert :
      (entries : VectorMap K V) (k j : K) (v : V)
      → IsSorted entries
      → lookup j (insert entries (k, v)).0 ≡ inserted k v j (lookup j entries)
  lookup-insert entries k j v s = elim (Option-cases (lookup k entries)) [
    | inl absent ↦
        rw (insert_absent entries k v s absent)
          (ground (arith, lookup-place entries k j v absent, eq_of_cmp k j))
    | inr (w, present) ↦ rw (insert_present entries k v s present) (ground (arith, eq_of_cmp k j))
  ]

  -- Inserting an entry into a sorted vector leaves it sorted, and the binary search then finds
  -- under every key its old value if it had one, the new value if it is the new key, and
  -- otherwise nothing.
  pub find-insert :
      (entries : VectorMap K V) (k j : K) (v : V)
      → IsSorted entries
      → IsSorted (insert entries (k, v)).0
        × (find (insert entries (k, v)).0 j ≡ inserted k v j (find entries j))
  find-insert entries k j v s =
      let after = insert-IsSorted entries k v s in
      (
        after,
        find-eq-lookup (insert entries (k, v)).0 j after
            ∙ lookup-insert entries k j v s
            ∙ ap (inserted k v j) (sym (find-eq-lookup entries j s)),
      )

  -- The iterator that `insert` returns shows the value that the key then has, and the flag says
  -- whether the key is new.
  pub insert_result :
      (entries : VectorMap K V) (k : K) (v : V)
      → IsSorted entries
      → let (after, i, added) = insert entries (k, v) in
        (value_at after i ≡ lookup k after)
        × (added ≡ (elim (lookup k entries) [ none ↦ true | some _ ↦ false ]))
  insert_result entries k v s = elim (Option-cases (lookup k entries)) [
    | inl absent ↦ rw (insert_absent entries k v s absent) (
        ground
          (arith, lookup-place entries k k v absent, cmp_refl k, get_elem?-rank entries (k, v)))
    | inr (w, present) ↦
        rw (insert_present entries k v s present) (ground (arith, position-lt k entries present))
  ]

  -- What holds of every entry holds of the one that a lookup finds.
  pub All-lookup {μ} :
      (P : K × V → Type μ) (entries : VectorMap K V) (key : K) {v : V}
      → All P entries
      → lookup key entries ≡ some v
      → P (key, v)
  All-lookup P entries key a h =
      All-get_elem? P entries (position key entries) a (position-lt key entries h)
