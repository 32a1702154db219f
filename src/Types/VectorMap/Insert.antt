-- ===== src/Types/VectorMap/Insert.antt =====
-- `insert` against the textbook insertion into a sorted list.
use Prim.Native.Nat.Ordering.{lt}
use mws.Prelude.{
  ℕ, zero, suc, ◌≡◌, refl, [], ◌∷◌, ◌++◌, arith, length, get_elem?, Option-cases, inl, inr,
}
use mws.Prelude.Bytes.{memcmp}
use mws.Types.VectorMap.{Comparator, VectorMap, sift, swap_down}
use mws.Types.VectorMap.Keys.{IsSorted, cmp_trans}

module _ {ℓ κ} {K : Type ℓ} {V : Type κ} ⦃c : Comparator K⦄ where
  -- The reference: before the first entry with a greater key.
  unfoldable pub place : VectorMap K V → K × V → VectorMap K V
  place [] e = e ∷ []
  place (x ∷ rest) e = elim (memcmp (c.bytes e.0) (c.bytes x.0)) [
    | lt ↦ e ∷ x ∷ rest
    | _ ↦ x ∷ place rest e
  ]

  unfoldable pub rank : VectorMap K V → K × V → ℕ
  rank [] e = 0
  rank (x ∷ rest) e = elim (memcmp (c.bytes e.0) (c.bytes x.0)) [ lt ↦ 0 | _ ↦ suc (rank rest e) ]

  -- The last comparison of the loop, against an entry put in front of the vector.
  finish : K × V → VectorMap K V × ℕ → VectorMap K V × ℕ
  finish x ([], zero) = (x ∷ [], 1)
  finish x (a ∷ rest, zero) = elim (memcmp (c.bytes a.0) (c.bytes x.0)) [
    | lt ↦ (a ∷ x ∷ rest, 0)
    | _ ↦ (x ∷ a ∷ rest, 1)
  ]
  finish x (rest, suc i) = (x ∷ rest, suc (suc i))

  sift-cons :
      (n : ℕ) (x : K × V) (entries : VectorMap K V)
      → sift (suc n) (x ∷ entries) ≡ finish x (sift n entries)
  unfolding sift finish
  sift-cons zero x [] = refl
  sift-cons zero x (a ∷ rest) = ground arith
  sift-cons (suc n) x entries = elim (Option-cases (get_elem? entries (suc n))) [
    | inl gone ↦ rw (gone, sift)
    | inr (above, at_top) ↦ elim (Option-cases (get_elem? entries n)) [
      | inl gone ↦ rw (at_top, gone, sift)
      | inr (below, at_low) ↦
          rw (at_top, at_low, sift)
            (ground (arith, sift-cons n x (swap_down entries n below above)))
    ]
  ]

  finish-place :
      (x : K × V) (rest : VectorMap K V) (e : K × V)
      → IsSorted (x ∷ rest)
      → finish x (place rest e, rank rest e) ≡ (place (x ∷ rest) e, rank (x ∷ rest) e)
  unfolding finish place rank
  finish-place x [] e s = ground arith
  finish-place x (y ∷ rest) e s = ground (arith, cmp_trans e.0 x.0 y.0, s.0.0)

  -- The bubbling loop puts a new last entry where the reference puts it.
  pub sift-eq-place :
      (entries : VectorMap K V) (e : K × V)
      → IsSorted entries
      → sift (length entries) (entries ++ e ∷ []) ≡ (place entries e, rank entries e)
  unfolding place rank
  sift-eq-place [] e s = unfold sift in refl
  sift-eq-place (x ∷ rest) e s =
      rw (sift-cons (length rest) x (rest ++ e ∷ []), sift-eq-place rest e s.1)
        (finish-place x rest e s)
