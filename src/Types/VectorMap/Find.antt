-- ===== src/Types/VectorMap/Find.antt =====
-- The binary search against the linear search, and that it always ends.
use Prim.Native.Nat.Ordering.{lt, eq, gt}
use mws.Prelude.{
  ℕ, zero, suc, ◌+◌, ◌-◌, ◌<◌, ◌≤◌, ◌≡◌, ◌≢◌, refl, [], ◌∷◌, arith, length, get_elem?-lt, some, ap,
  sym, inl, inr, Bool-cases, ltb, ltb→lt,
}
use mws.Prelude.Bytes.{memcmp}
use mws.Types.VectorMap.{Comparator, VectorMap, center, find_loop, find_index}
use mws.Types.VectorMap.Keys.{IsSorted, sign, sign-get_elem?, sign_mono, sign_mono_lt, sign_beyond}

module _ {ℓ κ} {K : Type ℓ} {V : Type κ} ⦃c : Comparator K⦄ where
  -- The reference: the first entry with the key, or the size of the vector.
  unfoldable pub position : K → VectorMap K V → ℕ
  position key [] = 0
  position key ((k, v) ∷ rest) = elim (memcmp (c.bytes k) (c.bytes key)) [
    | eq ↦ 0
    | _ ↦ suc (position key rest)
  ]

  position_hit :
      (entries : VectorMap K V) (key : K) (i : ℕ)
      → ((j : ℕ) → j < i → sign entries key j ≡ lt)
      → sign entries key i ≡ eq
      → position key entries ≡ i
  unfolding position
  position_hit [] key i below h = cc
  position_hit ((k, v) ∷ rest) key zero below h = ground arith
  position_hit ((k, v) ∷ rest) key (suc i) below h =
      ground (arith, below 0, position_hit rest key i (λ j p. below (suc j) (omega arith)) h)

  position_miss :
      (entries : VectorMap K V) (key : K)
      → ((j : ℕ) → sign entries key j ≢ eq)
      → position key entries ≡ length entries
  unfolding position
  position_miss [] key none_eq = refl
  position_miss ((k, v) ∷ rest) key none_eq =
      ground (arith, none_eq 0, position_miss rest key (λ j. none_eq (suc j)))

  -- The part of the vector that is still to be searched.
  record Window (entries : VectorMap K V) (key : K) (left right_end : ℕ) : Type 0 where
    inside : right_end ≤ length entries
    below : (j : ℕ) → j < left → sign entries key j ≡ lt
    above : (j : ℕ) → right_end ≤ j → sign entries key j ≡ gt

  -- Each round halves the window: the search ends, in bounds, whatever the vector holds.
  find_loop_total :
      (fuel : ℕ) (entries : VectorMap K V) (key : K) (left right_end : ℕ)
      → right_end - left < fuel
      → right_end ≤ length entries
      → (i : ℕ) × (find_loop fuel entries key left right_end ≡ some i) × (i ≤ length entries)
  unfolding find_loop
  find_loop_total zero entries key left right_end f b = absurd (omega arith)
  find_loop_total (suc fuel) entries key left right_end f b =
      elim (Bool-cases (ltb left right_end)) [
        | inr done ↦ (length entries, rw done, omega arith)
        | inl more ↦
            let less : left < right_end = ltb→lt left right_end more in
            let (e, found) = get_elem?-lt entries (center left right_end) (omega arith) in
            rw (more, found)
              ((elim (memcmp (c.bytes e.0) (c.bytes key))
                as (λ o.
                  (i : ℕ) × (elim o [
                    | gt ↦ find_loop fuel entries key left (center left right_end)
                    | eq ↦ some (center left right_end)
                    | lt ↦ find_loop fuel entries key (center left right_end + 1) right_end
                  ]
                    ≡ some i)
                  × (i ≤ length entries)) [
                    | gt ↦
                        find_loop_total fuel entries key left (center left right_end) (omega arith)
                          (omega arith)
                    | eq ↦ (center left right_end, refl, omega arith)
                    | lt ↦
                        find_loop_total fuel entries key (center left right_end + 1) right_end
                          (omega arith) b
                  ]))
      ]

  module _ (entries : VectorMap K V) (key : K) (sorted : IsSorted entries) where
    Window-done :
        (left right_end : ℕ)
        → Window entries key left right_end
        → right_end ≤ left
        → position key entries ≡ length entries
    Window-done left right_end w d =
        position_miss entries key (λ j e. ground (arith, w.below j, w.above j))

    Window-hit : (i : ℕ) → sign entries key i ≡ eq → position key entries ≡ i
    Window-hit i h =
        position_hit entries key i (λ j p. sign_mono_lt entries key j i sorted p (λ g. cc)) h

    Window-low :
        (i left right_end : ℕ)
        → Window entries key left right_end
        → i ≤ right_end
        → sign entries key i ≡ gt
        → Window entries key left i
    Window-low i left right_end w b h = record {
      inside = omega (arith, w.inside);
      below = w.below;
      above = λ j p. ground (arith, sign_mono entries key i j sorted, h);
    }

    Window-high :
        (i left right_end : ℕ)
        → Window entries key left right_end
        → sign entries key i ≡ lt
        → Window entries key (i + 1) right_end
    Window-high i left right_end w h = record {
      inside = w.inside;
      below = λ j p. ground (arith, sign_mono_lt entries key j i sorted, h);
      above = w.above;
    }

    find_loop-eq-position :
        (fuel left right_end : ℕ)
        → right_end - left < fuel
        → Window entries key left right_end
        → find_loop fuel entries key left right_end ≡ some (position key entries)
    unfolding find_loop
    find_loop-eq-position zero left right_end f w = absurd (omega arith)
    find_loop-eq-position (suc fuel) left right_end f w = elim (Bool-cases (ltb left right_end)) [
      | inr done ↦ rw done (ap some (sym (Window-done left right_end w (ground arith))))
      | inl more ↦
          let less : left < right_end = ltb→lt left right_end more in
          let (e, found) = get_elem?-lt entries (center left right_end) (omega arith) in
          rw (more, found)
            (ground (
              arith,
              sign-get_elem? entries key (center left right_end) found,
              Window-hit (center left right_end),
              Window-low (center left right_end) left right_end w,
              Window-high (center left right_end) left right_end w,
              w.inside,
              find_loop-eq-position fuel left (center left right_end),
              find_loop-eq-position fuel (center left right_end + 1) right_end,
            ))
    ]

  -- On any vector, sorted or not, the search ends and returns an index up to the size: it never
  -- reads out of bounds.
  pub find_index_total :
      (entries : VectorMap K V) (key : K)
      → (i : ℕ) × (find_index entries key ≡ some i) × (i ≤ length entries)
  unfolding find_index
  find_index_total entries key =
      find_loop_total (suc (length entries)) entries key 0 (length entries) (omega arith)
        (omega arith)

  -- On a sorted vector the binary search returns what a linear search for the first entry with
  -- the key returns.
  pub find_index-eq-position :
      (entries : VectorMap K V) (key : K)
      → IsSorted entries
      → find_index entries key ≡ some (position key entries)
  unfolding find_index
  find_index-eq-position entries key sorted =
      find_loop-eq-position entries key sorted (suc (length entries)) 0 (length entries)
        (omega arith)
        (record {
          inside = omega arith;
          below = λ j p. absurd (omega arith);
          above = λ j p. sign_beyond entries key j p;
        })
