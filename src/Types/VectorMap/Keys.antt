-- ===== src/Types/VectorMap/Keys.antt =====
-- The order on keys, sorted vectors, and the sign of each entry against a key.
use Prim.Native.Nat.Ordering.{lt, eq, gt}
use mws.Prelude.{
  ℕ, zero, suc, ◌<◌, ◌≤◌, ◌≡◌, ◌≢◌, refl, ◌∙◌, sym, [], ◌∷◌, Ordering, arith, All, length,
  get_elem?, some,
}
use mws.Prelude.Bytes.{memcmp, memcmp_refl, eq_of_memcmp, gt_of_memcmp, lt_of_memcmp, memcmp_trans}
use mws.Types.VectorMap.{Comparator, VectorMap}

module _ {ℓ} {K : Type ℓ} ⦃c : Comparator K⦄ where
  pub eq_of_cmp : (a b : K) → memcmp (c.bytes a) (c.bytes b) ≡ eq → a ≡ b
  eq_of_cmp a b h =
      c.bytes_injective a b (eq_of_memcmp _ _ (c.bytes_size a ∙ sym (c.bytes_size b)) h)

  pub cmp_refl : (a : K) → memcmp (c.bytes a) (c.bytes a) ≡ eq
  cmp_refl a = memcmp_refl (c.bytes a)

  pub gt_of_lt :
      (a b : K) → memcmp (c.bytes a) (c.bytes b) ≡ lt → memcmp (c.bytes b) (c.bytes a) ≡ gt
  gt_of_lt a b h = gt_of_memcmp _ _ h

  pub lt_of_gt :
      (a b : K) → memcmp (c.bytes a) (c.bytes b) ≡ gt → memcmp (c.bytes b) (c.bytes a) ≡ lt
  lt_of_gt a b h = lt_of_memcmp _ _ h

  pub cmp_trans :
      (a b d : K)
      → memcmp (c.bytes a) (c.bytes b) ≡ lt
      → memcmp (c.bytes b) (c.bytes d) ≡ lt
      → memcmp (c.bytes a) (c.bytes d) ≡ lt
  cmp_trans a b d h k = memcmp_trans _ (c.bytes b) _ h k

module _ {ℓ κ} {K : Type ℓ} {V : Type κ} ⦃c : Comparator K⦄ where
  -- Strictly ascending keys, so no key twice.
  abbrev pub IsSorted : VectorMap K V → Type 0
  IsSorted [] = Unit
  IsSorted ((k, v) ∷ rest) =
      All (λ (e : K × V). memcmp (c.bytes k) (c.bytes e.0) ≡ lt) rest × IsSorted rest

  -- How the entry at an index compares to the key; past the end it counts as greater.
  abbrev pub sign : VectorMap K V → K → ℕ → Ordering
  sign [] key i = gt
  sign ((k, v) ∷ rest) key zero = memcmp (c.bytes k) (c.bytes key)
  sign ((k, v) ∷ rest) key (suc i) = sign rest key i

  -- An entry that is met at an index has that sign.
  pub sign-get_elem? :
      (entries : VectorMap K V) (key : K) (i : ℕ) {e : K × V}
      → get_elem? entries i ≡ some e
      → sign entries key i ≡ memcmp (c.bytes e.0) (c.bytes key)
  sign-get_elem? [] key i h = absurd (cc)
  sign-get_elem? ((k, v) ∷ rest) key zero h = cc
  sign-get_elem? ((k, v) ∷ rest) key (suc i) h = sign-get_elem? rest key i h

  sign-above :
      (entries : VectorMap K V) (k key : K) (i : ℕ)
      → All (λ (e : K × V). memcmp (c.bytes k) (c.bytes e.0) ≡ lt) entries
      → memcmp (c.bytes k) (c.bytes key) ≢ lt
      → sign entries key i ≡ gt
  sign-above [] k key i a h = refl
  sign-above ((j, v) ∷ rest) k key (suc i) a h = sign-above rest k key i a.1 h
  sign-above ((j, v) ∷ rest) k key zero a h =
      ground (arith, a.0, cmp_trans k j key, eq_of_cmp j key)

  -- In a sorted vector the signs go lt, …, lt, then at most one eq, then gt, ….
  pub sign_mono :
      (entries : VectorMap K V) (key : K) (i j : ℕ)
      → IsSorted entries
      → i < j
      → sign entries key i ≢ lt
      → sign entries key j ≡ gt
  sign_mono [] key i j s h n = refl
  sign_mono ((k, v) ∷ rest) key i zero s h n = absurd (omega arith)
  sign_mono ((k, v) ∷ rest) key zero (suc j) s h n = sign-above rest k key j s.0 n
  sign_mono ((k, v) ∷ rest) key (suc i) (suc j) s h n = sign_mono rest key i j s.1 (omega arith) n

  pub sign_mono_lt :
      (entries : VectorMap K V) (key : K) (i j : ℕ)
      → IsSorted entries
      → i < j
      → sign entries key j ≢ gt
      → sign entries key i ≡ lt
  sign_mono_lt entries key i j s h n = ground (arith, sign_mono entries key i j s h)

  pub sign_beyond :
      (entries : VectorMap K V) (key : K) (i : ℕ) → length entries ≤ i → sign entries key i ≡ gt
  sign_beyond [] key i h = refl
  sign_beyond ((k, v) ∷ rest) key zero h = absurd (omega arith)
  sign_beyond ((k, v) ∷ rest) key (suc i) h = sign_beyond rest key i (omega arith)
