-- ===== src/Common/IdDictionary/Reverse.antt =====
-- The reverse lookup table is the list of the keys by id.
use mws.Prelude.{
  ℕ, zero, suc, ◌+◌, ◌<◌, ◌≡◌, ◌≢◌, refl, List, [], ◌∷◌, ◌++◌, some, length, arith, Eq, get_elem?,
  set, replicate, append_assoc, length-append, ap, lt_of_get_elem?,
}
use mws.Prelude.Bits.{u32_mod}
use mws.Common.IdDictionary.{IdDictionary, slot, fill, get, reverse_lookup_table, reverse_get}
use mws.Common.IdDictionary.Laws.{IsNumbered, IsValid, get_elem?-get}

-- The first component of each entry.
abbrev pub keys_of {ℓ} : {Key : Type ℓ} → List (Key × ℕ) → List Key
keys_of [] = []
keys_of ((k, id) ∷ rest) = k ∷ keys_of rest

module _ {ℓ} {A : Type ℓ} where
  set-append :
      (xs : List A) (y : A) (ys : List A) (v : A) → set (xs ++ y ∷ ys) (length xs) v ≡ xs ++ v ∷ ys
  set-append [] y ys v = refl
  set-append (x ∷ xs) y ys v = ap (λ (l : List A). x ∷ l) (set-append xs y ys v)

module _ {ℓ} {Key : Type ℓ} ⦃e : Eq Key⦄ where
  fill-keys_of :
      (done : List Key) (entries : List (Key × ℕ)) (blank : Key)
      → IsNumbered (suc (length done)) entries
      → length done + length entries < u32_mod
      → fill entries (done ++ replicate (length entries) blank) ≡ done ++ keys_of entries
  unfolding fill
  fill-keys_of done [] blank v small = refl
  fill-keys_of done ((k, id) ∷ rest) blank v small =
      let at_end : slot id ≡ length done = omega (arith, v.0) in
      rw
        (
          at_end,
          set-append done blank (replicate (length rest) blank) k,
          ← append_assoc done (k ∷ []) (replicate (length rest) blank),
          ← append_assoc done (k ∷ []) (keys_of rest),
        )
        (fill-keys_of (done ++ k ∷ []) rest blank
          (let n : length (done ++ k ∷ []) ≡ suc (length done) =
              omega (arith, length-append done (k ∷ [])) in
            rw n v.2)
          (omega (arith, length-append done (k ∷ []))))

  -- For a valid dictionary the table is the keys in the order of their ids.
  pub reverse_lookup_table-eq-keys_of :
      (d : IdDictionary Key) (blank : Key)
      → IsValid d
      → reverse_lookup_table blank d ≡ keys_of d.entries
  unfolding reverse_lookup_table
  reverse_lookup_table-eq-keys_of d blank v =
      fill-keys_of [] d.entries blank v.numbered (omega (arith, v.next, v.fits))

  get_elem?-keys_of :
      (entries : List (Key × ℕ)) (i : ℕ) {k : Key} {id : ℕ}
      → get_elem? entries i ≡ some (k, id)
      → get_elem? (keys_of entries) i ≡ some k
  get_elem?-keys_of [] i h = cc
  get_elem?-keys_of ((j, n) ∷ rest) zero h = cc
  get_elem?-keys_of ((j, n) ∷ rest) (suc i) h = get_elem?-keys_of rest i h

  -- For a valid dictionary, looking the id of a key that is there up in the reverse table gives
  -- the key back.
  pub reverse_get-get :
      (d : IdDictionary Key) (blank key : Key)
      → IsValid d
      → get d key ≢ 0
      → reverse_get (reverse_lookup_table blank d) (get d key) ≡ some key
  unfolding reverse_get
  reverse_get-get d blank key v h =
      let (i, at_i, q) = get_elem?-get d key v h in
      let small : i < length d.entries = lt_of_get_elem? d.entries i at_i in
      let at_slot : slot (get d key) ≡ i = omega (arith, v.next, v.fits) in
      rw (reverse_lookup_table-eq-keys_of d blank v, at_slot) (get_elem?-keys_of d.entries i at_i)
