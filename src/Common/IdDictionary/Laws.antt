-- ===== src/Common/IdDictionary/Laws.antt =====
-- `get` and `put`: ids are handed out once, in order, and stay.
use mws.Prelude.{
  ℕ, suc, ◌+◌, ◌<◌, ◌≤◌, ◌≡◌, ◌≢◌, refl, List, [], ◌∷◌, ◌++◌, false, none, some, length,
  length-append, arith, Eq, ap, beq_refl, All, All-append, ◌==◌, if◌then◌else◌, Bool-cases,
  Option-cases, inl, inr, ◌%◌, ◌∙◌, get_elem?, lt_of_get_elem?,
}
use mws.Prelude.Bits.{u32_mod}
use mws.Common.IdDictionary.{IdDictionary, empty, find_entry, assign_entry, get, put}

module _ {ℓ} {Key : Type ℓ} ⦃e : Eq Key⦄ where
  -- Different keys, with the ids n, n + 1, ….
  abbrev pub IsNumbered : ℕ → List (Key × ℕ) → Type 0
  IsNumbered n [] = Unit
  IsNumbered n ((k, id) ∷ rest) =
      (id ≡ n) × All (λ (x : Key × ℕ). e.beq k x.0 ≡ false) rest × IsNumbered (suc n) rest

  pub record IsValid (d : IdDictionary Key) : Type 0 where
    pub numbered : IsNumbered 1 d.entries
    pub next : d.next_id ≡ length d.entries + 1
    pub fits : d.next_id < u32_mod

  pub empty-IsValid : IsValid empty
  empty-IsValid = record { numbered = tt; next = refl; fits = omega arith }

  find_entry_bounds :
      (key : Key) (n : ℕ) (entries : List (Key × ℕ)) {id : ℕ}
      → IsNumbered n entries
      → find_entry key entries ≡ some id
      → (n ≤ id) × (id < n + length entries)
  unfolding find_entry
  find_entry_bounds key n [] v h = absurd (cc)
  find_entry_bounds key n ((k, i) ∷ rest) {id} v h =
      ground (arith, find_entry_bounds key (suc n) rest {id = id} v.2)

  IsNumbered-append :
      (n : ℕ) (entries : List (Key × ℕ)) (key : Key) (id : ℕ)
      → IsNumbered n entries
      → find_entry key entries ≡ none
      → id ≡ n + length entries
      → IsNumbered n (entries ++ (key, id) ∷ [])
  unfolding find_entry
  IsNumbered-append n [] key id v h q = (omega arith, tt, tt)
  IsNumbered-append n ((k, i) ∷ rest) key id v h q = ground (
    arith,
    IsNumbered-append (suc n) rest key id v.2,
    All-append (λ (x : Key × ℕ). e.beq k x.0 ≡ false) rest ((key, id) ∷ []) v.1,
  )

  find_entry-append :
      (entries : List (Key × ℕ)) (key j : Key) (id : ℕ)
      → find_entry key entries ≡ none
      → find_entry j (entries ++ (key, id) ∷ [])
        ≡ (if e.beq key j then some id else find_entry j entries)
  unfolding find_entry
  find_entry-append [] key j id h = refl
  find_entry-append ((k, i) ∷ rest) key j id h =
      ground
        (arith, find_entry-append rest key j id, e.beq_iff key j, e.beq_iff k j, e.beq_iff k key)

  -- In a valid dictionary id 0 means that the key is not there.
  pub get_zero_iff :
      (d : IdDictionary Key) (key : Key)
      → IsValid d
      → get d key ≡ 0
      → find_entry key d.entries ≡ none
  unfolding get
  get_zero_iff d key v h = elim (Option-cases (find_entry key d.entries)) [
    | inl absent ↦ absent
    | inr (id, found) ↦ absurd (ground (arith, find_entry_bounds key 1 d.entries v.numbered found))
  ]

  pub get_absent :
      (d : IdDictionary Key) (key : Key) → find_entry key d.entries ≡ none → get d key ≡ 0
  unfolding get
  get_absent d key h = ground arith

  assign_entry_absent :
      (key : Key) (id : ℕ) (entries : List (Key × ℕ))
      → find_entry key entries ≡ none
      → assign_entry key id entries ≡ entries ++ (key, id) ∷ []
  unfolding find_entry
  assign_entry_absent key id [] h = refl
  assign_entry_absent key id ((k, i) ∷ rest) h = ground (arith, assign_entry_absent key id rest)

  pub put_new :
      (d : IdDictionary Key) (key : Key)
      → find_entry key d.entries ≡ none
      → put d key ≡ (
        record {
          entries = d.entries ++ (key, d.next_id) ∷ [];
          next_id = (d.next_id + 1) % u32_mod;
        },
        d.next_id,
      )
  unfolding put
  put_new d key h = rw (get_absent d key h, assign_entry_absent key d.next_id d.entries h) refl

  pub put_old : (d : IdDictionary Key) (key : Key) → get d key ≢ 0 → put d key ≡ (d, get d key)
  unfolding put
  put_old d key h = ground arith

  -- While there is an id left, putting a key keeps the dictionary valid: different keys,
  -- numbered from 1 in order, and the next id behind them.
  pub put-IsValid :
      (d : IdDictionary Key) (key : Key)
      → IsValid d
      → d.next_id + 1 < u32_mod
      → IsValid (put d key).0
  put-IsValid d key v room = elim (Bool-cases (get d key == 0)) [
    | inr old ↦ rw (put_old d key (λ z. ground arith)) v
    | inl new ↦
        let zero_id : get d key ≡ 0 = ground arith in
        rw (put_new d key (get_zero_iff d key v zero_id)) (record {
          numbered =
              IsNumbered-append 1 d.entries key d.next_id v.numbered (get_zero_iff d key v zero_id)
                (omega (arith, v.next));
          next = omega (arith, v.next, length-append d.entries ((key, d.next_id) ∷ []), room);
          fits = omega (arith, room);
        })
  ]

  -- In a valid dictionary, putting a key makes `get` return for it the id that `put` returned,
  -- and changes `get` for no other key.
  pub get-put :
      (d : IdDictionary Key) (key j : Key)
      → IsValid d
      → get (put d key).0 j ≡ (if e.beq key j then (put d key).1 else get d j)
  get-put d key j v = elim (Bool-cases (get d key == 0)) [
    | inr old ↦ rw (put_old d key (λ z. ground arith)) (ground (arith, e.beq_iff key j))
    | inl new ↦
        let zero_id : get d key ≡ 0 = ground arith in
        rw (put_new d key (get_zero_iff d key v zero_id)) (
          unfold get in
          ground
            (arith, find_entry-append d.entries key j d.next_id (get_zero_iff d key v zero_id)))
  ]

  -- A key that was put has an id other than KEY_NOT_FOUND.
  pub put-ne-zero : (d : IdDictionary Key) (key : Key) → IsValid d → (put d key).1 ≢ 0
  unfolding put
  put-ne-zero d key v = ground (arith, v.next)

  -- An id that was put is below the next one.
  pub put-lt :
      (d : IdDictionary Key) (key : Key)
      → IsValid d
      → d.next_id + 1 < u32_mod
      → (put d key).1 < (put d key).0.next_id
  unfolding put get
  put-lt d key v room = elim (Option-cases (find_entry key d.entries)) [
    | inl absent ↦ ground arith
    | inr (id, found) ↦
        ground (arith, find_entry_bounds key 1 d.entries {id = id} v.numbered found, v.next)
  ]

  find_entry_mem :
      (entries : List (Key × ℕ)) (key : Key) (n : ℕ) {id : ℕ}
      → IsNumbered n entries
      → find_entry key entries ≡ some id
      → (i : ℕ) × (get_elem? entries i ≡ some (key, id)) × (id ≡ n + i)
  unfolding find_entry
  find_entry_mem [] key n v h = absurd (cc)
  find_entry_mem ((k, i) ∷ rest) key n v h = elim (Bool-cases (e.beq k key)) [
    | inl same ↦ (0, ground (arith, e.beq_iff k key), ground arith)
    | inr other ↦
        let (j, at_j, q) = find_entry_mem rest key (suc n) v.2 (ground arith) in
        (suc j, at_j, omega arith)
  ]

  -- The place of a key in the list is its id, less one.
  pub get_elem?-get :
      (d : IdDictionary Key) (key : Key)
      → IsValid d
      → get d key ≢ 0
      → (i : ℕ) × (get_elem? d.entries i ≡ some (key, get d key)) × (get d key ≡ i + 1)
  unfolding get
  get_elem?-get d key v h = elim (Option-cases (find_entry key d.entries)) [
    | inl absent ↦ absurd (ground arith)
    | inr (id, found) ↦
        let (i, at_i, q) = find_entry_mem d.entries key 1 v.numbered found in
        rw (found, get) (i, at_i, omega arith)
  ]

  -- In a valid dictionary two keys that are there never share an id.
  pub get_injective :
      (d : IdDictionary Key) (k j : Key) → IsValid d → get d k ≢ 0 → get d k ≡ get d j → k ≡ j
  get_injective d k j v h q =
      let (a, at_a, qa) = get_elem?-get d k v h in
      let (b, at_b, qb) = get_elem?-get d j v (λ z. h (q ∙ z)) in
      let same : a ≡ b = omega arith in cc

  -- The id that `put` returns is at most the next id before the call.
  pub put_id-le : (d : IdDictionary Key) (key : Key) → IsValid d → (put d key).1 ≤ d.next_id
  put_id-le d key v = elim (Bool-cases (get d key == 0)) [
    | inr old ↦
        let (i, at_i, q) = get_elem?-get d key v (λ z. ground arith) in
        rw (put_old d key (λ z. ground arith))
          (omega (arith, lt_of_get_elem? d.entries i at_i, v.next))
    | inl new ↦
        let zero_id : get d key ≡ 0 = ground arith in
        rw (put_new d key (get_zero_iff d key v zero_id)) (omega arith)
  ]

  pub get-le : (d : IdDictionary Key) (key : Key) → IsValid d → get d key ≤ length d.entries
  get-le d key v = elim (Bool-cases (get d key == 0)) [
    | inl absent ↦ ground arith
    | inr there ↦
        let (i, at_i, q) = get_elem?-get d key v (λ z. ground arith) in
        omega (arith, lt_of_get_elem? d.entries i at_i)
  ]

  pub get-put_self :
      (d : IdDictionary Key) (key : Key) → IsValid d → get (put d key).0 key ≡ (put d key).1
  get-put_self d key v = get-put d key key v ∙ rw (beq_refl key)

  -- An id that was given out stays.
  pub get-put_known :
      (d : IdDictionary Key) (key k : Key) → IsValid d → get d k ≢ 0 → get (put d key).0 k ≡ get d k
  get-put_known d key k v h = elim (Bool-cases (e.beq key k)) [
    | inr other ↦ get-put d key k v ∙ rw other
    | inl same ↦
        let q : key ≡ k = (e.beq_iff key k).0 same in
        let known : get d key ≢ 0 = rw q h in
        ap (λ (r : IdDictionary Key × ℕ). get r.0 k) (put_old d key known)
  ]

  pub next_id-put-le : (d : IdDictionary Key) (key : Key) → (put d key).0.next_id ≤ d.next_id + 1
  unfolding put
  next_id-put-le d key = ground arith
