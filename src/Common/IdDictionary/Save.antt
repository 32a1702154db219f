-- ===== src/Common/IdDictionary/Save.antt =====
-- `save` and the constructor that reads the file back.
use mws.Prelude.{
  ℕ, suc, ◌+◌, ◌<◌, ◌≡◌, ◌≢◌, refl, List, [], ◌∷◌, ◌++◌, none, length, arith, All, append_assoc,
  append-nil, length-append, ap, ◌∙◌, ◌%◌, nat_eq, list_eq, false,
}
use mws.Prelude.Bytes.{Bytes}
use mws.Prelude.Bits.{u32_mod}
use mws.Common.IdDictionary.{
  IdDictionary, empty, find_entry, put, write_keys, save, put_nonempty, read_keys, load,
}
use mws.Common.IdDictionary.Laws.{IsNumbered, IsValid, put_new}
use mws.Common.IdDictionary.Reverse.{keys_of, reverse_lookup_table-eq-keys_of}

-- A key that the file format can hold: at least one byte, and none of them NUL.
pub record IsWritable (key : Bytes) : Type 0 where
  pub nonempty : key ≢ []
  pub no_nul : All (λ c. c ≢ 0) key

read_keys_byte :
    (c : ℕ) (rest key : Bytes) (d : IdDictionary Bytes)
    → c ≢ 0
    → read_keys (c ∷ rest) key d ≡ read_keys rest (key ++ c ∷ []) d
unfolding read_keys
read_keys_byte c rest key d h = ground arith

read_keys-key :
    (key rest acc : Bytes) (d : IdDictionary Bytes)
    → All (λ c. c ≢ 0) key
    → read_keys (key ++ 0 ∷ rest) acc d ≡ read_keys rest [] (put_nonempty d (acc ++ key))
read_keys-key [] rest acc d h = unfold read_keys in rw append-nil
read_keys-key (c ∷ key) rest acc d h =
    rw (read_keys_byte c (key ++ 0 ∷ rest) acc d h.0, ← append_assoc acc (c ∷ []) key)
      (read_keys-key key rest (acc ++ c ∷ []) d h.1)

abbrev puts : List Bytes → IdDictionary Bytes → IdDictionary Bytes
puts [] d = d
puts (key ∷ rest) d = puts rest (put d key).0

put_nonempty-put :
    (d : IdDictionary Bytes) (key : Bytes) → key ≢ [] → put_nonempty d key ≡ (put d key).0
unfolding put_nonempty
put_nonempty-put d [] h = absurd (h refl)
put_nonempty-put d (c ∷ key) h = refl

read_keys-write_keys :
    (keys : List Bytes) (d : IdDictionary Bytes)
    → All IsWritable keys
    → read_keys (write_keys keys) [] d ≡ puts keys d
unfolding write_keys
read_keys-write_keys [] d h = unfold read_keys in refl
read_keys-write_keys (key ∷ rest) d h =
    rw (read_keys-key key (write_keys rest) [] d h.0.no_nul, put_nonempty-put d key h.0.nonempty)
      (read_keys-write_keys rest (put d key).0 h.1)

find_entry-fresh :
    (n : ℕ) (done : List (Bytes × ℕ)) (k : Bytes) (id : ℕ) (rest : List (Bytes × ℕ))
    → IsNumbered n (done ++ (k, id) ∷ rest)
    → find_entry k done ≡ none
unfolding find_entry
find_entry-fresh n [] k id rest v = refl
find_entry-fresh n ((j, i) ∷ done) k id rest v =
    ground (arith, find_entry-fresh (suc n) done k id rest v.2, fresh done v.1)
  where
    fresh :
        (done : List (Bytes × ℕ))
        → All (λ (x : Bytes × ℕ). list_eq.beq j x.0 ≡ false) (done ++ (k, id) ∷ rest)
        → list_eq.beq j k ≡ false
    fresh [] a = a.0
    fresh (x ∷ done) a = fresh done a.1

IsNumbered-id :
    (n : ℕ) (done : List (Bytes × ℕ)) (k : Bytes) (id : ℕ) (rest : List (Bytes × ℕ))
    → IsNumbered n (done ++ (k, id) ∷ rest)
    → id ≡ n + length done
IsNumbered-id n [] k id rest v = omega (arith, v.0)
IsNumbered-id n (x ∷ done) k id rest v = omega (arith, IsNumbered-id (suc n) done k id rest v.2)

-- Putting the keys of a numbered list one by one rebuilds the list.
puts-keys_of :
    (done rest : List (Bytes × ℕ)) (n m : ℕ)
    → IsNumbered 1 (done ++ rest)
    → n ≡ length done + 1
    → m ≡ length done + length rest + 1
    → m < u32_mod
    → puts (keys_of rest) (record { entries = done; next_id = n })
      ≡ record { entries = done ++ rest; next_id = m }
puts-keys_of done [] n m v p q small = let e : n ≡ m = omega arith in rw (append-nil, e)
puts-keys_of done ((k, id) ∷ rest) n m v p q small =
    let absent : find_entry k done ≡ none = find_entry-fresh 1 done k id rest v in
    let same : n ≡ id = omega (arith, IsNumbered-id 1 done k id rest v) in
    let longer = length-append done ((k, id) ∷ []) in
    ap (λ (r : IdDictionary Bytes × ℕ). puts (keys_of rest) r.0)
      (put_new (record { entries = done; next_id = n }) k absent)
    ∙ rw (same, ← append_assoc done ((k, id) ∷ []) rest)
        (puts-keys_of (done ++ (k, id) ∷ []) rest ((id + 1) % u32_mod) m (rw append_assoc v)
          (omega (arith, longer)) (omega (arith, longer)) small)

-- Saving a valid dictionary whose keys are nonempty and free of NUL, and reading the file back,
-- gives the same dictionary with the same ids.
pub load-save :
    (d : IdDictionary Bytes) → IsValid d → All IsWritable (keys_of d.entries) → load (save d) ≡ d
unfolding load save
load-save d v w =
    rw (reverse_lookup_table-eq-keys_of d [] v, read_keys-write_keys (keys_of d.entries) empty w)
      (puts-keys_of [] d.entries 1 d.next_id v.numbered refl (omega (arith, v.next)) v.fits)
