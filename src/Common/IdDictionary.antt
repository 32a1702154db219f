-- ===== src/Common/IdDictionary.antt =====
-- src/common/types/IdDictionary.hpp: keys numbered in the order in which they come, from 1.
-- `std::map` is a list of entries; nothing here depends on the order in which it iterates. An id
-- is a uint32_t (`MeaningId` is the only instance), so `_nextId++` wraps.
pub mod Laws
pub mod Reverse
pub mod Save
use mws.Prelude.{
  ℕ, zero, suc, ◌+◌, ◌-◌, ◌%◌, List, [], ◌∷◌, ◌++◌, Bool, Option, none, some, length, get_elem?,
  set, replicate, ◌==◌, if◌then◌else◌, Eq, nat_eq, list_eq,
}
use mws.Prelude.Bytes.{Bytes}
use mws.Prelude.Bits.{u32_mod}

abbrev pub valueid_start : ℕ
valueid_start = 1

-- VALUEID_START - 1
abbrev pub key_not_found : ℕ
key_not_found = 0

pub record IdDictionary {ℓ} (Key : Type ℓ) : Type ℓ where
  pub entries : List (Key × ℕ)
  pub next_id : ℕ

-- The default constructor.
abbrev pub empty {ℓ} : {Key : Type ℓ} → IdDictionary Key
empty = record { entries = []; next_id = valueid_start }

module _ {ℓ} {Key : Type ℓ} ⦃e : Eq Key⦄ where
  -- `_map.find(key)`
  unfoldable pub find_entry : Key → List (Key × ℕ) → Option ℕ
  find_entry key [] = none
  find_entry key ((k, id) ∷ rest) = if e.beq k key then some id else find_entry key rest

  unfoldable pub get : IdDictionary Key → Key → ℕ
  unfolding find_entry
  get d key = elim (find_entry key d.entries) [ some id ↦ id | none ↦ key_not_found ]

  -- `_map[key] = id`
  abbrev pub assign_entry : Key → ℕ → List (Key × ℕ) → List (Key × ℕ)
  assign_entry key id [] = (key, id) ∷ []
  assign_entry key id ((k, i) ∷ rest) =
      let below = assign_entry key id rest in if e.beq k key then (k, id) ∷ rest else (k, i) ∷ below

  unfoldable pub put : IdDictionary Key → Key → IdDictionary Key × ℕ
  put d key =
      if get d key == key_not_found
      then (
        record {
          entries = assign_entry key d.next_id d.entries;
          next_id = (d.next_id + 1) % u32_mod;
        },
        d.next_id,
      )
      else (d, get d key)

-- `valueId - VALUEID_START` in uint32_t
abbrev pub slot : ℕ → ℕ
slot id = (id + u32_mod - valueid_start) % u32_mod

module _ {ℓ} {Key : Type ℓ} where
  -- The loop of `getReverseLookupTable`.
  unfoldable pub fill : List (Key × ℕ) → List Key → List Key
  fill [] keys = keys
  fill ((k, id) ∷ rest) keys = fill rest (set keys (slot id) k)

  -- `resize` fills the table with `Key()`.
  unfoldable pub reverse_lookup_table : Key → IdDictionary Key → List Key
  unfolding fill
  reverse_lookup_table blank d = fill d.entries (replicate (length d.entries) blank)

  -- `ReverseLookupTable::get`; `none` is the exception of `at`.
  unfoldable pub reverse_get : List Key → ℕ → Option Key
  reverse_get keys id = get_elem? keys (slot id)

-- `save`: each key with a NUL behind it, in the order of the ids.
unfoldable pub write_keys : List Bytes → Bytes
write_keys [] = []
write_keys (key ∷ rest) = key ++ 0 ∷ write_keys rest

unfoldable pub save : IdDictionary Bytes → Bytes
unfolding write_keys
save d = write_keys (reverse_lookup_table [] d)

-- `if (key.size() > 0) put(key);`, the warning for an empty key left out
unfoldable pub put_nonempty : IdDictionary Bytes → Bytes → IdDictionary Bytes
put_nonempty d [] = d
put_nonempty d (c ∷ key) = (put d (c ∷ key)).0

-- The loop of the constructor that reads a file. `getline` collects `key` up to a NUL or the end.
unfoldable pub read_keys : Bytes → Bytes → IdDictionary Bytes → IdDictionary Bytes
unfolding put_nonempty
read_keys [] key d = put_nonempty d key
read_keys (c ∷ rest) key d =
    read_keys rest (if c == 0 then [] else key ++ c ∷ []) (if c == 0 then put_nonempty d key else d)

unfoldable pub load : Bytes → IdDictionary Bytes
load file = read_keys file [] empty
