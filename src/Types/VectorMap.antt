-- ===== src/Types/VectorMap.antt =====
-- src/mws/types/VectorMap.hpp: a map kept in a vector that is sorted by the bytes of its keys.
-- The vector `_data` is a list. `int right` of the source runs from -1, so `right_end` below is
-- `right + 1`: `left <= right` reads `left < right_end`. The `int` indices are exact as long as
-- a vector has fewer than 2^31 entries.
pub mod Keys
pub mod Find
pub mod Insert
pub mod View
pub mod Assign
use Prim.Native.Nat.Ordering.{lt, eq, gt}
use mws.Prelude.{
  ℕ, zero, suc, ◌+◌, ◌-◌, ◌/◌, ◌≡◌, Bool, true, false, Option, none, some, List, [], ◌∷◌, ◌++◌,
  length, get_elem?, set, ltb, if◌then◌else◌,
}
use mws.Prelude.Bytes.{Bytes, memcmp}

-- What `memcmp(&t1, &t2, sizeof(t1))` reads of a key: a block of fixed size. That equal bytes are
-- equal keys holds of a packed structure.
pub record Comparator {ℓ} (K : Type ℓ) : Type ℓ where
  pub bytes : K → Bytes
  pub size_of : ℕ
  pub bytes_size : (a : K) → length (bytes a) ≡ size_of
  pub bytes_injective : (a b : K) → bytes a ≡ bytes b → a ≡ b

abbrev pub VectorMap {ℓ κ} : Type ℓ → Type κ → Type (ℓ ⊔ κ)
VectorMap K V = List (K × V)

-- left + (right - left) / 2
abbrev pub center : ℕ → ℕ → ℕ
center left right_end = left + (right_end - 1 - left) / 2

module _ {ℓ κ} {K : Type ℓ} {V : Type κ} where
  -- An assignment through the iterator that `insert` returned.
  abbrev pub store_at : VectorMap K V × ℕ × Bool → V → VectorMap K V
  store_at placed value = elim (get_elem? placed.0 placed.1) [
    | none ↦ placed.0
    | some entry ↦ set placed.0 placed.1 (entry.0, value)
  ]

module _ {ℓ κ} {K : Type ℓ} {V : Type κ} ⦃c : Comparator K⦄ where
  -- The `while` of `_find_index`, `Comparator<K>::compare` written out; `none` is a read past the vector, or no fuel left.
  unfoldable pub find_loop : ℕ → VectorMap K V → K → ℕ → ℕ → Option ℕ
  find_loop zero entries key left right_end = none
  find_loop (suc fuel) entries key left right_end =
      if ltb left right_end
      then elim (get_elem? entries (center left right_end)) [
        | none ↦ none
        | some entry ↦ elim (memcmp (c.bytes entry.0) (c.bytes key)) [
          | gt ↦ find_loop fuel entries key left (center left right_end)
          | eq ↦ some (center left right_end)
          | lt ↦ find_loop fuel entries key (center left right_end + 1) right_end
        ]
      ]
      else some (length entries)

  -- The index of the key, or the size of the vector.
  unfoldable pub find_index : VectorMap K V → K → Option ℕ
  unfolding find_loop
  find_index entries key = find_loop (suc (length entries)) entries key 0 (length entries)

  -- `find`, read through: the value under the key, if the iterator is not `end()`.
  unfoldable pub find : VectorMap K V → K → Option V
  find entries key = elim (find_index entries key) [
    | none ↦ none
    | some i ↦ elim (get_elem? entries i) [ none ↦ none | some entry ↦ some entry.1 ]
  ]

  -- The three assignments through `tmp` that swap `_data[i]` and `_data[i - 1]`, at `i = suc j`.
  abbrev pub swap_down : VectorMap K V → ℕ → K × V → K × V → VectorMap K V
  swap_down entries j below above = set (set entries (suc j) below) j above

  -- "Re-ordering the vector": the entry at `i` moves down past the greater ones. Gives the vector
  -- and the place where the entry came to rest.
  unfoldable pub sift : ℕ → VectorMap K V → VectorMap K V × ℕ
  sift zero entries = (entries, 0)
  sift (suc j) entries = elim (get_elem? entries (suc j)) [
    | none ↦ (entries, suc j)
    | some above ↦ elim (get_elem? entries j) [
      | none ↦ (entries, suc j)
      | some below ↦ elim (memcmp (c.bytes above.0) (c.bytes below.0)) [
        | lt ↦ sift j (swap_down entries j below above)
        | _ ↦ (entries, suc j)
      ]
    ]
  ]

  -- `insert`: the vector, the place of the key, and whether an entry was added.
  unfoldable pub insert : VectorMap K V → K × V → VectorMap K V × ℕ × Bool
  insert entries (key, value) = elim (find_index entries key) [
    | none ↦ (entries, length entries, false)
    | some i ↦ elim (get_elem? entries i) [
      | none ↦
          let moved = sift (length entries) (entries ++ (key, value) ∷ []) in
          (moved.0, moved.1, true)
      | some entry ↦ (entries, i, false)
    ]
  ]

  -- `map[key] = value`: `operator[]` inserts the key if it is not there, and the value is then
  -- assigned through the reference that it returns.
  unfoldable pub assign : VectorMap K V → K → V → VectorMap K V
  assign entries key value = store_at (insert entries (key, value)) value
