-- ===== src/Index/Export/Growth.antt =====
-- The file grows with each write, and the writer's offset is where it ends.
use mws.Prelude.{
  ℕ, ◌+◌, ◌%◌, ◌^◌, ◌≤◌, ◌≡◌, some, List, [], ◌∷◌, ◌++◌, length, arith, Option-cases, subst, ◌-◌,
  inl, inr,
}
use mws.Prelude.Bits.{u32_mod, u64_mod}
use mws.Types.VectorMap.{VectorMap}
use mws.Index.EncodedToken.{EncodedToken}
use mws.Index.TmpIndex.{TmpIndexNode, inner, leaf, Children, nil, cons, to_vector}
use mws.Index.Memsector.{
  Piece, inode_head, inode_long_head, entry, entry_long, MemsectorWriter, memsector_write,
  total_size, header_size,
}
use mws.Index.Memsector.Inode.{
  memsector_write_inode_begin, memsector_write_inode_encoded_token_entry, memsector_write_inode_end,
  memsector_write_leaf,
}
use mws.Index.Memsector.Accessor.{write_entries, write_children_offsets}
use mws.Index.Export.Postorder.{write_node, write_list}

abbrev pub IsPlaced : MemsectorWriter → Type 0
IsPlaced w = w.offset ≡ (header_size + total_size w.file) % u64_mod

-- A writer that comes of another by writing more.
pub record Grows (w w' : MemsectorWriter) : Type 0 where
  pub size : total_size w.file ≤ total_size w'.file
  pub placed :
      w.offset ≡ (header_size + total_size w.file) % u64_mod
      → w'.offset ≡ (header_size + total_size w'.file) % u64_mod

pub total_size-append : (xs ys : List Piece) → total_size (xs ++ ys) ≡ total_size xs + total_size ys
total_size-append [] ys = omega arith
total_size-append (x ∷ xs) ys = omega (arith, total_size-append xs ys)

pub Grows-trans : (u v w : MemsectorWriter) → Grows u v → Grows v w → Grows u w
Grows-trans u v w a b = record {
  size = omega (arith, a.size, b.size);
  placed = λ p. b.placed (a.placed p);
}

module _ (crc32 : ℕ → List Piece → ℕ) where
  memsector_write-Grows : (w : MemsectorWriter) (p : Piece) → Grows w (memsector_write crc32 w p)
  unfolding memsector_write
  memsector_write-Grows w p =
      let more = total_size-append w.file (p ∷ []) in
      record { size = omega (arith, more); placed = λ h. omega (arith, more) }

  begin-Grows :
      (w : MemsectorWriter) (n front : ℕ) {r : MemsectorWriter × ℕ}
      → memsector_write_inode_begin crc32 w n front ≡ some r
      → Grows w r.0
  unfolding memsector_write_inode_begin memsector_write
  begin-Grows w n front h = ground (
    arith,
    total_size-append w.file (inode_head n ∷ []),
    total_size-append w.file (inode_long_head n ∷ []),
  )

  entry-Grows :
      (w w' : MemsectorWriter) (token : EncodedToken) (off : ℕ)
      → memsector_write_inode_encoded_token_entry crc32 w token off ≡ some w'
      → Grows w w'
  unfolding memsector_write_inode_encoded_token_entry memsector_write
  entry-Grows w w' token off h = ground (
    arith,
    total_size-append w.file (entry token (off % u32_mod) ∷ []),
    total_size-append w.file (entry_long token off ∷ []),
  )

  pub leaf-Grows :
      (w : MemsectorWriter) (hits id : ℕ) {r : MemsectorWriter × ℕ}
      → memsector_write_leaf crc32 w hits id ≡ some r
      → Grows w r.0
  unfolding memsector_write_leaf memsector_write
  leaf-Grows w hits id h =
      ground (arith, total_size-append w.file (Piece.leaf (hits % 2 ^ 30) id ∷ []))

  end-Grows : (w w' : MemsectorWriter) → memsector_write_inode_end crc32 w ≡ some w' → Grows w w'
  unfolding memsector_write_inode_end
  end-Grows w w' h = ground arith

module _ {ℓ} (crc32 : ℕ → List Piece → ℕ) where
  entries-Grows :
      {V : Type ℓ} (children : VectorMap EncodedToken V) (offsets : List ℕ) (curr_off : ℕ)
      (w w' : MemsectorWriter)
      → write_entries crc32 children offsets curr_off w ≡ some w'
      → Grows w w'
  unfolding write_entries
  entries-Grows [] offsets curr_off w w' h =
      let same : w ≡ w' = ground arith in
      subst (Grows w) same (record { size = omega arith; placed = λ p. p })
  entries-Grows ((token, node) ∷ rest) [] curr_off w w' h = absurd (cc)
  entries-Grows ((token, node) ∷ rest) (off ∷ offsets) curr_off w w' h =
      let dist = (curr_off + (u64_mod - off)) % u64_mod in
      elim (Option-cases (memsector_write_inode_encoded_token_entry crc32 w token dist)) [
        | inl fails ↦ absurd (ground arith)
        | inr (w1, written) ↦
            Grows-trans w w1 w' (entry-Grows crc32 w w1 token dist written)
              (entries-Grows rest offsets curr_off w1 w' (ground arith))
      ]

  pub children-Grows :
      {V : Type ℓ} (w w' : MemsectorWriter) (children : VectorMap EncodedToken V) (offsets : List ℕ)
      (off : ℕ)
      → write_children_offsets crc32 w children offsets ≡ some (w', off)
      → Grows w w'
  unfolding write_children_offsets
  children-Grows w w' children [] off h = absurd (cc)
  children-Grows w w' children (front ∷ offsets) off h =
      elim (Option-cases (memsector_write_inode_begin crc32 w (length children) front)) [
        | inl fails ↦ absurd (ground arith)
        | inr (begun, begins) ↦
            elim (Option-cases (write_entries crc32 children (front ∷ offsets) begun.1 begun.0)) [
              | inl fails ↦ absurd (ground arith)
              | inr (written, writes) ↦
                  Grows-trans w begun.0 w' (begin-Grows crc32 w (length children) front begins) (
                    Grows-trans begun.0 written w'
                      (entries-Grows children (front ∷ offsets) begun.1 begun.0 written writes)
                      (end-Grows crc32 written w' (ground arith)))
            ]
      ]

module _ (crc32 : ℕ → List Piece → ℕ) where
  mutual
    unfolding write_node

    pub node-Grows :
        (n : TmpIndexNode) (w w' : MemsectorWriter) (off : ℕ)
        → write_node crc32 n w ≡ some (w', off)
        → Grows w w'
    node-Grows (leaf id solutions c) w w' off h = leaf-Grows crc32 w solutions id h
    node-Grows (inner c) w w' off h = elim (Option-cases (write_list crc32 c w [])) [
      | inl fails ↦ absurd (ground arith)
      | inr (r, listed) ↦
          Grows-trans w r.0 w' (list-Grows c w r.0 [] r.1 listed)
            (children-Grows crc32 r.0 w' (to_vector c) r.1 off (ground arith))
    ]

    pub list-Grows :
        (c : Children) (w w' : MemsectorWriter) (before offsets : List ℕ)
        → write_list crc32 c w before ≡ some (w', offsets)
        → Grows w w'
    list-Grows nil w w' before offsets h =
        let same : w ≡ w' = ground arith in
        subst (Grows w) same (record { size = omega arith; placed = λ p. p })
    list-Grows (cons t n rest) w w' before offsets h = elim (Option-cases (write_node crc32 n w)) [
      | inl fails ↦ absurd (ground arith)
      | inr (r, written) ↦
          Grows-trans w r.0 w' (node-Grows n w r.0 r.1 written)
            (list-Grows rest r.0 w' (before ++ r.1 ∷ []) offsets (ground arith))
    ]
