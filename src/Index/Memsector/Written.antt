-- ===== src/Index/Memsector/Written.antt =====
-- What `_writeChildrenOffsets` leaves in the file, and what IndexAccessor finds there.
use mws.Prelude.{
  ℕ, zero, suc, ◌+◌, ◌-◌, ◌*◌, ◌/◌, ◌%◌, ◌^◌, ◌<◌, ◌≤◌, ◌≡◌, refl, ap, sym, ◌∙◌, true, false,
  Option, none, some, List, [], ◌∷◌, ◌++◌, arith, length, get_elem?, Option-cases, inl, inr,
  if◌then◌else◌, leb, ◌==◌, All, append_assoc, append-nil, All-get_elem?,
}
use mws.Prelude.Bits.{u32_mod, u64_mod}
use mws.Types.VectorMap.{VectorMap, find_index}
use mws.Types.VectorMap.Find.{find_index_total}
use mws.Index.EncodedToken.{EncodedToken, token_comparator}
use mws.Index.Memsector.{
  Piece, inode_head, inode_long_head, entry, entry_long, leaf, size_of, total_size, piece_at,
  read_at, MemsectorWriter, memsector_write, memsector_get_current_offset, header_size,
  memsector_alloc_unit, memsector_off2addr, memsector_off_null, memsector_rel_off2addr,
}
use mws.Index.Memsector.Inode.{
  memsector_write_inode_begin, memsector_write_inode_encoded_token_entry, memsector_write_inode_end,
  inode_get_child,
}
use mws.Index.Memsector.Accessor.{write_entries, write_children_offsets, child_off, get_child}
use mws.Index.Memsector.Lookup.{
  pieces, targets, length-targets, get_elem?-targets, inode_get_child-targets, found,
}

begin_short :
    (crc32 : ℕ → List Piece → ℕ) (w : MemsectorWriter) (size front : ℕ)
    {begun : MemsectorWriter × ℕ}
    → w.offset < 2 ^ 34
    → front < w.offset / 4
    → memsector_write_inode_begin crc32 w size front ≡ some begun
    → (begun.0.file ≡ w.file ++ inode_head size ∷ [])
      × (begun.0.has_long_offsets ≡ false)
      × (memsector_alloc_unit * begun.1 ≡ w.offset)
unfolding memsector_write_inode_begin memsector_get_current_offset memsector_write
begin_short crc32 w size front {begun} small before h =
    let curr = w.offset / 4 % u32_mod in
    let near : leb (2 ^ 32) ((curr + (u64_mod - front)) % u64_mod) ≡ false = ground arith in
    (ground (arith, near), ground (arith, near), ground (arith, near))

piece_at-suc :
    (a b : ℕ) (p : Piece) (ps : List Piece)
    → suc a ≡ size_of p + b
    → piece_at (suc a) (p ∷ ps) ≡ piece_at b ps
unfolding piece_at
piece_at-suc a b p ps h =
    let rest : suc a - size_of p ≡ b = omega arith in
    let fits : leb (size_of p) (suc a) ≡ true = ground arith in rw (fits, rest) refl

size_of_pos : (p : Piece) → 0 < size_of p
size_of_pos (inode_head size) = omega arith
size_of_pos (inode_long_head size) = omega arith
size_of_pos (entry token off) = omega arith
size_of_pos (entry_long token off) = omega arith
size_of_pos (leaf hits id) = omega arith

pub piece_at-total_size : (ps tail : List Piece) → piece_at (total_size ps) (ps ++ tail) ≡ some tail
unfolding piece_at
piece_at-total_size [] [] = refl
piece_at-total_size [] (p ∷ tail) = refl
piece_at-total_size (p ∷ ps) tail =
    let n = size_of p + total_size ps in
    let positive = size_of_pos p in
    let from : suc (n - 1) ≡ n = omega arith in
    ap (λ z. piece_at z (p ∷ (ps ++ tail))) (sym from)
    ∙ piece_at-suc (n - 1) (total_size ps) p (ps ++ tail) from
    ∙ piece_at-total_size ps tail

one_entry :
    (crc32 : ℕ → List Piece → ℕ) (w w' : MemsectorWriter) (token : EncodedToken) (off : ℕ)
    → w.has_long_offsets ≡ false
    → memsector_write_inode_encoded_token_entry crc32 w token off ≡ some w'
    → (w'.file ≡ w.file ++ entry token (off % u32_mod) ∷ []) × (w'.has_long_offsets ≡ false)
unfolding memsector_write_inode_encoded_token_entry memsector_write
one_entry crc32 w w' token off short h = (ground arith, ground arith)

-- The distance that is written leads from the node back to the child.
back_to_child :
    (off child : ℕ)
    → off < 2 ^ 32
    → child < off
    → (let d = (off + (u64_mod - child)) % u64_mod % u32_mod in
        ((d == memsector_off_null) ≡ false)
        × (memsector_rel_off2addr (memsector_off2addr off) d ≡ memsector_off2addr child))
back_to_child off child small before =
    let d : (off + (u64_mod - child)) % u64_mod % u32_mod ≡ off - child = omega arith in
    rw d (ground arith, omega arith)

-- The address of a child by its index.
abbrev pub child_address : List ℕ → ℕ → Option ℕ
child_address offsets i = elim (get_elem? offsets i) [
  | none ↦ none
  | some o ↦ some (memsector_off2addr o)
]

child_off_at :
    (memory : List Piece) (node size : ℕ) (data_ : List Piece) (token : EncodedToken)
    → read_at memory node ≡ some (inode_head size ∷ data_)
    → child_off memory node token ≡ inode_get_child size data_ token
unfolding child_off
child_off_at memory node size data_ token h = rw (h, child_off) refl

get_child_of :
    (memory : List Piece) (node : ℕ) (token : EncodedToken) (off : ℕ)
    → child_off memory node token ≡ some off
    → get_child memory node token
      ≡ some (if off == memsector_off_null then none else some (memsector_rel_off2addr node off))
unfolding get_child
get_child_of memory node token off h = rw (h, get_child) refl

get_elem?_beyond {ℓ} : {A : Type ℓ} (xs : List A) (i : ℕ) → length xs ≤ i → get_elem? xs i ≡ none
get_elem?_beyond [] i h = refl
get_elem?_beyond (x ∷ xs) zero h = absurd (omega arith)
get_elem?_beyond (x ∷ xs) (suc i) h = get_elem?_beyond xs i (omega arith)

length_le_of_missing {ℓ} :
    {A : Type ℓ} (xs : List A) (i : ℕ) → get_elem? xs i ≡ none → length xs ≤ i
length_le_of_missing [] i h = omega arith
length_le_of_missing (x ∷ xs) zero h = absurd (cc)
length_le_of_missing (x ∷ xs) (suc i) h = omega (arith, length_le_of_missing xs i h)

module _ {ℓ} (crc32 : ℕ → List Piece → ℕ) {V : Type ℓ} where
  file-write_entries :
      (children : VectorMap EncodedToken V) (offsets : List ℕ) (curr_off : ℕ)
      (w w' : MemsectorWriter)
      → w.has_long_offsets ≡ false
      → write_entries crc32 children offsets curr_off w ≡ some w'
      → w'.file ≡ w.file ++ pieces (targets curr_off children offsets)
  unfolding write_entries
  file-write_entries [] offsets curr_off w w' short h = ground (arith, append-nil w.file)
  file-write_entries ((token, node) ∷ rest) [] curr_off w w' short h = absurd (cc)
  file-write_entries ((token, node) ∷ rest) (off ∷ offsets) curr_off w w' short h =
      let dist = (curr_off + (u64_mod - off)) % u64_mod in
      elim (Option-cases (memsector_write_inode_encoded_token_entry crc32 w token dist)) [
        | inl fails ↦ absurd (ground arith)
        | inr (w1, written) ↦
            let (one, short1) = one_entry crc32 w w1 token dist short written in
            let rest_written : write_entries crc32 rest offsets curr_off w1 ≡ some w' =
              ground arith in
            file-write_entries rest offsets curr_off w1 w' short1 rest_written
            ∙ ap (λ z. z ++ pieces (targets curr_off rest offsets)) one
            ∙ append_assoc w.file (entry token (dist % u32_mod) ∷ [])
                (pieces (targets curr_off rest offsets))
      ]

  -- The node that is written, behind what was in the file.
  pub file-write_children_offsets :
      (w w' : MemsectorWriter) (children : VectorMap EncodedToken V) (offsets : List ℕ) (off : ℕ)
      → w.offset < 2 ^ 34
      → All (λ o. o < w.offset / 4) offsets
      → write_children_offsets crc32 w children offsets ≡ some (w', off)
      → (w'.file ≡ w.file ++ inode_head (length children) ∷ pieces (targets off children offsets))
        × (length children ≡ length offsets)
        × (memsector_alloc_unit * off ≡ w.offset)
  unfolding write_children_offsets memsector_write_inode_begin memsector_get_current_offset
      memsector_write memsector_write_inode_end
  file-write_children_offsets w w' children [] off small before h = absurd (cc)
  file-write_children_offsets w w' children (front ∷ offsets) off small before h =
      elim (Option-cases (memsector_write_inode_begin crc32 w (length children) front)) [
        | inl fails ↦ absurd (ground arith)
        | inr (begun, begins) ↦
            elim (Option-cases (write_entries crc32 children (front ∷ offsets) begun.1 begun.0)) [
              | inl fails ↦ absurd (ground arith)
              | inr (written, writes) ↦
                  let (headed, short, at_offset) =
                    begin_short crc32 w (length children) front small before.0 begins in
                  let same_off : off ≡ begun.1 = ground arith in
                  let same_file : w'.file ≡ written.file = ground arith in
                  let same_length : length children ≡ suc (length offsets) = ground arith in
                  let entries =
                    file-write_entries children (front ∷ offsets) begun.1 begun.0 written short
                      writes in
                  (
                    same_file
                        ∙ entries
                        ∙ ap (λ z. z ++ pieces (targets begun.1 children (front ∷ offsets))) headed
                        ∙ append_assoc w.file (inode_head (length children) ∷ [])
                            (pieces (targets begun.1 children (front ∷ offsets)))
                        ∙ ap
                            (λ z.
                              w.file
                              ++ inode_head (length children)
                                ∷ pieces (targets z children (front ∷ offsets)))
                            (sym same_off),
                    same_length,
                    ap (λ z. memsector_alloc_unit * z) same_off ∙ at_offset,
                  )
            ]
      ]

  -- If _writeChildrenOffsets writes a node for children with offsets that lie before it, by a
  -- writer below 2^34 bytes whose offset is the size of the header and of what was written,
  -- then in the file, with anything written later, getChild of IndexAccessor at the node's
  -- address gives for each token the null pointer if the search in the children does not find
  -- it, and else the address of the child's offset.
  pub get_child-write_children_offsets :
      (w w' : MemsectorWriter) (children : VectorMap EncodedToken V) (offsets : List ℕ) (off : ℕ)
      (later : List Piece) (token : EncodedToken)
      → w.offset ≡ header_size + total_size w.file
      → w.offset < 2 ^ 34
      → All (λ o. o < w.offset / 4) offsets
      → write_children_offsets crc32 w children offsets ≡ some (w', off)
      → get_child (w'.file ++ later) (memsector_off2addr off) token
        ≡ elim (find_index children token) [ none ↦ none | some i ↦ some (child_address offsets i) ]
  unfolding read_at
  get_child-write_children_offsets w w' children offsets off later token placed small before h =
      let (file, same, at_offset) =
        file-write_children_offsets w w' children offsets off small before h in
      let v = targets off children offsets in
      let node = inode_head (length children) ∷ (pieces v ++ later) in
      let address : memsector_off2addr off - header_size ≡ total_size w.file = omega arith in
      let behind : leb header_size (memsector_off2addr off) ≡ true = ground arith in
      let layout : w'.file ++ later ≡ w.file ++ node =
        ap (λ z. z ++ later) file
        ∙ append_assoc w.file (inode_head (length children) ∷ pieces v) later in
      let reached : read_at (w'.file ++ later) (memsector_off2addr off) ≡ some node =
        rw (layout, behind, address) (piece_at-total_size w.file node) in
      let looked : child_off (w'.file ++ later) (memsector_off2addr off) token
          ≡ found v (find_index children token) =
        child_off_at (w'.file ++ later) (memsector_off2addr off) (length children)
          (pieces v ++ later) token reached
        ∙ inode_get_child-targets off children offsets later token same in
      let (i, index, inside) = find_index_total children token in
      elim (Option-cases (get_elem? children i)) [
        | inl missing ↦
            let beyond = length_le_of_missing children i missing in
            let no_target =
              get_elem?_beyond v i (omega (arith, length-targets off children offsets same)) in
            let no_offset = get_elem?_beyond offsets i (omega arith) in
            get_child_of (w'.file ++ later) (memsector_off2addr off) token 0
              (looked ∙ rw (index, found, no_target) refl)
            ∙ rw (index, child_address, no_offset) refl
        | inr (e, there) ↦
            let (o, at_index, target) = get_elem?-targets off children offsets i same there in
            let before_off : o < w.offset / 4 =
              All-get_elem? (λ z. z < w.offset / 4) offsets i before at_index in
            let back = back_to_child off o (omega arith) (omega arith) in
            let d = (off + (u64_mod - o)) % u64_mod % u32_mod in
            get_child_of (w'.file ++ later) (memsector_off2addr off) token d
              (looked ∙ rw (index, found, target) refl)
            ∙ rw (back.0, back.1, index, child_address, at_index) refl
      ]
