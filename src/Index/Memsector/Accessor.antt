-- ===== src/Index/Memsector/Accessor.antt =====
-- src/mws/index/IndexAccessor.hpp: a node is the address of what was written there; and
-- `_writeChildrenOffsets` of TmpIndex.cpp, which writes one. A function is `none` where an
-- assertion fails or the address is none of a node.
use mws.Prelude.{
  ℕ, suc, ◌+◌, ◌-◌, ◌%◌, Option, none, some, List, [], ◌∷◌, ◌==◌, length, if◌then◌else◌,
}
use mws.Prelude.Bits.{u64_mod}
use mws.Types.VectorMap.{VectorMap}
use mws.Index.EncodedToken.{EncodedToken}
use mws.Index.Memsector.{
  Piece, inode_head, inode_long_head, leaf, MemsectorWriter, read_at, memsector_off_null,
  memsector_rel_off2addr,
}
use mws.Index.Memsector.Inode.{
  inode_data, inode_long_data, inode_get_child, inode_long_get_child, memsector_write_inode_begin,
  memsector_write_inode_encoded_token_entry, memsector_write_inode_end,
}

-- The number of children, for the iterator over them.
unfoldable pub node_size : List Piece → ℕ → Option ℕ
node_size memory node = elim (read_at memory node) [
  | some (inode_head size ∷ data_) ↦ some size
  | some (inode_long_head size ∷ data_) ↦ some size
  | _ ↦ none
]

-- `data[index]`
unfoldable pub node_entry : List Piece → ℕ → ℕ → Option (EncodedToken × ℕ)
unfolding inode_data inode_long_data
node_entry memory node index = elim (read_at memory node) [
  | some (inode_head size ∷ data_) ↦ inode_data data_ index
  | some (inode_long_head size ∷ data_) ↦ inode_long_data data_ index
  | _ ↦ none
]

-- `getToken` and `getNode` of the iterator at an index.
unfoldable pub get_token : List Piece → ℕ → ℕ → Option EncodedToken
unfolding node_entry
get_token memory node index = elim (node_entry memory node index) [
  | none ↦ none
  | some e ↦ some e.0
]

unfoldable pub get_node : List Piece → ℕ → ℕ → Option ℕ
unfolding node_entry
get_node memory node index = elim (node_entry memory node index) [
  | none ↦ none
  | some e ↦ if e.1 == memsector_off_null then none else some (memsector_rel_off2addr node e.1)
]

-- The search in a node of either type.
unfoldable pub child_off : List Piece → ℕ → EncodedToken → Option ℕ
unfolding inode_get_child inode_long_get_child
child_off memory node token = elim (read_at memory node) [
  | some (inode_head size ∷ data_) ↦ inode_get_child size data_ token
  | some (inode_long_head size ∷ data_) ↦ inode_long_get_child size data_ token
  | _ ↦ none
]

-- `getChild`; `some none` is the null pointer.
unfoldable pub get_child : List Piece → ℕ → EncodedToken → Option (Option ℕ)
unfolding child_off
get_child memory node token = elim (child_off memory node token) [
  | none ↦ none
  | some off ↦
      some (if off == memsector_off_null then none else some (memsector_rel_off2addr node off))
]

unfoldable pub get_formula_id : List Piece → ℕ → Option ℕ
get_formula_id memory node = elim (read_at memory node) [
  | some (leaf num_hits formula_id ∷ rest) ↦ some formula_id
  | _ ↦ none
]

unfoldable pub get_hits_count : List Piece → ℕ → Option ℕ
get_hits_count memory node = elim (read_at memory node) [
  | some (leaf num_hits formula_id ∷ rest) ↦ some num_hits
  | _ ↦ none
]

module _ (crc32 : ℕ → List Piece → ℕ) where
  -- The loop of `_writeChildrenOffsets` over the children and their offsets.
  unfoldable pub write_entries {ℓ} :
      {V : Type ℓ}
      → VectorMap EncodedToken V
      → List ℕ
      → ℕ
      → MemsectorWriter
      → Option MemsectorWriter
  write_entries [] offsets curr_offset mswr = some mswr
  write_entries ((token, node) ∷ rest) [] curr_offset mswr = none
  write_entries ((token, node) ∷ rest) (offset ∷ offsets) curr_offset mswr =
      elim (memsector_write_inode_encoded_token_entry crc32 mswr token
        ((curr_offset + (u64_mod - offset)) % u64_mod)) [
          | none ↦ none
          | some mswr' ↦ write_entries rest offsets curr_offset mswr'
        ]

  -- `offsets.front()` of an empty vector is undefined.
  unfoldable pub write_children_offsets {ℓ} :
      {V : Type ℓ}
      → MemsectorWriter
      → VectorMap EncodedToken V
      → List ℕ
      → Option (MemsectorWriter × ℕ)
  unfolding write_entries
  write_children_offsets mswr children [] = none
  write_children_offsets mswr children (front ∷ offsets) =
      if length children == suc (length offsets)
      then elim (memsector_write_inode_begin crc32 mswr (length children) front) [
        | none ↦ none
        | some begun ↦ elim (write_entries children (front ∷ offsets) begun.1 begun.0) [
          | none ↦ none
          | some written ↦ elim (memsector_write_inode_end crc32 written) [
            | none ↦ none
            | some ended ↦ some (ended, begun.1)
          ]
        ]
      ]
      else none
