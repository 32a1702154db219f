-- ===== src/Tests/Memory.antt =====
-- A memory sector with two leaves and the node above them.
use mws.Prelude.{ℕ, ◌+◌, ◌≡◌, refl, some, none, List, [], ◌∷◌, ◌++◌, length, length-append, arith}
use mws.Types.VectorMap.{VectorMap, find_index}
use mws.Index.EncodedToken.{EncodedToken, encoded_token, token_comparator}
use mws.Index.Memsector.{
  Piece, leaf, MemsectorWriter, memsector_create, memsector_write, memsector_save, memsector_load,
  memsector_get_current_offset, memsector_off2addr,
}
use mws.Index.Memsector.Inode.{
  memsector_write_inode_begin, memsector_write_inode_encoded_token_entry, memsector_write_inode_end,
}
use mws.Index.Memsector.Accessor.{write_entries, write_children_offsets, get_child}
use mws.Index.Memsector.Written.{child_address, get_child-write_children_offsets}
use mws.Index.Memsector.Reload.{write_all, memsector_load-memsector_save}

-- Counts the pieces.
abbrev pub crc32 : ℕ → List Piece → ℕ
crc32 sum ps = sum + length ps

abbrev leaves : List Piece
leaves = leaf 1 1 ∷ leaf 3 2 ∷ []

memsector_load-memsector_save_example :
    let saved = memsector_save crc32 (write_all crc32 memsector_create leaves) 7 in
    (memsector_load crc32 saved ≡ some saved)
    × (saved.contents ≡ leaves)
    × (saved.header.root_off ≡ 7)
memsector_load-memsector_save_example =
    memsector_load-memsector_save crc32 (λ sum. omega arith)
      (λ sum xs ys. omega (arith, length-append xs ys)) leaves 7 (omega arith)

abbrev children : VectorMap EncodedToken ℕ
children = (encoded_token 161 0, 0) ∷ (encoded_token 162 0, 1) ∷ []

abbrev offsets : List ℕ
offsets = 7 ∷ 9 ∷ []

abbrev before : MemsectorWriter
before = write_all crc32 memsector_create leaves

abbrev written : MemsectorWriter × ℕ
written = elim (write_children_offsets crc32 before children offsets) [
  | none ↦ (before, 0)
  | some r ↦ r
]

node_written : write_children_offsets crc32 before children offsets ≡ some (written.0, written.1)
unfolding write_children_offsets write_entries memsector_write_inode_begin
    memsector_write_inode_encoded_token_entry memsector_write_inode_end memsector_write
    memsector_get_current_offset write_all
node_written = refl

get_child-write_children_offsets_example :
    get_child (written.0.file ++ []) (memsector_off2addr written.1) (encoded_token 162 0)
    ≡ elim (find_index children (encoded_token 162 0)) [
      | none ↦ none
      | some i ↦ some (child_address offsets i)
    ]
unfolding write_all memsector_write
get_child-write_children_offsets_example =
    get_child-write_children_offsets crc32 before written.0 children offsets written.1 []
      (encoded_token 162 0) refl (omega arith) (omega arith, (omega arith, tt)) node_written
