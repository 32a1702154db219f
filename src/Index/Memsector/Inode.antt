-- ===== src/Index/Memsector/Inode.antt =====
-- src/mws/index/index.h: nodes written to a memory sector, and the search for a child in one. A
-- function is `none` where an assertion fails. The `int32_t` indices are exact for nodes with fewer
-- than 2^31 entries; `right_end` is `right + 1`.
use Prim.Native.Nat.Ordering.{lt, eq, gt}
use mws.Prelude.{
  ℕ, zero, suc, ◌+◌, ◌-◌, ◌*◌, ◌%◌, ◌^◌, Bool, ◌&&◌, Option, none, some, List, ◌==◌, leb, ltb, not,
  if◌then◌else◌, get_elem?,
}
use mws.Prelude.Bits.{u32_mod, u64_mod}
use mws.Prelude.Bytes.{memcmp}
use mws.Types.VectorMap.{center}
use mws.Index.EncodedToken.{EncodedToken, token_bytes}
use mws.Index.Memsector.{
  Piece, inode_head, inode_long_head, entry, entry_long, leaf, MemsectorWriter, memsector_write,
  memsector_get_current_offset, memsector_off_null,
}

unfoldable pub memsector_inode_size : ℕ → ℕ
memsector_inode_size num_children = (8 + num_children * 8) % u32_mod

abbrev pub memsector_leaf_size : ℕ
memsector_leaf_size = 8

-- No inode write is in progress.
abbrev pub is_idle : MemsectorWriter → Bool
is_idle msw = (msw.entries_delivered == 0) && (msw.entries_promised == 0)

-- An entry in memory; a read past the node, or of another structure, is `none`.
unfoldable pub inode_data : List Piece → ℕ → Option (EncodedToken × ℕ)
inode_data data_ i = elim (get_elem? data_ i) [
  | some (entry token off) ↦ some (token, off)
  | _ ↦ none
]

unfoldable pub inode_long_data : List Piece → ℕ → Option (EncodedToken × ℕ)
inode_long_data data_ i = elim (get_elem? data_ i) [
  | some (entry_long token off) ↦ some (token, off)
  | _ ↦ none
]

-- The loop of `inode_get_child` and of `inode_long_get_child`, on fuel.
unfoldable pub get_child_loop :
    ℕ → (ℕ → Option (EncodedToken × ℕ)) → EncodedToken → ℕ → ℕ → Option ℕ
get_child_loop zero data_ token left right_end = none
get_child_loop (suc fuel) data_ token left right_end =
    if ltb left right_end
    then elim (data_ (center left right_end)) [
      | none ↦ none
      | some e ↦ elim (memcmp (token_bytes e.0) (token_bytes token)) [
        | gt ↦ get_child_loop fuel data_ token left (center left right_end)
        | eq ↦ some e.1
        | lt ↦ get_child_loop fuel data_ token (center left right_end + 1) right_end
      ]
    ]
    else some memsector_off_null

unfoldable pub inode_get_child : ℕ → List Piece → EncodedToken → Option ℕ
unfolding get_child_loop inode_data
inode_get_child size data_ token = get_child_loop (suc size) (inode_data data_) token 0 size

unfoldable pub inode_long_get_child : ℕ → List Piece → EncodedToken → Option ℕ
unfolding get_child_loop inode_long_data
inode_long_get_child size data_ token =
    get_child_loop (suc size) (inode_long_data data_) token 0 size

module _ (crc32 : ℕ → List Piece → ℕ) where
  unfoldable pub memsector_write_inode_begin :
      MemsectorWriter → ℕ → ℕ → Option (MemsectorWriter × ℕ)
  memsector_write_inode_begin msw num_children furthermost_child_off =
      if is_idle msw
      then elim (memsector_get_current_offset msw) [
        | none ↦ none
        | some curr_off ↦
            let max_rel_off = (curr_off + (u64_mod - furthermost_child_off)) % u64_mod in
            let long = leb (2 ^ 32) max_rel_off in
            let begun = record msw { entries_promised = num_children; has_long_offsets = long } in
            some (
              memsector_write crc32 begun
                  (if long then inode_long_head num_children else inode_head num_children),
              curr_off,
            )
      ]
      else none

  unfoldable pub memsector_write_inode_encoded_token_entry :
      MemsectorWriter → EncodedToken → ℕ → Option MemsectorWriter
  memsector_write_inode_encoded_token_entry msw token off =
      if ltb msw.entries_delivered msw.entries_promised && not (off == memsector_off_null)
      then some (
          memsector_write crc32 (record msw { entries_delivered = msw.entries_delivered + 1 })
            (if msw.has_long_offsets then entry_long token off else entry token (off % u32_mod)))
      else none

  unfoldable pub memsector_write_inode_end : MemsectorWriter → Option MemsectorWriter
  memsector_write_inode_end msw =
      if ltb 0 msw.entries_delivered && msw.entries_delivered == msw.entries_promised
      then some (record msw { entries_delivered = 0; entries_promised = 0 })
      else none

  unfoldable pub memsector_write_leaf : MemsectorWriter → ℕ → ℕ → Option (MemsectorWriter × ℕ)
  memsector_write_leaf msw num_hits formula_id = elim (memsector_get_current_offset msw) [
    | none ↦ none
    | some off ↦
        if is_idle msw
        then some (memsector_write crc32 msw (leaf (num_hits % 2 ^ 30) formula_id), off)
        else none
  ]
