-- ===== src/Tests/Exporting.antt =====
-- An index of two formulas, exported.
use mws.Prelude.{ℕ, suc, ◌+◌, ◌%◌, ◌^◌, ◌<◌, ◌≡◌, refl, none, some, [], ◌∷◌, arith}
use mws.Prelude.Bytes.{memcmp}
use mws.Types.VectorMap.{find, find_index, find_loop}
use mws.Index.EncodedToken.{EncodedFormula, encoded_token, token_comparator}
use mws.Index.TmpIndex.{TmpIndexNode, inner, leaf, nil, cons, walk, get_child}
use mws.Index.Iterator.Callback.{iterate, complete, advance, drain}
use mws.Index.Iterator.Traversal.{moves, visit, iterate-visit}
use mws.Index.Memsector.{
  MemsectorFile, memsector_create, memsector_write, memsector_save, memsector_off2addr,
  memsector_get_current_offset, total_size, header_size,
}
use mws.Index.Memsector.Inode.{
  memsector_write_inode_begin, memsector_write_inode_encoded_token_entry, memsector_write_inode_end,
  memsector_write_leaf,
}
use mws.Index.Memsector.Accessor.{
  write_entries, write_children_offsets, get_formula_id, get_hits_count,
}
use mws.Index.Export.{
  size_callbacks, compute_memsector_size, export_to_memsector, finish_export, export_push,
  export_pop,
}
use mws.Index.Export.Postorder.{write_node, export_to_memsector-write_node}
use mws.Index.Export.Walk.{walk_file, export_to_memsector-walk}
use mws.Index.Export.Size.{compute_memsector_size-export_to_memsector}
use mws.Prelude.Bits.{u32_mod}
use mws.Tests.Memory.{crc32}

-- Two formulas that apply one constant to two others.
abbrev pub index : TmpIndexNode
index = inner (
    cons (encoded_token 161 2)
      (inner (
        cons (encoded_token 162 0) (inner (cons (encoded_token 163 0) (leaf 1 4 nil) nil))
          (cons (encoded_token 163 0) (inner (cons (encoded_token 162 0) (leaf 2 1 nil) nil)) nil)))
      nil)

iterate-visit_example :
    iterate size_callbacks (moves index + suc 0) index 0 ≡ visit size_callbacks index 0
iterate-visit_example = iterate-visit size_callbacks 0 index 0 (((tt, tt), ((tt, tt), tt)), tt)

export_to_memsector-write_node_example :
    export_to_memsector crc32 (moves index + suc 0) index memsector_create
    ≡ elim (write_node crc32 index memsector_create) [
      | none ↦ none
      | some r ↦ some (memsector_save crc32 r.0 r.1)
    ]
export_to_memsector-write_node_example =
    export_to_memsector-write_node crc32 0 index memsector_create (((tt, tt), ((tt, tt), tt)), tt)

abbrev pub exported : MemsectorFile
exported = elim (export_to_memsector crc32 (moves index + suc 0) index memsector_create) [
  | none ↦ record { header = memsector_create.ms; contents = [] }
  | some f ↦ f
]

index_exported :
    export_to_memsector crc32 (moves index + suc 0) index memsector_create ≡ some exported
unfolding export_to_memsector finish_export export_push export_pop iterate complete advance drain
    write_children_offsets write_entries memsector_write_inode_begin
    memsector_write_inode_encoded_token_entry memsector_write_inode_end memsector_write_leaf
    memsector_write memsector_get_current_offset memsector_save
index_exported = refl

abbrev pub formula : EncodedFormula
formula = encoded_token 161 2 ∷ encoded_token 163 0 ∷ encoded_token 162 0 ∷ []

formula_found : walk formula index ≡ some (leaf 2 1 nil)
unfolding walk get_child find find_index find_loop memcmp token_comparator
formula_found = refl

exported_small : header_size + total_size exported.contents < 2 ^ 34
unfolding export_to_memsector finish_export export_push export_pop iterate complete advance drain
    write_children_offsets write_entries memsector_write_inode_begin
    memsector_write_inode_encoded_token_entry memsector_write_inode_end memsector_write_leaf
    memsector_write memsector_get_current_offset memsector_save
exported_small = omega arith

export_to_memsector-walk_example :
    (addr : ℕ) × (walk_file formula exported.contents (memsector_off2addr exported.header.root_off)
      ≡ some (some addr))
    × (get_formula_id exported.contents addr ≡ some 2)
    × (get_hits_count exported.contents addr ≡ some (1 % 2 ^ 30))
export_to_memsector-walk_example =
    export_to_memsector-walk crc32 0 index formula (((tt, tt), ((tt, tt), tt)), tt) index_exported
      exported_small formula_found

exported_below_u32 : header_size + total_size exported.contents < u32_mod
unfolding export_to_memsector finish_export export_push export_pop iterate complete advance drain
    write_children_offsets write_entries memsector_write_inode_begin
    memsector_write_inode_encoded_token_entry memsector_write_inode_end memsector_write_leaf
    memsector_write memsector_get_current_offset memsector_save
exported_below_u32 = omega arith

compute_memsector_size-export_to_memsector_example :
    compute_memsector_size (moves index + suc 0) index ≡ some (total_size exported.contents)
compute_memsector_size-export_to_memsector_example =
    compute_memsector_size-export_to_memsector crc32 0 index (((tt, tt), ((tt, tt), tt)), tt)
      index_exported exported_below_u32
