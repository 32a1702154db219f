-- ===== src/Index/Export/Size.antt =====
-- The size that the index will have in a file, and the file that the export writes.
use mws.Prelude.{
  ℕ, suc, ◌+◌, ◌<◌, ◌≡◌, refl, ap, ◌∙◌, subst, some, List, length, arith, Option-cases, inl, inr,
}
use mws.Prelude.Bits.{u32_mod}
use mws.Index.TmpIndex.{TmpIndexNode, inner, leaf, nil, cons, children}
use mws.Index.Iterator.Traversal.{IsShaped, moves}
use mws.Index.Memsector.{
  Piece, MemsectorFile, memsector_create, memsector_save, total_size, header_size,
}
use mws.Index.Memsector.Inode.{memsector_inode_size}
use mws.Index.Export.{node_size, compute_memsector_size, export_to_memsector}
use mws.Index.Export.Postorder.{
  size_below, write_node, compute_memsector_size-size_below, export_to_memsector-write_node,
}
use mws.Index.Export.Refinement.{node_written}

root_size :
    (root : TmpIndexNode)
    → IsShaped 1 root
    → size_below root + memsector_inode_size (length (children root))
      ≡ size_below root + node_size root
unfolding node_size
root_size (leaf id solutions c) shaped = absurd shaped
root_size (inner nil) shaped = absurd shaped
root_size (inner (cons t n rest)) shaped = ground arith

-- For an index whose root has the shape that complete formulas build, and a fuel of at least the
-- number of its leaves: if a new writer exports the index to a file below 4 GiB, then
-- computeMemsectorSize returns the number of bytes that exportToMemsector writes behind the
-- header.
pub compute_memsector_size-export_to_memsector :
    (crc32 : ℕ → List Piece → ℕ) (fuel : ℕ) (root : TmpIndexNode) {f : MemsectorFile}
    → IsShaped 1 root
    → export_to_memsector crc32 (moves root + suc fuel) root memsector_create ≡ some f
    → header_size + total_size f.contents < u32_mod
    → compute_memsector_size (moves root + suc fuel) root ≡ some (total_size f.contents)
unfolding memsector_save
compute_memsector_size-export_to_memsector crc32 fuel root {f} shaped exported small =
    let written = export_to_memsector-write_node crc32 fuel root memsector_create shaped in
    elim (Option-cases (write_node crc32 root memsector_create)) [
      | inl fails ↦ absurd (ground arith)
      | inr (r, stored) ↦
          let same : f ≡ memsector_save crc32 r.0 r.1 = ground arith in
          let contents : f.contents ≡ r.0.file = ap (λ z. z.contents) same in
          let below = subst (λ z. header_size + total_size z < u32_mod) contents small in
          let node =
            node_written crc32 1 root memsector_create r.0 r.1 shaped refl (omega arith) stored in
          let size = node.size below in
          let whole = ap total_size contents in
          compute_memsector_size-size_below fuel root shaped
          ∙ ap some (omega (arith, root_size root shaped))
    ]
