-- ===== src/Index/Export/Refinement.antt =====
-- Writing a node of the index leaves it in the file.
use mws.Prelude.{
  ℕ, zero, suc, ◌+◌, ◌*◌, ◌-◌, ◌/◌, ◌%◌, ◌^◌, ◌<◌, ◌≡◌, refl, ap, sym, ◌∙◌, subst, some, List, [],
  ◌∷◌, ◌++◌, length, All, append_assoc, append-nil, arith, Option-cases, inl, inr, leb, true,
}
use mws.Prelude.Bits.{u64_mod}
use mws.Index.EncodedToken.{EncodedToken, token_comparator}
use mws.Index.TmpIndex.{TmpIndexNode, inner, leaf, Children, nil, cons, to_vector}
use mws.Index.Iterator.Traversal.{IsShaped, AllShaped}
use mws.Index.Memsector
use mws.Index.Memsector.{
  Piece, MemsectorWriter, MemsectorFile, memsector_create, memsector_write, memsector_save,
  memsector_get_current_offset, total_size, header_size, read_at, piece_at, memsector_off2addr,
}
use mws.Index.Memsector.Inode.{memsector_write_leaf}
use mws.Index.Memsector.Accessor.{get_formula_id, get_hits_count, write_children_offsets}
use mws.Index.Memsector.Lookup.{pieces, targets}
use mws.Index.Memsector.Written.{
  piece_at-total_size, file-write_children_offsets, get_child-write_children_offsets,
}
use mws.Prelude.Bits.{u32_mod}
use mws.Types.VectorMap.{VectorMap}
use mws.Index.EncodedToken.{EncodedToken}
use mws.Index.Memsector.Inode.{memsector_inode_size}
use mws.Index.Export.{node_size}
use mws.Index.Memsector.Lookup.{length-targets}
use mws.Index.Export.Postorder.{write_node, write_list, size_below, size_all}
use mws.Index.Export.Growth.{node-Grows, list-Grows, children-Grows, leaf-Grows, total_size-append}
use mws.Index.Export.Represents.{Represents, AllRepresent, extend, extend_all}

read_at_end :
    (ps tail : List Piece) (off : ℕ)
    → memsector_off2addr off ≡ header_size + total_size ps
    → read_at (ps ++ tail) (memsector_off2addr off) ≡ some tail
unfolding read_at
read_at_end ps tail off h =
    let address : memsector_off2addr off - header_size ≡ total_size ps = omega arith in
    let behind : leb header_size (memsector_off2addr off) ≡ true = ground arith in
    rw (behind, address) (piece_at-total_size ps tail)

total_size-pieces : (v : VectorMap EncodedToken ℕ) → total_size (pieces v) ≡ length v * 8
total_size-pieces [] = omega arith
total_size-pieces ((token, off) ∷ rest) = omega (arith, total_size-pieces rest)

-- What the nodes that are written count for, without a wrap-around.
pub inner_size :
    (t : EncodedToken) (n : TmpIndexNode) (rest : Children)
    → size_below (inner (cons t n rest)) + node_size (inner (cons t n rest))
      ≡ size_all (cons t n rest) + (8 + length (to_vector (cons t n rest)) * 8) % u32_mod
unfolding size_below node_size memsector_inode_size
inner_size t n rest = ground arith

leaf_node_size :
    (id solutions : ℕ) → size_below (leaf id solutions nil) + node_size (leaf id solutions nil) ≡ 8
unfolding size_below node_size
leaf_node_size id solutions = ground arith

module _ (crc32 : ℕ → List Piece → ℕ) where
  leaf_written :
      (w : MemsectorWriter) (hits id : ℕ) {r : MemsectorWriter × ℕ}
      → w.offset < 2 ^ 34
      → memsector_write_leaf crc32 w hits id ≡ some r
      → (r.0.file ≡ w.file ++ Piece.leaf (hits % 2 ^ 30) id ∷ [])
        × (memsector_off2addr r.1 ≡ w.offset)
  unfolding memsector_write_leaf memsector_write memsector_get_current_offset
  leaf_written w hits id small h = (ground arith, ground arith)

  leaf_shows :
      (w w' : MemsectorWriter) (off id solutions : ℕ)
      → w'.file ≡ w.file ++ Piece.leaf (solutions % 2 ^ 30) id ∷ []
      → memsector_off2addr off ≡ header_size + total_size w.file
      → Represents w'.file off (leaf id solutions nil)
  unfolding get_formula_id get_hits_count
  leaf_shows w w' off id solutions file exact = λ later.
      let p = Piece.leaf (solutions % 2 ^ 30) id in
      let layout : w'.file ++ later ≡ w.file ++ p ∷ later =
        ap (λ z. z ++ later) file ∙ append_assoc w.file (p ∷ []) later in
      let reached : read_at (w'.file ++ later) (memsector_off2addr off) ≡ some (p ∷ later) =
        ap (λ z. read_at z (memsector_off2addr off)) layout
        ∙ read_at_end w.file (p ∷ later) off exact in
      (rw (get_formula_id, reached) refl, rw (get_hits_count, reached) refl)

  -- What a node, or a list of them, leaves in a file below 16 GiB.
  pub record NodeWritten (w w' : MemsectorWriter) (off : ℕ) (n : TmpIndexNode) : Type 0 where
    behind : List Piece
    file : w'.file ≡ w.file ++ behind
    offset : off < (header_size + total_size w'.file) / 4
    pub shows : Represents w'.file off n
    pub size :
        header_size + total_size w'.file < u32_mod
        → total_size w'.file ≡ total_size w.file + size_below n + node_size n

  record ListWritten (w w' : MemsectorWriter) (before offsets : List ℕ) (c : Children)
      : Type 0 where
    behind : List Piece
    file : w'.file ≡ w.file ++ behind
    added : List ℕ
    offsets_are : offsets ≡ before ++ added
    offset : All (λ o. o < (header_size + total_size w'.file) / 4) added
    shows : AllRepresent w'.file added c
    size :
        header_size + total_size w'.file < u32_mod
        → total_size w'.file ≡ total_size w.file + size_all c

  abbrev IsPlaced : MemsectorWriter → Type 0
  IsPlaced w = w.offset ≡ (header_size + total_size w.file) % u64_mod

  inner_written :
      (w w1 w' : MemsectorWriter) (t : EncodedToken) (n : TmpIndexNode) (rest : Children) (off : ℕ)
      (offsets : List ℕ)
      → ListWritten w w1 [] offsets (cons t n rest)
      → IsPlaced w1
      → header_size + total_size w1.file < 2 ^ 34
      → write_children_offsets crc32 w1 (to_vector (cons t n rest)) offsets ≡ some (w', off)
      → NodeWritten w w' off (inner (cons t n rest))
  inner_written w w1 w' t n rest off offsets l placed below written =
      let v = to_vector (cons t n rest) in
      let exact : w1.offset ≡ header_size + total_size w1.file = omega arith in
      let small : w1.offset < 2 ^ 34 = omega arith in
      let inside : All (λ o. o < w1.offset / 4) offsets =
        subst (λ z. All (λ o. o < z / 4) offsets) (sym exact)
          (subst (All (λ o. o < (header_size + total_size w1.file) / 4)) (sym l.offsets_are)
            l.offset) in
      let (file, same, at_offset) =
        file-write_children_offsets crc32 w1 w' v offsets off small inside written in
      let x = Memsector.inode_head (length v) ∷ pieces (targets off v offsets) in
      let size = ap total_size file ∙ total_size-append w1.file x in
      record {
        behind = l.behind ++ x;
        file = file ∙ ap (λ z. z ++ x) l.file ∙ append_assoc w.file l.behind x;
        offset = omega (arith, size, at_offset, exact);
        shows = (
          offsets,
          λ later token.
              get_child-write_children_offsets crc32 w1 w' v offsets off later token exact small
                inside written,
          subst (λ z. AllRepresent z offsets (cons t n rest)) (sym file)
              (extend_all w1.file x offsets (cons t n rest)
                (subst (λ z. AllRepresent w1.file z (cons t n rest)) (sym l.offsets_are) l.shows)),
        );
        size = λ below_u32. omega (
          arith,
          size,
          l.size (omega (arith, size)),
          total_size-pieces (targets off v offsets),
          length-targets off v offsets same,
          inner_size t n rest,
        );
      }

  mutual
    unfolding write_node size_all

    pub node_written :
        (k : ℕ) (n : TmpIndexNode) (w w' : MemsectorWriter) (off : ℕ)
        → IsShaped k n
        → IsPlaced w
        → header_size + total_size w'.file < 2 ^ 34
        → write_node crc32 n w ≡ some (w', off)
        → NodeWritten w w' off n
    node_written zero (inner c) w w' off shaped placed small h = absurd shaped
    node_written zero (leaf id solutions (cons t n rest)) w w' off shaped placed small h =
        absurd shaped
    node_written (suc k) (leaf id solutions c) w w' off shaped placed small h = absurd shaped
    node_written (suc k) (inner nil) w w' off shaped placed small h = absurd shaped
    node_written zero (leaf id solutions nil) w w' off shaped placed small h =
        let grows = leaf-Grows crc32 w solutions id h in
        let below : w.offset < 2 ^ 34 = omega (arith, grows.size) in
        let (file, at_offset) = leaf_written w solutions id below h in
        let p = Piece.leaf (solutions % 2 ^ 30) id in
        let size = ap total_size file ∙ total_size-append w.file (p ∷ []) in
        let exact : memsector_off2addr off ≡ header_size + total_size w.file =
          omega (arith, grows.size) in
        record {
          behind = p ∷ [];
          file = file;
          offset = omega (arith, size, exact);
          shows = leaf_shows w w' off id solutions file exact;
          size = λ below_u32. omega (arith, size, leaf_node_size id solutions);
        }
    node_written (suc k) (inner (cons t n rest)) w w' off shaped placed small h =
        let c = cons t n rest in
        elim (Option-cases (write_list crc32 c w [])) [
          | inl fails ↦ absurd (ground arith)
          | inr (r, listed) ↦
              let written : write_children_offsets crc32 r.0 (to_vector c) r.1 ≡ some (w', off) =
                ground arith in
              let grows = children-Grows crc32 r.0 w' (to_vector c) r.1 off written in
              let below : header_size + total_size r.0.file < 2 ^ 34 = omega (arith, grows.size) in
              let placed' = (list-Grows crc32 c w r.0 [] r.1 listed).placed placed in
              let l = list_written k (cons t n rest) w r.0 [] r.1 shaped placed below listed in
              inner_written w r.0 w' t n rest off r.1 l placed' below written
        ]

    list_written :
        (k : ℕ) (c : Children) (w w' : MemsectorWriter) (before offsets : List ℕ)
        → AllShaped k c
        → IsPlaced w
        → header_size + total_size w'.file < 2 ^ 34
        → write_list crc32 c w before ≡ some (w', offsets)
        → ListWritten w w' before offsets c
    list_written k nil w w' before offsets shaped placed small h =
        let same : w ≡ w' = ground arith in
        let same_offsets : offsets ≡ before = ground arith in
        record {
          behind = [];
          file = ap (λ z. z.file) (sym same) ∙ sym (append-nil w.file);
          added = [];
          offsets_are = same_offsets ∙ sym (append-nil before);
          offset = tt;
          shows = tt;
          size = λ below_u32. omega (arith, ap (λ z. total_size z.file) same);
        }
    list_written k (cons t n rest) w w' before offsets shaped placed small h =
        elim (Option-cases (write_node crc32 n w)) [
          | inl fails ↦ absurd (ground arith)
          | inr (r, written) ↦
              let before' = before ++ r.1 ∷ [] in
              let listed : write_list crc32 rest r.0 before' ≡ some (w', offsets) = ground arith in
              let grows = list-Grows crc32 rest r.0 w' before' offsets listed in
              let below : header_size + total_size r.0.file < 2 ^ 34 = omega (arith, grows.size) in
              let placed' = (node-Grows crc32 n w r.0 r.1 written).placed placed in
              let a = node_written (k + t.arity) n w r.0 r.1 shaped.0 placed below written in
              let b = list_written k rest r.0 w' before' offsets shaped.1 placed' small listed in
              record {
                behind = a.behind ++ b.behind;
                file =
                    b.file ∙ ap (λ z. z ++ b.behind) a.file ∙ append_assoc w.file a.behind b.behind;
                added = r.1 ∷ b.added;
                offsets_are = b.offsets_are ∙ append_assoc before (r.1 ∷ []) b.added;
                offset = (omega (arith, a.offset, grows.size), b.offset);
                shows = (
                  subst (λ z. Represents z r.1 n) (sym b.file)
                      (extend r.0.file b.behind r.1 n a.shows),
                  b.shows,
                );
                size = λ below_u32.
                    omega (arith, b.size below_u32, a.size (omega (arith, grows.size)));
              }
        ]
