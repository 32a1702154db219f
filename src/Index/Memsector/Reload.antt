-- ===== src/Index/Memsector/Reload.antt =====
-- A memory sector that is written, saved and loaded, with a checksum that goes over the contents
-- piece by piece.
use mws.Prelude.{
  ℕ, ◌+◌, ◌-◌, ◌%◌, ◌<◌, ◌≡◌, refl, ap, sym, ◌∙◌, some, List, [], ◌∷◌, ◌++◌, append_assoc,
  append-nil, subst, arith,
}
use mws.Prelude.Bits.{u64_mod}
use mws.Index.Memsector.{
  Piece, MemsectorWriter, MemsectorFile, memsector_create, memsector_write, memsector_save,
  memsector_load, memsector_get_checksum, total_size, header_size, memsector_magic,
  memsector_version,
}

-- Pieces written one after the other.
unfoldable pub write_all : (ℕ → List Piece → ℕ) → MemsectorWriter → List Piece → MemsectorWriter
write_all crc32 w [] = w
write_all crc32 w (p ∷ ps) = write_all crc32 (memsector_write crc32 w p) ps

module _ (crc32 : ℕ → List Piece → ℕ) (crc32_nil : (sum : ℕ) → crc32 sum [] ≡ sum)
    (crc32_append : (sum : ℕ) (xs ys : List Piece)
      → crc32 sum (xs ++ ys) ≡ crc32 (crc32 sum xs) ys) where
  -- What holds of a writer to which the pieces were written.
  record Holds (w : MemsectorWriter) (ps : List Piece) : Type 0 where
    file : w.file ≡ ps
    offset : w.offset ≡ header_size + total_size ps
    checksum : w.ms.checksum ≡ crc32 0 ps
    magic : w.ms.magic ≡ memsector_magic
    version : w.ms.version ≡ memsector_version

  total_size-append : (xs ys : List Piece) → total_size (xs ++ ys) ≡ total_size xs + total_size ys
  total_size-append [] ys = omega arith
  total_size-append (x ∷ xs) ys = omega (arith, total_size-append xs ys)

  memsector_write-Holds :
      (w : MemsectorWriter) (ps : List Piece) (p : Piece)
      → header_size + total_size (ps ++ p ∷ []) < u64_mod
      → Holds w ps
      → Holds (memsector_write crc32 w p) (ps ++ p ∷ [])
  unfolding memsector_write
  memsector_write-Holds w ps p small h = record {
    file = ap (λ z. z ++ p ∷ []) h.file;
    offset = omega (arith, h.offset, total_size-append ps (p ∷ []));
    checksum = ap (λ z. crc32 z (p ∷ [])) h.checksum ∙ sym (crc32_append 0 ps (p ∷ []));
    magic = h.magic;
    version = h.version;
  }

  write_all-Holds :
      (w : MemsectorWriter) (before ps : List Piece)
      → header_size + total_size (before ++ ps) < u64_mod
      → Holds w before
      → Holds (write_all crc32 w ps) (before ++ ps)
  unfolding write_all
  write_all-Holds w before [] small h = subst (Holds w) (sym (append-nil before)) h
  write_all-Holds w before (p ∷ ps) small h =
      let shift = append_assoc before (p ∷ []) ps in
      let size = ap total_size shift in
      let more = total_size-append (before ++ p ∷ []) ps in
      subst (Holds (write_all crc32 (memsector_write crc32 w p) ps)) shift (
        write_all-Holds (memsector_write crc32 w p) (before ++ p ∷ []) ps (omega arith)
          (memsector_write-Holds w before p (omega arith) h))

  load_of_header :
      (f : MemsectorFile)
      → f.header.magic ≡ memsector_magic
      → f.header.version ≡ memsector_version
      → f.header.index_size ≡ total_size f.contents
      → f.header.checksum ≡ crc32 0 f.contents
      → memsector_load crc32 f ≡ some f
  unfolding memsector_load memsector_get_checksum
  load_of_header f magic version size sum = ground arith

  -- For a checksum that is the same over a list of pieces as over its parts one after the
  -- other: pieces that are written to a new memory sector, with fewer than 2^64 bytes in all,
  -- and saved with an offset of the root, are loaded without a mismatch, with the same contents
  -- and offset.
  pub memsector_load-memsector_save :
      (ps : List Piece) (root_off : ℕ)
      → header_size + total_size ps < u64_mod
      → (let saved = memsector_save crc32 (write_all crc32 memsector_create ps) root_off in
          (memsector_load crc32 saved ≡ some saved)
          × (saved.contents ≡ ps)
          × (saved.header.root_off ≡ root_off))
  unfolding memsector_save
  memsector_load-memsector_save ps root_off small =
      let w = write_all crc32 memsector_create ps in
      let h = write_all-Holds memsector_create [] ps small (record {
        file = refl;
        offset = refl;
        checksum = sym (crc32_nil 0);
        magic = refl;
        version = refl;
      }) in
      let length : total_size w.file ≡ total_size ps = ap total_size h.file in
      let size : (w.offset + (u64_mod - header_size)) % u64_mod ≡ total_size w.file =
        omega (arith, h.offset) in
      (
        load_of_header (memsector_save crc32 w root_off) h.magic h.version size
            (h.checksum ∙ ap (crc32 0) (sym h.file)),
        h.file,
        refl,
      )
