-- ===== src/Index/Memsector.antt =====
-- src/mws/index/memsector.{h,c} and index.h: the file of an index. Its contents behind the header
-- are the structures that were written, one after the other, each with its size; one that is read
-- is the one that was written at its address. `crc32` is a parameter. Writes succeed.
pub mod Inode
pub mod Accessor
pub mod Lookup
pub mod Written
pub mod Reload
use mws.Prelude.{
  ℕ, zero, suc, ◌+◌, ◌-◌, ◌*◌, ◌/◌, ◌%◌, ◌^◌, Bool, true, false, Option, none, some, List, [], ◌∷◌,
  ◌++◌, ◌==◌, leb, if◌then◌else◌,
}
use mws.Prelude.Bits.{u32_mod, u64_mod}
use mws.Index.EncodedToken.{EncodedToken}

-- The packed structures inode_t and inode_long_t without their data, the entries of both, leaf_t.
pub data Piece : Type 0 where
  inode_head inode_long_head : ℕ → Piece
  entry entry_long : EncodedToken → ℕ → Piece
  leaf : ℕ → ℕ → Piece

-- `sizeof`
abbrev pub size_of : Piece → ℕ
size_of (inode_head size) = 8
size_of (inode_long_head size) = 8
size_of (entry token off) = 8
size_of (entry_long token off) = 12
size_of (leaf num_hits formula_id) = 8

abbrev pub total_size : List Piece → ℕ
total_size [] = 0
total_size (p ∷ ps) = size_of p + total_size ps

abbrev pub memsector_off_null : ℕ
memsector_off_null = 0

abbrev pub memsector_alloc_unit : ℕ
memsector_alloc_unit = 4

abbrev pub memsector_magic : ℕ
memsector_magic = 2295004808

abbrev pub memsector_version : ℕ
memsector_version = 1

pub record MemsectorHeader : Type 0 where
  pub magic : ℕ
  pub version : ℕ
  pub index_size : ℕ
  pub checksum : ℕ
  pub root_off : ℕ

-- sizeof(memsector_header_t)
abbrev pub header_size : ℕ
header_size = 28

-- The `inode` member of the writer is its last three fields; `file` holds what is behind the header.
pub record MemsectorWriter : Type 0 where
  pub file : List Piece
  pub ms : MemsectorHeader
  pub offset : ℕ
  pub entries_promised : ℕ
  pub entries_delivered : ℕ
  pub has_long_offsets : Bool

-- `memsector_create`
abbrev pub memsector_create : MemsectorWriter
memsector_create = record {
  file = [];
  ms = record {
    magic = memsector_magic;
    version = memsector_version;
    index_size = 0;
    checksum = 0;
    root_off = 0;
  };
  offset = header_size;
  entries_promised = 0;
  entries_delivered = 0;
  has_long_offsets = false;
}

-- What is in the file after `memsector_save`.
pub record MemsectorFile : Type 0 where
  pub header : MemsectorHeader
  pub contents : List Piece

-- `memsector_get_current_offset`, whose result has 32 bits.
unfoldable pub memsector_get_current_offset : MemsectorWriter → Option ℕ
memsector_get_current_offset msw =
    if (msw.offset % memsector_alloc_unit) == 0
    then some (msw.offset / memsector_alloc_unit % u32_mod)
    else none

-- The addresses are counted from the start of the file.
abbrev pub memsector_off2addr : ℕ → ℕ
memsector_off2addr off = memsector_alloc_unit * off

abbrev pub memsector_rel_off2addr : ℕ → ℕ → ℕ
memsector_rel_off2addr base_addr off =
    (base_addr + (u64_mod - memsector_alloc_unit * off % u64_mod)) % u64_mod

-- What stands in the file from an address behind the header on.
unfoldable pub piece_at : ℕ → List Piece → Option (List Piece)
piece_at zero ps = some ps
piece_at (suc a) [] = none
piece_at (suc a) (p ∷ ps) =
    let rest = piece_at (suc a - size_of p) ps in if leb (size_of p) (suc a) then rest else none

unfoldable pub read_at : List Piece → ℕ → Option (List Piece)
unfolding piece_at
read_at contents addr =
    if leb header_size addr then piece_at (addr - header_size) contents else none

module _ (crc32 : ℕ → List Piece → ℕ) where
  unfoldable pub memsector_write : MemsectorWriter → Piece → MemsectorWriter
  memsector_write msw piece = record msw {
    file = msw.file ++ piece ∷ [];
    offset = (msw.offset + size_of piece) % u64_mod;
    ms = record msw.ms { checksum = crc32 msw.ms.checksum (piece ∷ []) };
  }

  -- `memsector_save`
  unfoldable pub memsector_save : MemsectorWriter → ℕ → MemsectorFile
  memsector_save msw index_off = record {
    header = record msw.ms {
      root_off = index_off;
      index_size = (msw.offset + (u64_mod - header_size)) % u64_mod;
    };
    contents = msw.file;
  }

  -- `memsector_get_checksum`, over the bytes that the header counts.
  unfoldable pub memsector_get_checksum : MemsectorFile → Option ℕ
  memsector_get_checksum f =
      if f.header.index_size == total_size f.contents then some (crc32 0 f.contents) else none

  -- `memsector_load` of a file that can be mapped; `none` is the result -1. An index size that is
  -- not that of the contents counts as a mismatch.
  unfoldable pub memsector_load : MemsectorFile → Option MemsectorFile
  unfolding memsector_get_checksum
  memsector_load f =
      if f.header.magic == memsector_magic
      then if f.header.version == memsector_version
        then elim (memsector_get_checksum f) [
          | none ↦ none
          | some sum ↦ if f.header.checksum == sum then some f else none
        ]
        else none
      else none
