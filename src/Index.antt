-- ===== src/Index.antt =====
-- The index (src/mws/index).
pub mod EncodedToken
pub mod Encoder
pub mod TmpIndex
pub mod Iterator
pub mod Builder
pub mod Memsector
pub mod Export
