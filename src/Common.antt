-- ===== src/Common.antt =====
-- The parts of src/common that the index uses.
pub mod IdDictionary
pub mod Parcel
pub mod ControlSequence
pub mod Text
