-- ===== src/Types.antt =====
-- Data types of the index (src/mws/types, src/common/types).
pub mod VectorMap
pub mod CmmlToken
