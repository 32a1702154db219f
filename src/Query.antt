-- ===== src/Query.antt =====
-- The queries on an index (src/mws/query).
pub mod Schema
pub mod Context
pub mod Backtrack
pub mod Search
pub mod Engine
pub mod Handler
pub mod SchemaHandler
