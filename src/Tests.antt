-- ===== src/Tests.antt =====
-- Each theorem with hypotheses, applied to concrete data.
mod Dictionary
mod Vector
mod Tokens
mod Encoding
mod IndexTree
mod Databases
mod Queries
mod Building
mod Reading
mod Harvest
mod Memory
mod Exporting
mod Engine
mod Handling
mod Schemas
