-- ===== src/Tests.antt =====
-- Concrete runs of the components, and the theorems at concrete inputs.
mod Connections
mod Digest
mod Codecs
mod Queries
mod Refs
mod Stores
mod Syntax
mod Schemas
mod Tries
mod Walks
