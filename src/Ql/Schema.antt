-- ===== src/Ql/Schema.antt =====
-- epochql/src/schema: collections and their indexes.
pub mod Ddl
pub mod Registry
pub mod Migrate
pub mod Lock
pub mod State
