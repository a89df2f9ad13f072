-- ===== src/Hamt.antt =====
-- epochs-core/src/hamt: the persistent hash-array mapped trie.
pub mod Node
pub mod Chunk
pub mod Tree
pub mod Trie
