-- ===== src/Hamt/Node/RoundTrip.antt =====
-- Trie nodes, written and read.
use epochs.Common.{◌%◌, ◌^◌, ◌<◌, ◌≡◌, [], ◌∷◌, ◌++◌, length, append_assoc, append-nil, All, arith}
use epochs.Outcome.{ok}
use epochs.Codec.{Bytes, le_bytes, write_u8, write_u16, write_u32, write_bytes}
use epochs.Codec.Pool.{encoded}
use epochs.Codec.RoundTrip.{
  Reads, Reads-bind, run_whole, concat, write_hashes-concat, read_hashes-Reads, pure-Reads,
  read_slice-Reads, read_u8-Reads, read_u16-Reads, read_u32-Reads,
}
use epochs.Record.{RecordType}
use epochs.Hamt.Node.{HamtNode, encode, decode, read_bitmap, read_leaf, read_node}

-- The record type that a node is stored under.
abbrev pub type_of : HamtNode → RecordType
type_of (HamtNode.bitmap_node bitmap children) = RecordType.hamt_bitmap
type_of (HamtNode.leaf key value) = RecordType.hamt_leaf

-- A node whose counts and lengths fit their words.
abbrev pub IsStorable : HamtNode → Type 0
IsStorable (HamtNode.bitmap_node bitmap children) =
    (bitmap < 2 ^ 32) × (length children < 2 ^ 8) × All (λ h. length h ≡ 32) children
IsStorable (HamtNode.leaf key value) = (length key < 2 ^ 16) × (length value < 2 ^ 32)

abbrev node_bytes : HamtNode → Bytes
node_bytes (HamtNode.bitmap_node bitmap children) =
    le_bytes 4 bitmap ++ ((length children ∷ []) ++ (concat children ++ []))
node_bytes (HamtNode.leaf key value) =
    le_bytes 2 (length key) ++ (key ++ (le_bytes 4 (length value) ++ (value ++ [])))

read_node-Reads : (n : HamtNode) → IsStorable n → Reads (read_node (type_of n)) (node_bytes n) n
unfolding read_node read_bitmap read_leaf
read_node-Reads (HamtNode.bitmap_node bitmap children) s =
    Reads-bind _ (read_u32-Reads bitmap s.0) (
      Reads-bind _ (read_u8-Reads (length children))
        (Reads-bind _ (read_hashes-Reads children s.2) (pure-Reads _)))
read_node-Reads (HamtNode.leaf key value) s = Reads-bind _ (read_u16-Reads (length key) s.0) (
    Reads-bind _ (read_slice-Reads key) (
      Reads-bind _ (read_u32-Reads (length value) s.1)
        (Reads-bind _ (read_slice-Reads value) (pure-Reads _))))

encode-node_bytes : (n : HamtNode) → IsStorable n → encode n ≡ node_bytes n
unfolding encode encoded write_u8 write_u16 write_u32 write_bytes
encode-node_bytes (HamtNode.bitmap_node bitmap children) s =
    let n : length children % 2 ^ 8 ≡ length children = omega (arith, s.1) in
    simp (write_hashes-concat, n, append_assoc, append-nil)
encode-node_bytes (HamtNode.leaf key value) s =
    let k : length key % 2 ^ 16 ≡ length key = omega (arith, s.0) in
    let v : length value % 2 ^ 32 ≡ length value = omega (arith, s.1) in
    simp (k, v, append_assoc, append-nil)

-- A node whose lengths fit their words decodes to itself under its own record type.
pub decode-encode : (n : HamtNode) → IsStorable n → decode (type_of n) (encode n) ≡ ok n
unfolding decode
decode-encode n s = rw (encode-node_bytes n s, run_whole (read_node-Reads n s))
