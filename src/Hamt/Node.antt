-- ===== src/Hamt/Node.antt =====
-- epochs-core/src/hamt/node.rs: the payloads of trie nodes.
pub mod RoundTrip
use epochs.Common.{ℕ, ◌%◌, ◌^◌, List, length}
use epochs.Outcome
use epochs.Outcome.{Result, ok, EpochsError, Message}
use epochs.Codec.{
  Bytes, Reader, ◌>>=◌, pure, fail, new_decoder, write_u8, write_u16, write_u32, write_hashes,
  write_bytes, read_u8, read_u16, read_u32, read_hashes, read_slice,
}
use epochs.Codec.Pool.{encoded}
use epochs.Hash.{Hash}
use epochs.Record.{RecordType}

pub data HamtNode : Type 0 where
  bitmap_node : (bitmap : ℕ) (children : List Hash) → HamtNode
  leaf : (key value : Bytes) → HamtNode

-- The casts `as u8`, `as u16` and `as u32` keep 8, 16 and 32 bits of a length.
unfoldable pub encode : HamtNode → Bytes
encode (HamtNode.bitmap_node bitmap children) = encoded λ enc.
    let enc₁ = write_u32 bitmap enc in
    let enc₂ = write_u8 (length children % 2 ^ 8) enc₁ in write_hashes children enc₂
encode (HamtNode.leaf key value) = encoded λ enc.
    let enc₁ = write_u16 (length key % 2 ^ 16) enc in
    let enc₂ = write_bytes key enc₁ in
    let enc₃ = write_u32 (length value % 2 ^ 32) enc₂ in write_bytes value enc₃

read_bitmap : Reader HamtNode
read_bitmap = do
  bitmap ← read_u32
  child_count ← read_u8
  children ← read_hashes child_count
  pure (HamtNode.bitmap_node bitmap children)

read_leaf : Reader HamtNode
read_leaf = do
  klen ← read_u16
  key ← read_slice klen
  vlen ← read_u32
  value ← read_slice vlen
  pure (HamtNode.leaf key value)

read_node : RecordType → Reader HamtNode
read_node RecordType.hamt_bitmap = read_bitmap
read_node RecordType.hamt_leaf = read_leaf
read_node RecordType.commit = fail (EpochsError.codec Message.not_a_hamt_node)

pub decode : RecordType → Bytes → Result HamtNode
decode record_type buf = Outcome.◌>>=◌ (read_node record_type (new_decoder buf)) λ r. ok r.0
