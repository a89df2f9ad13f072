-- ===== src/Record.antt =====
-- epochs-core/src/cas/record.rs: the records of an `.epl` segment and the segment header.
pub mod RoundTrip
use epochs.Common.{
  ℕ, ◌+◌, ◌-◌, ◌≤◌, ◌%◌, ◌^◌, List, [], ◌∷◌, ◌++◌, Bool, true, false, not, ltb, ◌==◌, if◌then◌else◌,
  length, take, drop, bytes_eq,
}
use epochs.Outcome.{Result, ok, err, EpochsError, StorageError, Message}
use epochs.Outcome
use epochs.Codec.{
  ◌>>=◌, pure, lift, Bytes, ByteEncoder, ByteDecoder, Reader, new_encoder, new_decoder, write_bytes,
  write_u8, write_u32, write_u64, write_hash, read_slice, read_u8, read_u32, read_hash,
}
use epochs.Codec.Pool.{encoded}
use epochs.Crc.{crc32}
use epochs.Hash.{Hash, Blake3}

abbrev pub record_magic : Bytes
record_magic = 0x45 ∷ 0x50 ∷ 0x43 ∷ 0x4c ∷ []

abbrev pub segment_magic : Bytes
segment_magic = 0x45 ∷ 0x50 ∷ 0x53 ∷ 0x47 ∷ []

abbrev pub segment_header_len : ℕ
segment_header_len = 16

pub data RecordType : Type 0 where
  commit hamt_bitmap hamt_leaf : RecordType

-- `record_type as u8`.
abbrev pub to_u8 : RecordType → ℕ
to_u8 RecordType.commit = 1
to_u8 RecordType.hamt_bitmap = 2
to_u8 RecordType.hamt_leaf = 3

unfoldable pub from_u8 : ℕ → Result RecordType
from_u8 v =
    if v == 1
    then ok RecordType.commit
    else if v == 2
    then ok RecordType.hamt_bitmap
    else if v == 3
    then ok RecordType.hamt_leaf
    else err (EpochsError.storage (StorageError.corrupt (Message.unknown_record_type v)))

pub record Record : Type 0 where
  pub record_type : RecordType
  pub content_hash : Hash
  pub payload : Bytes

-- `&buf[4..]` of the encoder is what was written behind the magic bytes.
write_crc : ByteEncoder → ByteEncoder
write_crc enc = write_u32 (crc32 (drop 4 enc.buf)) enc

-- `payload.len() as u32` keeps 32 bits.
unfoldable pub encode_record : RecordType → Bytes → Hash → Bytes
unfolding encoded write_crc write_u32 write_bytes write_u8 write_hash
encode_record record_type payload content_hash = encoded λ enc.
    let enc₁ = write_bytes record_magic enc in
    let enc₂ = write_u8 (to_u8 record_type) enc₁ in
    let enc₃ = write_u32 (length payload % 2 ^ 32) enc₂ in
    let enc₄ = write_hash content_hash enc₃ in let enc₅ = write_bytes payload enc₄ in write_crc enc₅

corrupt {ℓ} : {A : Type ℓ} → Message → Result A
corrupt m = err (EpochsError.storage (StorageError.corrupt m))

-- The two checks behind the last read.
verify : Blake3 → Bytes → RecordType × ℕ × Hash × Bytes × ℕ → Result Record
verify blake3 buf (record_type, payload_len, content_hash, payload, stored_crc) =
    let computed_crc = crc32 (drop 4 (take (4 + 37 + payload_len) buf)) in
    let computed_hash = blake3.of_bytes payload in
    if not (stored_crc == computed_crc)
    then err (EpochsError.storage StorageError.crc_mismatch)
    else if not (bytes_eq computed_hash content_hash)
    then err (EpochsError.storage (StorageError.hash_mismatch content_hash computed_hash))
    else ok (record { record_type = record_type; content_hash = content_hash; payload = payload })

check_magic : Bytes → Reader (Unit {0})
unfolding corrupt
check_magic magic d =
    if not (bytes_eq magic record_magic) then corrupt Message.invalid_record_magic else ok (tt, d)

-- The fields of a record in the order in which they are read.
fields : Reader (RecordType × ℕ × Hash × Bytes × ℕ)
fields = do
  magic ← read_slice 4
  _ ← check_magic magic
  tag ← read_u8
  record_type ← lift (from_u8 tag)
  payload_len ← read_u32
  content_hash ← read_hash
  payload ← read_slice payload_len
  stored_crc ← read_u32
  pure (record_type, payload_len, content_hash, payload, stored_crc)

pub decode_record : Blake3 → Bytes → Result Record
decode_record blake3 buf =
    if ltb (length buf) 45
    then corrupt Message.record_too_short
    else Outcome.◌>>=◌ (fields (new_decoder buf)) λ r. verify blake3 buf r.0

-- The copy into a 16-byte array is of a buffer of 16 bytes.
unfoldable pub encode_segment_header : ℕ → ℕ → Bytes
unfolding write_bytes write_u32 write_u64
encode_segment_header segment_id created_at =
    (write_u64 created_at (write_u32 segment_id (write_bytes segment_magic new_encoder))).buf
