-- ===== src/Commit.antt =====
-- epochs-core/src/commit.rs: commits and their payload codec.
pub mod RoundTrip
use epochs.Common.{
  ℕ, zero, suc, ◌%◌, ◌^◌, List, [], ◌∷◌, ◌++◌, Bool, true, false, not, ◌&&◌, ◌==◌, leb,
  if◌then◌else◌, length,
}
use epochs.Outcome
use epochs.Outcome.{Result, ok, EpochsError, Message}
use epochs.Assoc
use epochs.Codec.{
  Bytes, ByteEncoder, Reader, ◌>>=◌, pure, fail, new_decoder, write_u8, write_u16, write_u64,
  write_hash, write_hashes, write_bytes, read_u8, read_u16, read_u64, read_hash, read_hashes,
  read_slice,
}
use epochs.Codec.Pool.{encoded}
use epochs.Hash.{Hash, Blake3}
use epochs.Text.{is_utf8}

abbrev pub commit_version : ℕ
commit_version = 2

abbrev pub commit_version_v1 : ℕ
commit_version_v1 = 1

-- `index_roots` is a `BTreeMap`, so its names ascend; texts are their UTF-8 bytes.
pub record Commit : Type 0 where
  pub parents : List Hash
  pub root_hamt : Hash
  pub timestamp : ℕ
  pub message : Bytes
  pub index_roots : List (Bytes × Hash)

unfoldable pub with_indexes : List Hash → Hash → ℕ → Bytes → List (Bytes × Hash) → Commit
with_indexes parents root_hamt timestamp message index_roots = record {
  parents = parents;
  root_hamt = root_hamt;
  timestamp = timestamp;
  message = message;
  index_roots = index_roots;
}

unfoldable pub new : List Hash → Hash → ℕ → Bytes → Commit
new parents root_hamt timestamp message = record {
  parents = parents;
  root_hamt = root_hamt;
  timestamp = timestamp;
  message = message;
  index_roots = [];
}

-- One round of the loop over `index_roots`.
write_root : Bytes → Hash → ByteEncoder → ByteEncoder
write_root name hash enc =
    let enc₁ = write_u16 (length name % 2 ^ 16) enc in
    let enc₂ = write_bytes name enc₁ in write_hash hash enc₂

write_roots : List (Bytes × Hash) → ByteEncoder → ByteEncoder
write_roots [] enc = enc
write_roots ((name, hash) ∷ roots) enc = write_roots roots (write_root name hash enc)

-- The casts `as u8` and `as u16` keep 8 and 16 bits of a length.
pub encode_payload : Commit → Bytes
encode_payload c = encoded λ enc.
    let enc₁ = write_u8 commit_version enc in
    let enc₂ = write_u8 (length c.parents % 2 ^ 8) enc₁ in
    let enc₃ = write_hashes c.parents enc₂ in
    let enc₄ = write_hash c.root_hamt enc₃ in
    let enc₅ = write_u64 c.timestamp enc₄ in
    let enc₆ = write_u16 (length c.message % 2 ^ 16) enc₅ in
    let enc₇ = write_bytes c.message enc₆ in
    let enc₈ = write_u16 (length c.index_roots % 2 ^ 16) enc₇ in write_roots c.index_roots enc₈

check_version : ℕ → Reader (Unit {0})
check_version version =
    if not (version == commit_version) && not (version == commit_version_v1)
    then fail (EpochsError.codec (Message.unsupported_commit_version version))
    else pure tt

-- `String::from_utf8`.
text_or : EpochsError → Bytes → Reader Bytes
text_or e bytes = if is_utf8 bytes then pure bytes else fail e

read_roots : ℕ → List (Bytes × Hash) → Reader (List (Bytes × Hash))
read_roots zero roots = pure roots
read_roots (suc n) roots = do
  name_len ← read_u16
  name_bytes ← read_slice name_len
  name ← text_or (EpochsError.codec Message.index_name_not_utf8) name_bytes
  hash ← read_hash
  read_roots n (Assoc.sorted_insert name hash roots)

counted_roots : Reader (List (Bytes × Hash))
counted_roots = do count ← read_u16; read_roots count []

read_index_roots : ℕ → Reader (List (Bytes × Hash))
read_index_roots version = if leb commit_version version then counted_roots else pure []

read_commit : Reader Commit
read_commit = do
  version ← read_u8
  _ ← check_version version
  parent_count ← read_u8
  parents ← read_hashes parent_count
  root_hamt ← read_hash
  timestamp ← read_u64
  msg_len ← read_u16
  msg_bytes ← read_slice msg_len
  message ← text_or (EpochsError.codec Message.message_not_utf8) msg_bytes
  index_roots ← read_index_roots version
  pure (record {
    parents = parents;
    root_hamt = root_hamt;
    timestamp = timestamp;
    message = message;
    index_roots = index_roots;
  })

pub decode_payload : Bytes → Result Commit
decode_payload buf = Outcome.◌>>=◌ (read_commit (new_decoder buf)) λ r. ok r.0

unfoldable pub id : Blake3 → Commit → Hash
id blake3 c = blake3.of_bytes (encode_payload c)
