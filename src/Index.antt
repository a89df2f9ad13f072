-- ===== src/Index.antt =====
-- epochs-core/src/cas/index.rs: the hash index, an append-only file of 44-byte entries and
-- the map that it loads to. The file is its bytes.
pub mod Reload
use epochs.Common.{
  ℕ, zero, suc, ◌+◌, ◌^◌, ◌<◌, List, [], ◌∷◌, ◌++◌, Bool, true, false, Option, leb, if◌then◌else◌,
  length, take, drop, map, not, ◌≡◌,
}
use epochs.Outcome
use epochs.Outcome.{Result, ok, out_of_fuel}
use epochs.Assoc
use epochs.Codec.{
  Bytes, Reader, ◌>>=◌, pure, new_encoder, new_decoder, write_hash, write_u16, write_u48, write_u32,
  read_hash, read_u16, read_u48, read_u32,
}
use epochs.Hash.{Hash, to_hex}
use epochs.Text.{starts_with, to_ascii_lowercase}

abbrev pub index_entry_len : ℕ
index_entry_len = 44

pub record IndexEntry : Type 0 where
  pub segment_id : ℕ
  pub offset : ℕ
  pub record_len : ℕ

abbrev pub Entries : Type 0
Entries = List (Hash × IndexEntry)

pub record Index : Type 0 where
  pub file : Bytes
  pub entries : Entries

-- The copy into a 44-byte array is of a buffer of 44 bytes.
unfoldable pub encode_entry : Hash → IndexEntry → Bytes
unfolding write_hash write_u16 write_u48 write_u32
encode_entry hash entry =
    (write_u32 entry.record_len
      (write_u48 entry.offset (write_u16 entry.segment_id (write_hash hash new_encoder)))).buf

read_entry : Reader (Hash × IndexEntry)
read_entry = do
  hash ← read_hash
  segment_id ← read_u16
  offset ← read_u48
  record_len ← read_u32
  pure (hash, record { segment_id = segment_id; offset = offset; record_len = record_len })

unfoldable pub decode_entry : Bytes → Result (Hash × IndexEntry)
unfolding read_entry
decode_entry buf = Outcome.◌>>=◌ (read_entry (new_decoder buf)) λ r. ok r.0

-- The loop of `Index::open`.
load_entries : ℕ → Bytes → ℕ → Entries → Result Entries
load_entries zero buf offset entries = out_of_fuel
load_entries (suc fuel) buf offset entries =
    let rest =
      Outcome.◌>>=◌ (decode_entry (take index_entry_len (drop offset buf)))
        λ e. load_entries fuel buf (offset + index_entry_len) (Assoc.insert e.0 e.1 entries) in
    if leb (offset + index_entry_len) (length buf) then rest else ok entries

-- `Index::open` on a file with these bytes. A round takes 44 bytes.
unfoldable pub open_index : Bytes → Result Index
unfolding load_entries
open_index buf =
    Outcome.◌>>=◌ (load_entries (suc (length buf)) buf 0 [])
      λ entries. ok (record { file = buf; entries = entries })

unfoldable pub get : Index → Hash → Option IndexEntry
get index hash = Assoc.get hash index.entries

unfoldable pub contains : Index → Hash → Bool
contains index hash = Assoc.contains_key hash index.entries

-- The write to the file is taken to succeed.
unfoldable pub insert : Index → Hash → IndexEntry → Index
insert index hash entry = if Assoc.contains_key hash index.entries then index else record {
  file = index.file ++ encode_entry hash entry;
  entries = Assoc.insert hash entry index.entries;
}

unfoldable pub hashes : Index → List Hash
hashes index = map (λ e. e.0) index.entries

filter_prefix : Bytes → List Hash → List Hash
filter_prefix prefix [] = []
filter_prefix prefix (h ∷ hs) =
    let rest = filter_prefix prefix hs in if starts_with (to_hex h) prefix then h ∷ rest else rest

unfoldable pub find_by_prefix : Index → Bytes → List Hash
unfolding filter_prefix
find_by_prefix index prefix = filter_prefix (to_ascii_lowercase prefix) (hashes index)
