-- ===== src/Cas/Store.antt =====
-- epochs-core/src/cas/store.rs: the store on disk, with the `mmap` feature on, as it is by default.
pub mod Appending
pub mod Stored
use epochs.Common.{
  ℕ, ◌+◌, ◌-◌, ◌*◌, ◌^◌, ◌%◌, List, [], ◌∷◌, ◌++◌, Bool, true, false, Option, none, some, not, ◌&&◌,
  ltb, leb, ◌==◌, if◌then◌else◌, length, take, drop,
}
use epochs.Cas.Segment.{
  Segments, file_of, append_to, find_latest_segment, open_or_create_segment, read_exact,
}
use epochs.Cas.{CasBackend}
use epochs.Codec.{Bytes}
use epochs.Hash.{Hash, Blake3}
use epochs.Index
use epochs.Index.{Index, IndexEntry}
use epochs.Lru
use epochs.Lru.{LruMap}
use epochs.Outcome
use epochs.Outcome.Action.{Action, ◌>>=◌, pure, fail, lift}
use epochs.Outcome.{Result, ok, err, EpochsError, StorageError, Message}
use epochs.Record.{RecordType, Record, encode_record, decode_record}

abbrev pub segment_max_bytes : ℕ
segment_max_bytes = 64 * 1024 * 1024

abbrev pub write_cache_cap : ℕ
write_cache_cap = 8192

abbrev pub mmap_segments_cap : ℕ
mmap_segments_cap = 4

abbrev pub segment_buf_bytes : ℕ
segment_buf_bytes = 64 * 1024

abbrev pub CachedPayload : Type 0
CachedPayload = RecordType × Bytes

-- `segments` are the files, and `buffer` is what the `BufWriter` over the current one holds.
-- A map in `segment_maps` is the contents that its file had when it was mapped.
pub record CasStore : Type 0 where
  pub segments : Segments
  pub index : Index
  pub current_segment_id : ℕ
  pub buffer : Bytes
  pub current_offset : ℕ
  pub dirty : Bool
  pub write_cache : LruMap CachedPayload
  pub segment_maps : Segments
  pub mmap_cap : ℕ

-- `unwrap_or`.
abbrev or_zero : Option ℕ → ℕ
or_zero none = 0
or_zero (some n) = n

-- `CasStore::open` on these files; `created_at` is the clock.
unfoldable pub open_store : ℕ → Bytes → Segments → Result CasStore
open_store created_at index_file segments = Outcome.◌>>=◌ (Index.open_index index_file) λ index.
    let segment_id = or_zero (find_latest_segment segments) in
    Outcome.◌>>=◌ (open_or_create_segment created_at segment_id segments) λ r. ok (record {
      segments = r.0;
      index = index;
      current_segment_id = segment_id;
      buffer = [];
      current_offset = r.1;
      dirty = false;
      write_cache = Lru.new write_cache_cap;
      segment_maps = [];
      mmap_cap = mmap_segments_cap;
    })

unfoldable pub set_object_cache_cap : ℕ → CasStore → CasStore
set_object_cache_cap cap s = record s { write_cache = Lru.new cap }

-- The least id of a mapped segment.
smallest : ℕ → Segments → ℕ
smallest id [] = id
smallest id ((j, bytes) ∷ rest) = if ltb j id then smallest j rest else smallest id rest

without : ℕ → Segments → Segments
without id [] = []
without id ((j, bytes) ∷ rest) = if j == id then without id rest else (j, bytes) ∷ without id rest

drop_smallest : Segments → Segments
unfolding smallest without
drop_smallest [] = []
drop_smallest ((j, bytes) ∷ rest) = without (smallest j rest) ((j, bytes) ∷ rest)

-- `while segment_maps.len() > limit`, in at most `rounds` rounds: each drops one map.
shrink_maps : ℕ → ℕ → Segments → Segments
unfolding drop_smallest
shrink_maps Prim.Native.Nat.zero limit maps = maps
shrink_maps (Prim.Native.Nat.suc rounds) limit maps =
    let fewer = shrink_maps rounds limit (drop_smallest maps) in
    if ltb limit (length maps) then fewer else maps

unfoldable pub set_mmap_cap : ℕ → CasStore → CasStore
unfolding shrink_maps
set_mmap_cap cap s = record s {
  mmap_cap = cap;
  segment_maps = shrink_maps (length s.segment_maps) cap s.segment_maps;
}

unfoldable pub contains : CasStore → Hash → Bool
contains s hash = Index.contains s.index hash

-- `BufWriter::flush`.
pub flush_buffer : CasStore → CasStore
flush_buffer s = record s {
  segments = append_to s.current_segment_id s.buffer s.segments;
  buffer = [];
}

-- `BufWriter::write_all`: a write that does not fit the buffer flushes it, and one that is as large
-- as the buffer goes to the file.
pub write_all : Bytes → CasStore → CasStore
unfolding flush_buffer
write_all bytes s =
    let s' = if ltb segment_buf_bytes (length s.buffer + length bytes) then flush_buffer s else s in
    if leb segment_buf_bytes (length bytes)
    then record s' { segments = append_to s'.current_segment_id bytes s'.segments }
    else record s' { buffer = s'.buffer ++ bytes }

-- `CasStore::flush`. What `sync_data` adds, that the files survive a loss of power, is not modelled.
unfoldable pub flush : CasStore → CasStore
unfolding flush_buffer without
flush s =
    let s' = flush_buffer s in
    if not s'.dirty
    then s'
    else record s' { dirty = false; segment_maps = without s'.current_segment_id s'.segment_maps }

module _ (created_at : ℕ → ℕ) where
  open_current : CasStore → Result (Segments × ℕ) → Result (Unit {0}) × CasStore
  open_current s (ok (segments, offset)) =
      (ok tt, record s { segments = segments; buffer = []; current_offset = offset })
  open_current s (err e) = (err e, s)
  open_current s Outcome.panicked = (Outcome.panicked, s)
  open_current s Outcome.out_of_fuel = (Outcome.out_of_fuel, s)

  -- `created_at id` is what the clock shows when the segment `id` is created.
  unfoldable pub rotate_segment : Action CasStore (Unit {0})
  unfolding open_current
  rotate_segment s₀ =
      let s = flush s₀ in
      if s.current_segment_id == 2 ^ 16 - 1
      then (err (EpochsError.storage (StorageError.corrupt Message.segment_id_overflow)), s)
      else let id = s.current_segment_id + 1 in
        open_current (record s { current_segment_id = id })
          (open_or_create_segment (created_at id) id s.segments)

  unfoldable pub ensure_segment_capacity : ℕ → Action CasStore (Unit {0})
  ensure_segment_capacity needed s =
      if ltb segment_max_bytes (s.current_offset + needed) then rotate_segment s else (ok tt, s)

  -- The part of `put` behind the check for room.
  unfoldable pub append_record : RecordType → Bytes → Hash → Action CasStore Hash
  unfolding write_all
  append_record record_type payload hash s =
      let record_bytes = encode_record record_type payload hash in
      let record_len = length record_bytes % 2 ^ 32 in
      let offset = s.current_offset in
      let s₁ = write_all record_bytes s in
      let entry : IndexEntry = record {
        segment_id = s₁.current_segment_id;
        offset = offset;
        record_len = record_len;
      } in
      (
        ok hash,
        record s₁ {
          index = Index.insert s₁.index hash entry;
          current_offset = s₁.current_offset + record_len;
          dirty = true;
          write_cache = Lru.insert hash (record_type, payload) s₁.write_cache;
        },
      )

  unfoldable pub put : Blake3 → RecordType → Bytes → Action CasStore Hash
  put blake3 record_type payload s =
      let hash = blake3.of_bytes payload in
      if Index.contains s.index hash
      then (ok hash, s)
      else (ensure_segment_capacity (41 + length payload + 4) >>= λ _.
            append_record record_type payload hash)
          s

-- `ensure_mmap`: the contents of the map, or an error of the file, with the maps afterwards.
ensure_mmap : ℕ → CasStore → Option Bytes × CasStore
unfolding shrink_maps
ensure_mmap id s = elim (file_of id s.segment_maps) [
  | some bytes ↦ (some bytes, s)
  | none ↦ elim (file_of id s.segments) [
    | none ↦ (none, s)
    | some bytes ↦
        let maps = shrink_maps (length s.segment_maps) (s.mmap_cap - 1) s.segment_maps in
        (some bytes, record s { segment_maps = (id, bytes) ∷ maps })
  ]
]

read_file : IndexEntry → Action CasStore Bytes
read_file entry s = elim (file_of entry.segment_id s.segments) [
  | none ↦ (err (EpochsError.io Message.os_error), s)
  | some bytes ↦ (read_exact entry.offset entry.record_len bytes, s)
]

-- The record in the map, where the map is there and long enough; else in the file.
read_mapped : IndexEntry → Option Bytes → Action CasStore Bytes
unfolding read_file
read_mapped entry none s = read_file entry s
read_mapped entry (some map) s =
    if leb (entry.offset + entry.record_len) (length map)
    then (ok (take entry.record_len (drop entry.offset map)), s)
    else read_file entry s

unfoldable pub read_record_bytes : IndexEntry → Action CasStore Bytes
unfolding flush_buffer ensure_mmap read_mapped read_file
read_record_bytes entry s =
    let s' = if entry.segment_id == s.current_segment_id then flush_buffer s else s in
    if ltb 0 s'.mmap_cap && not (entry.segment_id == s'.current_segment_id)
    then (let (map, s'') = ensure_mmap entry.segment_id s' in read_mapped entry map s'')
    else read_file entry s'

cache_record : Hash → Record → Action CasStore CachedPayload
cache_record hash rec s =
    let cached : CachedPayload = (rec.record_type, rec.payload) in
    (ok cached, record s { write_cache = Lru.insert hash cached s.write_cache })

load_payload : Blake3 → Hash → Option IndexEntry → Action CasStore CachedPayload
unfolding cache_record
load_payload blake3 hash none = fail (EpochsError.storage (StorageError.not_found hash))
load_payload blake3 hash (some entry) = do
  record_buf ← read_record_bytes entry
  rec ← lift (decode_record blake3 record_buf)
  cache_record hash rec

unfoldable pub get_payload : Blake3 → Hash → Action CasStore CachedPayload
unfolding load_payload
get_payload blake3 hash s = elim (Lru.get hash s.write_cache) [
  | some cached ↦ (ok cached, s)
  | none ↦ load_payload blake3 hash (Index.get s.index hash) s
]

unfoldable pub get_record : Blake3 → Hash → Action CasStore Record
get_record blake3 hash = get_payload blake3 hash >>= λ r.
    pure (record { record_type = r.0; content_hash = hash; payload = r.1 })

unfoldable pub get : Blake3 → Hash → Action CasStore Bytes
get blake3 hash = get_payload blake3 hash >>= λ r. pure r.1

unfoldable pub find_by_prefix : CasStore → Bytes → List Hash
find_by_prefix s prefix = Index.find_by_prefix s.index prefix

unfoldable pub hashes : CasStore → List Hash
hashes s = Index.hashes s.index

unfoldable pub store_backend : (ℕ → ℕ) → Blake3 → CasBackend CasStore
store_backend created_at blake3 = record {
  put = put created_at blake3;
  get_record = get_payload blake3;
}
