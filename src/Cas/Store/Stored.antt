-- ===== src/Cas/Store/Stored.antt =====
-- `put` of epochs-core/src/cas/store.rs and reading the record back from the segment file.
use epochs.Common.{
  ℕ, ◌+◌, ◌^◌, ◌%◌, ◌<◌, [], ◌++◌, true, false, ◌&&◌, not, some, ◌≡◌, refl, sym, ap, ◌∙◌, All,
  arith, bytes_eq_refl, length, length-append, append-nil, take, leb, ltb, ◌==◌, take_append_self,
  drop_append_self,
}
use epochs.Assoc
use epochs.Cas.Segment.{file_of, read_exact}
use epochs.Cas.Store.{
  CasStore, contains, put, append_record, ensure_segment_capacity, flush_buffer, write_all,
  read_record_bytes, read_file, load_payload, get_payload, set_object_cache_cap, cache_record,
}
use epochs.Codec.{Bytes}
use epochs.Hash.{Hash, Blake3, IsByte}
use epochs.Index
use epochs.Index.Reload as Reload
use epochs.Index.{Index, IndexEntry}
use epochs.Lru
use epochs.Outcome
use epochs.Outcome.Action.{continue}
use epochs.Outcome.{Result, ok, err, >>=-eq-ok}
use epochs.Record.RoundTrip.{decode_record-encode_record, length-encode_record}
use epochs.Record.{RecordType, encode_record}
use epochs.Cas.Store.Appending.{
  whole_segment, IsAppending, flush_buffer-file, write_all-whole_segment,
  ensure_segment_capacity-IsAppending,
}

take_all : (bytes : Bytes) → take (length bytes) bytes ≡ bytes
take_all bytes = ap (take (length bytes)) (sym (append-nil bytes)) ∙ take_append_self bytes []

read_exact-append :
    (front bytes : Bytes) → read_exact (length front) (length bytes) (front ++ bytes) ≡ ok bytes
unfolding read_exact
read_exact-append front bytes =
    let long : leb (length front + length bytes) (length (front ++ bytes)) ≡ true =
      ground (arith, length-append front bytes) in
    rw (long, drop_append_self front bytes, take_all bytes)

read_file-ok :
    (front bytes : Bytes) (entry : IndexEntry) (s : CasStore)
    → file_of entry.segment_id s.segments ≡ some (front ++ bytes)
    → entry.offset ≡ length front
    → entry.record_len ≡ length bytes
    → read_file entry s ≡ (ok bytes, s)
unfolding read_file
read_file-ok front bytes entry s file offset len =
    rw (file, read_file, offset, len, read_exact-append front bytes) refl

not_mapped : (cap : ℕ) → (ltb 0 cap && not true) ≡ false
not_mapped cap = ground arith

-- The record at the end of the current segment is read from its file, behind a flush.
read_last :
    (front bytes : Bytes) (entry : IndexEntry) (s : CasStore)
    → whole_segment s ≡ front ++ bytes
    → entry.segment_id ≡ s.current_segment_id
    → entry.offset ≡ length front
    → entry.record_len ≡ length bytes
    → read_record_bytes entry s ≡ (ok bytes, flush_buffer s)
unfolding read_record_bytes
read_last front bytes entry s c id offset len =
    let current : (entry.segment_id == s.current_segment_id) ≡ true = ground (arith, id) in
    let file : file_of entry.segment_id (flush_buffer s).segments ≡ some (front ++ bytes) =
      rw id (flush_buffer-file s ∙ ap some c) in
    rw (current, current, not_mapped s.mmap_cap)
      (read_file-ok front bytes entry (flush_buffer s) file offset len)

get_after_insert :
    (h : Hash) (e : IndexEntry) (index : Index)
    → Index.contains index h ≡ false
    → Index.get (Index.insert index h e) h ≡ some e
get_after_insert h e index new = rw (Reload.get-insert index h h e, new, bytes_eq_refl h) refl

-- An entry whose record is at the end of the current segment, read with an empty object cache.
get_payload-last :
    (blake3 : Blake3) (t : RecordType) (payload : Bytes) (cap : ℕ) (front : Bytes)
    (entry : IndexEntry) (s : CasStore)
    → length payload < 2 ^ 32
    → All IsByte payload
    → Index.get s.index (blake3.of_bytes payload) ≡ some entry
    → whole_segment s ≡ front ++ encode_record t payload (blake3.of_bytes payload)
    → entry.segment_id ≡ s.current_segment_id
    → entry.offset ≡ length front
    → entry.record_len ≡ length (encode_record t payload (blake3.of_bytes payload))
    → (get_payload blake3 (blake3.of_bytes payload) (set_object_cache_cap cap s)).0
      ≡ ok (t, payload)
unfolding get_payload load_payload set_object_cache_cap Lru.get Lru.new Assoc.get cache_record
get_payload-last blake3 t payload cap front entry s fits bytes found c id offset len =
    let line = encode_record t payload (blake3.of_bytes payload) in
    let s' = set_object_cache_cap cap s in
    rw
      (
        found,
        read_last front line entry s' c id offset len,
        decode_record-encode_record blake3 t payload fits bytes,
      )
      refl

append_record-Reads :
    (created_at : ℕ → ℕ) (blake3 : Blake3) (t : RecordType) (payload : Bytes) (cap : ℕ)
    (s : CasStore)
    → IsAppending s
    → length payload + 45 < 2 ^ 32
    → All IsByte payload
    → Index.contains s.index (blake3.of_bytes payload) ≡ false
    → IsAppending (append_record created_at t payload (blake3.of_bytes payload) s).1
      × ((get_payload blake3 (blake3.of_bytes payload) (
            set_object_cache_cap cap
              (append_record created_at t payload (blake3.of_bytes payload) s).1)).0
          ≡ ok (t, payload))
unfolding append_record IsAppending
append_record-Reads created_at blake3 t payload cap s a fits bytes new =
    let hash = blake3.of_bytes payload in
    let line = encode_record t payload hash in
    let (end, id, index, offset) = write_all-whole_segment line s in
    let n = length-encode_record t payload hash (omega arith) (blake3.of_bytes-IsHash payload).0 in
    let whole : length line % 2 ^ 32 ≡ length line = omega (arith, n) in
    let s₁ = write_all line s in
    let entry : IndexEntry = record {
      segment_id = s₁.current_segment_id;
      offset = s.current_offset;
      record_len = length line % 2 ^ 32;
    } in
    let found = get_after_insert hash entry s₁.index (rw index new) in
    (
      omega (
        arith,
        ap (λ (l : Bytes). length l) end,
        length-append (whole_segment s) line,
        offset,
        whole,
        a,
      ),
      get_payload-last blake3 t payload cap (whole_segment s) entry
          (append_record created_at t payload hash s).1 (omega arith) bytes found end refl (sym a)
          whole,
    )

after_room :
    (created_at : ℕ → ℕ) (blake3 : Blake3) (t : RecordType) (payload : Bytes) (cap : ℕ) (k : Hash)
    (index : Index)
    → length payload + 45 < 2 ^ 32
    → All IsByte payload
    → Index.contains index (blake3.of_bytes payload) ≡ false
    → (r : Result (Unit {0}) × CasStore)
    → ((s : CasStore) → r ≡ (ok tt, s) → IsAppending s × (s.index ≡ index))
    → (continue r λ _. append_record created_at t payload (blake3.of_bytes payload)).0 ≡ ok k
    → let s' = (continue r λ _. append_record created_at t payload (blake3.of_bytes payload)).1 in
      (k ≡ blake3.of_bytes payload)
      × IsAppending s'
      × ((get_payload blake3 (blake3.of_bytes payload) (set_object_cache_cap cap s')).0
          ≡ ok (t, payload))
after_room created_at blake3 t payload cap k index fits bytes new (ok u, s) room e =
    let (a, same) = room s refl in
    let same_hash : k ≡ blake3.of_bytes payload = unfold append_record in cc in
    let (appending, back) =
      append_record-Reads created_at blake3 t payload cap s a fits bytes (rw same new) in
    (same_hash, appending, back)
after_room created_at blake3 t payload cap k index fits bytes new (err x, s) room e = absurd cc
after_room created_at blake3 t payload cap k index fits bytes new (Outcome.panicked, s) room e =
    absurd cc
after_room created_at blake3 t payload cap k index fits bytes new (Outcome.out_of_fuel, s) room e =
    absurd cc

-- When a store whose offset is the end of its current segment writes a new payload of bytes, of
-- less than 2 ^ 32 - 45 of them, with success, it returns the hash of the payload, its offset is
-- again the end of its current segment, and once the object cache is emptied, the payload and its
-- type are read back from the segment file.
pub put-get_payload :
    (created_at : ℕ → ℕ) (blake3 : Blake3) (t : RecordType) (payload : Bytes) (cap : ℕ) (k : Hash)
    (s : CasStore)
    → IsAppending s
    → length payload + 45 < 2 ^ 32
    → All IsByte payload
    → contains s (blake3.of_bytes payload) ≡ false
    → (put created_at blake3 t payload s).0 ≡ ok k
    → (k ≡ blake3.of_bytes payload)
      × IsAppending (put created_at blake3 t payload s).1
      × ((get_payload blake3
            (blake3.of_bytes payload)
            (set_object_cache_cap cap (put created_at blake3 t payload s).1)).0
          ≡ ok (t, payload))
unfolding put contains
put-get_payload created_at blake3 t payload cap k s a fits bytes new e =
    let needed = 41 + length payload + 4 in
    rw new (
      after_room created_at blake3 t payload cap k s.index fits bytes new
        (ensure_segment_capacity created_at needed s)
        (λ s'. ensure_segment_capacity-IsAppending created_at needed s s' a) (rw new at e))
