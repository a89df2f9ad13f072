-- ===== src/Record/RoundTrip.antt =====
-- Records, written and read, and the two checks behind the last read.
use epochs.Common.{
  ℕ, ◌+◌, ◌%◌, ◌^◌, ◌≤◌, ◌<◌, ◌≡◌, refl, ap, [], ◌∷◌, ◌++◌, length, length-append, take, drop,
  take_append_self, append_assoc, append-nil, All, All-append, bytes_eq, bytes_eq_refl, ==_refl,
  ltb→false, arith,
}
use epochs.Outcome.{ok}
use epochs.Codec.{Bytes, le_bytes, lift}
use epochs.Codec.RoundTrip.{
  Reads, passes-Reads, Reads-bind, run_whole, pure-Reads, read_slice-Reads, read_u8-Reads,
  read_u32-Reads, read_hash-Reads, length-le_bytes, le_bytes-IsByte,
}
use epochs.Crc.{crc32}
use epochs.Crc.Bitwise.{crc32-lt}
use epochs.Hash.{Hash, IsByte, Blake3}
use epochs.Record.{
  RecordType, record_magic, to_u8, from_u8, check_magic, fields, verify, encode_record,
  decode_record,
}

tag-IsByte : (t : RecordType) → to_u8 t < 256
tag-IsByte RecordType.commit = omega arith
tag-IsByte _ = omega arith

-- What the checksum covers.
abbrev covered : RecordType → Bytes → Hash → Bytes
covered t payload hash = to_u8 t ∷ (le_bytes 4 (length payload) ++ (hash ++ payload))

from_u8-to_u8 : (t : RecordType) → from_u8 (to_u8 t) ≡ ok t
unfolding from_u8
from_u8-to_u8 RecordType.commit = refl
from_u8-to_u8 _ = refl

magic_passes : Reads (check_magic record_magic) [] tt
unfolding check_magic bytes_eq
magic_passes = passes-Reads (λ d. refl)

tag_passes : (t : RecordType) → Reads (lift (from_u8 (to_u8 t))) [] t
tag_passes t = passes-Reads (λ d. rw (from_u8-to_u8 t))

-- The bytes of a record by its fields, in the form in which the readers meet them.
by_fields : RecordType → Bytes → Hash → ℕ → Bytes
by_fields t payload hash crc =
    record_magic
    ++ ([]
        ++ ((to_u8 t ∷ [])
            ++ ([]
                ++ (le_bytes 4 (length payload) ++ (hash ++ (payload ++ (le_bytes 4 crc ++ [])))))))

fields-Reads :
    (t : RecordType) (payload : Bytes) (hash : Hash) (crc : ℕ)
    → length payload < 2 ^ 32
    → length hash ≡ 32
    → crc < 2 ^ 32
    → Reads fields (by_fields t payload hash crc) (t, length payload, hash, payload, crc)
unfolding fields by_fields
fields-Reads t payload hash crc fits h c = Reads-bind _ (read_slice-Reads record_magic) (
    Reads-bind _ magic_passes (
      Reads-bind _ (read_u8-Reads (to_u8 t)) (
        Reads-bind _ (tag_passes t) (
          Reads-bind _ (read_u32-Reads (length payload) fits) (
            Reads-bind _ (read_hash-Reads hash h) (
              Reads-bind _ (read_slice-Reads payload)
                (Reads-bind _ (read_u32-Reads crc c) (pure-Reads _))))))))

covered-split :
    (t : RecordType) (payload : Bytes) (hash : Hash) (crc : ℕ)
    → by_fields t payload hash crc
      ≡ (record_magic ++ covered t payload hash) ++ (le_bytes 4 crc ++ [])
unfolding by_fields
covered-split t payload hash crc = simp append_assoc

length-covered :
    (t : RecordType) (payload : Bytes) (hash : Hash)
    → length hash ≡ 32
    → length (record_magic ++ covered t payload hash) ≡ 4 + 37 + length payload
length-covered t payload hash h = omega (
  arith,
  length-append (le_bytes 4 (length payload)) (hash ++ payload),
  length-append hash payload,
  length-le_bytes 4 (length payload),
)

drop-magic : (s : Bytes) → drop 4 (record_magic ++ s) ≡ s
drop-magic s = refl

take-covered :
    (t : RecordType) (payload : Bytes) (hash : Hash) (crc : ℕ)
    → length hash ≡ 32
    → drop 4 (take (4 + 37 + length payload) (by_fields t payload hash crc))
      ≡ covered t payload hash
take-covered t payload hash crc h =
    rw (covered-split t payload hash crc, ← length-covered t payload hash h)
      (ap (drop 4)
        (take_append_self (record_magic ++ covered t payload hash) (le_bytes 4 crc ++ [])))

length-by_fields :
    (t : RecordType) (payload : Bytes) (hash : Hash) (crc : ℕ)
    → length hash ≡ 32
    → 45 ≤ length (by_fields t payload hash crc)
length-by_fields t payload hash crc h = rw (covered-split t payload hash crc) (
    omega (
      arith,
      length-append (record_magic ++ covered t payload hash) (le_bytes 4 crc ++ []),
      length-covered t payload hash h,
      length-append (le_bytes 4 crc) [],
      length-le_bytes 4 crc,
    ))

encode_record-by_fields :
    (t : RecordType) (payload : Bytes) (hash : Hash)
    → length payload < 2 ^ 32
    → encode_record t payload hash ≡ by_fields t payload hash (crc32 (covered t payload hash))
unfolding encode_record by_fields
encode_record-by_fields t payload hash fits =
    let n : length payload % 2 ^ 32 ≡ length payload = omega arith in
    simp (n, append_assoc, append-nil)

pub length-encode_record :
    (t : RecordType) (payload : Bytes) (hash : Hash)
    → length payload < 2 ^ 32
    → length hash ≡ 32
    → length (encode_record t payload hash) ≡ 45 + length payload
length-encode_record t payload hash fits h =
    let crc = crc32 (covered t payload hash) in
    rw (encode_record-by_fields t payload hash fits, covered-split t payload hash crc)
      (omega (
        arith,
        length-append (record_magic ++ covered t payload hash) (le_bytes 4 crc ++ []),
        length-covered t payload hash h,
        length-append (le_bytes 4 crc) [],
        length-le_bytes 4 crc,
      ))

covered-IsByte :
    (t : RecordType) (payload : Bytes) (hash : Hash)
    → All IsByte payload
    → All IsByte hash
    → All IsByte (covered t payload hash)
covered-IsByte t payload hash p h = (
  tag-IsByte t,
  All-append IsByte _ _ (le_bytes-IsByte 4 (length payload)) (All-append IsByte hash payload h p),
)

-- A record decodes to what was encoded: its type, its hash and its payload, for any payload of less
-- than 2 ^ 32 bytes stored under its own hash.
pub decode_record-encode_record :
    (blake3 : Blake3) (t : RecordType) (payload : Bytes)
    → length payload < 2 ^ 32
    → All IsByte payload
    → decode_record blake3 (encode_record t payload (blake3.of_bytes payload))
      ≡ ok (record { record_type = t; content_hash = blake3.of_bytes payload; payload = payload })
unfolding decode_record verify
decode_record-encode_record blake3 t payload fits bytes =
    let hash = blake3.of_bytes payload in
    let (h, hash_bytes) = blake3.of_bytes-IsHash payload in
    let crc = crc32 (covered t payload hash) in
    let c : crc < 2 ^ 32 =
      crc32-lt (covered t payload hash) (covered-IsByte t payload hash bytes hash_bytes) in
    rw (
      encode_record-by_fields t payload hash fits,
      ltb→false _ 45 (length-by_fields t payload hash crc h),
      run_whole (fields-Reads t payload hash crc fits h c),
      take-covered t payload hash crc h,
      ==_refl crc,
      bytes_eq_refl hash,
    )
