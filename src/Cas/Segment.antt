-- ===== src/Cas/Segment.antt =====
-- The segment files of epochs-core/src/cas/store.rs, by id, with the buffered writer over the last.
-- Calls of the operating system succeed, except on a file that is missing or too short.
pub mod Written
use epochs.Common.{
  ℕ, ◌+◌, List, [], ◌∷◌, ◌++◌, Option, none, some, not, ltb, leb, ◌==◌, if◌then◌else◌, length, take,
  drop, bytes_eq,
}
use epochs.Codec.{Bytes}
use epochs.Outcome.{Result, ok, err, EpochsError, StorageError, Message}
use epochs.Record.{segment_magic, segment_header_len, encode_segment_header}

abbrev pub Segments : Type 0
Segments = List (ℕ × Bytes)

-- The file of a segment, if it exists.
unfoldable pub file_of : ℕ → Segments → Option Bytes
file_of id [] = none
file_of id ((j, bytes) ∷ rest) = if j == id then some bytes else file_of id rest

-- Appending to the file of a segment, which is created if it is not there.
unfoldable pub append_to : ℕ → Bytes → Segments → Segments
append_to id bytes [] = (id, bytes) ∷ []
append_to id bytes ((j, old) ∷ rest) =
    if j == id then (j, old ++ bytes) ∷ rest else (j, old) ∷ append_to id bytes rest

unfoldable pub larger : ℕ → Option ℕ → Option ℕ
larger id none = some id
larger id (some m) = if leb m id then some id else some m

unfoldable pub find_latest_segment : Segments → Option ℕ
unfolding larger
find_latest_segment [] = none
find_latest_segment ((id, bytes) ∷ rest) = larger id (find_latest_segment rest)

corrupt {ℓ} : {A : Type ℓ} → Message → Result A
corrupt m = err (EpochsError.storage (StorageError.corrupt m))

check_segment : Bytes → Segments → Result (Segments × ℕ)
unfolding corrupt
check_segment bytes segments =
    if ltb (length bytes) segment_header_len
    then corrupt Message.segment_too_short
    else if not (bytes_eq (take 4 bytes) segment_magic)
    then corrupt Message.invalid_segment_magic
    else ok (segments, length bytes)

-- The files afterwards, and the offset of the next record. `created_at` is what the clock shows.
unfoldable pub open_or_create_segment : ℕ → ℕ → Segments → Result (Segments × ℕ)
unfolding check_segment
open_or_create_segment created_at id segments = elim (file_of id segments) [
  | none ↦ ok (append_to id (encode_segment_header id created_at) segments, segment_header_len)
  | some bytes ↦ check_segment bytes segments
]

-- `seek` and `read_exact` on a file with these bytes.
unfoldable pub read_exact : ℕ → ℕ → Bytes → Result Bytes
read_exact offset len bytes =
    if leb (offset + len) (length bytes)
    then ok (take len (drop offset bytes))
    else err (EpochsError.io Message.os_error)
