-- ===== src/Cas/Segment/Written.antt =====
-- The segment files of epochs-core/src/cas/store.rs: what they hold after a write or an opening.
use epochs.Common.{
  ℕ, [], ◌∷◌, ◌++◌, Option, none, some, ◌≡◌, refl, Bool-cases, inl, inr, arith, length,
  length-append, if◌then◌else◌, ◌==◌,
}
use epochs.Cas.Segment.{
  Segments, file_of, append_to, open_or_create_segment, check_segment, corrupt,
}
use epochs.Codec.{Bytes, le_bytes}
use epochs.Codec.RoundTrip.{length-le_bytes}
use epochs.Outcome.{ok}
use epochs.Record.{encode_segment_header, segment_header_len}

-- What a segment's file holds, nothing if it is not there.
unfoldable pub written : ℕ → Segments → Bytes
written id [] = []
written id ((j, bytes) ∷ rest) = if j == id then bytes else written id rest

pub file_of-append_to :
    (id : ℕ) (bytes : Bytes) (segments : Segments)
    → file_of id (append_to id bytes segments) ≡ some (written id segments ++ bytes)
unfolding file_of append_to written
file_of-append_to id bytes [] = ground arith
file_of-append_to id bytes ((j, old) ∷ rest) = elim (Bool-cases (j == id)) [
  | inl same ↦ rw (same, same) refl
  | inr other ↦ rw (other, other) (file_of-append_to id bytes rest)
]

written-file_of :
    (id : ℕ) (bytes : Bytes) (segments : Segments)
    → file_of id segments ≡ some bytes
    → written id segments ≡ bytes
unfolding file_of written
written-file_of id bytes [] e = cc
written-file_of id bytes ((j, old) ∷ rest) e = elim (Bool-cases (j == id)) [
  | inl same ↦ let e' = rw same at e in rw same (ground arith)
  | inr other ↦ rw other (written-file_of id bytes rest (rw other at e))
]

pub written-append_to :
    (id : ℕ) (bytes : Bytes) (segments : Segments)
    → written id (append_to id bytes segments) ≡ written id segments ++ bytes
written-append_to id bytes segments =
    written-file_of id _ (append_to id bytes segments) (file_of-append_to id bytes segments)

length-header :
    (id created_at : ℕ) → length (encode_segment_header id created_at) ≡ segment_header_len
unfolding encode_segment_header
length-header id created_at = omega (
  arith,
  length-append (le_bytes 4 id) (le_bytes 8 created_at),
  length-le_bytes 4 id,
  length-le_bytes 8 created_at,
)

written_missing :
    (id : ℕ) (segments : Segments) → file_of id segments ≡ none → written id segments ≡ []
unfolding file_of written
written_missing id [] e = refl
written_missing id ((j, bytes) ∷ rest) e = elim (Bool-cases (j == id)) [
  | inl same ↦ let no = rw same at e in cc
  | inr other ↦ rw other (written_missing id rest (rw other at e))
]

check_segment-end :
    (bytes : Bytes) (segments : Segments) (r : Segments × ℕ)
    → check_segment bytes segments ≡ ok r
    → r ≡ (segments, length bytes)
unfolding check_segment corrupt
check_segment-end bytes segments r e = ground arith

-- The offset that opening a segment gives is where its file ends.
pub open_segment-end :
    (created_at id : ℕ) (segments : Segments) (r : Segments × ℕ)
    → open_or_create_segment created_at id segments ≡ ok r
    → length (written id r.0) ≡ r.1
unfolding open_or_create_segment
open_segment-end created_at id segments r e = go (file_of id segments) refl
  where
    go : (file : Option Bytes) → file_of id segments ≡ file → length (written id r.0) ≡ r.1
    go none missing =
        let header = encode_segment_header id created_at in
        let made : (append_to id header segments, segment_header_len) ≡ r =
          cc (rw (missing, open_or_create_segment) at e) in
        rw (← made, written-append_to id header segments, written_missing id segments missing)
          (length-header id created_at)
    go (some bytes) there =
        rw
          (
            check_segment-end bytes segments r (rw (there, open_or_create_segment) at e),
            written-file_of id bytes segments there,
          )
          refl
