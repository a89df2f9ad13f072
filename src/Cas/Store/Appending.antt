-- ===== src/Cas/Store/Appending.antt =====
-- epochs-core/src/cas/store.rs: the offset of a store and the end of its current segment.
use epochs.Common.{
  ℕ, ◌+◌, ◌-◌, ◌^◌, [], ◌∷◌, ◌++◌, some, ◌≡◌, refl, sym, ap, ◌∙◌, subst, Bool-cases, inl, inr,
  arith, length, append_assoc, append-nil, leb, ltb, ◌==◌,
}
use epochs.Cas.Segment.{Segments, find_latest_segment, file_of, append_to, open_or_create_segment}
use epochs.Cas.Store.{
  CasStore, open_store, or_zero, segment_buf_bytes, segment_max_bytes, ensure_segment_capacity,
  rotate_segment, open_current, flush, flush_buffer, write_all,
}
use epochs.Codec.{Bytes}
use epochs.Index
use epochs.Index.{Index, IndexEntry}
use epochs.Outcome
use epochs.Outcome.{Result, ok, err, >>=-eq-ok}
use epochs.Cas.Segment.Written.{written, file_of-append_to, written-append_to, open_segment-end}

-- The current segment as it is once the buffer is flushed.
abbrev pub whole_segment : CasStore → Bytes
whole_segment s = written s.current_segment_id s.segments ++ s.buffer

-- A store's offset is where its current segment ends.
unfoldable pub IsAppending : CasStore → Type 0
IsAppending s = length (whole_segment s) ≡ s.current_offset

pub flush_buffer-whole_segment : (s : CasStore) → whole_segment (flush_buffer s) ≡ whole_segment s
unfolding flush_buffer
flush_buffer-whole_segment s =
    append-nil _ ∙ written-append_to s.current_segment_id s.buffer s.segments

pub flush_buffer-file :
    (s : CasStore) → file_of s.current_segment_id (flush_buffer s).segments ≡ some (whole_segment s)
unfolding flush_buffer
flush_buffer-file s = file_of-append_to s.current_segment_id s.buffer s.segments

empty : (bytes : Bytes) → length bytes ≡ 0 → bytes ≡ []
empty [] e = refl
empty (b ∷ bytes) e = absurd (omega arith)

-- A write past the buffer, when the buffer is empty.
direct :
    (id : ℕ) (buffer bytes : Bytes) (segments : Segments)
    → length buffer ≡ 0
    → written id (append_to id bytes segments) ++ buffer ≡ (written id segments ++ buffer) ++ bytes
direct id buffer bytes segments e = rw (empty buffer e) (
    append-nil _
    ∙ written-append_to id bytes segments
    ∙ ap (λ (l : Bytes). l ++ bytes) (sym (append-nil (written id segments))))

pub write_all-whole_segment :
    (bytes : Bytes) (s : CasStore)
    → (whole_segment (write_all bytes s) ≡ whole_segment s ++ bytes)
      × ((write_all bytes s).current_segment_id ≡ s.current_segment_id)
      × ((write_all bytes s).index ≡ s.index)
      × ((write_all bytes s).current_offset ≡ s.current_offset)
unfolding write_all flush_buffer
write_all-whole_segment bytes s =
    let id = s.current_segment_id in
    let flushed : written id (append_to id s.buffer s.segments) ++ bytes
        ≡ whole_segment s ++ bytes =
      ap (λ (l : Bytes). l ++ bytes) (written-append_to id s.buffer s.segments) in
    elim (Bool-cases (ltb segment_buf_bytes (length s.buffer + length bytes))) [
      | inl full ↦ elim (Bool-cases (leb segment_buf_bytes (length bytes))) [
        | inl large ↦
            rw (full, large)
              (
                append-nil _
                    ∙ written-append_to id bytes (append_to id s.buffer s.segments)
                    ∙ flushed,
                refl,
                refl,
                refl,
              )
        | inr small ↦ rw (full, small) (flushed, refl, refl, refl)
      ]
      | inr room ↦ elim (Bool-cases (leb segment_buf_bytes (length bytes))) [
        | inl large ↦
            let nothing : length s.buffer ≡ 0 = ground arith in
            rw (room, large) (direct id s.buffer bytes s.segments nothing, refl, refl, refl)
        | inr small ↦
            rw (room, small)
              (sym (append_assoc (written id s.segments) s.buffer bytes), refl, refl, refl)
      ]
    ]

open_current-IsAppending :
    (created_at : ℕ → ℕ) (s s' : CasStore) (r : Result (Segments × ℕ))
    → ((p : Segments × ℕ) → r ≡ ok p → length (written s.current_segment_id p.0) ≡ p.1)
    → open_current created_at s r ≡ (ok tt, s')
    → IsAppending s' × (s'.index ≡ s.index)
unfolding open_current IsAppending
open_current-IsAppending created_at s s' (ok (segments, offset)) ends e =
    let same : record s { segments = segments; buffer = []; current_offset = offset } ≡ s' =
      ap (λ (p : Result (Unit {0}) × CasStore). p.1) e in
    rw (← same) (
      ap (λ (l : Bytes). length l) (append-nil (written s.current_segment_id segments))
          ∙ ends (segments, offset) refl,
      refl,
    )
open_current-IsAppending created_at s s' (err x) ends e = absurd cc
open_current-IsAppending created_at s s' Outcome.panicked ends e = absurd cc
open_current-IsAppending created_at s s' Outcome.out_of_fuel ends e = absurd cc

flush-index : (s : CasStore) → (flush s).index ≡ s.index
unfolding flush flush_buffer
flush-index s = elim (Bool-cases s.dirty) [ inl dirty ↦ rw dirty refl | inr clean ↦ rw clean refl ]

rotate_segment-IsAppending :
    (created_at : ℕ → ℕ) (s s' : CasStore)
    → rotate_segment created_at s ≡ (ok tt, s')
    → IsAppending s' × (s'.index ≡ s.index)
unfolding rotate_segment
rotate_segment-IsAppending created_at s s' e =
    elim (Bool-cases ((flush s).current_segment_id == 2 ^ 16 - 1)) [
      | inl last ↦ let no = rw last at e in cc
      | inr more ↦
          let id = (flush s).current_segment_id + 1 in
          let (appending, same) =
            open_current-IsAppending created_at _ s' _
              (λ p. open_segment-end (created_at id) id (flush s).segments p) (rw more at e) in
          (appending, same ∙ flush-index s)
    ]

pub ensure_segment_capacity-IsAppending :
    (created_at : ℕ → ℕ) (needed : ℕ) (s s' : CasStore)
    → IsAppending s
    → ensure_segment_capacity created_at needed s ≡ (ok tt, s')
    → IsAppending s' × (s'.index ≡ s.index)
unfolding ensure_segment_capacity
ensure_segment_capacity-IsAppending created_at needed s s' a e =
    elim (Bool-cases (ltb segment_max_bytes (s.current_offset + needed))) [
      | inl full ↦ rotate_segment-IsAppending created_at s s' (rw full at e)
      | inr room ↦
          let same : s ≡ s' = ap (λ (p : Result (Unit {0}) × CasStore). p.1) (rw room at e) in
          rw (← same) (a, refl)
    ]

ok_injective : {A : Type 0} {a b : A} → ok a ≡ ok b → a ≡ b
ok_injective e = cc

-- Opening a store leaves its offset at the end of its current segment.
pub open_store-IsAppending :
    (created_at : ℕ) (index_file : Bytes) (segments : Segments) (s : CasStore)
    → open_store created_at index_file segments ≡ ok s
    → IsAppending s
unfolding open_store IsAppending
open_store-IsAppending created_at index_file segments s e =
    let (index, opened, rest) = >>=-eq-ok (Index.open_index index_file) _ e in
    let id = or_zero (find_latest_segment segments) in
    let (r, made, done) = >>=-eq-ok (open_or_create_segment created_at id segments) _ rest in
    subst IsAppending (ok_injective done) (
      ap (λ (l : Bytes). length l) (append-nil (written id r.0))
      ∙ open_segment-end created_at id segments r made)
