-- ===== src/Commit/RoundTrip.antt =====
-- Commit payloads of both versions, written and read.
use epochs.Common.{
  ℕ, ◌%◌, ◌^◌, ◌<◌, ◌≡◌, sym, ◌∙◌, List, [], ◌∷◌, ◌++◌, true, length, All-middle, append_assoc,
  append-nil, All, arith,
}
use epochs.Outcome.{ok, EpochsError}
use epochs.Assoc
use epochs.Assoc.{bytes_lt, IsAscending}
use epochs.Assoc.Laws.{sorted_insert_last}
use epochs.Codec.{
  Bytes, ByteEncoder, le_bytes, write_bytes, write_u8, write_u16, write_u64, write_hash,
}
use epochs.Codec.Pool.{encoded}
use epochs.Codec.RoundTrip.{
  Reads, Reads-bind, run_whole, concat, write_hashes-concat, read_hashes-Reads, pure-Reads,
  read_slice-Reads, read_u8-Reads, read_u16-Reads, read_u64-Reads, read_hash-Reads,
}
use epochs.Hash.{Hash}
use epochs.Text.{IsText}
use epochs.Commit.{
  Commit, commit_version_v1, write_root, write_roots, encode_payload, check_version, text_or,
  read_roots, counted_roots, read_index_roots, read_commit, decode_payload,
}

-- An index root whose name and hash fit their places.
abbrev pub IsRoot : Bytes × Hash → Type 0
IsRoot r = IsText r.0 × (length r.0 < 2 ^ 16) × (length r.1 ≡ 32)

-- A commit whose counts and lengths fit their words, over valid texts and hashes.
pub record IsStorable (c : Commit) : Type 0 where
  pub parents_fit : length c.parents < 2 ^ 8
  pub parents_len : All (λ p. length p ≡ 32) c.parents
  pub root_len : length c.root_hamt ≡ 32
  pub timestamp_fits : c.timestamp < 2 ^ 64
  pub message_fits : length c.message < 2 ^ 16
  pub message_text : IsText c.message
  pub roots_fit : length c.index_roots < 2 ^ 16
  pub roots_valid : All IsRoot c.index_roots
  pub roots_ascend : IsAscending c.index_roots

abbrev roots_bytes : List (Bytes × Hash) → Bytes
roots_bytes [] = []
roots_bytes (r ∷ rs) = le_bytes 2 (length r.0) ++ (r.0 ++ ([] ++ (r.1 ++ roots_bytes rs)))

write_roots-bytes :
    (rs : List (Bytes × Hash)) (enc : ByteEncoder)
    → All IsRoot rs
    → (write_roots rs enc).buf ≡ enc.buf ++ roots_bytes rs
unfolding write_roots write_root write_hash write_bytes write_u16
write_roots-bytes [] enc a = sym (append-nil enc.buf)
write_roots-bytes ((name, hash) ∷ rs) enc a =
    let n : length name % 2 ^ 16 ≡ length name = omega (arith, a.0.1) in
    write_roots-bytes rs (write_root name hash enc) a.1 ∙ simp (n, append_assoc)

text_or-Reads : (e : EpochsError) (s : Bytes) → IsText s → Reads (text_or e s) [] s
unfolding text_or
text_or-Reads e s t = rw t (pure-Reads s)

-- In an ascending list, what stands before an entry is below it.
below_of_ascending :
    (done : List (Bytes × Hash)) (r : Bytes × Hash) (rs : List (Bytes × Hash))
    → IsAscending (done ++ r ∷ rs)
    → All (λ e. bytes_lt e.0 r.0 ≡ true) done
below_of_ascending [] r rs o = tt
below_of_ascending (d ∷ done) r rs o =
    (All-middle (λ e. bytes_lt d.0 e.0 ≡ true) done r rs o.0, below_of_ascending done r rs o.1)

read_roots-Reads :
    (done rs : List (Bytes × Hash))
    → All IsRoot rs
    → IsAscending (done ++ rs)
    → Reads (read_roots (length rs) done) (roots_bytes rs) (done ++ rs)
unfolding read_roots
read_roots-Reads done [] a o = rw append-nil (pure-Reads done)
read_roots-Reads done (r ∷ rs) a o =
    let last = sorted_insert_last r.0 r.1 done (below_of_ascending done r rs o) in
    let next = append_assoc done (r ∷ []) rs in
    let rest : Reads (read_roots (length rs) (Assoc.sorted_insert r.0 r.1 done)) (roots_bytes rs)
        (done ++ r ∷ rs) =
      rw (last, ← next) (read_roots-Reads (done ++ r ∷ []) rs a.1 (rw next o)) in
    Reads-bind _ (read_u16-Reads (length r.0) a.0.1) (
      Reads-bind _ (read_slice-Reads r.0)
        (Reads-bind _ (text_or-Reads _ r.0 a.0.0) (Reads-bind _ (read_hash-Reads r.1 a.0.2) rest)))

counted_roots-Reads :
    (rs : List (Bytes × Hash))
    → length rs < 2 ^ 16
    → All IsRoot rs
    → IsAscending rs
    → Reads counted_roots (le_bytes 2 (length rs) ++ roots_bytes rs) rs
unfolding counted_roots
counted_roots-Reads rs n a o =
    Reads-bind _ (read_u16-Reads (length rs) n) (read_roots-Reads [] rs a o)

-- The fields that both versions have, behind the version byte.
abbrev common_bytes : Commit → Bytes → Bytes
common_bytes c rest =
    (length c.parents ∷ [])
    ++ (concat c.parents
        ++ (c.root_hamt
            ++ (le_bytes 8 c.timestamp
                ++ (le_bytes 2 (length c.message) ++ (c.message ++ ([] ++ rest))))))

-- The payload of version 1, which has no index roots.
abbrev pub v1_payload : Commit → Bytes
v1_payload c = commit_version_v1 ∷ common_bytes c []

v2_passes : Reads (check_version 2) [] tt
unfolding check_version
v2_passes = pure-Reads tt

v1_passes : Reads (check_version 1) [] tt
unfolding check_version
v1_passes = pure-Reads tt

v2_roots :
    (c : Commit)
    → IsStorable c
    → Reads
        (read_index_roots 2)
        (le_bytes 2 (length c.index_roots) ++ roots_bytes c.index_roots)
        c.index_roots
unfolding read_index_roots
v2_roots c s = counted_roots-Reads c.index_roots s.roots_fit s.roots_valid s.roots_ascend

v1_roots : Reads (read_index_roots 1) [] []
unfolding read_index_roots
v1_roots = pure-Reads []

module _ (c : Commit) (s : IsStorable c) where
  read_commit-Reads :
      (version : ℕ) (tail : Bytes) (roots : List (Bytes × Hash))
      → Reads (check_version version) [] tt
      → Reads (read_index_roots version) tail roots
      → Reads read_commit
          ((version ∷ []) ++ ([] ++ common_bytes c (tail ++ [])))
          (record c { index_roots = roots })
  unfolding read_commit
  read_commit-Reads version tail roots check read = Reads-bind _ (read_u8-Reads version) (
      Reads-bind _ check (
        Reads-bind _ (read_u8-Reads (length c.parents)) (
          Reads-bind _ (read_hashes-Reads c.parents s.parents_len) (
            Reads-bind _ (read_hash-Reads c.root_hamt s.root_len) (
              Reads-bind _ (read_u64-Reads c.timestamp s.timestamp_fits) (
                Reads-bind _ (read_u16-Reads (length c.message) s.message_fits) (
                  Reads-bind _ (read_slice-Reads c.message) (
                    Reads-bind _ (text_or-Reads _ c.message s.message_text)
                      (Reads-bind _ read (pure-Reads _))))))))))

  encode_payload-bytes :
      encode_payload c
      ≡ (2 ∷ [])
        ++ ([]
            ++ common_bytes c
                ((le_bytes 2 (length c.index_roots) ++ roots_bytes c.index_roots) ++ []))
  unfolding encode_payload encoded write_u8 write_u16 write_u64 write_hash write_bytes
  encode_payload-bytes =
      let p : length c.parents % 2 ^ 8 ≡ length c.parents = omega (arith, s.parents_fit) in
      let m : length c.message % 2 ^ 16 ≡ length c.message = omega (arith, s.message_fits) in
      let r : length c.index_roots % 2 ^ 16 ≡ length c.index_roots = omega (arith, s.roots_fit) in
      write_roots-bytes c.index_roots _ s.roots_valid
      ∙ simp (write_hashes-concat, p, m, r, append_assoc, append-nil)

-- A commit whose lengths fit their words decodes to itself.
pub decode_payload-encode_payload :
    (c : Commit) → IsStorable c → decode_payload (encode_payload c) ≡ ok c
unfolding decode_payload
decode_payload-encode_payload c s = rw (
  encode_payload-bytes c s,
  run_whole (read_commit-Reads c s 2 _ c.index_roots v2_passes (v2_roots c s)),
)

-- The payload of version 1 that holds the fields of a commit still decodes, with no index roots.
pub decode_payload-v1 :
    (c : Commit) → IsStorable c → decode_payload (v1_payload c) ≡ ok (record c { index_roots = [] })
unfolding decode_payload
decode_payload-v1 c s = rw (run_whole (read_commit-Reads c s 1 [] [] v1_passes v1_roots))
