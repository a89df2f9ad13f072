-- ===== src/Index/Reload.antt =====
-- The index file and the map that it loads to.
use epochs.Common.{
  ℕ, zero, suc, ◌+◌, ◌^◌, ◌<◌, ◌≤◌, ◌≡◌, refl, sym, ap, ◌∙◌, [], ◌∷◌, ◌++◌, true, false, length,
  length-append, take, take_append_self, drop_append_self, append_assoc, append-nil, inl, inr,
  Bool-cases, leb, some, if◌then◌else◌, bytes_eq, arith,
}
use epochs.Outcome.{ok}
use epochs.Assoc
use epochs.Assoc.Laws
use epochs.Codec.{Bytes, le_bytes}
use epochs.Codec.RoundTrip.{
  Reads, Reads-bind, run_whole, pure-Reads, read_hash-Reads, read_u16-Reads, read_u48-Reads,
  read_u32-Reads, length-le_bytes,
}
use epochs.Hash.{Hash}
use epochs.Index.{
  Index, IndexEntry, Entries, encode_entry, decode_entry, read_entry, load_entries, open_index, get,
  contains, insert,
}

-- An entry whose fields fit their words on disk.
pub record IsStorable (hash : Hash) (e : IndexEntry) : Type 0 where
  pub hash_len : length hash ≡ 32
  pub segment_fits : e.segment_id < 2 ^ 16
  pub offset_fits : e.offset < 2 ^ 48
  pub record_fits : e.record_len < 2 ^ 32

abbrev by_fields : Hash → IndexEntry → Bytes
by_fields hash e =
    hash
    ++ (le_bytes 2 e.segment_id
        ++ (take 6 (le_bytes 8 e.offset) ++ (le_bytes 4 e.record_len ++ [])))

encode_entry-by_fields : (hash : Hash) (e : IndexEntry) → encode_entry hash e ≡ by_fields hash e
unfolding encode_entry
encode_entry-by_fields hash e = simp (append_assoc, append-nil)

length-offset : (v : ℕ) → length (take 6 (le_bytes 8 v)) ≡ 6
unfolding le_bytes
length-offset v = refl

pub length-encode_entry :
    (hash : Hash) (e : IndexEntry) → length hash ≡ 32 → length (encode_entry hash e) ≡ 44
length-encode_entry hash e h = rw (encode_entry-by_fields hash e) (
    simp length-append (
      omega (
        arith,
        h,
        length-le_bytes 2 e.segment_id,
        length-offset e.offset,
        length-le_bytes 4 e.record_len,
      )))

-- An entry whose hash and numbers fit their places decodes to what was encoded.
pub decode_entry-encode_entry :
    (hash : Hash) (e : IndexEntry)
    → IsStorable hash e
    → decode_entry (encode_entry hash e) ≡ ok (hash, e)
unfolding decode_entry
decode_entry-encode_entry hash e s = rw (encode_entry-by_fields hash e, run_whole reads)
  where
    reads : Reads read_entry (by_fields hash e) (hash, e)
    reads = Reads-bind _ (read_hash-Reads hash s.hash_len) (
        Reads-bind _ (read_u16-Reads e.segment_id s.segment_fits) (
          Reads-bind _ (read_u48-Reads e.offset s.offset_fits)
            (Reads-bind _ (read_u32-Reads e.record_len s.record_fits) (pure-Reads (hash, e)))))

-- The file that holds these entries, in the order in which they were written.
abbrev pub file_of : Entries → Bytes
file_of [] = []
file_of ((h, e) ∷ log) = encode_entry h e ++ file_of log

abbrev pub AllStorable : Entries → Type 0
AllStorable [] = Unit {0}
AllStorable ((h, e) ∷ log) = IsStorable h e × AllStorable log

abbrev replay : Entries → Entries → Entries
replay m [] = m
replay m ((h, e) ∷ log) = replay (Assoc.insert h e m) log

load_entries_step :
    (fuel : ℕ) (front : Bytes) (h : Hash) (e : IndexEntry) (rest : Bytes) (m : Entries)
    → IsStorable h e
    → load_entries (suc fuel) (front ++ (encode_entry h e ++ rest)) (length front) m
      ≡ load_entries fuel
          (front ++ (encode_entry h e ++ rest))
          (length front + 44)
          (Assoc.insert h e m)
unfolding load_entries
load_entries_step fuel front h e rest m s =
    let n = length-encode_entry h e s.hash_len in
    let here : take 44 (encode_entry h e ++ rest) ≡ encode_entry h e =
      rw (← n) (take_append_self (encode_entry h e) rest) in
    let more : leb (length front + 44) (length (front ++ (encode_entry h e ++ rest))) ≡ true =
      rw (length-append, length-append, n) (ground arith) in
    rw (more, drop_append_self, here, decode_entry-encode_entry h e s)

load_entries-file_of :
    (log : Entries) (fuel : ℕ) (front : Bytes) (m : Entries)
    → AllStorable log
    → length log < fuel
    → load_entries fuel (front ++ file_of log) (length front) m ≡ ok (replay m log)
load_entries-file_of log zero front m a h = absurd (omega arith)
load_entries-file_of [] (suc fuel) front m a h =
    let done : leb (length front + 44) (length (front ++ [])) ≡ false =
      rw append-nil (ground arith) in
    unfold load_entries in rw done
load_entries-file_of ((k, e) ∷ log) (suc fuel) front m a h =
    let n = length-encode_entry k e a.0.hash_len in
    let past : length front + 44 ≡ length (front ++ encode_entry k e) =
      omega (arith, length-append front (encode_entry k e), n) in
    load_entries_step fuel front k e (file_of log) m a.0
    ∙ rw (past, ← append_assoc front (encode_entry k e) (file_of log))
        (load_entries-file_of log fuel (front ++ encode_entry k e) (Assoc.insert k e m) a.1
          (omega arith))

log_fits : (log : Entries) → AllStorable log → length log ≤ length (file_of log)
log_fits [] a = omega arith
log_fits ((k, e) ∷ log) a = omega (
  arith,
  length-append (encode_entry k e) (file_of log),
  length-encode_entry k e a.0.hash_len,
  log_fits log a.1,
)

-- The index holds exactly what the log of its file says.
pub record IsLogged (index : Index) (log : Entries) : Type 0 where
  pub written : index.file ≡ file_of log
  pub loaded : index.entries ≡ replay [] log
  pub storable : AllStorable log

file_of-append : (log log' : Entries) → file_of (log ++ log') ≡ file_of log ++ file_of log'
file_of-append [] log' = refl
file_of-append ((k, e) ∷ log) log' =
    rw (file_of-append log log')
      (sym (append_assoc (encode_entry k e) (file_of log) (file_of log')))

replay-append :
    (m log : Entries) (h : Hash) (e : IndexEntry)
    → replay m (log ++ (h, e) ∷ []) ≡ Assoc.insert h e (replay m log)
replay-append m [] h e = refl
replay-append m ((k, x) ∷ log) h e = replay-append (Assoc.insert k x m) log h e

AllStorable-append :
    (log : Entries) (h : Hash) (e : IndexEntry)
    → AllStorable log
    → IsStorable h e
    → AllStorable (log ++ (h, e) ∷ [])
AllStorable-append [] h e a s = (s, tt)
AllStorable-append ((k, x) ∷ log) h e a s = (a.0, AllStorable-append log h e a.1 s)

insert-IsLogged :
    (index : Index) (log : Entries) (h : Hash) (e : IndexEntry)
    → IsLogged index log
    → IsStorable h e
    → (log' : Entries) × IsLogged (insert index h e) log'
unfolding insert
insert-IsLogged index log h e g s = elim (Bool-cases (Assoc.contains_key h index.entries)) [
  | inl old ↦ (log, rw old g)
  | inr new ↦ (
    log ++ (h, e) ∷ [],
    rw new (record {
      written =
          rw (g.written, file_of-append)
            (ap (λ (b : Bytes). file_of log ++ b) (sym (append-nil _)));
      loaded = rw (g.loaded, replay-append);
      storable = AllStorable-append log h e g.storable s;
    }),
  )
]

open_index-IsLogged :
    (index : Index) (log : Entries) → IsLogged index log → open_index index.file ≡ ok index
unfolding open_index
open_index-IsLogged index log g =
    rw
      (
        g.written,
        load_entries-file_of log (suc (length (file_of log))) [] [] g.storable
            (omega (arith, log_fits log g.storable)),
      )
      (ap (λ (m : Entries). ok (record { file = file_of log; entries = m })) (sym g.loaded))

abbrev pub insert_all : Index → Entries → Index
insert_all index [] = index
insert_all index ((h, e) ∷ es) = insert_all (insert index h e) es

insert_all-IsLogged :
    (index : Index) (log es : Entries)
    → IsLogged index log
    → AllStorable es
    → (log' : Entries) × IsLogged (insert_all index es) log'
insert_all-IsLogged index log [] g a = (log, g)
insert_all-IsLogged index log ((h, e) ∷ es) g a =
    let (log', g') = insert-IsLogged index log h e g a.0 in
    insert_all-IsLogged (insert index h e) log' es g' a.1

abbrev pub empty_index : Index
empty_index = record { file = []; entries = [] }

-- Opening the file of an index that was filled from empty by any insertions of storable entries,
-- repeated hashes included, gives the same index back.
pub open_index-insert_all :
    (es : Entries)
    → AllStorable es
    → open_index (insert_all empty_index es).file ≡ ok (insert_all empty_index es)
open_index-insert_all es a =
    let (log, g) =
      insert_all-IsLogged empty_index [] es
        (record { written = refl; loaded = refl; storable = tt }) a in
    open_index-IsLogged (insert_all empty_index es) log g

-- Inserting a hash that is there changes no lookup. Inserting one that is not makes its lookup give
-- the new location, and changes no other.
pub get-insert :
    (index : Index) (h k : Hash) (e : IndexEntry)
    → get (insert index h e) k
      ≡ (if contains index h then get index k else if bytes_eq h k then some e else get index k)
unfolding get insert contains
get-insert index h k e = elim (Bool-cases (Assoc.contains_key h index.entries)) [
  | inl old ↦ rw old
  | inr new ↦ rw new (Laws.get-insert h k e index.entries)
]
