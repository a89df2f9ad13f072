-- ===== src/Tests/Stores.antt =====
-- The caches, the store in memory, and the chunks of the trie.
use epochs.Common.{
  ◌≤◌, ◌≡◌, ◌≢◌, ◌/◌, ◌%◌, ◌^◌, ◌*◌, ℕ, ap, get_or, refl, [], ◌∷◌, bytes_eq, if◌then◌else◌, arith,
}
use epochs.Assoc
use epochs.Cas.Mem.Laws as MemLaws
use epochs.Cas.Mem.{put, get_record}
use epochs.Hamt.Chunk.Separates
use epochs.Hamt.Chunk.{extract_5bits}
use epochs.Hash.{Hash, zero_hash}
use epochs.Lru
use epochs.Lru.Fifo
use epochs.Lru.{LruMap}
use epochs.Outcome.{ok}
use epochs.Record.{RecordType}
use epochs.Tests.Digest.{digest}
use epochs.Text.{codes}

-- A full cache of two entries.
abbrev full_cache : LruMap ℕ
full_cache = record {
  map = (1 ∷ [], 10) ∷ (2 ∷ [], 20) ∷ [];
  order = (1 ∷ []) ∷ (2 ∷ []) ∷ [];
  cap = 2;
}

full_cache-IsQueue : Fifo.IsQueue full_cache
unfolding Fifo.IsQueue Fifo.IsDistinct Fifo.keys Assoc.contains_key bytes_eq
full_cache-IsQueue = (refl, (refl, (refl, tt)), omega arith, omega arith)

insert_evicts_oldest : (Lru.insert (3 ∷ []) 30 full_cache).order ≡ (2 ∷ []) ∷ (3 ∷ []) ∷ []
unfolding Lru.insert Lru.evict Assoc.contains_key Assoc.remove Assoc.insert bytes_eq
insert_evicts_oldest = refl

abbrev last_bit : Hash
last_bit =
    0 ∷ 0 ∷ 0 ∷ 0 ∷ 0 ∷ 0 ∷ 0 ∷ 0 ∷ 0 ∷ 0 ∷ 0 ∷ 0 ∷ 0 ∷ 0 ∷ 0 ∷ 0 ∷ 0 ∷ 0 ∷ 0 ∷ 0 ∷ 0 ∷ 0 ∷ 0 ∷ 0
    ∷ 0 ∷ 0 ∷ 0 ∷ 0 ∷ 0 ∷ 0 ∷ 0 ∷ 128 ∷ []

parted : zero_hash ≢ last_bit
parted e = let last : 0 ≡ 128 = ap (λ (h : Hash). get_or h 31 0) e in omega (arith, last)

-- The theorems at these inputs.
insert-push_example :
    ((Lru.insert (3 ∷ []) 30 full_cache).map ≡ Fifo.push 2 (3 ∷ []) 30 full_cache.map)
    × Fifo.IsQueue (Lru.insert (3 ∷ []) 30 full_cache)
insert-push_example = Fifo.insert-push (3 ∷ []) 30 full_cache full_cache-IsQueue

get_record-put_example :
    ((put digest RecordType.commit (codes "x") (record { objects = [] })).0
      ≡ ok (digest.of_bytes (codes "x")))
    × ((get_record zero_hash
          (put digest RecordType.commit (codes "x") (record { objects = [] })).1).0
        ≡ (if bytes_eq (digest.of_bytes (codes "x")) zero_hash
            then ok (
                MemLaws.first_writer
                  (Assoc.get (digest.of_bytes (codes "x")) [])
                  (RecordType.commit, codes "x"))
            else (get_record zero_hash (record { objects = [] })).0))
get_record-put_example =
    MemLaws.get_record-put digest RecordType.commit (codes "x") zero_hash (record { objects = [] })

extract_5bits-digit_example :
    extract_5bits last_bit 51 ≡ Separates.number last_bit / 2 ^ (5 * 51) % 32
extract_5bits-digit_example =
    Separates.extract_5bits-digit last_bit 51 (refl, omega arith) (omega arith)

chunks_separate_example :
    (d : ℕ) × (d ≤ 51) × (extract_5bits zero_hash d ≢ extract_5bits last_bit d)
chunks_separate_example =
    Separates.chunks_separate zero_hash last_bit (refl, omega arith) (refl, omega arith) parted
