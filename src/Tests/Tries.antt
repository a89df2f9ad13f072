-- ===== src/Tests/Tries.antt =====
-- The trie over the store in memory.
use epochs.Common.{
  ◌≡◌, refl, [], ◌∷◌, List, Option, none, some, bytes_eq, bytes_eq_refl, if◌then◌else◌, Bool-cases,
  inl, inr, arith,
}
use epochs.Assoc
use epochs.Cas.Laws.{Object}
use epochs.Cas.Mem.Laws.{mem_laws}
use epochs.Cas.Mem.{MemCas, mem_backend}
use epochs.Codec.Pool.{encoded}
use epochs.Codec.{
  Bytes, write_bytes, write_u32, write_u16, le_bytes, write_hashes, write_hash, write_u8,
}
use epochs.Hamt.Chunk.{extract_5bits}
use epochs.Hamt.Node.{encode}
use epochs.Hamt.Tree.Puts
use epochs.Hamt.Tree.Puts.{Agrees}
use epochs.Hamt.Tree.Insertion
use epochs.Hamt.Tree.Lookup
use epochs.Hamt.Tree.Operations
use epochs.Hamt.Tree.Operations.{Collide}
use epochs.Hamt.Tree.Refine.{EveryNode, Known, root_object}
use epochs.Hamt.Tree.{insert, get, insert_internal, get_internal}
use epochs.Hamt.Trie.Laws.{Parts}
use epochs.Hamt.Trie.TwoLeaves.{two_leaves_rule}
use epochs.Hamt.Trie.{bitmap_of, slot_count, Trie, leaf, node, hash_of, find, put_trie, two_leaves}
use epochs.Hash.{Hash}
use epochs.Outcome.{ok}
use epochs.Tests.Digest.{digest}

-- Two keys with chunks 1 and 2.
abbrev first : Trie
first = leaf (1 ∷ []) (7 ∷ [])

abbrev both : Trie
both = node (two_leaves 1 (1 ∷ []) (7 ∷ []) 2 (2 ∷ []) (9 ∷ []))

abbrev entry : Trie → Hash × Object
entry t = (hash_of digest t, root_object digest t)

abbrev objects : List (Hash × Object)
objects = entry first ∷ entry (leaf (2 ∷ []) (9 ∷ [])) ∷ entry both ∷ []

abbrev table : Hash → Option Object
table h = Assoc.get h objects

abbrev store : MemCas
store = record { objects = entry first ∷ [] }

store-Agrees : Agrees (mem_backend digest) digest (mem_laws digest) table store
unfolding mem_laws Assoc.get
store-Agrees k x held = elim (Bool-cases (bytes_eq (hash_of digest first) k)) [
  | inl same ↦ rw same (rw same at held)
  | inr other ↦ let no : ◌≡◌ {A = Option Object} none (some x) = rw other at held in cc
]

first-held : EveryNode digest ((mem_laws digest).Holds store) 0 first
unfolding EveryNode mem_laws Assoc.get
first-held = ((omega arith, omega arith), rw (bytes_eq_refl (hash_of digest first)) refl)

put_both : put_trie digest 64 (2 ∷ []) (9 ∷ []) (digest.of_bytes (2 ∷ [])) 0 first ≡ some both
unfolding put_trie extract_5bits bytes_eq
put_both = refl

both-Known : Known digest table 1 both
unfolding EveryNode Assoc.get hash_of encode bytes_eq slot_count two_leaves encoded write_bytes
    write_u32 write_u16 le_bytes write_hashes write_hash write_u8 bitmap_of
both-Known = (
  refl,
  refl,
  λ b t.
      two_leaves_rule 1 2 (1 ∷ []) (7 ∷ []) (2 ∷ []) (9 ∷ []) (omega arith) (omega arith)
        (Known digest table 0) b t ((omega arith, omega arith), refl)
        ((omega arith, omega arith), refl),
)

-- The path of the second key ends at the first, which has another chunk.
paths_part : Parts digest 64 (2 ∷ []) (digest.of_bytes (2 ∷ [])) 0 first
unfolding Parts extract_5bits
paths_part = inr refl

-- Two keys that share the chunk 1 and part at level 1, with the chunks 8 and 16.
abbrev key_a : Bytes
key_a = 1 ∷ 1 ∷ []

abbrev key_b : Bytes
key_b = 1 ∷ 2 ∷ []

abbrev lost : Trie
lost = Operations.misplaced digest key_a (7 ∷ []) key_b (9 ∷ [])

keys-Collide : Collide digest key_a key_b
unfolding extract_5bits bytes_eq
keys-Collide = record { distinct = refl; shared = refl; parted = refl; left = refl; right = refl }

abbrev lost_table : Hash → Option Object
lost_table h =
    Assoc.get h (entry (leaf key_a (7 ∷ [])) ∷ entry (leaf key_b (9 ∷ [])) ∷ entry lost ∷ [])

leaf_a-Known : Known digest lost_table 1 (leaf key_a (7 ∷ []))
unfolding EveryNode Assoc.get
leaf_a-Known =
    ((omega arith, omega arith), rw (bytes_eq_refl (hash_of digest (leaf key_a (7 ∷ [])))) refl)

lost-Known : Known digest lost_table 1 lost
unfolding EveryNode Operations.misplaced extract_5bits Assoc.get hash_of encode bytes_eq slot_count
    two_leaves encoded write_bytes write_u32 write_u16 le_bytes write_hashes write_hash write_u8
    bitmap_of
lost-Known = (
  refl,
  refl,
  λ b t.
      two_leaves_rule 8 16 key_a (7 ∷ []) key_b (9 ∷ []) (omega arith) (omega arith)
        (Known digest lost_table 0) b t ((omega arith, omega arith), refl)
        ((omega arith, omega arith), refl),
)

abbrev empty_store : MemCas
empty_store = record { objects = [] }

empty_store-Agrees : Agrees (mem_backend digest) digest (mem_laws digest) lost_table empty_store
unfolding mem_laws Assoc.get
empty_store-Agrees k x held = let no : ◌≡◌ {A = Option Object} none (some x) = held in cc

-- The theorems at these inputs.
get-insert_lem_example :
    (s' : MemCas) × (insert
        (mem_backend digest)
        digest
        (some (hash_of digest first))
        (2 ∷ [])
        (9 ∷ [])
        store
      ≡ (ok (hash_of digest both), s'))
    × ((get (mem_backend digest) digest (some (hash_of digest both)) (1 ∷ []) s').0 ≡ (
        if bytes_eq (2 ∷ []) (1 ∷ [])
        then ok (some (9 ∷ []))
        else (get (mem_backend digest) digest (some (hash_of digest first)) (1 ∷ []) store).0))
get-insert_lem_example =
    Operations.get-insert_lem (mem_backend digest) digest (mem_laws digest) table 0 1 first both
      (2 ∷ []) (9 ∷ []) (1 ∷ []) store (omega arith, omega arith) store-Agrees first-held
      (omega arith) paths_part put_both both-Known

insert_loses_keys_example :
    (h₁ h₂ : Hash) × (s₁ s₂ : MemCas) × (insert
        (mem_backend digest)
        digest
        none
        key_a
        (7 ∷ [])
        empty_store
      ≡ (ok h₁, s₁))
    × (insert (mem_backend digest) digest (some h₁) key_b (9 ∷ []) s₁ ≡ (ok h₂, s₂))
    × ((get (mem_backend digest) digest (some h₂) key_a s₂).0 ≡ ok none)
    × ((get (mem_backend digest) digest (some h₂) key_b s₂).0 ≡ ok none)
insert_loses_keys_example =
    Operations.insert_loses_keys (mem_backend digest) digest (mem_laws digest) lost_table key_a
      (7 ∷ []) key_b (9 ∷ []) empty_store keys-Collide (omega arith, omega arith)
      (omega arith, omega arith) empty_store-Agrees leaf_a-Known lost-Known

insert_keeps_roots_example :
    (get
      (mem_backend digest)
      digest
      (some (hash_of digest first))
      (1 ∷ [])
      (insert
        (mem_backend digest)
        digest
        (some (hash_of digest first))
        (2 ∷ [])
        (9 ∷ [])
        store).1).0
    ≡ (get (mem_backend digest) digest (some (hash_of digest first)) (1 ∷ []) store).0
insert_keeps_roots_example =
    Operations.insert_keeps_roots (mem_backend digest) digest (mem_laws digest) table 0 1 0 first
      both first (2 ∷ []) (9 ∷ []) (1 ∷ []) store (omega arith, omega arith) store-Agrees first-held
      first-held (omega arith) put_both both-Known

insert_internal-put_trie_example :
    Puts.Builds
      (mem_backend digest)
      digest
      (mem_laws digest)
      table
      (insert_internal
        (mem_backend digest)
        digest
        64
        (some (hash_of digest first))
        (2 ∷ [])
        (9 ∷ [])
        (digest.of_bytes (2 ∷ []))
        0
        store)
      store
      1
      both
insert_internal-put_trie_example =
    Insertion.insert_internal-put_trie (mem_backend digest) digest (mem_laws digest) table 64 0 1
      first both (2 ∷ []) (9 ∷ []) (digest.of_bytes (2 ∷ [])) 0 store (omega arith, omega arith)
      store-Agrees first-held put_both both-Known

found_first : find 64 (1 ∷ []) (digest.of_bytes (1 ∷ [])) 0 first ≡ some (some (7 ∷ []))
unfolding find bytes_eq
found_first = refl

get_internal-find_example :
    (s' : MemCas) × (get_internal
        (mem_backend digest)
        digest
        64
        (hash_of digest first)
        (1 ∷ [])
        (digest.of_bytes (1 ∷ []))
        0
        store
      ≡ (ok (some (7 ∷ [])), s'))
    × Lookup.Same (mem_backend digest) digest (mem_laws digest) store s'
get_internal-find_example =
    Lookup.get_internal-find (mem_backend digest) digest (mem_laws digest) 64 0 first (1 ∷ [])
      (digest.of_bytes (1 ∷ [])) 0 store (some (7 ∷ [])) first-held found_first
