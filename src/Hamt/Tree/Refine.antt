-- ===== src/Hamt/Tree/Refine.antt =====
-- The operations of epochs-core/src/hamt/tree.rs on a store that holds the nodes of a trie.
use epochs.Common.{ℕ, zero, suc, ◌^◌, ◌<◌, ◌≡◌, Option, some, length}
use epochs.Cas.Laws.{Object}
use epochs.Codec.{Bytes}
use epochs.Hamt.Node.{HamtNode, encode}
use epochs.Hamt.Trie.{Trie, leaf, node, slot, slot_count, bitmap_of, hash_of, hashes}
use epochs.Hash.{Hash, Blake3}
use epochs.Record.{RecordType}

-- A leaf whose lengths fit their words.
abbrev pub Fits : Bytes → Bytes → Type 0
Fits key value = (length key < 2 ^ 16) × (length value < 2 ^ 32)

abbrev pub root_object : Blake3 → Trie → Object
root_object blake3 (leaf key value) = (RecordType.hamt_leaf, encode (HamtNode.leaf key value))
root_object blake3 (node ss) =
    (RecordType.hamt_bitmap, encode (HamtNode.bitmap_node (bitmap_of ss) (hashes blake3 ss)))

-- `P` holds of the hash and the object of each node of a trie that is at most `n` levels high,
-- its leaves fit their words, and its bitmap nodes have 32 slots.
unfoldable pub EveryNode : Blake3 → (Hash → Object → Type 0) → ℕ → Trie → Type 0
EveryNode blake3 P n (leaf key value) =
    Fits key value × P (hash_of blake3 (leaf key value)) (root_object blake3 (leaf key value))
EveryNode blake3 P zero (node ss) = ⊥
EveryNode blake3 P (suc n) (node ss) =
    (slot_count ss ≡ 32)
    × P (hash_of blake3 (node ss)) (root_object blake3 (node ss))
    × ((b : ℕ) (t : Trie) → slot b ss ≡ some t → EveryNode blake3 P n t)

-- A trie whose objects a table of objects by their hashes has.
abbrev pub Known : Blake3 → (Hash → Option Object) → ℕ → Trie → Type 0
Known blake3 table = EveryNode blake3 (λ h o. table h ≡ some o)

pub EveryNode-map :
    (blake3 : Blake3) (P Q : Hash → Object → Type 0)
    → ((h : Hash) (o : Object) → P h o → Q h o)
    → (n : ℕ) (t : Trie) → EveryNode blake3 P n t
    → EveryNode blake3 Q n t
unfolding EveryNode
EveryNode-map blake3 P Q f n (leaf key value) e = (e.0, f _ _ e.1)
EveryNode-map blake3 P Q f zero (node ss) e = e
EveryNode-map blake3 P Q f (suc n) (node ss) e =
    (e.0, f _ _ e.1, λ b t at. EveryNode-map blake3 P Q f n t (e.2 b t at))

pub EveryNode-weaken :
    (blake3 : Blake3) (P : Hash → Object → Type 0) (n : ℕ) (t : Trie)
    → EveryNode blake3 P n t
    → EveryNode blake3 P (suc n) t
unfolding EveryNode
EveryNode-weaken blake3 P n (leaf key value) e = e
EveryNode-weaken blake3 P zero (node ss) e = absurd e
EveryNode-weaken blake3 P (suc n) (node ss) e =
    (e.0, e.1, λ b t at. EveryNode-weaken blake3 P n t (e.2 b t at))
