-- ===== src/Hamt/Trie.antt =====
-- The trie of epochs-core/src/hamt as a value, apart from the store that holds its nodes: what
-- the hash of a node stands for, and what the operations do to that value.
pub mod Bitmap
pub mod Children
pub mod TwoLeaves
pub mod Cases
pub mod Laws
use epochs.Common.{
  ℕ, zero, suc, ◌+◌, ◌*◌, ◌≤◌, ◌<◌, ◌≡◌, ◌^◌, List, [], ◌∷◌, Bool, true, false, Option, none, some,
  ◌==◌, if◌then◌else◌, bytes_eq, length,
}
use mathlib.Core.Option
use epochs.Codec.{Bytes}
use epochs.Hamt.Chunk.{extract_5bits}
use epochs.Hamt.Node.{HamtNode, encode}
use epochs.Hash.{Hash, Blake3}

-- The slots of a bitmap node stand for the bits of its bitmap, the lowest first.
mutual
  pub data Trie : Type 0 where
    leaf : (key value : Bytes) → Trie
    node : Slots → Trie

  pub data Slots : Type 0 where
    end : Slots
    skip : Slots → Slots
    fill : Trie → Slots → Slots

unfoldable pub slot : ℕ → Slots → Option Trie
slot b end = none
slot zero (skip ss) = none
slot zero (fill t ss) = some t
slot (suc b) (skip ss) = slot b ss
slot (suc b) (fill t ss) = slot b ss

unfoldable pub set_slot : ℕ → Trie → Slots → Slots
set_slot b t end = end
set_slot zero t (skip ss) = fill t ss
set_slot zero t (fill u ss) = fill t ss
set_slot (suc b) t (skip ss) = skip (set_slot b t ss)
set_slot (suc b) t (fill u ss) = fill u (set_slot b t ss)

-- The number of filled slots before slot `b`.
unfoldable pub rank : ℕ → Slots → ℕ
rank b end = 0
rank zero ss = 0
rank (suc b) (skip ss) = rank b ss
rank (suc b) (fill t ss) = suc (rank b ss)

unfoldable pub slot_count : Slots → ℕ
slot_count end = 0
slot_count (skip ss) = suc (slot_count ss)
slot_count (fill t ss) = suc (slot_count ss)

unfoldable pub empty_slots : ℕ → Slots
empty_slots zero = end
empty_slots (suc n) = skip (empty_slots n)

unfoldable pub bitmap_of : Slots → ℕ
bitmap_of end = 0
bitmap_of (skip ss) = 2 * bitmap_of ss
bitmap_of (fill t ss) = 1 + 2 * bitmap_of ss

-- The level at which two leaves part holds both.
unfoldable pub two_leaves : ℕ → Bytes → Bytes → ℕ → Bytes → Bytes → Slots
unfolding set_slot empty_slots
two_leaves c k w c' key value =
    set_slot c' (leaf key value) (set_slot c (leaf k w) (empty_slots 32))

-- The value under a key, where `fuel` is above the height.
unfoldable pub find : ℕ → Bytes → Hash → ℕ → Trie → Option (Option Bytes)
find zero key key_hash depth t = none
find (suc fuel) key key_hash depth (leaf k v) = some (if bytes_eq k key then some v else none)
find (suc fuel) key key_hash depth (node ss) = elim (slot (extract_5bits key_hash depth) ss) [
  | none ↦ some none
  | some t ↦ find fuel key key_hash (depth + 1) t
]

module _ (blake3 : Blake3) where
  unfoldable mutual
    pub hash_of : Trie → Hash
    hash_of (leaf key value) = blake3.of_bytes (encode (HamtNode.leaf key value))
    hash_of (node ss) = blake3.of_bytes (encode (HamtNode.bitmap_node (bitmap_of ss) (hashes ss)))

    pub hashes : Slots → List Hash
    hashes end = []
    hashes (skip ss) = hashes ss
    hashes (fill t ss) = hash_of t ∷ hashes ss

  -- What `insert` makes of a trie. Where two keys have the same chunk at a level, the code goes on
  -- one level deeper with the old leaf and puts no node for the level between.
  unfoldable pub put_trie : ℕ → Bytes → Bytes → Hash → ℕ → Trie → Option Trie
  put_trie zero key value key_hash depth t = none
  put_trie (suc fuel) key value key_hash depth (leaf k w) =
      let c = extract_5bits (blake3.of_bytes k) depth in
      let c' = extract_5bits key_hash depth in
      let deeper = put_trie fuel key value key_hash (depth + 1) (leaf k w) in
      if bytes_eq k key
      then some (leaf key value)
      else if c == c'
      then deeper
      else some (node (two_leaves c k w c' key value))
  put_trie (suc fuel) key value key_hash depth (node ss) =
      let b = extract_5bits key_hash depth in
      elim (slot b ss) [
        | none ↦ some (node (set_slot b (leaf key value) ss))
        | some t ↦
            Option.map (λ t'. node (set_slot b t' ss))
              (put_trie fuel key value key_hash (depth + 1) t)
      ]
