-- ===== src/Hamt/Tree/Lookup.antt =====
-- `get` on a store that holds a trie.
use epochs.Common.{
  ℕ, zero, suc, ◌+◌, ◌^◌, ◌<◌, ◌≡◌, refl, Option, none, some, arith, length, All, Option-cases, inl,
  inr,
}
use epochs.Cas.Laws.{CasLaws, Object}
use epochs.Cas.{CasBackend}
use epochs.Codec.{Bytes}
use epochs.Hamt.Chunk.{extract_5bits}
use epochs.Hamt.Node.RoundTrip.{decode-encode}
use epochs.Hamt.Node.{HamtNode, encode, decode}
use epochs.Hamt.Tree.Refine.{EveryNode, EveryNode-map}
use epochs.Hamt.Tree.{load_node, get_node, get_internal}
use epochs.Hamt.Trie.Bitmap.{has_branch-empty, has_branch-filled, child_index-rank, bitmap_of-lt}
use epochs.Hamt.Trie.Children.{hashes-slot, length-hashes}
use epochs.Hamt.Trie.{
  Trie, Slots, end, skip, fill, leaf, node, slot, bitmap_of, hash_of, hashes, find,
}
use epochs.Hash.{Hash, Blake3}
use epochs.Outcome.{ok}
use epochs.Record.{RecordType}

module _ (blake3 : Blake3) where
  unfolding_hash : (t : Trie) → length (hash_of blake3 t) ≡ 32
  unfolding hash_of
  unfolding_hash (leaf k v) = (blake3.of_bytes-IsHash _).0
  unfolding_hash (node ss) = (blake3.of_bytes-IsHash _).0

  hashes-IsHash : (ss : Slots) → All (λ h. length h ≡ 32) (hashes blake3 ss)
  unfolding hashes
  hashes-IsHash end = tt
  hashes-IsHash (skip ss) = hashes-IsHash ss
  hashes-IsHash (fill t ss) = (unfolding_hash t, hashes-IsHash ss)

module _ {S : Type 0} (cas : CasBackend S) (blake3 : Blake3) (laws : CasLaws cas blake3) where
  abbrev pub Same : S → S → Type 0
  Same s s' =
      ((k : Hash) (x : Object) → laws.Holds s k x → laws.Holds s' k x)
      × ((k : Hash) (x : Object) → laws.Holds s' k x → laws.Holds s k x)

  pub Same-trans : (s s' s'' : S) → Same s s' → Same s' s'' → Same s s''
  Same-trans s s' s'' p q = (λ k x h. q.0 k x (p.0 k x h), λ k x h. p.1 k x (q.1 k x h))

  -- A held object that decodes to a node is loaded as that node.
  load_held :
      (s : S) (h : Hash) (t : RecordType) (payload : Bytes) (n : HamtNode)
      → laws.Holds s h (t, payload)
      → decode t payload ≡ ok n
      → (s' : S) × (load_node cas blake3 h s ≡ (ok n, s')) × Same s s'
  unfolding load_node
  load_held s h t payload n held e =
      let (s', got, there, back) = laws.get_held s h (t, payload) held in
      (s', rw (got, e) refl, (there, back))

  pub load_leaf :
      (s : S) (n : ℕ) (k v : Bytes)
      → EveryNode blake3 (laws.Holds s) n (leaf k v)
      → (s' : S) × (load_node cas blake3 (hash_of blake3 (leaf k v)) s
          ≡ (ok (HamtNode.leaf k v), s'))
        × Same s s'
  unfolding EveryNode
  load_leaf s n k v e =
      load_held s (hash_of blake3 (leaf k v)) RecordType.hamt_leaf (encode (HamtNode.leaf k v))
        (HamtNode.leaf k v) e.1 (decode-encode (HamtNode.leaf k v) e.0)

  pub load_bitmap :
      (s : S) (n : ℕ) (ss : Slots)
      → EveryNode blake3 (laws.Holds s) (suc n) (node ss)
      → (s' : S) × (load_node cas blake3 (hash_of blake3 (node ss)) s
          ≡ (ok (HamtNode.bitmap_node (bitmap_of ss) (hashes blake3 ss)), s'))
        × Same s s'
  unfolding EveryNode
  load_bitmap s n ss e =
      let w = HamtNode.bitmap_node (bitmap_of ss) (hashes blake3 ss) in
      let lt = bitmap_of-lt ss in
      let fits : bitmap_of ss < 2 ^ 32 = rw e.0 at lt in
      load_held s (hash_of blake3 (node ss)) RecordType.hamt_bitmap (encode w) w e.1 (
        decode-encode w
          (fits, omega (arith, length-hashes blake3 ss, e.0), hashes-IsHash blake3 ss))

  -- On a store that holds a trie, `get_internal` returns what `find` finds in the trie under
  -- the key, when the rounds suffice for `find`, and the store holds the same objects as
  -- before.
  pub get_internal-find :
      (fuel n : ℕ) (t : Trie) (key : Bytes) (key_hash : Hash) (depth : ℕ) (s : S) (r : Option Bytes)
      → EveryNode blake3 (laws.Holds s) n t
      → find fuel key key_hash depth t ≡ some r
      → (s' : S) × (get_internal cas blake3 fuel (hash_of blake3 t) key key_hash depth s
          ≡ (ok r, s'))
        × Same s s'
  unfolding get_internal get_node find EveryNode
  get_internal-find zero n t key key_hash depth s r e f = cc
  get_internal-find (suc fuel) n (leaf k v) key key_hash depth s r e f =
      let (s', loaded, same) = load_leaf s n k v e in (s', rw loaded (ground arith), same)
  get_internal-find (suc fuel) zero (node ss) key key_hash depth s r e f = absurd e
  get_internal-find (suc fuel) (suc n) (node ss) key key_hash depth s r e f =
      let (s', loaded, same) = load_bitmap s n ss e in
      let b = extract_5bits key_hash depth in
      elim (Option-cases (slot b ss)) [
        | inl empty ↦
            let found : ◌≡◌ {A = Option (Option Bytes)} (some none) (some r) =
              rw (empty, find) at f in
            (s', rw (loaded, has_branch-empty b ss empty) (cc), same)
        | inr (t, at) ↦
            let found : find fuel key key_hash (depth + 1) t ≡ some r = rw (at, find) at f in
            let kept =
              EveryNode-map blake3 (laws.Holds s) (laws.Holds s') same.0 n t (e.2 b t at) in
            let (s'', got, again) =
              get_internal-find fuel n t key key_hash (depth + 1) s' r kept found in
            (
              s'',
              rw
                  (
                    loaded,
                    has_branch-filled b ss t at,
                    child_index-rank b ss e.0,
                    hashes-slot blake3 b ss t at,
                  )
                  got,
              Same-trans s s' s'' same again,
            )
      ]
