-- ===== src/Hamt/Tree/Puts.antt =====
-- What `insert` writes: nodes that are put into a store beside those it holds.
use epochs.Common.{ℕ, suc, ◌≡◌, Option, some, inl, inr}
use epochs.Cas.Laws.{CasLaws, Object}
use epochs.Cas.{CasBackend}
use epochs.Codec.{Bytes}
use epochs.Hamt.Node.{HamtNode, encode}
use epochs.Hamt.Tree.Refine.{EveryNode, EveryNode-map, Fits, root_object}
use epochs.Hamt.Tree.{persist_leaf, persist_bitmap}
use epochs.Hamt.Trie.{Trie, Slots, leaf, node, slot, slot_count, bitmap_of, hash_of, hashes}
use epochs.Hash.{Hash, Blake3}
use epochs.Outcome.{Result, ok}
use epochs.Record.{RecordType}

module _ {S : Type 0} (cas : CasBackend S) (blake3 : Blake3) (laws : CasLaws cas blake3)
    (table : Hash → Option Object) where
  abbrev pub InTable : Hash → Object → Type 0
  InTable k x = table k ≡ some x

  -- Every object of the store stands in the table, so no two have one hash.
  abbrev pub Agrees : S → Type 0
  Agrees s = (k : Hash) (x : Object) → laws.Holds s k x → table k ≡ some x

  abbrev pub Grows : S → S → Type 0
  Grows s s' = (k : Hash) (x : Object) → laws.Holds s k x → laws.Holds s' k x

  abbrev pub Stores : S → ℕ → Trie → Type 0
  Stores s n t = EveryNode blake3 (laws.Holds s) n t

  -- What a call that builds `t` leaves behind.
  abbrev pub Builds : Result Hash × S → S → ℕ → Trie → Type 0
  Builds r s n t =
      (s' : S) × (r ≡ (ok (hash_of blake3 t), s')) × Stores s' n t × Grows s s' × Agrees s'

  pub put_object :
      (s : S) (t : RecordType) (payload : Bytes)
      → Agrees s
      → table (blake3.of_bytes payload) ≡ some (t, payload)
      → (s' : S) × (cas.put t payload s ≡ (ok (blake3.of_bytes payload), s'))
        × laws.Holds s' (blake3.of_bytes payload) (t, payload)
        × Grows s s'
        × Agrees s'
  put_object s t payload a known =
      let h = blake3.of_bytes payload in
      let alone = λ (x : Object) (held : laws.Holds s h x).
        let same : x ≡ (t, payload) = cc (a h x held, known) in same in
      let (s', e, held, grows, back) = laws.put_held s t payload alone in
      (
        s',
        e,
        held,
        grows,
        λ k x at. elim (back k x at) [ inl old ↦ a k x old | inr new ↦ rw (new.0, new.1) known ],
      )

  pub put_leaf :
      (s : S) (n : ℕ) (key value : Bytes)
      → Fits key value
      → Agrees s
      → table (hash_of blake3 (leaf key value)) ≡ some (root_object blake3 (leaf key value))
      → Builds (persist_leaf cas blake3 key value s) s n (leaf key value)
  unfolding persist_leaf hash_of EveryNode
  put_leaf s n key value f a known =
      let (s', e, held, grows, agrees) =
        put_object s RecordType.hamt_leaf (encode (HamtNode.leaf key value)) a known in
      (s', e, (f, held), grows, agrees)

  pub put_node :
      (s : S) (n : ℕ) (ss : Slots)
      → slot_count ss ≡ 32
      → ((b : ℕ) (t : Trie) → slot b ss ≡ some t → Stores s n t)
      → Agrees s
      → table (hash_of blake3 (node ss)) ≡ some (root_object blake3 (node ss))
      → Builds (persist_bitmap cas blake3 (bitmap_of ss) (hashes blake3 ss) s) s (suc n) (node ss)
  unfolding persist_bitmap hash_of EveryNode
  put_node s n ss count children a known =
      let w = HamtNode.bitmap_node (bitmap_of ss) (hashes blake3 ss) in
      let (s', e, held, grows, agrees) = put_object s RecordType.hamt_bitmap (encode w) a known in
      (
        s',
        e,
        (
          count,
          held,
          λ b t at. EveryNode-map blake3 (laws.Holds s) (laws.Holds s') grows n t (children b t at),
        ),
        grows,
        agrees,
      )

  pub grow : (s s' : S) (n : ℕ) (t : Trie) → Grows s s' → Stores s n t → Stores s' n t
  grow s s' n t g = EveryNode-map blake3 (laws.Holds s) (laws.Holds s') g n t

  -- A leaf that is stored is put again, which changes nothing that a reader sees.
  pub put_leaf_again :
      (s : S) (n : ℕ) (k w : Bytes)
      → Stores s n (leaf k w)
      → Agrees s
      → Builds (persist_leaf cas blake3 k w s) s n (leaf k w)
  unfolding EveryNode
  put_leaf_again s n k w e a =
      put_leaf s n k w e.0 a (a (hash_of blake3 (leaf k w)) (root_object blake3 (leaf k w)) e.1)
