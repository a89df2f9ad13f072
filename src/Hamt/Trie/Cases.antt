-- ===== src/Hamt/Trie/Cases.antt =====
-- The cases of `find` and `put_trie`.
use epochs.Common.{
  ℕ, suc, ◌+◌, ◌≡◌, refl, Option, none, some, ◌==◌, bytes_eq, true, false, inl, inr, Option-cases,
}
use mathlib.Core.Option
use epochs.Codec.{Bytes}
use epochs.Hamt.Chunk.{extract_5bits}
use epochs.Hamt.Trie.{Trie, Slots, leaf, node, slot, set_slot, find, put_trie, two_leaves}
use epochs.Hash.{Hash, Blake3}

module _ (fuel : ℕ) (key : Bytes) (key_hash : Hash) (depth : ℕ) where
  module _ (ss : Slots) where
    pub find-empty :
        slot (extract_5bits key_hash depth) ss ≡ none
        → find (suc fuel) key key_hash depth (node ss) ≡ some none
    unfolding find
    find-empty e = rw (e, find) refl

    pub find-full :
        (t : Trie)
        → slot (extract_5bits key_hash depth) ss ≡ some t
        → find (suc fuel) key key_hash depth (node ss) ≡ find fuel key key_hash (depth + 1) t
    unfolding find
    find-full t e = rw (e, find) refl

  module _ (blake3 : Blake3) (value : Bytes) where
    module _ (k w : Bytes) (t' : Trie)
        (put : put_trie blake3 (suc fuel) key value key_hash depth (leaf k w) ≡ some t') where
      pub put_same : bytes_eq k key ≡ true → t' ≡ leaf key value
      unfolding put_trie
      put_same e = let p : some (leaf key value) ≡ some t' = rw e at put in cc

      module _ (other : bytes_eq k key ≡ false) where
        pub put_deeper :
            (extract_5bits (blake3.of_bytes k) depth == extract_5bits key_hash depth) ≡ true
            → put_trie blake3 fuel key value key_hash (depth + 1) (leaf k w) ≡ some t'
        unfolding put_trie
        put_deeper e = rw (other, e) at put

        pub put_apart :
            (extract_5bits (blake3.of_bytes k) depth == extract_5bits key_hash depth) ≡ false
            → t'
              ≡ node (
                  two_leaves
                    (extract_5bits (blake3.of_bytes k) depth)
                    k
                    w
                    (extract_5bits key_hash depth)
                    key
                    value)
        unfolding put_trie
        put_apart e =
            let p : some (
                  node (
                    two_leaves (extract_5bits (blake3.of_bytes k) depth) k w
                      (extract_5bits key_hash depth) key value))
                ≡ some t' =
              rw (other, e) at put in
            cc

    module _ (ss : Slots) (t' : Trie)
        (put : put_trie blake3 (suc fuel) key value key_hash depth (node ss) ≡ some t') where
      pub put_empty :
          slot (extract_5bits key_hash depth) ss ≡ none
          → t' ≡ node (set_slot (extract_5bits key_hash depth) (leaf key value) ss)
      unfolding put_trie
      put_empty e =
          let p : some (node (set_slot (extract_5bits key_hash depth) (leaf key value) ss))
              ≡ some t' =
            rw (e, put_trie) at put in
          cc

      pub put_full :
          (t : Trie)
          → slot (extract_5bits key_hash depth) ss ≡ some t
          → (u : Trie) × (put_trie blake3 fuel key value key_hash (depth + 1) t ≡ some u)
            × (t' ≡ node (set_slot (extract_5bits key_hash depth) u ss))
      unfolding put_trie
      put_full t e =
          let b = extract_5bits key_hash depth in
          let sub = put_trie blake3 fuel key value key_hash (depth + 1) t in
          let p : Option.map (λ u. node (set_slot b u ss)) sub ≡ some t' =
            rw (e, put_trie) at put in
          elim (Option-cases sub) [
            | inl out ↦ let q : ◌≡◌ {A = Option Trie} none (some t') = rw out at p in cc
            | inr (u, is) ↦
                let q : some (node (set_slot b u ss)) ≡ some t' = rw is at p in (u, is, cc)
          ]

pub put_no_round :
    (blake3 : Blake3) (key value : Bytes) (key_hash : Hash) (depth : ℕ) (t t' : Trie)
    → put_trie blake3 0 key value key_hash depth t ≡ some t'
    → ⊥
unfolding put_trie
put_no_round blake3 key value key_hash depth t t' e = cc
