-- ===== src/Hamt/Trie/Laws.antt =====
-- What a lookup finds after an insertion.
use epochs.Common.{
  ℕ, zero, suc, ◌+◌, ◌<◌, ◌≡◌, refl, sym, ap, ◌∙◌, Option, none, some, ◌==◌, ==_iff, if◌then◌else◌,
  bytes_eq, bytes_eq_iff, Bool-cases, Option-cases, true, false, ◌⊎◌, inl, inr, arith,
}
use epochs.Codec.{Bytes}
use epochs.Hamt.Chunk.Separates.{extract_5bits-lt}
use epochs.Hamt.Chunk.{extract_5bits}
use epochs.Hamt.Trie.Cases.{find-empty, find-full, put_same, put_apart, put_empty, put_full}
use epochs.Hamt.Trie.Children.{slot-set_slot}
use epochs.Hamt.Trie.TwoLeaves.{slot-two_leaves}
use epochs.Hamt.Trie.{
  Trie, Slots, leaf, node, slot, slot_count, set_slot, find, put_trie, two_leaves,
}
use epochs.Hash.{Hash, Blake3}

-- Every bitmap node has 32 slots.
unfoldable pub IsFull : ℕ → Trie → Type 0
IsFull n (leaf k v) = Unit
IsFull zero (node ss) = ⊥
IsFull (suc n) (node ss) =
    (slot_count ss ≡ 32) × ((b : ℕ) (t : Trie) → slot b ss ≡ some t → IsFull n t)

-- More rounds find the same.
pub find_more :
    (fuel : ℕ) (key : Bytes) (h : Hash) (depth : ℕ) (t : Trie) (r : Option Bytes)
    → find fuel key h depth t ≡ some r
    → find (suc fuel) key h depth t ≡ some r
unfolding find
find_more zero key h depth t r e = cc
find_more (suc fuel) key h depth (leaf k v) r e = e
find_more (suc fuel) key h depth (node ss) r e =
    elim (Option-cases (slot (extract_5bits h depth) ss)) [
      | inl empty ↦
          find-empty (suc fuel) key h depth ss empty
          ∙ sym (find-empty fuel key h depth ss empty)
          ∙ e
      | inr (t, at) ↦
          find-full (suc fuel) key h depth ss t at
          ∙ find_more fuel key h (depth + 1) t r (sym (find-full fuel key h depth ss t at) ∙ e)
    ]

-- A key with the hash `h` meets no other key with its chunk at the leaf that its path ends in.
unfoldable pub Parts : Blake3 → ℕ → Bytes → Hash → ℕ → Trie → Type 0
Parts blake3 zero key h depth t = ⊥
Parts blake3 (suc fuel) key h depth (leaf k w) =
    (bytes_eq k key ≡ true)
    ⊎ ((extract_5bits (blake3.of_bytes k) depth == extract_5bits h depth) ≡ false)
Parts blake3 (suc fuel) key h depth (node ss) =
    (t : Trie) → slot (extract_5bits h depth) ss ≡ some t → Parts blake3 fuel key h (depth + 1) t

pub find_leaf :
    (fuel : ℕ) (key : Bytes) (h : Hash) (depth : ℕ) (k v : Bytes)
    → find (suc fuel) key h depth (leaf k v) ≡ some (if bytes_eq k key then some v else none)
unfolding find
find_leaf fuel key h depth k v = refl

module _ (blake3 : Blake3) (value : Bytes) where
  chunk_eq :
      (depth : ℕ) (x j : Bytes)
      → bytes_eq x j ≡ true
      → extract_5bits (blake3.of_bytes x) depth ≡ extract_5bits (blake3.of_bytes j) depth
  chunk_eq depth x j e = ap (λ y. extract_5bits (blake3.of_bytes y) depth) ((bytes_eq_iff x j).0 e)

  find_apart :
      (fuel depth : ℕ) (k w key j : Bytes)
      → bytes_eq k key ≡ false
      → (extract_5bits (blake3.of_bytes k) depth == extract_5bits (blake3.of_bytes key) depth)
        ≡ false
      → find (suc (suc fuel)) j (blake3.of_bytes j) depth (
          node (
            two_leaves
              (extract_5bits (blake3.of_bytes k) depth)
              k
              w
              (extract_5bits (blake3.of_bytes key) depth)
              key
              value))
        ≡ some (if bytes_eq key j then some value else if bytes_eq k j then some w else none)
  find_apart fuel depth k w key j other apart =
      let c = extract_5bits (blake3.of_bytes k) depth in
      let c' = extract_5bits (blake3.of_bytes key) depth in
      let b = extract_5bits (blake3.of_bytes j) depth in
      let two = two_leaves c k w c' key value in
      let at =
        slot-two_leaves c c' k w key value (extract_5bits-lt _ depth) (extract_5bits-lt _ depth)
          b in
      let key_chunk = chunk_eq depth key j in
      let k_chunk = chunk_eq depth k j in
      elim (Bool-cases (c' == b)) [
        | inl new ↦
            find-full (suc fuel) j (blake3.of_bytes j) depth two (leaf key value) (at ∙ rw new refl)
            ∙ find_leaf fuel j (blake3.of_bytes j) (depth + 1) key value
            ∙ ground (arith, key_chunk, k_chunk)
        | inr not_new ↦ elim (Bool-cases (c == b)) [
          | inl old ↦
              find-full (suc fuel) j (blake3.of_bytes j) depth two (leaf k w)
                (at ∙ rw (not_new, old) refl)
              ∙ find_leaf fuel j (blake3.of_bytes j) (depth + 1) k w
              ∙ ground (arith, key_chunk, k_chunk)
          | inr neither ↦
              find-empty (suc fuel) j (blake3.of_bytes j) depth two
                (at ∙ rw (not_new, neither) refl)
              ∙ ground (arith, key_chunk, k_chunk)
        ]
      ]

  some_injective : {x y : Option Bytes} → ◌≡◌ {A = Option (Option Bytes)} (some x) (some y) → x ≡ y
  some_injective e = cc

  keep_or_set :
      (key j v value' : Bytes) (r : Option Bytes)
      → ◌≡◌ {A = Option (Option Bytes)} (some (if bytes_eq key j then some v else none)) (some r)
      → ◌≡◌ {A = Option (Option Bytes)}
          (some (if bytes_eq key j then some value' else none))
          (some (if bytes_eq key j then some value' else r))
  keep_or_set key j v value' r e = elim (Bool-cases (bytes_eq key j)) [
    | inl same ↦ rw same refl
    | inr other ↦ rw other (rw other at e)
  ]

  -- In a slot that was not written a lookup goes on as before.
  find_elsewhere :
      (fuel depth : ℕ) (j : Bytes) (h : Hash) (ss new : Slots) (r : Option Bytes)
      → slot (extract_5bits h depth) new ≡ slot (extract_5bits h depth) ss
      → find (suc fuel) j h depth (node ss) ≡ some r
      → find (suc (suc fuel)) j h depth (node new) ≡ some r
  find_elsewhere fuel depth j h ss new r same f =
      elim (Option-cases (slot (extract_5bits h depth) ss)) [
        | inl empty ↦
            find-empty (suc fuel) j h depth new (same ∙ empty)
            ∙ sym (find-empty fuel j h depth ss empty)
            ∙ f
        | inr (t, at) ↦
            find-full (suc fuel) j h depth new t (same ∙ at)
            ∙ find_more fuel j h (depth + 1) t r (sym (find-full fuel j h depth ss t at) ∙ f)
      ]

  -- Where the key's path meets no other key with its chunk, an insertion sets the value of the key
  -- and leaves every other key as it was.
  pub find-put_trie :
      (fuel n depth : ℕ) (t t' : Trie) (key j : Bytes) (r : Option Bytes)
      → IsFull n t
      → Parts blake3 fuel key (blake3.of_bytes key) depth t
      → put_trie blake3 fuel key value (blake3.of_bytes key) depth t ≡ some t'
      → find fuel j (blake3.of_bytes j) depth t ≡ some r
      → find (suc fuel) j (blake3.of_bytes j) depth t'
        ≡ some (if bytes_eq key j then some value else r)
  unfolding Parts IsFull
  find-put_trie zero n depth t t' key j r w u p f = absurd u
  find-put_trie (suc fuel) n depth (leaf k v) t' key j r w u p f =
      let was : some (if bytes_eq k j then some v else none) ≡ some r =
        sym (find_leaf fuel j (blake3.of_bytes j) depth k v) ∙ f in
      elim (Bool-cases (bytes_eq k key)) [
        | inl same ↦
            let e = put_same fuel key (blake3.of_bytes key) depth blake3 value k v t' p same in
            rw e (
              find_leaf (suc fuel) j (blake3.of_bytes j) depth key value
              ∙ keep_or_set key j v value r (rw ((bytes_eq_iff k key).0 same) at was))
        | inr other ↦
            let apart : (extract_5bits (blake3.of_bytes k) depth
                  == extract_5bits (blake3.of_bytes key) depth)
                ≡ false =
              ground (arith, u) in
            let e =
              put_apart fuel key (blake3.of_bytes key) depth blake3 value k v t' p other apart in
            rw e (
              find_apart fuel depth k v key j other apart
              ∙ ap (λ o. some (if bytes_eq key j then some value else o)) (some_injective was))
      ]
  find-put_trie (suc fuel) zero depth (node ss) t' key j r w u p f = absurd w
  find-put_trie (suc fuel) (suc n) depth (node ss) t' key j r w u p f =
      let h = blake3.of_bytes key in
      let g = blake3.of_bytes j in
      let b = extract_5bits h depth in
      let c = extract_5bits g depth in
      let room : b < slot_count ss = rw w.0 (extract_5bits-lt h depth) in
      let another = λ (x : (b == c) ≡ false).
        let y : bytes_eq key j ≡ false = ground (arith, x, chunk_eq depth key j) in y in
      elim (Option-cases (slot b ss)) [
        | inl empty ↦
            let e = put_empty fuel key h depth blake3 value ss t' p empty in
            let new = set_slot b (leaf key value) ss in
            let at = slot-set_slot b c (leaf key value) ss room in
            elim (Bool-cases (b == c)) [
              | inl here ↦
                  let none_there : slot c ss ≡ none = rw ((==_iff b c).0 here) at empty in
                  let gone : none ≡ r =
                    some_injective (sym (find-empty fuel j g depth ss none_there) ∙ f) in
                  rw (e, ← gone)
                    (find-full (suc fuel) j g depth new (leaf key value) (at ∙ rw here refl)
                      ∙ find_leaf fuel j g (depth + 1) key value)
              | inr there ↦
                  rw (e, another there)
                    (find_elsewhere fuel depth j g ss new r (at ∙ rw there refl) f)
            ]
        | inr (t, full) ↦
            let (u', sub, e) = put_full fuel key h depth blake3 value ss t' p t full in
            let new = set_slot b u' ss in
            let at = slot-set_slot b c u' ss room in
            elim (Bool-cases (b == c)) [
              | inl here ↦
                  let old : slot c ss ≡ some t = rw ((==_iff b c).0 here) at full in
                  let found = sym (find-full fuel j g depth ss t old) ∙ f in
                  rw e (
                    find-full (suc fuel) j g depth new u' (at ∙ rw here refl)
                    ∙ find-put_trie fuel n (depth + 1) t u' key j r (w.1 b t full) (u t full) sub
                        found)
              | inr there ↦
                  rw (e, another there)
                    (find_elsewhere fuel depth j g ss new r (at ∙ rw there refl) f)
            ]
      ]
