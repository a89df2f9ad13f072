-- ===== src/Hamt/Trie/TwoLeaves.antt =====
-- The level that holds two leaves whose chunks differ.
use epochs.Common.{
  ℕ, zero, suc, ◌<◌, ◌≡◌, ◌^◌, refl, sym, ap, ◌∙◌, subst, [], ◌∷◌, Option, none, some, bit_or,
  arith, ltb, ◌==◌, if◌then◌else◌, Bool-cases, inl, inr, false,
}
use epochs.Codec.{Bytes}
use epochs.Common.Bits.{zero-or}
use epochs.Hamt.Trie.Bitmap.{bitmap_of-set_empty, bitmap_of-empty_slots}
use epochs.Hamt.Trie.Children.{
  slot-set_slot, slot-empty_slots, slot_count-set_slot, slot_count-empty_slots, hashes-set_empty,
}
use epochs.Hamt.Trie.{
  Trie, Slots, leaf, slot, set_slot, rank, slot_count, empty_slots, bitmap_of, hash_of, hashes,
  two_leaves,
}
use epochs.Hash.{Blake3}

rank-empty_slots : (b n : ℕ) → rank b (empty_slots n) ≡ 0
unfolding rank empty_slots
rank-empty_slots b zero = refl
rank-empty_slots zero (suc n) = refl
rank-empty_slots (suc b) (suc n) = rank-empty_slots b n

-- With slot `c` filled alone, the slots behind it have rank 1.
rank-set_slot :
    (n c b : ℕ) (t : Trie)
    → c < n
    → rank b (set_slot c t (empty_slots n)) ≡ (if ltb c b then 1 else 0)
unfolding rank empty_slots set_slot
rank-set_slot zero c b t h = absurd (omega arith)
rank-set_slot (suc n) zero zero t h = refl
rank-set_slot (suc n) zero (suc b) t h = rw (rank-empty_slots b n) (ground arith)
rank-set_slot (suc n) (suc c) zero t h = ground arith
rank-set_slot (suc n) (suc c) (suc b) t h = ground (arith, rank-set_slot n c b t)

hashes-empty_slots : (blake3 : Blake3) (n : ℕ) → hashes blake3 (empty_slots n) ≡ []
unfolding hashes empty_slots
hashes-empty_slots blake3 zero = refl
hashes-empty_slots blake3 (suc n) = hashes-empty_slots blake3 n

not_none : {t : Trie} → ◌≡◌ {A = Option Trie} none (some t) → ⊥
not_none e = cc

module _ (c c' : ℕ) (k w key value : Bytes) (p : c < 32) (p' : c' < 32) where
  one : Slots
  one = set_slot c (leaf k w) (empty_slots 32)

  one_count : slot_count one ≡ 32
  unfolding one
  one_count = slot_count-set_slot c (leaf k w) (empty_slots 32) ∙ slot_count-empty_slots 32

  slot-one : (b : ℕ) → slot b one ≡ (if c == b then some (leaf k w) else none)
  unfolding one
  slot-one b =
      let room : c < slot_count (empty_slots 32) = rw (slot_count-empty_slots 32) p in
      rw (slot-set_slot c b (leaf k w) (empty_slots 32) room, slot-empty_slots 32 b) refl

  pub slot_count-two_leaves : slot_count (two_leaves c k w c' key value) ≡ 32
  unfolding two_leaves one
  slot_count-two_leaves = slot_count-set_slot c' (leaf key value) one ∙ one_count

  pub slot-two_leaves :
      (b : ℕ)
      → slot b (two_leaves c k w c' key value)
        ≡ (if c' == b then some (leaf key value) else if c == b then some (leaf k w) else none)
  unfolding two_leaves one
  slot-two_leaves b =
      let room : c' < slot_count one = rw one_count p' in
      slot-set_slot c' b (leaf key value) one room
      ∙ ap (λ o. if c' == b then some (leaf key value) else o) (slot-one b)

  -- What holds of both leaves holds of every child.
  pub two_leaves_rule :
      (P : Trie → Type 0) (b : ℕ) (t : Trie)
      → P (leaf k w)
      → P (leaf key value)
      → slot b (two_leaves c k w c' key value) ≡ some t
      → P t
  two_leaves_rule P b t old new at =
      let which = sym (slot-two_leaves b) ∙ at in
      elim (Bool-cases (c' == b)) [
        | inl here ↦
            let e : some (leaf key value) ≡ some t = rw here at which in
            let same : leaf key value ≡ t = cc in subst P same new
        | inr there ↦ elim (Bool-cases (c == b)) [
          | inl here ↦
              let e : some (leaf k w) ≡ some t = rw (there, here) at which in
              let same : leaf k w ≡ t = cc in subst P same old
          | inr none_here ↦
              let e : ◌≡◌ {A = Option Trie} none (some t) = rw (there, none_here) at which in
              absurd (not_none e)
        ]
      ]

  module _ (other : (c == c') ≡ false) where
    free : slot c' one ≡ none
    free = slot-one c' ∙ rw other refl

    pub bitmap_of-two_leaves : bit_or (2 ^ c) (2 ^ c') ≡ bitmap_of (two_leaves c k w c' key value)
    unfolding two_leaves one
    bitmap_of-two_leaves =
        let room : c' < slot_count one = rw one_count p' in
        let room₀ : c < slot_count (empty_slots 32) = rw (slot_count-empty_slots 32) p in
        let first : 2 ^ c ≡ bitmap_of one =
          sym (zero-or (2 ^ c))
          ∙ rw (← bitmap_of-empty_slots 32)
              (bitmap_of-set_empty c (leaf k w) (empty_slots 32) room₀ (slot-empty_slots 32 c)) in
        rw first (bitmap_of-set_empty c' (leaf key value) one room free)

    pub hashes-two_leaves :
        (blake3 : Blake3)
        → hashes blake3 (two_leaves c k w c' key value) ≡ (
            if ltb c c'
            then hash_of blake3 (leaf k w) ∷ hash_of blake3 (leaf key value) ∷ []
            else hash_of blake3 (leaf key value) ∷ hash_of blake3 (leaf k w) ∷ [])
    unfolding two_leaves one
    hashes-two_leaves blake3 =
        let room : c' < slot_count one = rw one_count p' in
        let room₀ : c < slot_count (empty_slots 32) = rw (slot_count-empty_slots 32) p in
        let first : hashes blake3 one ≡ hash_of blake3 (leaf k w) ∷ [] =
          (hashes-set_empty blake3 c (empty_slots 32) (leaf k w) room₀ (slot-empty_slots 32 c)).1
          ∙ rw (rank-empty_slots c 32, hashes-empty_slots blake3 32) refl in
        (hashes-set_empty blake3 c' one (leaf key value) room free).1
        ∙ rw (first, rank-set_slot 32 c c' (leaf k w) p)
            (elim (Bool-cases (ltb c c')) [ inl below ↦ rw below refl | inr above ↦ rw above refl ])
