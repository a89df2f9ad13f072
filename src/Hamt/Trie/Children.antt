-- ===== src/Hamt/Trie/Children.antt =====
-- Slots, their ranks, and the list of the children's hashes.
use epochs.Common.{
  ℕ, zero, suc, ◌≤◌, ◌<◌, ◌≡◌, refl, ap, ◌∷◌, ◌++◌, none, some, get_elem?, set, take, drop, length,
  arith, ◌==◌, if◌then◌else◌,
}
use epochs.Hamt.Trie.{
  Trie, Slots, end, skip, fill, slot, set_slot, rank, slot_count, empty_slots, hashes, hash_of,
}
use epochs.Hash.{Blake3}

-- A slot after a write: the new trie there, and the old slots elsewhere.
pub slot-set_slot :
    (b c : ℕ) (t : Trie) (ss : Slots)
    → b < slot_count ss
    → slot c (set_slot b t ss) ≡ (if b == c then some t else slot c ss)
unfolding slot set_slot slot_count
slot-set_slot b c t end h = absurd (omega arith)
slot-set_slot zero zero t (skip ss) h = refl
slot-set_slot zero (suc c) t (skip ss) h = ground arith
slot-set_slot (suc b) zero t (skip ss) h = ground arith
slot-set_slot (suc b) (suc c) t (skip ss) h = ground (arith, slot-set_slot b c t ss)
slot-set_slot zero zero t (fill u ss) h = refl
slot-set_slot zero (suc c) t (fill u ss) h = ground arith
slot-set_slot (suc b) zero t (fill u ss) h = ground arith
slot-set_slot (suc b) (suc c) t (fill u ss) h = ground (arith, slot-set_slot b c t ss)

pub slot-empty_slots : (n b : ℕ) → slot b (empty_slots n) ≡ none
unfolding slot empty_slots
slot-empty_slots zero b = refl
slot-empty_slots (suc n) zero = refl
slot-empty_slots (suc n) (suc b) = slot-empty_slots n b

pub slot_count-set_slot :
    (b : ℕ) (t : Trie) (ss : Slots) → slot_count (set_slot b t ss) ≡ slot_count ss
unfolding set_slot slot_count
slot_count-set_slot b t end = refl
slot_count-set_slot zero t (skip ss) = refl
slot_count-set_slot zero t (fill u ss) = refl
slot_count-set_slot (suc b) t (skip ss) = ap suc (slot_count-set_slot b t ss)
slot_count-set_slot (suc b) t (fill u ss) = ap suc (slot_count-set_slot b t ss)

pub slot_count-empty_slots : (n : ℕ) → slot_count (empty_slots n) ≡ n
unfolding slot_count empty_slots
slot_count-empty_slots zero = refl
slot_count-empty_slots (suc n) = ap suc (slot_count-empty_slots n)

module _ (blake3 : Blake3) where
  -- The hash of a filled slot stands at its rank.
  pub hashes-slot :
      (b : ℕ) (ss : Slots) (t : Trie)
      → slot b ss ≡ some t
      → get_elem? (hashes blake3 ss) (rank b ss) ≡ some (hash_of blake3 t)
  unfolding slot rank hashes
  hashes-slot b end t e = cc
  hashes-slot zero (skip ss) t e = cc
  hashes-slot zero (fill u ss) t e = ground arith
  hashes-slot (suc b) (skip ss) t e = hashes-slot b ss t e
  hashes-slot (suc b) (fill u ss) t e = hashes-slot b ss t e

  pub hashes-set_filled :
      (b : ℕ) (ss : Slots) (t u : Trie)
      → slot b ss ≡ some u
      → hashes blake3 (set_slot b t ss) ≡ set (hashes blake3 ss) (rank b ss) (hash_of blake3 t)
  unfolding slot rank hashes set_slot
  hashes-set_filled b end t u e = cc
  hashes-set_filled zero (skip ss) t u e = cc
  hashes-set_filled zero (fill w ss) t u e = refl
  hashes-set_filled (suc b) (skip ss) t u e = hashes-set_filled b ss t u e
  hashes-set_filled (suc b) (fill w ss) t u e =
      ap (λ l. hash_of blake3 w ∷ l) (hashes-set_filled b ss t u e)

  -- A slot that is filled for the first time puts its hash in at its rank.
  pub hashes-set_empty :
      (b : ℕ) (ss : Slots) (t : Trie)
      → b < slot_count ss
      → slot b ss ≡ none
      → (rank b ss ≤ length (hashes blake3 ss))
        × (hashes blake3 (set_slot b t ss)
            ≡ take (rank b ss) (hashes blake3 ss)
              ++ hash_of blake3 t ∷ drop (rank b ss) (hashes blake3 ss))
  unfolding slot rank hashes set_slot slot_count
  hashes-set_empty b end t h e = absurd (omega arith)
  hashes-set_empty zero (skip ss) t h e = (omega arith, refl)
  hashes-set_empty zero (fill w ss) t h e = cc
  hashes-set_empty (suc b) (skip ss) t h e = hashes-set_empty b ss t (omega arith) e
  hashes-set_empty (suc b) (fill w ss) t h e =
      let (p, q) = hashes-set_empty b ss t (omega arith) e in
      (omega arith, ap (λ l. hash_of blake3 w ∷ l) q)

  pub length-hashes : (ss : Slots) → length (hashes blake3 ss) ≤ slot_count ss
  unfolding hashes slot_count
  length-hashes end = omega arith
  length-hashes (skip ss) = omega (arith, length-hashes ss)
  length-hashes (fill t ss) = omega (arith, length-hashes ss)
