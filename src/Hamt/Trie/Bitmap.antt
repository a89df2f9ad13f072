-- ===== src/Hamt/Trie/Bitmap.antt =====
-- The bits of a bitmap and its slots.
use epochs.Common.{
  ℕ, zero, suc, ◌+◌, ◌*◌, ◌/◌, ◌%◌, ◌^◌, ◌≤◌, ◌<◌, ◌≡◌, refl, ◌∙◌, ap, bit_or, true, false, Option,
  none, some, arith,
}
use epochs.Common.Bits.{and_mask, and_bit, div_pow_suc, bit_or_step, or-zero}
use native.Mathlib.Nat.{
  pow-suc, one-le-pow, mul_assoc, mod-lt, mod-add-div', mod-eq_of_lt, add-mul-mod_self_right,
}
use epochs.Hamt.Tree.{ones_below, count_ones, child_index, has_branch}
use epochs.Hamt.Trie.{
  Trie, Slots, end, skip, fill, slot, set_slot, rank, slot_count, empty_slots, bitmap_of,
}

unfoldable filled : Option Trie → ℕ
filled none = 0
filled (some t) = 1

bit_of_bitmap : (b : ℕ) (ss : Slots) → bitmap_of ss / 2 ^ b % 2 ≡ filled (slot b ss)
unfolding bitmap_of slot filled
bit_of_bitmap zero end = omega arith
bit_of_bitmap (suc b) end = rw (div_pow_suc 0 b) (bit_of_bitmap b end)
bit_of_bitmap zero (skip ss) = omega arith
bit_of_bitmap zero (fill t ss) = omega arith
bit_of_bitmap (suc b) (skip ss) =
    let half : 2 * bitmap_of ss / 2 ≡ bitmap_of ss = omega arith in
    rw (div_pow_suc (2 * bitmap_of ss) b, half) (bit_of_bitmap b ss)
bit_of_bitmap (suc b) (fill t ss) =
    let half : (1 + 2 * bitmap_of ss) / 2 ≡ bitmap_of ss = omega arith in
    rw (div_pow_suc (1 + 2 * bitmap_of ss) b, half) (bit_of_bitmap b ss)

-- The test of a branch's bit finds out whether its slot is filled.
pub has_branch-empty : (b : ℕ) (ss : Slots) → slot b ss ≡ none → has_branch (bitmap_of ss) b ≡ false
unfolding has_branch filled
has_branch-empty b ss e =
    let bit = bit_of_bitmap b ss in
    let z = rw e at bit in rw (and_bit b (bitmap_of ss), z) (ground arith)

pub has_branch-filled :
    (b : ℕ) (ss : Slots) (t : Trie) → slot b ss ≡ some t → has_branch (bitmap_of ss) b ≡ true
unfolding has_branch filled
has_branch-filled b ss t e =
    let bit = bit_of_bitmap b ss in
    let o = rw e at bit in rw (and_bit b (bitmap_of ss), o) (ground (arith, one-le-pow b 2))

double_mod : (x b : ℕ) → (x % 2 ^ suc b % 2 ≡ x % 2) × (x % 2 ^ suc b / 2 ≡ x / 2 % 2 ^ b)
double_mod x b =
    let p = 2 ^ b in
    let q = x / 2 / p in
    let r = 2 * (x / 2 % p) + x % 2 in
    let pos : 1 ≤ p = one-le-pow b 2 (omega arith) in
    let small : x / 2 % p < p = mod-lt (x / 2) pos in
    let whole : x ≡ r + q * (p * 2) = omega (arith, mod-add-div' (x / 2) p, mul_assoc q p 2) in
    let rest : x % 2 ^ suc b ≡ r = rw (pow-suc 2 b) (
      ap (λ (y : ℕ). y % (p * 2)) whole
      ∙ add-mul-mod_self_right r q (p * 2)
      ∙ mod-eq_of_lt (omega arith)) in
    rw rest (omega arith, omega arith)

ones_below-zero : (n : ℕ) → ones_below n 0 ≡ 0
unfolding ones_below
ones_below-zero zero = refl
ones_below-zero (suc n) = omega (arith, ones_below-zero n)

zero_mod : (b : ℕ) → 0 % 2 ^ b ≡ 0
zero_mod b = mod-eq_of_lt (one-le-pow b 2 (omega arith))

ones_of_bitmap :
    (n b : ℕ) (ss : Slots) → slot_count ss ≤ n → ones_below n (bitmap_of ss % 2 ^ b) ≡ rank b ss
unfolding bitmap_of slot_count ones_below rank
ones_of_bitmap zero b end h = refl
ones_of_bitmap zero b (skip ss) h = absurd (omega arith)
ones_of_bitmap zero b (fill t ss) h = absurd (omega arith)
ones_of_bitmap (suc n) b end h = rw (zero_mod b) (omega (arith, ones_below-zero n))
ones_of_bitmap (suc n) zero (skip ss) h = ground (arith, ones_below-zero n)
ones_of_bitmap (suc n) zero (fill t ss) h = ground (arith, ones_below-zero n)
ones_of_bitmap (suc n) (suc b) (skip ss) h =
    let (low, high) = double_mod (2 * bitmap_of ss) b in
    let half : 2 * bitmap_of ss / 2 ≡ bitmap_of ss = omega arith in
    rw (low, high, half) (omega (arith, ones_of_bitmap n b ss (omega arith)))
ones_of_bitmap (suc n) (suc b) (fill t ss) h =
    let (low, high) = double_mod (1 + 2 * bitmap_of ss) b in
    let half : (1 + 2 * bitmap_of ss) / 2 ≡ bitmap_of ss = omega arith in
    rw (low, high, half) (omega (arith, ones_of_bitmap n b ss (omega arith)))

pub child_index-rank :
    (b : ℕ) (ss : Slots) → slot_count ss ≡ 32 → child_index (bitmap_of ss) b ≡ rank b ss
unfolding child_index count_ones
child_index-rank b ss h = rw (and_mask b (bitmap_of ss)) (ones_of_bitmap 32 b ss (omega arith))

pub bitmap_of-set_empty :
    (b : ℕ) (t : Trie) (ss : Slots)
    → b < slot_count ss
    → slot b ss ≡ none
    → bit_or (bitmap_of ss) (2 ^ b) ≡ bitmap_of (set_slot b t ss)
unfolding bitmap_of set_slot slot slot_count
bitmap_of-set_empty b t end h e = absurd (omega arith)
bitmap_of-set_empty zero t (skip ss) h e =
    ground (arith, bit_or_step (2 * bitmap_of ss) 1, or-zero (bitmap_of ss))
bitmap_of-set_empty zero t (fill u ss) h e = cc
bitmap_of-set_empty (suc b) t (skip ss) h e =
    let B = bitmap_of ss in
    let x : 2 * B / 2 ≡ B = omega arith in
    let y : 2 ^ suc b / 2 ≡ 2 ^ b = omega (arith, pow-suc 2 b) in
    rw (bit_or_step (2 * B) (2 ^ suc b), x, y, bitmap_of-set_empty b t ss (omega arith) e)
      (omega (arith, pow-suc 2 b))
bitmap_of-set_empty (suc b) t (fill u ss) h e =
    let B = bitmap_of ss in
    let x : (1 + 2 * B) / 2 ≡ B = omega arith in
    let y : 2 ^ suc b / 2 ≡ 2 ^ b = omega (arith, pow-suc 2 b) in
    rw (bit_or_step (1 + 2 * B) (2 ^ suc b), x, y, bitmap_of-set_empty b t ss (omega arith) e)
      (omega (arith, pow-suc 2 b))

pub bitmap_of-set_filled :
    (b : ℕ) (t u : Trie) (ss : Slots)
    → slot b ss ≡ some u
    → bitmap_of (set_slot b t ss) ≡ bitmap_of ss
unfolding bitmap_of set_slot slot
bitmap_of-set_filled b t u end e = refl
bitmap_of-set_filled zero t u (skip ss) e = cc
bitmap_of-set_filled zero t u (fill w ss) e = refl
bitmap_of-set_filled (suc b) t u (skip ss) e = omega (arith, bitmap_of-set_filled b t u ss e)
bitmap_of-set_filled (suc b) t u (fill w ss) e = omega (arith, bitmap_of-set_filled b t u ss e)

pub bitmap_of-empty_slots : (n : ℕ) → bitmap_of (empty_slots n) ≡ 0
unfolding bitmap_of empty_slots
bitmap_of-empty_slots zero = refl
bitmap_of-empty_slots (suc n) = omega (arith, bitmap_of-empty_slots n)

pub bitmap_of-lt : (ss : Slots) → bitmap_of ss < 2 ^ slot_count ss
unfolding bitmap_of slot_count
bitmap_of-lt end = omega arith
bitmap_of-lt (skip ss) = omega (arith, bitmap_of-lt ss, pow-suc 2 (slot_count ss))
bitmap_of-lt (fill t ss) = omega (arith, bitmap_of-lt ss, pow-suc 2 (slot_count ss))
