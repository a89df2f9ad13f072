-- ===== src/Crc/Bitwise.antt =====
-- The table against the division of polynomials bit by bit, and what the checksum detects.
use epochs.Common.{
  ℕ, zero, suc, ◌+◌, ◌*◌, ◌/◌, ◌%◌, ◌^◌, ◌<◌, ◌≡◌, ◌≢◌, refl, sym, ap, ◌∙◌, bit_xor, [], ◌∷◌, ◌++◌,
  get_or, All, All-append, arith,
}
use epochs.Common.Bits.{
  and_mask, xor_half, xor_parity, xor_shift, xor_fields, xor_assoc, xor_comm, xor_cancel, xor-zero,
  xor-lt,
}
use native.Mathlib.Nat.{pow-suc}
use epochs.Codec.{Bytes}
use epochs.Hash.{IsByte}
use epochs.Crc.{crc32, crc_byte, crc_loop, steps, table_step, table, table_from, polynomial}

-- The checksum without a table: eight rounds of division for each byte.
unfoldable pub crc_bits : ℕ → Bytes → ℕ
crc_bits crc [] = crc
crc_bits crc (byte ∷ bytes) = crc_bits (steps 8 (bit_xor crc byte)) bytes

table_step_xor : (x h : ℕ) → table_step (bit_xor x (h * 2)) ≡ bit_xor (table_step x) h
unfolding table_step
table_step_xor x h = ground (
  arith,
  and_mask 1 x,
  and_mask 1 (bit_xor x (h * 2)),
  xor_parity x (h * 2),
  xor_half x (h * 2),
  xor_assoc polynomial (x / 2) h,
)

-- What stands above the lowest `k` bits is only shifted by `k` rounds.
steps_xor : (k x h : ℕ) → steps k (bit_xor x (h * 2 ^ k)) ≡ bit_xor (steps k x) h
unfolding steps
steps_xor zero x h = ap (bit_xor x) (omega arith)
steps_xor (suc k) x h = rw (← twice, table_step_xor x (h * 2 ^ k)) (steps_xor k (table_step x) h)
  where
    twice : h * 2 ^ k * 2 ≡ h * 2 ^ suc k
    twice = omega (arith, ap (λ (t : ℕ). h * t) (pow-suc 2 k))

get_or-table_from : (n s i : ℕ) → i < n → get_or (table_from n s) i 0 ≡ steps 8 (s + i)
unfolding table_from
get_or-table_from zero s i h = absurd (omega arith)
get_or-table_from (suc n) s zero h = ap (steps 8) (omega arith)
get_or-table_from (suc n) s (suc i) h =
    get_or-table_from n (suc s) i (omega arith) ∙ ap (steps 8) (omega arith)

get_or-table : (i : ℕ) → i < 256 → get_or table i 0 ≡ steps 8 i
unfolding table
get_or-table i h = get_or-table_from 256 0 i h ∙ ap (steps 8) (omega arith)

crc_byte-steps : (crc byte : ℕ) → byte < 256 → crc_byte crc byte ≡ steps 8 (bit_xor crc byte)
unfolding crc_byte
crc_byte-steps crc byte h =
    let x = bit_xor crc byte in
    let split : bit_xor (x % 2 ^ 8) (x / 2 ^ 8 * 2 ^ 8) ≡ x =
      rw (xor_fields 8 (x / 2 ^ 8) (x % 2 ^ 8) (omega arith)) (omega arith) in
    let high : x / 2 ^ 8 ≡ crc / 256 =
      rw (xor_shift 8 crc byte) (ap (bit_xor (crc / 256)) (omega arith) ∙ xor-zero (crc / 256)) in
    rw (and_mask 8 x, get_or-table (x % 2 ^ 8) (omega arith))
      (ap (λ (t : ℕ). bit_xor (steps 8 (x % 2 ^ 8)) t) (sym high)
        ∙ sym (steps_xor 8 (x % 2 ^ 8) (x / 2 ^ 8))
        ∙ ap (steps 8) split)

crc_loop-crc_bits :
    (crc : ℕ) (bytes : Bytes) → All IsByte bytes → crc_loop crc bytes ≡ crc_bits crc bytes
unfolding crc_loop crc_bits
crc_loop-crc_bits crc [] a = refl
crc_loop-crc_bits crc (b ∷ bytes) a =
    rw (crc_byte-steps crc b a.0) (crc_loop-crc_bits (steps 8 (bit_xor crc b)) bytes a.1)

-- On bytes, the table computes the division bit by bit.
pub crc32_bitwise :
    (bytes : Bytes)
    → All IsByte bytes
    → crc32 bytes ≡ bit_xor (crc_bits 0xffff_ffff bytes) 0xffff_ffff
unfolding crc32
crc32_bitwise bytes a =
    ap (λ (t : ℕ). bit_xor t 0xffff_ffff) (crc_loop-crc_bits 0xffff_ffff bytes a)

table_step-lt : (c : ℕ) → c < 2 ^ 32 → table_step c < 2 ^ 32
unfolding table_step
table_step-lt c h = ground (arith, xor-lt 32 polynomial (c / 2))

top_bit : (y : ℕ) → y < 2 ^ 31 → bit_xor polynomial y / 2 ^ 31 ≡ 1
top_bit y h = rw (xor_shift 31 polynomial y) (let z : y / 2 ^ 31 ≡ 0 = omega arith in rw z)

-- A round can be undone: the polynomial sets the bit that a shift clears.
table_step-injective : (c c' : ℕ) → c < 2 ^ 32 → c' < 2 ^ 32 → table_step c ≡ table_step c' → c ≡ c'
unfolding table_step
table_step-injective c c' h h' e = ground (
  arith,
  and_mask 1 c,
  and_mask 1 c',
  top_bit (c / 2),
  top_bit (c' / 2),
  xor_cancel (c / 2) (c' / 2) polynomial,
  xor_comm (c / 2) polynomial,
  xor_comm (c' / 2) polynomial,
)

steps-lt : (k c : ℕ) → c < 2 ^ 32 → steps k c < 2 ^ 32
unfolding steps
steps-lt zero c h = h
steps-lt (suc k) c h = steps-lt k (table_step c) (table_step-lt c h)

steps-injective : (k c c' : ℕ) → c < 2 ^ 32 → c' < 2 ^ 32 → steps k c ≡ steps k c' → c ≡ c'
unfolding steps
steps-injective zero c c' h h' e = e
steps-injective (suc k) c c' h h' e =
    table_step-injective c c' h h'
      (steps-injective k (table_step c) (table_step c') (table_step-lt c h) (table_step-lt c' h') e)

crc_bits-lt :
    (crc : ℕ) (bytes : Bytes) → crc < 2 ^ 32 → All IsByte bytes → crc_bits crc bytes < 2 ^ 32
unfolding crc_bits
crc_bits-lt crc [] h a = h
crc_bits-lt crc (b ∷ bytes) h a =
    crc_bits-lt (steps 8 (bit_xor crc b)) bytes
      (steps-lt 8 (bit_xor crc b) (xor-lt 32 crc b h (omega arith))) a.1

crc_bits-injective :
    (crc crc' : ℕ) (bytes : Bytes)
    → crc < 2 ^ 32
    → crc' < 2 ^ 32
    → All IsByte bytes
    → crc_bits crc bytes ≡ crc_bits crc' bytes
    → crc ≡ crc'
unfolding crc_bits
crc_bits-injective crc crc' [] h h' a e = e
crc_bits-injective crc crc' (b ∷ bytes) h h' a e =
    let l = xor-lt 32 crc b h (omega arith) in
    let l' = xor-lt 32 crc' b h' (omega arith) in
    xor_cancel crc crc' b (
      steps-injective 8 _ _ l l' (
        crc_bits-injective (steps 8 (bit_xor crc b)) (steps 8 (bit_xor crc' b)) bytes
          (steps-lt 8 _ l) (steps-lt 8 _ l') a.1 e))

crc_bits-append :
    (crc : ℕ) (xs ys : Bytes) → crc_bits crc (xs ++ ys) ≡ crc_bits (crc_bits crc xs) ys
unfolding crc_bits
crc_bits-append crc [] ys = refl
crc_bits-append crc (x ∷ xs) ys = crc_bits-append (steps 8 (bit_xor crc x)) xs ys

pub crc32-lt : (bytes : Bytes) → All IsByte bytes → crc32 bytes < 2 ^ 32
crc32-lt bytes a =
    rw (crc32_bitwise bytes a)
      (xor-lt 32 _ 0xffff_ffff (crc_bits-lt 0xffff_ffff bytes (omega arith) a) (omega arith))

-- The checksum is a 32-bit word, and changing one byte of the data to another changes it.
pub crc32_detects_byte :
    (front back : Bytes) (b b' : ℕ)
    → All IsByte front
    → All IsByte back
    → b < 256
    → b' < 256
    → b ≢ b'
    → (crc32 (front ++ b ∷ back) < 2 ^ 32)
      × (crc32 (front ++ b ∷ back) ≢ crc32 (front ++ b' ∷ back))
unfolding crc_bits
crc32_detects_byte front back b b' f k h h' n =
    (crc32-lt (front ++ b ∷ back) (whole b h), λ e. n (same e))
  where
    whole : (x : ℕ) → x < 256 → All IsByte (front ++ x ∷ back)
    whole x l = All-append IsByte front (x ∷ back) f (l, k)

    state : ℕ
    state = crc_bits 0xffff_ffff front

    start : state < 2 ^ 32
    start = crc_bits-lt 0xffff_ffff front (omega arith) f

    mixed : (x : ℕ) → x < 256 → bit_xor state x < 2 ^ 32
    mixed x l = xor-lt 32 state x start (omega arith)

    behind :
        (x : ℕ)
        → x < 256
        → crc32 (front ++ x ∷ back)
          ≡ bit_xor (crc_bits (steps 8 (bit_xor state x)) back) 0xffff_ffff
    behind x l =
        crc32_bitwise (front ++ x ∷ back) (whole x l)
        ∙ ap (λ (t : ℕ). bit_xor t 0xffff_ffff) (crc_bits-append 0xffff_ffff front (x ∷ back))

    same : crc32 (front ++ b ∷ back) ≡ crc32 (front ++ b' ∷ back) → b ≡ b'
    same e =
        let inner = xor_cancel _ _ 0xffff_ffff (sym (behind b h) ∙ e ∙ behind b' h') in
        let states =
          crc_bits-injective _ _ back (steps-lt 8 _ (mixed b h)) (steps-lt 8 _ (mixed b' h')) k
            inner in
        let mix = steps-injective 8 _ _ (mixed b h) (mixed b' h') states in
        xor_cancel b b' state (xor_comm b state ∙ mix ∙ xor_comm state b')
