-- ===== src/Common/Bits.antt =====
-- The bitwise operations of words by their lowest digit, and the laws that follow.
use Prim.Native.Nat.{
  ℕ, zero, suc, ◌+◌, ◌-◌, ◌*◌, ◌/◌, ◌%◌, ◌^◌, ◌≤◌, ◌<◌, min, max, bit_and, bit_or, bit_xor, digits,
  differ, bit_and-bitwise, bit_or-bitwise, bit_xor-bitwise,
}
use mathlib.Core.Path.{◌≡◌, refl, sym, ap}
use native.Mathlib.Omega.{arith}
use native.Mathlib.Nat.{pow-suc, one-le-pow, mul_comm, div-div-eq-div-mul}

-- The fuel of the digit recursion does not matter once it bounds the first number.
module _ (z : ℕ → ℕ) (op : ℕ → ℕ → ℕ) where
  digits_more :
      (x y fuel fuel' : ℕ) → x ≤ fuel → x ≤ fuel' → digits z op fuel x y ≡ digits z op fuel' x y
  digits_more (suc x) y zero fuel' h h' = absurd (omega arith)
  digits_more (suc x) y (suc fuel) zero h h' = absurd (omega arith)
  digits_more (suc x) y (suc fuel) (suc fuel') h h' =
      let half = suc x / 2 in rw (digits_more half (y / 2) fuel fuel' (omega arith) (omega arith))
  digits_more zero y zero zero h h' = refl
  digits_more zero y (suc fuel) zero h h' = refl
  digits_more zero y zero (suc fuel') h h' = refl
  digits_more zero y (suc fuel) (suc fuel') h h' = refl

  digits_lowest :
      (x y : ℕ)
      → digits z op (suc x) (suc x) y
        ≡ digits z op (suc x / 2) (suc x / 2) (y / 2) * 2 + op (suc x % 2) (y % 2)
  digits_lowest x y =
      let half = suc x / 2 in rw (digits_more half (y / 2) x half (omega arith) (omega arith))

pub bit_and_step : (x y : ℕ) → bit_and x y ≡ min (x % 2) (y % 2) + 2 * bit_and (x / 2) (y / 2)
bit_and_step zero y = simp (bit_and-bitwise) (omega arith)
bit_and_step (suc x) y =
    let rest = digits_lowest (λ b. 0) min x y in simp bit_and-bitwise (omega (arith, rest))

pub bit_or_step : (x y : ℕ) → bit_or x y ≡ max (x % 2) (y % 2) + 2 * bit_or (x / 2) (y / 2)
bit_or_step zero y = simp (bit_or-bitwise) (omega arith)
bit_or_step (suc x) y =
    let rest = digits_lowest (λ b. b) max x y in simp bit_or-bitwise (omega (arith, rest))

differ_bits : (x y : ℕ) → x < 2 → y < 2 → differ x y ≡ (x + y) % 2
differ_bits zero zero p q = refl
differ_bits zero (suc zero) p q = refl
differ_bits zero (suc (suc y)) p q = absurd (omega arith)
differ_bits (suc zero) zero p q = refl
differ_bits (suc zero) (suc zero) p q = refl
differ_bits (suc zero) (suc (suc y)) p q = absurd (omega arith)
differ_bits (suc (suc x)) y p q = absurd (omega arith)

pub bit_xor_step : (a b : ℕ) → bit_xor a b ≡ bit_xor (a / 2) (b / 2) * 2 + (a % 2 + b % 2) % 2
bit_xor_step zero b = simp bit_xor-bitwise (omega arith)
bit_xor_step (suc a) b =
    rw (← differ_bits (suc a % 2) (b % 2) (omega arith) (omega arith))
      (simp bit_xor-bitwise (digits_lowest (λ y. y) differ a b))

pub xor_half : (a b : ℕ) → bit_xor a b / 2 ≡ bit_xor (a / 2) (b / 2)
xor_half a b = omega (arith, bit_xor_step a b)

pub xor_parity : (a b : ℕ) → bit_xor a b % 2 ≡ (a % 2 + b % 2) % 2
xor_parity a b = omega (arith, bit_xor_step a b)

pub and_half : (a b : ℕ) → bit_and a b / 2 ≡ bit_and (a / 2) (b / 2)
and_half a b = omega (arith, bit_and_step a b)

pub and_parity : (a b : ℕ) → bit_and a b % 2 ≡ min (a % 2) (b % 2)
and_parity a b = omega (arith, bit_and_step a b)

pub or_half : (a b : ℕ) → bit_or a b / 2 ≡ bit_or (a / 2) (b / 2)
or_half a b = omega (arith, bit_or_step a b)

pub or_parity : (a b : ℕ) → bit_or a b % 2 ≡ max (a % 2) (b % 2)
or_parity a b = omega (arith, bit_or_step a b)

pub eq_of_halves : (x y : ℕ) → x / 2 ≡ y / 2 → x % 2 ≡ y % 2 → x ≡ y
eq_of_halves x y p q = omega arith

xor_assoc_upto : (n a b c : ℕ) → a + b + c ≤ n → bit_xor (bit_xor a b) c ≡ bit_xor a (bit_xor b c)
xor_assoc_upto zero zero zero zero p = refl
xor_assoc_upto zero (suc a) b c p = absurd (omega arith)
xor_assoc_upto zero zero (suc b) c p = absurd (omega arith)
xor_assoc_upto zero zero zero (suc c) p = absurd (omega arith)
xor_assoc_upto (suc n) a b c p =
    eq_of_halves _ _ (simp xor_half (xor_assoc_upto n (a / 2) (b / 2) (c / 2) (omega arith))) (
      omega (
        arith,
        xor_parity (bit_xor a b) c,
        xor_parity a b,
        xor_parity a (bit_xor b c),
        xor_parity b c,
      ))

pub xor_assoc : (a b c : ℕ) → bit_xor (bit_xor a b) c ≡ bit_xor a (bit_xor b c)
xor_assoc a b c = xor_assoc_upto (a + b + c) a b c (omega arith)

xor_comm_upto : (n a b : ℕ) → a + b ≤ n → bit_xor a b ≡ bit_xor b a
xor_comm_upto zero zero zero p = refl
xor_comm_upto zero (suc a) b p = absurd (omega arith)
xor_comm_upto zero zero (suc b) p = absurd (omega arith)
xor_comm_upto (suc n) a b p =
    omega (arith, bit_xor_step a b, bit_xor_step b a, xor_comm_upto n (a / 2) (b / 2) (omega arith))

pub xor_comm : (a b : ℕ) → bit_xor a b ≡ bit_xor b a
xor_comm a b = xor_comm_upto (a + b) a b (omega arith)

pub zero-xor : (b : ℕ) → bit_xor 0 b ≡ b
zero-xor b = bit_xor-bitwise 0 b

pub xor-zero : (a : ℕ) → bit_xor a 0 ≡ a
xor-zero a = rw (xor_comm a 0) (zero-xor a)

xor_self_upto : (n a : ℕ) → a ≤ n → bit_xor a a ≡ 0
xor_self_upto zero zero p = refl
xor_self_upto zero (suc a) p = absurd (omega arith)
xor_self_upto (suc n) a p = omega (arith, bit_xor_step a a, xor_self_upto n (a / 2) (omega arith))

pub xor_self : (a : ℕ) → bit_xor a a ≡ 0
xor_self a = xor_self_upto a a (omega arith)

-- Exclusive or with a known word can be undone.
pub xor_cancel : (a b c : ℕ) → bit_xor a c ≡ bit_xor b c → a ≡ b
xor_cancel a b c e =
    let undo = λ (x : ℕ).
      let r : bit_xor (bit_xor x c) c ≡ x = rw (xor_assoc x c c, xor_self c) (xor-zero x) in r in
    cc (undo a, undo b)

pub xor-lt : (w a b : ℕ) → a < 2 ^ w → b < 2 ^ w → bit_xor a b < 2 ^ w
xor-lt zero a b p q =
    let a0 : a ≡ 0 = omega arith in let b0 : b ≡ 0 = omega arith in rw (a0, b0) (omega arith)
xor-lt (suc w) a b p q = omega (
  arith,
  pow-suc 2 w,
  bit_xor_step a b,
  xor-lt w (a / 2) (b / 2) (omega (arith, pow-suc 2 w)) (omega (arith, pow-suc 2 w)),
)

pub and-zero : (a : ℕ) → bit_and a 0 ≡ 0
and-zero a = upto a a (omega arith)
  where
    upto : (n a : ℕ) → a ≤ n → bit_and a 0 ≡ 0
    upto zero zero p = refl
    upto zero (suc a) p = absurd (omega arith)
    upto (suc n) a p = omega (arith, bit_and_step a 0, upto n (a / 2) (omega arith))

double_pow : (q k : ℕ) → q * 2 ^ suc k ≡ 2 * (q * 2 ^ k)
double_pow q k = omega (arith, ap (λ (t : ℕ). q * t) (pow-suc 2 k))

and_mask_split : (k q r : ℕ) → r < 2 ^ k → bit_and (q * 2 ^ k + r) (2 ^ k - 1) ≡ r
and_mask_split zero q r h = rw and-zero (omega arith)
and_mask_split (suc k) q r h = ground (
  arith,
  bit_and_step (q * 2 ^ suc k + r) (2 ^ suc k - 1),
  double_pow q k,
  pow-suc 2 k,
  one-le-pow k 2,
  and_mask_split k q (r / 2),
)

-- A mask of `k` low ones is the remainder by `2 ^ k`.
pub and_mask : (k a : ℕ) → bit_and a (2 ^ k - 1) ≡ a % 2 ^ k
and_mask k a = ground (arith, one-le-pow k 2, and_mask_split k (a / 2 ^ k) (a % 2 ^ k))

and_bit_split : (k q r : ℕ) → r < 2 ^ k → bit_and (q * 2 ^ k + r) (2 ^ k) ≡ q % 2 * 2 ^ k
and_bit_split zero q r h =
    omega (arith, bit_and_step (q * 2 ^ 0 + r) 1, and-zero ((q * 2 ^ 0 + r) / 2))
and_bit_split (suc k) q r h = ground (
  arith,
  bit_and_step (q * 2 ^ suc k + r) (2 ^ suc k),
  double_pow q k,
  double_pow (q % 2) k,
  pow-suc 2 k,
  and_bit_split k q (r / 2),
)

-- A mask of one bit.
pub and_bit : (k a : ℕ) → bit_and a (2 ^ k) ≡ a / 2 ^ k % 2 * 2 ^ k
and_bit k a = ground (arith, one-le-pow k 2, and_bit_split k (a / 2 ^ k) (a % 2 ^ k))

pub div_pow_suc : (a k : ℕ) → a / 2 ^ suc k ≡ a / 2 / 2 ^ k
div_pow_suc a k = rw (pow-suc 2 k, mul_comm (2 ^ k) 2) (sym (div-div-eq-div-mul a 2 (2 ^ k)))

pub xor_shift : (k a b : ℕ) → bit_xor a b / 2 ^ k ≡ bit_xor (a / 2 ^ k) (b / 2 ^ k)
xor_shift zero a b = rw (xor_zero_pow a, xor_zero_pow b, xor_zero_pow (bit_xor a b))
  where
    xor_zero_pow : (x : ℕ) → x / 2 ^ 0 ≡ x
    xor_zero_pow x = omega arith
xor_shift (suc k) a b =
    rw (div_pow_suc (bit_xor a b) k, div_pow_suc a k, div_pow_suc b k, xor_half)
      (xor_shift k (a / 2) (b / 2))

-- Words whose ones stand apart add up.
pub xor_fields : (k q r : ℕ) → r < 2 ^ k → bit_xor r (q * 2 ^ k) ≡ q * 2 ^ k + r
xor_fields zero q r h = let z : r ≡ 0 = omega arith in rw (z, zero-xor) (omega arith)
xor_fields (suc k) q r h =
    ground
      (arith, bit_xor_step r (q * 2 ^ suc k), double_pow q k, pow-suc 2 k, xor_fields k q (r / 2))

pub or-zero : (a : ℕ) → bit_or a 0 ≡ a
or-zero a = upto a a (omega arith)
  where
    upto : (n a : ℕ) → a ≤ n → bit_or a 0 ≡ a
    upto zero zero p = refl
    upto zero (suc a) p = absurd (omega arith)
    upto (suc n) a p = omega (arith, bit_or_step a 0, upto n (a / 2) (omega arith))

pub zero-or : (a : ℕ) → bit_or 0 a ≡ a
zero-or a = bit_or-bitwise 0 a

-- The same for `|`.
pub or_fields : (k q r : ℕ) → r < 2 ^ k → bit_or r (q * 2 ^ k) ≡ q * 2 ^ k + r
or_fields zero q r h = let z : r ≡ 0 = omega arith in rw (z, zero-or) (omega arith)
or_fields (suc k) q r h =
    ground
      (arith, bit_or_step r (q * 2 ^ suc k), double_pow q k, pow-suc 2 k, or_fields k q (r / 2))

pub fields_or : (k q r : ℕ) → r < 2 ^ k → bit_or (q * 2 ^ k) r ≡ q * 2 ^ k + r
fields_or zero q r h = let z : r ≡ 0 = omega arith in rw (z, or-zero (q * 2 ^ 0)) (omega arith)
fields_or (suc k) q r h =
    ground
      (arith, bit_or_step (q * 2 ^ suc k) r, double_pow q k, pow-suc 2 k, fields_or k q (r / 2))
