-- ===== src/Hamt/Chunk/Separates.antt =====
-- The chunks of a hash and the number that its bytes write.
use epochs.Common.{
  ℕ, zero, suc, ◌+◌, ◌*◌, ◌/◌, ◌%◌, ◌^◌, ◌≤◌, ◌<◌, ◌≡◌, ◌≢◌, ◌⊎◌, ◌==◌, refl, sym, ◌∙◌, [], ◌∷◌,
  length, get_or, drop, All, leb, bit_or, inl, inr, Bool-cases, arith,
}
use epochs.Common.Bits.{and_mask, or_fields}
use native.Mathlib.Nat.{pow-suc, zero-div, div-div-eq-div-mul, mul_assoc}
use epochs.Codec.{Bytes, of_le_bytes}
use epochs.Hash.{Hash, IsByte, IsHash}
use epochs.Hamt.Chunk.{extract_5bits}

-- The hash as a number, lowest byte first.
abbrev pub number : Hash → ℕ
number = of_le_bytes

pow_add : (a b : ℕ) → 2 ^ (a + b) ≡ 2 ^ a * 2 ^ b
pow_add a zero = let e : a + 0 ≡ a = omega arith in rw e (omega arith)
pow_add a (suc b) =
    let e : a + suc b ≡ suc (a + b) = omega arith in
    rw (e, pow-suc 2 (a + b), pow-suc 2 b, pow_add a b) (mul_assoc (2 ^ a) (2 ^ b) 2)

pow-eight : (n : ℕ) → 2 ^ (8 + n) ≡ 256 * 2 ^ n
pow-eight n = pow_add 8 n

drop-shift : (i : ℕ) (h : Bytes) → All IsByte h → number h / 2 ^ (8 * i) ≡ number (drop i h)
unfolding of_le_bytes
drop-shift zero h a = omega arith
drop-shift (suc i) [] a = zero-div (2 ^ (8 * suc i))
drop-shift (suc i) (b ∷ h) a =
    let twice = div-div-eq-div-mul (number (b ∷ h)) 256 (2 ^ (8 * i)) in
    let e : 8 * suc i ≡ 8 + 8 * i = omega arith in
    let low : (b + 256 * of_le_bytes h) / 256 ≡ of_le_bytes h = omega arith in
    rw (e, pow-eight (8 * i), ← twice, low) (drop-shift i h a.1)

number-drop : (i : ℕ) (h : Bytes) → number (drop i h) ≡ get_or h i 0 + 256 * number (drop (suc i) h)
unfolding of_le_bytes
number-drop zero [] = omega arith
number-drop zero (b ∷ h) = refl
number-drop (suc i) [] = omega arith
number-drop (suc i) (b ∷ h) = number-drop i h

get_or-byte : (i : ℕ) (h : Bytes) → All IsByte h → get_or h i 0 < 256
get_or-byte i [] a = omega arith
get_or-byte zero (b ∷ h) a = a.0
get_or-byte (suc i) (b ∷ h) a = get_or-byte i h a.1

-- Five bits that start in the lowest byte end before the third.
window :
    (o b0 b1 n : ℕ)
    → o < 8
    → b0 < 256
    → b1 < 256
    → (b1 * 2 ^ 8 + b0) / 2 ^ o % 2 ^ 5 ≡ (b0 + 256 * (b1 + 256 * n)) / 2 ^ o % 2 ^ 5
window zero b0 b1 n h p q = omega arith
window (suc zero) b0 b1 n h p q = omega arith
window (suc (suc zero)) b0 b1 n h p q = omega arith
window (suc (suc (suc zero))) b0 b1 n h p q = omega arith
window (suc (suc (suc (suc zero)))) b0 b1 n h p q = omega arith
window (suc (suc (suc (suc (suc zero))))) b0 b1 n h p q = omega arith
window (suc (suc (suc (suc (suc (suc zero)))))) b0 b1 n h p q = omega arith
window (suc (suc (suc (suc (suc (suc (suc zero))))))) b0 b1 n h p q = omega arith
window (suc (suc (suc (suc (suc (suc (suc (suc o)))))))) b0 b1 n h p q = omega arith

shifted :
    (i o : ℕ) (h : Hash) → All IsByte h → number h / 2 ^ (8 * i + o) ≡ number (drop i h) / 2 ^ o
shifted i o h a =
    rw (pow_add (8 * i) o, ← div-div-eq-div-mul (number h) (2 ^ (8 * i)) (2 ^ o), drop-shift i h a)
      refl

drop-all : (n : ℕ) (h : Bytes) → length h ≡ n → drop n h ≡ []
drop-all zero [] e = refl
drop-all zero (b ∷ h) e = cc
drop-all (suc n) [] e = cc
drop-all (suc n) (b ∷ h) e = drop-all n h (omega arith)

number-last : (h : Hash) → length h ≡ 32 → number (drop 31 h) ≡ get_or h 31 0
unfolding of_le_bytes
number-last h e = rw (number-drop 31 h, drop-all 32 h e) (omega arith)

pub extract_5bits-lt : (h : Hash) (d : ℕ) → extract_5bits h d < 32
unfolding extract_5bits
extract_5bits-lt h d = elim (Bool-cases (leb 31 (d * 5 / 8))) [
  | inl last ↦ rw last (ground (arith, and_mask 5 (get_or h 31 0 / 2 ^ (d * 5 % 8 % 8))))
  | inr inside ↦
      let i = d * 5 / 8 in
      let both = bit_or (get_or h i 0) (get_or h (i + 1) 0 * 2 ^ 8) / 2 ^ (d * 5 % 8) in
      rw inside (ground (arith, and_mask 5 both))
]

-- Up to level 51, the chunk of a hash is its digit of that place to base 32.
pub extract_5bits-digit :
    (h : Hash) (d : ℕ) → IsHash h → d ≤ 51 → extract_5bits h d ≡ number h / 2 ^ (5 * d) % 32
unfolding extract_5bits
extract_5bits-digit h d (l, a) p =
    let i = d * 5 / 8 in
    let o = d * 5 % 8 in
    let place : 5 * d ≡ 8 * i + o = omega arith in
    elim (Bool-cases (leb 31 i)) [
      | inl last ↦
          let i31 : d * 5 / 8 ≡ 31 = ground arith in
          let o8 : d * 5 % 8 % 8 ≡ d * 5 % 8 = omega arith in
          rw (last, place, shifted i o h a, i31, o8, number-last h l)
            (and_mask 5 (get_or h 31 0 / 2 ^ o))
      | inr inside ↦
          rw (inside, place, shifted i o h a, number-drop i h, number-drop (suc i) h)
            (let b0 = get_or h i 0 in
              let b1 = get_or h (suc i) 0 in
              let next : i + 1 ≡ suc i = omega arith in
              rw
                (
                  next,
                  or_fields 8 b1 b0 (get_or-byte i h a),
                  and_mask 5 ((b1 * 2 ^ 8 + b0) / 2 ^ o),
                )
                (window o b0 b1 (number (drop (suc (suc i)) h)) (omega arith) (get_or-byte i h a)
                  (get_or-byte (suc i) h a)))
    ]

number-lt : (h : Bytes) → All IsByte h → number h < 2 ^ (8 * length h)
unfolding of_le_bytes
number-lt [] a = omega arith
number-lt (b ∷ h) a =
    let e : 8 * suc (length h) ≡ 8 + 8 * length h = omega arith in
    rw (e, pow-eight (8 * length h)) (omega (arith, number-lt h a.1, a.0))

number-lt-256 : (h : Hash) → IsHash h → number h < 2 ^ (8 * 32)
number-lt-256 h (l, a) = let p = number-lt h a in rw l at p

number-injective :
    (h k : Bytes) → length h ≡ length k → All IsByte h → All IsByte k → number h ≡ number k → h ≡ k
unfolding of_le_bytes
number-injective [] [] l a c e = refl
number-injective [] (b ∷ k) l a c e = cc
number-injective (b ∷ h) [] l a c e = cc
number-injective (b ∷ h) (b' ∷ k) l a c e =
    let same : b ≡ b' = omega (arith, a.0, c.0) in
    let rest = number-injective h k (omega arith) a.1 c.1 (omega (arith, a.0, c.0)) in
    rw (same, rest) refl

digits_eq :
    (n x y : ℕ)
    → x < 2 ^ (5 * n)
    → y < 2 ^ (5 * n)
    → ((d : ℕ) → d < n → x / 2 ^ (5 * d) % 32 ≡ y / 2 ^ (5 * d) % 32)
    → x ≡ y
digits_eq zero x y p q f = omega arith
digits_eq (suc n) x y p q f =
    let e : 5 * suc n ≡ 5 + 5 * n = omega arith in
    let big : 2 ^ (5 * suc n) ≡ 32 * 2 ^ (5 * n) = rw e (pow_add 5 (5 * n)) in
    let next = λ (d : ℕ) (h : d < n).
      let e' : 5 * suc d ≡ 5 + 5 * d = omega arith in
      let split = λ (z : ℕ).
        let r : z / 2 ^ (5 * suc d) ≡ z / 32 / 2 ^ (5 * d) =
          rw (e', pow_add 5 (5 * d)) (sym (div-div-eq-div-mul z 32 (2 ^ (5 * d)))) in
        r in
      let r : x / 32 / 2 ^ (5 * d) % 32 ≡ y / 32 / 2 ^ (5 * d) % 32 =
        rw (← split x, ← split y) (f (suc d) (omega arith)) in
      r in
    let high = digits_eq n (x / 32) (y / 32) (omega arith) (omega arith) next in
    omega (arith, f 0 (omega arith), high)

eq_of_chunks :
    (h k : Hash)
    → IsHash h
    → IsHash k
    → ((d : ℕ) → d ≤ 51 → extract_5bits h d ≡ extract_5bits k d)
    → h ≡ k
eq_of_chunks h k (l, a) (m, c) same =
    let x : number h < 2 ^ (5 * 52) = omega (arith, number-lt-256 h (l, a)) in
    let y : number k < 2 ^ (5 * 52) = omega (arith, number-lt-256 k (m, c)) in
    let digit = λ (d : ℕ) (p : d < 52).
      let r : number h / 2 ^ (5 * d) % 32 ≡ number k / 2 ^ (5 * d) % 32 =
        sym (extract_5bits-digit h d (l, a) (omega arith))
        ∙ same d (omega arith)
        ∙ extract_5bits-digit k d (m, c) (omega arith) in
      r in
    number-injective h k (l ∙ sym m) a c (digits_eq 52 (number h) (number k) x y digit)

agree_from :
    (n : ℕ) (f g : ℕ → ℕ)
    → f 0 ≡ g 0
    → ((d : ℕ) → d < n → f (suc d) ≡ g (suc d))
    → (d : ℕ) → d < suc n
    → f d ≡ g d
agree_from n f g e h zero p = e
agree_from n f g e h (suc d) p = h d (omega arith)

-- Below a bound, two functions agree everywhere or differ somewhere.
agree_or_differ :
    (n : ℕ) (f g : ℕ → ℕ) → ((d : ℕ) → d < n → f d ≡ g d) ⊎ ((d : ℕ) × (d < n) × (f d ≢ g d))
agree_or_differ zero f g = inl λ d p. omega arith
agree_or_differ (suc n) f g = elim (agree_or_differ n (λ d. f (suc d)) (λ d. g (suc d))) [
  | inl agree ↦ elim (Bool-cases (f 0 == g 0)) [
    | inl same ↦ inl (agree_from n f g (ground arith) agree)
    | inr other ↦ inr (0, omega arith, ground arith)
  ]
  | inr (d, p, n') ↦ inr (suc d, omega arith, n')
]

-- Two different hashes have different chunks at some level up to 51.
pub chunks_separate :
    (h k : Hash)
    → IsHash h
    → IsHash k
    → h ≢ k
    → (d : ℕ) × (d ≤ 51) × (extract_5bits h d ≢ extract_5bits k d)
chunks_separate h k a c n = elim (agree_or_differ 52 (extract_5bits h) (extract_5bits k)) [
  | inl agree ↦ elim (n (eq_of_chunks h k a c λ d p. agree d (omega arith))) [ ]
  | inr (d, p, differ) ↦ (d, omega arith, differ)
]
