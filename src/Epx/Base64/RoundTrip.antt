-- ===== src/Epx/Base64/RoundTrip.antt =====
-- The text of `base64_encode` decodes to the bytes.
use epochs.Common.{
  ℕ, zero, suc, ◌+◌, ◌*◌, ◌/◌, ◌%◌, ◌^◌, ◌<◌, ◌≡◌, refl, sym, ap, ◌∙◌, [], ◌∷◌, ◌++◌, Bool, true,
  false, ◌&&◌, not, Option, none, some, bit_or, get_elem?, ◌==◌, if◌then◌else◌, All, arith,
  Bool-cases, inl, inr, ==_iff, length, Option-cases,
}
use epochs.Common.Bits.{and_mask, fields_or}
use epochs.Codec.{Bytes}
use epochs.Epx.Base64.{table, word, letter, one_byte, two_bytes, three_bytes, base64_encode, ◌>>=◌}

-- A decoder: the place of a letter in the table, and of four letters the bytes.
unfoldable pub position : ℕ → Bytes → Option ℕ
position c [] = none
position c (t ∷ ts) =
    let later = position c ts >>= λ i. some (suc i) in if c == t then some 0 else later

unfoldable pub digit : ℕ → Option ℕ
digit c = position c table

unfoldable pub decode_four : ℕ → ℕ → ℕ → ℕ → Option Bytes
decode_four p q r s = digit p >>= λ x. digit q >>= λ y.
    if r == b'='
    then some ((x * 4 + y / 16) ∷ [])
    else (digit r >>= λ z.
        if s == b'='
        then some ((x * 4 + y / 16) ∷ (y % 16 * 16 + z / 4) ∷ [])
        else (digit s >>= λ w.
            some ((x * 4 + y / 16) ∷ (y % 16 * 16 + z / 4) ∷ (z % 4 * 64 + w) ∷ [])))

unfoldable pub base64_decode : Bytes → Option Bytes
base64_decode (p ∷ q ∷ r ∷ s ∷ rest) = do
  bytes ← decode_four p q r s
  more ← base64_decode rest
  some (bytes ++ more)
base64_decode [] = some []
base64_decode rest = none

-- Each number below 64 has a letter, which is not `=` and has that place.
unfoldable good_letter : ℕ → Bool
good_letter i = elim (get_elem? table i) [
  | none ↦ false
  | some c ↦ not (c == b'=') && elim (digit c) [ none ↦ false | some j ↦ j == i ]
]

unfoldable all_below : (ℕ → Bool) → ℕ → Bool
all_below p zero = true
all_below p (suc n) = p n && all_below p n

all_below_lem : (p : ℕ → Bool) (n i : ℕ) → all_below p n ≡ true → i < n → p i ≡ true
unfolding all_below
all_below_lem p zero i h lt = absurd (omega arith)
all_below_lem p (suc n) i h lt = elim (Bool-cases (i == n)) [
  | inl e ↦ rw ((==_iff i n).0 e) (ground (arith, h))
  | inr e ↦ all_below_lem p n i (ground (arith, h)) (ground (arith, e))
]

letters_good : all_below good_letter 64 ≡ true
unfolding all_below good_letter digit position
letters_good = refl

record HasPlace (i : ℕ) (l : Option ℕ) : Type 0 where
  c : ℕ
  is : l ≡ some c
  plain : (c == b'=') ≡ false
  place : digit c ≡ some i

good_letter-HasPlace :
    (i : ℕ) (l : Option ℕ) → l ≡ get_elem? table i → good_letter i ≡ true → HasPlace i l
unfolding good_letter
good_letter-HasPlace i l e g = elim (Option-cases (get_elem? table i)) [
  | inl missing ↦ let bad : false ≡ true = rw missing at g in cc
  | inr (c, found) ↦
      let good : (not (c == b'=') && elim (digit c) [ none ↦ false | some j ↦ j == i ]) ≡ true =
        rw found at g in
      elim (Option-cases (digit c)) [
        | inl nowhere ↦
            let bad : (not (c == b'=') && false) ≡ true = rw nowhere at good in ground (arith, bad)
        | inr (j, placed) ↦
            let both : (not (c == b'=') && j == i) ≡ true = rw placed at good in
            let same = (==_iff j i).0 (ground (arith, both)) in
            record {
              c = c;
              is = e ∙ found;
              plain = ground (arith, both);
              place = rw (sym same) placed;
            }
      ]
]

letter-HasPlace : (n k : ℕ) → HasPlace (n / 2 ^ k % 64) (letter n k)
unfolding letter
letter-HasPlace n k =
    good_letter-HasPlace (n / 2 ^ k % 64) (letter n k)
      (unfold letter in ap (get_elem? table) (and_mask 6 (n / 2 ^ k)))
      (all_below_lem good_letter 64 (n / 2 ^ k % 64) letters_good (omega arith))

word_sum : (a b c : ℕ) → b < 256 → c < 256 → word a b c ≡ a * 65536 + b * 256 + c
unfolding word
word_sum a b c lb lc =
    let first : bit_or (a * 2 ^ 16) (b * 2 ^ 8) ≡ (a * 256 + b) * 2 ^ 8 =
      fields_or 16 a (b * 2 ^ 8) (omega arith) ∙ omega arith in
    rw first (fields_or 8 (a * 256 + b) c (omega arith) ∙ omega arith)

-- The bytes that four letters stand for.
decode_letters :
    (p q r s x y z w : ℕ)
    → digit p ≡ some x
    → digit q ≡ some y
    → digit r ≡ some z
    → digit s ≡ some w
    → (r == b'=') ≡ false
    → (s == b'=') ≡ false
    → decode_four p q r s ≡ some ((x * 4 + y / 16) ∷ (y % 16 * 16 + z / 4) ∷ (z % 4 * 64 + w) ∷ [])
unfolding decode_four
decode_letters p q r s x y z w dp dq dr ds nr ns = rw (dp, dq, nr, dr, ns, ds) refl

abbrev Decodes : Option Bytes → Bytes → Type 0
Decodes text bytes =
    (t : Bytes) × (text ≡ some t)
    × (base64_decode t ≡ some bytes)
    × (length t ≡ (length bytes + 2) / 3 * 4)

three_bytes-Decodes :
    (a b c : ℕ)
    → a < 256
    → b < 256
    → c < 256
    → (p q r s : ℕ) × (three_bytes a b c ≡ some (p ∷ q ∷ r ∷ s ∷ []))
      × (decode_four p q r s ≡ some (a ∷ b ∷ c ∷ []))
unfolding three_bytes
three_bytes-Decodes a b c la lb lc =
    let n = word a b c in
    let sum = word_sum a b c lb lc in
    let p = letter-HasPlace n 18 in
    let q = letter-HasPlace n 12 in
    let r = letter-HasPlace n 6 in
    let s = letter-HasPlace n 0 in
    let x : n / 2 ^ 18 % 64 * 4 + n / 2 ^ 12 % 64 / 16 ≡ a = omega (arith, sum) in
    let y : n / 2 ^ 12 % 64 % 16 * 16 + n / 2 ^ 6 % 64 / 4 ≡ b = omega (arith, sum) in
    let z : n / 2 ^ 6 % 64 % 4 * 64 + n / 2 ^ 0 % 64 ≡ c = omega (arith, sum) in
    (
      p.c,
      q.c,
      r.c,
      s.c,
      rw (p.is, q.is, r.is, s.is) refl,
      decode_letters p.c q.c r.c s.c _ _ _ _ p.place q.place r.place s.place r.plain s.plain
          ∙ rw (x, y, z) refl,
    )

one_byte-Decodes : (a : ℕ) → a < 256 → Decodes (one_byte a) (a ∷ [])
unfolding one_byte base64_decode decode_four
one_byte-Decodes a la =
    let n = word a 0 0 in
    let sum = word_sum a 0 0 (omega arith) (omega arith) in
    let p = letter-HasPlace n 18 in
    let q = letter-HasPlace n 12 in
    let x : n / 2 ^ 18 % 64 * 4 + n / 2 ^ 12 % 64 / 16 ≡ a = omega (arith, sum) in
    (p.c ∷ q.c ∷ b'=' ∷ b'=' ∷ [], rw (p.is, q.is) refl, rw (p.place, q.place, x) refl, omega arith)

two_bytes-Decodes : (a b : ℕ) → a < 256 → b < 256 → Decodes (two_bytes a b) (a ∷ b ∷ [])
unfolding two_bytes base64_decode decode_four
two_bytes-Decodes a b la lb =
    let n = word a b 0 in
    let sum = word_sum a b 0 lb (omega arith) in
    let p = letter-HasPlace n 18 in
    let q = letter-HasPlace n 12 in
    let r = letter-HasPlace n 6 in
    let x : n / 2 ^ 18 % 64 * 4 + n / 2 ^ 12 % 64 / 16 ≡ a = omega (arith, sum) in
    let y : n / 2 ^ 12 % 64 % 16 * 16 + n / 2 ^ 6 % 64 / 4 ≡ b = omega (arith, sum) in
    (
      p.c ∷ q.c ∷ r.c ∷ b'=' ∷ [],
      rw (p.is, q.is, r.is) refl,
      rw (p.place, q.place, r.plain, r.place, x, y) refl,
      omega arith,
    )

-- The text of bytes has four characters for each three bytes or part of three, and decodes to the
-- bytes.
pub base64_decode-base64_encode :
    (bytes : Bytes)
    → All (λ b. b < 256) bytes
    → (text : Bytes) × (base64_encode bytes ≡ some text)
      × (base64_decode text ≡ some bytes)
      × (length text ≡ (length bytes + 2) / 3 * 4)
unfolding base64_encode base64_decode
base64_decode-base64_encode [] h = ([], refl, refl, omega arith)
base64_decode-base64_encode (a ∷ []) h = one_byte-Decodes a h.0
base64_decode-base64_encode (a ∷ b ∷ []) h = two_bytes-Decodes a b h.0 h.1.0
base64_decode-base64_encode (a ∷ b ∷ c ∷ rest) h =
    let (p, q, r, s, made, decoded) = three_bytes-Decodes a b c h.0 h.1.0 h.1.1.0 in
    let (text, is, back, size) = base64_decode-base64_encode rest h.1.1.1 in
    (p ∷ q ∷ r ∷ s ∷ text, rw (made, is) refl, rw (decoded, back) refl, omega (arith, size))
