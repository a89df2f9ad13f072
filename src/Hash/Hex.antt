-- ===== src/Hash/Hex.antt =====
-- The hexadecimal form of a hash and its parser.
use epochs.Common.{
  ℕ, ◌-◌, ◌*◌, ◌/◌, ◌%◌, ◌<◌, ◌≡◌, refl, inl, inr, [], ◌∷◌, length, All, arith, ◌==◌, Bool-cases,
  drop, ◌∙◌, ◌≢◌, ap, get_or,
}
use epochs.Outcome.{ok, >>=-eq-ok}
use epochs.Codec.{Bytes}
use epochs.Text.{is_utf8}
use epochs.Hash.{
  Hash, IsHash, IsByte, hex_char, hex_pair, from_hex, to_hex, parse_chunk, parse_chunks,
}

length-to_hex : (h : Bytes) → length (to_hex h) ≡ 2 * length h
unfolding to_hex
length-to_hex [] = refl
length-to_hex (b ∷ h) = omega (arith, length-to_hex h)

parse_chunk-hex :
    (b : ℕ)
    → b < 256
    → parse_chunk
        (hex_char (b / 16) ∷ hex_char (b % 16) ∷ [])
        (hex_pair (hex_char (b / 16)) (hex_char (b % 16)))
      ≡ ok b
unfolding parse_chunk hex_char hex_pair is_utf8
parse_chunk-hex b h = ground arith

parse_chunks_step :
    (a b v : ℕ) (rest vs : Bytes)
    → parse_chunk (a ∷ b ∷ []) (hex_pair a b) ≡ ok v
    → parse_chunks rest ≡ ok vs
    → parse_chunks (a ∷ b ∷ rest) ≡ ok (v ∷ vs)
unfolding parse_chunks
parse_chunks_step a b v rest vs e f = rw (e, f)

parse_chunks-to_hex : (h : Bytes) → All IsByte h → parse_chunks (to_hex h) ≡ ok h
unfolding to_hex
parse_chunks-to_hex [] a = unfold parse_chunks in refl
parse_chunks-to_hex (b ∷ h) a =
    parse_chunks_step _ _ b (to_hex h) h (parse_chunk-hex b a.0) (parse_chunks-to_hex h a.1)

-- An ASCII byte that is no white space.
abbrev pub IsSolid : ℕ → Type 0
IsSolid b = (32 < b) × (b < 128)

pub to_hex-IsSolid : (h : Bytes) → All IsByte h → All IsSolid (to_hex h)
unfolding to_hex hex_char
to_hex-IsSolid [] a = tt
to_hex-IsSolid (b ∷ h) a = (ground arith, (ground arith, to_hex-IsSolid h a.1))

-- The printed form of a hash has 64 digits, and parsing it gives the hash back.
pub from_hex-to_hex :
    (h : Hash) → IsHash h → (length (to_hex h) ≡ 64) × (from_hex (to_hex h) ≡ ok h)
unfolding from_hex
from_hex-to_hex h v =
    let n : length (to_hex h) ≡ 64 = omega (arith, length-to_hex h, v.0) in
    (n, rw n (parse_chunks-to_hex h v.1))

parse_chunk-byte : (a b v : ℕ) → parse_chunk (a ∷ b ∷ []) (hex_pair a b) ≡ ok v → v < 256
unfolding parse_chunk hex_pair
parse_chunk-byte a b v e = ground arith

parse_chunks-bytes :
    (s vs : Bytes) (n : ℕ)
    → length s ≡ 2 * n
    → parse_chunks s ≡ ok vs
    → (length vs ≡ n) × All IsByte vs
unfolding parse_chunks
parse_chunks-bytes [] vs n l e = ground arith
parse_chunks-bytes (a ∷ []) vs n l e = absurd (omega arith)
parse_chunks-bytes (a ∷ b ∷ s) vs n l e =
    let (v, ev, e') = >>=-eq-ok (parse_chunk (a ∷ b ∷ []) (hex_pair a b)) _ e in
    let (ws, ew, e'') = >>=-eq-ok (parse_chunks s) _ e' in
    let ih = parse_chunks-bytes s ws (n - 1) (omega arith) ew in
    ground (arith, parse_chunk-byte a b v ev, ih)

-- Whatever text `from_hex` accepts has 64 bytes, and the result is 32 bytes.
pub from_hex-IsHash : (s h : Bytes) → from_hex s ≡ ok h → (length s ≡ 64) × IsHash h
unfolding from_hex
from_hex-IsHash s h e = elim (Bool-cases (length s == 64)) [
  | inl y ↦ let l : length s ≡ 64 = ground arith in (l, parse_chunks-bytes s h 32 l (rw l at e))
  | inr n ↦ cc (rw n at e)
]

hex_pair_sign : (b : ℕ) → hex_pair b'0' b ≡ hex_pair b'+' b
unfolding hex_pair
hex_pair_sign b = ground arith

from_hex_sign : (b : ℕ) (s : Bytes) → b < 128 → from_hex (b'+' ∷ b ∷ s) ≡ from_hex (b'0' ∷ b ∷ s)
unfolding from_hex parse_chunks parse_chunk is_utf8
from_hex_sign b s h = rw (hex_pair_sign b) (ground arith)

-- A hash whose first byte is below 16 has a second text that parses to it: its printed form with a
-- sign in place of the leading zero.
pub from_hex_sign-to_hex :
    (b : ℕ) (h : Bytes)
    → IsHash (b ∷ h)
    → b < 16
    → (from_hex (b'+' ∷ drop 1 (to_hex (b ∷ h))) ≡ ok (b ∷ h))
      × (b'+' ∷ drop 1 (to_hex (b ∷ h)) ≢ to_hex (b ∷ h))
unfolding to_hex hex_char
from_hex_sign-to_hex b h v p =
    let zero : hex_char (b / 16) ≡ b'0' = ground arith in
    let small : hex_char (b % 16) < 128 = ground arith in
    let whole = (from_hex-to_hex (b ∷ h) v).1 in
    (
      from_hex_sign (hex_char (b % 16)) (to_hex h) small ∙ rw zero at whole,
      λ e.
          let first : b'+' ≡ hex_char (b / 16) = ap (λ (t : Bytes). get_or t 0 0) e in
          omega (arith, first, zero),
    )
