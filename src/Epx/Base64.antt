-- ===== src/Epx/Base64.antt =====
-- `base64_encode` of epochs-server/src/epx.rs. An index beyond the table would be a panic: none.
pub mod RoundTrip
use epochs.Common.{
  ℕ, ◌+◌, ◌*◌, ◌/◌, ◌^◌, List, [], ◌∷◌, ◌++◌, Option, none, some, bit_and, bit_or, get_elem?,
}
use epochs.Codec.{Bytes}
use epochs.Text.{codes}

infixl 5 ◌>>=◌
abbrev pub ◌>>=◌ : {A B : Type 0} → Option A → (A → Option B) → Option B
none >>= f = none
some a >>= f = f a

-- The table `T`.
abbrev pub table : Bytes
table = codes "ABCDEFGHIJKLMNOPQRSTUVWXYZabcdefghijklmnopqrstuvwxyz0123456789+/"

-- `(a << 16) | (b << 8) | c`.
unfoldable pub word : ℕ → ℕ → ℕ → ℕ
word a b c = bit_or (bit_or (a * 2 ^ 16) (b * 2 ^ 8)) c

-- `T[((n >> k) & 63) as usize]`.
unfoldable pub letter : ℕ → ℕ → Option ℕ
letter n k = get_elem? table (bit_and (n / 2 ^ k) 63)

unfoldable pub one_byte : ℕ → Option Bytes
one_byte a = do
  let n = word a 0 0
  p ← letter n 18
  q ← letter n 12
  some (p ∷ q ∷ b'=' ∷ b'=' ∷ [])

unfoldable pub two_bytes : ℕ → ℕ → Option Bytes
two_bytes a b = do
  let n = word a b 0
  p ← letter n 18
  q ← letter n 12
  r ← letter n 6
  some (p ∷ q ∷ r ∷ b'=' ∷ [])

unfoldable pub three_bytes : ℕ → ℕ → ℕ → Option Bytes
three_bytes a b c = do
  let n = word a b c
  p ← letter n 18
  q ← letter n 12
  r ← letter n 6
  s ← letter n 0
  some (p ∷ q ∷ r ∷ s ∷ [])

-- The loop over the chunks of three bytes.
unfoldable pub base64_encode : Bytes → Option Bytes
base64_encode [] = some []
base64_encode (a ∷ []) = one_byte a
base64_encode (a ∷ b ∷ []) = two_bytes a b
base64_encode (a ∷ b ∷ c ∷ rest) = do
  chunk ← three_bytes a b c
  out ← base64_encode rest
  some (chunk ++ out)
