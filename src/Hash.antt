-- ===== src/Hash.antt =====
-- epochs-core/src/hash.rs: the 32-byte content hash and its hexadecimal form. A hash is the list
-- of its bytes. BLAKE3 is another crate's, so the digest is a parameter.
pub mod Hex
use epochs.Common.{
  ℕ, ◌+◌, ◌-◌, ◌*◌, ◌/◌, ◌%◌, ◌<◌, ◌≡◌, List, [], ◌∷◌, ◌++◌, Bool, true, false, ◌&&◌, not, Option,
  none, some, leb, ltb, ◌==◌, if◌then◌else◌, length, All,
}
use epochs.Outcome.{Result, ok, err, ◌>>=◌, EpochsError, Message}
use epochs.Codec.{Bytes}
use epochs.Text.{is_utf8}

abbrev pub Hash : Type 0
Hash = Bytes

abbrev pub IsByte : ℕ → Type 0
IsByte b = b < 256

-- `[u8; 32]`.
abbrev pub IsHash : Hash → Type 0
IsHash h = (length h ≡ 32) × All IsByte h

-- What the crate takes from BLAKE3: a digest of 32 bytes. `Hash::of_bytes` is `of_bytes`; the
-- parallel hasher that large payloads go through computes the same digest.
pub record Blake3 : Type 0 where
  pub of_bytes : Bytes → Hash
  pub of_bytes-IsHash : (bytes : Bytes) → IsHash (of_bytes bytes)

abbrev pub zero_hash : Hash
zero_hash =
    0 ∷ 0 ∷ 0 ∷ 0 ∷ 0 ∷ 0 ∷ 0 ∷ 0 ∷ 0 ∷ 0 ∷ 0 ∷ 0 ∷ 0 ∷ 0 ∷ 0 ∷ 0 ∷ 0 ∷ 0 ∷ 0 ∷ 0 ∷ 0 ∷ 0 ∷ 0 ∷ 0
    ∷ 0 ∷ 0 ∷ 0 ∷ 0 ∷ 0 ∷ 0 ∷ 0 ∷ 0 ∷ []

-- `char::to_digit(16)`.
unfoldable pub hex_digit : ℕ → Option ℕ
hex_digit c =
    if leb b'0' c && leb c b'9'
    then some (c - b'0')
    else if leb b'a' c && leb c b'f'
    then some (c - b'a' + 10)
    else if leb b'A' c && leb c b'F'
    then some (c - b'A' + 10)
    else none

one_digit : ℕ → Option ℕ
unfolding hex_digit
one_digit c = hex_digit c

two_digits : ℕ → ℕ → Option ℕ
unfolding hex_digit
two_digits a b = elim (hex_digit a) [
  | none ↦ none
  | some x ↦ elim (hex_digit b) [ none ↦ none | some y ↦ some (x * 16 + y) ]
]

-- `u8::from_str_radix(_, 16)` on a text of two bytes. It takes a sign `+` in front.
unfoldable pub hex_pair : ℕ → ℕ → Option ℕ
unfolding one_digit two_digits
hex_pair a b = if a == b'+' then one_digit b else two_digits a b

-- `u8::from_str_radix` on one byte: a sign alone is no number.
unfoldable pub hex_single : ℕ → Option ℕ
unfolding one_digit
hex_single a = one_digit a

digit_result : Option ℕ → Result ℕ
digit_result none = err (EpochsError.invalid_target Message.invalid_hex_digit)
digit_result (some v) = ok v

-- One round of the loop in `from_hex`: the chunk as text, then as a number.
unfoldable pub parse_chunk : Bytes → Option ℕ → Result ℕ
unfolding digit_result
parse_chunk chunk v =
    if is_utf8 chunk
    then digit_result v
    else err (EpochsError.invalid_target Message.invalid_hex_encoding)

-- The loop over `chunks(2)`.
unfoldable pub parse_chunks : Bytes → Result Bytes
parse_chunks [] = ok []
parse_chunks (a ∷ []) = do v ← parse_chunk (a ∷ []) (hex_single a); ok (v ∷ [])
parse_chunks (a ∷ b ∷ rest) = do
  v ← parse_chunk (a ∷ b ∷ []) (hex_pair a b)
  vs ← parse_chunks rest
  ok (v ∷ vs)

unfoldable pub from_hex : Bytes → Result Hash
from_hex s =
    if not (length s == 64)
    then err (EpochsError.invalid_target (Message.hash_length (length s)))
    else parse_chunks s

hex_char : ℕ → ℕ
hex_char d = if ltb d 10 then b'0' + d else b'a' + d - 10

-- `Display`: `{byte:02x}` for each byte.
unfoldable pub to_hex : Hash → Bytes
unfolding hex_char
to_hex [] = []
to_hex (b ∷ bs) = hex_char (b / 16) ∷ hex_char (b % 16) ∷ to_hex bs
