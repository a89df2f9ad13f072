-- ===== src/Ql/Chars.antt =====
-- The characters of a query: what epochql/src takes from Rust's `char` and `str`. A text is the
-- list of its characters, each as its Unicode scalar value.
pub mod Slices
use epochs.Common.{
  ℕ, ◌+◌, ◌-◌, List, [], ◌∷◌, Bool, ◌&&◌, ◌||◌, Option, none, some, ltb, leb, ◌==◌, if◌then◌else◌,
  map,
}
use mathlib.Core.Option

abbrev pub Chars : Type 0
Chars = List ℕ

-- A character with its byte offset, as `char_indices` gives them.
abbrev pub Indexed : Type 0
Indexed = List (ℕ × ℕ)

unfoldable pub len_utf8 : ℕ → ℕ
len_utf8 c = if ltb c 0x80 then 1 else if ltb c 0x800 then 2 else if ltb c 0x10000 then 3 else 4

-- `str::len`: the number of bytes.
unfoldable pub byte_len : Chars → ℕ
byte_len [] = 0
byte_len (c ∷ cs) = len_utf8 c + byte_len cs

-- `char_indices`, from an offset on.
unfoldable pub char_indices : ℕ → Chars → Indexed
char_indices i [] = []
char_indices i (c ∷ cs) = (i, c) ∷ char_indices (i + len_utf8 c) cs

-- The text from a byte offset on, and up to one, where these are between two characters.
unfoldable pub from_byte : ℕ → Chars → Option Chars
from_byte n [] = if n == 0 then some [] else none
from_byte n (c ∷ cs) =
    let later = from_byte (n - len_utf8 c) cs in
    if n == 0 then some (c ∷ cs) else if ltb n (len_utf8 c) then none else later

unfoldable pub up_to_byte : ℕ → Chars → Option Chars
up_to_byte n [] = if n == 0 then some [] else none
up_to_byte n (c ∷ cs) =
    let more = Option.map (λ (t : Chars). c ∷ t) (up_to_byte (n - len_utf8 c) cs) in
    if n == 0 then some [] else if ltb n (len_utf8 c) then none else more

-- `&s[start..end]`: none stands for the panic.
unfoldable pub slice : Chars → ℕ → ℕ → Option Chars
slice s start end =
    if ltb end start
    then none
    else elim (from_byte start s) [ none ↦ none | some t ↦ up_to_byte (end - start) t ]

unfoldable pub within : ℕ → ℕ → ℕ → Bool
within lo hi c = leb lo c && leb c hi

unfoldable pub is_ascii_digit : ℕ → Bool
is_ascii_digit = within b'0' b'9'

unfoldable pub is_ascii_alphabetic : ℕ → Bool
is_ascii_alphabetic c = within b'A' b'Z' c || within b'a' b'z' c

unfoldable pub is_ascii_alphanumeric : ℕ → Bool
is_ascii_alphanumeric c = is_ascii_alphabetic c || is_ascii_digit c

-- The characters with the property White_Space.
unfoldable pub is_whitespace : ℕ → Bool
is_whitespace c =
    within 0x9 0xd c
    || (c == 0x20
        || (c == 0x85
            || (c == 0xa0
                || (c == 0x1680
                    || (within 0x2000 0x200a c
                        || (c == 0x2028
                            || (c == 0x2029 || (c == 0x202f || (c == 0x205f || c == 0x3000)))))))))

unfoldable pub to_ascii_uppercase : Chars → Chars
to_ascii_uppercase = map (λ c. if within b'a' b'z' c then c - 32 else c)
