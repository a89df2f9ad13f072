-- ===== src/Text.antt =====
-- Rust's `str`: bytes that are valid UTF-8. `String::from_utf8` and `str::from_utf8` accept the
-- bytes that `is_utf8` accepts.
use epochs.Common.{
  ℕ, List, [], ◌∷◌, Bool, true, false, ◌&&◌, Option, none, some, leb, ltb, if◌then◌else◌, ◌==◌, ◌+◌,
  ◌≡◌, refl, bytes_eq, map,
}
use epochs.Codec.{Bytes}
use Prim.Native.Char.{code}
use Prim.Native.String.{String}

-- The bytes of a literal that is ASCII.
abbrev pub codes : String → Bytes
codes String.[] = []
codes (String.◌∷◌ c s) = code c ∷ codes s

within : ℕ → ℕ → ℕ → Bool
within lo hi b = leb lo b && leb b hi

-- The ranges that the bytes behind a first byte must lie in.
abbrev cont : ℕ × ℕ
cont = (0x80, 0xbf)

following : ℕ → Option (List (ℕ × ℕ))
unfolding within
following b =
    if ltb b 0x80
    then some []
    else if within 0xc2 0xdf b
    then some (cont ∷ [])
    else if b == 0xe0
    then some ((0xa0, 0xbf) ∷ cont ∷ [])
    else if b == 0xed
    then some ((0x80, 0x9f) ∷ cont ∷ [])
    else if within 0xe1 0xef b
    then some (cont ∷ cont ∷ [])
    else if b == 0xf0
    then some ((0x90, 0xbf) ∷ cont ∷ cont ∷ [])
    else if within 0xf1 0xf3 b
    then some (cont ∷ cont ∷ cont ∷ [])
    else if b == 0xf4
    then some ((0x80, 0x8f) ∷ cont ∷ cont ∷ [])
    else none

utf8_from : List (ℕ × ℕ) → Bytes → Bool
unfolding following within
utf8_from [] [] = true
utf8_from (r ∷ rs) [] = false
utf8_from [] (b ∷ bs) = elim (following b) [ none ↦ false | some rs ↦ utf8_from rs bs ]
utf8_from ((lo, hi) ∷ rs) (b ∷ bs) = within lo hi b && utf8_from rs bs

unfoldable pub is_utf8 : Bytes → Bool
unfolding utf8_from
is_utf8 = utf8_from []

abbrev pub IsText : Bytes → Type 0
IsText s = is_utf8 s ≡ true

unfoldable pub starts_with : Bytes → Bytes → Bool
starts_with s [] = true
starts_with [] (p ∷ ps) = false
starts_with (b ∷ bs) (p ∷ ps) = b == p && starts_with bs ps

-- `to_ascii_lowercase`.
unfoldable pub to_ascii_lowercase : Bytes → Bytes
unfolding within
to_ascii_lowercase = map (λ b. if within b'A' b'Z' b then b + 32 else b)

unfoldable pub eq_ignore_ascii_case : Bytes → Bytes → Bool
unfolding to_ascii_lowercase
eq_ignore_ascii_case a b = bytes_eq (to_ascii_lowercase a) (to_ascii_lowercase b)

hello_is_text : is_utf8 (0x68 ∷ 0xc3 ∷ 0xa9 ∷ 0xe2 ∷ 0x82 ∷ 0xac ∷ []) ≡ true
unfolding is_utf8
hello_is_text = refl
