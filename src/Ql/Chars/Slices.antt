-- ===== src/Ql/Chars/Slices.antt =====
-- Slices of a text at the offsets of its parts.
use epochs.Common.{ℕ, ◌+◌, ◌-◌, ◌≤◌, ◌≡◌, refl, [], ◌∷◌, ◌++◌, false, some, ◌==◌, arith, ltb→false}
use epochs.Ql.Chars.{Chars, len_utf8, byte_len, from_byte, up_to_byte, slice}

pub len_utf8-pos : (c : ℕ) → 1 ≤ len_utf8 c
unfolding len_utf8
len_utf8-pos c = ground arith

pub byte_len-nil : byte_len [] ≡ 0
unfolding byte_len
byte_len-nil = refl

pub byte_len-cons : (c : ℕ) (s : Chars) → byte_len (c ∷ s) ≡ len_utf8 c + byte_len s
unfolding byte_len
byte_len-cons c s = refl

pub byte_len-append : (a b : Chars) → byte_len (a ++ b) ≡ byte_len a + byte_len b
unfolding byte_len
byte_len-append [] b = omega arith
byte_len-append (c ∷ a) b = omega (arith, byte_len-append a b)

from_byte-append : (a t : Chars) → from_byte (byte_len a) (a ++ t) ≡ some t
unfolding from_byte byte_len
from_byte-append [] [] = refl
from_byte-append [] (c ∷ t) = refl
from_byte-append (c ∷ a) t =
    let pos = len_utf8-pos c in
    let nonzero : (len_utf8 c + byte_len a == 0) ≡ false = ground arith in
    let far = ltb→false (len_utf8 c + byte_len a) (len_utf8 c) (omega arith) in
    let less : len_utf8 c + byte_len a - len_utf8 c ≡ byte_len a = omega arith in
    rw (nonzero, far, less) (from_byte-append a t)

up_to_byte-append : (m b : Chars) → up_to_byte (byte_len m) (m ++ b) ≡ some m
unfolding up_to_byte byte_len
up_to_byte-append [] [] = refl
up_to_byte-append [] (c ∷ b) = refl
up_to_byte-append (c ∷ m) b =
    let pos = len_utf8-pos c in
    let nonzero : (len_utf8 c + byte_len m == 0) ≡ false = ground arith in
    let far = ltb→false (len_utf8 c + byte_len m) (len_utf8 c) (omega arith) in
    let less : len_utf8 c + byte_len m - len_utf8 c ≡ byte_len m = omega arith in
    rw (nonzero, far, less, up_to_byte-append m b) refl

pub slice_middle :
    (a m b : Chars) → slice (a ++ (m ++ b)) (byte_len a) (byte_len a + byte_len m) ≡ some m
unfolding slice
slice_middle a m b =
    let ordered = ltb→false (byte_len a + byte_len m) (byte_len a) (omega arith) in
    let less : byte_len a + byte_len m - byte_len a ≡ byte_len m = omega arith in
    rw (ordered, from_byte-append a (m ++ b), less) (up_to_byte-append m b)
