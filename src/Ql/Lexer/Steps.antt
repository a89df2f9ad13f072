-- ===== src/Ql/Lexer/Steps.antt =====
-- What the functions of the lexer consume.
use epochs.Common.{
  ℕ, ◌+◌, ◌≤◌, ◌≡◌, refl, sym, ap, ◌∙◌, [], ◌∷◌, ◌++◌, Bool, true, false, Option, none, some, ◌==◌,
  if◌then◌else◌, arith, append-nil, append_assoc, length, length-append,
}
use epochs.Ql.Chars.{Chars, Indexed, len_utf8, byte_len, char_indices}
use epochs.Ql.Chars.Slices.{byte_len-nil, byte_len-cons, byte_len-append, slice_middle}
use epochs.Ql.Error.{Parsed, ok, err, panicked, out_of_fuel, ◌>>=◌}
use epochs.Ql.Lexer.{bump, bump_while, string_loop, fail_at, unescape, current_byte_offset, index}

-- A parser's result is an error or has the property: there is no panic, and the fuel is enough.
abbrev pub Yields : {A : Type 0} → (A → Type 0) → Parsed A → Type 0
Yields Q (ok a) = Q a
Yields Q (err e) = Unit {0}
Yields Q panicked = ⊥
Yields Q out_of_fuel = ⊥

pub Yields-mono :
    {A : Type 0} (Q R : A → Type 0) (r : Parsed A) → ((a : A) → Q a → R a) → Yields Q r → Yields R r
Yields-mono Q R (ok a) f y = f a y
Yields-mono Q R (err e) f y = tt
Yields-mono Q R panicked f y = y
Yields-mono Q R out_of_fuel f y = y

pub if-Yields :
    {A : Type 0} (Q : A → Type 0) (b : Bool) (r r' : Parsed A)
    → Yields Q r
    → Yields Q r'
    → Yields Q (if b then r else r')
if-Yields Q true r r' y y' = y
if-Yields Q false r r' y y' = y'

pub >>=-Yields :
    {A B : Type 0} (P : A → Type 0) (Q : B → Type 0) (r : Parsed A) (f : A → Parsed B)
    → Yields P r
    → ((a : A) → P a → Yields Q (f a))
    → Yields Q (r >>= f)
>>=-Yields P Q (ok a) f y g = g a y
>>=-Yields P Q (err e) f y g = tt
>>=-Yields P Q panicked f y g = y
>>=-Yields P Q out_of_fuel f y g = y

-- The characters `r` are what is left of `back`, which starts at the offset `i`, and `taken` is
-- what was read.
pub record Takes (r : Indexed) (i : ℕ) (back : Chars) : Type 0 where
  pub taken : Chars
  pub left : Chars
  pub parts : back ≡ taken ++ left
  pub rest : r ≡ char_indices (i + byte_len taken) left

abbrev pub take_none : (i : ℕ) (back : Chars) → Takes (char_indices i back) i back
take_none i back = record {
  taken = [];
  left = back;
  parts = refl;
  rest = ap (λ n. char_indices n back) (omega (arith, byte_len-nil));
}

abbrev pub take_one :
    {r : Indexed} (i c : ℕ) (back : Chars) → Takes r (i + len_utf8 c) back → Takes r i (c ∷ back)
take_one i c back t = record {
  taken = c ∷ t.taken;
  left = t.left;
  parts = ap (λ (x : Chars). c ∷ x) t.parts;
  rest = t.rest ∙ ap (λ n. char_indices n t.left) (omega (arith, byte_len-cons c t.taken));
}

pub length-take_one :
    {r : Indexed} (i c : ℕ) (back : Chars) (t : Takes r (i + len_utf8 c) back)
    → 1 ≤ length (take_one i c back t).taken
unfolding byte_len
length-take_one i c back t = omega arith

pub if-Takes :
    {r r' : Indexed} (b : Bool) (i : ℕ) (back : Chars)
    → Takes r i back
    → Takes r' i back
    → Takes (if b then r else r') i back
if-Takes true i back t t' = t
if-Takes false i back t t' = t'

pub bump-Takes : (i : ℕ) (back : Chars) → Takes (bump (char_indices i back)) i back
unfolding bump char_indices
bump-Takes i [] = take_none i []
bump-Takes i (c ∷ back) = take_one i c back (take_none (i + len_utf8 c) back)

pub bump_while-Takes :
    (p : ℕ → Bool) (i : ℕ) (back : Chars) → Takes (bump_while p (char_indices i back)) i back
unfolding bump_while char_indices
bump_while-Takes p i [] = take_none i []
bump_while-Takes p i (c ∷ back) =
    if-Takes (p c) i (c ∷ back) (take_one i c back (bump_while-Takes p (i + len_utf8 c) back))
      (take_none i (c ∷ back))

-- Two readings in a row.
abbrev pub take_both :
    {r r' : Indexed} (i : ℕ) (back : Chars) (t : Takes r i back)
    → Takes r' (i + byte_len t.taken) t.left
    → Takes r' i back
take_both i back t u = record {
  taken = t.taken ++ u.taken;
  left = u.left;
  parts = rw (t.parts, u.parts) (sym (append_assoc t.taken u.taken u.left));
  rest = u.rest ∙ ap (λ n. char_indices n u.left) (omega (arith, byte_len-append t.taken u.taken));
}

pub string_loop-Yields :
    (source : Chars) (offset : ℕ) (escaped : Bool) (i : ℕ) (back value : Chars)
    → Yields
        (λ (x : Chars × Indexed). Takes x.1 i back)
        (string_loop source offset escaped (char_indices i back) value)
unfolding string_loop char_indices fail_at
string_loop-Yields source offset escaped i [] value = tt
string_loop-Yields source offset true i (c ∷ back) value =
    Yields-mono (λ (x : Chars × Indexed). Takes x.1 (i + len_utf8 c) back)
      (λ (x : Chars × Indexed). Takes x.1 i (c ∷ back))
      (string_loop source offset false (char_indices (i + len_utf8 c) back)
        (value ++ unescape c ∷ []))
      (λ x t. take_one i c back t)
      (string_loop-Yields source offset false (i + len_utf8 c) back (value ++ unescape c ∷ []))
string_loop-Yields source offset false i (c ∷ back) value =
    let slash = c == b'\\' in
    let value' = if slash then value else value ++ c ∷ [] in
    let more = string_loop source offset slash (char_indices (i + len_utf8 c) back) value' in
    let Q = λ (x : Chars × Indexed). Takes x.1 i (c ∷ back) in
    if-Yields Q (c == b'"') (ok (value, char_indices (i + len_utf8 c) back)) more
      (take_one i c back (take_none (i + len_utf8 c) back))
      (Yields-mono (λ (x : Chars × Indexed). Takes x.1 (i + len_utf8 c) back) Q more
        (λ x t. take_one i c back t)
        (string_loop-Yields source offset slash (i + len_utf8 c) back value'))

-- The offset at which the rest of a source begins.
pub current_byte_offset_lem :
    (front back : Chars)
    → current_byte_offset (front ++ back) (char_indices (byte_len front) back) ≡ byte_len front
unfolding current_byte_offset char_indices byte_len
current_byte_offset_lem front [] = ap byte_len (append-nil front)
current_byte_offset_lem front (c ∷ back) = refl

pub index_middle :
    (a m b : Chars) → index (a ++ (m ++ b)) (byte_len a) (byte_len a + byte_len m) ≡ ok m
unfolding index
index_middle a m b =
    ap (λ (o : Option Chars). elim o [ none ↦ panicked | some text ↦ ok text ]) (slice_middle a m b)

pub bump_while_first :
    (p : ℕ → Bool) (i c : ℕ) (rest : Indexed)
    → p c ≡ true
    → bump_while p ((i, c) ∷ rest) ≡ bump_while p rest
unfolding bump_while
bump_while_first p i c rest e = rw e refl

-- One more step behind a reading.
pub then_bump :
    {r : Indexed} (i : ℕ) (back : Chars) (t : Takes r i back)
    → (u : Takes (bump r) i back) × (length t.taken ≤ length u.taken)
then_bump {r = r} i back t =
    let u' : Takes (bump r) (i + byte_len t.taken) t.left =
      rw t.rest (bump-Takes (i + byte_len t.taken) t.left) in
    (take_both i back t u', omega (arith, length-append t.taken u'.taken))

pub then_while :
    {r : Indexed} (p : ℕ → Bool) (i : ℕ) (back : Chars) (t : Takes r i back)
    → (u : Takes (bump_while p r) i back) × (length t.taken ≤ length u.taken)
then_while {r = r} p i back t =
    let u' : Takes (bump_while p r) (i + byte_len t.taken) t.left =
      rw t.rest (bump_while-Takes p (i + byte_len t.taken) t.left) in
    (take_both i back t u', omega (arith, length-append t.taken u'.taken))
