-- ===== src/Ql/Error/Place.antt =====
-- The line and the column that an error names.
use epochs.Common.{
  ℕ, suc, ◌+◌, ◌≤◌, ◌<◌, ◌≡◌, refl, ◌∙◌, [], ◌∷◌, ◌++◌, true, false, leb, ◌==◌, if◌then◌else◌,
  length, arith, Bool-cases, inl, inr,
}
use epochs.Ql.Chars.{Chars, byte_len, char_indices, len_utf8}
use epochs.Ql.Chars.Slices.{len_utf8-pos}
use epochs.Ql.Error.{line_col, offset_to_line_col}

unfoldable pub newlines : Chars → ℕ
newlines [] = 0
newlines (c ∷ cs) = let n = newlines cs in if c == b'\n' then 1 + n else n

-- What stands behind the last newline.
unfoldable pub last_line : Chars → Chars
last_line [] = []
last_line (c ∷ cs) =
    let later = last_line cs in
    if leb 1 (newlines cs) then later else if c == b'\n' then cs else c ∷ cs

leb-false : (a b : ℕ) → b < a → leb a b ≡ false
leb-false a b h = ground arith

last_line_whole : (cs : Chars) → leb 1 (newlines cs) ≡ false → last_line cs ≡ cs
unfolding newlines last_line
last_line_whole [] h = refl
last_line_whole (c ∷ cs) h = ground (arith, h)

le_leb : (a b : ℕ) → a ≤ b → leb a b ≡ true
le_leb a b h = ground arith

same_place : (line col : ℕ) → ◌≡◌ {A = ℕ × ℕ} (line, col) (line + 0, col + 0)
same_place line col =
    let l : line ≡ line + 0 = omega arith in let c : col ≡ col + 0 = omega arith in cc

behind_newline :
    (line col : ℕ) (front : Chars)
    → ◌≡◌ {A = ℕ × ℕ}
        (
          line + 1 + newlines front,
          (if leb 1 (newlines front) then 1 + length (last_line front) else 1 + length front),
        )
        (
          line + (1 + newlines front),
          (if leb 1 (1 + newlines front)
              then 1 + length (if leb 1 (newlines front) then last_line front else front)
              else col + suc (length front)),
        )
behind_newline line col front =
    let a : line + 1 + newlines front ≡ line + (1 + newlines front) = omega arith in
    rw (a, le_leb 1 (1 + newlines front) (omega arith))
      (elim (Bool-cases (leb 1 (newlines front))) [
        | inl some_newline ↦ rw some_newline refl
        | inr no_newline ↦ rw no_newline refl
      ])

behind_other :
    (c line col : ℕ) (front : Chars)
    → ◌≡◌ {A = ℕ × ℕ}
        (
          line + newlines front,
          (if leb 1 (newlines front) then 1 + length (last_line front) else col + 1 + length front),
        )
        (
          line + newlines front,
          (if leb 1 (newlines front)
              then 1 + length (if leb 1 (newlines front) then last_line front else c ∷ front)
              else col + suc (length front)),
        )
behind_other c line col front =
    let a : col + 1 + length front ≡ col + suc (length front) = omega arith in
    elim (Bool-cases (leb 1 (newlines front))) [
      | inl some_newline ↦ rw some_newline refl
      | inr no_newline ↦ rw (no_newline, a) refl
    ]

line_col_front :
    (front back : Chars) (i line col : ℕ)
    → line_col (char_indices i (front ++ back)) (i + byte_len front) line col ≡ (
      line + newlines front,
      (if leb 1 (newlines front) then 1 + length (last_line front) else col + length front),
    )
unfolding line_col char_indices newlines last_line byte_len
line_col_front [] [] i line col = same_place line col
line_col_front [] (c ∷ back) i line col = rw (le_leb (i + 0) i (omega arith)) (same_place line col)
line_col_front (c ∷ front) back i line col =
    let pos = len_utf8-pos c in
    let on = leb-false (i + (len_utf8 c + byte_len front)) i (omega arith) in
    let ih = λ (l k : ℕ). line_col_front front back (i + len_utf8 c) l k in
    let at : i + (len_utf8 c + byte_len front) ≡ i + len_utf8 c + byte_len front = omega arith in
    elim (Bool-cases (c == b'\n')) [
      | inl e ↦ rw (on, at, e) (ih (line + 1) 1 ∙ behind_newline line col front)
      | inr e ↦ rw (on, at, e) (ih line (col + 1) ∙ behind_other c line col front)
    ]

-- The place of the characters behind a first part of the source: the line is the number of
-- newlines in that part, counted from 1, and the column the number of characters behind the last
-- of them, counted from 1.
pub offset_to_line_col_lem :
    (front back : Chars)
    → offset_to_line_col (front ++ back) (byte_len front)
      ≡ (1 + newlines front, 1 + length (last_line front))
unfolding offset_to_line_col
offset_to_line_col_lem front back =
    let start : byte_len front ≡ 0 + byte_len front = omega arith in
    rw start (
      line_col_front front back 0 1 1 ∙ (elim (Bool-cases (leb 1 (newlines front))) [
        | inl some_newline ↦ rw some_newline refl
        | inr no_newline ↦ rw (no_newline, last_line_whole front no_newline) refl
      ]))
