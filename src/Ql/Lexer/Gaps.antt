-- ===== src/Ql/Lexer/Gaps.antt =====
-- What stands between tokens: whitespace, and comments from `--` to the end of the line.
use epochs.Common.{
  ℕ, ◌+◌, ◌≡◌, sym, subst, [], ◌∷◌, Bool, true, false, not, ◌&&◌, ◌==◌, arith, Bool-cases, inl, inr,
  ==_iff,
}
use epochs.Ql.Chars.{Chars, len_utf8, char_indices, is_whitespace, within}
use epochs.Ql.Lexer.Steps.{Takes, take_none, take_one}
use epochs.Ql.Lexer.{skip, next_is}

mutual
  pub data Blank : Chars → Type 0 where
    empty : Blank []
    space : (c : ℕ) (s : Chars) → is_whitespace c ≡ true → Blank s → Blank (c ∷ s)
    comment : (s : Chars) → Comment s → Blank (b'-' ∷ b'-' ∷ s)

  pub data Comment : Chars → Type 0 where
    open_end : Comment []
    inside : (c : ℕ) (s : Chars) → (c == b'\n') ≡ false → Comment s → Comment (c ∷ s)
    newline : (s : Chars) → Blank s → Comment (b'\n' ∷ s)

abbrev Skipped : Bool → Chars → Type 0
Skipped true s = Comment s
Skipped false s = Blank s

abbrev Skips : Bool → ℕ → Chars → Type 0
Skips in_comment i back =
    (t : Takes (skip in_comment (char_indices i back)) i back) × Skipped in_comment t.taken

space_not_dash : (c : ℕ) → is_whitespace c ≡ true → (c == b'-') ≡ false
unfolding is_whitespace within
space_not_dash c h = ground arith

-- A character that starts neither whitespace nor a comment ends the gap.
stops :
    (i c : ℕ) (back : Chars)
    → is_whitespace c ≡ false
    → (c == b'-' && next_is (λ d. d == b'-') (char_indices (i + len_utf8 c) back)) ≡ false
    → Skips false i (c ∷ back)
unfolding skip char_indices
stops i c back h k = rw (h, k) (take_none i (c ∷ back), Blank.empty)

blank_first :
    (i c : ℕ) (back : Chars)
    → is_whitespace c ≡ true
    → Skips false (i + len_utf8 c) back
    → Skips false i (c ∷ back)
unfolding skip char_indices
blank_first i c back e (t, b) =
    rw (space_not_dash c e, e) (take_one i c back t, Blank.space c t.taken e b)

comment_first :
    (i : ℕ) (back : Chars)
    → Skips true (i + len_utf8 b'-' + len_utf8 b'-') back
    → Skips false i (b'-' ∷ b'-' ∷ back)
unfolding skip char_indices next_is is_whitespace within
comment_first i back (t, b) = (
  take_one i b'-' (b'-' ∷ back) (take_one (i + len_utf8 b'-') b'-' back t),
  Blank.comment t.taken b,
)

newline_first :
    (i : ℕ) (back : Chars) → Skips false (i + len_utf8 b'\n') back → Skips true i (b'\n' ∷ back)
unfolding skip char_indices
newline_first i back (t, b) = (take_one i b'\n' back t, Comment.newline t.taken b)

pub skip-Blank : (in_comment : Bool) (i : ℕ) (back : Chars) → Skips in_comment i back
unfolding skip char_indices next_is
skip-Blank true i [] = (take_none i [], Comment.open_end)
skip-Blank false i [] = (take_none i [], Blank.empty)
skip-Blank true i (c ∷ back) = elim (Bool-cases (c == b'\n')) [
  | inl e ↦
      rw ((==_iff c b'\n').0 e) (newline_first i back (skip-Blank false (i + len_utf8 b'\n') back))
  | inr e ↦
      let (t, b) = skip-Blank true (i + len_utf8 c) back in
      subst
        (λ stop.
          (u : Takes (skip (not stop) (char_indices (i + len_utf8 c) back)) i (c ∷ back)) × Comment
            u.taken)
        (sym e) (take_one i c back t, Comment.inside c t.taken e b)
]
skip-Blank false i (c ∷ []) = elim (Bool-cases (is_whitespace c)) [
  | inl e ↦ blank_first i c [] e (skip-Blank false (i + len_utf8 c) [])
  | inr e ↦ stops i c [] e (ground arith)
]
skip-Blank false i (c ∷ d ∷ back) = elim (Bool-cases (is_whitespace c)) [
  | inl e ↦ blank_first i c (d ∷ back) e (skip-Blank false (i + len_utf8 c) (d ∷ back))
  | inr e ↦ elim (Bool-cases (c == b'-' && d == b'-')) [
    | inl both ↦
        let x = (==_iff c b'-').0 (ground (arith, both)) in
        let y = (==_iff d b'-').0 (ground (arith, both)) in
        let rest =
          comment_first i back (skip-Blank true (i + len_utf8 b'-' + len_utf8 b'-') back) in
        subst (λ v. Skips false i (v ∷ d ∷ back)) (sym x)
          (subst (λ v. Skips false i (b'-' ∷ v ∷ back)) (sym y) rest)
    | inr other ↦ stops i c (d ∷ back) e other
  ]
]
