-- ===== src/Ql/Schema/Lock/ReadBack.antt =====
-- The names in schema.lock are read back.
use epochs.Common.{
  List, [], ◌∷◌, ◌++◌, Bool, true, false, ◌||◌, some, ◌≡◌, refl, sym, ap, ◌∙◌, ◌==◌, All,
  append-nil, append_assoc, arith,
}
use epochs.Ql.Chars.{Chars, is_whitespace, within}
use epochs.Ql.Schema.Lock.{
  strip_cr, lines_from, trim, trim_start, trim_end, keep_trimmed, is_passed_over, names_of,
  read_lock, lock_comment, lock_lines, write_lock,
}

unfoldable pub has_newline : Chars → Bool
has_newline [] = false
has_newline (c ∷ text) = c == b'\n' || has_newline text

-- The name of a file that has no newline, neither starts nor ends with whitespace, is not empty and
-- does not start with `#`.
pub record Recorded (name : Chars) : Type 0 where
  pub one_line : has_newline name ≡ false
  pub no_cr : strip_cr name ≡ name
  pub trimmed : trim name ≡ name
  pub kept : is_passed_over name ≡ false

pub lines_from-newline :
    (line name text : Chars)
    → has_newline name ≡ false
    → lines_from line (name ++ (b'\n' ∷ text)) ≡ strip_cr (line ++ name) ∷ lines_from [] text
unfolding lines_from has_newline
lines_from-newline [] [] text e = refl
lines_from-newline (c ∷ line) [] text e =
    ap (λ l. strip_cr l ∷ lines_from [] text) (sym (append-nil (c ∷ line)))
lines_from-newline [] (d ∷ name) text e =
    let here : (d == b'\n') ≡ false = ground arith in
    let later : has_newline name ≡ false = ground arith in
    rw here (lines_from-newline (d ∷ []) name text later)
lines_from-newline (c ∷ line) (d ∷ name) text e =
    let here : (d == b'\n') ≡ false = ground arith in
    let later : has_newline name ≡ false = ground arith in
    rw here (
      lines_from-newline (c ∷ (line ++ (d ∷ []))) name text later
      ∙ ap (λ l. strip_cr l ∷ lines_from [] text) (append_assoc (c ∷ line) (d ∷ []) name))

lock_lines-read :
    (applied : List Chars)
    → All Recorded applied
    → names_of (lines_from [] (lock_lines applied)) ≡ applied
unfolding lock_lines lines_from names_of
lock_lines-read [] all = refl
lock_lines-read (name ∷ applied) (r, all) =
    ap names_of (lines_from-newline [] name (lock_lines applied) r.one_line)
    ∙ rw (r.no_cr, r.trimmed, r.kept) (ap (λ names. name ∷ names) (lock_lines-read applied all))

comment_passed : is_passed_over (trim (strip_cr lock_comment)) ≡ true
unfolding is_passed_over trim trim_start trim_end keep_trimmed strip_cr is_whitespace within
comment_passed = refl

-- The names of the applied migrations are read from schema.lock as they were written, where each
-- has no newline, neither starts nor ends with whitespace, is not empty and does not start with `#`.
pub read_lock-write_lock :
    (applied : List Chars) → All Recorded applied → read_lock (some (write_lock applied)) ≡ applied
unfolding read_lock write_lock
read_lock-write_lock applied all =
    ap names_of
      (lines_from-newline [] lock_comment (lock_lines applied) (unfold has_newline in refl))
    ∙ (unfold names_of in rw comment_passed (lock_lines-read applied all))
