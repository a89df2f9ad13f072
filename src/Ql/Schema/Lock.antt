-- ===== src/Ql/Schema/Lock.antt =====
-- The text of schema.lock in epochql/src/schema/migrate.rs: a comment, and then a line for each
-- migration that is applied.
pub mod ReadBack
use epochs.Common.{
  ℕ, List, [], ◌∷◌, ◌++◌, Bool, true, false, ◌||◌, Option, none, some, if◌then◌else◌, ◌==◌,
}
use epochs.Ql.Chars.{Chars, is_whitespace}
use epochs.Text.{codes}

-- A line without the `\r` before its `\n`.
unfoldable pub strip_cr : Chars → Chars
strip_cr [] = []
strip_cr (c ∷ []) = if c == b'\r' then [] else c ∷ []
strip_cr (c ∷ d ∷ line) = c ∷ strip_cr (d ∷ line)

-- `str::lines`, where `line` is what was read of the line so far.
unfoldable pub lines_from : Chars → Chars → List Chars
lines_from [] [] = []
lines_from (c ∷ line) [] = (c ∷ line) ∷ []
lines_from line (c ∷ text) =
    let next = lines_from (line ++ (c ∷ [])) text in
    let others = lines_from [] text in if c == b'\n' then strip_cr line ∷ others else next

unfoldable pub trim_start : Chars → Chars
trim_start [] = []
trim_start (c ∷ text) = let rest = trim_start text in if is_whitespace c then rest else c ∷ text

-- A character before a text without whitespace at its end.
unfoldable pub keep_trimmed : ℕ → Chars → Chars
keep_trimmed c [] = if is_whitespace c then [] else c ∷ []
keep_trimmed c (d ∷ kept) = c ∷ d ∷ kept

unfoldable pub trim_end : Chars → Chars
trim_end [] = []
trim_end (c ∷ text) = keep_trimmed c (trim_end text)

unfoldable pub trim : Chars → Chars
trim text = trim_end (trim_start text)

-- `l.is_empty() || l.starts_with('#')`.
unfoldable pub is_passed_over : Chars → Bool
is_passed_over [] = true
is_passed_over (c ∷ line) = c == b'#'

-- The names of `read_lock`, of the lines of the text.
unfoldable pub names_of : List Chars → List Chars
names_of [] = []
names_of (line ∷ others) =
    let names = names_of others in if is_passed_over (trim line) then names else trim line ∷ names

-- `none` is a file that is not there.
unfoldable pub read_lock : Option Chars → List Chars
read_lock none = []
read_lock (some text) = names_of (lines_from [] text)

abbrev pub lock_comment : Chars
lock_comment = codes "# epochs schema.lock — applied migrations (do not edit)"

unfoldable pub lock_lines : List Chars → Chars
lock_lines [] = []
lock_lines (name ∷ applied) = name ++ (b'\n' ∷ lock_lines applied)

unfoldable pub write_lock : List Chars → Chars
write_lock applied = lock_comment ++ (b'\n' ∷ lock_lines applied)
