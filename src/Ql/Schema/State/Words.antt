-- ===== src/Ql/Schema/State/Words.antt =====
-- The words of a line of schema.state.
use epochs.Common.{
  ℕ, [], ◌∷◌, ◌++◌, Bool, true, false, ◌||◌, ◌≡◌, refl, sym, ap, ◌∙◌, ◌==◌, append-nil,
  append_assoc, arith, Bool-cases, inl, inr,
}
use epochs.Ql.Chars.{Chars, is_whitespace, within}
use epochs.Ql.Schema.Lock.{strip_cr, trim, trim_start, trim_end, keep_trimmed, is_passed_over}
use epochs.Ql.Schema.State.{State, add_word, words_from, parse_line, directive}

unfoldable pub has_blank : Chars → Bool
has_blank [] = false
has_blank (c ∷ text) = is_whitespace c || has_blank text

-- A text that is a word: it has a character, and no whitespace.
abbrev pub Word : Chars → Type 0
Word [] = ⊥
Word (c ∷ word) = has_blank (c ∷ word) ≡ false

words_from-append :
    (acc word rest : Chars)
    → has_blank word ≡ false
    → words_from acc (word ++ rest) ≡ words_from (acc ++ word) rest
unfolding has_blank words_from
words_from-append acc [] rest e = ap (λ a. words_from a rest) (sym (append-nil acc))
words_from-append acc (c ∷ word) rest e =
    let here : is_whitespace c ≡ false = ground arith in
    let later : has_blank word ≡ false = ground arith in
    rw here (
      words_from-append (acc ++ (c ∷ [])) word rest later
      ∙ ap (λ a. words_from a rest) (append_assoc acc (c ∷ []) word))

pub words_from-last : (word : Chars) → Word word → words_from [] word ≡ word ∷ []
words_from-last [] w = absurd w
words_from-last (c ∷ word) w =
    ap (words_from []) (sym (append-nil (c ∷ word)))
    ∙ words_from-append [] (c ∷ word) [] w
    ∙ (unfold words_from add_word in refl)

pub words_from-word :
    (word rest : Chars)
    → Word word
    → words_from [] (word ++ (b' ' ∷ rest)) ≡ word ∷ words_from [] rest
words_from-word [] rest w = absurd w
words_from-word (c ∷ word) rest w =
    words_from-append [] (c ∷ word) (b' ' ∷ rest) w
    ∙ (unfold words_from add_word is_whitespace within in refl)

keep_trimmed-words :
    (acc : Chars) (c : ℕ) (text t : Chars)
    → ((a : Chars) → words_from a t ≡ words_from a text)
    → words_from acc (keep_trimmed c t) ≡ words_from acc (c ∷ text)
unfolding words_from keep_trimmed add_word
keep_trimmed-words acc c text [] ih = elim (Bool-cases (is_whitespace c)) [
  | inl blank ↦ rw blank (ap (add_word acc) (ih []))
  | inr other ↦ rw other (rw other (ih (acc ++ (c ∷ []))))
]
keep_trimmed-words acc c text (d ∷ kept) ih = elim (Bool-cases (is_whitespace c)) [
  | inl blank ↦ rw blank (ap (add_word acc) (ih []))
  | inr other ↦ rw other (ih (acc ++ (c ∷ [])))
]

words_from-trim_end : (acc text : Chars) → words_from acc (trim_end text) ≡ words_from acc text
unfolding trim_end
words_from-trim_end acc [] = refl
words_from-trim_end acc (c ∷ text) =
    keep_trimmed-words acc c text (trim_end text) (λ a. words_from-trim_end a text)

words_from-strip_cr : (acc text : Chars) → words_from acc (strip_cr text) ≡ words_from acc text
unfolding strip_cr words_from add_word
words_from-strip_cr acc [] = refl
words_from-strip_cr acc (c ∷ []) = elim (Bool-cases (c == b'\r')) [
  | inl cr ↦
      let blank : is_whitespace c ≡ true = unfold is_whitespace within in ground arith in
      rw (cr, blank) refl
  | inr other ↦ rw other refl
]
words_from-strip_cr acc (c ∷ d ∷ text) = elim (Bool-cases (is_whitespace c)) [
  | inl blank ↦ rw blank (ap (add_word acc) (words_from-strip_cr [] (d ∷ text)))
  | inr other ↦ rw other (words_from-strip_cr (acc ++ (c ∷ [])) (d ∷ text))
]

strip_cr-first :
    (c : ℕ) (rest : Chars) → (c == b'\r') ≡ false → (r : Chars) × (strip_cr (c ∷ rest) ≡ c ∷ r)
unfolding strip_cr
strip_cr-first c [] e = ([], rw e refl)
strip_cr-first c (d ∷ rest) e = (strip_cr (d ∷ rest), refl)

keep_trimmed-first :
    (c : ℕ) (t : Chars) → is_whitespace c ≡ false → is_passed_over (keep_trimmed c t) ≡ (c == b'#')
unfolding keep_trimmed is_passed_over
keep_trimmed-first c [] e = rw e refl
keep_trimmed-first c (d ∷ kept) e = refl

-- A line that starts with neither whitespace nor `#` is read as its words.
pub parse_line-words :
    (line : ℕ) (c : ℕ) (rest : Chars) (s : State)
    → is_whitespace c ≡ false
    → (c == b'#') ≡ false
    → (c == b'\r') ≡ false
    → parse_line line (strip_cr (c ∷ rest)) s ≡ directive line (words_from [] (c ∷ rest)) s
parse_line-words line c rest s no_blank no_hash no_cr =
    let (r, is) = strip_cr-first c rest no_cr in
    let start : trim (c ∷ r) ≡ trim_end (c ∷ r) = unfold trim trim_start in rw no_blank refl in
    let trimmed : trim (strip_cr (c ∷ rest)) ≡ trim_end (strip_cr (c ∷ rest)) =
      ap trim is ∙ start ∙ ap trim_end (sym is) in
    let first : is_passed_over (trim_end (c ∷ r)) ≡ (c == b'#') =
      unfold trim_end in keep_trimmed-first c (trim_end r) no_blank in
    let kept : is_passed_over (trim (strip_cr (c ∷ rest))) ≡ false =
      ap is_passed_over trimmed ∙ ap (λ l. is_passed_over (trim_end l)) is ∙ first ∙ no_hash in
    let words : words_from [] (trim (strip_cr (c ∷ rest))) ≡ words_from [] (c ∷ rest) =
      ap (words_from []) trimmed
      ∙ words_from-trim_end [] (strip_cr (c ∷ rest))
      ∙ words_from-strip_cr [] (c ∷ rest) in
    unfold parse_line in rw (kept, words) refl
