-- ===== src/Ql/Lexer/Kinds.antt =====
-- The kinds of the tokens that a first character or a word leads to.
use epochs.Common.{
  ℕ, ◌≡◌, refl, sym, List, [], ◌∷◌, Bool, true, false, not, ◌&&◌, ◌||◌, Option, some, ◌==◌,
  if◌then◌else◌, arith, Bool-cases, inl, inr, bytes_eq, Option-cases,
}
use epochs.Assoc
use epochs.Ql.Chars.{
  Chars, Indexed, is_ascii_digit, is_ascii_alphanumeric, is_ascii_alphabetic, to_ascii_uppercase,
}
use epochs.Ql.Lexer.{start_of, Start, is_eof, next_is}
use epochs.Ql.Token.{TokenKind, keywords, keyword_or_ident}

module _ {F64 : Type 0} (parse_f64 : Chars → Option F64) where
  abbrev pub NotEof : TokenKind F64 → Type 0
  NotEof k = is_eof parse_f64 k ≡ false

  -- The kinds that a first character leads to at once, and what it is where it leads to more.
  abbrev pub Starts : ℕ → Start F64 → Type 0
  Starts ch (Start.single k) = NotEof k
  Starts ch (Start.double k) = NotEof k
  Starts ch (Start.refused m) = Unit {0}
  Starts ch Start.string = Unit {0}
  Starts ch Start.number = is_ascii_digit ch ≡ true
  Starts ch Start.word = (is_ascii_alphanumeric ch || ch == b'_') ≡ true

  if-Starts :
      (ch : ℕ) (b : Bool) (s s' : Start F64)
      → (b ≡ true → Starts ch s)
      → Starts ch s'
      → Starts ch (if b then s else s')
  if-Starts ch true s s' h h' = h refl
  if-Starts ch false s s' h h' = h'

  pub start_of-Starts : (ch : ℕ) (rest : Indexed) → Starts ch (start_of ch rest)
  unfolding start_of is_eof is_ascii_alphanumeric
  start_of-Starts ch rest =
      if-Starts ch (ch == b';') _ _ (λ e. refl)
        (if-Starts ch (ch == b',') _ _ (λ e. refl)
          (if-Starts ch (ch == b':') _ _ (λ e. refl)
            (if-Starts ch (ch == b'*') _ _ (λ e. refl)
              (if-Starts ch (ch == b'(') _ _ (λ e. refl)
                (if-Starts ch (ch == b')') _ _ (λ e. refl)
                  (if-Starts ch (ch == b'{') _ _ (λ e. refl)
                    (if-Starts ch (ch == b'}') _ _ (λ e. refl)
                      (if-Starts ch (ch == b'[') _ _ (λ e. refl)
                        (if-Starts ch (ch == b']') _ _ (λ e. refl)
                          (if-Starts ch (ch == b'=') _ _ (λ e. refl)
                            (if-Starts ch (ch == b'!') _ _
                              (λ e.
                                if-Starts ch (next_is (λ c. c == b'=') rest) _ _ (λ e'. refl) tt)
                              (if-Starts ch (ch == b'.') _ _
                                (λ e.
                                  if-Starts ch (next_is (λ c. c == b'.') rest) _ _ (λ e'. refl)
                                    refl)
                                (if-Starts ch (ch == b'-') _ _
                                  (λ e.
                                    if-Starts ch (next_is (λ c. c == b'>') rest) _ _ (λ e'. refl)
                                      refl)
                                  (if-Starts ch (ch == b'<') _ _
                                    (λ e.
                                      if-Starts ch (next_is (λ c. c == b'-') rest) _ _ (λ e'. refl)
                                        tt)
                                    (if-Starts ch (ch == b'"') _ _ (λ e. tt)
                                      (if-Starts ch (is_ascii_digit ch) _ _ (λ e. e)
                                        (if-Starts ch (is_ascii_alphabetic ch || ch == b'_') _ _
                                          (λ e. ground (arith, e)) tt)))))))))))))))))

  -- No entry of a table is the end of the input.
  unfoldable tokens_only : List (Chars × TokenKind F64) → Bool
  tokens_only [] = true
  tokens_only ((j, w) ∷ m) = not (is_eof parse_f64 w) && tokens_only m

  get-NotEof :
      (k : Chars) (m : List (Chars × TokenKind F64)) (v : TokenKind F64)
      → tokens_only m ≡ true
      → Assoc.get k m ≡ some v
      → NotEof v
  unfolding Assoc.get tokens_only
  get-NotEof k [] v a e = cc
  get-NotEof k ((j, w) ∷ m) v a e = elim (Bool-cases (bytes_eq j k)) [
    | inl same ↦
        let one : ◌≡◌ {A = Option (TokenKind F64)} (some w) (some v) = rw same at e in
        let x : w ≡ v = cc in rw (sym x) (ground (arith, a))
    | inr other ↦ get-NotEof k m v (ground (arith, a)) (rw other at e)
  ]

  keywords-NotEof : tokens_only keywords ≡ true
  unfolding tokens_only is_eof
  keywords-NotEof = refl

  pub keyword_or_ident-NotEof : (text : Chars) → NotEof (keyword_or_ident text)
  unfolding keyword_or_ident is_eof
  keyword_or_ident-NotEof text =
      elim (Option-cases (Assoc.get (to_ascii_uppercase text) (keywords {F64 = F64}))) [
        | inl none_found ↦ rw (keyword_or_ident, none_found) refl
        | inr (k, found) ↦
            rw (keyword_or_ident, found)
              (get-NotEof (to_ascii_uppercase text) keywords k keywords-NotEof found)
      ]
