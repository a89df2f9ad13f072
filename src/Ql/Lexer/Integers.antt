-- ===== src/Ql/Lexer/Integers.antt =====
-- Integer literals, against the value of a numeral by its places.
use epochs.Common.{
  ℕ, suc, ◌+◌, ◌-◌, ◌*◌, ◌^◌, ◌≡◌, refl, sym, ap, ◌∙◌, subst, [], ◌∷◌, ◌++◌, true, false, ◌==◌,
  if◌then◌else◌, length, arith, Bool-cases, inl, inr, Option, none, some, append-nil, All, ltb,
}
use native.Mathlib.Nat.{pow-suc, mul_assoc, add-mul}
use epochs.Ql.Chars.{
  len_utf8, Chars, Indexed, byte_len, char_indices, is_whitespace, within, is_ascii_digit,
}
use epochs.Ql.Error.{
  Parsed, ok, err, Message, error_at, with_location, offset_to_line_col, line_col,
}
use epochs.Ql.Lexer.Steps.{index_middle}
use epochs.Ql.Lexer.{
  Lexer, tokenize, tokenize_loop, next_token, match_token, lex_number, number_after, token_to,
  start_of, Start, bump_while, new_lexer, skip_whitespace_and_comments, skip, next_is,
  current_byte_offset, is_eof, digits_value, parse_i64, fail_at, index,
}
use epochs.Ql.Token.{TokenKind, Token, ℤ}

abbrev Digits : Chars → Type 0
Digits s = All (λ c. is_ascii_digit c ≡ true) s

-- The digits by their places.
unfoldable pub value : Chars → ℕ
value [] = 0
value (c ∷ cs) = (c - b'0') * 10 ^ length cs + value cs

digits_value_lem : (n : ℕ) (s : Chars) → digits_value n s ≡ n * 10 ^ length s + value s
unfolding digits_value value
digits_value_lem n [] = omega arith
digits_value_lem n (c ∷ s) =
    let p = 10 ^ length s in
    let d = c - b'0' in
    let shifted : n * 10 ^ suc (length s) ≡ n * p * 10 =
      ap (λ x. n * x) (pow-suc 10 (length s)) ∙ sym (mul_assoc n p 10) in
    omega (arith, digits_value_lem (10 * n + d) s, add-mul (10 * n) d p, mul_assoc 10 n p, shifted)

parse_i64_lem :
    (s : Chars) → parse_i64 s ≡ (if ltb (value s) (2 ^ 63) then some (ℤ.pos (value s)) else none)
unfolding parse_i64
parse_i64_lem s =
    let places : digits_value 0 s ≡ value s = omega (arith, digits_value_lem 0 s) in rw places refl

bump_while_all : (s : Chars) (i : ℕ) → Digits s → bump_while is_ascii_digit (char_indices i s) ≡ []
unfolding bump_while char_indices
bump_while_all [] i d = refl
bump_while_all (c ∷ s) i d = rw d.0 (bump_while_all s (i + len_utf8 c) d.1)

index_all : (s : Chars) → index s 0 (byte_len s) ≡ ok s
index_all s =
    let whole : s ++ [] ≡ s = append-nil s in
    let end : 0 + byte_len s ≡ byte_len s = omega arith in
    let middle : index (s ++ []) 0 (0 + byte_len s) ≡ ok s =
      unfold byte_len in index_middle [] s [] in
    subst (λ (t : Chars). index t 0 (byte_len s) ≡ ok s) whole (rw end at middle)

digit_not_space :
    (c : ℕ) → is_ascii_digit c ≡ true → (is_whitespace c ≡ false) × ((c == b'-') ≡ false)
unfolding is_ascii_digit is_whitespace within
digit_not_space c d = (ground arith, ground arith)

module _ {F64 : Type 0} where
  digit_starts :
      (c : ℕ) (rest : Indexed)
      → is_ascii_digit c ≡ true
      → ◌≡◌ {A = Start F64} (start_of c rest) Start.number
  unfolding start_of is_ascii_digit within
  digit_starts c rest d = ground arith

module _ {F64 : Type 0} (parse_f64 : Chars → Option F64) where
  unfoldable literal : Chars → Parsed (Token F64 × Lexer)
  literal s =
      if ltb (value s) (2 ^ 63)
      then ok (token_to parse_f64 s 0 (TokenKind.int (ℤ.pos (value s))) [])
      else fail_at s 0 (Message.invalid_integer s)

  digit_matches :
      (source : Chars) (i c : ℕ) (rest : Indexed)
      → is_ascii_digit c ≡ true
      → match_token parse_f64 source (skip false ((i, c) ∷ rest))
        ≡ lex_number parse_f64 source i ((i, c) ∷ rest)
  unfolding match_token skip
  digit_matches source i c rest d =
      let (space, minus) = digit_not_space c d in
      let here : skip false ((i, c) ∷ rest) ≡ (i, c) ∷ rest = rw (space, minus) refl in
      let matched : match_token parse_f64 source ((i, c) ∷ rest)
          ≡ lex_number parse_f64 source i ((i, c) ∷ rest) =
        rw (match_token, digit_starts {F64 = F64} c rest d) refl in
      ap (match_token parse_f64 source) here ∙ matched

  lex-Digits :
      (c : ℕ) (s : Chars)
      → Digits (c ∷ s)
      → lex_number parse_f64 (c ∷ s) 0 (char_indices 0 (c ∷ s)) ≡ literal (c ∷ s)
  unfolding lex_number number_after current_byte_offset next_is literal
  lex-Digits c s d =
      let number = c ∷ s in
      let finish = λ (o : Option ℤ).
        let r : Parsed (Token F64 × Lexer) = elim o [
          | none ↦ fail_at number 0 (Message.invalid_integer number)
          | some v ↦ ok (token_to parse_f64 number 0 (TokenKind.int v) [])
        ] in
        r in
      let cases : finish (if ltb (value number) (2 ^ 63) then some (ℤ.pos (value number)) else none)
          ≡ literal number =
        elim (Bool-cases (ltb (value number) (2 ^ 63))) [
          | inl fits ↦ rw fits refl
          | inr large ↦ rw large refl
        ] in
      let all : number_after parse_f64 number 0 [] ≡ literal number =
        rw (index_all number) (ap finish (parse_i64_lem number) ∙ cases) in
      ap (number_after parse_f64 number 0) (bump_while_all number 0 d) ∙ all

  next-Digits :
      (c : ℕ) (s : Chars)
      → Digits (c ∷ s)
      → next_token parse_f64 (new_lexer (c ∷ s)) ≡ literal (c ∷ s)
  unfolding next_token char_indices new_lexer skip_whitespace_and_comments
  next-Digits c s d =
      digit_matches (c ∷ s) 0 c (char_indices (0 + len_utf8 c) s) d.0 ∙ lex-Digits c s d

  -- A numeral is one token, the integer literal of its value, where that is below 2^63. Else it
  -- is refused, with its text and its place.
  pub tokenize-Digits :
      (c : ℕ) (s : Chars)
      → Digits (c ∷ s)
      → tokenize parse_f64 (c ∷ s) ≡ (
          if ltb (value (c ∷ s)) (2 ^ 63)
          then ok (
              record {
                kind = TokenKind.int (ℤ.pos (value (c ∷ s)));
                offset = 0;
                end = byte_len (c ∷ s);
              }
              ∷ record { kind = TokenKind.eof; offset = byte_len (c ∷ s); end = byte_len (c ∷ s) }
              ∷ [])
          else err (record {
            message = Message.invalid_integer (c ∷ s);
            offset = some 0;
            line = some 1;
            column = some 1;
          }))
  unfolding tokenize tokenize_loop next_token match_token token_to skip_whitespace_and_comments skip
      current_byte_offset is_eof literal fail_at error_at with_location offset_to_line_col line_col
      char_indices
  tokenize-Digits c s d =
      let fuel : 1 + length (c ∷ s) ≡ suc (suc (length s)) = omega arith in
      rw (fuel, next-Digits c s d)
        (elim (Bool-cases (ltb (value (c ∷ s)) (2 ^ 63))) [
          | inl fits ↦ rw fits refl
          | inr large ↦ rw large refl
        ])
