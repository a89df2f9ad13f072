-- ===== src/Ql/Lexer/Quote.antt =====
-- A string literal reads back as the text that was quoted.
use epochs.Common.{
  ℕ, suc, ◌+◌, ◌≡◌, refl, sym, ap, ◌∙◌, [], ◌∷◌, ◌++◌, false, ◌||◌, ◌==◌, if◌then◌else◌, length,
  arith, Bool-cases, inl, inr, Option, append-nil, append_assoc, ==_iff,
}
use epochs.Ql.Chars.{Chars, Indexed, byte_len, char_indices, len_utf8, is_whitespace, within}
use epochs.Ql.Error.{Parsed, ok, ◌>>=◌}
use epochs.Ql.Lexer.{
  string_loop, unescape, tokenize, tokenize_loop, next_token, match_token, lex_string, token_to,
  start_of, bump, new_lexer, skip_whitespace_and_comments, skip, next_is, current_byte_offset,
  is_eof,
}
use epochs.Ql.Token.{TokenKind}

-- A printer of string literals.
unfoldable pub escape : Chars → Chars
escape [] = []
escape (c ∷ cs) =
    let more = escape cs in
    if c == b'"' || c == b'\\'
    then b'\\' ∷ c ∷ more
    else if c == b'\n'
    then b'\\' ∷ b'n' ∷ more
    else if c == b'\t'
    then b'\\' ∷ b't' ∷ more
    else if c == b'\r'
    then b'\\' ∷ b'r' ∷ more
    else c ∷ more

abbrev pub quote : Chars → Chars
quote s = b'"' ∷ (escape s ++ b'"' ∷ [])

string_loop-escape :
    (source : Chars) (offset i : ℕ) (s value : Chars)
    → string_loop source offset false (char_indices i (escape s ++ b'"' ∷ [])) value
      ≡ ok (value ++ s, [])
unfolding string_loop char_indices escape unescape len_utf8
string_loop-escape source offset i [] value =
    ap (λ (v : Chars). ok (v, [])) (sym (append-nil value))
string_loop-escape source offset i (c ∷ s) value =
    let done = λ (x j : ℕ).
      string_loop-escape source offset j s (value ++ x ∷ [])
      ∙ ap (λ (v : Chars). let r : Parsed (Chars × Indexed) = ok (v, []) in r)
          (append_assoc value (x ∷ []) s) in
    elim (Bool-cases (c == b'"')) [
      | inl e ↦ rw ((==_iff c b'"').0 e) (done b'"' _)
      | inr not_quote ↦ elim (Bool-cases (c == b'\\')) [
        | inl e ↦ rw ((==_iff c b'\\').0 e) (done b'\\' _)
        | inr not_slash ↦ elim (Bool-cases (c == b'\n')) [
          | inl e ↦ rw ((==_iff c b'\n').0 e) (done b'\n' _)
          | inr not_newline ↦ elim (Bool-cases (c == b'\t')) [
            | inl e ↦ rw ((==_iff c b'\t').0 e) (done b'\t' _)
            | inr not_tab ↦ elim (Bool-cases (c == b'\r')) [
              | inl e ↦ rw ((==_iff c b'\r').0 e) (done b'\r' _)
              | inr not_return ↦
                  rw (not_quote, not_slash, not_newline, not_tab, not_return, not_quote, not_slash)
                    (done c _)
            ]
          ]
        ]
      ]
    ]

module _ {F64 : Type 0} (parse_f64 : Chars → Option F64) where
  next_quote :
      (s : Chars)
      → next_token parse_f64 (new_lexer (quote s))
        ≡ ok (token_to parse_f64 (quote s) 0 (TokenKind.string s) [])
  unfolding next_token match_token lex_string start_of bump char_indices new_lexer
      skip_whitespace_and_comments skip next_is is_whitespace within
  next_quote s =
      ap
        (λ (r : Parsed (Chars × Indexed)).
          r >>= λ (value, rest). ok (token_to parse_f64 (quote s) 0 (TokenKind.string value) rest))
        (string_loop-escape (quote s) 0 (0 + len_utf8 b'"') s [])

  -- A text between double quotes, with a backslash before each double quote and backslash and
  -- with the escapes for newline, tab and carriage return, is one token: the string literal of
  -- that text, followed by the end of the input.
  pub tokenize-quote :
      (s : Chars)
      → tokenize parse_f64 (quote s)
        ≡ ok (
            record { kind = TokenKind.string s; offset = 0; end = byte_len (quote s) }
            ∷ record { kind = TokenKind.eof; offset = byte_len (quote s); end = byte_len (quote s) }
            ∷ [])
  unfolding tokenize tokenize_loop next_token match_token token_to skip_whitespace_and_comments skip
      current_byte_offset is_eof
  tokenize-quote s =
      let fuel : 1 + length (quote s) ≡ suc (suc (length (escape s ++ b'"' ∷ []))) = omega arith in
      rw (fuel, next_quote s) refl
