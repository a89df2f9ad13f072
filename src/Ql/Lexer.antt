-- ===== src/Ql/Lexer.antt =====
-- The tokenizer of epochql/src/lexer.rs. `parse_f64` is `str::parse::<f64>`.
pub mod Steps
pub mod Kinds
pub mod Scans
pub mod Tokens
pub mod Gaps
pub mod Integers
pub mod Quote
use epochs.Common.{
  ℕ, zero, suc, ◌+◌, ◌-◌, ◌*◌, ◌^◌, List, [], ◌∷◌, ◌++◌, Bool, true, false, not, ◌&&◌, ◌||◌, Option,
  none, some, ltb, ◌==◌, if◌then◌else◌, length,
}
use epochs.Ql.Chars.{
  Chars, Indexed, byte_len, char_indices, slice, is_ascii_digit, is_ascii_alphabetic,
  is_ascii_alphanumeric, is_whitespace,
}
use epochs.Ql.Error.{
  ParseError, Message, error_at, with_location, Parsed, ok, err, panicked, out_of_fuel, ◌>>=◌,
}
use epochs.Ql.Token.{TokenKind, Token, ℤ, keyword_or_ident}

-- The state: the source, and the characters from the position on.
pub record Lexer : Type 0 where
  pub source : Chars
  pub rest : Indexed

-- `Lexer::new`.
unfoldable pub new_lexer : Chars → Lexer
new_lexer source = record { source = source; rest = char_indices 0 source }

-- The rest of the characters after `bump`, and after `while self.peek().is_some_and(p)
-- { self.bump(); }`.
unfoldable pub bump : Indexed → Indexed
bump [] = []
bump (c ∷ rest) = rest

unfoldable pub bump_while : (ℕ → Bool) → Indexed → Indexed
bump_while p [] = []
bump_while p ((i, c) ∷ rest) = let more = bump_while p rest in if p c then more else (i, c) ∷ rest

-- `self.peek().is_some_and(p)`, and for the characters behind one `peek_ahead(1)`.
unfoldable pub next_is : (ℕ → Bool) → Indexed → Bool
next_is p [] = false
next_is p ((i, c) ∷ rest) = p c

-- The flag says whether the loop is behind a `--`, whose second `-` the comment starts with.
unfoldable pub skip : Bool → Indexed → Indexed
skip comment [] = []
skip true ((i, c) ∷ rest) = skip (not (c == b'\n')) rest
skip false ((i, c) ∷ rest) =
    let starts = c == b'-' && next_is (λ d. d == b'-') rest in
    let more = skip starts rest in if is_whitespace c || starts then more else (i, c) ∷ rest

unfoldable pub skip_whitespace_and_comments : Indexed → Indexed
skip_whitespace_and_comments = skip false

unfoldable pub current_byte_offset : Chars → Indexed → ℕ
current_byte_offset source [] = byte_len source
current_byte_offset source ((i, c) ∷ rest) = i

-- `.map_err(|_| ParseError::at(..).with_location(..))` and `return Err(..)`.
unfoldable pub fail_at : {A : Type 0} → Chars → ℕ → Message → Parsed A
fail_at source offset m = err (with_location source (error_at offset m))

unfoldable pub unescape : ℕ → ℕ
unescape c =
    if c == b'n' then b'\n' else if c == b't' then b'\t' else if c == b'r' then b'\r' else c

-- The loop of `lex_string`: the flag says whether a `\` was read.
unfoldable pub string_loop : Chars → ℕ → Bool → Indexed → Chars → Parsed (Chars × Indexed)
string_loop source offset escaped [] value =
    fail_at source offset
      (if escaped then Message.unterminated_escape else Message.unterminated_string)
string_loop source offset true ((i, c) ∷ rest) value =
    string_loop source offset false rest (value ++ unescape c ∷ [])
string_loop source offset false ((i, c) ∷ rest) value =
    let slash = c == b'\\' in
    let more = string_loop source offset slash rest (if slash then value else value ++ c ∷ []) in
    if c == b'"' then ok (value, rest) else more

unfoldable pub index : Chars → ℕ → ℕ → Parsed Chars
index source start end = elim (slice source start end) [ none ↦ panicked | some text ↦ ok text ]

-- `str::parse::<i64>` of decimal digits.
unfoldable pub digits_value : ℕ → Chars → ℕ
digits_value n [] = n
digits_value n (c ∷ cs) = digits_value (10 * n + (c - b'0')) cs

unfoldable pub parse_i64 : Chars → Option ℤ
parse_i64 text = let n = digits_value 0 text in if ltb n (2 ^ 63) then some (ℤ.pos n) else none

-- What the match of `next_token` goes by: the first character and the next.
pub data Start (F64 : Type 0) : Type 0 where
  single : TokenKind F64 → Start F64
  double : TokenKind F64 → Start F64
  refused : Message → Start F64
  string : Start F64
  number : Start F64
  word : Start F64

module _ {F64 : Type 0} where
  unfoldable pub start_of : ℕ → Indexed → Start F64
  start_of ch rest =
      if ch == b';'
      then Start.single TokenKind.semicolon
      else if ch == b','
      then Start.single TokenKind.comma
      else if ch == b':'
      then Start.single TokenKind.colon
      else if ch == b'*'
      then Start.single TokenKind.star
      else if ch == b'('
      then Start.single TokenKind.lparen
      else if ch == b')'
      then Start.single TokenKind.rparen
      else if ch == b'{'
      then Start.single TokenKind.lbrace
      else if ch == b'}'
      then Start.single TokenKind.rbrace
      else if ch == b'['
      then Start.single TokenKind.lbracket
      else if ch == b']'
      then Start.single TokenKind.rbracket
      else if ch == b'='
      then Start.single TokenKind.eq
      else if ch == b'!'
      then (if next_is (λ c. c == b'=') rest
          then Start.double TokenKind.neq
          else Start.refused Message.expected_eq_after_bang)
      else if ch == b'.'
      then (if next_is (λ c. c == b'.') rest
          then Start.double TokenKind.dot_dot
          else Start.single TokenKind.dot)
      else if ch == b'-'
      then (if next_is (λ c. c == b'>') rest
          then Start.double TokenKind.arrow_right
          else Start.single TokenKind.minus)
      else if ch == b'<'
      then (if next_is (λ c. c == b'-') rest
          then Start.double TokenKind.arrow_left
          else Start.refused Message.expected_minus_after_lt)
      else if ch == b'"'
      then Start.string
      else if is_ascii_digit ch
      then Start.number
      else if is_ascii_alphabetic ch || ch == b'_'
      then Start.word
      else Start.refused (Message.unexpected_character ch)

module _ {F64 : Type 0} (parse_f64 : Chars → Option F64) where
  -- A token that ends where the characters `rest` begin, and the lexer after it.
  unfoldable pub token_to : Chars → ℕ → TokenKind F64 → Indexed → Token F64 × Lexer
  token_to source offset kind rest = (
    record { kind = kind; offset = offset; end = current_byte_offset source rest },
    record { source = source; rest = rest },
  )

  unfoldable pub lex_string : Chars → ℕ → Indexed → Parsed (Token F64 × Lexer)
  lex_string source offset rest =
      string_loop source offset false (bump rest) [] >>= λ (value, rest').
      ok (token_to source offset (TokenKind.string value) rest')

  -- `lex_number` behind the first digits.
  unfoldable pub number_after : Chars → ℕ → Indexed → Parsed (Token F64 × Lexer)
  number_after source offset digits =
      let fraction = bump_while is_ascii_digit (bump digits) in
      let is_float = next_is (λ c. c == b'.') digits && next_is is_ascii_digit (bump digits) in
      if is_float
      then (index source offset (current_byte_offset source fraction) >>= λ text.
          elim (parse_f64 text) [
            | none ↦ fail_at source offset (Message.invalid_float text)
            | some value ↦ ok (token_to source offset (TokenKind.float value) fraction)
          ])
      else (index source offset (current_byte_offset source digits) >>= λ text.
          elim (parse_i64 text) [
            | none ↦ fail_at source offset (Message.invalid_integer text)
            | some value ↦ ok (token_to source offset (TokenKind.int value) digits)
          ])

  unfoldable pub lex_number : Chars → ℕ → Indexed → Parsed (Token F64 × Lexer)
  lex_number source offset rest = number_after source offset (bump_while is_ascii_digit rest)

  unfoldable pub lex_ident_or_keyword : Chars → ℕ → Indexed → Parsed (Token F64 × Lexer)
  lex_ident_or_keyword source offset rest =
      let after = bump_while (λ c. is_ascii_alphanumeric c || c == b'_') rest in
      index source offset (current_byte_offset source after) >>= λ text.
      ok (token_to source offset (keyword_or_ident text) after)

  -- The match, once whitespace and comments are skipped.
  unfoldable pub match_token : Chars → Indexed → Parsed (Token F64 × Lexer)
  match_token source [] = ok (token_to source (byte_len source) TokenKind.eof [])
  match_token source ((offset, ch) ∷ rest) = elim (start_of ch rest) [
    | Start.single kind ↦ ok (token_to source offset kind rest)
    | Start.double kind ↦ ok (token_to source offset kind (bump rest))
    | Start.refused m ↦ fail_at source offset m
    | Start.string ↦ lex_string source offset ((offset, ch) ∷ rest)
    | Start.number ↦ lex_number source offset ((offset, ch) ∷ rest)
    | Start.word ↦ lex_ident_or_keyword source offset ((offset, ch) ∷ rest)
  ]

  unfoldable pub next_token : Lexer → Parsed (Token F64 × Lexer)
  next_token lexer = match_token lexer.source (skip_whitespace_and_comments lexer.rest)

  unfoldable pub is_eof : TokenKind F64 → Bool
  is_eof TokenKind.eof = true
  is_eof k = false

  -- The loop of `tokenize`.
  unfoldable pub tokenize_loop : ℕ → Lexer → List (Token F64) → Parsed (List (Token F64))
  tokenize_loop zero lexer tokens = out_of_fuel
  tokenize_loop (suc fuel) lexer tokens = next_token lexer >>= λ (token, lexer').
      let done = tokens ++ token ∷ [] in
      let more = tokenize_loop fuel lexer' done in if is_eof token.kind then ok done else more

  -- A token for each character of the source, and `Eof`, at most.
  unfoldable pub tokenize : Chars → Parsed (List (Token F64))
  tokenize source = tokenize_loop (1 + length source) (new_lexer source) []
