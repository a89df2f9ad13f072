-- ===== src/Ql/Parser.antt =====
-- epochql/src/parser.rs: the parser's state and its methods on tokens. The state has the current
-- token and those behind it in place of all of them and the position: the tokens of a source are
-- never none, and the position stays on the last. The recursion of expressions takes rounds, one
-- for each level that they nest, and so does each loop for each time it is run.
pub mod Expressions
pub mod Patterns
pub mod Statements
pub mod Total
pub mod Rounds
pub mod Grammar
use epochs.Common.{
  ℕ, zero, suc, ◌+◌, List, [], ◌∷◌, Bool, true, false, Option, none, some, ◌==◌, if◌then◌else◌, leb,
  ◌&&◌,
}
use epochs.Ql.Chars.{Chars, slice}
use epochs.Ql.Error.{
  ParseError, Message, error_at, with_location, Parsed, ok, err, panicked, out_of_fuel,
}
use epochs.Ql.Token.{TokenKind, Token, ℤ, discriminant, is_word}

pub record Parser (F64 : Type 0) : Type 0 where
  pub source : Chars
  pub current : Token F64
  pub rest : List (Token F64)

-- A method on `&mut self` that may fail.
abbrev pub Parses : Type 0 → Type 0 → Type 0
Parses F64 A = Parser F64 → Parsed (A × Parser F64)

abbrev pub continue :
    {F64 A B : Type 0} → Parsed (A × Parser F64) → (A → Parses F64 B) → Parsed (B × Parser F64)
continue (ok (a, s)) f = f a s
continue (err e) f = err e
continue panicked f = panicked
continue out_of_fuel f = out_of_fuel

infixl 5 ◌>>=◌ ◌>>◌
abbrev pub ◌>>=◌ : {F64 A B : Type 0} → Parses F64 A → (A → Parses F64 B) → Parses F64 B
◌>>=◌ m f s = continue (m s) f

abbrev pub ◌>>◌ : {F64 A B : Type 0} → Parses F64 A → Parses F64 B → Parses F64 B
m >> k = m >>= λ _. k

abbrev pub pure : {F64 A : Type 0} → A → Parses F64 A
pure a s = ok (a, s)

abbrev pub no_round : {F64 A : Type 0} → Parses F64 A
no_round s = out_of_fuel

module _ {F64 : Type 0} where
  unfoldable pub same : TokenKind F64 → TokenKind F64 → Bool
  same k k' = discriminant k == discriminant k'

  -- `if self.check(&kind) { .. } else { .. }`.
  unfoldable pub check : {A : Type 0} → TokenKind F64 → Parses F64 A → Parses F64 A → Parses F64 A
  check kind yes_case no_case s = if same s.current.kind kind then yes_case s else no_case s

  -- `match &self.current().kind { .. }`.
  unfoldable pub on_kind : {A : Type 0} → (TokenKind F64 → Parses F64 A) → Parses F64 A
  on_kind arms s = arms s.current.kind s

  -- `return Err(self.error(..))`.
  unfoldable pub fail : {A : Type 0} → Message → Parses F64 A
  fail message s = err (with_location s.source (error_at s.current.offset message))

  -- The position stays on the last token.
  unfoldable pub advance : Chars → Token F64 → List (Token F64) → Parsed (Token F64 × Parser F64)
  advance source tok [] = ok (tok, record { source = source; current = tok; rest = [] })
  advance source tok (t ∷ rest) = ok (tok, record { source = source; current = t; rest = rest })

  unfoldable pub bump : Parses F64 (Token F64)
  bump s = advance s.source s.current s.rest

  unfoldable pub expect : TokenKind F64 → Parses F64 (Token F64)
  expect kind =
      check kind bump
        (on_kind λ found. fail (Message.expected_kind (discriminant kind) (discriminant found)))

  unfoldable pub looks_like_ident : {A : Type 0} → Parses F64 A → Parses F64 A → Parses F64 A
  looks_like_ident yes_case no_case s = if is_word s.current.kind then yes_case s else no_case s

  -- `self.source[start..end].to_string()`.
  unfoldable pub source_text : Token F64 → Parses F64 Chars
  source_text t s = elim (slice s.source t.offset t.end) [
    | none ↦ panicked
    | some text ↦ ok (text, s)
  ]

  unfoldable pub expect_ident_or_keyword_as_ident : Parses F64 Chars
  expect_ident_or_keyword_as_ident =
      looks_like_ident (bump >>= source_text) (fail Message.expected_identifier)

  unfoldable pub expect_ident : Parses F64 Chars
  expect_ident = expect_ident_or_keyword_as_ident

  unfoldable pub string_of : TokenKind F64 → Parses F64 Chars
  string_of (TokenKind.string s) = bump >> pure s
  string_of k = fail Message.expected_string

  unfoldable pub expect_string : Parses F64 Chars
  expect_string = on_kind string_of

  unfoldable pub name_of : TokenKind F64 → Parses F64 Chars
  name_of (TokenKind.string s) = expect_string
  name_of k = expect_ident

  unfoldable pub expect_name : Parses F64 Chars
  expect_name = on_kind name_of

  unfoldable pub u32_of : TokenKind F64 → Parses F64 ℕ
  u32_of (TokenKind.int (ℤ.pos n)) =
      if leb n 0xffffffff then (bump >> pure n) else fail Message.expected_non_negative
  u32_of k = fail Message.expected_non_negative

  unfoldable pub expect_u32 : Parses F64 ℕ
  expect_u32 = on_kind u32_of

  -- `TokenKind::Int(_)`.
  unfoldable pub is_int : TokenKind F64 → Bool
  is_int (TokenKind.int n) = true
  is_int k = false
