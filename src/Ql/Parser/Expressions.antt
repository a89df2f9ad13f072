-- ===== src/Ql/Parser/Expressions.antt =====
-- The expressions of epochql/src/parser.rs. `neg_f64` is `-` on `f64`, and `sub` the parser of an
-- expression one level deeper.
use epochs.Common.{ℕ, zero, suc, true, false}
use epochs.Ql.Ast.{Expression, Entries, BinaryOp, insert_entry}
use epochs.Ql.Error.{Message}
use epochs.Ql.Parser.{
  Parses, ◌>>=◌, ◌>>◌, pure, no_round, check, on_kind, fail, bump, expect, looks_like_ident,
  expect_ident, expect_ident_or_keyword_as_ident,
}
use epochs.Ql.Token.{TokenKind, ℤ}

-- `-n`, which overflows only at the least `i64`.
unfoldable pub negate : ℤ → ℤ
negate (ℤ.pos zero) = ℤ.pos zero
negate (ℤ.pos (suc n)) = ℤ.negsuc n
negate (ℤ.negsuc n) = ℤ.pos (suc n)

module _ {F64 : Type 0} where
  -- The loop of `parse_map_literal`.
  unfoldable pub map_loop : ℕ → Parses F64 (Expression F64) → Entries F64 → Parses F64 (Entries F64)
  map_loop zero sub entries = no_round
  map_loop (suc rounds) sub entries = do
    key ← expect_ident_or_keyword_as_ident
    colon ← expect TokenKind.colon
    value ← sub
    let entries' = insert_entry key value entries
    check TokenKind.comma (bump >> map_loop rounds sub entries') (pure entries')

  unfoldable pub parse_map_literal : ℕ → Parses F64 (Expression F64) → Parses F64 (Entries F64)
  parse_map_literal rounds sub = do
    open_brace ← expect TokenKind.lbrace
    entries ← check TokenKind.rbrace (pure Entries.empty) (map_loop rounds sub Entries.empty)
    close_brace ← expect TokenKind.rbrace
    pure entries

module _ {F64 : Type 0} (neg_f64 : F64 → F64) where
  -- The number behind a `-`.
  unfoldable pub negative_of : TokenKind F64 → Parses F64 (Expression F64)
  negative_of (TokenKind.int n) = bump >> pure (Expression.int (negate n))
  negative_of (TokenKind.float x) = bump >> pure (Expression.float (neg_f64 x))
  negative_of k = fail Message.expected_number

  -- The arms of `parse_primary`.
  unfoldable pub primary_of :
      ℕ → Parses F64 (Expression F64) → TokenKind F64 → Parses F64 (Expression F64)
  primary_of rounds sub TokenKind.null = bump >> pure Expression.null
  primary_of rounds sub TokenKind.true_kw = bump >> pure (Expression.bool true)
  primary_of rounds sub TokenKind.false_kw = bump >> pure (Expression.bool false)
  primary_of rounds sub (TokenKind.int n) = bump >> pure (Expression.int n)
  primary_of rounds sub (TokenKind.float x) = bump >> pure (Expression.float x)
  primary_of rounds sub (TokenKind.string s) = bump >> pure (Expression.string s)
  primary_of rounds sub TokenKind.lbrace =
      parse_map_literal rounds sub >>= λ entries. pure (Expression.map entries)
  primary_of rounds sub TokenKind.lparen =
      bump >> (sub >>= λ expr. expect TokenKind.rparen >> pure expr)
  primary_of rounds sub TokenKind.minus = bump >> on_kind negative_of
  primary_of rounds sub k =
      looks_like_ident (expect_ident >>= λ name. pure (Expression.variable name))
        (fail Message.expected_expression)

  unfoldable pub parse_primary : ℕ → Parses F64 (Expression F64) → Parses F64 (Expression F64)
  parse_primary rounds sub = on_kind (primary_of rounds sub)

  -- The loops of `parse_postfix`, `parse_equality`, `parse_and` and `parse_or`.
  unfoldable pub postfix_loop : ℕ → Expression F64 → Parses F64 (Expression F64)
  postfix_loop zero expr = no_round
  postfix_loop (suc rounds) expr =
      check TokenKind.dot
        (bump
          >> (expect_ident_or_keyword_as_ident >>= λ property.
              postfix_loop rounds (Expression.property_access expr property)))
        (pure expr)

  unfoldable pub parse_postfix : ℕ → Parses F64 (Expression F64) → Parses F64 (Expression F64)
  parse_postfix rounds sub = parse_primary rounds sub >>= postfix_loop rounds

  -- The rest of the loop `next`, where the operator `op` stands.
  unfoldable pub operand :
      Parses F64 (Expression F64)
      → (Expression F64 → Parses F64 (Expression F64))
      → Expression F64
      → BinaryOp
      → Parses F64 (Expression F64)
  operand parse_right next left op =
      bump >> (parse_right >>= λ right. next (Expression.binary left op right))

  unfoldable pub equality_loop :
      ℕ → Parses F64 (Expression F64) → Expression F64 → Parses F64 (Expression F64)
  equality_loop zero sub left = no_round
  equality_loop (suc rounds) sub left =
      let more = operand (parse_postfix rounds sub) (equality_loop rounds sub) left in
      check TokenKind.eq (more BinaryOp.eq) (check TokenKind.neq (more BinaryOp.neq) (pure left))

  unfoldable pub parse_equality : ℕ → Parses F64 (Expression F64) → Parses F64 (Expression F64)
  parse_equality rounds sub = parse_postfix rounds sub >>= equality_loop rounds sub

  unfoldable pub and_loop :
      ℕ → Parses F64 (Expression F64) → Expression F64 → Parses F64 (Expression F64)
  and_loop zero sub left = no_round
  and_loop (suc rounds) sub left =
      check TokenKind.and
        (operand (parse_equality rounds sub) (and_loop rounds sub) left BinaryOp.and) (pure left)

  unfoldable pub parse_and : ℕ → Parses F64 (Expression F64) → Parses F64 (Expression F64)
  parse_and rounds sub = parse_equality rounds sub >>= and_loop rounds sub

  unfoldable pub or_loop :
      ℕ → Parses F64 (Expression F64) → Expression F64 → Parses F64 (Expression F64)
  or_loop zero sub left = no_round
  or_loop (suc rounds) sub left =
      check TokenKind.or (operand (parse_and rounds sub) (or_loop rounds sub) left BinaryOp.or)
        (pure left)

  unfoldable pub parse_or : ℕ → Parses F64 (Expression F64) → Parses F64 (Expression F64)
  parse_or rounds sub = parse_and rounds sub >>= or_loop rounds sub

  unfoldable pub parse_expression : ℕ → Parses F64 (Expression F64)
  parse_expression zero = no_round
  parse_expression (suc rounds) = parse_or (suc rounds) (parse_expression rounds)
