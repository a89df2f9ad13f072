-- ===== src/Tests/Syntax.antt =====
-- The parser of the query language on sources. A floating-point literal stands for its own text.
use epochs.Common.{ℕ, ◌≡◌, ◌++◌, refl, true, arith, List, [], ◌∷◌, Option, some, none}
use epochs.Ql.Ast.{Expression, BinaryOp}
use epochs.Ql.Chars.{Chars, slice, from_byte, up_to_byte, len_utf8}
use epochs.Ql.Error.{ok}
use epochs.Ql.Parser.{same}
use epochs.Ql.Parser.Expressions.{parse_expression}
use epochs.Ql.Parser.Grammar.Levels
use epochs.Ql.Parser.Grammar.Reads.{at}
use epochs.Ql.Parser.Grammar.{Primary, Postfix, Equality, And, Or, literal}
use epochs.Ql.Parser.Rounds.Sources
use epochs.Ql.Parser.Rounds.Sources.{Returns}
use epochs.Ql.Parser.Statements.{parse, parse_script}
use epochs.Ql.Token.{TokenKind, Token, ℤ, is_word, discriminant}
use epochs.Text.{codes}

abbrev parse_text : Chars → Option Chars
parse_text text = some text

abbrev minus_text : Chars → Chars
minus_text text = b'-' ∷ text

abbrev script : Chars
script =
    codes
      "MATCH (a:Commit)-[:PARENT *1..5]->(b) WHERE a.key = {k: -2} OR (b) ; COMMIT {} MESSAGE \"m\""

parse-Returns_example :
    Returns parse_text (parse minus_text parse_text script)
    × Returns parse_text (parse_script minus_text parse_text script)
parse-Returns_example = Sources.parse-Returns parse_text minus_text script

abbrev source : Chars
source = codes "a.b = 1 AND (c);"

abbrev token : TokenKind Chars → ℕ → ℕ → Token Chars
token kind offset end = record { kind = kind; offset = offset; end = end }

abbrev a_b : List (Token Chars)
a_b =
    token (TokenKind.ident (codes "a")) 0 1
    ∷ token TokenKind.dot 1 2
    ∷ token (TokenKind.ident (codes "b")) 2 3
    ∷ []

abbrev left : List (Token Chars)
left = a_b ++ (token TokenKind.eq 4 5 ∷ token (TokenKind.int (ℤ.pos 1)) 6 7 ∷ [])

abbrev right : List (Token Chars)
right =
    token TokenKind.lparen 12 13
    ∷ token (TokenKind.ident (codes "c")) 13 14
    ∷ token TokenKind.rparen 14 15
    ∷ []

abbrev tree : Expression Chars
tree =
    Expression.binary
      (Expression.binary (Expression.property_access (Expression.variable (codes "a")) (codes "b"))
        BinaryOp.eq (Expression.int (ℤ.pos 1)))
      BinaryOp.and (Expression.variable (codes "c"))

name_of :
    (t : Token Chars) (x : Chars)
    → is_word t.kind ≡ true
    → literal t.kind ≡ none
    → slice source t.offset t.end ≡ some x
    → Postfix minus_text source (t ∷ []) (Expression.variable x)
name_of t x word no_literal text =
    Postfix.primary (Primary.name (record { word = word; text = text }) no_literal)

left_derived : Equality minus_text source left (
    Expression.binary
      (Expression.property_access (Expression.variable (codes "a")) (codes "b"))
      BinaryOp.eq
      (Expression.int (ℤ.pos 1)))
unfolding is_word literal slice from_byte up_to_byte len_utf8
left_derived =
    Equality.equal a_b (token (TokenKind.int (ℤ.pos 1)) 6 7 ∷ []) (token TokenKind.eq 4 5)
      (Equality.postfix (
        Postfix.access (token (TokenKind.ident (codes "a")) 0 1 ∷ []) (token TokenKind.dot 1 2)
          (token (TokenKind.ident (codes "b")) 2 3)
          (name_of (token (TokenKind.ident (codes "a")) 0 1) (codes "a") refl refl refl) refl
          (record { word = refl; text = refl })))
      refl (Postfix.primary (Primary.atom refl))

right_derived : Equality minus_text source right (Expression.variable (codes "c"))
unfolding is_word literal slice from_byte up_to_byte len_utf8
right_derived = Equality.postfix (
    Postfix.primary (
      Primary.parens (token TokenKind.lparen 12 13) (token TokenKind.rparen 14 15)
        (token (TokenKind.ident (codes "c")) 13 14 ∷ []) refl
        (Or.conjunction (
          And.equality (
            Equality.postfix
              (name_of (token (TokenKind.ident (codes "c")) 13 14) (codes "c") refl refl refl))))
        refl))

parse_expression-at_example :
    parse_expression minus_text 10
      (at source (left ++ (token TokenKind.and 8 11 ∷ right)) (token TokenKind.semicolon 15 16) [])
    ≡ ok (tree, at source [] (token TokenKind.semicolon 15 16) [])
unfolding same discriminant
parse_expression-at_example =
    Levels.parse_expression-at minus_text source 10 (left ++ (token TokenKind.and 8 11 ∷ right))
      tree (token TokenKind.semicolon 15 16) []
      (Or.conjunction (
        And.both left right (token TokenKind.and 8 11) (And.equality left_derived) refl
          right_derived))
      (refl, (refl, (refl, refl, refl))) (omega arith)
