-- ===== src/Tests/Queries.antt =====
-- The lexer of the query language on queries. A floating-point literal stands for its own text.
use epochs.Common.{
  ℕ, ◌≡◌, ◌^◌, refl, [], ◌∷◌, ◌++◌, Option, some, if◌then◌else◌, ltb, bytes_eq, true, All, length,
  ◌+◌,
}
use epochs.Ql.Chars.{
  Chars, byte_len, is_ascii_digit, within, slice, from_byte, up_to_byte, char_indices, len_utf8,
  is_whitespace, is_ascii_alphabetic, is_ascii_alphanumeric, to_ascii_uppercase,
}
use epochs.Ql.Error.Place
use epochs.Ql.Error.Place.{newlines, last_line}
use epochs.Ql.Error.{Message, ok, err, offset_to_line_col}
use epochs.Ql.Lexer.Integers
use epochs.Ql.Lexer.Quote
use epochs.Ql.Lexer.Quote.{quote}
use epochs.Ql.Lexer.Steps.{Yields}
use epochs.Ql.Lexer.Tokens
use epochs.Ql.Lexer.Tokens.{Covers}
use epochs.Assoc
use epochs.Ql.Lexer.{
  tokenize, tokenize_loop, next_token, match_token, token_to, start_of, skip,
  skip_whitespace_and_comments, next_is, bump, bump_while, current_byte_offset,
  lex_ident_or_keyword, index, is_eof, new_lexer,
}
use epochs.Ql.Token.{TokenKind, Token, ℤ, keyword_or_ident}
use epochs.Text.{codes}

abbrev parse_text : Chars → Option Chars
parse_text text = some text

abbrev query : Chars
query = codes "-- all\nMATCH (a)->(b) WHERE x = \"hi\\n\" AND y = 1.5;"

tokenize-Covers_example : Yields (Covers parse_text 0 query) (tokenize parse_text query)
tokenize-Covers_example = Tokens.tokenize-Covers parse_text query

abbrev said : Chars
said = codes "say \"hi\""

tokenize-quote_example :
    tokenize parse_text (quote said)
    ≡ ok (
        record { kind = TokenKind.string said; offset = 0; end = byte_len (quote said) }
        ∷ record {
          kind = TokenKind.eof;
          offset = byte_len (quote said);
          end = byte_len (quote said);
        }
        ∷ [])
tokenize-quote_example = Quote.tokenize-quote parse_text said

numeral : All (λ c. is_ascii_digit c ≡ true) (codes "420")
unfolding is_ascii_digit within
numeral = (refl, (refl, (refl, tt)))

tokenize-Digits_example : tokenize parse_text (codes "420") ≡ (
    if ltb (Integers.value (codes "420")) (2 ^ 63)
    then ok (
        record {
          kind = TokenKind.int (ℤ.pos (Integers.value (codes "420")));
          offset = 0;
          end = byte_len (codes "420");
        }
        ∷ record {
          kind = TokenKind.eof;
          offset = byte_len (codes "420");
          end = byte_len (codes "420");
        }
        ∷ [])
    else err (record {
      message = Message.invalid_integer (codes "420");
      offset = some 0;
      line = some 1;
      column = some 1;
    }))
tokenize-Digits_example = Integers.tokenize-Digits parse_text b'4' (codes "20") numeral

offset_to_line_col_lem_example :
    offset_to_line_col (codes "USE x;\nab" ++ codes "c") (byte_len (codes "USE x;\nab"))
    ≡ (1 + newlines (codes "USE x;\nab"), 1 + length (last_line (codes "USE x;\nab")))
offset_to_line_col_lem_example = Place.offset_to_line_col_lem (codes "USE x;\nab") (codes "c")

abbrev at : {F64 : Type 0} → TokenKind F64 → ℕ → ℕ → Token F64
at kind offset end = record { kind = kind; offset = offset; end = end }

-- A keyword in lower case, an arrow, a range and a comment.
lexes_symbols :
    tokenize parse_text (codes "use a->..-- x")
    ≡ ok (
        at TokenKind.use_kw 0 3
        ∷ at (TokenKind.ident (codes "a")) 4 5
        ∷ at TokenKind.arrow_right 5 7
        ∷ at TokenKind.dot_dot 7 9
        ∷ at TokenKind.eof 13 13
        ∷ [])
unfolding tokenize tokenize_loop next_token match_token token_to start_of skip
    skip_whitespace_and_comments next_is bump bump_while current_byte_offset lex_ident_or_keyword
    index is_eof new_lexer keyword_or_ident Assoc.get bytes_eq within slice from_byte up_to_byte
    char_indices len_utf8 byte_len is_whitespace is_ascii_digit is_ascii_alphabetic
    is_ascii_alphanumeric to_ascii_uppercase
lexes_symbols = refl
