-- ===== src/Ql/Error.antt =====
-- epochql/src/error.rs: an error of the parser and its place in the source.
pub mod Place
use epochs.Common.{ℕ, ◌+◌, List, [], ◌∷◌, Option, none, some, leb, ◌==◌, if◌then◌else◌}
use epochs.Ql.Chars.{Chars, Indexed, char_indices}

-- What is wrong with a line of schema.state.
pub data StateFault : Type 0 where
  expected_collection_name : StateFault
  key_outside_collection : StateFault
  expected_key_path : StateFault
  expected_key_type : StateFault
  unknown_state_type : (text : Chars) → StateFault
  missing_collection : StateFault
  expected_index_name : StateFault
  expected_path_word : StateFault
  expected_path : StateFault
  expected_type_word : StateFault
  expected_state_type : StateFault
  unknown_directive : (text : Chars) → StateFault

-- The texts that the lexer, the parsers and the migrations format into an error, one constructor for a format
-- string. A kind of token has its number there, in place of its printed form.
pub data Message : Type 0 where
  expected_eq_after_bang : Message
  expected_minus_after_lt : Message
  unexpected_character : (c : ℕ) → Message
  unterminated_string : Message
  unterminated_escape : Message
  invalid_float : (text : Chars) → Message
  invalid_integer : (text : Chars) → Message
  expected_kind : (expected found : ℕ) → Message
  expected_identifier : Message
  expected_string : Message
  expected_non_negative : Message
  expected_expression : Message
  expected_number : Message
  expected_edge_type : Message
  expected_edge : Message
  expected_target : Message
  expected_branch_name : Message
  expected_tag_name : Message
  empty_hash : Message
  hash_too_long : (length : ℕ) → Message
  hash_not_hexadecimal : (text : Chars) → Message
  expected_traversal : Message
  expected_strategy : Message
  expected_branch_statement : Message
  expected_version_statement : Message
  expected_query_clause : Message
  expected_statement : Message
  unexpected_tokens : Message
  expected_create_or_drop : Message
  expected_collection_or_index : Message
  expected_index_path : Message
  expected_dropped_path : Message
  expected_type : Message
  unknown_type : (text : Chars) → Message
  collection_exists : (name : Chars) → Message
  unknown_collection : (name : Chars) → Message
  index_exists : (name : Chars) → Message
  index_not_found : (collection path : Chars) → Message
  in_state : (line : ℕ) (fault : StateFault) → Message

pub record ParseError : Type 0 where
  pub message : Message
  pub offset : Option ℕ
  pub line : Option ℕ
  pub column : Option ℕ

-- `ParseError::new`.
unfoldable pub new_error : Message → ParseError
new_error m = record { message = m; offset = none; line = none; column = none }

-- `ParseError::at`.
unfoldable pub error_at : ℕ → Message → ParseError
error_at at m = record { message = m; offset = some at; line = none; column = none }

-- The loop of `offset_to_line_col`.
unfoldable pub line_col : Indexed → ℕ → ℕ → ℕ → ℕ × ℕ
line_col [] offset line col = (line, col)
line_col ((i, ch) ∷ chars) offset line col =
    let newline = ch == b'\n' in
    let next =
      line_col chars offset (if newline then line + 1 else line) (if newline then 1 else col + 1) in
    if leb offset i then (line, col) else next

unfoldable pub offset_to_line_col : Chars → ℕ → ℕ × ℕ
offset_to_line_col source offset = line_col (char_indices 0 source) offset 1 1

unfoldable pub with_location : Chars → ParseError → ParseError
with_location source e = elim e.offset [
  | none ↦ e
  | some offset ↦
      let (line, column) = offset_to_line_col source offset in
      record e { line = some line; column = some column }
]

-- `Result<T>` of the parser. `panicked` is a slice out of bounds or within a character, and
-- `out_of_fuel` marks a loop of the model that was given too few rounds.
pub data Parsed (A : Type 0) : Type 0 where
  ok : A → Parsed A
  err : ParseError → Parsed A
  panicked : Parsed A
  out_of_fuel : Parsed A

infixl 5 ◌>>=◌
abbrev pub ◌>>=◌ : {A B : Type 0} → Parsed A → (A → Parsed B) → Parsed B
ok a >>= f = f a
err e >>= f = err e
panicked >>= f = panicked
out_of_fuel >>= f = out_of_fuel
