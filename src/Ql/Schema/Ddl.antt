-- ===== src/Ql/Schema/Ddl.antt =====
-- epochql/src/schema/ddl.rs: the parser of migration files. `DdlParser` has the fields of `Parser`
-- and the same `current`, `check`, `bump`, `expect` and `error`, so it is that parser here.
pub mod Rounds
use epochs.Common.{
  ℕ, zero, suc, ◌+◌, List, [], ◌∷◌, ◌++◌, Bool, true, false, Option, none, some, if◌then◌else◌,
  bytes_eq,
}
use epochs.Ql.Chars.{Chars, to_ascii_uppercase}
use epochs.Ql.Error.{Message, Parsed}
use epochs.Ql.Error
use epochs.Ql.Lexer.{tokenize}
use epochs.Ql.Parser.Statements.{run}
use epochs.Ql.Parser.{
  Parser, Parses, ◌>>=◌, ◌>>◌, pure, no_round, check, on_kind, fail, bump, expect, source_text,
}
use epochs.Ql.Token.{TokenKind, Token}
use epochs.Text.{codes}

pub data FieldType : Type 0 where
  string int bool bytes : FieldType

-- `FieldType::parse`.
unfoldable pub parse_type : Chars → Option FieldType
parse_type s =
    let upper = to_ascii_uppercase s in
    if bytes_eq upper (codes "STRING")
    then some FieldType.string
    else if bytes_eq upper (codes "INT")
    then some FieldType.int
    else if bytes_eq upper (codes "BOOL")
    then some FieldType.bool
    else if bytes_eq upper (codes "BYTES")
    then some FieldType.bytes
    else none

pub data DdlStatement : Type 0 where
  create_collection : (name : Chars) (keys : List (Chars × FieldType)) → DdlStatement
  create_index : (collection path : Chars) (field_type : FieldType) → DdlStatement
  drop_index : (collection path : Chars) → DdlStatement

-- `parts.join(".")`, of parts that are joined so far and one more.
unfoldable pub join_dot : Chars → Chars → Chars
join_dot parts part = parts ++ (b'.' ∷ part)

module _ {F64 : Type 0} where
  unfoldable pub looks_like_name : TokenKind F64 → Bool
  looks_like_name (TokenKind.ident s) = true
  looks_like_name TokenKind.collection = true
  looks_like_name TokenKind.index = true
  looks_like_name TokenKind.key = true
  looks_like_name TokenKind.path = true
  looks_like_name k = false

  -- The arms of `expect_name`.
  unfoldable pub name_of : TokenKind F64 → Parses F64 Chars
  name_of (TokenKind.ident s) = bump >> pure s
  name_of (TokenKind.string s) = bump >> pure s
  name_of k = if looks_like_name k then (bump >>= source_text) else fail Message.expected_identifier

  unfoldable pub expect_name : Parses F64 Chars
  expect_name = on_kind name_of

  -- The loop of `expect_path`.
  unfoldable pub path_loop : ℕ → Chars → Parses F64 Chars
  path_loop zero parts = no_round
  path_loop (suc rounds) parts =
      check TokenKind.dot (bump >> (expect_name >>= λ part. path_loop rounds (join_dot parts part)))
        (pure parts)

  unfoldable pub expect_path : ℕ → Parses F64 Chars
  expect_path rounds = expect_name >>= path_loop rounds

  -- The type that an identifier names.
  unfoldable pub named_type : Chars → Parses F64 FieldType
  named_type s = elim (parse_type s) [
    | none ↦ fail (Message.unknown_type s)
    | some t ↦ bump >> pure t
  ]

  -- The arms of `expect_type`.
  unfoldable pub type_of : TokenKind F64 → Parses F64 FieldType
  type_of TokenKind.ty_string = bump >> pure FieldType.string
  type_of TokenKind.ty_int = bump >> pure FieldType.int
  type_of TokenKind.ty_bool = bump >> pure FieldType.bool
  type_of TokenKind.ty_bytes = bump >> pure FieldType.bytes
  type_of (TokenKind.ident s) = named_type s
  type_of k = fail Message.expected_type

  unfoldable pub expect_type : Parses F64 FieldType
  expect_type = on_kind type_of

  -- The loop of `parse_create_collection`.
  unfoldable pub keys_loop : ℕ → List (Chars × FieldType) → Parses F64 (List (Chars × FieldType))
  keys_loop zero keys = no_round
  keys_loop (suc rounds) keys = do
    path ← expect_path rounds
    ty ← expect_type
    let keys' = keys ++ ((path, ty) ∷ [])
    check TokenKind.comma (bump >> keys_loop rounds keys') (pure keys')

  unfoldable pub parse_create_collection : ℕ → Parses F64 DdlStatement
  parse_create_collection rounds = do
    collection ← expect TokenKind.collection
    name ← expect_name
    key ← expect TokenKind.key
    keys ← keys_loop rounds []
    pure (DdlStatement.create_collection name keys)

  -- The path behind `PATH`.
  unfoldable pub quoted_path_of : ℕ → TokenKind F64 → Parses F64 Chars
  quoted_path_of rounds (TokenKind.string s) = bump >> pure s
  quoted_path_of rounds k = expect_path rounds

  -- A path in parentheses.
  unfoldable pub path_in_parens : ℕ → Parses F64 Chars
  path_in_parens rounds = do
    open_paren ← bump
    path ← expect_path rounds
    close_paren ← expect TokenKind.rparen
    pure path

  unfoldable pub parse_create_index : ℕ → Parses F64 DdlStatement
  parse_create_index rounds = do
    index ← expect TokenKind.index
    on ← expect TokenKind.on
    collection ← expect_name
    check TokenKind.lparen
        (path_in_parens rounds >>= λ path.
          pure (DdlStatement.create_index collection path FieldType.string))
        (check TokenKind.path
          (do
            keyword ← bump
            path ← on_kind (quoted_path_of rounds)
            type_keyword ← expect TokenKind.type_kw
            field_type ← expect_type
            pure (DdlStatement.create_index collection path field_type))
          (fail Message.expected_index_path))

  unfoldable pub parse_drop_index : ℕ → Parses F64 DdlStatement
  parse_drop_index rounds = do
    on ← expect TokenKind.on
    collection ← expect_name
    check TokenKind.lparen
        (path_in_parens rounds >>= λ path. pure (DdlStatement.drop_index collection path))
        (check TokenKind.path
          (bump
            >> (on_kind (quoted_path_of rounds) >>= λ path.
                pure (DdlStatement.drop_index collection path)))
          (fail Message.expected_dropped_path))

  -- What stands behind `CREATE`.
  unfoldable pub created_of : ℕ → TokenKind F64 → Parses F64 DdlStatement
  created_of rounds TokenKind.collection = parse_create_collection rounds
  created_of rounds TokenKind.index = parse_create_index rounds
  created_of rounds k = fail Message.expected_collection_or_index

  -- The arms of `parse_statement`.
  unfoldable pub statement_of : ℕ → TokenKind F64 → Parses F64 DdlStatement
  statement_of rounds TokenKind.create = bump >> on_kind (created_of rounds)
  statement_of rounds TokenKind.drop = bump >> (expect TokenKind.index >> parse_drop_index rounds)
  statement_of rounds k = fail Message.expected_create_or_drop

  unfoldable pub parse_statement : ℕ → Parses F64 DdlStatement
  parse_statement rounds = on_kind (statement_of rounds)

  -- The loop of `parse_migration`.
  unfoldable pub migration_loop : ℕ → List DdlStatement → Parses F64 (List DdlStatement)
  migration_loop zero stmts = no_round
  migration_loop (suc rounds) stmts = check TokenKind.eof (pure stmts) (
      check TokenKind.semicolon (bump >> migration_loop rounds stmts) (
        parse_statement (suc rounds) >>= λ stmt.
        check TokenKind.semicolon (bump >> pure tt) (pure tt)
        >> migration_loop rounds (stmts ++ (stmt ∷ []))))

  unfoldable pub parse_migration : (Chars → Option F64) → Chars → Parsed (List DdlStatement)
  parse_migration parse_f64 source =
      Error.◌>>=◌ (tokenize parse_f64 source)
        λ tokens. run source tokens (λ rounds. migration_loop rounds [])
