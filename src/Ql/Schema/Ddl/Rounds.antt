-- ===== src/Ql/Schema/Ddl/Rounds.antt =====
-- Migration files are parsed in as many rounds as there are tokens.
use epochs.Common.{
  ℕ, zero, suc, ◌≤◌, ◌≡◌, refl, List, [], Bool, true, false, Option, arith, Option-cases, inl, inr,
}
use epochs.Ql.Chars.{Chars}
use epochs.Ql.Lexer.Steps.{>>=-Yields}
use epochs.Ql.Lexer.Tokens.{Covers, tokenize-Covers}
use epochs.Ql.Lexer.{tokenize}
use epochs.Ql.Parser.Rounds.Sources.{Returns, run-Returns}
use epochs.Ql.Parser.Total.Tokens.{bump-Runs, expect-Runs, text-Runs}
use epochs.Ql.Parser.Total.{
  Runs, any, is, pure-Runs, fail-Runs, Runs-zero, relax, widen, bind_strict, bind_first, bind,
  check-Runs, on_kind-Runs,
}
use epochs.Ql.Parser.{same}
use epochs.Ql.Schema.Ddl.{
  FieldType, DdlStatement, parse_type, looks_like_name, name_of, expect_name, path_loop,
  expect_path, named_type, type_of, expect_type, keys_loop, parse_create_collection, quoted_path_of,
  path_in_parens, parse_create_index, parse_drop_index, created_of, statement_of, parse_statement,
  migration_loop, parse_migration,
}
use epochs.Ql.Token.{TokenKind, discriminant}

module _ {F64 : Type 0} where
  name_of-Runs : {n : ℕ} (k : TokenKind F64) → Runs true (is k) n (name_of k)
  unfolding name_of looks_like_name same discriminant
  name_of-Runs (TokenKind.ident s) = bind_first (bump-Runs refl) λ t. pure-Runs
  name_of-Runs (TokenKind.string s) = bind_first (bump-Runs refl) λ t. pure-Runs
  name_of-Runs TokenKind.collection = text-Runs refl
  name_of-Runs TokenKind.index = text-Runs refl
  name_of-Runs TokenKind.key = text-Runs refl
  name_of-Runs TokenKind.path = text-Runs refl
  name_of-Runs _ = fail-Runs _

  expect_name-Runs : {n : ℕ} → Runs true (any {F64 = F64}) n expect_name
  unfolding expect_name
  expect_name-Runs = on_kind-Runs name_of-Runs

  path_loop-Runs :
      (m rounds : ℕ) (parts : Chars)
      → m ≤ rounds
      → Runs false (any {F64 = F64}) m (path_loop rounds parts)
  unfolding path_loop same discriminant
  path_loop-Runs zero rounds parts le = Runs-zero
  path_loop-Runs (suc m) zero parts le = absurd (omega arith)
  path_loop-Runs (suc m) (suc rounds) parts le =
      check-Runs TokenKind.dot
        (relax (
          bind_strict (bump-Runs refl)
            λ t. bind (relax expect_name-Runs) λ part. path_loop-Runs m rounds _ (omega arith)))
        pure-Runs

  expect_path-Runs :
      (m rounds : ℕ) → m ≤ suc rounds → Runs true (any {F64 = F64}) m (expect_path rounds)
  unfolding expect_path
  expect_path-Runs zero rounds le = Runs-zero
  expect_path-Runs (suc m) rounds le =
      bind_strict expect_name-Runs λ first. path_loop-Runs m rounds first (omega arith)

  named_type-Runs :
      {C : TokenKind F64 → Bool} {n : ℕ} (s : Chars)
      → C TokenKind.eof ≡ false
      → Runs true C n (named_type s)
  unfolding named_type
  named_type-Runs s no_eof = elim (Option-cases (parse_type s)) [
    | inl unknown ↦ rw (named_type, unknown) (fail-Runs _)
    | inr (t, known) ↦ rw (named_type, known) (bind_first (bump-Runs no_eof) λ x. pure-Runs)
  ]

  type_of-Runs : {n : ℕ} (k : TokenKind F64) → Runs true (is k) n (type_of k)
  unfolding type_of same discriminant
  type_of-Runs TokenKind.ty_string = bind_first (bump-Runs refl) λ t. pure-Runs
  type_of-Runs TokenKind.ty_int = bind_first (bump-Runs refl) λ t. pure-Runs
  type_of-Runs TokenKind.ty_bool = bind_first (bump-Runs refl) λ t. pure-Runs
  type_of-Runs TokenKind.ty_bytes = bind_first (bump-Runs refl) λ t. pure-Runs
  type_of-Runs (TokenKind.ident s) = named_type-Runs s refl
  type_of-Runs _ = fail-Runs _

  expect_type-Runs : {n : ℕ} → Runs true (any {F64 = F64}) n expect_type
  unfolding expect_type
  expect_type-Runs = on_kind-Runs type_of-Runs

  keys_loop-Runs :
      (m rounds : ℕ) (keys : List (Chars × FieldType))
      → m ≤ rounds
      → Runs true (any {F64 = F64}) m (keys_loop rounds keys)
  unfolding keys_loop same discriminant
  keys_loop-Runs zero rounds keys le = Runs-zero
  keys_loop-Runs (suc m) zero keys le = absurd (omega arith)
  keys_loop-Runs (suc m) (suc rounds) keys le =
      bind_strict (expect_path-Runs (suc m) rounds (omega arith)) λ path.
        bind (relax expect_type-Runs) λ ty.
          check-Runs TokenKind.comma
            (relax
              (bind_first (bump-Runs refl) λ t. relax (keys_loop-Runs m rounds _ (omega arith))))
            pure-Runs

  parse_create_collection-Runs :
      (m rounds : ℕ) → m ≤ rounds → Runs true (any {F64 = F64}) m (parse_create_collection rounds)
  unfolding parse_create_collection same discriminant
  parse_create_collection-Runs m rounds le =
      bind_first (expect-Runs TokenKind.collection refl) λ collection.
        bind (relax expect_name-Runs) λ name.
          bind (relax (expect-Runs TokenKind.key refl))
            λ key. bind (relax (keys_loop-Runs m rounds [] le)) λ keys. pure-Runs

  quoted_path_of-Runs :
      (m rounds : ℕ)
      → m ≤ rounds
      → (k : TokenKind F64) → Runs true (is k) m (quoted_path_of rounds k)
  unfolding quoted_path_of same discriminant
  quoted_path_of-Runs m rounds le (TokenKind.string s) = bind_first (bump-Runs refl) λ t. pure-Runs
  quoted_path_of-Runs m rounds le _ = widen (expect_path-Runs m rounds (omega arith))

  path_in_parens-Runs :
      {C : TokenKind F64 → Bool} (m rounds : ℕ)
      → C TokenKind.eof ≡ false
      → m ≤ rounds
      → Runs true C m (path_in_parens rounds)
  unfolding path_in_parens same discriminant
  path_in_parens-Runs m rounds no_eof le = bind_first (bump-Runs no_eof) λ open_paren.
      bind (relax (expect_path-Runs m rounds (omega arith)))
        λ path. bind (relax (expect-Runs TokenKind.rparen refl)) λ close_paren. pure-Runs

  parse_create_index-Runs :
      (m rounds : ℕ) → m ≤ rounds → Runs true (any {F64 = F64}) m (parse_create_index rounds)
  unfolding parse_create_index same discriminant
  parse_create_index-Runs m rounds le = bind_first (expect-Runs TokenKind.index refl) λ index.
      bind (relax (expect-Runs TokenKind.on refl)) λ on. bind (relax expect_name-Runs) λ collection.
        check-Runs TokenKind.lparen
          (relax (bind_first (path_in_parens-Runs m rounds refl le) λ path. pure-Runs))
          (check-Runs TokenKind.path
            (relax (
              bind_first (bump-Runs refl) λ keyword.
                bind (relax (on_kind-Runs (quoted_path_of-Runs m rounds le))) λ path.
                  bind (relax (expect-Runs TokenKind.type_kw refl))
                    λ type_keyword. bind (relax expect_type-Runs) λ field_type. pure-Runs))
            (fail-Runs _))

  parse_drop_index-Runs :
      (m rounds : ℕ) → m ≤ rounds → Runs true (any {F64 = F64}) m (parse_drop_index rounds)
  unfolding parse_drop_index same discriminant
  parse_drop_index-Runs m rounds le = bind_first (expect-Runs TokenKind.on refl) λ on.
      bind (relax expect_name-Runs) λ collection.
        check-Runs TokenKind.lparen
          (relax (bind_first (path_in_parens-Runs m rounds refl le) λ path. pure-Runs))
          (check-Runs TokenKind.path
            (relax (
              bind_first (bump-Runs refl) λ keyword.
                bind (relax (on_kind-Runs (quoted_path_of-Runs m rounds le))) λ path. pure-Runs))
            (fail-Runs _))

  created_of-Runs :
      (m rounds : ℕ) → m ≤ rounds → (k : TokenKind F64) → Runs true (is k) m (created_of rounds k)
  unfolding created_of
  created_of-Runs m rounds le TokenKind.collection =
      widen (parse_create_collection-Runs m rounds le)
  created_of-Runs m rounds le TokenKind.index = widen (parse_create_index-Runs m rounds le)
  created_of-Runs m rounds le _ = fail-Runs _

  statement_of-Runs :
      (m rounds : ℕ) → m ≤ rounds → (k : TokenKind F64) → Runs true (is k) m (statement_of rounds k)
  unfolding statement_of same discriminant
  statement_of-Runs m rounds le TokenKind.create =
      bind_first (bump-Runs refl) λ t. relax (on_kind-Runs (created_of-Runs m rounds le))
  statement_of-Runs m rounds le TokenKind.drop = bind_first (bump-Runs refl) λ t.
      bind (relax (expect-Runs TokenKind.index refl))
        λ index. relax (parse_drop_index-Runs m rounds le)
  statement_of-Runs m rounds le _ = fail-Runs _

  migration_loop-Runs :
      (m rounds : ℕ) (stmts : List DdlStatement)
      → m ≤ rounds
      → Runs false (any {F64 = F64}) m (migration_loop rounds stmts)
  unfolding migration_loop parse_statement same discriminant
  migration_loop-Runs zero rounds stmts le = Runs-zero
  migration_loop-Runs (suc m) zero stmts le = absurd (omega arith)
  migration_loop-Runs (suc m) (suc rounds) stmts le = check-Runs TokenKind.eof pure-Runs (
      check-Runs TokenKind.semicolon
        (relax (bind_strict (bump-Runs refl) λ t. migration_loop-Runs m rounds stmts (omega arith)))
        (relax (
          bind_strict (on_kind-Runs (statement_of-Runs (suc m) (suc rounds) le)) λ stmt.
            bind
              (check-Runs TokenKind.semicolon (relax (bind_first (bump-Runs refl) λ t. pure-Runs))
                pure-Runs)
              λ u. migration_loop-Runs m rounds _ (omega arith))))

  -- `parse_migration` gives statements or an error for every source: it does not panic, and one
  -- round for each token is enough.
  pub parse_migration-Returns :
      (parse_f64 : Chars → Option F64) (source : Chars)
      → Returns parse_f64 (parse_migration parse_f64 source)
  unfolding parse_migration
  parse_migration-Returns parse_f64 source =
      >>=-Yields (Covers parse_f64 0 source) _ (tokenize parse_f64 source) _
        (tokenize-Covers parse_f64 source)
        λ tokens c.
          run-Returns parse_f64 source tokens _ c λ n. migration_loop-Runs n n [] (omega arith)
