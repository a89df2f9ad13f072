-- ===== src/Ql/Parser/Statements.antt =====
-- The statements of epochql/src/parser.rs, and its entry points `parse` and `parse_script`.
use epochs.Common.{
  ℕ, zero, suc, ◌+◌, List, [], ◌∷◌, ◌++◌, Bool, true, false, Option, none, some, if◌then◌else◌,
  ◌&&◌, length,
}
use epochs.Ql.Ast.{
  TargetRef, SelectClause, ProjectionItem, CommitStmt, BranchStmt, MergeStmt, MergeStrategy,
  DiffStmt, VersionStatement, QueryStatement, Statement,
}
use epochs.Ql.Chars.{Chars}
use epochs.Ql.Error.{Message, Parsed, ok, err, panicked, out_of_fuel}
use epochs.Ql.Error
use epochs.Ql.Lexer.{tokenize}
use epochs.Ql.Parser.{
  Parser, Parses, ◌>>=◌, ◌>>◌, pure, no_round, check, on_kind, fail, bump, expect, expect_ident,
  expect_string, expect_name,
}
use epochs.Ql.Parser.Expressions.{parse_map_literal, parse_expression}
use epochs.Ql.Parser.Patterns.{parse_target_ref, parse_traversal_clause, parse_match_clause}
use epochs.Ql.Token.{TokenKind, Token}

unfoldable pub is_none : {A : Type 0} → Option A → Bool
is_none none = true
is_none (some a) = false

module _ {F64 : Type 0} where
  -- The loop over the targets behind `PARENTS [`.
  unfoldable pub parents_loop : ℕ → List TargetRef → Parses F64 (List TargetRef)
  parents_loop zero list = no_round
  parents_loop (suc rounds) list = do
    target ← parse_target_ref
    let list' = list ++ (target ∷ [])
    check TokenKind.comma (bump >> parents_loop rounds list') (pure list')

  -- A clause `PARENTS [..]`.
  unfoldable pub parse_parents : ℕ → Parses F64 (List TargetRef)
  parse_parents rounds = do
    open_bracket ← expect TokenKind.lbracket
    list ← check TokenKind.rbracket (pure []) (parents_loop rounds [])
    close_bracket ← expect TokenKind.rbracket
    pure list

  -- The loop of `parse_commit_stmt`.
  unfoldable pub commit_loop : ℕ → CommitStmt F64 → Parses F64 (CommitStmt F64)
  commit_loop zero stmt = no_round
  commit_loop (suc rounds) stmt =
      check TokenKind.message
        (bump >> (expect_string >>= λ m. commit_loop rounds (record stmt { message = some m })))
        (check TokenKind.parents
          (bump
            >> (parse_parents rounds >>= λ list.
                commit_loop rounds (record stmt { parents = some list })))
          (pure stmt))

  unfoldable pub branch_of : TokenKind F64 → Parses F64 BranchStmt
  branch_of TokenKind.create = do
    create ← bump
    branch ← expect TokenKind.branch
    name ← expect_name
    from ← check TokenKind.from (bump >> (parse_target_ref >>= λ t. pure (some t))) (pure none)
    pure (BranchStmt.create name from)
  branch_of TokenKind.delete = do
    delete ← bump
    branch ← expect TokenKind.branch
    name ← expect_name
    pure (BranchStmt.delete name)
  branch_of k = fail Message.expected_branch_statement

  unfoldable pub parse_branch_stmt : Parses F64 BranchStmt
  parse_branch_stmt = on_kind branch_of

  unfoldable pub strategy_of : TokenKind F64 → Parses F64 MergeStrategy
  strategy_of TokenKind.fast_forward = bump >> pure MergeStrategy.fast_forward
  strategy_of TokenKind.three_way = bump >> pure MergeStrategy.three_way
  strategy_of TokenKind.squash = bump >> pure MergeStrategy.squash
  strategy_of k = fail Message.expected_strategy

  unfoldable pub parse_merge_stmt : Parses F64 MergeStmt
  parse_merge_stmt = do
    merge ← expect TokenKind.merge
    source ← parse_target_ref
    keyword ← expect TokenKind.into
    into ← parse_target_ref
    strategy ←
        check TokenKind.strategy (bump >> on_kind strategy_of) (pure MergeStrategy.fast_forward)
    pure (record { source = source; into = into; strategy = strategy })

  unfoldable pub parse_diff_stmt : Parses F64 DiffStmt
  parse_diff_stmt = do
    diff ← expect TokenKind.diff
    left ← parse_target_ref
    keyword ← expect TokenKind.and
    right ← parse_target_ref
    path ← check TokenKind.path (bump >> (expect_string >>= λ p. pure (some p))) (pure none)
    pure (record { left = left; right = right; path = path })

  unfoldable pub expect_eof_or_semicolon : Parses F64 (Unit {0})
  expect_eof_or_semicolon =
      check TokenKind.semicolon (bump >> pure tt) (pure tt)
      >> check TokenKind.eof (pure tt) (fail Message.unexpected_tokens)

  unfoldable pub can_start_statement : TokenKind F64 → Bool
  can_start_statement TokenKind.use_kw = true
  can_start_statement TokenKind.match_kw = true
  can_start_statement TokenKind.traverse = true
  can_start_statement TokenKind.where_kw = true
  can_start_statement TokenKind.select = true
  can_start_statement TokenKind.commit = true
  can_start_statement TokenKind.create = true
  can_start_statement TokenKind.delete = true
  can_start_statement TokenKind.checkout = true
  can_start_statement TokenKind.merge = true
  can_start_statement TokenKind.diff = true
  can_start_statement k = false

  -- The test for a query without a clause.
  unfoldable pub some_clause : QueryStatement F64 → Parses F64 (QueryStatement F64)
  some_clause stmt =
      if is_none stmt.context
        && is_none stmt.match_clause
        && is_none stmt.traversal
        && is_none stmt.where_clause
        && is_none stmt.select
      then fail Message.expected_query_clause
      else pure stmt

  -- A clause that may be left out.
  unfoldable pub optional : {A : Type 0} → TokenKind F64 → Parses F64 A → Parses F64 (Option A)
  optional kind clause = check kind (clause >>= λ c. pure (some c)) (pure none)

  -- The arms of `parse_statement`.
  unfoldable pub is_version : TokenKind F64 → Bool
  is_version TokenKind.commit = true
  is_version TokenKind.create = true
  is_version TokenKind.delete = true
  is_version TokenKind.checkout = true
  is_version TokenKind.merge = true
  is_version TokenKind.diff = true
  is_version k = false

  -- The parser is dropped.
  unfoldable pub value_of : {A : Type 0} → Parsed (A × Parser F64) → Parsed A
  value_of (ok (a, s)) = ok a
  value_of (err e) = err e
  value_of panicked = panicked
  value_of out_of_fuel = out_of_fuel

  -- `Parser::new` and a method. The tokens of a source are never none.
  unfoldable pub run : {A : Type 0} → Chars → List (Token F64) → (ℕ → Parses F64 A) → Parsed A
  run source [] method = panicked
  run source (t ∷ ts) method =
      value_of (method (1 + length ts) (record { source = source; current = t; rest = ts }))

module _ {F64 : Type 0} (neg_f64 : F64 → F64) where
  unfoldable pub parse_commit_stmt : ℕ → Parses F64 (CommitStmt F64)
  parse_commit_stmt rounds = do
    commit ← expect TokenKind.commit
    payload ← parse_map_literal rounds (parse_expression neg_f64 rounds)
    commit_loop rounds (record { payload = payload; message = none; parents = none })

  -- The arms of `parse_version_statement`.
  unfoldable pub version_of : ℕ → TokenKind F64 → Parses F64 (VersionStatement F64)
  version_of rounds TokenKind.commit =
      parse_commit_stmt rounds >>= λ c. pure (VersionStatement.commit c)
  version_of rounds TokenKind.create = parse_branch_stmt >>= λ b. pure (VersionStatement.branch b)
  version_of rounds TokenKind.delete = parse_branch_stmt >>= λ b. pure (VersionStatement.branch b)
  version_of rounds TokenKind.checkout =
      bump >> (parse_target_ref >>= λ t. pure (VersionStatement.checkout t))
  version_of rounds TokenKind.merge = parse_merge_stmt >>= λ m. pure (VersionStatement.merge m)
  version_of rounds TokenKind.diff = parse_diff_stmt >>= λ d. pure (VersionStatement.diff d)
  version_of rounds k = fail Message.expected_version_statement

  unfoldable pub parse_version_statement : ℕ → Parses F64 (VersionStatement F64)
  parse_version_statement rounds = on_kind (version_of rounds)

  unfoldable pub parse_projection_item : ℕ → Parses F64 (ProjectionItem F64)
  parse_projection_item rounds = do
    expression ← parse_expression neg_f64 rounds
    alias ← check TokenKind.as_kw (bump >> (expect_ident >>= λ name. pure (some name))) (pure none)
    pure (record { expression = expression; alias = alias })

  -- The loop of `parse_select_clause`.
  unfoldable pub items_loop : ℕ → List (ProjectionItem F64) → Parses F64 (List (ProjectionItem F64))
  items_loop zero items = no_round
  items_loop (suc rounds) items =
      check TokenKind.comma
        (bump
          >> (parse_projection_item rounds >>= λ item. items_loop rounds (items ++ (item ∷ []))))
        (pure items)

  unfoldable pub parse_select_clause : ℕ → Parses F64 (SelectClause F64)
  parse_select_clause rounds = do
    select ← expect TokenKind.select
    first ← parse_projection_item rounds
    items ← items_loop rounds (first ∷ [])
    pure (record { items = items })

  unfoldable pub parse_query_statement : ℕ → Parses F64 (QueryStatement F64)
  parse_query_statement rounds = do
    context ←
        optional TokenKind.use_kw (bump >> (parse_target_ref >>= λ t. pure (record { target = t })))
    match_clause ← optional TokenKind.match_kw (parse_match_clause neg_f64 rounds)
    traversal ← optional TokenKind.traverse parse_traversal_clause
    where_clause ← optional TokenKind.where_kw (bump >> parse_expression neg_f64 rounds)
    select ← optional TokenKind.select (parse_select_clause rounds)
    some_clause (record {
      context = context;
      match_clause = match_clause;
      traversal = traversal;
      where_clause = where_clause;
      select = select;
    })

  unfoldable pub parse_statement : ℕ → Parses F64 (Statement F64)
  parse_statement rounds = on_kind λ k.
      if is_version k
      then (parse_version_statement rounds >>= λ v. pure (Statement.version v))
      else (parse_query_statement rounds >>= λ q. pure (Statement.query q))

  -- The loop of `parse_script`.
  unfoldable pub script_loop : ℕ → List (Statement F64) → Parses F64 (List (Statement F64))
  script_loop zero stmts = no_round
  script_loop (suc rounds) stmts =
      let more = parse_statement (suc rounds) >>= λ stmt.
      check TokenKind.semicolon (bump >> pure tt) (pure tt)
      >> check TokenKind.eof (pure (stmts ++ (stmt ∷ []))) (
          on_kind λ k.
            if can_start_statement k
            then script_loop rounds (stmts ++ (stmt ∷ []))
            else fail Message.expected_statement) in
      check TokenKind.eof (pure stmts) more

  -- Of the rounds, one for each token is enough.
  unfoldable pub parse : (Chars → Option F64) → Chars → Parsed (Statement F64)
  parse parse_f64 source = Error.◌>>=◌ (tokenize parse_f64 source) λ tokens.
      run source tokens
        (λ rounds. parse_statement rounds >>= λ stmt. expect_eof_or_semicolon >> pure stmt)

  unfoldable pub parse_script : (Chars → Option F64) → Chars → Parsed (List (Statement F64))
  parse_script parse_f64 source =
      Error.◌>>=◌ (tokenize parse_f64 source)
        λ tokens. run source tokens (λ rounds. script_loop rounds [])
