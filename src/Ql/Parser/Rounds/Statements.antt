-- ===== src/Ql/Parser/Rounds/Statements.antt =====
-- Queries, statements and scripts are parsed in as many rounds as there are tokens.
use epochs.Common.{
  ℕ, zero, suc, ◌≤◌, ◌≡◌, refl, List, Bool, true, false, Option, none, some, arith, Bool-cases, inl,
  inr,
}
use epochs.Ql.Ast.{ProjectionItem, QueryStatement, Statement}
use epochs.Ql.Parser.Expressions.{parse_expression}
use epochs.Ql.Parser.Patterns.{parse_target_ref, parse_traversal_clause, parse_match_clause}
use epochs.Ql.Parser.Rounds.{parse_expression-Runs}
use epochs.Ql.Parser.Rounds.Clauses.{
  parse_target_ref-Runs, parse_traversal_clause-Runs, parse_match_clause-Runs,
}
use epochs.Ql.Parser.Statements.{
  is_none, expect_eof_or_semicolon, can_start_statement, parse_version_statement,
  parse_projection_item, items_loop, parse_select_clause, some_clause, optional,
  parse_query_statement, is_version, parse_statement, script_loop,
}
use epochs.Ql.Parser.Total.{
  Runs, any, is, pure-Runs, fail-Runs, Runs-zero, relax, widen, weaken, bind_strict, bind_first,
  bind, check-Runs, on_kind-Runs, if-Runs,
}
use epochs.Ql.Parser.Total.Tokens.{bump-Runs, expect-Runs, ident-Runs}
use epochs.Ql.Error.{Parsed, ok, err, panicked, out_of_fuel}
use epochs.Ql.Parser.{Parser, Parses, ◌>>=◌, ◌>>◌, bump, continue, pure, same, check, expect_ident}
use epochs.Ql.Token.{TokenKind, discriminant}
use epochs.Ql.Parser.Rounds.Versions.{version_of-Runs}

module _ {F64 : Type 0} where
  pub expect_eof_or_semicolon-Runs :
      {n : ℕ} → Runs false (any {F64 = F64}) n expect_eof_or_semicolon
  unfolding expect_eof_or_semicolon same discriminant
  expect_eof_or_semicolon-Runs =
      bind
        (check-Runs TokenKind.semicolon (relax (bind_first (bump-Runs refl) λ t. pure-Runs))
          pure-Runs)
        λ u. check-Runs TokenKind.eof pure-Runs (fail-Runs _)

  -- A clause that may be left out takes a token where it is there.
  some_then :
      {A B : Type 0} (r : Parsed (A × Parser F64)) (f : Option A → Parses F64 B)
      → continue (continue r λ c. pure (some c)) f ≡ continue r λ c. f (some c)
  some_then (ok x) f = refl
  some_then (err e) f = refl
  some_then panicked f = refl
  some_then out_of_fuel f = refl

  optional-bind :
      {A B : Type 0} {b : Bool} {n : ℕ} (kind : TokenKind F64) (clause : Parses F64 A)
      (f : Option A → Parses F64 B)
      → Runs b (is kind) n (clause >>= λ c. f (some c))
      → Runs b any n (f none)
      → Runs b any n (optional kind clause >>= f)
  unfolding optional check
  optional-bind {b = b} kind clause f r t = record {
    at = λ s g c lt. elim (Bool-cases (same s.current.kind kind)) [
      | inl e ↦ rw (e, some_then (clause s) f) (r.at s g e lt)
      | inr e ↦ rw e (t.at s g refl lt)
    ];
  }

  -- The same, where the clause takes a token wherever it returns.
  clause-bind :
      {A B : Type 0} {n : ℕ} (kind : TokenKind F64) (clause : Parses F64 A)
      (f : Option A → Parses F64 B)
      → Runs true (is kind) n clause
      → ((c : Option A) → Runs false any n (f c))
      → Runs false any n (optional kind clause >>= f)
  clause-bind kind clause f r k =
      optional-bind kind clause f (relax (bind_first r λ c. k (some c))) (k none)

  some_clause-Runs : {n : ℕ} (stmt : QueryStatement F64) → Runs false any n (some_clause stmt)
  unfolding some_clause
  some_clause-Runs stmt = if-Runs _ (fail-Runs _) pure-Runs

  no_clause-Runs :
      {n : ℕ}
      → Runs true (any {F64 = F64}) n (
          some_clause (record {
            context = none;
            match_clause = none;
            traversal = none;
            where_clause = none;
            select = none;
          }))
  unfolding some_clause is_none
  no_clause-Runs = fail-Runs _

module _ {F64 : Type 0} (neg_f64 : F64 → F64) where
  parse_projection_item-Runs :
      (m rounds : ℕ) → m ≤ rounds → Runs true any m (parse_projection_item neg_f64 rounds)
  unfolding parse_projection_item expect_ident same discriminant
  parse_projection_item-Runs m rounds le =
      bind_first (weaken m rounds le (parse_expression-Runs neg_f64 rounds)) λ expression.
        bind
          (check-Runs TokenKind.as_kw
            (relax
              (bind_first (bump-Runs refl) λ t. relax (bind_first ident-Runs λ name. pure-Runs)))
            pure-Runs)
          λ alias. pure-Runs

  items_loop-Runs :
      (m rounds : ℕ) (items : List (ProjectionItem F64))
      → m ≤ rounds
      → Runs false any m (items_loop neg_f64 rounds items)
  unfolding items_loop same discriminant
  items_loop-Runs zero rounds items le = Runs-zero
  items_loop-Runs (suc m) zero items le = absurd (omega arith)
  items_loop-Runs (suc m) (suc rounds) items le =
      check-Runs TokenKind.comma
        (relax (
          bind_strict (bump-Runs refl) λ t.
            bind (relax (parse_projection_item-Runs m rounds (omega arith)))
              λ item. items_loop-Runs m rounds _ (omega arith)))
        pure-Runs

  parse_select_clause-Runs :
      (m rounds : ℕ) → m ≤ rounds → Runs true any m (parse_select_clause neg_f64 rounds)
  unfolding parse_select_clause same discriminant
  parse_select_clause-Runs m rounds le = bind_first (expect-Runs TokenKind.select refl) λ select.
      bind (relax (parse_projection_item-Runs m rounds le))
        λ first. bind (items_loop-Runs m rounds _ le) λ items. pure-Runs

  -- A query has a clause, and so a token.
  parse_query_statement-Runs :
      (m rounds : ℕ) → m ≤ rounds → Runs true any m (parse_query_statement neg_f64 rounds)
  unfolding parse_query_statement same discriminant
  parse_query_statement-Runs m rounds le =
      let use_clause : Runs true (is TokenKind.use_kw) m
          (bump >> (parse_target_ref >>= λ t. pure (record { target = t }))) =
        bind_first (bump-Runs refl) λ t. relax (bind_first parse_target_ref-Runs λ r. pure-Runs) in
      let match_clause : Runs true (is TokenKind.match_kw) m (parse_match_clause neg_f64 rounds) =
        widen (parse_match_clause-Runs neg_f64 m rounds le) in
      let traversal : Runs true (is TokenKind.traverse) m parse_traversal_clause =
        widen parse_traversal_clause-Runs in
      let where_clause : Runs true (is TokenKind.where_kw) m
          (bump >> parse_expression neg_f64 rounds) =
        bind_first (bump-Runs refl)
          λ t. relax (weaken m rounds le (parse_expression-Runs neg_f64 rounds)) in
      let select : Runs true (is TokenKind.select) m (parse_select_clause neg_f64 rounds) =
        widen (parse_select_clause-Runs m rounds le) in
      optional-bind TokenKind.use_kw _ _
        (bind_first use_clause λ u. clause-bind TokenKind.match_kw _ _ match_clause λ p.
          clause-bind TokenKind.traverse _ _ traversal λ t.
            clause-bind TokenKind.where_kw _ _ where_clause
              λ w. clause-bind TokenKind.select _ _ select λ c. some_clause-Runs _)
        (optional-bind TokenKind.match_kw _ _
          (bind_first match_clause λ p. clause-bind TokenKind.traverse _ _ traversal λ t.
            clause-bind TokenKind.where_kw _ _ where_clause
              λ w. clause-bind TokenKind.select _ _ select λ c. some_clause-Runs _)
          (optional-bind TokenKind.traverse _ _
            (bind_first traversal λ t.
              clause-bind TokenKind.where_kw _ _ where_clause
                λ w. clause-bind TokenKind.select _ _ select λ c. some_clause-Runs _)
            (optional-bind TokenKind.where_kw _ _
              (bind_first where_clause
                λ w. clause-bind TokenKind.select _ _ select λ c. some_clause-Runs _)
              (optional-bind TokenKind.select _ _ (bind_first select λ c. some_clause-Runs _)
                no_clause-Runs))))

  pub parse_statement-Runs :
      (m rounds : ℕ) → m ≤ rounds → Runs true any m (parse_statement neg_f64 rounds)
  unfolding parse_statement parse_version_statement
  parse_statement-Runs m rounds le = on_kind-Runs λ k.
      if-Runs (is_version k)
        (widen (bind_first (on_kind-Runs (version_of-Runs neg_f64 m rounds le)) λ v. pure-Runs))
        (widen (bind_first (parse_query_statement-Runs m rounds le) λ q. pure-Runs))

  pub script_loop-Runs :
      (m rounds : ℕ) (stmts : List (Statement F64))
      → m ≤ rounds
      → Runs false any m (script_loop neg_f64 rounds stmts)
  unfolding script_loop same discriminant
  script_loop-Runs zero rounds stmts le = Runs-zero
  script_loop-Runs (suc m) zero stmts le = absurd (omega arith)
  script_loop-Runs (suc m) (suc rounds) stmts le = check-Runs TokenKind.eof pure-Runs (
      relax (
        bind_strict (parse_statement-Runs (suc m) (suc rounds) le) λ stmt.
          bind
            (check-Runs TokenKind.semicolon (relax (bind_first (bump-Runs refl) λ t. pure-Runs))
              pure-Runs)
            λ u. check-Runs TokenKind.eof pure-Runs (
              on_kind-Runs λ k.
                if-Runs (can_start_statement k) (widen (script_loop-Runs m rounds _ (omega arith)))
                  (fail-Runs _))))
