-- ===== src/Ql/Parser/Rounds/Versions.antt =====
-- Version statements are parsed in as many rounds as there are tokens.
use epochs.Common.{ℕ, zero, suc, ◌≤◌, refl, List, true, false, arith}
use epochs.Ql.Ast.{TargetRef, CommitStmt}
use epochs.Ql.Parser.Expressions.{parse_expression}
use epochs.Ql.Parser.Rounds.{parse_expression-Runs, parse_map_literal-Runs}
use epochs.Ql.Parser.Rounds.Clauses.{parse_target_ref-Runs}
use epochs.Ql.Parser.Statements.{
  parents_loop, parse_parents, commit_loop, branch_of, parse_branch_stmt, strategy_of,
  parse_merge_stmt, parse_diff_stmt, parse_commit_stmt, version_of,
}
use epochs.Ql.Parser.Total.{
  Runs, any, is, pure-Runs, fail-Runs, Runs-zero, relax, widen, bind_strict, bind_first, bind,
  check-Runs, on_kind-Runs,
}
use epochs.Ql.Parser.Total.Tokens.{bump-Runs, expect-Runs, string-Runs, name-Runs}
use epochs.Ql.Parser.{same}
use epochs.Ql.Token.{TokenKind, discriminant}

module _ {F64 : Type 0} where
  parents_loop-Runs :
      (m rounds : ℕ) (list : List TargetRef)
      → m ≤ rounds
      → Runs true (any {F64 = F64}) m (parents_loop rounds list)
  unfolding parents_loop same discriminant
  parents_loop-Runs zero rounds list le = Runs-zero
  parents_loop-Runs (suc m) zero list le = absurd (omega arith)
  parents_loop-Runs (suc m) (suc rounds) list le = bind_strict parse_target_ref-Runs λ target.
      check-Runs TokenKind.comma
        (relax
          (bind_first (bump-Runs refl) λ t. relax (parents_loop-Runs m rounds _ (omega arith))))
        pure-Runs

  parse_parents-Runs :
      (m rounds : ℕ) → m ≤ rounds → Runs true (any {F64 = F64}) m (parse_parents rounds)
  unfolding parse_parents same discriminant
  parse_parents-Runs m rounds le = bind_first (expect-Runs TokenKind.lbracket refl) λ open_bracket.
      bind (check-Runs TokenKind.rbracket pure-Runs (relax (parents_loop-Runs m rounds _ le)))
        λ list. relax (bind_first (expect-Runs TokenKind.rbracket refl) λ close_bracket. pure-Runs)

  commit_loop-Runs :
      (m rounds : ℕ) (stmt : CommitStmt F64)
      → m ≤ rounds
      → Runs false any m (commit_loop rounds stmt)
  unfolding commit_loop same discriminant
  commit_loop-Runs zero rounds stmt le = Runs-zero
  commit_loop-Runs (suc m) zero stmt le = absurd (omega arith)
  commit_loop-Runs (suc m) (suc rounds) stmt le =
      check-Runs TokenKind.message
        (relax (
          bind_strict (bump-Runs refl)
            λ t. bind (relax string-Runs) λ text. commit_loop-Runs m rounds _ (omega arith)))
        (check-Runs TokenKind.parents
          (relax (
            bind_strict (bump-Runs refl) λ t.
              bind (relax (parse_parents-Runs m rounds (omega arith)))
                λ list. commit_loop-Runs m rounds _ (omega arith)))
          pure-Runs)

  branch_of-Runs : {n : ℕ} (k : TokenKind F64) → Runs true (is k) n (branch_of k)
  unfolding branch_of same discriminant
  branch_of-Runs TokenKind.create = bind_first (bump-Runs refl) λ create.
      bind (relax (expect-Runs TokenKind.branch refl)) λ branch. bind (relax name-Runs) λ name.
        bind
          (check-Runs TokenKind.from
            (relax (
              bind_first (bump-Runs refl)
                λ t. relax (bind_first parse_target_ref-Runs λ r. pure-Runs)))
            pure-Runs)
          λ from. pure-Runs
  branch_of-Runs TokenKind.delete = bind_first (bump-Runs refl) λ delete.
      bind (relax (expect-Runs TokenKind.branch refl))
        λ branch. bind (relax name-Runs) λ name. pure-Runs
  branch_of-Runs _ = fail-Runs _

  parse_branch_stmt-Runs : {n : ℕ} → Runs true (any {F64 = F64}) n parse_branch_stmt
  unfolding parse_branch_stmt
  parse_branch_stmt-Runs = on_kind-Runs branch_of-Runs

  strategy_of-Runs : {n : ℕ} (k : TokenKind F64) → Runs true (is k) n (strategy_of k)
  unfolding strategy_of same discriminant
  strategy_of-Runs TokenKind.fast_forward = bind_first (bump-Runs refl) λ t. pure-Runs
  strategy_of-Runs TokenKind.three_way = bind_first (bump-Runs refl) λ t. pure-Runs
  strategy_of-Runs TokenKind.squash = bind_first (bump-Runs refl) λ t. pure-Runs
  strategy_of-Runs _ = fail-Runs _

  parse_merge_stmt-Runs : {n : ℕ} → Runs true (any {F64 = F64}) n parse_merge_stmt
  unfolding parse_merge_stmt same discriminant
  parse_merge_stmt-Runs = bind_first (expect-Runs TokenKind.merge refl) λ merge.
      bind (relax parse_target_ref-Runs) λ source.
        bind (relax (expect-Runs TokenKind.into refl)) λ keyword.
          bind (relax parse_target_ref-Runs) λ into.
            bind
              (check-Runs TokenKind.strategy
                (relax (bind_first (bump-Runs refl) λ t. relax (on_kind-Runs strategy_of-Runs)))
                pure-Runs)
              λ strategy. pure-Runs

  parse_diff_stmt-Runs : {n : ℕ} → Runs true (any {F64 = F64}) n parse_diff_stmt
  unfolding parse_diff_stmt same discriminant
  parse_diff_stmt-Runs = bind_first (expect-Runs TokenKind.diff refl) λ diff.
      bind (relax parse_target_ref-Runs) λ left.
        bind (relax (expect-Runs TokenKind.and refl)) λ keyword.
          bind (relax parse_target_ref-Runs) λ right.
            bind
              (check-Runs TokenKind.path
                (relax
                  (bind_first (bump-Runs refl) λ t. relax (bind_first string-Runs λ p. pure-Runs)))
                pure-Runs)
              λ path. pure-Runs

module _ {F64 : Type 0} (neg_f64 : F64 → F64) where
  parse_commit_stmt-Runs :
      (m rounds : ℕ) → m ≤ rounds → Runs true any m (parse_commit_stmt neg_f64 rounds)
  unfolding parse_commit_stmt same discriminant
  parse_commit_stmt-Runs m rounds le = bind_first (expect-Runs TokenKind.commit refl) λ commit.
      bind
        (relax (
          parse_map_literal-Runs rounds (parse_expression neg_f64 rounds)
            (parse_expression-Runs neg_f64 rounds) m rounds (omega arith) (omega arith)))
        λ payload. commit_loop-Runs m rounds _ le

  pub version_of-Runs :
      (m rounds : ℕ)
      → m ≤ rounds
      → (k : TokenKind F64) → Runs true (is k) m (version_of neg_f64 rounds k)
  unfolding version_of same discriminant
  version_of-Runs m rounds le TokenKind.commit =
      widen (bind_first (parse_commit_stmt-Runs m rounds le) λ c. pure-Runs)
  version_of-Runs m rounds le TokenKind.create =
      widen (bind_first parse_branch_stmt-Runs λ b. pure-Runs)
  version_of-Runs m rounds le TokenKind.delete =
      widen (bind_first parse_branch_stmt-Runs λ b. pure-Runs)
  version_of-Runs m rounds le TokenKind.checkout =
      bind_first (bump-Runs refl) λ t. bind (relax parse_target_ref-Runs) λ target. pure-Runs
  version_of-Runs m rounds le TokenKind.merge =
      widen (bind_first parse_merge_stmt-Runs λ s. pure-Runs)
  version_of-Runs m rounds le TokenKind.diff =
      widen (bind_first parse_diff_stmt-Runs λ d. pure-Runs)
  version_of-Runs m rounds le _ = fail-Runs _
