-- ===== src/Ql/Parser/Rounds.antt =====
-- Expressions are parsed in as many rounds as there are tokens.
pub mod Clauses
pub mod Versions
pub mod Statements
pub mod Sources
use epochs.Common.{ℕ, zero, suc, ◌+◌, ◌≤◌, ◌<◌, ◌≡◌, refl, Bool, true, false, arith}
use epochs.Ql.Ast.{Expression, Entries, BinaryOp}
use epochs.Ql.Parser.Expressions.{
  map_loop, parse_map_literal, negative_of, primary_of, parse_primary, postfix_loop, parse_postfix,
  operand, equality_loop, parse_equality, and_loop, parse_and, or_loop, parse_or, parse_expression,
}
use epochs.Ql.Parser.Total.{
  Runs, any, is, pure-Runs, fail-Runs, Runs-zero, relax, widen, weaken, bind_strict, bind_first,
  bind, check-Runs, on_kind-Runs,
}
use epochs.Ql.Parser.Total.Tokens.{bump-Runs, expect-Runs, ident-Runs, looks-Runs}
use epochs.Ql.Parser.{Parses, same, expect_ident, looks_like_ident}
use epochs.Ql.Token.{TokenKind, discriminant}

-- The parser of an expression one level deeper, where fewer than `n` tokens follow the current.
module _ {F64 : Type 0} (n : ℕ) (sub : Parses F64 (Expression F64))
    (deeper : Runs true any n sub) where
  map_loop-Runs :
      (m rounds : ℕ) (entries : Entries F64)
      → m ≤ suc n
      → m ≤ rounds
      → Runs true any m (map_loop rounds sub entries)
  unfolding map_loop same discriminant
  map_loop-Runs zero rounds entries le le' = Runs-zero
  map_loop-Runs (suc m) zero entries le le' = absurd (omega arith)
  map_loop-Runs (suc m) (suc rounds) entries le le' = bind_strict ident-Runs λ key.
      bind (relax (expect-Runs TokenKind.colon refl)) λ colon.
        bind (relax (weaken m n (omega arith) deeper)) λ value.
          check-Runs TokenKind.comma
            (relax (
              bind_first (bump-Runs refl)
                λ t. relax (map_loop-Runs m rounds _ (omega arith) (omega arith))))
            pure-Runs

  pub parse_map_literal-Runs :
      (m rounds : ℕ)
      → m ≤ suc (suc n)
      → m ≤ suc rounds
      → Runs true any m (parse_map_literal rounds sub)
  unfolding parse_map_literal same discriminant
  parse_map_literal-Runs zero rounds le le' = Runs-zero
  parse_map_literal-Runs (suc m) rounds le le' =
      bind_strict (expect-Runs TokenKind.lbrace refl) λ open_brace.
        bind
          (check-Runs TokenKind.rbrace pure-Runs
            (relax (map_loop-Runs m rounds Entries.empty (omega arith) (omega arith))))
          λ entries. relax (bind_first (expect-Runs TokenKind.rbrace refl) λ close_brace. pure-Runs)

  module _ (neg_f64 : F64 → F64) where
    negative_of-Runs : (m : ℕ) (k : TokenKind F64) → Runs true (is k) m (negative_of neg_f64 k)
    unfolding negative_of same discriminant
    negative_of-Runs m (TokenKind.int x) = bind_first (bump-Runs refl) λ t. pure-Runs
    negative_of-Runs m (TokenKind.float x) = bind_first (bump-Runs refl) λ t. pure-Runs
    negative_of-Runs m _ = fail-Runs _

    primary_of-Runs :
        (m rounds : ℕ)
        → m ≤ n
        → m ≤ rounds
        → (k : TokenKind F64) → Runs true (is k) (suc m) (primary_of neg_f64 rounds sub k)
    unfolding primary_of same discriminant expect_ident
    primary_of-Runs m rounds le le' TokenKind.null = bind_first (bump-Runs refl) λ t. pure-Runs
    primary_of-Runs m rounds le le' TokenKind.true_kw = bind_first (bump-Runs refl) λ t. pure-Runs
    primary_of-Runs m rounds le le' TokenKind.false_kw = bind_first (bump-Runs refl) λ t. pure-Runs
    primary_of-Runs m rounds le le' (TokenKind.int x) = bind_first (bump-Runs refl) λ t. pure-Runs
    primary_of-Runs m rounds le le' (TokenKind.float x) = bind_first (bump-Runs refl) λ t. pure-Runs
    primary_of-Runs m rounds le le' (TokenKind.string x) =
        bind_first (bump-Runs refl) λ t. pure-Runs
    primary_of-Runs m rounds le le' TokenKind.lbrace = widen (
        bind_first (parse_map_literal-Runs (suc m) rounds (omega arith) (omega arith))
          λ entries. pure-Runs)
    primary_of-Runs m rounds le le' TokenKind.lparen = bind_strict (bump-Runs refl) λ t.
        bind (relax (weaken m n le deeper))
          λ expr. relax (bind_first (expect-Runs TokenKind.rparen refl) λ close_paren. pure-Runs)
    primary_of-Runs m rounds le le' TokenKind.minus =
        bind_first (bump-Runs refl) λ t. relax (on_kind-Runs (negative_of-Runs (suc m)))
    primary_of-Runs m rounds le le' _ =
        widen (looks-Runs (bind_first ident-Runs λ name. pure-Runs) (fail-Runs _))

    parse_primary-Runs :
        (m rounds : ℕ)
        → m ≤ suc n
        → m ≤ suc rounds
        → Runs true any m (parse_primary neg_f64 rounds sub)
    unfolding parse_primary
    parse_primary-Runs zero rounds le le' = Runs-zero
    parse_primary-Runs (suc m) rounds le le' =
        on_kind-Runs (primary_of-Runs m rounds (omega arith) (omega arith))

    postfix_loop-Runs :
        (m rounds : ℕ) (expr : Expression F64)
        → m ≤ rounds
        → Runs false any m (postfix_loop neg_f64 rounds expr)
    unfolding postfix_loop same discriminant
    postfix_loop-Runs zero rounds expr le = Runs-zero
    postfix_loop-Runs (suc m) zero expr le = absurd (omega arith)
    postfix_loop-Runs (suc m) (suc rounds) expr le =
        check-Runs TokenKind.dot
          (relax (
            bind_strict (bump-Runs refl)
              λ t. bind (relax ident-Runs) λ property. postfix_loop-Runs m rounds _ (omega arith)))
          pure-Runs

    parse_postfix-Runs :
        (m rounds : ℕ) → m ≤ suc n → m ≤ rounds → Runs true any m (parse_postfix neg_f64 rounds sub)
    unfolding parse_postfix
    parse_postfix-Runs m rounds le le' =
        bind_first (parse_primary-Runs m rounds le (omega arith))
          λ expr. postfix_loop-Runs m rounds expr le'

    -- An operator and its right operand.
    operand-Runs :
        (m : ℕ) (kind : TokenKind F64) (parse_right : Parses F64 (Expression F64))
        (next : Expression F64 → Parses F64 (Expression F64)) (left : Expression F64)
        (op : BinaryOp)
        → same TokenKind.eof kind ≡ false
        → Runs true any m parse_right
        → ((e : Expression F64) → Runs false any m (next e))
        → Runs false (is kind) (suc m) (operand neg_f64 parse_right next left op)
    unfolding operand
    operand-Runs m kind parse_right next left op no_eof r k =
        relax (bind_strict (bump-Runs no_eof) λ t. relax (bind_first r λ right. k _))

    equality_loop-Runs :
        (m rounds : ℕ) (left : Expression F64)
        → m ≤ suc n
        → m ≤ rounds
        → Runs false any m (equality_loop neg_f64 rounds sub left)
    unfolding equality_loop same discriminant
    equality_loop-Runs zero rounds left le le' = Runs-zero
    equality_loop-Runs (suc m) zero left le le' = absurd (omega arith)
    equality_loop-Runs (suc m) (suc rounds) left le le' =
        let more =
          λ (kind : TokenKind F64) (op : BinaryOp) (no_eof : same TokenKind.eof kind ≡ false).
            operand-Runs m kind (parse_postfix neg_f64 rounds sub)
              (equality_loop neg_f64 rounds sub) left op no_eof
              (parse_postfix-Runs m rounds (omega arith) (omega arith))
              (λ e. equality_loop-Runs m rounds e (omega arith) (omega arith)) in
        check-Runs TokenKind.eq (more TokenKind.eq BinaryOp.eq refl)
          (check-Runs TokenKind.neq (more TokenKind.neq BinaryOp.neq refl) pure-Runs)

    parse_equality-Runs :
        (m rounds : ℕ)
        → m ≤ suc n
        → m ≤ rounds
        → Runs true any m (parse_equality neg_f64 rounds sub)
    unfolding parse_equality
    parse_equality-Runs m rounds le le' =
        bind_first (parse_postfix-Runs m rounds le le')
          λ left. equality_loop-Runs m rounds left le le'

    and_loop-Runs :
        (m rounds : ℕ) (left : Expression F64)
        → m ≤ suc n
        → m ≤ rounds
        → Runs false any m (and_loop neg_f64 rounds sub left)
    unfolding and_loop same discriminant
    and_loop-Runs zero rounds left le le' = Runs-zero
    and_loop-Runs (suc m) zero left le le' = absurd (omega arith)
    and_loop-Runs (suc m) (suc rounds) left le le' =
        check-Runs TokenKind.and
          (operand-Runs m TokenKind.and (parse_equality neg_f64 rounds sub)
            (and_loop neg_f64 rounds sub) left BinaryOp.and refl
            (parse_equality-Runs m rounds (omega arith) (omega arith))
            (λ e. and_loop-Runs m rounds e (omega arith) (omega arith)))
          pure-Runs

    parse_and-Runs :
        (m rounds : ℕ) → m ≤ suc n → m ≤ rounds → Runs true any m (parse_and neg_f64 rounds sub)
    unfolding parse_and
    parse_and-Runs m rounds le le' =
        bind_first (parse_equality-Runs m rounds le le') λ left. and_loop-Runs m rounds left le le'

    or_loop-Runs :
        (m rounds : ℕ) (left : Expression F64)
        → m ≤ suc n
        → m ≤ rounds
        → Runs false any m (or_loop neg_f64 rounds sub left)
    unfolding or_loop same discriminant
    or_loop-Runs zero rounds left le le' = Runs-zero
    or_loop-Runs (suc m) zero left le le' = absurd (omega arith)
    or_loop-Runs (suc m) (suc rounds) left le le' =
        check-Runs TokenKind.or
          (operand-Runs m TokenKind.or (parse_and neg_f64 rounds sub) (or_loop neg_f64 rounds sub)
            left BinaryOp.or refl (parse_and-Runs m rounds (omega arith) (omega arith))
            (λ e. or_loop-Runs m rounds e (omega arith) (omega arith)))
          pure-Runs

    pub parse_or-Runs :
        (m rounds : ℕ) → m ≤ suc n → m ≤ rounds → Runs true any m (parse_or neg_f64 rounds sub)
    unfolding parse_or
    parse_or-Runs m rounds le le' =
        bind_first (parse_and-Runs m rounds le le') λ left. or_loop-Runs m rounds left le le'

-- With more rounds than tokens that follow, `parse_expression` returns.
pub parse_expression-Runs :
    {F64 : Type 0} (neg_f64 : F64 → F64) (rounds : ℕ)
    → Runs true any rounds (parse_expression neg_f64 rounds)
unfolding parse_expression
parse_expression-Runs neg_f64 zero = Runs-zero
parse_expression-Runs neg_f64 (suc rounds) =
    parse_or-Runs rounds (parse_expression neg_f64 rounds) (parse_expression-Runs neg_f64 rounds)
      neg_f64 (suc rounds) (suc rounds) (omega arith) (omega arith)
