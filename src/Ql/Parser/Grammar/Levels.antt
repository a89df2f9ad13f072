-- ===== src/Ql/Parser/Grammar/Levels.antt =====
-- Each level of the grammar of expressions is parsed by its method.
use epochs.Common.{
  ℕ, zero, suc, ◌≤◌, ◌<◌, ◌≡◌, refl, List, [], ◌∷◌, ◌++◌, arith, length, length-append,
}
use epochs.Ql.Ast.{Expression}
use epochs.Ql.Chars.{Chars}
use epochs.Ql.Error.{ok}
use epochs.Ql.Parser.Expressions.{
  postfix_loop, parse_postfix, operand, equality_loop, parse_equality, and_loop, parse_and, or_loop,
  parse_or, parse_expression,
}
use epochs.Ql.Parser.Grammar.Loops.{
  Loops, Loops-step, Loops-stop, eq-ends, neq-ends, neq-other, and-ends, or-ends,
}
use epochs.Ql.Parser.Grammar.Primaries.{
  EndsPostfix, EndsEquality, EndsAnd, EndsOr, ReadsOr, parse_primary-at,
}
use epochs.Ql.Parser.Grammar.Reads.{at, bump-at, seq, check-yes, check-no, check-other, ident-at}
use epochs.Ql.Parser.Grammar.{Postfix, Equality, And, Or}
use epochs.Ql.Parser.{Parses}
use epochs.Ql.Token.{TokenKind, Token}

module _ {F64 : Type 0} (source : Chars) where
  module _ (neg_f64 : F64 → F64) (n : ℕ) (sub : Parses F64 (Expression F64))
      (deeper : ReadsOr neg_f64 source n sub) where
    parse_postfix-Loops :
        (rounds : ℕ) (us : List (Token F64)) (e : Expression F64) (t : Token F64)
        (ts : List (Token F64))
        → Postfix neg_f64 source us e
        → length us < rounds
        → length us ≤ suc n
        → Loops source rounds (parse_postfix neg_f64 rounds sub) (postfix_loop neg_f64) us e t ts
    unfolding parse_postfix
    parse_postfix-Loops rounds us e t ts (Postfix.primary p) lt le = (
      rounds,
      omega arith,
      seq _ (parse_primary-at neg_f64 source n sub deeper rounds us e t ts p (omega arith) le) refl,
    )
    parse_postfix-Loops rounds _ _ t ts (Postfix.access us d x {e = a} {property = name} p e w) lt
          le =
        let whole = length-append us (d ∷ x ∷ []) in
        Loops-step source rounds (parse_postfix neg_f64 rounds sub) (postfix_loop neg_f64) us d
          (x ∷ []) a _ t ts lt
          (parse_postfix-Loops rounds us a d (x ∷ t ∷ ts) p (omega arith) (omega arith))
          λ l less.
            unfold postfix_loop in
            check-yes _ _ TokenKind.dot source d (x ∷ []) t ts e (
              seq _ (bump-at source d (x ∷ []) t ts)
                (seq _ (ident-at source name x [] t ts w) refl))

    parse_postfix-at :
        (rounds : ℕ) (us : List (Token F64)) (e : Expression F64) (t : Token F64)
        (ts : List (Token F64))
        → Postfix neg_f64 source us e
        → EndsPostfix t.kind
        → length us < rounds
        → length us ≤ suc n
        → parse_postfix neg_f64 rounds sub (at source us t ts) ≡ ok (e, at source [] t ts)
    parse_postfix-at rounds us e t ts p ends lt le =
        Loops-stop source rounds (parse_postfix neg_f64 rounds sub) (postfix_loop neg_f64) us e t ts
          lt (parse_postfix-Loops rounds us e t ts p lt le)
          λ l. unfold postfix_loop in check-no _ _ TokenKind.dot source t ts ends refl

    parse_equality-Loops :
        (rounds : ℕ) (us : List (Token F64)) (e : Expression F64) (t : Token F64)
        (ts : List (Token F64))
        → Equality neg_f64 source us e
        → EndsPostfix t.kind
        → length us < rounds
        → length us ≤ suc n
        → Loops source rounds
            (parse_equality neg_f64 rounds sub)
            (λ l. equality_loop neg_f64 l sub)
            us
            e
            t
            ts
    unfolding parse_equality
    parse_equality-Loops rounds us e t ts (Equality.postfix p) ends lt le =
        (rounds, omega arith, seq _ (parse_postfix-at rounds us e t ts p ends lt le) refl)
    parse_equality-Loops rounds _ _ t ts (Equality.equal us vs o {a = a} {b = b} p e q) ends lt le =
        let whole = length-append us (o ∷ vs) in
        Loops-step source rounds (parse_equality neg_f64 rounds sub)
          (λ l. equality_loop neg_f64 l sub) us o vs a _ t ts lt
          (parse_equality-Loops rounds us a o (vs ++ (t ∷ ts)) p (eq-ends o.kind e) (omega arith)
            (omega arith))
          λ l less.
            unfold equality_loop operand in
            check-yes _ _ TokenKind.eq source o vs t ts e (
              seq _ (bump-at source o vs t ts)
                (seq _ (parse_postfix-at l vs b t ts q ends (omega arith) (omega arith)) refl))
    parse_equality-Loops rounds _ _ t ts (Equality.unequal us vs o {a = a} {b = b} p e q) ends lt
          le =
        let whole = length-append us (o ∷ vs) in
        Loops-step source rounds (parse_equality neg_f64 rounds sub)
          (λ l. equality_loop neg_f64 l sub) us o vs a _ t ts lt
          (parse_equality-Loops rounds us a o (vs ++ (t ∷ ts)) p (neq-ends o.kind e) (omega arith)
            (omega arith))
          λ l less.
            unfold equality_loop operand in
            check-other _ _ TokenKind.eq (at source (o ∷ vs) t ts) (unfold at in neq-other o.kind e)
              (check-yes _ _ TokenKind.neq source o vs t ts e (
                seq _ (bump-at source o vs t ts)
                  (seq _ (parse_postfix-at l vs b t ts q ends (omega arith) (omega arith)) refl)))

    parse_equality-at :
        (rounds : ℕ) (us : List (Token F64)) (e : Expression F64) (t : Token F64)
        (ts : List (Token F64))
        → Equality neg_f64 source us e
        → EndsEquality t.kind
        → length us < rounds
        → length us ≤ suc n
        → parse_equality neg_f64 rounds sub (at source us t ts) ≡ ok (e, at source [] t ts)
    parse_equality-at rounds us e t ts p (no_eq, no_neq, ends) lt le =
        Loops-stop source rounds (parse_equality neg_f64 rounds sub)
          (λ l. equality_loop neg_f64 l sub) us e t ts lt
          (parse_equality-Loops rounds us e t ts p ends lt le)
          λ l.
            unfold equality_loop in
            check-no _ _ TokenKind.eq source t ts no_eq
              (check-no _ _ TokenKind.neq source t ts no_neq refl)

    parse_and-Loops :
        (rounds : ℕ) (us : List (Token F64)) (e : Expression F64) (t : Token F64)
        (ts : List (Token F64))
        → And neg_f64 source us e
        → EndsEquality t.kind
        → length us < rounds
        → length us ≤ suc n
        → Loops source rounds (parse_and neg_f64 rounds sub) (λ l. and_loop neg_f64 l sub) us e t ts
    unfolding parse_and
    parse_and-Loops rounds us e t ts (And.equality p) ends lt le =
        (rounds, omega arith, seq _ (parse_equality-at rounds us e t ts p ends lt le) refl)
    parse_and-Loops rounds _ _ t ts (And.both us vs o {a = a} {b = b} p e q) ends lt le =
        let whole = length-append us (o ∷ vs) in
        Loops-step source rounds (parse_and neg_f64 rounds sub) (λ l. and_loop neg_f64 l sub) us o
          vs a _ t ts lt
          (parse_and-Loops rounds us a o (vs ++ (t ∷ ts)) p (and-ends o.kind e) (omega arith)
            (omega arith))
          λ l less.
            unfold and_loop operand in
            check-yes _ _ TokenKind.and source o vs t ts e (
              seq _ (bump-at source o vs t ts)
                (seq _ (parse_equality-at l vs b t ts q ends (omega arith) (omega arith)) refl))

    parse_and-at :
        (rounds : ℕ) (us : List (Token F64)) (e : Expression F64) (t : Token F64)
        (ts : List (Token F64))
        → And neg_f64 source us e
        → EndsAnd t.kind
        → length us < rounds
        → length us ≤ suc n
        → parse_and neg_f64 rounds sub (at source us t ts) ≡ ok (e, at source [] t ts)
    parse_and-at rounds us e t ts p (no_and, ends) lt le =
        Loops-stop source rounds (parse_and neg_f64 rounds sub) (λ l. and_loop neg_f64 l sub) us e t
          ts lt (parse_and-Loops rounds us e t ts p ends lt le)
          λ l. unfold and_loop in check-no _ _ TokenKind.and source t ts no_and refl

    parse_or-Loops :
        (rounds : ℕ) (us : List (Token F64)) (e : Expression F64) (t : Token F64)
        (ts : List (Token F64))
        → Or neg_f64 source us e
        → EndsAnd t.kind
        → length us < rounds
        → length us ≤ suc n
        → Loops source rounds (parse_or neg_f64 rounds sub) (λ l. or_loop neg_f64 l sub) us e t ts
    unfolding parse_or
    parse_or-Loops rounds us e t ts (Or.conjunction p) ends lt le =
        (rounds, omega arith, seq _ (parse_and-at rounds us e t ts p ends lt le) refl)
    parse_or-Loops rounds _ _ t ts (Or.either us vs o {a = a} {b = b} p e q) ends lt le =
        let whole = length-append us (o ∷ vs) in
        Loops-step source rounds (parse_or neg_f64 rounds sub) (λ l. or_loop neg_f64 l sub) us o vs
          a _ t ts lt
          (parse_or-Loops rounds us a o (vs ++ (t ∷ ts)) p (or-ends o.kind e) (omega arith)
            (omega arith))
          λ l less.
            unfold or_loop operand in
            check-yes _ _ TokenKind.or source o vs t ts e (
              seq _ (bump-at source o vs t ts)
                (seq _ (parse_and-at l vs b t ts q ends (omega arith) (omega arith)) refl))

    pub parse_or-at :
        (rounds : ℕ) (us : List (Token F64)) (e : Expression F64) (t : Token F64)
        (ts : List (Token F64))
        → Or neg_f64 source us e
        → EndsOr t.kind
        → length us < rounds
        → length us ≤ suc n
        → parse_or neg_f64 rounds sub (at source us t ts) ≡ ok (e, at source [] t ts)
    parse_or-at rounds us e t ts p (no_or, ends) lt le =
        Loops-stop source rounds (parse_or neg_f64 rounds sub) (λ l. or_loop neg_f64 l sub) us e t
          ts lt (parse_or-Loops rounds us e t ts p ends lt le)
          λ l. unfold or_loop in check-no _ _ TokenKind.or source t ts no_or refl

-- An expression of the grammar is parsed as what it stands for, and the parser stands on the token
-- behind it then, where that token is none that goes on with an expression and there are more
-- rounds than the expression has tokens. In the grammar, `OR` binds less than `AND`, `AND` less than
-- `=` and `!=`, and these less than `.`, and the operators of a level are grouped to the left.
pub parse_expression-at :
    {F64 : Type 0} (neg_f64 : F64 → F64) (source : Chars) (rounds : ℕ) (us : List (Token F64))
    (e : Expression F64) (t : Token F64) (ts : List (Token F64))
    → Or neg_f64 source us e
    → EndsOr t.kind
    → length us < rounds
    → parse_expression neg_f64 rounds (at source us t ts) ≡ ok (e, at source [] t ts)
unfolding parse_expression
parse_expression-at neg_f64 source zero us e t ts or ends lt = absurd (omega arith)
parse_expression-at neg_f64 source (suc rounds) us e t ts or ends lt =
    parse_or-at source neg_f64 rounds (parse_expression neg_f64 rounds)
      (parse_expression-at neg_f64 source rounds) (suc rounds) us e t ts or ends lt (omega arith)
