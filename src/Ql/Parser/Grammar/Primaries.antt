-- ===== src/Ql/Parser/Grammar/Primaries.antt =====
-- Primary expressions and map literals are parsed as the grammar says.
use epochs.Common.{
  ℕ, zero, suc, ◌≤◌, ◌<◌, ◌≡◌, refl, ap, ◌∙◌, List, [], ◌∷◌, ◌++◌, true, false, none, some, arith,
  length, length-append,
}
use epochs.Ql.Ast.{Expression, Entries}
use epochs.Ql.Chars.{Chars}
use epochs.Ql.Error.{ok, Message}
use epochs.Ql.Parser.Expressions.{
  map_loop, parse_map_literal, negative_of, primary_of, parse_primary,
}
use epochs.Ql.Parser.Grammar.Reads.{
  at, before, bump-at, seq, check-yes, check-no, check-other, on_kind-at, expect-at, is_word-at,
  ident-at,
}
use epochs.Ql.Parser.Grammar.{literal, Primary, Pairs, Or}
use epochs.Ql.Parser.{Parses, ◌>>=◌, ◌>>◌, pure, same, bump, expect_ident, fail, looks_like_ident}
use epochs.Ql.Token.{TokenKind, Token, discriminant, is_word}

module _ {F64 : Type 0} where
  -- The token does not go on with an expression of the level.
  abbrev pub EndsPostfix : TokenKind F64 → Type 0
  EndsPostfix k = same k TokenKind.dot ≡ false

  abbrev pub EndsEquality : TokenKind F64 → Type 0
  EndsEquality k = (same k TokenKind.eq ≡ false) × (same k TokenKind.neq ≡ false) × EndsPostfix k

  abbrev pub EndsAnd : TokenKind F64 → Type 0
  EndsAnd k = (same k TokenKind.and ≡ false) × EndsEquality k

  abbrev pub EndsOr : TokenKind F64 → Type 0
  EndsOr k = (same k TokenKind.or ≡ false) × EndsAnd k

  module _ (neg_f64 : F64 → F64) (source : Chars) where
    -- The method reads every expression of fewer than `n` tokens.
    abbrev pub ReadsOr : ℕ → Parses F64 (Expression F64) → Type 0
    ReadsOr n sub =
        (us : List (Token F64)) (e : Expression F64) (t : Token F64) (ts : List (Token F64))
        → Or neg_f64 source us e
        → EndsOr t.kind
        → length us < n
        → sub (at source us t ts) ≡ ok (e, at source [] t ts)

    module _ (n : ℕ) (sub : Parses F64 (Expression F64)) (deeper : ReadsOr n sub) where
      some-injective : {a b : Expression F64} → some a ≡ some b → a ≡ b
      some-injective e = cc

      literal-primary :
          (rounds : ℕ) (k : TokenKind F64) (e : Expression F64)
          → literal k ≡ some e
          → primary_of neg_f64 rounds sub k ≡ (bump >> pure e)
      unfolding literal primary_of
      literal-primary rounds TokenKind.null e is = ap (λ e. bump >> pure e) (some-injective is)
      literal-primary rounds TokenKind.true_kw e is = ap (λ e. bump >> pure e) (some-injective is)
      literal-primary rounds TokenKind.false_kw e is = ap (λ e. bump >> pure e) (some-injective is)
      literal-primary rounds (TokenKind.int n) e is = ap (λ e. bump >> pure e) (some-injective is)
      literal-primary rounds (TokenKind.float x) e is = ap (λ e. bump >> pure e) (some-injective is)
      literal-primary rounds (TokenKind.string s) e is =
          ap (λ e. bump >> pure e) (some-injective is)
      literal-primary rounds _ e is = cc

      name-primary :
          (rounds : ℕ) (k : TokenKind F64)
          → literal k ≡ none
          → is_word k ≡ true
          → primary_of neg_f64 rounds sub k
            ≡ looks_like_ident
                (expect_ident >>= λ name. pure (Expression.variable name))
                (fail Message.expected_expression)
      unfolding literal primary_of is_word
      name-primary rounds TokenKind.null is word = cc
      name-primary rounds TokenKind.true_kw is word = cc
      name-primary rounds TokenKind.false_kw is word = cc
      name-primary rounds (TokenKind.int n) is word = cc
      name-primary rounds (TokenKind.float x) is word = cc
      name-primary rounds (TokenKind.string s) is word = cc
      name-primary rounds TokenKind.lparen is word = cc
      name-primary rounds TokenKind.lbrace is word = cc
      name-primary rounds TokenKind.minus is word = cc
      name-primary rounds _ is word = refl

      at_rbrace :
          (k : TokenKind F64) → k ≡ TokenKind.rbrace → EndsOr k × (same k TokenKind.comma ≡ false)
      unfolding same discriminant
      at_rbrace k e = rw e ((refl, (refl, (refl, refl, refl))), refl)

      at_comma : (k : TokenKind F64) → k ≡ TokenKind.comma → EndsOr k
      unfolding same discriminant
      at_comma k e = rw e (refl, (refl, (refl, refl, refl)))

      at_rparen : (k : TokenKind F64) → k ≡ TokenKind.rparen → EndsOr k
      unfolding same discriminant
      at_rparen k e = rw e (refl, (refl, (refl, refl, refl)))

      map_loop-at :
          (rounds : ℕ) (entries done : Entries F64) (us : List (Token F64)) (t : Token F64)
          (ts : List (Token F64))
          → Pairs neg_f64 source entries us done
          → t.kind ≡ TokenKind.rbrace
          → length us < rounds
          → length us ≤ n
          → map_loop rounds sub entries (at source us t ts) ≡ ok (done, at source [] t ts)
      unfolding map_loop
      map_loop-at zero entries done us t ts p stop lt le = absurd (omega arith)
      map_loop-at (suc rounds) entries _ _ t ts
            (Pairs.last {k = k} {c = c} key {us = us} value w e or) stop lt le =
          let (ends, no_comma) = at_rbrace t.kind stop in
          seq _ (ident-at source key k (c ∷ us) t ts w) (
            seq _ (expect-at TokenKind.colon source c us t ts e) (
              seq _ (deeper us value t ts or ends (omega arith))
                (check-no _ _ TokenKind.comma source t ts no_comma refl)))
      map_loop-at (suc rounds) entries done _ t ts
            (Pairs.more {k = k} {c = c} comma key us vs value w e or e' p) stop lt le =
          let shorter = length-append us (comma ∷ vs) in
          seq _ (ident-at source key k (c ∷ (us ++ (comma ∷ vs))) t ts w) (
            seq _ (expect-at TokenKind.colon source c (us ++ (comma ∷ vs)) t ts e) (
              seq _
                (before sub source value us comma vs t ts
                  (deeper us value comma _ or (at_comma comma.kind e') (omega arith)))
                (check-yes _ _ TokenKind.comma source comma vs t ts e' (
                  seq _ (bump-at source comma vs t ts)
                    (map_loop-at rounds _ done vs t ts p stop (omega arith) (omega arith))))))

      word-no_rbrace : (k : TokenKind F64) → is_word k ≡ true → same k TokenKind.rbrace ≡ false
      unfolding is_word same discriminant
      word-no_rbrace TokenKind.rbrace w = cc
      word-no_rbrace _ w = refl

      Pairs-no_rbrace :
          (entries done : Entries F64) (us vs : List (Token F64)) (t : Token F64)
          (ts : List (Token F64))
          → Pairs neg_f64 source entries us done
          → same (at source (us ++ vs) t ts).current.kind TokenKind.rbrace ≡ false
      unfolding at
      Pairs-no_rbrace entries _ _ vs t ts (Pairs.last {k = k} {c = c} key value w e or) =
          word-no_rbrace k.kind w.word
      Pairs-no_rbrace entries done _ vs t ts
            (Pairs.more {k = k} {c = c} comma key us _ value w e or e' p) =
          word-no_rbrace k.kind w.word

      parse_map_literal-at :
          (rounds : ℕ) (l r : Token F64) (us : List (Token F64)) (t : Token F64)
          (ts : List (Token F64)) (done : Entries F64)
          → l.kind ≡ TokenKind.lbrace
          → Pairs neg_f64 source Entries.empty us done
          → r.kind ≡ TokenKind.rbrace
          → length us < rounds
          → length us ≤ n
          → parse_map_literal rounds sub (at source (l ∷ (us ++ (r ∷ []))) t ts)
            ≡ ok (done, at source [] t ts)
      unfolding parse_map_literal
      parse_map_literal-at rounds l r us t ts done e p e' lt le =
          seq _ (expect-at TokenKind.lbrace source l (us ++ (r ∷ [])) t ts e) (
            seq _
              (check-other _ _ TokenKind.rbrace _ (Pairs-no_rbrace _ _ us (r ∷ []) t ts p) (
                before (map_loop rounds sub Entries.empty) source done us r [] t ts
                  (map_loop-at rounds _ done us r (t ∷ ts) p e' lt le)))
              (seq _ (expect-at TokenKind.rbrace source r [] t ts e') refl))

      pub parse_primary-at :
          (rounds : ℕ) (us : List (Token F64)) (e : Expression F64) (t : Token F64)
          (ts : List (Token F64))
          → Primary neg_f64 source us e
          → length us ≤ rounds
          → length us ≤ suc n
          → parse_primary neg_f64 rounds sub (at source us t ts) ≡ ok (e, at source [] t ts)
      unfolding parse_primary expect_ident
      parse_primary-at rounds _ e t ts (Primary.atom {t = u} is) le le' =
          on_kind-at _ u.kind source u [] t ts refl (
            ap (λ (p : Parses F64 (Expression F64)). p (at source (u ∷ []) t ts))
              (literal-primary rounds u.kind e is)
            ∙ seq _ (bump-at source u [] t ts) refl)
      parse_primary-at rounds _ _ t ts (Primary.name {t = u} {x = x} w is) le le' =
          on_kind-at _ u.kind source u [] t ts refl (
            ap (λ (p : Parses F64 (Expression F64)). p (at source (u ∷ []) t ts))
              (name-primary rounds u.kind is w.word)
            ∙ is_word-at _ _ source u [] t ts w.word (seq _ (ident-at source x u [] t ts w) refl))
      parse_primary-at rounds _ _ t ts (Primary.negative_int {m = m} {t = u} x e e') le le' =
          on_kind-at _ TokenKind.minus source m (u ∷ []) t ts e (
            unfold primary_of in
            seq _ (bump-at source m (u ∷ []) t ts) (
              on_kind-at _ (TokenKind.int x) source u [] t ts e'
                (unfold negative_of in seq _ (bump-at source u [] t ts) refl)))
      parse_primary-at rounds _ _ t ts (Primary.negative_float {m = m} {t = u} x e e') le le' =
          on_kind-at _ TokenKind.minus source m (u ∷ []) t ts e (
            unfold primary_of in
            seq _ (bump-at source m (u ∷ []) t ts) (
              on_kind-at _ (TokenKind.float x) source u [] t ts e'
                (unfold negative_of in seq _ (bump-at source u [] t ts) refl)))
      parse_primary-at rounds _ e'' t ts (Primary.parens l r us e or e') le le' =
          let shorter = length-append us (r ∷ []) in
          on_kind-at _ TokenKind.lparen source l (us ++ (r ∷ [])) t ts e (
            unfold primary_of in
            seq _ (bump-at source l (us ++ (r ∷ [])) t ts) (
              seq _
                (before sub source e'' us r [] t ts
                  (deeper us e'' r _ or (at_rparen r.kind e') (omega arith)))
                (seq _ (expect-at TokenKind.rparen source r [] t ts e') refl)))
      parse_primary-at rounds _ _ t ts (Primary.empty_map {l = l} {r = r} e e') le le' =
          on_kind-at _ TokenKind.lbrace source l (r ∷ []) t ts e (
            unfold primary_of parse_map_literal in
            seq _
              (seq _ (expect-at TokenKind.lbrace source l (r ∷ []) t ts e) (
                seq _ (check-yes _ _ TokenKind.rbrace source r [] t ts e' refl)
                  (seq _ (expect-at TokenKind.rbrace source r [] t ts e') refl)))
              refl)
      parse_primary-at rounds _ _ t ts (Primary.map l r us e p e') le le' =
          let shorter = length-append us (r ∷ []) in
          on_kind-at _ TokenKind.lbrace source l (us ++ (r ∷ [])) t ts e (
            unfold primary_of in
            seq _ (parse_map_literal-at rounds l r us t ts _ e p e' (omega arith) (omega arith))
              refl)
