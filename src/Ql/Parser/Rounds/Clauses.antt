-- ===== src/Ql/Parser/Rounds/Clauses.antt =====
-- Targets, patterns and clauses are parsed in as many rounds as there are tokens.
use epochs.Common.{
  ℕ, zero, suc, ◌≤◌, ◌≡◌, refl, List, Bool, true, false, Option, some, arith, Option-cases, inl,
  inr,
}
use epochs.Ql.Ast.{
  TargetRef, EdgeDirection, EdgeType, HopMultiplier, PatternElement, Pattern, TraversalClause,
}
use epochs.Ql.Chars.{Chars}
use epochs.Ql.Error.{Message}
use epochs.Ql.Parser.Expressions.{parse_expression}
use epochs.Ql.Parser.Patterns.{
  validate_hex_hash, ref_name_of, commit_ref, target_of, parse_target_ref, edge_type_of,
  parse_edge_type, names_edge_type, if_int, hops_from, parse_hop_multiplier, optional_edge_type,
  parse_edge_body, edge_end, parse_bracket_edge, edge_of, parse_edge_pattern, is_edge_start,
  two_targets, traversal_of, parse_traversal_clause, parse_node_pattern, pattern_loop,
  parse_pattern, patterns_loop, parse_match_clause,
}
use epochs.Ql.Parser.Rounds.{parse_expression-Runs, parse_map_literal-Runs}
use epochs.Ql.Parser.Total.{
  Runs, any, is, pure-Runs, fail-Runs, Runs-zero, relax, widen, bind_strict, bind_first, bind,
  check-Runs, on_kind-Runs, if-Runs,
}
use epochs.Ql.Parser.Total.Tokens.{
  bump-Runs, expect-Runs, ident-Runs, looks-Runs, string-Runs, u32-Runs,
}
use epochs.Ql.Parser.{Parses, ◌>>=◌, pure, same, expect_ident, is_int}
use epochs.Ql.Token.{TokenKind, discriminant}

module _ {F64 : Type 0} where
  ref_name_of-Runs :
      {n : ℕ} (m : Message) (k : TokenKind F64) → Runs true (is k) n (ref_name_of m k)
  unfolding ref_name_of expect_ident
  ref_name_of-Runs m (TokenKind.ident name) = widen ident-Runs
  ref_name_of-Runs m (TokenKind.string name) = widen string-Runs
  ref_name_of-Runs m _ = fail-Runs _

  commit_ref-Runs : {n : ℕ} (hex : Chars) → Runs false (any {F64 = F64}) n (commit_ref hex)
  unfolding commit_ref
  commit_ref-Runs hex = elim (Option-cases (validate_hex_hash hex)) [
    | inl fine ↦ rw (commit_ref, fine) pure-Runs
    | inr (m, bad) ↦ rw (commit_ref, bad) (fail-Runs m)
  ]

  target_of-Runs : {n : ℕ} (k : TokenKind F64) → Runs true (is k) n (target_of k)
  unfolding target_of same discriminant
  target_of-Runs TokenKind.head = bind_first (bump-Runs refl) λ t. pure-Runs
  target_of-Runs TokenKind.branch =
      bind_first (bump-Runs refl)
        λ t. relax (bind_first (on_kind-Runs (ref_name_of-Runs _)) λ name. pure-Runs)
  target_of-Runs TokenKind.commit =
      bind_first (bump-Runs refl) λ t. relax (bind_first string-Runs commit_ref-Runs)
  target_of-Runs TokenKind.tag =
      bind_first (bump-Runs refl)
        λ t. relax (bind_first (on_kind-Runs (ref_name_of-Runs _)) λ name. pure-Runs)
  target_of-Runs _ = fail-Runs _

  pub parse_target_ref-Runs : {n : ℕ} → Runs true (any {F64 = F64}) n parse_target_ref
  unfolding parse_target_ref
  parse_target_ref-Runs = on_kind-Runs target_of-Runs

  edge_type_of-Runs : {n : ℕ} (k : TokenKind F64) → Runs true (is k) n (edge_type_of k)
  unfolding edge_type_of same discriminant
  edge_type_of-Runs TokenKind.parent = bind_first (bump-Runs refl) λ t. pure-Runs
  edge_type_of-Runs TokenKind.child = bind_first (bump-Runs refl) λ t. pure-Runs
  edge_type_of-Runs TokenKind.ancestor = bind_first (bump-Runs refl) λ t. pure-Runs
  edge_type_of-Runs TokenKind.descendant = bind_first (bump-Runs refl) λ t. pure-Runs
  edge_type_of-Runs _ = fail-Runs _

  some_edge_type-Runs :
      {n : ℕ} → Runs false (any {F64 = F64}) n (parse_edge_type >>= λ t. pure (some t))
  unfolding parse_edge_type
  some_edge_type-Runs = relax (bind_first (on_kind-Runs edge_type_of-Runs) λ t. pure-Runs)

  if_int-Runs :
      {A : Type 0} {b : Bool} {C : TokenKind F64 → Bool} {n : ℕ} {p q : Parses F64 A}
      → Runs b any n p
      → Runs b any n q
      → Runs b C n (if_int p q)
  unfolding if_int
  if_int-Runs r t = on_kind-Runs λ k. if-Runs (is_int k) (widen r) (widen t)

  hops_from-Runs : {n : ℕ} (m : ℕ) → Runs false (any {F64 = F64}) n (hops_from m)
  unfolding hops_from same discriminant
  hops_from-Runs m =
      check-Runs TokenKind.dot_dot
        (relax (
          bind_first (bump-Runs refl)
            λ t. if_int-Runs (relax (bind_first u32-Runs λ x. pure-Runs)) pure-Runs))
        pure-Runs

  parse_hop_multiplier-Runs : {n : ℕ} → Runs true (any {F64 = F64}) n parse_hop_multiplier
  unfolding parse_hop_multiplier same discriminant
  parse_hop_multiplier-Runs = bind_first (expect-Runs TokenKind.star refl) λ star.
      if_int-Runs (relax (bind_first u32-Runs hops_from-Runs)) (
        check-Runs TokenKind.dot_dot
          (relax (
            bind_first (bump-Runs refl)
              λ t. if_int-Runs (relax (bind_first u32-Runs λ x. pure-Runs)) pure-Runs))
          pure-Runs)

  parse_edge_body-Runs : {n : ℕ} → Runs false (any {F64 = F64}) n parse_edge_body
  unfolding parse_edge_body optional_edge_type same discriminant
  parse_edge_body-Runs =
      bind
        (check-Runs TokenKind.colon (relax (bind_first (bump-Runs refl) λ t. some_edge_type-Runs))
          (on_kind-Runs λ k. if-Runs (names_edge_type k) (widen some_edge_type-Runs) pure-Runs))
        λ edge_type.
          bind
            (check-Runs TokenKind.star
              (relax (bind_first (widen parse_hop_multiplier-Runs) λ h. pure-Runs)) pure-Runs)
            λ hops. pure-Runs

  edge_end-Runs :
      {n : ℕ} (d : EdgeDirection) (t : Option EdgeType) (h : Option HopMultiplier)
      → Runs true (any {F64 = F64}) n (edge_end d t h)
  unfolding edge_end same discriminant
  edge_end-Runs EdgeDirection.incoming t h =
      bind_first (expect-Runs TokenKind.minus refl) λ x. pure-Runs
  edge_end-Runs EdgeDirection.outgoing t h =
      bind_first (expect-Runs TokenKind.arrow_right refl) λ x. pure-Runs

  parse_bracket_edge-Runs :
      {n : ℕ} (d : EdgeDirection) → Runs true (any {F64 = F64}) n (parse_bracket_edge d)
  unfolding parse_bracket_edge same discriminant
  parse_bracket_edge-Runs d = bind_first (expect-Runs TokenKind.lbracket refl) λ open_bracket.
      bind parse_edge_body-Runs λ body.
        bind (relax (expect-Runs TokenKind.rbracket refl))
          λ close_bracket. relax (edge_end-Runs d body.0 body.1)

  edge_of-Runs : {n : ℕ} (k : TokenKind F64) → Runs true (is k) n (edge_of k)
  unfolding edge_of same discriminant
  edge_of-Runs TokenKind.arrow_right = bind_first (bump-Runs refl) λ t. pure-Runs
  edge_of-Runs TokenKind.arrow_left =
      bind_first (bump-Runs refl)
        λ t. check-Runs TokenKind.lbracket (widen (relax (parse_bracket_edge-Runs _))) pure-Runs
  edge_of-Runs TokenKind.minus = bind_first (bump-Runs refl) λ t. relax (parse_bracket_edge-Runs _)
  edge_of-Runs _ = fail-Runs _

  parse_edge_pattern-Runs : {n : ℕ} {C : TokenKind F64 → Bool} → Runs true C n parse_edge_pattern
  unfolding parse_edge_pattern
  parse_edge_pattern-Runs = on_kind-Runs edge_of-Runs

  two_targets-Runs :
      {n : ℕ} {C : TokenKind F64 → Bool} (clause : TargetRef → TargetRef → TraversalClause)
      → C TokenKind.eof ≡ false
      → Runs true C n (two_targets clause)
  unfolding two_targets same discriminant
  two_targets-Runs clause no_eof = bind_first (bump-Runs no_eof) λ name.
      bind (relax (expect-Runs TokenKind.lparen refl)) λ open_paren.
        bind (relax parse_target_ref-Runs) λ a.
          bind (relax (expect-Runs TokenKind.comma refl)) λ comma.
            bind (relax parse_target_ref-Runs)
              λ b. bind (relax (expect-Runs TokenKind.rparen refl)) λ close_paren. pure-Runs

  traversal_of-Runs : {n : ℕ} (k : TokenKind F64) → Runs true (is k) n (traversal_of k)
  unfolding traversal_of same discriminant
  traversal_of-Runs TokenKind.merge_base = two_targets-Runs _ refl
  traversal_of-Runs TokenKind.shortest_path = two_targets-Runs _ refl
  traversal_of-Runs TokenKind.ancestors = bind_first (bump-Runs refl) λ name.
      bind (relax (expect-Runs TokenKind.lparen refl)) λ open_paren.
        bind (relax parse_target_ref-Runs)
          λ a. bind (relax (expect-Runs TokenKind.rparen refl)) λ close_paren. pure-Runs
  traversal_of-Runs _ = fail-Runs _

  pub parse_traversal_clause-Runs : {n : ℕ} → Runs true (any {F64 = F64}) n parse_traversal_clause
  unfolding parse_traversal_clause same discriminant
  parse_traversal_clause-Runs =
      bind_first (expect-Runs TokenKind.traverse refl) λ t. relax (on_kind-Runs traversal_of-Runs)

module _ {F64 : Type 0} (neg_f64 : F64 → F64) where
  parse_node_pattern-Runs :
      (m rounds : ℕ) → m ≤ suc rounds → Runs true any m (parse_node_pattern neg_f64 rounds)
  unfolding parse_node_pattern expect_ident same discriminant
  parse_node_pattern-Runs zero rounds le = Runs-zero
  parse_node_pattern-Runs (suc m) rounds le =
      let map_literal =
        parse_map_literal-Runs rounds (parse_expression neg_f64 rounds)
          (parse_expression-Runs neg_f64 rounds) m rounds (omega arith) (omega arith) in
      bind_strict (expect-Runs TokenKind.lparen refl) λ open_paren.
        bind (looks-Runs (relax (bind_first ident-Runs λ name. pure-Runs)) pure-Runs) λ variable.
          bind
            (check-Runs TokenKind.colon
              (relax
                (bind_first (bump-Runs refl) λ t. relax (bind_first ident-Runs λ name. pure-Runs)))
              pure-Runs)
            λ label.
              bind (check-Runs TokenKind.lbrace (widen (relax map_literal)) pure-Runs) λ properties.
                bind (relax (expect-Runs TokenKind.rparen refl)) λ close_paren. pure-Runs

  pattern_loop-Runs :
      (m rounds : ℕ) (elements : List (PatternElement F64))
      → m ≤ rounds
      → Runs false any m (pattern_loop neg_f64 rounds elements)
  unfolding pattern_loop
  pattern_loop-Runs zero rounds elements le = Runs-zero
  pattern_loop-Runs (suc m) zero elements le = absurd (omega arith)
  pattern_loop-Runs (suc m) (suc rounds) elements le = on_kind-Runs λ k.
      if-Runs (is_edge_start k)
        (relax (
          bind_strict parse_edge_pattern-Runs λ edge.
            bind (relax (parse_node_pattern-Runs m rounds (omega arith)))
              λ node. pattern_loop-Runs m rounds _ (omega arith)))
        pure-Runs

  parse_pattern-Runs : (m rounds : ℕ) → m ≤ rounds → Runs true any m (parse_pattern neg_f64 rounds)
  unfolding parse_pattern
  parse_pattern-Runs m rounds le =
      bind_first (parse_node_pattern-Runs m rounds (omega arith))
        λ node. bind (pattern_loop-Runs m rounds _ le) λ elements. pure-Runs

  patterns_loop-Runs :
      (m rounds : ℕ) (patterns : List (Pattern F64))
      → m ≤ rounds
      → Runs false any m (patterns_loop neg_f64 rounds patterns)
  unfolding patterns_loop same discriminant
  patterns_loop-Runs zero rounds patterns le = Runs-zero
  patterns_loop-Runs (suc m) zero patterns le = absurd (omega arith)
  patterns_loop-Runs (suc m) (suc rounds) patterns le =
      check-Runs TokenKind.comma
        (relax (
          bind_strict (bump-Runs refl) λ t.
            bind (relax (parse_pattern-Runs m rounds (omega arith)))
              λ pattern. patterns_loop-Runs m rounds _ (omega arith)))
        pure-Runs

  pub parse_match_clause-Runs :
      (m rounds : ℕ) → m ≤ rounds → Runs true any m (parse_match_clause neg_f64 rounds)
  unfolding parse_match_clause same discriminant
  parse_match_clause-Runs m rounds le = bind_first (expect-Runs TokenKind.match_kw refl) λ keyword.
      bind (relax (parse_pattern-Runs m rounds le))
        λ first. bind (patterns_loop-Runs m rounds _ le) λ patterns. pure-Runs
