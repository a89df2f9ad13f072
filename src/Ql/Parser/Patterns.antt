-- ===== src/Ql/Parser/Patterns.antt =====
-- Targets and graph patterns of epochql/src/parser.rs.
use epochs.Common.{
  ℕ, zero, suc, List, [], ◌∷◌, ◌++◌, Bool, true, false, ◌||◌, ◌&&◌, Option, none, some, ltb, ◌==◌,
  if◌then◌else◌,
}
use epochs.Ql.Ast.{
  TargetRef, Entries, NodePattern, EdgePattern, EdgeDirection, EdgeType, HopMultiplier,
  PatternElement, Pattern, MatchClause, TraversalClause,
}
use epochs.Ql.Chars.{Chars, byte_len, is_ascii_digit, within}
use epochs.Ql.Error.{Message}
use epochs.Ql.Parser.{
  Parses, ◌>>=◌, ◌>>◌, pure, no_round, check, on_kind, fail, bump, expect, looks_like_ident,
  expect_ident, expect_ident_or_keyword_as_ident, expect_string, expect_u32, is_int,
}
use epochs.Ql.Parser.Expressions.{parse_map_literal, parse_expression}
use epochs.Ql.Token.{TokenKind}

unfoldable pub is_ascii_hexdigit : ℕ → Bool
is_ascii_hexdigit c = is_ascii_digit c || (within b'a' b'f' c || within b'A' b'F' c)

unfoldable pub all_hexdigits : Chars → Bool
all_hexdigits [] = true
all_hexdigits (c ∷ cs) = is_ascii_hexdigit c && all_hexdigits cs

-- `none` is `Ok(())`.
unfoldable pub validate_hex_hash : Chars → Option Message
validate_hex_hash s =
    if byte_len s == 0
    then some Message.empty_hash
    else if ltb 64 (byte_len s)
    then some (Message.hash_too_long (byte_len s))
    else if all_hexdigits s
    then none
    else some (Message.hash_not_hexadecimal s)

unfoldable pub unwrap_or : {A : Type 0} → Option A → A → A
unwrap_or none d = d
unwrap_or (some a) d = a

unfoldable pub bare_edge : EdgeDirection → EdgeType → EdgePattern
bare_edge d t = record { direction = d; edge_type = t; multiplier = none }

module _ {F64 : Type 0} where
  -- The name behind `BRANCH` and `TAG`.
  unfoldable pub ref_name_of : Message → TokenKind F64 → Parses F64 Chars
  ref_name_of m (TokenKind.ident name) = expect_ident
  ref_name_of m (TokenKind.string name) = expect_string
  ref_name_of m k = fail m

  unfoldable pub commit_ref : Chars → Parses F64 TargetRef
  commit_ref hex = elim (validate_hex_hash hex) [
    | none ↦ pure (TargetRef.commit hex)
    | some m ↦ fail m
  ]

  -- The arms of `parse_target_ref`.
  unfoldable pub target_of : TokenKind F64 → Parses F64 TargetRef
  target_of TokenKind.head = bump >> pure TargetRef.head
  target_of TokenKind.branch =
      bump
      >> (on_kind (ref_name_of Message.expected_branch_name) >>= λ name.
          pure (TargetRef.branch name))
  target_of TokenKind.commit = bump >> (expect_string >>= commit_ref)
  target_of TokenKind.tag =
      bump
      >> (on_kind (ref_name_of Message.expected_tag_name) >>= λ name. pure (TargetRef.tag name))
  target_of k = fail Message.expected_target

  unfoldable pub parse_target_ref : Parses F64 TargetRef
  parse_target_ref = on_kind target_of

  -- The arms of `parse_edge_type`.
  unfoldable pub edge_type_of : TokenKind F64 → Parses F64 EdgeType
  edge_type_of TokenKind.parent = bump >> pure EdgeType.parent
  edge_type_of TokenKind.child = bump >> pure EdgeType.child
  edge_type_of TokenKind.ancestor = bump >> pure EdgeType.ancestor
  edge_type_of TokenKind.descendant = bump >> pure EdgeType.descendant
  edge_type_of k = fail Message.expected_edge_type

  unfoldable pub parse_edge_type : Parses F64 EdgeType
  parse_edge_type = on_kind edge_type_of

  unfoldable pub names_edge_type : TokenKind F64 → Bool
  names_edge_type TokenKind.parent = true
  names_edge_type TokenKind.child = true
  names_edge_type TokenKind.ancestor = true
  names_edge_type TokenKind.descendant = true
  names_edge_type k = false

  -- `if matches!(self.current().kind, TokenKind::Int(_)) { .. } else { .. }`.
  unfoldable pub if_int : {A : Type 0} → Parses F64 A → Parses F64 A → Parses F64 A
  if_int yes_case no_case = on_kind λ k. if is_int k then yes_case else no_case

  unfoldable pub hops_from : ℕ → Parses F64 HopMultiplier
  hops_from n =
      check TokenKind.dot_dot
        (bump
          >> if_int (expect_u32 >>= λ m. pure (HopMultiplier.range (some n) (some m)))
              (pure (HopMultiplier.range (some n) none)))
        (pure (HopMultiplier.exact n))

  unfoldable pub parse_hop_multiplier : Parses F64 HopMultiplier
  parse_hop_multiplier =
      expect TokenKind.star
      >> if_int (expect_u32 >>= hops_from) (
          check TokenKind.dot_dot
            (bump
              >> if_int (expect_u32 >>= λ m. pure (HopMultiplier.range none (some m)))
                  (pure HopMultiplier.any))
            (pure HopMultiplier.any))

  unfoldable pub optional_edge_type : Parses F64 (Option EdgeType)
  optional_edge_type = check TokenKind.colon (bump >> (parse_edge_type >>= λ t. pure (some t))) (
      on_kind
        λ k. if names_edge_type k then (parse_edge_type >>= λ t. pure (some t)) else pure none)

  unfoldable pub parse_edge_body : Parses F64 (Option EdgeType × Option HopMultiplier)
  parse_edge_body = do
    edge_type ← optional_edge_type
    multiplier ← check TokenKind.star (parse_hop_multiplier >>= λ h. pure (some h)) (pure none)
    pure (edge_type, multiplier)

  unfoldable pub edge_end :
      EdgeDirection → Option EdgeType → Option HopMultiplier → Parses F64 EdgePattern
  edge_end EdgeDirection.incoming edge_type hops =
      expect TokenKind.minus
      >> pure (record {
        direction = EdgeDirection.incoming;
        edge_type = unwrap_or edge_type EdgeType.parent;
        multiplier = hops;
      })
  edge_end EdgeDirection.outgoing edge_type hops =
      expect TokenKind.arrow_right
      >> pure (record {
        direction = EdgeDirection.outgoing;
        edge_type = unwrap_or edge_type EdgeType.child;
        multiplier = hops;
      })

  unfoldable pub parse_bracket_edge : EdgeDirection → Parses F64 EdgePattern
  parse_bracket_edge direction = do
    open_bracket ← expect TokenKind.lbracket
    (edge_type, hops) ← parse_edge_body
    close_bracket ← expect TokenKind.rbracket
    edge_end direction edge_type hops

  -- The arms of `parse_edge_pattern`.
  unfoldable pub edge_of : TokenKind F64 → Parses F64 EdgePattern
  edge_of TokenKind.arrow_right = bump >> pure (bare_edge EdgeDirection.outgoing EdgeType.child)
  edge_of TokenKind.arrow_left =
      bump
      >> check TokenKind.lbracket (parse_bracket_edge EdgeDirection.incoming)
          (pure (bare_edge EdgeDirection.incoming EdgeType.parent))
  edge_of TokenKind.minus = bump >> parse_bracket_edge EdgeDirection.outgoing
  edge_of k = fail Message.expected_edge

  unfoldable pub parse_edge_pattern : Parses F64 EdgePattern
  parse_edge_pattern = on_kind edge_of

  unfoldable pub is_edge_start : TokenKind F64 → Bool
  is_edge_start TokenKind.arrow_right = true
  is_edge_start TokenKind.arrow_left = true
  is_edge_start TokenKind.minus = true
  is_edge_start k = false

  -- The arms of `parse_traversal_clause`.
  unfoldable pub two_targets :
      (TargetRef → TargetRef → TraversalClause) → Parses F64 TraversalClause
  two_targets clause = do
    name ← bump
    open_paren ← expect TokenKind.lparen
    a ← parse_target_ref
    comma ← expect TokenKind.comma
    b ← parse_target_ref
    close_paren ← expect TokenKind.rparen
    pure (clause a b)

  unfoldable pub traversal_of : TokenKind F64 → Parses F64 TraversalClause
  traversal_of TokenKind.merge_base = two_targets TraversalClause.merge_base
  traversal_of TokenKind.shortest_path = two_targets TraversalClause.shortest_path
  traversal_of TokenKind.ancestors = do
    name ← bump
    open_paren ← expect TokenKind.lparen
    a ← parse_target_ref
    close_paren ← expect TokenKind.rparen
    pure (TraversalClause.ancestors a)
  traversal_of k = fail Message.expected_traversal

  unfoldable pub parse_traversal_clause : Parses F64 TraversalClause
  parse_traversal_clause = expect TokenKind.traverse >> on_kind traversal_of

module _ {F64 : Type 0} (neg_f64 : F64 → F64) where
  unfoldable pub parse_node_pattern : ℕ → Parses F64 (NodePattern F64)
  parse_node_pattern rounds = do
    open_paren ← expect TokenKind.lparen
    variable ← looks_like_ident (expect_ident >>= λ name. pure (some name)) (pure none)
    label ←
        check TokenKind.colon
          (bump >> (expect_ident_or_keyword_as_ident >>= λ name. pure (some name))) (pure none)
    properties ←
        check TokenKind.lbrace (parse_map_literal rounds (parse_expression neg_f64 rounds))
          (pure Entries.empty)
    close_paren ← expect TokenKind.rparen
    pure (record { variable = variable; label = label; properties = properties })

  -- The loop of `parse_pattern`.
  unfoldable pub pattern_loop :
      ℕ → List (PatternElement F64) → Parses F64 (List (PatternElement F64))
  pattern_loop zero elements = no_round
  pattern_loop (suc rounds) elements =
      let more = parse_edge_pattern >>= λ edge. parse_node_pattern rounds >>= λ node.
      pattern_loop rounds
        (elements ++ (PatternElement.edge edge ∷ PatternElement.node node ∷ [])) in
      on_kind λ k. if is_edge_start k then more else pure elements

  unfoldable pub parse_pattern : ℕ → Parses F64 (Pattern F64)
  parse_pattern rounds = do
    node ← parse_node_pattern rounds
    elements ← pattern_loop rounds (PatternElement.node node ∷ [])
    pure (record { elements = elements })

  -- The loop of `parse_match_clause`.
  unfoldable pub patterns_loop : ℕ → List (Pattern F64) → Parses F64 (List (Pattern F64))
  patterns_loop zero patterns = no_round
  patterns_loop (suc rounds) patterns =
      check TokenKind.comma
        (bump
          >> (parse_pattern rounds >>= λ pattern.
              patterns_loop rounds (patterns ++ (pattern ∷ []))))
        (pure patterns)

  unfoldable pub parse_match_clause : ℕ → Parses F64 (MatchClause F64)
  parse_match_clause rounds = do
    keyword ← expect TokenKind.match_kw
    first ← parse_pattern rounds
    patterns ← patterns_loop rounds (first ∷ [])
    pure (record { patterns = patterns })
