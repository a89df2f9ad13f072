-- ===== src/Ql/Lexer/Scans.antt =====
-- What reading one token consumes.
use epochs.Common.{
  ℕ, ◌+◌, ◌≤◌, ◌≡◌, ◌⊎◌, refl, sym, ap, [], ◌∷◌, ◌++◌, Bool, true, false, ◌&&◌, ◌||◌, Option, none,
  some, ◌==◌, arith, inl, inr, append-nil, append_assoc, length, Option-cases,
}
use epochs.Ql.Chars.{
  Chars, Indexed, len_utf8, byte_len, char_indices, is_ascii_digit, is_ascii_alphanumeric,
}
use epochs.Ql.Chars.Slices.{byte_len-append}
use epochs.Ql.Error.{Message, Parsed, ok, ◌>>=◌}
use epochs.Ql.Lexer.Steps.{
  Yields, if-Yields, >>=-Yields, Takes, take_none, take_one, length-take_one, bump-Takes,
  bump_while-Takes, bump_while_first, then_bump, then_while, string_loop-Yields,
  current_byte_offset_lem, index_middle,
}
use epochs.Ql.Lexer.{
  Lexer, bump, bump_while, start_of, Start, token_to, lex_string, lex_number, number_after,
  lex_ident_or_keyword, match_token, is_eof, current_byte_offset, index, fail_at, next_is,
  string_loop, parse_i64,
}
use epochs.Ql.Token.{TokenKind, Token, keyword_or_ident}
use epochs.Ql.Lexer.Kinds.{NotEof, Starts, start_of-Starts, keyword_or_ident-NotEof}

module _ {F64 : Type 0} (parse_f64 : Chars → Option F64) where
  -- What reading one token at the offset `i` comes to, whitespace and comments skipped.
  pub record Scan (source : Chars) (i : ℕ) (back : Chars) (x : Token F64 × Lexer) : Type 0 where
    pub text : Chars
    pub left : Chars
    pub parts : back ≡ text ++ left
    pub starts : x.0.offset ≡ i
    pub ends : x.0.end ≡ i + byte_len text
    pub after : x.1 ≡ record { source = source; rest = char_indices (i + byte_len text) left }
    pub last :
        (is_eof parse_f64 x.0.kind ≡ true × back ≡ [])
        ⊎ (NotEof parse_f64 x.0.kind × 1 ≤ length text)

  -- Offset behind what was read.
  offset_after :
      (front back : Chars) (r : Indexed) (t : Takes r (byte_len front) back)
      → current_byte_offset (front ++ back) r ≡ byte_len front + byte_len t.taken
  offset_after front back r t =
      rw
        (
          t.parts,
          t.rest,
          sym (byte_len-append front t.taken),
          sym (append_assoc front t.taken t.left),
        )
        (current_byte_offset_lem (front ++ t.taken) t.left)

  token_to-Scan :
      (front back : Chars) (kind : TokenKind F64) (r : Indexed) (t : Takes r (byte_len front) back)
      → NotEof parse_f64 kind
      → 1 ≤ length t.taken
      → Scan
          (front ++ back)
          (byte_len front)
          back
          (token_to parse_f64 (front ++ back) (byte_len front) kind r)
  unfolding token_to
  token_to-Scan front back kind r t n l = record {
    text = t.taken;
    left = t.left;
    parts = t.parts;
    starts = refl;
    ends = offset_after front back r t;
    after =
        ap (λ (x : Indexed). let l : Lexer = record { source = front ++ back; rest = x } in l)
          t.rest;
    last = inr (n, l);
  }

  index-taken :
      (front back : Chars) (r : Indexed) (t : Takes r (byte_len front) back)
      → index (front ++ back) (byte_len front) (current_byte_offset (front ++ back) r) ≡ ok t.taken
  index-taken front back r t =
      rw (offset_after front back r t, t.parts) (index_middle front t.taken t.left)

  abbrev pub Scans : (front back : Chars) → Parsed (Token F64 × Lexer) → Type 0
  Scans front back r = Yields (Scan (front ++ back) (byte_len front) back) r

  lex_string-Scans :
      (front : Chars) (c : ℕ) (cs : Chars)
      → Scans front (c ∷ cs) (
          lex_string parse_f64
            (front ++ c ∷ cs)
            (byte_len front)
            (char_indices (byte_len front) (c ∷ cs)))
  unfolding lex_string bump char_indices
  lex_string-Scans front c cs =
      let i = byte_len front in
      >>=-Yields (λ (x : Chars × Indexed). Takes x.1 (i + len_utf8 c) cs)
        (Scan (front ++ c ∷ cs) i (c ∷ cs))
        (string_loop (front ++ c ∷ cs) i false (char_indices (i + len_utf8 c) cs) [])
        (λ (value, rest). ok (token_to parse_f64 (front ++ c ∷ cs) i (TokenKind.string value) rest))
        (string_loop-Yields (front ++ c ∷ cs) i false (i + len_utf8 c) cs [])
        (λ x t.
          token_to-Scan front (c ∷ cs) (TokenKind.string x.0) x.1 (take_one i c cs t)
            (unfold is_eof in refl) (length-take_one i c cs t))

  first_while :
      (p : ℕ → Bool) (i c : ℕ) (cs : Chars)
      → p c ≡ true
      → (t : Takes (bump_while p ((i, c) ∷ char_indices (i + len_utf8 c) cs)) i (c ∷ cs)) × (1
          ≤ length t.taken)
  first_while p i c cs e =
      let t = take_one i c cs (bump_while-Takes p (i + len_utf8 c) cs) in
      rw (bump_while_first p i c (char_indices (i + len_utf8 c) cs) e)
        (t, length-take_one i c cs (bump_while-Takes p (i + len_utf8 c) cs))

  lex_ident_or_keyword-Scans :
      (front : Chars) (c : ℕ) (cs : Chars)
      → (is_ascii_alphanumeric c || c == b'_') ≡ true
      → Scans front (c ∷ cs) (
          lex_ident_or_keyword parse_f64
            (front ++ c ∷ cs)
            (byte_len front)
            (char_indices (byte_len front) (c ∷ cs)))
  unfolding lex_ident_or_keyword char_indices
  lex_ident_or_keyword-Scans front c cs e =
      let i = byte_len front in
      let p = λ (d : ℕ). is_ascii_alphanumeric d || d == b'_' in
      let (t, l) = first_while p i c cs e in
      let r = bump_while p ((i, c) ∷ char_indices (i + len_utf8 c) cs) in
      rw (index-taken front (c ∷ cs) r t) (
        token_to-Scan front (c ∷ cs) (keyword_or_ident t.taken) r t
          (keyword_or_ident-NotEof parse_f64 t.taken) l)

  -- A literal whose text may be refused.
  literal-Scans :
      {A : Type 0} (front back : Chars) (r : Indexed) (t : Takes r (byte_len front) back)
      (parse : Chars → Option A) (kind : A → TokenKind F64)
      (refused : Chars → Parsed (Token F64 × Lexer))
      → 1 ≤ length t.taken
      → ((a : A) → NotEof parse_f64 (kind a))
      → Scans front back (refused t.taken)
      → Scans front back (
          index (front ++ back) (byte_len front) (current_byte_offset (front ++ back) r) >>= λ text.
          elim (parse text) [
            | none ↦ refused text
            | some value ↦ ok (token_to parse_f64 (front ++ back) (byte_len front) (kind value) r)
          ])
  literal-Scans front back r t parse kind refused l n f =
      rw (index-taken front back r t) (elim (Option-cases (parse t.taken)) [
        | inl bad ↦ rw bad f
        | inr (a, good) ↦ rw good (token_to-Scan front back (kind a) r t (n a) l)
      ])

  lex_number-Scans :
      (front : Chars) (c : ℕ) (cs : Chars)
      → is_ascii_digit c ≡ true
      → Scans front (c ∷ cs) (
          lex_number parse_f64
            (front ++ c ∷ cs)
            (byte_len front)
            (char_indices (byte_len front) (c ∷ cs)))
  unfolding lex_number number_after char_indices fail_at
  lex_number-Scans front c cs e =
      let i = byte_len front in
      let (t, l) = first_while is_ascii_digit i c cs e in
      let (u, l') = then_bump i (c ∷ cs) t in
      let (v, l'') = then_while is_ascii_digit i (c ∷ cs) u in
      let digits = bump_while is_ascii_digit ((i, c) ∷ char_indices (i + len_utf8 c) cs) in
      let fraction = bump_while is_ascii_digit (bump digits) in
      if-Yields (Scan (front ++ c ∷ cs) i (c ∷ cs))
        (next_is (λ c. c == b'.') digits && next_is is_ascii_digit (bump digits)) _ _
        (literal-Scans front (c ∷ cs) fraction v parse_f64 TokenKind.float
          (λ text. fail_at (front ++ c ∷ cs) i (Message.invalid_float text)) (omega arith)
          (λ a. unfold is_eof in refl) tt)
        (literal-Scans front (c ∷ cs) digits t parse_i64 TokenKind.int
          (λ text. fail_at (front ++ c ∷ cs) i (Message.invalid_integer text)) l
          (λ a. unfold is_eof in refl) tt)

  started-Scans :
      (front : Chars) (ch : ℕ) (cs : Chars) (s : Start F64)
      → Starts parse_f64 ch s
      → Scans front (ch ∷ cs) (elim s [
        | Start.single kind ↦ ok (
            token_to parse_f64
              (front ++ ch ∷ cs)
              (byte_len front)
              kind
              (char_indices (byte_len front + len_utf8 ch) cs))
        | Start.double kind ↦ ok (
            token_to parse_f64
              (front ++ ch ∷ cs)
              (byte_len front)
              kind
              (bump (char_indices (byte_len front + len_utf8 ch) cs)))
        | Start.refused m ↦ fail_at (front ++ ch ∷ cs) (byte_len front) m
        | Start.string ↦
            lex_string parse_f64
              (front ++ ch ∷ cs)
              (byte_len front)
              ((byte_len front, ch) ∷ char_indices (byte_len front + len_utf8 ch) cs)
        | Start.number ↦
            lex_number parse_f64
              (front ++ ch ∷ cs)
              (byte_len front)
              ((byte_len front, ch) ∷ char_indices (byte_len front + len_utf8 ch) cs)
        | Start.word ↦
            lex_ident_or_keyword parse_f64
              (front ++ ch ∷ cs)
              (byte_len front)
              ((byte_len front, ch) ∷ char_indices (byte_len front + len_utf8 ch) cs)
      ])
  unfolding fail_at char_indices
  started-Scans front ch cs (Start.single kind) n =
      token_to-Scan front (ch ∷ cs) kind (char_indices (byte_len front + len_utf8 ch) cs)
        (take_one (byte_len front) ch cs (take_none (byte_len front + len_utf8 ch) cs)) n
        (length-take_one (byte_len front) ch cs (take_none (byte_len front + len_utf8 ch) cs))
  started-Scans front ch cs (Start.double kind) n =
      token_to-Scan front (ch ∷ cs) kind (bump (char_indices (byte_len front + len_utf8 ch) cs))
        (take_one (byte_len front) ch cs (bump-Takes (byte_len front + len_utf8 ch) cs)) n
        (length-take_one (byte_len front) ch cs (bump-Takes (byte_len front + len_utf8 ch) cs))
  started-Scans front ch cs (Start.refused m) n = tt
  started-Scans front ch cs Start.string n = lex_string-Scans front ch cs
  started-Scans front ch cs Start.number n = lex_number-Scans front ch cs n
  started-Scans front ch cs Start.word n = lex_ident_or_keyword-Scans front ch cs n

  pub match_token-Scans :
      (front back : Chars)
      → Scans front back
          (match_token parse_f64 (front ++ back) (char_indices (byte_len front) back))
  unfolding match_token char_indices
  match_token-Scans front [] = record {
    text = [];
    left = [];
    parts = refl;
    starts = unfold token_to in ap byte_len (append-nil front);
    ends =
        unfold token_to current_byte_offset byte_len in
        omega (arith, ap byte_len (append-nil front));
    after = unfold token_to in refl;
    last = inl (unfold token_to is_eof in refl, refl);
  }
  match_token-Scans front (ch ∷ cs) =
      started-Scans front ch cs (start_of ch (char_indices (byte_len front + len_utf8 ch) cs))
        (start_of-Starts parse_f64 ch (char_indices (byte_len front + len_utf8 ch) cs))
