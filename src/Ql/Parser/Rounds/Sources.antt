-- ===== src/Ql/Parser/Rounds/Sources.antt =====
-- The entry points of the parser return on every source.
use epochs.Common.{
  ℕ, ◌+◌, ◌≡◌, refl, sym, ap, ◌∙◌, subst, List, [], ◌∷◌, ◌++◌, true, false, Option, arith, inl, inr,
  append_assoc, length,
}
use epochs.Ql.Chars.{Chars, byte_len}
use epochs.Ql.Chars.Slices.{byte_len-append, slice_middle}
use epochs.Ql.Error.{Parsed, ok, err, panicked, out_of_fuel}
use epochs.Ql.Lexer.{is_eof, tokenize}
use epochs.Ql.Lexer.Steps.{Yields, >>=-Yields}
use epochs.Ql.Lexer.Tokens.{Covers, tokenize-Covers}
use epochs.Ql.Parser.Rounds.Statements.{
  parse_statement-Runs, expect_eof_or_semicolon-Runs, script_loop-Runs,
}
use epochs.Ql.Parser.Statements.{run, value_of, parse, parse_script}
use epochs.Ql.Parser.Total.{Runs, any, Sliced, Ends, Good, bind, relax, pure-Runs, left, Ran}
use epochs.Ql.Parser.{Parser, Parses}
use epochs.Ql.Token.{TokenKind, Token}

module _ {F64 : Type 0} (parse_f64 : Chars → Option F64) where
  is_eof-eof : (k : TokenKind F64) → is_eof parse_f64 k ≡ true → k ≡ TokenKind.eof
  unfolding is_eof
  is_eof-eof TokenKind.eof e = refl
  is_eof-eof _ e = cc

  Sliced-middle :
      (source front gap text left : Chars) (t : Token F64)
      → source ≡ front ++ (gap ++ (text ++ left))
      → t.offset ≡ byte_len front + byte_len gap
      → t.end ≡ t.offset + byte_len text
      → Sliced source t
  Sliced-middle source front gap text left t e starts ends =
      let start : t.offset ≡ byte_len (front ++ gap) = omega (arith, byte_len-append front gap) in
      let whole : source ≡ (front ++ gap) ++ (text ++ left) =
        e ∙ sym (append_assoc front gap (text ++ left)) in
      (text, rw (ends, start, whole) (slice_middle (front ++ gap) text left))

  Covers-Good :
      (source front back : Chars) (t : Token F64) (ts : List (Token F64))
      → source ≡ front ++ back
      → Covers parse_f64 (byte_len front) back (t ∷ ts)
      → Good (record { source = source; current = t; rest = ts })
  unfolding Covers Ends
  Covers-Good source front back t ts e
        (gap, text, left, split, blank, starts, ends, inl (eof, nothing, last)) =
      rw last (record {
        first =
            Sliced-middle source front gap text left t (e ∙ ap (λ (r : Chars). front ++ r) split)
              starts ends;
        others = tt;
        ends = is_eof-eof t.kind eof;
      })
  Covers-Good source front back t [] e
        (gap, text, left, split, blank, starts, ends, inr (more, l, covers)) =
      absurd covers
  Covers-Good source front back t (u ∷ ts) e
        (gap, text, left, split, blank, starts, ends, inr (more, l, covers)) =
      let here = e ∙ ap (λ (r : Chars). front ++ r) split in
      let front' = front ++ (gap ++ text) in
      let there : source ≡ front' ++ left =
        here
        ∙ ap (λ (r : Chars). front ++ r) (sym (append_assoc gap text left))
        ∙ sym (append_assoc front (gap ++ text) left) in
      let at : t.end ≡ byte_len front' =
        omega (arith, byte_len-append front (gap ++ text), byte_len-append gap text) in
      let good =
        Covers-Good source front' left u ts there
          (subst (λ (i : ℕ). Covers parse_f64 i left (u ∷ ts)) at covers) in
      record {
        first = Sliced-middle source front gap text left t here starts ends;
        others = (good.first, good.others);
        ends = good.ends;
      }

  -- There is neither a panic nor a want of rounds.
  abbrev pub Returns : {A : Type 0} → Parsed A → Type 0
  Returns r = Yields (λ a. Unit {0}) r

  value_of-Returns :
      {A : Type 0} (n : ℕ) (p : Parsed (A × Parser F64))
      → Yields (Ran false n) p
      → Returns (value_of p)
  unfolding value_of
  value_of-Returns n (ok x) y = tt
  value_of-Returns n (err e) y = tt
  value_of-Returns n panicked y = y
  value_of-Returns n out_of_fuel y = y

  pub run-Returns :
      {A : Type 0} (source : Chars) (tokens : List (Token F64)) (method : ℕ → Parses F64 A)
      → Covers parse_f64 0 source tokens
      → ((n : ℕ) → Runs false any n (method n))
      → Returns (run source tokens method)
  unfolding run
  run-Returns source [] method covers r = unfold Covers in covers
  run-Returns source (t ∷ ts) method covers r =
      let good = Covers-Good source [] source t ts refl (unfold byte_len in covers) in
      value_of-Returns (length ts)
        (method (1 + length ts) (record { source = source; current = t; rest = ts }))
        ((r (1 + length ts)).at _ good refl (omega arith))

  module _ (neg_f64 : F64 → F64) where
    -- `parse` gives a statement or an error for every source, and `parse_script` statements or an
    -- error: neither panics, and one round for each token is enough for the loops and for the depth
    -- of expressions.
    pub parse-Returns :
        (source : Chars)
        → Returns (parse neg_f64 parse_f64 source) × Returns (parse_script neg_f64 parse_f64 source)
    unfolding parse parse_script
    parse-Returns source =
        let covers = tokenize-Covers parse_f64 source in
        (
          >>=-Yields (Covers parse_f64 0 source) _ (tokenize parse_f64 source) _ covers λ tokens c.
              run-Returns source tokens _ c λ n.
                bind (relax (parse_statement-Runs neg_f64 n n (omega arith)))
                  λ stmt. bind expect_eof_or_semicolon-Runs λ u. pure-Runs,
          >>=-Yields (Covers parse_f64 0 source) _ (tokenize parse_f64 source) _ covers λ tokens c.
              run-Returns source tokens _ c λ n. script_loop-Runs neg_f64 n n [] (omega arith),
        )
