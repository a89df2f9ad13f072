-- ===== src/Ql/Lexer/Tokens.antt =====
-- The tokens of a source and the characters they stand for.
use epochs.Common.{
  ℕ, zero, suc, ◌+◌, ◌≤◌, ◌<◌, ◌≡◌, ◌⊎◌, refl, sym, ap, ◌∙◌, subst, List, [], ◌∷◌, ◌++◌, true,
  false, Option, arith, inl, inr, append_assoc, length, length-append,
}
use epochs.Ql.Chars.{Chars, Indexed, byte_len, char_indices}
use epochs.Ql.Chars.Slices.{byte_len-append}
use epochs.Ql.Lexer.Gaps.{Blank, skip-Blank}
use epochs.Ql.Lexer.Steps.{Yields, Yields-mono, >>=-Yields, Takes}
use epochs.Ql.Lexer.{
  Lexer, new_lexer, skip_whitespace_and_comments, match_token, next_token, is_eof, tokenize_loop,
  tokenize,
}
use epochs.Ql.Token.{Token}
use epochs.Ql.Lexer.Scans.{Scan, match_token-Scans}

module _ {F64 : Type 0} (parse_f64 : Chars → Option F64) where
  -- The same, whitespace and comments before the token included.
  record ScanAll (source : Chars) (i : ℕ) (back : Chars) (x : Token F64 × Lexer) : Type 0 where
    gap : Chars
    rest : Chars
    split : back ≡ gap ++ rest
    blank : Blank gap
    scan : Scan parse_f64 source (i + byte_len gap) rest x

  gap-Scans :
      (front back : Chars) (r : Indexed) (t : Takes r (byte_len front) back)
      → Blank t.taken
      → Yields
          (ScanAll (front ++ back) (byte_len front) back)
          (match_token parse_f64 (front ++ back) r)
  gap-Scans front back r t b =
      let front' = front ++ t.taken in
      let same : front' ++ t.left ≡ front ++ back =
        append_assoc front t.taken t.left ∙ ap (λ (x : Chars). front ++ x) (sym t.parts) in
      let at : byte_len front' ≡ byte_len front + byte_len t.taken =
        byte_len-append front t.taken in
      let scans =
        subst
          (λ i.
            Yields (Scan parse_f64 (front ++ back) i t.left)
              (match_token parse_f64 (front ++ back) (char_indices i t.left)))
          at
          (subst
            (λ (s : Chars).
              Yields (Scan parse_f64 s (byte_len front') t.left)
                (match_token parse_f64 s (char_indices (byte_len front') t.left)))
            same (match_token-Scans parse_f64 front' t.left)) in
      rw t.rest (
        Yields-mono (Scan parse_f64 (front ++ back) (byte_len front + byte_len t.taken) t.left)
          (ScanAll (front ++ back) (byte_len front) back) _
          (λ x scan. record {
            gap = t.taken;
            rest = t.left;
            split = t.parts;
            blank = b;
            scan = scan;
          })
          scans)

  next_token-Scans :
      (source front back : Chars) (i : ℕ)
      → source ≡ front ++ back
      → i ≡ byte_len front
      → Yields
          (ScanAll source i back)
          (next_token parse_f64 (record { source = source; rest = char_indices i back }))
  unfolding next_token skip_whitespace_and_comments
  next_token-Scans source front back i e e' =
      let (t, b) = skip-Blank false (byte_len front) back in rw (e, e') (gap-Scans front back _ t b)

  -- The tokens of the characters `back`, which start at the offset `i`: between them are gaps, each
  -- but the last has a character, and the last is the end of the input at the end of `back`.
  unfoldable pub Covers : ℕ → Chars → List (Token F64) → Type 0
  Covers i back [] = ⊥
  Covers i back (t ∷ ts) =
      (gap text left : Chars) × (back ≡ gap ++ (text ++ left))
      × Blank gap
      × (t.offset ≡ i + byte_len gap)
      × (t.end ≡ t.offset + byte_len text)
      × (((is_eof parse_f64 t.kind ≡ true) × (text ++ left ≡ []) × (ts ≡ []))
          ⊎ ((is_eof parse_f64 t.kind ≡ false) × (1 ≤ length text) × Covers t.end left ts))

  -- A run that appends the tokens of `back` to those there are.
  abbrev Adds : List (Token F64) → ℕ → Chars → List (Token F64) → Type 0
  Adds tokens i back r = (ts : List (Token F64)) × (r ≡ tokens ++ ts) × Covers i back ts

  tokenize_loop-Covers :
      (fuel : ℕ) (source front back : Chars) (i : ℕ) (tokens : List (Token F64))
      → source ≡ front ++ back
      → i ≡ byte_len front
      → length back < fuel
      → Yields (Adds tokens i back) (
          tokenize_loop parse_f64 fuel
            (record { source = source; rest = char_indices i back })
            tokens)
  unfolding tokenize_loop Covers
  tokenize_loop-Covers zero source front back i tokens e e' lt = absurd (omega arith)
  tokenize_loop-Covers (suc fuel) source front back i tokens e e' lt =
      >>=-Yields (ScanAll source i back) _ _ _ (next_token-Scans source front back i e e')
        (λ x scan.
          let s = scan.scan in
          let split = scan.split ∙ ap (λ (r : Chars). scan.gap ++ r) s.parts in
          let at_end : x.0.end ≡ x.0.offset + byte_len s.text = omega (arith, s.starts, s.ends) in
          elim s.last [
            | inl (eof, nothing) ↦ rw eof (
              x.0 ∷ [],
              refl,
              (
                scan.gap,
                s.text,
                s.left,
                split,
                scan.blank,
                s.starts,
                at_end,
                inl (eof, sym s.parts ∙ nothing, refl),
              ),
            )
            | inr (more, l) ↦
                let front' = front ++ (scan.gap ++ s.text) in
                let whole : source ≡ front' ++ s.left =
                  e
                  ∙ ap (λ (r : Chars). front ++ r)
                      (split ∙ sym (append_assoc scan.gap s.text s.left))
                  ∙ sym (append_assoc front (scan.gap ++ s.text) s.left) in
                let at : x.0.end ≡ byte_len front' = omega (
                  arith,
                  s.ends,
                  e',
                  byte_len-append front (scan.gap ++ s.text),
                  byte_len-append scan.gap s.text,
                ) in
                let shorter : length s.left < fuel = omega (
                  arith,
                  ap length split,
                  length-append scan.gap (s.text ++ s.left),
                  length-append s.text s.left,
                ) in
                let rest =
                  tokenize_loop-Covers fuel source front' s.left x.0.end (tokens ++ x.0 ∷ []) whole
                    at shorter in
                rw (more, s.after, sym s.ends)
                  (Yields-mono (Adds (tokens ++ x.0 ∷ []) x.0.end s.left) (Adds tokens i back) _
                    (λ r (ts, is, covers). (
                      x.0 ∷ ts,
                      is ∙ append_assoc tokens (x.0 ∷ []) ts,
                      (
                        scan.gap,
                        s.text,
                        s.left,
                        split,
                        scan.blank,
                        s.starts,
                        at_end,
                        inr (more, l, covers),
                      ),
                    ))
                    rest)
          ])

  -- `tokenize` ends on every source, without a panic, with an error or with tokens that cover
  -- the source: in order, each with its offsets in bytes, between them only whitespace and
  -- comments, each but the last of at least one character, and the last the end of the input at
  -- the end of the source.
  pub tokenize-Covers : (source : Chars) → Yields (Covers 0 source) (tokenize parse_f64 source)
  unfolding tokenize new_lexer
  tokenize-Covers source =
      Yields-mono (Adds [] 0 source) (Covers 0 source) _ (λ r (ts, is, covers). rw is covers)
        (tokenize_loop-Covers (1 + length source) source [] source 0 [] refl
          (unfold byte_len in refl) (omega arith))
