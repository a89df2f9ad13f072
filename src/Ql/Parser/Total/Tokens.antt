-- ===== src/Ql/Parser/Total/Tokens.antt =====
-- The methods on a token return, and take the token where they do.
use epochs.Common.{
  ℕ, ◌≡◌, ◌≢◌, refl, sym, ap, ◌∙◌, subst, List, [], ◌∷◌, Bool, true, false, Option, none, some,
  arith, All, leb, length, Bool-cases, inl, inr,
}
use epochs.Ql.Chars.{Chars, slice}
use epochs.Ql.Error.{Parsed, ok, err, panicked, out_of_fuel}
use epochs.Ql.Lexer.Steps.{Yields, Yields-mono}
use epochs.Ql.Parser.{
  Parser, Parses, ◌>>=◌, fail, bump, expect, advance, same, looks_like_ident, source_text,
  expect_ident_or_keyword_as_ident, expect_ident, expect_string, string_of, expect_name, name_of,
  expect_u32, u32_of, continue,
}
use epochs.Ql.Token.{TokenKind, Token, ℤ, discriminant, is_word}
use epochs.Ql.Parser.Total.{
  Sliced, Ends, Good, left, Ran, Runs, any, is, pure-Runs, fail-Runs, widen, bind_first, check-Runs,
  if-Runs, on_kind-Runs,
}

module _ {F64 : Type 0} where
  advance-Ran :
      (source : Chars) (t : Token F64) (ts : List (Token F64))
      → Sliced source t
      → All (Sliced source) ts
      → Ends t ts
      → t.kind ≢ TokenKind.eof
      → Yields
          (λ (x : Token F64 × Parser F64).
            Ran true (length ts) x × (x.0 ≡ t) × (x.1.source ≡ source))
          (advance source t ts)
  unfolding advance Ends
  advance-Ran source t [] first others ends no_eof = absurd (no_eof ends)
  advance-Ran source t (u ∷ ts) first others ends no_eof =
      ((record { first = others.0; others = others.1; ends = ends }, omega arith), refl, refl)

  -- Where the test rules out the end of the input, `bump` takes the current token.
  pub bump-Takes :
      (C : TokenKind F64 → Bool) (s : Parser F64)
      → C TokenKind.eof ≡ false
      → Good s
      → C s.current.kind ≡ true
      → Yields
          (λ (x : Token F64 × Parser F64).
            Ran true (left s) x × (x.0 ≡ s.current) × (x.1.source ≡ s.source))
          (bump s)
  unfolding bump
  bump-Takes C s no_eof g c =
      advance-Ran s.source s.current s.rest g.first g.others g.ends
        (λ e. let bad : C TokenKind.eof ≡ true = rw e at c in cc)

  pub bump-Runs : {C : TokenKind F64 → Bool} {n : ℕ} → C TokenKind.eof ≡ false → Runs true C n bump
  bump-Runs {C = C} no_eof = record {
    at = λ s g c lt. Yields-mono _ _ (bump s) (λ x y. y.0) (bump-Takes C s no_eof g c);
  }

  pub expect-Runs :
      {n : ℕ} (kind : TokenKind F64)
      → same TokenKind.eof kind ≡ false
      → Runs true any n (expect kind)
  unfolding expect
  expect-Runs kind no_eof = check-Runs kind (bump-Runs no_eof) (on_kind-Runs (λ found. fail-Runs _))

  text-Ran :
      (s : Parser F64) (x : Token F64 × Parser F64)
      → Good s
      → Ran true (left s) x × (x.0 ≡ s.current) × (x.1.source ≡ s.source)
      → Yields (Ran true (left s)) (source_text x.0 x.1)
  unfolding source_text
  text-Ran s x g (ran, same_token, same_source) =
      let (text, found) = g.first in
      let here : slice x.1.source x.0.offset x.0.end ≡ some text =
        ap (λ (src : Chars). slice src x.0.offset x.0.end) same_source
        ∙ ap (λ (t : Token F64). slice s.source t.offset t.end) same_token
        ∙ found in
      let read : source_text x.0 x.1 ≡ ok (text, x.1) =
        ap
          (λ (o : Option Chars).
            let r : Parsed (Chars × Parser F64) = elim o [
              | none ↦ panicked
              | some t ↦ ok (t, x.1)
            ] in
            r)
          here in
      subst (Yields (Ran true (left s))) (sym read) ran

  continue_Takes :
      (s : Parser F64) (r : Parsed (Token F64 × Parser F64))
      → Good s
      → Yields
          (λ (x : Token F64 × Parser F64).
            Ran true (left s) x × (x.0 ≡ s.current) × (x.1.source ≡ s.source))
          r
      → Yields (Ran true (left s)) (continue r source_text)
  continue_Takes s (ok x) g y = text-Ran s x g y
  continue_Takes s (err e) g y = tt
  continue_Takes s panicked g y = y
  continue_Takes s out_of_fuel g y = y

  -- Where the test rules out the end of the input, the text of the current token is a slice.
  pub text-Runs :
      {C : TokenKind F64 → Bool} {n : ℕ}
      → C TokenKind.eof ≡ false
      → Runs true C n (bump >>= source_text)
  text-Runs {C = C} no_eof = record {
    at = λ s g c lt. continue_Takes s (bump s) g (bump-Takes C s no_eof g c);
  }

  name_text-Ran :
      (s : Parser F64)
      → is_word s.current.kind ≡ true
      → Good s
      → Yields (Ran true (left s)) ((bump >>= source_text) s)
  unfolding is_word
  name_text-Ran s e g = continue_Takes s (bump s) g (bump-Takes is_word s refl g e)

  -- A name is a slice of the source.
  pub ident-Runs : {n : ℕ} → Runs true (any {F64 = F64}) n expect_ident_or_keyword_as_ident
  unfolding expect_ident_or_keyword_as_ident looks_like_ident fail
  ident-Runs = record {
    at = λ s g c lt. elim (Bool-cases (is_word s.current.kind)) [
      | inl e ↦ rw e (name_text-Ran s e g)
      | inr e ↦ rw e tt
    ];
  }

  pub looks-Runs :
      {A : Type 0} {b : Bool} {C : TokenKind F64 → Bool} {n : ℕ} {p q : Parses F64 A}
      → Runs b C n p
      → Runs b C n q
      → Runs b C n (looks_like_ident p q)
  unfolding looks_like_ident
  looks-Runs r t = record {
    at = λ s g c lt. elim (Bool-cases (is_word s.current.kind)) [
      | inl e ↦ rw e (r.at s g c lt)
      | inr e ↦ rw e (t.at s g c lt)
    ];
  }

  string_of-Runs : {n : ℕ} (k : TokenKind F64) → Runs true (is k) n (string_of k)
  unfolding string_of same discriminant
  string_of-Runs (TokenKind.string x) = bind_first (bump-Runs refl) (λ t. pure-Runs)
  string_of-Runs _ = fail-Runs _

  pub string-Runs : {n : ℕ} → Runs true (any {F64 = F64}) n expect_string
  unfolding expect_string
  string-Runs = on_kind-Runs string_of-Runs

  name_of-Runs : {n : ℕ} (k : TokenKind F64) → Runs true (is k) n (name_of k)
  unfolding name_of expect_ident
  name_of-Runs (TokenKind.string x) = widen string-Runs
  name_of-Runs _ = widen ident-Runs

  pub name-Runs : {n : ℕ} → Runs true (any {F64 = F64}) n expect_name
  unfolding expect_name
  name-Runs = on_kind-Runs name_of-Runs

  u32_of-Runs : {n : ℕ} (k : TokenKind F64) → Runs true (is k) n (u32_of k)
  unfolding u32_of same discriminant
  u32_of-Runs (TokenKind.int (ℤ.pos m)) =
      if-Runs (leb m 0xffffffff) (bind_first (bump-Runs refl) (λ t. pure-Runs)) (fail-Runs _)
  u32_of-Runs _ = fail-Runs _

  pub u32-Runs : {n : ℕ} → Runs true (any {F64 = F64}) n expect_u32
  unfolding expect_u32
  u32-Runs = on_kind-Runs u32_of-Runs
