-- ===== src/Ql/Parser/Total.antt =====
-- Methods of the parser that return: from a good state they end, with a good state and no more
-- tokens left, or with an error.
pub mod Tokens
use epochs.Common.{
  ℕ, zero, suc, ◌+◌, ◌≤◌, ◌<◌, ◌≡◌, ◌≢◌, refl, sym, ap, ◌∙◌, subst, List, [], ◌∷◌, Bool, true,
  false, Option, none, some, if◌then◌else◌, arith, All, leb, length, ◌==◌, Bool-cases, inl, inr,
  Option-cases,
}
use epochs.Ql.Chars.{Chars, slice}
use epochs.Ql.Error.{Message, Parsed, ok, err, panicked, out_of_fuel}
use epochs.Ql.Lexer.Steps.{Yields, Yields-mono}
use epochs.Ql.Parser.{
  Parser, Parses, ◌>>=◌, pure, no_round, check, on_kind, fail, bump, expect, advance, same,
  looks_like_ident, source_text, expect_ident_or_keyword_as_ident, expect_ident, expect_string,
  string_of, expect_name, name_of, expect_u32, u32_of, continue,
}
use epochs.Ql.Token.{TokenKind, Token, ℤ, discriminant, is_word}

-- `k` tokens are left of `m`, one at least taken if the flag says so.
abbrev pub Fewer : Bool → ℕ → ℕ → Type 0
Fewer true k m = k < m
Fewer false k m = k ≤ m

Fewer-trans : (b : Bool) (k m n : ℕ) → m ≤ n → Fewer b k m → Fewer b k n
Fewer-trans true k m n le f = omega arith
Fewer-trans false k m n le f = omega arith

Fewer-relax : (b : Bool) (k m : ℕ) → Fewer b k m → k ≤ m
Fewer-relax true k m f = omega arith
Fewer-relax false k m f = f

Fewer-lt : (b : Bool) (k m n : ℕ) → m < n → Fewer b k m → k < n
Fewer-lt b k m n lt f = omega (arith, Fewer-relax b k m f)

module _ {F64 : Type 0} where
  -- The token stands for a slice of the source.
  abbrev pub Sliced : Chars → Token F64 → Type 0
  Sliced source t = (text : Chars) × (slice source t.offset t.end ≡ some text)

  -- Only the last token is the end of the input.
  unfoldable pub Ends : Token F64 → List (Token F64) → Type 0
  Ends t [] = t.kind ≡ TokenKind.eof
  Ends t (u ∷ ts) = Ends u ts

  pub record Good (s : Parser F64) : Type 0 where
    pub first : Sliced s.source s.current
    pub others : All (Sliced s.source) s.rest
    pub ends : Ends s.current s.rest

  abbrev pub left : Parser F64 → ℕ
  left s = length s.rest

  abbrev pub Ran : {A : Type 0} → Bool → ℕ → A × Parser F64 → Type 0
  Ran b m x = Good x.1 × Fewer b (left x.1) m

  -- The method returns wherever the kind of the current token passes the test `C` and fewer than `n`
  -- tokens follow it.
  pub record Runs {A : Type 0} (b : Bool) (C : TokenKind F64 → Bool) (n : ℕ) (p : Parses F64 A)
      : Type 0 where
    pub at :
        (s : Parser F64)
        → Good s
        → C s.current.kind ≡ true
        → left s < n
        → Yields (Ran b (left s)) (p s)

  abbrev pub any : TokenKind F64 → Bool
  any k = true

  abbrev pub is : TokenKind F64 → TokenKind F64 → Bool
  is k k' = same k' k

  pub pure-Runs : {A : Type 0} {C : TokenKind F64 → Bool} {n : ℕ} {a : A} → Runs false C n (pure a)
  pure-Runs = record { at = λ s g c lt. (g, omega arith) }

  pub fail-Runs :
      {A : Type 0} {b : Bool} {C : TokenKind F64 → Bool} {n : ℕ} (m : Message)
      → Runs {A = A} b C n (fail m)
  unfolding fail
  fail-Runs m = record { at = λ s g c lt. tt }

  pub Runs-zero :
      {A : Type 0} {b : Bool} {C : TokenKind F64 → Bool} {p : Parses F64 A} → Runs b C zero p
  Runs-zero = record { at = λ s g c lt. absurd (omega arith) }

  Yields-Ran :
      {A : Type 0} (b b' : Bool) (m n : ℕ) (r : Parsed (A × Parser F64))
      → ((k : ℕ) → Fewer b k m → Fewer b' k n)
      → Yields (Ran b m) r
      → Yields (Ran b' n) r
  Yields-Ran b b' m n (ok x) f y = (y.0, f (left x.1) y.1)
  Yields-Ran b b' m n (err e) f y = tt
  Yields-Ran b b' m n panicked f y = y
  Yields-Ran b b' m n out_of_fuel f y = y

  pub relax :
      {A : Type 0} {C : TokenKind F64 → Bool} {n : ℕ} {p : Parses F64 A}
      → Runs true C n p
      → Runs false C n p
  relax {p = p} r = record {
    at = λ s g c lt.
        Yields-Ran true false (left s) (left s) (p s) (λ k f. omega arith) (r.at s g c lt);
  }

  pub widen :
      {A : Type 0} {b : Bool} {C : TokenKind F64 → Bool} {n : ℕ} {p : Parses F64 A}
      → Runs b any n p
      → Runs b C n p
  widen r = record { at = λ s g c lt. r.at s g refl lt }

  pub weaken :
      {A : Type 0} {b : Bool} {C : TokenKind F64 → Bool} (m n : ℕ) {p : Parses F64 A}
      → m ≤ n
      → Runs b C n p
      → Runs b C m p
  weaken m n le r = record { at = λ s g c lt. r.at s g c (omega arith) }

  continue-Ran :
      {A B : Type 0} (b b' : Bool) (m n : ℕ) (r : Parsed (A × Parser F64)) (f : A → Parses F64 B)
      → Yields (Ran b m) r
      → ((x : A × Parser F64) → Ran b m x → Yields (Ran b' n) (f x.0 x.1))
      → Yields (Ran b' n) (continue r f)
  continue-Ran b b' m n (ok x) f y g = g x y
  continue-Ran b b' m n (err e) f y g = tt
  continue-Ran b b' m n panicked f y g = y
  continue-Ran b b' m n out_of_fuel f y g = y

  -- A method that takes a token leaves fewer for the next.
  pub bind_strict :
      {A B : Type 0} {C : TokenKind F64 → Bool} {n : ℕ} {p : Parses F64 A} {f : A → Parses F64 B}
      → Runs true C (suc n) p
      → ((a : A) → Runs false any n (f a))
      → Runs true C (suc n) (p >>= f)
  bind_strict {p = p} {f = f} r k = record {
    at = λ s g c lt. continue-Ran true true (left s) (left s) (p s) f (r.at s g c lt) (λ x y.
        Yields-Ran false true (left x.1) (left s) (f x.0 x.1) (λ j h. omega arith)
          ((k x.0).at x.1 y.0 refl (omega arith)));
  }

  -- The same, where the next is known at the same number.
  pub bind_first :
      {A B : Type 0} {C : TokenKind F64 → Bool} {n : ℕ} {p : Parses F64 A} {f : A → Parses F64 B}
      → Runs true C n p
      → ((a : A) → Runs false any n (f a))
      → Runs true C n (p >>= f)
  bind_first {p = p} {f = f} r k = record {
    at = λ s g c lt. continue-Ran true true (left s) (left s) (p s) f (r.at s g c lt) (λ x y.
        Yields-Ran false true (left x.1) (left s) (f x.0 x.1) (λ j h. omega arith)
          ((k x.0).at x.1 y.0 refl (omega arith)));
  }

  pub bind :
      {A B : Type 0} {b : Bool} {C : TokenKind F64 → Bool} {n : ℕ} {p : Parses F64 A}
      {f : A → Parses F64 B}
      → Runs false C n p
      → ((a : A) → Runs b any n (f a))
      → Runs b C n (p >>= f)
  bind {b = b} {p = p} {f = f} r k = record {
    at = λ s g c lt. continue-Ran false b (left s) (left s) (p s) f (r.at s g c lt) (λ x y.
        Yields-Ran b b (left x.1) (left s) (f x.0 x.1)
          (λ j h. Fewer-trans b j (left x.1) (left s) y.1 h)
          ((k x.0).at x.1 y.0 refl (omega arith)));
  }

  pub check-Runs :
      {A : Type 0} {b : Bool} {n : ℕ} (kind : TokenKind F64) {p q : Parses F64 A}
      → Runs b (is kind) n p
      → Runs b any n q
      → Runs b any n (check kind p q)
  unfolding check
  check-Runs kind {p = p} {q = q} r t = record {
    at = λ s g c lt. elim (Bool-cases (same s.current.kind kind)) [
      | inl e ↦ rw e (r.at s g e lt)
      | inr e ↦ rw e (t.at s g refl lt)
    ];
  }

  pub if-Runs :
      {A : Type 0} {b : Bool} {C : TokenKind F64 → Bool} {n : ℕ} (c : Bool) {p q : Parses F64 A}
      → Runs b C n p
      → Runs b C n q
      → Runs b C n (if c then p else q)
  if-Runs true r t = r
  if-Runs false r t = t

  pub same_refl : (k : TokenKind F64) → same k k ≡ true
  unfolding same
  same_refl k = ground arith

  pub on_kind-Runs :
      {A : Type 0} {b : Bool} {C : TokenKind F64 → Bool} {n : ℕ}
      {arms : TokenKind F64 → Parses F64 A}
      → ((k : TokenKind F64) → Runs b (is k) n (arms k))
      → Runs b C n (on_kind arms)
  unfolding on_kind
  on_kind-Runs r = record {
    at = λ s g c lt. (r s.current.kind).at s g (same_refl s.current.kind) lt;
  }
