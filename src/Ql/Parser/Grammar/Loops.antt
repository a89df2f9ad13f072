-- ===== src/Ql/Parser/Grammar/Loops.antt =====
-- The loop of a level of the grammar of expressions.
use epochs.Common.{
  ℕ, zero, suc, ◌+◌, ◌≤◌, ◌<◌, ◌≡◌, refl, ap, ◌∙◌, List, [], ◌∷◌, ◌++◌, false, arith, length,
  length-append,
}
use epochs.Ql.Ast.{Expression}
use epochs.Ql.Chars.{Chars}
use epochs.Ql.Error.{ok}
use epochs.Ql.Parser.Grammar.Primaries.{EndsPostfix, EndsEquality, EndsAnd}
use epochs.Ql.Parser.Grammar.Reads.{at, at-append}
use epochs.Ql.Parser.{Parses, same}
use epochs.Ql.Token.{TokenKind, Token, discriminant}

suc_of : (m : ℕ) → 1 ≤ m → (k : ℕ) × (m ≡ suc k)
suc_of zero le = absurd (omega arith)
suc_of (suc k) le = (k, refl)

module _ {F64 : Type 0} (source : Chars) where
  -- The method comes to its loop at the expression `e` behind the tokens `us`, with a round less
  -- for each of them at most.
  abbrev pub Loops :
      ℕ
      → Parses F64 (Expression F64)
      → (ℕ → Expression F64 → Parses F64 (Expression F64))
      → List (Token F64)
      → Expression F64
      → Token F64
      → List (Token F64)
      → Type 0
  Loops rounds p loop us e t ts =
      (left : ℕ) × (rounds ≤ left + length us)
      × (p (at source us t ts) ≡ loop left e (at source [] t ts))

  -- One time more of the loop.
  pub Loops-step :
      (rounds : ℕ) (p : Parses F64 (Expression F64))
      (loop : ℕ → Expression F64 → Parses F64 (Expression F64)) (us : List (Token F64))
      (o : Token F64) (vs : List (Token F64)) (a c : Expression F64) (t : Token F64)
      (ts : List (Token F64))
      → length (us ++ (o ∷ vs)) < rounds
      → Loops rounds p loop us a o (vs ++ (t ∷ ts))
      → ((l : ℕ)
          → length vs < l
          → loop (suc l) a (at source (o ∷ vs) t ts) ≡ loop l c (at source [] t ts))
      → Loops rounds p loop (us ++ (o ∷ vs)) c t ts
  Loops-step rounds p loop us o vs a c t ts lt (left, enough, run) next =
      let whole = length-append us (o ∷ vs) in
      let (l, is) = suc_of left (omega arith) in
      let here : loop left a (at source [] o (vs ++ (t ∷ ts)))
          ≡ loop (suc l) a (at source (o ∷ vs) t ts) =
        unfold at in ap (λ left. loop left a (at source [] o (vs ++ (t ∷ ts)))) is in
      (l, omega arith, ap p (at-append source us o vs t ts) ∙ run ∙ here ∙ next l (omega arith))

  -- A loop that stops where it is.
  pub Loops-stop :
      (rounds : ℕ) (p : Parses F64 (Expression F64))
      (loop : ℕ → Expression F64 → Parses F64 (Expression F64)) (us : List (Token F64))
      (e : Expression F64) (t : Token F64) (ts : List (Token F64))
      → length us < rounds
      → Loops rounds p loop us e t ts
      → ((l : ℕ) → loop (suc l) e (at source [] t ts) ≡ ok (e, at source [] t ts))
      → p (at source us t ts) ≡ ok (e, at source [] t ts)
  Loops-stop rounds p loop us e t ts lt (left, enough, run) stop =
      let (l, is) = suc_of left (omega arith) in
      run ∙ ap (λ left. loop left e (at source [] t ts)) is ∙ stop l

module _ {F64 : Type 0} where
  -- An operator ends what binds tighter.
  pub eq-ends : (k : TokenKind F64) → k ≡ TokenKind.eq → EndsPostfix k
  unfolding same discriminant
  eq-ends k e = rw e refl

  pub neq-ends : (k : TokenKind F64) → k ≡ TokenKind.neq → EndsPostfix k
  unfolding same discriminant
  neq-ends k e = rw e refl

  pub neq-other : (k : TokenKind F64) → k ≡ TokenKind.neq → same k TokenKind.eq ≡ false
  unfolding same discriminant
  neq-other k e = rw e refl

  pub and-ends : (k : TokenKind F64) → k ≡ TokenKind.and → EndsEquality k
  unfolding same discriminant
  and-ends k e = rw e (refl, refl, refl)

  pub or-ends : (k : TokenKind F64) → k ≡ TokenKind.or → EndsAnd k
  unfolding same discriminant
  or-ends k e = rw e (refl, (refl, refl, refl))
