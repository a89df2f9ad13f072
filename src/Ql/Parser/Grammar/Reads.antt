-- ===== src/Ql/Parser/Grammar/Reads.antt =====
-- The parser of expressions reads the tokens of the grammar.
use epochs.Common.{◌≡◌, refl, ap, ◌∙◌, List, [], ◌∷◌, ◌++◌, true, false, some, append_assoc}
use epochs.Ql.Chars.{Chars, slice}
use epochs.Ql.Error.{Parsed, ok}
use epochs.Ql.Parser.{
  Parser, Parses, continue, same, check, on_kind, bump, advance, expect, looks_like_ident,
  source_text, expect_ident_or_keyword_as_ident,
}
use epochs.Ql.Parser.Grammar.{Word}
use epochs.Ql.Parser.Total.{same_refl}
use epochs.Ql.Token.{TokenKind, Token, is_word}

module _ {F64 : Type 0} where
  -- The parser before the tokens `us`, which `t` and `ts` follow.
  unfoldable pub at : Chars → List (Token F64) → Token F64 → List (Token F64) → Parser F64
  at source [] t ts = record { source = source; current = t; rest = ts }
  at source (u ∷ us) t ts = record { source = source; current = u; rest = us ++ (t ∷ ts) }

  pub at-append :
      (source : Chars) (us : List (Token F64)) (o : Token F64) (vs : List (Token F64))
      (t : Token F64) (ts : List (Token F64))
      → at source (us ++ (o ∷ vs)) t ts ≡ at source us o (vs ++ (t ∷ ts))
  unfolding at
  at-append source [] o vs t ts = refl
  at-append source (u ∷ us) o vs t ts = rw (append_assoc us (o ∷ vs) (t ∷ ts)) refl

  -- What reads the tokens before `o` stops at `o`.
  pub before :
      {A : Type 0} (p : Parses F64 A) (source : Chars) (a : A) (us : List (Token F64))
      (o : Token F64) (vs : List (Token F64)) (t : Token F64) (ts : List (Token F64))
      → p (at source us o (vs ++ (t ∷ ts))) ≡ ok (a, at source [] o (vs ++ (t ∷ ts)))
      → p (at source (us ++ (o ∷ vs)) t ts) ≡ ok (a, at source (o ∷ vs) t ts)
  before p source a us o vs t ts e = ap p (at-append source us o vs t ts) ∙ e ∙ unfold at in refl

  pub bump-at :
      (source : Chars) (u : Token F64) (us : List (Token F64)) (t : Token F64)
      (ts : List (Token F64))
      → bump (at source (u ∷ us) t ts) ≡ ok (u, at source us t ts)
  unfolding bump advance at
  bump-at source u [] t ts = refl
  bump-at source u (v ∷ us) t ts = refl

  -- A method that returns, and then another.
  pub seq :
      {A B : Type 0} {r : Parsed (A × Parser F64)} {a : A} {s : Parser F64}
      {out : Parsed (B × Parser F64)} (f : A → Parses F64 B)
      → r ≡ ok (a, s)
      → f a s ≡ out
      → continue r f ≡ out
  seq f e e' = ap (λ r. continue r f) e ∙ e'

  pub check-yes :
      {A : Type 0} (p q : Parses F64 A) {out : Parsed (A × Parser F64)} (kind : TokenKind F64)
      (source : Chars) (u : Token F64) (us : List (Token F64)) (t : Token F64)
      (ts : List (Token F64))
      → u.kind ≡ kind
      → p (at source (u ∷ us) t ts) ≡ out
      → check kind p q (at source (u ∷ us) t ts) ≡ out
  unfolding check at
  check-yes p q kind source u us t ts e run =
      let yes : same u.kind kind ≡ true = ap (λ k. same k kind) e ∙ same_refl kind in rw yes run

  pub check-no :
      {A : Type 0} (p q : Parses F64 A) {out : Parsed (A × Parser F64)} (kind : TokenKind F64)
      (source : Chars) (t : Token F64) (ts : List (Token F64))
      → same t.kind kind ≡ false
      → q (at source [] t ts) ≡ out
      → check kind p q (at source [] t ts) ≡ out
  unfolding check at
  check-no p q kind source t ts e run = rw e run

  pub check-other :
      {A : Type 0} (p q : Parses F64 A) {out : Parsed (A × Parser F64)} (kind : TokenKind F64)
      (s : Parser F64)
      → same s.current.kind kind ≡ false
      → q s ≡ out
      → check kind p q s ≡ out
  unfolding check
  check-other p q kind s e run = rw e run

  pub on_kind-at :
      {A : Type 0} (arms : TokenKind F64 → Parses F64 A) {out : Parsed (A × Parser F64)}
      (kind : TokenKind F64) (source : Chars) (u : Token F64) (us : List (Token F64))
      (t : Token F64) (ts : List (Token F64))
      → u.kind ≡ kind
      → arms kind (at source (u ∷ us) t ts) ≡ out
      → on_kind arms (at source (u ∷ us) t ts) ≡ out
  unfolding on_kind at
  on_kind-at arms kind source u us t ts e run = ap (λ k. arms k (at source (u ∷ us) t ts)) e ∙ run

  pub expect-at :
      (kind : TokenKind F64) (source : Chars) (u : Token F64) (us : List (Token F64))
      (t : Token F64) (ts : List (Token F64))
      → u.kind ≡ kind
      → expect kind (at source (u ∷ us) t ts) ≡ ok (u, at source us t ts)
  unfolding expect
  expect-at kind source u us t ts e =
      check-yes _ _ kind source u us t ts e (bump-at source u us t ts)

  source_text-at :
      (source : Chars) (name : Chars) (u : Token F64) (us : List (Token F64)) (t : Token F64)
      (ts : List (Token F64))
      → slice source u.offset u.end ≡ some name
      → source_text u (at source us t ts) ≡ ok (name, at source us t ts)
  unfolding source_text at
  source_text-at source name u [] t ts e = rw (source_text, e) refl
  source_text-at source name u (v ∷ us) t ts e = rw (source_text, e) refl

  pub is_word-at :
      {A : Type 0} (p q : Parses F64 A) {out : Parsed (A × Parser F64)} (source : Chars)
      (u : Token F64) (us : List (Token F64)) (t : Token F64) (ts : List (Token F64))
      → is_word u.kind ≡ true
      → p (at source (u ∷ us) t ts) ≡ out
      → looks_like_ident p q (at source (u ∷ us) t ts) ≡ out
  unfolding looks_like_ident at
  is_word-at p q source u us t ts e run = rw e run

  pub ident-at :
      (source : Chars) (name : Chars) (u : Token F64) (us : List (Token F64)) (t : Token F64)
      (ts : List (Token F64))
      → Word source u name
      → expect_ident_or_keyword_as_ident (at source (u ∷ us) t ts) ≡ ok (name, at source us t ts)
  unfolding expect_ident_or_keyword_as_ident
  ident-at source name u us t ts w =
      is_word-at _ _ source u us t ts w.word
        (seq source_text (bump-at source u us t ts) (source_text-at source name u us t ts w.text))
