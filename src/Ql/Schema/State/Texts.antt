-- ===== src/Ql/Schema/State/Texts.antt =====
-- The words that schema.state is written of.
use epochs.Common.{
  [], ◌∷◌, ◌++◌, Bool, false, ◌||◌, some, ◌≡◌, refl, ap, ◌==◌, All, arith, Bool-cases, inl, inr,
  bytes_eq,
}
use epochs.Ql.Chars.{Chars, is_whitespace, within, to_ascii_uppercase}
use epochs.Ql.Schema.Ddl.{FieldType, parse_type}
use epochs.Ql.Schema.Lock.ReadBack.{has_newline}
use epochs.Ql.Schema.Registry.{CollectionSchema, index_name_for, slug}
use epochs.Ql.Schema.State.Words.{Word, has_blank}
use epochs.Ql.Schema.State.{before_dot, type_text}
use epochs.Text.{codes}

unfoldable pub has_dot : Chars → Bool
has_dot [] = false
has_dot (c ∷ name) = c == b'.' || has_dot name

-- A collection whose name and paths are words, its name without a dot, and whose indexes have the
-- names of their paths.
pub record Storable (entry : Chars × CollectionSchema) : Type 0 where
  pub own : entry.1.name ≡ entry.0
  pub word : Word entry.0
  pub no_dot : has_dot entry.0 ≡ false
  pub keys : All (λ f. Word f.path) entry.1.primary_key
  pub indexes : All (λ i. Word i.path × (i.name ≡ index_name_for entry.0 i.path)) entry.1.indexes

pub has_newline-append :
    (a b : Chars) → has_newline a ≡ false → has_newline b ≡ false → has_newline (a ++ b) ≡ false
unfolding has_newline
has_newline-append [] b e e' = e'
has_newline-append (c ∷ a) b e e' =
    let here : (c == b'\n') ≡ false = ground arith in
    let later : has_newline a ≡ false = ground arith in rw here (has_newline-append a b later e')

has_blank-append :
    (a b : Chars) → has_blank a ≡ false → has_blank b ≡ false → has_blank (a ++ b) ≡ false
unfolding has_blank
has_blank-append [] b e e' = e'
has_blank-append (c ∷ a) b e e' =
    let here : is_whitespace c ≡ false = ground arith in
    let later : has_blank a ≡ false = ground arith in rw here (has_blank-append a b later e')

pub blank-newline : (a : Chars) → has_blank a ≡ false → has_newline a ≡ false
unfolding has_blank has_newline
blank-newline [] e = refl
blank-newline (c ∷ a) e =
    let here : is_whitespace c ≡ false = ground arith in
    let later : has_blank a ≡ false = ground arith in
    let other : (c == b'\n') ≡ false = unfold is_whitespace within in ground arith in
    rw other (blank-newline a later)

pub Word-blank : (w : Chars) → Word w → has_blank w ≡ false
Word-blank [] w = absurd w
Word-blank (c ∷ word) w = w

underscore : is_whitespace b'_' ≡ false
unfolding is_whitespace within
underscore = refl

has_blank-slug : (path : Chars) → has_blank path ≡ false → has_blank (slug path) ≡ false
unfolding has_blank slug
has_blank-slug [] e = refl
has_blank-slug (c ∷ path) e =
    let here : is_whitespace c ≡ false = ground arith in
    let later : has_blank path ≡ false = ground arith in
    elim (Bool-cases (c == b'.')) [
      | inl dot ↦ rw (dot, underscore) (has_blank-slug path later)
      | inr other ↦ rw (other, here) (has_blank-slug path later)
    ]

pub Word-index_name_for : (k path : Chars) → Word k → Word path → Word (index_name_for k path)
unfolding index_name_for has_blank
Word-index_name_for [] path w w' = absurd w
Word-index_name_for (c ∷ k) path w w' =
    has_blank-append (c ∷ k) (codes ".by_" ++ slug path) w
      (unfold is_whitespace within in has_blank-slug path (Word-blank path w'))

pub before_dot-index : (k path : Chars) → has_dot k ≡ false → before_dot (index_name_for k path) ≡ k
unfolding before_dot has_dot index_name_for
before_dot-index [] path e = refl
before_dot-index (c ∷ k) path e =
    let here : (c == b'.') ≡ false = ground arith in
    let later : has_dot k ≡ false = ground arith in
    rw here (ap (λ rest. c ∷ rest) (before_dot-index k path later))

pub type_text-Word : (t : FieldType) → Word (type_text t)
unfolding type_text has_blank is_whitespace within
type_text-Word FieldType.string = refl
type_text-Word FieldType.int = refl
type_text-Word FieldType.bool = refl
type_text-Word FieldType.bytes = refl

pub parse_type-type_text : (t : FieldType) → parse_type (type_text t) ≡ some t
unfolding type_text parse_type to_ascii_uppercase within bytes_eq
parse_type-type_text FieldType.string = refl
parse_type-type_text FieldType.int = refl
parse_type-type_text FieldType.bool = refl
parse_type-type_text FieldType.bytes = refl
