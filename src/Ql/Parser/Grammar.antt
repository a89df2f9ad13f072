-- ===== src/Ql/Parser/Grammar.antt =====
-- The grammar of expressions, as relations between tokens and what they stand for: `OR` binds less
-- than `AND`, `AND` less than `=` and `!=`, these less than `.`, and all of them to the left.
pub mod Reads
pub mod Primaries
pub mod Loops
pub mod Levels
use epochs.Common.{ℕ, ◌≡◌, List, [], ◌∷◌, ◌++◌, Bool, true, false, Option, none, some}
use epochs.Ql.Ast.{Expression, Entries, BinaryOp, insert_entry}
use epochs.Ql.Chars.{Chars, slice}
use epochs.Ql.Parser.Expressions.{negate}
use epochs.Ql.Token.{TokenKind, Token, ℤ, is_word}

-- The expressions of one token that is not a name.
unfoldable pub literal : {F64 : Type 0} → TokenKind F64 → Option (Expression F64)
literal TokenKind.null = some Expression.null
literal TokenKind.true_kw = some (Expression.bool true)
literal TokenKind.false_kw = some (Expression.bool false)
literal (TokenKind.int n) = some (Expression.int n)
literal (TokenKind.float x) = some (Expression.float x)
literal (TokenKind.string s) = some (Expression.string s)
literal k = none

-- A token that stands for a name, a keyword included.
pub record Word {F64 : Type 0} (source : Chars) (t : Token F64) (name : Chars) : Type 0 where
  pub word : is_word t.kind ≡ true
  pub text : slice source t.offset t.end ≡ some name

module _ {F64 : Type 0} (neg_f64 : F64 → F64) (source : Chars) where
  mutual
    pub data Primary : List (Token F64) → Expression F64 → Type 0 where
      atom : {t : Token F64} {e : Expression F64} → literal t.kind ≡ some e → Primary (t ∷ []) e
      name :
          {t : Token F64} {x : Chars}
          → Word source t x
          → literal t.kind ≡ none
          → Primary (t ∷ []) (Expression.variable x)
      negative_int :
          {m t : Token F64} (n : ℤ)
          → m.kind ≡ TokenKind.minus
          → t.kind ≡ TokenKind.int n
          → Primary (m ∷ t ∷ []) (Expression.int (negate n))
      negative_float :
          {m t : Token F64} (x : F64)
          → m.kind ≡ TokenKind.minus
          → t.kind ≡ TokenKind.float x
          → Primary (m ∷ t ∷ []) (Expression.float (neg_f64 x))
      parens :
          (l r : Token F64) (us : List (Token F64)) {e : Expression F64}
          → l.kind ≡ TokenKind.lparen
          → Or us e
          → r.kind ≡ TokenKind.rparen
          → Primary (l ∷ (us ++ (r ∷ []))) e
      empty_map :
          {l r : Token F64}
          → l.kind ≡ TokenKind.lbrace
          → r.kind ≡ TokenKind.rbrace
          → Primary (l ∷ r ∷ []) (Expression.map Entries.empty)
      map :
          (l r : Token F64) (us : List (Token F64)) {entries : Entries F64}
          → l.kind ≡ TokenKind.lbrace
          → Pairs Entries.empty us entries
          → r.kind ≡ TokenKind.rbrace
          → Primary (l ∷ (us ++ (r ∷ []))) (Expression.map entries)

    -- The pairs of a map literal, added to those before them.
    pub data Pairs : Entries F64 → List (Token F64) → Entries F64 → Type 0 where
      last :
          {entries : Entries F64} {k c : Token F64} (key : Chars) {us : List (Token F64)}
          (value : Expression F64)
          → Word source k key
          → c.kind ≡ TokenKind.colon
          → Or us value
          → Pairs entries (k ∷ c ∷ us) (insert_entry key value entries)
      more :
          {entries done : Entries F64} {k c : Token F64} (comma : Token F64) (key : Chars)
          (us vs : List (Token F64)) (value : Expression F64)
          → Word source k key
          → c.kind ≡ TokenKind.colon
          → Or us value
          → comma.kind ≡ TokenKind.comma
          → Pairs (insert_entry key value entries) vs done
          → Pairs entries (k ∷ c ∷ (us ++ (comma ∷ vs))) done

    pub data Postfix : List (Token F64) → Expression F64 → Type 0 where
      primary : {us : List (Token F64)} {e : Expression F64} → Primary us e → Postfix us e
      access :
          (us : List (Token F64)) (d t : Token F64) {e : Expression F64} {property : Chars}
          → Postfix us e
          → d.kind ≡ TokenKind.dot
          → Word source t property
          → Postfix (us ++ (d ∷ t ∷ [])) (Expression.property_access e property)

    pub data Equality : List (Token F64) → Expression F64 → Type 0 where
      postfix : {us : List (Token F64)} {e : Expression F64} → Postfix us e → Equality us e
      equal :
          (us vs : List (Token F64)) (o : Token F64) {a b : Expression F64}
          → Equality us a
          → o.kind ≡ TokenKind.eq
          → Postfix vs b
          → Equality (us ++ (o ∷ vs)) (Expression.binary a BinaryOp.eq b)
      unequal :
          (us vs : List (Token F64)) (o : Token F64) {a b : Expression F64}
          → Equality us a
          → o.kind ≡ TokenKind.neq
          → Postfix vs b
          → Equality (us ++ (o ∷ vs)) (Expression.binary a BinaryOp.neq b)

    pub data And : List (Token F64) → Expression F64 → Type 0 where
      equality : {us : List (Token F64)} {e : Expression F64} → Equality us e → And us e
      both :
          (us vs : List (Token F64)) (o : Token F64) {a b : Expression F64}
          → And us a
          → o.kind ≡ TokenKind.and
          → Equality vs b
          → And (us ++ (o ∷ vs)) (Expression.binary a BinaryOp.and b)

    pub data Or : List (Token F64) → Expression F64 → Type 0 where
      conjunction : {us : List (Token F64)} {e : Expression F64} → And us e → Or us e
      either :
          (us vs : List (Token F64)) (o : Token F64) {a b : Expression F64}
          → Or us a
          → o.kind ≡ TokenKind.or
          → And vs b
          → Or (us ++ (o ∷ vs)) (Expression.binary a BinaryOp.or b)
