-- ===== src/Ql/Token.antt =====
-- The tokens of epochql/src/lexer.rs. `F64` is the type of the floating-point numbers.
use epochs.Assoc
use epochs.Common.{Bool, true, false, ℕ, List, [], ◌∷◌, none, some}
use epochs.Ql.Chars.{Chars, to_ascii_uppercase}
use epochs.Text.{codes}

-- The literals of an `i64`.
pub data ℤ : Type 0 where
  pos : ℕ → ℤ
  negsuc : ℕ → ℤ

pub data TokenKind (F64 : Type 0) : Type 0 where
  use_kw : TokenKind F64
  branch : TokenKind F64
  commit : TokenKind F64
  tag : TokenKind F64
  head : TokenKind F64
  match_kw : TokenKind F64
  traverse : TokenKind F64
  merge_base : TokenKind F64
  shortest_path : TokenKind F64
  ancestors : TokenKind F64
  where_kw : TokenKind F64
  select : TokenKind F64
  as_kw : TokenKind F64
  create : TokenKind F64
  delete : TokenKind F64
  from : TokenKind F64
  checkout : TokenKind F64
  merge : TokenKind F64
  into : TokenKind F64
  strategy : TokenKind F64
  fast_forward : TokenKind F64
  three_way : TokenKind F64
  squash : TokenKind F64
  diff : TokenKind F64
  and : TokenKind F64
  or : TokenKind F64
  message : TokenKind F64
  parents : TokenKind F64
  path : TokenKind F64
  parent : TokenKind F64
  child : TokenKind F64
  ancestor : TokenKind F64
  descendant : TokenKind F64
  null : TokenKind F64
  true_kw : TokenKind F64
  false_kw : TokenKind F64
  collection : TokenKind F64
  index : TokenKind F64
  key : TokenKind F64
  drop : TokenKind F64
  on : TokenKind F64
  type_kw : TokenKind F64
  ty_string : TokenKind F64
  ty_int : TokenKind F64
  ty_bool : TokenKind F64
  ty_bytes : TokenKind F64
  ident : Chars → TokenKind F64
  string : Chars → TokenKind F64
  int : ℤ → TokenKind F64
  float : F64 → TokenKind F64
  semicolon : TokenKind F64
  comma : TokenKind F64
  dot : TokenKind F64
  colon : TokenKind F64
  eq : TokenKind F64
  neq : TokenKind F64
  star : TokenKind F64
  dot_dot : TokenKind F64
  lparen : TokenKind F64
  rparen : TokenKind F64
  lbrace : TokenKind F64
  rbrace : TokenKind F64
  lbracket : TokenKind F64
  rbracket : TokenKind F64
  arrow_right : TokenKind F64
  arrow_left : TokenKind F64
  minus : TokenKind F64
  eof : TokenKind F64

pub record Token (F64 : Type 0) : Type 0 where
  pub kind : TokenKind F64
  pub offset : ℕ
  pub end : ℕ

-- The arms of `keyword_or_ident`.
abbrev pub keywords : {F64 : Type 0} → List (Chars × TokenKind F64)
keywords =
    (codes "USE", TokenKind.use_kw)
    ∷ (codes "BRANCH", TokenKind.branch)
    ∷ (codes "COMMIT", TokenKind.commit)
    ∷ (codes "TAG", TokenKind.tag)
    ∷ (codes "HEAD", TokenKind.head)
    ∷ (codes "MATCH", TokenKind.match_kw)
    ∷ (codes "TRAVERSE", TokenKind.traverse)
    ∷ (codes "MERGE_BASE", TokenKind.merge_base)
    ∷ (codes "SHORTEST_PATH", TokenKind.shortest_path)
    ∷ (codes "ANCESTORS", TokenKind.ancestors)
    ∷ (codes "WHERE", TokenKind.where_kw)
    ∷ (codes "SELECT", TokenKind.select)
    ∷ (codes "AS", TokenKind.as_kw)
    ∷ (codes "CREATE", TokenKind.create)
    ∷ (codes "DELETE", TokenKind.delete)
    ∷ (codes "FROM", TokenKind.from)
    ∷ (codes "CHECKOUT", TokenKind.checkout)
    ∷ (codes "MERGE", TokenKind.merge)
    ∷ (codes "INTO", TokenKind.into)
    ∷ (codes "STRATEGY", TokenKind.strategy)
    ∷ (codes "FAST_FORWARD", TokenKind.fast_forward)
    ∷ (codes "THREE_WAY", TokenKind.three_way)
    ∷ (codes "SQUASH", TokenKind.squash)
    ∷ (codes "DIFF", TokenKind.diff)
    ∷ (codes "AND", TokenKind.and)
    ∷ (codes "OR", TokenKind.or)
    ∷ (codes "MESSAGE", TokenKind.message)
    ∷ (codes "PARENTS", TokenKind.parents)
    ∷ (codes "PATH", TokenKind.path)
    ∷ (codes "PARENT", TokenKind.parent)
    ∷ (codes "CHILD", TokenKind.child)
    ∷ (codes "ANCESTOR", TokenKind.ancestor)
    ∷ (codes "DESCENDANT", TokenKind.descendant)
    ∷ (codes "NULL", TokenKind.null)
    ∷ (codes "TRUE", TokenKind.true_kw)
    ∷ (codes "FALSE", TokenKind.false_kw)
    ∷ (codes "COLLECTION", TokenKind.collection)
    ∷ (codes "INDEX", TokenKind.index)
    ∷ (codes "KEY", TokenKind.key)
    ∷ (codes "DROP", TokenKind.drop)
    ∷ (codes "ON", TokenKind.on)
    ∷ (codes "TYPE", TokenKind.type_kw)
    ∷ (codes "STRING", TokenKind.ty_string)
    ∷ (codes "INT", TokenKind.ty_int)
    ∷ (codes "BOOL", TokenKind.ty_bool)
    ∷ (codes "BYTES", TokenKind.ty_bytes)
    ∷ []

unfoldable pub keyword_or_ident : {F64 : Type 0} → Chars → TokenKind F64
keyword_or_ident text = elim (Assoc.get (to_ascii_uppercase text) keywords) [
  | some kind ↦ kind
  | none ↦ TokenKind.ident text
]

-- `mem::discriminant`: the number of the variant.
unfoldable pub discriminant : {F64 : Type 0} → TokenKind F64 → ℕ
discriminant TokenKind.use_kw = 0
discriminant TokenKind.branch = 1
discriminant TokenKind.commit = 2
discriminant TokenKind.tag = 3
discriminant TokenKind.head = 4
discriminant TokenKind.match_kw = 5
discriminant TokenKind.traverse = 6
discriminant TokenKind.merge_base = 7
discriminant TokenKind.shortest_path = 8
discriminant TokenKind.ancestors = 9
discriminant TokenKind.where_kw = 10
discriminant TokenKind.select = 11
discriminant TokenKind.as_kw = 12
discriminant TokenKind.create = 13
discriminant TokenKind.delete = 14
discriminant TokenKind.from = 15
discriminant TokenKind.checkout = 16
discriminant TokenKind.merge = 17
discriminant TokenKind.into = 18
discriminant TokenKind.strategy = 19
discriminant TokenKind.fast_forward = 20
discriminant TokenKind.three_way = 21
discriminant TokenKind.squash = 22
discriminant TokenKind.diff = 23
discriminant TokenKind.and = 24
discriminant TokenKind.or = 25
discriminant TokenKind.message = 26
discriminant TokenKind.parents = 27
discriminant TokenKind.path = 28
discriminant TokenKind.parent = 29
discriminant TokenKind.child = 30
discriminant TokenKind.ancestor = 31
discriminant TokenKind.descendant = 32
discriminant TokenKind.null = 33
discriminant TokenKind.true_kw = 34
discriminant TokenKind.false_kw = 35
discriminant TokenKind.collection = 36
discriminant TokenKind.index = 37
discriminant TokenKind.key = 38
discriminant TokenKind.drop = 39
discriminant TokenKind.on = 40
discriminant TokenKind.type_kw = 41
discriminant TokenKind.ty_string = 42
discriminant TokenKind.ty_int = 43
discriminant TokenKind.ty_bool = 44
discriminant TokenKind.ty_bytes = 45
discriminant (TokenKind.ident x) = 46
discriminant (TokenKind.string x) = 47
discriminant (TokenKind.int x) = 48
discriminant (TokenKind.float x) = 49
discriminant TokenKind.semicolon = 50
discriminant TokenKind.comma = 51
discriminant TokenKind.dot = 52
discriminant TokenKind.colon = 53
discriminant TokenKind.eq = 54
discriminant TokenKind.neq = 55
discriminant TokenKind.star = 56
discriminant TokenKind.dot_dot = 57
discriminant TokenKind.lparen = 58
discriminant TokenKind.rparen = 59
discriminant TokenKind.lbrace = 60
discriminant TokenKind.rbrace = 61
discriminant TokenKind.lbracket = 62
discriminant TokenKind.rbracket = 63
discriminant TokenKind.arrow_right = 64
discriminant TokenKind.arrow_left = 65
discriminant TokenKind.minus = 66
discriminant TokenKind.eof = 67

-- The kinds that stand for a name: identifiers, and all keywords.
unfoldable pub is_word : {F64 : Type 0} → TokenKind F64 → Bool
is_word (TokenKind.ident x) = true
is_word TokenKind.use_kw = true
is_word TokenKind.branch = true
is_word TokenKind.commit = true
is_word TokenKind.tag = true
is_word TokenKind.head = true
is_word TokenKind.match_kw = true
is_word TokenKind.traverse = true
is_word TokenKind.merge_base = true
is_word TokenKind.shortest_path = true
is_word TokenKind.ancestors = true
is_word TokenKind.where_kw = true
is_word TokenKind.select = true
is_word TokenKind.as_kw = true
is_word TokenKind.create = true
is_word TokenKind.delete = true
is_word TokenKind.from = true
is_word TokenKind.checkout = true
is_word TokenKind.merge = true
is_word TokenKind.into = true
is_word TokenKind.strategy = true
is_word TokenKind.fast_forward = true
is_word TokenKind.three_way = true
is_word TokenKind.squash = true
is_word TokenKind.diff = true
is_word TokenKind.and = true
is_word TokenKind.or = true
is_word TokenKind.message = true
is_word TokenKind.parents = true
is_word TokenKind.path = true
is_word TokenKind.parent = true
is_word TokenKind.child = true
is_word TokenKind.ancestor = true
is_word TokenKind.descendant = true
is_word TokenKind.null = true
is_word TokenKind.true_kw = true
is_word TokenKind.false_kw = true
is_word TokenKind.collection = true
is_word TokenKind.index = true
is_word TokenKind.key = true
is_word TokenKind.drop = true
is_word TokenKind.on = true
is_word TokenKind.type_kw = true
is_word TokenKind.ty_string = true
is_word TokenKind.ty_int = true
is_word TokenKind.ty_bool = true
is_word TokenKind.ty_bytes = true
is_word k = false
