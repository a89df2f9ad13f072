-- ===== src/Ql/Ast.antt =====
-- epochql/src/ast.rs: the syntax tree. A `BTreeMap` from names is a list in the order of the names.
use epochs.Common.{ℕ, List, Bool, Option, if◌then◌else◌, bytes_eq}
use epochs.Assoc.{bytes_lt}
use epochs.Ql.Chars.{Chars}
use epochs.Ql.Token.{ℤ}

pub data TargetRef : Type 0 where
  head : TargetRef
  branch : Chars → TargetRef
  commit : Chars → TargetRef
  tag : Chars → TargetRef

pub record ContextClause : Type 0 where
  pub target : TargetRef

pub data EdgeDirection : Type 0 where
  outgoing incoming : EdgeDirection

pub data EdgeType : Type 0 where
  parent child ancestor descendant : EdgeType

pub data HopMultiplier : Type 0 where
  any : HopMultiplier
  exact : ℕ → HopMultiplier
  range : (min max : Option ℕ) → HopMultiplier

pub record EdgePattern : Type 0 where
  pub direction : EdgeDirection
  pub edge_type : EdgeType
  pub multiplier : Option HopMultiplier

pub data TraversalClause : Type 0 where
  merge_base : TargetRef → TargetRef → TraversalClause
  shortest_path : TargetRef → TargetRef → TraversalClause
  ancestors : TargetRef → TraversalClause

pub data MergeStrategy : Type 0 where
  fast_forward three_way squash : MergeStrategy

pub record MergeStmt : Type 0 where
  pub source : TargetRef
  pub into : TargetRef
  pub strategy : MergeStrategy

pub data BranchStmt : Type 0 where
  create : (name : Chars) (from : Option TargetRef) → BranchStmt
  delete : (name : Chars) → BranchStmt

pub record DiffStmt : Type 0 where
  pub left : TargetRef
  pub right : TargetRef
  pub path : Option Chars

pub data BinaryOp : Type 0 where
  eq neq and or : BinaryOp

-- An expression, and the entries of a map of expressions.
mutual
  pub data Expression (F64 : Type 0) : Type 0 where
    null : Expression F64
    bool : Bool → Expression F64
    int : ℤ → Expression F64
    float : F64 → Expression F64
    string : Chars → Expression F64
    variable : Chars → Expression F64
    property_access : Expression F64 → Chars → Expression F64
    binary : Expression F64 → BinaryOp → Expression F64 → Expression F64
    map : Entries F64 → Expression F64

  pub data Entries (F64 : Type 0) : Type 0 where
    empty : Entries F64
    entry : Chars → Expression F64 → Entries F64 → Entries F64

-- `BTreeMap::insert`.
unfoldable pub insert_entry : {F64 : Type 0} → Chars → Expression F64 → Entries F64 → Entries F64
insert_entry key value Entries.empty = Entries.entry key value Entries.empty
insert_entry key value (Entries.entry k v others) =
    let later = insert_entry key value others in
    if bytes_eq k key
    then Entries.entry key value others
    else if bytes_lt key k
    then Entries.entry key value (Entries.entry k v others)
    else Entries.entry k v later

pub record NodePattern (F64 : Type 0) : Type 0 where
  pub variable : Option Chars
  pub label : Option Chars
  pub properties : Entries F64

pub data PatternElement (F64 : Type 0) : Type 0 where
  node : NodePattern F64 → PatternElement F64
  edge : EdgePattern → PatternElement F64

pub record Pattern (F64 : Type 0) : Type 0 where
  pub elements : List (PatternElement F64)

pub record MatchClause (F64 : Type 0) : Type 0 where
  pub patterns : List (Pattern F64)

pub record ProjectionItem (F64 : Type 0) : Type 0 where
  pub expression : Expression F64
  pub alias : Option Chars

pub record SelectClause (F64 : Type 0) : Type 0 where
  pub items : List (ProjectionItem F64)

pub record CommitStmt (F64 : Type 0) : Type 0 where
  pub payload : Entries F64
  pub message : Option Chars
  pub parents : Option (List TargetRef)

pub data VersionStatement (F64 : Type 0) : Type 0 where
  commit : CommitStmt F64 → VersionStatement F64
  branch : BranchStmt → VersionStatement F64
  checkout : TargetRef → VersionStatement F64
  merge : MergeStmt → VersionStatement F64
  diff : DiffStmt → VersionStatement F64

pub record QueryStatement (F64 : Type 0) : Type 0 where
  pub context : Option ContextClause
  pub match_clause : Option (MatchClause F64)
  pub traversal : Option TraversalClause
  pub where_clause : Option (Expression F64)
  pub select : Option (SelectClause F64)

pub data Statement (F64 : Type 0) : Type 0 where
  query : QueryStatement F64 → Statement F64
  version : VersionStatement F64 → Statement F64
