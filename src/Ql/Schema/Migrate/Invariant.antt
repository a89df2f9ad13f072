-- ===== src/Ql/Schema/Migrate/Invariant.antt =====
-- What the migrations keep of the schema.
use epochs.Common.{
  List, [], ◌∷◌, ◌++◌, false, ◌||◌, ◌&&◌, not, some, ◌≡◌, refl, sym, subst, All, Bool-cases,
  Option-cases, inl, inr, bytes_eq, bytes_eq_refl, bytes_eq→eq, arith, ◌==◌, length,
}
use epochs.Assoc.{get, contains_key, sorted_insert, bytes_lt}
use epochs.Ql.Chars.{Chars}
use epochs.Ql.Error.{Parsed}
use epochs.Ql.Lexer.Steps.{Yields, >>=-Yields}
use epochs.Ql.Schema.Ddl.{DdlStatement, FieldType}
use epochs.Ql.Schema.Migrate.{
  has_name, retain_others, set_collection, with_collection, add_index, remove_index,
  apply_statement, apply_statements,
}
use epochs.Ql.Schema.Registry.{SchemaRegistry, CollectionSchema, IndexDef, index_name_for}

-- No two indexes have one name.
abbrev pub Distinct : List IndexDef → Type 0
Distinct [] = Unit {0}
Distinct (i ∷ indexes) = (has_name i.name indexes ≡ false) × Distinct indexes

-- A collection stands under its name, and its indexes have the names of their paths, each its own.
abbrev pub GoodCollection : Chars × CollectionSchema → Type 0
GoodCollection (k, c) =
    (c.name ≡ k) × All (λ i. i.name ≡ index_name_for k i.path) c.indexes × Distinct c.indexes

abbrev pub GoodSchema : SchemaRegistry → Type 0
GoodSchema schema = All GoodCollection schema.collections

All-append :
    {A : Type 0} (P : A → Type 0) (xs : List A) (x : A) → All P xs → P x → All P (xs ++ (x ∷ []))
All-append P [] x all p = (p, tt)
All-append P (y ∷ xs) x (here, all) p = (here, All-append P xs x all p)

has_name-append :
    (name : Chars) (xs : List IndexDef) (i : IndexDef)
    → has_name name (xs ++ (i ∷ [])) ≡ (has_name name xs || bytes_eq i.name name)
unfolding has_name
has_name-append name [] i = ground arith
has_name-append name (x ∷ xs) i = rw (has_name-append name xs i) (ground arith)

bytes_eq_sym : (a b : Chars) → bytes_eq a b ≡ false → bytes_eq b a ≡ false
bytes_eq_sym a b e = elim (Bool-cases (bytes_eq b a)) [
  | inl same ↦
      let is : b ≡ a = bytes_eq→eq b a same in
      let self = bytes_eq_refl b in let apart = subst (λ x. bytes_eq x b ≡ false) (sym is) e in cc
  | inr other ↦ other
]

Distinct-append :
    (xs : List IndexDef) (i : IndexDef)
    → has_name i.name xs ≡ false
    → Distinct xs
    → Distinct (xs ++ (i ∷ []))
unfolding has_name
Distinct-append [] i new d = (refl, tt)
Distinct-append (x ∷ xs) i new (first, d) =
    let apart : bytes_eq x.name i.name ≡ false = ground arith in
    let later : has_name i.name xs ≡ false = ground arith in
    let other = bytes_eq_sym x.name i.name apart in
    (rw (has_name-append x.name xs i, first, other) refl, Distinct-append xs i later d)

has_name-retain :
    (n name path : Chars) (xs : List IndexDef)
    → has_name n xs ≡ false
    → has_name n (retain_others name path xs) ≡ false
unfolding has_name retain_others
has_name-retain n name path [] e = refl
has_name-retain n name path (x ∷ xs) e =
    let here : bytes_eq x.name n ≡ false = ground arith in
    let later : has_name n xs ≡ false = ground arith in
    let rest = has_name-retain n name path xs later in
    elim (Bool-cases (not (bytes_eq x.name name) && not (bytes_eq x.path path))) [
      | inl kept ↦ rw (kept, here) rest
      | inr dropped ↦ rw dropped rest
    ]

retain-All :
    (P : IndexDef → Type 0) (name path : Chars) (xs : List IndexDef)
    → All P xs
    → All P (retain_others name path xs)
unfolding retain_others
retain-All P name path [] all = tt
retain-All P name path (x ∷ xs) (here, all) =
    elim (Bool-cases (not (bytes_eq x.name name) && not (bytes_eq x.path path))) [
      | inl kept ↦ rw kept (here, retain-All P name path xs all)
      | inr dropped ↦ rw dropped (retain-All P name path xs all)
    ]

Distinct-retain :
    (name path : Chars) (xs : List IndexDef) → Distinct xs → Distinct (retain_others name path xs)
unfolding retain_others
Distinct-retain name path [] d = tt
Distinct-retain name path (x ∷ xs) (first, d) =
    elim (Bool-cases (not (bytes_eq x.name name) && not (bytes_eq x.path path))) [
      | inl kept ↦
          rw kept (has_name-retain x.name name path xs first, Distinct-retain name path xs d)
      | inr dropped ↦ rw dropped (Distinct-retain name path xs d)
    ]

sorted_insert-All :
    {V : Type 0} (P : Chars × V → Type 0) (k : Chars) (v : V) (m : List (Chars × V))
    → P (k, v)
    → All P m
    → All P (sorted_insert k v m)
unfolding sorted_insert
sorted_insert-All P k v [] p all = (p, tt)
sorted_insert-All P k v ((j, w) ∷ m) p (here, all) = elim (Bool-cases (bytes_eq j k)) [
  | inl same ↦ rw same (p, all)
  | inr other ↦ elim (Bool-cases (bytes_lt k j)) [
    | inl first ↦ rw (other, first) (p, (here, all))
    | inr later ↦ rw (other, later) (here, sorted_insert-All P k v m p all)
  ]
]

some_injective : {A : Type 0} {a b : A} → some a ≡ some b → a ≡ b
some_injective e = cc

get-All :
    {V : Type 0} (P : Chars × V → Type 0) (k : Chars) (v : V) (m : List (Chars × V))
    → get k m ≡ some v
    → All P m
    → P (k, v)
unfolding get
get-All P k v [] e all = absurd cc
get-All P k v ((j, w) ∷ m) e (here, all) = elim (Bool-cases (bytes_eq j k)) [
  | inl same ↦
      let key : j ≡ k = bytes_eq→eq j k same in
      let value : w ≡ v = some_injective (rw same at e) in
      subst (λ x. P (x, v)) key (subst (λ y. P (j, y)) value here)
  | inr other ↦ get-All P k v m (rw other at e) all
]

add_index-Good :
    (k path : Chars) (ty : FieldType) (c : CollectionSchema)
    → GoodCollection (k, c)
    → Yields (λ c'. GoodCollection (k, c')) (add_index k path ty c)
unfolding add_index
add_index-Good k path ty c (own, named, distinct) =
    elim (Bool-cases (has_name (index_name_for k path) c.indexes)) [
      | inl there ↦ rw there tt
      | inr new ↦
          rw new
            (own, All-append _ c.indexes _ named refl, Distinct-append c.indexes _ new distinct)
    ]

remove_index-Good :
    (k path : Chars) (c : CollectionSchema)
    → GoodCollection (k, c)
    → Yields (λ c'. GoodCollection (k, c')) (remove_index k path c)
unfolding remove_index
remove_index-Good k path c (own, named, distinct) =
    let name = index_name_for k path in
    elim (Bool-cases (length (retain_others name path c.indexes) == length c.indexes)) [
      | inl none_there ↦ rw none_there tt
      | inr fewer ↦ rw fewer (
        own,
        retain-All _ name path c.indexes named,
        Distinct-retain name path c.indexes distinct,
      )
    ]

with_collection-Good :
    (schema : SchemaRegistry) (k : Chars) (change : CollectionSchema → Parsed CollectionSchema)
    → GoodSchema schema
    → ((c : CollectionSchema)
        → GoodCollection (k, c)
        → Yields (λ c'. GoodCollection (k, c')) (change c))
    → Yields GoodSchema (with_collection schema k change)
unfolding with_collection set_collection
with_collection-Good schema k change good keeps = elim (Option-cases (get k schema.collections)) [
  | inl missing ↦ rw (with_collection, missing) tt
  | inr (c, found) ↦
      rw (with_collection, found)
        (>>=-Yields (λ c'. GoodCollection (k, c')) GoodSchema (change c) _
          (keeps c (get-All GoodCollection k c schema.collections found good))
          (λ c' here. sorted_insert-All GoodCollection k c' schema.collections here good))
]

apply_statement-Good :
    (schema : SchemaRegistry) (stmt : DdlStatement)
    → GoodSchema schema
    → Yields GoodSchema (apply_statement schema stmt)
unfolding apply_statement set_collection
apply_statement-Good schema (DdlStatement.create_collection name keys) good =
    elim (Bool-cases (contains_key name schema.collections)) [
      | inl there ↦ rw there tt
      | inr new ↦
          rw new (sorted_insert-All GoodCollection name _ schema.collections (refl, tt, tt) good)
    ]
apply_statement-Good schema (DdlStatement.create_index collection path ty) good =
    with_collection-Good schema collection _ good (add_index-Good collection path ty)
apply_statement-Good schema (DdlStatement.drop_index collection path) good =
    with_collection-Good schema collection _ good (remove_index-Good collection path)

-- The statements of a migration end with an error or with a schema in which, as in the one before
-- them, each collection stands under its name, each index has the name of its collection and its
-- path, and no two indexes of a collection have one name.
pub apply_statements-Good :
    (schema : SchemaRegistry) (stmts : List DdlStatement)
    → GoodSchema schema
    → Yields GoodSchema (apply_statements schema stmts)
unfolding apply_statements
apply_statements-Good schema [] good = good
apply_statements-Good schema (stmt ∷ stmts) good =
    >>=-Yields GoodSchema GoodSchema (apply_statement schema stmt) _
      (apply_statement-Good schema stmt good)
      (λ schema' good'. apply_statements-Good schema' stmts good')
