-- ===== src/Ql/Schema/Migrate.antt =====
-- epochql/src/schema/migrate.rs: the statements of a migration on the schema, the run over the
-- migration files, and the list of those applied. A file is its name and its text.
pub mod Invariant
pub mod Applied
pub mod Twice
use epochs.Common.{
  ℕ, List, [], ◌∷◌, ◌++◌, Bool, true, false, ◌||◌, ◌&&◌, not, Option, none, some, if◌then◌else◌,
  bytes_eq, ◌==◌, length, map,
}
use epochs.Assoc.{get, contains_key, sorted_insert}
use epochs.Ql.Chars.{Chars}
use epochs.Ql.Error.{Message, Parsed, ok, err, panicked, out_of_fuel, new_error, ◌>>=◌}
use epochs.Ql.Schema.Ddl.{DdlStatement, FieldType, parse_migration}
use epochs.Ql.Schema.Lock.{read_lock, write_lock}
use epochs.Ql.Schema.State.{load, to_state_file}
use epochs.Ql.Schema.Registry.{SchemaRegistry, CollectionSchema, FieldDef, IndexDef, index_name_for}

unfoldable pub field_defs : List (Chars × FieldType) → List FieldDef
field_defs [] = []
field_defs ((path, ty) ∷ keys) = record { path = path; field_type = ty } ∷ field_defs keys

-- `indexes.iter().any(|i| i.name == name)`.
unfoldable pub has_name : Chars → List IndexDef → Bool
has_name name [] = false
has_name name (i ∷ indexes) = bytes_eq i.name name || has_name name indexes

-- `indexes.retain(|i| i.name != name && i.path != *path)`.
unfoldable pub retain_others : Chars → Chars → List IndexDef → List IndexDef
retain_others name path [] = []
retain_others name path (i ∷ indexes) =
    let others = retain_others name path indexes in
    if not (bytes_eq i.name name) && not (bytes_eq i.path path) then i ∷ others else others

-- The collection `k` is changed where it stands.
unfoldable pub set_collection : Chars → CollectionSchema → SchemaRegistry → SchemaRegistry
set_collection k c schema = record { collections = sorted_insert k c schema.collections }

unfoldable pub with_collection :
    SchemaRegistry → Chars → (CollectionSchema → Parsed CollectionSchema) → Parsed SchemaRegistry
with_collection schema k change = elim (get k schema.collections) [
  | none ↦ err (new_error (Message.unknown_collection k))
  | some c ↦ change c >>= λ c'. ok (set_collection k c' schema)
]

unfoldable pub add_index : Chars → Chars → FieldType → CollectionSchema → Parsed CollectionSchema
add_index collection path field_type c =
    let name = index_name_for collection path in
    if has_name name c.indexes
    then err (new_error (Message.index_exists name))
    else ok (record c {
      indexes = c.indexes ++ (record { name = name; path = path; field_type = field_type } ∷ []);
    })

unfoldable pub remove_index : Chars → Chars → CollectionSchema → Parsed CollectionSchema
remove_index collection path c =
    let others = retain_others (index_name_for collection path) path c.indexes in
    if length others == length c.indexes
    then err (new_error (Message.index_not_found collection path))
    else ok (record c { indexes = others })

-- A statement on the schema. An error leaves no schema: the only caller drops it then.
unfoldable pub apply_statement : SchemaRegistry → DdlStatement → Parsed SchemaRegistry
apply_statement schema (DdlStatement.create_collection name keys) =
    if contains_key name schema.collections
    then err (new_error (Message.collection_exists name))
    else ok (
        set_collection name (record { name = name; primary_key = field_defs keys; indexes = [] })
          schema)
apply_statement schema (DdlStatement.create_index collection path field_type) =
    with_collection schema collection (add_index collection path field_type)
apply_statement schema (DdlStatement.drop_index collection path) =
    with_collection schema collection (remove_index collection path)

unfoldable pub apply_statements : SchemaRegistry → List DdlStatement → Parsed SchemaRegistry
apply_statements schema [] = ok schema
apply_statements schema (stmt ∷ stmts) =
    apply_statement schema stmt >>= λ schema'. apply_statements schema' stmts

-- `applied_lock.contains(&name)`.
unfoldable pub is_applied : Chars → List Chars → Bool
is_applied name [] = false
is_applied name (n ∷ lock) = bytes_eq n name || is_applied name lock

-- The texts of schema.lock and schema.state, `none` being a file that is not there.
pub record SchemaFiles : Type 0 where
  pub lock : Option Chars
  pub state : Option Chars

pub record MigrationReport : Type 0 where
  pub applied : List Chars
  pub skipped : List Chars
  pub schema : SchemaRegistry

-- The variables of `migrate` in its loop.
pub record Migration : Type 0 where
  pub applied_lock : List Chars
  pub schema : SchemaRegistry
  pub newly_applied : List Chars
  pub skipped : List Chars

module _ {F64 : Type 0} (parse_f64 : Chars → Option F64) where
  -- A file that is not yet applied.
  unfoldable pub apply_file : Migration → Chars → Chars → Parsed Migration
  apply_file m name text = parse_migration parse_f64 text >>= λ stmts.
      apply_statements m.schema stmts >>= λ schema. ok (record {
        applied_lock = m.applied_lock ++ (name ∷ []);
        schema = schema;
        newly_applied = m.newly_applied ++ (name ∷ []);
        skipped = m.skipped;
      })

  -- A file of the loop of `migrate`.
  unfoldable pub migrate_file : Migration → Chars → Chars → Parsed Migration
  migrate_file m name text =
      if is_applied name m.applied_lock
      then ok (record m { skipped = m.skipped ++ (name ∷ []) })
      else apply_file m name text

  -- The loop of `migrate` over the files.
  unfoldable pub migrate_loop : Migration → List (Chars × Chars) → Parsed Migration
  migrate_loop m [] = ok m
  migrate_loop m ((name, text) ∷ files) = migrate_file m name text >>= λ m'. migrate_loop m' files

  -- The end of `migrate`: the lock and the schema are written, unless the loop has failed.
  unfoldable pub write_back : SchemaFiles → Parsed Migration → Parsed MigrationReport × SchemaFiles
  write_back repo (ok m) = (
    ok (record { applied = m.newly_applied; skipped = m.skipped; schema = m.schema }),
    record { lock = some (write_lock m.applied_lock); state = some (to_state_file m.schema) },
  )
  write_back repo (err e) = (err e, repo)
  write_back repo panicked = (panicked, repo)
  write_back repo out_of_fuel = (out_of_fuel, repo)

  -- `migrate` over the migration files, in their order.
  unfoldable pub migrate : List (Chars × Chars) → SchemaFiles → Parsed MigrationReport × SchemaFiles
  migrate files repo = write_back repo (
      load repo.state >>= λ schema.
      migrate_loop
        (record {
          applied_lock = read_lock repo.lock;
          schema = schema;
          newly_applied = [];
          skipped = [];
        })
        files)
