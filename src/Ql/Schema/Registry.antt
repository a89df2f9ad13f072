-- ===== src/Ql/Schema/Registry.antt =====
-- The schema of epochql/src/schema/registry.rs, and the names of its indexes (index.rs).
use epochs.Common.{List, [], ◌∷◌, ◌++◌, if◌then◌else◌, ◌==◌}
use epochs.Ql.Chars.{Chars}
use epochs.Ql.Schema.Ddl.{FieldType}
use epochs.Text.{codes}

pub record FieldDef : Type 0 where
  pub path : Chars
  pub field_type : FieldType

pub record IndexDef : Type 0 where
  pub name : Chars
  pub path : Chars
  pub field_type : FieldType

pub record CollectionSchema : Type 0 where
  pub name : Chars
  pub primary_key : List FieldDef
  pub indexes : List IndexDef

pub record SchemaRegistry : Type 0 where
  pub collections : List (Chars × CollectionSchema)

unfoldable pub new_registry : SchemaRegistry
new_registry = record { collections = [] }

-- The indexes of the collections, in their order.
unfoldable pub indexes_of : List (Chars × CollectionSchema) → List IndexDef
indexes_of [] = []
indexes_of ((k, c) ∷ collections) = c.indexes ++ indexes_of collections

unfoldable pub all_indexes : SchemaRegistry → List IndexDef
all_indexes r = indexes_of r.collections

-- `path.replace('.', "_")`.
unfoldable pub slug : Chars → Chars
slug [] = []
slug (c ∷ path) = (if c == b'.' then b'_' else c) ∷ slug path

unfoldable pub index_name_for : Chars → Chars → Chars
index_name_for collection path = collection ++ (codes ".by_" ++ slug path)
