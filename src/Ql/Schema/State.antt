-- ===== src/Ql/Schema/State.antt =====
-- The text of schema.state, of epochql/src/schema/registry.rs.
pub mod Words
pub mod Texts
pub mod Lines
pub mod ReadBack
use epochs.Common.{
  ℕ, ◌+◌, List, [], ◌∷◌, ◌++◌, Bool, true, false, ◌||◌, Option, none, some, if◌then◌else◌, ◌==◌,
  bytes_eq,
}
use epochs.Assoc.{get, sorted_insert}
use epochs.Ql.Chars.{Chars, is_whitespace}
use epochs.Ql.Error.{Message, StateFault, Parsed, ok, err, error_at, ◌>>=◌}
use epochs.Ql.Schema.Ddl.{FieldType, parse_type}
use epochs.Ql.Schema.Lock.{lines_from, trim, is_passed_over}
use epochs.Ql.Schema.Registry.{SchemaRegistry, CollectionSchema, FieldDef, IndexDef, new_registry}
use epochs.Text.{codes}

-- A word, where one was read.
unfoldable pub add_word : Chars → List Chars → List Chars
add_word [] words = words
add_word (c ∷ word) words = (c ∷ word) ∷ words

-- `str::split_whitespace`, where `word` is what was read of the word so far.
unfoldable pub words_from : Chars → Chars → List Chars
words_from word [] = add_word word []
words_from word (c ∷ text) =
    let next = words_from (word ++ (c ∷ [])) text in
    let others = words_from [] text in if is_whitespace c then add_word word others else next

-- `name.split('.').next()`.
unfoldable pub before_dot : Chars → Chars
before_dot [] = []
before_dot (c ∷ name) = let rest = before_dot name in if c == b'.' then [] else c ∷ rest

-- The variables of `parse` in its loop.
pub record State : Type 0 where
  pub registry : SchemaRegistry
  pub current : Option Chars

unfoldable pub fault : {A : Type 0} → ℕ → StateFault → Parsed A
fault line f = err (error_at 0 (Message.in_state line f))

unfoldable pub or_fault : {A : Type 0} → Option A → ℕ → StateFault → Parsed A
or_fault none line f = fault line f
or_fault (some a) line f = ok a

-- `parts.get(0)`, and the parts behind it.
unfoldable pub first_of : List Chars → Option Chars
first_of [] = none
first_of (part ∷ parts) = some part

unfoldable pub behind : List Chars → List Chars
behind [] = []
behind (part ∷ parts) = parts

-- The test `parts.get(0) != Some(&word)`.
unfoldable pub is_word_at : Chars → List Chars → Bool
is_word_at word [] = false
is_word_at word (part ∷ parts) = bytes_eq part word

unfoldable pub put : Chars → CollectionSchema → SchemaRegistry → SchemaRegistry
put name c registry = record { collections = sorted_insert name c registry.collections }

abbrev pub no_fields : Chars → CollectionSchema
no_fields name = record { name = name; primary_key = []; indexes = [] }

-- The arms of `parse`, on the parts behind the directive.
unfoldable pub collection_line : ℕ → List Chars → State → Parsed State
collection_line line parts s =
    or_fault (first_of parts) line StateFault.expected_collection_name >>= λ name.
    ok (record { registry = put name (no_fields name) s.registry; current = some name })

unfoldable pub key_line : ℕ → List Chars → State → Parsed State
key_line line parts s = or_fault s.current line StateFault.key_outside_collection >>= λ coll.
    or_fault (first_of parts) line StateFault.expected_key_path >>= λ path.
    or_fault (first_of (behind parts)) line StateFault.expected_key_type >>= λ ty.
    or_fault (parse_type ty) line (StateFault.unknown_state_type ty) >>= λ field_type.
    or_fault (get coll s.registry.collections) line StateFault.missing_collection >>= λ c.
    ok (record s {
      registry =
          put coll
            (record c {
              primary_key = c.primary_key ++ (record { path = path; field_type = field_type } ∷ []);
            })
            s.registry;
    })

-- `entry(coll).or_insert(..)`.
unfoldable pub entry_or_insert : Chars → SchemaRegistry → CollectionSchema
entry_or_insert coll registry = elim (get coll registry.collections) [
  | none ↦ no_fields coll
  | some c ↦ c
]

unfoldable pub index_of : Chars → Chars → FieldType → State → State
index_of name path field_type s =
    let coll = before_dot name in
    let c = entry_or_insert coll s.registry in
    record s {
      registry =
          put coll
            (record c {
              indexes =
                  c.indexes ++ (record { name = name; path = path; field_type = field_type } ∷ []);
            })
            s.registry;
    }

unfoldable pub index_line : ℕ → List Chars → State → Parsed State
index_line line parts s =
    let rest = behind parts in
    let rest' = behind (behind rest) in
    or_fault (first_of parts) line StateFault.expected_index_name >>= λ name.
    if is_word_at (codes "PATH") rest
    then (or_fault (first_of (behind rest)) line StateFault.expected_path >>= λ path.
        if is_word_at (codes "TYPE") rest'
        then (or_fault (first_of (behind rest')) line StateFault.expected_state_type >>= λ ty.
            or_fault (parse_type ty) line (StateFault.unknown_state_type ty) >>= λ field_type.
            ok (index_of name path field_type s))
        else fault line StateFault.expected_type_word)
    else fault line StateFault.expected_path_word

unfoldable pub directive : ℕ → List Chars → State → Parsed State
directive line [] s = ok s
directive line (first ∷ parts) s =
    if bytes_eq first (codes "COLLECTION")
    then collection_line line parts s
    else if bytes_eq first (codes "KEY")
    then key_line line parts s
    else if bytes_eq first (codes "INDEX")
    then index_line line parts s
    else fault line (StateFault.unknown_directive first)

unfoldable pub parse_line : ℕ → Chars → State → Parsed State
parse_line line raw s =
    if is_passed_over (trim raw) then ok s else directive line (words_from [] (trim raw)) s

unfoldable pub parse_lines : ℕ → List Chars → State → Parsed State
parse_lines line [] s = ok s
parse_lines line (raw ∷ lines) s = parse_line line raw s >>= parse_lines (line + 1) lines

-- `SchemaRegistry::parse`.
unfoldable pub parse : Chars → Parsed SchemaRegistry
parse text =
    parse_lines 1 (lines_from [] text) (record { registry = new_registry; current = none }) >>= λ s.
    ok s.registry

-- `Display` of `FieldType`.
unfoldable pub type_text : FieldType → Chars
type_text FieldType.string = codes "STRING"
type_text FieldType.int = codes "INT"
type_text FieldType.bool = codes "BOOL"
type_text FieldType.bytes = codes "BYTES"

unfoldable pub key_text : FieldDef → Chars
key_text key = codes "KEY " ++ (key.path ++ (b' ' ∷ type_text key.field_type))

unfoldable pub index_text : IndexDef → Chars
index_text idx =
    codes "INDEX "
    ++ (idx.name ++ (codes " PATH " ++ (idx.path ++ (codes " TYPE " ++ type_text idx.field_type))))

-- The lines that `to_state_file` writes for the fields, the indexes and the collections.
unfoldable pub key_texts : List FieldDef → Chars
key_texts [] = []
key_texts (key ∷ keys) = key_text key ++ (b'\n' ∷ key_texts keys)

unfoldable pub index_texts : List IndexDef → Chars
index_texts [] = []
index_texts (idx ∷ indexes) = index_text idx ++ (b'\n' ∷ index_texts indexes)

unfoldable pub collection_texts : List (Chars × CollectionSchema) → Chars
collection_texts [] = []
collection_texts ((k, coll) ∷ collections) =
    (codes "COLLECTION " ++ coll.name)
    ++ (b'\n'
        ∷ (key_texts coll.primary_key
            ++ (index_texts coll.indexes ++ collection_texts collections)))

abbrev pub state_comment : Chars
state_comment = codes "# epochs schema.state — generated; prefer .eql migrations"

unfoldable pub to_state_file : SchemaRegistry → Chars
to_state_file registry = state_comment ++ (b'\n' ∷ collection_texts registry.collections)

-- `SchemaRegistry::load`, from the text of schema.state, `none` being a file that is not there.
unfoldable pub load : Option Chars → Parsed SchemaRegistry
load none = ok new_registry
load (some text) = parse text
