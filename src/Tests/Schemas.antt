-- ===== src/Tests/Schemas.antt =====
-- Migrations and their schemas. A floating-point literal stands for its own text.
use epochs.Common.{◌≡◌, refl, false, bytes_eq, List, [], ◌∷◌, ◌++◌, Option, some, none, All}
use epochs.Assoc
use epochs.Ql.Chars.{
  Chars, byte_len, is_ascii_digit, within, slice, from_byte, up_to_byte, char_indices, len_utf8,
  is_whitespace, is_ascii_alphabetic, is_ascii_alphanumeric, to_ascii_uppercase,
}
use epochs.Ql.Lexer.{
  tokenize, tokenize_loop, next_token, match_token, token_to, start_of, skip,
  skip_whitespace_and_comments, next_is, bump, bump_while, current_byte_offset,
  lex_ident_or_keyword, index, is_eof, new_lexer,
}
use epochs.Ql.Token.{keyword_or_ident, discriminant}
use epochs.Ql.Parser
use epochs.Ql.Parser.Statements.{run, value_of}
use epochs.Ql.Error.{ok}
use epochs.Ql.Lexer.Steps.{Yields}
use epochs.Ql.Parser.Rounds.Sources.{Returns}
use epochs.Ql.Schema.Ddl.Rounds
use epochs.Ql.Schema.Ddl.{
  DdlStatement, FieldType, parse_migration, migration_loop, parse_statement, statement_of,
  created_of, parse_create_collection, keys_loop, expect_path, path_loop, expect_type, type_of,
  expect_name, name_of,
}
use epochs.Ql.Schema.Lock.ReadBack.{Recorded, has_newline}
use epochs.Ql.Schema.Lock.{
  read_lock, names_of, lines_from, strip_cr, trim, trim_start, trim_end, keep_trimmed,
  is_passed_over,
}
use epochs.Ql.Schema.Migrate.Invariant
use epochs.Ql.Schema.Migrate.Invariant.{GoodSchema}
use epochs.Ql.Schema.Migrate.Twice
use epochs.Ql.Schema.Migrate.{
  SchemaFiles, MigrationReport, write_back, apply_statements, migrate, migrate_loop, migrate_file,
  apply_file, is_applied, apply_statement, set_collection, field_defs, has_name,
}
use epochs.Ql.Schema.State
use epochs.Ql.Schema.State.Texts.{Storable, has_dot}
use epochs.Ql.Schema.State.Words.{has_blank}
use epochs.Ql.Schema.State.{load, parse, to_state_file}
use epochs.Assoc.{IsAscending, bytes_lt}
use epochs.Ql.Schema.Registry.{SchemaRegistry, new_registry, index_name_for, slug}
use epochs.Text.{codes}

abbrev parse_text : Chars → Option Chars
parse_text text = some text

abbrev migration : Chars
migration =
    codes
      "CREATE COLLECTION items KEY id STRING, meta.k INT; CREATE INDEX ON items PATH \"meta.prefs\" TYPE BOOL; DROP INDEX ON items (id);"

parse_migration-Returns_example : Returns parse_text (parse_migration parse_text migration)
parse_migration-Returns_example = Rounds.parse_migration-Returns parse_text migration

abbrev items : SchemaRegistry
items = record {
  collections =
      (
        codes "items",
        record {
          name = codes "items";
          primary_key = [];
          indexes =
              record {
                name = codes "items.by_meta_k";
                path = codes "meta.k";
                field_type = FieldType.int;
              }
              ∷ [];
        },
      )
      ∷ [];
}

abbrev statements : List DdlStatement
statements =
    DdlStatement.create_index (codes "items") (codes "id") FieldType.string
    ∷ DdlStatement.drop_index (codes "items") (codes "meta.k")
    ∷ DdlStatement.create_collection (codes "notes") []
    ∷ []

apply_statements-Good_example : Yields GoodSchema (apply_statements items statements)
unfolding index_name_for slug has_name
apply_statements-Good_example =
    Invariant.apply_statements-Good items statements ((refl, (refl, tt), (refl, tt)), tt)

abbrev files : List (Chars × Chars)
files =
    (codes "001_notes.eql", codes "CREATE COLLECTION a KEY b INT")
    ∷ (codes "002_none.eql", codes "-- none")
    ∷ []

-- A lock with one name, and no schema yet.
abbrev repo : SchemaFiles
repo = record { lock = some (codes "000_old.eql"); state = none }

abbrev report : MigrationReport
report = record {
  schema = record {
    collections =
        (
          codes "a",
          record {
            name = codes "a";
            primary_key = record { path = codes "b"; field_type = FieldType.int } ∷ [];
            indexes = [];
          },
        )
        ∷ [];
  };
  applied = codes "001_notes.eql" ∷ codes "002_none.eql" ∷ [];
  skipped = [];
}

first_run : (migrate parse_text files repo).0 ≡ ok report
unfolding migrate write_back load read_lock names_of lines_from trim trim_start trim_end
    keep_trimmed is_passed_over strip_cr migrate_loop migrate_file apply_file is_applied
    apply_statements apply_statement set_collection field_defs new_registry Assoc.contains_key
    Assoc.sorted_insert parse_migration migration_loop parse_statement statement_of created_of
    parse_create_collection keys_loop expect_path path_loop expect_type type_of expect_name name_of
    run value_of Parser.check Parser.same Parser.on_kind Parser.bump Parser.advance Parser.expect
    Parser.fail discriminant tokenize tokenize_loop next_token match_token token_to start_of skip
    skip_whitespace_and_comments next_is bump bump_while current_byte_offset lex_ident_or_keyword
    index is_eof new_lexer keyword_or_ident Assoc.get bytes_eq within slice from_byte up_to_byte
    char_indices len_utf8 byte_len is_whitespace is_ascii_digit is_ascii_alphabetic
    is_ascii_alphanumeric to_ascii_uppercase
first_run = refl

plain :
    (name : Chars)
    → has_newline name ≡ false
    → strip_cr name ≡ name
    → trim name ≡ name
    → is_passed_over name ≡ false
    → Recorded name
plain name a b c d = record { one_line = a; no_cr = b; trimmed = c; kept = d }

lock-Recorded : All Recorded (read_lock repo.lock ++ report.applied)
unfolding has_newline strip_cr trim trim_start trim_end keep_trimmed is_passed_over is_whitespace
    within read_lock names_of lines_from
lock-Recorded = (
  plain (codes "000_old.eql") refl refl refl refl,
  (
    plain (codes "001_notes.eql") refl refl refl refl,
    (plain (codes "002_none.eql") refl refl refl refl, tt),
  ),
)

report-Storable : All Storable report.schema.collections
unfolding has_blank has_dot is_whitespace within
report-Storable =
    (record { own = refl; word = refl; no_dot = refl; keys = (refl, tt); indexes = tt }, tt)

migrate-twice_example : migrate parse_text files (migrate parse_text files repo).1 ≡ (
  ok (record {
    applied = [];
    skipped = codes "001_notes.eql" ∷ codes "002_none.eql" ∷ [];
    schema = report.schema;
  }),
  (migrate parse_text files repo).1,
)
migrate-twice_example =
    Twice.migrate-twice parse_text files repo report first_run lock-Recorded (tt, tt)
      report-Storable

abbrev notes_and_items : SchemaRegistry
notes_and_items = record {
  collections =
      (
        codes "items",
        record {
          name = codes "items";
          primary_key =
              record { path = codes "id"; field_type = FieldType.string }
              ∷ record { path = codes "meta.k"; field_type = FieldType.bytes }
              ∷ [];
          indexes =
              record {
                name = codes "items.by_meta_k";
                path = codes "meta.k";
                field_type = FieldType.int;
              }
              ∷ [];
        },
      )
      ∷ (codes "notes", record { name = codes "notes"; primary_key = []; indexes = [] })
      ∷ [];
}

notes_and_items-Storable : All Storable notes_and_items.collections
unfolding has_blank has_dot is_whitespace within index_name_for slug
notes_and_items-Storable = (
  record {
    own = refl;
    word = refl;
    no_dot = refl;
    keys = (refl, (refl, tt));
    indexes = ((refl, refl), tt);
  },
  (record { own = refl; word = refl; no_dot = refl; keys = tt; indexes = tt }, tt),
)

notes_and_items-IsAscending : IsAscending notes_and_items.collections
unfolding bytes_lt
notes_and_items-IsAscending = ((refl, tt), (tt, tt))

parse-to_state_file_example : parse (to_state_file notes_and_items) ≡ ok notes_and_items
parse-to_state_file_example =
    State.ReadBack.parse-to_state_file notes_and_items notes_and_items-IsAscending
      notes_and_items-Storable
