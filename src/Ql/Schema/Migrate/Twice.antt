-- ===== src/Ql/Schema/Migrate/Twice.antt =====
-- A second run of the migrations.
use epochs.Common.{List, [], ◌++◌, true, ◌≡◌, refl, sym, ap, ◌∙◌, subst, Option, some, All}
use epochs.Ql.Chars.{Chars}
use epochs.Ql.Error.{Parsed, ok, err, panicked, out_of_fuel}
use epochs.Ql.Schema.Lock.ReadBack.{Recorded, read_lock-write_lock}
use epochs.Ql.Schema.Lock.{read_lock, write_lock}
use epochs.Ql.Schema.Registry.{SchemaRegistry}
use epochs.Ql.Schema.Migrate.{
  Migration, is_applied, migrate, write_back, SchemaFiles, MigrationReport,
}
use epochs.Ql.Schema.State.{load, to_state_file}
use epochs.Ql.Schema.State.ReadBack.{parse-to_state_file}
use epochs.Ql.Schema.State.Texts.{Storable}
use epochs.Assoc.{IsAscending}
use epochs.Ql.Schema.Migrate.Applied.{
  >>=-ok, ok_injective, names, migrate_loop-applied, migrate_loop-skips, migrate_loop-Adds,
}

module _ {F64 : Type 0} (parse_f64 : Chars → Option F64) where
  -- What a run that succeeds did, and what it has written.
  write_back-ok :
      (repo : SchemaFiles) (r : Parsed Migration) (report : MigrationReport)
      → (write_back parse_f64 repo r).0 ≡ ok report
      → (m : Migration) × (r ≡ ok m)
        × (write_back parse_f64 repo r ≡ write_back parse_f64 repo (ok m))
        × (report ≡ record { applied = m.newly_applied; skipped = m.skipped; schema = m.schema })
  unfolding write_back
  write_back-ok repo (ok m) report e = (m, refl, refl, sym (ok_injective e))
  write_back-ok repo (err x) report e = absurd cc
  write_back-ok repo panicked report e = absurd cc
  write_back-ok repo out_of_fuel report e = absurd cc

  -- A run over the files that a successful one has left, in the lock and the schema.
  rerun :
      (m : Migration) (files : List (Chars × Chars))
      → All Recorded m.applied_lock
      → IsAscending m.schema.collections
      → All Storable m.schema.collections
      → All (λ file. is_applied file.0 m.applied_lock ≡ true) files
      → let repo : SchemaFiles = record {
        lock = some (write_lock m.applied_lock);
        state = some (to_state_file m.schema);
      } in
        migrate parse_f64 files repo
        ≡ (ok (record { applied = []; skipped = names files; schema = m.schema }), repo)
  unfolding migrate write_back load
  rerun m files recorded up storable all =
      rw
        (
          read_lock-write_lock m.applied_lock recorded,
          parse-to_state_file m.schema up storable,
          migrate_loop-skips parse_f64
              (record {
                applied_lock = m.applied_lock;
                schema = m.schema;
                newly_applied = [];
                skipped = [];
              })
              files all,
        )
        refl

  -- After a run that succeeds, a second run over the same migration files, from the schema.lock and
  -- the schema.state that the first has written, applies none of them: it skips them all, reports
  -- the same schema and leaves both texts as they are. For that, no name in the lock has a newline,
  -- starts or ends with whitespace, is empty or starts with `#`, and the schema is one that
  -- schema.state can hold: the names of its collections ascend, and each collection stands under its
  -- name, its name and its paths are words without whitespace, its name has no dot, and its indexes
  -- have the names of their paths.
  pub migrate-twice :
      (files : List (Chars × Chars)) (repo : SchemaFiles) (report : MigrationReport)
      → (migrate parse_f64 files repo).0 ≡ ok report
      → All Recorded (read_lock repo.lock ++ report.applied)
      → IsAscending report.schema.collections
      → All Storable report.schema.collections
      → migrate parse_f64 files (migrate parse_f64 files repo).1 ≡ (
        ok (record { applied = []; skipped = names files; schema = report.schema }),
        (migrate parse_f64 files repo).1,
      )
  unfolding migrate write_back
  migrate-twice files repo report e recorded up storable =
      let (m, ran, wrote, said) = write_back-ok repo _ report e in
      let (schema, loaded, looped) = >>=-ok (load repo.state) _ m ran in
      let (new, lock, applied) = migrate_loop-Adds parse_f64 _ m files looped in
      let listed : m.applied_lock ≡ read_lock repo.lock ++ report.applied =
        lock
        ∙ ap (λ (l : List Chars). read_lock repo.lock ++ l)
            (sym applied ∙ sym (ap (λ (r : MigrationReport). r.applied) said)) in
      let kept : report.schema ≡ m.schema = ap (λ (r : MigrationReport). r.schema) said in
      rw (wrote, kept)
        (rerun m files (rw listed recorded)
          (subst (λ (schema : SchemaRegistry). IsAscending schema.collections) kept up)
          (subst (λ (schema : SchemaRegistry). All Storable schema.collections) kept storable)
          (migrate_loop-applied parse_f64 _ m files looped).1)
