-- ===== src/Ql/Schema/Migrate/Applied.antt =====
-- What the loop over the migration files adds to the lock and what it skips.
use epochs.Common.{
  List, [], ◌∷◌, ◌++◌, true, ◌||◌, ◌≡◌, refl, sym, ap, ◌∙◌, Option, Bool-cases, inl, inr,
  bytes_eq_refl, append_assoc, append-nil, All, arith,
}
use epochs.Ql.Chars.{Chars}
use epochs.Ql.Error.{Parsed, ok, err, panicked, out_of_fuel, ◌>>=◌}
use epochs.Ql.Schema.Ddl.{parse_migration}
use epochs.Ql.Schema.Migrate.{
  Migration, is_applied, apply_file, apply_statements, migrate_file, migrate_loop,
}

-- The names of the migration files.
abbrev pub names : List (Chars × Chars) → List Chars
names [] = []
names ((name, text) ∷ files) = name ∷ names files

is_applied-append :
    (name : Chars) (a b : List Chars)
    → is_applied name (a ++ b) ≡ (is_applied name a || is_applied name b)
unfolding is_applied
is_applied-append name [] b = refl
is_applied-append name (n ∷ a) b = rw (is_applied-append name a b) (ground arith)

-- What was run behind a result that is there.
pub >>=-ok :
    {A B : Type 0} (r : Parsed A) (f : A → Parsed B) (b : B)
    → (r >>= f) ≡ ok b
    → (a : A) × (r ≡ ok a) × (f a ≡ ok b)
>>=-ok (ok a) f b e = (a, refl, e)
>>=-ok (err x) f b e = absurd cc
>>=-ok panicked f b e = absurd cc
>>=-ok out_of_fuel f b e = absurd cc

pub ok_injective : {A : Type 0} {a b : A} → ok a ≡ ok b → a ≡ b
ok_injective e = cc

module _ {F64 : Type 0} (parse_f64 : Chars → Option F64) where
  -- The names that are applied are so later too.
  abbrev pub Grows : Migration → Migration → Type 0
  Grows m r = (n : Chars) → is_applied n m.applied_lock ≡ true → is_applied n r.applied_lock ≡ true

  migrate_file-applied :
      (m r : Migration) (name text : Chars)
      → migrate_file parse_f64 m name text ≡ ok r
      → Grows m r × (is_applied name r.applied_lock ≡ true)
  unfolding migrate_file apply_file
  migrate_file-applied m r name text e = elim (Bool-cases (is_applied name m.applied_lock)) [
    | inl there ↦
        let same : m.applied_lock ≡ r.applied_lock =
          ap (λ (m : Migration). m.applied_lock) (ok_injective (rw there at e)) in
        (λ n e. ap (is_applied n) (sym same) ∙ e, ap (is_applied name) (sym same) ∙ there)
    | inr new ↦
        let (stmts, parsed, rest) = >>=-ok (parse_migration parse_f64 text) _ r (rw new at e) in
        let (schema, applied, done) = >>=-ok (apply_statements m.schema stmts) _ r rest in
        let same : m.applied_lock ++ (name ∷ []) ≡ r.applied_lock =
          ap (λ (m : Migration). m.applied_lock) (ok_injective done) in
        (
          λ n e.
              ap (is_applied n) (sym same)
              ∙ is_applied-append n m.applied_lock (name ∷ [])
              ∙ (rw e refl),
          ap (is_applied name) (sym same)
              ∙ is_applied-append name m.applied_lock (name ∷ [])
              ∙ rw new (unfold is_applied in rw (bytes_eq_refl name) refl),
        )
  ]

  pub migrate_loop-applied :
      (m r : Migration) (files : List (Chars × Chars))
      → migrate_loop parse_f64 m files ≡ ok r
      → Grows m r × All (λ file. is_applied file.0 r.applied_lock ≡ true) files
  unfolding migrate_loop
  migrate_loop-applied m r [] e =
      let same : m.applied_lock ≡ r.applied_lock =
        ap (λ (m : Migration). m.applied_lock) (ok_injective e) in
      (λ n there. ap (is_applied n) (sym same) ∙ there, tt)
  migrate_loop-applied m r ((name, text) ∷ files) e =
      let (m', first, others) = >>=-ok (migrate_file parse_f64 m name text) _ r e in
      let (grows, here) = migrate_file-applied m m' name text first in
      let (grows', all) = migrate_loop-applied m' r files others in
      (λ n there. grows' n (grows n there), (grows' name here, all))

  pub migrate_loop-skips :
      (m : Migration) (files : List (Chars × Chars))
      → All (λ file. is_applied file.0 m.applied_lock ≡ true) files
      → migrate_loop parse_f64 m files ≡ ok (record m { skipped = m.skipped ++ names files })
  unfolding migrate_loop migrate_file
  migrate_loop-skips m [] all =
      ap (λ skipped. ok (record m { skipped = skipped })) (sym (append-nil m.skipped))
  migrate_loop-skips m ((name, text) ∷ files) (here, all) = rw here (
      migrate_loop-skips (record m { skipped = m.skipped ++ (name ∷ []) }) files all
      ∙ ap (λ skipped. ok (record m { skipped = skipped }))
          (append_assoc m.skipped (name ∷ []) (names files)))

  -- The names that a run adds to the lock are those that it reports as applied.
  abbrev pub Adds : Migration → Migration → Type 0
  Adds m r =
      (new : List Chars) × (r.applied_lock ≡ m.applied_lock ++ new)
      × (r.newly_applied ≡ m.newly_applied ++ new)

  migrate_file-Adds :
      (m r : Migration) (name text : Chars) → migrate_file parse_f64 m name text ≡ ok r → Adds m r
  unfolding migrate_file apply_file
  migrate_file-Adds m r name text e = elim (Bool-cases (is_applied name m.applied_lock)) [
    | inl there ↦
        let same = ok_injective (rw there at e) in
        (
          [],
          ap (λ (m : Migration). m.applied_lock) (sym same) ∙ sym (append-nil m.applied_lock),
          ap (λ (m : Migration). m.newly_applied) (sym same) ∙ sym (append-nil m.newly_applied),
        )
    | inr new ↦
        let (stmts, parsed, rest) = >>=-ok (parse_migration parse_f64 text) _ r (rw new at e) in
        let (schema, applied, done) = >>=-ok (apply_statements m.schema stmts) _ r rest in
        let same = ok_injective done in
        (
          name ∷ [],
          ap (λ (m : Migration). m.applied_lock) (sym same),
          ap (λ (m : Migration). m.newly_applied) (sym same),
        )
  ]

  pub migrate_loop-Adds :
      (m r : Migration) (files : List (Chars × Chars))
      → migrate_loop parse_f64 m files ≡ ok r
      → Adds m r
  unfolding migrate_loop
  migrate_loop-Adds m r [] e =
      let same = ok_injective e in
      (
        [],
        ap (λ (m : Migration). m.applied_lock) (sym same) ∙ sym (append-nil m.applied_lock),
        ap (λ (m : Migration). m.newly_applied) (sym same) ∙ sym (append-nil m.newly_applied),
      )
  migrate_loop-Adds m r ((name, text) ∷ files) e =
      let (m', first, others) = >>=-ok (migrate_file parse_f64 m name text) _ r e in
      let (a, lock, applied) = migrate_file-Adds m m' name text first in
      let (b, lock', applied') = migrate_loop-Adds m' r files others in
      (
        a ++ b,
        lock' ∙ ap (λ (l : List Chars). l ++ b) lock ∙ append_assoc m.applied_lock a b,
        applied' ∙ ap (λ (l : List Chars). l ++ b) applied ∙ append_assoc m.newly_applied a b,
      )
