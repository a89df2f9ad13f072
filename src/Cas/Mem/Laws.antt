-- ===== src/Cas/Mem/Laws.antt =====
-- epochs-core/src/cas/mem.rs: what a reader finds after a write.
use epochs.Common.{
  Option, none, some, ◌≡◌, refl, ◌∙◌, sym, ap, Bool-cases, Option-cases, inl, inr, ◌⊎◌, bytes_eq,
  bytes_eq_iff, bytes_eq_refl, if◌then◌else◌,
}
use epochs.Outcome.{Result, ok, err, EpochsError, StorageError}
use epochs.Assoc
use epochs.Assoc.Laws as AssocLaws
use epochs.Cas.Laws.{CasLaws, Object}
use epochs.Cas.Mem.{MemCas, put, get_record, mem_backend}
use epochs.Codec.{Bytes}
use epochs.Hash.{Hash, Blake3}
use epochs.Record.{RecordType}

unfoldable pub first_writer : Option (RecordType × Bytes) → RecordType × Bytes → RecordType × Bytes
first_writer none new = new
first_writer (some old) new = old

put_as :
    (blake3 : Blake3) (t : RecordType) (payload : Bytes) (cas : MemCas)
    (o : Option (RecordType × Bytes))
    → Assoc.get (blake3.of_bytes payload) cas.objects ≡ o
    → put blake3 t payload cas ≡ (
      ok (blake3.of_bytes payload),
      elim o [
        | none ↦ record {
          objects = Assoc.insert (blake3.of_bytes payload) (t, payload) cas.objects;
        }
        | some old ↦ cas
      ],
    )
unfolding put
put_as blake3 t payload cas none e = rw (put, e) refl
put_as blake3 t payload cas (some old) e = rw (put, e) refl

get_record_as :
    (h : Hash) (cas : MemCas) (o : Option (RecordType × Bytes))
    → Assoc.get h cas.objects ≡ o
    → (get_record h cas).0
      ≡ elim o [ none ↦ err (EpochsError.storage (StorageError.not_found h)) | some old ↦ ok old ]
unfolding get_record
get_record_as h cas none e = rw (get_record, e) refl
get_record_as h cas (some old) e = rw (get_record, e) refl

get-put :
    (blake3 : Blake3) (t : RecordType) (payload : Bytes) (h : Hash) (cas : MemCas)
    → (o : Option (RecordType × Bytes)) → Assoc.get (blake3.of_bytes payload) cas.objects ≡ o
    → Assoc.get h (put blake3 t payload cas).1.objects ≡ (
        if bytes_eq (blake3.of_bytes payload) h
        then some (first_writer o (t, payload))
        else Assoc.get h cas.objects)
unfolding first_writer
get-put blake3 t payload h cas none e =
    rw (put_as blake3 t payload cas none e)
      (AssocLaws.get-insert (blake3.of_bytes payload) h (t, payload) cas.objects)
get-put blake3 t payload h cas (some old) e =
    elim (Bool-cases (bytes_eq (blake3.of_bytes payload) h)) [
      | inl same ↦
          rw
            (
              put_as blake3 t payload cas (some old) e,
              same,
              ← (bytes_eq_iff (blake3.of_bytes payload) h).0 same,
            )
            e
      | inr other ↦ rw (put_as blake3 t payload cas (some old) e, other) refl
    ]

-- A write returns the hash of its payload. Under that hash a reader then finds the object of the
-- first writer, its type included, or else the new object; every other hash reads as before.
pub get_record-put :
    (blake3 : Blake3) (t : RecordType) (payload : Bytes) (h : Hash) (cas : MemCas)
    → ((put blake3 t payload cas).0 ≡ ok (blake3.of_bytes payload))
      × ((get_record h (put blake3 t payload cas).1).0 ≡ (
          if bytes_eq (blake3.of_bytes payload) h
          then ok (first_writer (Assoc.get (blake3.of_bytes payload) cas.objects) (t, payload))
          else (get_record h cas).0))
get_record-put blake3 t payload h cas =
    let hash = blake3.of_bytes payload in
    let found = Assoc.get hash cas.objects in
    let after = (put blake3 t payload cas).1 in
    let written = get-put blake3 t payload h cas found refl in
    (
      ap (λ (r : Result Hash × MemCas). r.0) (put_as blake3 t payload cas found refl),
      elim (Bool-cases (bytes_eq hash h)) [
        | inl same ↦
            rw same
              (get_record_as h after (some (first_writer found (t, payload))) (rw same at written))
        | inr other ↦ rw other (
            get_record_as h after (Assoc.get h cas.objects) (rw other at written)
            ∙ sym (get_record_as h cas (Assoc.get h cas.objects) refl))
      ],
    )

abbrev pub InMem : MemCas → Hash → Object → Type 0
InMem cas h o = Assoc.get h cas.objects ≡ some o

pub get-InMem :
    (cas : MemCas) (h : Hash) (o : Object)
    → InMem cas h o
    → (cas' : MemCas) × (get_record h cas ≡ (ok o, cas'))
      × ((k : Hash) (x : Object) → InMem cas k x → InMem cas' k x)
      × ((k : Hash) (x : Object) → InMem cas' k x → InMem cas k x)
unfolding get_record
get-InMem cas h o e = (cas, rw (get_record, e) refl, λ k x p. p, λ k x p. p)

pub put-InMem :
    (blake3 : Blake3) (cas : MemCas) (t : RecordType) (payload : Bytes)
    → ((x : Object) → InMem cas (blake3.of_bytes payload) x → x ≡ (t, payload))
    → (cas' : MemCas) × (put blake3 t payload cas ≡ (ok (blake3.of_bytes payload), cas'))
      × InMem cas' (blake3.of_bytes payload) (t, payload)
      × ((k : Hash) (x : Object) → InMem cas k x → InMem cas' k x)
      × ((k : Hash) (x : Object)
          → InMem cas' k x
          → InMem cas k x ⊎ ((k ≡ blake3.of_bytes payload) × (x ≡ (t, payload))))
put-InMem blake3 cas t payload alone =
    let hash = blake3.of_bytes payload in
    elim (Option-cases (Assoc.get hash cas.objects)) [
      | inl absent ↦
          let objects = Assoc.insert hash (t, payload) cas.objects in
          let law = λ (k : Hash). AssocLaws.get-insert hash k (t, payload) cas.objects in
          (
            record { objects = objects },
            put_as blake3 t payload cas none absent,
            law hash ∙ rw (bytes_eq_refl hash) refl,
            λ k x p. elim (Bool-cases (bytes_eq hash k)) [
              | inl same ↦
                  let none_there : ◌≡◌ {A = Option Object} none (some x) =
                    sym absent
                    ∙ ap (λ y. Assoc.get y cas.objects) ((bytes_eq_iff hash k).0 same)
                    ∙ p in
                  cc
              | inr other ↦ law k ∙ rw other p
            ],
            λ k x p. elim (Bool-cases (bytes_eq hash k)) [
              | inl same ↦
                  let new : some (t, payload) ≡ some x = sym (law k ∙ rw same refl) ∙ p in
                  inr (sym ((bytes_eq_iff hash k).0 same), cc)
              | inr other ↦ inl (sym (rw other at (law k)) ∙ p)
            ],
          )
      | inr (old, there) ↦ (
        cas,
        put_as blake3 t payload cas (some old) there,
        there ∙ ap some (alone old there),
        λ k x p. p,
        λ k x p. inl p,
      )
    ]

-- The store in memory behind the interface.
unfoldable pub mem_laws : (blake3 : Blake3) → CasLaws (mem_backend blake3) blake3
unfolding mem_backend
mem_laws blake3 = record { Holds = InMem; get_held = get-InMem; put_held = put-InMem blake3 }
