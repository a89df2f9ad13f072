-- ===== src/Assoc/Laws.antt =====
-- What lookups see after a write, and when a write to a sorted map is one at its end.
use epochs.Common.{
  ℕ, List, [], ◌∷◌, ◌++◌, true, false, none, some, if◌then◌else◌, bytes_eq, bytes_eq_refl,
  Bool-cases, inl, inr, ap, bytes_eq_iff, ◌≡◌, refl, Bool-cases, inl, inr, All, arith,
}
use epochs.Assoc.{bytes_lt, get, contains_key, insert, remove, sorted_insert}

module _ {ℓ} {V : Type ℓ} where
  pub get-insert :
      (k j : List ℕ) (v : V) (m : List (List ℕ × V))
      → get j (insert k v m) ≡ (if bytes_eq k j then some v else get j m)
  unfolding get insert
  get-insert k j v [] = refl
  get-insert k j v ((i, w) ∷ m) =
      ground (arith, bytes_eq_iff k j, bytes_eq_iff i k, bytes_eq_iff i j, get-insert k j v m)

  pub get-remove :
      (k j : List ℕ) (m : List (List ℕ × V))
      → get j (remove k m) ≡ (if bytes_eq k j then none else get j m)
  unfolding get remove
  get-remove k j [] = ground arith
  get-remove k j ((i, w) ∷ m) =
      ground (arith, bytes_eq_iff k j, bytes_eq_iff i k, bytes_eq_iff i j, get-remove k j m)

  pub contains_key-get :
      (k : List ℕ) (m : List (List ℕ × V)) → (if contains_key k m then get k m else none) ≡ get k m
  unfolding get contains_key
  contains_key-get k [] = refl
  contains_key-get k ((i, w) ∷ m) = ground (arith, contains_key-get k m)

  pub get-eq-none : (k : List ℕ) (m : List (List ℕ × V)) → contains_key k m ≡ false → get k m ≡ none
  unfolding get contains_key
  get-eq-none k [] h = refl
  get-eq-none k ((i, w) ∷ m) h = ground (arith, get-eq-none k m)

  pub some_of_contains_key :
      (k : List ℕ) (m : List (List ℕ × V)) → contains_key k m ≡ true → (v : V) × (get k m ≡ some v)
  unfolding get contains_key
  some_of_contains_key k [] h = cc
  some_of_contains_key k ((i, w) ∷ m) h = elim (Bool-cases (bytes_eq i k)) [
    | inl same ↦ (w, rw same)
    | inr other ↦ rw other (some_of_contains_key k m (rw other at h))
  ]

  pub insert_new :
      (k : List ℕ) (v : V) (m : List (List ℕ × V))
      → contains_key k m ≡ false
      → insert k v m ≡ m ++ (k, v) ∷ []
  unfolding contains_key insert
  insert_new k v [] h = refl
  insert_new k v ((i, w) ∷ m) h = ground (arith, insert_new k v m)

bytes_lt_gt : (a b : List ℕ) → bytes_lt a b ≡ true → (bytes_eq a b ≡ false) × (bytes_lt b a ≡ false)
unfolding bytes_lt bytes_eq
bytes_lt_gt [] [] h = cc
bytes_lt_gt [] (y ∷ b) h = (refl, refl)
bytes_lt_gt (x ∷ a) [] h = cc
bytes_lt_gt (x ∷ a) (y ∷ b) h = ground (arith, bytes_lt_gt a b)

module _ {ℓ} {V : Type ℓ} where
  -- A key above all the others goes to the end.
  pub sorted_insert_last :
      (k : List ℕ) (v : V) (m : List (List ℕ × V))
      → All (λ e. bytes_lt e.0 k ≡ true) m
      → sorted_insert k v m ≡ m ++ (k, v) ∷ []
  unfolding sorted_insert
  sorted_insert_last k v [] h = refl
  sorted_insert_last k v ((j, w) ∷ m) h =
      ground (arith, bytes_lt_gt j k h.0, sorted_insert_last k v m h.1)

  pub get-sorted_insert :
      (k : List ℕ) (v : V) (m : List (List ℕ × V)) → get k (sorted_insert k v m) ≡ some v
  unfolding get sorted_insert
  get-sorted_insert k v [] = rw (bytes_eq_refl k) refl
  get-sorted_insert k v ((j, w) ∷ m) = elim (Bool-cases (bytes_eq j k)) [
    | inl same ↦ rw (same, bytes_eq_refl k) refl
    | inr other ↦ elim (Bool-cases (bytes_lt k j)) [
      | inl first ↦ rw (other, first, bytes_eq_refl k) refl
      | inr later ↦ rw (other, later) (rw other (get-sorted_insert k v m))
    ]
  ]

  -- The last of two values stays.
  pub sorted_insert_again :
      (k : List ℕ) (v w : V) (m : List (List ℕ × V))
      → sorted_insert k w (sorted_insert k v m) ≡ sorted_insert k w m
  unfolding sorted_insert
  sorted_insert_again k v w [] = rw (bytes_eq_refl k) refl
  sorted_insert_again k v w ((j, x) ∷ m) = elim (Bool-cases (bytes_eq j k)) [
    | inl same ↦ rw (same, bytes_eq_refl k) refl
    | inr other ↦ elim (Bool-cases (bytes_lt k j)) [
      | inl first ↦ rw (other, first, bytes_eq_refl k) refl
      | inr later ↦
          rw (other, later)
            (rw (other, later) (ap (λ rest. (j, x) ∷ rest) (sorted_insert_again k v w m)))
    ]
  ]
