-- ===== src/Assoc.antt =====
-- The standard library's maps with byte strings for keys: `HashMap` as an association list, of
-- which the code reads no order, and `BTreeMap` as a list that is sorted by key.
pub mod Laws
use epochs.Common.{
  ℕ, List, [], ◌∷◌, ◌++◌, Bool, true, false, ◌&&◌, ◌||◌, not, Option, none, some, ltb, ◌==◌,
  if◌then◌else◌, bytes_eq, length, map, ◌≡◌, All,
}

-- The order of `[u8]` and of `str`: lexicographic on bytes.
unfoldable pub bytes_lt : List ℕ → List ℕ → Bool
bytes_lt [] [] = false
bytes_lt [] (b ∷ bs) = true
bytes_lt (a ∷ as') [] = false
bytes_lt (a ∷ as') (b ∷ bs) = ltb a b || a == b && bytes_lt as' bs

module _ {ℓ} {V : Type ℓ} where
  unfoldable pub get : List ℕ → List (List ℕ × V) → Option V
  get k [] = none
  get k ((j, v) ∷ m) = if bytes_eq j k then some v else get k m

  unfoldable pub contains_key : List ℕ → List (List ℕ × V) → Bool
  contains_key k [] = false
  contains_key k ((j, v) ∷ m) = bytes_eq j k || contains_key k m

  -- A key that is there keeps its place, and a new one is put at the end.
  unfoldable pub insert : List ℕ → V → List (List ℕ × V) → List (List ℕ × V)
  insert k v [] = (k, v) ∷ []
  insert k v ((j, w) ∷ m) = if bytes_eq j k then (k, v) ∷ m else (j, w) ∷ insert k v m

  unfoldable pub remove : List ℕ → List (List ℕ × V) → List (List ℕ × V)
  remove k [] = []
  remove k ((j, w) ∷ m) = let rest = remove k m in if bytes_eq j k then rest else (j, w) ∷ rest

  -- `BTreeMap::insert`.
  unfoldable pub sorted_insert : List ℕ → V → List (List ℕ × V) → List (List ℕ × V)
  sorted_insert k v [] = (k, v) ∷ []
  sorted_insert k v ((j, w) ∷ m) =
      let rest = sorted_insert k v m in
      if bytes_eq j k
      then (k, v) ∷ m
      else if bytes_lt k j
      then (k, v) ∷ (j, w) ∷ m
      else (j, w) ∷ rest

  -- The keys of a `BTreeMap` ascend.
  abbrev pub IsAscending : List (List ℕ × V) → Type 0
  IsAscending [] = Unit
  IsAscending ((k, v) ∷ m) = All (λ e. bytes_lt k e.0 ≡ true) m × IsAscending m
