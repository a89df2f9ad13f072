-- ===== src/Outcome/Action.antt =====
-- Methods that take `&mut self`: the state is returned also where the call fails, since what
-- was written before an early return by `?` stays written.
use epochs.Common.{
  ℕ, List, ◌∷◌, ◌++◌, get_elem?, none, some, length, ltb, take, drop, if◌then◌else◌,
}
use epochs.Outcome.{Result, ok, err, panicked, out_of_fuel, EpochsError}

abbrev pub Action : Type 0 → Type 0 → Type 0
Action S A = S → Result A × S

abbrev pub continue : {S A B : Type 0} → Result A × S → (A → Action S B) → Result B × S
continue (ok a, s) f = f a s
continue (err e, s) f = (err e, s)
continue (panicked, s) f = (panicked, s)
continue (out_of_fuel, s) f = (out_of_fuel, s)

infixl 5 ◌>>=◌
abbrev pub ◌>>=◌ : {S A B : Type 0} → Action S A → (A → Action S B) → Action S B
◌>>=◌ m f s = continue (m s) f

abbrev pub pure : {S A : Type 0} → A → Action S A
pure a s = (ok a, s)

abbrev pub fail : {S A : Type 0} → EpochsError → Action S A
fail e s = (err e, s)

-- A call that does not touch the state.
abbrev pub lift : {S A : Type 0} → Result A → Action S A
lift r s = (r, s)

-- `xs[i]`.
abbrev pub index_at : {S A : Type 0} → List A → ℕ → Action S A
index_at xs i = lift (elim (get_elem? xs i) [ none ↦ panicked | some x ↦ ok x ])

-- `xs.insert(i, x)`.
abbrev pub insert_at : {S A : Type 0} → List A → ℕ → A → Action S (List A)
insert_at xs i x = lift (if ltb (length xs) i then panicked else ok (take i xs ++ x ∷ drop i xs))
