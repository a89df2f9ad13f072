-- ===== src/Dag/Reach.antt =====
-- The commits that are reached from a commit by parents, and membership of hashes in lists.
use epochs.Common.{
  ℕ, ◌+◌, ◌≤◌, ◌≡◌, refl, ◌∙◌, List, [], ◌∷◌, ◌++◌, true, false, ◌||◌, ◌⊎◌, inl, inr, length,
  if◌then◌else◌, bytes_eq, bytes_eq_iff, bytes_eq_refl, Bool-cases, arith,
}
use epochs.Dag.{member}
use epochs.Hash.{Hash}

pub member-append :
    (k : Hash) (xs ys : List Hash) → member k (xs ++ ys) ≡ member k xs || member k ys
unfolding member
member-append k [] ys = refl
member-append k (x ∷ xs) ys = ground (arith, member-append k xs ys)

-- A member of a list with one more element.
pub member-cons :
    (k x : Hash) (xs : List Hash) → member k (x ∷ xs) ≡ true → (x ≡ k) ⊎ (member k xs ≡ true)
unfolding member
member-cons k x xs m = elim (Bool-cases (bytes_eq x k)) [
  | inl same ↦ inl ((bytes_eq_iff x k).0 same)
  | inr other ↦ inr (rw other at m)
]

pub member-head : (k : Hash) (xs : List Hash) → member k (k ∷ xs) ≡ true
unfolding member
member-head k xs = rw (bytes_eq_refl k) refl

pub member-tail : (k x : Hash) (xs : List Hash) → member k xs ≡ true → member k (x ∷ xs) ≡ true
unfolding member
member-tail k x xs m = ground arith

pub member-split :
    (k : Hash) (xs ys : List Hash)
    → member k (xs ++ ys) ≡ true
    → (member k xs ≡ true) ⊎ (member k ys ≡ true)
member-split k xs ys m = elim (Bool-cases (member k xs)) [
  | inl front ↦ inl front
  | inr back ↦ inr (rw (member-append k xs ys, back) at m)
]

pub member-front : (k : Hash) (xs ys : List Hash) → member k xs ≡ true → member k (xs ++ ys) ≡ true
member-front k xs ys m = rw (member-append k xs ys, m) refl

pub member-back : (k : Hash) (xs ys : List Hash) → member k ys ≡ true → member k (xs ++ ys) ≡ true
member-back k xs ys m = member-append k xs ys ∙ ground (arith, m)

module _ (parents_of : Hash → List Hash) where
  -- `x` is `start`, or a parent of a commit that is reached.
  pub data Reach (start : Hash) : Hash → Type 0 where
    here : Reach start start
    up : {h p : Hash} → Reach start h → member p (parents_of h) ≡ true → Reach start p

  -- The links of the commits in `all` that are not yet in `seen`.
  unfoldable pub links : List Hash → List Hash → ℕ
  links seen [] = 0
  links seen (u ∷ all) = (if member u seen then 0 else length (parents_of u)) + links seen all

  links_mono : (h : Hash) (seen all : List Hash) → links (h ∷ seen) all ≤ links seen all
  unfolding links member
  links_mono h seen [] = omega arith
  links_mono h seen (u ∷ all) = ground (arith, links_mono h seen all)

  -- Seeing a commit of `all` takes its links away.
  pub links-cons :
      (h : Hash) (seen all : List Hash)
      → member h seen ≡ false
      → member h all ≡ true
      → links (h ∷ seen) all + length (parents_of h) ≤ links seen all
  unfolding links member
  links-cons h seen [] n m = cc
  links-cons h seen (u ∷ all) n m = elim (Bool-cases (bytes_eq u h)) [
    | inl same ↦
        let e = (bytes_eq_iff u h).0 same in
        rw (e, bytes_eq_refl h, n) (omega (arith, links_mono h seen all))
    | inr other ↦ ground (arith, links-cons h seen all n (rw other at m))
  ]
