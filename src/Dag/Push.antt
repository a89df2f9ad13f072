-- ===== src/Dag/Push.antt =====
-- The queue and the visited commits after `push_new`.
use epochs.Common.{
  ℕ, ◌+◌, ◌≤◌, ◌≡◌, subst, List, [], ◌∷◌, ◌++◌, true, false, ◌⊎◌, inl, inr, length, length-append,
  if◌then◌else◌, bytes_eq, bytes_eq_iff, bytes_eq_refl, Bool-cases, arith,
}
use epochs.Dag.Reach.{
  member-cons, member-head, member-tail, member-split, member-front, member-back,
}
use epochs.Dag.{member, push_new}
use epochs.Hash.{Hash}

-- The commits of `all` that are not in `seen`.
unfoldable pub unseen : List Hash → List Hash → ℕ
unseen seen [] = 0
unseen seen (u ∷ all) = (if member u seen then 0 else 1) + unseen seen all

unseen_mono : (h : Hash) (seen all : List Hash) → unseen (h ∷ seen) all ≤ unseen seen all
unfolding unseen member
unseen_mono h seen [] = omega arith
unseen_mono h seen (u ∷ all) = ground (arith, unseen_mono h seen all)

unseen-cons :
    (h : Hash) (seen all : List Hash)
    → member h seen ≡ false
    → member h all ≡ true
    → unseen (h ∷ seen) all + 1 ≤ unseen seen all
unfolding unseen member
unseen-cons h seen [] n m = cc
unseen-cons h seen (u ∷ all) n m = elim (Bool-cases (bytes_eq u h)) [
  | inl same ↦
      let e = (bytes_eq_iff u h).0 same in
      rw (e, bytes_eq_refl h, n) (omega (arith, unseen_mono h seen all))
  | inr other ↦ ground (arith, unseen-cons h seen all n (rw other at m))
]

pub unseen-le : (seen all : List Hash) → unseen seen all ≤ length all
unfolding unseen
unseen-le seen [] = omega arith
unseen-le seen (u ∷ all) = ground (arith, unseen-le seen all)

-- What the loop over the parents does to the set and the queue.
pub record Pushed (all ps v q v' q' : List Hash) : Type 0 where
  pub kept : (x : Hash) → member x v ≡ true → member x v' ≡ true
  pub added : (x : Hash) → member x ps ≡ true → member x v' ≡ true
  pub source :
      (x : Hash)
      → member x v' ≡ true
      → (member x v ≡ true) ⊎ ((member x ps ≡ true) × (member x q' ≡ true))
  pub still : (x : Hash) → member x q ≡ true → member x q' ≡ true
  pub queued : (x : Hash) → member x q' ≡ true → (member x q ≡ true) ⊎ (member x v' ≡ true)
  pub fits : length q' + unseen v' all ≤ length q + unseen v all

pub push_new-Pushed :
    (all ps v q : List Hash)
    → ((x : Hash) → member x ps ≡ true → member x all ≡ true)
    → Pushed all ps v q (push_new ps v q).0 (push_new ps v q).1
unfolding push_new
push_new-Pushed all [] v q sub = record {
  kept = λ x m. m;
  added = λ x m. unfold member in cc;
  source = λ x m. inl m;
  still = λ x m. m;
  queued = λ x m. inl m;
  fits = omega arith;
}
push_new-Pushed all (p ∷ ps) v q sub =
    let sub' = λ (x : Hash) (m : member x ps ≡ true). sub x (member-tail x p ps m) in
    elim (Bool-cases (member p v)) [
      | inl old ↦
          let ih = push_new-Pushed all ps v q sub' in
          rw (old, push_new)
            (record {
              kept = ih.kept;
              added = λ x m. elim (member-cons x p ps m) [
                | inl same ↦ subst (λ y. member y (push_new ps v q).0 ≡ true) same (ih.kept p old)
                | inr rest ↦ ih.added x rest
              ];
              source = λ x m. elim (ih.source x m) [
                | inl before ↦ inl before
                | inr (k, l) ↦ inr (member-tail x p ps k, l)
              ];
              still = ih.still;
              queued = ih.queued;
              fits = ih.fits;
            })
      | inr new ↦
          let ih = push_new-Pushed all ps (p ∷ v) (q ++ p ∷ []) sub' in
          let fewer = unseen-cons p v all new (sub p (member-head p ps)) in
          let last = member-back p q (p ∷ []) (member-head p []) in
          rw (new, push_new)
            (record {
              kept = λ x m. ih.kept x (member-tail x p v m);
              added = λ x m. elim (member-cons x p ps m) [
                | inl same ↦
                    subst (λ y. member y (push_new ps (p ∷ v) (q ++ p ∷ [])).0 ≡ true) same
                      (ih.kept p (member-head p v))
                | inr rest ↦ ih.added x rest
              ];
              source = λ x m. elim (ih.source x m) [
                | inl before ↦ elim (member-cons x p v before) [
                  | inl same ↦ inr (
                      subst
                        (λ y.
                          (member y (p ∷ ps) ≡ true)
                          × (member y (push_new ps (p ∷ v) (q ++ p ∷ [])).1 ≡ true))
                        same (member-head p ps, ih.still p last))
                  | inr older ↦ inl older
                ]
                | inr (k, l) ↦ inr (member-tail x p ps k, l)
              ];
              still = λ x m. ih.still x (member-front x q (p ∷ []) m);
              queued = λ x m. elim (ih.queued x m) [
                | inl before ↦ elim (member-split x q (p ∷ []) before) [
                  | inl front ↦ inl front
                  | inr back ↦ elim (member-cons x p [] back) [
                    | inl same ↦ inr (
                        subst (λ y. member y (push_new ps (p ∷ v) (q ++ p ∷ [])).0 ≡ true) same
                          (ih.kept p (member-head p v)))
                    | inr nothing ↦ unfold member in cc
                  ]
                ]
                | inr set ↦ inr set
              ];
              fits = omega (arith, ih.fits, fewer, length-append q (p ∷ []));
            })
    ]
