-- ===== src/Tests/Walks.antt =====
-- The walks on a history of three commits: two over one root.
use epochs.Common.{
  ◌≡◌, ◌↔◌, ◌≤◌, refl, [], ◌∷◌, List, Bool, Option, true, false, bytes_eq, if◌then◌else◌,
  Bool-cases, inl, inr, arith,
}
use epochs.Commit
use epochs.Commit.{Commit}
use epochs.Dag.Ancestors
use epochs.Dag.Ancestors.{History}
use epochs.Dag.MergeBase
use epochs.Dag.Reach.{Reach, links}
use epochs.Dag.{member, collect_ancestors, is_ancestor, merge_base}
use epochs.Hash.{Hash, zero_hash}
use epochs.Outcome.Action.{Action, pure}
use epochs.Outcome.{ok}

abbrev root : Hash
root = 1 ∷ []

abbrev left : Hash
left = 2 ∷ []

abbrev right : Hash
right = 3 ∷ []

abbrev commits : List Hash
commits = root ∷ left ∷ right ∷ []

unfoldable parents_of : Hash → List Hash
parents_of h = if bytes_eq h root then [] else root ∷ []

abbrev load : Hash → Action (Unit {0}) Commit
load h = pure (Commit.new (parents_of h) zero_hash 0 [])

parents-known :
    (h p : Hash)
    → member h commits ≡ true
    → member p (parents_of h) ≡ true
    → member p commits ≡ true
unfolding parents_of member
parents-known h p m k = elim (Bool-cases (bytes_eq h root)) [
  | inl same ↦ let no : false ≡ true = rw same at k in cc
  | inr other ↦ ground (arith, rw other at k)
]

abbrev history : History load
history = record {
  parents_of = parents_of;
  all = commits;
  Inv = λ s. Unit {0};
  loads =
      λ h s m i. (Commit.new (parents_of h) zero_hash 0 [], s, refl, unfold Commit.new in refl, tt);
  closed = parents-known;
}

left-known : member left commits ≡ true
unfolding member bytes_eq
left-known = refl

right-known : member right commits ≡ true
unfolding member bytes_eq
right-known = refl

enough_rounds : Ancestors.rounds load history ≤ 9
unfolding links member parents_of bytes_eq
enough_rounds = omega arith

-- The theorems at these inputs.
collect_ancestors-Reach_example :
    (found : List Hash) × (s' : Unit {0}) × (collect_ancestors load 9 left tt ≡ (ok found, s'))
    × Unit {0}
    × ((x : Hash) → (member x found ≡ true) ↔ Reach parents_of left x)
collect_ancestors-Reach_example =
    Ancestors.collect_ancestors-Reach load history 9 left tt left-known tt enough_rounds

is_ancestor-Reach_example :
    (b : Bool) × (s' : Unit {0}) × (is_ancestor load 9 root left tt ≡ (ok b, s'))
    × ((b ≡ true) ↔ Reach parents_of left root)
is_ancestor-Reach_example =
    Ancestors.is_ancestor-Reach load history 9 root left tt left-known tt enough_rounds

merge_base-IsBase_example :
    (r : Option Hash) × (s' : Unit {0}) × (merge_base load 9 left right tt ≡ (ok r, s'))
    × MergeBase.IsBase load history left right r
merge_base-IsBase_example =
    MergeBase.merge_base-IsBase load history 9 left right tt left-known right-known tt enough_rounds
      (omega arith)
