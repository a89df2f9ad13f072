-- ===== src/Dag/Ancestors.antt =====
-- `collect_ancestors` and `is_ancestor` on a history whose commits can be loaded.
use epochs.Common.{
  ℕ, zero, suc, ◌+◌, ◌≤◌, ◌≡◌, ◌↔◌, refl, sym, subst, List, [], ◌∷◌, ◌++◌, Bool, true, ◌⊎◌, inl,
  inr, length, length-append, bytes_eq, bytes_eq_iff, Bool-cases, arith,
}
use epochs.Commit.{Commit}
use epochs.Dag.Reach.{
  member-cons, member-head, member-tail, member-split, member-front, member-back, Reach, here, up,
  links, links-cons,
}
use epochs.Dag.{member, ancestors_loop, collect_ancestors, is_ancestor}
use epochs.Hash.{Hash}
use epochs.Outcome.Action.{Action}
use epochs.Outcome.{Result, ok}

-- What the walks rely on: in a state with `Inv`, each of the commits `all` is loaded with its
-- parents, which are in `all` too, and `Inv` stays.
pub record History {S : Type 0} (get_commit : Hash → Action S Commit) : Type 1 where
  pub parents_of : Hash → List Hash
  pub all : List Hash
  pub Inv : S → Type 0
  pub loads :
      (h : Hash) (s : S)
      → member h all ≡ true
      → Inv s
      → (c : Commit) × (s' : S) × (get_commit h s ≡ (ok c, s'))
        × (c.parents ≡ parents_of h)
        × Inv s'
  pub closed :
      (h p : Hash) → member h all ≡ true → member p (parents_of h) ≡ true → member p all ≡ true

module _ {S : Type 0} (get_commit : Hash → Action S Commit) (hist : History get_commit) where
  -- The number of rounds that any walk needs at most: one for each link, and one for the start.
  abbrev pub rounds : ℕ
  rounds = 1 + links hist.parents_of [] hist.all

  -- The set and the queue of a walk from `start`.
  record Inv (start : Hash) (seen queue : List Hash) : Type 0 where
    seen_reached : (x : Hash) → member x seen ≡ true → Reach hist.parents_of start x
    queue_reached : (x : Hash) → member x queue ≡ true → Reach hist.parents_of start x
    queue_all : (x : Hash) → member x queue ≡ true → member x hist.all ≡ true
    source : (member start seen ≡ true) ⊎ (member start queue ≡ true)
    followed :
        (x p : Hash)
        → member x seen ≡ true
        → member p (hist.parents_of x) ≡ true
        → (member p seen ≡ true) ⊎ (member p queue ≡ true)

  abbrev Returns : Result (List Hash) × S → Hash → Type 0
  Returns r start =
      (found : List Hash) × (s' : S) × (r ≡ (ok found, s'))
      × hist.Inv s'
      × ((x : Hash) → (member x found ≡ true) ↔ Reach hist.parents_of start x)

  -- With an empty queue the set is closed under parents.
  complete :
      (start : Hash) (seen : List Hash)
      → Inv start seen []
      → {x : Hash} → Reach hist.parents_of start x
      → member x seen ≡ true
  unfolding member
  complete start seen v here = elim v.source [ inl done ↦ done | inr queued ↦ cc ]
  complete start seen v (up {h} {p} r m) = elim (v.followed h p (complete start seen v r) m) [
    | inl done ↦ done
    | inr queued ↦ cc
  ]

  -- A commit that was seen before leaves the queue.
  Inv-skip :
      (start h : Hash) (seen queue : List Hash)
      → member h seen ≡ true
      → Inv start seen (h ∷ queue)
      → Inv start seen queue
  Inv-skip start h seen queue old v = record {
    seen_reached = v.seen_reached;
    queue_reached = λ x m. v.queue_reached x (member-tail x h queue m);
    queue_all = λ x m. v.queue_all x (member-tail x h queue m);
    source = elim v.source [ inl done ↦ inl done | inr q ↦ left start q ];
    followed = λ x p m k. elim (v.followed x p m k) [ inl done ↦ inl done | inr q ↦ left p q ];
  }
    where
      left :
          (x : Hash)
          → member x (h ∷ queue) ≡ true
          → (member x seen ≡ true) ⊎ (member x queue ≡ true)
      left x m = elim (member-cons x h queue m) [
        | inl same ↦ inl (subst (λ y. member y seen ≡ true) same old)
        | inr rest ↦ inr rest
      ]

  -- A commit that is new joins the set, and its parents the queue.
  Inv-visit :
      (start h : Hash) (seen queue : List Hash)
      → Inv start seen (h ∷ queue)
      → Inv start (h ∷ seen) (queue ++ hist.parents_of h)
  Inv-visit start h seen queue v = record {
    seen_reached = λ x m. elim (member-cons x h seen m) [
      | inl same ↦ subst (Reach hist.parents_of start) same to_h
      | inr old ↦ v.seen_reached x old
    ];
    queue_reached = λ x m. elim (member-split x queue (hist.parents_of h) m) [
      | inl old ↦ v.queue_reached x (member-tail x h queue old)
      | inr parent ↦ up to_h parent
    ];
    queue_all = λ x m. elim (member-split x queue (hist.parents_of h) m) [
      | inl old ↦ v.queue_all x (member-tail x h queue old)
      | inr parent ↦ hist.closed h x (v.queue_all h (member-head h queue)) parent
    ];
    source = elim v.source [
      | inl done ↦ inl (member-tail start h seen done)
      | inr q ↦ moved start q
    ];
    followed = λ x p m k. elim (member-cons x h seen m) [
      | inl same ↦ inr (
          member-back p queue (hist.parents_of h)
            (subst (λ y. member p (hist.parents_of y) ≡ true) (sym same) k))
      | inr old ↦ elim (v.followed x p old k) [
        | inl done ↦ inl (member-tail p h seen done)
        | inr q ↦ moved p q
      ]
    ];
  }
    where
      to_h : Reach hist.parents_of start h
      to_h = v.queue_reached h (member-head h queue)

      moved :
          (x : Hash)
          → member x (h ∷ queue) ≡ true
          → (member x (h ∷ seen) ≡ true) ⊎ (member x (queue ++ hist.parents_of h) ≡ true)
      moved x m = elim (member-cons x h queue m) [
        | inl same ↦ inl (subst (λ y. member y (h ∷ seen) ≡ true) same (member-head h seen))
        | inr rest ↦ inr (member-front x queue (hist.parents_of h) rest)
      ]

  loop-Returns :
      (fuel : ℕ) (start : Hash) (seen queue : List Hash) (s : S)
      → Inv start seen queue
      → hist.Inv s
      → length queue + links hist.parents_of seen hist.all ≤ fuel
      → Returns (ancestors_loop get_commit fuel seen queue s) start
  unfolding ancestors_loop
  loop-Returns fuel start seen [] s v i lt =
      (seen, s, refl, i, λ x. (v.seen_reached x, complete start seen v))
  loop-Returns zero start seen (h ∷ queue) s v i lt = absurd (omega arith)
  loop-Returns (suc fuel) start seen (h ∷ queue) s v i lt = elim (Bool-cases (member h seen)) [
    | inl old ↦
        rw old
          (loop-Returns fuel start seen queue s (Inv-skip start h seen queue old v) i (omega arith))
    | inr new ↦
        let in_all = v.queue_all h (member-head h queue) in
        let (c, s', loaded, parents, i') = hist.loads h s in_all i in
        let fewer = links-cons hist.parents_of h seen hist.all new in_all in
        rw (new, loaded, parents)
          (loop-Returns fuel start (h ∷ seen) (queue ++ hist.parents_of h) s'
            (Inv-visit start h seen queue v) i'
            (omega (arith, length-append queue (hist.parents_of h))))
  ]

  Inv-start : (start : Hash) → member start hist.all ≡ true → Inv start [] (start ∷ [])
  unfolding member
  Inv-start start m = record {
    seen_reached = λ x e. cc;
    queue_reached = λ x e. elim (member-cons x start [] e) [
      | inl same ↦ subst (Reach hist.parents_of start) same here
      | inr nothing ↦ cc
    ];
    queue_all = λ x e. elim (member-cons x start [] e) [
      | inl same ↦ subst (λ y. member y hist.all ≡ true) same m
      | inr nothing ↦ cc
    ];
    source = inr (member-head start []);
    followed = λ x p e k. cc;
  }

  -- In a history whose commits can be loaded, with one round for each link of the history and
  -- one more, `collect_ancestors` returns, and what it returns are the commits that are reached
  -- from the start by parents, itself included.
  pub collect_ancestors-Reach :
      (fuel : ℕ) (start : Hash) (s : S)
      → member start hist.all ≡ true
      → hist.Inv s
      → rounds ≤ fuel
      → (found : List Hash) × (s' : S) × (collect_ancestors get_commit fuel start s
          ≡ (ok found, s'))
        × hist.Inv s'
        × ((x : Hash) → (member x found ≡ true) ↔ Reach hist.parents_of start x)
  unfolding collect_ancestors
  collect_ancestors-Reach fuel start s m i lt =
      loop-Returns fuel start [] (start ∷ []) s (Inv-start start m) i lt

  -- In a history whose commits can be loaded, with one round for each link of the history and
  -- one more, `is_ancestor` returns, and says whether the first commit is reached from the
  -- second by parents. A commit is reached from itself.
  pub is_ancestor-Reach :
      (fuel : ℕ) (ancestor descendant : Hash) (s : S)
      → member descendant hist.all ≡ true
      → hist.Inv s
      → rounds ≤ fuel
      → (b : Bool) × (s' : S) × (is_ancestor get_commit fuel ancestor descendant s ≡ (ok b, s'))
        × ((b ≡ true) ↔ Reach hist.parents_of descendant ancestor)
  unfolding is_ancestor
  is_ancestor-Reach fuel ancestor descendant s m i lt =
      elim (Bool-cases (bytes_eq ancestor descendant)) [
        | inl same ↦ (
          true,
          s,
          rw same refl,
          (
            λ e.
                subst (Reach hist.parents_of descendant)
                  (sym ((bytes_eq_iff ancestor descendant).0 same)) here,
            λ r. refl,
          ),
        )
        | inr other ↦
            let (found, s', e, i', law) = collect_ancestors-Reach fuel descendant s m i lt in
            (member ancestor found, s', rw (other, e) refl, law ancestor)
      ]
