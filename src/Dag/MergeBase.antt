-- ===== src/Dag/MergeBase.antt =====
-- `merge_base` on a history whose commits can be loaded.
use epochs.Common.{
  ℕ, zero, suc, ◌+◌, ◌≤◌, ◌≡◌, ◌↔◌, refl, sym, ◌∙◌, subst, List, [], ◌∷◌, true, false, ◌⊎◌, inl,
  inr, length, Option, none, some, bytes_eq, bytes_eq_iff, Bool-cases, arith,
}
use epochs.Commit.{Commit}
use epochs.Dag.Ancestors.{History, rounds, collect_ancestors-Reach}
use epochs.Dag.Reach.{member-cons, member-head, member-tail, Reach, here, up}
use epochs.Dag.{member, push_new, merge_loop, merge_base}
use epochs.Hash.{Hash}
use epochs.Outcome.Action.{Action}
use epochs.Outcome.{ok}
use epochs.Dag.Push.{unseen, unseen-le, Pushed, push_new-Pushed}

module _ {S : Type 0} (get_commit : Hash → Action S Commit) (hist : History get_commit) (a b : Hash)
    (ancestors_a : List Hash) where
  -- The set and the queue of the walk from `b`.
  record Inv (visited queue : List Hash) : Type 0 where
    reached : (x : Hash) → member x visited ≡ true → Reach hist.parents_of b x
    in_all : (x : Hash) → member x visited ≡ true → member x hist.all ≡ true
    queued : (x : Hash) → member x queue ≡ true → member x visited ≡ true
    source : member b visited ≡ true
    passed :
        (x : Hash)
        → member x visited ≡ true
        → (member x queue ≡ true)
          ⊎ ((member x ancestors_a ≡ false)
              × ((p : Hash) → member p (hist.parents_of x) ≡ true → member p visited ≡ true))

  Inv-visit :
      (h : Hash) (visited queue : List Hash)
      → member h ancestors_a ≡ false
      → Inv visited (h ∷ queue)
      → Inv
          (push_new (hist.parents_of h) visited queue).0
          (push_new (hist.parents_of h) visited queue).1
  Inv-visit h visited queue apart v = record {
    reached = λ x m. elim (w.source x m) [
      | inl before ↦ v.reached x before
      | inr (k, _) ↦ up (v.reached h seen_h) k
    ];
    in_all = λ x m. elim (w.source x m) [
      | inl before ↦ v.in_all x before
      | inr (k, _) ↦ hist.closed h x (v.in_all h seen_h) k
    ];
    queued = λ x m. elim (w.queued x m) [
      | inl before ↦ w.kept x (v.queued x (member-tail x h queue before))
      | inr set ↦ set
    ];
    source = w.kept b v.source;
    passed = λ x m. elim (w.source x m) [
      | inl before ↦ elim (v.passed x before) [
        | inl waiting ↦ elim (member-cons x h queue waiting) [
          | inl same ↦ inr (
            subst (λ y. member y ancestors_a ≡ false) same apart,
            λ p k. w.added p (subst (λ y. member p (hist.parents_of y) ≡ true) (sym same) k),
          )
          | inr rest ↦ inl (w.still x rest)
        ]
        | inr (out, up_all) ↦ inr (out, λ p k. w.kept p (up_all p k))
      ]
      | inr (_, l) ↦ inl l
    ];
  }
    where
      seen_h : member h visited ≡ true
      seen_h = v.queued h (member-head h queue)

      w :
          Pushed hist.all
            (hist.parents_of h)
            visited
            queue
            (push_new (hist.parents_of h) visited queue).0
            (push_new (hist.parents_of h) visited queue).1
      w =
          push_new-Pushed hist.all (hist.parents_of h) visited queue
            (λ x m. hist.closed h x (v.in_all h seen_h) m)

  -- With an empty queue the set is closed under parents and has no commit of `ancestors_a`.
  complete :
      (visited : List Hash)
      → Inv visited []
      → {x : Hash} → Reach hist.parents_of b x
      → member x visited ≡ true
  unfolding member
  complete visited v here = v.source
  complete visited v (up {h} {p} r m) = elim (v.passed h (complete visited v r)) [
    | inl queued ↦ cc
    | inr (out, up_all) ↦ up_all p m
  ]

  outside :
      (visited : List Hash)
      → Inv visited []
      → (x : Hash) → Reach hist.parents_of b x
      → member x ancestors_a ≡ false
  unfolding member
  outside visited v x r = elim (v.passed x (complete visited v r)) [
    | inl queued ↦ cc
    | inr (out, up_all) ↦ out
  ]

  -- A commit of both sides, or none where there is none.
  abbrev Base : Option Hash → Type 0
  Base (some c) = Reach hist.parents_of b c × (member c ancestors_a ≡ true)
  Base none = (x : Hash) → Reach hist.parents_of b x → member x ancestors_a ≡ false

  merge_loop-Base :
      (fuel : ℕ) (visited queue : List Hash) (s : S)
      → Inv visited queue
      → hist.Inv s
      → length queue + unseen visited hist.all ≤ fuel
      → (r : Option Hash) × (s' : S) × (merge_loop get_commit fuel ancestors_a visited queue s
          ≡ (ok r, s'))
        × Base r
  unfolding merge_loop
  merge_loop-Base fuel visited [] s v i lt = (none, s, refl, outside visited v)
  merge_loop-Base zero visited (h ∷ queue) s v i lt = absurd (omega arith)
  merge_loop-Base (suc fuel) visited (h ∷ queue) s v i lt =
      elim (Bool-cases (member h ancestors_a)) [
        | inl both ↦
            (some h, s, rw both refl, (v.reached h (v.queued h (member-head h queue)), both))
        | inr apart ↦
            let in_all = v.in_all h (v.queued h (member-head h queue)) in
            let (c, s', loaded, parents, i') = hist.loads h s in_all i in
            let pushed =
              push_new-Pushed hist.all (hist.parents_of h) visited queue
                (λ x m. hist.closed h x in_all m) in
            rw (apart, loaded, parents)
              (merge_loop-Base fuel (push_new (hist.parents_of h) visited queue).0
                (push_new (hist.parents_of h) visited queue).1 s'
                (Inv-visit h visited queue apart v) i' (omega (arith, pushed.fits)))
      ]

  Inv-start : member b hist.all ≡ true → Inv (b ∷ []) (b ∷ [])
  unfolding member
  Inv-start m = record {
    reached = λ x e. elim (member-cons x b [] e) [
      | inl same ↦ subst (Reach hist.parents_of b) same here
      | inr nothing ↦ cc
    ];
    in_all = λ x e. elim (member-cons x b [] e) [
      | inl same ↦ subst (λ y. member y hist.all ≡ true) same m
      | inr nothing ↦ cc
    ];
    queued = λ x e. e;
    source = member-head b [];
    passed = λ x e. inl e;
  }

module _ {S : Type 0} (get_commit : Hash → Action S Commit) (hist : History get_commit) where
  true_ne_false : true ≡ false → ⊥
  true_ne_false e = cc

  -- What a merge base of two commits is: a commit that is reached from both, and nothing only
  -- where no commit is.
  unfoldable pub IsBase : Hash → Hash → Option Hash → Type 0
  IsBase a b (some c) = Reach hist.parents_of a c × Reach hist.parents_of b c
  IsBase a b none = (x : Hash) → Reach hist.parents_of a x → Reach hist.parents_of b x → ⊥

  Base-IsBase :
      (a b : Hash) (found : List Hash)
      → ((x : Hash) → (member x found ≡ true) ↔ Reach hist.parents_of a x)
      → (r : Option Hash) → Base get_commit hist a b found r
      → IsBase a b r
  unfolding IsBase
  Base-IsBase a b found law (some c) base = ((law c).0 base.1, base.0)
  Base-IsBase a b found law none base = λ x from_a from_b.
      let e : true ≡ false = sym ((law x).1 from_a) ∙ base x from_b in absurd (true_ne_false e)

  -- In a history whose commits can be loaded, with a round for each link and for each commit of
  -- the history and one more, `merge_base` returns a commit that is reached from both by
  -- parents, or `None` where there is none.
  pub merge_base-IsBase :
      (fuel : ℕ) (a b : Hash) (s : S)
      → member a hist.all ≡ true
      → member b hist.all ≡ true
      → hist.Inv s
      → rounds get_commit hist ≤ fuel
      → 1 + length hist.all ≤ fuel
      → (r : Option Hash) × (s' : S) × (merge_base get_commit fuel a b s ≡ (ok r, s'))
        × IsBase a b r
  unfolding merge_base IsBase
  merge_base-IsBase fuel a b s ma mb i lt lt' = elim (Bool-cases (bytes_eq a b)) [
    | inl same ↦ (
      some a,
      s,
      rw same refl,
      (here, subst (Reach hist.parents_of b) (sym ((bytes_eq_iff a b).0 same)) here),
    )
    | inr other ↦
        let (found, s₁, e₁, i₁, law) = collect_ancestors-Reach get_commit hist fuel a s ma i lt in
        let (r, s₂, e₂, base) =
          merge_loop-Base get_commit hist a b found fuel (b ∷ []) (b ∷ []) s₁
            (Inv-start get_commit hist a b found mb) i₁
            (omega (arith, unseen-le (b ∷ []) hist.all)) in
        (r, s₂, rw (other, e₁) e₂, Base-IsBase a b found law r base)
  ]
