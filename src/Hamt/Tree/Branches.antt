-- ===== src/Hamt/Tree/Branches.antt =====
-- The nodes that `insert` writes for the branch it changed.
use epochs.Common.{
  ℕ, suc, ◌<◌, ◌≡◌, refl, sym, ◌∙◌, Option, none, some, length, ◌==◌, ==_refl, Bool-cases, inl, inr,
  false, ltb→false,
}
use epochs.Cas.Laws.{CasLaws, Object}
use epochs.Cas.{CasBackend}
use epochs.Codec.{Bytes}
use epochs.Hamt.Chunk.{extract_5bits}
use epochs.Hamt.Node.{HamtNode}
use epochs.Hamt.Tree.Refine.{EveryNode, EveryNode-weaken, Fits, Known}
use epochs.Hamt.Tree.{insert_node, expand_leaf_collision}
use epochs.Hamt.Trie.Bitmap.{
  has_branch-empty, has_branch-filled, child_index-rank, bitmap_of-set_empty, bitmap_of-set_filled,
}
use epochs.Hamt.Trie.Children.{
  hashes-slot, hashes-set_empty, hashes-set_filled, slot-set_slot, slot_count-set_slot,
}
use epochs.Hamt.Trie.TwoLeaves.{
  two_leaves_rule, slot-two_leaves, slot_count-two_leaves, bitmap_of-two_leaves, hashes-two_leaves,
}
use epochs.Hamt.Trie.{
  Trie, Slots, leaf, node, slot, set_slot, slot_count, bitmap_of, hash_of, hashes, rank, two_leaves,
}
use epochs.Hash.{Hash, Blake3}
use epochs.Outcome.Action.{Action}
use epochs.Outcome.{ok}
use epochs.Hamt.Tree.Puts.{Agrees, Grows, Stores, Builds, put_leaf, put_node, grow, put_leaf_again}

module _ {S : Type 0} (cas : CasBackend S) (blake3 : Blake3) (laws : CasLaws cas blake3)
    (table : Hash → Option Object) where
  -- Two leaves whose chunks differ.
  pub expand_apart :
      (s : S) (n m c c' : ℕ) (k w key value : Bytes) (deeper : Hash → Action S Hash)
      → c < 32
      → c' < 32
      → (c == c') ≡ false
      → Fits key value
      → Agrees cas blake3 laws table s
      → Stores cas blake3 laws table s n (leaf k w)
      → Known blake3 table (suc m) (node (two_leaves c k w c' key value))
      → Builds cas blake3 laws table
          (expand_leaf_collision cas blake3 deeper k w key value c c' s)
          s
          (suc n)
          (node (two_leaves c k w c' key value))
  unfolding expand_leaf_collision EveryNode
  expand_apart s n m c c' k w key value deeper p p' other f a old known =
      let two = two_leaves c k w c' key value in
      let new_slot = slot-two_leaves c c' k w key value p p' c' in
      let at : slot c' two ≡ some (leaf key value) = new_slot ∙ rw (==_refl c') refl in
      let (s₁, e₁, old₁, g₁, a₁) = put_leaf_again cas blake3 laws table s n k w old a in
      let (s₂, e₂, new₂, g₂, a₂) =
        put_leaf cas blake3 laws table s₁ n key value f a₁ (known.2 c' (leaf key value) at).1 in
      let (s₃, e₃, built, g₃, a₃) =
        put_node cas blake3 laws table s₂ n two (slot_count-two_leaves c c' k w key value p p')
          (λ b t.
            two_leaves_rule c c' k w key value p p' (Stores cas blake3 laws table s₂ n) b t
              (grow cas blake3 laws table s₁ s₂ n (leaf k w) g₂ old₁) new₂)
          a₂ known.1 in
      (
        s₃,
        rw
            (
              e₁,
              other,
              e₂,
              bitmap_of-two_leaves c c' k w key value p p' other,
              ← hashes-two_leaves c c' k w key value p p' other blake3,
            )
            e₃,
        built,
        λ k x at. g₃ k x (g₂ k x (g₁ k x at)),
        a₃,
      )

  -- A branch that was empty takes a leaf.
  pub fill_branch :
      (s : S) (n m b : ℕ) (ss : Slots) (key value : Bytes)
      → b < 32
      → slot b ss ≡ none
      → Fits key value
      → Agrees cas blake3 laws table s
      → Stores cas blake3 laws table s (suc n) (node ss)
      → Known blake3 table (suc m) (node (set_slot b (leaf key value) ss))
      → (deeper : Hash → Action S Hash) (key_hash : Hash) (depth : ℕ)
      → extract_5bits key_hash depth ≡ b
      → Builds cas blake3 laws table
          (insert_node cas blake3 deeper key value key_hash depth
            (HamtNode.bitmap_node (bitmap_of ss) (hashes blake3 ss))
            s)
          s
          (suc n)
          (node (set_slot b (leaf key value) ss))
  unfolding insert_node EveryNode
  fill_branch s n m b ss key value lt empty f a e known deeper key_hash depth branch =
      let room : b < slot_count ss = rw e.0 lt in
      let new = set_slot b (leaf key value) ss in
      let new_slot = λ (c : ℕ). slot-set_slot b c (leaf key value) ss room in
      let at : slot b new ≡ some (leaf key value) = new_slot b ∙ rw (==_refl b) refl in
      let (below, list) = hashes-set_empty blake3 b ss (leaf key value) room empty in
      let (s₁, e₁, leaf₁, g₁, a₁) =
        put_leaf cas blake3 laws table s n key value f a (known.2 b (leaf key value) at).1 in
      let children = λ (c : ℕ) (t : Trie) (there : slot c new ≡ some t).
        let st : Stores cas blake3 laws table s₁ n t = elim (Bool-cases (b == c)) [
          | inl here ↦
              let x : some (leaf key value) ≡ some t = sym (new_slot c ∙ rw here refl) ∙ there in
              let same : leaf key value ≡ t = cc in rw (← same) leaf₁
          | inr other ↦
              let x : slot c ss ≡ some t = sym (new_slot c ∙ rw other refl) ∙ there in
              grow cas blake3 laws table s s₁ n t g₁ (e.2 c t x)
        ] in
        st in
      let (s₂, e₂, built, g₂, a₂) =
        put_node cas blake3 laws table s₁ n new (slot_count-set_slot b (leaf key value) ss ∙ e.0)
          children a₁ known.1 in
      (
        s₂,
        rw
            (
              branch,
              has_branch-empty b ss empty,
              e₁,
              child_index-rank b ss e.0,
              ltb→false (length (hashes blake3 ss)) (rank b ss) below,
              ← list,
              bitmap_of-set_empty b (leaf key value) ss room empty,
            )
            e₂,
        built,
        λ k x held. g₂ k x (g₁ k x held),
        a₂,
      )

  -- A branch whose child was rebuilt.
  pub replace_branch :
      (s s₁ : S) (n m b : ℕ) (ss : Slots) (t t' : Trie) (key value : Bytes)
      → b < 32
      → slot b ss ≡ some t
      → Stores cas blake3 laws table s (suc n) (node ss)
      → Known blake3 table (suc m) (node (set_slot b t' ss))
      → (deeper : Hash → Action S Hash) (key_hash : Hash) (depth : ℕ)
      → extract_5bits key_hash depth ≡ b
      → deeper (hash_of blake3 t) s ≡ (ok (hash_of blake3 t'), s₁)
      → Stores cas blake3 laws table s₁ (suc n) t'
      → Grows cas blake3 laws table s s₁
      → Agrees cas blake3 laws table s₁
      → Builds cas blake3 laws table
          (insert_node cas blake3 deeper key value key_hash depth
            (HamtNode.bitmap_node (bitmap_of ss) (hashes blake3 ss))
            s)
          s
          (suc (suc n))
          (node (set_slot b t' ss))
  unfolding insert_node EveryNode
  replace_branch s s₁ n m b ss t t' key value lt full e known deeper key_hash depth branch e₁ sub g₁
        a₁ =
      let room : b < slot_count ss = rw e.0 lt in
      let new = set_slot b t' ss in
      let new_slot = λ (c : ℕ). slot-set_slot b c t' ss room in
      let children = λ (c : ℕ) (u : Trie) (there : slot c new ≡ some u).
        let st : Stores cas blake3 laws table s₁ (suc n) u = elim (Bool-cases (b == c)) [
          | inl here ↦
              let x : some t' ≡ some u = sym (new_slot c ∙ rw here refl) ∙ there in
              let same : t' ≡ u = cc in rw (← same) sub
          | inr other ↦
              let x : slot c ss ≡ some u = sym (new_slot c ∙ rw other refl) ∙ there in
              EveryNode-weaken blake3 (laws.Holds s₁) n u
                (grow cas blake3 laws table s s₁ n u g₁ (e.2 c u x))
        ] in
        st in
      let (s₂, e₂, built, g₂, a₂) =
        put_node cas blake3 laws table s₁ (suc n) new (slot_count-set_slot b t' ss ∙ e.0) children
          a₁ known.1 in
      (
        s₂,
        rw
            (
              branch,
              has_branch-filled b ss t full,
              child_index-rank b ss e.0,
              hashes-slot blake3 b ss t full,
              e₁,
              ← hashes-set_filled blake3 b ss t' t full,
              ← bitmap_of-set_filled b t' t ss full,
            )
            e₂,
        built,
        λ k x held. g₂ k x (g₁ k x held),
        a₂,
      )
