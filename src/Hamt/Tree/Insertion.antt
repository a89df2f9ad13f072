-- ===== src/Hamt/Tree/Insertion.antt =====
-- `insert` on a store that holds a trie.
use epochs.Common.{
  ℕ, zero, suc, ◌+◌, ◌<◌, ◌≡◌, refl, ◌∙◌, Option, some, ◌==◌, ==_refl, bytes_eq, Option-cases,
  Bool-cases, inl, inr,
}
use epochs.Cas.Laws.{CasLaws, Object}
use epochs.Cas.{CasBackend}
use epochs.Codec.{Bytes}
use epochs.Hamt.Chunk.Separates.{extract_5bits-lt}
use epochs.Hamt.Chunk.{extract_5bits}
use epochs.Hamt.Node.{HamtNode}
use epochs.Hamt.Tree.Lookup.{load_leaf, load_bitmap, Same}
use epochs.Hamt.Tree.Refine.{EveryNode, EveryNode-weaken, Fits, Known}
use epochs.Hamt.Tree.{load_node, insert_internal, insert_node, expand_leaf_collision}
use epochs.Hamt.Trie.Children.{slot-set_slot}
use epochs.Hamt.Trie.Cases.{put_no_round, put_same, put_deeper, put_apart, put_empty, put_full}
use epochs.Hamt.Trie.{
  Trie, leaf, node, slot, set_slot, slot_count, bitmap_of, hash_of, hashes, put_trie, two_leaves,
}
use epochs.Hash.{Hash, Blake3}
use epochs.Outcome.{ok}
use epochs.Hamt.Tree.Puts.{InTable, Agrees, Builds, put_leaf, grow, put_leaf_again}
use epochs.Hamt.Tree.Branches.{expand_apart, fill_branch, replace_branch}

module _ {S : Type 0} (cas : CasBackend S) (blake3 : Blake3) (laws : CasLaws cas blake3)
    (table : Hash → Option Object) where
  after_load :
      (fuel : ℕ) (h : Hash) (key value : Bytes) (key_hash : Hash) (depth n : ℕ) (t' : Trie)
      (w : HamtNode) (s s₀ : S)
      → load_node cas blake3 h s ≡ (ok w, s₀)
      → Same cas blake3 laws s s₀
      → Builds cas blake3 laws table
          (insert_node cas blake3
            (λ h. insert_internal cas blake3 fuel (some h) key value key_hash (depth + 1))
            key
            value
            key_hash
            depth
            w
            s₀)
          s₀
          n
          t'
      → Builds cas blake3 laws table
          (insert_internal cas blake3 (suc fuel) (some h) key value key_hash depth s)
          s
          n
          t'
  unfolding insert_internal
  after_load fuel h key value key_hash depth n t' w s s₀ loaded same (s', e, st, grows, agrees) =
      (s', rw loaded e, st, λ k x held. grows k x (same.0 k x held), agrees)

  -- On a store that holds a trie, `insert_internal` returns the root of the trie that
  -- `put_trie` makes of it, and the store then holds that trie and all that it held before. The
  -- table has every object of the store and of the new trie under its hash: no two of them have
  -- one hash.
  pub insert_internal-put_trie :
      (fuel n m : ℕ) (t t' : Trie) (key value : Bytes) (key_hash : Hash) (depth : ℕ) (s : S)
      → Fits key value
      → Agrees cas blake3 laws table s
      → EveryNode blake3 (laws.Holds s) n t
      → put_trie blake3 fuel key value key_hash depth t ≡ some t'
      → Known blake3 table m t'
      → Builds cas blake3 laws table
          (insert_internal cas blake3 fuel (some (hash_of blake3 t)) key value key_hash depth s)
          s
          (suc n)
          t'
  unfolding insert_node expand_leaf_collision EveryNode
  insert_internal-put_trie zero n m t t' key value key_hash depth s f a e p known =
      absurd (put_no_round blake3 key value key_hash depth t t' p)
  insert_internal-put_trie (suc fuel) n m (leaf k w) t' key value key_hash depth s f a e p known =
      let (s₀, loaded, same) = load_leaf cas blake3 laws s n k w e in
      let a₀ = λ (h : Hash) (x : Object) (held : laws.Holds s₀ h x). a h x (same.1 h x held) in
      let e₀ = grow cas blake3 laws table s s₀ n (leaf k w) same.0 e in
      let c = extract_5bits (blake3.of_bytes k) depth in
      let c' = extract_5bits key_hash depth in
      after_load fuel (hash_of blake3 (leaf k w)) key value key_hash depth (suc n) t'
        (HamtNode.leaf k w) s s₀ loaded same
        (elim (Bool-cases (bytes_eq k key)) [
          | inl same_key ↦
              let t_is : t' ≡ leaf key value =
                put_same fuel key key_hash depth blake3 value k w t' p same_key in
              rw (same_key, t_is)
                (put_leaf cas blake3 laws table s₀ (suc n) key value f a₀ (rw t_is at known).1)
          | inr other_key ↦ elim (Bool-cases (c == c')) [
            | inl same_chunk ↦
                let p' =
                  put_deeper fuel key key_hash depth blake3 value k w t' p other_key same_chunk in
                let (s₁, e₁, old₁, g₁, a₁) = put_leaf_again cas blake3 laws table s₀ n k w e₀ a₀ in
                let (s₂, e₂, st, g₂, a₂) =
                  insert_internal-put_trie fuel n m (leaf k w) t' key value key_hash (depth + 1) s₁
                    f a₁ old₁ p' known in
                (s₂, rw (other_key, e₁, same_chunk) e₂, st, λ h x held. g₂ h x (g₁ h x held), a₂)
            | inr apart ↦
                let t_is : t' ≡ node (two_leaves c k w c' key value) =
                  put_apart fuel key key_hash depth blake3 value k w t' p other_key apart in
                let known' = EveryNode-weaken blake3 (InTable cas blake3 laws table) m t' known in
                rw (other_key, t_is)
                  (expand_apart cas blake3 laws table s₀ n m c c' k w key value _
                    (extract_5bits-lt _ depth) (extract_5bits-lt key_hash depth) apart f a₀ e₀
                    (rw t_is at known'))
          ]
        ])
  insert_internal-put_trie (suc fuel) zero m (node ss) t' key value key_hash depth s f a e p known =
      absurd e
  insert_internal-put_trie (suc fuel) (suc n) m (node ss) t' key value key_hash depth s f a e p
        known =
      let (s₀, loaded, same) = load_bitmap cas blake3 laws s n ss e in
      let a₀ = λ (h : Hash) (x : Object) (held : laws.Holds s₀ h x). a h x (same.1 h x held) in
      let e₀ = grow cas blake3 laws table s s₀ (suc n) (node ss) same.0 e in
      let b = extract_5bits key_hash depth in
      let known' = EveryNode-weaken blake3 (InTable cas blake3 laws table) m t' known in
      after_load fuel (hash_of blake3 (node ss)) key value key_hash depth (suc (suc n)) t'
        (HamtNode.bitmap_node (bitmap_of ss) (hashes blake3 ss)) s s₀ loaded same
        (elim (Option-cases (slot b ss)) [
          | inl empty ↦
              let t_is : t' ≡ node (set_slot b (leaf key value) ss) =
                put_empty fuel key key_hash depth blake3 value ss t' p empty in
              let (s', r, st, g, ag) =
                fill_branch cas blake3 laws table s₀ n m b ss key value
                  (extract_5bits-lt key_hash depth) empty f a₀ e₀ (rw t_is at known') _ key_hash
                  depth refl in
              rw t_is (
                s',
                r,
                EveryNode-weaken blake3 (laws.Holds s') (suc n)
                    (node (set_slot b (leaf key value) ss)) st,
                g,
                ag,
              )
          | inr (t, full) ↦
              let (u, p', t_is) = put_full fuel key key_hash depth blake3 value ss t' p t full in
              let known_at = rw t_is at known' in
              let room : b < slot_count ss = rw e.0 (extract_5bits-lt key_hash depth) in
              let at : slot b (set_slot b u ss) ≡ some u =
                slot-set_slot b b u ss room ∙ rw (==_refl b) refl in
              let (s₁, e₁, sub, g₁, a₁) =
                insert_internal-put_trie fuel n m t u key value key_hash (depth + 1) s₀ f a₀
                  (e₀.2 b t full) p' (known_at.2 b u at) in
              rw t_is (
                replace_branch cas blake3 laws table s₀ s₁ n m b ss t u key value
                  (extract_5bits-lt key_hash depth) full e₀ known_at _ key_hash depth refl e₁ sub g₁
                  a₁)
        ])
