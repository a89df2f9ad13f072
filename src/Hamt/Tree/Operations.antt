-- ===== src/Hamt/Tree/Operations.antt =====
-- Calls of `insert` and `get` in sequence.
use epochs.Common.{
  ℕ, zero, suc, ◌+◌, ◌≤◌, ◌<◌, ◌≡◌, refl, sym, ap, ◌∙◌, Option, none, some, ◌==◌, ==_iff, ==_refl,
  if◌then◌else◌, bytes_eq, Bool-cases, Option-cases, true, false, inl, inr, arith,
}
use epochs.Cas.Laws.{CasLaws, Object}
use epochs.Cas.{CasBackend}
use epochs.Codec.{Bytes}
use epochs.Hamt.Chunk.Separates.{extract_5bits-lt}
use epochs.Hamt.Chunk.{extract_5bits}
use epochs.Hamt.Tree.Insertion.{insert_internal-put_trie}
use epochs.Hamt.Tree.Puts.{put_leaf, Agrees}
use epochs.Hamt.Tree.Lookup.{get_internal-find}
use epochs.Hamt.Tree.Refine.{EveryNode, EveryNode-map, Fits, Known}
use epochs.Hamt.Tree.{insert, insert_internal, get, max_rounds}
use epochs.Hamt.Trie.Cases.{find-empty, find-full}
use epochs.Hamt.Trie.Laws.{IsFull, Parts, find_leaf, find_more, find-put_trie}
use epochs.Hamt.Trie.TwoLeaves.{slot-two_leaves}
use epochs.Hamt.Trie.{Trie, leaf, node, slot, hash_of, find, put_trie, two_leaves}
use epochs.Hash.{Hash, Blake3}
use epochs.Outcome.{Result, ok}

module _ (blake3 : Blake3) (P : Hash → Object → Type 0) where
  EveryNode-IsFull : (n : ℕ) (t : Trie) → EveryNode blake3 P n t → IsFull n t
  unfolding EveryNode IsFull
  EveryNode-IsFull n (leaf k v) e = tt
  EveryNode-IsFull zero (node ss) e = e
  EveryNode-IsFull (suc n) (node ss) e = (e.0, λ b t at. EveryNode-IsFull n t (e.2 b t at))

  -- More rounds than levels find something.
  find_total :
      (n fuel : ℕ) (t : Trie) (key : Bytes) (h : Hash) (depth : ℕ)
      → EveryNode blake3 P n t
      → n < fuel
      → (r : Option Bytes) × (find fuel key h depth t ≡ some r)
  unfolding EveryNode
  find_total n zero t key h depth e lt = absurd (omega arith)
  find_total n (suc fuel) (leaf k v) key h depth e lt =
      (if bytes_eq k key then some v else none, find_leaf fuel key h depth k v)
  find_total zero (suc fuel) (node ss) key h depth e lt = absurd e
  find_total (suc n) (suc fuel) (node ss) key h depth e lt =
      elim (Option-cases (slot (extract_5bits h depth) ss)) [
        | inl empty ↦ (none, find-empty fuel key h depth ss empty)
        | inr (t, at) ↦
            let (r, f) =
              find_total n fuel t key h (depth + 1) (e.2 (extract_5bits h depth) t at)
                (omega arith) in
            (r, find-full fuel key h depth ss t at ∙ f)
      ]

module _ {S : Type 0} (cas : CasBackend S) (blake3 : Blake3) (laws : CasLaws cas blake3)
    (table : Hash → Option Object) where
  get-find :
      (n : ℕ) (t : Trie) (key : Bytes) (s : S) (r : Option Bytes)
      → EveryNode blake3 (laws.Holds s) n t
      → find max_rounds key (blake3.of_bytes key) 0 t ≡ some r
      → (get cas blake3 (some (hash_of blake3 t)) key s).0 ≡ ok r
  unfolding get
  get-find n t key s r e f =
      let (s', got, same) =
        get_internal-find cas blake3 laws max_rounds n t key (blake3.of_bytes key) 0 s r e f in
      ap (λ (x : Result (Option Bytes) × S). x.0) got

  -- On a store that holds a trie of at most 62 levels, and has a table of objects in which no
  -- two of the store's or of the new trie's share a hash, let `put_trie` give a new trie, and
  -- let the path of the key end at no other key with its chunk there. Then `insert` returns the
  -- new root, under which `get` finds the value for that key, and for any other key what it
  -- found under the old root before.
  pub get-insert_lem :
      (n m : ℕ) (t t' : Trie) (key value j : Bytes) (s : S)
      → Fits key value
      → Agrees cas blake3 laws table s
      → EveryNode blake3 (laws.Holds s) n t
      → n ≤ 62
      → Parts blake3 max_rounds key (blake3.of_bytes key) 0 t
      → put_trie blake3 max_rounds key value (blake3.of_bytes key) 0 t ≡ some t'
      → Known blake3 table m t'
      → (s' : S) × (insert cas blake3 (some (hash_of blake3 t)) key value s
          ≡ (ok (hash_of blake3 t'), s'))
        × ((get cas blake3 (some (hash_of blake3 t')) j s').0 ≡ (
            if bytes_eq key j
            then ok (some value)
            else (get cas blake3 (some (hash_of blake3 t)) j s).0))
  unfolding insert
  get-insert_lem n m t t' key value j s f a e lt parts p known =
      let h = blake3.of_bytes j in
      let (s', done, stored, grows, agrees) =
        insert_internal-put_trie cas blake3 laws table max_rounds n m t t' key value
          (blake3.of_bytes key) 0 s f a e p known in
      let (r, before) = find_total blake3 (laws.Holds s) n max_rounds t j h 0 e (omega arith) in
      let (r', after) =
        find_total blake3 (laws.Holds s') (suc n) max_rounds t' j h 0 stored (omega arith) in
      let set =
        find-put_trie blake3 value max_rounds n 0 t t' key j r
          (EveryNode-IsFull blake3 (laws.Holds s) n t e) parts p before in
      let one : some r' ≡ some (if bytes_eq key j then some value else r) =
        sym (find_more max_rounds j h 0 t' r' after) ∙ set in
      let value_is : r' ≡ (if bytes_eq key j then some value else r) = cc in
      (
        s',
        done,
        get-find (suc n) t' j s' r' stored after
            ∙ rw (value_is, get-find n t j s r e before)
                (elim (Bool-cases (bytes_eq key j)) [
                  | inl same ↦ rw same refl
                  | inr other ↦ rw other refl
                ]),
      )

-- Two keys that share the chunk of level 0 and part at level 1, where neither has the shared chunk.
pub record Collide (blake3 : Blake3) (a b : Bytes) : Type 0 where
  pub distinct : bytes_eq a b ≡ false
  pub shared : (extract_5bits (blake3.of_bytes a) 0 == extract_5bits (blake3.of_bytes b) 0) ≡ true
  pub parted : (extract_5bits (blake3.of_bytes a) 1 == extract_5bits (blake3.of_bytes b) 1) ≡ false
  pub left : (extract_5bits (blake3.of_bytes a) 1 == extract_5bits (blake3.of_bytes a) 0) ≡ false
  pub right : (extract_5bits (blake3.of_bytes b) 1 == extract_5bits (blake3.of_bytes a) 0) ≡ false

module _ (blake3 : Blake3) (a v b w : Bytes) where
  -- The root that the two insertions give: the level at which the keys part, at the root.
  unfoldable pub misplaced : Trie
  misplaced = node (
      two_leaves (extract_5bits (blake3.of_bytes a) 1) a v (extract_5bits (blake3.of_bytes b) 1) b
        w)

  put_misplaced :
      (fuel : ℕ)
      → Collide blake3 a b
      → put_trie blake3 (suc (suc fuel)) b w (blake3.of_bytes b) 0 (leaf a v) ≡ some misplaced
  unfolding put_trie misplaced
  put_misplaced fuel c = rw (c.distinct, c.shared, c.parted) refl

  find-misplaced :
      (fuel : ℕ) (key : Bytes)
      → Collide blake3 a b
      → (extract_5bits (blake3.of_bytes key) 0 == extract_5bits (blake3.of_bytes a) 0) ≡ true
      → find (suc fuel) key (blake3.of_bytes key) 0 misplaced ≡ some none
  unfolding misplaced
  find-misplaced fuel key c e =
      let x = extract_5bits (blake3.of_bytes a) 1 in
      let y = extract_5bits (blake3.of_bytes b) 1 in
      let at =
        slot-two_leaves x y a v b w (extract_5bits-lt _ 1) (extract_5bits-lt _ 1)
          (extract_5bits (blake3.of_bytes a) 0) in
      let empty = at ∙ rw (c.right, c.left) refl in
      find-empty fuel key (blake3.of_bytes key) 0 (two_leaves x a v y b w)
        (rw ((==_iff _ _).0 e) empty)

module _ {S : Type 0} (cas : CasBackend S) (blake3 : Blake3) (laws : CasLaws cas blake3)
    (table : Hash → Option Object) where
  -- Let two keys share the chunk of level 0 and part at level 1, neither with the shared chunk,
  -- and let no two objects of the store and of the tries made have one hash. Inserted into the
  -- empty trie one after the other, both go in without an error, and `get` then finds neither.
  pub insert_loses_keys :
      (a v b w : Bytes) (s : S)
      → Collide blake3 a b
      → Fits a v
      → Fits b w
      → Agrees cas blake3 laws table s
      → Known blake3 table 1 (leaf a v)
      → Known blake3 table 1 (misplaced blake3 a v b w)
      → (h₁ h₂ : Hash) × (s₁ s₂ : S) × (insert cas blake3 none a v s ≡ (ok h₁, s₁))
        × (insert cas blake3 (some h₁) b w s₁ ≡ (ok h₂, s₂))
        × ((get cas blake3 (some h₂) a s₂).0 ≡ ok none)
        × ((get cas blake3 (some h₂) b s₂).0 ≡ ok none)
  unfolding insert EveryNode insert_internal
  insert_loses_keys a v b w s c f g agrees known_a known =
      let (s₁, e₁, held, grows₁, agrees₁) =
        put_leaf cas blake3 laws table s 1 a v f agrees known_a.1 in
      let root = misplaced blake3 a v b w in
      let (s₂, e₂, stored, grows₂, agrees₂) =
        insert_internal-put_trie cas blake3 laws table max_rounds 1 1 (leaf a v) root b w
          (blake3.of_bytes b) 0 s₁ g agrees₁ held (put_misplaced blake3 a v b w 62 c) known in
      (
        hash_of blake3 (leaf a v),
        hash_of blake3 root,
        s₁,
        s₂,
        e₁,
        e₂,
        get-find cas blake3 laws table 2 root a s₂ none stored
            (find-misplaced blake3 a v b w 63 a c (==_refl _)),
        get-find cas blake3 laws table 2 root b s₂ none stored
            (find-misplaced blake3 a v b w 63 b c (ground (arith, c.shared))),
      )

  -- The trie is persistent: an insertion under the conditions of its refinement changes no
  -- lookup under any root, of at most 63 levels, that the store held before.
  pub insert_keeps_roots :
      (n m l : ℕ) (t t' u : Trie) (key value j : Bytes) (s : S)
      → Fits key value
      → Agrees cas blake3 laws table s
      → EveryNode blake3 (laws.Holds s) n t
      → EveryNode blake3 (laws.Holds s) l u
      → l ≤ 63
      → put_trie blake3 max_rounds key value (blake3.of_bytes key) 0 t ≡ some t'
      → Known blake3 table m t'
      → (get cas blake3
          (some (hash_of blake3 u))
          j
          (insert cas blake3 (some (hash_of blake3 t)) key value s).1).0
        ≡ (get cas blake3 (some (hash_of blake3 u)) j s).0
  unfolding insert
  insert_keeps_roots n m l t t' u key value j s f a e held lt p known =
      let (s', done, stored, grows, agrees) =
        insert_internal-put_trie cas blake3 laws table max_rounds n m t t' key value
          (blake3.of_bytes key) 0 s f a e p known in
      let (r, found) =
        find_total blake3 (laws.Holds s) l max_rounds u j (blake3.of_bytes j) 0 held
          (omega arith) in
      let kept = EveryNode-map blake3 (laws.Holds s) (laws.Holds s') grows l u held in
      rw (done, get-find cas blake3 laws table l u j s r held found)
        (get-find cas blake3 laws table l u j s' r kept found)
