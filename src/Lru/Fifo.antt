-- ===== src/Lru/Fifo.antt =====
-- epochs-core/src/cache.rs: the entries of a cache in the order in which they were inserted.
use epochs.Common.{
  ℕ, suc, ◌≤◌, List, [], ◌∷◌, ◌++◌, true, false, length, leb, if◌then◌else◌, drop, ◌≡◌, refl, sym,
  ◌∙◌, ap, Bool-cases, inl, inr, arith, bytes_eq, bytes_eq_iff, bytes_eq_refl, length-append,
}
use epochs.Assoc
use epochs.Assoc.Laws.{insert_new}
use epochs.Hash.{Hash}
use epochs.Lru.{LruMap, insert, evict}

module _ {V : Type 0} where
  unfoldable pub keys : List (Hash × V) → List Hash
  keys [] = []
  keys ((k, v) ∷ m) = k ∷ keys m

  unfoldable pub IsDistinct : List (Hash × V) → Type 0
  IsDistinct [] = Unit
  IsDistinct ((k, v) ∷ m) = (Assoc.contains_key k m ≡ false) × IsDistinct m

  -- The order holds the keys of the map, each once, and the map is no longer than `cap`.
  unfoldable pub IsQueue : LruMap V → Type 0
  IsQueue c = (keys c.map ≡ c.order) × IsDistinct c.map × (length c.map ≤ c.cap) × (1 ≤ c.cap)

  -- Of a full queue the oldest entry goes.
  unfoldable pub make_room : ℕ → List (Hash × V) → List (Hash × V)
  make_room cap m = if leb cap (length m) then drop 1 m else m

  -- A queue that replaces the value of a key it holds, and otherwise drops its oldest entry
  -- when it is full and appends the new one.
  unfoldable pub push : ℕ → Hash → V → List (Hash × V) → List (Hash × V)
  push cap k v m =
      if Assoc.contains_key k m then Assoc.insert k v m else make_room cap m ++ (k, v) ∷ []

  keys-insert :
      (k : Hash) (v : V) (m : List (Hash × V))
      → Assoc.contains_key k m ≡ true
      → keys (Assoc.insert k v m) ≡ keys m
  unfolding Assoc.contains_key Assoc.insert keys
  keys-insert k v [] h = cc
  keys-insert k v ((j, w) ∷ m) h = ground (arith, bytes_eq_iff j k, keys-insert k v m)

  keys-append :
      (k : Hash) (v : V) (m : List (Hash × V)) → keys (m ++ (k, v) ∷ []) ≡ keys m ++ k ∷ []
  unfolding keys
  keys-append k v [] = refl
  keys-append k v ((j, w) ∷ m) = ap (λ l. j ∷ l) (keys-append k v m)

  length-insert :
      (k : Hash) (v : V) (m : List (Hash × V))
      → Assoc.contains_key k m ≡ true
      → length (Assoc.insert k v m) ≡ length m
  unfolding Assoc.contains_key Assoc.insert
  length-insert k v [] h = cc
  length-insert k v ((j, w) ∷ m) h = ground (arith, length-insert k v m)

  contains_key-insert :
      (k j : Hash) (v : V) (m : List (Hash × V))
      → Assoc.contains_key k m ≡ true
      → Assoc.contains_key j (Assoc.insert k v m) ≡ Assoc.contains_key j m
  unfolding Assoc.contains_key Assoc.insert
  contains_key-insert k j v [] h = cc
  contains_key-insert k j v ((i, w) ∷ m) h =
      ground (arith, bytes_eq_iff i k, contains_key-insert k j v m)

  contains_key-append :
      (k j : Hash) (v : V) (m : List (Hash × V))
      → bytes_eq k j ≡ false
      → Assoc.contains_key j m ≡ false
      → Assoc.contains_key j (m ++ (k, v) ∷ []) ≡ false
  unfolding Assoc.contains_key
  contains_key-append k j v [] n h = rw (n) refl
  contains_key-append k j v ((i, w) ∷ m) n h = ground (arith, contains_key-append k j v m n)

  remove_absent :
      (k : Hash) (m : List (Hash × V)) → Assoc.contains_key k m ≡ false → Assoc.remove k m ≡ m
  unfolding Assoc.contains_key Assoc.remove
  remove_absent k [] h = refl
  remove_absent k ((j, w) ∷ m) h = ground (arith, remove_absent k m)

  -- With room nothing is dropped, and from a full queue one entry, the oldest.
  evict-room :
      (order : List Hash) (m : List (Hash × V)) (cap : ℕ)
      → leb cap (length m) ≡ false
      → evict order m cap ≡ (order, m)
  unfolding evict
  evict-room [] m cap r = refl
  evict-room (k ∷ order) m cap r = rw r refl

  evict-full :
      (k : Hash) (v : V) (m : List (Hash × V)) (cap : ℕ)
      → Assoc.contains_key k m ≡ false
      → length ((k, v) ∷ m) ≤ cap
      → leb cap (length ((k, v) ∷ m)) ≡ true
      → evict (keys ((k, v) ∷ m)) ((k, v) ∷ m) cap ≡ (keys m, m)
  unfolding evict keys Assoc.remove
  evict-full k v m cap n l f =
      rw (f, bytes_eq_refl k, remove_absent k m n) (evict-room (keys m) m cap (ground arith))

  evict-drop :
      (m : List (Hash × V)) (cap : ℕ)
      → IsDistinct m
      → length m ≤ cap
      → 1 ≤ cap
      → evict (keys m) m cap ≡ (keys (make_room cap m), make_room cap m)
  unfolding IsDistinct keys make_room
  evict-drop [] cap d l p =
      let r : leb cap 0 ≡ false = ground arith in rw r (evict-room [] [] cap r)
  evict-drop ((k, v) ∷ m) cap d l p = elim (Bool-cases (leb cap (length ((k, v) ∷ m)))) [
    | inl full ↦ rw full (evict-full k v m cap d.0 l full)
    | inr room ↦ rw room (evict-room (keys ((k, v) ∷ m)) ((k, v) ∷ m) cap room)
  ]

  IsDistinct-insert :
      (k : Hash) (v : V) (m : List (Hash × V))
      → Assoc.contains_key k m ≡ true
      → IsDistinct m
      → IsDistinct (Assoc.insert k v m)
  unfolding IsDistinct Assoc.contains_key Assoc.insert
  IsDistinct-insert k v [] h d = cc
  IsDistinct-insert k v ((j, w) ∷ m) h d = elim (Bool-cases (bytes_eq j k)) [
    | inl same ↦
        rw same (ap (λ l. Assoc.contains_key l m) (sym ((bytes_eq_iff j k).0 same)) ∙ d.0, d.1)
    | inr other ↦ rw other (
      contains_key-insert k j v m (rw other at h) ∙ d.0,
      IsDistinct-insert k v m (rw other at h) d.1,
    )
  ]

  IsDistinct-append :
      (k : Hash) (v : V) (m : List (Hash × V))
      → Assoc.contains_key k m ≡ false
      → IsDistinct m
      → IsDistinct (m ++ (k, v) ∷ [])
  unfolding IsDistinct Assoc.contains_key
  IsDistinct-append k v [] h d = (refl, tt)
  IsDistinct-append k v ((j, w) ∷ m) h d = (
    contains_key-append k j v m (ground (arith, bytes_eq_iff j k, bytes_eq_iff k j)) d.0,
    IsDistinct-append k v m (ground arith) d.1,
  )

  make_room-lem :
      (k : Hash) (cap : ℕ) (m : List (Hash × V))
      → Assoc.contains_key k m ≡ false
      → IsDistinct m
      → length m ≤ cap
      → 1 ≤ cap
      → (Assoc.contains_key k (make_room cap m) ≡ false)
        × IsDistinct (make_room cap m)
        × (suc (length (make_room cap m)) ≤ cap)
  unfolding make_room IsDistinct Assoc.contains_key
  make_room-lem k cap [] n d l p = ground arith
  make_room-lem k cap ((j, v) ∷ m) n d l p = elim (Bool-cases (leb cap (length ((j, v) ∷ m)))) [
    | inl full ↦ rw full (ground arith, d.1, l)
    | inr room ↦ rw room (n, d, ground arith)
  ]

  -- Inserting into a queue gives the queue that `push` describes: the value of a key it holds is
  -- replaced in its place, and a new key goes to the end, behind the oldest entry's removal when
  -- the cache is full. The order still lists the map's keys, each once, and `cap` still bounds them.
  pub insert-push :
      (k : Hash) (v : V) (c : LruMap V)
      → IsQueue c
      → ((insert k v c).map ≡ push c.cap k v c.map) × IsQueue (insert k v c)
  unfolding insert push IsQueue
  insert-push k v c (o, d, l, p) = elim (Bool-cases (Assoc.contains_key k c.map)) [
    | inl there ↦
        let same_length = length-insert k v c.map there in
        rw there (
          refl,
          (
            keys-insert k v c.map there ∙ o,
            IsDistinct-insert k v c.map there d,
            rw same_length l,
            p,
          ),
        )
    | inr new ↦
        let room = make_room c.cap c.map in
        let (n, d', l') = make_room-lem k c.cap c.map new d l p in
        rw (new, ← o, evict-drop c.map c.cap d l p, insert_new k v room n)
          (
            refl,
            (
              keys-append k v room,
              IsDistinct-append k v room n d',
              rw (length-append room ((k, v) ∷ [])) (omega (arith, l')),
              p,
            ),
          )
  ]
