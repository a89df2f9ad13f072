-- ===== src/Lru.antt =====
-- epochs-core/src/cache.rs: the bounded map, at the key type that the crate uses, hashes.
pub mod Fifo
use epochs.Common.{ℕ, List, [], ◌∷◌, ◌++◌, Bool, Option, length, leb, ◌==◌, if◌then◌else◌}
use Prim.Native.Nat.{max}
use epochs.Assoc
use epochs.Hash.{Hash}

pub record LruMap (V : Type 0) : Type 0 where
  pub map : List (Hash × V)
  pub order : List Hash
  pub cap : ℕ

module _ {V : Type 0} where
  unfoldable pub new : ℕ → LruMap V
  new cap = record { map = []; order = []; cap = max cap 1 }

  unfoldable pub get : Hash → LruMap V → Option V
  get key c = Assoc.get key c.map

  -- The `while` loop: it ends when the map has room or `order` is used up.
  unfoldable pub evict : List Hash → List (Hash × V) → ℕ → List Hash × List (Hash × V)
  evict [] map cap = ([], map)
  evict (old ∷ order) map cap =
      let rest = evict order (Assoc.remove old map) cap in
      if leb cap (length map) then rest else (old ∷ order, map)

  unfoldable pub insert : Hash → V → LruMap V → LruMap V
  insert key value c =
      let (order, map) = evict c.order c.map c.cap in
      if Assoc.contains_key key c.map
      then record c { map = Assoc.insert key value c.map }
      else record c { map = Assoc.insert key value map; order = order ++ key ∷ [] }

  unfoldable pub len : LruMap V → ℕ
  len c = length c.map

  unfoldable pub is_empty : LruMap V → Bool
  is_empty c = length c.map == 0

  unfoldable pub clear : LruMap V → LruMap V
  clear c = record c { map = []; order = [] }
