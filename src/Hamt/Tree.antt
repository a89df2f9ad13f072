-- ===== src/Hamt/Tree.antt =====
-- epochs-core/src/hamt/tree.rs: the operations of the trie, on nodes that are loaded from a store
-- and written back. The recursion on the depth takes fuel: a call of the crate would go on for ever
-- exactly where two keys have one hash.
pub mod Refine
pub mod Lookup
pub mod Puts
pub mod Branches
pub mod Insertion
pub mod Operations
use epochs.Common.{
  ℕ, zero, suc, ◌+◌, ◌-◌, ◌/◌, ◌%◌, ◌^◌, bit_and, bit_or, List, [], ◌∷◌, ◌++◌, Bool, Option, none,
  some, not, ltb, ◌==◌, if◌then◌else◌, bytes_eq, set, take, drop,
}
use epochs.Cas.{CasBackend}
use epochs.Codec.{Bytes}
use epochs.Hamt.Chunk.{extract_5bits}
use epochs.Hamt.Node.{HamtNode, encode, decode}
use epochs.Hash.{Hash, Blake3}
use epochs.Outcome.{out_of_fuel}
use epochs.Outcome.Action.{Action, ◌>>=◌, pure, lift, index_at, insert_at}
use epochs.Record.{RecordType}

-- `u32::count_ones`, on the `n` lowest bits.
unfoldable pub ones_below : ℕ → ℕ → ℕ
ones_below zero x = 0
ones_below (suc n) x = x % 2 + ones_below n (x / 2)

unfoldable pub count_ones : ℕ → ℕ
count_ones x = ones_below 32 x

unfoldable pub child_index : ℕ → ℕ → ℕ
child_index bitmap branch = let mask = 2 ^ branch in count_ones (bit_and bitmap (mask - 1))

-- `(bitmap & bit_mask) != 0` with `bit_mask = 1 << branch`.
unfoldable pub has_branch : ℕ → ℕ → Bool
has_branch bitmap branch = not (bit_and bitmap (2 ^ branch) == 0)

-- `xs.remove(i)`, at an index that was read before.
abbrev pub remove_at {ℓ} : {A : Type ℓ} → List A → ℕ → List A
remove_at xs i = take i xs ++ drop (i + 1) xs

-- The number of rounds that a call is given. A path of the trie is at most 53 nodes long.
abbrev pub max_rounds : ℕ
max_rounds = 64

module _ {S : Type 0} (cas : CasBackend S) (blake3 : Blake3) where
  unfoldable pub persist_leaf : Bytes → Bytes → Action S Hash
  persist_leaf key value = cas.put RecordType.hamt_leaf (encode (HamtNode.leaf key value))

  unfoldable pub persist_bitmap : ℕ → List Hash → Action S Hash
  persist_bitmap bitmap children =
      cas.put RecordType.hamt_bitmap (encode (HamtNode.bitmap_node bitmap children))

  unfoldable pub load_node : Hash → Action S HamtNode
  load_node hash = do r ← cas.get_record hash; lift (decode r.0 r.1)

  -- The value of the leaf, if it has the key.
  get_node : (Hash → Action S (Option Bytes)) → Bytes → ℕ → HamtNode → Action S (Option Bytes)
  get_node deeper key branch (HamtNode.leaf k v) =
      if bytes_eq k key then pure (some v) else pure none
  get_node deeper key branch (HamtNode.bitmap_node bitmap children) =
      if not (has_branch bitmap branch)
      then pure none
      else (index_at children (child_index bitmap branch) >>= deeper)

  pub get_internal : ℕ → Hash → Bytes → Hash → ℕ → Action S (Option Bytes)
  get_internal zero node_hash key key_hash depth = lift out_of_fuel
  get_internal (suc fuel) node_hash key key_hash depth = do
    node ← load_node node_hash
    get_node (λ h. get_internal fuel h key key_hash (depth + 1)) key (extract_5bits key_hash depth)
        node

  pub get : Option Hash → Bytes → Action S (Option Bytes)
  get none key = pure none
  get (some root) key = get_internal max_rounds root key (blake3.of_bytes key) 0

  leaf_hash_node :
      (Hash → Action S (Option Hash)) → Hash → Bytes → ℕ → HamtNode → Action S (Option Hash)
  leaf_hash_node deeper node_hash key branch (HamtNode.leaf k v) =
      if bytes_eq k key then pure (some node_hash) else pure none
  leaf_hash_node deeper node_hash key branch (HamtNode.bitmap_node bitmap children) =
      if not (has_branch bitmap branch)
      then pure none
      else (index_at children (child_index bitmap branch) >>= deeper)

  pub leaf_hash_internal : ℕ → Hash → Bytes → Hash → ℕ → Action S (Option Hash)
  leaf_hash_internal zero node_hash key key_hash depth = lift out_of_fuel
  leaf_hash_internal (suc fuel) node_hash key key_hash depth = do
    node ← load_node node_hash
    leaf_hash_node (λ h. leaf_hash_internal fuel h key key_hash (depth + 1)) node_hash key
        (extract_5bits key_hash depth) node

  pub leaf_hash : Option Hash → Bytes → Action S (Option Hash)
  leaf_hash none key = pure none
  leaf_hash (some root) key = leaf_hash_internal max_rounds root key (blake3.of_bytes key) 0

  -- The loop over the children.
  collect_children :
      (Hash → List (Bytes × Bytes) → Action S (List (Bytes × Bytes)))
      → List Hash
      → List (Bytes × Bytes)
      → Action S (List (Bytes × Bytes))
  collect_children deeper [] out = pure out
  collect_children deeper (child ∷ children) out =
      deeper child out >>= λ out'. collect_children deeper children out'

  collect_node :
      (Hash → List (Bytes × Bytes) → Action S (List (Bytes × Bytes)))
      → HamtNode
      → List (Bytes × Bytes)
      → Action S (List (Bytes × Bytes))
  collect_node deeper (HamtNode.leaf key value) out = pure (out ++ (key, value) ∷ [])
  collect_node deeper (HamtNode.bitmap_node bitmap children) out =
      collect_children deeper children out

  pub collect_entries : ℕ → Hash → List (Bytes × Bytes) → Action S (List (Bytes × Bytes))
  collect_entries zero node_hash out = lift out_of_fuel
  collect_entries (suc fuel) node_hash out = do
    node ← load_node node_hash
    collect_node (collect_entries fuel) node out

  pub entries : Option Hash → Action S (List (Bytes × Bytes))
  entries none = pure []
  entries (some root) = collect_entries max_rounds root []

  -- `Some(persist_bitmap(..)?)`.
  persist_some : ℕ → List Hash → Action S (Option Hash)
  persist_some bitmap children = persist_bitmap bitmap children >>= λ h. pure (some h)

  -- What becomes of a bitmap node whose child `idx` came back as `child`. The two branches for one
  -- child left and for more of them are alike.
  remove_child : ℕ → List Hash → ℕ → ℕ → Option Hash → Action S (Option Hash)
  remove_child bitmap children idx branch (some child) =
      persist_some bitmap (set children idx child)
  remove_child bitmap children idx branch none = persist_or_none (remove_at children idx)
    where
      persist_or_none : List Hash → Action S (Option Hash)
      persist_or_none [] = pure none
      persist_or_none (c ∷ cs) = persist_some (bit_and bitmap (0xffff_ffff - 2 ^ branch)) (c ∷ cs)

  remove_node :
      (Hash → Action S (Option Hash)) → Hash → Bytes → ℕ → HamtNode → Action S (Option Hash)
  remove_node deeper node_hash key branch (HamtNode.leaf k v) =
      if bytes_eq k key then pure none else pure (some node_hash)
  remove_node deeper node_hash key branch (HamtNode.bitmap_node bitmap children) =
      let idx = child_index bitmap branch in
      if not (has_branch bitmap branch)
      then pure (some node_hash)
      else (index_at children idx >>= deeper >>= remove_child bitmap children idx branch)

  pub remove_internal : ℕ → Hash → Bytes → Hash → ℕ → Action S (Option Hash)
  remove_internal zero node_hash key key_hash depth = lift out_of_fuel
  remove_internal (suc fuel) node_hash key key_hash depth = do
    node ← load_node node_hash
    remove_node (λ h. remove_internal fuel h key key_hash (depth + 1)) node_hash key
        (extract_5bits key_hash depth) node

  pub remove : Option Hash → Bytes → Action S (Option Hash)
  remove none key = pure none
  remove (some root) key = remove_internal max_rounds root key (blake3.of_bytes key) 0

  -- The new bitmap node over two leaves, or one more level where their chunks are the same.
  pub expand_leaf_collision :
      (Hash → Action S Hash) → Bytes → Bytes → Bytes → Bytes → ℕ → ℕ → Action S Hash
  expand_leaf_collision deeper existing_key existing_val new_key new_val chunk_old chunk_new = do
    old_leaf_hash ← persist_leaf existing_key existing_val
    if chunk_old == chunk_new then deeper old_leaf_hash else do
      new_leaf_hash ← persist_leaf new_key new_val
      persist_bitmap (bit_or (2 ^ chunk_old) (2 ^ chunk_new)) (
          if ltb chunk_old chunk_new
          then old_leaf_hash ∷ new_leaf_hash ∷ []
          else new_leaf_hash ∷ old_leaf_hash ∷ [])

  pub insert_node : (Hash → Action S Hash) → Bytes → Bytes → Hash → ℕ → HamtNode → Action S Hash
  insert_node deeper key value key_hash depth (HamtNode.leaf existing_key existing_val) =
      if bytes_eq existing_key key
      then persist_leaf key value
      else expand_leaf_collision deeper existing_key existing_val key value
          (extract_5bits (blake3.of_bytes existing_key) depth) (extract_5bits key_hash depth)
  insert_node deeper key value key_hash depth (HamtNode.bitmap_node bitmap children) =
      let branch = extract_5bits key_hash depth in
      let idx = child_index bitmap branch in
      if has_branch bitmap branch
      then (do
        child_hash ← index_at children idx
        new_child ← deeper child_hash
        persist_bitmap bitmap (set children idx new_child))
      else (do
        new_leaf ← persist_leaf key value
        new_children ← insert_at children idx new_leaf
        persist_bitmap (bit_or bitmap (2 ^ branch)) new_children)

  pub insert_internal : ℕ → Option Hash → Bytes → Bytes → Hash → ℕ → Action S Hash
  insert_internal zero node_hash key value key_hash depth = lift out_of_fuel
  insert_internal (suc fuel) none key value key_hash depth = persist_leaf key value
  insert_internal (suc fuel) (some hash) key value key_hash depth = do
    node ← load_node hash
    insert_node (λ h. insert_internal fuel (some h) key value key_hash (depth + 1)) key value
        key_hash depth node

  pub insert : Option Hash → Bytes → Bytes → Action S Hash
  insert root key value = insert_internal max_rounds root key value (blake3.of_bytes key) 0
