-- ===== src/Disk.antt =====
-- epochs-core/src/store: the store of commits on disk, which joins refs, objects and the trie.
pub mod Branches
use epochs.Common.{
  ℕ, zero, suc, ◌+◌, ◌%◌, ◌^◌, List, [], ◌∷◌, ◌++◌, not, Option, none, some, leb, ◌==◌,
  if◌then◌else◌, bytes_eq, length,
}
use Prim.Native.Nat.{max}
use epochs.Assoc
use epochs.Cas.Segment.{Segments}
use epochs.Cas.Store
use epochs.Cas.Store.{CasStore, store_backend, CachedPayload}
use epochs.Codec.{Bytes}
use epochs.Commit
use epochs.Commit.{Commit}
use epochs.Dag.{member}
use epochs.Hamt.Tree
use epochs.Hash.{Hash, Blake3, zero_hash, from_hex}
use epochs.Lru
use epochs.Lru.{LruMap}
use epochs.Outcome
use epochs.Outcome.Action.{Action, ◌>>=◌, pure, fail, lift}
use epochs.Outcome.{Result, ok, err, panicked, out_of_fuel, EpochsError, Message}
use epochs.Record.{RecordType}
use epochs.Repo
use epochs.Repo.{Repo, Branch}
use epochs.Text.{codes, eq_ignore_ascii_case}

abbrev pub commit_cache_cap : ℕ
commit_cache_cap = 4096

-- A mutation of a commit: `Put` is the only one.
pub record HamtOp : Type 0 where
  pub key : Bytes
  pub value : Bytes

-- `next_millis` is the static of `next_timestamp`, a counter of the process.
pub record DiskStore : Type 0 where
  pub repo : Repo
  pub cas : CasStore
  pub commit_cache : LruMap Commit
  pub fsync_every : ℕ
  pub commits_since_fsync : ℕ
  pub next_millis : ℕ

on_repo : {A : Type 0} → Action Repo A → Action DiskStore A
on_repo m s = let (r, repo) = m s.repo in (r, record s { repo = repo })

on_cas : {A : Type 0} → Action CasStore A → Action DiskStore A
on_cas m s = let (r, cas) = m s.cas in (r, record s { cas = cas })

unfoldable pub set_fsync_every : ℕ → DiskStore → DiskStore
set_fsync_every n s = record s { fsync_every = max n 1 }

unfoldable pub configure_caches : ℕ → ℕ → ℕ → DiskStore → DiskStore
configure_caches object_cap commit_cap mmap_segments s = record s {
  cas = Store.set_mmap_cap mmap_segments (Store.set_object_cache_cap object_cap s.cas);
  commit_cache = Lru.new commit_cap;
}

unfoldable pub flush : DiskStore → DiskStore
flush s = record s { cas = Store.flush s.cas; commits_since_fsync = 0 }

-- The first call reads the clock, `now`; later ones count on from there.
unfoldable pub next_timestamp : ℕ → ℕ → ℕ × ℕ
next_timestamp now counter =
    if counter == 0 then (now, (now + 1) % 2 ^ 64) else (counter, (counter + 1) % 2 ^ 64)

module _ (created_at : ℕ → ℕ) (blake3 : Blake3) where
  write_genesis : ℕ → Bytes → Action CasStore Hash
  write_genesis now message s =
      (Store.put created_at blake3 RecordType.commit
            (Commit.encode_payload (Commit.new [] zero_hash now message))
          >>= λ hash. λ s'. (ok hash, Store.flush s'))
        s

  fresh : Repo → CasStore → DiskStore
  fresh repo cas = record {
    repo = repo;
    cas = cas;
    commit_cache = Lru.new commit_cache_cap;
    fsync_every = 1;
    commits_since_fsync = 0;
    next_millis = 0;
  }

  -- `DiskStore::open` on a directory that holds these files.
  unfoldable pub open_disk : Repo → Bytes → Segments → Result DiskStore
  unfolding fresh
  open_disk directory index_file segments = Outcome.◌>>=◌ (Repo.open_repo directory) λ repo.
      Outcome.◌>>=◌ (Store.open_store (created_at 0) index_file segments) λ cas. ok (fresh repo cas)

  init_repo : Bytes → Hash → Action Repo (Unit {0})
  init_repo default_branch hash =
      Repo.create_branch default_branch hash >>= λ _. Repo.set_head default_branch

  -- `DiskStore::init`: the genesis commit, the branch and HEAD.
  init_stores : ℕ → Bytes → Bytes → Action DiskStore Hash
  unfolding on_cas on_repo write_genesis init_repo
  init_stores now default_branch message = on_cas (write_genesis now message) >>= λ hash.
      on_repo (init_repo default_branch hash) >>= λ _. pure hash

  unfoldable pub init :
      ℕ → Repo → Bytes → Segments → Bytes → Bytes → Result (Result Hash × DiskStore)
  unfolding fresh init_stores
  init now directory index_file segments default_branch message =
      Outcome.◌>>=◌ (Store.open_store (created_at 0) index_file segments)
        λ cas. ok (init_stores now default_branch message (fresh (Repo.init directory) cas))

  unfoldable pub get_object : Hash → Action DiskStore CachedPayload
  unfolding on_cas
  get_object hash = on_cas (Store.get_payload blake3 hash)

  -- Decoding a record that is a commit, and keeping it in the cache.
  decode_commit : Hash → RecordType → Bytes → Action DiskStore Commit
  decode_commit hash RecordType.commit payload s =
      (lift (Commit.decode_payload payload) >>= λ commit s'.
      (ok commit, record s' { commit_cache = Lru.insert hash commit s'.commit_cache }))
        s
  decode_commit hash _ payload s = (err (EpochsError.codec Message.not_a_commit), s)

  unfoldable pub load_commit : Hash → Action DiskStore Commit
  unfolding on_cas decode_commit
  load_commit hash s = elim (Lru.get hash s.commit_cache) [
    | some c ↦ (ok c, s)
    | none ↦
        (on_cas (Store.get_record blake3 hash) >>= λ rec.
        decode_commit hash rec.record_type rec.payload)
          s
  ]

  unfoldable pub persist_commit : Commit → Action DiskStore Hash
  unfolding on_cas
  persist_commit commit = do
    hash ← on_cas (Store.put created_at blake3 RecordType.commit (Commit.encode_payload commit))
    λ s.
        let s' = record s {
          commit_cache = Lru.insert hash commit s.commit_cache;
          commits_since_fsync = s.commits_since_fsync + 1;
        } in
        (ok hash, if leb s'.fsync_every s'.commits_since_fsync then flush s' else s')

  -- The first parent that is not stored.
  unfoldable pub check_parents : List Hash → Action DiskStore (Unit {0})
  check_parents [] s = (ok tt, s)
  check_parents (parent ∷ parents) s =
      if not (Store.contains s.cas parent)
      then (err (EpochsError.invalid_commit (Message.parent_not_found parent)), s)
      else check_parents parents s

  take_timestamp : ℕ → Action DiskStore ℕ
  take_timestamp now s =
      let (n, counter) = next_timestamp now s.next_millis in
      (ok n, record s { next_millis = counter })

  unfoldable pub commit_with_root : ℕ → List Hash → Hash → Bytes → Action DiskStore Hash
  unfolding take_timestamp
  commit_with_root now parents root_hamt message = do
    _ ← check_parents parents
    timestamp ← take_timestamp now
    persist_commit (Commit.new parents root_hamt timestamp message)

  -- Here the clock is read, and the counter of `next_timestamp` is not.
  unfoldable pub commit_with_indexes :
      ℕ → List Hash → Hash → List (Bytes × Hash) → Bytes → Action DiskStore Hash
  commit_with_indexes now parents root_hamt index_roots message = do
    _ ← check_parents parents
    persist_commit (Commit.with_indexes parents root_hamt now message index_roots)

  -- A root of zero bytes stands for the empty trie.
  base_of : Option Hash → Option Hash
  base_of none = none
  base_of (some root) = if bytes_eq root zero_hash then none else some root

  apply_ops : List HamtOp → Option Hash → Action DiskStore (Option Hash)
  unfolding on_cas base_of
  apply_ops [] root = pure root
  apply_ops (op ∷ ops) root =
      on_cas (Tree.insert (store_backend created_at blake3) blake3 (base_of root) op.key op.value)
      >>= λ h. apply_ops ops (some h)

  or_zero_hash : Option Hash → Hash
  or_zero_hash none = zero_hash
  or_zero_hash (some h) = h

  unfoldable pub apply_hamt_ops : Option Hash → List HamtOp → Action DiskStore Hash
  unfolding apply_ops or_zero_hash
  apply_hamt_ops root ops = apply_ops ops root >>= λ r. pure (or_zero_hash r)

  unfoldable pub commit_ops :
      ℕ → List Hash → Option Hash → List HamtOp → Bytes → Action DiskStore Hash
  unfolding apply_ops or_zero_hash
  commit_ops now parents root ops message = do
    r ← apply_ops ops root
    commit_with_root now parents (or_zero_hash r) message

  unfoldable pub get : Hash → Bytes → Action DiskStore (Option Bytes)
  unfolding on_cas
  get root key =
      if bytes_eq root zero_hash
      then pure none
      else on_cas (Tree.get (store_backend created_at blake3) blake3 (some root) key)

  unfoldable pub hamt_leaf_hash : Hash → Bytes → Action DiskStore (Option Hash)
  unfolding on_cas
  hamt_leaf_hash root key =
      if bytes_eq root zero_hash
      then pure none
      else on_cas (Tree.leaf_hash (store_backend created_at blake3) blake3 (some root) key)

  unfoldable pub hamt_entries : Hash → Action DiskStore (List (Bytes × Bytes))
  unfolding on_cas
  hamt_entries root =
      if bytes_eq root zero_hash
      then pure []
      else on_cas (Tree.entries (store_backend created_at blake3) blake3 (some root))

  unfoldable pub index_put : Option Hash → Bytes → Bytes → Action DiskStore Hash
  unfolding on_cas
  index_put root key value =
      on_cas (Tree.insert (store_backend created_at blake3) blake3 root key value)

  unfoldable pub index_remove : Option Hash → Bytes → Action DiskStore (Option Hash)
  unfolding on_cas
  index_remove root key = on_cas (Tree.remove (store_backend created_at blake3) blake3 root key)

  unfoldable pub index_get : Hash → Bytes → Action DiskStore (Option Bytes)
  unfolding on_cas
  index_get root key =
      if bytes_eq root zero_hash
      then pure none
      else on_cas (Tree.get (store_backend created_at blake3) blake3 (some root) key)

  unfoldable pub create_branch : Bytes → Hash → Action DiskStore (Unit {0})
  unfolding on_repo
  create_branch name target s =
      if not (Store.contains s.cas target)
      then (err (EpochsError.commit_not_found target), s)
      else on_repo (Repo.create_branch name target) s

  unfoldable pub update_branch : Bytes → Hash → Action DiskStore (Unit {0})
  unfolding on_repo
  update_branch name target s =
      if not (Store.contains s.cas target)
      then (err (EpochsError.commit_not_found target), s)
      else on_repo (Repo.update_branch name target) s

  unfoldable pub advance_branch : Bytes → Hash → Action DiskStore (Unit {0})
  advance_branch = update_branch

  unfoldable pub get_branch : Bytes → Action DiskStore Branch
  get_branch name s = (Repo.read_branch s.repo name, s)

  unfoldable pub delete_branch : Bytes → Action DiskStore (Unit {0})
  unfolding on_repo
  delete_branch name = on_repo (Repo.delete_branch name)

  unfoldable pub set_head : Bytes → Action DiskStore (Unit {0})
  unfolding on_repo
  set_head name = on_repo (Repo.set_head name)

  head_of : Option Bytes → Action DiskStore (Option Branch)
  head_of none = pure none
  head_of (some name) = get_branch name >>= λ b. pure (some b)

  unfoldable pub head : Action DiskStore (Option Branch)
  unfolding head_of
  head s = head_of (Repo.head_branch s.repo) s

  -- One match, none, or several.
  one_match : Bytes → List Hash → Result Hash
  one_match hex [] = err (EpochsError.invalid_target (Message.no_object_matches hex))
  one_match hex (h ∷ []) = ok h
  one_match hex (h ∷ k ∷ hs) =
      err (EpochsError.invalid_target (Message.ambiguous_prefix hex (length (h ∷ k ∷ hs))))

  stored : DiskStore → Hash → Result Hash
  stored s hash =
      if Store.contains s.cas hash then ok hash else err (EpochsError.commit_not_found hash)

  unfoldable pub resolve_hash_ref : Bytes → Action DiskStore Hash
  unfolding one_match stored
  resolve_hash_ref hex s =
      if length hex == 64
      then (lift (from_hex hex) >>= λ hash s'. (stored s' hash, s')) s
      else (one_match hex (Store.find_by_prefix s.cas hex), s)

  target_of : Option Branch → Action DiskStore Hash
  target_of none = fail (EpochsError.invalid_target Message.head_not_set)
  target_of (some b) = pure b.target

  branch_or_hash : Bytes → Result Branch → Action DiskStore Hash
  branch_or_hash target (ok b) = pure b.target
  branch_or_hash target _ = resolve_hash_ref target

  unfoldable pub resolve_target : Bytes → Action DiskStore Hash
  unfolding target_of branch_or_hash
  resolve_target target s =
      if eq_ignore_ascii_case target (codes "HEAD")
      then (head >>= target_of) s
      else branch_or_hash target (Repo.read_branch s.repo target) s

  unfoldable pub checkout : Bytes → Action DiskStore Commit
  checkout target = resolve_target target >>= load_commit

  -- The walk from one branch tip; `all` goes on from branch to branch.
  reach_loop : ℕ → List Hash → List Hash → Action DiskStore (List Hash)
  reach_loop fuel all [] = pure all
  reach_loop zero all (h ∷ queue) = lift out_of_fuel
  reach_loop (suc fuel) all (h ∷ queue) =
      let skip = reach_loop fuel all queue in
      let visit = load_commit h >>= λ commit. reach_loop fuel (h ∷ all) (queue ++ commit.parents) in
      if member h all then skip else visit

  reach_from : ℕ → List Bytes → List Hash → Action DiskStore (List Hash)
  unfolding reach_loop
  reach_from fuel [] all = pure all
  reach_from fuel (name ∷ names) all = get_branch name >>= λ b.
      reach_loop fuel all (b.target ∷ []) >>= λ all'. reach_from fuel names all'

  unfoldable pub reachable_commits : ℕ → Action DiskStore (List Hash)
  unfolding reach_from
  reachable_commits fuel s = reach_from fuel (Repo.list_branches s.repo) [] s

  -- `entry(parent).or_default().push(hash)`.
  push_child : Hash → List Hash → List (Hash × List Hash) → List (Hash × List Hash)
  push_child hash [] map = map
  push_child hash (p ∷ ps) map =
      push_child hash ps (Assoc.insert p (or_empty (Assoc.get p map) ++ hash ∷ []) map)
    where
      or_empty : Option (List Hash) → List Hash
      or_empty none = []
      or_empty (some l) = l

  children_loop : List Hash → List (Hash × List Hash) → Action DiskStore (List (Hash × List Hash))
  unfolding push_child
  children_loop [] map = pure map
  children_loop (h ∷ hs) map =
      load_commit h >>= λ commit. children_loop hs (push_child h commit.parents map)

  unfoldable pub children_map : ℕ → Action DiskStore (List (Hash × List Hash))
  unfolding children_loop
  children_map fuel = reachable_commits fuel >>= λ commits. children_loop commits []
