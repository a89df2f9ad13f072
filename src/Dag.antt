-- ===== src/Dag.antt =====
-- epochs-core/src/dag/algorithms.rs: walks over the commits of any store. The queue and the sets of
-- the source are lists; a set is read only by membership. The loops take fuel.
pub mod Reach
pub mod Ancestors
pub mod Push
pub mod MergeBase
use epochs.Common.{
  ℕ, zero, suc, ◌+◌, List, [], ◌∷◌, ◌++◌, Bool, true, false, ◌||◌, Option, none, some, leb, ltb,
  ◌==◌, if◌then◌else◌, bytes_eq,
}
use epochs.Commit.{Commit}
use epochs.Hash.{Hash}
use epochs.Outcome.Action.{Action, ◌>>=◌, pure, lift}
use epochs.Outcome.{Result, ok, err, panicked, out_of_fuel, EpochsError}

unfoldable pub member : Hash → List Hash → Bool
member k [] = false
member k (j ∷ js) = bytes_eq j k || member k js

-- The loop `for parent in parents { if visited.insert(parent) { queue.push_back(parent) } }`.
unfoldable pub push_new : List Hash → List Hash → List Hash → List Hash × List Hash
push_new [] visited queue = (visited, queue)
push_new (p ∷ ps) visited queue =
    let old = member p visited in
    push_new ps (if old then visited else p ∷ visited) (if old then queue else queue ++ p ∷ [])

-- The same loop where a generation is queued with the hash.
unfoldable pub push_deeper :
    List Hash → ℕ → List Hash → List (Hash × ℕ) → List Hash × List (Hash × ℕ)
push_deeper [] depth visited queue = (visited, queue)
push_deeper (p ∷ ps) depth visited queue =
    let old = member p visited in
    push_deeper ps depth (if old then visited else p ∷ visited)
      (if old then queue else queue ++ (p, depth) ∷ [])

module _ {S : Type 0} (get_commit : Hash → Action S Commit) where
  -- The loop of `collect_ancestors`.
  pub ancestors_loop : ℕ → List Hash → List Hash → Action S (List Hash)
  ancestors_loop fuel ancestors [] = pure ancestors
  ancestors_loop zero ancestors (current ∷ queue) = lift out_of_fuel
  ancestors_loop (suc fuel) ancestors (current ∷ queue) =
      let skip = ancestors_loop fuel ancestors queue in
      let visit = get_commit current >>= λ commit.
      ancestors_loop fuel (current ∷ ancestors) (queue ++ commit.parents) in
      if member current ancestors then skip else visit

  pub collect_ancestors : ℕ → Hash → Action S (List Hash)
  collect_ancestors fuel start = ancestors_loop fuel [] (start ∷ [])

  pub is_ancestor : ℕ → Hash → Hash → Action S Bool
  is_ancestor fuel ancestor descendant =
      if bytes_eq ancestor descendant
      then pure true
      else (collect_ancestors fuel descendant >>= λ ancestors. pure (member ancestor ancestors))

  -- The loop of `merge_base`.
  pub merge_loop : ℕ → List Hash → List Hash → List Hash → Action S (Option Hash)
  merge_loop fuel ancestors_a visited [] = pure none
  merge_loop zero ancestors_a visited (current ∷ queue) = lift out_of_fuel
  merge_loop (suc fuel) ancestors_a visited (current ∷ queue) =
      let visit = get_commit current >>= λ commit.
      let (visited', queue') = push_new commit.parents visited queue in
      merge_loop fuel ancestors_a visited' queue' in
      if member current ancestors_a then pure (some current) else visit

  pub merge_base : ℕ → Hash → Hash → Action S (Option Hash)
  merge_base fuel a b =
      if bytes_eq a b
      then pure (some a)
      else (collect_ancestors fuel a >>= λ ancestors_a.
          merge_loop fuel ancestors_a (b ∷ []) (b ∷ []))

  -- `map_err(|_| CommitNotFound(current))`.
  named : Hash → Action S Commit → Action S Commit
  named current m s = rename (m s)
    where
      rename : Result Commit × S → Result Commit × S
      rename (ok c, s') = (ok c, s')
      rename (err e, s') = (err (EpochsError.commit_not_found current), s')
      rename (panicked, s') = (panicked, s')
      rename (out_of_fuel, s') = (out_of_fuel, s')

  -- The loop of `ancestors_within_depth`.
  pub depth_loop : ℕ → ℕ → List Hash → List Hash → List (Hash × ℕ) → Action S (List Hash)
  depth_loop fuel max_depth result visited [] = pure result
  depth_loop zero max_depth result visited (item ∷ queue) = lift out_of_fuel
  depth_loop (suc fuel) max_depth result visited ((current, depth) ∷ queue) =
      let result' = if ltb 0 depth then result ++ current ∷ [] else result in
      let skip = depth_loop fuel max_depth result' visited queue in
      let visit = named current (get_commit current) >>= λ commit.
      let (visited', queue') = push_deeper commit.parents (depth + 1) visited queue in
      depth_loop fuel max_depth result' visited' queue' in
      if leb max_depth depth then skip else visit

  pub ancestors_within_depth : ℕ → Hash → ℕ → Action S (List Hash)
  ancestors_within_depth fuel start max_depth =
      if max_depth == 0
      then pure []
      else depth_loop fuel max_depth [] (start ∷ []) ((start, 0) ∷ [])
