-- ===== src/Disk/Branches.antt =====
-- epochs-core/src/store: the operations on branches over the store of objects.
use epochs.Common.{ℕ, ◌++◌, true, ◌≡◌, refl, Bool-cases, inl, inr, All}
use epochs.Cas.Store
use epochs.Cas.Store.{CasStore}
use epochs.Codec.{Bytes}
use epochs.Disk.{DiskStore, on_repo, create_branch, update_branch, delete_branch, set_head}
use epochs.Hash.{Hash, Blake3, to_hex}
use epochs.Repo.Refs.{create_branch-All, update_branch-All, delete_branch-All, set_head-All}
use epochs.Repo.{newline}

-- The file of a branch holds the digits of a stored object's hash and a line end.
unfoldable pub IsRef : CasStore → Bytes × Bytes → Type 0
IsRef cas (name, contents) =
    (target : Hash) × (contents ≡ to_hex target ++ newline) × (Store.contains cas target ≡ true)

unfoldable pub BranchesStored : DiskStore → Type 0
BranchesStored s = All (IsRef s.cas) s.repo.files

-- Whatever the arguments, and whether the operation succeeds or not, creating, moving and deleting
-- a branch and setting HEAD leave every branch pointing at a stored object.
pub branch_operations-BranchesStored :
    (created_at : ℕ → ℕ) (blake3 : Blake3) (name : Bytes) (target : Hash) (s : DiskStore)
    → BranchesStored s
    → BranchesStored (create_branch created_at blake3 name target s).1
      × BranchesStored (update_branch created_at blake3 name target s).1
      × BranchesStored (delete_branch created_at blake3 name s).1
      × BranchesStored (set_head created_at blake3 name s).1
unfolding BranchesStored IsRef create_branch update_branch delete_branch set_head on_repo
branch_operations-BranchesStored created_at blake3 name target s a =
    let P = IsRef s.cas in
    (
      elim (Bool-cases (Store.contains s.cas target)) [
        | inl there ↦ rw there (create_branch-All P name target s.repo (target, refl, there) a)
        | inr missing ↦ rw missing a
      ],
      elim (Bool-cases (Store.contains s.cas target)) [
        | inl there ↦ rw there (update_branch-All P name target s.repo (target, refl, there) a)
        | inr missing ↦ rw missing a
      ],
      delete_branch-All P name s.repo a,
      set_head-All P name s.repo a,
    )
