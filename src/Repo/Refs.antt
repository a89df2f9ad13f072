-- ===== src/Repo/Refs.antt =====
-- epochs-core/src/repo/manifest.rs: what the ref files hold after an operation.
use epochs.Common.{List, [], ◌∷◌, ◌++◌, Bool-cases, inl, inr, All, bytes_eq, ◌||◌}
use epochs.Assoc
use epochs.Codec.{Bytes}
use epochs.Hash.{Hash, to_hex}
use epochs.Repo.{
  Repo, newline, parents, branch_ref_path, is_dir_name, is_dir, any_file, write_branch,
  create_branch, update_branch, delete_branch, is_head, set_head, exists,
}

module _ (P : Bytes × Bytes → Type 0) where
  All-insert :
      (k v : Bytes) (m : List (Bytes × Bytes)) → P (k, v) → All P m → All P (Assoc.insert k v m)
  unfolding Assoc.insert
  All-insert k v [] p a = (p, tt)
  All-insert k v ((j, w) ∷ m) p a = elim (Bool-cases (bytes_eq j k)) [
    | inl same ↦ rw same (p, a.1)
    | inr other ↦ rw other (a.0, All-insert k v m p a.1)
  ]

  All-remove : (k : Bytes) (m : List (Bytes × Bytes)) → All P m → All P (Assoc.remove k m)
  unfolding Assoc.remove
  All-remove k [] a = tt
  All-remove k ((j, w) ∷ m) a = elim (Bool-cases (bytes_eq j k)) [
    | inl same ↦ rw same (All-remove k m a.1)
    | inr other ↦ rw other (a.0, All-remove k m a.1)
  ]

  write_branch-All :
      (name : Bytes) (target : Hash) (r : Repo)
      → P (branch_ref_path name, to_hex target ++ newline)
      → All P r.files
      → All P (write_branch name target r).1.files
  unfolding write_branch
  write_branch-All name target r p a =
      let path = branch_ref_path name in
      let dirs = parents path ++ r.dirs in
      elim (Bool-cases (any_file (parents path) r.files)) [
        | inl blocked ↦ rw blocked a
        | inr free ↦
            elim (Bool-cases (is_dir_name name || is_dir (record r { dirs = dirs }) path)) [
              | inl dir ↦ rw (free, dir) a
              | inr file ↦ rw (free, file) (All-insert path (to_hex target ++ newline) r.files p a)
            ]
      ]

  pub create_branch-All :
      (name : Bytes) (target : Hash) (r : Repo)
      → P (branch_ref_path name, to_hex target ++ newline)
      → All P r.files
      → All P (create_branch name target r).1.files
  unfolding create_branch
  create_branch-All name target r p a = elim (Bool-cases (exists r name)) [
    | inl there ↦ rw there a
    | inr new ↦ rw new (write_branch-All name target r p a)
  ]

  pub update_branch-All :
      (name : Bytes) (target : Hash) (r : Repo)
      → P (branch_ref_path name, to_hex target ++ newline)
      → All P r.files
      → All P (update_branch name target r).1.files
  unfolding update_branch
  update_branch-All name target r p a = elim (Bool-cases (exists r name)) [
    | inl there ↦ rw there (write_branch-All name target r p a)
    | inr new ↦ rw new a
  ]

  pub delete_branch-All :
      (name : Bytes) (r : Repo) → All P r.files → All P (delete_branch name r).1.files
  unfolding delete_branch
  delete_branch-All name r a = elim (Bool-cases (is_head r.head name)) [
    | inl head ↦ rw head a
    | inr other ↦ elim (Bool-cases (exists r name)) [
      | inr missing ↦ rw (other, missing) a
      | inl there ↦ elim (Bool-cases (is_dir_name name || is_dir r (branch_ref_path name))) [
        | inl dir ↦ rw (other, there, dir) a
        | inr file ↦ rw (other, there, file) (All-remove (branch_ref_path name) r.files a)
      ]
    ]
  ]

  pub set_head-All : (name : Bytes) (r : Repo) → All P r.files → All P (set_head name r).1.files
  unfolding set_head
  set_head-All name r a = elim (Bool-cases (exists r name)) [
    | inl there ↦ rw there a
    | inr missing ↦ rw missing a
  ]
