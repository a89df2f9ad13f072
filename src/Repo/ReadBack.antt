-- ===== src/Repo/ReadBack.antt =====
-- epochs-core/src/repo/manifest.rs: reading a branch that was just created or moved.
use epochs.Common.{
  ℕ, ◌<◌, List, [], ◌∷◌, ◌++◌, true, false, some, ◌||◌, ◌≡◌, refl, sym, ◌∙◌, Bool-cases, inl, inr,
  All, arith, bytes_eq, bytes_eq_refl,
}
use epochs.Assoc
use epochs.Assoc.Laws.{get-insert, get-eq-none}
use epochs.Codec.{Bytes}
use epochs.Hash.Hex.{IsSolid, to_hex-IsSolid, from_hex-to_hex}
use epochs.Hash.{Hash, IsHash, to_hex}
use epochs.Outcome.{ok}
use epochs.Repo.{
  Repo, newline, parents, branch_ref_path, is_dir_name, is_dir, ref_file, any_file, is_space,
  trim_start, trim_end, trim, write_branch, create_branch, update_branch, read_branch, parse_ref,
  exists,
}
use epochs.Text.{is_utf8}

is_utf8-ascii : (b : ℕ) (bs : Bytes) → b < 128 → is_utf8 (b ∷ bs) ≡ is_utf8 bs
unfolding is_utf8
is_utf8-ascii b bs p = ground arith

is_utf8-line : (s : Bytes) → All IsSolid s → is_utf8 (s ++ newline) ≡ true
is_utf8-line [] a = unfold is_utf8 in refl
is_utf8-line (b ∷ s) a = rw (is_utf8-ascii b (s ++ newline) a.0.1) (is_utf8-line s a.1)

is_space-solid : (b : ℕ) → IsSolid b → is_space b ≡ false
unfolding is_space
is_space-solid b p = ground arith

trim_end-line : (s : Bytes) → All IsSolid s → trim_end (s ++ newline) ≡ s
unfolding trim_end
trim_end-line [] a = unfold is_space in refl
trim_end-line (b ∷ []) a = rw (trim_end-line [] tt, is_space-solid b a.0) refl
trim_end-line (b ∷ c ∷ s) a = rw (trim_end-line (c ∷ s) a.1) refl

trim-line : (s : Bytes) → All IsSolid s → trim (s ++ newline) ≡ s
unfolding trim trim_start
trim-line [] a = unfold is_space trim_end in refl
trim-line (b ∷ s) a = rw (is_space-solid b a.0) (trim_end-line (b ∷ s) a)

parse_ref-line :
    (name : Bytes) (target : Hash)
    → IsHash target
    → parse_ref name (to_hex target ++ newline) ≡ ok (record { name = name; target = target })
unfolding parse_ref
parse_ref-line name target v =
    let solid = to_hex-IsSolid target v.1 in
    rw (
      is_utf8-line (to_hex target) solid,
      trim-line (to_hex target) solid,
      (from_hex-to_hex target v).1,
    )

contains_of_get :
    (k : Bytes) (v : Bytes) (m : List (Bytes × Bytes))
    → Assoc.get k m ≡ some v
    → Assoc.contains_key k m ≡ true
contains_of_get k v m e = elim (Bool-cases (Assoc.contains_key k m)) [
  | inl there ↦ there
  | inr missing ↦ let n = get-eq-none k m missing in cc
]

ref_file_path :
    (r : Repo) (name contents : Bytes)
    → ref_file r name ≡ some contents
    → (is_dir_name name ≡ false) × (Assoc.get (branch_ref_path name) r.files ≡ some contents)
unfolding ref_file
ref_file_path r name contents e = elim (Bool-cases (is_dir_name name)) [
  | inl dir ↦ let no = rw dir at e in cc
  | inr file ↦ (file, rw file at e)
]

-- Reading looks at the file of the name alone.
read_branch-file :
    (r : Repo) (name contents : Bytes)
    → is_dir_name name ≡ false
    → Assoc.get (branch_ref_path name) r.files ≡ some contents
    → read_branch r name ≡ parse_ref name contents
unfolding read_branch exists ref_file
read_branch-file r name contents file e =
    let there = contains_of_get (branch_ref_path name) contents r.files e in
    let found : (is_dir r (branch_ref_path name) || true) ≡ true = ground arith in
    rw (file, there, found, e) refl

write_branch-files :
    (name : Bytes) (target : Hash) (r : Repo)
    → (write_branch name target r).0 ≡ ok tt
    → (is_dir_name name ≡ false)
      × ((write_branch name target r).1.files
          ≡ Assoc.insert (branch_ref_path name) (to_hex target ++ newline) r.files)
unfolding write_branch
write_branch-files name target r e =
    let path = branch_ref_path name in
    let r' = record r { dirs = parents path ++ r.dirs } in
    elim (Bool-cases (any_file (parents path) r.files)) [
      | inl blocked ↦ let no = rw blocked at e in cc
      | inr free ↦ elim (Bool-cases (is_dir_name name || is_dir r' path)) [
        | inl dir ↦ let no = rw (free, dir) at e in cc
        | inr file ↦ (ground arith, rw (free, file) refl)
      ]
    ]

read_own :
    (name : Bytes) (target : Hash) (r r' : Repo)
    → IsHash target
    → is_dir_name name ≡ false
    → r'.files ≡ Assoc.insert (branch_ref_path name) (to_hex target ++ newline) r.files
    → read_branch r' name ≡ ok (record { name = name; target = target })
read_own name target r r' v file e =
    let path = branch_ref_path name in
    let line = to_hex target ++ newline in
    let mine : Assoc.get path r'.files ≡ some line =
      rw (e, get-insert path path line r.files, bytes_eq_refl path) refl in
    read_branch-file r' name line file mine ∙ parse_ref-line name target v

read_other :
    (path line other contents : Bytes) (r r' : Repo)
    → bytes_eq path (branch_ref_path other) ≡ false
    → r'.files ≡ Assoc.insert path line r.files
    → ref_file r other ≡ some contents
    → read_branch r' other ≡ read_branch r other
read_other path line other contents r r' n e old =
    let (file, before) = ref_file_path r other contents old in
    let kept : Assoc.get (branch_ref_path other) r'.files ≡ some contents =
      rw (e, get-insert path (branch_ref_path other) line r.files, n) before in
    read_branch-file r' other contents file kept
    ∙ sym (read_branch-file r other contents file before)

-- A branch whose creation with a target of 32 bytes succeeds reads back with that target.
pub create_branch-read :
    (name : Bytes) (target : Hash) (r : Repo)
    → IsHash target
    → (create_branch name target r).0 ≡ ok tt
    → read_branch (create_branch name target r).1 name
      ≡ ok (record { name = name; target = target })
unfolding create_branch
create_branch-read name target r v e = elim (Bool-cases (exists r name)) [
  | inl there ↦ let no = rw there at e in cc
  | inr new ↦
      let (file, files) = write_branch-files name target r (rw new at e) in
      rw new (read_own name target r (write_branch name target r).1 v file files)
]

-- When moving a branch to a target of 32 bytes succeeds, it reads back with that target, and any
-- other branch with a ref file, whose name leads to another path, reads as before.
pub update_branch-read :
    (name : Bytes) (target : Hash) (other contents : Bytes) (r : Repo)
    → IsHash target
    → bytes_eq (branch_ref_path name) (branch_ref_path other) ≡ false
    → ref_file r other ≡ some contents
    → (update_branch name target r).0 ≡ ok tt
    → (read_branch (update_branch name target r).1 name
        ≡ ok (record { name = name; target = target }))
      × (read_branch (update_branch name target r).1 other ≡ read_branch r other)
unfolding update_branch
update_branch-read name target other contents r v n old e = elim (Bool-cases (exists r name)) [
  | inl there ↦
      let r' = (write_branch name target r).1 in
      let (file, files) = write_branch-files name target r (rw there at e) in
      rw there (
        read_own name target r r' v file files,
        read_other (branch_ref_path name) (to_hex target ++ newline) other contents r r' n files
            old,
      )
  | inr missing ↦ let no = rw missing at e in cc
]
