-- ===== src/Tests/Refs.antt =====
-- Branch refs, alone and over the store of objects.
use epochs.Common.{◌≡◌, refl, [], ◌∷◌, ◌++◌, true, false, some, bytes_eq, arith}
use epochs.Assoc
use epochs.Cas.Store
use epochs.Cas.Store.Appending
use epochs.Cas.Store.Stored
use epochs.Cas.Segment.{open_or_create_segment, find_latest_segment, file_of, append_to}
use epochs.Record.{RecordType, encode_segment_header}
use epochs.Cas.Store.{CasStore}
use epochs.Disk
use epochs.Disk.Branches
use epochs.Disk.{DiskStore}
use epochs.Hash.{IsHash, zero_hash, to_hex}
use epochs.Index
use epochs.Lru
use epochs.Outcome.{ok}
use epochs.Repo
use epochs.Repo.ReadBack
use epochs.Repo.{Repo, Branch, newline}
use epochs.Tests.Digest.{digest}
use epochs.Text.{codes}

-- A repository with one branch.
abbrev one_branch : Repo
one_branch = record {
  files = (codes "main", to_hex zero_hash ++ newline) ∷ [];
  dirs = [];
  head_file = some (codes "ref: refs/heads/main" ++ newline);
  has_data = true;
  head = some (codes "main");
}

abbrev objects : CasStore
objects = record {
  segments = [];
  index = record {
    file = [];
    entries = (zero_hash, record { segment_id = 0; offset = 16; record_len = 45 }) ∷ [];
  };
  current_segment_id = 0;
  buffer = [];
  current_offset = 61;
  dirty = false;
  write_cache = Lru.new 4;
  segment_maps = [];
  mmap_cap = 4;
}

abbrev disk : DiskStore
disk = record {
  repo = one_branch;
  cas = objects;
  commit_cache = Lru.new 4;
  fsync_every = 1;
  commits_since_fsync = 0;
  next_millis = 0;
}

disk-BranchesStored : Branches.BranchesStored disk
unfolding Branches.BranchesStored Branches.IsRef Store.contains Index.contains Assoc.contains_key
    bytes_eq
disk-BranchesStored = ((zero_hash, refl, refl), tt)

zero_hash-IsHash : IsHash zero_hash
zero_hash-IsHash = (refl, omega arith)

dev_is_created : (Repo.create_branch (codes "dev") zero_hash one_branch).0 ≡ ok tt
unfolding Repo.create_branch Repo.write_branch Repo.exists Repo.parents Repo.branch_ref_path
    Repo.is_dir_name Repo.is_dir Repo.mem Assoc.contains_key bytes_eq
dev_is_created = refl

-- A second branch beside the first.
abbrev two_branches : Repo
two_branches = record one_branch {
  files = (codes "dev", codes "x") ∷ (codes "main", to_hex zero_hash ++ newline) ∷ [];
}

main_is_moved : (Repo.update_branch (codes "./main") zero_hash two_branches).0 ≡ ok tt
unfolding Repo.update_branch Repo.write_branch Repo.exists Repo.parents Repo.branch_ref_path
    Repo.is_dir_name Repo.is_dir Repo.mem Assoc.contains_key bytes_eq
main_is_moved = refl

dev_has_a_file : Repo.ref_file two_branches (codes "dev") ≡ some (codes "x")
unfolding Repo.ref_file Repo.branch_ref_path Repo.is_dir_name Assoc.get bytes_eq
dev_has_a_file = refl

main_is_not_dev :
    bytes_eq (Repo.branch_ref_path (codes "./main")) (Repo.branch_ref_path (codes "dev")) ≡ false
unfolding bytes_eq Repo.branch_ref_path
main_is_not_dev = refl

-- A store that is opened where there are no files.
abbrev fresh : CasStore
fresh = record {
  segments = (0, encode_segment_header 0 0) ∷ [];
  index = record { file = []; entries = [] };
  current_segment_id = 0;
  buffer = [];
  current_offset = 16;
  dirty = false;
  write_cache = Lru.new Store.write_cache_cap;
  segment_maps = [];
  mmap_cap = 4;
}

fresh_is_opened : Store.open_store 0 [] [] ≡ ok fresh
unfolding Store.open_store Index.open_index open_or_create_segment find_latest_segment file_of
    append_to
fresh_is_opened = refl

x_is_new : Store.contains fresh (digest.of_bytes (codes "x")) ≡ false
unfolding Store.contains Index.contains Assoc.contains_key
x_is_new = refl

x_is_written :
    (Store.put (λ n. n) digest RecordType.commit (codes "x") fresh).0
    ≡ ok (digest.of_bytes (codes "x"))
unfolding Store.put Store.ensure_segment_capacity Store.append_record Index.contains
    Assoc.contains_key
x_is_written = refl

-- The theorems at these inputs.
put-get_payload_example :
    (digest.of_bytes (codes "x") ≡ digest.of_bytes (codes "x"))
    × Appending.IsAppending (Store.put (λ n. n) digest RecordType.commit (codes "x") fresh).1
    × ((Store.get_payload digest (digest.of_bytes (codes "x")) (
          Store.set_object_cache_cap 1
            (Store.put (λ n. n) digest RecordType.commit (codes "x") fresh).1)).0
        ≡ ok (RecordType.commit, codes "x"))
put-get_payload_example =
    Stored.put-get_payload (λ n. n) digest RecordType.commit (codes "x") 1
      (digest.of_bytes (codes "x")) fresh
      (Appending.open_store-IsAppending 0 [] [] fresh fresh_is_opened) (omega arith) (omega arith)
      x_is_new x_is_written

create_branch-read_example :
    Repo.read_branch (Repo.create_branch (codes "dev") zero_hash one_branch).1 (codes "dev")
    ≡ ok (record { name = codes "dev"; target = zero_hash })
create_branch-read_example =
    ReadBack.create_branch-read (codes "dev") zero_hash one_branch zero_hash-IsHash dev_is_created

update_branch-read_example :
    (Repo.read_branch
        (Repo.update_branch (codes "./main") zero_hash two_branches).1
        (codes "./main")
      ≡ ok (record { name = codes "./main"; target = zero_hash }))
    × (Repo.read_branch (Repo.update_branch (codes "./main") zero_hash two_branches).1 (codes "dev")
        ≡ Repo.read_branch two_branches (codes "dev"))
update_branch-read_example =
    ReadBack.update_branch-read (codes "./main") zero_hash (codes "dev") (codes "x") two_branches
      zero_hash-IsHash main_is_not_dev dev_has_a_file main_is_moved

branch_operations-BranchesStored_example :
    Branches.BranchesStored (Disk.create_branch (λ n. n) digest (codes "dev") zero_hash disk).1
    × Branches.BranchesStored (Disk.update_branch (λ n. n) digest (codes "dev") zero_hash disk).1
    × Branches.BranchesStored (Disk.delete_branch (λ n. n) digest (codes "dev") disk).1
    × Branches.BranchesStored (Disk.set_head (λ n. n) digest (codes "dev") disk).1
branch_operations-BranchesStored_example =
    Branches.branch_operations-BranchesStored (λ n. n) digest (codes "dev") zero_hash disk
      disk-BranchesStored
