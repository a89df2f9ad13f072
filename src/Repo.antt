-- ===== src/Repo.antt =====
-- epochs-core/src/repo/manifest.rs and branch.rs: branch refs and HEAD. A repository is what its
-- directory holds: the files below `refs/heads` with the directories between, the file `HEAD`, and
-- whether there is a `data` directory. Files and directories go by their paths from `refs/heads`; a
-- branch name is joined to that directory, which is taken to be there, as a path. Names that start
-- with `/` or have a `..` part or a zero byte are not modelled.
pub mod RefPath
pub mod ReadBack
pub mod Refs
use epochs.Common.{
  ℕ, List, [], ◌∷◌, ◌++◌, Bool, true, false, Option, none, some, not, ◌||◌, ◌&&◌, ◌==◌,
  if◌then◌else◌, bytes_eq, drop, length,
}
use epochs.Assoc
use epochs.Assoc.{bytes_lt}
use epochs.Codec.{Bytes}
use epochs.Hash.{Hash, from_hex, to_hex}
use epochs.Outcome.Action.{Action}
use epochs.Outcome.{Result, ok, err, ◌>>=◌, EpochsError, Message}
unfoldable pub use epochs.Repo.RefPath.{branch_ref_path, is_dir_name}
use epochs.Text.{codes, is_utf8, starts_with}

pub record Branch : Type 0 where
  pub name : Bytes
  pub target : Hash

pub record Repo : Type 0 where
  pub files : List (Bytes × Bytes)
  pub dirs : List Bytes
  pub head_file : Option Bytes
  pub has_data : Bool
  pub head : Option Bytes

abbrev pub ref_prefix : Bytes
ref_prefix = codes "ref: refs/heads/"

abbrev pub newline : Bytes
newline = 10 ∷ []

unfoldable pub mem : Bytes → List Bytes → Bool
mem k [] = false
mem k (j ∷ js) = bytes_eq j k || mem k js

-- White space, as far as it is ASCII: what `trim` takes off.
is_space : ℕ → Bool
is_space b = b == 32 || b == 9 || b == 10 || b == 11 || b == 12 || b == 13

trim_start : Bytes → Bytes
trim_start [] = []
trim_start (b ∷ bs) = if is_space b then trim_start bs else b ∷ bs

trim_end : Bytes → Bytes
trim_end [] = []
trim_end (b ∷ bs) = add (trim_end bs)
  where
    add : Bytes → Bytes
    add [] = if is_space b then [] else b ∷ []
    add (c ∷ cs) = b ∷ c ∷ cs

unfoldable pub trim : Bytes → Bytes
unfolding trim_start trim_end is_space
trim s = trim_end (trim_start s)

-- `parse_head`: what `read_head` makes of the contents of `HEAD`.
unfoldable pub parse_head : Bytes → Option Bytes
parse_head contents =
    let line = trim contents in
    if starts_with line ref_prefix then some (drop (length ref_prefix) line) else none

unfoldable pub read_head : Repo → Result (Option Bytes)
read_head r = elim r.head_file [
  | none ↦ ok none
  | some contents ↦
      if is_utf8 contents then ok (parse_head contents) else err (EpochsError.io Message.os_error)
]

-- `Repo::init` on a directory; a HEAD that is there stays, and the value in memory is `main`.
unfoldable pub init : Repo → Repo
init r = record r {
  has_data = true;
  head_file = elim r.head_file [
    | none ↦ some (codes "ref: refs/heads/main" ++ newline)
    | some contents ↦ some contents
  ];
  head = some (codes "main");
}

unfoldable pub open_repo : Repo → Result Repo
open_repo r =
    if not r.has_data
    then err (EpochsError.io Message.not_a_repository)
    else read_head r >>= λ head. ok (record r { head = head })

unfoldable pub head_branch : Repo → Option Bytes
head_branch r = r.head

-- The contents of the file of a branch, if it is there.
unfoldable pub ref_file : Repo → Bytes → Option Bytes
ref_file r name = if is_dir_name name then none else Assoc.get (branch_ref_path name) r.files

unfoldable pub is_dir : Repo → Bytes → Bool
unfolding mem
is_dir r path = length path == 0 || mem path r.dirs

-- `branch_ref_path(name).exists()`: a file or a directory.
unfoldable pub exists : Repo → Bytes → Bool
exists r name =
    is_dir r (branch_ref_path name)
    || (not (is_dir_name name) && Assoc.contains_key (branch_ref_path name) r.files)

unfoldable pub set_head : Bytes → Action Repo (Unit {0})
set_head branch r =
    if not (exists r branch) then (err (EpochsError.branch_not_found branch), r) else (
      ok tt,
      record r { head_file = some (ref_prefix ++ (branch ++ newline)); head = some branch },
    )

parse_ref : Bytes → Bytes → Result Branch
parse_ref name contents =
    if is_utf8 contents
    then (from_hex (trim contents) >>= λ target. ok (record { name = name; target = target }))
    else err (EpochsError.io Message.os_error)

-- Reading a directory is an error of the operating system.
unfoldable pub read_branch : Repo → Bytes → Result Branch
unfolding parse_ref
read_branch r name =
    if not (exists r name)
    then err (EpochsError.branch_not_found name)
    else elim (ref_file r name) [
      | none ↦ err (EpochsError.io Message.os_error)
      | some contents ↦ parse_ref name contents
    ]

-- The directories above a path, `seen` being the part before what is left.
parents_from : Bytes → Bytes → List Bytes
parents_from seen [] = []
parents_from seen (b ∷ bs) =
    let rest = parents_from (seen ++ b ∷ []) bs in if b == b'/' then seen ∷ rest else rest

unfoldable pub parents : Bytes → List Bytes
unfolding parents_from
parents = parents_from []

any_file : List Bytes → List (Bytes × Bytes) → Bool
any_file [] files = false
any_file (d ∷ ds) files = Assoc.contains_key d files || any_file ds files

-- `create_dir_all` fails on a file in the way, and `fs::write` on a directory.
unfoldable pub write_branch : Bytes → Hash → Action Repo (Unit {0})
unfolding any_file
write_branch name target r =
    let path = branch_ref_path name in
    let ds = parents path in
    if any_file ds r.files
    then (err (EpochsError.io Message.os_error), r)
    else let r' = record r { dirs = ds ++ r.dirs } in
      if is_dir_name name || is_dir r' path
      then (err (EpochsError.io Message.os_error), r')
      else (ok tt, record r' { files = Assoc.insert path (to_hex target ++ newline) r'.files })

unfoldable pub create_branch : Bytes → Hash → Action Repo (Unit {0})
create_branch name target r =
    if exists r name then (err (EpochsError.branch_exists name), r) else write_branch name target r

unfoldable pub update_branch : Bytes → Hash → Action Repo (Unit {0})
update_branch name target r =
    if not (exists r name)
    then (err (EpochsError.branch_not_found name), r)
    else write_branch name target r

is_head : Option Bytes → Bytes → Bool
is_head none name = false
is_head (some head) name = bytes_eq head name

unfoldable pub delete_branch : Bytes → Action Repo (Unit {0})
unfolding is_head
delete_branch name r =
    if is_head r.head name
    then (err (EpochsError.invalid_target (Message.cannot_delete_head name)), r)
    else if not (exists r name)
    then (err (EpochsError.branch_not_found name), r)
    else if is_dir_name name || is_dir r (branch_ref_path name)
    then (err (EpochsError.io Message.os_error), r)
    else (ok tt, record r { files = Assoc.remove (branch_ref_path name) r.files })

has_slash : Bytes → Bool
has_slash [] = false
has_slash (b ∷ bs) = b == b'/' || has_slash bs

-- `read_dir` shows what stands in `refs/heads` itself, and of that the code takes the files.
top_files : List (Bytes × Bytes) → List Bytes
unfolding has_slash
top_files [] = []
top_files ((name, contents) ∷ files) =
    let rest = top_files files in if has_slash name then rest else name ∷ rest

insert_name : Bytes → List Bytes → List Bytes
insert_name n [] = n ∷ []
insert_name n (m ∷ ms) =
    let rest = insert_name n ms in if bytes_lt m n then m ∷ rest else n ∷ m ∷ ms

sort_names : List Bytes → List Bytes
sort_names [] = []
sort_names (n ∷ ns) = insert_name n (sort_names ns)

unfoldable pub list_branches : Repo → List Bytes
unfolding top_files sort_names insert_name
list_branches r = sort_names (top_files r.files)
