-- ===== src/Repo/RefPath.antt =====
-- epochs-core/src/repo/manifest.rs: the path of a branch ref below `refs/heads`.
use epochs.Common.{ℕ, List, [], ◌∷◌, ◌++◌, Bool, true, ◌||◌, ◌==◌, if◌then◌else◌, bytes_eq, length}
use epochs.Codec.{Bytes}
use epochs.Text.{codes}

push_byte : ℕ → List Bytes → List Bytes
push_byte b [] = (b ∷ []) ∷ []
push_byte b (p ∷ ps) = (b ∷ p) ∷ ps

-- The parts of a path between its slashes.
parts : Bytes → List Bytes
parts [] = [] ∷ []
parts (b ∷ bs) = let rest = parts bs in if b == b'/' then [] ∷ rest else push_byte b rest

-- An empty part or `.` stands for the directory it is in.
stays : Bytes → Bool
stays part = length part == 0 || bytes_eq part (codes ".")

moves : List Bytes → List Bytes
moves [] = []
moves (p ∷ ps) = let rest = moves ps in if stays p then rest else p ∷ rest

join : List Bytes → Bytes
join [] = []
join (p ∷ []) = p
join (p ∷ q ∷ ps) = p ++ b'/' ∷ join (q ∷ ps)

ends_in_dir : List Bytes → Bool
ends_in_dir [] = true
ends_in_dir (p ∷ []) = stays p
ends_in_dir (p ∷ q ∷ ps) = ends_in_dir (q ∷ ps)

-- `branch_ref_path`, from `refs/heads`: the path that the operating system makes of the name, so
-- `x//y` and `x/./y` are `x/y`, and the empty name is the directory itself.
unfoldable pub branch_ref_path : Bytes → Bytes
unfolding parts push_byte stays moves join
branch_ref_path name = join (moves (parts name))

-- A name like `x/`, which is no file.
unfoldable pub is_dir_name : Bytes → Bool
unfolding parts push_byte stays ends_in_dir
is_dir_name name = ends_in_dir (parts name)
