-- ===== src/InodeStore.antt =====
-- internal/fileserver/inodestore.go: the numbers of the inodes, by path. Loading and saving the JSON
-- file is left out; the counter is a uint64.
pub mod Unique
pub mod Examples
use distributed_virtual_file.Prelude.{
  ℕ, ◌+◌, ◌%◌, ◌^◌, String, Bool, true, false, not, ◌||◌, Option, none, some, List, [], ◌∷◌,
  if◌then◌else◌, ◌==◌, string_eq,
}
use distributed_virtual_file.GoMap.{GoMap, get, insert, delete}
use distributed_virtual_file.GoText.{
  chars, from_chars, forward_slashes, concat, strip_prefix, trim_prefix,
}
use distributed_virtual_file.GoPath.{clean}

pub record InodeStore : Type 0 where
  pub next_inode_id : ℕ
  pub path_to_id : GoMap String ℕ

-- NewInodeStore without an index file.
abbrev pub new_inode_store : InodeStore
new_inode_store = record { next_inode_id = 0; path_to_id = [] }

unfoldable pub normalize_path : String → String
normalize_path p =
    trim_prefix "/" (trim_prefix "./" (clean (from_chars (forward_slashes (chars p)))))

-- The slot of a path that is normalised.
unfoldable pub assign : String → InodeStore → ℕ × InodeStore
assign norm s = elim (get norm s.path_to_id) [
  | some id ↦ (id, s)
  | none ↦ (
    s.next_inode_id,
    record {
      next_inode_id = (s.next_inode_id + 1) % 2 ^ 64;
      path_to_id = insert norm s.next_inode_id s.path_to_id;
    },
  )
]

unfoldable pub get_or_assign : String → InodeStore → ℕ × InodeStore
get_or_assign rel_path s = assign (normalize_path rel_path) s

unfoldable pub get_id : String → InodeStore → Option ℕ
get_id rel_path s = get (normalize_path rel_path) s.path_to_id

unfoldable pub remove : String → InodeStore → InodeStore
remove rel_path s = record s { path_to_id = delete (normalize_path rel_path) s.path_to_id }

unfoldable pub renamed : String → String → String → Option String
renamed old new path = if path == old then some new else elim (strip_prefix (concat old "/") path) [
  | none ↦ none
  | some suffix ↦ some (concat new (concat "/" suffix))
]

move_entry : String → String → Option ℕ → GoMap String ℕ → GoMap String ℕ
move_entry path target none m = m
move_entry path target (some id) m = insert target id (delete path m)

-- One turn of the loop of RenamePrefix. A path that the map does not hold is not moved.
unfoldable pub rename_path : String → String → String → GoMap String ℕ → GoMap String ℕ
unfolding move_entry
rename_path old new path m = elim (renamed old new path) [
  | none ↦ m
  | some target ↦ move_entry path target (get path m) m
]

unfoldable pub rename_paths : String → String → List String → GoMap String ℕ → GoMap String ℕ
rename_paths old new [] m = m
rename_paths old new (p ∷ ps) m = rename_paths old new ps (rename_path old new p m)

-- The paths that `range` visits are an argument: those that the map held when the loop began, in some
-- order, and any of those that the loop writes.
unfoldable pub rename_prefix : String → String → List String → InodeStore → InodeStore
rename_prefix old_prefix new_prefix visits s =
    let old = normalize_path old_prefix in
    let new = normalize_path new_prefix in
    if old == "" || new == "" || old == new
    then s
    else record s { path_to_id = rename_paths old new visits s.path_to_id }
