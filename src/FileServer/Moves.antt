-- ===== src/FileServer/Moves.antt =====
-- TrashFile of internal/fileserver/fileserver.go, and what RestoreFile shares with it. `makes` is what
-- os.MkdirAll answers for a path, `moves` what os.Rename answers for two. A failure to unlink from a
-- parent is only logged.
use distributed_virtual_file.Prelude.{
  ℕ, zero, suc, String, Bool, false, Option, none, some, List, [], ◌∷◌, if◌then◌else◌, ◌==◌,
  string_eq, nat_eq,
}
use distributed_virtual_file.GoMap.{keys, get, insert}
use distributed_virtual_file.GoText.{concat, decimal}
use distributed_virtual_file.GoPath.{join, rel}
use distributed_virtual_file.InodeStore.{rename_prefix}
use distributed_virtual_file.FileServer.{
  Fid, fid_eq, is_directory, Inode, Inodes, FileServer, TrashEntry, Result, ok, err, get_inode,
  modify,
}
use distributed_virtual_file.FileServer.Tree.{validate_delete, DeleteError}
use distributed_virtual_file.FileServer.Sharing.{Notice}
use distributed_virtual_file.FileServer.Snapshots.{collect_snapshots, detach}
use distributed_virtual_file.FileServer.Trash.{
  TrashError, get_or_create_trash_dir, is_trash_dir_for_user, is_parent, name_exists, add_child,
}
use distributed_virtual_file.FileServer.Deletion.{remove_from_parent}

pub data MoveError : Type 0 where
  no_fid file_missing user_root trash_directory already_in_trash not_in_trash no_metadata :
      MoveError
  no_access no_target not_a_directory rename_failed : MoveError
  invalid : DeleteError → MoveError
  no_trash : TrashError → MoveError

abbrev pub Moved : Type 0
Moved = Result MoveError String × FileServer × List Notice

-- uniqueNameInDirLocked: the second name is not looked up.
unfoldable pub unique_name : Inode → String → ℕ → FileServer → String
unique_name dir desired inode_id fs =
    if name_exists dir desired fs
    then concat desired (concat "__" (decimal 20 inode_id))
    else desired

abbrev pub at_path : String → Inode → Inode
at_path path x = record x { os_path = path }

unfoldable pub update_children :
    (Fid → String → Inodes → Inodes) → String → List Fid → Inodes → Inodes
update_children update path [] m = m
update_children update path (c ∷ cs) m = elim (get c m) [
  | none ↦ update_children update path cs m
  | some x ↦ update_children update path cs (update c (join path x.name) m)
]

-- updateSubtreePathsLocked, on fuel for the nesting of the calls.
unfoldable pub update_paths : ℕ → Fid → String → Inodes → Inodes
update_paths zero fid path m = modify fid (at_path path) m
update_paths (suc fuel) fid path m =
    let here = modify fid (at_path path) m in
    elim (get fid here) [
      | none ↦ here
      | some x ↦
          let below = update_children (update_paths fuel) path x.children here in
          if is_directory x.kind then below else here
    ]

abbrev pub rel_or_empty : String → String → String
rel_or_empty root_dir path = elim (rel root_dir path) [ none ↦ "" | some p ↦ p ]

abbrev pub placed : Fid → String → Inode → Inode
placed parent name x = record x { name = name; parent = some parent }

-- What TrashFile and RestoreFile share: out of one directory, into another.
unfoldable pub relink : ℕ → Inode → Inode → String → String → Inodes → Inodes
relink fuel x target name path m = update_paths fuel x.fid path (
    modify target.fid (add_child x.fid)
      (modify x.fid (placed target.fid name) (remove_from_parent x m)))

-- The loop of RenamePrefix visits the paths that the index holds. Go may also visit those that the loop
-- writes; they start with the new path, which in a move to the trash or out of it does not lie below
-- the old one, so a visit leaves them as they are.
unfoldable pub reindex : String → String → FileServer → FileServer
reindex old_rel new_path fs = if old_rel == "" then fs else elim (rel fs.root_dir new_path) [
  | none ↦ fs
  | some new_rel ↦ record fs {
    inode_store = rename_prefix old_rel new_rel (keys fs.inode_store.path_to_id) fs.inode_store;
  }
]

unfoldable pub move_to_trash :
    (String → String → Bool) → ℕ → String → Inode → Inode → FileServer → Moved
move_to_trash moves fuel user x trash fs =
    let name = unique_name trash x.name x.fid.inode_id fs in
    let path = join trash.os_path name in
    let old_rel = rel_or_empty fs.root_dir x.os_path in
    let snapshots = collect_snapshots old_rel fs.shared in
    let detached = detach user snapshots fs in
    let entry : TrashEntry = record {
      original_parent = x.parent;
      original_name = x.name;
      original_rel_path = old_rel;
      shared_snapshots = snapshots;
    } in
    let linked = record detached.0 {
      trash_meta = insert x.fid entry detached.0.trash_meta;
      inodes = relink fuel x trash name path detached.0.inodes;
    } in
    if moves x.os_path path
    then (ok name, reindex old_rel path linked, detached.1)
    else (err rename_failed, fs, [])

unfoldable pub trash_checked :
    (String → Bool) → (String → String → Bool) → ℕ → String → Inode → FileServer → Moved
trash_checked makes moves fuel user x fs =
    let trash = get_or_create_trash_dir makes user fs in
    elim trash.0 [
      | err e ↦ (err (no_trash e), trash.1, [])
      | ok dir ↦
          if is_parent x.parent dir.fid
          then (err already_in_trash, trash.1, [])
          else move_to_trash moves fuel user x dir trash.1
    ]

unfoldable pub trash_found :
    (String → Bool)
    → (String → String → Bool)
    → ℕ
    → Fid
    → String
    → Bool
    → Option Inode
    → FileServer
    → Moved
trash_found makes moves fuel fid user recursive none fs = (err file_missing, fs, [])
trash_found makes moves fuel fid user recursive (some x) fs =
    let is_root : Bool = elim (get user fs.users) [ none ↦ false | some r ↦ r == fid ] in
    if is_root
    then (err user_root, fs, [])
    else if is_trash_dir_for_user x user fs
    then (err trash_directory, fs, [])
    else elim (validate_delete fuel fs.inodes user recursive x) [
      | some e ↦ (err (invalid e), fs, [])
      | none ↦ trash_checked makes moves fuel user x fs
    ]

-- TrashFile
unfoldable pub trash_file :
    (String → Option ℕ)
    → (String → Bool)
    → (String → String → Bool)
    → ℕ
    → Option Fid
    → String
    → Bool
    → FileServer
    → Moved
trash_file stat makes moves fuel none user recursive fs = (err no_fid, fs, [])
trash_file stat makes moves fuel (some fid) user recursive fs =
    let found = get_inode stat fid fs in
    trash_found makes moves fuel fid user recursive found.0 found.1
