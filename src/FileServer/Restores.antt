-- ===== src/FileServer/Restores.antt =====
-- RestoreFile and ShowTrash of internal/fileserver/fileserver.go, with the parameters of TrashFile.
use distributed_virtual_file.Prelude.{
  ℕ, String, Bool, false, not, ◌||◌, Option, none, some, List, [], ◌∷◌, if◌then◌else◌, ◌==◌,
  string_eq, nat_eq, precedes, keep, is_empty,
}
use distributed_virtual_file.GoMap.{get, delete}
use distributed_virtual_file.GoPath.{join, rel}
use distributed_virtual_file.FileServer.{
  Fid, fid_eq, is_directory, Inode, FileServer, TrashEntry, Result, ok, err, get_inode,
  user_can_access_inode,
}
use distributed_virtual_file.FileServer.Sharing.{Notice}
use distributed_virtual_file.FileServer.Snapshots.{reattach}
use distributed_virtual_file.FileServer.Trash.{
  TrashError, get_or_create_trash_dir, is_parent, root_of,
}
use distributed_virtual_file.FileServer.Navigation.{list_children}
use distributed_virtual_file.FileServer.Moves.{
  MoveError, no_fid, file_missing, no_access, no_target, not_a_directory, rename_failed,
  not_in_trash, no_metadata, no_trash, Moved, unique_name, rel_or_empty, relink, reindex,
}

-- userCanAccessInode, the function
unfoldable pub can_restore : Inode → String → Bool
can_restore x user = if user == "" then false else user_can_access_inode x user

-- The directory to restore to: the original parent, or the root of the user.
unfoldable pub restore_target : Option Fid → String → FileServer → Result MoveError Inode
restore_target parent user fs =
    let root : Result MoveError Inode = elim (root_of user fs) [
      | err e ↦ err no_target
      | ok r ↦ ok r
    ] in
    elim parent [
      | none ↦ root
      | some p ↦ elim (get p fs.inodes) [ none ↦ root | some dir ↦ ok dir ]
    ]

unfoldable pub restore_shares : String → TrashEntry → String → FileServer → FileServer × List Notice
restore_shares user meta path fs =
    let new_rel : String = elim (rel fs.root_dir path) [
      | none ↦ meta.original_rel_path
      | some p ↦ p
    ] in
    let attached = reattach user meta.original_rel_path new_rel meta.shared_snapshots fs in
    if is_empty meta.shared_snapshots || meta.original_rel_path == "" then (fs, []) else attached

unfoldable pub move_back :
    (String → String → Bool) → ℕ → String → Inode → TrashEntry → Inode → FileServer → Moved
move_back moves fuel user x meta target fs =
    let name = unique_name target meta.original_name x.fid.inode_id fs in
    let path = join target.os_path name in
    let old_rel = rel_or_empty fs.root_dir x.os_path in
    let linked = record fs { inodes = relink fuel x target name path fs.inodes } in
    let shared = restore_shares user meta path (reindex old_rel path linked) in
    if not (is_directory target.kind)
    then (err not_a_directory, fs, [])
    else if moves x.os_path path
    then (ok name, record shared.0 { trash_meta = delete x.fid shared.0.trash_meta }, shared.1)
    else (err rename_failed, fs, [])

unfoldable pub restore_entry :
    (String → String → Bool) → ℕ → String → Inode → Option TrashEntry → FileServer → Moved
restore_entry moves fuel user x none fs = (err no_metadata, fs, [])
restore_entry moves fuel user x (some meta) fs =
    elim (restore_target meta.original_parent user fs) [
      | err e ↦ (err e, fs, [])
      | ok target ↦ move_back moves fuel user x meta target fs
    ]

unfoldable pub restore_found :
    (String → Bool)
    → (String → String → Bool)
    → ℕ
    → Fid
    → String
    → String
    → Option Inode
    → FileServer
    → Moved
restore_found makes moves fuel fid user requester none fs = (err file_missing, fs, [])
restore_found makes moves fuel fid user requester (some x) fs =
    let trash = get_or_create_trash_dir makes user fs in
    if not (can_restore x requester) then (err no_access, fs, []) else elim trash.0 [
      | err e ↦ (err (no_trash e), trash.1, [])
      | ok dir ↦
          if is_parent x.parent dir.fid
          then restore_entry moves fuel user x (get fid trash.1.trash_meta) trash.1
          else (err not_in_trash, trash.1, [])
    ]

-- RestoreFile
unfoldable pub restore_file :
    (String → Option ℕ)
    → (String → Bool)
    → (String → String → Bool)
    → ℕ
    → Option Fid
    → String
    → String
    → FileServer
    → Moved
restore_file stat makes moves fuel none user requester fs = (err no_fid, fs, [])
restore_file stat makes moves fuel (some fid) user requester fs =
    let found = get_inode stat fid fs in
    restore_found makes moves fuel fid user (if requester == "" then user else requester) found.0
      found.1

-- sort.Slice by name; entries of one name keep their order here, which the code does not promise.
unfoldable pub place_entry : Inode → List Inode → List Inode
place_entry x [] = x ∷ []
place_entry x (y ∷ ys) =
    let rest = place_entry x ys in if precedes y.name x.name then y ∷ rest else x ∷ y ∷ ys

unfoldable pub sort_entries : List Inode → List Inode
sort_entries [] = []
sort_entries (x ∷ xs) = place_entry x (sort_entries xs)

-- ShowTrash
unfoldable pub show_trash :
    (String → Option ℕ)
    → (String → Bool)
    → String
    → String
    → FileServer
    → Result TrashError (List Inode) × FileServer
show_trash stat makes user requester fs =
    let asker = if requester == "" then user else requester in
    let trash = get_or_create_trash_dir makes user fs in
    elim trash.0 [
      | err e ↦ (err e, trash.1)
      | ok dir ↦
          let listed = list_children stat dir.children trash.1 in
          (ok (sort_entries (keep (λ x. can_restore x asker) listed.0)), listed.1)
    ]
