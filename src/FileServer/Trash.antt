-- ===== src/FileServer/Trash.antt =====
-- The trash of internal/fileserver/fileserver.go: a directory of the user's root, its creation, and
-- who lies in it. `makes` is what os.MkdirAll answers for a path; a write of the inode index that
-- fails is ignored by the code and left out.
use distributed_virtual_file.Prelude.{
  ℕ, zero, suc, String, Bool, true, false, Option, none, some, [], ◌∷◌, ◌++◌, if◌then◌else◌, ◌==◌,
  string_eq, ◌&&◌, any,
}
use distributed_virtual_file.GoMap.{get, insert}
use distributed_virtual_file.GoText.{chars, from_chars, split_slashes}
use distributed_virtual_file.GoPath.{join}
use distributed_virtual_file.InodeStore.{get_or_assign}
use distributed_virtual_file.FileServer.{
  Fid, fid_eq, directory, is_directory, Inode, Inodes, FileServer, Result, ok, err, modify,
  child_by_name,
}
use distributed_virtual_file.FileServer.Quota.{next}

abbrev pub trash_dir_name : String
trash_dir_name = ".trash"

-- The FID that the inode store gives to a path.
unfoldable pub assign_fid : String → FileServer → Fid × FileServer
assign_fid rel_path fs =
    let assigned = get_or_assign rel_path fs.inode_store in
    (
      record { file_server_id = fs.server_id; inode_id = assigned.0; generation_number = 1 },
      record fs { inode_store = assigned.1 },
    )

unfoldable pub add_child : Fid → Inode → Inode
add_child fid x = record x { children = x.children ++ fid ∷ [] }

-- A new inode in the map, and its FID with the parent's children.
unfoldable pub link : Fid → Inode → FileServer → FileServer
link parent_fid x fs = record fs {
  inodes = modify parent_fid (add_child x.fid) (insert x.fid x fs.inodes);
}

pub data TrashError : Type 0 where
  not_registered root_missing not_a_directory mkdir_failed : TrashError

abbrev pub new_directory : Fid → String → String → String → Option Fid → Inode
new_directory fid name os_path owner parent = record {
  fid = fid;
  kind = directory;
  name = name;
  os_path = os_path;
  acl = record { owner = owner; shared = [] };
  children = [];
  size = 0;
  parent = parent;
}

unfoldable pub create_trash_dir :
    (String → Bool) → String → Inode → FileServer → Result TrashError Inode × FileServer
create_trash_dir makes user root fs =
    let path = join root.os_path trash_dir_name in
    let assigned = assign_fid (join user trash_dir_name) fs in
    let trash = new_directory assigned.0 trash_dir_name path user (some root.fid) in
    if makes path then (ok trash, link root.fid trash assigned.1) else (err mkdir_failed, fs)

unfoldable pub trash_of_root :
    (String → Bool) → String → Inode → FileServer → Result TrashError Inode × FileServer
trash_of_root makes user root fs = elim (child_by_name trash_dir_name root.children fs.inodes) [
  | some x ↦ if is_directory x.kind then (ok x, fs) else (err not_a_directory, fs)
  | none ↦ create_trash_dir makes user root fs
]

unfoldable pub root_of : String → FileServer → Result TrashError Inode
root_of user fs = elim (get user fs.users) [
  | none ↦ err not_registered
  | some root_fid ↦ elim (get root_fid fs.inodes) [ none ↦ err root_missing | some root ↦ ok root ]
]

-- getOrCreateTrashDirLocked
unfoldable pub get_or_create_trash_dir :
    (String → Bool) → String → FileServer → Result TrashError Inode × FileServer
get_or_create_trash_dir makes user fs = elim (root_of user fs) [
  | err e ↦ (err e, fs)
  | ok root ↦ trash_of_root makes user root fs
]

abbrev pub is_parent : Option Fid → Fid → Bool
is_parent none fid = false
is_parent (some p) fid = p == fid

-- isTrashDirForUser
unfoldable pub is_trash_dir_for_user : Inode → String → FileServer → Bool
is_trash_dir_for_user x user fs = elim (root_of user fs) [
  | err e ↦ false
  | ok root ↦ x.name == trash_dir_name && is_parent x.parent root.fid
]

unfoldable pub name_exists : Inode → String → FileServer → Bool
name_exists dir name fs = elim (child_by_name name dir.children fs.inodes) [
  | none ↦ false
  | some x ↦ true
]

-- pathContainsTrashSegment
unfoldable pub path_contains_trash_segment : String → Bool
path_contains_trash_segment path =
    any (λ part. from_chars part == trash_dir_name) (split_slashes (chars path))

-- The loop of isUnderTrashLocked and isUnderRootTrashLocked, on fuel for the depth.
unfoldable pub is_under : ℕ → Fid → Fid → Inodes → Bool
is_under zero trash fid m = fid == trash
is_under (suc fuel) trash fid m =
    if fid == trash
    then true
    else elim (next fid m) [ none ↦ false | some p ↦ is_under fuel trash p m ]

unfoldable pub is_under_trash :
    (String → Bool) → ℕ → Inode → String → FileServer → Bool × FileServer
is_under_trash makes fuel x user fs =
    let found = get_or_create_trash_dir makes user fs in
    elim found.0 [
      | err e ↦ (false, found.1)
      | ok trash ↦ (is_under fuel trash.fid x.fid found.1.inodes, found.1)
    ]

unfoldable pub is_under_root_trash : ℕ → Inode → Fid → FileServer → Bool
is_under_root_trash fuel x root_fid fs = elim (get root_fid fs.inodes) [
  | none ↦ false
  | some root ↦ elim (child_by_name trash_dir_name root.children fs.inodes) [
    | none ↦ false
    | some trash ↦ is_under fuel trash.fid x.fid fs.inodes
  ]
]
