-- ===== src/FileServer/Roots.antt =====
-- GetUserRoot of internal/fileserver/fileserver.go. `makes` is what os.MkdirAll answers for a path, and
-- `load_acl` what LoadACL finds for a user, none if it fails.
use distributed_virtual_file.Prelude.{
  ℕ, String, Bool, not, ◌||◌, Option, none, some, List, [], ◌∷◌, if◌then◌else◌, ◌==◌, string_eq,
}
use distributed_virtual_file.GoMap.{get, insert}
use distributed_virtual_file.GoText.{trim_prefix}
use distributed_virtual_file.GoPath.{join}
use distributed_virtual_file.FileServer.{
  Fid, fid_eq, is_directory, directory, Acl, Inode, FileServer, Result, ok, err, get_inode,
  child_by_name,
}
use distributed_virtual_file.FileServer.Trash.{TrashError, assign_fid, get_or_create_trash_dir}
use distributed_virtual_file.FileServer.Navigation.{segments}

pub data RootError : Type 0 where
  mkdir_failed acl_failed traversal_failed component_not_a_directory component_not_found : RootError
  no_trash : TrashError → RootError

-- A new root, which is its own parent.
unfoldable pub root_inode : Fid → String → String → Acl → Inode
root_inode fid user os_path acl = record {
  fid = fid;
  kind = directory;
  name = user;
  os_path = os_path;
  acl = acl;
  children = [];
  size = 0;
  parent = some fid;
}

-- The number is taken from the inode store before the ACL is read.
unfoldable pub create_root :
    (String → Bool)
    → (String → Option Acl)
    → String
    → FileServer
    → Result RootError Fid × FileServer
create_root makes load_acl user fs =
    let user_dir = join fs.root_dir user in
    let assigned = assign_fid user fs in
    if not (makes user_dir) then (err mkdir_failed, fs) else elim (load_acl user) [
      | none ↦ (err acl_failed, assigned.1)
      | some acl ↦ (
        ok assigned.0,
        record assigned.1 {
          inodes = insert assigned.0 (root_inode assigned.0 user user_dir acl) assigned.1.inodes;
          users = insert user assigned.0 assigned.1.users;
        },
      )
    ]

unfoldable pub get_or_create_root :
    (String → Bool)
    → (String → Option Acl)
    → String
    → FileServer
    → Result RootError Fid × FileServer
get_or_create_root makes load_acl user fs = elim (get user fs.users) [
  | some root_fid ↦ (ok root_fid, fs)
  | none ↦ create_root makes load_acl user fs
]

-- One step of the traversal, from the inode that GetInode returned.
unfoldable pub descend : String → Option Inode → FileServer → Result RootError Fid
descend component none fs = err traversal_failed
descend component (some x) fs =
    if not (is_directory x.kind)
    then err component_not_a_directory
    else elim (child_by_name component x.children fs.inodes) [
      | none ↦ err component_not_found
      | some c ↦ ok c.fid
    ]

unfoldable pub traverse :
    (String → Option ℕ) → List String → Fid → FileServer → Result RootError Fid × FileServer
traverse stat [] fid fs = (ok fid, fs)
traverse stat (component ∷ components) fid fs =
    let stay = traverse stat components fid fs in
    let found = get_inode stat fid fs in
    if component == "" || component == "." then stay else elim (descend component found.0 found.1) [
      | err e ↦ (err e, found.1)
      | ok child ↦ traverse stat components child found.1
    ]

abbrev pub without_first : String → List String → List String
without_first user [] = []
without_first user (c ∷ cs) = if c == user then cs else c ∷ cs

unfoldable pub open_root :
    (String → Option ℕ)
    → (String → Bool)
    → String
    → String
    → Fid
    → FileServer
    → Result RootError Fid × FileServer
open_root stat makes root_path user root_fid fs =
    let trash = get_or_create_trash_dir makes user fs in
    elim trash.0 [
      | err e ↦ (err (no_trash e), trash.1)
      | ok dir ↦
          if root_path == user
          then (ok root_fid, trash.1)
          else traverse stat (without_first user (segments (trim_prefix "/" root_path))) root_fid
              trash.1
    ]

-- GetUserRoot
unfoldable pub get_user_root :
    (String → Option ℕ)
    → (String → Bool)
    → (String → Option Acl)
    → String
    → String
    → FileServer
    → Result RootError Fid × FileServer
get_user_root stat makes load_acl root_path user fs =
    let root = get_or_create_root makes load_acl user fs in
    elim root.0 [
      | err e ↦ (err e, root.1)
      | ok root_fid ↦ open_root stat makes root_path user root_fid root.1
    ]
