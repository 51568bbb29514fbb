-- ===== src/FileServer/Sharing.antt =====
-- Share and Unshare of internal/fileserver/fileserver.go. ACL files and .dir_shares go to the disk and
-- a failure there is only logged, so they are left out; what the metaserver is told is a list of
-- notices.
use distributed_virtual_file.Prelude.{
  ℕ, String, not, Option, none, some, List, [], ◌∷◌, ◌++◌, map, if◌then◌else◌, ◌==◌, string_eq,
  contains, keep, is_empty,
}
use distributed_virtual_file.GoMap.{GoMap, get, get_or, insert, delete}
use distributed_virtual_file.GoPath.{rel}
use distributed_virtual_file.FileServer.{
  Fid, fid_eq, Inode, FileServer, is_directory, get_inode, modify_all,
}
use distributed_virtual_file.FileServer.Tree.{collect}

pub data ShareError : Type 0 where
  inode_missing not_a_directory not_the_owner with_self already_shared not_shared : ShareError

-- RootShare and RootUnshare: owner, directory name, path and the other user.
pub data Notice : Type 0 where
  root_share root_unshare : String → String → String → String → Notice

abbrev pub Outcome : Type 0
Outcome = Option ShareError × FileServer × List Notice

abbrev pub add_user : String → List String → List String
add_user user users = if contains user users then users else users ++ user ∷ []

abbrev pub drop_user : String → List String → List String
drop_user user users = keep (λ u. not (u == user)) users

unfoldable pub grant : String → Inode → Inode
grant user x = record x {
  acl = record { owner = x.acl.owner; shared = add_user user x.acl.shared };
}

unfoldable pub revoke : String → Inode → Inode
revoke user x = record x {
  acl = record { owner = x.acl.owner; shared = drop_user user x.acl.shared };
}

abbrev pub fids : List Inode → List Fid
fids xs = map (λ (x : Inode). x.fid) xs

-- The key of a directory in fs.Shared.
unfoldable pub share_path : String → Inode → FileServer → String
share_path fallback dir fs = elim (rel fs.root_dir dir.os_path) [ none ↦ fallback | some p ↦ p ]

unfoldable pub share_inode : ℕ → String → String → Inode → FileServer → FileServer × List Notice
share_inode fuel username share_with dir fs =
    let path = share_path dir.name dir fs in
    (
      record fs {
        inodes = modify_all (fids (collect fuel fs.inodes dir)) (grant share_with) fs.inodes;
        shared = insert path (add_user share_with (get_or path [] fs.shared)) fs.shared;
      },
      root_share username dir.name path share_with ∷ [],
    )

unfoldable pub share_error : String → String → Inode → Option ShareError
share_error username share_with dir =
    if not (is_directory dir.kind)
    then some not_a_directory
    else if not (dir.acl.owner == username)
    then some not_the_owner
    else if share_with == dir.acl.owner
    then some with_self
    else if contains share_with dir.acl.shared
    then some already_shared
    else none

unfoldable pub share_found : ℕ → String → String → Option Inode → FileServer → Outcome
share_found fuel username share_with none fs = (some inode_missing, fs, [])
share_found fuel username share_with (some dir) fs = elim (share_error username share_with dir) [
  | some e ↦ (some e, fs, [])
  | none ↦ let done = share_inode fuel username share_with dir fs in (none, done.0, done.1)
]

unfoldable pub share : (String → Option ℕ) → ℕ → String → String → Fid → FileServer → Outcome
share stat fuel username share_with dir_fid fs =
    let found = get_inode stat dir_fid fs in share_found fuel username share_with found.0 found.1

-- fs.Shared without a user under a path, and without the path when nobody is left.
unfoldable pub unlist : String → String → GoMap String (List String) → GoMap String (List String)
unlist path user m = elim (get path m) [
  | none ↦ m
  | some users ↦
      let left = drop_user user users in if is_empty left then delete path m else insert path left m
]

unfoldable pub unshare_inode : ℕ → String → String → Inode → FileServer → FileServer × List Notice
unshare_inode fuel username unshare_with dir fs = (
  record fs {
    inodes = modify_all (fids (collect fuel fs.inodes dir)) (revoke unshare_with) fs.inodes;
    shared = unlist (share_path dir.name dir fs) unshare_with fs.shared;
  },
  root_unshare username dir.name (share_path "" dir fs) unshare_with ∷ [],
)

unfoldable pub unshare_error : String → String → Inode → Option ShareError
unshare_error username unshare_with dir =
    if not (dir.acl.owner == username)
    then some not_the_owner
    else if unshare_with == dir.acl.owner
    then some with_self
    else if not (contains unshare_with dir.acl.shared)
    then some not_shared
    else none

unfoldable pub unshare_found : ℕ → String → String → Option Inode → FileServer → Outcome
unshare_found fuel username unshare_with none fs = (some inode_missing, fs, [])
unshare_found fuel username unshare_with (some dir) fs =
    elim (unshare_error username unshare_with dir) [
      | some e ↦ (some e, fs, [])
      | none ↦ let done = unshare_inode fuel username unshare_with dir fs in (none, done.0, done.1)
    ]

unfoldable pub unshare : (String → Option ℕ) → ℕ → String → String → Fid → FileServer → Outcome
unshare stat fuel username unshare_with dir_fid fs =
    let found = get_inode stat dir_fid fs in
    unshare_found fuel username unshare_with found.0 found.1
