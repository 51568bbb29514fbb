-- ===== src/FileServer.antt =====
-- internal/fileserver/fileserver.go and internal/domain/types.go: the inodes of a file server. Go keys
-- the inodes by FID.String, whose last two fields are numbers between underscores; here the FID
-- itself is the key. A parent pointer is the FID of the parent, which is looked up in the same map.
-- The disk is a parameter: `stat` is the size that os.Stat reports for a path, none if it fails.
pub mod Tree
pub mod Subtree
pub mod PostOrder
pub mod Sharing
pub mod Modify
pub mod Fids
pub mod Grants
pub mod Access
pub mod Quota
pub mod Snapshots
pub mod Trash
pub mod Files
pub mod Navigation
pub mod Deletion
pub mod Moves
pub mod Restores
pub mod Handlers
pub mod Uploads
pub mod Callbacks
pub mod Roots
pub mod Examples
use distributed_virtual_file.Prelude.{
  ℕ, String, ◌≡◌, ◌↔◌, refl, Bool, true, false, ◌&&◌, ◌||◌, Option, none, some, List, [], ◌∷◌,
  arith, if◌then◌else◌, Eq, ◌==◌, ==_iff, string_eq, nat_eq, contains,
}
use distributed_virtual_file.GoMap.{GoMap, get, insert}
use distributed_virtual_file.InodeStore.{InodeStore}

pub record Fid : Type 0 where
  pub file_server_id : String
  pub inode_id : ℕ
  pub generation_number : ℕ

abbrev pub fid_equal : Fid → Fid → Bool
fid_equal a b =
    a.file_server_id == b.file_server_id
    && (a.inode_id == b.inode_id && a.generation_number == b.generation_number)

pub fid_equal_iff : (a b : Fid) → (fid_equal a b ≡ true) ↔ (a ≡ b)
fid_equal_iff a b = (
  λ h. ground (
    arith,
    ==_iff a.file_server_id b.file_server_id,
    ==_iff a.inode_id b.inode_id,
    ==_iff a.generation_number b.generation_number,
  ),
  λ h. ground (
    arith,
    ==_iff a.file_server_id b.file_server_id,
    ==_iff a.inode_id b.inode_id,
    ==_iff a.generation_number b.generation_number,
  ),
)

instance abbrev pub fid_eq : Eq Fid
fid_eq = record { equal = fid_equal; equal_iff = fid_equal_iff }

pub data InodeType : Type 0 where
  file directory : InodeType

abbrev pub is_directory : InodeType → Bool
is_directory file = false
is_directory directory = true

pub record Acl : Type 0 where
  pub owner : String
  pub shared : List String

pub record Inode : Type 0 where
  pub fid : Fid
  pub kind : InodeType
  pub name : String
  pub os_path : String
  pub acl : Acl
  pub children : List Fid
  pub size : ℕ
  pub parent : Option Fid

abbrev pub Inodes : Type 0
Inodes = GoMap Fid Inode

pub record SharedSnapshot : Type 0 where
  pub path : String
  pub users : List String

-- The empty FID string of a missing parent is none.
pub record TrashEntry : Type 0 where
  pub original_parent : Option Fid
  pub original_name : String
  pub original_rel_path : String
  pub shared_snapshots : List SharedSnapshot

pub record FileServer : Type 0 where
  pub server_id : String
  pub root_dir : String
  pub inodes : Inodes
  pub users : GoMap String Fid
  pub trash_meta : GoMap Fid TrashEntry
  pub shared : GoMap String (List String)
  pub quotas : GoMap String ℕ
  pub inode_store : InodeStore

unfoldable pub user_can_access_inode : Inode → String → Bool
user_can_access_inode x user = if x.acl.owner == user then true else contains user x.acl.shared

-- Authorize: equal_fold is strings.EqualFold, admin_email the environment variable.
pub data Permission : Type 0 where
  read write delete admin : Permission
  other : ℕ → Permission

pub data AuthError : Type 0 where
  no_fid not_found denied unknown_permission : AuthError

pub data Result (E A : Type 0) : Type 0 where
  ok : A → Result E A
  err : E → Result E A

module _ (equal_fold : String → String → Bool) (admin_email : String) where
  unfoldable pub allows : Permission → Inode → String → Option AuthError
  allows read x caller = if user_can_access_inode x caller then none else some denied
  allows write x caller = if user_can_access_inode x caller then none else some denied
  allows delete x caller = if x.acl.owner == caller then none else some denied
  allows admin x caller =
      if admin_email == ""
      then some denied
      else if equal_fold caller admin_email
      then none
      else some denied
  allows (other n) x caller = some unknown_permission

  unfoldable pub authorize_inode :
      Option String → Permission → Option Inode → Result AuthError (Inode × String)
  authorize_inode caller perm none = err not_found
  authorize_inode none perm (some x) = ok (x, x.acl.owner)
  authorize_inode (some caller) perm (some x) =
      if caller == ""
      then ok (x, x.acl.owner)
      else elim (allows perm x caller) [ none ↦ ok (x, caller) | some e ↦ err e ]

  unfoldable pub authorize :
      Option String → Option Fid → Permission → FileServer → Result AuthError (Inode × String)
  authorize caller none perm fs = err no_fid
  authorize caller (some fid) perm fs = authorize_inode caller perm (get fid fs.inodes)

-- A change of the inode that a pointer leads to.
unfoldable pub modify : Fid → (Inode → Inode) → Inodes → Inodes
modify fid f m = elim (get fid m) [ none ↦ m | some x ↦ insert fid (f x) m ]

unfoldable pub modify_all : List Fid → (Inode → Inode) → Inodes → Inodes
modify_all [] f m = m
modify_all (fid ∷ fids) f m = modify_all fids f (modify fid f m)

unfoldable pub refresh : InodeType → Option ℕ → Fid → Inode → FileServer → Option Inode × FileServer
refresh file (some size) fid x fs = (
  some (record x { size = size }),
  record fs { inodes = insert fid (record x { size = size }) fs.inodes },
)
refresh file none fid x fs = (some x, fs)
refresh directory size fid x fs = (some x, fs)

-- GetInode, which refreshes the size of a file.
unfoldable pub get_inode : (String → Option ℕ) → Fid → FileServer → Option Inode × FileServer
get_inode stat fid fs = elim (get fid fs.inodes) [
  | none ↦ (none, fs)
  | some x ↦ refresh x.kind (stat x.os_path) fid x fs
]

-- GetChildInodeByName and nameExistsInDirLocked, over a list of children.
unfoldable pub child_by_name : String → List Fid → Inodes → Option Inode
child_by_name name [] m = none
child_by_name name (c ∷ cs) m =
    let rest = child_by_name name cs m in
    elim (get c m) [ none ↦ rest | some x ↦ if x.name == name then some x else rest ]
