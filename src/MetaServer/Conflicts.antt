-- ===== src/MetaServer/Conflicts.antt =====
-- The request of RegisterFileServer and the users that it may not claim (registrationConflictLocked
-- of internal/metaserver/handler.go).
use distributed_virtual_file.Prelude.{
  ℕ, String, Bool, ◌&&◌, Option, none, some, List, [], ◌∷◌, if◌then◌else◌, ◌==◌, string_eq, nat_eq,
  contains,
}
use distributed_virtual_file.GoMap.{get}
use distributed_virtual_file.MetaServer.{FileServerInfo, MetaServer}
use distributed_virtual_file.MetaServer.Roots.{RouteError, user_taken, user_orphaned}

-- pb.SharedDirectory and pb.RegisterFileServerRequest, as far as the handler reads them.
pub record SharedDirectory : Type 0 where
  pub owner : String
  pub path : String
  pub name : String
  pub users : List String

pub record Request : Type 0 where
  pub fs_id : String
  pub address : String
  pub users : List String
  pub shared : List SharedDirectory

-- The keys of the incomingUsers map.
unfoldable pub distinct : List String → List String
distinct [] = []
distinct (u ∷ us) = let rest = distinct us in if contains u rest then rest else u ∷ rest

address_of : Option FileServerInfo → String
address_of none = "unknown"
address_of (some info) = info.address

-- Why a node may not claim one user, if it may not.
unfoldable pub home_conflict : ℕ → Bool → String → Option ℕ → MetaServer → Option RouteError
unfolding address_of
home_conflict fs_id exists user none ms = none
home_conflict fs_id exists user (some mapped) ms =
    if exists && mapped == fs_id
    then none
    else some (user_taken user (address_of (get mapped ms.fileservers)))

unfoldable pub orphan_conflict : String → String → Option String → Option RouteError
orphan_conflict node_id user none = none
orphan_conflict node_id user (some home) =
    if home == node_id then none else some (user_orphaned user home)

unfoldable pub user_conflict : String → ℕ → Bool → String → MetaServer → Option RouteError
user_conflict node_id fs_id exists user ms =
    elim (home_conflict fs_id exists user (get user ms.users) ms) [
      | some e ↦ some e
      | none ↦ orphan_conflict node_id user (get user ms.orphaned_users)
    ]

-- registrationConflictLocked
unfoldable pub registration_conflict :
    String → ℕ → Bool → List String → MetaServer → Option RouteError
registration_conflict node_id fs_id exists [] ms = none
registration_conflict node_id fs_id exists (user ∷ users) ms =
    let rest = registration_conflict node_id fs_id exists users ms in
    elim (user_conflict node_id fs_id exists user ms) [ some e ↦ some e | none ↦ rest ]
