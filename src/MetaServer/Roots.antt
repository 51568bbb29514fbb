-- ===== src/MetaServer/Roots.antt =====
-- Navigate, GetRoots, RootShare and RootUnshare of internal/metaserver/handler.go. `stored` is the
-- store's answer to the one write that a handler makes: true if it succeeded. An outcome is the
-- reply, the new state and the writes that were sent to the store. Structural handlers hold
-- writeOrderMu, so none of them runs while another waits for that answer.
use distributed_virtual_file.Prelude.{
  ℕ, ◌+◌, ◌-◌, String, Bool, true, not, ◌||◌, Option, none, some, List, [], ◌∷◌, ◌++◌,
  if◌then◌else◌, ltb, ◌==◌, string_eq, nat_eq, any,
}
use distributed_virtual_file.GoMap.{GoMap, get, delete, insert}
use distributed_virtual_file.MetaStore.{ShareRecord, normalize_share_path}
use distributed_virtual_file.MetaStore.Calls.{Call, assigns, adds_share, removes_share}
use distributed_virtual_file.MetaServer.{
  FileServerInfo, SharedDirEntry, MetaServer, is_healthy, least_loaded, contains_share,
  remove_share_entry, roots_of,
}

pub data RouteError : Type 0 where
  names_required user_unknown root_unknown root_unavailable no_access : RouteError
  home_unavailable : String → RouteError
  no_healthy_server not_persisted : RouteError
  empty_address target_required unknown_server : RouteError
  other_address duplicate_id : String → RouteError
  user_taken user_orphaned : String → String → RouteError

pub data Reply (A : Type 0) : Type 0 where
  success : A → Reply A
  failure : RouteError → Reply A

abbrev pub Outcome : Type 0 → Type 0
Outcome A = Reply A × MetaServer × List Call

unfoldable pub may_enter : String → String → MetaServer → Bool
may_enter user root_user ms =
    if user == root_user then true else any (λ e. e.owner == root_user) (roots_of user ms)

unfoldable pub navigate_to : ℕ → String → String → Option FileServerInfo → MetaServer → Reply String
navigate_to now user root_user none ms = failure root_unavailable
navigate_to now user root_user (some info) ms =
    if not (is_healthy info now ms.heartbeat_timeout)
    then failure root_unavailable
    else if may_enter user root_user ms
    then success info.address
    else failure no_access

unfoldable pub navigate_home : ℕ → String → String → Option ℕ → MetaServer → Reply String
navigate_home now user root_user none ms = failure root_unknown
navigate_home now user root_user (some fs) ms =
    navigate_to now user root_user (get fs ms.fileservers) ms

unfoldable pub navigate : ℕ → String → String → MetaServer → Reply String
navigate now user root_user ms =
    if user == "" || root_user == "" then failure names_required else elim (get user ms.users) [
      | none ↦ failure user_unknown
      | some id ↦ navigate_home now user root_user (get root_user ms.users) ms
    ]

-- buildRootsLocked
unfoldable pub build_roots : String → MetaServer → List SharedDirEntry
build_roots user ms =
    record { owner = user; path = user; display_name = "mydrive" } ∷ roots_of user ms

-- A first login on the node that was picked, before the store has answered.
unfoldable pub assign_home : String → ℕ → FileServerInfo → MetaServer → MetaServer
assign_home user id info ms = record ms {
  users = insert user id ms.users;
  fileservers = insert id (record info { user_count = info.user_count + 1 }) ms.fileservers;
  shared = insert user [] ms.shared;
}

unfoldable pub uncounted :
    ℕ → Option FileServerInfo → GoMap ℕ FileServerInfo → GoMap ℕ FileServerInfo
uncounted id none m = m
uncounted id (some info) m =
    if ltb 0 info.user_count
    then insert id (record info { user_count = info.user_count - 1 }) m
    else m

-- The rollback after a failed AssignUser.
unfoldable pub unassign_home : String → ℕ → MetaServer → MetaServer
unfolding uncounted
unassign_home user id ms = record ms {
  users = delete user ms.users;
  fileservers = uncounted id (get id ms.fileservers) ms.fileservers;
  shared = delete user ms.shared;
}

unfoldable pub first_login :
    Bool → String → Option (ℕ × FileServerInfo) → MetaServer → Outcome (List SharedDirEntry)
first_login stored user none ms = (failure no_healthy_server, ms, [])
first_login stored user (some (id, info)) ms =
    let ms' = assign_home user id info ms in
    let writes = assigns user info.node_id ∷ [] in
    if stored
    then (success (build_roots user ms'), ms', writes)
    else (failure not_persisted, unassign_home user id ms', writes)

unfoldable pub place_user :
    ℕ → Bool → String → Option String → MetaServer → Outcome (List SharedDirEntry)
unfolding first_login
place_user now stored user (some home) ms = (failure (home_unavailable home), ms, [])
place_user now stored user none ms = first_login stored user (least_loaded now ms) ms

-- The fast path and the check after the upgrade of the lock are the same test.
unfoldable pub get_roots : ℕ → Bool → String → MetaServer → Outcome (List SharedDirEntry)
unfolding place_user
get_roots now stored user ms =
    if user == "" then (failure names_required, ms, []) else elim (get user ms.users) [
      | some id ↦ (success (build_roots user ms), ms, [])
      | none ↦ place_user now stored user (get user ms.orphaned_users) ms
    ]

unfoldable pub set_roots : String → List SharedDirEntry → MetaServer → MetaServer
set_roots user roots ms = record ms { shared = insert user roots ms.shared }

-- Both users have to be known.
unfoldable pub both_known : String → String → MetaServer → Option RouteError
both_known owner other ms = elim (get owner ms.users) [
  | none ↦ some root_unknown
  | some id ↦ elim (get other ms.users) [ none ↦ some user_unknown | some id' ↦ none ]
]

unfoldable pub share_new :
    Bool → String → String → String → String → MetaServer → Outcome (Unit {0})
unfolding set_roots
share_new stored owner name path share_with ms =
    let entry : SharedDirEntry = record { owner = owner; path = path; display_name = name } in
    let ms' = set_roots share_with (roots_of share_with ms ++ entry ∷ []) ms in
    let sent : ShareRecord = record {
      grantee = share_with;
      owner = owner;
      path = path;
      display_name = name;
    } in
    let writes = adds_share sent ∷ [] in
    if stored then (success tt, ms', writes) else (
      failure not_persisted,
      set_roots share_with (remove_share_entry owner path (roots_of share_with ms')) ms',
      writes,
    )

unfoldable pub root_share :
    Bool → String → String → String → String → MetaServer → Outcome (Unit {0})
unfolding share_new
root_share stored owner name root_path share_with ms =
    let path = normalize_share_path root_path in
    elim (both_known owner share_with ms) [
      | some e ↦ (failure e, ms, [])
      | none ↦
          if contains_share owner path (roots_of share_with ms)
          then (success tt, ms, [])
          else share_new stored owner name path share_with ms
    ]

unfoldable pub root_unshare : Bool → String → String → String → MetaServer → Outcome (Unit {0})
unfolding set_roots
root_unshare stored owner root_path unshare_with ms =
    let path = normalize_share_path root_path in
    elim (both_known owner unshare_with ms) [
      | some e ↦ (failure e, ms, [])
      | none ↦
          let ms' =
            set_roots unshare_with (remove_share_entry owner path (roots_of unshare_with ms)) ms in
          (
            if stored then success tt else failure not_persisted,
            ms',
            removes_share unshare_with owner path ∷ [],
          )
    ]
