-- ===== src/MetaServer.antt =====
-- internal/metaserver: routing of users to file servers and the shared roots that they see.
-- Every function is the body of a handler between Lock and Unlock. Times are Unix seconds, the
-- heartbeat timeout is in nanoseconds as in Go. `range` over a map visits it in the list's order.
pub mod Roots
pub mod Lookup
pub mod Freshness
pub mod Liveness
pub mod Visibility
pub mod Durability
pub mod Writes
pub mod Heartbeat
pub mod Deregister
pub mod Conflicts
pub mod Commit
pub mod Register
pub mod Leavers
pub mod Release
pub mod Homes
pub mod Routing
pub mod Identity
pub mod Boot
mod Examples
mod NodeExamples
use distributed_virtual_file.Prelude.{
  ℕ, suc, ◌+◌, ◌-◌, ◌*◌, ◌/◌, String, Bool, true, false, not, ◌&&◌, ◌||◌, Option, none, some, List,
  [], ◌∷◌, ◌++◌, map, if◌then◌else◌, ltb, leb, ◌==◌, string_eq, nat_eq, length, keep, any, contains,
}
use distributed_virtual_file.GoMap.{GoMap, get, get_or, delete, insert, keys}

-- domain.FileServerInfo
pub record FileServerInfo : Type 0 where
  pub node_id : String
  pub address : String
  pub user_count : ℕ
  pub last_heartbeat_unix : ℕ
  pub status : String

abbrev pub healthy : String
healthy = "healthy"

abbrev pub stale : String
stale = "stale"

pub record SharedDirEntry : Type 0 where
  pub owner : String
  pub path : String
  pub display_name : String

pub record MetaServer : Type 0 where
  pub fileservers : GoMap ℕ FileServerInfo
  pub users : GoMap String ℕ
  pub shared : GoMap String (List SharedDirEntry)
  pub orphaned_users : GoMap String String
  pub allow_user_purge : Bool
  pub heartbeat_timeout : ℕ

abbrev pub second : ℕ
second = 1000000000

abbrev pub default_heartbeat_timeout : ℕ
default_heartbeat_timeout = 30 * second

-- SetHeartbeatConfig and SetAllowUserPurge. (The check interval only paces the monitor.)
unfoldable pub set_heartbeat_config : ℕ → MetaServer → MetaServer
set_heartbeat_config timeout ms =
    if ltb 0 timeout then record ms { heartbeat_timeout = timeout } else ms

unfoldable pub set_allow_user_purge : Bool → MetaServer → MetaServer
set_allow_user_purge allow ms = record ms { allow_user_purge = allow }

-- The first node that passes a test.
unfoldable pub find_server : (FileServerInfo → Bool) → GoMap ℕ FileServerInfo → Option ℕ
find_server p [] = none
find_server p ((id, info) ∷ m) = if p info then some id else find_server p m

unfoldable pub find_by_node_id : String → MetaServer → Option ℕ
find_by_node_id node_id ms =
    if node_id == "" then none else find_server (λ info. info.node_id == node_id) ms.fileservers

unfoldable pub find_by_address : String → MetaServer → Option ℕ
find_by_address address ms =
    if address == "" then none else find_server (λ info. info.address == address) ms.fileservers

-- countUsersForFileServerLocked
unfoldable pub count_users : ℕ → GoMap String ℕ → ℕ
count_users fs_id m = length (keep (λ e. e.1 == fs_id) m)

unfoldable pub is_healthy : FileServerInfo → ℕ → ℕ → Bool
is_healthy info now timeout =
    if not (info.status == healthy)
    then false
    else if info.last_heartbeat_unix == 0
    then false
    else if timeout == 0
    then true
    else leb (now - info.last_heartbeat_unix) (timeout / second)

-- One turn of the loop of markStaleFileServersLocked.
unfoldable pub mark_stale_info : ℕ → ℕ → FileServerInfo → FileServerInfo
mark_stale_info now timeout info =
    if is_healthy info now timeout
    then info
    else if info.status == stale
    then info
    else record info { status = stale }

unfoldable pub goes_stale : ℕ → ℕ → FileServerInfo → Bool
goes_stale now timeout info = not (is_healthy info now timeout) && not (info.status == stale)

mark_all : ℕ → ℕ → GoMap ℕ FileServerInfo → GoMap ℕ FileServerInfo
mark_all now timeout [] = []
mark_all now timeout ((id, info) ∷ m) =
    (id, mark_stale_info now timeout info) ∷ mark_all now timeout m

newly_stale : ℕ → ℕ → GoMap ℕ FileServerInfo → List String
newly_stale now timeout [] = []
newly_stale now timeout ((id, info) ∷ m) =
    let rest = newly_stale now timeout m in
    if goes_stale now timeout info then info.node_id ∷ rest else rest

-- markStaleFileServersLocked: the new table and the ids of the nodes that changed.
unfoldable pub mark_stale : ℕ → MetaServer → List String × MetaServer
unfolding mark_all newly_stale goes_stale
mark_stale now ms = (
  newly_stale now ms.heartbeat_timeout ms.fileservers,
  record ms { fileservers = mark_all now ms.heartbeat_timeout ms.fileservers },
)

-- The candidate so far in the scan for the least loaded node.
better : ℕ → ℕ → ℕ × FileServerInfo → Option (ℕ × FileServerInfo) → Option (ℕ × FileServerInfo)
better now timeout (id, info) best = if not (is_healthy info now timeout) then best else elim best [
  | none ↦ some (id, info)
  | some b ↦ if ltb info.user_count b.1.user_count then some (id, info) else some b
]

scan : ℕ → ℕ → GoMap ℕ FileServerInfo → Option (ℕ × FileServerInfo) → Option (ℕ × FileServerInfo)
scan now timeout [] best = best
scan now timeout (x ∷ m) best = scan now timeout m (better now timeout x best)

-- getLeastLoadedHealthyFileServerLocked
unfoldable pub least_loaded : ℕ → MetaServer → Option (ℕ × FileServerInfo)
unfolding better scan
least_loaded now ms = scan now ms.heartbeat_timeout ms.fileservers none

-- The shared roots of one owner leave everybody's view.
unfoldable pub remove_shares_by_owner :
    String → GoMap String (List SharedDirEntry) → GoMap String (List SharedDirEntry)
remove_shares_by_owner owner [] = []
remove_shares_by_owner owner ((grantee, roots) ∷ m) =
    (grantee, keep (λ s. not (s.owner == owner)) roots) ∷ remove_shares_by_owner owner m

abbrev pub is_share : String → String → SharedDirEntry → Bool
is_share owner path e = e.owner == owner && e.path == path

unfoldable pub contains_share : String → String → List SharedDirEntry → Bool
contains_share owner path entries = any (is_share owner path) entries

unfoldable pub remove_share_entry : String → String → List SharedDirEntry → List SharedDirEntry
remove_share_entry owner path entries = keep (λ e. not (is_share owner path e)) entries

-- ms.shared[user], nil for a user without an entry.
unfoldable pub roots_of : String → MetaServer → List SharedDirEntry
roots_of user ms = get_or user [] ms.shared
