-- ===== src/MetaServer/Boot.antt =====
-- NewMetaServer and hydrate of internal/metaserver/metaserver.go: the tables in memory are built
-- from the snapshot that the store returns at boot. `now` is the time of the boot.
pub mod Tables
pub mod Homes
mod Examples
use distributed_virtual_file.Prelude.{
  ℕ, ◌+◌, String, Bool, true, false, Option, none, some, List, [], ◌∷◌, ◌++◌, if◌then◌else◌, ◌==◌,
  string_eq, nat_eq,
}
use distributed_virtual_file.GoMap.{GoMap, get, get_or, insert, keys}
use distributed_virtual_file.MetaStore.{FileServerRecord, UserRecord, ShareRecord}
use distributed_virtual_file.MetaServer.{
  FileServerInfo, SharedDirEntry, MetaServer, healthy, default_heartbeat_timeout,
}
use distributed_virtual_file.MetaServer.Commit.{ensure_roots}

-- storage.MetaSnapshot
pub record MetaSnapshot : Type 0 where
  pub file_servers : List FileServerRecord
  pub users : List UserRecord
  pub shares : List ShareRecord

abbrev pub Nodes : Type 0
Nodes = GoMap ℕ FileServerInfo

unfoldable pub info_of : ℕ → FileServerRecord → FileServerInfo
info_of now rec = record {
  node_id = rec.node_id;
  address = rec.address;
  user_count = 0;
  last_heartbeat_unix = if rec.last_heartbeat_unix == 0 then now else rec.last_heartbeat_unix;
  status = if rec.status == "" then healthy else rec.status;
}

-- The two maps of the first loop: the nodes, and nodeToNumeric.
unfoldable pub load_nodes : ℕ → List FileServerRecord → Nodes → Nodes
load_nodes now [] m = m
load_nodes now (rec ∷ recs) m = load_nodes now recs (insert rec.numeric_id (info_of now rec) m)

unfoldable pub node_numbers : List FileServerRecord → GoMap String ℕ → GoMap String ℕ
node_numbers [] m = m
node_numbers (rec ∷ recs) m = node_numbers recs (insert rec.node_id rec.numeric_id m)

-- The second loop: the users with a registered home, and the orphans.
abbrev pub Homes : Type 0
Homes = GoMap String ℕ × GoMap String String

unfoldable pub load_user : GoMap String ℕ → UserRecord → Homes → Homes
load_user numbers u homes = elim (get u.home_node_id numbers) [
  | none ↦ (homes.0, insert u.username u.home_node_id homes.1)
  | some id ↦ (insert u.username id homes.0, homes.1)
]

unfoldable pub load_users : GoMap String ℕ → List UserRecord → Homes → Homes
load_users numbers [] homes = homes
load_users numbers (u ∷ us) homes = load_users numbers us (load_user numbers u homes)

unfoldable pub count_in : ℕ → Nodes → Nodes
count_in id m = elim (get id m) [
  | none ↦ m
  | some info ↦ insert id (record info { user_count = info.user_count + 1 }) m
]

-- The third loop, over the users.
unfoldable pub count_all : GoMap String ℕ → Nodes → Nodes
count_all [] m = m
count_all ((u, id) ∷ users) m = count_all users (count_in id m)

unfoldable pub load_shares :
    List ShareRecord → GoMap String (List SharedDirEntry) → GoMap String (List SharedDirEntry)
load_shares [] m = m
load_shares (sh ∷ shares) m =
    let entry : SharedDirEntry = record {
      owner = sh.owner;
      path = sh.path;
      display_name = sh.display_name;
    } in
    load_shares shares (insert sh.grantee (get_or sh.grantee [] m ++ entry ∷ []) m)

unfoldable pub ensure_all :
    List String → GoMap String (List SharedDirEntry) → GoMap String (List SharedDirEntry)
ensure_all [] m = m
ensure_all (u ∷ us) m = ensure_all us (ensure_roots u m)

unfoldable pub hydrate : ℕ → MetaSnapshot → MetaServer
hydrate now snap =
    let homes = load_users (node_numbers snap.file_servers []) snap.users ([], []) in
    record {
      fileservers = count_all homes.0 (load_nodes now snap.file_servers []);
      users = homes.0;
      shared = ensure_all (keys homes.0) (load_shares snap.shares []);
      orphaned_users = homes.1;
      allow_user_purge = false;
      heartbeat_timeout = default_heartbeat_timeout;
    }
