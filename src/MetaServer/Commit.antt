-- ===== src/MetaServer/Commit.antt =====
-- The part of RegisterFileServer (internal/metaserver/handler.go) that commits: the change in memory
-- and the writes that follow it.
use distributed_virtual_file.Prelude.{
  ℕ, String, not, ◌&&◌, Option, none, some, List, [], ◌∷◌, ◌++◌, map, if◌then◌else◌, ◌==◌,
  string_eq, nat_eq, keep, is_empty, contains,
}
use distributed_virtual_file.GoMap.{GoMap, get, get_or, insert, delete, keys, is_some}
use distributed_virtual_file.MetaStore.{UserRecord, ShareRecord, normalize_share_path}
use distributed_virtual_file.MetaStore.Calls.{
  Call, upserts, renames, removes_users, removes_involving, assigns_all, removes_owned, adds_shares,
}
use distributed_virtual_file.MetaServer.{
  FileServerInfo, SharedDirEntry, MetaServer, healthy, count_users, contains_share,
  remove_shares_by_owner,
}
use distributed_virtual_file.MetaServer.Deregister.{delete_all, drop_shares}
use distributed_virtual_file.MetaServer.Conflicts.{SharedDirectory, Request, distinct}

-- The entry of ms.shared that a known user has, empty at first.
unfoldable pub ensure_roots :
    String → GoMap String (List SharedDirEntry) → GoMap String (List SharedDirEntry)
ensure_roots user m = if is_some (get user m) then m else insert user [] m

blank_info : FileServerInfo
blank_info = record {
  node_id = "";
  address = "";
  user_count = 0;
  last_heartbeat_unix = 0;
  status = "";
}

unfoldable pub put_node : ℕ → String → String → ℕ → MetaServer → MetaServer
unfolding blank_info
put_node now node_id address fs_id ms = record ms {
  fileservers =
      insert fs_id
        (record (get_or fs_id blank_info ms.fileservers) {
          node_id = node_id;
          address = address;
          last_heartbeat_unix = now;
          status = healthy;
        })
        ms.fileservers;
}

-- The users of the node that it no longer reports, as far as they are to be purged.
unfoldable pub missing : ℕ → List String → MetaServer → List String
missing fs_id incoming ms =
    if ms.allow_user_purge
    then keys (keep (λ e. e.1 == fs_id && not (contains e.0 incoming)) ms.users)
    else []

unfoldable pub purge_users : List String → MetaServer → MetaServer
purge_users us ms = record ms { users = delete_all us ms.users; shared = drop_shares us ms.shared }

unfoldable pub home_user : ℕ → String → MetaServer → MetaServer
home_user fs_id user ms = record ms {
  users = insert user fs_id ms.users;
  shared = ensure_roots user ms.shared;
}

-- The loop on ms.orphanedUsers, over the users that wait for this node.
unfoldable pub reclaim : ℕ → List String → MetaServer → MetaServer
reclaim fs_id [] ms = ms
reclaim fs_id (u ∷ us) ms =
    reclaim fs_id us (home_user fs_id u (record ms { orphaned_users = delete u ms.orphaned_users }))

unfoldable pub waiting : String → MetaServer → List String
waiting node_id ms = keys (keep (λ e. e.1 == node_id) ms.orphaned_users)

-- The loop on incomingUsers.
unfoldable pub claim_users : ℕ → List String → MetaServer → MetaServer
claim_users fs_id [] ms = ms
claim_users fs_id (u ∷ us) ms =
    let homed = home_user fs_id u ms in
    claim_users fs_id us (record homed { shared = remove_shares_by_owner u homed.shared })

unfoldable pub grant_entry :
    SharedDirEntry
    → String
    → GoMap String (List SharedDirEntry)
    → GoMap String (List SharedDirEntry)
grant_entry entry grantee m =
    let roots = get_or grantee [] m in
    if contains_share entry.owner entry.path roots
    then ensure_roots grantee m
    else insert grantee (roots ++ entry ∷ []) m

unfoldable pub grant_all :
    SharedDirEntry
    → List String
    → GoMap String (List SharedDirEntry)
    → GoMap String (List SharedDirEntry)
grant_all entry [] m = m
grant_all entry (grantee ∷ us) m = grant_all entry us (grant_entry entry grantee m)

abbrev entry_of : SharedDirectory → SharedDirEntry
entry_of dir = record {
  owner = dir.owner;
  path = normalize_share_path dir.path;
  display_name = dir.name;
}

-- The grantees of a directory that the node may publish: all but its owner.
unfoldable pub grantees : List String → SharedDirectory → List String
grantees incoming dir =
    if contains dir.owner incoming then keep (λ u. not (u == dir.owner)) dir.users else []

-- The loop on req.Shared.
unfoldable pub publish :
    List String
    → List SharedDirectory
    → GoMap String (List SharedDirEntry)
    → GoMap String (List SharedDirEntry)
publish incoming [] m = m
publish incoming (dir ∷ dirs) m =
    publish incoming dirs (grant_all (entry_of dir) (grantees incoming dir) m)

unfoldable pub granted : List String → List SharedDirectory → List ShareRecord
granted incoming [] = []
granted incoming (dir ∷ dirs) =
    map
      (λ (u : String).
        let sh : ShareRecord = record {
          grantee = u;
          owner = dir.owner;
          path = normalize_share_path dir.path;
          display_name = dir.name;
        } in
        sh)
      (grantees incoming dir)
    ++ granted incoming dirs

unfoldable pub recount : ℕ → MetaServer → MetaServer
unfolding blank_info
recount fs_id ms = record ms {
  fileservers =
      insert fs_id
        (record (get_or fs_id blank_info ms.fileservers) {
          user_count = count_users fs_id ms.users;
        })
        ms.fileservers;
}

-- The in-memory change of a registration that was accepted.
unfoldable pub commit : ℕ → String → ℕ → Request → MetaServer → MetaServer
unfolding recount
commit now node_id fs_id req ms =
    let incoming = distinct req.users in
    let placed = put_node now node_id req.address fs_id ms in
    let purged = purge_users (missing fs_id incoming ms) placed in
    let whole = reclaim fs_id (waiting node_id ms) purged in
    let claimed = claim_users fs_id incoming whole in
    recount fs_id (record claimed { shared = publish incoming req.shared claimed.shared })

adoption : Option String → String → List Call
adoption none node_id = []
adoption (some old_id) node_id = renames old_id node_id ∷ []

purge_writes : List String → List Call
purge_writes us = if is_empty us then [] else removes_users us ∷ removes_involving us ∷ []

-- The deferred writes, the node first. A rename whose record is absent counts as done.
unfoldable pub commit_writes : ℕ → String → ℕ → Option String → Request → MetaServer → List Call
unfolding adoption purge_writes
commit_writes now node_id fs_id adopt req ms =
    let incoming = distinct req.users in
    adoption adopt node_id
    ++ upserts (record {
      node_id = node_id;
      numeric_id = 0;
      address = req.address;
      last_heartbeat_unix = now;
      status = healthy;
    })
      ∷ purge_writes (missing fs_id incoming ms)
    ++ assigns_all (
        map
          (λ (u : String).
            let r : UserRecord = record { username = u; home_node_id = node_id } in r)
          incoming)
      ∷ removes_owned incoming
      ∷ adds_shares (granted incoming req.shared)
      ∷ []
