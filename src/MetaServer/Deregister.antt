-- ===== src/MetaServer/Deregister.antt =====
-- DeregisterFileServer of internal/metaserver/handler.go: the node goes, and with it everyone who
-- is routed to it or orphaned on it. A store that fails has the change taken back.
use distributed_virtual_file.Prelude.{
  ℕ, String, not, ◌&&◌, Option, none, some, List, [], ◌∷◌, ◌++◌, if◌then◌else◌, ◌==◌, string_eq,
  nat_eq, keep, is_empty, Eq,
}
use distributed_virtual_file.GoMap.{GoMap, get, insert, delete, keys, is_some}
use distributed_virtual_file.MetaStore.Calls.{Call, removes_users, removes_involving, removes_node}
use distributed_virtual_file.MetaServer.{
  FileServerInfo, MetaServer, SharedDirEntry, find_by_node_id, find_by_address,
  remove_shares_by_owner,
}
use distributed_virtual_file.MetaServer.Roots.{
  success, failure, Outcome, target_required, not_persisted,
}
use distributed_virtual_file.MetaServer.Writes.{run_writes}

-- The node a request means: its id, and its slot if it is registered.
abbrev pub Target : Type 0
Target = String × Option ℕ

unfoldable pub at_slot : ℕ → Option FileServerInfo → Target
at_slot id none = ("", some id)
at_slot id (some info) = (info.node_id, some id)

unfoldable pub target : String → String → MetaServer → Target
unfolding at_slot
target fs_id address ms =
    if not (fs_id == "")
    then (fs_id, find_by_node_id fs_id ms)
    else elim (find_by_address address ms) [
      | none ↦ ("", none)
      | some id ↦ at_slot id (get id ms.fileservers)
    ]

unfoldable pub users_on : Option ℕ → GoMap String ℕ → List String
users_on none m = []
users_on (some id) m = keys (keep (λ e. e.1 == id) m)

unfoldable pub orphans_of : String → GoMap String String → List String
orphans_of node_id m = if node_id == "" then [] else keys (keep (λ e. e.1 == node_id) m)

-- The users that a deregistration releases.
unfoldable pub released : Target → MetaServer → List String
released t ms = users_on t.1 ms.users ++ orphans_of t.0 ms.orphaned_users

unfoldable pub delete_all : {V : Type 0} → List String → GoMap String V → GoMap String V
delete_all [] m = m
delete_all (u ∷ us) m = delete_all us (delete u m)

-- One turn of the loop on ms.shared: the user's own roots, then the user's shares with others.
unfoldable pub drop_shares :
    List String → GoMap String (List SharedDirEntry) → GoMap String (List SharedDirEntry)
drop_shares [] m = m
drop_shares (u ∷ us) m = drop_shares us (remove_shares_by_owner u (delete u m))

unfoldable pub drop_slot : {V : Type 0} → Option ℕ → GoMap ℕ V → GoMap ℕ V
drop_slot none m = m
drop_slot (some id) m = delete id m

unfoldable pub release : Target → List String → MetaServer → MetaServer
release t removed ms = record ms {
  fileservers = drop_slot t.1 ms.fileservers;
  users = delete_all removed ms.users;
  shared = drop_shares removed ms.shared;
  orphaned_users = delete_all removed ms.orphaned_users;
}

module _ {K V : Type 0} ⦃e : Eq K⦄ where
  -- The entries of `prev` under the keys go back into the map.
  unfoldable pub restore : List K → GoMap K V → GoMap K V → GoMap K V
  restore [] prev m = m
  restore (k ∷ ks) prev m =
      let rest = restore ks prev m in elim (get k prev) [ none ↦ rest | some v ↦ insert k v rest ]

unfoldable pub slots : Option ℕ → List ℕ
slots none = []
slots (some id) = id ∷ []

-- The rollback, from the state before the change and the released users.
unfoldable pub take_back : Target → List String → MetaServer → MetaServer → MetaServer
unfolding slots
take_back t removed prev ms = record ms {
  fileservers = restore (slots t.1) prev.fileservers ms.fileservers;
  users = restore removed prev.users ms.users;
  shared = prev.shared;
  orphaned_users = restore removed prev.orphaned_users ms.orphaned_users;
}

-- Users, then shares, then the node.
unfoldable pub release_writes : Target → List String → List Call
release_writes t removed =
    (if is_empty removed then [] else removes_users removed ∷ removes_involving removed ∷ [])
    ++ (if is_some t.1 then removes_node t.0 ∷ [] else [])

unfoldable pub deregister_target : ℕ → Target → MetaServer → Outcome (Unit {0})
deregister_target accepted t ms =
    let removed = released t ms in
    let ms' = release t removed ms in
    let sent = run_writes accepted (release_writes t removed) in
    if not (is_some t.1) && is_empty removed
    then (success tt, ms, [])
    else if sent.0
    then (success tt, ms', sent.1)
    else (failure not_persisted, take_back t removed ms ms', sent.1)

unfoldable pub deregister : ℕ → String → String → MetaServer → Outcome (Unit {0})
deregister accepted fs_id address ms =
    if fs_id == "" && address == ""
    then (failure target_required, ms, [])
    else deregister_target accepted (target fs_id address ms) ms
