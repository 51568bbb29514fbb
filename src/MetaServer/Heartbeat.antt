-- ===== src/MetaServer/Heartbeat.antt =====
-- Heartbeat of internal/metaserver/handler.go. Its write is best effort: the reply does not depend
-- on the store.
use distributed_virtual_file.Prelude.{
  ℕ, String, not, Option, none, some, [], ◌∷◌, if◌then◌else◌, ◌==◌, string_eq, nat_eq,
}
use distributed_virtual_file.GoMap.{get, insert}
use distributed_virtual_file.MetaStore.Calls.{heartbeats}
use distributed_virtual_file.MetaServer.{FileServerInfo, MetaServer, healthy, find_by_node_id}
use distributed_virtual_file.MetaServer.Roots.{
  success, failure, Outcome, empty_address, unknown_server, other_address,
}
use distributed_virtual_file.MetaServer.Writes.{resolve_node_id}

-- The node that was found, at its registered address or another one.
unfoldable pub refresh : ℕ → String → ℕ → Option FileServerInfo → MetaServer → Outcome (Unit {0})
refresh now address id none ms = (failure unknown_server, ms, [])
refresh now address id (some info) ms =
    if not (info.address == address) then (failure (other_address info.address), ms, []) else (
      success tt,
      record ms {
        fileservers =
            insert id (record info { last_heartbeat_unix = now; status = healthy }) ms.fileservers;
      },
      heartbeats info.node_id now healthy ∷ [],
    )

unfoldable pub heartbeat : ℕ → String → String → MetaServer → Outcome (Unit {0})
heartbeat now fs_id address ms =
    if address == ""
    then (failure empty_address, ms, [])
    else elim (find_by_node_id (resolve_node_id fs_id address) ms) [
      | none ↦ (failure unknown_server, ms, [])
      | some id ↦ refresh now address id (get id ms.fileservers) ms
    ]
