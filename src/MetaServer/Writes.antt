-- ===== src/MetaServer/Writes.antt =====
-- deferredWrites of internal/metaserver/metaserver.go, and the identity under which a node
-- registers (internal/metaserver/handler.go).
use text.Mathlib.Text.{starts_with}
use distributed_virtual_file.Prelude.{
  ℕ, zero, suc, String, Bool, true, false, Option, none, some, List, [], ◌∷◌, if◌then◌else◌, ◌==◌,
  string_eq, nat_eq,
}
use distributed_virtual_file.GoMap.{get}
use distributed_virtual_file.GoText.{concat}
use distributed_virtual_file.MetaStore.Calls.{Call}
use distributed_virtual_file.MetaServer.{FileServerInfo, MetaServer, find_by_address}

-- deferredWrites.run on a store that accepts `accepted` writes before it fails: whether all went
-- through, and the writes that did.
unfoldable pub run_writes : ℕ → List Call → Bool × List Call
run_writes accepted [] = (true, [])
run_writes zero (c ∷ cs) = (false, [])
run_writes (suc accepted) (c ∷ cs) = let rest = run_writes accepted cs in (rest.0, c ∷ rest.1)

abbrev pub legacy_node_id_prefix : String
legacy_node_id_prefix = "addr:"

unfoldable pub resolve_node_id : String → String → String
resolve_node_id fs_id address = if fs_id == "" then concat legacy_node_id_prefix address else fs_id

legacy_entry : ℕ → Option FileServerInfo → Option (ℕ × String)
legacy_entry id none = none
legacy_entry id (some info) =
    if starts_with info.node_id legacy_node_id_prefix then some (id, info.node_id) else none

-- adoptableLegacyNodeLocked
unfoldable pub adoptable_legacy_node : String → MetaServer → Option (ℕ × String)
unfolding legacy_entry
adoptable_legacy_node address ms = elim (find_by_address address ms) [
  | none ↦ none
  | some id ↦ legacy_entry id (get id ms.fileservers)
]
