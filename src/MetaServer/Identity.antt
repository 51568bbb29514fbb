-- ===== src/MetaServer/Identity.antt =====
-- Heartbeats and the identity of nodes.
use distributed_virtual_file.Prelude.{ℕ, ◌≡◌, some, if◌then◌else◌, ◌==◌, string_eq, nat_eq}
use distributed_virtual_file.GoMap.{get}
use distributed_virtual_file.MetaServer.{FileServerInfo, MetaServer, healthy}

-- The liveness of one node is renewed, and every other node and table is as it was.
abbrev pub Renewed : ℕ → ℕ → FileServerInfo → MetaServer → MetaServer → Type 0
Renewed now id info ms after =
    ((j : ℕ)
      → get j after.fileservers ≡ (
          if id == j
          then some (record info { last_heartbeat_unix = now; status = healthy })
          else get j ms.fileservers))
    × (after.users ≡ ms.users)
    × (after.shared ≡ ms.shared)
    × (after.orphaned_users ≡ ms.orphaned_users)
