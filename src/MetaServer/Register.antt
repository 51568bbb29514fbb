-- ===== src/MetaServer/Register.antt =====
-- RegisterFileServer of internal/metaserver/handler.go. `allocated` is the numeric id that the
-- store allocates for a new node, none if it fails; `accepted` is how many of the writes after the
-- commit go through. Structural handlers hold writeOrderMu from start to end, so the users and the
-- nodes are the same before and after the allocation.
use distributed_virtual_file.Prelude.{
  ℕ, String, true, false, not, ◌&&◌, Option, none, some, List, [], ◌∷◌, if◌then◌else◌, ◌==◌,
  string_eq, nat_eq,
}
use distributed_virtual_file.GoMap.{get}
use distributed_virtual_file.MetaStore.Calls.{upserts, removes_node}
use distributed_virtual_file.MetaServer.{MetaServer, healthy, is_healthy, find_by_node_id}
use distributed_virtual_file.MetaServer.Roots.{
  success, failure, Outcome, RouteError, empty_address, duplicate_id, not_persisted,
}
use distributed_virtual_file.MetaServer.Writes.{run_writes, resolve_node_id, adoptable_legacy_node}
use distributed_virtual_file.MetaServer.Conflicts.{Request, registration_conflict}
use distributed_virtual_file.MetaServer.Commit.{commit, commit_writes}

-- A failed write is not rolled back: the node registers again, and every write is idempotent.
unfoldable pub finish :
    ℕ → ℕ → String → ℕ → Option String → Request → MetaServer → Outcome (Unit {0})
finish accepted now node_id fs_id adopt req ms =
    let sent = run_writes accepted (commit_writes now node_id fs_id adopt req ms) in
    (if sent.0 then success tt else failure not_persisted, commit now node_id fs_id req ms, sent.1)

-- A new node takes the numeric id that the store allocates, if nobody holds it.
unfoldable pub register_new : Option ℕ → ℕ → ℕ → String → Request → MetaServer → Outcome (Unit {0})
register_new none accepted now node_id req ms = (failure not_persisted, ms, [])
register_new (some fs_id) accepted now node_id req ms =
    let allocation = upserts (record {
      node_id = node_id;
      numeric_id = 0;
      address = req.address;
      last_heartbeat_unix = now;
      status = healthy;
    }) in
    elim (get fs_id ms.fileservers) [
      | some other ↦ (failure not_persisted, ms, allocation ∷ removes_node node_id ∷ [])
      | none ↦ elim (registration_conflict node_id fs_id true req.users ms) [
        | some e ↦ (failure e, ms, allocation ∷ removes_node node_id ∷ [])
        | none ↦
            let done = finish accepted now node_id fs_id none req ms in
            (done.0, done.1, allocation ∷ done.2)
      ]
    ]

-- The slot that a registration takes over: its own, or that of a legacy entry at its address.
abbrev pub Slot : Type 0
Slot = Option (ℕ × Option String)

unfoldable pub slot_for : Request → String → MetaServer → Slot
slot_for req node_id ms = elim (find_by_node_id node_id ms) [
  | some id ↦ some (id, none)
  | none ↦ if req.fs_id == "" then none else elim (adoptable_legacy_node req.address ms) [
    | none ↦ none
    | some found ↦ some (found.0, some found.1)
  ]
]

-- Another process that is alive under the same id.
unfoldable pub duplicate : ℕ → Request → Slot → MetaServer → Option RouteError
duplicate now req (some (id, none)) ms = elim (get id ms.fileservers) [
  | none ↦ none
  | some info ↦
      if not (info.address == req.address) && is_healthy info now ms.heartbeat_timeout
      then some (duplicate_id info.address)
      else none
]
duplicate now req _ ms = none

unfoldable pub slot_conflict : String → Slot → List String → MetaServer → Option RouteError
slot_conflict node_id none users ms = registration_conflict node_id 0 false users ms
slot_conflict node_id (some s) users ms = registration_conflict node_id s.0 true users ms

unfoldable pub register_at :
    Option ℕ → ℕ → ℕ → String → Slot → Request → MetaServer → Outcome (Unit {0})
register_at allocated accepted now node_id none req ms =
    register_new allocated accepted now node_id req ms
register_at allocated accepted now node_id (some (id, adopt)) req ms =
    finish accepted now node_id id adopt req ms

unfoldable pub register_checked :
    Option ℕ → ℕ → ℕ → String → Slot → Request → MetaServer → Outcome (Unit {0})
register_checked allocated accepted now node_id s req ms = elim (duplicate now req s ms) [
  | some e ↦ (failure e, ms, [])
  | none ↦ elim (slot_conflict node_id s req.users ms) [
    | some e ↦ (failure e, ms, [])
    | none ↦ register_at allocated accepted now node_id s req ms
  ]
]

unfoldable pub register : Option ℕ → ℕ → ℕ → Request → MetaServer → Outcome (Unit {0})
register allocated accepted now req ms =
    let node_id = resolve_node_id req.fs_id req.address in
    if req.address == ""
    then (failure empty_address, ms, [])
    else register_checked allocated accepted now node_id (slot_for req node_id ms) req ms
