-- ===== src/MetaServer/NodeExamples.antt =====
-- Routing, registration and deregistration on concrete inputs.
use distributed_virtual_file.Prelude.{
  Option, ℕ, String, ◌≡◌, ◌≢◌, refl, List, [], ◌∷◌, Bool, true, false, some, inl, inr, In, arith,
  nat_eq, string_eq, contains-In,
}
use distributed_virtual_file.GoMap.{IsMap, get, get_or, keys}
use distributed_virtual_file.MetaServer.{
  FileServerInfo, SharedDirEntry, MetaServer, healthy, is_healthy, roots_of,
  default_heartbeat_timeout, find_by_node_id, find_by_address, find_server,
}
use distributed_virtual_file.MetaServer.Roots.{
  success, failure, not_persisted, user_taken, navigate, navigate_home, navigate_to, may_enter,
  get_roots,
}
use distributed_virtual_file.MetaServer.Writes.{resolve_node_id, run_writes, adoptable_legacy_node}
use distributed_virtual_file.MetaServer.Deregister.{
  target, released, users_on, orphans_of, release_writes, deregister, deregister_target,
}
use distributed_virtual_file.MetaServer.Conflicts.{
  Request, registration_conflict, user_conflict, home_conflict, orphan_conflict,
}
use distributed_virtual_file.MetaServer.Register.{
  register, register_checked, slot_for, duplicate, slot_conflict,
}
use distributed_virtual_file.MetaServer.Leavers.{IsMeant}
use distributed_virtual_file.MetaServer.Release.{
  SameState, Cleared, deregister-rollback, deregister-released,
}
use distributed_virtual_file.MetaServer.Homes.{register-keeps_home, register-refused}
use distributed_virtual_file.MetaServer.Routing.{
  IsRoute, SamePlacement, navigate_sound, get_roots-rollback,
}

abbrev info : String → String → ℕ → FileServerInfo
info id address users = record {
  node_id = id;
  address = address;
  user_count = users;
  last_heartbeat_unix = 100;
  status = healthy;
}

abbrev docs : SharedDirEntry
docs = record { owner = "alice"; path = "alice/docs"; display_name = "docs" }

-- Two nodes; alice shares a directory with bob, and carol's node is away.
abbrev cluster : MetaServer
cluster = record {
  fileservers = (0, info "fs1" "10.0.0.1:50051" 1) ∷ (1, info "fs2" "10.0.0.2:50051" 1) ∷ [];
  users = ("alice", 0) ∷ ("bob", 1) ∷ [];
  shared = ("alice", []) ∷ ("bob", docs ∷ []) ∷ [];
  orphaned_users = ("carol", "fs3") ∷ [];
  allow_user_purge = false;
  heartbeat_timeout = default_heartbeat_timeout;
}

bob_goes_to_alice : navigate 110 "bob" "alice" cluster ≡ success "10.0.0.1:50051"
unfolding navigate navigate_home navigate_to may_enter get roots_of get_or is_healthy
bob_goes_to_alice = refl

navigate_sound_example :
    ((id : ℕ) × (get "bob" cluster.users ≡ some id))
    × IsRoute 110 "bob" "alice" cluster "10.0.0.1:50051"
navigate_sound_example = navigate_sound 110 "bob" "alice" cluster "10.0.0.1:50051" bob_goes_to_alice

two_nodes : IsMap cluster.fileservers
two_nodes = (λ i. elim i [ inl e ↦ omega arith | inr f ↦ absurd f ], (λ f. absurd f, tt))

get_roots-rollback_example : SamePlacement (get_roots 110 false "dave" cluster).1 cluster
get_roots-rollback_example = get_roots-rollback 110 "dave" cluster two_nodes

abbrev request : String → List String → Request
request fs_id users = record {
  fs_id = fs_id;
  address = "10.0.0.9:50051";
  users = users;
  shared = [];
}

not_orphaned : ¬ In "alice" (keys cluster.orphaned_users)
not_orphaned i = absurd (differs (contains-In "alice" (keys cluster.orphaned_users) i))
  where
    differs : ◌≢◌ {A = Bool} false true
    differs h = cc

alice_home : get "alice" cluster.users ≡ some 0
unfolding get
alice_home = refl

register-keeps_home_example :
    get "alice" (register (some 2) 9 110 (request "fs3" ("carol" ∷ [])) cluster).1.users ≡ some 0
register-keeps_home_example =
    register-keeps_home "alice" 0 cluster refl not_orphaned (some 2) 9 110
      (request "fs3" ("carol" ∷ [])) alice_home

taken :
    (register (some 2) 9 110 (request "fs3" ("carol" ∷ "alice" ∷ [])) cluster).0
    ≡ failure (user_taken "alice" "10.0.0.1:50051")
unfolding register register_checked slot_for duplicate slot_conflict registration_conflict
    user_conflict home_conflict resolve_node_id find_by_node_id find_server get
    adoptable_legacy_node find_by_address orphan_conflict
taken = refl

register-refused_example :
    (register (some 2) 9 110 (request "fs3" ("carol" ∷ "alice" ∷ [])) cluster).1 ≡ cluster
register-refused_example =
    register-refused (some 2) 9 110 (request "fs3" ("carol" ∷ "alice" ∷ [])) cluster
      (user_taken "alice" "10.0.0.1:50051") taken (λ e. cc)

-- The store fails at the second of three writes.
failed : (deregister 1 "fs1" "" cluster).0 ≡ failure not_persisted
unfolding deregister deregister_target target released users_on orphans_of release_writes run_writes
    find_by_node_id find_server
failed = refl

deregister-rollback_example : SameState (deregister 1 "fs1" "" cluster).1 cluster
deregister-rollback_example = deregister-rollback 1 "fs1" "" cluster not_persisted failed

done : (deregister 3 "fs1" "" cluster).0 ≡ success tt
unfolding deregister deregister_target target released users_on orphans_of release_writes run_writes
    find_by_node_id find_server
done = refl

homes-IsMap : IsMap cluster.users
homes-IsMap = (λ i. absurd (differs (contains-In "alice" ("bob" ∷ []) i)), (λ f. absurd f, tt))
  where
    differs : ◌≢◌ {A = Bool} false true
    differs h = cc

orphans-IsMap : IsMap cluster.orphaned_users
orphans-IsMap = (λ f. absurd f, tt)

deregister-released_example :
    (slot : Option ℕ) × (node : String) × IsMeant "fs1" "" cluster slot node
    × Cleared slot node cluster (deregister 3 "fs1" "" cluster).1
deregister-released_example =
    deregister-released 3 "fs1" "" cluster two_nodes homes-IsMap orphans-IsMap done
