-- ===== src/MetaServer/Examples.antt =====
-- The metaserver on concrete inputs.
use distributed_virtual_file.Prelude.{
  ℕ, String, ◌≡◌, refl, [], ◌∷◌, true, false, not, ◌&&◌, ◌||◌, none, some, arith, nat_eq, string_eq,
}
use distributed_virtual_file.GoMap.{get, get_or}
use distributed_virtual_file.MetaStore
use distributed_virtual_file.MetaStore.{normalize_share_path, kept_segments, is_dropped}
use distributed_virtual_file.MetaServer.{
  FileServerInfo, MetaServer, healthy, least_loaded, mark_stale, contains_share, roots_of,
  default_heartbeat_timeout,
}
use distributed_virtual_file.MetaServer.Roots.{both_known, root_share, root_unshare}
use distributed_virtual_file.MetaServer.Liveness.{
  IsPlacement, Swept, least_loaded-IsPlacement, get-mark_stale,
}
use distributed_virtual_file.MetaServer.Visibility.{
  root_share-visible, root_share-rollback, root_unshare-visible, is_target,
}
use distributed_virtual_file.MetaServer.Durability.{
  persist, Agrees, root_share-Agrees, root_unshare-Agrees,
}

abbrev info : String → ℕ → ℕ → FileServerInfo
info id users seen = record {
  node_id = id;
  address = "10.0.0.1:50051";
  user_count = users;
  last_heartbeat_unix = seen;
  status = healthy;
}

-- Two nodes, the second of which stopped sending heartbeats, and two users that share nothing.
abbrev cluster : MetaServer
cluster = record {
  fileservers = (0, info "fs1" 2 100) ∷ (1, info "fs2" 0 50) ∷ [];
  users = ("alice", 0) ∷ ("bob", 0) ∷ [];
  shared = ("alice", []) ∷ ("bob", []) ∷ [];
  orphaned_users = [];
  allow_user_purge = false;
  heartbeat_timeout = default_heartbeat_timeout;
}

least_loaded-IsPlacement_example : IsPlacement 110 cluster (least_loaded 110 cluster)
least_loaded-IsPlacement_example = least_loaded-IsPlacement 110 cluster

second_node : get 1 cluster.fileservers ≡ some (info "fs2" 0 50)
unfolding get
second_node = refl

get-mark_stale_example :
    (after : FileServerInfo) × (get 1 (mark_stale 110 cluster).1.fileservers ≡ some after)
    × Swept 110 cluster.heartbeat_timeout (info "fs2" 0 50) after
get-mark_stale_example = get-mark_stale 110 1 cluster (info "fs2" 0 50) second_node

alice_and_bob : both_known "alice" "bob" cluster ≡ none
unfolding both_known get
alice_and_bob = refl

root_share-visible_example :
    contains_share "alice" "alice/docs"
      (roots_of "bob" (root_share true "alice" "docs" "/alice/docs" "bob" cluster).1)
    ≡ contains_share "alice" "alice/docs" (roots_of "bob" cluster)
      || is_target "alice" "docs" "/alice/docs" "bob" cluster "bob" "alice" "alice/docs"
root_share-visible_example =
    root_share-visible "alice" "docs" "/alice/docs" "bob" cluster "bob" "alice" "alice/docs"
      alice_and_bob

not_shared :
    contains_share "alice" (normalize_share_path "/alice/docs") (roots_of "bob" cluster) ≡ false
unfolding contains_share roots_of get_or get
not_shared = refl

root_share-rollback_example :
    roots_of "bob" (root_share false "alice" "docs" "/alice/docs" "bob" cluster).1
    ≡ roots_of "bob" cluster
root_share-rollback_example =
    root_share-rollback "alice" "docs" "/alice/docs" "bob" cluster "bob" alice_and_bob not_shared

root_unshare-visible_example :
    contains_share "alice" "alice/docs"
      (roots_of "bob" (root_unshare false "alice" "/alice/docs" "bob" cluster).1)
    ≡ contains_share "alice" "alice/docs" (roots_of "bob" cluster)
      && not (is_target "alice" "docs" "/alice/docs" "bob" cluster "bob" "alice" "alice/docs")
root_unshare-visible_example =
    root_unshare-visible "alice" "docs" "/alice/docs" "bob" cluster false "bob" "alice" "alice/docs"
      alice_and_bob

no_roots : (user : String) → roots_of user cluster ≡ []
unfolding roots_of get_or get
no_roots user = ground arith

empty-Agrees : Agrees cluster MetaStore.new
unfolding contains_share get
empty-Agrees grantee owner path = rw (no_roots grantee) refl

root_share-Agrees_example :
    Agrees
      (root_share true "alice" "docs" "/alice/docs" "bob" cluster).1
      (persist (root_share true "alice" "docs" "/alice/docs" "bob" cluster).2 MetaStore.new)
root_share-Agrees_example =
    root_share-Agrees "alice" "docs" "/alice/docs" "bob" cluster MetaStore.new empty-Agrees

-- The revocation of a share that exists.
abbrev shared_cluster : MetaServer
shared_cluster = (root_share true "alice" "docs" "/alice/docs" "bob" cluster).1

abbrev shared_store : MetaStore.Store
shared_store = persist (root_share true "alice" "docs" "/alice/docs" "bob" cluster).2 MetaStore.new

root_share-Agrees_shared : Agrees shared_cluster shared_store
root_share-Agrees_shared =
    root_share-Agrees "alice" "docs" "/alice/docs" "bob" cluster MetaStore.new empty-Agrees

root_unshare-Agrees_example :
    Agrees
      (root_unshare true "alice" "alice\\docs" "bob" shared_cluster).1
      (persist (root_unshare true "alice" "alice\\docs" "bob" shared_cluster).2 shared_store)
root_unshare-Agrees_example =
    root_unshare-Agrees "alice" "docs" "alice\\docs" "bob" shared_cluster shared_store
      root_share-Agrees_shared
