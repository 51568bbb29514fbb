-- ===== src/MetaServer/Boot/Examples.antt =====
-- The boot on a concrete snapshot.
use distributed_virtual_file.MetaServer.Boot.Homes.{usernames, number_of, marker, hydrate-homes}
use distributed_virtual_file.Prelude.{
  String, ◌≡◌, ◌≢◌, refl, [], ◌∷◌, some, nat_eq, string_eq, Bool, true, false, inl, inr,
  contains-In, Distinct,
}
use distributed_virtual_file.GoMap.{get, insert, delete}
use distributed_virtual_file.MetaStore.{FileServerRecord, UserRecord}
use distributed_virtual_file.MetaServer.{
  FileServerInfo, count_users, contains_share, roots_of, healthy,
}
use distributed_virtual_file.MetaServer.Boot.{
  MetaSnapshot, hydrate, load_nodes, info_of, node_numbers, load_users, load_user, count_all,
  count_in,
}
use distributed_virtual_file.MetaServer.Boot.Tables.{
  recorded, hydrate-count_users, hydrate-contains_share,
}

abbrev node : FileServerRecord
node = record {
  node_id = "fs1";
  numeric_id = 3;
  address = "10.0.0.1:50051";
  last_heartbeat_unix = 0;
  status = "";
}

abbrev user : String → String → UserRecord
user name home = record { username = name; home_node_id = home }

abbrev snapshot : MetaSnapshot
snapshot = record {
  file_servers = node ∷ [];
  users = user "alice" "fs1" ∷ user "bob" "fs9" ∷ user "carol" "fs1" ∷ [];
  shares =
      record { grantee = "bob"; owner = "alice"; path = "alice/docs"; display_name = "docs" } ∷ [];
}

abbrev booted : FileServerInfo
booted = record {
  node_id = "fs1";
  address = "10.0.0.1:50051";
  user_count = 2;
  last_heartbeat_unix = 100;
  status = healthy;
}

node_up : get 3 (hydrate 100 snapshot).fileservers ≡ some booted
unfolding hydrate load_nodes info_of node_numbers load_users load_user count_all count_in get insert
    delete
node_up = refl

hydrate-count_users_example : booted.user_count ≡ count_users 3 (hydrate 100 snapshot).users
hydrate-count_users_example = hydrate-count_users 100 3 snapshot booted node_up

hydrate-contains_share_example :
    contains_share "alice" "alice/docs" (roots_of "bob" (hydrate 100 snapshot))
    ≡ recorded "bob" "alice" "alice/docs" snapshot.shares
hydrate-contains_share_example = hydrate-contains_share 100 snapshot "bob" "alice" "alice/docs"

usernames-Distinct : Distinct (usernames snapshot.users)
usernames-Distinct = (
  λ i. absurd (differs (contains-In "alice" ("bob" ∷ "carol" ∷ []) i)),
  (λ i. absurd (differs (contains-In "bob" ("carol" ∷ []) i)), (λ f. absurd f, tt)),
)
  where
    differs : ◌≢◌ {A = Bool} false true
    differs h = cc

hydrate-homes_example :
    (get "bob" (hydrate 100 snapshot).users ≡ number_of "fs9" snapshot.file_servers)
    × (get "bob" (hydrate 100 snapshot).orphaned_users
        ≡ marker "fs9" (number_of "fs9" snapshot.file_servers))
hydrate-homes_example =
    hydrate-homes 100 snapshot (user "bob" "fs9") usernames-Distinct (inr (inl refl))
