-- ===== src/MetaStore/Calls.antt =====
-- The writes of the store as data, so that a history of them is a list.
use distributed_virtual_file.Prelude.{ℕ, String, ◌≡◌, refl, List, [], ◌∷◌}
use distributed_virtual_file.MetaStore.{
  FileServerRecord, UserRecord, ShareRecord, Store, Context, done, upsert_file_server,
  remove_file_server, record_heartbeat, set_file_server_status, rename_file_server, assign_user,
  assign_users, remove_users, add_share, add_shares, remove_share, remove_shares_involving,
  remove_shares_by_owner,
}

pub data Call : Type 0 where
  upserts : FileServerRecord → Call
  removes_node : String → Call
  heartbeats : String → ℕ → String → Call
  sets_status renames : String → String → Call
  assigns : String → String → Call
  assigns_all : List UserRecord → Call
  removes_users : List String → Call
  adds_share : ShareRecord → Call
  adds_shares : List ShareRecord → Call
  removes_share : String → String → String → Call
  removes_involving removes_owned : List String → Call

-- The store after a call, whether the call succeeds or fails.
unfoldable pub after : Context → Call → Store → Store
after ctx (upserts rec) s = (upsert_file_server ctx rec s).1
after ctx (removes_node n) s = (remove_file_server ctx n s).1
after ctx (heartbeats n at status) s = (record_heartbeat ctx n at status s).1
after ctx (sets_status n status) s = (set_file_server_status ctx n status s).1
after ctx (renames old_id new_id) s = (rename_file_server ctx old_id new_id s).1
after ctx (assigns u n) s = (assign_user ctx u n s).1
after ctx (assigns_all us) s = (assign_users ctx us s).1
after ctx (removes_users us) s = (remove_users ctx us s).1
after ctx (adds_share sh) s = (add_share ctx sh s).1
after ctx (adds_shares shs) s = (add_shares ctx shs s).1
after ctx (removes_share g o p) s = (remove_share ctx g o p s).1
after ctx (removes_involving us) s = (remove_shares_involving ctx us s).1
after ctx (removes_owned us) s = (remove_shares_by_owner ctx us s).1

unfoldable pub run : Store → List (Context × Call) → Store
run s [] = s
run s ((ctx, c) ∷ cs) = run (after ctx c s) cs

-- A call whose context is done changes nothing.
pub after-done : (c : Call) (s : Store) → after done c s ≡ s
unfolding after upsert_file_server remove_file_server record_heartbeat set_file_server_status
    rename_file_server assign_user assign_users remove_users add_share add_shares remove_share
    remove_shares_involving remove_shares_by_owner
after-done (upserts rec) s = refl
after-done _ s = refl
