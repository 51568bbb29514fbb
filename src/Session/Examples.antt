-- ===== src/Session/Examples.antt =====
-- The session store on concrete inputs.
use mathlib.Core.Option
use distributed_virtual_file.Prelude.{
  ℕ, String, ◌≡◌, ◌≢◌, refl, none, some, List, [], ◌∷◌, arith, ◌≤◌, length, string_eq, not,
}
use distributed_virtual_file.GoMap.{get, get_or, insert, delete, accept}
use distributed_virtual_file.Session.{
  Session, Store, ok, err, session_not_found, new_store, create_session, new_session, create_locked,
  make_room, evict_oldest, remove_previous, add_session, slice, is_expired, purge_expired,
}
use distributed_virtual_file.Session.Validate.{validate_session}
use distributed_virtual_file.Session.Revoke.{
  revoke_session, revoke_all_for_user, drop_hashes, drop_hash,
}
use distributed_virtual_file.Session.Invariant.{Inv, new_store-Inv}
use distributed_virtual_file.Session.Revocation.{get-purge_expired, revoke_all_complete}
use distributed_virtual_file.Session.Validation.{validate-revoke}
use distributed_virtual_file.Session.History.{Event, creates, touches, sweeps, step, run, run-Inv}
use distributed_virtual_file.Session.Limits.{sessions_of, sessions_capped}
use distributed_virtual_file.Session.Ceiling.{absent_for_good, ceiling}

abbrev session : String → String → String → ℕ → ℕ → Session
session hash user client now exp = record {
  hash_id = hash;
  username = user;
  client_id = client;
  client_ip = "10.0.0.1";
  callback_addr = "";
  root_fid = "fs1_0_1";
  created_at = now;
  last_seen_at = now;
  absolute_exp = exp;
}

abbrev logins : List Event
logins =
    creates (session "h1" "alice" "c1" 10 500) 10 ∷ creates (session "h2" "bob" "c2" 20 0) 20 ∷ []

busy : Store
unfolding run step create_locked make_room evict_oldest remove_previous add_session new_store slice
    get get_or insert delete
busy = run (new_store 100) logins

abbrev plain_hash : String → String
plain_hash s = s

busy-Inv : Inv busy
unfolding busy
busy-Inv = run-Inv (new_store 100) logins (new_store-Inv 100)

busy_bob : get "h2" busy.sessions ≡ some (session "h2" "bob" "c2" 20 0)
unfolding busy
busy_bob = refl

busy_alice : get "h1" busy.sessions ≡ some (session "h1" "alice" "c1" 10 500)
unfolding busy
busy_alice = refl

bob_left :
    get "h2" (revoke_all_for_user "alice" busy).sessions ≡ some (session "h2" "bob" "c2" 20 0)
unfolding revoke_all_for_user drop_hashes drop_hash busy
bob_left = refl

get-purge_expired_example :
    get "h1" (purge_expired 200 busy).sessions
    ≡ accept (λ x. not (is_expired x 200 busy.idle_ttl)) (get "h1" busy.sessions)
get-purge_expired_example = get-purge_expired 200 "h1" busy busy-Inv.is_map

revoke_all_complete_example :
    (◌≢◌ {A = String} "bob" "alice")
    × (get "h2" busy.sessions ≡ some (session "h2" "bob" "c2" 20 0))
revoke_all_complete_example =
    revoke_all_complete "alice" "h2" busy (session "h2" "bob" "c2" 20 0) busy-Inv bob_left

sessions_capped_example : (length (sessions_of "alice" busy) ≤ 5) × (length busy.sessions ≤ 10000)
unfolding busy
sessions_capped_example = sessions_capped 100 logins "alice"

validate-revoke_example :
    (validate_session plain_hash "h1" "10.0.0.1:99" 50 (revoke_session plain_hash "h1" busy) busy).0
    ≡ err session_not_found
validate-revoke_example = validate-revoke plain_hash "h1" "10.0.0.1:99" 50 busy busy

abbrev carol : Session
carol = new_session plain_hash "h3" "carol" "c3" "10.0.0.9:4000" "" "fs1_3_1" 0 30

abbrev with_carol : Store
with_carol = (create_session plain_hash "h3" "carol" "c3" "10.0.0.9:4000" "" "fs1_3_1" 0 30 busy).1

no_h9 : get "h9" busy.sessions ≡ none
unfolding busy
no_h9 = refl

absent_for_good_example : get "h9" (run busy (sweeps 30 ∷ [])).sessions ≡ none
absent_for_good_example = absent_for_good "h9" busy (sweeps 30 ∷ []) no_h9 (tt, tt)

ceiling_example :
    (validate_session plain_hash "h1" "10.0.0.1:1" 501 (run busy (touches "h1" 490 ∷ [])) busy).0
    ≢ ok carol
ceiling_example =
    ceiling plain_hash "h1" "10.0.0.1:1" busy (touches "h1" 490 ∷ [])
      (session "h1" "alice" "c1" 10 500) carol 501 busy busy_alice (omega arith) (omega arith)
      (tt, tt)
