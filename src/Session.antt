-- ===== src/Session.antt =====
-- internal/fileserver/session: sessions of authenticated clients and their bounded store.
-- Each function below is the body of a method under the store's lock, so it is one atomic step;
-- the time that the method reads is an argument. Times and durations are numbers of nanoseconds,
-- and the zero time is 0. A session that Go shares by pointer stands in the map alone.
pub mod Validate
pub mod Revoke
pub mod Slices
pub mod Drops
pub mod Invariant
pub mod Revocation
pub mod Validation
pub mod Creation
pub mod History
pub mod Origin
pub mod Limits
pub mod Ceiling
mod Examples
use distributed_virtual_file.Prelude.{
  ℕ, ◌-◌, ◌*◌, String, Bool, true, false, not, ◌&&◌, ◌||◌, Option, none, some, List, [], ◌∷◌, ◌++◌,
  ltb, leb, if◌then◌else◌, ◌==◌, string_eq, nat_eq, length, keep, without, is_empty,
}
use distributed_virtual_file.GoText.{split_host_port, trim, is_bracket}
use distributed_virtual_file.GoMap.{GoMap, keys, get, get_or, delete, insert}

pub record Session : Type 0 where
  pub hash_id : String
  pub username : String
  pub client_id : String
  pub client_ip : String
  pub callback_addr : String
  pub root_fid : String
  pub created_at : ℕ
  pub last_seen_at : ℕ
  pub absolute_exp : ℕ

unfoldable pub is_expired : Session → ℕ → ℕ → Bool
is_expired s now idle_ttl =
    if not (s.absolute_exp == 0) && ltb s.absolute_exp now
    then true
    else if ltb idle_ttl (now - s.last_seen_at)
    then true
    else false

unfoldable pub touched : Session → ℕ → Session
touched s now = record s { last_seen_at = now }

pub data SessionError : Type 0 where
  session_not_found session_expired ip_mismatch : SessionError
  global_limit_exceeded invalid_arguments : SessionError

pub data Result (A : Type 0) : Type 0 where
  ok : A → Result A
  err : SessionError → Result A

pub record Store : Type 0 where
  pub sessions : GoMap String Session
  pub user_sessions : GoMap String (List String)
  pub client_index : GoMap String String
  pub idle_ttl : ℕ
  pub per_user_limit : ℕ
  pub global_limit : ℕ

abbrev pub default_idle_ttl : ℕ
default_idle_ttl = 15 * 60 * 1000000000

abbrev pub max_sessions_per_user : ℕ
max_sessions_per_user = 5

abbrev pub max_global_sessions : ℕ
max_global_sessions = 10000

unfoldable pub new_store : ℕ → Store
new_store idle_ttl = record {
  sessions = [];
  user_sessions = [];
  client_index = [];
  idle_ttl = if idle_ttl == 0 then default_idle_ttl else idle_ttl;
  per_user_limit = max_sessions_per_user;
  global_limit = max_global_sessions;
}

-- s.userSessions[username]; a missing user reads as the empty slice.
unfoldable pub slice : String → Store → List String
slice username s = get_or username [] s.user_sessions

abbrev store_slice : String → List String → Store → Store
store_slice username hashes s =
    if is_empty hashes
    then record s { user_sessions = delete username s.user_sessions }
    else record s { user_sessions = insert username hashes s.user_sessions }

unfoldable pub remove_from_user_slice : String → String → Store → Store
remove_from_user_slice username hash_id s = elim (get username s.user_sessions) [
  | none ↦ s
  | some hashes ↦ store_slice username (without hash_id hashes) s
]

-- One turn of the second loop of purgeExpiredLocked.
unfoldable pub purge_one : String → Store → Store
purge_one hash_id s = elim (get hash_id s.sessions) [
  | none ↦ record s { sessions = delete hash_id s.sessions }
  | some sess ↦ remove_from_user_slice sess.username hash_id (record s {
    sessions = delete hash_id s.sessions;
    client_index = delete sess.client_id s.client_index;
  })
]

unfoldable pub purge_all : List String → Store → Store
purge_all [] s = s
purge_all (h ∷ hs) s = purge_all hs (purge_one h s)

unfoldable pub expired_hashes : ℕ → Store → List String
expired_hashes now s = keys (keep (λ e. is_expired e.1 now s.idle_ttl) s.sessions)

unfoldable pub purge_expired : ℕ → Store → Store
purge_expired now s = purge_all (expired_hashes now s) s

-- The global cap of CreateSession: a full store is swept once before it refuses.
unfoldable pub make_room : ℕ → Store → Store
make_room now s = if leb s.global_limit (length s.sessions) then purge_expired now s else s

-- The client index once the client of a session that is found has been deleted from it.
unindexed : Option Session → GoMap String String → GoMap String String
unindexed none index = index
unindexed (some old) index = delete old.client_id index

-- The per-user cap: the oldest session goes. (`userHashes[0]` of an empty slice would panic; the
-- limit is 5, so a slice that reached it is not empty.)
unfoldable pub evict_oldest : String → Store → Store
unfolding unindexed
evict_oldest username s =
    if leb s.per_user_limit (length (slice username s))
    then elim (slice username s) [
      | [] ↦ s
      | oldest ∷ rest ↦ record s {
        sessions = delete oldest s.sessions;
        user_sessions = insert username rest s.user_sessions;
        client_index = unindexed (get oldest s.sessions) s.client_index;
      }
    ]
    else s

-- A client that comes back loses its previous session.
unfoldable pub remove_previous : String → String → Store → Store
remove_previous username client_id s = elim (get client_id s.client_index) [
  | none ↦ s
  | some prev ↦
      remove_from_user_slice username prev (record s { sessions = delete prev s.sessions })
]

unfoldable pub add_session : Session → Store → Store
add_session sess s = record s {
  sessions = insert sess.hash_id sess s.sessions;
  user_sessions = insert sess.username (slice sess.username s ++ sess.hash_id ∷ []) s.user_sessions;
  client_index =
      if sess.client_id == ""
      then s.client_index
      else insert sess.client_id sess.hash_id s.client_index;
}

-- CreateSession between Lock and Unlock, for the session to be stored.
unfoldable pub create_locked : Session → ℕ → Store → Result Session × Store
create_locked sess now s =
    let s' = make_room now s in
    if leb s'.global_limit (length s'.sessions) then (err global_limit_exceeded, s') else (
      ok sess,
      add_session sess
          (remove_previous sess.username sess.client_id (evict_oldest sess.username s')),
    )

unfoldable pub active_count : Store → ℕ
active_count s = length s.sessions

unfoldable pub extract_ip : String → String
extract_ip addr =
    if addr == ""
    then ""
    else elim (split_host_port addr) [ some host ↦ host | none ↦ trim is_bracket addr ]

-- `hash_sst` is HashSST: SHA-256 in hexadecimal.
module _ (hash_sst : String → String) where
  unfoldable pub new_session : String → String → String → String → String → String → ℕ → ℕ → Session
  new_session raw username client_id peer_addr callback_addr root_fid absolute_exp now = record {
    hash_id = hash_sst raw;
    username = username;
    client_id = client_id;
    client_ip = extract_ip peer_addr;
    callback_addr = callback_addr;
    root_fid = root_fid;
    created_at = now;
    last_seen_at = now;
    absolute_exp = absolute_exp;
  }

  unfoldable pub create_session :
      String → String → String → String → String → String → ℕ → ℕ → Store → Result Session × Store
  unfolding new_session
  create_session raw username client_id peer_addr callback_addr root_fid absolute_exp now s =
      if raw == "" || username == ""
      then (err invalid_arguments, s)
      else create_locked
          (new_session raw username client_id peer_addr callback_addr root_fid absolute_exp now) now
          s
