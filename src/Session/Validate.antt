-- ===== src/Session/Validate.antt =====
-- ValidateSession and GetSessionByClientID of internal/fileserver/session/store.go.
use distributed_virtual_file.Prelude.{
  ℕ, String, Bool, not, ◌&&◌, Option, none, some, if◌then◌else◌, ◌==◌, string_eq,
}
use distributed_virtual_file.GoMap.{get, insert}
use distributed_virtual_file.Session.{
  Session, Store, Result, ok, err, session_not_found, session_expired, ip_mismatch, is_expired,
  touched, extract_ip,
}

unfoldable pub ip_differs : String → String → Bool
ip_differs bound current = not (bound == "") && not (current == "") && not (bound == current)

-- ValidateSession between RLock and RUnlock.
unfoldable pub check_found : Option Session → String → ℕ → ℕ → Result Session
check_found none current_ip now idle_ttl = err session_not_found
check_found (some sess) current_ip now idle_ttl =
    if is_expired sess now idle_ttl
    then err session_expired
    else if ip_differs sess.client_ip current_ip
    then err ip_mismatch
    else ok sess

-- ValidateSession between Lock and Unlock.
unfoldable pub touch : String → ℕ → Store → Store
touch hash_id now s = elim (get hash_id s.sessions) [
  | none ↦ s
  | some sess ↦ record s { sessions = insert hash_id (touched sess now) s.sessions }
]

-- The session that was read, after the refresh of the one that is stored under its hash, if any.
abbrev pub seen : Session → ℕ → Option Session → Session
seen sess now none = sess
seen sess now (some stored) = touched sess now

unfoldable pub get_session_by_client_id : String → ℕ → Store → Option Session
get_session_by_client_id client_id now s = elim (get client_id s.client_index) [
  | none ↦ none
  | some hash_id ↦ elim (get hash_id s.sessions) [
    | none ↦ none
    | some sess ↦ if is_expired sess now s.idle_ttl then none else some sess
  ]
]

module _ (hash_sst : String → String) where
  unfoldable pub check_session : String → String → ℕ → Store → Result Session
  check_session raw current_peer_addr now s =
      if raw == ""
      then err session_not_found
      else check_found (get (hash_sst raw) s.sessions) (extract_ip current_peer_addr) now s.idle_ttl

  -- ValidateSession: the checks under the read lock, on `s`, then the refresh under the write lock, on
  -- `later`, which is what other calls have made of the store in between (`s` again if there were
  -- none). The session that is returned is the object that was read, which the refresh changes if it
  -- is still stored; a hash is not used for two sessions. The revocation that an expired session
  -- spawns is a step of its own.
  unfoldable pub validate_session : String → String → ℕ → Store → Store → Result Session × Store
  validate_session raw current_peer_addr now s later =
      elim (check_session raw current_peer_addr now s) [
        | err e ↦ (err e, later)
        | ok sess ↦
            (ok (seen sess now (get (hash_sst raw) later.sessions)), touch (hash_sst raw) now later)
      ]
