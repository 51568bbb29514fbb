-- ===== src/Session/Revoke.antt =====
-- The revocations of internal/fileserver/session/store.go.
use distributed_virtual_file.Prelude.{String, none, some, List, [], ◌∷◌, string_eq}
use distributed_virtual_file.GoMap.{get, delete}
use distributed_virtual_file.Session.{Store, unindexed, remove_from_user_slice}

-- RevokeSession, for the hash of the token.
unfoldable pub revoke_hash : String → Store → Store
revoke_hash hash_id s = elim (get hash_id s.sessions) [
  | none ↦ s
  | some sess ↦ remove_from_user_slice sess.username hash_id (record s {
    sessions = delete hash_id s.sessions;
    client_index = delete sess.client_id s.client_index;
  })
]

unfoldable pub drop_client_session : String → String → Store → Store
drop_client_session client_id hash_id s =
    let s' : Store = record s {
      sessions = delete hash_id s.sessions;
      client_index = delete client_id s.client_index;
    } in
    elim (get hash_id s.sessions) [
      | none ↦ s'
      | some sess ↦ remove_from_user_slice sess.username hash_id s'
    ]

unfoldable pub revoke_by_client_id : String → Store → Store
unfolding drop_client_session
revoke_by_client_id client_id s = elim (get client_id s.client_index) [
  | none ↦ s
  | some hash_id ↦ drop_client_session client_id hash_id s
]

-- One turn of the loop of RevokeAllForUser.
unfoldable pub drop_hash : String → Store → Store
unfolding unindexed
drop_hash hash_id s = record s {
  sessions = delete hash_id s.sessions;
  client_index = unindexed (get hash_id s.sessions) s.client_index;
}

unfoldable pub drop_hashes : List String → Store → Store
unfolding drop_hash
drop_hashes [] s = s
drop_hashes (h ∷ hs) s = drop_hashes hs (drop_hash h s)

unfoldable pub revoke_all_for_user : String → Store → Store
revoke_all_for_user username s = elim (get username s.user_sessions) [
  | none ↦ s
  | some hashes ↦
      let s' = drop_hashes hashes s in
      record s' { user_sessions = delete username s'.user_sessions }
]

unfoldable pub revoke_session : (String → String) → String → Store → Store
revoke_session hash_sst raw s = revoke_hash (hash_sst raw) s
