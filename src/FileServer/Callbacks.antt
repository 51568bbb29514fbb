-- ===== src/FileServer/Callbacks.antt =====
-- internal/fileserver/callback_server.go: the sessions that callbacks go to, by username. FID strings
-- are FIDs, the empty one none. Times are nanoseconds, and 0 is the zero time. The calls to clients
-- are left out: what a call answers is the argument of record_callback_result.
pub mod Failures
use distributed_virtual_file.Prelude.{
  ℕ, ◌+◌, ◌-◌, String, Bool, true, false, not, ◌||◌, ◌&&◌, Option, none, some, List, [], ◌∷◌, map,
  if◌then◌else◌, ◌==◌, nat_eq, string_eq, ltb, leb, keep,
}
use distributed_virtual_file.GoMap.{GoMap, get, insert, delete}
use distributed_virtual_file.FileServer.{Fid, fid_eq}

pub record ClientSession : Type 0 where
  pub username : String
  pub callback_address : String
  pub root_fid : Option Fid
  pub current_dir_fid : Option Fid
  pub last_seen_at : ℕ
  pub consecutive_failures : ℕ

abbrev pub Sessions : Type 0
Sessions = GoMap String ClientSession

-- 45 seconds.
abbrev pub active_session_ttl : ℕ
active_session_ttl = 45000000000

abbrev pub max_callback_failures : ℕ
max_callback_failures = 3

unfoldable pub remove_client_session : String → Sessions → Sessions
remove_client_session user m = if user == "" then m else delete user m

abbrev pub blank_session : String → ClientSession
blank_session user = record {
  username = user;
  callback_address = "";
  root_fid = none;
  current_dir_fid = none;
  last_seen_at = 0;
  consecutive_failures = 0;
}

unfoldable pub with_root : Option Fid → ClientSession → ClientSession
with_root none s = s
with_root (some fid) s = record s { root_fid = some fid; current_dir_fid = some fid }

unfoldable pub refreshed : ℕ → String → Option Fid → ClientSession → ClientSession
refreshed now address root s =
    let seen : ClientSession = record s {
      callback_address = if address == "" then s.callback_address else address;
      last_seen_at = now;
      consecutive_failures = 0;
    } in
    with_root root seen

unfoldable pub upsert_client_session : ℕ → String → String → Option Fid → Sessions → Sessions
upsert_client_session now user address root m =
    let s : ClientSession = elim (get user m) [ none ↦ blank_session user | some s ↦ s ] in
    if user == "" then m else insert user (refreshed now address root s) m

abbrev pub seen_at : ℕ → ClientSession → ClientSession
seen_at now s = record s { last_seen_at = now }

unfoldable pub touch_client_activity : ℕ → String → Sessions → Sessions
touch_client_activity now user m =
    if user == ""
    then m
    else elim (get user m) [ none ↦ m | some s ↦ insert user (seen_at now s) m ]

abbrev pub is_fid : Fid → Option Fid → Bool
is_fid fid none = false
is_fid fid (some f) = f == fid

abbrev pub change_if :
    (ClientSession → Bool) → (ClientSession → ClientSession) → Sessions → Sessions
change_if p f m = map (λ e. (e.0, if p e.1 then f e.1 else e.1)) m

unfoldable pub touch_by_root_fid : ℕ → Option Fid → Sessions → Sessions
touch_by_root_fid now none m = m
touch_by_root_fid now (some root) m = change_if (λ s. is_fid root s.root_fid) (seen_at now) m

unfoldable pub update_current_dir : ℕ → Option Fid → Option Fid → Sessions → Sessions
update_current_dir now none dir m = m
update_current_dir now (some root) none m = m
update_current_dir now (some root) (some dir) m =
    change_if (λ s. is_fid root s.root_fid)
      (λ s. record s { current_dir_fid = some dir; last_seen_at = now }) m

-- The difference of two times is not negative here; where it is, the code takes the session as active,
-- and so does the difference 0.
unfoldable pub is_active : ℕ → ClientSession → Bool
is_active now s =
    if s.last_seen_at == 0 then false else leb (now - s.last_seen_at) active_session_ttl

unfoldable pub is_target : ℕ → Fid → String → ClientSession → Bool
is_target now dir origin s =
    if s.callback_address == ""
    then false
    else if s.username == origin
    then false
    else if not (is_active now s)
    then false
    else is_fid dir s.current_dir_fid

-- snapshotNotifyTargetsForDirLocked
unfoldable pub notify_targets : ℕ → Fid → String → Sessions → List ClientSession
notify_targets now dir origin m = keep (is_target now dir origin) (map (λ e. e.1) m)

unfoldable pub record_failure : String → ClientSession → Sessions → Sessions
record_failure user s m =
    let failures = s.consecutive_failures + 1 in
    if leb max_callback_failures failures
    then delete user m
    else insert user (record s { consecutive_failures = failures }) m

unfoldable pub record_callback_result : String → Bool → Sessions → Sessions
record_callback_result user success m = if user == "" then m else elim (get user m) [
  | none ↦ m
  | some s ↦
      if success
      then insert user (record s { consecutive_failures = 0 }) m
      else record_failure user s m
]
