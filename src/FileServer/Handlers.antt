-- ===== src/FileServer/Handlers.antt =====
-- internal/fileserver/handler.go: the requests that change a file server. The context of a request is
-- the caller that the session names, none without one. Callbacks to other clients and metrics are left
-- out. `password` is whether the metadata of SetQuota holds the administrator's password.
pub mod Entitled
use distributed_virtual_file.Prelude.{
  ℕ, String, Bool, true, false, not, ◌||◌, ◌&&◌, Option, none, some, List, [], ◌∷◌, if◌then◌else◌,
  ◌==◌, nat_eq, string_eq, any, is_empty,
}
use distributed_virtual_file.GoText.{chars, is_char}
use distributed_virtual_file.GoPath.{clean, is_rooted}
use distributed_virtual_file.FileServer.{
  Fid, InodeType, Inode, FileServer, Permission, write, delete, AuthError, Result, ok, err,
  authorize, get_inode,
}
use distributed_virtual_file.FileServer.Sharing.{ShareError, Notice, Outcome, share, unshare}
use distributed_virtual_file.FileServer.Quota.{
  QuotaError, WriteError, Disk, check_storage_quota_with_additional, set_user_quota, write_file,
}
use distributed_virtual_file.FileServer.Files.{FileError, create_file}
use distributed_virtual_file.FileServer.Deletion.{Refusal, delete_file}
use distributed_virtual_file.FileServer.Moves.{MoveError, trash_file}
use distributed_virtual_file.FileServer.Restores.{restore_file}

-- What the handlers call outside of the repository, the fuel, and the environment variables.
-- `quota_admin` is DVFS_ADMIN_EMAIL as SetQuota reads it, trimmed and in lower case.
pub record Env : Type 0 where
  pub stat : String → Option ℕ
  pub makes : String → Bool
  pub moves : String → String → Bool
  pub removes : String → Bool
  pub disk : Disk
  pub persisted : Bool
  pub fuel : ℕ
  pub equal_fold : String → String → Bool
  pub admin_email : String
  pub quota_admin : String

pub data Failure : Type 0 where
  incomplete nested_path on_behalf another_root username_mismatch not_admin : Failure
  unauthorised : AuthError → Failure
  over_quota : QuotaError → Failure
  share_failed : ShareError → Failure
  file_failed : FileError → Failure
  write_failed : WriteError → Failure
  delete_failed : Refusal → Failure
  move_failed : MoveError → Failure

abbrev pub Reply : Type 0
Reply = Option Failure × FileServer × List Notice

abbrev pub fails : Failure → FileServer → Reply
fails f fs = (some f, fs, [])

abbrev pub wrap : {E : Type 0} → (E → Failure) → Option E → Option Failure
wrap f none = none
wrap f (some e) = some (f e)

abbrev pub error_of : {E A : Type 0} → Result E A → Option E
error_of (ok a) = none
error_of (err e) = some e

-- What follows an Authorize, with the caller that it returns.
unfoldable pub guard :
    Env → Option String → Option Fid → Permission → (String → Reply) → FileServer → Reply
guard env caller fid perm act fs =
    elim (authorize env.equal_fold env.admin_email caller fid perm fs) [
      | err e ↦ fails (unauthorised e) fs
      | ok r ↦ act r.1
    ]

abbrev pub share_reply : Outcome → Reply
share_reply o = (wrap share_failed o.0, o.1, o.2)

abbrev pub effective : String → String → String
effective caller username = if caller == "" then username else caller

unfoldable pub share_as : Env → (String → Outcome) → String → String → FileServer → Reply
share_as env act username caller fs =
    if not (caller == "") && not (env.equal_fold caller username)
    then fails on_behalf fs
    else share_reply (act (effective caller username))

unfoldable pub handle_share :
    Env → Option String → String → Option Fid → String → FileServer → Reply
handle_share env caller username none share_with fs = fails incomplete fs
handle_share env caller username (some fid) share_with fs =
    if username == "" || share_with == ""
    then fails incomplete fs
    else guard env caller (some fid) delete
        (λ who.
          share_as env (λ user. share env.stat env.fuel user share_with fid fs) username who fs)
        fs

unfoldable pub handle_unshare :
    Env → Option String → String → Option Fid → String → FileServer → Reply
handle_unshare env caller username none unshare_with fs = fails incomplete fs
handle_unshare env caller username (some fid) unshare_with fs =
    if username == "" || unshare_with == ""
    then fails incomplete fs
    else guard env caller (some fid) delete
        (λ who.
          share_as env (λ user. unshare env.stat env.fuel user unshare_with fid fs) username who fs)
        fs

unfoldable pub is_nested : String → Bool
is_nested name =
    any (is_char b'/') (chars name)
    || any (is_char 92) (chars name)
    || name == ".."
    || name == "."
    || not (clean name == name)
    || is_rooted (chars name)

unfoldable pub create_as : Env → Option Fid → String → String → InodeType → FileServer → Reply
create_as env none name user kind fs = fails incomplete fs
create_as env (some fid) name user kind fs =
    let made = create_file env.stat env.makes env.fuel fid name user kind fs in
    (wrap file_failed (error_of made.0), made.1, [])

unfoldable pub handle_create :
    Env → Option String → String → String → ℕ → Option Fid → InodeType → FileServer → Reply
handle_create env caller name root_user size fid kind fs =
    let authorised =
      guard env caller fid write (λ who. create_as env fid name (effective who root_user) kind fs)
        fs in
    if name == "" || root_user == ""
    then fails incomplete fs
    else elim (check_storage_quota_with_additional env.disk.free root_user size fs) [
      | some e ↦ fails (over_quota e) fs
      | none ↦ if is_nested name then fails nested_path fs else authorised
    ]

unfoldable pub write_as : Env → Option Fid → String → ℕ → ℕ → FileServer → Reply
write_as env none name offset len fs = fails incomplete fs
write_as env (some fid) name offset len fs =
    let written = write_file env.stat env.fuel env.disk fid name offset len fs in
    (wrap write_failed written.0, written.1, [])

unfoldable pub handle_write : Env → Option String → Option Fid → String → ℕ → ℕ → FileServer → Reply
handle_write env caller fid name offset len fs =
    if name == ""
    then fails incomplete fs
    else guard env caller fid write (λ who. write_as env fid name offset len fs) fs

-- The handler reads the inode for its callbacks, which refreshes the size, before it deletes.
unfoldable pub delete_as : Env → Fid → String → Bool → FileServer → Reply
delete_as env fid user recursive fs =
    let read = (get_inode env.stat fid fs).1 in
    let deleted = delete_file env.stat env.removes env.fuel (some fid) user recursive read in
    if user == "" then fails incomplete fs else (wrap delete_failed deleted.0, deleted.1, deleted.2)

unfoldable pub handle_delete : Env → Option String → Option Fid → String → Bool → FileServer → Reply
handle_delete env caller none root_user recursive fs = fails incomplete fs
handle_delete env caller (some fid) root_user recursive fs =
    guard env caller (some fid) delete
      (λ who. delete_as env fid (effective who root_user) recursive fs) fs

unfoldable pub trash_as : Env → Fid → String → Bool → FileServer → Reply
trash_as env fid user recursive fs =
    let moved = trash_file env.stat env.makes env.moves env.fuel (some fid) user recursive fs in
    if user == ""
    then fails incomplete fs
    else (wrap move_failed (error_of moved.0), moved.1, moved.2)

unfoldable pub handle_trash : Env → Option String → Option Fid → String → Bool → FileServer → Reply
handle_trash env caller none root_user recursive fs = fails incomplete fs
handle_trash env caller (some fid) root_user recursive fs =
    guard env caller (some fid) delete
      (λ who. trash_as env fid (effective who root_user) recursive fs) fs

abbrev pub caller_name : Option String → String
caller_name none = ""
caller_name (some c) = c

unfoldable pub handle_restore :
    Env → Option String → Option Fid → String → String → FileServer → Reply
handle_restore env caller none root_user username fs = fails incomplete fs
handle_restore env caller (some fid) root_user username fs =
    let who = caller_name caller in
    let moved =
      restore_file env.stat env.makes env.moves env.fuel (some fid) root_user username fs in
    if root_user == "" || username == ""
    then fails incomplete fs
    else if not (who == "") && not (env.equal_fold who root_user)
    then fails another_root fs
    else if not (who == "") && not (env.equal_fold who username)
    then fails username_mismatch fs
    else (wrap move_failed (error_of moved.0), moved.1, moved.2)

-- Without a caller, nothing is checked.
unfoldable pub is_refused_quota : Env → Option String → Bool → Bool
is_refused_quota env caller password =
    let who = caller_name caller in
    not (who == "")
    && not (password || (not (env.quota_admin == "") && env.equal_fold who env.quota_admin))

unfoldable pub handle_set_quota : Env → Option String → Bool → String → ℕ → FileServer → Reply
handle_set_quota env caller password username bytes fs =
    let set = set_user_quota env.persisted username bytes fs in
    if username == "" || bytes == 0
    then fails incomplete fs
    else if is_refused_quota env caller password
    then fails not_admin fs
    else (wrap over_quota set.0, set.1, [])

pub data Request : Type 0 where
  share_request unshare_request : String → Option Fid → String → Request
  create_request : String → String → ℕ → Option Fid → InodeType → Request
  write_request : Option Fid → String → ℕ → ℕ → Request
  delete_request trash_request : Option Fid → String → Bool → Request
  restore_request : Option Fid → String → String → Request
  set_quota_request : Bool → String → ℕ → Request

unfoldable pub handle : Env → Option String → Request → FileServer → Reply
handle env caller (share_request username fid user) fs =
    handle_share env caller username fid user fs
handle env caller (unshare_request username fid user) fs =
    handle_unshare env caller username fid user fs
handle env caller (create_request name root_user size fid kind) fs =
    handle_create env caller name root_user size fid kind fs
handle env caller (write_request fid name offset len) fs =
    handle_write env caller fid name offset len fs
handle env caller (delete_request fid root_user recursive) fs =
    handle_delete env caller fid root_user recursive fs
handle env caller (trash_request fid root_user recursive) fs =
    handle_trash env caller fid root_user recursive fs
handle env caller (restore_request fid root_user username) fs =
    handle_restore env caller fid root_user username fs
handle env caller (set_quota_request password username bytes) fs =
    handle_set_quota env caller password username bytes fs
