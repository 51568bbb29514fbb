-- ===== src/FileServer/Examples/Requests.antt =====
-- A request to the server of the examples.
use distributed_virtual_file.Prelude.{◌≡◌, refl, true, none, some, ◌==◌, string_eq}
use distributed_virtual_file.GoMap.{get}
use distributed_virtual_file.FileServer.{
  authorize, authorize_inode, allows, user_can_access_inode, get_inode, refresh, child_by_name,
}
use distributed_virtual_file.FileServer.Examples.{fid_of, server, no_stat}
use distributed_virtual_file.FileServer.Examples.Writes.{disk, removes}
use distributed_virtual_file.FileServer.Quota.{
  user_quota, next, climb, write_file, write_in, write_found, write_inode, refusal, over_limits,
  exceeds, disk_is_full,
}
use distributed_virtual_file.FileServer.Handlers.{
  Env, guard, write_as, handle_write, write_request, handle,
}
use distributed_virtual_file.FileServer.Handlers.Entitled.{IsEntitled, handle-IsEntitled}

abbrev pub env : Env
env = record {
  stat = no_stat;
  makes = removes;
  moves = λ from to. true;
  removes = removes;
  disk = disk;
  persisted = true;
  fuel = 5;
  equal_fold = λ s t. s == t;
  admin_email = "";
  quota_admin = "";
}

-- A user whom the directory is shared with writes to a file in it.
accepted : (handle env (some "bob") (write_request (some (fid_of 1)) "note" 50 200) server).0 ≡ none
unfolding handle handle_write guard authorize authorize_inode allows user_can_access_inode write_as
    write_file write_in write_found write_inode refusal over_limits exceeds disk_is_full user_quota
    climb next child_by_name get_inode refresh get
accepted = refl

handle-IsEntitled_example :
    IsEntitled env "bob" (write_request (some (fid_of 1)) "note" 50 200) server
handle-IsEntitled_example =
    handle-IsEntitled env "bob" (write_request (some (fid_of 1)) "note" 50 200) server refl accepted
