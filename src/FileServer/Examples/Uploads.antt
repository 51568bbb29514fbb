-- ===== src/FileServer/Examples/Uploads.antt =====
-- An upload whose second chunk names another directory.
use distributed_virtual_file.Prelude.{ℕ, ◌≡◌, refl, false, Option, none, some, [], ◌∷◌, string_eq}
use distributed_virtual_file.GoMap.{get, insert, delete}
use distributed_virtual_file.FileServer.{
  fid_eq, file, directory, Inode, FileServer, user_can_access_inode, authorize, authorize_inode,
  allows, get_inode, refresh, child_by_name, modify,
}
use distributed_virtual_file.FileServer.Examples.{fid_of, root, docs, note, server}
use distributed_virtual_file.FileServer.Examples.Writes.{removes}
use distributed_virtual_file.FileServer.Examples.Requests.{env}
use distributed_virtual_file.FileServer.Quota.{
  user_quota, next, climb, grow, write_file, write_in, write_found, write_inode, refusal,
  over_limits, exceeds, disk_is_full,
}
use distributed_virtual_file.FileServer.Uploads.{
  Chunk, hash_in, get_file_hash, write_chunk, finish, receive, first_written, receive_first,
  upload_file,
}

-- A directory of the same owner that is not shared, with a file of the same name.
abbrev secrets : Inode
secrets = record {
  fid = fid_of 3;
  kind = directory;
  name = "secrets";
  os_path = "/data/ann/secrets";
  acl = record { owner = "ann"; shared = [] };
  children = fid_of 4 ∷ [];
  size = 0;
  parent = some (fid_of 0);
}

abbrev secret_note : Inode
secret_note = record {
  fid = fid_of 4;
  kind = file;
  name = "note";
  os_path = "/data/ann/secrets/note";
  acl = record { owner = "ann"; shared = [] };
  children = [];
  size = 0;
  parent = some (fid_of 3);
}

abbrev two_directories : FileServer
two_directories = record server {
  inodes =
      (fid_of 0, root)
      ∷ (fid_of 1, docs)
      ∷ (fid_of 2, note)
      ∷ (fid_of 3, secrets)
      ∷ (fid_of 4, secret_note)
      ∷ [];
}

abbrev chunk_to : ℕ → Chunk
chunk_to n = record { parent_fid = some (fid_of n); name = "note"; user = ""; offset = 0; len = 50 }

abbrev size_at : ℕ → FileServer → Option ℕ
unfolding get
size_at n fs = elim (get (fid_of n) fs.inodes) [ none ↦ none | some x ↦ some x.size ]

no_access : user_can_access_inode secret_note "bob" ≡ false
unfolding user_can_access_inode
no_access = refl

-- The file that the caller cannot access is written.
foreign_write :
    size_at 4
      (upload_file env removes (some "bob") false (chunk_to 1 ∷ chunk_to 3 ∷ []) two_directories).1
    ≡ some 50
unfolding size_at upload_file receive_first first_written receive finish write_chunk get_file_hash
    hash_in authorize authorize_inode allows user_can_access_inode write_file write_in write_found
    write_inode refusal over_limits exceeds disk_is_full user_quota climb grow next modify insert
    delete child_by_name get_inode refresh get
foreign_write = refl
