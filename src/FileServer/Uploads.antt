-- ===== src/FileServer/Uploads.antt =====
-- UploadFile of internal/fileserver/handler.go: a stream of chunks. `reads` is whether a file opens for
-- hashing and can be read; the hash itself is only logged. The list of chunks ends where the stream
-- ends, or where it breaks.
use distributed_virtual_file.Prelude.{
  ℕ, String, Bool, false, Option, none, some, List, [], ◌∷◌, if◌then◌else◌, ◌==◌, string_eq,
}
use distributed_virtual_file.FileServer.{
  Fid, is_directory, Inode, FileServer, write, AuthError, ok, err, authorize, get_inode,
  child_by_name,
}
use distributed_virtual_file.FileServer.Sharing.{Notice}
use distributed_virtual_file.FileServer.Quota.{WriteError, write_file}
use distributed_virtual_file.FileServer.Files.{
  FileError, parent_missing, missing, not_a_file, open_failed,
}
use distributed_virtual_file.FileServer.Deletion.{delete_file}
use distributed_virtual_file.FileServer.Handlers.{Env, effective}

unfoldable pub hash_in : (String → Bool) → String → Option Inode → FileServer → Option FileError
hash_in reads name none fs = some parent_missing
hash_in reads name (some dir) fs = elim (child_by_name name dir.children fs.inodes) [
  | none ↦ some missing
  | some x ↦
      if is_directory x.kind
      then some not_a_file
      else if reads x.os_path
      then none
      else some open_failed
]

-- GetFileHash, its errors.
unfoldable pub get_file_hash :
    Env → (String → Bool) → Fid → String → FileServer → Option FileError × FileServer
get_file_hash env reads fid name fs =
    let found = get_inode env.stat fid fs in (hash_in reads name found.0 found.1, found.1)

unfoldable pub cleanup_found :
    Env → String → String → Option Inode → FileServer → FileServer × List Notice
cleanup_found env name user none fs = (fs, [])
cleanup_found env name user (some dir) fs = elim (child_by_name name dir.children fs.inodes) [
  | none ↦ (fs, [])
  | some x ↦
      let deleted = delete_file env.stat env.removes env.fuel (some x.fid) user false fs in
      (deleted.1, deleted.2)
]

-- cleanupFailedUpload
unfoldable pub cleanup_failed_upload :
    Env → Fid → String → String → FileServer → FileServer × List Notice
cleanup_failed_upload env fid name user fs =
    let found = get_inode env.stat fid fs in
    if name == "" then (fs, []) else cleanup_found env name user found.0 found.1

pub record Chunk : Type 0 where
  pub parent_fid : Option Fid
  pub name : String
  pub user : String
  pub offset : ℕ
  pub len : ℕ

-- The variables of the loop, once a chunk has been taken.
pub record Upload : Type 0 where
  pub parent : Fid
  pub name : String
  pub user : String

pub data UploadFailure : Type 0 where
  no_parent stream_broken panics : UploadFailure
  unauthorised : AuthError → UploadFailure
  not_hashed : FileError → UploadFailure
  not_written : WriteError → UploadFailure

abbrev pub UploadReply : Type 0
UploadReply = Option UploadFailure × FileServer × List Notice

unfoldable pub write_chunk : Env → Upload → Chunk → FileServer → Option WriteError × FileServer
write_chunk env u c fs = write_file env.stat env.fuel env.disk u.parent u.name c.offset c.len fs

unfoldable pub abandon : Env → UploadFailure → Upload → FileServer → UploadReply
abandon env f u fs =
    let cleaned = cleanup_failed_upload env u.parent u.name u.user fs in
    (some f, cleaned.0, cleaned.1)

unfoldable pub finish : Env → (String → Bool) → Bool → Upload → FileServer → UploadReply
finish env reads broken u fs =
    let hashed = get_file_hash env reads u.parent u.name fs in
    if broken
    then abandon env stream_broken u fs
    else (elim hashed.0 [ none ↦ none | some e ↦ some (not_hashed e) ], hashed.1, [])

-- The turns of the loop after the first: the directory and the user are those of the chunk, and
-- Authorize is not called.
unfoldable pub receive :
    Env → (String → Bool) → Bool → List Chunk → Upload → FileServer → UploadReply
receive env reads broken [] u fs = finish env reads broken u fs
receive env reads broken (c ∷ cs) u fs = elim c.parent_fid [
  | none ↦ (some no_parent, fs, [])
  | some fid ↦
      let now : Upload = record {
        parent = fid;
        name = u.name;
        user = if c.user == "" then u.user else c.user;
      } in
      let written = write_chunk env now c fs in
      let rest = receive env reads broken cs now written.1 in
      elim written.0 [ none ↦ rest | some e ↦ abandon env (not_written e) now written.1 ]
]

unfoldable pub first_written :
    Env → (String → Bool) → Bool → Chunk → List Chunk → Upload → FileServer → UploadReply
first_written env reads broken c cs u fs =
    let hashed = get_file_hash env reads u.parent u.name fs in
    let written = write_chunk env u c hashed.1 in
    elim hashed.0 [
      | some e ↦ (some (not_hashed e), hashed.1, [])
      | none ↦ elim written.0 [
        | none ↦ receive env reads broken cs u written.1
        | some e ↦ abandon env (not_written e) u written.1
      ]
    ]

unfoldable pub receive_first :
    Env
    → (String → Bool)
    → Option String
    → Bool
    → Chunk
    → List Chunk
    → Fid
    → FileServer
    → UploadReply
receive_first env reads caller broken c cs fid fs =
    elim (authorize env.equal_fold env.admin_email caller (some fid) write fs) [
      | err e ↦ (some (unauthorised e), fs, [])
      | ok r ↦
          first_written env reads broken c cs
            (record { parent = fid; name = c.name; user = effective r.1 c.user }) fs
    ]

-- UploadFile. A stream that ends before a chunk asks for the inode of a nil FID, which panics.
unfoldable pub upload_file :
    Env → (String → Bool) → Option String → Bool → List Chunk → FileServer → UploadReply
upload_file env reads caller broken [] fs =
    (if broken then some stream_broken else some panics, fs, [])
upload_file env reads caller broken (c ∷ cs) fs = elim c.parent_fid [
  | none ↦ (some no_parent, fs, [])
  | some fid ↦ receive_first env reads caller broken c cs fid fs
]
