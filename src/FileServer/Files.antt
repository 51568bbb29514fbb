-- ===== src/FileServer/Files.antt =====
-- CreateFile and ReadFile of
-- internal/fileserver/fileserver.go. `makes` is what os.MkdirAll, os.Mkdir and os.Create answer for a
-- path. ACL files are left out.
use distributed_virtual_file.Prelude.{
  ℕ, ◌+◌, ◌-◌, ◌%◌, String, Bool, not, ◌||◌, Option, none, some, [], if◌then◌else◌, ◌==◌, nat_eq,
  string_eq, ltb, leb, any,
}
use distributed_virtual_file.GoMap.{is_some}
use distributed_virtual_file.GoText.{chars, is_char, strip_prefix}
use distributed_virtual_file.GoPath.{clean, base, join, rel, is_rooted}
use distributed_virtual_file.FileServer.{
  Fid, fid_eq, InodeType, is_directory, Inode, FileServer, Result, ok, err, get_inode,
  child_by_name,
}
use distributed_virtual_file.FileServer.Quota.{two_64}
use distributed_virtual_file.FileServer.Trash.{trash_dir_name, assign_fid, link, is_under_trash}

pub data FileError : Type 0 where
  invalid_name reserved_name parent_missing not_a_directory inside_trash no_path create_failed :
      FileError
  missing not_a_file open_failed trash_denied incorrect_path no_parent : FileError

-- A name that CreateFile refuses.
unfoldable pub is_invalid_name : String → Bool
is_invalid_name name =
    name == ""
    || name == "."
    || name == ".."
    || any (is_char b'/') (chars name)
    || any (is_char 92) (chars name)
    || not (clean name == name)
    || is_rooted (chars name)
    || not (base name == name)

unfoldable pub is_reserved_name : String → Bool
is_reserved_name name =
    name == trash_dir_name
    || name == ".dvfs_inodes_index.json"
    || name == "quota_config.json"
    || is_some (strip_prefix ".dvfs_" name)

unfoldable pub create_in :
    (String → Bool)
    → Inode
    → String
    → InodeType
    → String
    → FileServer
    → Result FileError Fid × FileServer
create_in makes dir name kind rel_path fs =
    let path = join dir.os_path name in
    let assigned = assign_fid rel_path fs in
    let x : Inode = record {
      fid = assigned.0;
      kind = kind;
      name = name;
      os_path = path;
      acl = record { owner = dir.acl.owner; shared = dir.acl.shared };
      children = [];
      size = 0;
      parent = some dir.fid;
    } in
    if makes path then (ok assigned.0, link dir.fid x assigned.1) else (err create_failed, fs)

unfoldable pub create_new :
    (String → Bool) → Inode → String → InodeType → FileServer → Result FileError Fid × FileServer
create_new makes dir name kind fs = elim (rel fs.root_dir (join dir.os_path name)) [
  | none ↦ (err no_path, fs)
  | some path ↦ create_in makes dir name kind path fs
]

unfoldable pub create_under :
    (String → Bool)
    → ℕ
    → Inode
    → String
    → String
    → InodeType
    → FileServer
    → Result FileError Fid × FileServer
create_under makes fuel dir name user kind fs =
    let trash = is_under_trash makes fuel dir user fs in
    if not (is_directory dir.kind)
    then (err not_a_directory, fs)
    else elim (child_by_name name dir.children fs.inodes) [
      | some x ↦ (ok x.fid, fs)
      | none ↦
          if trash.0 then (err inside_trash, trash.1) else create_new makes dir name kind trash.1
    ]

unfoldable pub create_found :
    (String → Bool)
    → ℕ
    → Option Inode
    → String
    → String
    → InodeType
    → FileServer
    → Result FileError Fid × FileServer
create_found makes fuel none name user kind fs = (err parent_missing, fs)
create_found makes fuel (some dir) name user kind fs = create_under makes fuel dir name user kind fs

-- CreateFile
unfoldable pub create_file :
    (String → Option ℕ)
    → (String → Bool)
    → ℕ
    → Fid
    → String
    → String
    → InodeType
    → FileServer
    → Result FileError Fid × FileServer
create_file stat makes fuel parent_fid name user kind fs =
    let found = get_inode stat parent_fid fs in
    if is_invalid_name name
    then (err invalid_name, fs)
    else if is_reserved_name name
    then (err reserved_name, fs)
    else create_found makes fuel found.0 name user kind found.1

-- The bytes that ReadFile makes room for; the sum is a uint64.
unfoldable pub read_len : ℕ → ℕ → ℕ → ℕ
read_len file_size offset len =
    if len == 0 || ltb file_size ((offset + len) % two_64) then file_size - offset else len

-- What ReadFile answers with: nothing past the end, or the bytes of a path from an offset, for which it
-- has made room.
pub data Reading : Type 0 where
  no_bytes : Reading
  bytes_of : String → ℕ → ℕ → Reading

unfoldable pub read_inode : (String → Option ℕ) → ℕ → ℕ → Inode → Result FileError Reading
read_inode opened offset len x =
    if is_directory x.kind then err not_a_file else elim (opened x.os_path) [
      | none ↦ err open_failed
      | some file_size ↦
          if leb file_size offset
          then ok no_bytes
          else ok (bytes_of x.os_path offset (read_len file_size offset len))
    ]

unfoldable pub read_in :
    (String → Option ℕ) → String → ℕ → ℕ → Option Inode → FileServer → Result FileError Reading
read_in opened name offset len none fs = err parent_missing
read_in opened name offset len (some dir) fs = elim (child_by_name name dir.children fs.inodes) [
  | none ↦ err missing
  | some x ↦ read_inode opened offset len x
]

-- ReadFile, up to the read itself; `opened` is the size that an opened file reports, none if it cannot be opened. Its parent
-- is read with GetInode, which refreshes the parent's size if the parent is a file.
unfoldable pub read_file :
    (String → Option ℕ)
    → (String → Option ℕ)
    → Fid
    → String
    → ℕ
    → ℕ
    → FileServer
    → Result FileError Reading × FileServer
read_file stat opened parent_fid name offset len fs =
    let found = get_inode stat parent_fid fs in
    (read_in opened name offset len found.0 found.1, found.1)
