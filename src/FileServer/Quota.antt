-- ===== src/FileServer/Quota.antt =====
-- internal/fileserver/quota.go, and the quota checks and WriteFile of internal/fileserver/fileserver.go.
-- Sizes are uint64, so sums are taken modulo 2 ^ 64. The disk is a record of parameters: whether a file
-- opens, whether a write at an offset of a number of bytes succeeds, and the free bytes that
-- readDiskStats reports, 0 when it fails. The bytes written only reach the disk: here is their number.
pub mod Bounds
pub mod Writes
use distributed_virtual_file.Prelude.{
  ℕ, zero, suc, ◌+◌, ◌-◌, ◌*◌, ◌%◌, ◌^◌, String, Bool, true, false, not, Option, none, some, ◌||◌,
  ◌&&◌, if◌then◌else◌, ltb, leb, ◌==◌, nat_eq, string_eq,
}
use distributed_virtual_file.GoMap.{GoMap, get, insert}
use distributed_virtual_file.FileServer.{
  Fid, fid_eq, Inode, Inodes, InodeType, file, directory, is_directory, FileServer, get_inode,
  child_by_name, modify,
}

-- 16 GiB and 20 GiB.
abbrev pub default_storage_quota : ℕ
default_storage_quota = 17179869184

abbrev pub disk_safety_buffer : ℕ
disk_safety_buffer = 21474836480

-- The number of values of a uint64, and of those that int64 reads as 0 or more.
abbrev pub two_64 : ℕ
two_64 = 18446744073709551616

abbrev pub two_63 : ℕ
two_63 = 9223372036854775808

unfoldable pub user_quota : String → GoMap String ℕ → ℕ
user_quota user quotas = elim (get user quotas) [
  | none ↦ default_storage_quota
  | some q ↦ if ltb 0 q then q else default_storage_quota
]

pub data QuotaError : Type 0 where
  empty_username zero_quota not_persisted unknown_user root_missing quota_exceeded disk_limit :
      QuotaError

-- SetUserQuota; `persisted` is what saveQuotasLocked answers. A failure leaves the new quota in memory.
unfoldable pub set_user_quota : Bool → String → ℕ → FileServer → Option QuotaError × FileServer
set_user_quota persisted user bytes fs =
    if user == ""
    then (some empty_username, fs)
    else if bytes == 0
    then (some zero_quota, fs)
    else (
      if persisted then none else some not_persisted,
      record fs { quotas = insert user bytes fs.quotas },
    )

unfoldable pub exceeds : ℕ → ℕ → ℕ → Bool
exceeds size additional quota = ltb quota additional || ltb (quota - additional) size

unfoldable pub disk_is_full : ℕ → ℕ → Bool
disk_is_full free d =
    ltb 0 free && (leb free disk_safety_buffer || ltb (free - disk_safety_buffer) d)

-- checkStorageQuotaWithAdditional and, with 0 bytes, checkStorageQuota.
unfoldable pub check_root : ℕ → String → ℕ → Inode → FileServer → Option QuotaError
check_root free user additional root fs =
    if exceeds root.size additional (user_quota user fs.quotas)
    then some quota_exceeded
    else if ltb 0 additional && disk_is_full free additional
    then some disk_limit
    else none

unfoldable pub check_storage_quota_with_additional : ℕ → String → ℕ → FileServer → Option QuotaError
check_storage_quota_with_additional free user additional fs = elim (get user fs.users) [
  | none ↦ some unknown_user
  | some root_fid ↦ elim (get root_fid fs.inodes) [
    | none ↦ some root_missing
    | some root ↦ check_root free user additional root fs
  ]
]

unfoldable pub check_storage_quota : ℕ → String → FileServer → Option QuotaError
check_storage_quota free user fs = check_storage_quota_with_additional free user 0 fs

-- node.Parent, where the loops that climb go on.
unfoldable pub next : Fid → Inodes → Option Fid
next fid m = elim (get fid m) [
  | none ↦ none
  | some x ↦ elim x.parent [ none ↦ none | some p ↦ if p == fid then none else some p ]
]

-- The loop that finds the root, on fuel for the depth of the inode.
unfoldable pub climb : ℕ → Fid → Inodes → Fid
climb zero fid m = fid
climb (suc fuel) fid m = elim (next fid m) [ none ↦ fid | some p ↦ climb fuel p m ]

abbrev pub add_size : ℕ → Inode → Inode
add_size d x = record x { size = (x.size + d) % two_64 }

-- The loop that adds to the sizes of an inode and of the directories above it.
unfoldable pub grow : ℕ → ℕ → Fid → Inodes → Inodes
grow zero d fid m = modify fid (add_size d) m
grow (suc fuel) d fid m =
    let here = modify fid (add_size d) m in
    elim (next fid here) [ none ↦ here | some p ↦ grow fuel d p here ]

pub record Disk : Type 0 where
  pub opens : String → Bool
  pub writes : String → ℕ → ℕ → Bool
  pub free : ℕ

pub data WriteError : Type 0 where
  parent_missing file_missing not_a_file open_failed overflow over_quota disk_full write_failed :
      WriteError

abbrev pub new_size : ℕ → ℕ → ℕ → ℕ
new_size size offset len =
    let reach = (offset + len) % two_64 in if ltb size reach then reach else size

-- sizeDiff, as the uint64 that has its bits, and whether the int64 is above 0.
abbrev pub size_diff : ℕ → ℕ → ℕ → ℕ
size_diff size offset len = (new_size size offset len + (two_64 - size)) % two_64

abbrev pub positive : ℕ → Bool
positive d = ltb 0 d && ltb d two_63

-- The size of the root and its name, for the quota check.
unfoldable pub over_limits : Disk → ℕ → Option Inode → GoMap String ℕ → Option WriteError
over_limits disk d none quotas = none
over_limits disk d (some root) quotas =
    if exceeds root.size d (user_quota root.name quotas)
    then some over_quota
    else if disk_is_full disk.free d
    then some disk_full
    else none

unfoldable pub refusal : ℕ → Disk → Fid → ℕ → FileServer → Option WriteError
refusal fuel disk fid d fs =
    if positive d
    then over_limits disk d (get (climb fuel fid fs.inodes) fs.inodes) fs.quotas
    else none

unfoldable pub write_inode : ℕ → Disk → ℕ → ℕ → Inode → FileServer → Option WriteError × FileServer
write_inode fuel disk offset len x fs =
    let d = size_diff x.size offset len in
    if is_directory x.kind
    then (some not_a_file, fs)
    else if not (disk.opens x.os_path)
    then (some open_failed, fs)
    else if ltb (two_64 - 1 - offset) len
    then (some overflow, fs)
    else elim (refusal fuel disk x.fid d fs) [
      | some e ↦ (some e, fs)
      | none ↦
          if not (disk.writes x.os_path offset len)
          then (some write_failed, fs)
          else if d == 0
          then (none, fs)
          else (none, record fs { inodes = grow fuel d x.fid fs.inodes })
    ]

unfoldable pub write_found :
    ℕ → Disk → ℕ → ℕ → Option Inode → FileServer → Option WriteError × FileServer
write_found fuel disk offset len none fs = (some file_missing, fs)
write_found fuel disk offset len (some x) fs = write_inode fuel disk offset len x fs

unfoldable pub write_in :
    ℕ → Disk → String → ℕ → ℕ → Option Inode → FileServer → Option WriteError × FileServer
write_in fuel disk name offset len none fs = (some parent_missing, fs)
write_in fuel disk name offset len (some dir) fs =
    write_found fuel disk offset len (child_by_name name dir.children fs.inodes) fs

-- WriteFile
unfoldable pub write_file :
    (String → Option ℕ)
    → ℕ
    → Disk
    → Fid
    → String
    → ℕ
    → ℕ
    → FileServer
    → Option WriteError × FileServer
write_file stat fuel disk parent_fid name offset len fs =
    let found = get_inode stat parent_fid fs in write_in fuel disk name offset len found.0 found.1
