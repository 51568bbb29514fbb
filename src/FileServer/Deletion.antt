-- ===== src/FileServer/Deletion.antt =====
-- DeleteFile of internal/fileserver/fileserver.go. `removes` is what os.RemoveAll answers for a path.
-- The mutex, which the code lets go of to notify the metaserver, is left out: the notices are the last
-- component of the answer.
pub mod Complete
use distributed_virtual_file.Prelude.{
  ℕ, zero, suc, ◌+◌, ◌-◌, String, Bool, true, false, not, ◌&&◌, Option, none, some, List, [], ◌∷◌,
  ◌++◌, if◌then◌else◌, ◌==◌, nat_eq, string_eq, ltb, leb, keep, any, length, contains,
}
use distributed_virtual_file.GoMap.{GoMap, get, delete}
use distributed_virtual_file.GoPath.{rel}
use distributed_virtual_file.InodeStore.{InodeStore, remove}
use distributed_virtual_file.FileServer.{
  Fid, fid_eq, is_directory, Inode, Inodes, FileServer, get_inode, modify,
}
use distributed_virtual_file.FileServer.Tree.{
  post_order, validate_delete, DeleteError, not_owner, not_empty,
}
use distributed_virtual_file.FileServer.Quota.{next}
use distributed_virtual_file.FileServer.Sharing.{Notice}
use distributed_virtual_file.FileServer.Snapshots.{collect_snapshots, drop_paths, unshare_notices}
use distributed_virtual_file.FileServer.Trash.{is_trash_dir_for_user}

pub data Refusal : Type 0 where
  no_fid file_missing user_root trash_directory not_removed : Refusal
  invalid : DeleteError → Refusal

abbrev pub Answer : Type 0
Answer = Option Refusal × FileServer × List Notice

abbrev pub shrink_size : ℕ → Inode → Inode
shrink_size d x = record x { size = if leb d x.size then x.size - d else 0 }

-- The loop that takes the size off the directories above, up to the root or the deleted inode.
unfoldable pub shrink : ℕ → ℕ → Fid → Fid → Inodes → Inodes
shrink zero d stop fid m = if fid == stop then m else modify fid (shrink_size d) m
shrink (suc fuel) d stop fid m =
    let here = modify fid (shrink_size d) m in
    let above : Inodes = elim (next fid here) [
      | none ↦ here
      | some p ↦ shrink fuel d stop p here
    ] in
    if fid == stop then m else above

unfoldable pub shrink_parents : ℕ → Inode → Inodes → Inodes
shrink_parents fuel x m = elim x.parent [
  | none ↦ m
  | some p ↦ if ltb 0 x.size then shrink fuel x.size x.fid p m else m
]

unfoldable pub remove_path : String → Inode → InodeStore → InodeStore
remove_path root_dir x store = elim (rel root_dir x.os_path) [
  | none ↦ store
  | some p ↦ remove p store
]

-- The loop that forgets the deleted inodes.
unfoldable pub forget : List Inode → FileServer → FileServer
forget [] fs = fs
forget (x ∷ xs) fs = forget xs (record fs {
  inodes = delete x.fid fs.inodes;
  trash_meta = delete x.fid fs.trash_meta;
  inode_store = remove_path fs.root_dir x fs.inode_store;
})

abbrev pub drop_child : Fid → Inode → Inode
drop_child fid x = record x { children = keep (λ c. not (c == fid)) x.children }

abbrev pub refers : Fid → Inode → Bool
refers fid x = is_directory x.kind && (not (x.fid == fid) && contains fid x.children)

-- The scan for a directory that refers to the inode.
unfoldable pub scan : Fid → Inodes → Option Fid
scan fid [] = none
scan fid (e ∷ m) = let rest = scan fid m in if refers fid e.1 then some e.0 else rest

unfoldable pub unlink_scan : Fid → Inodes → Inodes
unlink_scan fid m = elim (scan fid m) [ none ↦ m | some p ↦ modify p (drop_child fid) m ]

unfoldable pub holds : Fid → Fid → Inodes → Bool
holds fid p m = elim (get p m) [ none ↦ false | some x ↦ contains fid x.children ]

-- removeFromParent; its error is only logged.
unfoldable pub remove_from_parent : Inode → Inodes → Inodes
remove_from_parent x m = elim x.parent [
  | none ↦ unlink_scan x.fid m
  | some p ↦
      if p == x.fid
      then m
      else if holds x.fid p m
      then modify p (drop_child x.fid) m
      else unlink_scan x.fid m
]

unfoldable pub erase : ℕ → String → List Inode → Inode → FileServer → FileServer × List Notice
erase fuel user doomed x fs =
    let smaller = record fs { inodes = shrink_parents fuel x fs.inodes } in
    let without = forget doomed smaller in
    let target : String = elim (rel fs.root_dir x.os_path) [ none ↦ "" | some p ↦ p ] in
    let snapshots = collect_snapshots target without.shared in
    (
      record without {
        shared = drop_paths snapshots without.shared;
        inodes = remove_from_parent x without.inodes;
      },
      unshare_notices user snapshots,
    )

unfoldable pub refuse : ℕ → String → Bool → Fid → Inode → FileServer → Option Refusal
refuse fuel user recursive fid x fs =
    let checked : Option Refusal = elim (validate_delete fuel fs.inodes user recursive x) [
      | none ↦ none
      | some e ↦ some (invalid e)
    ] in
    let is_root : Bool = elim (get user fs.users) [ none ↦ false | some r ↦ r == fid ] in
    if is_root
    then some user_root
    else if is_trash_dir_for_user x user fs
    then some trash_directory
    else checked

unfoldable pub delete_inode :
    (String → Bool) → ℕ → String → Bool → Fid → Inode → FileServer → Answer
delete_inode removes fuel user recursive fid x fs =
    let doomed = post_order fuel fs.inodes x in
    let done = erase fuel user doomed x fs in
    elim (refuse fuel user recursive fid x fs) [
      | some e ↦ (some e, fs, [])
      | none ↦
          if any (λ y. not (removes y.os_path)) doomed
          then (some not_removed, fs, [])
          else (none, done.0, done.1)
    ]

unfoldable pub delete_found :
    (String → Bool) → ℕ → String → Bool → Fid → Option Inode → FileServer → Answer
delete_found removes fuel user recursive fid none fs = (some file_missing, fs, [])
delete_found removes fuel user recursive fid (some x) fs =
    delete_inode removes fuel user recursive fid x fs

unfoldable pub delete_file :
    (String → Option ℕ) → (String → Bool) → ℕ → Option Fid → String → Bool → FileServer → Answer
delete_file stat removes fuel none user recursive fs = (some no_fid, fs, [])
delete_file stat removes fuel (some fid) user recursive fs =
    let found = get_inode stat fid fs in
    delete_found removes fuel user recursive fid found.0 found.1
