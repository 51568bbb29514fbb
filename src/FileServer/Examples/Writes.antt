-- ===== src/FileServer/Examples/Writes.antt =====
-- Quota checks, writes and deletions of the server of the examples.
use distributed_virtual_file.Prelude.{
  ◌+◌, String, ◌≡◌, ◌≢◌, ◌↔◌, refl, Bool, true, none, some, arith, ltb, string_eq,
}
use distributed_virtual_file.GoMap.{get}
use distributed_virtual_file.FileServer.{fid_eq, Inode, get_inode, refresh, child_by_name}
use distributed_virtual_file.FileServer.Tree.{gather, post_order, first_error, validate_delete}
use distributed_virtual_file.FileServer.Subtree.{Below}
use distributed_virtual_file.FileServer.Examples.{
  fid_of, root, docs, note, tree, server, no_stat, docs-Ends, docs_stored,
}
use distributed_virtual_file.FileServer.Quota.{
  user_quota, check_storage_quota_with_additional, Disk, next, climb, write_file, write_in,
  write_found, write_inode, refusal, over_limits, exceeds, disk_is_full, two_63,
}
use distributed_virtual_file.FileServer.Quota.Bounds.{Fits, check_storage_quota_with_additional_iff}
use distributed_virtual_file.FileServer.Quota.Writes.{
  WritesWithinInt64, GrownWithin, write_file_within_quota,
}
use distributed_virtual_file.FileServer.Files.{read_len}
use distributed_virtual_file.FileServer.Trash.{is_trash_dir_for_user, root_of}
use distributed_virtual_file.FileServer.Deletion.{refuse, delete_inode, delete_found, delete_file}
use distributed_virtual_file.FileServer.Deletion.Complete.{is_stored, delete_file_complete}

check_storage_quota_with_additional_iff_example :
    (check_storage_quota_with_additional 0 "ann" 900 server ≡ none) ↔ Fits 0 "ann" 900 server
check_storage_quota_with_additional_iff_example =
    check_storage_quota_with_additional_iff 0 "ann" 900 server

abbrev pub disk : Disk
disk = record {
  opens = λ path. true;
  writes = λ path offset len. ltb (offset + len) two_63;
  free = 0;
}

disk-WritesWithinInt64 : WritesWithinInt64 disk
disk-WritesWithinInt64 path offset len h = ground arith

note_found : child_by_name "note" docs.children tree ≡ some note
unfolding child_by_name get
note_found = refl

at_top : next (climb 5 (fid_of 2) tree) tree ≡ none
unfolding next climb get
at_top = refl

root_stored : get (climb 5 (fid_of 2) tree) tree ≡ some root
unfolding climb next get
root_stored = refl

quota_of_ann : user_quota "ann" server.quotas ≡ 1000
unfolding user_quota get
quota_of_ann = refl

written : (write_file no_stat 5 disk (fid_of 1) "note" 50 200 server).0 ≡ none
unfolding write_file write_in write_found write_inode refusal over_limits exceeds user_quota climb
    next child_by_name get_inode refresh get disk_is_full
written = refl

write_file_within_quota_example :
    GrownWithin
      (user_quota "ann" server.quotas)
      150
      (climb 5 (fid_of 2) tree)
      root
      (write_file no_stat 5 disk (fid_of 1) "note" 50 200 server).1.inodes
write_file_within_quota_example =
    write_file_within_quota no_stat 5 disk (fid_of 1) "note" 50 200 docs note root server
      disk-WritesWithinInt64 docs_stored refl note_found at_top root_stored
      (rw quota_of_ann (omega arith)) (omega arith) (rw quota_of_ann (omega arith)) written

docs_read : get_inode no_stat (fid_of 1) server ≡ (some docs, server)
unfolding get_inode refresh get
docs_read = refl

abbrev pub removes : String → Bool
removes path = true

deleted : (delete_file no_stat removes 3 (some (fid_of 1)) "ann" true server).0 ≡ none
unfolding delete_file delete_found delete_inode refuse validate_delete first_error
    is_trash_dir_for_user root_of post_order gather get_inode refresh get
deleted = refl

delete_file_complete_example :
    ((is_stored
          (fid_of 2)
          (delete_file no_stat removes 3 (some (fid_of 1)) "ann" true server).1.inodes
        ≡ true)
      ↔ ((is_stored (fid_of 2) tree ≡ true) × ((z : Inode) → Below tree docs z → z.fid ≢ fid_of 2)))
    × ((z : Inode) → Below tree docs z → z.acl.owner ≡ "ann")
delete_file_complete_example =
    delete_file_complete no_stat removes 1 3 (fid_of 1) (fid_of 2) "ann" true docs server server
      docs_read (omega arith) docs-Ends deleted

-- A length for which the sum wraps to 0: the room made is far larger than the file.
wrapped_read : read_len 10 5 18446744073709551611 ≡ 18446744073709551611
unfolding read_len
wrapped_read = refl
