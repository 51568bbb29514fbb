-- ===== src/FileServer/Examples.antt =====
-- A file server with one user, a directory and a file, and its operations on it.
pub mod Writes
pub mod Requests
pub mod Uploads
pub mod Callbacks
use distributed_virtual_file.Prelude.{
  ◌⊎◌, contains, ℕ, ◌+◌, ◌≤◌, ◌<◌, String, ◌≡◌, ◌↔◌, refl, sym, ap, subst, Bool, true, false, not,
  ◌&&◌, ◌||◌, Option, none, some, List, [], ◌∷◌, arith, In, inl, inr, string_eq, ◌==◌, contains,
  ltb,
}
use distributed_virtual_file.GoMap.{get, is_some}
use distributed_virtual_file.InodeStore.{new_inode_store}
use distributed_virtual_file.FileServer.{
  Fid, fid_eq, file, directory, is_directory, Inode, Inodes, FileServer, user_can_access_inode,
  get_inode, refresh, modify, modify_all,
}
use distributed_virtual_file.FileServer.Tree.{
  gather, collect, post_order, first_error, validate_delete,
}
use distributed_virtual_file.FileServer.Subtree.{Below, here, down, Ends, collect_iff}
use distributed_virtual_file.FileServer.PostOrder.{validate_delete-owner}
use distributed_virtual_file.FileServer.Sharing.{
  fids, share, share_found, share_inode, share_error, unshare, unshare_found, unshare_inode,
  unshare_error, grant, revoke,
}
use distributed_virtual_file.FileServer.Grants.{can_access}
use distributed_virtual_file.FileServer.Access.{InSubtree, can_access-share, can_access-unshare}

abbrev pub fid_of : ℕ → Fid
fid_of n = record { file_server_id = "fs1"; inode_id = n; generation_number = 1 }

abbrev pub root : Inode
root = record {
  fid = fid_of 0;
  kind = directory;
  name = "ann";
  os_path = "/data/ann";
  acl = record { owner = "ann"; shared = [] };
  children = fid_of 1 ∷ [];
  size = 100;
  parent = some (fid_of 0);
}

abbrev pub docs : Inode
docs = record {
  fid = fid_of 1;
  kind = directory;
  name = "docs";
  os_path = "/data/ann/docs";
  acl = record { owner = "ann"; shared = "bob" ∷ [] };
  children = fid_of 2 ∷ [];
  size = 100;
  parent = some (fid_of 0);
}

abbrev pub note : Inode
note = record {
  fid = fid_of 2;
  kind = file;
  name = "note";
  os_path = "/data/ann/docs/note";
  acl = record { owner = "ann"; shared = "bob" ∷ [] };
  children = [];
  size = 100;
  parent = some (fid_of 1);
}

abbrev pub tree : Inodes
tree = (fid_of 0, root) ∷ (fid_of 1, docs) ∷ (fid_of 2, note) ∷ []

abbrev pub server : FileServer
server = record {
  server_id = "fs1";
  root_dir = "/data";
  inodes = tree;
  users = ("ann", fid_of 0) ∷ [];
  trash_meta = [];
  shared = [];
  quotas = ("ann", 1000) ∷ [];
  inode_store = record { next_inode_id = 3; path_to_id = [] };
}

abbrev pub no_stat : String → Option ℕ
no_stat path = none

pub docs-Ends : Ends tree 1 docs
unfolding get
docs-Ends t c y (inl e) g =
    ap (λ o. elim o [ none ↦ false | some z ↦ is_directory z.kind ])
      (sym (subst (λ z. get z tree ≡ some y) e g))
docs-Ends t c y (inr i) g = absurd i

collect_iff_example : In note (collect 3 tree docs) ↔ Below tree docs note
collect_iff_example = collect_iff 1 3 tree docs note (omega arith) docs-Ends

shared_with_carl : (share no_stat 2 "ann" "carl" (fid_of 1) server).0 ≡ none
unfolding share share_found share_error get_inode refresh get
shared_with_carl = refl

pub docs_stored : get (fid_of 1) tree ≡ some docs
unfolding get
docs_stored = refl

pub note_stored : get (fid_of 2) tree ≡ some note
unfolding get
note_stored = refl

can_access-share_example :
    (can_access "carl" (fid_of 2) (share no_stat 2 "ann" "carl" (fid_of 1) server).1.inodes ≡ true)
    ↔ ((user_can_access_inode note "carl" ≡ true)
        ⊎ ((◌≡◌ {A = String} "carl" "carl") × InSubtree tree docs (fid_of 2)))
can_access-share_example =
    can_access-share no_stat 1 2 "ann" "carl" "carl" (fid_of 1) (fid_of 2) server (omega arith)
      docs-Ends docs_stored refl note_stored shared_with_carl

unshared_with_bob : (unshare no_stat 2 "ann" "bob" (fid_of 1) server).0 ≡ none
unfolding unshare unshare_found unshare_error get_inode refresh get
unshared_with_bob = refl

can_access-unshare_example :
    (can_access "bob" (fid_of 2) (unshare no_stat 2 "ann" "bob" (fid_of 1) server).1.inodes ≡ true)
    ↔ ((note.acl.owner ≡ "bob")
        ⊎ ((contains "bob" note.acl.shared ≡ true)
            × ¬ ((◌≡◌ {A = String} "bob" "bob") × InSubtree tree docs (fid_of 2))))
can_access-unshare_example =
    can_access-unshare no_stat 1 2 "ann" "bob" "bob" (fid_of 1) (fid_of 2) server (omega arith)
      docs-Ends docs_stored refl note_stored unshared_with_bob
