-- ===== src/FileServer/Modify.antt =====
-- Reading the inodes after a change through a pointer, for the files on internal/fileserver/fileserver.go.
use distributed_virtual_file.Prelude.{
  ℕ, String, ◌≡◌, refl, ap, ◌∙◌, true, Option, none, some, if◌then◌else◌, ◌==◌, ==_iff, Bool-cases,
  Option-cases, inl, inr,
}
use distributed_virtual_file.GoMap.{get, get-insert}
use distributed_virtual_file.FileServer.{
  Fid, fid_eq, Inode, Inodes, FileServer, InodeType, file, directory, is_directory, get_inode,
  refresh, modify,
}

pub get-modify :
    (fid k : Fid) (f : Inode → Inode) (m : Inodes) {x : Inode}
    → get k m ≡ some x
    → get k (modify fid f m) ≡ some (if fid == k then f x else x)
unfolding modify
get-modify fid k f m {x} h = elim (Bool-cases (fid == k)) [
  | inl t ↦
      let here : get fid m ≡ some x = ap (λ z. get z m) ((==_iff fid k).0 t) ∙ h in
      rw (modify, here, get-insert fid k (f x) m, t) refl
  | inr n ↦ elim (Option-cases (get fid m)) [
    | inl e ↦ rw (modify, e, n) h
    | inr (y, e) ↦ rw (modify, e, get-insert fid k (f y) m, n) h
  ]
]

pub get-modify_absent :
    (fid k : Fid) (f : Inode → Inode) (m : Inodes) → get k m ≡ none → get k (modify fid f m) ≡ none
unfolding modify
get-modify_absent fid k f m h = elim (Option-cases (get fid m)) [
  | inl e ↦ rw (modify, e) h
  | inr (y, e) ↦ elim (Bool-cases (fid == k)) [
    | inl t ↦ cc (ap (λ z. get z m) ((==_iff fid k).0 t), e, h)
    | inr n ↦ rw (modify, e, get-insert fid k (f y) m, n) h
  ]
]

-- GetInode of a directory changes nothing.
pub found_directory :
    (stat : String → Option ℕ) (dir_fid : Fid) (fs : FileServer) {dir : Inode}
    → get dir_fid fs.inodes ≡ some dir
    → is_directory dir.kind ≡ true
    → get_inode stat dir_fid fs ≡ (some dir, fs)
unfolding get_inode refresh
found_directory stat dir_fid fs {dir} h d =
    rw (get_inode, h) (untouched dir.kind (stat dir.os_path) d)
  where
    untouched :
        (kind : InodeType) (size : Option ℕ)
        → is_directory kind ≡ true
        → refresh kind size dir_fid dir fs ≡ (some dir, fs)
    untouched file size d = cc
    untouched directory size d = refl
