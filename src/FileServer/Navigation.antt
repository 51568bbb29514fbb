-- ===== src/FileServer/Navigation.antt =====
-- ListDirectory, Path and ChangeDir of internal/fileserver/fileserver.go. A missing parent in
-- ChangeDir, where the code panics, is no_parent.
use distributed_virtual_file.Prelude.{
  ℕ, String, Bool, true, false, not, ◌||◌, Option, none, some, List, [], ◌∷◌, map, if◌then◌else◌,
  ◌==◌, nat_eq, string_eq,
}
use distributed_virtual_file.GoMap.{get}
use distributed_virtual_file.GoText.{chars, from_chars, split_slashes}
use distributed_virtual_file.GoPath.{rel}
use distributed_virtual_file.FileServer.{
  Fid, fid_eq, is_directory, Inode, Inodes, FileServer, Result, ok, err, get_inode, child_by_name,
}
use distributed_virtual_file.FileServer.Trash.{is_under_root_trash, path_contains_trash_segment}
use distributed_virtual_file.FileServer.Files.{
  FileError, missing, not_a_directory, no_path, trash_denied, incorrect_path, no_parent,
}

-- ListDirectory: GetInode refreshes the size of each file on the way.
unfoldable pub list_children : (String → Option ℕ) → List Fid → FileServer → List Inode × FileServer
list_children stat [] fs = ([], fs)
list_children stat (c ∷ cs) fs =
    let found = get_inode stat c fs in
    let rest = list_children stat cs found.1 in
    (elim found.0 [ none ↦ rest.0 | some x ↦ x ∷ rest.0 ], rest.1)

unfoldable pub list_found :
    (String → Option ℕ) → Option Inode → FileServer → Result FileError (List Inode) × FileServer
list_found stat none fs = (err missing, fs)
list_found stat (some dir) fs =
    let listed = list_children stat dir.children fs in
    if is_directory dir.kind then (ok listed.0, listed.1) else (err not_a_directory, fs)

unfoldable pub list_directory :
    (String → Option ℕ) → Fid → FileServer → Result FileError (List Inode) × FileServer
list_directory stat dir_fid fs =
    let found = get_inode stat dir_fid fs in list_found stat found.0 found.1

-- Path
unfoldable pub path : (String → Option ℕ) → Fid → FileServer → Result FileError String × FileServer
path stat dir_fid fs =
    let found = get_inode stat dir_fid fs in
    (
      elim found.0 [
        | none ↦ err missing
        | some dir ↦
            if is_directory dir.kind
            then elim (rel fs.root_dir dir.os_path) [ none ↦ err no_path | some p ↦ ok p ]
            else err not_a_directory
      ],
      found.1,
    )

-- The loop of ChangeDir over the segments of a path: the FID where it stops, and whether it went all
-- the way. CurrentInode is the inode of the FID.
unfoldable pub walk : List String → Fid → Inodes → Bool × Fid
walk [] fid m = (true, fid)
walk (part ∷ parts) fid m =
    let stay = walk parts fid m in
    if part == "" || part == "."
    then stay
    else if part == ".."
    then elim (get fid m) [
      | none ↦ stay
      | some x ↦ elim x.parent [ none ↦ stay | some p ↦ walk parts p m ]
    ]
    else elim (get fid m) [
      | none ↦ (false, fid)
      | some x ↦ elim (child_by_name part x.children m) [
        | none ↦ (false, fid)
        | some c ↦ walk parts c.fid m
      ]
    ]

abbrev pub segments : String → List String
segments p = map (λ s. from_chars s) (split_slashes (chars p))

unfoldable pub arrive : ℕ → Fid → Bool × Fid → FileServer → Result FileError Fid
arrive fuel root_fid (false, fid) fs = err incorrect_path
arrive fuel root_fid (true, fid) fs = elim (get fid fs.inodes) [
  | none ↦ ok fid
  | some x ↦ if is_under_root_trash fuel x root_fid fs then err trash_denied else ok fid
]

unfoldable pub change_from : ℕ → Inode → Fid → String → Fid → FileServer → Result FileError Fid
change_from fuel x current path root_fid fs =
    if not (is_directory x.kind)
    then err not_a_directory
    else if path == "/"
    then ok root_fid
    else if path == ".."
    then elim x.parent [ none ↦ err no_parent | some p ↦ ok p ]
    else arrive fuel root_fid (walk (segments path) current fs.inodes) fs

unfoldable pub change_found :
    ℕ → Option Inode → Fid → String → Fid → FileServer → Result FileError Fid
change_found fuel none current path root_fid fs = err missing
change_found fuel (some x) current path root_fid fs = change_from fuel x current path root_fid fs

-- ChangeDir
unfoldable pub change_dir :
    (String → Option ℕ) → ℕ → Fid → String → Fid → FileServer → Result FileError Fid × FileServer
change_dir stat fuel current path root_fid fs =
    let found = get_inode stat current fs in
    if path_contains_trash_segment path
    then (err trash_denied, fs)
    else (change_found fuel found.0 current path root_fid found.1, found.1)
