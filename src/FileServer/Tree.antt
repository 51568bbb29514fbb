-- ===== src/FileServer/Tree.antt =====
-- The recursions of internal/fileserver/fileserver.go over a subtree, on fuel: `fuel` bounds the
-- nesting of the calls.
use distributed_virtual_file.Prelude.{
  ℕ, zero, suc, String, Bool, not, Option, none, some, List, [], ◌∷◌, ◌++◌, if◌then◌else◌, ◌==◌,
  string_eq, is_empty,
}
use distributed_virtual_file.GoMap.{get}
use distributed_virtual_file.FileServer.{Fid, fid_eq, Inode, Inodes, is_directory}

-- The children that the map holds, each taken through a function, in order.
unfoldable pub gather : {A : Type 0} → (Inode → List A) → Inodes → List Fid → List A
gather f m [] = []
gather f m (c ∷ cs) =
    let rest = gather f m cs in elim (get c m) [ none ↦ rest | some x ↦ f x ++ rest ]

-- collectSubtreeInodes: the inode, then the subtrees of its children.
unfoldable pub collect : ℕ → Inodes → Inode → List Inode
collect zero m x = x ∷ []
collect (suc fuel) m x =
    let below = gather (collect fuel m) m x.children in
    x ∷ (if is_directory x.kind then below else [])

-- collectInodesToDelete, with the inode itself last, as DeleteFile adds it.
unfoldable pub post_order : ℕ → Inodes → Inode → List Inode
post_order zero m x = x ∷ []
post_order (suc fuel) m x =
    let below = gather (post_order fuel m) m x.children in
    (if is_directory x.kind then below else []) ++ x ∷ []

pub data DeleteError : Type 0 where
  not_owner not_empty : DeleteError

unfoldable pub first_error : {E : Type 0} → (Inode → Option E) → Inodes → List Fid → Option E
first_error f m [] = none
first_error f m (c ∷ cs) =
    let rest = first_error f m cs in
    elim (get c m) [ none ↦ rest | some x ↦ elim (f x) [ none ↦ rest | some e ↦ some e ] ]

-- validateDeletePermissions
unfoldable pub validate_delete : ℕ → Inodes → String → Bool → Inode → Option DeleteError
validate_delete zero m user recursive x = if x.acl.owner == user then none else some not_owner
validate_delete (suc fuel) m user recursive x =
    let below = first_error (validate_delete fuel m user recursive) m x.children in
    if not (x.acl.owner == user)
    then some not_owner
    else if not (is_directory x.kind)
    then none
    else if is_empty x.children
    then none
    else if not recursive
    then some not_empty
    else below
