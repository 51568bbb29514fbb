-- ===== src/FileServer/Deletion/Complete.antt =====
-- DeleteFile of internal/fileserver/fileserver.go forgets a subtree, and nothing else.
use distributed_virtual_file.Prelude.{
  string_eq, ℕ, zero, suc, ◌≤◌, String, ◌≡◌, ◌≢◌, ◌↔◌, refl, ap, ◌∙◌, Bool, true, false, not, ◌&&◌,
  Option, none, some, List, [], ◌∷◌, arith, if◌then◌else◌, ◌==◌, Bool-cases, Option-cases, inl, inr,
  any, contains, ltb,
}
use distributed_virtual_file.GoMap.{get, get-delete, is_some, delete}
use distributed_virtual_file.FileServer.{Fid, fid_eq, Inode, Inodes, FileServer, modify, get_inode}
use distributed_virtual_file.FileServer.Modify.{get-modify, get-modify_absent}
use distributed_virtual_file.FileServer.Tree.{post_order, validate_delete, DeleteError}
use distributed_virtual_file.FileServer.Subtree.{Below, Ends}
use distributed_virtual_file.FileServer.PostOrder.{post_order_iff, validate_delete-owner}
use distributed_virtual_file.FileServer.Sharing.{fids}
use distributed_virtual_file.FileServer.Fids.{contains-fids, fids_contain}
use distributed_virtual_file.FileServer.Quota.{next}
use distributed_virtual_file.FileServer.Trash.{is_trash_dir_for_user}
use distributed_virtual_file.FileServer.Deletion.{
  shrink_size, shrink, shrink_parents, remove_path, forget, drop_child, scan, unlink_scan, holds,
  remove_from_parent, erase, refuse, user_root, trash_directory, invalid, delete_inode,
  delete_found, delete_file,
}

abbrev pub is_stored : Fid → Inodes → Bool
is_stored k m = is_some (get k m)

is_stored-modify :
    (p k : Fid) (f : Inode → Inode) (m : Inodes) → is_stored k (modify p f m) ≡ is_stored k m
is_stored-modify p k f m = elim (Option-cases (get k m)) [
  | inl e ↦ rw (get-modify_absent p k f m e, e) refl
  | inr (x, e) ↦ rw (get-modify p k f m e, e) refl
]

is_stored-shrink :
    (fuel d : ℕ) (stop p k : Fid) (m : Inodes)
    → is_stored k (shrink fuel d stop p m) ≡ is_stored k m
unfolding shrink
is_stored-shrink zero d stop p k m = elim (Bool-cases (p == stop)) [
  | inl t ↦ rw t refl
  | inr f ↦ rw f (is_stored-modify p k (shrink_size d) m)
]
is_stored-shrink (suc fuel) d stop p k m = elim (Bool-cases (p == stop)) [
  | inl t ↦ rw (shrink, t) refl
  | inr f ↦ elim (Option-cases (next p (modify p (shrink_size d) m))) [
    | inl e ↦ rw (shrink, f, e) (is_stored-modify p k (shrink_size d) m)
    | inr (q, e) ↦
        rw (shrink, f, e)
          (is_stored-shrink fuel d stop q k (modify p (shrink_size d) m)
            ∙ is_stored-modify p k (shrink_size d) m)
  ]
]

is_stored-shrink_parents :
    (fuel : ℕ) (x : Inode) (k : Fid) (m : Inodes)
    → is_stored k (shrink_parents fuel x m) ≡ is_stored k m
unfolding shrink_parents
is_stored-shrink_parents fuel x k m = elim (Option-cases x.parent) [
  | inl e ↦ rw e refl
  | inr (p, e) ↦ elim (Bool-cases (ltb 0 x.size)) [
    | inl t ↦ rw (e, t) (is_stored-shrink fuel x.size x.fid p k m)
    | inr f ↦ rw (e, f) refl
  ]
]

is_stored-unlink_scan : (fid k : Fid) (m : Inodes) → is_stored k (unlink_scan fid m) ≡ is_stored k m
unfolding unlink_scan
is_stored-unlink_scan fid k m = elim (Option-cases (scan fid m)) [
  | inl e ↦ rw (unlink_scan, e) refl
  | inr (p, e) ↦ rw (unlink_scan, e) (is_stored-modify p k (drop_child fid) m)
]

is_stored-remove_from_parent :
    (x : Inode) (k : Fid) (m : Inodes) → is_stored k (remove_from_parent x m) ≡ is_stored k m
unfolding remove_from_parent
is_stored-remove_from_parent x k m = elim (Option-cases x.parent) [
  | inl e ↦ rw (remove_from_parent, e) (is_stored-unlink_scan x.fid k m)
  | inr (p, e) ↦ elim (Bool-cases (p == x.fid)) [
    | inl t ↦ rw (remove_from_parent, e, t) refl
    | inr f ↦ elim (Bool-cases (holds x.fid p m)) [
      | inl t ↦ rw (remove_from_parent, e, f, t) (is_stored-modify p k (drop_child x.fid) m)
      | inr n ↦ rw (remove_from_parent, e, f, n) (is_stored-unlink_scan x.fid k m)
    ]
  ]
]

is_stored-delete :
    (p k : Fid) (m : Inodes) → is_stored k (delete p m) ≡ (is_stored k m && not (p == k))
is_stored-delete p k m = elim (Bool-cases (p == k)) [
  | inl t ↦ rw (get-delete p k m, t) (none_is (is_stored k m))
  | inr f ↦ rw (get-delete p k m, f) (all_is (is_stored k m))
]
  where
    none_is : (b : Bool) → false ≡ (b && false)
    none_is b = ground arith

    all_is : (b : Bool) → b ≡ (b && true)
    all_is b = ground arith

both : (a b c : Bool) → ((a && not b) && not c) ≡ (a && not (if b then true else c))
both a b c = ground arith

is_stored-forget :
    (xs : List Inode) (k : Fid) (fs : FileServer)
    → is_stored k (forget xs fs).inodes ≡ (is_stored k fs.inodes && not (contains k (fids xs)))
unfolding forget
is_stored-forget [] k fs = ground arith
is_stored-forget (x ∷ xs) k fs =
    let smaller : FileServer = record fs {
      inodes = delete x.fid fs.inodes;
      trash_meta = delete x.fid fs.trash_meta;
      inode_store = remove_path fs.root_dir x fs.inode_store;
    } in
    is_stored-forget xs k smaller
    ∙ rw (is_stored-delete x.fid k fs.inodes)
        (both (is_stored k fs.inodes) (x.fid == k) (contains k (fids xs)))

is_stored-erase :
    (fuel : ℕ) (user : String) (doomed : List Inode) (x : Inode) (k : Fid) (fs : FileServer)
    → is_stored k (erase fuel user doomed x fs).0.inodes
      ≡ (is_stored k fs.inodes && not (contains k (fids doomed)))
unfolding erase
is_stored-erase fuel user doomed x k fs =
    let smaller : FileServer = record fs { inodes = shrink_parents fuel x fs.inodes } in
    is_stored-remove_from_parent x k (forget doomed smaller).inodes
    ∙ (is_stored-forget doomed k smaller
        ∙ ap (λ b. b && not (contains k (fids doomed)))
            (is_stored-shrink_parents fuel x k fs.inodes))

delete_inode-none :
    (removes : String → Bool) (fuel : ℕ) (user : String) (recursive : Bool) (fid : Fid) (x : Inode)
    (fs : FileServer)
    → (delete_inode removes fuel user recursive fid x fs).0 ≡ none
    → (delete_inode removes fuel user recursive fid x fs).1
      ≡ (erase fuel user (post_order fuel fs.inodes x) x fs).0
unfolding delete_inode
delete_inode-none removes fuel user recursive fid x fs h =
    elim (Option-cases (refuse fuel user recursive fid x fs)) [
      | inr (e, r) ↦ cc (rw (delete_inode, r) at h)
      | inl r ↦
          elim (Bool-cases
            (any (λ (y : Inode). not (removes y.os_path)) (post_order fuel fs.inodes x))) [
              | inl t ↦ cc (rw (delete_inode, r, t) at h)
              | inr f ↦ rw (delete_inode, r, f) refl
            ]
    ]

-- What the checks of an accepted deletion have found.
refuse-none :
    (fuel : ℕ) (user : String) (recursive : Bool) (fid : Fid) (x : Inode) (fs : FileServer)
    → refuse fuel user recursive fid x fs ≡ none
    → validate_delete fuel fs.inodes user recursive x ≡ none
unfolding refuse
refuse-none fuel user recursive fid x fs h =
    elim (Option-cases (validate_delete fuel fs.inodes user recursive x)) [
      | inl e ↦ e
      | inr (e, v) ↦ absurd (
          refused (elim (get user fs.users) [ none ↦ false | some r ↦ r == fid ])
            (is_trash_dir_for_user x user fs) e (rw (refuse, v) at h))
    ]
  where
    refused :
        (a b : Bool) (e : DeleteError)
        → (if a then some user_root else if b then some trash_directory else some (invalid e))
          ≡ none
        → ⊥
    refused true b e n = cc
    refused false true e n = cc
    refused false false e n = cc

delete_inode-validated :
    (removes : String → Bool) (fuel : ℕ) (user : String) (recursive : Bool) (fid : Fid) (x : Inode)
    (fs : FileServer)
    → (delete_inode removes fuel user recursive fid x fs).0 ≡ none
    → validate_delete fuel fs.inodes user recursive x ≡ none
unfolding delete_inode
delete_inode-validated removes fuel user recursive fid x fs h =
    elim (Option-cases (refuse fuel user recursive fid x fs)) [
      | inr (e, r) ↦ cc (rw (delete_inode, r) at h)
      | inl r ↦ refuse-none fuel user recursive fid x fs r
    ]

is_stored-delete_file :
    (stat : String → Option ℕ) (removes : String → Bool) (needed fuel : ℕ) (fid k : Fid)
    (user : String) (recursive : Bool) (x : Inode) (fs refreshed : FileServer)
    → get_inode stat fid fs ≡ (some x, refreshed)
    → needed ≤ fuel
    → Ends refreshed.inodes needed x
    → (delete_file stat removes fuel (some fid) user recursive fs).0 ≡ none
    → (is_stored k (delete_file stat removes fuel (some fid) user recursive fs).1.inodes ≡ true) ↔ (
        (is_stored k refreshed.inodes ≡ true)
        × ((z : Inode) → Below refreshed.inodes x z → z.fid ≢ k))
unfolding delete_file delete_found
is_stored-delete_file stat removes needed fuel fid k user recursive x fs refreshed found enough ends
      h =
    let doomed = post_order fuel refreshed.inodes x in
    let gone =
      delete_inode-none removes fuel user recursive fid x refreshed
        (rw (delete_file, found, delete_found) at h) in
    rw (delete_file, found, delete_found, gone, is_stored-erase fuel user doomed x k refreshed)
      (elim (Bool-cases (contains k (fids doomed))) [
        | inl t ↦
            let (z, i, e) = contains-fids k doomed t in
            let below = (post_order_iff needed fuel refreshed.inodes x z enough ends).0 i in
            rw t
              (λ s. absurd (untrue (is_stored k refreshed.inodes) s), λ p. absurd (p.1 z below e))
        | inr f ↦ rw f (
          λ s. (
            kept (is_stored k refreshed.inodes) s,
            λ z b e. cc (
              fids_contain k doomed z
                  ((post_order_iff needed fuel refreshed.inodes x z enough ends).1 b) e,
              f,
            ),
          ),
          λ p. rw p.0 refl,
        )
      ])
  where
    untrue : (b : Bool) → (b && false) ≡ true → ⊥
    untrue b s = ground arith

    kept : (b : Bool) → (b && true) ≡ true → b ≡ true
    kept b s = ground arith

-- When DeleteFile succeeds, with fuel for the longest chain of directories below the target or more,
-- an inode is stored afterwards exactly if it was stored before, after the refresh of the target by
-- GetInode, and no inode at or below the target has its FID; and the user owns every inode at or below
-- the target.
pub delete_file_complete :
    (stat : String → Option ℕ) (removes : String → Bool) (needed fuel : ℕ) (fid k : Fid)
    (user : String) (recursive : Bool) (x : Inode) (fs refreshed : FileServer)
    → get_inode stat fid fs ≡ (some x, refreshed)
    → needed ≤ fuel
    → Ends refreshed.inodes needed x
    → (delete_file stat removes fuel (some fid) user recursive fs).0 ≡ none
    → ((is_stored k (delete_file stat removes fuel (some fid) user recursive fs).1.inodes ≡ true)
        ↔ ((is_stored k refreshed.inodes ≡ true)
            × ((z : Inode) → Below refreshed.inodes x z → z.fid ≢ k)))
      × ((z : Inode) → Below refreshed.inodes x z → z.acl.owner ≡ user)
unfolding delete_file delete_found
delete_file_complete stat removes needed fuel fid k user recursive x fs refreshed found enough ends
      h =
    (
      is_stored-delete_file stat removes needed fuel fid k user recursive x fs refreshed found
          enough ends h,
      λ z below.
          validate_delete-owner fuel refreshed.inodes user recursive x z
            (delete_inode-validated removes fuel user recursive fid x refreshed
              (rw (delete_file, found, delete_found) at h))
            ((post_order_iff needed fuel refreshed.inodes x z enough ends).1 below),
    )
