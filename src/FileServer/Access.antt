-- ===== src/FileServer/Access.antt =====
-- Who can read an inode after Share and Unshare of internal/fileserver/fileserver.go.
use distributed_virtual_file.Prelude.{
  ℕ, ◌≤◌, String, ◌≡◌, refl, ◌⊎◌, ◌↔◌, Bool, true, false, not, ◌&&◌, ◌||◌, Option, none, some,
  arith, ◌==◌, ==_iff, string_eq, Bool-cases, inl, inr, contains,
}
use distributed_virtual_file.GoMap.{get}
use distributed_virtual_file.FileServer.{
  Fid, fid_eq, is_directory, Inode, Inodes, FileServer, user_can_access_inode,
}
use distributed_virtual_file.FileServer.Tree.{collect}
use distributed_virtual_file.FileServer.Fids.{contains-fids, fids_contain}
use distributed_virtual_file.FileServer.Subtree.{Below, Ends, collect_iff}
use distributed_virtual_file.FileServer.Sharing.{fids, share, unshare}
use distributed_virtual_file.FileServer.Grants.{
  can_access, can_access-share_collected, can_access-unshare_collected,
}

-- An inode at or below the directory has the FID.
abbrev pub InSubtree : Inodes → Inode → Fid → Type 0
InSubtree m dir k = (z : Inode) × Below m dir z × (z.fid ≡ k)

collected_iff :
    (needed fuel : ℕ) (m : Inodes) (dir : Inode) (k : Fid)
    → needed ≤ fuel
    → Ends m needed dir
    → (contains k (fids (collect fuel m dir)) ≡ true) ↔ InSubtree m dir k
collected_iff needed fuel m dir k enough ends = (
  λ h.
      let (z, i, e) = contains-fids k (collect fuel m dir) h in
      (z, (collect_iff needed fuel m dir z enough ends).0 i, e),
  λ s.
      fids_contain k (collect fuel m dir) s.0
        ((collect_iff needed fuel m dir s.0 enough ends).1 s.1) s.2,
)

granted_iff :
    (before inside : Bool) (u v : String) (P : Type 0)
    → (inside ≡ true) ↔ P
    → ((before || (inside && (u == v))) ≡ true) ↔ ((before ≡ true) ⊎ ((u ≡ v) × P))
granted_iff true inside u v P h = (λ _. inl refl, λ _. refl)
granted_iff false true u v P h =
    (λ e. inr ((==_iff u v).0 e, h.0 refl), λ s. elim s [ inl e ↦ cc | inr q ↦ (==_iff u v).1 q.0 ])
granted_iff false false u v P h = (λ e. cc, λ s. elim s [ inl e ↦ e | inr q ↦ h.1 q.1 ])

kept_iff :
    (listed inside : Bool) (owner u v : String) (P : Type 0)
    → (inside ≡ true) ↔ P
    → (((owner == v) || (listed && not (inside && (u == v)))) ≡ true)
      ↔ ((owner ≡ v) ⊎ ((listed ≡ true) × ¬ ((u ≡ v) × P)))
kept_iff listed inside owner u v P h = (
  λ e. elim (Bool-cases (owner == v)) [
    | inl t ↦ inl ((==_iff owner v).0 t)
    | inr f ↦
        let both = split listed inside (u == v) (rw f at e) in
        inr (both.0, λ q. absurd (both.1 (h.1 q.1) ((==_iff u v).1 q.0)))
  ],
  λ s. elim s [
    | inl e ↦ rw ((==_iff owner v).1 e) refl
    | inr (l, n) ↦ rw l (elim (Bool-cases inside) [
      | inr f ↦ rw f (always (owner == v))
      | inl t ↦ rw t (elim (Bool-cases (u == v)) [
        | inr f ↦ rw f (always (owner == v))
        | inl same ↦ absurd (n ((==_iff u v).0 same, h.0 t))
      ])
    ])
  ],
)
  where
    always : (b : Bool) → (b || true) ≡ true
    always b = ground arith

    split : (l i s : Bool) → (l && not (i && s)) ≡ true → (l ≡ true) × (i ≡ true → s ≡ true → ⊥)
    split false i s e = cc
    split true false s e = (refl, λ a b. cc)
    split true true true e = cc
    split true true false e = (refl, λ a b. cc)

-- When Share of a directory succeeds, with fuel for the longest chain of directories below it or more,
-- a user can access a stored inode exactly if they could before, or they are the user that the
-- directory was shared with and the inode is the directory or lies below it.
pub can_access-share :
    (stat : String → Option ℕ) (needed fuel : ℕ) (username share_with v : String) (dir_fid k : Fid)
    (fs : FileServer) {dir x : Inode}
    → needed ≤ fuel
    → Ends fs.inodes needed dir
    → get dir_fid fs.inodes ≡ some dir
    → is_directory dir.kind ≡ true
    → get k fs.inodes ≡ some x
    → (share stat fuel username share_with dir_fid fs).0 ≡ none
    → (can_access v k (share stat fuel username share_with dir_fid fs).1.inodes ≡ true)
      ↔ ((user_can_access_inode x v ≡ true) ⊎ ((share_with ≡ v) × InSubtree fs.inodes dir k))
can_access-share stat needed fuel username share_with v dir_fid k fs {dir} {x} enough ends found d
      at_k h =
    rw (can_access-share_collected stat fuel username share_with v dir_fid k fs found d at_k h) (
      granted_iff (user_can_access_inode x v) (contains k (fids (collect fuel fs.inodes dir)))
        share_with v (InSubtree fs.inodes dir k)
        (collected_iff needed fuel fs.inodes dir k enough ends))

-- When Unshare of a directory succeeds, with fuel for the longest chain of directories below it or
-- more, a user can access a stored inode exactly if they own it, or if its list named them and it is
-- not the case that they are the user taken off and the inode is the directory or lies below it.
pub can_access-unshare :
    (stat : String → Option ℕ) (needed fuel : ℕ) (username unshare_with v : String)
    (dir_fid k : Fid) (fs : FileServer) {dir x : Inode}
    → needed ≤ fuel
    → Ends fs.inodes needed dir
    → get dir_fid fs.inodes ≡ some dir
    → is_directory dir.kind ≡ true
    → get k fs.inodes ≡ some x
    → (unshare stat fuel username unshare_with dir_fid fs).0 ≡ none
    → (can_access v k (unshare stat fuel username unshare_with dir_fid fs).1.inodes ≡ true) ↔ (
        (x.acl.owner ≡ v)
        ⊎ ((contains v x.acl.shared ≡ true) × ¬ ((unshare_with ≡ v) × InSubtree fs.inodes dir k)))
can_access-unshare stat needed fuel username unshare_with v dir_fid k fs {dir} {x} enough ends found
      d at_k h =
    rw (can_access-unshare_collected stat fuel username unshare_with v dir_fid k fs found d at_k h)
      (kept_iff (contains v x.acl.shared) (contains k (fids (collect fuel fs.inodes dir)))
        x.acl.owner unshare_with v (InSubtree fs.inodes dir k)
        (collected_iff needed fuel fs.inodes dir k enough ends))
