-- ===== src/FileServer/Grants.antt =====
-- Who can read an inode after Share and Unshare, by what was collected, of internal/fileserver/fileserver.go.
use distributed_virtual_file.Prelude.{
  ℕ, String, ◌≡◌, refl, sym, ap, ◌∙◌, Bool, true, false, not, ◌&&◌, ◌||◌, Option, none, some, List,
  [], ◌∷◌, ◌++◌, arith, if◌then◌else◌, ◌==◌, ==_iff, string_eq, Bool-cases, Option-cases, inl, inr,
  contains,
}
use distributed_virtual_file.GoMap.{get}
use distributed_virtual_file.FileServer.{
  Fid, fid_eq, is_directory, Inode, Inodes, FileServer, user_can_access_inode, modify, modify_all,
}
use distributed_virtual_file.FileServer.Modify.{found_directory, get-modify}
use distributed_virtual_file.FileServer.Tree.{collect}
use distributed_virtual_file.FileServer.Sharing.{
  add_user, drop_user, grant, revoke, fids, share_error, share_inode, share_found, share,
  unshare_error, unshare_inode, unshare_found, unshare,
}

-- A change of an inode that keeps the owner and does `g` to the question whether `v` is in the list.
abbrev Acts : (Inode → Inode) → (Bool → Bool) → String → Type 0
Acts f g v =
    (x : Inode)
    → ((f x).acl.owner ≡ x.acl.owner) × (contains v (f x).acl.shared ≡ g (contains v x.acl.shared))

contains-append :
    (v u : String) (us : List String) → contains v (us ++ u ∷ []) ≡ (contains v us || (u == v))
contains-append v u [] = ground (arith, ==_iff u v, ==_iff v u)
contains-append v u (w ∷ us) = ground (arith, contains-append v u us)

contains-add_user :
    (v u : String) (us : List String) → contains v (add_user u us) ≡ (contains v us || (u == v))
contains-add_user v u us = elim (Bool-cases (contains u us)) [
  | inl t ↦ elim (Bool-cases (u == v)) [
    | inl s ↦
        let there : contains v us ≡ true = ap (λ z. contains z us) (sym ((==_iff u v).0 s)) ∙ t in
        rw (t, s, there) refl
    | inr d ↦ ground arith
  ]
  | inr n ↦ rw n (contains-append v u us)
]

contains-drop_user :
    (v u : String) (us : List String)
    → contains v (drop_user u us) ≡ (contains v us && not (u == v))
contains-drop_user v u [] = refl
contains-drop_user v u (w ∷ us) =
    ground (arith, contains-drop_user v u us, ==_iff w u, ==_iff w v, ==_iff u v, ==_iff v w)

grant-Acts : (u v : String) → Acts (grant u) (λ b. b || (u == v)) v
unfolding grant
grant-Acts u v x = (refl, contains-add_user v u x.acl.shared)

revoke-Acts : (u v : String) → Acts (revoke u) (λ b. b && not (u == v)) v
unfolding revoke
revoke-Acts u v x = (refl, contains-drop_user v u x.acl.shared)

-- What is left of an inode after the changes: the owner, and the list changed where the key was named.
abbrev Changed : List Fid → (Bool → Bool) → String → Fid → Inode → Inode → Type 0
Changed ks g v k x y =
    (y.acl.owner ≡ x.acl.owner)
    × (contains v y.acl.shared
        ≡ (if contains k ks then g (contains v x.acl.shared) else contains v x.acl.shared))

get-modify_all :
    (ks : List Fid) (f : Inode → Inode) (g : Bool → Bool) (v : String) (k : Fid) (m : Inodes)
    (x : Inode)
    → Acts f g v
    → ((b : Bool) → g (g b) ≡ g b)
    → get k m ≡ some x
    → (y : Inode) × (get k (modify_all ks f m) ≡ some y) × Changed ks g v k x y
unfolding modify_all
get-modify_all [] f g v k m x acts twice h = (x, h, (refl, refl))
get-modify_all (c ∷ ks) f g v k m x acts twice h = elim (Bool-cases (c == k)) [
  | inl t ↦
      let at_once : get k (modify c f m) ≡ some (f x) = rw t at (get-modify c k f m h) in
      let (y, p, (o, s)) = get-modify_all ks f g v k (modify c f m) (f x) acts twice at_once in
      (
        y,
        p,
        (o ∙ (acts x).0, rw t (s ∙ settled (contains k ks) (contains v x.acl.shared) (acts x).1)),
      )
  | inr n ↦
      let later : get k (modify c f m) ≡ some x = rw n at (get-modify c k f m h) in
      let (y, p, (o, s)) = get-modify_all ks f g v k (modify c f m) x acts twice later in
      (y, p, (o, rw n s))
]
  where
    settled : (again b : Bool) {a : Bool} → a ≡ g b → (if again then g a else a) ≡ g b
    settled true b {a} e = ap g e ∙ twice b
    settled false b {a} e = e

user_can_access_inode-Changed :
    (ks : List Fid) (g : Bool → Bool) (v : String) (k : Fid) (x y : Inode)
    → Changed ks g v k x y
    → user_can_access_inode y v ≡ (
        (x.acl.owner == v)
        || (if contains k ks then g (contains v x.acl.shared) else contains v x.acl.shared))
unfolding user_can_access_inode
user_can_access_inode-Changed ks g v k x y (o, s) = rw (o, s) (ground arith)

or_twice : (c b : Bool) → ((b || c) || c) ≡ (b || c)
or_twice c b = ground arith

and_twice : (c b : Bool) → ((b && c) && c) ≡ (b && c)
and_twice c b = ground arith

-- What a call that succeeded did.
share_found-none :
    (fuel : ℕ) (username share_with : String) (dir : Inode) (fs : FileServer)
    → (share_found fuel username share_with (some dir) fs).0 ≡ none
    → (share_found fuel username share_with (some dir) fs).1
      ≡ (share_inode fuel username share_with dir fs).0
unfolding share_found
share_found-none fuel username share_with dir fs h =
    elim (Option-cases (share_error username share_with dir)) [
      | inl e ↦ rw (share_found, e) refl
      | inr (r, e) ↦ cc (rw (share_found, e) at h)
    ]

unshare_found-none :
    (fuel : ℕ) (username unshare_with : String) (dir : Inode) (fs : FileServer)
    → (unshare_found fuel username unshare_with (some dir) fs).0 ≡ none
    → (unshare_found fuel username unshare_with (some dir) fs).1
      ≡ (unshare_inode fuel username unshare_with dir fs).0
unfolding unshare_found
unshare_found-none fuel username unshare_with dir fs h =
    elim (Option-cases (unshare_error username unshare_with dir)) [
      | inl e ↦ rw (unshare_found, e) refl
      | inr (r, e) ↦ cc (rw (unshare_found, e) at h)
    ]

-- Whether a user can access the inode of a key.
abbrev pub can_access : String → Fid → Inodes → Bool
can_access user k m = elim (get k m) [ none ↦ false | some x ↦ user_can_access_inode x user ]

can_access-modify_all :
    (ks : List Fid) (f : Inode → Inode) (g : Bool → Bool) (v : String) (k : Fid) (m : Inodes)
    (x : Inode)
    → Acts f g v
    → ((b : Bool) → g (g b) ≡ g b)
    → get k m ≡ some x
    → can_access v k (modify_all ks f m) ≡ (
        (x.acl.owner == v)
        || (if contains k ks then g (contains v x.acl.shared) else contains v x.acl.shared))
can_access-modify_all ks f g v k m x acts twice h =
    let (y, p, c) = get-modify_all ks f g v k m x acts twice h in
    rw (can_access, p) (user_can_access_inode-Changed ks g v k x y c)

pub can_access-share_collected :
    (stat : String → Option ℕ) (fuel : ℕ) (username share_with v : String) (dir_fid k : Fid)
    (fs : FileServer) {dir x : Inode}
    → get dir_fid fs.inodes ≡ some dir
    → is_directory dir.kind ≡ true
    → get k fs.inodes ≡ some x
    → (share stat fuel username share_with dir_fid fs).0 ≡ none
    → can_access v k (share stat fuel username share_with dir_fid fs).1.inodes ≡ (
        user_can_access_inode x v
        || (contains k (fids (collect fuel fs.inodes dir)) && (share_with == v)))
unfolding share share_inode user_can_access_inode
can_access-share_collected stat fuel username share_with v dir_fid k fs {dir} {x} found d at_k h =
    let stored = found_directory stat dir_fid fs found d in
    let ks = fids (collect fuel fs.inodes dir) in
    rw (share, stored, share_found-none fuel username share_with dir fs (rw (share, stored) at h))
      (can_access-modify_all ks (grant share_with) (λ b. b || (share_with == v)) v k fs.inodes x
          (grant-Acts share_with v) (or_twice (share_with == v)) at_k
        ∙ granted (contains k ks) (share_with == v))
  where
    granted :
        (c s : Bool)
        → ((x.acl.owner == v)
            || (if c then contains v x.acl.shared || s else contains v x.acl.shared))
          ≡ (user_can_access_inode x v || (c && s))
    granted c s = ground arith

pub can_access-unshare_collected :
    (stat : String → Option ℕ) (fuel : ℕ) (username unshare_with v : String) (dir_fid k : Fid)
    (fs : FileServer) {dir x : Inode}
    → get dir_fid fs.inodes ≡ some dir
    → is_directory dir.kind ≡ true
    → get k fs.inodes ≡ some x
    → (unshare stat fuel username unshare_with dir_fid fs).0 ≡ none
    → can_access v k (unshare stat fuel username unshare_with dir_fid fs).1.inodes ≡ (
        (x.acl.owner == v)
        || (contains v x.acl.shared
            && not (contains k (fids (collect fuel fs.inodes dir)) && (unshare_with == v))))
unfolding unshare unshare_inode
can_access-unshare_collected stat fuel username unshare_with v dir_fid k fs {dir} {x} found d at_k
      h =
    let stored = found_directory stat dir_fid fs found d in
    let ks = fids (collect fuel fs.inodes dir) in
    rw
      (
        unshare,
        stored,
        unshare_found-none fuel username unshare_with dir fs (rw (unshare, stored) at h),
      )
      (can_access-modify_all ks (revoke unshare_with) (λ b. b && not (unshare_with == v)) v k
          fs.inodes x (revoke-Acts unshare_with v) (and_twice (not (unshare_with == v))) at_k
        ∙ revoked (contains k ks) (unshare_with == v))
  where
    revoked :
        (c s : Bool)
        → ((x.acl.owner == v)
            || (if c then contains v x.acl.shared && not s else contains v x.acl.shared))
          ≡ ((x.acl.owner == v) || (contains v x.acl.shared && not (c && s)))
    revoked c s = ground arith
