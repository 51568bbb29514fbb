-- ===== src/FileServer/Handlers/Entitled.antt =====
-- A request that internal/fileserver/handler.go carries out is one that its caller is entitled to.
use distributed_virtual_file.Prelude.{
  ℕ, String, ◌≡◌, ◌⊎◌, refl, Bool, true, false, not, ◌||◌, ◌&&◌, Option, none, some, [], arith,
  if◌then◌else◌, ◌==◌, ==_iff, nat_eq, string_eq, Bool-cases, Option-cases, inl, inr,
}
use distributed_virtual_file.GoMap.{get}
use distributed_virtual_file.FileServer.{
  Fid, fid_eq, Inode, FileServer, Permission, write, delete, Result, ok, err, allows,
  authorize_inode, authorize, user_can_access_inode,
}
use distributed_virtual_file.FileServer.Quota.{check_storage_quota_with_additional}
use distributed_virtual_file.FileServer.Handlers.{
  Env, Failure, Reply, guard, is_nested, handle_share, handle_unshare, handle_create, handle_write,
  handle_delete, handle_trash, handle_restore, is_refused_quota, handle_set_quota, handle, Request,
  share_request, unshare_request, create_request, write_request, delete_request, trash_request,
  restore_request, set_quota_request,
}

-- The inode of a FID is stored, and satisfies a predicate.
abbrev pub Stored : (Inode → Type 0) → Option Fid → FileServer → Type 0
Stored P none fs = ⊥
Stored P (some fid) fs = (x : Inode) × (get fid fs.inodes ≡ some x) × P x

abbrev pub Owns : String → Option Fid → FileServer → Type 0
Owns user = Stored (λ x. x.acl.owner ≡ user)

abbrev pub CanAccess : String → Option Fid → FileServer → Type 0
CanAccess user = Stored (λ x. user_can_access_inode x user ≡ true)

-- Whom a request may come from.
abbrev pub IsEntitled : Env → String → Request → FileServer → Type 0
IsEntitled env c (share_request username fid user) fs = Owns c fid fs
IsEntitled env c (unshare_request username fid user) fs = Owns c fid fs
IsEntitled env c (create_request name root_user size fid kind) fs = CanAccess c fid fs
IsEntitled env c (write_request fid name offset len) fs = CanAccess c fid fs
IsEntitled env c (delete_request fid root_user recursive) fs = Owns c fid fs
IsEntitled env c (trash_request fid root_user recursive) fs = Owns c fid fs
IsEntitled env c (restore_request fid root_user username) fs =
    (env.equal_fold c root_user ≡ true) × (env.equal_fold c username ≡ true)
IsEntitled env c (set_quota_request password username bytes) fs =
    (password ≡ true) ⊎ (env.equal_fold c env.quota_admin ≡ true)

guard-none :
    (env : Env) (caller : Option String) (fid : Option Fid) (perm : Permission)
    (act : String → Reply) (fs : FileServer)
    → (guard env caller fid perm act fs).0 ≡ none
    → (r : Inode × String) × (authorize env.equal_fold env.admin_email caller fid perm fs ≡ ok r)
unfolding guard
guard-none env caller fid perm act fs h =
    outcome (authorize env.equal_fold env.admin_email caller fid perm fs) refl
  where
    outcome :
        (o : Result _ (Inode × String))
        → authorize env.equal_fold env.admin_email caller fid perm fs ≡ o
        → (r : Inode × String) × (authorize env.equal_fold env.admin_email caller fid perm fs
            ≡ ok r)
    outcome (ok r) e = (r, e)
    outcome (err x) e = cc (rw (guard, e) at h)

authorize-allows :
    (env : Env) (c : String) (fid : Option Fid) (perm : Permission) (fs : FileServer)
    (r : Inode × String)
    → (c == "") ≡ false
    → authorize env.equal_fold env.admin_email (some c) fid perm fs ≡ ok r
    → Stored (λ x. allows env.equal_fold env.admin_email perm x c ≡ none) fid fs
unfolding authorize authorize_inode
authorize-allows env c none perm fs r named h = cc
authorize-allows env c (some fid) perm fs r named h = elim (Option-cases (get fid fs.inodes)) [
  | inl e ↦ cc (rw (authorize, e, authorize_inode) at h)
  | inr (x, e) ↦ elim (Option-cases (allows env.equal_fold env.admin_email perm x c)) [
    | inl a ↦ (x, e, a)
    | inr (b, a) ↦ cc (rw (authorize, e, authorize_inode, named, a) at h)
  ]
]

allows-delete :
    (eq : String → String → Bool) (admin c : String) (x : Inode)
    → allows eq admin delete x c ≡ none
    → x.acl.owner ≡ c
unfolding allows
allows-delete eq admin c x h = elim (Bool-cases (x.acl.owner == c)) [
  | inl t ↦ (==_iff x.acl.owner c).0 t
  | inr f ↦ cc (rw (allows, f) at h)
]

allows-write :
    (eq : String → String → Bool) (admin c : String) (x : Inode)
    → allows eq admin write x c ≡ none
    → user_can_access_inode x c ≡ true
unfolding allows
allows-write eq admin c x h = elim (Bool-cases (user_can_access_inode x c)) [
  | inl t ↦ t
  | inr f ↦ cc (rw (allows, f) at h)
]

Stored-map :
    (P Q : Inode → Type 0) (fid : Option Fid) (fs : FileServer)
    → ((x : Inode) → P x → Q x)
    → Stored P fid fs
    → Stored Q fid fs
Stored-map P Q none fs f s = s
Stored-map P Q (some fid) fs f (x, e, p) = (x, e, f x p)

guard-Owns :
    (env : Env) (c : String) (fid : Option Fid) (act : String → Reply) (fs : FileServer)
    → (c == "") ≡ false
    → (guard env (some c) fid delete act fs).0 ≡ none
    → Owns c fid fs
guard-Owns env c fid act fs named h =
    let (r, a) = guard-none env (some c) fid delete act fs h in
    Stored-map _ _ fid fs (allows-delete env.equal_fold env.admin_email c)
      (authorize-allows env c fid delete fs r named a)

guard-CanAccess :
    (env : Env) (c : String) (fid : Option Fid) (act : String → Reply) (fs : FileServer)
    → (c == "") ≡ false
    → (guard env (some c) fid write act fs).0 ≡ none
    → CanAccess c fid fs
guard-CanAccess env c fid act fs named h =
    let (r, a) = guard-none env (some c) fid write act fs h in
    Stored-map _ _ fid fs (allows-write env.equal_fold env.admin_email c)
      (authorize-allows env c fid write fs r named a)

-- An answer without a failure did not stop at the first test.
past :
    (b : Bool) (f : Failure) (fs : FileServer) (rest : Reply)
    → (if b then (some f, fs, []) else rest).0 ≡ none
    → (b ≡ false) × (rest.0 ≡ none)
past true f fs rest h = cc
past false f fs rest h = (refl, h)

create-CanAccess :
    (env : Env) (c name root_user : String) (size : ℕ) (fid : Option Fid) (kind : _)
    (fs : FileServer)
    → (c == "") ≡ false
    → (handle_create env (some c) name root_user size fid kind fs).0 ≡ none
    → CanAccess c fid fs
unfolding handle_create
create-CanAccess env c name root_user size fid kind fs named h =
    elim (Option-cases (check_storage_quota_with_additional env.disk.free root_user size fs)) [
      | inl e ↦
          guard-CanAccess env c fid _ fs named
            (past (is_nested name) _ fs _
              (rw e at (past (name == "" || root_user == "") _ fs _ h).1)).1
      | inr (q, e) ↦ cc (rw e at (past (name == "" || root_user == "") _ fs _ h).1)
    ]

restore-entitled :
    (env : Env) (c : String) (fid : Option Fid) (root_user username : String) (fs : FileServer)
    → (c == "") ≡ false
    → (handle_restore env (some c) fid root_user username fs).0 ≡ none
    → (env.equal_fold c root_user ≡ true) × (env.equal_fold c username ≡ true)
unfolding handle_restore
restore-entitled env c none root_user username fs named h = cc
restore-entitled env c (some fid) root_user username fs named h =
    let one = past (root_user == "" || username == "") _ fs _ h in
    let two = past (not (c == "") && not (env.equal_fold c root_user)) _ fs _ one.1 in
    let three = past (not (c == "") && not (env.equal_fold c username)) _ fs _ two.1 in
    (same root_user two.0, same username three.0)
  where
    same :
        (u : String)
        → (not (c == "") && not (env.equal_fold c u)) ≡ false
        → env.equal_fold c u ≡ true
    same u e = ground arith

quota-entitled :
    (env : Env) (c : String) (password : Bool) (username : String) (bytes : ℕ) (fs : FileServer)
    → (c == "") ≡ false
    → (handle_set_quota env (some c) password username bytes fs).0 ≡ none
    → (password ≡ true) ⊎ (env.equal_fold c env.quota_admin ≡ true)
unfolding handle_set_quota is_refused_quota
quota-entitled env c password username bytes fs named h =
    let one = past (username == "" || bytes == 0) _ fs _ h in
    let two = past (is_refused_quota env (some c) password) _ fs _ one.1 in
    elim (Bool-cases password) [ inl t ↦ inl t | inr f ↦ inr (admin f two.0) ]
  where
    admin :
        password ≡ false
        → is_refused_quota env (some c) password ≡ false
        → env.equal_fold c env.quota_admin ≡ true
    admin f e = ground arith

-- A request of a caller with a session that is carried out is one that the caller is entitled to: they
-- own the inode that is shared, unshared, deleted or moved to the trash; they can access the directory
-- in which a file is created or written; the user and the root of a restore are both their own; and
-- to set a quota they gave the administrator's password or are the administrator.
pub handle-IsEntitled :
    (env : Env) (c : String) (r : Request) (fs : FileServer)
    → (c == "") ≡ false
    → (handle env (some c) r fs).0 ≡ none
    → IsEntitled env c r fs
unfolding handle handle_share handle_unshare handle_write handle_delete handle_trash
handle-IsEntitled env c (share_request username none user) fs named h = cc
handle-IsEntitled env c (share_request username (some fid) user) fs named h =
    guard-Owns env c (some fid) _ fs named (past (username == "" || user == "") _ fs _ h).1
handle-IsEntitled env c (unshare_request username none user) fs named h = cc
handle-IsEntitled env c (unshare_request username (some fid) user) fs named h =
    guard-Owns env c (some fid) _ fs named (past (username == "" || user == "") _ fs _ h).1
handle-IsEntitled env c (create_request name root_user size fid kind) fs named h =
    create-CanAccess env c name root_user size fid kind fs named h
handle-IsEntitled env c (write_request fid name offset len) fs named h =
    guard-CanAccess env c fid _ fs named (past (name == "") _ fs _ h).1
handle-IsEntitled env c (delete_request none root_user recursive) fs named h = cc
handle-IsEntitled env c (delete_request (some fid) root_user recursive) fs named h =
    guard-Owns env c (some fid) _ fs named h
handle-IsEntitled env c (trash_request none root_user recursive) fs named h = cc
handle-IsEntitled env c (trash_request (some fid) root_user recursive) fs named h =
    guard-Owns env c (some fid) _ fs named h
handle-IsEntitled env c (restore_request fid root_user username) fs named h =
    restore-entitled env c fid root_user username fs named h
handle-IsEntitled env c (set_quota_request password username bytes) fs named h =
    quota-entitled env c password username bytes fs named h
