-- ===== src/MetaStore/Sharing.antt =====
-- The shares of the store: one record for each grantee, owner and normalised path.
use distributed_virtual_file.Prelude.{
  String, ◌≡◌, refl, Bool, true, not, ◌||◌, Option, none, some, List, [], ◌∷◌, arith, if◌then◌else◌,
  ◌==◌, string_eq, Bool-cases, contains, inl, inr,
}
use distributed_virtual_file.GoMap.{
  GoMap, IsMap, get, get-delete, get-insert, accept, get-keep, insert-IsMap, delete-IsMap,
  keep-IsMap,
}
use distributed_virtual_file.MetaStore.{
  FileServerRecord, ShareKey, ShareRecord, share_key_eq, Store, Context, live, done, new,
  normalize_share_path, share_key, normalized, put_share, put_shares, upsert_file_server,
  remove_file_server, record_heartbeat, set_file_server_status, rename_file_server, update_node,
  assign_user, assign_users, remove_users, add_share, add_shares, remove_share,
  remove_shares_involving, remove_shares_by_owner,
}
use distributed_virtual_file.MetaStore.Calls.{
  Call, upserts, removes_node, heartbeats, sets_status, renames, assigns, assigns_all,
  removes_users, adds_share, adds_shares, removes_share, removes_involving, removes_owned, after,
  run, after-done,
}

-- The key of a share, whatever the spelling of its path.
abbrev pub key_of : String → String → String → ShareKey
key_of grantee owner path = record {
  grantee = grantee;
  owner = owner;
  path = normalize_share_path path;
}

pub get-add_share :
    (sh : ShareRecord) (k : ShareKey) (s : Store)
    → get k (add_share live sh s).1.shares
      ≡ (if key_of sh.grantee sh.owner sh.path == k then some (normalized sh) else get k s.shares)
unfolding add_share share_key normalized
get-add_share sh k s = get-insert _ k (normalized sh) s.shares

pub get-remove_share :
    (g o p : String) (k : ShareKey) (s : Store)
    → get k (remove_share live g o p s).1.shares
      ≡ (if key_of g o p == k then none else get k s.shares)
unfolding remove_share
get-remove_share g o p k s = get-delete (key_of g o p) k s.shares

-- Revoking a share that was just granted, under any spelling of the same path, leaves every key as
-- it was but the share's own, which is free.
pub remove-add_share :
    (sh : ShareRecord) (p : String) (k : ShareKey) (s : Store)
    → normalize_share_path p ≡ normalize_share_path sh.path
    → get k (remove_share live sh.grantee sh.owner p (add_share live sh s).1).1.shares
      ≡ (if key_of sh.grantee sh.owner sh.path == k then none else get k s.shares)
remove-add_share sh p k s same =
    rw (get-remove_share sh.grantee sh.owner p k (add_share live sh s).1) (
      rw same (
        rw (get-add_share sh k s) (elim (Bool-cases (key_of sh.grantee sh.owner sh.path == k)) [
          | inl t ↦ rw t refl
          | inr f ↦ rw f refl
        ])))

put_shares-IsMap :
    (shs : List ShareRecord) (m : GoMap ShareKey ShareRecord) → IsMap m → IsMap (put_shares shs m)
unfolding put_shares put_share
put_shares-IsMap [] m v = v
put_shares-IsMap (sh ∷ shs) m v = put_shares-IsMap shs (put_share sh m) (insert-IsMap _ _ m v)

update-shares :
    (n : String) (f : FileServerRecord → FileServerRecord) (s : Store)
    → (update_node n f s).1.shares ≡ s.shares
unfolding update_node
update-shares n f s = ground arith

rename-shares : (a b : String) (s : Store) → (rename_file_server live a b s).1.shares ≡ s.shares
unfolding rename_file_server
rename-shares a b s = ground arith

live-IsMap : (c : Call) (s : Store) → IsMap s.shares → IsMap (after live c s).shares
unfolding after upsert_file_server remove_file_server record_heartbeat set_file_server_status
    assign_user assign_users remove_users add_share add_shares remove_share remove_shares_involving
    remove_shares_by_owner
live-IsMap (upserts rec) s v = v
live-IsMap (removes_node n) s v = v
live-IsMap (heartbeats n at status) s v = rw (update-shares n _ s) v
live-IsMap (sets_status n status) s v = rw (update-shares n _ s) v
live-IsMap (renames a b) s v = rw (rename-shares a b s) v
live-IsMap (removes_involving []) s v = v
live-IsMap (removes_involving (u ∷ us)) s v = keep-IsMap _ s.shares v
live-IsMap (removes_owned []) s v = v
live-IsMap (removes_owned (u ∷ us)) s v = keep-IsMap _ s.shares v
live-IsMap (assigns u n) s v = v
live-IsMap (assigns_all us) s v = v
live-IsMap (removes_users us) s v = v
live-IsMap (adds_share sh) s v = insert-IsMap _ _ s.shares v
live-IsMap (adds_shares shs) s v = put_shares-IsMap shs s.shares v
live-IsMap (removes_share g o p) s v = delete-IsMap _ s.shares v

after-IsMap : (ctx : Context) (c : Call) (s : Store) → IsMap s.shares → IsMap (after ctx c s).shares
after-IsMap live c s v = live-IsMap c s v
after-IsMap done c s v = rw (after-done c s) v

run-IsMap : (s : Store) (cs : List (Context × Call)) → IsMap s.shares → IsMap (run s cs).shares
unfolding run
run-IsMap s [] v = v
run-IsMap s ((ctx, c) ∷ cs) v = run-IsMap (after ctx c s) cs (after-IsMap ctx c s v)

-- The shares of every reachable store form a map.
pub reachable-IsMap : (cs : List (Context × Call)) → IsMap (run new cs).shares
reachable-IsMap cs = run-IsMap new cs tt

abbrev pub involves : List String → ShareKey → Bool
involves names k = contains k.grantee names || contains k.owner names

all-accepted : (o : Option ShareRecord) → o ≡ accept (λ r. true) o
all-accepted o = ground arith

-- In a store whose share keys are distinct, RemoveSharesInvolving drops the shares that have
-- one of the users on either side, and no other.
get-remove_shares_involving :
    (names : List String) (k : ShareKey) (s : Store)
    → IsMap s.shares
    → get k (remove_shares_involving live names s).1.shares
      ≡ accept (λ r. not (involves names k)) (get k s.shares)
unfolding remove_shares_involving
get-remove_shares_involving [] k s v = all-accepted (get k s.shares)
get-remove_shares_involving (n ∷ ns) k s v =
    get-keep (λ e. not (involves (n ∷ ns) e.0)) k s.shares v

-- In a store whose share keys are distinct, RemoveSharesByOwner drops the shares that one of
-- the users publishes, and no other: what they merely receive stays.
get-remove_shares_by_owner :
    (owners : List String) (k : ShareKey) (s : Store)
    → IsMap s.shares
    → get k (remove_shares_by_owner live owners s).1.shares
      ≡ accept (λ r. not (contains k.owner owners)) (get k s.shares)
unfolding remove_shares_by_owner
get-remove_shares_by_owner [] k s v = all-accepted (get k s.shares)
get-remove_shares_by_owner (n ∷ ns) k s v =
    get-keep (λ e. not (contains e.0.owner (n ∷ ns))) k s.shares v

-- In a store whose share keys are distinct, RemoveSharesInvolving drops the shares that have one of
-- the users on either side, and no other; RemoveSharesByOwner drops those that one of the users
-- publishes, and no other, so that what they merely receive stays.
pub get-remove_shares :
    (names : List String) (k : ShareKey) (s : Store)
    → IsMap s.shares
    → (get k (remove_shares_involving live names s).1.shares
        ≡ accept (λ r. not (involves names k)) (get k s.shares))
      × (get k (remove_shares_by_owner live names s).1.shares
          ≡ accept (λ r. not (contains k.owner names)) (get k s.shares))
get-remove_shares names k s v =
    (get-remove_shares_involving names k s v, get-remove_shares_by_owner names k s v)
