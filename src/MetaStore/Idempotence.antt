-- ===== src/MetaStore/Idempotence.antt =====
-- The contract of MetaStore: a write that is repeated leaves the store as the first one left it.
use distributed_virtual_file.Prelude.{
  String, ◌≡◌, refl, sym, ap, ◌∙◌, Bool, true, false, none, some, List, [], ◌∷◌, arith,
  if◌then◌else◌, ◌==◌, ==_iff, ==_refl, string_eq, Bool-cases, Option-cases, keep, inl, inr,
  contains, Eq, ◌⊎◌,
}
use distributed_virtual_file.GoMap.{
  GoMap, get, delete, insert, get-delete, get-insert, get-insert_self, get-delete_self,
}
use distributed_virtual_file.MetaStore.{
  FileServerRecord, UserRecord, ShareKey, ShareRecord, share_key_eq, Store, live, share_key,
  normalized, put_share, put_shares, numeric_id_for, next_id_after, upsert_file_server,
  remove_file_server, record_heartbeat, set_file_server_status, rename_file_server, update_node,
  move_record, assign_all, remove_all, assign_user, assign_users, remove_users, add_share,
  add_shares, remove_share, remove_shares_involving, remove_shares_by_owner,
}
use distributed_virtual_file.MetaStore.Calls.{
  Call, upserts, removes_node, heartbeats, sets_status, renames, assigns, assigns_all,
  removes_users, adds_share, adds_shares, removes_share, removes_involving, removes_owned, after,
}

-- Two stores that no read tells apart.
pub record SameStore (s t : Store) : Type 0 where
  pub nodes : (n : String) → get n s.file_servers ≡ get n t.file_servers
  pub users : (u : String) → get u s.users ≡ get u t.users
  pub shares : (k : ShareKey) → get k s.shares ≡ get k t.shares
  pub counter : s.next_numeric_id ≡ t.next_numeric_id

SameStore-refl : (s : Store) → SameStore s s
SameStore-refl s = record {
  nodes = λ n. refl;
  users = λ u. refl;
  shares = λ k. refl;
  counter = refl;
}

module _ {K V : Type 0} ⦃e : Eq K⦄ where
  insert-insert :
      (k j : K) (v : V) (m : GoMap K V) → get j (insert k v (insert k v m)) ≡ get j (insert k v m)
  insert-insert k j v m = ground (arith, get-insert k j v m, get-insert k j v (insert k v m))

  delete-delete : (k j : K) (m : GoMap K V) → get j (delete k (delete k m)) ≡ get j (delete k m)
  delete-delete k j m = ground (arith, get-delete k j m, get-delete k j (delete k m))

upsert-twice :
    (rec : FileServerRecord) (s : Store)
    → SameStore
        (upsert_file_server live rec (upsert_file_server live rec s).1).1
        (upsert_file_server live rec s).1
unfolding upsert_file_server
upsert-twice rec s =
    let id = numeric_id_for rec.node_id s in
    let t : Store = (upsert_file_server live rec s).1 in
    let again : get rec.node_id t.file_servers ≡ some (record rec { numeric_id = id }) =
      get-insert_self rec.node_id (record rec { numeric_id = id }) s.file_servers in
    let same : numeric_id_for rec.node_id t ≡ id =
      unfold numeric_id_for in rw (again, numeric_id_for) refl in
    record {
      nodes = λ n.
          rw same (insert-insert rec.node_id n (record rec { numeric_id = id }) s.file_servers);
      users = λ u. refl;
      shares = λ k. refl;
      counter = unfold next_id_after in rw (again, next_id_after) refl;
    }

update_missing :
    (n : String) (f : FileServerRecord → FileServerRecord) (s : Store)
    → get n s.file_servers ≡ none
    → (update_node n f s).1 ≡ s
unfolding update_node
update_missing n f s e = rw (e, update_node) refl

update_found :
    (n : String) (f : FileServerRecord → FileServerRecord) (s : Store) (r : FileServerRecord)
    → get n s.file_servers ≡ some r
    → (update_node n f s).1 ≡ record s { file_servers = insert n (f r) s.file_servers }
unfolding update_node
update_found n f s r e = rw (e, update_node) refl

update-twice :
    (n : String) (f : FileServerRecord → FileServerRecord) (s : Store)
    → ((r : FileServerRecord) → f (f r) ≡ f r)
    → SameStore (update_node n f (update_node n f s).1).1 (update_node n f s).1
update-twice n f s twice = elim (Option-cases (get n s.file_servers)) [
  | inl e ↦ rw (update_missing n f s e) (rw (update_missing n f s e) (SameStore-refl s))
  | inr (r, e) ↦
      let t : Store = record s { file_servers = insert n (f r) s.file_servers } in
      rw (update_found n f s r e) (
        rw (update_found n f t (f r) (get-insert_self n (f r) s.file_servers)) (record {
          nodes = λ j. rw (twice r) (insert-insert n j (f r) s.file_servers);
          users = λ u. refl;
          shares = λ k. refl;
          counter = refl;
        }))
]

heartbeat_twice :
    (status old : String)
    → (if status == "" then (if status == "" then old else status) else status)
      ≡ (if status == "" then old else status)
heartbeat_twice status old = ground arith

moved :
    (old_id new_id : String) (rec : FileServerRecord) (m : GoMap String FileServerRecord)
    → (old_id == new_id) ≡ false
    → get old_id (move_record old_id new_id rec m) ≡ none
unfolding move_record
moved old_id new_id rec m other = elim (Option-cases (get new_id (delete old_id m))) [
  | inr (k, g) ↦ rw (g, move_record) (get-delete_self old_id m)
  | inl g ↦
      rw (g, move_record)
        (ground (
          arith,
          get-insert new_id old_id (record rec { node_id = new_id }) (delete old_id m),
          get-delete old_id old_id m,
          ==_iff old_id new_id,
          ==_iff new_id old_id,
          ==_refl old_id,
        ))
]

rename_missing :
    (a b : String) (s : Store) → get a s.file_servers ≡ none → (rename_file_server live a b s).1 ≡ s
unfolding rename_file_server
rename_missing a b s e = rw (e, rename_file_server) (ground arith)

rename_same : (a b : String) (s : Store) → (a == b) ≡ true → (rename_file_server live a b s).1 ≡ s
unfolding rename_file_server
rename_same a b s t = rw t refl

renamed_gone :
    (a b : String) (s : Store)
    → (a == b) ≡ false
    → get a (rename_file_server live a b s).1.file_servers ≡ none
unfolding rename_file_server
renamed_gone a b s f = elim (Option-cases (get a s.file_servers)) [
  | inl e ↦ rw f (rw (e, rename_file_server) e)
  | inr (rec, e) ↦ rw f (rw (e, rename_file_server) (moved a b rec s.file_servers f))
]

rename-twice :
    (a b : String) (s : Store)
    → (rename_file_server live a b (rename_file_server live a b s).1).1
      ≡ (rename_file_server live a b s).1
rename-twice a b s = elim (Bool-cases (a == b)) [
  | inl t ↦ rename_same a b _ t
  | inr f ↦ rename_missing a b _ (renamed_gone a b s f)
]

-- What a list of assignments does to one user does not depend on the map it is applied to.
assign_all-cases :
    (us : List UserRecord) (j : String)
    → ((h : String) × ((m : GoMap String String) → get j (assign_all us m) ≡ some h))
      ⊎ ((m : GoMap String String) → get j (assign_all us m) ≡ get j m)
unfolding assign_all
assign_all-cases [] j = inr (λ m. refl)
assign_all-cases (u ∷ us) j = elim (assign_all-cases us j) [
  | inl (h, w) ↦ inl (h, λ m. w (insert u.username u.home_node_id m))
  | inr same ↦ elim (Bool-cases (u.username == j)) [
    | inl t ↦
        inl (u.home_node_id, λ m. rw (same _, get-insert u.username j u.home_node_id m, t) refl)
    | inr f ↦ inr (λ m. rw (same _, get-insert u.username j u.home_node_id m, f) refl)
  ]
]

assign-twice :
    (us : List UserRecord) (j : String) (m : GoMap String String)
    → get j (assign_all us (assign_all us m)) ≡ get j (assign_all us m)
assign-twice us j m = elim (assign_all-cases us j) [
  | inl (h, w) ↦ w (assign_all us m) ∙ sym (w m)
  | inr same ↦ same (assign_all us m)
]

get-remove_all :
    (us : List String) (j : String) (m : GoMap String String)
    → get j (remove_all us m) ≡ (if contains j us then none else get j m)
unfolding remove_all
get-remove_all [] j m = refl
get-remove_all (u ∷ us) j m = ground (arith, get-remove_all us j (delete u m), get-delete u j m)

remove-twice :
    (us : List String) (j : String) (m : GoMap String String)
    → get j (remove_all us (remove_all us m)) ≡ get j (remove_all us m)
remove-twice us j m = ground (arith, get-remove_all us j (remove_all us m), get-remove_all us j m)

put_shares-cases :
    (shs : List ShareRecord) (k : ShareKey)
    → ((r : ShareRecord) × ((m : GoMap ShareKey ShareRecord) → get k (put_shares shs m) ≡ some r))
      ⊎ ((m : GoMap ShareKey ShareRecord) → get k (put_shares shs m) ≡ get k m)
unfolding put_shares put_share
put_shares-cases [] k = inr (λ m. refl)
put_shares-cases (sh ∷ shs) k = elim (put_shares-cases shs k) [
  | inl (r, w) ↦ inl (r, λ m. w (put_share sh m))
  | inr same ↦ elim (Bool-cases (share_key (normalized sh) == k)) [
    | inl t ↦ inl (
      normalized sh,
      λ m. rw (same _, get-insert (share_key (normalized sh)) k (normalized sh) m, t) refl,
    )
    | inr f ↦
        inr (λ m. rw (same _, get-insert (share_key (normalized sh)) k (normalized sh) m, f) refl)
  ]
]

shares-twice :
    (shs : List ShareRecord) (k : ShareKey) (m : GoMap ShareKey ShareRecord)
    → get k (put_shares shs (put_shares shs m)) ≡ get k (put_shares shs m)
shares-twice shs k m = elim (put_shares-cases shs k) [
  | inl (r, w) ↦ w (put_shares shs m) ∙ sym (w m)
  | inr same ↦ same (put_shares shs m)
]

module _ {A : Type 0} where
  keep-keep : (p : A → Bool) (xs : List A) → keep p (keep p xs) ≡ keep p xs
  keep-keep p [] = refl
  keep-keep p (x ∷ xs) = elim (Bool-cases (p x)) [
    | inl t ↦ rw t (rw t (rw (keep-keep p xs) refl))
    | inr f ↦ rw f (keep-keep p xs)
  ]

only_nodes :
    (s : Store) (m : GoMap String FileServerRecord)
    → ((n : String) → get n m ≡ get n s.file_servers)
    → SameStore (record s { file_servers = m }) s
only_nodes s m h = record { nodes = h; users = λ u. refl; shares = λ k. refl; counter = refl }

only_users :
    (s : Store) (m : GoMap String String)
    → ((u : String) → get u m ≡ get u s.users)
    → SameStore (record s { users = m }) s
only_users s m h = record { nodes = λ n. refl; users = h; shares = λ k. refl; counter = refl }

only_shares :
    (s : Store) (m : GoMap ShareKey ShareRecord)
    → ((k : ShareKey) → get k m ≡ get k s.shares)
    → SameStore (record s { shares = m }) s
only_shares s m h = record { nodes = λ n. refl; users = λ u. refl; shares = h; counter = refl }

-- Every write of the store is idempotent: a repeated call changes no lookup and no counter.
pub after-after :
    (c : Call) (s : Store) → SameStore (after live c (after live c s)) (after live c s)
unfolding after remove_file_server record_heartbeat set_file_server_status assign_user assign_users
    remove_users add_share add_shares remove_share remove_shares_involving remove_shares_by_owner
    put_share
after-after (upserts rec) s = upsert-twice rec s
after-after (removes_node n) s = only_nodes _ _ (λ j. delete-delete n j s.file_servers)
after-after (heartbeats n at status) s =
    update-twice n _ s (λ r. ground (arith, heartbeat_twice status r.status))
after-after (sets_status n status) s = update-twice n _ s (λ r. refl)
after-after (renames a b) s = rw (rename-twice a b s) (SameStore-refl _)
after-after (assigns u n) s = only_users _ _ (λ j. insert-insert u j n s.users)
after-after (assigns_all us) s = only_users _ _ (λ j. assign-twice us j s.users)
after-after (removes_users us) s = only_users _ _ (λ j. remove-twice us j s.users)
after-after (adds_share sh) s = only_shares _ _ (λ k. insert-insert _ k (normalized sh) s.shares)
after-after (adds_shares shs) s = only_shares _ _ (λ k. shares-twice shs k s.shares)
after-after (removes_share g o p) s = only_shares _ _ (λ k. delete-delete _ k s.shares)
after-after (removes_involving []) s = SameStore-refl s
after-after (removes_involving (u ∷ us)) s =
    only_shares _ _ (λ k. ap (get k) (keep-keep _ s.shares))
after-after (removes_owned []) s = SameStore-refl s
after-after (removes_owned (u ∷ us)) s = only_shares _ _ (λ k. ap (get k) (keep-keep _ s.shares))
