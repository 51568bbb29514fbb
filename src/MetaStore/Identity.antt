-- ===== src/MetaStore/Identity.antt =====
-- The numeric ids of the nodes: allocated once, never shared.
use distributed_virtual_file.Prelude.{
  ℕ, ◌+◌, ◌%◌, ◌^◌, ◌<◌, String, ◌≡◌, ◌≢◌, refl, sym, ap, ◌∙◌, subst, some, List, [], ◌∷◌, arith,
  ◌==◌, ==_iff, string_eq, Bool-cases, Option-cases, ◌⊎◌, inl, inr,
}
use distributed_virtual_file.GoMap.{GoMap, get, delete, insert, get-delete, get-insert}
use distributed_virtual_file.MetaStore.{
  FileServerRecord, Store, Context, live, done, new, numeric_id_for, next_id_after,
  upsert_file_server, remove_file_server, update_node, record_heartbeat, set_file_server_status,
  rename_file_server, move_record, assign_user, assign_users, remove_users, add_share, add_shares,
  remove_share, remove_shares_involving, remove_shares_by_owner,
}
use distributed_virtual_file.MetaStore.Calls.{
  Call, upserts, removes_node, heartbeats, sets_status, renames, assigns, assigns_all,
  removes_users, adds_share, adds_shares, removes_share, removes_involving, removes_owned, after,
  run, after-done,
}

abbrev pub Nodes : Type 0
Nodes = GoMap String FileServerRecord

-- Ids lie below the counter, and two nodes never share one.
pub record Ids (next : ℕ) (m : Nodes) : Type 0 where
  pub below : (n : String) (r : FileServerRecord) → get n m ≡ some r → r.numeric_id < next
  pub unique :
      (a b : String) (ra rb : FileServerRecord)
      → get a m ≡ some ra
      → get b m ≡ some rb
      → ra.numeric_id ≡ rb.numeric_id
      → a ≡ b

deleted :
    (n a : String) (m : Nodes) (r : FileServerRecord)
    → get a (delete n m) ≡ some r
    → (get a m ≡ some r) × (n ≢ a)
deleted n a m r e =
    (ground (arith, get-delete n a m), λ h. ground (arith, get-delete n a m, ==_iff n a))

delete-Ids : (n : String) (next : ℕ) (m : Nodes) → Ids next m → Ids next (delete n m)
delete-Ids n next m v = record {
  below = λ a r e. v.below a r (deleted n a m r e).0;
  unique =
      λ a b ra rb ea eb h. v.unique a b ra rb (deleted n a m ra ea).0 (deleted n b m rb eb).0 h;
}

-- What a read returns after a write: the new record, or an old one of another node.
inserted :
    (n a : String) (r x : FileServerRecord) (m : Nodes)
    → get a (insert n r m) ≡ some x
    → ((n ≡ a) × (r ≡ x)) ⊎ (get a m ≡ some x)
inserted n a r x m e = elim (Bool-cases (n == a)) [
  | inl t ↦ inl ((==_iff n a).0 t, ground (arith, get-insert n a r m))
  | inr f ↦ inr (ground (arith, get-insert n a r m))
]

-- A record may be written under an id that no other node has.
insert-Ids :
    (n : String) (r : FileServerRecord) (next : ℕ) (m : Nodes)
    → Ids next m
    → r.numeric_id < next
    → ((b : String) (rb : FileServerRecord)
        → get b m ≡ some rb
        → rb.numeric_id ≡ r.numeric_id
        → b ≡ n)
    → Ids next (insert n r m)
insert-Ids n r next m v fresh only = record {
  below = λ a x e. elim (inserted n a r x m e) [
    | inl h ↦ subst (λ (z : FileServerRecord). z.numeric_id < next) h.1 fresh
    | inr old ↦ v.below a x old
  ];
  unique = λ a b ra rb ea eb h. elim (inserted n a r ra m ea) [
    | inl p ↦ elim (inserted n b r rb m eb) [
      | inl q ↦ sym p.0 ∙ q.0
      | inr oldb ↦
          sym p.0
          ∙ sym (only b rb oldb (sym h ∙ ap (λ (z : FileServerRecord). z.numeric_id) (sym p.1)))
    ]
    | inr olda ↦ elim (inserted n b r rb m eb) [
      | inl q ↦ only a ra olda (h ∙ ap (λ (z : FileServerRecord). z.numeric_id) (sym q.1)) ∙ q.0
      | inr oldb ↦ v.unique a b ra rb olda oldb h
    ]
  ];
}

raise-Ids : (next : ℕ) (m : Nodes) → Ids next m → Ids (next + 1) m
raise-Ids next m v = record { below = λ a r e. omega (arith, v.below a r e); unique = v.unique }

upsert-Ids :
    (rec : FileServerRecord) (s : Store)
    → s.next_numeric_id + 1 < 2 ^ 64
    → Ids s.next_numeric_id s.file_servers
    → Ids (next_id_after rec.node_id s) (
        insert rec.node_id
          (record rec { numeric_id = numeric_id_for rec.node_id s })
          s.file_servers)
unfolding next_id_after numeric_id_for
upsert-Ids rec s small v = elim (Option-cases (get rec.node_id s.file_servers)) [
  | inl e ↦
      let no_wrap : (s.next_numeric_id + 1) % 2 ^ 64 ≡ s.next_numeric_id + 1 = omega arith in
      rw (e, next_id_after, numeric_id_for, no_wrap)
        (insert-Ids rec.node_id _ _ s.file_servers (raise-Ids _ _ v) (omega arith)
          (λ b rb eb h. absurd (omega (arith, v.below b rb eb))))
  | inr (old, e) ↦
      rw (e, next_id_after, numeric_id_for)
        (insert-Ids rec.node_id _ _ s.file_servers v (v.below rec.node_id old e)
          (λ b rb eb h. v.unique b rec.node_id rb old eb e h))
]

update-Ids :
    (n : String) (f : FileServerRecord → FileServerRecord) (s : Store)
    → ((r : FileServerRecord) → (f r).numeric_id ≡ r.numeric_id)
    → Ids s.next_numeric_id s.file_servers
    → Ids (update_node n f s).1.next_numeric_id (update_node n f s).1.file_servers
unfolding update_node
update-Ids n f s same v = elim (Option-cases (get n s.file_servers)) [
  | inl e ↦ rw (e, update_node) v
  | inr (r, e) ↦
      rw (e, update_node)
        (insert-Ids n (f r) s.next_numeric_id s.file_servers v (rw (same r) (v.below n r e))
          (λ b rb eb h. v.unique b n rb r eb e (h ∙ same r)))
]

move-Ids :
    (old_id new_id : String) (rec : FileServerRecord) (next : ℕ) (m : Nodes)
    → get old_id m ≡ some rec
    → Ids next m
    → Ids next (move_record old_id new_id rec m)
unfolding move_record
move-Ids old_id new_id rec next m e v = elim (Option-cases (get new_id (delete old_id m))) [
  | inr (k, g) ↦ rw (g, move_record) (delete-Ids old_id next m v)
  | inl g ↦
      rw (g, move_record)
        (insert-Ids new_id _ next (delete old_id m) (delete-Ids old_id next m v)
          (v.below old_id rec e)
          (λ b rb eb h.
            let d = deleted old_id b m rb eb in
            absurd (d.1 (v.unique old_id b rec rb e d.0 (sym h)))))
]

abbrev pub IdsOf : Store → Type 0
IdsOf s = Ids s.next_numeric_id s.file_servers

rename-Ids :
    (old_id new_id : String) (s : Store)
    → IdsOf s
    → IdsOf (rename_file_server live old_id new_id s).1
unfolding rename_file_server
rename-Ids old_id new_id s v = elim (Bool-cases (old_id == new_id)) [
  | inl t ↦ rw t v
  | inr f ↦ rw f (elim (Option-cases (get old_id s.file_servers)) [
    | inl e ↦ rw (e, rename_file_server) v
    | inr (rec, e) ↦ rw (e, rename_file_server) (move-Ids old_id new_id rec _ s.file_servers e v)
  ])
]

live-Ids :
    (c : Call) (s : Store) → s.next_numeric_id + 1 < 2 ^ 64 → IdsOf s → IdsOf (after live c s)
unfolding after upsert_file_server remove_file_server record_heartbeat set_file_server_status
    assign_user assign_users remove_users add_share add_shares remove_share remove_shares_involving
    remove_shares_by_owner
live-Ids (upserts rec) s small v = upsert-Ids rec s small v
live-Ids (removes_node n) s small v = delete-Ids n _ s.file_servers v
live-Ids (heartbeats n at status) s small v = update-Ids n _ s (λ r. refl) v
live-Ids (sets_status n status) s small v = update-Ids n _ s (λ r. refl) v
live-Ids (renames old_id new_id) s small v = rename-Ids old_id new_id s v
live-Ids (removes_involving []) s small v = v
live-Ids (removes_involving (u ∷ us)) s small v = v
live-Ids (removes_owned []) s small v = v
live-Ids (removes_owned (u ∷ us)) s small v = v
live-Ids (assigns u n) s small v = v
live-Ids (assigns_all us) s small v = v
live-Ids (removes_users us) s small v = v
live-Ids (adds_share sh) s small v = v
live-Ids (adds_shares shs) s small v = v
live-Ids (removes_share g o p) s small v = v

-- Every write to a store whose counter has room keeps the numeric ids distinct and below the counter.
pub after-Ids :
    (ctx : Context) (c : Call) (s : Store)
    → s.next_numeric_id + 1 < 2 ^ 64
    → IdsOf s
    → IdsOf (after ctx c s)
after-Ids live c s small v = live-Ids c s small v
after-Ids done c s small v = rw (after-done c s) v

-- The counter has room for one more id before every write of the run.
unfoldable pub HasRoom : Store → List (Context × Call) → Type 0
HasRoom s [] = Unit {0}
HasRoom s ((ctx, c) ∷ cs) = (s.next_numeric_id + 1 < 2 ^ 64) × HasRoom (after ctx c s) cs

run-Ids : (s : Store) (cs : List (Context × Call)) → HasRoom s cs → IdsOf s → IdsOf (run s cs)
unfolding run HasRoom
run-Ids s [] room v = v
run-Ids s ((ctx, c) ∷ cs) room v = run-Ids (after ctx c s) cs room.1 (after-Ids ctx c s room.0 v)

-- After any writes to an empty store, failed ones included, before each of which the 64-bit counter
-- has room for one more id: two nodes with the same numeric id are the same node, and every id lies
-- below the counter, so that the next allocation is new.
pub ids_distinct : (cs : List (Context × Call)) → HasRoom new cs → IdsOf (run new cs)
unfolding get
ids_distinct cs room =
    run-Ids new cs room (record { below = λ n r e. cc; unique = λ a b ra rb ea eb h. cc })
