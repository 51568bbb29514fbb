-- ===== src/Session/Invariant.antt =====
-- The invariant of the session store, kept by CreateSession and by every removal.
use distributed_virtual_file.Prelude.{
  ℕ, ◌≤◌, ◌<◌, String, ◌≡◌, refl, sym, ap, true, false, some, inl, inr, List, [], ◌∷◌, arith, ◌==◌,
  ==_iff, ==_refl, string_eq, Bool-cases, Option-cases, length, length-append, In, In-append_left,
  In-append_last, leb, subst,
}
use distributed_virtual_file.GoMap.{
  GoMap, IsMap, get, delete, insert, get-delete, length-delete-le, delete-IsMap, get_or,
  get_or-insert, get-insert, length-insert-le, insert-IsMap,
}
use distributed_virtual_file.Session.{
  Session, Store, slice, purge_one, purge_all, purge_expired, expired_hashes, make_room,
  evict_oldest, remove_previous, add_session, create_locked, new_store, unindexed,
}
use distributed_virtual_file.Session.Drops.{Drops, Drops-remove, purge_one-Drops}

pub record Inv (s : Store) : Type 0 where
  pub listed : (j : String) (x : Session) → get j s.sessions ≡ some x → In j (slice x.username s)
  pub hashed : (j : String) (x : Session) → get j s.sessions ≡ some x → x.hash_id ≡ j
  pub user_cap : (u : String) → length (slice u s) ≤ s.per_user_limit
  pub global_cap : length s.sessions ≤ s.global_limit
  pub is_map : IsMap s.sessions
  pub some_user : 0 < s.per_user_limit

pub Drops-kept :
    {h : String} {s t : Store} (j : String) (x : Session)
    → Drops h s t
    → get j t.sessions ≡ some x
    → ((h == j) ≡ false) × (get j s.sessions ≡ some x)
Drops-kept {h} {s} {t} j x d e = ground (arith, d.lookup j)

pub Drops-Inv : {h : String} {s t : Store} → Drops h s t → Inv s → Inv t
Drops-Inv d v = record {
  listed = λ j x e. let k = Drops-kept j x d e in d.listed x.username j k.0 (v.listed j x k.1);
  hashed = λ j x e. v.hashed j x (Drops-kept j x d e).1;
  user_cap = λ u. omega (arith, d.shorter u, v.user_cap u, d.same_user_limit);
  global_cap = omega (arith, d.smaller, v.global_cap, d.same_global_limit);
  is_map = d.maps v.is_map;
  some_user = omega (arith, d.same_user_limit, v.some_user);
}

pub purge_all-Inv : (hs : List String) (s : Store) → Inv s → Inv (purge_all hs s)
unfolding purge_all
purge_all-Inv [] s v = v
purge_all-Inv (h ∷ hs) s v = purge_all-Inv hs (purge_one h s) (Drops-Inv (purge_one-Drops h s) v)

pub purge_expired-Inv : (now : ℕ) (s : Store) → Inv s → Inv (purge_expired now s)
unfolding purge_expired
purge_expired-Inv now s v = purge_all-Inv (expired_hashes now s) s v

make_room-Inv : (now : ℕ) (s : Store) → Inv s → Inv (make_room now s)
unfolding make_room
make_room-Inv now s v = elim (Bool-cases (leb s.global_limit (length s.sessions))) [
  | inl t ↦ rw t (purge_expired-Inv now s v)
  | inr f ↦ rw f v
]

-- There is room for one more session of the user, and of anyone.
record Room (u : String) (s : Store) : Type 0 where
  inv : Inv s
  room : length (slice u s) < s.per_user_limit
  free : length s.sessions < s.global_limit

module _ (u oldest : String) (rest : List String) (s : Store) (e : slice u s ≡ oldest ∷ rest) where
  tail-listed : (j : String) → (oldest == j) ≡ false → In j (slice u s) → In j rest
  tail-listed j f i = split (subst (In j) e i)
    where
      split : In j (oldest ∷ rest) → In j rest
      split (inl p) = cc ((==_iff oldest j).1 (sym p), f)
      split (inr q) = q

  evict_rest-Drops :
      (index : GoMap String String)
      → Drops oldest s (record s {
        sessions = delete oldest s.sessions;
        user_sessions = insert u rest s.user_sessions;
        client_index = index;
      })
  unfolding slice
  evict_rest-Drops index = record {
    lookup = λ j. get-delete oldest j s.sessions;
    listed = λ v j f i. rw (get_or-insert u v rest [] s.user_sessions) (elim (Bool-cases (u == v)) [
      | inl t ↦ rw t (tail-listed j f (subst (λ w. In j (slice w s)) (sym ((==_iff u v).0 t)) i))
      | inr g ↦ rw g i
    ]);
    shorter = λ v. rw (get_or-insert u v rest [] s.user_sessions) (elim (Bool-cases (u == v)) [
      | inl t ↦ rw t (rw (← (==_iff u v).0 t) (omega (arith, ap length e)))
      | inr g ↦ rw g (omega arith)
    ]);
    smaller = length-delete-le oldest s.sessions;
    maps = delete-IsMap oldest s.sessions;
    same_user_limit = refl;
    same_global_limit = refl;
    same_ttl = refl;
  }

  evict_rest-Room :
      (index : GoMap String String)
      → Inv s
      → length s.sessions < s.global_limit
      → Room u (record s {
        sessions = delete oldest s.sessions;
        user_sessions = insert u rest s.user_sessions;
        client_index = index;
      })
  unfolding slice
  evict_rest-Room index v free = record {
    inv = Drops-Inv (evict_rest-Drops index) v;
    room =
        rw (get_or-insert u u rest [] s.user_sessions)
          (rw (==_refl u) (omega (arith, ap length e, v.user_cap u)));
    free = omega (arith, length-delete-le oldest s.sessions, free);
  }

evict_oldest-Room :
    (u : String) (s : Store)
    → Inv s
    → length s.sessions < s.global_limit
    → Room u (evict_oldest u s)
unfolding evict_oldest
evict_oldest-Room u s v free = elim (Bool-cases (leb s.per_user_limit (length (slice u s)))) [
  | inl t ↦ rw (t, evict_oldest) (full (slice u s) refl t)
  | inr f ↦ rw (f, evict_oldest) (record { inv = v; room = ground arith; free = free })
]
  where
    full :
        (hs : List String)
        → slice u s ≡ hs
        → leb s.per_user_limit (length (slice u s)) ≡ true
        → Room u (elim hs [
          | [] ↦ s
          | oldest ∷ rest ↦ record s {
            sessions = delete oldest s.sessions;
            user_sessions = insert u rest s.user_sessions;
            client_index = unindexed (get oldest s.sessions) s.client_index;
          }
        ])
    full [] e t = absurd (ground (arith, ap length e, v.some_user))
    full (oldest ∷ rest) e t = evict_rest-Room u oldest rest s e _ v free

remove_previous-Drops :
    (u c prev : String) (s : Store)
    → get c s.client_index ≡ some prev
    → Drops prev s (remove_previous u c s)
unfolding remove_previous
remove_previous-Drops u c prev s e = rw (e, remove_previous) (Drops-remove prev s s.client_index u)

remove_previous-Room : (u c : String) (s : Store) → Room u s → Room u (remove_previous u c s)
remove_previous-Room u c s r = elim (Option-cases (get c s.client_index)) [
  | inl e ↦ unfold remove_previous in rw (e, remove_previous) r
  | inr (prev, e) ↦
      let d = remove_previous-Drops u c prev s e in
      record {
        inv = Drops-Inv d r.inv;
        room = omega (arith, d.shorter u, r.room, d.same_user_limit);
        free = omega (arith, d.smaller, r.free, d.same_global_limit);
      }
]

module _ (sess : Session) (s : Store) where
  added-listed :
      Room sess.username s
      → (j : String) (x : Session) → get j (add_session sess s).sessions ≡ some x
      → In j (slice x.username (add_session sess s))
  unfolding add_session slice
  added-listed r j x e =
      rw (get_or-insert sess.username x.username _ [] s.user_sessions)
        (elim (Bool-cases (sess.hash_id == j)) [
          | inl t ↦
              let same : sess ≡ x = ground (arith, get-insert sess.hash_id j sess s.sessions) in
              rw (← same) (
                rw (==_refl sess.username)
                  (rw (← (==_iff sess.hash_id j).0 t) (In-append_last sess.hash_id _)))
          | inr f ↦
              let old : get j s.sessions ≡ some x =
                ground (arith, get-insert sess.hash_id j sess s.sessions) in
              elim (Bool-cases (sess.username == x.username)) [
                | inl t ↦ rw t (
                    In-append_left j _ _ (
                      subst (λ w. In j (slice w s)) (sym ((==_iff sess.username x.username).0 t))
                        (r.inv.listed j x old)))
                | inr g ↦ rw g (r.inv.listed j x old)
              ]
        ])

  added-hashed :
      Room sess.username s
      → (j : String) (x : Session) → get j (add_session sess s).sessions ≡ some x
      → x.hash_id ≡ j
  unfolding add_session
  added-hashed r j x e = elim (Bool-cases (sess.hash_id == j)) [
    | inl t ↦
        let same : sess ≡ x = ground (arith, get-insert sess.hash_id j sess s.sessions) in
        rw (← same) ((==_iff sess.hash_id j).0 t)
    | inr f ↦ r.inv.hashed j x (ground (arith, get-insert sess.hash_id j sess s.sessions))
  ]

  added-user_cap :
      Room sess.username s → (u : String) → length (slice u (add_session sess s)) ≤ s.per_user_limit
  unfolding add_session slice
  added-user_cap r u =
      rw (get_or-insert sess.username u _ [] s.user_sessions)
        (elim (Bool-cases (sess.username == u)) [
          | inl t ↦
              rw t
                (omega (arith, length-append (slice sess.username s) (sess.hash_id ∷ []), r.room))
          | inr f ↦ rw f (r.inv.user_cap u)
        ])

  add_session-Inv : Room sess.username s → Inv (add_session sess s)
  unfolding add_session
  add_session-Inv r = record {
    listed = added-listed r;
    hashed = added-hashed r;
    user_cap = added-user_cap r;
    global_cap = omega (arith, length-insert-le sess.hash_id sess s.sessions, r.free);
    is_map = insert-IsMap sess.hash_id sess s.sessions r.inv.is_map;
    some_user = r.inv.some_user;
  }

-- CreateSession keeps the invariant, whether it stores the session or refuses.
pub create_locked-Inv :
    (sess : Session) (now : ℕ) (s : Store) → Inv s → Inv (create_locked sess now s).1
unfolding create_locked
create_locked-Inv sess now s v =
    let s' = make_room now s in
    let v' : Inv s' = make_room-Inv now s v in
    elim (Bool-cases (leb s'.global_limit (length s'.sessions))) [
      | inl t ↦ rw t v'
      | inr f ↦ rw f (
          add_session-Inv sess _ (
            remove_previous-Room sess.username sess.client_id _
              (evict_oldest-Room sess.username s' v' (ground arith))))
    ]

pub new_store-Inv : (idle_ttl : ℕ) → Inv (new_store idle_ttl)
unfolding new_store slice get get_or
new_store-Inv idle_ttl = record {
  listed = λ j x e. cc;
  hashed = λ j x e. cc;
  user_cap = λ u. omega arith;
  global_cap = omega arith;
  is_map = tt;
  some_user = omega arith;
}
