-- ===== src/Session/Revocation.antt =====
-- What is left of the sessions after a sweep and after each revocation.
use distributed_virtual_file.Prelude.{
  ℕ, ◌≤◌, String, ◌≡◌, ◌≢◌, refl, sym, Bool, false, not, Option, none, some, inl, inr, List, [],
  ◌∷◌, arith, if◌then◌else◌, ◌==◌, ==_iff, string_eq, Bool-cases, Option-cases, length, In,
  contains, contains-In, subst, keep,
}
use distributed_virtual_file.GoMap.{
  IsMap, get, delete, get_or, get_or-delete, accept, is_some, get-keep, contains-keys,
}
use distributed_virtual_file.Session.{
  Session, Store, slice, purge_one, purge_all, purge_expired, expired_hashes, is_expired,
}
use distributed_virtual_file.Session.Revoke.{
  revoke_hash, revoke_by_client_id, drop_client_session, drop_hash, drop_hashes,
  revoke_all_for_user,
}
use distributed_virtual_file.Session.Slices.{missing-slice}
use distributed_virtual_file.Session.Drops.{
  Drops, Drops-absent, Drops-dropped, Drops-remove, purge_one-Drops,
}
use distributed_virtual_file.Session.Invariant.{Inv, Drops-Inv}

get-purge_all :
    (hs : List String) (j : String) (s : Store)
    → get j (purge_all hs s).sessions ≡ (if contains j hs then none else get j s.sessions)
unfolding purge_all
get-purge_all [] j s = refl
get-purge_all (h ∷ hs) j s =
    ground (arith, get-purge_all hs j (purge_one h s), (purge_one-Drops h s).lookup j)

swept :
    (p : Session → Bool) (o : Option Session)
    → (if is_some (accept p o) then none else o) ≡ accept (λ x. not (p x)) o
swept p o = ground arith

-- In a store whose session keys are distinct, a sweep removes the sessions that have expired at
-- its time, and no other.
pub get-purge_expired :
    (now : ℕ) (j : String) (s : Store)
    → IsMap s.sessions
    → get j (purge_expired now s).sessions
      ≡ accept (λ x. not (is_expired x now s.idle_ttl)) (get j s.sessions)
unfolding purge_expired expired_hashes
get-purge_expired now j s m = rw (get-purge_all (expired_hashes now s) j s) (
    rw (contains-keys j (keep (λ e. is_expired e.1 now s.idle_ttl) s.sessions)) (
      rw (get-keep (λ e. is_expired e.1 now s.idle_ttl) j s.sessions m)
        (swept (λ x. is_expired x now s.idle_ttl) (get j s.sessions))))

pub revoke_hash-Drops : (h : String) (s : Store) → Drops h s (revoke_hash h s)
unfolding revoke_hash
revoke_hash-Drops h s = elim (Option-cases (get h s.sessions)) [
  | inl e ↦ rw (e, revoke_hash) (Drops-absent h s e)
  | inr (x, e) ↦
      rw (e, revoke_hash) (Drops-remove h s (delete x.client_id s.client_index) x.username)
]

pub drop_client_session-Drops : (c h : String) (s : Store) → Drops h s (drop_client_session c h s)
unfolding drop_client_session
drop_client_session-Drops c h s = elim (Option-cases (get h s.sessions)) [
  | inl e ↦ rw (e, drop_client_session) (Drops-dropped h s (delete c s.client_index))
  | inr (x, e) ↦ rw (e, drop_client_session) (Drops-remove h s (delete c s.client_index) x.username)
]

pub revoke_by_client_id-Inv : (c : String) (s : Store) → Inv s → Inv (revoke_by_client_id c s)
unfolding revoke_by_client_id
revoke_by_client_id-Inv c s v = elim (Option-cases (get c s.client_index)) [
  | inl e ↦ rw (e, revoke_by_client_id) v
  | inr (h, e) ↦ rw (e, revoke_by_client_id) (Drops-Inv (drop_client_session-Drops c h s) v)
]

drop_hash-Drops : (h : String) (s : Store) → Drops h s (drop_hash h s)
unfolding drop_hash
drop_hash-Drops h s = Drops-dropped h s _

drop_hashes-Inv : (hs : List String) (s : Store) → Inv s → Inv (drop_hashes hs s)
unfolding drop_hashes
drop_hashes-Inv [] s v = v
drop_hashes-Inv (h ∷ hs) s v =
    drop_hashes-Inv hs (drop_hash h s) (Drops-Inv (drop_hash-Drops h s) v)

get-drop_hashes :
    (hs : List String) (j : String) (s : Store)
    → get j (drop_hashes hs s).sessions ≡ (if contains j hs then none else get j s.sessions)
unfolding drop_hashes
get-drop_hashes [] j s = refl
get-drop_hashes (h ∷ hs) j s =
    ground (arith, get-drop_hashes hs j (drop_hash h s), (drop_hash-Drops h s).lookup j)

users-drop_hashes :
    (hs : List String) (s : Store) → (drop_hashes hs s).user_sessions ≡ s.user_sessions
unfolding drop_hashes drop_hash
users-drop_hashes [] s = refl
users-drop_hashes (h ∷ hs) s = users-drop_hashes hs (drop_hash h s)

-- RevokeAllForUser removes the sessions whose hash stands in the user's slice, and no other.
pub get-revoke_all :
    (u j : String) (s : Store)
    → get j (revoke_all_for_user u s).sessions
      ≡ (if contains j (slice u s) then none else get j s.sessions)
unfolding revoke_all_for_user slice get_or
get-revoke_all u j s = elim (Option-cases (get u s.user_sessions)) [
  | inl e ↦ rw (e, revoke_all_for_user, get_or) refl
  | inr (hs, e) ↦ rw (e, revoke_all_for_user, get_or) (get-drop_hashes hs j s)
]

slice-revoke_all :
    (u v : String) (s : Store)
    → slice v (revoke_all_for_user u s) ≡ (if u == v then [] else slice v s)
unfolding revoke_all_for_user slice
slice-revoke_all u v s = elim (Option-cases (get u s.user_sessions)) [
  | inl e ↦
      rw (e, revoke_all_for_user)
        (elim (Bool-cases (u == v)) [
          | inl t ↦ rw t (rw (← (==_iff u v).0 t) (missing-slice u s e))
          | inr f ↦ rw f refl
        ])
  | inr (hs, e) ↦
      rw (e, revoke_all_for_user)
        (rw (get_or-delete u v [] (drop_hashes hs s).user_sessions)
          (rw (users-drop_hashes hs s) refl))
]

revoke_all-kept :
    (u j : String) (s : Store) (x : Session)
    → get j (revoke_all_for_user u s).sessions ≡ some x
    → (contains j (slice u s) ≡ false) × (get j s.sessions ≡ some x)
revoke_all-kept u j s x e = ground (arith, get-revoke_all u j s)

-- In a store with the invariant, a session that RevokeAllForUser leaves belongs to another user and
-- was there before.
pub revoke_all_complete :
    (u j : String) (s : Store) (x : Session)
    → Inv s
    → get j (revoke_all_for_user u s).sessions ≡ some x
    → (x.username ≢ u) × (get j s.sessions ≡ some x)
revoke_all_complete u j s x v e =
    let k = revoke_all-kept u j s x e in
    (
      λ same.
          cc (
            contains-In j (slice u s) (subst (λ w. In j (slice w s)) same (v.listed j x k.1)),
            k.0,
          ),
      k.1,
    )

revoke_all-listed :
    (u j : String) (s : Store) (x : Session)
    → Inv s
    → get j (revoke_all_for_user u s).sessions ≡ some x
    → In j (slice x.username (revoke_all_for_user u s))
revoke_all-listed u j s x v e =
    rw (slice-revoke_all u x.username s) (elim (Bool-cases (u == x.username)) [
      | inl t ↦ absurd ((revoke_all_complete u j s x v e).0 (sym ((==_iff u x.username).0 t)))
      | inr f ↦ rw f (v.listed j x (revoke_all-kept u j s x e).1)
    ])

length-slice-revoke_all :
    (u v : String) (s : Store) → length (slice v (revoke_all_for_user u s)) ≤ length (slice v s)
length-slice-revoke_all u v s =
    rw (slice-revoke_all u v s)
      (elim (Bool-cases (u == v)) [ inl t ↦ rw t (omega arith) | inr f ↦ rw f (omega arith) ])

record Sizes (s t : Store) : Type 0 where
  global : length t.sessions ≤ t.global_limit
  maps : IsMap t.sessions
  users : t.per_user_limit ≡ s.per_user_limit

limit-drop_hashes :
    (hs : List String) (s : Store) → (drop_hashes hs s).per_user_limit ≡ s.per_user_limit
unfolding drop_hashes drop_hash
limit-drop_hashes [] s = refl
limit-drop_hashes (h ∷ hs) s = limit-drop_hashes hs (drop_hash h s)

revoke_all-Sizes : (u : String) (s : Store) → Inv s → Sizes s (revoke_all_for_user u s)
unfolding revoke_all_for_user
revoke_all-Sizes u s v = elim (Option-cases (get u s.user_sessions)) [
  | inl e ↦
      rw (e, revoke_all_for_user) (record { global = v.global_cap; maps = v.is_map; users = refl })
  | inr (hs, e) ↦
      let w = drop_hashes-Inv hs s v in
      rw (e, revoke_all_for_user)
        (record { global = w.global_cap; maps = w.is_map; users = limit-drop_hashes hs s })
]

pub revoke_all-Inv : (u : String) (s : Store) → Inv s → Inv (revoke_all_for_user u s)
revoke_all-Inv u s v =
    let z = revoke_all-Sizes u s v in
    record {
      listed = λ j x e. revoke_all-listed u j s x v e;
      hashed = λ j x e. v.hashed j x (revoke_all-kept u j s x e).1;
      user_cap = λ w. omega (arith, length-slice-revoke_all u w s, v.user_cap w, z.users);
      global_cap = z.global;
      is_map = z.maps;
      some_user = omega (arith, z.users, v.some_user);
    }
