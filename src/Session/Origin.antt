-- ===== src/Session/Origin.antt =====
-- Where a stored session comes from: a step keeps who a session is, unless it creates it.
use distributed_virtual_file.Prelude.{
  ℕ, String, ◌≡◌, ◌≢◌, refl, ◌∙◌, some, inl, inr, List, [], ◌∷◌, arith, ==_iff, string_eq,
  Bool-cases, Option-cases, length, All, leb,
}
use distributed_virtual_file.GoMap.{GoMap, get, get-insert, get-delete, delete, insert}
use distributed_virtual_file.Session.{
  Session, Store, slice, create_locked, purge_expired, make_room, purge_all, expired_hashes,
  purge_one, evict_oldest, remove_previous, add_session, unindexed,
}
use distributed_virtual_file.Session.Revoke.{
  revoke_by_client_id, revoke_all_for_user, drop_hashes, drop_hash,
}
use distributed_virtual_file.Session.Drops.{Drops, purge_one-Drops, Drops-remove}
use distributed_virtual_file.Session.Invariant.{Drops-kept}
use distributed_virtual_file.Session.Revocation.{revoke_hash-Drops, drop_client_session-Drops}
use distributed_virtual_file.Session.History.{
  Event, creates, touches, revokes, revokes_client, revokes_user, sweeps, step, run, identity,
  touch_cases, SameLimits, touch-SameLimits,
}

-- Every session of `t` is one of `s`, and the limits are the same.
pub record Shrinks (s t : Store) : Type 0 where
  pub kept : (j : String) (x : Session) → get j t.sessions ≡ some x → get j s.sessions ≡ some x
  pub user_limit : t.per_user_limit ≡ s.per_user_limit
  pub global_limit : t.global_limit ≡ s.global_limit

Shrinks-refl : (s : Store) → Shrinks s s
Shrinks-refl s = record { kept = λ j x e. e; user_limit = refl; global_limit = refl }

Shrinks-trans : {s t u : Store} → Shrinks s t → Shrinks t u → Shrinks s u
Shrinks-trans a b = record {
  kept = λ j x e. a.kept j x (b.kept j x e);
  user_limit = b.user_limit ∙ a.user_limit;
  global_limit = b.global_limit ∙ a.global_limit;
}

Drops-Shrinks : {h : String} {s t : Store} → Drops h s t → Shrinks s t
Drops-Shrinks d = record {
  kept = λ j x e. (Drops-kept j x d e).1;
  user_limit = d.same_user_limit;
  global_limit = d.same_global_limit;
}

purge_all-Shrinks : (hs : List String) (s : Store) → Shrinks s (purge_all hs s)
unfolding purge_all
purge_all-Shrinks [] s = Shrinks-refl s
purge_all-Shrinks (h ∷ hs) s =
    Shrinks-trans (Drops-Shrinks (purge_one-Drops h s)) (purge_all-Shrinks hs (purge_one h s))

purge_expired-Shrinks : (now : ℕ) (s : Store) → Shrinks s (purge_expired now s)
unfolding purge_expired
purge_expired-Shrinks now s = purge_all-Shrinks (expired_hashes now s) s

make_room-Shrinks : (now : ℕ) (s : Store) → Shrinks s (make_room now s)
unfolding make_room
make_room-Shrinks now s = elim (Bool-cases (leb s.global_limit (length s.sessions))) [
  | inl t ↦ rw t (purge_expired-Shrinks now s)
  | inr f ↦ rw f (Shrinks-refl s)
]

delete-kept :
    (h j : String) (m : GoMap String Session) (x : Session)
    → get j (delete h m) ≡ some x
    → get j m ≡ some x
delete-kept h j m x e = ground (arith, get-delete h j m)

evict_oldest-Shrinks : (u : String) (s : Store) → Shrinks s (evict_oldest u s)
unfolding evict_oldest
evict_oldest-Shrinks u s = elim (Bool-cases (leb s.per_user_limit (length (slice u s)))) [
  | inr f ↦ rw (f, evict_oldest) (Shrinks-refl s)
  | inl t ↦ rw (t, evict_oldest) (full (slice u s))
]
  where
    full :
        (hs : List String)
        → Shrinks s (elim hs [
          | [] ↦ s
          | oldest ∷ rest ↦ record s {
            sessions = delete oldest s.sessions;
            user_sessions = insert u rest s.user_sessions;
            client_index = unindexed (get oldest s.sessions) s.client_index;
          }
        ])
    full [] = Shrinks-refl s
    full (oldest ∷ rest) = record {
      kept = λ j x e. delete-kept oldest j s.sessions x e;
      user_limit = refl;
      global_limit = refl;
    }

remove_previous-Shrinks : (u c : String) (s : Store) → Shrinks s (remove_previous u c s)
unfolding remove_previous
remove_previous-Shrinks u c s = elim (Option-cases (get c s.client_index)) [
  | inl e ↦ rw (e, remove_previous) (Shrinks-refl s)
  | inr (prev, e) ↦ rw (e, remove_previous) (Drops-Shrinks (Drops-remove prev s s.client_index u))
]

drop_hashes-Shrinks : (hs : List String) (s : Store) → Shrinks s (drop_hashes hs s)
unfolding drop_hashes drop_hash
drop_hashes-Shrinks [] s = Shrinks-refl s
drop_hashes-Shrinks (h ∷ hs) s =
    Shrinks-trans
      (record {
        kept = λ j x e. delete-kept h j s.sessions x e;
        user_limit = refl;
        global_limit = refl;
      })
      (drop_hashes-Shrinks hs (drop_hash h s))

revoke_all-Shrinks : (u : String) (s : Store) → Shrinks s (revoke_all_for_user u s)
unfolding revoke_all_for_user
revoke_all-Shrinks u s = elim (Option-cases (get u s.user_sessions)) [
  | inl e ↦ rw (e, revoke_all_for_user) (Shrinks-refl s)
  | inr (hs, e) ↦
      let d = drop_hashes-Shrinks hs s in
      rw (e, revoke_all_for_user)
        (record { kept = d.kept; user_limit = d.user_limit; global_limit = d.global_limit })
]

revoke_client-Shrinks : (c : String) (s : Store) → Shrinks s (revoke_by_client_id c s)
unfolding revoke_by_client_id
revoke_client-Shrinks c s = elim (Option-cases (get c s.client_index)) [
  | inl e ↦ rw (e, revoke_by_client_id) (Shrinks-refl s)
  | inr (h, e) ↦ rw (e, revoke_by_client_id) (Drops-Shrinks (drop_client_session-Drops c h s))
]

cleared : Session → ℕ → Store → Store
cleared sess now s =
    remove_previous sess.username sess.client_id (evict_oldest sess.username (make_room now s))

cleared-Shrinks : (sess : Session) (now : ℕ) (s : Store) → Shrinks s (cleared sess now s)
unfolding cleared
cleared-Shrinks sess now s = Shrinks-trans (make_room-Shrinks now s) (
    Shrinks-trans (evict_oldest-Shrinks sess.username _)
      (remove_previous-Shrinks sess.username sess.client_id _))

limits_of : {s t : Store} → Shrinks s t → SameLimits s t
limits_of d = record { user = d.user_limit; global = d.global_limit }

create-limits : (sess : Session) (now : ℕ) (s : Store) → SameLimits s (create_locked sess now s).1
unfolding create_locked cleared add_session
create-limits sess now s =
    let r = make_room now s in
    elim (Bool-cases (leb r.global_limit (length r.sessions))) [
      | inl t ↦ rw t (limits_of (make_room-Shrinks now s))
      | inr f ↦
          let d = cleared-Shrinks sess now s in
          rw f (record { user = d.user_limit; global = d.global_limit })
    ]

-- Every session of `t` is one of `s` but for its last use, or was created with hash `h`.
abbrev Origin : (j : String) (s t : Store) → Type 0
Origin j s t =
    (x : Session)
    → get j t.sessions ≡ some x
    → (y : Session) × (get j s.sessions ≡ some y) × (identity x ≡ identity y)

Shrinks-Origin : (j : String) {s t : Store} → Shrinks s t → Origin j s t
Shrinks-Origin j d x e = (x, d.kept j x e, refl)

-- Events that do not create a session under hash `j`.
abbrev pub Leaves : String → Event → Type 0
Leaves j (creates sess now) = sess.hash_id ≢ j
Leaves j (touches h now) = Unit
Leaves j (revokes h) = Unit
Leaves j (revokes_client c) = Unit
Leaves j (revokes_user u) = Unit
Leaves j (sweeps now) = Unit

create-Origin :
    (j : String) (sess : Session) (now : ℕ) (s : Store)
    → sess.hash_id ≢ j
    → Origin j s (create_locked sess now s).1
unfolding create_locked cleared add_session
create-Origin j sess now s other x e =
    let r = make_room now s in
    elim (Bool-cases (leb r.global_limit (length r.sessions))) [
      | inl t ↦ Shrinks-Origin j (make_room-Shrinks now s) x (rw t at e)
      | inr f ↦
          let k : get j (insert sess.hash_id sess (cleared sess now s).sessions) ≡ some x =
            rw f at e in
          Shrinks-Origin j (cleared-Shrinks sess now s) x (
            ground (
              arith,
              get-insert sess.hash_id j sess (cleared sess now s).sessions,
              ==_iff sess.hash_id j,
            ))
    ]

step-Origin : (j : String) (s : Store) (e : Event) → Leaves j e → Origin j s (step s e)
unfolding step
step-Origin j s (creates sess now) l = create-Origin j sess now s l
step-Origin j s (touches h now) l = λ x e. touch_cases h j now s x e
step-Origin j s (revokes h) l = Shrinks-Origin j (Drops-Shrinks (revoke_hash-Drops h s))
step-Origin j s (revokes_client c) l = Shrinks-Origin j (revoke_client-Shrinks c s)
step-Origin j s (revokes_user u) l = Shrinks-Origin j (revoke_all-Shrinks u s)
step-Origin j s (sweeps now) l = Shrinks-Origin j (purge_expired-Shrinks now s)

-- No step changes the limits.
pub step-limits : (s : Store) (e : Event) → SameLimits s (step s e)
unfolding step
step-limits s (creates sess now) = create-limits sess now s
step-limits s (touches h now) = touch-SameLimits h now s
step-limits s (revokes h) = limits_of (Drops-Shrinks (revoke_hash-Drops h s))
step-limits s (revokes_client c) = limits_of (revoke_client-Shrinks c s)
step-limits s (revokes_user u) = limits_of (revoke_all-Shrinks u s)
step-limits s (sweeps now) = limits_of (purge_expired-Shrinks now s)

-- Whatever happens but a creation under the same hash, a session found later was there before
-- and differs at most in when it was last seen: its user, its host and its ceiling are the same.
pub run-origin :
    (j : String) (s : Store) (es : List Event) (x : Session)
    → All (Leaves j) es
    → get j (run s es).sessions ≡ some x
    → (y : Session) × (get j s.sessions ≡ some y) × (identity x ≡ identity y)
unfolding run
run-origin j s [] x l e = (x, e, refl)
run-origin j s (c ∷ es) x l e =
    let later = run-origin j (step s c) es x l.1 e in
    let now = step-Origin j s c l.0 later.0 later.1 in (now.0, now.1, later.2 ∙ now.2)
