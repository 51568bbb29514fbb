-- ===== src/Session/History.antt =====
-- Interleavings of the store's steps. Each event is one critical section, at a time of its own, so a
-- history is any order in which the requests, the sweeper and spawned revocations take the lock.
use distributed_virtual_file.Prelude.{
  ℕ, ◌≤◌, String, ◌≡◌, refl, sym, ap, ◌∙◌, subst, some, inl, inr, List, [], ◌∷◌, arith, ◌==◌,
  ==_iff, string_eq, Bool-cases, Option-cases, length, In,
}
use distributed_virtual_file.GoMap.{
  IsMap, get, get-insert, insert, insert-IsMap, length-insert_present,
}
use distributed_virtual_file.Session.{Session, Store, slice, touched, create_locked, purge_expired}
use distributed_virtual_file.Session.Validate.{touch}
use distributed_virtual_file.Session.Revoke.{revoke_hash, revoke_by_client_id, revoke_all_for_user}
use distributed_virtual_file.Session.Invariant.{
  Inv, Drops-Inv, create_locked-Inv, purge_expired-Inv,
}
use distributed_virtual_file.Session.Revocation.{
  revoke_hash-Drops, revoke_by_client_id-Inv, revoke_all-Inv,
}

pub data Event : Type 0 where
  creates : Session → ℕ → Event
  touches : String → ℕ → Event
  revokes revokes_client revokes_user : String → Event
  sweeps : ℕ → Event

unfoldable pub step : Store → Event → Store
step s (creates sess now) = (create_locked sess now s).1
step s (touches hash_id now) = touch hash_id now s
step s (revokes hash_id) = revoke_hash hash_id s
step s (revokes_client client_id) = revoke_by_client_id client_id s
step s (revokes_user username) = revoke_all_for_user username s
step s (sweeps now) = purge_expired now s

unfoldable pub run : Store → List Event → Store
run s [] = s
run s (e ∷ es) = run (step s e) es

-- A session but for the time at which it was last seen.
unfoldable pub identity : Session → Session
unfolding touched
identity x = touched x 0

pub touch_cases :
    (h j : String) (now : ℕ) (s : Store) (x : Session)
    → get j (touch h now s).sessions ≡ some x
    → (y : Session) × (get j s.sessions ≡ some y) × (identity x ≡ identity y)
unfolding touch identity
touch_cases h j now s x e = elim (Option-cases (get h s.sessions)) [
  | inl n ↦ (x, rw (n, touch) at e, refl)
  | inr (y, g) ↦
      let k : get j (insert h (touched y now) s.sessions) ≡ some x = rw (g, touch) at e in
      elim (Bool-cases (h == j)) [
        | inl t ↦ (
          y,
          subst (λ w. get w s.sessions ≡ some y) ((==_iff h j).0 t) g,
          let same : touched y now ≡ x =
                ground (arith, get-insert h j (touched y now) s.sessions) in
              ap (λ w. touched w 0) (sym same),
        )
        | inr f ↦ (x, ground (arith, get-insert h j (touched y now) s.sessions), refl)
      ]
]

slice-touch : (h u : String) (now : ℕ) (s : Store) → slice u (touch h now s) ≡ slice u s
unfolding touch slice
slice-touch h u now s = ground arith

pub record SameLimits (s t : Store) : Type 0 where
  pub user : t.per_user_limit ≡ s.per_user_limit
  pub global : t.global_limit ≡ s.global_limit

pub touch-SameLimits : (h : String) (now : ℕ) (s : Store) → SameLimits s (touch h now s)
unfolding touch
touch-SameLimits h now s = ground arith

touch-smaller :
    (h : String) (now : ℕ) (s : Store) → length (touch h now s).sessions ≤ length s.sessions
unfolding touch
touch-smaller h now s = elim (Option-cases (get h s.sessions)) [
  | inl n ↦ rw (n, touch) (omega arith)
  | inr (y, g) ↦ rw (g, touch) (length-insert_present h (touched y now) s.sessions g)
]

touch-IsMap : (h : String) (now : ℕ) (s : Store) → IsMap s.sessions → IsMap (touch h now s).sessions
unfolding touch
touch-IsMap h now s m = elim (Option-cases (get h s.sessions)) [
  | inl n ↦ rw (n, touch) m
  | inr (y, g) ↦ rw (g, touch) (insert-IsMap h (touched y now) s.sessions m)
]

username-identity : (x y : Session) → identity x ≡ identity y → y.username ≡ x.username
unfolding identity
username-identity x y e = ap (λ (z : Session). z.username) (sym e)

touch-Inv : (h : String) (now : ℕ) (s : Store) → Inv s → Inv (touch h now s)
unfolding identity
touch-Inv h now s v = record {
  listed = λ j x e.
      let k = touch_cases h j now s x e in
      rw (slice-touch h x.username now s)
        (subst (λ w. In j (slice w s)) (username-identity x k.0 k.2) (v.listed j k.0 k.1));
  hashed = λ j x e.
      let k = touch_cases h j now s x e in ap (λ (z : Session). z.hash_id) k.2 ∙ v.hashed j k.0 k.1;
  user_cap = λ u. rw (slice-touch h u now s) (rw ((touch-SameLimits h now s).user) (v.user_cap u));
  global_cap =
      omega (arith, touch-smaller h now s, v.global_cap, (touch-SameLimits h now s).global);
  is_map = touch-IsMap h now s v.is_map;
  some_user = omega (arith, (touch-SameLimits h now s).user, v.some_user);
}

pub step-Inv : (s : Store) (e : Event) → Inv s → Inv (step s e)
unfolding step
step-Inv s (creates sess now) v = create_locked-Inv sess now s v
step-Inv s (touches h now) v = touch-Inv h now s v
step-Inv s (revokes h) v = Drops-Inv (revoke_hash-Drops h s) v
step-Inv s (revokes_client c) v = revoke_by_client_id-Inv c s v
step-Inv s (revokes_user u) v = revoke_all-Inv u s v
step-Inv s (sweeps now) v = purge_expired-Inv now s v

pub run-Inv : (s : Store) (es : List Event) → Inv s → Inv (run s es)
unfolding run
run-Inv s [] v = v
run-Inv s (e ∷ es) v = run-Inv (step s e) es (step-Inv s e v)
