-- ===== src/Session/Limits.antt =====
-- The caps on live sessions, over whole histories.
use distributed_virtual_file.Prelude.{
  ℕ, ◌≤◌, String, ◌≡◌, refl, sym, ◌∙◌, subst, Option, none, some, inl, inr, List, [], ◌∷◌, arith,
  ◌==◌, ==_iff, string_eq, Bool-cases, length, keep, In, pigeonhole,
}
use distributed_virtual_file.GoMap.{GoMap, get, keys, In-get, keep-IsMap, get-keep, accept}
use distributed_virtual_file.Session.{
  Session, Store, slice, new_store, max_sessions_per_user, max_global_sessions,
}
use distributed_virtual_file.Session.Invariant.{Inv, new_store-Inv}
use distributed_virtual_file.Session.Origin.{step-limits}
use distributed_virtual_file.Session.History.{Event, step, run, run-Inv}

-- The live sessions of a user, expired or not.
pub sessions_of : String → Store → GoMap String Session
sessions_of u s = keep (λ e. e.1.username == u) s.sessions

length-keys : (m : GoMap String Session) → length (keys m) ≡ length m
length-keys [] = refl
length-keys (x ∷ m) = omega (arith, length-keys m)

owned : (u j : String) (s : Store) → Inv s → In j (keys (sessions_of u s)) → In j (slice u s)
unfolding sessions_of
owned u j s v i =
    let f = In-get j (keep (λ e. e.1.username == u) s.sessions) i in
    found f.0 (get j s.sessions) refl
      (sym (get-keep (λ e. e.1.username == u) j s.sessions v.is_map) ∙ f.1)
  where
    found :
        (x : Session) (o : Option Session)
        → get j s.sessions ≡ o
        → accept (λ y. y.username == u) o ≡ some x
        → In j (slice u s)
    found x none g e = cc
    found x (some y) g e = elim (Bool-cases (y.username == u)) [
      | inl t ↦ subst (λ w. In j (slice w s)) ((==_iff y.username u).0 t) (v.listed j y g)
      | inr n ↦ cc (rw n at e)
    ]

-- Under the invariant a user's sessions are no more than the slice is long.
sessions_of-le : (u : String) (s : Store) → Inv s → length (sessions_of u s) ≤ s.per_user_limit
sessions_of-le u s v = omega (
  arith,
  length-keys (sessions_of u s),
  pigeonhole (keys (sessions_of u s)) (slice u s)
      (unfold sessions_of in keep-IsMap (λ e. e.1.username == u) s.sessions v.is_map)
      (λ j i. owned u j s v i),
  v.user_cap u,
)

run-limits :
    (s : Store) (es : List Event)
    → ((run s es).per_user_limit ≡ s.per_user_limit) × ((run s es).global_limit ≡ s.global_limit)
unfolding run
run-limits s [] = (refl, refl)
run-limits s (e ∷ es) = (
  (run-limits (step s e) es).0 ∙ (step-limits s e).user,
  (run-limits (step s e) es).1 ∙ (step-limits s e).global,
)

-- From an empty store, whatever happens in whatever order, no user has more than
-- MaxSessionsPerUser sessions and the store has no more than MaxGlobalSessions.
pub sessions_capped :
    (idle_ttl : ℕ) (es : List Event) (u : String)
    → let s = run (new_store idle_ttl) es in
      (length (sessions_of u s) ≤ max_sessions_per_user) × (length s.sessions ≤ max_global_sessions)
unfolding new_store
sessions_capped idle_ttl es u =
    let s = run (new_store idle_ttl) es in
    let v : Inv s = run-Inv (new_store idle_ttl) es (new_store-Inv idle_ttl) in
    let l = run-limits (new_store idle_ttl) es in
    (omega (arith, sessions_of-le u s v, l.0), omega (arith, v.global_cap, l.1))
