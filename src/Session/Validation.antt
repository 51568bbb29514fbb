-- ===== src/Session/Validation.antt =====
-- What ValidateSession accepts, and what it cannot extend.
use mathlib.Core.Option
use distributed_virtual_file.Prelude.{
  if◌then◌else◌, ◌∙◌, Option-cases, ℕ, ◌-◌, ◌≤◌, String, ◌≡◌, ◌≢◌, ◌⊎◌, refl, ap, false, Option,
  none, some, inl, inr, arith, ◌==◌, ==_iff, ==_refl, string_eq, nat_eq, Bool-cases, subst,
}
use distributed_virtual_file.GoMap.{get, is_some, get-insert_self}
use distributed_virtual_file.Session.{
  Session, Store, SessionError, Result, ok, err, session_not_found, is_expired, touched, extract_ip,
}
use distributed_virtual_file.Session.Validate.{
  ip_differs, check_found, touch, seen, check_session, validate_session,
}
use distributed_virtual_file.Session.Revoke.{revoke_hash, revoke_session}
use distributed_virtual_file.Session.Revocation.{revoke_hash-Drops}

-- A peer address that the check accepts for a session: the same host, or one of them unknown.
abbrev pub IpMatches : String → String → Type 0
IpMatches bound current = (bound ≡ "") ⊎ (current ≡ "") ⊎ (bound ≡ current)

-- The session is within both of its lifetimes.
abbrev pub IsLive : Session → ℕ → ℕ → Type 0
IsLive x now idle_ttl =
    ((x.absolute_exp ≡ 0) ⊎ (now ≤ x.absolute_exp)) × (now - x.last_seen_at ≤ idle_ttl)

pub not-expired : (x : Session) (now ttl : ℕ) → is_expired x now ttl ≡ false → IsLive x now ttl
unfolding is_expired
not-expired x now ttl e = (ground arith, ground arith)

pub live-not-expired : (x : Session) (now ttl : ℕ) → IsLive x now ttl → is_expired x now ttl ≡ false
unfolding is_expired
live-not-expired x now ttl (inl a, b) = ground arith
live-not-expired x now ttl (inr a, b) = ground arith

differs_iff :
    (bound current : String)
    → ((ip_differs bound current ≡ false) → IpMatches bound current)
      × (IpMatches bound current → ip_differs bound current ≡ false)
unfolding ip_differs
differs_iff b c = (
  λ h. ground (arith, ==_iff b "", ==_iff c "", ==_iff b c),
  λ h. ground (arith, ==_iff b "", ==_iff c "", ==_iff b c),
)

check_found_sound :
    (y : Session) (ip : String) (now ttl : ℕ) (x : Session)
    → check_found (some y) ip now ttl ≡ ok x
    → (y ≡ x) × IsLive y now ttl × IpMatches y.client_ip ip
unfolding check_found
check_found_sound y ip now ttl x e = elim (Bool-cases (is_expired y now ttl)) [
  | inl t ↦ cc (rw t at e)
  | inr f ↦ elim (Bool-cases (ip_differs y.client_ip ip)) [
    | inl t ↦ cc (rw (f, t) at e)
    | inr g ↦ (cc (rw (f, g) at e), not-expired y now ttl f, (differs_iff y.client_ip ip).0 g)
  ]
]

pub check_found_complete :
    (y : Session) (ip : String) (now ttl : ℕ)
    → IsLive y now ttl
    → IpMatches y.client_ip ip
    → check_found (some y) ip now ttl ≡ ok y
unfolding check_found
check_found_complete y ip now ttl live m =
    rw (live-not-expired y now ttl live, (differs_iff y.client_ip ip).1 m) refl

get-touch :
    (h : String) (now : ℕ) (s : Store)
    → get h (touch h now s).sessions ≡ Option.map (λ z. touched z now) (get h s.sessions)
unfolding touch
get-touch h now s = elim (Option-cases (get h s.sessions)) [
  | inl e ↦ rw (e, touch) e
  | inr (x, e) ↦ rw (e, touch) (get-insert_self h (touched x now) s.sessions)
]

seen_lem :
    (y : Session) (now : ℕ) (o : Option Session)
    → seen y now o ≡ (if is_some o then touched y now else y)
seen_lem y now none = refl
seen_lem y now (some z) = refl

Result-cases :
    (r : Result Session) → ((x : Session) × (r ≡ ok x)) ⊎ ((e : SessionError) × (r ≡ err e))
Result-cases (ok x) = inl (x, refl)
Result-cases (err e) = inr (e, refl)

get-revoke_self : (h : String) (s : Store) → get h (revoke_hash h s).sessions ≡ none
get-revoke_self h s = rw ((revoke_hash-Drops h s).lookup h) (rw (==_refl h) refl)

module _ (hash_sst : String → String) (raw peer : String) (now : ℕ) (s : Store) where
  check_session_sound :
      (y : Session)
      → check_session hash_sst raw peer now s ≡ ok y
      → (get (hash_sst raw) s.sessions ≡ some y)
        × IsLive y now s.idle_ttl
        × IpMatches y.client_ip (extract_ip peer)
  unfolding check_session check_found
  check_session_sound y e = elim (Bool-cases (raw == "")) [
    | inl t ↦ cc (rw t at e)
    | inr f ↦ found (get (hash_sst raw) s.sessions) refl (rw f at e)
  ]
    where
      found :
          (o : Option Session)
          → get (hash_sst raw) s.sessions ≡ o
          → check_found o (extract_ip peer) now s.idle_ttl ≡ ok y
          → (o ≡ some y) × IsLive y now s.idle_ttl × IpMatches y.client_ip (extract_ip peer)
      found none g c = cc
      found (some z) g c =
          let r = check_found_sound z (extract_ip peer) now s.idle_ttl y c in
          (
            ap some r.0,
            subst (λ w. IsLive w now s.idle_ttl) r.0 r.1,
            subst (λ w. IpMatches w.client_ip (extract_ip peer)) r.0 r.2,
          )

  pub validate_session-checked :
      (later : Store) (x : Session)
      → (validate_session hash_sst raw peer now s later).0 ≡ ok x
      → (y : Session) × (check_session hash_sst raw peer now s ≡ ok y)
  unfolding validate_session
  validate_session-checked later x e = elim (Result-cases (check_session hash_sst raw peer now s)) [
    | inr (c, n) ↦ cc (rw (n, validate_session) at e)
    | inl r ↦ r
  ]

  pub validate_session_sound :
      (later : Store) (x : Session)
      → (validate_session hash_sst raw peer now s later).0 ≡ ok x
      → (y : Session) × (get (hash_sst raw) s.sessions ≡ some y)
        × IsLive y now s.idle_ttl
        × IpMatches y.client_ip (extract_ip peer)
        × (x ≡ (if is_some (get (hash_sst raw) later.sessions) then touched y now else y))
        × (get (hash_sst raw) (validate_session hash_sst raw peer now s later).1.sessions
            ≡ Option.map (λ z. touched z now) (get (hash_sst raw) later.sessions))
  unfolding validate_session
  validate_session_sound later x e =
      let (y, g) = validate_session-checked later x e in
      let r = check_session_sound y g in
      let same : x ≡ seen y now (get (hash_sst raw) later.sessions) =
        cc (rw (g, validate_session) at e) in
      (
        y,
        r.0,
        r.1,
        r.2,
        same ∙ seen_lem y now (get (hash_sst raw) later.sessions),
        rw (g, validate_session) (get-touch (hash_sst raw) now later),
      )

  -- A request that ValidateSession refuses leaves the store as it is.
  pub validate_session-refused :
      (later : Store) (c : SessionError)
      → (validate_session hash_sst raw peer now s later).0 ≡ err c
      → (validate_session hash_sst raw peer now s later).1 ≡ later
  unfolding validate_session
  validate_session-refused later c e = ground arith

  pub validate-stored :
      (later : Store) (y : Session)
      → raw ≢ ""
      → get (hash_sst raw) s.sessions ≡ some y
      → IsLive y now s.idle_ttl
      → IpMatches y.client_ip (extract_ip peer)
      → (validate_session hash_sst raw peer now s later).0
        ≡ ok (if is_some (get (hash_sst raw) later.sessions) then touched y now else y)
  unfolding validate_session check_session
  validate-stored later y nonempty g live m = elim (Bool-cases (raw == "")) [
    | inl t ↦ absurd (nonempty ((==_iff raw "").0 t))
    | inr f ↦
        rw (f, g, validate_session)
          (rw (check_found_complete y (extract_ip peer) now s.idle_ttl live m)
            (ap ok (seen_lem y now (get (hash_sst raw) later.sessions))))
  ]

  -- After RevokeSession the token is refused from every peer at every time, whatever other calls do
  -- while it is checked.
  pub validate-revoke :
      (later : Store)
      → (validate_session hash_sst raw peer now (revoke_session hash_sst raw s) later).0
        ≡ err session_not_found
  unfolding validate_session check_session revoke_session check_found
  validate-revoke later = elim (Bool-cases (raw == "")) [
    | inl t ↦ rw (t, validate_session) refl
    | inr f ↦ rw (f, get-revoke_self (hash_sst raw) s, validate_session) refl
  ]
