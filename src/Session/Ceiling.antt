-- ===== src/Session/Ceiling.antt =====
-- What no later activity can undo: a revocation, and the absolute lifetime of a session.
use distributed_virtual_file.Prelude.{
  ℕ, ◌<◌, String, ◌≡◌, ◌≢◌, ap, ◌∙◌, inl, inr, none, some, List, arith, Option-cases, All,
  string_eq,
}
use distributed_virtual_file.GoMap.{get}
use distributed_virtual_file.Session.{Session, Store, ok}
use distributed_virtual_file.Session.Validate.{validate_session}
use distributed_virtual_file.Session.Validation.{validate_session_sound}
use distributed_virtual_file.Session.History.{Event, run, identity}
use distributed_virtual_file.Session.Origin.{Leaves, run-origin}

-- A hash that is not stored stays away until a session is created under it.
pub absent_for_good :
    (j : String) (s : Store) (es : List Event)
    → get j s.sessions ≡ none
    → All (Leaves j) es
    → get j (run s es).sessions ≡ none
absent_for_good j s es gone l = elim (Option-cases (get j (run s es).sessions)) [
  | inl e ↦ e
  | inr (x, e) ↦ cc (gone, (run-origin j s es x l e).1)
]

-- After any events but a creation under the token's hash, ValidateSession does not accept the token
-- at a time past the absolute expiry that its session had before them, whatever other calls do while
-- it is checked.
pub ceiling :
    (hash_sst : String → String) (raw peer : String) (s : Store) (es : List Event) (y x : Session)
    (now : ℕ) (later : Store)
    → get (hash_sst raw) s.sessions ≡ some y
    → 0 < y.absolute_exp
    → y.absolute_exp < now
    → All (Leaves (hash_sst raw)) es
    → (validate_session hash_sst raw peer now (run s es) later).0 ≢ ok x
unfolding identity
ceiling hash_sst raw peer s es y x now later g pos late l e =
    let v = validate_session_sound hash_sst raw peer now (run s es) later x e in
    let o = run-origin (hash_sst raw) s es v.0 l v.1 in
    let same : o.0 ≡ y = cc (o.1, g) in
    let exp : v.0.absolute_exp ≡ y.absolute_exp =
      ap (λ (z : Session). z.absolute_exp) o.2 ∙ ap (λ (z : Session). z.absolute_exp) same in
    elim v.2.0 [ inl zero_exp ↦ omega arith | inr in_time ↦ omega arith ]
