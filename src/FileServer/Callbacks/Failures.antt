-- ===== src/FileServer/Callbacks/Failures.antt =====
-- The count of failed callbacks of internal/fileserver/callback_server.go, over any history.
use distributed_virtual_file.Prelude.{
  ℕ, zero, suc, ◌+◌, ◌<◌, ◌≤◌, String, ◌≡◌, refl, ap, subst, Bool, true, false, Option, none, some,
  List, [], ◌∷◌, arith, if◌then◌else◌, ◌==◌, ==_iff, string_eq, nat_eq, leb, Bool-cases,
  Option-cases, inl, inr,
}
use distributed_virtual_file.GoMap.{
  get, insert, delete, get-insert, get-delete, get-delete_self, get-insert_self,
}
use distributed_virtual_file.FileServer.{Fid, fid_eq}
use distributed_virtual_file.FileServer.Callbacks.{
  ClientSession, Sessions, max_callback_failures, remove_client_session, blank_session, with_root,
  refreshed, upsert_client_session, seen_at, touch_client_activity, change_if, touch_by_root_fid,
  update_current_dir, record_failure, record_callback_result,
}

-- The changes of the sessions, each under the lock.
pub data Event : Type 0 where
  removes : String → Event
  upserts : ℕ → String → String → Option Fid → Event
  touches : ℕ → String → Event
  touches_root : ℕ → Option Fid → Event
  moves : ℕ → Option Fid → Option Fid → Event
  answers : String → Bool → Event

unfoldable pub step : Event → Sessions → Sessions
step (removes user) m = remove_client_session user m
step (upserts now user address root) m = upsert_client_session now user address root m
step (touches now user) m = touch_client_activity now user m
step (touches_root now root) m = touch_by_root_fid now root m
step (moves now root dir) m = update_current_dir now root dir m
step (answers user success) m = record_callback_result user success m

unfoldable pub run : List Event → Sessions → Sessions
run [] m = m
run (e ∷ es) m = run es (step e m)

abbrev Fine : String → ClientSession → Type 0
Fine k s = (s.username ≡ k) × (s.consecutive_failures < max_callback_failures)

-- Every session stands under its user and has failed fewer times than the limit.
abbrev pub AreFine : Sessions → Type 0
AreFine m = (k : String) (s : ClientSession) → get k m ≡ some s → Fine k s

insert-AreFine :
    (u : String) (t : ClientSession) (m : Sessions) → AreFine m → Fine u t → AreFine (insert u t m)
insert-AreFine u t m v f k s h = elim (Bool-cases (u == k)) [
  | inl e ↦
      let same : t ≡ s = from_some (rw (get-insert u k t m, e) at h) in
      subst (λ z. Fine k z) same (subst (λ j. Fine j t) ((==_iff u k).0 e) f)
  | inr e ↦ v k s (rw (get-insert u k t m, e) at h)
]
  where
    from_some : {a b : ClientSession} → some a ≡ some b → a ≡ b
    from_some e = cc

delete-AreFine : (u : String) (m : Sessions) → AreFine m → AreFine (delete u m)
delete-AreFine u m v k s h = elim (Bool-cases (u == k)) [
  | inl e ↦ cc (rw (get-delete u k m, e) at h)
  | inr e ↦ v k s (rw (get-delete u k m, e) at h)
]

get-change_if :
    (p : ClientSession → Bool) (f : ClientSession → ClientSession) (k : String) (m : Sessions)
    (s : ClientSession)
    → get k (change_if p f m) ≡ some s
    → (t : ClientSession) × (get k m ≡ some t) × ((if p t then f t else t) ≡ s)
unfolding get
get-change_if p f k [] s h = cc
get-change_if p f k ((j, t) ∷ m) s h = elim (Bool-cases (j == k)) [
  | inl e ↦ (t, rw e refl, from_some (rw e at h))
  | inr e ↦ let (u, g, q) = get-change_if p f k m s (rw e at h) in (u, rw e g, q)
]
  where
    from_some : {a b : ClientSession} → some a ≡ some b → a ≡ b
    from_some e = cc

-- A change of the times and directories of some sessions.
change_if-AreFine :
    (p : ClientSession → Bool) (f : ClientSession → ClientSession) (m : Sessions)
    → ((k : String) (s : ClientSession) → Fine k s → Fine k (f s))
    → AreFine m
    → AreFine (change_if p f m)
change_if-AreFine p f m keeps v k s h =
    let (t, g, q) = get-change_if p f k m s h in
    subst (λ z. Fine k z) q
      (elim (Bool-cases (p t)) [ inl e ↦ rw e (keeps k t (v k t g)) | inr e ↦ rw e (v k t g) ])

refreshed-Fine :
    (now : ℕ) (address : String) (root : Option Fid) (k : String) (s : ClientSession)
    → s.username ≡ k
    → Fine k (refreshed now address root s)
unfolding refreshed with_root
refreshed-Fine now address none k s e = (e, omega arith)
refreshed-Fine now address (some fid) k s e = (e, omega arith)

upsert-AreFine :
    (now : ℕ) (user address : String) (root : Option Fid) (m : Sessions)
    → AreFine m
    → AreFine (upsert_client_session now user address root m)
unfolding upsert_client_session
upsert-AreFine now user address root m v = elim (Bool-cases (user == "")) [
  | inl e ↦ rw e v
  | inr e ↦ rw e (elim (Option-cases (get user m)) [
    | inl n ↦
        rw n (
          insert-AreFine user _ m v
            (refreshed-Fine now address root user (blank_session user) refl))
    | inr (s, g) ↦
        rw g (insert-AreFine user _ m v (refreshed-Fine now address root user s (v user s g).0))
  ])
]

touch-AreFine :
    (now : ℕ) (user : String) (m : Sessions)
    → AreFine m
    → AreFine (touch_client_activity now user m)
unfolding touch_client_activity
touch-AreFine now user m v = elim (Bool-cases (user == "")) [
  | inl e ↦ rw e v
  | inr e ↦ elim (Option-cases (get user m)) [
    | inl n ↦ rw (touch_client_activity, e, n) v
    | inr (s, g) ↦
        rw (touch_client_activity, e, g) (insert-AreFine user (seen_at now s) m v (v user s g))
  ]
]

failure-AreFine :
    (user : String) (s : ClientSession) (m : Sessions)
    → AreFine m
    → s.username ≡ user
    → AreFine (record_failure user s m)
unfolding record_failure
failure-AreFine user s m v e =
    elim (Bool-cases (leb max_callback_failures (s.consecutive_failures + 1))) [
      | inl t ↦ rw t (delete-AreFine user m v)
      | inr f ↦ rw f (insert-AreFine user _ m v (e, ground arith))
    ]

answer-AreFine :
    (user : String) (success : Bool) (m : Sessions)
    → AreFine m
    → AreFine (record_callback_result user success m)
unfolding record_callback_result
answer-AreFine user success m v = elim (Bool-cases (user == "")) [
  | inl e ↦ rw e v
  | inr e ↦ elim (Option-cases (get user m)) [
    | inl n ↦ rw (record_callback_result, e, n) v
    | inr (s, g) ↦ rw (record_callback_result, e, g) (decided success s g)
  ]
]
  where
    decided :
        (b : Bool) (s : ClientSession)
        → get user m ≡ some s
        → AreFine (
            if b
            then insert user (record s { consecutive_failures = 0 }) m
            else record_failure user s m)
    decided true s g = insert-AreFine user _ m v ((v user s g).0, omega arith)
    decided false s g = failure-AreFine user s m v (v user s g).0

step-AreFine : (e : Event) (m : Sessions) → AreFine m → AreFine (step e m)
unfolding step remove_client_session touch_by_root_fid update_current_dir
step-AreFine (removes user) m v = elim (Bool-cases (user == "")) [
  | inl e ↦ rw e v
  | inr e ↦ rw e (delete-AreFine user m v)
]
step-AreFine (upserts now user address root) m v = upsert-AreFine now user address root m v
step-AreFine (touches now user) m v = touch-AreFine now user m v
step-AreFine (touches_root now none) m v = v
step-AreFine (touches_root now (some root)) m v = change_if-AreFine _ (seen_at now) m (λ k s f. f) v
step-AreFine (moves now none dir) m v = v
step-AreFine (moves now (some root) none) m v = v
step-AreFine (moves now (some root) (some dir)) m v = change_if-AreFine _ _ m (λ k s f. f) v
step-AreFine (answers user success) m v = answer-AreFine user success m v

run-AreFine : (es : List Event) (m : Sessions) → AreFine m → AreFine (run es m)
unfolding run
run-AreFine [] m v = v
run-AreFine (e ∷ es) m v = run-AreFine es (step e m) (step-AreFine e m v)

-- Failed callbacks to a user, in a row.
unfoldable pub fail_times : ℕ → String → Sessions → Sessions
fail_times zero user m = m
fail_times (suc n) user m = fail_times n user (record_callback_result user false m)

-- A session that is left has failed often enough for n more failures to reach the limit.
abbrev Near : ℕ → String → Sessions → Type 0
Near n user m =
    (s : ClientSession) → get user m ≡ some s → max_callback_failures ≤ s.consecutive_failures + n

failed-Near :
    (n : ℕ) (user : String) (m : Sessions)
    → (user == "") ≡ false
    → Near (suc n) user m
    → Near n user (record_callback_result user false m)
unfolding record_callback_result record_failure
failed-Near n user m e near t h = elim (Option-cases (get user m)) [
  | inl g ↦ cc (rw (record_callback_result, e, g) at h, g)
  | inr (s, g) ↦ elim (Bool-cases (leb max_callback_failures (s.consecutive_failures + 1))) [
    | inl b ↦ cc (rw (record_callback_result, e, g, record_failure, b, get-delete_self user m) at h)
    | inr b ↦ counted s g (
        rw
          (
            record_callback_result,
            e,
            g,
            record_failure,
            b,
            get-insert_self user (record s { consecutive_failures = s.consecutive_failures + 1 }) m,
          )
          at h)
  ]
]
  where
    failures_of :
        {a b : ClientSession} → some a ≡ some b → a.consecutive_failures ≡ b.consecutive_failures
    failures_of q = ap (λ o. elim o [ none ↦ 0 | some z ↦ z.consecutive_failures ]) q

    counted :
        (s : ClientSession)
        → get user m ≡ some s
        → some (record s { consecutive_failures = s.consecutive_failures + 1 }) ≡ some t
        → max_callback_failures ≤ t.consecutive_failures + n
    counted s g q = omega (arith, near s g, failures_of q)

get-fail_times :
    (n : ℕ) (user : String) (m : Sessions)
    → (user == "") ≡ false
    → AreFine m
    → Near n user m
    → get user (fail_times n user m) ≡ none
unfolding fail_times
get-fail_times zero user m e v near = elim (Option-cases (get user m)) [
  | inl g ↦ g
  | inr (s, g) ↦ absurd (over s g)
]
  where
    over : (s : ClientSession) → get user m ≡ some s → ⊥
    over s g = omega (arith, near s g, (v user s g).1)
get-fail_times (suc n) user m e v near =
    get-fail_times n user (record_callback_result user false m) e (answer-AreFine user false m v)
      (failed-Near n user m e near)

none-AreFine : AreFine []
unfolding get
none-AreFine k s h = cc

-- From no sessions, whatever happens in whatever order, every session stands under its user and has
-- fewer than maxCallbackFailures failures in a row; and as many failures in a row as that leave no
-- session of the user, who is not the empty one.
pub run-fail_times :
    (es : List Event) (user : String)
    → (user == "") ≡ false
    → AreFine (run es []) × (get user (fail_times max_callback_failures user (run es [])) ≡ none)
run-fail_times es user e =
    let fine : AreFine (run es []) = run-AreFine es [] none-AreFine in
    (fine, get-fail_times max_callback_failures user (run es []) e fine (λ s g. omega arith))
