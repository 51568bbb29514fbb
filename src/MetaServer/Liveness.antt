-- ===== src/MetaServer/Liveness.antt =====
-- Health, the stale sweep and the placement of new users.
use distributed_virtual_file.Prelude.{
  ℕ, ◌≤◌, String, ◌≡◌, ◌≢◌, ◌⊎◌, ◌↔◌, Bool, refl, sym, ap, ◌∙◌, true, false, Option, none, some, [],
  ◌∷◌, arith, if◌then◌else◌, ltb, ◌==◌, ==_iff, string_eq, nat_eq, Bool-cases, inl, inr, In,
}
use distributed_virtual_file.GoMap.{GoMap, get}
use distributed_virtual_file.MetaServer.Freshness.{
  IsFresh, healthy-status, healthy-IsFresh, IsFresh-healthy,
}
use distributed_virtual_file.MetaServer.{
  FileServerInfo, MetaServer, healthy, stale, is_healthy, mark_stale_info, mark_all, mark_stale,
  better, scan, least_loaded,
}

-- A candidate of the scan is healthy, and no healthy node seen so far has fewer users.
abbrev Seen : Type 0
Seen = ℕ × FileServerInfo

abbrev pub IsHealthy : ℕ → MetaServer → ℕ × FileServerInfo → Type 0
IsHealthy now ms x = is_healthy x.1 now ms.heartbeat_timeout ≡ true

module _ (now timeout : ℕ) where
  -- The best of the entries that satisfy `S`: one of them, healthy, and no healthy one has fewer
  -- users.
  record IsBest (S : Seen → Type 0) (b : Seen) : Type 0 where
    member : S b
    live : is_healthy b.1 now timeout ≡ true
    least : (x : Seen) → S x → is_healthy x.1 now timeout ≡ true → b.1.user_count ≤ x.1.user_count

  abbrev Scanned : (Seen → Type 0) → Option Seen → Type 0
  Scanned S none = (x : Seen) → S x → is_healthy x.1 now timeout ≡ false
  Scanned S (some b) = IsBest S b

  abbrev Or : (Seen → Type 0) → Seen → Seen → Type 0
  Or S x y = S y ⊎ (y ≡ x)

  healthy_of : (x y : Seen) → y ≡ x → is_healthy x.1 now timeout ≡ is_healthy y.1 now timeout
  healthy_of x y e = ap (λ (z : Seen). is_healthy z.1 now timeout) (sym e)

  better-Scanned :
      (S : Seen → Type 0) (x : Seen) (o : Option Seen)
      → Scanned S o
      → Scanned (Or S x) (better now timeout x o)
  unfolding better
  better-Scanned S x none h = elim (Bool-cases (is_healthy x.1 now timeout)) [
    | inl t ↦ rw t (record {
      member = inr refl;
      live = t;
      least = λ y s l. elim s [ inl old ↦ cc (h y old, l) | inr e ↦ rw e (omega arith) ];
    })
    | inr f ↦ rw f (λ y s. elim s [ inl old ↦ h y old | inr e ↦ sym (healthy_of x y e) ∙ f ])
  ]
  better-Scanned S x (some b) h = elim (Bool-cases (is_healthy x.1 now timeout)) [
    | inr f ↦ rw f (record {
      member = inl h.member;
      live = h.live;
      least = λ y s l. elim s [ inl old ↦ h.least y old l | inr e ↦ cc (healthy_of x y e, f, l) ];
    })
    | inl t ↦ rw t (elim (Bool-cases (ltb x.1.user_count b.1.user_count)) [
      | inl fewer ↦ rw fewer (record {
        member = inr refl;
        live = t;
        least = λ y s l. elim s [
          | inl old ↦ ground (arith, h.least y old l)
          | inr e ↦ rw e (omega arith)
        ];
      })
      | inr more ↦ rw more (record {
        member = inl h.member;
        live = h.live;
        least = λ y s l. elim s [ inl old ↦ h.least y old l | inr e ↦ rw e (ground arith) ];
      })
    ])
  ]

  weaken :
      (S T : Seen → Type 0) (o : Option Seen)
      → ((x : Seen) → S x → T x)
      → ((x : Seen) → T x → S x)
      → Scanned S o
      → Scanned T o
  weaken S T none f g h = λ x t. h x (g x t)
  weaken S T (some b) f g h = record {
    member = f b h.member;
    live = h.live;
    least = λ x t l. h.least x (g x t) l;
  }

  scan-Scanned :
      (m : GoMap ℕ FileServerInfo) (S : Seen → Type 0) (o : Option Seen)
      → Scanned S o
      → Scanned (λ y. S y ⊎ In y m) (scan now timeout m o)
  unfolding scan
  scan-Scanned [] S o h =
      weaken S _ o (λ x s. inl s) (λ x t. elim t [ inl s ↦ s | inr f ↦ absurd f ]) h
  scan-Scanned (x ∷ m) S o h =
      weaken _ _ (scan now timeout m (better now timeout x o)) forth back
        (scan-Scanned m (Or S x) (better now timeout x o) (better-Scanned S x o h))
    where
      forth : (y : Seen) → (Or S x y ⊎ In y m) → S y ⊎ In y (x ∷ m)
      forth y (inl (inl s)) = inl s
      forth y (inl (inr e)) = inr (inl e)
      forth y (inr i) = inr (inr i)

      back : (y : Seen) → (S y ⊎ In y (x ∷ m)) → Or S x y ⊎ In y m
      back y (inl s) = inl (inl s)
      back y (inr (inl e)) = inl (inr e)
      back y (inr (inr i)) = inr i

-- What placement promises of its answer.
abbrev pub IsPlacement : ℕ → MetaServer → Option (ℕ × FileServerInfo) → Type 0
IsPlacement now ms none = (x : ℕ × FileServerInfo) → In x ms.fileservers → ¬ IsHealthy now ms x
IsPlacement now ms (some b) =
    In b ms.fileservers
    × IsHealthy now ms b
    × ((x : ℕ × FileServerInfo)
        → In x ms.fileservers
        → IsHealthy now ms x
        → b.1.user_count ≤ x.1.user_count)

placed :
    (now : ℕ) (ms : MetaServer) (o : Option Seen)
    → Scanned now ms.heartbeat_timeout (λ y. ⊥ ⊎ In y ms.fileservers) o
    → IsPlacement now ms o
placed now ms none h = λ x i l. cc (h x (inr i), l)
placed now ms (some b) h =
    (elim h.member [ inl f ↦ absurd f | inr i ↦ i ], h.live, λ x i l. h.least x (inr i) l)

-- The node picked for a new user is a registered healthy one, and no healthy one has fewer users;
-- none is picked only when no registered node is healthy.
pub least_loaded-IsPlacement :
    (now : ℕ) (ms : MetaServer) → IsPlacement now ms (least_loaded now ms)
unfolding least_loaded
least_loaded-IsPlacement now ms =
    placed now ms (scan now ms.heartbeat_timeout ms.fileservers none)
      (scan-Scanned now ms.heartbeat_timeout ms.fileservers (λ y. ⊥) none (λ x f. absurd f))

accepted_info : ℕ → ℕ → Option FileServerInfo → Option FileServerInfo
accepted_info now timeout none = none
accepted_info now timeout (some info) = some (mark_stale_info now timeout info)

get-mark_all :
    (now timeout id : ℕ) (m : GoMap ℕ FileServerInfo)
    → get id (mark_all now timeout m) ≡ accepted_info now timeout (get id m)
unfolding mark_all get accepted_info
get-mark_all now timeout id [] = refl
get-mark_all now timeout id ((j, info) ∷ m) = elim (Bool-cases (j == id)) [
  | inl t ↦ rw t refl
  | inr f ↦ rw f (get-mark_all now timeout id m)
]

with_status : FileServerInfo → String → FileServerInfo
with_status info status = record info { status = status }

marked_lem :
    (now timeout : ℕ) (info : FileServerInfo)
    → mark_stale_info now timeout info
      ≡ with_status info (if is_healthy info now timeout then healthy else stale)
unfolding mark_stale_info with_status
marked_lem now timeout info = elim (Bool-cases (is_healthy info now timeout)) [
  | inl t ↦ rw t (ap (with_status info) (healthy-status now timeout info t))
  | inr f ↦ rw f (elim (Bool-cases (info.status == stale)) [
    | inl t ↦ rw t (ap (with_status info) ((==_iff info.status stale).0 t))
    | inr g ↦ rw g refl
  ])
]

-- What the sweep promises of a node.
abbrev pub Swept : ℕ → ℕ → FileServerInfo → FileServerInfo → Type 0
Swept now timeout info after =
    (after ≡ record info { status = after.status })
    × ((after.status ≡ healthy) ⊎ (after.status ≡ stale))
    × ((after.status ≡ healthy) ↔ ((info.status ≡ healthy) × IsFresh now timeout info))

marked-Swept :
    (now timeout : ℕ) (info : FileServerInfo)
    → Swept now timeout info (mark_stale_info now timeout info)
unfolding with_status
marked-Swept now timeout info = elim (Bool-cases (is_healthy info now timeout)) [
  | inl t ↦
      rw (marked_lem now timeout info, t)
        (refl, inl refl, (λ _. healthy-IsFresh now timeout info t, λ _. refl))
  | inr f ↦
      rw (marked_lem now timeout info, f)
        (
          refl,
          inr refl,
          (
            λ e. absurd (apart (ap (λ s. s == stale) e)),
            λ p. absurd (apart (sym (IsFresh-healthy now timeout info p.0 p.1) ∙ f)),
          ),
        )
]
  where
    apart : ◌≢◌ {A = Bool} true false
    apart e = cc

-- The sweep sets the status of every node to healthy or stale, and changes nothing else of it. The
-- node is healthy afterwards exactly if it was healthy before, has been heard of, and was last heard
-- of no longer ago than the whole seconds of the timeout, where the timeout is not 0.
pub get-mark_stale :
    (now id : ℕ) (ms : MetaServer) (info : FileServerInfo)
    → get id ms.fileservers ≡ some info
    → (after : FileServerInfo) × (get id (mark_stale now ms).1.fileservers ≡ some after)
      × Swept now ms.heartbeat_timeout info after
unfolding mark_stale
get-mark_stale now id ms info e = (
  mark_stale_info now ms.heartbeat_timeout info,
  get-mark_all now ms.heartbeat_timeout id ms.fileservers
      ∙ unfold accepted_info in ap (accepted_info now ms.heartbeat_timeout) e,
  marked-Swept now ms.heartbeat_timeout info,
)
