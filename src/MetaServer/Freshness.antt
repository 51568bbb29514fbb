-- ===== src/MetaServer/Freshness.antt =====
-- isHealthyLocked of internal/metaserver/metaserver.go, described by the age of the heartbeat.
use distributed_virtual_file.Prelude.{
  ℕ, ◌+◌, ◌-◌, ◌/◌, ◌≤◌, ◌≡◌, ◌≢◌, ◌⊎◌, refl, Bool, true, arith, leb, if◌then◌else◌, ◌==◌, ==_iff,
  string_eq, nat_eq, Bool-cases, inl, inr,
}
use distributed_virtual_file.MetaServer.{FileServerInfo, second, healthy, is_healthy}

pub healthy-status :
    (now timeout : ℕ) (info : FileServerInfo)
    → is_healthy info now timeout ≡ true
    → info.status ≡ healthy
unfolding is_healthy
healthy-status now timeout info h = elim (Bool-cases (info.status == healthy)) [
  | inl t ↦ (==_iff info.status healthy).0 t
  | inr f ↦ cc (rw f at h)
]

-- The last heartbeat was heard, and is no older than the timeout, if there is one.
abbrev pub IsFresh : ℕ → ℕ → FileServerInfo → Type 0
IsFresh now timeout info =
    (info.last_heartbeat_unix ≢ 0)
    × ((timeout ≡ 0) ⊎ (now ≤ info.last_heartbeat_unix + timeout / second))

pub healthy-IsFresh :
    (now timeout : ℕ) (info : FileServerInfo)
    → is_healthy info now timeout ≡ true
    → (info.status ≡ healthy) × IsFresh now timeout info
unfolding is_healthy
healthy-IsFresh now timeout info h = elim (Bool-cases (info.status == healthy)) [
  | inr f ↦ cc (rw f at h)
  | inl t ↦ elim (Bool-cases (info.last_heartbeat_unix == 0)) [
    | inl z ↦ cc (rw (t, z) at h)
    | inr n ↦ (
      (==_iff info.status healthy).0 t,
      (
        λ e. cc ((==_iff info.last_heartbeat_unix 0).1 e, n),
        elim (Bool-cases (timeout == 0)) [
          | inl z ↦ inl ((==_iff timeout 0).0 z)
          | inr p ↦ inr (in_time (timeout / second) (rw (t, n, p) at h))
        ],
      ),
    )
  ]
]
  where
    in_time :
        (limit : ℕ)
        → leb (now - info.last_heartbeat_unix) limit ≡ true
        → now ≤ info.last_heartbeat_unix + limit
    in_time limit e = ground arith

pub IsFresh-healthy :
    (now timeout : ℕ) (info : FileServerInfo)
    → info.status ≡ healthy
    → IsFresh now timeout info
    → is_healthy info now timeout ≡ true
unfolding is_healthy
IsFresh-healthy now timeout info s (heard, recent) =
    let named : (info.status == healthy) ≡ true = (==_iff info.status healthy).1 s in
    elim (Bool-cases (info.last_heartbeat_unix == 0)) [
      | inl z ↦ absurd (heard ((==_iff info.last_heartbeat_unix 0).0 z))
      | inr n ↦
          rw (named, n)
            (elim recent [
              | inl e ↦ rw ((==_iff timeout 0).1 e) refl
              | inr i ↦ in_time (timeout == 0) (timeout / second) i
            ])
    ]
  where
    in_time :
        (b : Bool) (limit : ℕ)
        → now ≤ info.last_heartbeat_unix + limit
        → (if b then true else leb (now - info.last_heartbeat_unix) limit) ≡ true
    in_time b limit i = ground arith
