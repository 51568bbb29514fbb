-- ===== src/MetaServer/Routing.antt =====
-- What Navigate and GetRoots promise of their answers.
use distributed_virtual_file.Prelude.{
  ℕ, ◌+◌, ◌-◌, String, ◌≡◌, ◌⊎◌, refl, sym, ap, Bool, true, false, ◌||◌, Option, none, some, List,
  [], ◌∷◌, arith, ltb, ◌==◌, ==_iff, ==_refl, string_eq, nat_eq, Bool-cases, Option-cases, inl, inr,
  any, In,
}
use distributed_virtual_file.GoMap.{GoMap, IsMap, get, delete, insert, get-insert, get-delete, keys}
use distributed_virtual_file.MetaServer.{
  FileServerInfo, MetaServer, SharedDirEntry, is_healthy, least_loaded, roots_of,
}
use distributed_virtual_file.MetaServer.Liveness.{IsPlacement, least_loaded-IsPlacement}
use distributed_virtual_file.MetaServer.Roots.{
  success, may_enter, navigate_to, navigate_home, navigate, uncounted, assign_home, unassign_home,
  first_login, place_user, get_roots,
}

any-In :
    (p : SharedDirEntry → Bool) (xs : List SharedDirEntry)
    → any p xs ≡ true
    → (x : SharedDirEntry) × In x xs × (p x ≡ true)
any-In p [] h = cc
any-In p (x ∷ xs) h = elim (Bool-cases (p x)) [
  | inl t ↦ (x, inl refl, t)
  | inr f ↦ let r = any-In p xs (rw f at h) in (r.0, inr r.1, r.2)
]

-- The user is the root's, or sees one of the root's shared directories.
abbrev pub MayEnter : String → String → MetaServer → Type 0
MayEnter user root_user ms =
    (user ≡ root_user) ⊎ ((e : SharedDirEntry) × In e (roots_of user ms) × (e.owner ≡ root_user))

may_enter_sound :
    (user root_user : String) (ms : MetaServer)
    → may_enter user root_user ms ≡ true
    → MayEnter user root_user ms
unfolding may_enter
may_enter_sound user root_user ms h = elim (Bool-cases (user == root_user)) [
  | inl t ↦ inl ((==_iff user root_user).0 t)
  | inr f ↦
      let r = any-In (λ e. e.owner == root_user) (roots_of user ms) (rw f at h) in
      inr (r.0, r.1, (==_iff _ root_user).0 r.2)
]

-- What a route to a root promises: where the root lives, that the node is alive, and that the user
-- may enter.
abbrev pub IsRoute : ℕ → String → String → MetaServer → String → Type 0
IsRoute now user root_user ms address =
    (id : ℕ) × (info : FileServerInfo) × (get root_user ms.users ≡ some id)
    × (get id ms.fileservers ≡ some info)
    × (is_healthy info now ms.heartbeat_timeout ≡ true)
    × (info.address ≡ address)
    × MayEnter user root_user ms

-- Navigate answers with an address only for a known user, and the address is that of the healthy
-- node that hosts the root's user, whom the user is or who shares a directory with the user.
pub navigate_sound :
    (now : ℕ) (user root_user : String) (ms : MetaServer) (address : String)
    → navigate now user root_user ms ≡ success address
    → ((id : ℕ) × (get user ms.users ≡ some id)) × IsRoute now user root_user ms address
unfolding navigate navigate_home navigate_to
navigate_sound now user root_user ms address h = elim (Bool-cases (user == "" || root_user == "")) [
  | inl t ↦ cc (rw t at h)
  | inr f ↦ elim (Option-cases (get user ms.users)) [
    | inl n ↦ cc (rw (f, n, navigate) at h)
    | inr (own, k) ↦ elim (Option-cases (get root_user ms.users)) [
      | inl n ↦ cc (rw (f, k, n, navigate) at h)
      | inr (id, r) ↦ elim (Option-cases (get id ms.fileservers)) [
        | inl n ↦ cc (rw (f, k, r, n, navigate) at h)
        | inr (info, g) ↦ elim (Bool-cases (is_healthy info now ms.heartbeat_timeout)) [
          | inr dead ↦ cc (rw (f, k, r, g, dead, navigate) at h)
          | inl live ↦ elim (Bool-cases (may_enter user root_user ms)) [
            | inr shut ↦ cc (rw (f, k, r, g, live, shut, navigate) at h)
            | inl may ↦ (
              (own, k),
              (
                id,
                info,
                r,
                g,
                live,
                cc (rw (f, k, r, g, live, may, navigate) at h),
                may_enter_sound user root_user ms may,
              ),
            )
          ]
        ]
      ]
    ]
  ]
]

In-keys : (x : ℕ × FileServerInfo) (m : GoMap ℕ FileServerInfo) → In x m → In x.0 (keys m)
In-keys x [] i = absurd i
In-keys x (y ∷ m) (inl e) = inl (ap (λ (z : ℕ × FileServerInfo). z.0) e)
In-keys x (y ∷ m) (inr i) = inr (In-keys x m i)

entry-get :
    (x : ℕ × FileServerInfo) (m : GoMap ℕ FileServerInfo) → IsMap m → In x m → get x.0 m ≡ some x.1
unfolding get
entry-get x [] d i = absurd i
entry-get x (y ∷ m) d (inl e) =
    rw ((==_iff y.0 x.0).1 (ap (λ (z : ℕ × FileServerInfo). z.0) (sym e)))
      (ap (λ (z : ℕ × FileServerInfo). some z.1) (sym e))
entry-get x (y ∷ m) d (inr i) = elim (Bool-cases (y.0 == x.0)) [
  | inl t ↦ absurd (d.0 (rw ((==_iff y.0 x.0).0 t) (In-keys x m i)))
  | inr f ↦ rw f (entry-get x m d.1 i)
]

-- Who lives where, and the nodes with their user counts, as reads see them.
abbrev pub SamePlacement : MetaServer → MetaServer → Type 0
SamePlacement a b =
    ((u : String) → get u a.users ≡ get u b.users)
    × ((id : ℕ) → get id a.fileservers ≡ get id b.fileservers)

positive : (n : ℕ) → ltb 0 (n + 1) ≡ true
positive n = ground arith

uncounted_lem :
    (id : ℕ) (info : FileServerInfo) (m : GoMap ℕ FileServerInfo)
    → uncounted id (some (record info { user_count = info.user_count + 1 })) m ≡ insert id info m
unfolding uncounted
uncounted_lem id info m =
    rw (positive info.user_count)
      (ap (λ (n : ℕ). insert id (record info { user_count = n }) m) (same info.user_count))
  where
    same : (n : ℕ) → n + 1 - 1 ≡ n
    same n = omega arith

unassign-assign :
    (user : String) (id : ℕ) (info : FileServerInfo) (ms : MetaServer)
    → get user ms.users ≡ none
    → get id ms.fileservers ≡ some info
    → SamePlacement (unassign_home user id (assign_home user id info ms)) ms
unfolding unassign_home assign_home
unassign-assign user id info ms new g = (λ u. user_gone u, λ j. node_back j)
  where
    grown : FileServerInfo
    grown = record info { user_count = info.user_count + 1 }

    user_gone : (u : String) → get u (delete user (insert user id ms.users)) ≡ get u ms.users
    user_gone u =
        rw (get-delete user u (insert user id ms.users), get-insert user u id ms.users)
          (elim (Bool-cases (user == u)) [
            | inl t ↦ rw t (sym (rw (← ((==_iff user u).0 t)) new))
            | inr f ↦ rw f refl
          ])

    node_back :
        (j : ℕ)
        → get j (
            uncounted id (get id (insert id grown ms.fileservers)) (insert id grown ms.fileservers))
          ≡ get j ms.fileservers
    node_back j =
        rw (get-insert id id grown ms.fileservers, ==_refl id)
          (rw
            (
              uncounted_lem id info (insert id grown ms.fileservers),
              get-insert id j info (insert id grown ms.fileservers),
              get-insert id j grown ms.fileservers,
            )
            (elim (Bool-cases (id == j)) [
              | inl t ↦ rw t (sym (rw (← ((==_iff id j).0 t)) g))
              | inr f ↦ rw f refl
            ]))

placed-rollback :
    (now : ℕ) (user : String) (ms : MetaServer) (o : Option (ℕ × FileServerInfo))
    → IsMap ms.fileservers
    → get user ms.users ≡ none
    → IsPlacement now ms o
    → SamePlacement (first_login false user o ms).1 ms
unfolding first_login
placed-rollback now user ms none m new p = (λ u. refl, λ id. refl)
placed-rollback now user ms (some (id, info)) m new p =
    unassign-assign user id info ms new (entry-get (id, info) ms.fileservers m p.0)

-- GetRoots with a store that refuses the write, on a node table whose keys are distinct: no
-- user is homed and no node counts anyone who was not before.
pub get_roots-rollback :
    (now : ℕ) (user : String) (ms : MetaServer)
    → IsMap ms.fileservers
    → SamePlacement (get_roots now false user ms).1 ms
unfolding get_roots place_user
get_roots-rollback now user ms m = elim (Bool-cases (user == "")) [
  | inl t ↦ rw t (λ u. refl, λ id. refl)
  | inr f ↦ elim (Option-cases (get user ms.users)) [
    | inr (id, k) ↦ rw (f, k, get_roots) (λ u. refl, λ id. refl)
    | inl new ↦ elim (Option-cases (get user ms.orphaned_users)) [
      | inr (home, o) ↦ rw (f, new, o, get_roots) (λ u. refl, λ id. refl)
      | inl o ↦
          rw (f, new, o, get_roots)
            (placed-rollback now user ms (least_loaded now ms) m new
              (least_loaded-IsPlacement now ms))
    ]
  ]
]
