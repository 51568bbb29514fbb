-- ===== src/MetaServer/Homes.antt =====
-- A registration and the homes of the users: no node takes a user that another node hosts, and a
-- refused registration changes nothing.
use distributed_virtual_file.Prelude.{
  ℕ, String, ◌≡◌, ◌≢◌, refl, sym, ap, Bool, true, false, ◌&&◌, Option, none, some, List, [], ◌∷◌,
  arith, ◌==◌, ==_iff, string_eq, nat_eq, Bool-cases, Option-cases, inl, inr, contains, In,
}
use distributed_virtual_file.GoMap.{get, delete, get-insert, keys, In-keys-keep}
use distributed_virtual_file.MetaServer.{MetaServer}
use distributed_virtual_file.MetaServer.Roots.{failure, RouteError, not_persisted}
use distributed_virtual_file.MetaServer.Writes.{run_writes, resolve_node_id}
use distributed_virtual_file.MetaServer.Deregister.{delete_all}
use distributed_virtual_file.MetaServer.Conflicts.{
  Request, distinct, home_conflict, user_conflict, registration_conflict,
}
use distributed_virtual_file.MetaServer.Commit.{
  put_node, missing, purge_users, home_user, reclaim, waiting, claim_users, recount, commit,
  commit_writes,
}
use distributed_virtual_file.MetaServer.Register.{
  finish, register_new, Slot, slot_for, duplicate, slot_conflict, register_at, register_checked,
  register,
}

In-distinct : (u : String) (us : List String) → In u (distinct us) → In u us
unfolding distinct
In-distinct u [] i = absurd i
In-distinct u (v ∷ us) i = elim (Bool-cases (contains v (distinct us))) [
  | inl t ↦ inr (In-distinct u us (rw t at i))
  | inr f ↦ elim (rw f at i) as (λ x. In u (v ∷ us)) [
    | inl e ↦ inl e
    | inr j ↦ inr (In-distinct u us j)
  ]
]

-- A node whose claim on a mapped user stands is the one that the user maps to.
claimed-home :
    (node_id : String) (fs_id home : ℕ) (exists : Bool) (u : String) (us : List String)
    (ms : MetaServer)
    → registration_conflict node_id fs_id exists us ms ≡ none
    → get u ms.users ≡ some home
    → In u us
    → home ≡ fs_id
unfolding registration_conflict user_conflict home_conflict
claimed-home node_id fs_id home exists u [] ms h g i = absurd i
claimed-home node_id fs_id home exists u (v ∷ us) ms h g i =
    elim (Option-cases (user_conflict node_id fs_id exists v ms)) [
      | inr (e, c) ↦ cc (rw (c, registration_conflict) at h)
      | inl free ↦ elim i [
        | inr j ↦
            claimed-home node_id fs_id home exists u us ms (rw (free, registration_conflict) at h) g
              j
        | inl e ↦
            let gv : get v ms.users ≡ some home = rw (← e) g in
            elim (Bool-cases (exists && home == fs_id)) [
              | inl t ↦ ground (arith, ==_iff home fs_id)
              | inr f ↦ cc (rw (gv, user_conflict, f) at free)
            ]
      ]
    ]

module _ (u : String) (home : ℕ) where
  abbrev Homed : MetaServer → Type 0
  Homed ms = get u ms.users ≡ some home

  home_user-Homed :
      (fs_id : ℕ) (v : String) (ms : MetaServer)
      → ((v ≡ u) → home ≡ fs_id)
      → Homed ms
      → Homed (home_user fs_id v ms)
  unfolding home_user
  home_user-Homed fs_id v ms same h =
      rw (get-insert v u fs_id ms.users) (elim (Bool-cases (v == u)) [
        | inl t ↦ rw t (ap some (sym (same ((==_iff v u).0 t))))
        | inr f ↦ rw f h
      ])

  claim_users-Homed :
      (fs_id : ℕ) (us : List String) (ms : MetaServer)
      → (In u us → home ≡ fs_id)
      → Homed ms
      → Homed (claim_users fs_id us ms)
  unfolding claim_users
  claim_users-Homed fs_id [] ms same h = h
  claim_users-Homed fs_id (v ∷ us) ms same h =
      claim_users-Homed fs_id us _ (λ i. same (inr i))
        (home_user-Homed fs_id v ms (λ e. same (inl (sym e))) h)

  reclaim-Homed :
      (fs_id : ℕ) (us : List String) (ms : MetaServer)
      → ¬ In u us
      → Homed ms
      → Homed (reclaim fs_id us ms)
  unfolding reclaim
  reclaim-Homed fs_id [] ms out h = h
  reclaim-Homed fs_id (v ∷ us) ms out h =
      reclaim-Homed fs_id us _ (λ i. out (inr i))
        (home_user-Homed fs_id v (record ms { orphaned_users = delete v ms.orphaned_users })
          (λ e. absurd (out (inl (sym e)))) h)

  module _ (ms : MetaServer) (no_purge : ms.allow_user_purge ≡ false)
      (routed : ¬ In u (keys ms.orphaned_users)) where
    not_waiting : (node_id : String) → ¬ In u (waiting node_id ms)
    unfolding waiting
    not_waiting node_id i = routed (In-keys-keep (λ e. e.1 == node_id) u ms.orphaned_users i)

    commit-Homed :
        (now : ℕ) (node_id : String) (fs_id : ℕ) (req : Request)
        → (In u req.users → home ≡ fs_id)
        → Homed ms
        → Homed (commit now node_id fs_id req ms)
    unfolding commit recount missing purge_users put_node delete_all
    commit-Homed now node_id fs_id req same h =
        claim_users-Homed fs_id (distinct req.users) _ (λ i. same (In-distinct u req.users i))
          (reclaim-Homed fs_id (waiting node_id ms) _ (not_waiting node_id) (rw no_purge h))

    register_new-Homed :
        (allocated : Option ℕ) (accepted now : ℕ) (node_id : String) (req : Request)
        → Homed ms
        → Homed (register_new allocated accepted now node_id req ms).1
    unfolding register_new finish
    register_new-Homed none accepted now node_id req h = h
    register_new-Homed (some fs_id) accepted now node_id req h =
        elim (Option-cases (get fs_id ms.fileservers)) [
          | inr (other, held) ↦ rw (held, register_new) h
          | inl slot ↦ elim (Option-cases (registration_conflict node_id fs_id true req.users ms)) [
            | inr (e, c) ↦ rw (slot, c, register_new) h
            | inl c ↦
                rw (slot, c, register_new)
                  (commit-Homed now node_id fs_id req
                    (λ i. claimed-home node_id fs_id home true u req.users ms c h i) h)
          ]
        ]

    checked-Homed :
        (allocated : Option ℕ) (accepted now : ℕ) (node_id : String) (s : Slot) (req : Request)
        → Homed ms
        → Homed (register_checked allocated accepted now node_id s req ms).1
    unfolding register_checked register_at slot_conflict finish
    checked-Homed allocated accepted now node_id s req h =
        elim (Option-cases (duplicate now req s ms)) [
          | inr (e, d) ↦ rw (d, register_checked) h
          | inl d ↦ elim (Option-cases (slot_conflict node_id s req.users ms)) [
            | inr (e, c) ↦ rw (d, c, register_checked) h
            | inl c ↦ rw (d, c, register_checked) (at_slot s c)
          ]
        ]
      where
        at_slot :
            (t : Slot)
            → slot_conflict node_id t req.users ms ≡ none
            → Homed (register_at allocated accepted now node_id t req ms).1
        at_slot none c = register_new-Homed allocated accepted now node_id req h
        at_slot (some (id, adopt)) c =
            commit-Homed now node_id id req
              (λ i. claimed-home node_id id home true u req.users ms c h i) h

    -- While user purging is off, no registration moves or drops a user that maps to a node and is not
    -- an orphan, whatever the request says and whichever writes the store accepts.
    pub register-keeps_home :
        (allocated : Option ℕ) (accepted now : ℕ) (req : Request)
        → get u ms.users ≡ some home
        → get u (register allocated accepted now req ms).1.users ≡ some home
    unfolding register
    register-keeps_home allocated accepted now req h = elim (Bool-cases (req.address == "")) [
      | inl t ↦ rw t h
      | inr f ↦ rw f (checked-Homed allocated accepted now _ _ req h)
    ]

finish-reply :
    (accepted now : ℕ) (node_id : String) (fs_id : ℕ) (adopt : Option String) (req : Request)
    (ms : MetaServer) (e : RouteError)
    → (finish accepted now node_id fs_id adopt req ms).0 ≡ failure e
    → e ≡ not_persisted
unfolding finish
finish-reply accepted now node_id fs_id adopt req ms e h =
    elim (Bool-cases (run_writes accepted (commit_writes now node_id fs_id adopt req ms)).0) [
      | inl t ↦ cc (rw t at h)
      | inr f ↦ cc (rw f at h)
    ]

new-refused :
    (allocated : Option ℕ) (accepted now : ℕ) (node_id : String) (req : Request) (ms : MetaServer)
    (e : RouteError)
    → (register_new allocated accepted now node_id req ms).0 ≡ failure e
    → e ≢ not_persisted
    → (register_new allocated accepted now node_id req ms).1 ≡ ms
unfolding register_new
new-refused none accepted now node_id req ms e h other = refl
new-refused (some fs_id) accepted now node_id req ms e h other =
    elim (Option-cases (get fs_id ms.fileservers)) [
      | inr (o, held) ↦ rw (held, register_new) refl
      | inl slot ↦ elim (Option-cases (registration_conflict node_id fs_id true req.users ms)) [
        | inr (c, k) ↦ rw (slot, k, register_new) refl
        | inl k ↦ absurd (
            other (
              finish-reply accepted now node_id fs_id none req ms e
                (rw (slot, k, register_new) at h)))
      ]
    ]

-- A registration that is refused for any reason but the store leaves the metaserver as it was.
pub register-refused :
    (allocated : Option ℕ) (accepted now : ℕ) (req : Request) (ms : MetaServer) (e : RouteError)
    → (register allocated accepted now req ms).0 ≡ failure e
    → e ≢ not_persisted
    → (register allocated accepted now req ms).1 ≡ ms
unfolding register register_checked register_at
register-refused allocated accepted now req ms e h other = elim (Bool-cases (req.address == "")) [
  | inl t ↦ rw t refl
  | inr f ↦ rw f (checked (slot_for req (resolve_node_id req.fs_id req.address) ms) (rw f at h))
]
  where
    placed :
        (s : Slot)
        → (register_at allocated accepted now (resolve_node_id req.fs_id req.address) s req ms).0
          ≡ failure e
        → (register_at allocated accepted now (resolve_node_id req.fs_id req.address) s req ms).1
          ≡ ms
    placed none k = new-refused allocated accepted now _ req ms e k other
    placed (some (id, adopt)) k = absurd (other (finish-reply accepted now _ id adopt req ms e k))

    checked :
        (s : Slot)
        → (register_checked allocated accepted now
            (resolve_node_id req.fs_id req.address)
            s
            req
            ms).0
          ≡ failure e
        → (register_checked allocated accepted now
            (resolve_node_id req.fs_id req.address)
            s
            req
            ms).1
          ≡ ms
    checked s k = elim (Option-cases (duplicate now req s ms)) [
      | inr (c, d) ↦ rw (d, register_checked) refl
      | inl d ↦
          elim (Option-cases
            (slot_conflict (resolve_node_id req.fs_id req.address) s req.users ms)) [
              | inr (c, w) ↦ rw (d, w, register_checked) refl
              | inl w ↦ rw (d, w, register_checked) (placed s (rw (d, w, register_checked) at k))
            ]
    ]
