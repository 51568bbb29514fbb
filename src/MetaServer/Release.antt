-- ===== src/MetaServer/Release.antt =====
-- What a deregistration leaves behind: nobody on the node when it succeeds, nothing changed when
-- it fails.
use distributed_virtual_file.Prelude.{
  ℕ, String, ◌≡◌, refl, sym, ap, ◌∙◌, Bool, true, false, not, ◌&&◌, Option, none, some, List, [],
  ◌∷◌, arith, if◌then◌else◌, ◌==◌, ==_iff, string_eq, nat_eq, Bool-cases, Option-cases, inl, inr,
  contains, is_empty, Eq,
}
use distributed_virtual_file.GoMap.{
  GoMap, IsMap, or_else, get, delete, get-delete, get-insert, is_some,
}
use distributed_virtual_file.MetaServer.{FileServerInfo, MetaServer}
use distributed_virtual_file.MetaServer.Roots.{success, failure, RouteError}
use distributed_virtual_file.MetaServer.Leavers.{
  IsMeant, maps_to, leaves, target-IsMeant, contains-released,
}
use distributed_virtual_file.MetaServer.Writes.{run_writes}
use distributed_virtual_file.MetaServer.Deregister.{
  Target, target, released, delete_all, drop_slot, release, restore, slots, take_back,
  release_writes, deregister_target, deregister,
}

pub get-delete_all :
    {V : Type 0} (us : List String) (k : String) (m : GoMap String V)
    → get k (delete_all us m) ≡ (if contains k us then none else get k m)
unfolding delete_all
get-delete_all [] k m = refl
get-delete_all (u ∷ us) k m = ground (arith, get-delete_all us k (delete u m), get-delete u k m)

same_branches : {A : Type 0} (b : Bool) (x : A) → (if b then x else x) ≡ x
same_branches true x = refl
same_branches false x = refl

module _ {K V : Type 0} ⦃e : Eq K⦄ where
  get-restore :
      (ks : List K) (k : K) (prev m : GoMap K V)
      → get k (restore ks prev m)
        ≡ (if contains k ks then or_else (get k prev) (get k m) else get k m)
  unfolding restore
  get-restore [] k prev m = refl
  get-restore (j ∷ ks) k prev m = elim (Option-cases (get j prev)) [
    | inl n ↦
        rw (n, restore)
          (elim (Bool-cases (j == k)) [
            | inl t ↦
                let g : get k prev ≡ none = rw (← ((==_iff j k).0 t)) n in
                rw (t, get-restore ks k prev m, g) (same_branches (contains k ks) (get k m))
            | inr f ↦ rw f (get-restore ks k prev m)
          ])
    | inr (v, s) ↦
        rw (s, restore)
          (elim (Bool-cases (j == k)) [
            | inl t ↦
                let g : get k prev ≡ some v = rw (← ((==_iff j k).0 t)) s in
                rw (get-insert j k v (restore ks prev m), t, g) refl
            | inr f ↦ rw (get-insert j k v (restore ks prev m), f) (get-restore ks k prev m)
          ])
  ]

-- What a request to the metaserver can read of its routing state.
pub record SameState (a b : MetaServer) : Type 0 where
  pub nodes : (id : ℕ) → get id a.fileservers ≡ get id b.fileservers
  pub users : (u : String) → get u a.users ≡ get u b.users
  pub orphans : (u : String) → get u a.orphaned_users ≡ get u b.orphaned_users
  pub shared : a.shared ≡ b.shared

module _ {V : Type 0} where
  put_back :
      (us : List String) (k : String) (m : GoMap String V)
      → get k (restore us m (delete_all us m)) ≡ get k m
  put_back us k m =
      rw (get-restore us k m (delete_all us m), get-delete_all us k m)
        (elim (Bool-cases (contains k us)) [
          | inr f ↦ rw f refl
          | inl t ↦
              rw t (elim (Option-cases (get k m)) [ inl n ↦ rw n refl | inr (v, s) ↦ rw s refl ])
        ])

  slot_back :
      (o : Option ℕ) (k : ℕ) (m : GoMap ℕ V) → get k (restore (slots o) m (drop_slot o m)) ≡ get k m
  unfolding slots drop_slot
  slot_back none k m = unfold restore in refl
  slot_back (some id) k m =
      rw (get-restore (id ∷ []) k m (delete id m), get-delete id k m)
        (elim (Bool-cases (id == k)) [
          | inr f ↦ rw f refl
          | inl t ↦
              rw t (elim (Option-cases (get k m)) [ inl n ↦ rw n refl | inr (v, s) ↦ rw s refl ])
        ])

SameState-refl : (a : MetaServer) → SameState a a
SameState-refl a = record {
  nodes = λ i. refl;
  users = λ u. refl;
  orphans = λ u. refl;
  shared = refl;
}

take_back-release :
    (t : Target) (us : List String) (ms : MetaServer)
    → SameState (take_back t us ms (release t us ms)) ms
unfolding take_back release
take_back-release t us ms = record {
  nodes = λ id. slot_back t.1 id ms.fileservers;
  users = λ u. put_back us u ms.users;
  orphans = λ u. put_back us u ms.orphaned_users;
  shared = refl;
}

target-rollback :
    (accepted : ℕ) (t : Target) (ms : MetaServer) (e : RouteError)
    → (deregister_target accepted t ms).0 ≡ failure e
    → SameState (deregister_target accepted t ms).1 ms
unfolding deregister_target
target-rollback accepted t ms e h =
    elim (Bool-cases (not (is_some t.1) && is_empty (released t ms))) [
      | inl idle ↦ rw idle (SameState-refl ms)
      | inr busy ↦ elim (Bool-cases (run_writes accepted (release_writes t (released t ms))).0) [
        | inl ok ↦ cc (rw (busy, ok) at h)
        | inr bad ↦ rw (busy, bad) (take_back-release t (released t ms) ms)
      ]
    ]

-- A deregistration that reports a failure, at whichever write the store stopped, leaves every node,
-- user, orphan and shared root as it was.
pub deregister-rollback :
    (accepted : ℕ) (fs_id address : String) (ms : MetaServer) (e : RouteError)
    → (deregister accepted fs_id address ms).0 ≡ failure e
    → SameState (deregister accepted fs_id address ms).1 ms
unfolding deregister
deregister-rollback accepted fs_id address ms e h =
    elim (Bool-cases (fs_id == "" && address == "")) [
      | inl t ↦ rw t (SameState-refl ms)
      | inr f ↦ rw f (target-rollback accepted (target fs_id address ms) ms e (rw f at h))
    ]

-- What is left after a node was deregistered: the node and everybody who leaves with it are gone, and
-- every other node, user and orphan is as it was.
abbrev pub Cleared : Option ℕ → String → MetaServer → MetaServer → Type 0
Cleared slot node ms after =
    ((id : ℕ)
      → get id after.fileservers ≡ (if maps_to slot (some id) then none else get id ms.fileservers))
    × ((u : String) → get u after.users ≡ (if leaves slot node ms u then none else get u ms.users))
    × ((u : String)
        → get u after.orphaned_users
          ≡ (if leaves slot node ms u then none else get u ms.orphaned_users))

slot_gone :
    (slot : Option ℕ) (id : ℕ) (m : GoMap ℕ FileServerInfo)
    → get id (drop_slot slot m) ≡ (if maps_to slot (some id) then none else get id m)
unfolding drop_slot
slot_gone none id m = refl
slot_gone (some j) id m = ground (arith, get-delete j id m, ==_iff j id, ==_iff id j)

release-Cleared :
    (t : Target) (ms : MetaServer)
    → IsMap ms.users
    → IsMap ms.orphaned_users
    → Cleared t.1 t.0 ms (release t (released t ms) ms)
unfolding release
release-Cleared t ms users orphans = (
  λ id. slot_gone t.1 id ms.fileservers,
  λ u. rw (← contains-released u t ms users orphans) (get-delete_all (released t ms) u ms.users),
  λ u.
      rw (← contains-released u t ms users orphans)
        (get-delete_all (released t ms) u ms.orphaned_users),
)

idle-Cleared :
    (t : Target) (ms : MetaServer)
    → IsMap ms.users
    → IsMap ms.orphaned_users
    → (not (is_some t.1) && is_empty (released t ms)) ≡ true
    → Cleared t.1 t.0 ms ms
idle-Cleared (node, some slot) ms users orphans h = cc
idle-Cleared (node, none) ms users orphans h =
    let t : Target = (node, none) in
    let stays : (u : String) → leaves none node ms u ≡ false = λ u.
      sym (contains-released u t ms users orphans) ∙ ap (contains u) (nobody (released t ms) h) in
    (λ id. refl, λ u. rw (stays u) refl, λ u. rw (stays u) refl)
  where
    nobody : (us : List String) → is_empty us ≡ true → us ≡ []
    nobody [] i = refl
    nobody (u ∷ us) i = cc

-- A deregistration that reports success, on tables that hold each key once, frees the slot of the
-- node that the request names by identity or else by address, if one is registered. Exactly the users
-- who map to that slot, and the orphans of its identity, which is the one that was given if none is
-- registered, lose their homes and markers. Every other node, home and marker is as it was.
pub deregister-released :
    (accepted : ℕ) (fs_id address : String) (ms : MetaServer)
    → IsMap ms.fileservers
    → IsMap ms.users
    → IsMap ms.orphaned_users
    → (deregister accepted fs_id address ms).0 ≡ success tt
    → (slot : Option ℕ) × (node : String) × IsMeant fs_id address ms slot node
      × Cleared slot node ms (deregister accepted fs_id address ms).1
unfolding deregister deregister_target
deregister-released accepted fs_id address ms nodes users orphans h =
    let t = target fs_id address ms in
    elim (Bool-cases (fs_id == "" && address == "")) [
      | inl none_given ↦ cc (rw none_given at h)
      | inr given ↦
          let meant = target-IsMeant fs_id address ms nodes given in
          elim (Bool-cases (not (is_some t.1) && is_empty (released t ms))) [
            | inl idle ↦ (t.1, t.0, meant, rw (given, idle) (idle-Cleared t ms users orphans idle))
            | inr busy ↦
                elim (Bool-cases (run_writes accepted (release_writes t (released t ms))).0) [
                  | inl ok ↦
                      (t.1, t.0, meant, rw (given, busy, ok) (release-Cleared t ms users orphans))
                  | inr bad ↦ cc (rw (given, busy, bad) at h)
                ]
          ]
    ]
