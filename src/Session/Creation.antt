-- ===== src/Session/Creation.antt =====
-- What CreateSession stores, and that the token it stored is accepted.
use distributed_virtual_file.Prelude.{
  ℕ, String, ◌≡◌, refl, ◌∙◌, some, inl, inr, List, [], ◌∷◌, arith, string_eq, Bool-cases,
  Option-cases, length, leb,
}
use distributed_virtual_file.GoMap.{get, get-insert_self}
use distributed_virtual_file.Session.{
  Session, Store, Result, ok, make_room, purge_expired, purge_all, purge_one, expired_hashes,
  evict_oldest, remove_previous, create_session, create_locked, new_session, add_session,
}
use distributed_virtual_file.Session.Drops.{purge_one-Drops}
use distributed_virtual_file.Session.Slices.{config-remove}

ttl-purge_all : (hs : List String) (s : Store) → (purge_all hs s).idle_ttl ≡ s.idle_ttl
unfolding purge_all
ttl-purge_all [] s = refl
ttl-purge_all (h ∷ hs) s = ttl-purge_all hs (purge_one h s) ∙ (purge_one-Drops h s).same_ttl

ttl-make_room : (now : ℕ) (s : Store) → (make_room now s).idle_ttl ≡ s.idle_ttl
unfolding make_room purge_expired
ttl-make_room now s = ground (arith, ttl-purge_all (expired_hashes now s) s)

ttl-evict : (u : String) (s : Store) → (evict_oldest u s).idle_ttl ≡ s.idle_ttl
unfolding evict_oldest
ttl-evict u s = ground arith

ttl-previous : (u c : String) (s : Store) → (remove_previous u c s).idle_ttl ≡ s.idle_ttl
unfolding remove_previous
ttl-previous u c s = elim (Option-cases (get c s.client_index)) [
  | inl e ↦ rw (e, remove_previous) refl
  | inr (prev, e) ↦ rw (e, remove_previous) ((config-remove u prev _).2)
]

ttl-add : (x : Session) (s : Store) → (add_session x s).idle_ttl ≡ s.idle_ttl
unfolding add_session
ttl-add x s = refl

get-add : (x : Session) (s : Store) → get x.hash_id (add_session x s).sessions ≡ some x
unfolding add_session
get-add x s = get-insert_self x.hash_id x s.sessions

-- CreateSession either refuses for want of room, or stores the session under its hash.
pub create_locked-stored :
    (x : Session) (now : ℕ) (s : Store) (y : Session)
    → (create_locked x now s).0 ≡ ok y
    → (y ≡ x)
      × (get x.hash_id (create_locked x now s).1.sessions ≡ some x)
      × ((create_locked x now s).1.idle_ttl ≡ s.idle_ttl)
unfolding create_locked
create_locked-stored x now s y e =
    let r = make_room now s in
    elim (Bool-cases (leb r.global_limit (length r.sessions))) [
      | inl t ↦ cc (rw t at e)
      | inr f ↦
          let room = evict_oldest x.username r in
          let clear = remove_previous x.username x.client_id room in
          (
            cc (rw f at e),
            rw f (get-add x clear),
            rw f (
                ttl-add x clear
                ∙ ttl-previous x.username x.client_id room
                ∙ ttl-evict x.username r
                ∙ ttl-make_room now s),
          )
    ]

module _ (hash_sst : String → String)
    (raw username client_id peer_addr callback_addr root_fid : String) (absolute_exp now : ℕ)
    (s : Store) where
  abbrev created : Result Session × Store
  created =
      create_session hash_sst raw username client_id peer_addr callback_addr root_fid absolute_exp
        now s

  abbrev candidate : Session
  candidate =
      new_session hash_sst raw username client_id peer_addr callback_addr root_fid absolute_exp now
