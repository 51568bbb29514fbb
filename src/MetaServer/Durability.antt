-- ===== src/MetaServer/Durability.antt =====
-- The views of the metaserver against the durable record of the in-process store: the writes that
-- the handlers send keep the two in step.
use distributed_virtual_file.Prelude.{
  String, ◌≡◌, sym, ap, ◌∙◌, Bool, true, not, ◌&&◌, ◌||◌, none, List, [], ◌∷◌, arith, string_eq,
  Bool-cases, Option-cases, inl, inr,
}
use distributed_virtual_file.GoMap.{get, is_some}
use distributed_virtual_file.MetaStore
use distributed_virtual_file.MetaStore.{
  ShareKey, ShareRecord, share_key_eq, normalize_share_path, live, put_share, share_key, normalized,
  add_share, remove_share,
}
use distributed_virtual_file.MetaStore.Paths.{normalize-normalize}
use distributed_virtual_file.MetaStore.Sharing.{get-add_share, get-remove_share}
use distributed_virtual_file.MetaStore.Calls.{Call, after}
use distributed_virtual_file.MetaServer.{MetaServer, contains_share, roots_of}
use distributed_virtual_file.MetaServer.Roots.{both_known, share_new, root_share, root_unshare}
use distributed_virtual_file.MetaServer.Visibility.{
  root_share-new, root_share-known, root_share-unknown, root_unshare-unknown, root_share-visible,
  root_unshare-visible, is_target,
}

-- The store after the writes of a handler, all of which succeed.
unfoldable pub persist : List Call → MetaStore.Store → MetaStore.Store
persist [] s = s
persist (c ∷ cs) s = persist cs (after live c s)

abbrev pub stored_share : String → String → String → MetaStore.Store → Bool
stored_share grantee owner path s = is_some (
    get (let k : ShareKey = record { grantee = grantee; owner = owner; path = path } in k) s.shares)

-- A user sees exactly the shares that the store records for them.
abbrev pub Agrees : MetaServer → MetaStore.Store → Type 0
Agrees ms s =
    (grantee owner path : String)
    → contains_share owner path (roots_of grantee ms) ≡ stored_share grantee owner path s

module _ (owner name root_path share_with : String) (ms : MetaServer) (s : MetaStore.Store) where
  abbrev norm : String
  norm = normalize_share_path root_path

  abbrev sent : ShareRecord
  sent = record { grantee = share_with; owner = owner; path = norm; display_name = name }

  stored-new :
      (v o p : String)
      → stored_share v o p (persist (share_new true owner name norm share_with ms).2 s)
        ≡ stored_share v o p s || is_target owner name root_path share_with ms v o p
  unfolding share_new persist after
  stored-new v o p =
      rw (get-add_share sent (record { grantee = v; owner = o; path = p }) s)
        (rw (normalize-normalize root_path) (ground arith))

  -- A share that the store accepts keeps the metaserver's views and the store in agreement.
  pub root_share-Agrees :
      Agrees ms s
      → Agrees
          (root_share true owner name root_path share_with ms).1
          (persist (root_share true owner name root_path share_with ms).2 s)
  unfolding persist
  root_share-Agrees a v o p = elim (Option-cases (both_known owner share_with ms)) [
    | inr (e, unknown) ↦
        rw (root_share-unknown owner name root_path share_with ms true e unknown) (a v o p)
    | inl known ↦ elim (Bool-cases (contains_share owner norm (roots_of share_with ms))) [
      | inl old ↦ rw (root_share-known owner name root_path share_with ms true known old) (a v o p)
      | inr fresh ↦
          root_share-visible owner name root_path share_with ms v o p known
          ∙ ap (λ b. b || is_target owner name root_path share_with ms v o p) (a v o p)
          ∙ sym (
              rw (root_share-new owner name root_path share_with ms true known fresh)
                (stored-new v o p))
    ]
  ]

  stored-removed :
      (v o p : String)
      → both_known owner share_with ms ≡ none
      → stored_share v o p (persist (root_unshare true owner root_path share_with ms).2 s)
        ≡ stored_share v o p s && not (is_target owner name root_path share_with ms v o p)
  unfolding root_unshare persist after
  stored-removed v o p known =
      rw (known, root_unshare)
        (rw (get-remove_share share_with owner norm (record { grantee = v; owner = o; path = p }) s)
          (rw (normalize-normalize root_path) (ground arith)))

  -- A revocation that the store accepts keeps the metaserver's views and the store in agreement.
  pub root_unshare-Agrees :
      Agrees ms s
      → Agrees
          (root_unshare true owner root_path share_with ms).1
          (persist (root_unshare true owner root_path share_with ms).2 s)
  unfolding persist
  root_unshare-Agrees a v o p = elim (Option-cases (both_known owner share_with ms)) [
    | inr (e, unknown) ↦
        rw (root_unshare-unknown owner name root_path share_with ms true e unknown) (a v o p)
    | inl known ↦
        root_unshare-visible owner name root_path share_with ms true v o p known
        ∙ ap (λ b. b && not (is_target owner name root_path share_with ms v o p)) (a v o p)
        ∙ sym (stored-removed v o p known)
  ]
