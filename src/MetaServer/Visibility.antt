-- ===== src/MetaServer/Visibility.antt =====
-- Sharing and revoking as the grantee sees it, and what a store that fails leaves behind.
use distributed_virtual_file.Prelude.{
  String, ◌≡◌, refl, ap, subst, Bool, true, false, not, ◌&&◌, ◌||◌, none, some, List, [], ◌∷◌, ◌++◌,
  arith, if◌then◌else◌, ◌==◌, ==_iff, ==_refl, string_eq, nat_eq, Bool-cases, inl, inr, any, keep,
  append-nil,
}
use distributed_virtual_file.GoMap.{get_or-insert}
use distributed_virtual_file.MetaStore.{normalize_share_path}
use distributed_virtual_file.MetaServer.{
  SharedDirEntry, MetaServer, is_share, contains_share, remove_share_entry, roots_of,
}
use distributed_virtual_file.MetaServer.Roots.{
  success, failure, RouteError, set_roots, both_known, share_new, root_share, root_unshare,
}

any-append :
    (p : SharedDirEntry → Bool) (xs ys : List SharedDirEntry)
    → any p (xs ++ ys) ≡ any p xs || any p ys
any-append p [] ys = refl
any-append p (x ∷ xs) ys = ground (arith, any-append p xs ys)

pub or_false : (b : Bool) → b ≡ b || false
or_false true = refl
or_false false = refl

keep-none :
    (p : SharedDirEntry → Bool) (xs : List SharedDirEntry)
    → any p xs ≡ false
    → keep (λ e. not (p e)) xs ≡ xs
keep-none p [] h = refl
keep-none p (x ∷ xs) h = ground (arith, keep-none p xs)

any-keep :
    (p : SharedDirEntry → Bool) (xs : List SharedDirEntry)
    → any p (keep (λ e. not (p e)) xs) ≡ false
any-keep p [] = refl
any-keep p (x ∷ xs) = ground (arith, any-keep p xs)

keep-append :
    (p : SharedDirEntry → Bool) (xs ys : List SharedDirEntry)
    → keep p (xs ++ ys) ≡ keep p xs ++ keep p ys
keep-append p [] ys = refl
keep-append p (x ∷ xs) ys = ground (arith, keep-append p xs ys)

pub roots-set_roots :
    (u v : String) (roots : List SharedDirEntry) (ms : MetaServer)
    → roots_of v (set_roots u roots ms) ≡ (if u == v then roots else roots_of v ms)
unfolding roots_of set_roots
roots-set_roots u v roots ms = get_or-insert u v roots [] ms.shared

-- The entry that a share adds.
abbrev pub entry_of : String → String → String → SharedDirEntry
entry_of owner name path = record { owner = owner; path = path; display_name = name }

entry-is_share : (owner name path : String) → is_share owner path (entry_of owner name path) ≡ true
entry-is_share owner name path = rw (==_refl owner, ==_refl path) refl

-- Taking the entry out again gives back a list that did not hold the share.
remove-appended :
    (owner name path : String) (roots : List SharedDirEntry)
    → contains_share owner path roots ≡ false
    → remove_share_entry owner path (roots ++ entry_of owner name path ∷ []) ≡ roots
unfolding contains_share remove_share_entry
remove-appended owner name path roots h =
    rw (keep-append (λ e. not (is_share owner path e)) roots (entry_of owner name path ∷ [])) (
      rw (keep-none (is_share owner path) roots h)
        (rw (entry-is_share owner name path) append_none))
  where
    append_none : roots ++ [] ≡ roots
    append_none = append-nil roots

module _ (owner name root_path share_with : String) (ms : MetaServer) where
  abbrev norm : String
  norm = normalize_share_path root_path

  any-removed :
      (o p : String) (roots : List SharedDirEntry)
      → contains_share o p (remove_share_entry owner norm roots)
        ≡ contains_share o p roots && not (owner == o && norm == p)
  unfolding contains_share remove_share_entry
  any-removed o p [] = refl
  any-removed o p (x ∷ xs) = ground (
    arith,
    any-removed o p xs,
    ==_iff x.owner owner,
    ==_iff x.path norm,
    ==_iff x.owner o,
    ==_iff x.path p,
    ==_iff owner o,
    ==_iff norm p,
  )

  -- The two ways in which a share does nothing, and the one in which it adds the entry.
  pub root_share-new :
      (stored : Bool)
      → both_known owner share_with ms ≡ none
      → contains_share owner norm (roots_of share_with ms) ≡ false
      → root_share stored owner name root_path share_with ms
        ≡ share_new stored owner name norm share_with ms
  unfolding root_share
  root_share-new stored known fresh = rw (known, fresh, root_share) refl

  pub root_share-known :
      (stored : Bool)
      → both_known owner share_with ms ≡ none
      → contains_share owner norm (roots_of share_with ms) ≡ true
      → root_share stored owner name root_path share_with ms ≡ (success tt, ms, [])
  unfolding root_share
  root_share-known stored known old = rw (known, old, root_share) refl

  pub root_share-unknown :
      (stored : Bool) (e : RouteError)
      → both_known owner share_with ms ≡ some e
      → root_share stored owner name root_path share_with ms ≡ (failure e, ms, [])
  unfolding root_share
  root_share-unknown stored e h = rw (h, root_share) refl

  pub root_unshare-unknown :
      (stored : Bool) (e : RouteError)
      → both_known owner share_with ms ≡ some e
      → root_unshare stored owner root_path share_with ms ≡ (failure e, ms, [])
  unfolding root_unshare
  root_unshare-unknown stored e h = rw (h, root_unshare) refl

  -- The share that the call is about.
  abbrev pub is_target : String → String → String → Bool
  is_target v o p = share_with == v && (owner == o && norm == p)

  target-eq :
      (v o p : String) → is_target v o p ≡ true → (share_with ≡ v) × (owner ≡ o) × (norm ≡ p)
  target-eq v o p h = ground (arith, ==_iff share_with v, ==_iff owner o, ==_iff norm p)

  target-contained :
      (v o p : String)
      → contains_share owner norm (roots_of share_with ms) ≡ true
      → contains_share o p (roots_of v ms) ≡ contains_share o p (roots_of v ms) || is_target v o p
  target-contained v o p old = elim (Bool-cases (is_target v o p)) [
    | inl t ↦
        let q = target-eq v o p t in
        let there : contains_share o p (roots_of v ms) ≡ true =
          subst (λ w. contains_share o p (roots_of w ms) ≡ true) q.0
            (subst (λ w. contains_share w p (roots_of share_with ms) ≡ true) q.1
              (subst (λ w. contains_share owner w (roots_of share_with ms) ≡ true) q.2 old)) in
        rw there refl
    | inr f ↦ rw f (or_false (contains_share o p (roots_of v ms)))
  ]

  added :
      (v o p : String)
      → contains_share o p (roots_of v (share_new true owner name norm share_with ms).1)
        ≡ contains_share o p (roots_of v ms) || is_target v o p
  unfolding share_new contains_share
  added v o p =
      rw (roots-set_roots share_with v (roots_of share_with ms ++ entry_of owner name norm ∷ []) ms)
        (elim (Bool-cases (share_with == v)) [
          | inl t ↦ rw t (
              rw
                (any-append (is_share o p) (roots_of share_with ms) (entry_of owner name norm ∷ []))
                (rw (← ((==_iff share_with v).0 t)) (ground arith)))
          | inr f ↦ rw f (or_false (any (is_share o p) (roots_of v ms)))
        ])

  -- After a share between known users that the store accepts, every user sees what they saw
  -- before, and the grantee sees the shared directory under its normalised path as well.
  pub root_share-visible :
      (v o p : String)
      → both_known owner share_with ms ≡ none
      → contains_share o p (roots_of v (root_share true owner name root_path share_with ms).1)
        ≡ contains_share o p (roots_of v ms) || is_target v o p
  root_share-visible v o p known =
      elim (Bool-cases (contains_share owner norm (roots_of share_with ms))) [
        | inl old ↦ rw (root_share-known true known old) (target-contained v o p old)
        | inr fresh ↦ rw (root_share-new true known fresh) (added v o p)
      ]

  -- A new share between known users that the store refuses leaves every user's view as it was.
  pub root_share-rollback :
      (v : String)
      → both_known owner share_with ms ≡ none
      → contains_share owner norm (roots_of share_with ms) ≡ false
      → roots_of v (root_share false owner name root_path share_with ms).1 ≡ roots_of v ms
  unfolding share_new
  root_share-rollback v known fresh = rw (root_share-new false known fresh) (
      let grown = roots_of share_with ms ++ entry_of owner name norm ∷ [] in
      let ms' = set_roots share_with grown ms in
      rw
        (roots-set_roots share_with v (remove_share_entry owner norm (roots_of share_with ms')) ms')
        (rw (roots-set_roots share_with share_with grown ms) (
          rw (roots-set_roots share_with v grown ms) (
            rw (==_refl share_with) (
              rw (remove-appended owner name norm (roots_of share_with ms) fresh)
                (elim (Bool-cases (share_with == v)) [
                  | inl t ↦ rw t (ap (λ w. roots_of w ms) ((==_iff share_with v).0 t))
                  | inr f ↦ rw f refl
                ]))))))

  -- A revocation between known users takes the directory out of the grantee's view, under any
  -- spelling of its path, and leaves every other share; also when the store fails.
  pub root_unshare-visible :
      (stored : Bool) (v o p : String)
      → both_known owner share_with ms ≡ none
      → contains_share o p (roots_of v (root_unshare stored owner root_path share_with ms).1)
        ≡ contains_share o p (roots_of v ms) && not (is_target v o p)
  unfolding root_unshare
  root_unshare-visible stored v o p known =
      rw (known, root_unshare)
        (rw
          (roots-set_roots share_with v (remove_share_entry owner norm (roots_of share_with ms)) ms)
          (elim (Bool-cases (share_with == v)) [
            | inl t ↦
                rw t (rw (← ((==_iff share_with v).0 t)) (any-removed o p (roots_of share_with ms)))
            | inr f ↦ rw f (and_true (contains_share o p (roots_of v ms)))
          ]))
    where
      and_true : (b : Bool) → b ≡ b && true
      and_true true = refl
      and_true false = refl
