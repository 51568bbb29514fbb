-- ===== src/MetaServer/Boot/Tables.antt =====
-- The tables after the boot against the snapshot.
use distributed_virtual_file.Prelude.{
  ℕ, suc, ◌+◌, String, ◌≡◌, refl, sym, ap, ◌∙◌, Bool, true, ◌&&◌, ◌||◌, Option, none, some, List,
  [], ◌∷◌, ◌++◌, arith, if◌then◌else◌, ◌==◌, ==_iff, string_eq, nat_eq, Bool-cases, Option-cases,
  inl, inr, any,
}
use distributed_virtual_file.GoMap.{GoMap, get, get_or, insert, get-insert, get_or-insert, keys}
use distributed_virtual_file.MetaStore.{FileServerRecord, ShareRecord}
use distributed_virtual_file.MetaServer.{
  FileServerInfo, SharedDirEntry, count_users, contains_share, is_share, roots_of,
}
use distributed_virtual_file.MetaServer.Commit.{ensure_roots}
use distributed_virtual_file.MetaServer.Boot.{
  MetaSnapshot, Nodes, info_of, load_nodes, node_numbers, load_users, count_in, count_all,
  load_shares, ensure_all, hydrate,
}

-- A slot with `n` more users, if it is taken.
abbrev grown : ℕ → Option FileServerInfo → Option FileServerInfo
grown n none = none
grown n (some info) = some (record info { user_count = info.user_count + n })

grown_zero : (o : Option FileServerInfo) → grown 0 o ≡ o
grown_zero none = refl
grown_zero (some info) =
    ap (λ (n : ℕ). some (record info { user_count = n })) (same info.user_count)
  where
    same : (n : ℕ) → n + 0 ≡ n
    same n = omega arith

grown_twice : (n : ℕ) (o : Option FileServerInfo) → grown n (grown 1 o) ≡ grown (suc n) o
grown_twice n none = refl
grown_twice n (some info) =
    ap (λ (k : ℕ). some (record info { user_count = k })) (same info.user_count)
  where
    same : (k : ℕ) → k + 1 + n ≡ k + suc n
    same k = omega arith

get-count_in :
    (j k : ℕ) (m : Nodes) → get k (count_in j m) ≡ (if j == k then grown 1 (get k m) else get k m)
unfolding count_in
get-count_in j k m = elim (Option-cases (get j m)) [
  | inl free ↦ elim (Bool-cases (j == k)) [
    | inl t ↦
        let g : get k m ≡ none = rw (← ((==_iff j k).0 t)) free in
        rw (free, count_in) (rw (t, g) refl)
    | inr f ↦ rw (free, count_in) (rw f refl)
  ]
  | inr (old, taken) ↦ elim (Bool-cases (j == k)) [
    | inl t ↦
        let g : get k m ≡ some old = rw (← ((==_iff j k).0 t)) taken in
        rw (taken, count_in)
          (rw (get-insert j k (record old { user_count = old.user_count + 1 }) m, t, g) refl)
    | inr f ↦
        rw (taken, count_in)
          (rw (get-insert j k (record old { user_count = old.user_count + 1 }) m, f) refl)
  ]
]

get-count_all :
    (users : GoMap String ℕ) (k : ℕ) (m : Nodes)
    → get k (count_all users m) ≡ grown (count_users k users) (get k m)
unfolding count_all count_users
get-count_all [] k m = sym (grown_zero (get k m))
get-count_all ((u, id) ∷ users) k m =
    rw (get-count_all users k (count_in id m), get-count_in id k m)
      (elim (Bool-cases (id == k)) [
        | inl t ↦ rw t (grown_twice (count_users k users) (get k m))
        | inr f ↦ rw f refl
      ])

abbrev count_of : Option FileServerInfo → ℕ
count_of none = 0
count_of (some info) = info.user_count

grown_from :
    (n : ℕ) (i info : FileServerInfo)
    → i.user_count ≡ 0
    → grown n (some i) ≡ some info
    → info.user_count ≡ n
grown_from n i info z e = sym (ap count_of e) ∙ ap (λ k. k + n) z ∙ same n
  where
    same : (k : ℕ) → 0 + k ≡ k
    same k = omega arith

-- Every node of the table has no user.
Empty : Nodes → Type 0
Empty m = (id : ℕ) (info : FileServerInfo) → get id m ≡ some info → info.user_count ≡ 0

load_nodes-Empty :
    (now : ℕ) (recs : List FileServerRecord) (m : Nodes) → Empty m → Empty (load_nodes now recs m)
unfolding load_nodes Empty info_of
load_nodes-Empty now [] m v = v
load_nodes-Empty now (rec ∷ recs) m v =
    load_nodes-Empty now recs (insert rec.numeric_id (info_of now rec) m) (λ id info g.
      elim (Bool-cases (rec.numeric_id == id)) [
        | inl t ↦
            let e : some (info_of now rec) ≡ some info =
              rw (get-insert rec.numeric_id id (info_of now rec) m, t) at g in
            sym (ap count_of e)
        | inr f ↦ v id info (rw (get-insert rec.numeric_id id (info_of now rec) m, f) at g)
      ])

-- After the boot each node counts exactly the users that map to it.
pub hydrate-count_users :
    (now id : ℕ) (snap : MetaSnapshot) (info : FileServerInfo)
    → get id (hydrate now snap).fileservers ≡ some info
    → info.user_count ≡ count_users id (hydrate now snap).users
unfolding hydrate Empty get
hydrate-count_users now id snap info g =
    let users = (load_users (node_numbers snap.file_servers []) snap.users ([], [])).0 in
    let table = load_nodes now snap.file_servers [] in
    elim (Option-cases (get id table)) [
      | inl free ↦ cc (rw (get-count_all users id table, free) at g)
      | inr (i, taken) ↦
          grown_from (count_users id users) i info
            (load_nodes-Empty now snap.file_servers [] (λ k x h. cc) id i taken)
            (rw (get-count_all users id table, taken) at g)
    ]

-- What the snapshot shares with a user.
abbrev pub recorded : String → String → String → List ShareRecord → Bool
recorded grantee owner path shares =
    any (λ sh. sh.grantee == grantee && (sh.owner == owner && sh.path == path)) shares

contains-append :
    (o p : String) (e : SharedDirEntry) (roots : List SharedDirEntry)
    → contains_share o p (roots ++ e ∷ []) ≡ contains_share o p roots || is_share o p e
unfolding contains_share
contains-append o p e [] = ground arith
contains-append o p e (x ∷ xs) = ground (arith, contains-append o p e xs)

join : (a b c : Bool) → (a || b) || c ≡ a || (if b then true else c)
join a b c = ground arith

load_shares_lem :
    (shares : List ShareRecord) (g o p : String) (m : GoMap String (List SharedDirEntry))
    → contains_share o p (get_or g [] (load_shares shares m))
      ≡ contains_share o p (get_or g [] m) || recorded g o p shares
unfolding load_shares
load_shares_lem [] g o p m = ground arith
load_shares_lem (sh ∷ shares) g o p m =
    let entry : SharedDirEntry = record {
      owner = sh.owner;
      path = sh.path;
      display_name = sh.display_name;
    } in
    let roots = get_or sh.grantee [] m in
    rw (load_shares_lem shares g o p (insert sh.grantee (roots ++ entry ∷ []) m)) (
      rw (get_or-insert sh.grantee g (roots ++ entry ∷ []) [] m)
        (elim (Bool-cases (sh.grantee == g)) [
          | inl t ↦
              rw (t, contains-append o p entry roots)
                (rw ((==_iff sh.grantee g).0 t) (
                  join (contains_share o p (get_or g [] m)) (is_share o p entry)
                    (recorded g o p shares)))
          | inr f ↦ rw f refl
        ]))

get_or_absent :
    (u : String) (m : GoMap String (List SharedDirEntry)) → get u m ≡ none → get_or u [] m ≡ []
unfolding get_or
get_or_absent u m e = rw (e, get_or) refl

ensure_one :
    (u g : String) (m : GoMap String (List SharedDirEntry))
    → get_or g [] (ensure_roots u m) ≡ get_or g [] m
unfolding ensure_roots
ensure_one u g m = elim (Option-cases (get u m)) [
  | inr (roots, e) ↦ rw (e, ensure_roots) refl
  | inl e ↦
      rw (e, ensure_roots)
        (rw (get_or-insert u g [] [] m) (elim (Bool-cases (u == g)) [
          | inl t ↦ rw t (sym (rw (← ((==_iff u g).0 t)) (get_or_absent u m e)))
          | inr f ↦ rw f refl
        ]))
]

ensure_lem :
    (us : List String) (g : String) (m : GoMap String (List SharedDirEntry))
    → get_or g [] (ensure_all us m) ≡ get_or g [] m
unfolding ensure_all
ensure_lem [] g m = refl
ensure_lem (u ∷ us) g m = ensure_lem us g (ensure_roots u m) ∙ ensure_one u g m

-- After the boot a user sees a shared directory just when the snapshot has a share of it with that
-- user.
pub hydrate-contains_share :
    (now : ℕ) (snap : MetaSnapshot) (grantee owner path : String)
    → contains_share owner path (roots_of grantee (hydrate now snap))
      ≡ recorded grantee owner path snap.shares
unfolding hydrate roots_of contains_share get_or get
hydrate-contains_share now snap g o p =
    rw
      (ensure_lem (keys (load_users (node_numbers snap.file_servers []) snap.users ([], [])).0) g
        (load_shares snap.shares []))
      (load_shares_lem snap.shares g o p [])
