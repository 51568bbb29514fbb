-- ===== src/MetaServer/Boot/Homes.antt =====
-- Where the boot puts the users of the snapshot.
use distributed_virtual_file.Prelude.{
  Bool, true, false, ℕ, String, ◌≡◌, ◌≢◌, refl, sym, ap, ◌∙◌, Option, none, some, List, [], ◌∷◌,
  map, if◌then◌else◌, ◌==◌, ==_iff, ==_refl, string_eq, Bool-cases, Option-cases, inl, inr, In,
  Distinct,
}
use distributed_virtual_file.GoMap.{GoMap, or_else, get, insert, get-insert}
use distributed_virtual_file.MetaStore.{FileServerRecord, UserRecord}
use distributed_virtual_file.MetaServer.Boot.{
  MetaSnapshot, Homes, node_numbers, load_user, load_users, hydrate,
}

abbrev pub usernames : List UserRecord → List String
usernames us = map (λ (u : UserRecord). u.username) us

-- One user's home and orphan marker.
abbrev At : String → Option ℕ → Option String → Homes → Type 0
At name id home h = (get name h.0 ≡ id) × (get name h.1 ≡ home)

load_user_other :
    (numbers : GoMap String ℕ) (u : UserRecord) (name : String) (id : Option ℕ)
    (home : Option String) (h : Homes)
    → u.username ≢ name
    → At name id home h
    → At name id home (load_user numbers u h)
unfolding load_user
load_user_other numbers u name id home h other at =
    elim (Option-cases (get u.home_node_id numbers)) [
      | inl n ↦
          rw (n, load_user) (at.0, get-insert u.username name u.home_node_id h.1 ∙ skip _ _ ∙ at.1)
      | inr (i, s) ↦ rw (s, load_user) (get-insert u.username name i h.0 ∙ skip _ _ ∙ at.0, at.1)
    ]
  where
    skip : {A : Type 0} (x y : A) → (if u.username == name then x else y) ≡ y
    skip x y = elim (Bool-cases (u.username == name)) [
      | inl t ↦ absurd (other ((==_iff u.username name).0 t))
      | inr f ↦ rw f refl
    ]

load_users_other :
    (numbers : GoMap String ℕ) (us : List UserRecord) (name : String) (id : Option ℕ)
    (home : Option String) (h : Homes)
    → ¬ In name (usernames us)
    → At name id home h
    → At name id home (load_users numbers us h)
unfolding load_users
load_users_other numbers [] name id home h out at = at
load_users_other numbers (u ∷ us) name id home h out at =
    load_users_other numbers us name id home (load_user numbers u h) (λ i. out (inr i))
      (load_user_other numbers u name id home h (λ e. out (inl (sym e))) at)

-- The orphan marker of a user whose home has the number, if any.
abbrev pub marker : String → Option ℕ → Option String
marker home none = some home
marker home (some id) = none

load_user_own :
    (numbers : GoMap String ℕ) (u : UserRecord) (h : Homes)
    → At u.username none none h
    → At u.username
        (get u.home_node_id numbers)
        (marker u.home_node_id (get u.home_node_id numbers))
        (load_user numbers u h)
unfolding load_user
load_user_own numbers u h at = elim (Option-cases (get u.home_node_id numbers)) [
  | inl n ↦
      rw (n, load_user)
        (at.0, rw (get-insert u.username u.username u.home_node_id h.1, ==_refl u.username) refl)
  | inr (i, s) ↦
      rw (s, load_user) (rw (get-insert u.username u.username i h.0, ==_refl u.username) refl, at.1)
]

In-usernames : (r : UserRecord) (us : List UserRecord) → In r us → In r.username (usernames us)
In-usernames r [] i = absurd i
In-usernames r (u ∷ us) (inl e) = inl (ap (λ (x : UserRecord). x.username) e)
In-usernames r (u ∷ us) (inr i) = inr (In-usernames r us i)

load_users_lem :
    (numbers : GoMap String ℕ) (us : List UserRecord) (r : UserRecord) (h : Homes)
    → Distinct (usernames us)
    → In r us
    → At r.username none none h
    → At r.username
        (get r.home_node_id numbers)
        (marker r.home_node_id (get r.home_node_id numbers))
        (load_users numbers us h)
unfolding load_users
load_users_lem numbers [] r h d i at = absurd i
load_users_lem numbers (u ∷ us) r h d (inl e) at =
    load_users_other numbers us r.username _ _ (load_user numbers u h) (rw e d.0)
      (rw (← e) (load_user_own numbers r h at))
load_users_lem numbers (u ∷ us) r h d (inr i) at =
    load_users_lem numbers us r (load_user numbers u h) d.1 i
      (load_user_other numbers u r.username none none h (λ e. d.0 (rw e (In-usernames r us i))) at)

-- The number that the records give to a node: the one of the last record with its name.
abbrev pub number_of : String → List FileServerRecord → Option ℕ
number_of home [] = none
number_of home (rec ∷ recs) =
    or_else (number_of home recs) (if rec.node_id == home then some rec.numeric_id else none)

get-node_numbers :
    (home : String) (recs : List FileServerRecord) (m : GoMap String ℕ)
    → get home (node_numbers recs m) ≡ or_else (number_of home recs) (get home m)
unfolding node_numbers
get-node_numbers home [] m = refl
get-node_numbers home (rec ∷ recs) m =
    get-node_numbers home recs (insert rec.node_id rec.numeric_id m)
    ∙ rw (get-insert rec.node_id home rec.numeric_id m)
        (falls (number_of home recs) (rec.node_id == home))
  where
    falls :
        (o : Option ℕ) (b : Bool)
        → or_else o (if b then some rec.numeric_id else get home m)
          ≡ or_else (or_else o (if b then some rec.numeric_id else none)) (get home m)
    falls (some i) b = refl
    falls none true = refl
    falls none false = refl

numbered :
    (home : String) (recs : List FileServerRecord)
    → get home (node_numbers recs []) ≡ number_of home recs
unfolding get
numbered home recs = get-node_numbers home recs [] ∙ same (number_of home recs)
  where
    same : (o : Option ℕ) → or_else o none ≡ o
    same none = refl
    same (some i) = refl

-- After the boot a user of the snapshot, whose users are distinct, is routed to the number that the
-- records of the snapshot give to the home node, and is no orphan; if no record names the home node,
-- the user has no route and is kept as an orphan of it: nobody is lost.
pub hydrate-homes :
    (now : ℕ) (snap : MetaSnapshot) (r : UserRecord)
    → Distinct (usernames snap.users)
    → In r snap.users
    → (get r.username (hydrate now snap).users ≡ number_of r.home_node_id snap.file_servers)
      × (get r.username (hydrate now snap).orphaned_users
          ≡ marker r.home_node_id (number_of r.home_node_id snap.file_servers))
unfolding hydrate get
hydrate-homes now snap r d i =
    rw (← numbered r.home_node_id snap.file_servers)
      (load_users_lem (node_numbers snap.file_servers []) snap.users r ([], []) d i (refl, refl))
