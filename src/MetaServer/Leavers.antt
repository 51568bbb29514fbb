-- ===== src/MetaServer/Leavers.antt =====
-- Which node a deregistration means, and who leaves with it, described apart from the handler.
use distributed_virtual_file.Prelude.{
  ℕ, String, ◌≡◌, refl, ◌∙◌, Bool, true, false, not, ◌&&◌, ◌||◌, Option, none, some, List, [], ◌∷◌,
  ◌++◌, arith, if◌then◌else◌, ◌==◌, ==_iff, string_eq, nat_eq, Bool-cases, Option-cases, inl, inr,
  contains,
}
use distributed_virtual_file.GoMap.{GoMap, IsMap, get, equals, contains-keys-keep}
use distributed_virtual_file.MetaServer.{
  FileServerInfo, MetaServer, find_by_node_id, find_by_address,
}
use distributed_virtual_file.MetaServer.Lookup.{
  find_by_node_id-Holds, find_by_node_id-none, find_by_address-Holds, find_by_address-none,
}
use distributed_virtual_file.MetaServer.Deregister.{
  Target, at_slot, target, users_on, orphans_of, released,
}

-- A request names a node by its identity, and by its address when it gives no identity.
abbrev pub is_named : String → String → FileServerInfo → Bool
is_named fs_id address info = if fs_id == "" then info.address == address else info.node_id == fs_id

-- The node that a request means: the entry of a slot that it names, or, when it names none, what it
-- gives as the identity.
abbrev pub IsMeant : String → String → MetaServer → Option ℕ → String → Type 0
IsMeant fs_id address ms (some id) node =
    (info : FileServerInfo) × (get id ms.fileservers ≡ some info)
    × (info.node_id ≡ node)
    × (is_named fs_id address info ≡ true)
IsMeant fs_id address ms none node =
    (node ≡ fs_id)
    × ((id : ℕ) (info : FileServerInfo)
        → get id ms.fileservers ≡ some info
        → is_named fs_id address info ≡ false)

-- A user leaves who maps to the slot, or whose orphan marker is the identity, unless that is empty.
abbrev pub maps_to : Option ℕ → Option ℕ → Bool
maps_to none home = false
maps_to (some id) home = equals id home

abbrev pub leaves : Option ℕ → String → MetaServer → String → Bool
leaves slot node ms user =
    maps_to slot (get user ms.users)
    || (not (node == "") && equals node (get user ms.orphaned_users))

by_identity :
    (fs_id address : String) (ms : MetaServer)
    → IsMap ms.fileservers
    → (fs_id == "") ≡ false
    → IsMeant fs_id address ms (find_by_node_id fs_id ms) fs_id
by_identity fs_id address ms d given = elim (Option-cases (find_by_node_id fs_id ms)) [
  | inl e ↦ rw e (refl, λ id info g. rw given (find_by_node_id-none fs_id ms id info given e g))
  | inr (id, e) ↦
      let (info, g, named) = find_by_node_id-Holds fs_id ms id d e in
      rw e (info, g, (==_iff info.node_id fs_id).0 named, rw given named)
]

by_address :
    (address : String) (ms : MetaServer)
    → IsMap ms.fileservers
    → (address == "") ≡ false
    → IsMeant "" address ms (target "" address ms).1 (target "" address ms).0
unfolding target at_slot
by_address address ms d given = elim (Option-cases (find_by_address address ms)) [
  | inl e ↦ rw e (refl, λ id info g. find_by_address-none address ms id info given e g)
  | inr (id, e) ↦
      let (info, g, named) = find_by_address-Holds address ms id d e in
      rw (e, g, at_slot) (info, g, refl, named)
]

pub target-IsMeant :
    (fs_id address : String) (ms : MetaServer)
    → IsMap ms.fileservers
    → (fs_id == "" && address == "") ≡ false
    → IsMeant fs_id address ms (target fs_id address ms).1 (target fs_id address ms).0
target-IsMeant fs_id address ms d given = elim (Bool-cases (fs_id == "")) [
  | inr f ↦ unfold target in rw f (by_identity fs_id address ms d f)
  | inl t ↦
      let empty : fs_id ≡ "" = (==_iff fs_id "").0 t in
      rw empty (by_address address ms d (rw t at given))
]

contains-both :
    (u : String) (xs ys : List String) → contains u (xs ++ ys) ≡ (contains u xs || contains u ys)
contains-both u [] ys = refl
contains-both u (x ∷ xs) ys = ground (arith, contains-both u xs ys)

contains-users_on :
    (u : String) (slot : Option ℕ) (m : GoMap String ℕ)
    → IsMap m
    → contains u (users_on slot m) ≡ maps_to slot (get u m)
unfolding users_on
contains-users_on u none m d = refl
contains-users_on u (some id) m d = contains-keys-keep id u m d

contains-orphans_of :
    (u node : String) (m : GoMap String String)
    → IsMap m
    → contains u (orphans_of node m) ≡ (not (node == "") && equals node (get u m))
unfolding orphans_of
contains-orphans_of u node m d = elim (Bool-cases (node == "")) [
  | inl t ↦ rw t refl
  | inr f ↦ rw f (contains-keys-keep node u m d)
]

pub contains-released :
    (u : String) (t : Target) (ms : MetaServer)
    → IsMap ms.users
    → IsMap ms.orphaned_users
    → contains u (released t ms) ≡ leaves t.1 t.0 ms u
unfolding released
contains-released u t ms du dor =
    contains-both u (users_on t.1 ms.users) (orphans_of t.0 ms.orphaned_users)
    ∙ rw (contains-users_on u t.1 ms.users du, contains-orphans_of u t.0 ms.orphaned_users dor) refl
