-- ===== src/MetaServer/Lookup.antt =====
-- findByNodeIDLocked and findByAddressLocked of internal/metaserver against the table that they scan.
use distributed_virtual_file.Prelude.{
  ℕ, String, ◌≡◌, refl, sym, subst, Bool, true, false, none, some, [], ◌∷◌, ◌==◌, ==_iff, string_eq,
  nat_eq, Bool-cases, inl, inr, In,
}
use distributed_virtual_file.GoMap.{GoMap, IsMap, get, keys, get-In}
use distributed_virtual_file.MetaServer.{
  FileServerInfo, MetaServer, find_server, find_by_node_id, find_by_address,
}

-- The entry of a slot, which passes a test.
abbrev pub Holds : (FileServerInfo → Bool) → GoMap ℕ FileServerInfo → ℕ → Type 0
Holds p m id = (info : FileServerInfo) × (get id m ≡ some info) × (p info ≡ true)

pub find_server-Holds :
    (p : FileServerInfo → Bool) (m : GoMap ℕ FileServerInfo) (id : ℕ)
    → IsMap m
    → find_server p m ≡ some id
    → Holds p m id
unfolding find_server get
find_server-Holds p [] id d h = cc
find_server-Holds p ((j, info) ∷ m) id d h = elim (Bool-cases (p info)) [
  | inl t ↦ let same : j ≡ id = cc (rw t at h) in (info, rw ((==_iff j id).1 same) refl, t)
  | inr f ↦
      let r = find_server-Holds p m id d.1 (rw f at h) in
      elim (Bool-cases (j == id)) [
        | inl t ↦
            absurd (d.0 (subst (λ z. In z (keys m)) (sym ((==_iff j id).0 t)) (get-In id m r.1)))
        | inr g ↦ (r.0, rw g r.1, r.2)
      ]
]

pub find_server-none :
    (p : FileServerInfo → Bool) (m : GoMap ℕ FileServerInfo) (id : ℕ) (info : FileServerInfo)
    → find_server p m ≡ none
    → get id m ≡ some info
    → p info ≡ false
unfolding find_server get
find_server-none p [] id info h g = cc
find_server-none p ((j, x) ∷ m) id info h g = elim (Bool-cases (p x)) [
  | inl t ↦ cc (rw t at h)
  | inr f ↦ elim (Bool-cases (j == id)) [
    | inl t ↦ let same : x ≡ info = cc (rw t at g) in rw (← same) f
    | inr n ↦ find_server-none p m id info (rw f at h) (rw n at g)
  ]
]

pub find_by_node_id-Holds :
    (n : String) (ms : MetaServer) (id : ℕ)
    → IsMap ms.fileservers
    → find_by_node_id n ms ≡ some id
    → Holds (λ info. info.node_id == n) ms.fileservers id
unfolding find_by_node_id
find_by_node_id-Holds n ms id d h = elim (Bool-cases (n == "")) [
  | inl t ↦ cc (rw t at h)
  | inr f ↦ find_server-Holds _ ms.fileservers id d (rw f at h)
]

pub find_by_address-Holds :
    (a : String) (ms : MetaServer) (id : ℕ)
    → IsMap ms.fileservers
    → find_by_address a ms ≡ some id
    → Holds (λ info. info.address == a) ms.fileservers id
unfolding find_by_address
find_by_address-Holds a ms id d h = elim (Bool-cases (a == "")) [
  | inl t ↦ cc (rw t at h)
  | inr f ↦ find_server-Holds _ ms.fileservers id d (rw f at h)
]

pub find_by_node_id-none :
    (n : String) (ms : MetaServer) (id : ℕ) (info : FileServerInfo)
    → (n == "") ≡ false
    → find_by_node_id n ms ≡ none
    → get id ms.fileservers ≡ some info
    → (info.node_id == n) ≡ false
unfolding find_by_node_id
find_by_node_id-none n ms id info f h g =
    find_server-none (λ x. x.node_id == n) ms.fileservers id info (rw f at h) g

pub find_by_address-none :
    (a : String) (ms : MetaServer) (id : ℕ) (info : FileServerInfo)
    → (a == "") ≡ false
    → find_by_address a ms ≡ none
    → get id ms.fileservers ≡ some info
    → (info.address == a) ≡ false
unfolding find_by_address
find_by_address-none a ms id info f h g =
    find_server-none (λ x. x.address == a) ms.fileservers id info (rw f at h) g
