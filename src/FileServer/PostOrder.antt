-- ===== src/FileServer/PostOrder.antt =====
-- DeleteFile's traversal of internal/fileserver/fileserver.go: what it visits, and that the validation
-- before it has seen all of it.
use distributed_virtual_file.Prelude.{
  ℕ, zero, suc, ◌≤◌, String, ◌≡◌, ◌↔◌, refl, Bool, true, false, Option, none, some, List, [], ◌∷◌,
  ◌==◌, ==_iff, string_eq, Bool-cases, Option-cases, inl, inr, In, is_empty, In-append_left,
  In-append_last, In-append_cases,
}
use distributed_virtual_file.GoMap.{get}
use distributed_virtual_file.FileServer.{Fid, fid_eq, Inode, Inodes, is_directory}
use distributed_virtual_file.FileServer.Tree.{
  gather, post_order, DeleteError, first_error, validate_delete,
}
use distributed_virtual_file.FileServer.Subtree.{
  Below, here, down, Ends, gather-Source, Source-gather, Visits, Ends-mono,
}

post_order-Visits :
    (fuel : ℕ) (m : Inodes) (x z : Inode)
    → In z (post_order (suc fuel) m x)
    → Visits m (post_order fuel m) x z
unfolding post_order
post_order-Visits fuel m x z i = elim (Bool-cases (is_directory x.kind)) [
  | inl t ↦
      elim (In-append_cases z (gather (post_order fuel m) m x.children) (x ∷ []) (rw t at i)) [
        | inl j ↦ inr (t, gather-Source (post_order fuel m) m x.children z j)
        | inr (inl e) ↦ inl e
        | inr (inr j) ↦ absurd j
      ]
  | inr f ↦ only (rw f at i)
]
  where
    only : In z (x ∷ []) → Visits m (post_order fuel m) x z
    only (inl e) = inl e
    only (inr j) = absurd j

Visits-post_order :
    (fuel : ℕ) (m : Inodes) (x z : Inode)
    → Visits m (post_order fuel m) x z
    → In z (post_order (suc fuel) m x)
unfolding post_order
Visits-post_order fuel m x z (inl e) = rw e (In-append_last x _)
Visits-post_order fuel m x z (inr (t, s)) = rw t (
    In-append_left z (gather (post_order fuel m) m x.children) (x ∷ [])
      (Source-gather (post_order fuel m) m x.children z s))

post_order-Below : (fuel : ℕ) (m : Inodes) (x z : Inode) → In z (post_order fuel m x) → Below m x z
unfolding post_order
post_order-Below zero m x z (inl e) = rw e here
post_order-Below zero m x z (inr i) = absurd i
post_order-Below (suc fuel) m x z i = elim (post_order-Visits fuel m x z i) [
  | inl e ↦ rw e here
  | inr (t, (c, y, k, g, j)) ↦ down c t k g (post_order-Below fuel m y z j)
]

Below-post_order :
    (fuel : ℕ) (m : Inodes) (x z : Inode) → Ends m fuel x → Below m x z → In z (post_order fuel m x)
unfolding post_order
Below-post_order zero m x z ends here = inl refl
Below-post_order zero m x z ends (down c t k g b) = cc (ends, t)
Below-post_order (suc fuel) m x z ends here = Visits-post_order fuel m x x (inl refl)
Below-post_order (suc fuel) m x z ends (down {y = y} c t k g b) =
    Visits-post_order fuel m x z
      (inr (t, (c, y, k, g, Below-post_order fuel m y z (ends t c y k g) b)))

-- With the same fuel, the inodes that DeleteFile collects are those at or below its start, and no other.
pub post_order_iff :
    (needed fuel : ℕ) (m : Inodes) (x z : Inode)
    → needed ≤ fuel
    → Ends m needed x
    → In z (post_order fuel m x) ↔ Below m x z
post_order_iff needed fuel m x z enough ends = (
  post_order-Below fuel m x z,
  Below-post_order fuel m x z (Ends-mono m needed fuel x enough ends),
)

first_error-none :
    (f : Inode → Option DeleteError) (m : Inodes) (cs : List Fid) (c : Fid) (y : Inode)
    → first_error f m cs ≡ none
    → In c cs
    → get c m ≡ some y
    → f y ≡ none
unfolding first_error
first_error-none f m [] c y h i g = absurd i
first_error-none f m (d ∷ cs) c y h (inl e) g =
    let here : get d m ≡ some y = rw (← e) g in
    elim (Option-cases (f y)) [ inl n ↦ n | inr (r, s) ↦ cc (rw (here, s, first_error) at h) ]
first_error-none f m (d ∷ cs) c y h (inr i) g = elim (Option-cases (get d m)) [
  | inl n ↦ first_error-none f m cs c y (rw (n, first_error) at h) i g
  | inr (x, s) ↦ elim (Option-cases (f x)) [
    | inl n ↦ first_error-none f m cs c y (rw (s, n, first_error) at h) i g
    | inr (r, w) ↦ cc (rw (s, w, first_error) at h)
  ]
]

-- What a validation that passed says of the start and of the children's validations.
passed :
    (fuel : ℕ) (m : Inodes) (user : String) (recursive : Bool) (x : Inode)
    → validate_delete (suc fuel) m user recursive x ≡ none
    → (x.acl.owner ≡ user)
      × (is_directory x.kind ≡ true
          → (c : Fid) (y : Inode) → In c x.children
          → get c m ≡ some y
          → validate_delete fuel m user recursive y ≡ none)
unfolding validate_delete first_error
passed fuel m user recursive x h = elim (Bool-cases (x.acl.owner == user)) [
  | inr f ↦ cc (rw f at h)
  | inl t ↦ (
    (==_iff x.acl.owner user).0 t,
    λ d c y i g. elim (Bool-cases (is_empty x.children)) [
      | inl e ↦ absurd (nobody c x.children e i)
      | inr e ↦
          first_error-none (validate_delete fuel m user recursive) m x.children c y
            (children-none recursive t d e h) i g
    ],
  )
]
  where
    children-none :
        (r : Bool)
        → (x.acl.owner == user) ≡ true
        → is_directory x.kind ≡ true
        → is_empty x.children ≡ false
        → validate_delete (suc fuel) m user r x ≡ none
        → first_error (validate_delete fuel m user r) m x.children ≡ none
    children-none true t d e h = rw (t, d, e) at h
    children-none false t d e h = cc (rw (t, d, e) at h)

    nobody : (c : Fid) (cs : List Fid) → is_empty cs ≡ true → In c cs → ⊥
    nobody c [] e i = i
    nobody c (d ∷ cs) e i = cc

passed-owner :
    (m : Inodes) (user : String) (recursive : Bool) (x : Inode)
    → validate_delete zero m user recursive x ≡ none
    → x.acl.owner ≡ user
unfolding validate_delete
passed-owner m user recursive x h = elim (Bool-cases (x.acl.owner == user)) [
  | inl t ↦ (==_iff x.acl.owner user).0 t
  | inr f ↦ cc (rw f at h)
]

-- When the validation passes, everything that DeleteFile then removes is owned by the user.
pub validate_delete-owner :
    (fuel : ℕ) (m : Inodes) (user : String) (recursive : Bool) (x z : Inode)
    → validate_delete fuel m user recursive x ≡ none
    → In z (post_order fuel m x)
    → z.acl.owner ≡ user
unfolding post_order
validate_delete-owner zero m user recursive x z h (inl e) = rw e (passed-owner m user recursive x h)
validate_delete-owner zero m user recursive x z h (inr i) = absurd i
validate_delete-owner (suc fuel) m user recursive x z h i =
    let p = passed fuel m user recursive x h in
    elim (post_order-Visits fuel m x z i) [
      | inl e ↦ rw e p.0
      | inr (t, (c, y, k, g, j)) ↦ validate_delete-owner fuel m user recursive y z (p.1 t c y k g) j
    ]
