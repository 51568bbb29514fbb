-- ===== src/FileServer/Subtree.antt =====
-- The recursions over a subtree visit exactly the inodes below their start, and end.
use distributed_virtual_file.Prelude.{
  ℕ, zero, suc, ◌≤◌, ◌≡◌, ◌≢◌, ◌⊎◌, ◌↔◌, refl, sym, ◌∙◌, Bool, true, false, some, List, [], ◌∷◌,
  ◌++◌, arith, string_eq, Bool-cases, Option-cases, inl, inr, In, In-append_left, In-append_cases,
}
use distributed_virtual_file.GoMap.{get}
use distributed_virtual_file.FileServer.{Fid, fid_eq, Inode, Inodes, is_directory}
use distributed_virtual_file.FileServer.Tree.{gather, collect}

-- `z` is `x` or lies in a directory below it.
pub data Below (m : Inodes) : Inode → Inode → Type 0 where
  here : {x : Inode} → Below m x x
  down :
      {x y z : Inode} (c : Fid)
      → is_directory x.kind ≡ true
      → In c x.children
      → get c m ≡ some y
      → Below m y z
      → Below m x z

-- No chain of directories below `x` is longer than the fuel.
abbrev pub Ends : Inodes → ℕ → Inode → Type 0
Ends m zero x = is_directory x.kind ≡ false
Ends m (suc fuel) x =
    is_directory x.kind ≡ true
    → (c : Fid) (y : Inode) → In c x.children
    → get c m ≡ some y
    → Ends m fuel y

pub In-append_right : {A : Type 0} (z : A) (xs ys : List A) → In z ys → In z (xs ++ ys)
In-append_right z [] ys i = i
In-append_right z (x ∷ xs) ys i = inr (In-append_right z xs ys i)

-- Where an inode of the gathered lists comes from.
abbrev pub Source : Inodes → (Inode → List Inode) → List Fid → Inode → Type 0
Source m f cs z = (c : Fid) × (y : Inode) × In c cs × (get c m ≡ some y) × In z (f y)

pub gather-Source :
    (f : Inode → List Inode) (m : Inodes) (cs : List Fid) (z : Inode)
    → In z (gather f m cs)
    → Source m f cs z
unfolding gather
gather-Source f m [] z i = absurd i
gather-Source f m (c ∷ cs) z i = elim (Option-cases (get c m)) [
  | inl e ↦ let r = gather-Source f m cs z (rw (e, gather) at i) in (r.0, r.1, inr r.2, r.3, r.4)
  | inr (y, e) ↦ elim (In-append_cases z (f y) (gather f m cs) (rw (e, gather) at i)) [
    | inl j ↦ (c, y, inl refl, e, j)
    | inr j ↦ let r = gather-Source f m cs z j in (r.0, r.1, inr r.2, r.3, r.4)
  ]
]

pub Source-gather :
    (f : Inode → List Inode) (m : Inodes) (cs : List Fid) (z : Inode)
    → Source m f cs z
    → In z (gather f m cs)
unfolding gather
Source-gather f m [] z s = absurd s.2
Source-gather f m (c ∷ cs) z (d, y, inl e, g, j) =
    let here : get c m ≡ some y = rw (← e) g in
    rw (here, gather) (In-append_left z (f y) (gather f m cs) j)
Source-gather f m (c ∷ cs) z (d, y, inr i, g, j) =
    let later = Source-gather f m cs z (d, y, i, g, j) in
    elim (Option-cases (get c m)) [
      | inl e ↦ rw (e, gather) later
      | inr (x, e) ↦ rw (e, gather) (In-append_right z (f x) (gather f m cs) later)
    ]

-- One call visits the start and what its children's calls visit.
abbrev pub Visits : Inodes → (Inode → List Inode) → Inode → Inode → Type 0
Visits m f x z = (z ≡ x) ⊎ ((is_directory x.kind ≡ true) × Source m f x.children z)

collect-Visits :
    (fuel : ℕ) (m : Inodes) (x z : Inode)
    → In z (collect (suc fuel) m x)
    → Visits m (collect fuel m) x z
unfolding collect
collect-Visits fuel m x z (inl e) = inl e
collect-Visits fuel m x z (inr i) = elim (Bool-cases (is_directory x.kind)) [
  | inl t ↦ inr (t, gather-Source (collect fuel m) m x.children z (rw t at i))
  | inr f ↦ absurd (none_of (rw f at i))
]
  where
    none_of : In z [] → ⊥
    none_of i = i

Visits-collect :
    (fuel : ℕ) (m : Inodes) (x z : Inode)
    → Visits m (collect fuel m) x z
    → In z (collect (suc fuel) m x)
unfolding collect
Visits-collect fuel m x z (inl e) = inl e
Visits-collect fuel m x z (inr (t, s)) =
    inr (rw t (Source-gather (collect fuel m) m x.children z s))

collect-Below : (fuel : ℕ) (m : Inodes) (x z : Inode) → In z (collect fuel m x) → Below m x z
unfolding collect
collect-Below zero m x z (inl e) = rw e here
collect-Below zero m x z (inr i) = absurd i
collect-Below (suc fuel) m x z i = elim (collect-Visits fuel m x z i) [
  | inl e ↦ rw e here
  | inr (t, (c, y, k, g, j)) ↦ down c t k g (collect-Below fuel m y z j)
]

Below-collect :
    (fuel : ℕ) (m : Inodes) (x z : Inode) → Ends m fuel x → Below m x z → In z (collect fuel m x)
unfolding collect
Below-collect zero m x z ends here = inl refl
Below-collect zero m x z ends (down c t k g b) = absurd (apart (sym ends ∙ t))
  where
    apart : ◌≢◌ {A = Bool} false true
    apart e = cc
Below-collect (suc fuel) m x z ends here = inl refl
Below-collect (suc fuel) m x z ends (down {y = y} c t k g b) =
    Visits-collect fuel m x z (inr (t, (c, y, k, g, Below-collect fuel m y z (ends t c y k g) b)))

pub Ends-mono :
    (m : Inodes) (needed fuel : ℕ) (x : Inode) → needed ≤ fuel → Ends m needed x → Ends m fuel x
Ends-mono m zero zero x h e = e
Ends-mono m zero (suc fuel) x h e = λ t c y k g. cc (e, t)
Ends-mono m (suc needed) zero x h e = absurd (omega arith)
Ends-mono m (suc needed) (suc fuel) x h e =
    λ t c y k g. Ends-mono m needed fuel y (omega arith) (e t c y k g)

-- With fuel for the longest chain of directories or more, collectSubtreeInodes returns the inodes
-- below its start, and no other.
pub collect_iff :
    (needed fuel : ℕ) (m : Inodes) (x z : Inode)
    → needed ≤ fuel
    → Ends m needed x
    → In z (collect fuel m x) ↔ Below m x z
collect_iff needed fuel m x z enough ends =
    (collect-Below fuel m x z, Below-collect fuel m x z (Ends-mono m needed fuel x enough ends))
