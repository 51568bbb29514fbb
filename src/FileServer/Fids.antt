-- ===== src/FileServer/Fids.antt =====
-- Whether a FID is among those of a list of inodes, as the loops over a collected subtree ask.
use distributed_virtual_file.Prelude.{
  ◌≡◌, refl, sym, ap, ◌∙◌, true, List, [], ◌∷◌, ◌==◌, ==_iff, Bool-cases, inl, inr, contains, In,
}
use distributed_virtual_file.FileServer.{Fid, fid_eq, Inode}
use distributed_virtual_file.FileServer.Sharing.{fids}

pub contains-fids :
    (k : Fid) (xs : List Inode) → contains k (fids xs) ≡ true → (z : Inode) × In z xs × (z.fid ≡ k)
contains-fids k [] h = cc
contains-fids k (x ∷ xs) h = elim (Bool-cases (x.fid == k)) [
  | inl t ↦ (x, inl refl, (==_iff x.fid k).0 t)
  | inr f ↦ let (z, i, e) = contains-fids k xs (rw f at h) in (z, inr i, e)
]

pub fids_contain :
    (k : Fid) (xs : List Inode) (z : Inode) → In z xs → z.fid ≡ k → contains k (fids xs) ≡ true
fids_contain k [] z i e = absurd i
fids_contain k (x ∷ xs) z (inl p) e =
    let here : (x.fid == k) ≡ true = (==_iff x.fid k).1 (ap (λ (y : Inode). y.fid) (sym p) ∙ e) in
    rw here refl
fids_contain k (x ∷ xs) z (inr i) e = elim (Bool-cases (x.fid == k)) [
  | inl t ↦ rw t refl
  | inr f ↦ rw f (fids_contain k xs z i e)
]
