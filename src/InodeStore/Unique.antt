-- ===== src/InodeStore/Unique.antt =====
-- The numbers of the inodes are never shared and never recycled.
use distributed_virtual_file.Prelude.{
  ℕ, ◌+◌, ◌%◌, ◌^◌, ◌<◌, String, ◌≡◌, ◌≢◌, ◌||◌, some, List, [], ◌∷◌, arith, ◌==◌, ==_iff,
  string_eq, Bool-cases, Option-cases, inl, inr, if◌then◌else◌,
}
use distributed_virtual_file.GoMap.{GoMap, get, insert, delete, is_some, get-insert, get-delete}
use distributed_virtual_file.InodeStore.{
  InodeStore, normalize_path, assign, get_or_assign, remove, renamed, move_entry, rename_path,
  rename_paths, rename_prefix,
}

-- The changes that the file server makes.
pub data Change : Type 0 where
  assigns : String → Change
  removes : String → Change
  renames : String → String → List String → Change

unfoldable pub changed : InodeStore → Change → InodeStore
changed s (assigns path) = (get_or_assign path s).1
changed s (removes path) = remove path s
changed s (renames old new visits) = rename_prefix old new visits s

unfoldable pub history : InodeStore → List Change → InodeStore
history s [] = s
history s (c ∷ cs) = history (changed s c) cs

-- The numbers that a change takes from the counter, and those that a history takes.
abbrev pub allocated : InodeStore → Change → ℕ
allocated s (assigns path) = if is_some (get (normalize_path path) s.path_to_id) then 0 else 1
allocated s (removes path) = 0
allocated s (renames old new visits) = 0

unfoldable pub allocations : InodeStore → List Change → ℕ
allocations s [] = 0
allocations s (c ∷ cs) = allocated s c + allocations (changed s c) cs

-- Every number lies below the bound, and two paths never share one.
pub record Numbered (next : ℕ) (m : GoMap String ℕ) : Type 0 where
  pub below : (p : String) (i : ℕ) → get p m ≡ some i → i < next
  pub unique : (p q : String) (i : ℕ) → get p m ≡ some i → get q m ≡ some i → p ≡ q

Numbered-delete :
    (k : String) (next : ℕ) (m : GoMap String ℕ) → Numbered next m → Numbered next (delete k m)
Numbered-delete k next m v = record {
  below = λ p i e. v.below p i (kept p i e);
  unique = λ p q i e f. v.unique p q i (kept p i e) (kept q i f);
}
  where
    kept : (p : String) (i : ℕ) → get p (delete k m) ≡ some i → get p m ≡ some i
    kept p i e = ground (arith, get-delete k p m)

-- A number that no path has goes to a path.
Numbered-insert :
    (k : String) (id next : ℕ) (m : GoMap String ℕ)
    → id < next
    → ((p : String) → get p m ≢ some id)
    → Numbered next m
    → Numbered next (insert k id m)
Numbered-insert k id next m small free v = record {
  below = λ p i e. ground (arith, get-insert k p id m, v.below p i);
  unique = λ p q i e f. ground (
    arith,
    get-insert k p id m,
    get-insert k q id m,
    free p,
    free q,
    v.unique p q i,
    ==_iff k p,
    ==_iff k q,
  );
}

Numbered-grow : (next : ℕ) (m : GoMap String ℕ) → Numbered next m → Numbered (next + 1) m
Numbered-grow next m v = record { below = λ p i e. omega (arith, v.below p i e); unique = v.unique }

Numbered-move :
    (path target : String) (next : ℕ) (m : GoMap String ℕ)
    → Numbered next m
    → Numbered next (move_entry path target (get path m) m)
unfolding move_entry
Numbered-move path target next m v = elim (Option-cases (get path m)) [
  | inl e ↦ rw (e, move_entry) v
  | inr (id, e) ↦
      rw (e, move_entry)
        (Numbered-insert target id next (delete path m) (v.below path id e)
          (λ p h. moved p id e (deleted p id h)) (Numbered-delete path next m v))
]
  where
    deleted :
        (p : String) (id : ℕ) → get p (delete path m) ≡ some id → (get p m ≡ some id) × (path ≢ p)
    deleted p id h = (
      ground (arith, get-delete path p m),
      λ s. ground (arith, get-delete path p m, ==_iff path p),
    )

    moved : (p : String) (id : ℕ) → get path m ≡ some id → (get p m ≡ some id) × (path ≢ p) → ⊥
    moved p id e d = d.1 (v.unique path p id e d.0)

Numbered-rename_path :
    (old new path : String) (next : ℕ) (m : GoMap String ℕ)
    → Numbered next m
    → Numbered next (rename_path old new path m)
unfolding rename_path
Numbered-rename_path old new path next m v = elim (Option-cases (renamed old new path)) [
  | inl e ↦ rw (e, rename_path) v
  | inr (target, e) ↦ rw (e, rename_path) (Numbered-move path target next m v)
]

Numbered-rename_paths :
    (old new : String) (ps : List String) (next : ℕ) (m : GoMap String ℕ)
    → Numbered next m
    → Numbered next (rename_paths old new ps m)
unfolding rename_paths
Numbered-rename_paths old new [] next m v = v
Numbered-rename_paths old new (p ∷ ps) next m v =
    Numbered-rename_paths old new ps next (rename_path old new p m)
      (Numbered-rename_path old new p next m v)

abbrev NumberedStore : InodeStore → Type 0
NumberedStore s = Numbered s.next_inode_id s.path_to_id

-- What a change that takes so many numbers keeps, while the counter does not wrap.
record Grows (taken : ℕ) (s t : InodeStore) : Type 0 where
  ordered : NumberedStore t
  counted : t.next_inode_id ≡ s.next_inode_id + taken

assign-Grows :
    (norm : String) (s : InodeStore)
    → s.next_inode_id + (if is_some (get norm s.path_to_id) then 0 else 1) < 2 ^ 64
    → NumberedStore s
    → Grows (if is_some (get norm s.path_to_id) then 0 else 1) s (assign norm s).1
unfolding assign
assign-Grows norm s small v = elim (Option-cases (get norm s.path_to_id)) [
  | inr (id, e) ↦ rw (e, assign) (record { ordered = v; counted = omega arith })
  | inl e ↦
      let no_wrap : (s.next_inode_id + 1) % 2 ^ 64 ≡ s.next_inode_id + 1 =
        omega (arith, rw e at small) in
      rw (e, assign)
        (rw no_wrap (record {
          ordered =
              Numbered-insert norm s.next_inode_id (s.next_inode_id + 1) s.path_to_id (omega arith)
                (λ p h. absurd (irrefl s.next_inode_id (v.below p s.next_inode_id h)))
                (Numbered-grow s.next_inode_id s.path_to_id v);
          counted = omega arith;
        }))
]
  where
    irrefl : (n : ℕ) → n < n → ⊥
    irrefl n h = omega arith

changed-Grows :
    (s : InodeStore) (c : Change)
    → s.next_inode_id + allocated s c < 2 ^ 64
    → NumberedStore s
    → Grows (allocated s c) s (changed s c)
unfolding changed get_or_assign remove rename_prefix
changed-Grows s (assigns path) small v = assign-Grows (normalize_path path) s small v
changed-Grows s (removes path) small v = record {
  ordered = Numbered-delete (normalize_path path) s.next_inode_id s.path_to_id v;
  counted = omega arith;
}
changed-Grows s (renames old new visits) small v =
    elim (Bool-cases (
      normalize_path old == ""
      || normalize_path new == ""
      || normalize_path old == normalize_path new)) [
        | inl t ↦ rw t (record { ordered = v; counted = omega arith })
        | inr f ↦ rw f (record {
          ordered =
              Numbered-rename_paths (normalize_path old) (normalize_path new) visits s.next_inode_id
                s.path_to_id v;
          counted = omega arith;
        })
      ]

-- What the numbers of a store promise after a history that takes so many from the counter.
abbrev pub KeepsNumbers : ℕ → InodeStore → InodeStore → Type 0
KeepsNumbers taken s t =
    ((p q : String) (i : ℕ) → get p t.path_to_id ≡ some i → get q t.path_to_id ≡ some i → p ≡ q)
    × ((p : String) (i : ℕ) → get p t.path_to_id ≡ some i → i < t.next_inode_id)
    × (t.next_inode_id ≡ s.next_inode_id + taken)

-- From a store whose numbers lie below its counter and are not shared, by any changes that together
-- take fewer numbers than the 64-bit counter has left, where a removal, a renaming, whichever paths it
-- visits, and the lookup of a known path take none: no two paths share a number, every number lies
-- below the counter, and the counter has grown by what was taken, so that a new path never gets the
-- number of a removed one.
pub history-KeepsNumbers :
    (s : InodeStore) (cs : List Change)
    → Numbered s.next_inode_id s.path_to_id
    → s.next_inode_id + allocations s cs < 2 ^ 64
    → KeepsNumbers (allocations s cs) s (history s cs)
unfolding history allocations
history-KeepsNumbers s [] v small = (v.unique, v.below, omega arith)
history-KeepsNumbers s (c ∷ cs) v small =
    let g = changed-Grows s c (omega arith) v in
    let r = history-KeepsNumbers (changed s c) cs g.ordered (omega (arith, g.counted)) in
    (r.0, r.1, omega (arith, g.counted, r.2))
