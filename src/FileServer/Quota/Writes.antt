-- ===== src/FileServer/Quota/Writes.antt =====
-- WriteFile of internal/fileserver/fileserver.go keeps a user's root within the quota.
use distributed_virtual_file.Prelude.{
  ℕ, zero, suc, ◌+◌, ◌-◌, ◌%◌, ◌≤◌, ◌<◌, String, ◌≡◌, refl, sym, ap, ◌∙◌, subst, true, false,
  Option, none, some, arith, if◌then◌else◌, ltb, ◌==◌, ==_iff, ==_refl, nat_eq, string_eq,
  Bool-cases, Option-cases, inl, inr,
}
use distributed_virtual_file.GoMap.{GoMap, get}
use distributed_virtual_file.FileServer.{
  Fid, fid_eq, Inode, Inodes, FileServer, modify, is_directory, child_by_name,
}
use distributed_virtual_file.FileServer.Modify.{found_directory, get-modify, get-modify_absent}
use distributed_virtual_file.FileServer.Quota.{
  exceeds, user_quota, next, climb, grow, add_size, Disk, two_63, two_64, over_limits, refusal,
  write_inode, write_found, write_in, write_file, positive, size_diff,
}
use distributed_virtual_file.FileServer.Quota.Bounds.{exceeds_iff}

next-modify : (d : ℕ) (fid k : Fid) (m : Inodes) → next k (modify fid (add_size d) m) ≡ next k m
unfolding next
next-modify d fid k m = elim (Option-cases (get k m)) [
  | inl e ↦ rw (next, get-modify_absent fid k (add_size d) m e, e) refl
  | inr (x, e) ↦ elim (Bool-cases (fid == k)) [
    | inl t ↦ rw (next, get-modify fid k (add_size d) m e, e, t) refl
    | inr f ↦ rw (next, get-modify fid k (add_size d) m e, e, f) refl
  ]
]

climb-modify :
    (fuel d : ℕ) (fid k : Fid) (m : Inodes)
    → climb fuel k (modify fid (add_size d) m) ≡ climb fuel k m
unfolding climb
climb-modify zero d fid k m = refl
climb-modify (suc fuel) d fid k m =
    rw (climb, next-modify d fid k m)
      (elim (Option-cases (next k m)) [
        | inl e ↦ rw (climb, e) refl
        | inr (p, e) ↦ rw (climb, e) (climb-modify fuel d fid p m)
      ])

-- Where the climb ends, at a directory without another above it, the size has grown once.
get-grow_top :
    (fuel d : ℕ) (fid : Fid) (m : Inodes) (root : Inode)
    → next (climb fuel fid m) m ≡ none
    → get (climb fuel fid m) m ≡ some root
    → get (climb fuel fid m) (grow fuel d fid m) ≡ some (add_size d root)
unfolding grow climb
get-grow_top zero d fid m root top at_root =
    rw (get-modify fid fid (add_size d) m at_root, ==_refl fid) refl
get-grow_top (suc fuel) d fid m root top at_root = elim (Option-cases (next fid m)) [
  | inl e ↦
      let here : get fid m ≡ some root = rw (climb, e) at at_root in
      rw
        (
          climb,
          grow,
          next-modify d fid fid m,
          e,
          get-modify fid fid (add_size d) m here,
          ==_refl fid,
        )
        refl
  | inr (p, e) ↦
      let m1 = modify fid (add_size d) m in
      let same : climb fuel p m1 ≡ climb fuel p m = climb-modify fuel d fid p m in
      let end : next (climb fuel p m) m ≡ none = rw (climb, e) at top in
      let stored : get (climb fuel p m) m ≡ some root = rw (climb, e) at at_root in
      let apart : (fid == climb fuel p m) ≡ false = elim (Bool-cases (fid == climb fuel p m)) [
        | inl t ↦ cc (ap (λ z. next z m) ((==_iff fid (climb fuel p m)).0 t), e, end)
        | inr f ↦ f
      ] in
      let kept : get (climb fuel p m) m1 ≡ some root =
        rw apart at (get-modify fid (climb fuel p m) (add_size d) m stored) in
      rw (climb, grow, next-modify d fid fid m, e)
        (subst (λ t. get t (grow fuel d p m1) ≡ some (add_size d root)) same
          (get-grow_top fuel d p m1 root
            (next-modify d fid (climb fuel p m1) m ∙ (ap (λ t. next t m) same ∙ end))
            (ap (λ t. get t m1) same ∙ kept)))
]

size_diff_lem :
    (size offset len : ℕ)
    → offset + len < two_63
    → size < two_64
    → size_diff size offset len ≡ offset + len - size
size_diff_lem size offset len small s = ground arith

over_limits-none :
    (disk : Disk) (d : ℕ) (root : Inode) (quotas : GoMap String ℕ)
    → over_limits disk d (some root) quotas ≡ none
    → root.size + d ≤ user_quota root.name quotas
unfolding over_limits
over_limits-none disk d root quotas h =
    elim (Bool-cases (exceeds root.size d (user_quota root.name quotas))) [
      | inl over ↦ cc (rw (over_limits, over) at h)
      | inr within ↦ (exceeds_iff root.size d (user_quota root.name quotas)).0 within
    ]

refusal-none :
    (fuel : ℕ) (disk : Disk) (fid : Fid) (d : ℕ) (fs : FileServer) (root : Inode)
    → d < two_63
    → get (climb fuel fid fs.inodes) fs.inodes ≡ some root
    → root.size ≤ user_quota root.name fs.quotas
    → refusal fuel disk fid d fs ≡ none
    → root.size + d ≤ user_quota root.name fs.quotas
unfolding refusal
refusal-none fuel disk fid d fs root small at_root fits h = elim (Bool-cases (positive d)) [
  | inl t ↦ over_limits-none disk d root fs.quotas (rw (refusal, t, at_root) at h)
  | inr f ↦ let nothing : d ≡ 0 = ground arith in omega arith
]

-- What an accepted write did.
accepted :
    (fuel : ℕ) (disk : Disk) (offset len : ℕ) (x : Inode) (fs : FileServer)
    → (write_inode fuel disk offset len x fs).0 ≡ none
    → (disk.writes x.os_path offset len ≡ true)
      × (refusal fuel disk x.fid (size_diff x.size offset len) fs ≡ none)
      × ((write_inode fuel disk offset len x fs).1 ≡ (
          if size_diff x.size offset len == 0
          then fs
          else record fs { inodes = grow fuel (size_diff x.size offset len) x.fid fs.inodes }))
unfolding write_inode
accepted fuel disk offset len x fs h = elim (Bool-cases (is_directory x.kind)) [
  | inl d ↦ cc (rw (write_inode, d) at h)
  | inr d ↦ elim (Bool-cases (disk.opens x.os_path)) [
    | inr o ↦ cc (rw (write_inode, d, o) at h)
    | inl o ↦ elim (Bool-cases (ltb (two_64 - 1 - offset) len)) [
      | inl w ↦ cc (rw (write_inode, d, o, w) at h)
      | inr w ↦ elim (Option-cases (refusal fuel disk x.fid (size_diff x.size offset len) fs)) [
        | inr (e, r) ↦ cc (rw (write_inode, d, o, w, r) at h)
        | inl r ↦ elim (Bool-cases (disk.writes x.os_path offset len)) [
          | inr f ↦ cc (rw (write_inode, d, o, w, r, f) at h)
          | inl t ↦ (
            t,
            r,
            rw (write_inode, d, o, w, r, t)
                (elim (Bool-cases (size_diff x.size offset len == 0)) [
                  | inl z ↦ rw z refl
                  | inr z ↦ rw z refl
                ]),
          )
        ]
      ]
    ]
  ]
]

-- The disk writes no byte at an offset that an int64 cannot hold.
abbrev pub WritesWithinInt64 : Disk → Type 0
WritesWithinInt64 disk =
    (path : String) (offset len : ℕ) → disk.writes path offset len ≡ true → offset + len < two_63

-- After a write, the inode of a key has grown by some bytes and is within a quota.
abbrev pub GrownWithin : ℕ → ℕ → Fid → Inode → Inodes → Type 0
GrownWithin quota d k root m =
    (y : Inode) × (get k m ≡ some y) × (y.size ≡ root.size + d) × (y.size ≤ quota)

-- An accepted write, without the lookups before it.
write_inode_within_quota :
    (fuel : ℕ) (disk : Disk) (offset len : ℕ) (x root : Inode) (fs : FileServer)
    → WritesWithinInt64 disk
    → next (climb fuel x.fid fs.inodes) fs.inodes ≡ none
    → get (climb fuel x.fid fs.inodes) fs.inodes ≡ some root
    → user_quota root.name fs.quotas < two_64
    → x.size < two_64
    → root.size ≤ user_quota root.name fs.quotas
    → (write_inode fuel disk offset len x fs).0 ≡ none
    → GrownWithin
        (user_quota root.name fs.quotas)
        (offset + len - x.size)
        (climb fuel x.fid fs.inodes)
        root
        (write_inode fuel disk offset len x fs).1.inodes
write_inode_within_quota fuel disk offset len x root fs small top at_root quota_small x_small fits
      h =
    let d = size_diff x.size offset len in
    let acc = accepted fuel disk offset len x fs h in
    let reach : offset + len < two_63 = small x.os_path offset len acc.0 in
    let grown : d ≡ offset + len - x.size = size_diff_lem x.size offset len reach x_small in
    let sum : root.size + d ≤ user_quota root.name fs.quotas =
      refusal-none fuel disk x.fid d fs root (omega arith) at_root fits acc.1 in
    rw acc.2 (elim (Bool-cases (d == 0)) [
      | inl z ↦ rw z (root, at_root, grown_by z grown, fits)
      | inr z ↦ rw z (
        add_size d root,
        get-grow_top fuel d x.fid fs.inodes root top at_root,
        unwrapped d sum ∙ ap (λ b. root.size + b) grown,
        subst (λ b. b ≤ user_quota root.name fs.quotas) (sym (unwrapped d sum)) sum,
      )
    ])
  where
    unwrapped :
        (b : ℕ)
        → root.size + b ≤ user_quota root.name fs.quotas
        → (root.size + b) % two_64 ≡ root.size + b
    unwrapped b s = omega arith

    grown_by :
        (size_diff x.size offset len == 0) ≡ true
        → size_diff x.size offset len ≡ offset + len - x.size
        → root.size ≡ root.size + (offset + len - x.size)
    grown_by z e =
        let nothing : size_diff x.size offset len ≡ 0 =
          (==_iff (size_diff x.size offset len) 0).0 z in
        omega arith

-- A write below a user's root that WriteFile accepts leaves the root of the tree, where the climb of
-- the fuel ends, larger by the bytes that the write reaches past the file's end, and within the
-- quota of the root's user; if it was within the quota before, sizes and quotas are 64-bit, and the
-- disk refuses offsets that an int64 cannot hold.
pub write_file_within_quota :
    (stat : String → Option ℕ) (fuel : ℕ) (disk : Disk) (parent_fid : Fid) (name : String)
    (offset len : ℕ) (dir x root : Inode) (fs : FileServer)
    → WritesWithinInt64 disk
    → get parent_fid fs.inodes ≡ some dir
    → is_directory dir.kind ≡ true
    → child_by_name name dir.children fs.inodes ≡ some x
    → next (climb fuel x.fid fs.inodes) fs.inodes ≡ none
    → get (climb fuel x.fid fs.inodes) fs.inodes ≡ some root
    → user_quota root.name fs.quotas < two_64
    → x.size < two_64
    → root.size ≤ user_quota root.name fs.quotas
    → (write_file stat fuel disk parent_fid name offset len fs).0 ≡ none
    → GrownWithin
        (user_quota root.name fs.quotas)
        (offset + len - x.size)
        (climb fuel x.fid fs.inodes)
        root
        (write_file stat fuel disk parent_fid name offset len fs).1.inodes
unfolding write_file write_in write_found
write_file_within_quota stat fuel disk parent_fid name offset len dir x root fs small at_dir d child
      top at_root quota_small x_small fits h =
    let stored = found_directory stat parent_fid fs at_dir d in
    rw (write_file, stored, write_in, child)
      (write_inode_within_quota fuel disk offset len x root fs small top at_root quota_small x_small
        fits (rw (write_file, stored, write_in, child) at h))
