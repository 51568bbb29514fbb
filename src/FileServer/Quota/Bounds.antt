-- ===== src/FileServer/Quota/Bounds.antt =====
-- The quota checks of internal/fileserver bound what a user stores.
use distributed_virtual_file.Prelude.{
  ℕ, ◌+◌, ◌≤◌, ◌<◌, String, ◌≡◌, ◌⊎◌, ◌↔◌, refl, true, false, none, some, arith, ltb, nat_eq,
  string_eq, Bool-cases, Option-cases, inl, inr,
}
use distributed_virtual_file.GoMap.{get}
use distributed_virtual_file.FileServer.{Fid, fid_eq, Inode, FileServer}
use distributed_virtual_file.FileServer.Quota.{
  exceeds, disk_is_full, disk_safety_buffer, user_quota, check_root,
  check_storage_quota_with_additional,
}

pub exceeds_iff :
    (size additional quota : ℕ)
    → (exceeds size additional quota ≡ false) ↔ (size + additional ≤ quota)
unfolding exceeds
exceeds_iff size additional quota = (λ h. ground arith, λ h. ground arith)

-- The disk has room: its free space is unknown, or the bytes leave the safety buffer free.
abbrev pub HasRoom : ℕ → ℕ → Type 0
HasRoom free bytes =
    (free ≡ 0) ⊎ ((disk_safety_buffer < free) × (disk_safety_buffer + bytes ≤ free))

disk_is_full_iff : (free bytes : ℕ) → (disk_is_full free bytes ≡ false) ↔ HasRoom free bytes
unfolding disk_is_full
disk_is_full_iff free bytes = (λ h. ground arith, λ h. ground arith)

check_root_iff :
    (free : ℕ) (user : String) (additional : ℕ) (root : Inode) (fs : FileServer)
    → (check_root free user additional root fs ≡ none) ↔ (
        (root.size + additional ≤ user_quota user fs.quotas)
        × ((additional ≡ 0) ⊎ HasRoom free additional))
unfolding check_root
check_root_iff free user additional root fs =
    elim (Bool-cases (exceeds root.size additional quota)) [
      | inl over ↦ (
        λ h. cc (rw (check_root, over) at h),
        λ h. cc ((exceeds_iff root.size additional quota).1 h.0, over),
      )
      | inr within ↦ elim (Bool-cases (ltb 0 additional)) [
        | inr nothing ↦ (
          λ h. ((exceeds_iff root.size additional quota).0 within, inl (ground arith)),
          λ h. rw (within, nothing) refl,
        )
        | inl some_bytes ↦ elim (Bool-cases (disk_is_full free additional)) [
          | inl full ↦ (
            λ h. cc (rw (check_root, within, some_bytes, full) at h),
            λ h. absurd (no_room some_bytes full h.1),
          )
          | inr room ↦ (
            λ h. (
              (exceeds_iff root.size additional quota).0 within,
              inr ((disk_is_full_iff free additional).0 room),
            ),
            λ h. rw (within, some_bytes, room) refl,
          )
        ]
      ]
    ]
  where
    quota : ℕ
    quota = user_quota user fs.quotas

    no_room :
        ltb 0 additional ≡ true
        → disk_is_full free additional ≡ true
        → (additional ≡ 0) ⊎ HasRoom free additional
        → ⊥
    no_room s f (inl z) = ground arith
    no_room s f (inr room) = cc ((disk_is_full_iff free additional).1 room, f)

-- A registered user whose root is stored has quota left for the bytes, and the disk has room.
abbrev pub Fits : ℕ → String → ℕ → FileServer → Type 0
Fits free user additional fs =
    (root_fid : Fid) × (root : Inode) × (get user fs.users ≡ some root_fid)
    × (get root_fid fs.inodes ≡ some root)
    × (root.size + additional ≤ user_quota user fs.quotas)
    × ((additional ≡ 0) ⊎ HasRoom free additional)

-- A check with checkStorageQuotaWithAdditional accepts exactly a registered user whose root is stored, when the
-- root's size and the additional bytes, in sum and without a wrap, are at most the quota, and no bytes
-- are asked for or the disk has room for them: its free space is unknown, or more than the safety
-- buffer, which the bytes leave free.
pub check_storage_quota_with_additional_iff :
    (free : ℕ) (user : String) (additional : ℕ) (fs : FileServer)
    → (check_storage_quota_with_additional free user additional fs ≡ none)
      ↔ Fits free user additional fs
unfolding check_storage_quota_with_additional
check_storage_quota_with_additional_iff free user additional fs = (found, accepted)
  where
    found :
        check_storage_quota_with_additional free user additional fs ≡ none
        → Fits free user additional fs
    found h = elim (Option-cases (get user fs.users)) [
      | inl e ↦ cc (rw (check_storage_quota_with_additional, e) at h)
      | inr (root_fid, e) ↦ elim (Option-cases (get root_fid fs.inodes)) [
        | inl f ↦ cc (rw (check_storage_quota_with_additional, e, f) at h)
        | inr (root, f) ↦
            let r =
              (check_root_iff free user additional root fs).0
                (rw (check_storage_quota_with_additional, e, f) at h) in
            (root_fid, root, e, f, r.0, r.1)
      ]
    ]

    accepted :
        Fits free user additional fs
        → check_storage_quota_with_additional free user additional fs ≡ none
    accepted (root_fid, root, e, f, q, d) =
        rw (check_storage_quota_with_additional, e, f)
          ((check_root_iff free user additional root fs).1 (q, d))
