-- ===== src/InodeStore/Examples.antt =====
-- The inode store on concrete inputs.
use distributed_virtual_file.Prelude.{List, [], ◌∷◌, ◌≡◌, refl, arith, string_eq}
use distributed_virtual_file.GoMap.{get, insert, delete}
use distributed_virtual_file.GoText.{
  trim_prefix, strip_prefix, strip_chars, forward_slashes, split_slashes, join_slashes,
}
use distributed_virtual_file.GoPath.{clean, is_rooted, clean_segments, push_segment}
use distributed_virtual_file.InodeStore.{
  new_inode_store, get_or_assign, assign, remove, rename_prefix, rename_paths, rename_path, renamed,
  normalize_path,
}
use distributed_virtual_file.InodeStore.Unique.{
  Change, assigns, removes, renames, changed, history, allocations, Numbered, KeepsNumbers,
  history-KeepsNumbers,
}

abbrev busy : List Change
busy =
    assigns "ann/docs"
    ∷ assigns "ann/docs/note"
    ∷ renames "ann/docs" "ann/old" ("ann/docs/note" ∷ "ann/docs" ∷ "ann/old/note" ∷ [])
    ∷ removes "ann/old/note"
    ∷ assigns "ann/docs/note"
    ∷ []

empty-Numbered : Numbered new_inode_store.next_inode_id new_inode_store.path_to_id
unfolding get
empty-Numbered = record { below = λ p i e. cc; unique = λ p q i e f. cc }

three_taken : allocations new_inode_store busy ≡ 3
unfolding allocations changed get_or_assign assign remove rename_prefix rename_paths rename_path
    renamed normalize_path get insert delete trim_prefix strip_prefix strip_chars clean is_rooted
    forward_slashes clean_segments split_slashes push_segment join_slashes
three_taken = refl

history-KeepsNumbers_example :
    KeepsNumbers (allocations new_inode_store busy) new_inode_store (history new_inode_store busy)
history-KeepsNumbers_example =
    history-KeepsNumbers new_inode_store busy empty-Numbered (omega (arith, three_taken))
