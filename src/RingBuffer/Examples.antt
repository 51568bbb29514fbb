-- ===== src/RingBuffer/Examples.antt =====
-- The ring buffer on concrete inputs.
use distributed_virtual_file.Prelude.{ℕ, ◌≡◌, refl, Option, none, some, [], ◌∷◌, arith}
use distributed_virtual_file.RingBuffer.{
  RingBuffer, new_ring_buffer, push, push_all, get_all, get_last,
}
use distributed_virtual_file.RingBuffer.Window.{get_all-push_all}

-- Five values through a buffer of three.
get_all-push_all_example :
    (rb : RingBuffer ℕ) × (push_all (1 ∷ 2 ∷ 3 ∷ 4 ∷ 5 ∷ []) (new_ring_buffer 0 3) ≡ some rb)
    × (get_all rb ≡ some (3 ∷ 4 ∷ 5 ∷ []))
get_all-push_all_example = get_all-push_all 0 3 (1 ∷ 2 ∷ 3 ∷ 4 ∷ 5 ∷ []) (omega arith)

-- The last of them.
abbrev last : Option (Option ℕ)
last = elim (push_all (1 ∷ 2 ∷ 3 ∷ 4 ∷ 5 ∷ []) (new_ring_buffer 0 3)) [
  | none ↦ none
  | some rb ↦ get_last rb
]

last_lem : last ≡ some (some 5)
unfolding push_all new_ring_buffer push get_last
last_lem = refl
