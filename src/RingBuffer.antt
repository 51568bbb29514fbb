-- ===== src/RingBuffer.antt =====
-- internal/admin/ringbuffer.go: a circular buffer of the last snapshots. A snapshot is a value of any
-- type, whose zero value is `empty`; an index out of range, which panics, is none. The mutex is left
-- out: each operation holds it from its start to its end.
pub mod Queue
pub mod Pushes
pub mod Window
pub mod Examples
use distributed_virtual_file.Prelude.{
  ℕ, zero, suc, ◌+◌, ◌-◌, ◌%◌, Bool, true, false, Option, none, some, List, [], ◌∷◌, if◌then◌else◌,
  ltb, ◌==◌, nat_eq,
}

pub record RingBuffer (A : Type 0) : Type 0 where
  pub entries : List A
  pub size : ℕ
  pub head : ℕ
  pub count : ℕ

module _ {A : Type 0} where
  abbrev pub get_elem? : List A → ℕ → Option A
  get_elem? [] i = none
  get_elem? (x ∷ xs) zero = some x
  get_elem? (x ∷ xs) (suc i) = get_elem? xs i

  -- xs[i] = x
  abbrev pub set_elem : ℕ → A → List A → Option (List A)
  set_elem i x [] = none
  set_elem zero x (y ∷ ys) = some (x ∷ ys)
  set_elem (suc i) x (y ∷ ys) = elim (set_elem i x ys) [ none ↦ none | some zs ↦ some (y ∷ zs) ]

  abbrev pub replicate : ℕ → A → List A
  replicate zero x = []
  replicate (suc n) x = x ∷ replicate n x

  unfoldable pub new_ring_buffer : A → ℕ → RingBuffer A
  new_ring_buffer empty size = record {
    entries = replicate size empty;
    size = size;
    head = 0;
    count = 0;
  }

  unfoldable pub push : A → RingBuffer A → Option (RingBuffer A)
  push s rb = elim (set_elem rb.head s rb.entries) [
    | none ↦ none
    | some entries ↦ some (record {
      entries = entries;
      size = rb.size;
      head = (rb.head + 1) % rb.size;
      count = if ltb rb.count rb.size then rb.count + 1 else rb.count;
    })
  ]

  -- The snapshot and true, or none for the zero value and false.
  unfoldable pub get_last : RingBuffer A → Option (Option A)
  get_last rb =
      if rb.count == 0
      then some none
      else elim (get_elem? rb.entries ((rb.head + rb.size - 1) % rb.size)) [
        | none ↦ none
        | some s ↦ some (some s)
      ]

  -- The loop of GetAll, from index i for `left` more.
  unfoldable pub read_from : List A → ℕ → ℕ → ℕ → ℕ → Option (List A)
  read_from entries size start i zero = some []
  read_from entries size start i (suc left) =
      let rest = read_from entries size start (i + 1) left in
      elim (get_elem? entries ((start + i) % size)) [
        | none ↦ none
        | some x ↦ elim rest [ none ↦ none | some xs ↦ some (x ∷ xs) ]
      ]

  unfoldable pub get_all : RingBuffer A → Option (List A)
  get_all rb =
      if rb.count == 0
      then some []
      else read_from rb.entries rb.size (if rb.count == rb.size then rb.head else 0) 0 rb.count

  -- Several snapshots, in order.
  unfoldable pub push_all : List A → RingBuffer A → Option (RingBuffer A)
  push_all [] rb = some rb
  push_all (s ∷ ss) rb = elim (push s rb) [ none ↦ none | some next ↦ push_all ss next ]
