-- ===== src/RingBuffer/Queue.antt =====
-- The queue that the buffer of internal/admin/ringbuffer.go represents, and how GetAll reads it.
use distributed_virtual_file.Prelude.{
  ℕ, suc, ◌+◌, ◌%◌, ◌<◌, ◌≡◌, ◌⊎◌, refl, sym, ap, ◌∙◌, true, false, some, List, [], ◌∷◌, ◌++◌,
  append-nil, append_assoc, arith, if◌then◌else◌, ltb, ◌==◌, ==_iff, nat_eq, inl, inr, length,
  length-append, Bool-cases,
}
use native.Mathlib.Nat.{mod-eq_of_lt, add-mod_left}
use distributed_virtual_file.RingBuffer.{RingBuffer, get_elem?, set_elem, read_from, get_all}

first_turn : (n j : ℕ) → j < n → (0 + j) % n ≡ j
first_turn n j h = let same : 0 + j ≡ j = omega arith in rw same (mod-eq_of_lt h)

module _ {A : Type 0} where
  -- A queue that keeps the last n values: what the buffer promises.
  unfoldable pub enqueue : ℕ → A → List A → List A
  enqueue n x [] = x ∷ []
  enqueue n x (y ∷ ys) = if ltb (length (y ∷ ys)) n then (y ∷ ys) ++ x ∷ [] else ys ++ x ∷ []

  unfoldable pub enqueue_all : ℕ → List A → List A → List A
  enqueue_all n [] q = q
  enqueue_all n (x ∷ xs) q = enqueue_all n xs (enqueue n x q)

  -- The buffer represents a queue: it has room left and the queue is its start, or it is full and the
  -- queue is its end and then its start.
  abbrev pub HasRoom : RingBuffer A → List A → Type 0
  HasRoom rb q =
      (rest : List A) × (rb.entries ≡ q ++ rest)
      × (rb.head ≡ length q)
      × (rb.count ≡ length q)
      × (0 < length rest)

  abbrev pub IsFull : RingBuffer A → List A → Type 0
  IsFull rb q =
      (back : List A) × (front : List A) × (rb.entries ≡ back ++ front)
      × (q ≡ front ++ back)
      × (rb.head ≡ length back)
      × (rb.count ≡ rb.size)
      × (0 < length front)

  abbrev pub Represents : RingBuffer A → List A → Type 0
  Represents rb q = (rb.size ≡ length rb.entries) × (HasRoom rb q ⊎ IsFull rb q)

  pub set_elem-append :
      (x y : A) (before after : List A)
      → set_elem (length before) x (before ++ y ∷ after) ≡ some (before ++ x ∷ after)
  set_elem-append x y [] after = refl
  set_elem-append x y (b ∷ before) after = rw (set_elem-append x y before after) refl

  get_elem?-append :
      (y : A) (before after : List A) → get_elem? (before ++ y ∷ after) (length before) ≡ some y
  get_elem?-append y [] after = refl
  get_elem?-append y (b ∷ before) after = get_elem?-append y before after

  -- A run of the loop over neighbours, in the turn that begins at index w.
  read_from-run :
      (entries pre mid post : List A) (size start i next w left total : ℕ)
      → entries ≡ pre ++ (mid ++ post)
      → size ≡ length entries
      → ((j : ℕ) → j < size → (w + j) % size ≡ j)
      → start + i ≡ w + length pre
      → next ≡ i + length mid
      → total ≡ length mid + left
      → (rest : List A) → read_from entries size start next left ≡ some rest
      → read_from entries size start i total ≡ some (mid ++ rest)
  unfolding read_from
  read_from-run entries pre [] post size start i next w left total d s turn e n t rest h =
      let here : next ≡ i = omega arith in
      let all : total ≡ left = omega arith in rw (all, ← here) h
  read_from-run entries pre (y ∷ mid) post size start i next w left total d s turn e n t rest h =
      let whole : length entries ≡ length pre + (length (y ∷ mid) + length post) =
        ap (λ z. length z) d
        ∙ (length-append pre ((y ∷ mid) ++ post)
            ∙ ap (λ k. length pre + k) (length-append (y ∷ mid) post)) in
      let index : (start + i) % size ≡ length pre =
        ap (λ k. k % size) e ∙ turn (length pre) (omega arith) in
      let elem : get_elem? entries (length pre) ≡ some y =
        rw d (get_elem?-append y pre (mid ++ post)) in
      let later =
        read_from-run entries (pre ++ y ∷ []) mid post size start (i + 1) next w left
          (length mid + left) (d ∙ sym (append_assoc pre (y ∷ []) (mid ++ post))) s turn
          (rw (length-append pre (y ∷ [])) (omega arith)) (omega arith) refl rest h in
      let more : total ≡ suc (length mid + left) = omega arith in
      rw (more, read_from, index, elem, later) refl

  read_from-room :
      (rb : RingBuffer A) (q rest : List A)
      → rb.size ≡ length rb.entries
      → rb.entries ≡ q ++ rest
      → read_from rb.entries rb.size 0 0 (length q) ≡ some q
  unfolding read_from
  read_from-room rb q rest s e =
      read_from-run rb.entries [] q rest rb.size 0 0 (length q) 0 0 (length q) e s
        (first_turn rb.size) refl (omega arith) (omega arith) [] refl
      ∙ ap (λ z. some z) (append-nil q)

  read_from-full :
      (rb : RingBuffer A) (back front : List A)
      → rb.size ≡ length rb.entries
      → rb.entries ≡ back ++ front
      → read_from rb.entries rb.size (length back) 0 rb.size ≡ some (front ++ back)
  unfolding read_from
  read_from-full rb back front s e =
      let whole : rb.size ≡ length back + length front =
        s ∙ (ap (λ z. length z) e ∙ length-append back front) in
      let second =
        read_from-run rb.entries [] back front rb.size (length back) (length front) rb.size rb.size
          0 (length back) e s (λ j h. add-mod_left rb.size j ∙ mod-eq_of_lt h) (omega arith)
          (omega arith) (omega arith) [] refl in
      read_from-run rb.entries back front [] rb.size (length back) 0 (length front) 0 (length back)
        rb.size (e ∙ ap (λ z. back ++ z) (sym (append-nil front))) s (first_turn rb.size)
        (omega arith) (omega arith) (omega arith) back (second ∙ ap (λ z. some z) (append-nil back))

  pub get_all-Represents : (rb : RingBuffer A) (q : List A) → Represents rb q → get_all rb ≡ some q
  unfolding get_all
  get_all-Represents rb q (s, inl (rest, e, h, c, r)) =
      let whole : length rb.entries ≡ length q + length rest =
        ap (λ z. length z) e ∙ length-append q rest in
      elim (Bool-cases (rb.count == 0)) [
        | inl z ↦
            rw (get_all, z) (ap (λ xs. some xs) (sym (nothing q (sym c ∙ (==_iff rb.count 0).0 z))))
        | inr z ↦
            let apart : (rb.count == rb.size) ≡ false = ground arith in
            rw (get_all, z, apart, c) (read_from-room rb q rest s e)
      ]
    where
      nothing : (xs : List A) → length xs ≡ 0 → xs ≡ []
      nothing [] n = refl
      nothing (x ∷ xs) n = absurd (omega arith)
  get_all-Represents rb q (s, inr (back, front, e, v, h, c, r)) =
      let whole : length rb.entries ≡ length back + length front =
        ap (λ z. length z) e ∙ length-append back front in
      let z : (rb.count == 0) ≡ false = ground arith in
      let same : (rb.count == rb.size) ≡ true = (==_iff rb.count rb.size).1 c in
      rw (get_all, z, same, h, c) (read_from-full rb back front s e ∙ ap (λ xs. some xs) (sym v))
