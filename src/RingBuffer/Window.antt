-- ===== src/RingBuffer/Window.antt =====
-- The buffer of internal/admin/ringbuffer.go holds a window on the snapshots pushed: the last ones, in
-- order.
use distributed_virtual_file.Prelude.{
  ℕ, zero, suc, ◌+◌, ◌-◌, ◌≤◌, ◌<◌, ◌≡◌, refl, sym, ap, ◌∙◌, subst, some, List, [], ◌∷◌, ◌++◌,
  append-nil, append_assoc, arith, inl, inr, length, length-append, ltb, Bool-cases,
}
use distributed_virtual_file.RingBuffer.{RingBuffer, replicate, new_ring_buffer, get_all, push_all}
use distributed_virtual_file.RingBuffer.Queue.{enqueue, enqueue_all, Represents, get_all-Represents}
use distributed_virtual_file.RingBuffer.Pushes.{push-Represents}

module _ {A : Type 0} where
  -- xs without its first k elements.
  abbrev pub drop : ℕ → List A → List A
  drop zero xs = xs
  drop (suc k) [] = []
  drop (suc k) (x ∷ xs) = drop k xs

  drop-nil : (k : ℕ) → drop k [] ≡ []
  drop-nil zero = refl
  drop-nil (suc k) = refl

  length-drop : (k : ℕ) (xs : List A) → length (drop k xs) ≡ length xs - k
  length-drop zero xs = omega arith
  length-drop (suc k) [] = omega arith
  length-drop (suc k) (x ∷ xs) = length-drop k xs ∙ omega arith

  drop-drop : (a b : ℕ) (xs : List A) → drop a (drop b xs) ≡ drop (b + a) xs
  drop-drop a zero xs = let same : 0 + a ≡ a = omega arith in rw same refl
  drop-drop a (suc b) [] = drop-nil a ∙ sym (drop-nil (suc b + a))
  drop-drop a (suc b) (x ∷ xs) =
      let more : suc b + a ≡ suc (b + a) = omega arith in rw more (drop-drop a b xs)

  length-enqueue : (n : ℕ) (x : A) (q : List A) → 0 < n → length q ≤ n → length (enqueue n x q) ≤ n
  unfolding enqueue
  length-enqueue n x [] p h = omega arith
  length-enqueue n x (y ∷ ys) p h =
      ground (arith, length-append ys (x ∷ []), length-append (y ∷ ys) (x ∷ []))

  -- The queue and the values still to come are the window of all the values.
  enqueue-append :
      (n : ℕ) (x : A) (q xs : List A)
      → 0 < n
      → length q ≤ n
      → enqueue n x q ++ xs ≡ drop (length q + 1 - n) (q ++ x ∷ xs)
  unfolding enqueue
  enqueue-append n x [] xs p h = let none_left : 0 + 1 - n ≡ 0 = omega arith in rw none_left refl
  enqueue-append n x (y ∷ ys) xs p h = elim (Bool-cases (ltb (length (y ∷ ys)) n)) [
    | inl t ↦
        let none_left : length (y ∷ ys) + 1 - n ≡ 0 = ground arith in
        rw (t, none_left) (append_assoc (y ∷ ys) (x ∷ []) xs)
    | inr f ↦
        let one_left : length (y ∷ ys) + 1 - n ≡ 1 = ground arith in
        rw (f, one_left) (append_assoc ys (x ∷ []) xs)
  ]

  enqueue_all-drop :
      (n : ℕ) (xs q : List A)
      → 0 < n
      → length q ≤ n
      → enqueue_all n xs q ≡ drop (length (q ++ xs) - n) (q ++ xs)
  unfolding enqueue_all
  enqueue_all-drop n [] q p h =
      let none_left : length (q ++ []) - n ≡ 0 = rw (length-append q []) (omega arith) in
      rw none_left (sym (append-nil q))
  enqueue_all-drop n (x ∷ xs) q p h =
      let all = q ++ x ∷ xs in
      let gone = length q + 1 - n in
      let window = enqueue-append n x q xs p h in
      let size : length all ≡ length q + suc (length xs) = length-append q (x ∷ xs) in
      enqueue_all-drop n xs (enqueue n x q) p (length-enqueue n x q p h)
      ∙ (ap (λ z. drop (length z - n) z) window
          ∙ (ap (λ k. drop (k - n) (drop gone all)) (length-drop gone all)
              ∙ (drop-drop (length all - gone - n) gone all ∙ ap (λ k. drop k all) (omega arith))))

  push_all-Represents :
      (xs : List A) (rb : RingBuffer A) (q : List A)
      → Represents rb q
      → (next : RingBuffer A) × (push_all xs rb ≡ some next)
        × Represents next (enqueue_all rb.size xs q)
  unfolding push_all enqueue_all
  push_all-Represents [] rb q r = (rb, refl, r)
  push_all-Represents (x ∷ xs) rb q r =
      let (one, p, s, t) = push-Represents x rb q r in
      let (next, a, u) = push_all-Represents xs one (enqueue rb.size x q) t in
      (
        next,
        rw (push_all, p) a,
        subst (λ k. Represents next (enqueue_all k xs (enqueue rb.size x q))) s u,
      )

  new_ring_buffer-Represents : (empty : A) (n : ℕ) → 0 < n → Represents (new_ring_buffer empty n) []
  unfolding new_ring_buffer
  new_ring_buffer-Represents empty n p = (
    sym (length-replicate n),
    inl (replicate n empty, refl, refl, refl, subst (λ k. 0 < k) (sym (length-replicate n)) p),
  )
    where
      length-replicate : (k : ℕ) → length (replicate k empty) ≡ k
      length-replicate zero = refl
      length-replicate (suc k) = ap suc (length-replicate k)

  -- After any snapshots have been pushed to a new buffer of a capacity that is not 0, no index was out
  -- of range, and GetAll returns the last of them, as many as the capacity or all if they are fewer,
  -- in the order in which they came.
  pub get_all-push_all :
      (empty : A) (n : ℕ) (xs : List A)
      → 0 < n
      → (rb : RingBuffer A) × (push_all xs (new_ring_buffer empty n) ≡ some rb)
        × (get_all rb ≡ some (drop (length xs - n) xs))
  unfolding new_ring_buffer
  get_all-push_all empty n xs p =
      let (rb, a, r) =
        push_all-Represents xs (new_ring_buffer empty n) []
          (new_ring_buffer-Represents empty n p) in
      (
        rb,
        a,
        get_all-Represents rb (enqueue_all n xs []) r
            ∙ ap (λ z. some z) (enqueue_all-drop n xs [] p (omega arith)),
      )
