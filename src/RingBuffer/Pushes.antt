-- ===== src/RingBuffer/Pushes.antt =====
-- Push of internal/admin/ringbuffer.go keeps a queue of the last snapshots.
use distributed_virtual_file.Prelude.{
  ℕ, suc, ◌+◌, ◌%◌, ◌<◌, ◌≡◌, refl, sym, ap, ◌∙◌, some, List, [], ◌∷◌, ◌++◌, append-nil,
  append_assoc, arith, if◌then◌else◌, ltb, nat_eq, inl, inr, length, length-append,
}
use native.Mathlib.Nat.{mod-eq_of_lt, mod_self}
use distributed_virtual_file.RingBuffer.{RingBuffer, set_elem, push}
use distributed_virtual_file.RingBuffer.Queue.{enqueue, Represents, set_elem-append}

module _ {A : Type 0} where
  enqueue_short : (n : ℕ) (x : A) (q : List A) → length q < n → enqueue n x q ≡ q ++ x ∷ []
  unfolding enqueue
  enqueue_short n x [] h = refl
  enqueue_short n x (y ∷ ys) h = ground arith

  enqueue_full :
      (n : ℕ) (x y : A) (ys : List A) → length (y ∷ ys) ≡ n → enqueue n x (y ∷ ys) ≡ ys ++ x ∷ []
  unfolding enqueue
  enqueue_full n x y ys h = ground arith

  -- The buffer after a push, with its entries.
  abbrev after : List A → RingBuffer A → RingBuffer A
  after entries rb = record {
    entries = entries;
    size = rb.size;
    head = (rb.head + 1) % rb.size;
    count = if ltb rb.count rb.size then rb.count + 1 else rb.count;
  }

  push-after :
      (s y : A) (rb : RingBuffer A) (before behind : List A)
      → rb.entries ≡ before ++ y ∷ behind
      → rb.head ≡ length before
      → push s rb ≡ some (after (before ++ s ∷ behind) rb)
  unfolding push
  push-after s y rb before behind e h =
      let written : set_elem rb.head s rb.entries ≡ some (before ++ s ∷ behind) =
        rw (h, e) (set_elem-append s y before behind) in
      rw (push, written) refl

  length-replaced :
      (s y : A) (rb : RingBuffer A) (before behind : List A)
      → rb.size ≡ length rb.entries
      → rb.entries ≡ before ++ y ∷ behind
      → (rb.size ≡ length (before ++ s ∷ behind)) × (rb.size ≡ length before + suc (length behind))
  length-replaced s y rb before behind z e =
      let whole : rb.size ≡ length before + suc (length behind) =
        z ∙ (ap (λ es. length es) e ∙ length-append before (y ∷ behind)) in
      (whole ∙ sym (length-append before (s ∷ behind)), whole)

  abbrev pub Pushed : A → RingBuffer A → List A → Type 0
  Pushed s rb q =
      (next : RingBuffer A) × (push s rb ≡ some next)
      × (next.size ≡ rb.size)
      × Represents next (enqueue rb.size s q)

  push-room :
      (s y : A) (rb : RingBuffer A) (q behind : List A)
      → rb.size ≡ length rb.entries
      → rb.entries ≡ q ++ y ∷ behind
      → rb.head ≡ length q
      → rb.count ≡ length q
      → Pushed s rb q
  push-room s y rb q [] z e h c =
      let sizes = length-replaced s y rb q [] z e in
      let grown : (if ltb rb.count rb.size then rb.count + 1 else rb.count) ≡ rb.size =
        ground arith in
      let wrapped : (rb.head + 1) % rb.size ≡ 0 =
        let full : rb.head + 1 ≡ rb.size = omega arith in rw full (mod_self rb.size) in
      (
        after (q ++ s ∷ []) rb,
        push-after s y rb q [] e h,
        refl,
        (
          sizes.0,
          inr (
            [],
            q ++ s ∷ [],
            refl,
            enqueue_short rb.size s q (omega arith) ∙ sym (append-nil (q ++ s ∷ [])),
            wrapped,
            grown,
            rw (length-append q (s ∷ [])) (omega arith),
          ),
        ),
      )
  push-room s y rb q (b ∷ behind) z e h c =
      let sizes = length-replaced s y rb q (b ∷ behind) z e in
      let one_more : length (q ++ s ∷ []) ≡ length q + 1 = length-append q (s ∷ []) in
      let grown : (if ltb rb.count rb.size then rb.count + 1 else rb.count) ≡ length (q ++ s ∷ []) =
        ground arith in
      let inside : rb.head + 1 < rb.size = omega arith in
      let head : (rb.head + 1) % rb.size ≡ length (q ++ s ∷ []) =
        mod-eq_of_lt inside ∙ omega arith in
      let queue : enqueue rb.size s q ≡ q ++ s ∷ [] = enqueue_short rb.size s q (omega arith) in
      (
        after (q ++ s ∷ b ∷ behind) rb,
        push-after s y rb q (b ∷ behind) e h,
        refl,
        (
          sizes.0,
          inl (
              rw queue
                (b ∷ behind, sym (append_assoc q (s ∷ []) (b ∷ behind)), head, grown, omega arith)),
        ),
      )

  push-full :
      (s y : A) (rb : RingBuffer A) (q back front : List A)
      → rb.size ≡ length rb.entries
      → rb.entries ≡ back ++ y ∷ front
      → q ≡ (y ∷ front) ++ back
      → rb.head ≡ length back
      → rb.count ≡ rb.size
      → Pushed s rb q
  push-full s y rb q back [] z e v h c =
      let sizes = length-replaced s y rb back [] z e in
      let grown : (if ltb rb.count rb.size then rb.count + 1 else rb.count) ≡ rb.size =
        ground arith in
      let wrapped : (rb.head + 1) % rb.size ≡ 0 =
        let full : rb.head + 1 ≡ rb.size = omega arith in rw full (mod_self rb.size) in
      let queue : enqueue rb.size s q ≡ back ++ s ∷ [] =
        rw v (enqueue_full rb.size s y back (omega arith)) in
      (
        after (back ++ s ∷ []) rb,
        push-after s y rb back [] e h,
        refl,
        (
          sizes.0,
          inr (
            [],
            back ++ s ∷ [],
            refl,
            queue ∙ sym (append-nil (back ++ s ∷ [])),
            wrapped,
            grown,
            rw (length-append back (s ∷ [])) (omega arith),
          ),
        ),
      )
  push-full s y rb q back (f ∷ front) z e v h c =
      let sizes = length-replaced s y rb back (f ∷ front) z e in
      let grown : (if ltb rb.count rb.size then rb.count + 1 else rb.count) ≡ rb.size =
        ground arith in
      let inside : rb.head + 1 < rb.size = omega arith in
      let head : (rb.head + 1) % rb.size ≡ length (back ++ s ∷ []) =
        mod-eq_of_lt inside ∙ (ap (λ k. k + 1) h ∙ sym (length-append back (s ∷ []))) in
      let counted : length (y ∷ ((f ∷ front) ++ back)) ≡ rb.size =
        ap suc (length-append (f ∷ front) back) ∙ omega arith in
      let queue : enqueue rb.size s q ≡ (f ∷ front) ++ (back ++ s ∷ []) = rw v (
        enqueue_full rb.size s y ((f ∷ front) ++ back) counted
        ∙ append_assoc (f ∷ front) back (s ∷ [])) in
      (
        after (back ++ s ∷ f ∷ front) rb,
        push-after s y rb back (f ∷ front) e h,
        refl,
        (
          sizes.0,
          inr (
            back ++ s ∷ [],
            f ∷ front,
            sym (append_assoc back (s ∷ []) (f ∷ front)),
            queue,
            head,
            grown,
            omega arith,
          ),
        ),
      )

  pub push-Represents : (s : A) (rb : RingBuffer A) (q : List A) → Represents rb q → Pushed s rb q
  push-Represents s rb q (z, inl ([], e, h, c, r)) = absurd (omega arith)
  push-Represents s rb q (z, inl (y ∷ behind, e, h, c, r)) = push-room s y rb q behind z e h c
  push-Represents s rb q (z, inr (back, [], e, v, h, c, r)) = absurd (omega arith)
  push-Represents s rb q (z, inr (back, y ∷ front, e, v, h, c, r)) =
      push-full s y rb q back front z e v h c
