-- ===== src/Prelude/Lists.antt =====
-- Lists measured by native numbers, filtered by Boolean tests, and membership by recursion.
use Prim.Native.Nat.{ℕ, suc, ◌+◌, ◌≤◌, ◌<◌}
use mathlib.Core.Path.{◌≡◌, refl, sym, ap, ◌∙◌, subst}
use mathlib.Core.Logic.{◌⊎◌, inl, inr}
use mathlib.Core.Bool.{Bool, true, false, not}
use mathlib.Core.List.{List, [], ◌∷◌, ◌++◌}
use native.Mathlib.Omega.{arith}
use distributed_virtual_file.Prelude.Tests.{if◌then◌else◌, Eq, ◌==◌, ==_iff, Bool-cases}

module _ {ℓ} {A : Type ℓ} where
  abbrev pub length : List A → ℕ
  length [] = 0
  length (x ∷ xs) = suc (length xs)

  abbrev pub is_empty : List A → Bool
  is_empty [] = true
  is_empty (x ∷ xs) = false

  pub length-append : (xs ys : List A) → length (xs ++ ys) ≡ length xs + length ys
  length-append [] ys = omega arith
  length-append (x ∷ xs) ys = omega (arith, length-append xs ys)

  -- The elements that pass a test, in order.
  abbrev pub keep : (A → Bool) → List A → List A
  keep p [] = []
  keep p (x ∷ xs) = let rest = keep p xs in if p x then x ∷ rest else rest

  pub length-keep-le : (p : A → Bool) (xs : List A) → length (keep p xs) ≤ length xs
  length-keep-le p [] = omega arith
  length-keep-le p (x ∷ xs) = ground (arith, length-keep-le p xs)

  abbrev pub any : (A → Bool) → List A → Bool
  any p [] = false
  any p (x ∷ xs) = if p x then true else any p xs

module _ {A : Type 0} where
  -- `x` stands in the list.
  abbrev pub In : A → List A → Type 0
  In x [] = ⊥
  In x (y ∷ ys) = (x ≡ y) ⊎ In x ys

  -- No element stands in the list twice.
  abbrev pub Distinct : List A → Type 0
  Distinct [] = Unit
  Distinct (x ∷ xs) = (¬ In x xs) × Distinct xs

  abbrev pub All : (A → Type 0) → List A → Type 0
  All P [] = Unit
  All P (x ∷ xs) = P x × All P xs

  pub All-in : (P : A → Type 0) (x : A) (xs : List A) → All P xs → In x xs → P x
  All-in P x [] a i = absurd i
  All-in P x (y ∷ ys) a (inl e) = subst P (sym e) a.0
  All-in P x (y ∷ ys) a (inr i) = All-in P x ys a.1 i

  pub In-append_left : (x : A) (xs ys : List A) → In x xs → In x (xs ++ ys)
  In-append_left x [] ys i = absurd i
  In-append_left x (y ∷ xs) ys (inl e) = inl e
  In-append_left x (y ∷ xs) ys (inr i) = inr (In-append_left x xs ys i)

  pub In-append_last : (x : A) (xs : List A) → In x (xs ++ x ∷ [])
  In-append_last x [] = inl refl
  In-append_last x (y ∷ xs) = inr (In-append_last x xs)

  pub In-append_cases : (x : A) (xs ys : List A) → In x (xs ++ ys) → In x xs ⊎ In x ys
  In-append_cases x [] ys i = inr i
  In-append_cases x (y ∷ xs) ys (inl e) = inl (inl e)
  In-append_cases x (y ∷ xs) ys (inr i) = elim (In-append_cases x xs ys i) [
    | inl j ↦ inl (inr j)
    | inr j ↦ inr j
  ]

  pub In-keep : (p : A → Bool) (x : A) (xs : List A) → In x xs → p x ≡ true → In x (keep p xs)
  In-keep p x [] i h = i
  In-keep p x (y ∷ ys) (inl e) h = rw (ap p (sym e) ∙ h) (inl e)
  In-keep p x (y ∷ ys) (inr i) h = elim (Bool-cases (p y)) [
    | inl t ↦ rw t (inr (In-keep p x ys i h))
    | inr f ↦ rw f (In-keep p x ys i h)
  ]

  pub In-keep_cases :
      (p : A → Bool) (x : A) (xs : List A) → In x (keep p xs) → In x xs × (p x ≡ true)
  In-keep_cases p x [] i = absurd i
  In-keep_cases p x (y ∷ ys) i = elim (Bool-cases (p y)) [
    | inl t ↦
        let split : In x (y ∷ keep p ys) → In x (y ∷ ys) × (p x ≡ true) = λ j. elim j [
          | inl e ↦ (inl e, ap p e ∙ t)
          | inr k ↦ (inr (In-keep_cases p x ys k).0, (In-keep_cases p x ys k).1)
        ] in
        split (rw t at i)
    | inr f ↦ let r = In-keep_cases p x ys (rw f at i) in (inr r.0, r.1)
  ]

  pub Distinct-keep : (p : A → Bool) (xs : List A) → Distinct xs → Distinct (keep p xs)
  Distinct-keep p [] d = tt
  Distinct-keep p (x ∷ xs) d = elim (Bool-cases (p x)) [
    | inl t ↦ rw t (λ i. d.0 (In-keep_cases p x xs i).0, Distinct-keep p xs d.1)
    | inr f ↦ rw f (Distinct-keep p xs d.1)
  ]

module _ {A : Type 0} ⦃e : Eq A⦄ where
  abbrev pub contains : A → List A → Bool
  contains x = any (λ y. y == x)

  pub contains-In : (x : A) (xs : List A) → In x xs → contains x xs ≡ true
  contains-In x [] i = absurd i
  contains-In x (y ∷ ys) (inl p) = rw ((==_iff y x).1 (sym p)) refl
  contains-In x (y ∷ ys) (inr i) = elim (Bool-cases (y == x)) [
    | inl t ↦ rw t refl
    | inr f ↦ rw f (contains-In x ys i)
  ]

  pub In-contains : (x : A) (xs : List A) → contains x xs ≡ true → In x xs
  In-contains x [] h = cc
  In-contains x (y ∷ ys) h = elim (Bool-cases (y == x)) [
    | inl t ↦ inl (sym ((==_iff y x).0 t))
    | inr f ↦ inr (In-contains x ys (rw f at h))
  ]

  -- The list without the occurrences of a value.
  abbrev pub without : A → List A → List A
  without x = keep (λ y. not (y == x))

  pub length-without : (x : A) (xs : List A) → In x xs → length (without x xs) < length xs
  length-without x [] i = absurd i
  length-without x (y ∷ ys) (inl h) =
      rw ((==_iff y x).1 (sym h)) (omega (arith, length-keep-le (λ z. not (z == x)) ys))
  length-without x (y ∷ ys) (inr i) = ground (arith, length-without x ys i)

  -- Distinct values that all stand in a list are no more than the list is long.
  pub pigeonhole :
      (xs ys : List A) → Distinct xs → ((x : A) → In x xs → In x ys) → length xs ≤ length ys
  pigeonhole [] ys d sub = omega arith
  pigeonhole (x ∷ xs) ys d sub = omega (
    arith,
    length-without x ys (sub x (inl refl)),
    pigeonhole xs (without x ys) d.1
        (λ z i. In-keep (λ y. not (y == x)) z ys (sub z (inr i)) (differs z i)),
  )
    where
      differs : (z : A) → In z xs → not (z == x) ≡ true
      differs z i = elim (Bool-cases (z == x)) [
        | inl t ↦ absurd (d.0 (subst (λ w. In w xs) ((==_iff z x).0 t) i))
        | inr f ↦ rw f refl
      ]
