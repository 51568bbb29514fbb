-- ===== src/GoMap.antt =====
-- Go's built-in map as an association list. A write puts the key in front and drops its older
-- entry, so a map that starts empty holds each key once; `range` visits the entries in some order,
-- which here is the order of the list. Reads and writes are characterised by the laws at the end.
use distributed_virtual_file.Prelude.{
  ◌+◌, ◌≤◌, ◌<◌, ◌≡◌, refl, sym, ap, ◌∙◌, subst, inl, inr, Bool, true, false, not, Option, none,
  some, List, [], ◌∷◌, map, arith, if◌then◌else◌, Bool-cases, Option-cases, Eq, ◌==◌, ==_iff,
  ==_refl, length, keep, length-keep-le, In, contains, Distinct,
}

abbrev pub GoMap : Type 0 → Type 0 → Type 0
GoMap K V = List (K × V)

module _ {K V : Type 0} where
  abbrev pub keys : GoMap K V → List K
  keys m = map (λ e. e.0) m

  pub In-keys-keep :
      (p : K × V → Bool) (k : K) (m : GoMap K V) → In k (keys (keep p m)) → In k (keys m)
  In-keys-keep p k [] i = i
  In-keys-keep p k (x ∷ m) i = elim (Bool-cases (p x)) [
    | inl t ↦
        let split : In k (keys (x ∷ keep p m)) → In k (keys (x ∷ m)) =
          λ j. elim j [ inl e ↦ inl e | inr h ↦ inr (In-keys-keep p k m h) ] in
        split (rw t at i)
    | inr f ↦ inr (In-keys-keep p k m (rw f at i))
  ]

  -- Every key stands once.
  abbrev pub IsMap : GoMap K V → Type 0
  IsMap m = Distinct (keys m)

  pub keep-IsMap : (p : K × V → Bool) (m : GoMap K V) → IsMap m → IsMap (keep p m)
  keep-IsMap p [] d = tt
  keep-IsMap p (x ∷ m) d = elim (Bool-cases (p x)) [
    | inl t ↦ rw t (λ i. d.0 (In-keys-keep p x.0 m i), keep-IsMap p m d.1)
    | inr f ↦ rw f (keep-IsMap p m d.1)
  ]

abbrev pub is_some : {V : Type 0} → Option V → Bool
is_some none = false
is_some (some v) = true

abbrev pub or_else : {V : Type 0} → Option V → Option V → Option V
or_else none d = d
or_else (some v) d = some v

-- The value is there, and is `v`.
abbrev pub equals : {V : Type 0} ⦃e : Eq V⦄ → V → Option V → Bool
equals v none = false
equals v (some w) = w == v

abbrev pub accept : {V : Type 0} → (V → Bool) → Option V → Option V
accept p none = none
accept p (some v) = if p v then some v else none

module _ {K V : Type 0} ⦃e : Eq K⦄ where
  -- v, ok := m[k]
  unfoldable pub get : K → GoMap K V → Option V
  get k [] = none
  get k ((j, v) ∷ m) = if j == k then some v else get k m

  -- m[k] for a type whose zero value is `d`
  unfoldable pub get_or : K → V → GoMap K V → V
  get_or k d m = elim (get k m) [ none ↦ d | some v ↦ v ]

  -- delete(m, k)
  unfoldable pub delete : K → GoMap K V → GoMap K V
  delete k = keep (λ x. not (x.0 == k))

  -- m[k] = v
  unfoldable pub insert : K → V → GoMap K V → GoMap K V
  insert k v m = (k, v) ∷ delete k m

  pub get-delete :
      (k j : K) (m : GoMap K V) → get j (delete k m) ≡ (if k == j then none else get j m)
  unfolding get delete
  get-delete k j [] = ground arith
  get-delete k j ((i, v) ∷ m) =
      ground (arith, get-delete k j m, e.equal_iff k j, e.equal_iff i k, e.equal_iff i j)

  pub get-insert :
      (k j : K) (v : V) (m : GoMap K V)
      → get j (insert k v m) ≡ (if k == j then some v else get j m)
  unfolding get insert
  get-insert k j v m = ground (arith, get-delete k j m)

  pub get_or-delete :
      (k j : K) (d : V) (m : GoMap K V)
      → get_or j d (delete k m) ≡ (if k == j then d else get_or j d m)
  unfolding get_or
  get_or-delete k j d m = ground (arith, get-delete k j m)

  pub get_or-insert :
      (k j : K) (v d : V) (m : GoMap K V)
      → get_or j d (insert k v m) ≡ (if k == j then v else get_or j d m)
  unfolding get_or
  get_or-insert k j v d m = ground (arith, get-insert k j v m)

  pub get-delete_self : (k : K) (m : GoMap K V) → get k (delete k m) ≡ none
  get-delete_self k m = rw (get-delete k k m, ==_refl k) refl

  pub get-insert_self : (k : K) (v : V) (m : GoMap K V) → get k (insert k v m) ≡ some v
  get-insert_self k v m = rw (get-insert k k v m, ==_refl k) refl

  pub length-delete-le : (k : K) (m : GoMap K V) → length (delete k m) ≤ length m
  unfolding delete
  length-delete-le k m = length-keep-le _ m

  pub length-insert-le : (k : K) (v : V) (m : GoMap K V) → length (insert k v m) ≤ length m + 1
  unfolding insert
  length-insert-le k v m = omega (arith, length-delete-le k m)

  pub length-delete-lt :
      (k : K) (m : GoMap K V) {v : V} → get k m ≡ some v → length (delete k m) < length m
  unfolding get delete
  length-delete-lt k [] h = cc
  length-delete-lt k ((j, w) ∷ m) h = elim (Bool-cases (j == k)) [
    | inl t ↦ rw t (omega (arith, length-delete-le k m))
    | inr f ↦ rw f (omega (arith, length-delete-lt k m (rw f at h)))
  ]

  -- Writing a key that is present does not grow the map.
  pub length-insert_present :
      (k : K) (w : V) (m : GoMap K V) {v : V} → get k m ≡ some v → length (insert k w m) ≤ length m
  unfolding insert
  length-insert_present k w m h = omega (arith, length-delete-lt k m h)

  delete-absent : (k j : K) (m : GoMap K V) → In j (keys (delete k m)) → (k == j) ≡ false
  unfolding delete
  delete-absent k j [] i = absurd i
  delete-absent k j ((i, v) ∷ m) h = elim (Bool-cases (i == k)) [
    | inl t ↦ delete-absent k j m (rw t at h)
    | inr f ↦
        let split : In j (i ∷ keys (delete k m)) → (k == j) ≡ false = λ x. elim x [
          | inl p ↦ elim (Bool-cases (k == j)) [
            | inl same ↦ cc ((==_iff i k).1 (sym p ∙ sym ((==_iff k j).0 same)), f)
            | inr other ↦ other
          ]
          | inr q ↦ delete-absent k j m q
        ] in
        split (rw f at h)
  ]

  pub delete-IsMap : (k : K) (m : GoMap K V) → IsMap m → IsMap (delete k m)
  unfolding delete
  delete-IsMap k m = keep-IsMap _ m

  pub insert-IsMap : (k : K) (v : V) (m : GoMap K V) → IsMap m → IsMap (insert k v m)
  unfolding insert
  insert-IsMap k v m d = (λ i. cc (delete-absent k k m i, ==_refl k), delete-IsMap k m d)

  -- An entry of the list is what a read returns, and the other way round.
  pub In-get : (k : K) (m : GoMap K V) → In k (keys m) → (v : V) × (get k m ≡ some v)
  unfolding get
  In-get k [] i = absurd i
  In-get k ((j, v) ∷ m) (inl h) = (v, rw ((==_iff j k).1 (sym h)) refl)
  In-get k ((j, v) ∷ m) (inr i) = elim (Bool-cases (j == k)) [
    | inl t ↦ (v, rw t refl)
    | inr f ↦ let r = In-get k m i in (r.0, rw f r.1)
  ]

  pub get-In : (k : K) (m : GoMap K V) {v : V} → get k m ≡ some v → In k (keys m)
  unfolding get
  get-In k [] h = cc
  get-In k ((j, v) ∷ m) h = elim (Bool-cases (j == k)) [
    | inl t ↦ inl (sym ((==_iff j k).0 t))
    | inr f ↦ inr (get-In k m (rw f at h))
  ]

  pub contains-keys : (k : K) (m : GoMap K V) → contains k (keys m) ≡ is_some (get k m)
  unfolding get
  contains-keys k [] = refl
  contains-keys k ((j, v) ∷ m) = elim (Bool-cases (j == k)) [
    | inl t ↦ rw t refl
    | inr f ↦ rw f (contains-keys k m)
  ]

  pub get_absent : (k : K) (m : GoMap K V) → ¬ In k (keys m) → get k m ≡ none
  get_absent k m h = elim (Option-cases (get k m)) [
    | inl e ↦ e
    | inr (v, e) ↦ absurd (h (get-In k m e))
  ]

  -- A pass over the map that drops the entries which fail a test.
  pub get-keep :
      (p : K × V → Bool) (k : K) (m : GoMap K V)
      → IsMap m
      → get k (keep p m) ≡ accept (λ v. p (k, v)) (get k m)
  unfolding get
  get-keep p k [] d = refl
  get-keep p k ((j, v) ∷ m) d = elim (Bool-cases (j == k)) [
    | inl t ↦
        let same : j ≡ k = (==_iff j k).0 t in
        let gone : get k (keep p m) ≡ none =
          get_absent k (keep p m)
            (λ i. d.0 (subst (λ z. In z (keys m)) (sym same) (In-keys-keep p k m i))) in
        elim (Bool-cases (p (j, v))) [
          | inl y ↦ rw (y, t) (rw (ap (λ z. p (z, v)) (sym same) ∙ y) refl)
          | inr n ↦ rw (n, t) (rw (ap (λ z. p (z, v)) (sym same) ∙ n) gone)
        ]
    | inr f ↦ elim (Bool-cases (p (j, v))) [
      | inl y ↦ rw (y, f) (get-keep p k m d.1)
      | inr n ↦ rw (n, f) (get-keep p k m d.1)
    ]
  ]

module _ {V : Type 0} ⦃ev : Eq V⦄ where
  accepted : (v : V) (o : Option V) → is_some (accept (λ w. w == v) o) ≡ equals v o
  accepted v none = refl
  accepted v (some w) = elim (Bool-cases (w == v)) [ inl t ↦ rw t refl | inr f ↦ rw f refl ]

module _ {K V : Type 0} ⦃e : Eq K⦄ ⦃ev : Eq V⦄ where
  -- Whether a key is left by the pass that keeps the entries with one value.
  pub contains-keys-keep :
      (v : V) (k : K) (m : GoMap K V)
      → IsMap m
      → contains k (keys (keep (λ x. x.1 == v) m)) ≡ equals v (get k m)
  contains-keys-keep v k m d =
      contains-keys k (keep (λ x. x.1 == v) m)
      ∙ (ap is_some (get-keep (λ x. x.1 == v) k m d) ∙ accepted v (get k m))

pub ruleset map_laws = (get-delete, get-insert, get_or-delete, get_or-insert)
