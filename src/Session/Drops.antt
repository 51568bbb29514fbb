-- ===== src/Session/Drops.antt =====
-- A step that removes at most one session: what it may change, and that each removal is one.
use distributed_virtual_file.Prelude.{
  ◌≤◌, String, ◌≡◌, refl, sym, true, false, not, none, inl, inr, arith, if◌then◌else◌, ◌==◌, ==_iff,
  string_eq, Bool-cases, Option-cases, length, length-keep-le, In, In-keep,
}
use distributed_virtual_file.GoMap.{
  GoMap, IsMap, get, delete, get-delete, length-delete-le, delete-IsMap,
}
use distributed_virtual_file.Session.{Store, slice, remove_from_user_slice, purge_one}
use distributed_virtual_file.Session.Slices.{slice-remove, sessions-remove, config-remove}

pub record Drops (h : String) (s t : Store) : Type 0 where
  pub lookup : (j : String) → get j t.sessions ≡ (if h == j then none else get j s.sessions)
  pub listed : (u j : String) → (h == j) ≡ false → In j (slice u s) → In j (slice u t)
  pub shorter : (u : String) → length (slice u t) ≤ length (slice u s)
  pub smaller : length t.sessions ≤ length s.sessions
  pub maps : IsMap s.sessions → IsMap t.sessions
  pub same_user_limit : t.per_user_limit ≡ s.per_user_limit
  pub same_global_limit : t.global_limit ≡ s.global_limit
  pub same_ttl : t.idle_ttl ≡ s.idle_ttl

not-eq : (h j : String) → (h == j) ≡ false → not (j == h) ≡ true
not-eq h j f = elim (Bool-cases (j == h)) [
  | inl t ↦ cc ((==_iff h j).1 (sym ((==_iff j h).0 t)), f)
  | inr g ↦ rw g refl
]

-- A removal that finds nothing changes nothing.
pub Drops-absent : (h : String) (s : Store) → get h s.sessions ≡ none → Drops h s s
Drops-absent h s e = record {
  lookup = λ j. elim (Bool-cases (h == j)) [
    | inl t ↦ rw t (rw (← (==_iff h j).0 t) e)
    | inr f ↦ rw f refl
  ];
  listed = λ u j _ i. i;
  shorter = λ u. omega arith;
  smaller = omega arith;
  maps = λ m. m;
  same_user_limit = refl;
  same_global_limit = refl;
  same_ttl = refl;
}

module _ (h : String) (s : Store) (index : GoMap String String) where
  abbrev pub dropped : Store
  dropped = record s { sessions = delete h s.sessions; client_index = index }

  pub Drops-dropped : Drops h s dropped
  unfolding slice
  Drops-dropped = record {
    lookup = λ j. get-delete h j s.sessions;
    listed = λ u j _ i. i;
    shorter = λ u. omega arith;
    smaller = length-delete-le h s.sessions;
    maps = delete-IsMap h s.sessions;
    same_user_limit = refl;
    same_global_limit = refl;
    same_ttl = refl;
  }

  listed-remove :
      (o u j : String)
      → (h == j) ≡ false
      → In j (slice u s)
      → In j (slice u (remove_from_user_slice o h dropped))
  unfolding slice
  listed-remove o u j f i = rw (slice-remove o u h dropped) (elim (Bool-cases (o == u)) [
    | inl t ↦ rw t (In-keep (λ y. not (y == h)) j (slice u s) i (not-eq h j f))
    | inr g ↦ rw g i
  ])

  shorter-remove :
      (o u : String) → length (slice u (remove_from_user_slice o h dropped)) ≤ length (slice u s)
  unfolding slice
  shorter-remove o u = rw (slice-remove o u h dropped) (elim (Bool-cases (o == u)) [
    | inl t ↦ rw t (length-keep-le (λ y. not (y == h)) (slice u s))
    | inr g ↦ rw g (omega arith)
  ])

  -- The session goes, and its hash goes from the slice of the owner that is named.
  pub Drops-remove : (o : String) → Drops h s (remove_from_user_slice o h dropped)
  Drops-remove o = record {
    lookup = λ j. rw sessions-remove (get-delete h j s.sessions);
    listed = listed-remove o;
    shorter = shorter-remove o;
    smaller = rw sessions-remove (length-delete-le h s.sessions);
    maps = λ m. rw sessions-remove (delete-IsMap h s.sessions m);
    same_user_limit = (config-remove o h dropped).0;
    same_global_limit = (config-remove o h dropped).1;
    same_ttl = (config-remove o h dropped).2;
  }

pub purge_one-Drops : (h : String) (s : Store) → Drops h s (purge_one h s)
unfolding purge_one
purge_one-Drops h s = elim (Option-cases (get h s.sessions)) [
  | inl e ↦ rw (e, purge_one) (Drops-dropped h s s.client_index)
  | inr (x, e) ↦ rw (e, purge_one) (Drops-remove h s (delete x.client_id s.client_index) x.username)
]
