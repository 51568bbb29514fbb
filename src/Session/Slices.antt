-- ===== src/Session/Slices.antt =====
-- How the steps that remove one session act on the slice of each user.
use distributed_virtual_file.Prelude.{
  String, ◌≡◌, refl, none, some, inl, inr, List, [], ◌∷◌, arith, if◌then◌else◌, ◌==◌, ==_iff,
  string_eq, Bool-cases, Option-cases, without,
}
use distributed_virtual_file.GoMap.{get, get_or, get_or-delete, get_or-insert}
use distributed_virtual_file.Session.{Store, slice, store_slice, remove_from_user_slice}

slice-store_slice :
    (u v : String) (hs : List String) (s : Store)
    → slice v (store_slice u hs s) ≡ (if u == v then hs else slice v s)
unfolding slice
slice-store_slice u v [] s = get_or-delete u v [] s.user_sessions
slice-store_slice u v (h ∷ hs) s = get_or-insert u v (h ∷ hs) [] s.user_sessions

pub missing-slice : (u : String) (s : Store) → get u s.user_sessions ≡ none → slice u s ≡ []
unfolding slice get_or
missing-slice u s e = rw (e, get_or)

pub present-slice :
    (u : String) (hs : List String) (s : Store) → get u s.user_sessions ≡ some hs → slice u s ≡ hs
unfolding slice get_or
present-slice u hs s e = rw (e, get_or)

-- The slice of the named user loses the hash, and the others stay.
pub slice-remove :
    (u v h : String) (s : Store)
    → slice v (remove_from_user_slice u h s) ≡ (if u == v then without h (slice v s) else slice v s)
unfolding remove_from_user_slice
slice-remove u v h s = elim (Option-cases (get u s.user_sessions)) [
  | inl e ↦
      rw (e, remove_from_user_slice)
        (elim (Bool-cases (u == v)) [
          | inl t ↦ rw t (rw (← (==_iff u v).0 t) (rw (missing-slice u s e) refl))
          | inr f ↦ rw f refl
        ])
  | inr (hs, e) ↦
      rw (e, remove_from_user_slice)
        (rw (slice-store_slice u v (without h hs) s) (elim (Bool-cases (u == v)) [
          | inl t ↦ rw t (rw (← (==_iff u v).0 t) (rw (present-slice u hs s e) refl))
          | inr f ↦ rw f refl
        ]))
]

pub sessions-remove :
    (u h : String) (s : Store) → (remove_from_user_slice u h s).sessions ≡ s.sessions
unfolding remove_from_user_slice
sessions-remove u h s = ground arith

pub config-remove :
    (u h : String) (s : Store)
    → ((remove_from_user_slice u h s).per_user_limit ≡ s.per_user_limit)
      × ((remove_from_user_slice u h s).global_limit ≡ s.global_limit)
      × ((remove_from_user_slice u h s).idle_ttl ≡ s.idle_ttl)
      × ((remove_from_user_slice u h s).client_index ≡ s.client_index)
unfolding remove_from_user_slice
config-remove u h s = ground arith
