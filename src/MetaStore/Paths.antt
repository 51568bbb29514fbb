-- ===== src/MetaStore/Paths.antt =====
-- NormalizeSharePath keeps the segments that name something.
use Prim.Native.Char.{Char}
use distributed_virtual_file.Prelude.{
  Bool, true, length, any, is_empty, if◌then◌else◌, ◌==◌, ◌&&◌, arith, String, ◌≡◌, refl, ap, ◌∙◌,
  false, not, List, [], ◌∷◌, ◌++◌, nat_eq, Bool-cases, keep, All, inl, inr,
}
use distributed_virtual_file.GoText.{
  chars, from_chars, is_char, slash, forward_slashes, grow_first, split_slashes, join_slashes,
}
use distributed_virtual_file.MetaStore.{is_dropped, kept_segments, normalize_share_path}

pub chars-from_chars : (cs : List Char) → chars (from_chars cs) ≡ cs
chars-from_chars [] = refl
chars-from_chars (c ∷ cs) = ap (λ r. c ∷ r) (chars-from_chars cs)

-- A character that is neither separator.
abbrev IsPlain : Char → Type 0
IsPlain c = (is_char b'/' c ≡ false) × (is_char 92 c ≡ false)

-- A segment as NormalizeSharePath keeps them.
record IsClean (s : List Char) : Type 0 where
  plain : All IsPlain s
  kept : is_dropped s ≡ false

split-plain : (s : List Char) → All IsPlain s → split_slashes s ≡ s ∷ []
unfolding split_slashes
split-plain [] p = refl
split-plain (c ∷ s) p = rw (p.0.0, split-plain s p.1) refl

split-append :
    (s rest : List Char)
    → All IsPlain s
    → split_slashes (s ++ slash ∷ rest) ≡ s ∷ split_slashes rest
unfolding split_slashes
split-append [] rest p = refl
split-append (c ∷ s) rest p = rw (p.0.0, split-append s rest p.1) refl

split-join :
    (s : List Char) (ss : List (List Char))
    → All IsClean (s ∷ ss)
    → split_slashes (join_slashes (s ∷ ss)) ≡ s ∷ ss
unfolding join_slashes
split-join s [] a = split-plain s a.0.plain
split-join s (t ∷ ss) a =
    split-append s (join_slashes (t ∷ ss)) a.0.plain ∙ ap (λ r. s ∷ r) (split-join t ss a.1)

forward-append :
    (s rest : List Char)
    → All IsPlain s
    → forward_slashes (s ++ slash ∷ rest) ≡ s ++ slash ∷ forward_slashes rest
unfolding forward_slashes
forward-append [] rest p = refl
forward-append (c ∷ s) rest p = rw (p.0.1, forward-append s rest p.1) refl

forward-plain : (s : List Char) → All IsPlain s → forward_slashes s ≡ s
unfolding forward_slashes
forward-plain [] p = refl
forward-plain (c ∷ s) p = rw (p.0.1, forward-plain s p.1) refl

forward-join :
    (ss : List (List Char)) → All IsClean ss → forward_slashes (join_slashes ss) ≡ join_slashes ss
unfolding join_slashes forward_slashes
forward-join [] a = refl
forward-join (s ∷ []) a = forward-plain s a.0.plain
forward-join (s ∷ t ∷ ss) a =
    forward-append s (join_slashes (t ∷ ss)) a.0.plain
    ∙ ap (λ r. s ++ slash ∷ r) (forward-join (t ∷ ss) a.1)

keep-clean : (ss : List (List Char)) → All IsClean ss → keep (λ s. not (is_dropped s)) ss ≡ ss
keep-clean [] a = refl
keep-clean (s ∷ ss) a = rw (a.0.kept, keep-clean ss a.1) refl

-- Clean segments come back from the path that they are joined to.
kept-join : (ss : List (List Char)) → All IsClean ss → kept_segments (join_slashes ss) ≡ ss
unfolding kept_segments
kept-join [] a = unfold join_slashes forward_slashes split_slashes is_dropped in refl
kept-join (s ∷ ss) a = rw (forward-join (s ∷ ss) a) (rw (split-join s ss a) (keep-clean (s ∷ ss) a))

-- Every segment of a path with forward slashes only is plain.
abbrev NoBackslash : List Char → Type 0
NoBackslash = All (λ c. is_char 92 c ≡ false)

forward-NoBackslash : (cs : List Char) → NoBackslash (forward_slashes cs)
unfolding forward_slashes
forward-NoBackslash [] = tt
forward-NoBackslash (c ∷ cs) = elim (Bool-cases (is_char 92 c)) [
  | inl t ↦ rw t (refl, forward-NoBackslash cs)
  | inr f ↦ rw f (f, forward-NoBackslash cs)
]

grow-IsPlain :
    (c : Char) (ss : List (List Char))
    → IsPlain c
    → All (All IsPlain) ss
    → All (All IsPlain) (grow_first c ss)
grow-IsPlain c [] p a = ((p, tt), tt)
grow-IsPlain c (s ∷ ss) p a = ((p, a.0), a.1)

split-IsPlain : (cs : List Char) → NoBackslash cs → All (All IsPlain) (split_slashes cs)
unfolding split_slashes
split-IsPlain [] n = (tt, tt)
split-IsPlain (c ∷ cs) n = elim (Bool-cases (is_char b'/' c)) [
  | inl t ↦ rw t (tt, split-IsPlain cs n.1)
  | inr f ↦ rw f (grow-IsPlain c (split_slashes cs) (f, n.0) (split-IsPlain cs n.1))
]

keep-IsClean :
    (ss : List (List Char)) → All (All IsPlain) ss → All IsClean (keep (λ s. not (is_dropped s)) ss)
keep-IsClean [] a = tt
keep-IsClean (s ∷ ss) a = elim (Bool-cases (is_dropped s)) [
  | inl t ↦ rw t (keep-IsClean ss a.1)
  | inr f ↦ rw f (record { plain = a.0; kept = f }, keep-IsClean ss a.1)
]

kept-IsClean : (cs : List Char) → All IsClean (kept_segments cs)
unfolding kept_segments
kept-IsClean cs = keep-IsClean _ (split-IsPlain _ (forward-NoBackslash cs))

pub normalize-normalize :
    (p : String) → normalize_share_path (normalize_share_path p) ≡ normalize_share_path p
unfolding normalize_share_path
normalize-normalize p =
    rw (chars-from_chars (join_slashes (kept_segments (chars p))))
      (rw (kept-join (kept_segments (chars p)) (kept-IsClean (chars p))) refl)

-- A segment that names something: it is neither empty nor a single dot.
abbrev pub is_name : List Char → Bool
is_name s = not (length s == 0) && not (length s == 1 && any (is_char b'.') s)

is_dropped_lem : (s : List Char) → is_dropped s ≡ not (is_name s)
unfolding is_dropped
is_dropped_lem [] = refl
is_dropped_lem (c ∷ []) = ground arith
is_dropped_lem (c ∷ d ∷ cs) = ground arith

-- The segments of a path that name something, where both slashes separate.
abbrev pub names_of : String → List (List Char)
names_of p = keep is_name (split_slashes (forward_slashes (chars p)))

keep_same :
    (p q : List Char → Bool) (ss : List (List Char))
    → ((s : List Char) → p s ≡ q s)
    → keep p ss ≡ keep q ss
keep_same p q [] h = refl
keep_same p q (s ∷ ss) h = rw (h s, keep_same p q ss h) refl

kept_segments_lem : (p : String) → kept_segments (chars p) ≡ names_of p
unfolding kept_segments
kept_segments_lem p = keep_same _ _ _ (λ s. ap not (is_dropped_lem s) ∙ twice (is_name s))
  where
    twice : (b : Bool) → not (not b) ≡ b
    twice true = refl
    twice false = refl

split-normalize :
    (ss : List (List Char))
    → All IsClean ss
    → split_slashes (join_slashes ss) ≡ (if is_empty ss then [] ∷ [] else ss)
split-normalize [] a = unfold join_slashes split_slashes in refl
split-normalize (s ∷ ss) a = split-join s ss a

-- A normalised path splits at its slashes into exactly the segments of the path that name something,
-- in their order, both slashes being separators and empty segments and single dots being left out;
-- it is empty if there are none. Normalising it again leaves it as it is.
pub normalize_share_path_lem :
    (p : String)
    → (split_slashes (chars (normalize_share_path p))
        ≡ (if is_empty (names_of p) then [] ∷ [] else names_of p))
      × (normalize_share_path (normalize_share_path p) ≡ normalize_share_path p)
unfolding normalize_share_path
normalize_share_path_lem p = (
  rw (chars-from_chars (join_slashes (kept_segments (chars p))), ← kept_segments_lem p)
      (split-normalize (kept_segments (chars p)) (kept-IsClean (chars p))),
  normalize-normalize p,
)

normalize_windows : normalize_share_path "\\alice\\.\\proj/" ≡ "alice/proj"
unfolding normalize_share_path kept_segments is_dropped forward_slashes split_slashes join_slashes
normalize_windows = refl
