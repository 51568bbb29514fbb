-- ===== src/GoPath.antt =====
-- The functions of path/filepath that the file server calls, on a system whose separator is `/`.
use Prim.Native.Char.{Char}
use distributed_virtual_file.Prelude.{
  String, ◌≡◌, refl, Bool, true, false, not, ◌||◌, Option, none, some, List, [], ◌∷◌, ◌++◌, map,
  if◌then◌else◌, ◌==◌, string_eq, nat_eq, is_empty, keep,
}
use distributed_virtual_file.GoText.{chars, from_chars, is_char, slash, split_slashes, join_slashes}

abbrev Segment : Type 0
Segment = List Char

unfoldable pub is_rooted : List Char → Bool
is_rooted [] = false
is_rooted (c ∷ cs) = is_char b'/' c

abbrev same_text : Segment → String → Bool
same_text s t = from_chars s == t

-- One segment of a path onto the cleaned ones before it, the last first.
unfoldable pub push_segment : Bool → List Segment → Segment → List Segment
push_segment rooted stack s =
    if is_empty s || same_text s "."
    then stack
    else if same_text s ".."
    then elim stack [
      | [] ↦ if rooted then [] else s ∷ []
      | top ∷ rest ↦ if same_text top ".." then s ∷ top ∷ rest else rest
    ]
    else s ∷ stack

push_all : Bool → List Segment → List Segment → List Segment
push_all rooted stack [] = stack
push_all rooted stack (s ∷ ss) = push_all rooted (push_segment rooted stack s) ss

abbrev reverse_onto : List Segment → List Segment → List Segment
reverse_onto [] acc = acc
reverse_onto (s ∷ ss) acc = reverse_onto ss (s ∷ acc)

-- The segments of the cleaned path.
unfoldable pub clean_segments : String → List Segment
unfolding push_all
clean_segments p = reverse_onto (push_all (is_rooted (chars p)) [] (split_slashes (chars p))) []

render : Bool → List Segment → String
render true ss = from_chars (slash ∷ join_slashes ss)
render false [] = "."
render false (s ∷ ss) = from_chars (join_slashes (s ∷ ss))

-- filepath.Clean
unfoldable pub clean : String → String
unfolding render
clean p = render (is_rooted (chars p)) (clean_segments p)

-- filepath.Join of two elements.
unfoldable pub join : String → String → String
join a b =
    if a == ""
    then if b == "" then "" else clean b
    else if b == ""
    then clean a
    else clean (from_chars (chars a ++ slash ∷ chars b))

-- What is left of two lists of segments after their common start.
unfoldable pub strip_common : List Segment → List Segment → List Segment × List Segment
strip_common [] ts = ([], ts)
strip_common (b ∷ bs) [] = (b ∷ bs, [])
strip_common (b ∷ bs) (t ∷ ts) =
    let rest = strip_common bs ts in if from_chars b == from_chars t then rest else (b ∷ bs, t ∷ ts)

unfoldable pub starts_above : List Segment → Bool
starts_above [] = false
starts_above (s ∷ ss) = same_text s ".."

abbrev differ : Bool → Bool → Bool
differ a b = if a then not b else b

-- filepath.Rel: none for its errors.
unfoldable pub rel : String → String → Option String
unfolding render
rel base target =
    let left = strip_common (clean_segments base) (clean_segments target) in
    if differ (is_rooted (chars base)) (is_rooted (chars target))
    then none
    else if starts_above left.0
    then none
    else some (render false (map (λ s. chars "..") left.0 ++ left.1))

last_segment : Segment → List Segment → Segment
last_segment d [] = d
last_segment d (s ∷ ss) = last_segment s ss

-- filepath.Base
unfoldable pub base : String → String
unfolding last_segment
base p = elim (keep (λ s. not (is_empty s)) (split_slashes (chars p))) [
  | [] ↦ if p == "" then "." else "/"
  | s ∷ ss ↦ from_chars (last_segment s ss)
]

clean_dots : clean "/srv/./data//alice/../bob/" ≡ "/srv/data/bob"
unfolding clean clean_segments push_segment is_rooted split_slashes join_slashes
clean_dots = refl

clean_above : clean "../a/../.." ≡ "../.."
unfolding clean clean_segments push_segment is_rooted split_slashes join_slashes
clean_above = refl

rel_below : rel "/srv/data" "/srv/data/alice/.trash" ≡ some "alice/.trash"
unfolding rel clean_segments push_segment is_rooted split_slashes join_slashes strip_common
    starts_above
rel_below = refl

rel_beside : rel "/srv/data" "/srv/logs" ≡ some "../logs"
unfolding rel clean_segments push_segment is_rooted split_slashes join_slashes strip_common
    starts_above
rel_beside = refl

base_last : base "alice/proj/" ≡ "proj"
unfolding base split_slashes
base_last = refl
