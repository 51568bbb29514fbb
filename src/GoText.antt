-- ===== src/GoText.antt =====
-- The parts of Go's strings and net packages that the program calls, over characters.
use Prim.Native.Char.{Char, code}
use distributed_virtual_file.Prelude.{
  ℕ, zero, suc, ◌+◌, ◌/◌, ◌%◌, String, ◌≡◌, refl, Bool, ◌||◌, ◌&&◌, Option, none, some, List, [],
  ◌++◌, ◌∷◌, if◌then◌else◌, ◌==◌, nat_eq, ltb, length, any, is_empty,
}

abbrev pub chars : String → List Char
chars String.[] = []
chars (String.◌∷◌ c s) = c ∷ chars s

abbrev pub from_chars : List Char → String
from_chars [] = ""
from_chars (c ∷ cs) = String.◌∷◌ c (from_chars cs)

abbrev pub is_char : ℕ → Char → Bool
is_char n c = code c == n

-- strings.IndexByte and strings.LastIndexByte of a character below 128.
unfoldable pub index_of : ℕ → List Char → Option ℕ
index_of n [] = none
index_of n (c ∷ cs) =
    let later = index_of n cs in
    if is_char n c then some 0 else elim later [ none ↦ none | some i ↦ some (suc i) ]

unfoldable pub last_index_of : ℕ → List Char → Option ℕ
last_index_of n [] = none
last_index_of n (c ∷ cs) = elim (last_index_of n cs) [
  | some i ↦ some (suc i)
  | none ↦ if is_char n c then some 0 else none
]

abbrev pub take : ℕ → List Char → List Char
take zero cs = []
take (suc n) [] = []
take (suc n) (c ∷ cs) = c ∷ take n cs

abbrev pub drop : ℕ → List Char → List Char
drop zero cs = cs
drop (suc n) [] = []
drop (suc n) (c ∷ cs) = drop n cs

-- strings.Trim, for a set of characters.
trim_left : (Char → Bool) → List Char → List Char
trim_left p [] = []
trim_left p (c ∷ cs) = if p c then trim_left p cs else c ∷ cs

trim_right : (Char → Bool) → List Char → List Char
trim_right p [] = []
trim_right p (c ∷ cs) = let rest = trim_right p cs in if is_empty rest && p c then [] else c ∷ rest

unfoldable pub trim : (Char → Bool) → String → String
unfolding trim_left trim_right
trim p s = from_chars (trim_right p (trim_left p (chars s)))

abbrev pub is_bracket : Char → Bool
is_bracket c = is_char b'[' c || is_char b']' c

-- The last check of net.SplitHostPort: no stray bracket in what is left.
host_if_clean : List Char → List Char → List Char → Option String
host_if_clean host opening closing =
    if any (is_char b'[') opening || any (is_char b']') closing
    then none
    else some (from_chars host)

bracketed_host : List Char → ℕ → ℕ → Option String
unfolding host_if_clean
bracketed_host cs colon end =
    if end + 1 == length cs
    then none
    else if end + 1 == colon
    then host_if_clean (drop 1 (take end cs)) (drop 1 cs) (drop (end + 1) cs)
    else none

plain_host : List Char → ℕ → Option String
unfolding host_if_clean
plain_host cs colon =
    if any (is_char b':') (take colon cs) then none else host_if_clean (take colon cs) cs cs

split_chars : List Char → ℕ → Option String
unfolding bracketed_host plain_host index_of
split_chars [] colon = none
split_chars (c ∷ cs) colon =
    if is_char b'[' c
    then elim (index_of b']' (c ∷ cs)) [
      | none ↦ none
      | some end ↦ bracketed_host (c ∷ cs) colon end
    ]
    else plain_host (c ∷ cs) colon

-- net.SplitHostPort: the host, or `none` for its errors.
unfoldable pub split_host_port : String → Option String
unfolding split_chars last_index_of
split_host_port s = elim (last_index_of b':' (chars s)) [
  | none ↦ none
  | some colon ↦ split_chars (chars s) colon
]

abbrev pub slash : Char
slash = "/"

-- strings.ReplaceAll(p, "\\", "/")
unfoldable pub forward_slashes : List Char → List Char
forward_slashes [] = []
forward_slashes (c ∷ cs) = (if is_char 92 c then slash else c) ∷ forward_slashes cs

abbrev pub grow_first : Char → List (List Char) → List (List Char)
grow_first c [] = (c ∷ []) ∷ []
grow_first c (s ∷ ss) = (c ∷ s) ∷ ss

-- strings.Split(p, "/")
unfoldable pub split_slashes : List Char → List (List Char)
split_slashes [] = [] ∷ []
split_slashes (c ∷ cs) =
    let rest = split_slashes cs in if is_char b'/' c then [] ∷ rest else grow_first c rest

-- strings.Join(segments, "/")
unfoldable pub join_slashes : List (List Char) → List Char
join_slashes [] = []
join_slashes (s ∷ []) = s
join_slashes (s ∷ t ∷ ss) = s ++ slash ∷ join_slashes (t ∷ ss)

split_ipv4 : split_host_port "10.0.0.1:80" ≡ some "10.0.0.1"
unfolding split_host_port
split_ipv4 = refl

split_ipv6 : split_host_port "[::1]:80" ≡ some "::1"
unfolding split_host_port
split_ipv6 = refl

split_bad : split_host_port "::1" ≡ none
unfolding split_host_port
split_bad = refl

trim_example : trim is_bracket "[::1]" ≡ "::1"
unfolding trim
trim_example = refl

abbrev pub concat : String → String → String
concat a b = from_chars (chars a ++ chars b)

-- strings.HasPrefix and strings.TrimPrefix in one: what follows the prefix, if it is one.
unfoldable pub strip_chars : List Char → List Char → Option (List Char)
strip_chars [] cs = some cs
strip_chars (p ∷ ps) [] = none
strip_chars (p ∷ ps) (c ∷ cs) =
    let rest = strip_chars ps cs in if code p == code c then rest else none

unfoldable pub strip_prefix : String → String → Option String
strip_prefix prefix s = elim (strip_chars (chars prefix) (chars s)) [
  | none ↦ none
  | some rest ↦ some (from_chars rest)
]

unfoldable pub trim_prefix : String → String → String
trim_prefix prefix s = elim (strip_prefix prefix s) [ none ↦ s | some rest ↦ rest ]

abbrev pick : ℕ → List String → String
pick n [] = ""
pick zero (d ∷ ds) = d
pick (suc n) (d ∷ ds) = pick n ds

abbrev digit : ℕ → String
digit n = pick n ("0" ∷ "1" ∷ "2" ∷ "3" ∷ "4" ∷ "5" ∷ "6" ∷ "7" ∷ "8" ∷ "9" ∷ [])

-- A number in decimal, on fuel for its digits.
unfoldable pub decimal : ℕ → ℕ → String
decimal zero n = digit (n % 10)
decimal (suc fuel) n =
    let before = decimal fuel (n / 10) in
    if ltb n 10 then digit n else concat before (digit (n % 10))

decimal_example : decimal 20 1024 ≡ "1024"
unfolding decimal
decimal_example = refl
