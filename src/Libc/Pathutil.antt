-- ===== src/Libc/Pathutil.antt =====
-- Making paths canonical (libraries/libc/src/pathutil.c).
pub mod Laws
pub mod Bounds
pub mod Components
use saynaa_os.Prelude.{
  ℕ, zero, suc, ◌+◌, ◌-◌, ◌==◌, ltb, ◌||◌, Bool, true, false, not, Option, none, some, List, [],
  ◌∷◌, ◌++◌, if◌then◌else◌, length, drop, take,
}
use saynaa_os.Libc.Strings.{same}
use saynaa_os.Libc.Fields.{skip_while, word}

abbrev pub slash : ℕ
slash = b'/'

unfoldable pub is_slash : ℕ → Bool
is_slash c = c == slash

-- What one component does to the stack `segments[0 .. top)`, here with its last element in front.
unfoldable pub push_segment : List (List ℕ) → List ℕ → List (List ℕ)
push_segment segments s =
    if same s (b'.' ∷ [])
    then segments
    else if same s (b'.' ∷ b'.' ∷ [])
    then drop 1 segments
    else if ltb (length segments) 64
    then s ∷ segments
    else segments

-- The loop over the components, with `fuel` rounds; `none` if they do not suffice.
unfoldable pub collect : (fuel : ℕ) → List ℕ → List (List ℕ) → Option (List (List ℕ))
collect zero token segments = none
collect (suc fuel) token segments = elim (skip_while is_slash token) [
  | [] ↦ some segments
  | c ∷ cs ↦
      let (start, rest) = word is_slash (c ∷ cs) in
      collect fuel (drop 1 rest) (push_segment segments start)
]

-- The last loop: a slash and a segment, for each.
unfoldable pub render : List (List ℕ) → List ℕ
render [] = []
render (s ∷ segments) = render segments ++ slash ∷ s

abbrev pub written : List (List ℕ) → List ℕ
written [] = slash ∷ []
written (s ∷ segments) = render (s ∷ segments)

-- The path, of which 255 characters are read, after the call; `none` is the null pointer, for which,
-- as for the empty path, the result is 0.
unfoldable pub normalize_path : Option (List ℕ) → Option (List ℕ)
unfolding collect
normalize_path none = none
normalize_path (some path) =
    if length path == 0
    then none
    else elim (collect (length (take 255 path) + 1) (take 255 path) []) [
      | none ↦ none
      | some segments ↦ some (written segments)
    ]

-- The text that `make_abs_path` puts together before it is made canonical; the buffer holds
-- `out_len - 1` characters.
unfoldable pub joined : (cwd input : List ℕ) → (out_len : ℕ) → List ℕ
joined cwd [] out_len =
    take (out_len - 1) (if same cwd (slash ∷ []) then slash ∷ [] else cwd ++ slash ∷ [])
joined cwd (c ∷ cs) out_len = take (out_len - 1) (
    if c == slash
    then c ∷ cs
    else if same cwd (slash ∷ [])
    then slash ∷ c ∷ cs
    else cwd ++ slash ∷ c ∷ cs)

-- `present` says that no pointer is null.
unfoldable pub make_abs_path :
    (present : Bool) → (cwd input : List ℕ) → (out_len : ℕ) → Option (List ℕ)
make_abs_path present cwd input out_len =
    if not present || out_len == 0 then none else normalize_path (some (joined cwd input out_len))
