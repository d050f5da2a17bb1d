-- ===== src/Libc/Pathutil/Components.antt =====
-- What `normalize_path` of libraries/libc/src/pathutil.c does to the components of a path.
use saynaa_os.Prelude.{
  ℕ, zero, suc, ◌<◌, ◌≤◌, ◌≡◌, ◌≢◌, ◌==◌, refl, sym, ap, ◌∙◌, ltb, Bool-cases, inl, inr, some, List,
  [], ◌∷◌, ◌++◌, append_assoc, length, length-append, take, drop, append-nil, arith,
}
use saynaa_os.Libc.Strings.{same, same_iff, IsString}
use saynaa_os.Libc.Fields.{flush, fields, fields_from}
use saynaa_os.Libc.Pathutil.{is_slash, push_segment, render, written, normalize_path}
use saynaa_os.Libc.Pathutil.Laws.{push_all, normalize_path-push_all}

-- The directories on the way, from the root down, before and after one component: "." stays, ".."
-- goes up, but not above the root, and a name goes down, up to a depth of 64.
pub data Step : List (List ℕ) → List ℕ → List (List ℕ) → Type 0 where
  stay : (way : List (List ℕ)) → Step way (b'.' ∷ []) way
  top : Step [] (b'.' ∷ b'.' ∷ []) []
  up : (way : List (List ℕ)) (last : List ℕ) → Step (way ++ last ∷ []) (b'.' ∷ b'.' ∷ []) way
  down :
      (way : List (List ℕ)) (s : List ℕ)
      → s ≢ b'.' ∷ []
      → s ≢ b'.' ∷ b'.' ∷ []
      → length way < 64
      → Step way s (way ++ s ∷ [])
  deep :
      (way : List (List ℕ)) (s : List ℕ)
      → s ≢ b'.' ∷ []
      → s ≢ b'.' ∷ b'.' ∷ []
      → 64 ≤ length way
      → Step way s way

-- The same for components one after the other.
pub data Steps : List (List ℕ) → List (List ℕ) → List (List ℕ) → Type 0 where
  done : (way : List (List ℕ)) → Steps way [] way
  next :
      (way between after : List (List ℕ)) (s : List ℕ) (names : List (List ℕ))
      → Step way s between
      → Steps between names after
      → Steps way (s ∷ names) after

-- Each name behind a slash.
abbrev pub slashed : List (List ℕ) → List ℕ
slashed [] = []
slashed (s ∷ way) = b'/' ∷ s ++ slashed way

-- The text of a way: a slash for the root itself.
abbrev pub path_of : List (List ℕ) → List ℕ
path_of [] = b'/' ∷ []
path_of (s ∷ way) = slashed (s ∷ way)

-- The stack has the last directory in front.
unfoldable way_of : List (List ℕ) → List (List ℕ)
way_of [] = []
way_of (s ∷ stack) = way_of stack ++ s ∷ []

length-way_of : (stack : List (List ℕ)) → length (way_of stack) ≡ length stack
unfolding way_of
length-way_of [] = refl
length-way_of (s ∷ stack) =
    omega (arith, length-append (way_of stack) (s ∷ []), length-way_of stack)

push_segment-Step :
    (stack : List (List ℕ)) (s : List ℕ)
    → IsString s
    → Step (way_of stack) s (way_of (push_segment stack s))
unfolding push_segment
push_segment-Step stack s string = elim (Bool-cases (same s (b'.' ∷ []))) [
  | inl dot ↦ rw (dot, (same_iff s (b'.' ∷ []) string dot-IsString).0 dot) (stay (way_of stack))
  | inr one ↦ elim (Bool-cases (same s (b'.' ∷ b'.' ∷ []))) [
    | inl dots ↦
        rw (one, dots, (same_iff s (b'.' ∷ b'.' ∷ []) string dots-IsString).0 dots) (popped stack)
    | inr two ↦
        let ne : s ≢ b'.' ∷ [] =
          λ e. (let is = (same_iff s (b'.' ∷ []) string dot-IsString).1 e in cc) in
        let ne_dots : s ≢ b'.' ∷ b'.' ∷ [] =
          λ e. (let is = (same_iff s (b'.' ∷ b'.' ∷ []) string dots-IsString).1 e in cc) in
        elim (Bool-cases (ltb (length stack) 64)) [
          | inl room ↦
              rw (one, two, room)
                (entered (down (way_of stack) s ne ne_dots (ground (arith, length-way_of stack))))
          | inr full ↦
              rw (one, two, full)
                (deep (way_of stack) s ne ne_dots (ground (arith, length-way_of stack)))
        ]
  ]
]
  where
    dot-IsString : IsString (b'.' ∷ [])
    dot-IsString = (λ e. omega arith, tt)

    dots-IsString : IsString (b'.' ∷ b'.' ∷ [])
    dots-IsString = (λ e. omega arith, (λ e. omega arith, tt))

    popped :
        (stack : List (List ℕ)) → Step (way_of stack) (b'.' ∷ b'.' ∷ []) (way_of (drop 1 stack))
    popped [] = unfold way_of in top
    popped (x ∷ stack) = unfold way_of in up (way_of stack) x

    entered :
        Step (way_of stack) s (way_of stack ++ s ∷ []) → Step (way_of stack) s (way_of (s ∷ stack))
    entered t = unfold way_of in t

-- All names are strings.
abbrev AllStrings : List (List ℕ) → Type 0
AllStrings [] = Unit {0}
AllStrings (s ∷ ss) = IsString s × AllStrings ss

push_all-Steps :
    (names stack : List (List ℕ))
    → AllStrings names
    → Steps (way_of stack) names (way_of (push_all stack names))
unfolding push_all
push_all-Steps [] stack all = done (way_of stack)
push_all-Steps (s ∷ ss) stack all =
    next (way_of stack) (way_of (push_segment stack s))
      (way_of (push_all (push_segment stack s) ss)) s ss (push_segment-Step stack s all.0)
      (push_all-Steps ss (push_segment stack s) all.1)

flush-AllStrings :
    (acc : List ℕ) (r : List (List ℕ)) → IsString acc → AllStrings r → AllStrings (flush acc r)
flush-AllStrings [] r v all = all
flush-AllStrings (c ∷ cs) r v all = (v, all)

IsString-snoc : (s : List ℕ) (c : ℕ) → IsString s → c ≢ 0 → IsString (s ++ c ∷ [])
IsString-snoc [] c v ne = (ne, tt)
IsString-snoc (x ∷ s) c v ne = (v.0, IsString-snoc s c v.1 ne)

fields_from-AllStrings :
    (acc t : List ℕ) → IsString acc → IsString t → AllStrings (fields_from is_slash acc t)
unfolding fields_from
fields_from-AllStrings acc [] v w = flush-AllStrings acc [] v tt
fields_from-AllStrings acc (c ∷ cs) v w = elim (Bool-cases (is_slash c)) [
  | inl e ↦ rw e (flush-AllStrings acc _ v (fields_from-AllStrings [] cs tt w.1))
  | inr ne ↦ rw ne (fields_from-AllStrings (acc ++ c ∷ []) cs (IsString-snoc acc c v w.0) w.1)
]

IsString-take : (n : ℕ) (s : List ℕ) → IsString s → IsString (take n s)
IsString-take zero s v = tt
IsString-take (suc n) [] v = tt
IsString-take (suc n) (c ∷ cs) v = (v.0, IsString-take n cs v.1)

slashed-snoc :
    (way : List (List ℕ)) (s : List ℕ) → slashed (way ++ s ∷ []) ≡ slashed way ++ b'/' ∷ s
slashed-snoc [] s = ap (λ l. b'/' ∷ l) (append-nil s)
slashed-snoc (x ∷ way) s =
    ap (λ l. b'/' ∷ x ++ l) (slashed-snoc way s)
    ∙ ap (λ l. b'/' ∷ l) (sym (append_assoc x (slashed way) (b'/' ∷ s)))

slashed-way_of : (stack : List (List ℕ)) → slashed (way_of stack) ≡ render stack
unfolding way_of render
slashed-way_of [] = refl
slashed-way_of (s ∷ stack) =
    slashed-snoc (way_of stack) s ∙ ap (λ l. l ++ b'/' ∷ s) (slashed-way_of stack)

path_of-way_of : (stack : List (List ℕ)) → path_of (way_of stack) ≡ written stack
unfolding way_of
path_of-way_of [] = refl
path_of-way_of (s ∷ stack) = not_root (way_of stack) ∙ slashed-way_of (s ∷ stack)
  where
    not_root : (way : List (List ℕ)) → path_of (way ++ s ∷ []) ≡ slashed (way ++ s ∷ [])
    not_root [] = refl
    not_root (x ∷ way) = refl

-- On a path that is not empty and has no 0 inside, `normalize_path` ends and writes the way that its
-- first 255 characters lead from the root: of their components, the stretches between slashes in
-- order, each "." changes nothing, each ".." takes away the last name that is left, if any, and any
-- other is added behind, or dropped if there are 64 names already; the names come out in that
-- order, each behind a slash, and the root as a single slash.
pub normalize_path_lem :
    (path : List ℕ)
    → 0 < length path
    → IsString path
    → (way : List (List ℕ)) × Steps [] (fields (λ c. c == b'/') (take 255 path)) way
      × (normalize_path (some path) ≡ some (path_of way))
normalize_path_lem path ne string =
    let names : List (List ℕ) = fields is_slash (take 255 path) in
    let all : AllStrings names =
      fields_from-AllStrings [] (take 255 path) tt (IsString-take 255 path string) in
    (
      way_of (push_all [] names),
      at_slash (start (push_all-Steps names [] all)),
      normalize_path-push_all path ne ∙ ap some (sym (path_of-way_of (push_all [] names))),
    )
  where
    start : {names after : List (List ℕ)} → Steps (way_of []) names after → Steps [] names after
    start t = unfold way_of in t

    at_slash :
        {way : List (List ℕ)}
        → Steps [] (fields is_slash (take 255 path)) way
        → Steps [] (fields (λ c. c == b'/') (take 255 path)) way
    at_slash t = unfold is_slash in t
