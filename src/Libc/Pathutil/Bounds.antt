-- ===== src/Libc/Pathutil/Bounds.antt =====
-- How long a path is that libraries/libc/src/pathutil.c puts together, and how it begins.
use saynaa_os.Prelude.{
  ℕ, ◌+◌, ◌<◌, ◌≤◌, ◌≡◌, ◌==◌, refl, ap, subst, ◌∙◌, ltb, true, Bool-cases, inl, inr, some, List,
  [], ◌∷◌, ◌++◌, length, length-append, length-take, drop, take, arith, if◌then◌else◌,
}
use saynaa_os.Libc.Strings.{same}
use saynaa_os.Libc.Fields.{flush, fields, fields_from}
use saynaa_os.Libc.Pathutil.{
  slash, is_slash, push_segment, render, written, normalize_path, joined, make_abs_path,
}
use saynaa_os.Libc.Pathutil.Laws.{push_all, normalize_path-push_all, normalize_path_twice}

-- The length of the fields with a slash in front of each.
abbrev total : List (List ℕ) → ℕ
total [] = 0
total (s ∷ ss) = 1 + length s + total ss

fields_from-total :
    (acc t : List ℕ) → total (fields_from is_slash acc t) ≤ 1 + length acc + length t
unfolding fields_from
fields_from-total [] [] = omega arith
fields_from-total (a ∷ acc) [] = omega arith
fields_from-total acc (c ∷ cs) = elim (Bool-cases (is_slash c)) [
  | inl e ↦ rw e (flushed acc (fields_from-total [] cs))
  | inr ne ↦ rw ne (omega (arith, fields_from-total (acc ++ c ∷ []) cs, length-append acc (c ∷ [])))
]
  where
    flushed :
        (acc : List ℕ)
        → total (fields is_slash cs) ≤ 1 + 0 + length cs
        → total (flush acc (fields is_slash cs)) ≤ 1 + length acc + length (c ∷ cs)
    flushed [] h = omega arith
    flushed (a ∷ acc) h = omega arith

push_segment-length :
    (segments : List (List ℕ)) (s : List ℕ)
    → length (render (push_segment segments s)) ≤ length (render segments) + 1 + length s
unfolding push_segment render
push_segment-length segments s = elim (Bool-cases (same s (b'.' ∷ []))) [
  | inl dot ↦ rw dot (omega arith)
  | inr other ↦ elim (Bool-cases (same s (b'.' ∷ b'.' ∷ []))) [
    | inl up ↦ rw (other, up) (omega (arith, dropped segments))
    | inr name ↦ elim (Bool-cases (ltb (length segments) 64)) [
      | inl room ↦
          rw (other, name, room) (omega (arith, length-append (render segments) (slash ∷ s)))
      | inr full ↦ rw (other, name, full) (omega arith)
    ]
  ]
]
  where
    dropped :
        (segments : List (List ℕ)) → length (render (drop 1 segments)) ≤ length (render segments)
    dropped [] = omega arith
    dropped (t ∷ ts) = omega (arith, length-append (render ts) (slash ∷ t))

push_all-length :
    (ss segments : List (List ℕ))
    → length (render (push_all segments ss)) ≤ length (render segments) + total ss
unfolding push_all
push_all-length [] segments = omega arith
push_all-length (s ∷ ss) segments =
    omega (arith, push_all-length ss (push_segment segments s), push_segment-length segments s)

-- The path begins with a slash.
abbrev pub IsAbsolute : List ℕ → Type 0
IsAbsolute path = (cs : List ℕ) × (path ≡ slash ∷ cs)

render-IsAbsolute : (s : List ℕ) (ss : List (List ℕ)) → IsAbsolute (render (s ∷ ss))
unfolding render
render-IsAbsolute s [] = (s, refl)
render-IsAbsolute s (t ∷ ts) =
    let (cs, e) = render-IsAbsolute t ts in (cs ++ slash ∷ s, ap (λ l. l ++ slash ∷ s) e)

written-IsAbsolute : (ss : List (List ℕ)) → IsAbsolute (written ss)
written-IsAbsolute [] = ([], refl)
written-IsAbsolute (s ∷ ss) = render-IsAbsolute s ss

written-length :
    (ss : List (List ℕ)) (n : ℕ) → length (render ss) ≤ n → 0 < n → length (written ss) ≤ n
written-length [] n h pos = omega arith
written-length (s ∷ ss) n h pos = h

-- A path as the kernel keeps one: absolute, with room in 256 bytes, and in canonical form.
pub record IsCanonicalPath (path : List ℕ) : Type 0 where
  pub absolute : IsAbsolute path
  pub short : length path ≤ 255
  pub canonical : normalize_path (some path) ≡ some path

-- An absolute path of at most 255 characters is made canonical.
normalize_path-absolute :
    (cs : List ℕ)
    → length (slash ∷ cs) ≤ 255
    → (q : List ℕ) × (normalize_path (some (slash ∷ cs)) ≡ some q) × IsCanonicalPath q
normalize_path-absolute cs short =
    let path : List ℕ = slash ∷ cs in
    let stack : List (List ℕ) = push_all [] (fields is_slash (take 255 path)) in
    let e : normalize_path (some path) ≡ some (written stack) =
      normalize_path-push_all path (omega arith) in
    let fits : length (written stack) ≤ 255 =
      written-length stack 255
        (omega (
          arith,
          push_all-length (fields is_slash (take 255 path)) [],
          fields_from-total [] (take 254 cs),
          leading (take 254 cs),
          length-take 254 cs,
          nothing,
        ))
        (omega arith) in
    (
      written stack,
      e,
      record {
        absolute = written-IsAbsolute stack;
        short = fits;
        canonical = normalize_path_twice path (written stack) (omega arith) e fits;
      },
    )
  where
    nothing : length (render []) ≡ 0
    nothing = unfold render in refl

    leading : (cs : List ℕ) → total (fields is_slash (slash ∷ cs)) ≡ total (fields is_slash cs)
    leading cs = unfold fields_from is_slash in refl

take-IsAbsolute : (l : List ℕ) → IsAbsolute l → IsAbsolute (take 255 l)
take-IsAbsolute [] (cs, e) = cc
take-IsAbsolute (c ∷ l) (cs, e) = (take 254 l, cc)

joined-IsAbsolute : (cwd input : List ℕ) → IsAbsolute cwd → IsAbsolute (joined cwd input 256)
unfolding joined
joined-IsAbsolute cwd [] (cs, e) = elim (Bool-cases (same cwd (slash ∷ []))) [
  | inl root ↦ rw root (take-IsAbsolute (slash ∷ []) ([], refl))
  | inr deep ↦
      rw deep (take-IsAbsolute (cwd ++ slash ∷ []) (cs ++ slash ∷ [], ap (λ l. l ++ slash ∷ []) e))
]
joined-IsAbsolute cwd (c ∷ input) (cs, e) = elim (Bool-cases (c == slash)) [
  | inl full ↦
      let is : c ≡ slash = ground arith in
      rw full (take-IsAbsolute (c ∷ input) (input, ap (λ d. d ∷ input) is))
  | inr relative ↦ elim (Bool-cases (same cwd (slash ∷ []))) [
    | inl root ↦ rw (relative, root) (take-IsAbsolute (slash ∷ c ∷ input) (c ∷ input, refl))
    | inr deep ↦
        rw (relative, deep)
          (take-IsAbsolute (cwd ++ slash ∷ c ∷ input)
            (cs ++ slash ∷ c ∷ input, ap (λ l. l ++ slash ∷ c ∷ input) e))
  ]
]

length-taken : (l : List ℕ) → length (take 255 l) ≤ 255
length-taken l = omega (arith, length-take 255 l)

joined-length : (cwd input : List ℕ) → length (joined cwd input 256) ≤ 255
unfolding joined
joined-length cwd [] =
    length-taken (if same cwd (slash ∷ []) then slash ∷ [] else cwd ++ slash ∷ [])
joined-length cwd (c ∷ input) = length-taken (
    if c == slash
    then c ∷ input
    else if same cwd (slash ∷ [])
    then slash ∷ c ∷ input
    else cwd ++ slash ∷ c ∷ input)

-- From an absolute directory, any path is made into a canonical one that is absolute and has room in
-- a buffer of 256 bytes.
pub make_abs_path-IsCanonicalPath :
    (cwd input : List ℕ)
    → IsAbsolute cwd
    → (q : List ℕ) × (make_abs_path true cwd input 256 ≡ some q) × IsCanonicalPath q
unfolding make_abs_path
make_abs_path-IsCanonicalPath cwd input absolute =
    let (cs, e) = joined-IsAbsolute cwd input absolute in
    let short : length (slash ∷ cs) ≤ 255 =
      subst (λ l. length l ≤ 255) e (joined-length cwd input) in
    let (q, is, canonical) = normalize_path-absolute cs short in
    (q, ap (λ l. normalize_path (some l)) e ∙ is, canonical)
