-- ===== src/Libc/Pathutil/Laws.antt =====
-- The stack of components of libraries/libc/src/pathutil.c, and which stacks are canonical.
use saynaa_os.Prelude.{
  ℕ, zero, suc, ◌+◌, ◌<◌, ◌≤◌, ◌≡◌, refl, sym, ap, ◌∙◌, ltb, false, Bool-cases, inl, inr, some,
  List, [], ◌∷◌, ◌++◌, length, length-append, subst, ltb→lt, lt→ltb, drop, take, arith,
}
use saynaa_os.Libc.Strings.{same}
use saynaa_os.Libc.Fields.{
  skip_while, word, flush, fields, fields-cons, fields-nil, fields-skip_while, length-rest,
  length-skip_while, skip_while-stop, Free, AllFields, fields_from, fields_from-AllFields,
  fields_from-append, fields_from-Free,
}
use saynaa_os.Libc.Pathutil.{
  slash, is_slash, push_segment, collect, render, written, normalize_path,
}

-- The stack after all components have had their effect, in order.
unfoldable pub push_all : List (List ℕ) → List (List ℕ) → List (List ℕ)
push_all segments [] = segments
push_all segments (s ∷ ss) = push_all (push_segment segments s) ss

collect-push_all :
    (fuel : ℕ) (token : List ℕ) (segments : List (List ℕ))
    → length token < fuel
    → collect fuel token segments ≡ some (push_all segments (fields is_slash token))
unfolding collect push_all
collect-push_all zero token segments h = absurd (omega arith)
collect-push_all (suc fuel) token segments h =
    by_first (collect-push_all fuel) (skip_while is_slash token) refl
    ∙ ap (λ l. some (push_all segments l)) (fields-skip_while is_slash token)
  where
    by_first :
        ((q : List ℕ) (stack : List (List ℕ))
          → length q < fuel
          → collect fuel q stack ≡ some (push_all stack (fields is_slash q)))
        → (t : List ℕ) → skip_while is_slash token ≡ t
        → (elim t [
          | [] ↦ some segments
          | c ∷ cs ↦
              let (start, rest) = word is_slash (c ∷ cs) in
              collect fuel (drop 1 rest) (push_segment segments start)
        ])
          ≡ some (push_all segments (fields is_slash t))
    by_first shorter [] e = sym (ap (λ l. some (push_all segments l)) (fields-nil is_slash))
    by_first shorter (c ∷ cs) e =
        let ne : is_slash c ≡ false = skip_while-stop is_slash token c cs e in
        let rest : List ℕ = drop 1 (word is_slash (c ∷ cs)).1 in
        let short : length rest < fuel =
          omega
            (arith, length-rest is_slash c cs ne, length-skip_while is_slash token, ap length e) in
        shorter rest (push_segment segments (word is_slash (c ∷ cs)).0) short
        ∙ sym (ap (λ l. some (push_all segments l)) (fields-cons is_slash c cs ne))

-- On a path that is not empty `normalize_path` ends, and writes the stack that is left after the
-- components of its first 255 characters.
pub normalize_path-push_all :
    (path : List ℕ)
    → 0 < length path
    → normalize_path (some path) ≡ some (written (push_all [] (fields is_slash (take 255 path))))
unfolding normalize_path
normalize_path-push_all path h =
    ground (arith, collect-push_all (length (take 255 path) + 1) (take 255 path) [] (omega arith))

-- A stack as `push_segment` leaves it: at most 64 names, none empty, with a slash, "." or "..".
abbrev pub IsCanonical : List (List ℕ) → Type 0
IsCanonical [] = Unit {0}
IsCanonical (s ∷ ss) =
    (0 < length s)
    × Free is_slash s
    × (same s (b'.' ∷ []) ≡ false)
    × (same s (b'.' ∷ b'.' ∷ []) ≡ false)
    × (length ss < 64)
    × IsCanonical ss

push_segment-IsCanonical :
    (ss : List (List ℕ)) (s : List ℕ)
    → IsCanonical ss
    → 0 < length s
    → Free is_slash s
    → IsCanonical (push_segment ss s)
unfolding push_segment
push_segment-IsCanonical ss s v pos f = elim (Bool-cases (same s (b'.' ∷ []))) [
  | inl dot ↦ rw dot v
  | inr one ↦ elim (Bool-cases (same s (b'.' ∷ b'.' ∷ []))) [
    | inl dots ↦ rw (one, dots) (popped ss v)
    | inr two ↦ elim (Bool-cases (ltb (length ss) 64)) [
      | inl fits ↦ rw (one, two, fits) (pos, f, one, two, ltb→lt _ _ fits, v)
      | inr full ↦ rw (one, two, full) v
    ]
  ]
]
  where
    popped : (ss : List (List ℕ)) → IsCanonical ss → IsCanonical (drop 1 ss)
    popped [] v = tt
    popped (s ∷ ss) v = v.5

push_all-IsCanonical :
    (names stack : List (List ℕ))
    → AllFields is_slash names
    → IsCanonical stack
    → IsCanonical (push_all stack names)
unfolding push_all
push_all-IsCanonical [] stack a v = v
push_all-IsCanonical (s ∷ ss) stack a v =
    push_all-IsCanonical ss (push_segment stack s) a.2 (push_segment-IsCanonical stack s v a.0 a.1)

push_all-snoc :
    (stack names : List (List ℕ)) (s : List ℕ)
    → push_all stack (names ++ s ∷ []) ≡ push_segment (push_all stack names) s
unfolding push_all
push_all-snoc stack [] s = refl
push_all-snoc stack (n ∷ names) s = push_all-snoc (push_segment stack n) names s

-- The components of what is written have a canonical stack as their effect.
push_all-render :
    (ss : List (List ℕ)) → IsCanonical ss → push_all [] (fields is_slash (render ss)) ≡ ss
unfolding render
push_all-render [] v = rw (fields-nil is_slash) nothing
  where
    nothing : push_all [] [] ≡ []
    nothing = unfold push_all in refl
push_all-render (s ∷ ss) v =
    ap (push_all []) (
      fields_from-append is_slash [] (render ss) slash s (unfold is_slash in refl)
      ∙ ap (λ l. fields is_slash (render ss) ++ l)
          (fields_from-Free is_slash [] s v.1 ∙ single s v.0))
    ∙ (push_all-snoc [] (fields is_slash (render ss)) s
        ∙ (ap (λ l. push_segment l s) (push_all-render ss v.5)
            ∙ (unfold push_segment in rw (v.2, v.3, lt→ltb (length ss) 64 v.4) refl)))
  where
    single : (s : List ℕ) → 0 < length s → flush s [] ≡ s ∷ []
    single [] h = absurd (omega arith)
    single (c ∷ cs) h = refl

take_fits : (n : ℕ) (l : List ℕ) → length l ≤ n → take n l ≡ l
take_fits zero [] h = refl
take_fits zero (c ∷ cs) h = absurd (omega arith)
take_fits (suc n) [] h = refl
take_fits (suc n) (c ∷ cs) h = ap (λ l. c ∷ l) (take_fits n cs (omega arith))

push_all-written :
    (ss : List (List ℕ)) → IsCanonical ss → push_all [] (fields is_slash (written ss)) ≡ ss
push_all-written [] v = unfold push_all is_slash fields_from in refl
push_all-written (s ∷ ss) v = push_all-render (s ∷ ss) v

written-length : (ss : List (List ℕ)) → 0 < length (written ss)
unfolding render
written-length [] = omega arith
written-length (s ∷ ss) = omega (arith, length-append (render ss) (slash ∷ s))

-- A path that `normalize_path` has written, of at most 255 characters, stays as it is when it is
-- given to it again.
pub normalize_path_twice :
    (path q : List ℕ)
    → 0 < length path
    → normalize_path (some path) ≡ some q
    → length q ≤ 255
    → normalize_path (some q) ≡ some q
normalize_path_twice path q pos e short =
    let stack : List (List ℕ) = push_all [] (fields is_slash (take 255 path)) in
    let v : IsCanonical stack =
      push_all-IsCanonical (fields is_slash (take 255 path)) []
        (fields_from-AllFields is_slash [] (take 255 path) tt) tt in
    let is : q ≡ written stack = some_injective (sym e ∙ normalize_path-push_all path pos) in
    normalize_path-push_all q (subst (λ l. 0 < length l) (sym is) (written-length stack))
    ∙ (ap (λ l. some (written (push_all [] (fields is_slash l)))) (take_fits 255 q short ∙ is)
        ∙ (ap (λ l. some (written l)) (push_all-written stack v) ∙ ap some (sym is)))
  where
    some_injective : {x y : List ℕ} → some x ≡ some y → x ≡ y
    some_injective e = cc
