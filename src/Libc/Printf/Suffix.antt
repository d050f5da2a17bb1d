-- ===== src/Libc/Printf/Suffix.antt =====
-- What is left of a format when a part of it was read (libraries/libc/src/stdio/vcbprintf.c).
use saynaa_os.Prelude.{
  ℕ, zero, suc, ◌+◌, ◌-◌, ◌*◌, ◌%◌, ◌≤◌, ◌≡◌, refl, sym, ap, subst, ◌∙◌, ◌==◌, leb, ◌||◌, Bool,
  true, false, List, [], ◌∷◌, if◌then◌else◌, Option, none, some, length, drop, arith, Bool-cases,
  inl, inr,
}
use saynaa_os.Libc.Printf.Output.{u32, Print, next_word, negate}
use saynaa_os.Libc.Printf.Parse.{
  max_format_scan, Spec, parse_flags, is_digit, parse_number, parse_bounded, skip_digits,
  parse_width, parse_precision_value, parse_precision, parse_length,
}

-- A format's rest: what stands behind some of its characters.
abbrev pub Suffix : (rest fmt : List ℕ) → Type 0
Suffix rest fmt = (n : ℕ) × (rest ≡ drop n fmt)

drop-drop : (n m : ℕ) (xs : List ℕ) → drop m (drop n xs) ≡ drop (n + m) xs
drop-drop zero m xs = ap (λ k. drop k xs) (omega arith)
drop-drop (suc n) m [] = drop-nil m ∙ sym (drop-nil (suc n + m))
  where
    drop-nil : (k : ℕ) → ◌≡◌ {A = List ℕ} (drop k []) []
    drop-nil zero = refl
    drop-nil (suc k) = refl
drop-drop (suc n) m (x ∷ xs) =
    drop-drop n m xs ∙ ap (λ k. drop k (x ∷ xs)) {x = suc (n + m)} {y = suc n + m} (omega arith)

pub Suffix-refl : (fmt : List ℕ) → Suffix fmt fmt
Suffix-refl fmt = (0, refl)

pub Suffix-trans : (a b c : List ℕ) → Suffix a b → Suffix b c → Suffix a c
Suffix-trans a b c (n, e) (m, f) = (m + n, e ∙ (ap (drop n) f ∙ drop-drop m n c))

pub Suffix-cons : (rest : List ℕ) (c : ℕ) (cs : List ℕ) → Suffix rest cs → Suffix rest (c ∷ cs)
Suffix-cons rest c cs (n, e) = (suc n, e)

pub Suffix-if :
    (b : Bool) (xs ys fmt : List ℕ)
    → Suffix xs fmt
    → Suffix ys fmt
    → Suffix (if b then xs else ys) fmt
Suffix-if true xs ys fmt hx hy = hx
Suffix-if false xs ys fmt hx hy = hy

pub Suffix-length : (rest fmt : List ℕ) → Suffix rest fmt → length rest ≤ length fmt
Suffix-length rest fmt (n, e) = subst (λ l. length l ≤ length fmt) (sym e) (shorter n fmt)
  where
    shorter : (n : ℕ) (l : List ℕ) → length (drop n l) ≤ length l
    shorter zero l = omega arith
    shorter (suc n) [] = omega arith
    shorter (suc n) (x ∷ l) = omega (arith, shorter n l)

pub parse_flags-Suffix : (fmt : List ℕ) (s : Spec) → Suffix (parse_flags s fmt).1 fmt
unfolding parse_flags
parse_flags-Suffix [] s = Suffix-refl []
parse_flags-Suffix (f ∷ fs) s =
    let known : Bool =
      f == b'#' || f == b'0' || f == b'-' || f == b' ' || f == b'+' || f == 39 || f == b'I' in
    elim (Bool-cases known) [
      | inl is ↦ rw is (Suffix-cons _ f fs (parse_flags-Suffix fs _))
      | inr other ↦ rw other (Suffix-refl (f ∷ fs))
    ]

parse_number-Suffix : (count n : ℕ) (fmt : List ℕ) → Suffix (parse_number count n fmt).1 fmt
unfolding parse_number
parse_number-Suffix zero n fmt = Suffix-refl fmt
parse_number-Suffix (suc count) n [] = Suffix-refl []
parse_number-Suffix (suc count) n (c ∷ cs) = elim (Bool-cases (is_digit c)) [
  | inl is ↦ rw is (Suffix-cons _ c cs (parse_number-Suffix count ((10 * n + (c - 48)) % u32) cs))
  | inr other ↦ rw other (Suffix-refl (c ∷ cs))
]

skip_digits-Suffix : (fmt : List ℕ) → Suffix (skip_digits fmt) fmt
unfolding skip_digits
skip_digits-Suffix [] = Suffix-refl []
skip_digits-Suffix (c ∷ cs) = elim (Bool-cases (is_digit c)) [
  | inl is ↦ rw is (Suffix-cons _ c cs (skip_digits-Suffix cs))
  | inr other ↦ rw other (Suffix-refl (c ∷ cs))
]

-- The result of a part that may fail and may take arguments: the output is the same, and the format a
-- rest.
abbrev pub Keeps : {A : Type 0} → Print A → List ℕ → Option (Spec × List ℕ × Print A) → Type 0
Keeps p fmt none = Unit {0}
Keeps p fmt (some (s, rest, p')) = Suffix rest fmt × (p'.ctx ≡ p.ctx) × (p'.written ≡ p.written)

Keeps-if :
    {A : Type 0} (b : Bool) (p : Print A) (fmt : List ℕ) (x y : Option (Spec × List ℕ × Print A))
    → Keeps p fmt x
    → Keeps p fmt y
    → Keeps p fmt (if b then x else y)
Keeps-if true p fmt x y hx hy = hx
Keeps-if false p fmt x y hx hy = hy

-- An argument is taken without output.
pub next_word-same :
    {A : Type 0} (p : Print A)
    → ((next_word p).1.ctx ≡ p.ctx) × ((next_word p).1.written ≡ p.written)
unfolding next_word
next_word-same {A} p = by_args p.args
  where
    taken : List ℕ → ℕ × Print A
    taken args = elim args [ [] ↦ (0, p) | x ∷ xs ↦ (x, record p { args = xs }) ]

    by_args : (args : List ℕ) → ((taken args).1.ctx ≡ p.ctx) × ((taken args).1.written ≡ p.written)
    by_args [] = (refl, refl)
    by_args (x ∷ xs) = (refl, refl)

bounded-Keeps :
    {A : Type 0} (p : Print A) (fmt : List ℕ) (f : ℕ → Spec)
    → Keeps p fmt (elim (parse_bounded fmt) [ none ↦ none | some (w, rest) ↦ some (f w, rest, p) ])
unfolding parse_bounded
bounded-Keeps p fmt f =
    elim (Bool-cases
      (leb max_format_scan (length fmt - length (parse_number max_format_scan 0 fmt).1))) [
        | inl long ↦ rw long tt
        | inr short ↦ rw short (parse_number-Suffix max_format_scan 0 fmt, refl, refl)
      ]

pub parse_width-Keeps :
    {A : Type 0} (s : Spec) (fmt : List ℕ) (p : Print A) → Keeps p fmt (parse_width s fmt p)
unfolding parse_width
parse_width-Keeps s [] p = (Suffix-refl [], refl, refl)
parse_width-Keeps s (c ∷ cs) p =
    Keeps-if (c == b'*') p (c ∷ cs) _ _
      (Suffix-cons cs c cs (Suffix-refl cs), (next_word-same p).0, (next_word-same p).1)
      (bounded-Keeps p (c ∷ cs)
        (λ w. record s { field_width = if s.width_negative then negate w else w }))

value-Keeps :
    {A : Type 0} (s : Spec) (fmt : List ℕ) (p : Print A)
    → Keeps p fmt (parse_precision_value s fmt p)
unfolding parse_precision_value
value-Keeps s [] p = (Suffix-refl [], refl, refl)
value-Keeps s (c ∷ cs) p =
    Keeps-if (c == b'*') p (c ∷ cs) _ _
      (Suffix-cons cs c cs (Suffix-refl cs), (next_word-same p).0, (next_word-same p).1)
      (Keeps-if (c == b'-') p (c ∷ cs) _ _ (Suffix-cons _ c cs (skip_digits-Suffix cs), refl, refl)
        (bounded-Keeps p (c ∷ cs)
          (λ n. record s { precision = if n == u32 - 1 then none else some n })))

Keeps-cons :
    {A : Type 0} (p : Print A) (c : ℕ) (cs : List ℕ) (x : Option (Spec × List ℕ × Print A))
    → Keeps p cs x
    → Keeps p (c ∷ cs) x
Keeps-cons p c cs none h = h
Keeps-cons p c cs (some (s, rest, p')) (suffix, ctx, written) =
    (Suffix-cons rest c cs suffix, ctx, written)

pub parse_precision-Keeps :
    {A : Type 0} (s : Spec) (fmt : List ℕ) (p : Print A) → Keeps p fmt (parse_precision s fmt p)
unfolding parse_precision
parse_precision-Keeps s [] p = (Suffix-refl [], refl, refl)
parse_precision-Keeps s (c ∷ cs) p =
    Keeps-if (c == b'.') p (c ∷ cs) _ _
      (Keeps-cons p c cs (parse_precision_value s cs p) (value-Keeps s cs p))
      (Suffix-refl (c ∷ cs), refl, refl)

pub parse_length-Suffix : (s : Spec) (fmt : List ℕ) → Suffix (parse_length s fmt).1 fmt
unfolding parse_length
parse_length-Suffix s fmt = (_, refl)
