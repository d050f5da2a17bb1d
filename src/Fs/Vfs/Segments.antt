-- ===== src/Fs/Vfs/Segments.antt =====
-- The components of a path: its longest stretches without a slash.
use saynaa_os.Prelude.{
  ℕ, zero, suc, ◌≤◌, ◌≡◌, refl, sym, ap, ◌∙◌, ◌==◌, Bool-cases, inl, inr, List, [], ◌∷◌, ◌++◌,
  append_assoc, append-nil, if◌then◌else◌, length, arith,
}
use saynaa_os.Fs.Vfs.{slash, skip, segment}

-- A component, unless it is empty, before others.
abbrev pub flush : List ℕ → List (List ℕ) → List (List ℕ)
flush [] r = r
flush (c ∷ cs) r = (c ∷ cs) ∷ r

-- The components of a path, of whose first one `acc` has been read.
unfoldable pub components_from : List ℕ → List ℕ → List (List ℕ)
components_from acc [] = flush acc []
components_from acc (c ∷ cs) =
    if c == slash then flush acc (components_from [] cs) else components_from (acc ++ c ∷ []) cs

abbrev pub components : List ℕ → List (List ℕ)
components p = components_from [] p

-- The stretch up to the next slash, and what is behind it.
unfoldable pub name : List ℕ → List ℕ
name [] = []
name (c ∷ cs) = if c == slash then [] else c ∷ name cs

unfoldable pub after : List ℕ → List ℕ
after [] = []
after (c ∷ cs) = if c == slash then c ∷ cs else after cs

pub components-name :
    (acc p : List ℕ) → components_from acc p ≡ flush (acc ++ name p) (components (after p))
unfolding components_from name after
components-name acc [] = ap (λ l. flush l []) (sym (append-nil acc))
components-name acc (c ∷ cs) = elim (Bool-cases (c == slash)) [
  | inl e ↦ rw (e, append-nil, e) refl
  | inr ne ↦ rw ne (
      components-name (acc ++ c ∷ []) cs
      ∙ ap (λ l. flush l (components (after cs))) (append_assoc acc (c ∷ []) (name cs)))
]

pub components-skip : (p : List ℕ) → components (skip p) ≡ components p
unfolding components_from skip
components-skip [] = refl
components-skip (c ∷ cs) = elim (Bool-cases (c == slash)) [
  | inl e ↦ rw e (components-skip cs)
  | inr ne ↦ rw (ne, ne) refl
]

-- A stretch that fits is copied whole.
pub segment-name : (n : ℕ) (p : List ℕ) → length (name p) ≤ n → segment n p ≡ (name p, after p)
unfolding segment name after
segment-name zero [] h = refl
segment-name zero (c ∷ cs) h = elim (Bool-cases (c == slash)) [
  | inl e ↦ rw e refl
  | inr ne ↦ absurd (ground arith)
]
segment-name (suc n) [] h = refl
segment-name (suc n) (c ∷ cs) h = elim (Bool-cases (c == slash)) [
  | inl e ↦ rw e refl
  | inr ne ↦ rw (ne, segment-name n cs (ground arith)) refl
]

pub length-skip : (p : List ℕ) → length (skip p) ≤ length p
unfolding skip
length-skip [] = omega arith
length-skip (c ∷ cs) = ground (arith, length-skip cs)

pub length-after : (p : List ℕ) → length (after p) ≤ length p
unfolding after
length-after [] = omega arith
length-after (c ∷ cs) = ground (arith, length-after cs)

flush-append : (acc : List ℕ) (r s : List (List ℕ)) → flush acc (r ++ s) ≡ flush acc r ++ s
flush-append [] r s = refl
flush-append (c ∷ cs) r s = refl

-- Two paths with a slash between them.
pub components-append :
    (acc a b : List ℕ)
    → components_from acc (a ++ slash ∷ b) ≡ components_from acc a ++ components b
unfolding components_from
components-append [] [] b = refl
components-append (x ∷ acc) [] b = refl
components-append acc (c ∷ cs) b = elim (Bool-cases (c == slash)) [
  | inl e ↦
      rw e (
        ap (flush acc) (components-append [] cs b)
        ∙ flush-append acc (components cs) (components b))
  | inr ne ↦ rw ne (components-append (acc ++ c ∷ []) cs b)
]
