-- ===== src/Pmm/Find.antt =====
-- The search for one free block (kernel/src/mem/pmm.c), and a linear search to compare it with.
use saynaa_os.Prelude.{
  ℕ, zero, suc, ◌+◌, ◌*◌, ◌/◌, ◌%◌, ◌<◌, ◌≤◌, ◌≡◌, refl, sym, ap, ap₂, ◌∙◌, inl, inr, ◌==◌, ==_iff,
  has, true, false, Bool-cases, if◌then◌else◌, arith, Option, none, some,
}
use saynaa_os.Prelude.Bits.{nthbit, ones, has-pow, dig-ones}
use saynaa_os.Pmm.{Pmm, mmap_test, find_in_word, find_from, mmap_find_free}
use saynaa_os.Pmm.Bitmap.{taken}

-- The first free block among the `n` from `b` on.
unfoldable pub first_free : Pmm → (b n : ℕ) → Option ℕ
first_free p b zero = none
first_free p b (suc n) =
    let rest : Option ℕ = first_free p (b + 1) n in if taken p b then rest else some b

-- The number of blocks that the searches look at.
abbrev pub searched : Pmm → ℕ
searched p = p.max_blocks / 32 * 32

abbrev pub or_else : Option ℕ → Option ℕ → Option ℕ
or_else none o = o
or_else (some b) o = some b

abbrev pub or_zero : Option ℕ → ℕ
or_zero none = 0
or_zero (some b) = b

found :
    (o q : Option ℕ) {r : ℕ}
    → r ≡ or_zero q
    → (elim o [ none ↦ r | some b ↦ b ]) ≡ or_zero (or_else o q)
found none q e = e
found (some b) q e = refl

module _ (p : Pmm) where
  pub taken-at : (i j : ℕ) → j < 32 → taken p (i * 32 + j) ≡ has (p.bitmap i) (nthbit j)
  unfolding taken mmap_test
  taken-at i j h =
      ap₂ (λ w k. has (p.bitmap w) (nthbit k)) {x = (i * 32 + j) / 32} {y = i}
        {u = (i * 32 + j) % 32} {v = j} (omega arith) (omega arith)

  -- A word of ones has no free block.
  full_word : (i j : ℕ) → j < 32 → p.bitmap i ≡ ones → taken p (i * 32 + j) ≡ true
  full_word i j h e =
      taken-at i j h
      ∙ (ap (λ w. has w (nthbit j)) e ∙ (has-pow ones j ∙ ap (λ d. d == 1) (dig-ones j h)))

  first_free-full :
      (i j n : ℕ) → j + n ≤ 32 → p.bitmap i ≡ ones → first_free p (i * 32 + j) n ≡ none
  unfolding first_free
  first_free-full i j zero h e = refl
  first_free-full i j (suc n) h e = rw (full_word i j (omega arith) e) (
      ap (λ b. first_free p b n) {y = i * 32 + (j + 1)} (omega arith)
      ∙ first_free-full i (j + 1) n (omega arith) e)

  find_in_word-first_free :
      (i j n : ℕ) → j + n ≤ 32 → find_in_word (p.bitmap i) i j n ≡ first_free p (i * 32 + j) n
  unfolding find_in_word first_free
  find_in_word-first_free i j zero h = refl
  find_in_word-first_free i j (suc n) h =
      let rest : find_in_word (p.bitmap i) i (j + 1) n ≡ first_free p (i * 32 + j + 1) n =
        find_in_word-first_free i (j + 1) n (omega arith)
        ∙ ap (λ b. first_free p b n) {x = i * 32 + (j + 1)} (omega arith) in
      ground (arith, rest, taken-at i j)

  -- A search of two stretches.
  first_free-add :
      (m b n : ℕ) → first_free p b (m + n) ≡ or_else (first_free p b m) (first_free p (b + m) n)
  unfolding first_free
  first_free-add zero b n =
      ap₂ (first_free p) {x = b} {y = b + zero} {u = zero + n} {v = n} (omega arith) (omega arith)
  first_free-add (suc m) b n =
      ap (first_free p b) {x = suc m + n} {y = suc (m + n)} (omega arith)
      ∙ ground (
        arith,
        first_free-add m (b + 1) n,
        ap (λ c. first_free p c n) {x = b + 1 + m} {y = b + suc m} (omega arith),
      )

  find_from-first_free :
      (i n : ℕ) → find_from p.bitmap i n ≡ or_zero (first_free p (i * 32) (n * 32))
  unfolding find_from
  find_from-first_free i zero = unfold first_free in refl
  find_from-first_free i (suc n) =
      let rest : find_from p.bitmap (i + 1) n ≡ or_zero (first_free p (i * 32 + 32) (n * 32)) =
        find_from-first_free (i + 1) n
        ∙ ap (λ b. or_zero (first_free p b (n * 32))) (omega arith) in
      let split : first_free p (i * 32) (suc n * 32)
          ≡ or_else (first_free p (i * 32) 32) (first_free p (i * 32 + 32) (n * 32)) =
        ap (first_free p (i * 32)) (omega arith) ∙ first_free-add 32 (i * 32) (n * 32) in
      let here = ap (λ b. first_free p b 32) {x = i * 32 + 0} {y = i * 32} (omega arith) in
      elim (Bool-cases (p.bitmap i == ones)) [
        | inl full ↦
            rw (full, split, sym here ∙ first_free-full i 0 32 (omega arith) ((==_iff _ _).0 full))
              rest
        | inr some_free ↦
            rw (some_free, split, find_in_word-first_free i 0 32 (omega arith) ∙ here)
              (found (first_free p (i * 32) 32) _ rest)
      ]

-- `mmap_find_free` returns what a search block by block finds first, and 0 if it finds nothing.
pub mmap_find_free-first_free : (p : Pmm) → mmap_find_free p ≡ or_zero (first_free p 0 (searched p))
unfolding mmap_find_free
mmap_find_free-first_free p = find_from-first_free p 0 (p.max_blocks / 32)

-- What the linear search finds is free, in range and the first such block.
pub first_free-some :
    (p : Pmm) (n b c : ℕ)
    → first_free p b n ≡ some c
    → (b ≤ c) × (c < b + n) × (taken p c ≡ false) × ((d : ℕ) → b ≤ d → d < c → taken p d ≡ true)
unfolding first_free
first_free-some p zero b c e = cc
first_free-some p (suc n) b c e = elim (Bool-cases (taken p b)) [
  | inl t ↦
      let (lo, hi, free, before) = first_free-some p n (b + 1) c (rw t at e) in
      (
        omega arith,
        omega arith,
        free,
        λ d lo' hi'. ground (arith, before d, ap (taken p) {x = b} {y = d}),
      )
  | inr f ↦
      let is : b ≡ c = ground arith in
      (omega arith, omega arith, sym (ap (taken p) is) ∙ f, λ d lo' hi'. absurd (omega arith))
]

pub first_free-none :
    (p : Pmm) (n b d : ℕ) → first_free p b n ≡ none → b ≤ d → d < b + n → taken p d ≡ true
unfolding first_free
first_free-none p zero b d e lo hi = absurd (omega arith)
first_free-none p (suc n) b d e lo hi = elim (Bool-cases (taken p b)) [
  | inl t ↦ ground (arith, first_free-none p n (b + 1) d (rw t at e), ap (taken p) {x = b} {y = d})
  | inr f ↦ ground arith
]
