-- ===== src/Pmm/Frame.antt =====
-- The search for a run of free blocks (`mmap_find_free_frame` of kernel/src/mem/pmm.c).
use saynaa_os.Prelude.{
  ℕ, zero, suc, ◌+◌, ◌*◌, ◌/◌, ◌<◌, ◌≤◌, ◌≡◌, ◌≢◌, refl, sym, ap, subst, ◌∙◌, inl, inr, ◌⊎◌, ◌==◌,
  ==_iff, has, true, false, Bool-cases, if◌then◌else◌, arith,
}
use saynaa_os.Prelude.Bits.{nthbit, ones}
use saynaa_os.Pmm.{
  Pmm, Search, done, run, check, search_bit, search_word, search_from, mmap_find_free_frame,
}
use saynaa_os.Pmm.Bitmap.{taken}
use saynaa_os.Pmm.Find.{taken-at, searched}

-- All of the `size` blocks from `b` on are free.
abbrev pub AllFree : Pmm → (b size : ℕ) → Type 0
AllFree p b size = (d : ℕ) → b ≤ d → d < b + size → taken p d ≡ false

-- The state of the search once the blocks below `b` are seen: no run, or a run that ends at `b`.
abbrev Good : Pmm → (size b : ℕ) → Search → Type 0
Good p size b (done c) = (c ≢ 0) × (c + size ≤ b) × AllFree p c size
Good p size b (run first count) =
    ((first ≡ 0) × (count ≡ 0)) ⊎ ((first ≢ 0) × (first + count ≡ b) × AllFree p first count)

module _ (p : Pmm) (size : ℕ) (pos : 0 < size) where
  check-Good :
      (first count b : ℕ) → Good p size b (run first count) → Good p size b (check size first count)
  check-Good first count b g = elim (Bool-cases (count == size)) [
    | inr short ↦ rw short g
    | inl full ↦
        let e : count ≡ size = (==_iff count size).0 full in
        rw full (elim g [
          | inl (f, c) ↦ absurd (omega arith)
          | inr (ne, ends, free) ↦ (ne, omega arith, subst (λ k. AllFree p first k) e free)
        ])
  ]

  longer :
      (first count b : ℕ)
      → b ≢ 0
      → taken p b ≡ false
      → Good p size b (run first count)
      → Good p size (b + 1) (run (if first == 0 then b else first) (count + 1))
  longer first count b ne f (inl (f0, c0)) =
      let start : (if first == 0 then b else first) ≡ b = ground arith in
      rw start
        (inr (ne, omega arith, λ d lo hi. sym (ap (taken p) {x = b} {y = d} (omega arith)) ∙ f))
  longer first count b ne f (inr (ne', ends, free)) =
      let start : (if first == 0 then b else first) ≡ first = ground arith in
      rw start
        (inr (ne', omega arith, λ d lo hi. ground (arith, free d, ap (taken p) {x = b} {y = d})))

  search_bit-Good :
      (first count b : ℕ)
      → (b ≡ 0 → taken p b ≡ true)
      → Good p size b (run first count)
      → Good p size (b + 1) (search_bit size b (taken p b) first count)
  unfolding search_bit
  search_bit-Good first count b zero_taken g = elim (Bool-cases (taken p b)) [
    | inl t ↦ rw t (check-Good 0 0 (b + 1) (inl (refl, refl)))
    | inr f ↦ rw f (check-Good _ (count + 1) (b + 1) (longer first count b (ground arith) f g))
  ]

  module _ (zero_taken : taken p 0 ≡ true) where
    search_word-Good :
        (i n j : ℕ) (s : Search)
        → j + n ≤ 32
        → Good p size (i * 32 + j) s
        → Good p size (i * 32 + (j + n)) (search_word size (p.bitmap i) i j n s)
    unfolding search_word
    search_word-Good i zero j s h g =
        subst (λ b. Good p size b s) {x = i * 32 + j} {y = i * 32 + (j + 0)} (omega arith) g
    search_word-Good i (suc n) j (done c) h (ne, in_range, free) = (ne, omega arith, free)
    search_word-Good i (suc n) j (run first count) h g =
        let b : ℕ = i * 32 + j in
        let s' : Search = search_bit size b (has (p.bitmap i) (nthbit j)) first count in
        let next : Good p size (b + 1) s' =
          subst (λ t. Good p size (b + 1) (search_bit size b t first count))
            (taken-at p i j (omega arith))
            (search_bit-Good first count b (λ e. ap (taken p) e ∙ zero_taken) g) in
        subst (λ k. Good p size k (search_word size (p.bitmap i) i (j + 1) n s'))
          {x = i * 32 + (j + 1 + n)} {y = i * 32 + (j + suc n)} (omega arith)
          (search_word-Good i n (j + 1) s' (omega arith)
            (subst (λ k. Good p size k s') {x = b + 1} {y = i * 32 + (j + 1)} (omega arith) next))

    next_word : ℕ → Search → Search
    next_word i s = if p.bitmap i == ones then run 0 0 else search_word size (p.bitmap i) i 0 32 s

    next_word-Good :
        (i : ℕ) (s : Search) → Good p size (i * 32) s → Good p size ((i + 1) * 32) (next_word i s)
    unfolding next_word
    next_word-Good i s g = elim (Bool-cases (p.bitmap i == ones)) [
      | inl full ↦ rw full (inl (refl, refl))
      | inr other ↦ rw other (
          subst (λ k. Good p size k (search_word size (p.bitmap i) i 0 32 s))
            {x = i * 32 + (0 + 32)} {y = (i + 1) * 32} (omega arith)
            (search_word-Good i 32 0 s (omega arith)
              (subst (λ k. Good p size k s) {x = i * 32} {y = i * 32 + 0} (omega arith) g)))
    ]

    search_from-Good :
        (n i : ℕ) (s : Search)
        → Good p size (i * 32) s
        → let c = search_from size p.bitmap i n s in
          (c ≡ 0) ⊎ ((c ≢ 0) × (c + size ≤ (i + n) * 32) × AllFree p c size)
    unfolding search_from next_word
    search_from-Good n i (done c) (ne, in_range, free) = inr (ne, omega arith, free)
    search_from-Good zero i (run first count) g = inl refl
    search_from-Good (suc n) i (run first count) g =
        elim (search_from-Good n (i + 1) (next_word i (run first count))
          (next_word-Good i (run first count) g)) [
            | inl e ↦ inl e
            | inr (ne, in_range, free) ↦ inr (ne, omega arith, free)
          ]

-- With block 0 taken, and a size that is not 0, `mmap_find_free_frame` returns 0 or the start of
-- a run of free blocks of that size, within the blocks that it searches.
pub mmap_find_free_frame_lem :
    (p : Pmm) (size : ℕ)
    → 0 < size
    → taken p 0 ≡ true
    → let c = mmap_find_free_frame p size in
      (c ≡ 0) ⊎ ((c ≢ 0) × (c + size ≤ searched p) × AllFree p c size)
unfolding mmap_find_free_frame
mmap_find_free_frame_lem p size pos zero_taken =
    elim (search_from-Good p size pos zero_taken (p.max_blocks / 32) 0 (run 0 0)
      (inl (refl, refl))) [ inl e ↦ inl e | inr (ne, in_range, free) ↦ inr (ne, omega arith, free) ]
