-- ===== src/Pmm/Alloc.antt =====
-- The allocators of kernel/src/mem/pmm.c: the invariant, and what it is to take blocks.
use saynaa_os.Prelude.{
  ℕ, zero, suc, ◌+◌, ◌*◌, ◌/◌, ◌%◌, ◌^◌, ◌<◌, ◌≤◌, ◌≡◌, ◌≢◌, refl, sym, ap, subst, ◌∙◌, inl, inr,
  ◌⊎◌, ◌==◌, true, false, Bool-cases, if◌then◌else◌, arith, none, some, Option-cases, leb, ltb,
}
use saynaa_os.Pmm.{
  Pmm, u32, block_size, free_blocks, mmap_find_free, mmap_find_free_frame, pmm_alloc_page,
  pmm_alloc_pages, pmm_alloc_aligned_large_page, pmm_free_pages, mmap_set, set_range,
}
use saynaa_os.Pmm.Bitmap.{taken, among, taken-set_range, taken-unset_range}
use saynaa_os.Pmm.Find.{
  first_free, searched, or_zero, mmap_find_free-first_free, first_free-some, first_free-none,
}
use saynaa_os.Pmm.Frame.{AllFree, mmap_find_free_frame_lem}

-- The manager's invariant: the bitmap has a bit for each block, and block 0 is never given out.
pub record IsValid (p : Pmm) : Type 0 where
  pub fits : p.max_blocks ≤ 2 ^ 20
  pub counter : p.used_blocks < u32
  pub zero_taken : taken p 0 ≡ true

-- From `p` to `q` the `size` blocks at the address `addr` were taken.
pub record Takes (p q : Pmm) (addr size : ℕ) : Type 0 where
  pub aligned : addr % block_size ≡ 0
  pub not_null : addr ≢ 0
  pub in_memory : addr / block_size + size ≤ p.max_blocks
  pub free : AllFree p (addr / block_size) size
  pub now : (b : ℕ) → taken q b ≡ (if among (addr / block_size) size b then true else taken p b)
  pub valid : IsValid q

pub set_range-max :
    (num : ℕ) (p : Pmm) (base : ℕ) → (set_range p base num).max_blocks ≡ p.max_blocks
unfolding set_range mmap_set
set_range-max zero p base = refl
set_range-max (suc num) p base = set_range-max num (mmap_set p base) (base + 1)

pub set_range-used :
    (num : ℕ) (p : Pmm) (base : ℕ)
    → p.used_blocks < u32
    → (set_range p base num).used_blocks ≡ (p.used_blocks + num) % u32
unfolding set_range mmap_set
set_range-used zero p base h = omega arith
set_range-used (suc num) p base h =
    omega (arith, set_range-used num (mmap_set p base) (base + 1) (omega arith))

module _ (p : Pmm) (v : IsValid p) where
  take_range :
      (base size : ℕ)
      → base ≢ 0
      → 0 < size
      → base + size ≤ p.max_blocks
      → AllFree p base size
      → Takes p (set_range p base size) (base * block_size % u32) size
  take_range base size ne pos in_range free =
      let back : base * block_size % u32 / block_size ≡ base = omega (arith, v.fits) in
      record {
        aligned = omega arith;
        not_null = omega (arith, v.fits);
        in_memory = omega arith;
        free = subst (λ b. AllFree p b size) (sym back) free;
        now = λ b.
            taken-set_range size p base b
            ∙ ap (λ c. if among c size b then true else taken p b) (sym back);
        valid = record {
          fits = omega (arith, set_range-max size p base, v.fits);
          counter = omega (arith, set_range-used size p base v.counter);
          zero_taken = ground (arith, taken-set_range size p base 0, v.zero_taken);
        };
      }

  -- Either all searched blocks are taken, or the search finds a free one that is not block 0.
  find_cases :
      ((mmap_find_free p ≡ 0) × ((b : ℕ) → b < searched p → taken p b ≡ true))
      ⊎ ((mmap_find_free p ≢ 0)
          × (mmap_find_free p < searched p)
          × (taken p (mmap_find_free p) ≡ false))
  find_cases = elim (Option-cases (first_free p 0 (searched p))) [
    | inl e ↦ inl (
      mmap_find_free-first_free p ∙ ap or_zero e,
      λ b h. first_free-none p (searched p) 0 b e (omega arith) (omega arith),
    )
    | inr (c, e) ↦
        let (lo, hi, free, before) = first_free-some p (searched p) 0 c e in
        let is : mmap_find_free p ≡ c = mmap_find_free-first_free p ∙ ap or_zero e in
        let ne : c ≢ 0 = ground (arith, v.zero_taken, ap (taken p) {x = c} {y = 0}) in
        rw is (inr (ne, omega arith, free))
  ]

  -- In the manager's invariant `pmm_alloc_page` aborts exactly if the counter leaves no room.
  -- Otherwise it returns 0, with nothing changed, if all the blocks that it searches are taken,
  -- and else the address of a page that was free and is taken from then on, with no other block
  -- changed.
  pub pmm_alloc_page_lem :
      ((free_blocks p ≡ 0) × (pmm_alloc_page p ≡ none))
      ⊎ ((free_blocks p ≢ 0)
          × (pmm_alloc_page p ≡ some (0, p))
          × ((b : ℕ) → b < searched p → taken p b ≡ true))
      ⊎ ((free_blocks p ≢ 0)
          × (addr : ℕ) × (q : Pmm) × (pmm_alloc_page p ≡ some (addr, q))
          × Takes p q addr 1)
  unfolding pmm_alloc_page set_range
  pmm_alloc_page_lem = elim (Bool-cases (leb (free_blocks p) 0)) [
    | inl full ↦ inl (ground arith, rw full)
    | inr room ↦ inr (elim find_cases [
      | inl (zero_found, all) ↦ inl (ground arith, rw (room, zero_found), all)
      | inr (ne, low, free) ↦
          let found : (mmap_find_free p == 0) ≡ false = ground arith in
          inr (
            ground arith,
            mmap_find_free p * block_size % u32,
            mmap_set p (mmap_find_free p),
            rw (room, found),
            take_range (mmap_find_free p) 1 ne (omega arith) (omega arith)
                (λ d lo hi. sym (ap (taken p) {x = mmap_find_free p} {y = d} (omega arith)) ∙ free),
          )
    ])
  ]

  -- In the manager's invariant, asked for at least one page, `pmm_alloc_pages` returns 0, with
  -- nothing changed, or the address of as many consecutive pages that were free and are taken
  -- from then on, with no other block changed.
  pub pmm_alloc_pages_lem :
      (num : ℕ)
      → 0 < num
      → let (addr, q) = pmm_alloc_pages p num in ((addr ≡ 0) × (q ≡ p)) ⊎ Takes p q addr num
  unfolding pmm_alloc_pages
  pmm_alloc_pages_lem num pos = elim (Bool-cases (ltb (free_blocks p) num)) [
    | inl full ↦ rw full (inl (refl, refl))
    | inr room ↦ elim (mmap_find_free_frame_lem p num pos v.zero_taken) [
      | inl e ↦ rw (room, e) (inl (refl, refl))
      | inr (ne, low, free) ↦
          let found : (mmap_find_free_frame p num == 0) ≡ false = ground arith in
          rw (room, found)
            (inr (take_range (mmap_find_free_frame p num) num ne pos (omega arith) free))
    ]
  ]

  -- In the manager's invariant `pmm_alloc_aligned_large_page` returns 0, with nothing changed, or
  -- the address of 1024 pages that were free and are taken from then on; the address is a
  -- multiple of 4 MiB.
  pmm_alloc_aligned_large_page_lem :
      let (addr, q) = pmm_alloc_aligned_large_page p in
      ((addr ≡ 0) × (q ≡ p)) ⊎ ((addr % 2 ^ 22 ≡ 0) × Takes p q addr 1024)
  unfolding pmm_alloc_aligned_large_page
  pmm_alloc_aligned_large_page_lem = elim (Bool-cases (ltb (free_blocks p) 2048)) [
    | inl full ↦ rw full (inl (refl, refl))
    | inr room ↦ elim (mmap_find_free_frame_lem p 2048 (omega arith) v.zero_taken) [
      | inl e ↦ rw (room, e) (inl (refl, refl))
      | inr (ne, low, free) ↦
          let found : (mmap_find_free_frame p 2048 == 0) ≡ false = ground arith in
          rw (room, found)
            (inr (
              omega arith,
              take_range ((mmap_find_free_frame p 2048 / 1024 + 1) * 1024) 1024 (omega arith)
                  (omega arith) (omega arith) (λ d lo hi. free d (omega arith) (omega arith)),
            ))
    ]
  ]

  -- In the manager's invariant, freeing the pages of an allocation gives back the set of taken
  -- blocks that there was before it.
  pmm_free_pages_undo :
      (q : Pmm) (addr num : ℕ)
      → Takes p q addr num
      → (b : ℕ) → taken (pmm_free_pages q addr num) b ≡ taken p b
  unfolding pmm_free_pages
  pmm_free_pages_undo q addr num t b =
      taken-unset_range num q (addr / block_size) b ∙ ground (arith, t.now b, t.free b)
