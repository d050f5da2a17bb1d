-- ===== src/Pmm/Init.antt =====
-- `init_pmm` of kernel/src/mem/pmm.c: the bitmap and the counter that it leaves.
use saynaa_os.Prelude.{
  ℕ, zero, suc, ◌+◌, ◌*◌, ◌/◌, ◌%◌, ◌^◌, ◌<◌, ◌≤◌, ◌≡◌, refl, ◌∙◌, max, List, get_elem?, some, [],
  ◌∷◌, inl, inr, true, Bool-cases, arith,
}
use saynaa_os.Pmm.{
  Pmm, mmap_test, u32, block_size, free_blocks, divide_up, mmap_set, mmap_unset, set_range,
  unset_range, MmapEntry, Boot, last_end, signed_max, init_regions, protect, init_pmm,
  pmm_init_region, pmm_deinit_region, region_blocks,
}
use saynaa_os.Pmm.Bitmap.{taken, taken-set_range, taken-mmap_set}
use saynaa_os.Pmm.Alloc.{IsValid, set_range-max, set_range-used}

divide_up_bounds :
    (n : ℕ) → n < u32 → (divide_up n block_size ≤ 2 ^ 20) × (n ≤ divide_up n block_size * 4096)
unfolding divide_up
divide_up_bounds n h = ground arith

unset_range-end :
    (num : ℕ) (p : Pmm) (base : ℕ) → (unset_range p base num).kernel_end ≡ p.kernel_end
unfolding unset_range mmap_unset
unset_range-end zero p base = refl
unset_range-end (suc num) p base = unset_range-end num (mmap_unset p base) (base + 1)

init_region-end :
    (p : Pmm) (addr size : ℕ) → (pmm_init_region p addr size).kernel_end ≡ p.kernel_end
unfolding pmm_init_region mmap_set
init_region-end p addr size = unset_range-end (region_blocks addr size) p (addr / block_size)

init_regions-end :
    (es : List MmapEntry) (p : Pmm) (available : ℕ)
    → (init_regions p available es).0.kernel_end ≡ p.kernel_end
unfolding init_regions
init_regions-end [] p available = refl
init_regions-end (e ∷ es) p available = elim (Bool-cases e.available) [
  | inl is_free ↦ rw is_free (
      init_regions-end es (pmm_init_region p (e.base_addr % u32) (e.len % u32))
        ((available + e.len) % 2 ^ 64)
      ∙ init_region-end p (e.base_addr % u32) (e.len % u32))
  | inr other ↦ rw other (init_regions-end es p available)
]

-- The counter after the protection: all blocks, and those protected once more.
protect_counter :
    (p : Pmm) (available : ℕ) (b : Boot)
    → 0 < p.kernel_end
    → p.kernel_end < u32
    → let r = protect p available b in
      (r.max_blocks < r.used_blocks) × (r.max_blocks < free_blocks r)
unfolding protect pmm_deinit_region
protect_counter p available b pos small =
    let m : ℕ = available % u32 / block_size in
    let q : Pmm = record p { mem_size = available % u32; max_blocks = m; used_blocks = m } in
    let n1 : ℕ = region_blocks 0 p.kernel_end in
    let q1 : Pmm = set_range q (0 / block_size) n1 in
    let n2 : ℕ = region_blocks b.addr b.total_size in
    omega (
      arith,
      divide_up_bounds ((p.kernel_end + 0 % block_size) % u32) (omega arith),
      divide_up_bounds ((b.total_size + b.addr % block_size) % u32) (omega arith),
      set_range-max n1 q (0 / block_size),
      set_range-max n2 q1 (b.addr / block_size),
      set_range-used n1 q (0 / block_size) (omega arith),
      set_range-used n2 q1 (b.addr / block_size)
          (omega (arith, set_range-used n1 q (0 / block_size) (omega arith))),
    )

-- If the kernel and its modules end below 2 ^ 32, and the kernel not at 0, the counter is above
-- the number of blocks after `init_pmm`, so that `max_blocks - used_blocks` wraps round: the
-- manager counts more blocks free than there are.
init_pmm_counter :
    (kernel_phys : ℕ) (p : Pmm) (b : Boot)
    → 0 < kernel_phys
    → kernel_phys < u32
    → last_end p.kernel_end b.module_ends < u32
    → let r = init_pmm kernel_phys p b in
      (r.max_blocks < r.used_blocks) × (r.max_blocks < free_blocks r)
unfolding init_pmm
init_pmm_counter kernel_phys p b pos small ends =
    let q : Pmm = record p {
      kernel_end = max kernel_phys (last_end p.kernel_end b.module_ends);
      bitmap = λ _. 0xFFFF_FFFF;
    } in
    let kept = init_regions-end b.mmap q 0 in
    protect_counter (init_regions q 0 b.mmap).0 (init_regions q 0 b.mmap).1 b (omega (arith, kept))
      (omega (arith, kept))

-- A byte below `end` lies in one of the blocks that `[0, end)` touches.
low_block : (end b : ℕ) → end < u32 → b * block_size < end → b < region_blocks 0 end
low_block end b small h =
    omega (arith, divide_up_bounds ((end + 0 % block_size) % u32) (omega arith))

init_regions-zero :
    (es : List MmapEntry) (p : Pmm) (available : ℕ)
    → taken p 0 ≡ true
    → taken (init_regions p available es).0 0 ≡ true
unfolding init_regions pmm_init_region
init_regions-zero [] p available t = t
init_regions-zero (e ∷ es) p available t = elim (Bool-cases e.available) [
  | inl is_free ↦ rw is_free (
      init_regions-zero es _ _
        (taken-mmap_set (unset_range p (e.base_addr % u32 / block_size) _) 0 0))
  | inr other ↦ rw other (init_regions-zero es p available t)
]

-- Where the protection leaves the manager: its invariant holds, and no block below the end of the
-- kernel is free.
protect_lem :
    (p : Pmm) (available : ℕ) (b : Boot)
    → taken p 0 ≡ true
    → p.kernel_end < u32
    → IsValid (protect p available b)
      × ((d : ℕ) → d * block_size < p.kernel_end → taken (protect p available b) d ≡ true)
unfolding protect pmm_deinit_region
protect_lem p available b zero_taken small =
    let m : ℕ = available % u32 / block_size in
    let q : Pmm = record p { mem_size = available % u32; max_blocks = m; used_blocks = m } in
    let n1 : ℕ = region_blocks 0 p.kernel_end in
    let q1 : Pmm = set_range q (0 / block_size) n1 in
    let n2 : ℕ = region_blocks b.addr b.total_size in
    let counter : q1.used_blocks < u32 =
      omega (arith, set_range-used n1 q (0 / block_size) (omega arith)) in
    let kept : taken q 0 ≡ true = unfold taken mmap_test in zero_taken in
    (
      record {
        fits =
            omega (
              arith,
              set_range-max n1 q (0 / block_size),
              set_range-max n2 q1 (b.addr / block_size),
            );
        counter = omega (arith, set_range-used n2 q1 (b.addr / block_size) counter);
        zero_taken = ground (
          arith,
          taken-set_range n2 q1 (b.addr / block_size) 0,
          taken-set_range n1 q (0 / block_size) 0,
          kept,
        );
      },
      λ d h. ground (
        arith,
        taken-set_range n2 q1 (b.addr / block_size) d,
        taken-set_range n1 q (0 / block_size) d,
        low_block p.kernel_end d small h,
      ),
    )

signed_max-words :
    (a b : ℕ)
    → a < 2 ^ 31
    → b < 2 ^ 31
    → (a ≤ signed_max a b) × (b ≤ signed_max a b) × (signed_max a b < 2 ^ 31)
unfolding signed_max
signed_max-words a b ha hb = ground arith

-- The comparison of words as signed numbers is right below 2 ^ 31, so that the end of no module is
-- lost.
last_end-ends :
    (ends : List ℕ) (kernel_end : ℕ)
    → kernel_end < 2 ^ 31
    → ((i e : ℕ) → get_elem? ends i ≡ some e → e < 2 ^ 31)
    → (kernel_end ≤ last_end kernel_end ends)
      × (last_end kernel_end ends < 2 ^ 31)
      × ((i e : ℕ) → get_elem? ends i ≡ some e → e ≤ last_end kernel_end ends)
unfolding last_end
last_end-ends [] kernel_end small all = (omega arith, small, λ i e is. cc)
last_end-ends (x ∷ xs) kernel_end small all =
    let first : x < 2 ^ 31 = all 0 x refl in
    let (above, below, fits) = signed_max-words x kernel_end first small in
    let (kept, bound, rest) =
      last_end-ends xs (signed_max x kernel_end) (omega arith) (λ i e is. all (suc i) e is) in
    (omega arith, bound, λ i e is. by_index i e is (omega arith) rest)
  where
    by_index :
        (i e : ℕ)
        → get_elem? (x ∷ xs) i ≡ some e
        → x ≤ last_end (signed_max x kernel_end) xs
        → ((i e : ℕ) → get_elem? xs i ≡ some e → e ≤ last_end (signed_max x kernel_end) xs)
        → e ≤ last_end (signed_max x kernel_end) xs
    by_index zero e is h rest = (let same : x ≡ e = cc in omega arith)
    by_index (suc i) e is h rest = rest i e is

-- If the kernel ends below 2 ^ 32, and each module below 2 ^ 31, `init_pmm` establishes the manager's
-- invariant, and no block that begins below the end of the kernel or of any module is free.
pub init_pmm-IsValid :
    (kernel_phys : ℕ) (p : Pmm) (b : Boot)
    → kernel_phys < u32
    → p.kernel_end < 2 ^ 31
    → ((i e : ℕ) → get_elem? b.module_ends i ≡ some e → e < 2 ^ 31)
    → let r = init_pmm kernel_phys p b in
      IsValid r
      × ((d : ℕ) → d * block_size < kernel_phys → taken r d ≡ true)
      × ((d i e : ℕ) → get_elem? b.module_ends i ≡ some e → d * block_size < e → taken r d ≡ true)
unfolding init_pmm
init_pmm-IsValid kernel_phys p b small start_end ends =
    let (above, below, each) = last_end-ends b.module_ends p.kernel_end start_end ends in
    let q : Pmm = record p {
      kernel_end = max kernel_phys (last_end p.kernel_end b.module_ends);
      bitmap = λ _. 0xFFFF_FFFF;
    } in
    let kept = init_regions-end b.mmap q 0 in
    let start : taken q 0 ≡ true = unfold taken mmap_test in refl in
    let (valid, low) =
      protect_lem (init_regions q 0 b.mmap).0 (init_regions q 0 b.mmap).1 b
        (init_regions-zero b.mmap q 0 start) (omega (arith, kept)) in
    (
      valid,
      λ d h. low d (omega (arith, kept)),
      λ d i e is h. low d (omega (arith, kept, each i e is)),
    )
