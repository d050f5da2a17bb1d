-- ===== src/Pmm/Tests.antt =====
-- Runs of the physical memory manager on a small memory.
use saynaa_os.Prelude.{
  ℕ, ◌*◌, ◌<◌, ◌≡◌, ◌≢◌, refl, inl, inr, ◌⊎◌, true, none, some, [], ◌∷◌, arith, write, get_elem?,
  suc, zero, ◌^◌,
}
use saynaa_os.Pmm.{
  Pmm, Boot, block_size, free_blocks, mmap_find_free, mmap_find_free_frame, pmm_alloc_page,
  pmm_alloc_pages, mmap_set, init_pmm,
}
use saynaa_os.Pmm.Bitmap.{taken}
use saynaa_os.Pmm.Find.{first_free, searched, or_zero, mmap_find_free-first_free}
use saynaa_os.Pmm.Alloc.{IsValid, Takes, pmm_alloc_page_lem, pmm_alloc_pages_lem}
use saynaa_os.Pmm.Init.{init_pmm-IsValid}

-- 64 blocks, of which the first three are taken.
abbrev small : Pmm
small = record {
  bitmap = write (λ _. 0) 0 7;
  mem_size = 262144;
  used_blocks = 3;
  max_blocks = 64;
  kernel_end = 0;
}

small_first : pmm_alloc_page small ≡ some (3 * 4096, mmap_set small 3)
unfolding pmm_alloc_page mmap_find_free saynaa_os.Pmm.find_from saynaa_os.Pmm.find_in_word
small_first = refl

small-IsValid : IsValid small
unfolding taken
small-IsValid = record { fits = omega arith; counter = omega arith; zero_taken = refl }

zero_taken : taken small 0 ≡ true
unfolding taken
zero_taken = refl

pmm_alloc_page_lem_example :
    ((free_blocks small ≡ 0) × (pmm_alloc_page small ≡ none))
    ⊎ ((free_blocks small ≢ 0)
        × (pmm_alloc_page small ≡ some (0, small))
        × ((b : ℕ) → b < searched small → taken small b ≡ true))
    ⊎ ((free_blocks small ≢ 0)
        × (addr : ℕ) × (q : Pmm) × (pmm_alloc_page small ≡ some (addr, q))
        × Takes small q addr 1)
pmm_alloc_page_lem_example = pmm_alloc_page_lem small small-IsValid

pmm_alloc_pages_lem_example :
    let (addr, q) = pmm_alloc_pages small 4 in ((addr ≡ 0) × (q ≡ small)) ⊎ Takes small q addr 4
pmm_alloc_pages_lem_example = pmm_alloc_pages_lem small small-IsValid 4 (omega arith)

mmap_find_free-first_free_example :
    mmap_find_free small ≡ or_zero (first_free small 0 (searched small))
mmap_find_free-first_free_example = mmap_find_free-first_free small

-- The state after two pages.
abbrev two_taken : Pmm
two_taken = (pmm_alloc_pages small 2).1

two_pages : (pmm_alloc_pages small 2).0 ≡ 3 * 4096
unfolding pmm_alloc_pages mmap_find_free_frame saynaa_os.Pmm.search_from saynaa_os.Pmm.search_word
    saynaa_os.Pmm.search_bit
two_pages = refl

small-Takes : Takes small two_taken (pmm_alloc_pages small 2).0 2
small-Takes = elim (pmm_alloc_pages_lem small small-IsValid 2 (omega arith)) [
  | inl (nothing, same) ↦ absurd (omega (arith, two_pages))
  | inr t ↦ t
]

-- A machine with 256 KiB, a kernel of two pages and a module after it.
abbrev boot : Boot
boot = record {
  module_ends = 20480 ∷ [];
  mmap = record { available = true; base_addr = 0; len = 262144 } ∷ [];
  addr = 36864;
  total_size = 512;
}

ends : (i e : ℕ) → get_elem? boot.module_ends i ≡ some e → e < 2 ^ 31
ends zero e is = (let end : 20480 ≡ e = cc in omega arith)
ends (suc i) e is = cc

init_pmm-IsValid_example :
    let r = init_pmm 8192 small boot in
    IsValid r
    × ((d : ℕ) → d * block_size < 8192 → taken r d ≡ true)
    × ((d i e : ℕ) → get_elem? boot.module_ends i ≡ some e → d * block_size < e → taken r d ≡ true)
init_pmm-IsValid_example = init_pmm-IsValid 8192 small boot (omega arith) (omega arith) ends
