-- ===== src/Paging/Tests.antt =====
-- A small address space (kernel/src/mem/paging.c).
use saynaa_os.Prelude.{
  ℕ, ◌+◌, ◌*◌, ◌/◌, ◌%◌, ◌^◌, ◌<◌, ◌≡◌, ◌≢◌, ◌==◌, has, true, false, refl, sym, ap, subst, ◌∙◌,
  arith, Bool-cases, inl, inr, none, some, if◌then◌else◌, Array,
}
use saynaa_os.Pmm.{Pmm, block_size, pmm_alloc_page, mmap_test, mmap_set, mmap_unset}
use saynaa_os.Pmm.Alloc
use saynaa_os.Pmm.Bitmap.{taken}
use saynaa_os.Paging.{
  page_present, page_frame, directory_index, Memory, load, paging_map_page, paging_unmap_page,
  paging_virt_to_phys,
}
use saynaa_os.Paging.Space.{
  directory, translate, IsTable, HasTable, table_of, IsValid, translate-window,
}
use saynaa_os.Paging.Mapping.{ptr_of, Ends, paging_map_page_lem}
use saynaa_os.Paging.Reading.{paging_virt_to_phys_lem}
use saynaa_os.Paging.Unmapping.{paging_unmap_page-zero, paging_unmap_page-paging_map_page}

-- Blocks 0, 1, 2 and 5 of 64 are taken.
abbrev blocks : Pmm
blocks = record {
  bitmap = λ i. if i == 0 then 0x27 else 0;
  mem_size = 262144;
  used_blocks = 4;
  max_blocks = 64;
  kernel_end = 0;
}

-- A table for the addresses from 4 MiB on, the large page of the kernel, and the directory itself.
abbrev root_row : Array ℕ
root_row i = if i == 1023 then 0x1003 else if i == 768 then 0x83 else if i == 1 then 0x2007 else 0

abbrev small_memory : Memory
small_memory = record {
  frames = λ a k. if a == 0x1000 then root_row k else if k == 5 then 0x5007 else 0;
  cr3 = 0x1000;
  pmm = blocks;
}

only_one : (i : ℕ) → i < 1023 → IsTable root_row i → i ≡ 1
only_one i h t = elim (Bool-cases (i == 1)) [
  | inl is ↦ ground arith
  | inr other ↦ elim (Bool-cases (i == 768)) [
    | inl kernel ↦ absurd (ground (arith, t.small))
    | inr rest ↦ absurd (ground (arith, t.present))
  ]
]

blocks-IsValid : Alloc.IsValid blocks
unfolding taken mmap_test
blocks-IsValid = record { fits = omega arith; counter = omega arith; zero_taken = refl }

small_memory-IsValid : IsValid small_memory
unfolding taken mmap_test page_frame
small_memory-IsValid = record {
  manager = blocks-IsValid;
  root = refl;
  self_present = record { present = refl; small = refl };
  self = refl;
  tables = λ i h t.
      subst
        (λ k.
          (taken blocks (page_frame (root_row k) / 4096) ≡ true)
          × (page_frame (root_row k) ≢ 0x1000))
        (sym (only_one i h t)) (refl, omega arith);
  apart = λ i j hi hj ne ti tj. absurd (ne (only_one i hi ti ∙ sym (only_one j hj tj)));
}

translate-window_example :
    translate small_memory (0xFFC0_0000 + 1 * 4096) ≡ some (table_of small_memory 1)
translate-window_example = translate-window small_memory 1 small_memory-IsValid (omega arith) refl

paging_map_page_lem_example : Ends small_memory 0x80_0000 0x9000 7
unfolding directory_index
paging_map_page_lem_example =
    paging_map_page_lem small_memory 0x80_0000 0x9000 7 small_memory-IsValid (omega arith)
      (omega arith) (omega arith) (omega arith) refl refl

abbrev small_mapped : Memory
small_mapped = elim (paging_map_page small_memory 0x80_0000 0x9000 7) [
  | none ↦ small_memory
  | some m ↦ m
]

small_mapping : paging_map_page small_memory 0x80_0000 0x9000 7 ≡ some small_mapped
unfolding paging_map_page pmm_alloc_page saynaa_os.Pmm.mmap_find_free saynaa_os.Pmm.find_from
    saynaa_os.Pmm.find_in_word
small_mapping = refl

blocks_alloc : pmm_alloc_page blocks ≡ some (0x3000, mmap_set blocks 3)
unfolding pmm_alloc_page saynaa_os.Pmm.mmap_find_free saynaa_os.Pmm.find_from
    saynaa_os.Pmm.find_in_word
blocks_alloc = refl

blocks_left : pmm_alloc_page blocks ≢ some (0, blocks)
blocks_left z =
    absurd
      (omega (arith, ap {B = ℕ} (λ o. elim o [ none ↦ 0 | some r ↦ r.0 ]) (sym blocks_alloc ∙ z)))

paging_unmap_page-paging_map_page_example :
    (m'' : Memory) × (paging_unmap_page small_mapped 0x80_0000 ≡ some m'')
    × ((u : ℕ) → directory_index u < 1023 → translate m'' u ≡ translate small_memory u)
    × ((b : ℕ)
        → taken m''.pmm b ≡ (if 0x9000 / block_size == b then false else taken small_mapped.pmm b))
unfolding directory_index
paging_unmap_page-paging_map_page_example =
    paging_unmap_page-paging_map_page small_memory small_mapped 0x80_0000 0x9000 7
      small_memory-IsValid (omega arith) (omega arith) (omega arith) (omega arith) refl refl
      blocks_left small_mapping

-- Nothing is mapped at 0x406000.
abbrev after_unmap : Memory
after_unmap = elim (paging_unmap_page small_memory 0x40_6000) [ none ↦ small_memory | some m ↦ m ]

no_more_pages : (a : ℕ) × (q : Pmm) × (pmm_alloc_page after_unmap.pmm ≡ some (a, q))
unfolding pmm_alloc_page paging_unmap_page saynaa_os.Pmm.pmm_free_page mmap_unset
    saynaa_os.Pmm.mmap_find_free saynaa_os.Pmm.find_from saynaa_os.Pmm.find_in_word
no_more_pages = (0, after_unmap.pmm, refl)

paging_unmap_page-zero_example : no_more_pages.0 ≡ 0
unfolding directory_index load page_frame saynaa_os.Paging.table_index paging_unmap_page
paging_unmap_page-zero_example =
    paging_unmap_page-zero small_memory after_unmap 0x40_6000 no_more_pages.0 no_more_pages.1
      small_memory-IsValid (omega arith) (omega arith) (record { present = refl; small = refl })
      refl (omega arith) refl no_more_pages.2

paging_virt_to_phys_lem_example :
    ((a : ℕ)
      → a < 2 ^ 32
      → translate small_memory 0x40_5123 ≡ some a
      → paging_virt_to_phys small_memory 0x40_5123 ≡ some a)
    × (has (directory small_memory (directory_index 0x40_5123)) page_present ≡ false
        → paging_virt_to_phys small_memory 0x40_5123 ≡ some 0)
    × (HasTable small_memory (directory_index 0x40_5123)
        → load small_memory (ptr_of small_memory 0x40_5123) ≡ 0
        → paging_virt_to_phys small_memory 0x40_5123 ≡ some (0x40_5123 % 4096))
unfolding directory_index
paging_virt_to_phys_lem_example = paging_virt_to_phys_lem small_memory 0x40_5123 (omega arith) refl
