-- ===== src/Paging/Unmapping.antt =====
-- What unmapping a page does, and the reading of a mapping (kernel/src/mem/paging.c).
use saynaa_os.Prelude.{
  ℕ, zero, suc, ◌/◌, ◌%◌, ◌<◌, ◌≤◌, ◌≡◌, ◌≢◌, ◌==◌, has, true, false, refl, sym, ap, subst, ◌∙◌,
  arith, Bool-cases, inl, inr, Option, none, some, if◌then◌else◌,
}
use saynaa_os.Pmm.{Pmm, block_size, mmap_unset, pmm_alloc_page, pmm_free_page, mmap_find_free}
use saynaa_os.Pmm.Find.{first_free, searched, or_zero, mmap_find_free-first_free}
use saynaa_os.Pmm.Bitmap.{taken, taken-mmap_unset}
use saynaa_os.Paging.{
  u32, page_present, page_large, page_frame, table_index, directory_index, Memory, load, store,
  paging_map_page, paging_unmap_page,
}
use saynaa_os.Paging.Entries.{page_frame_lem, table_index_lem}
use saynaa_os.Paging.Space.{
  directory, translate, HasTable, IsValid, translate_same, translate_cases, stored-here,
  stored-other,
}
use saynaa_os.Paging.Mapping.{
  mapped_before, aborted, no_memory, mapped, paging_map_page_lem, ptr_of, get_present,
}

-- The memory after the entry of a page was cleared and its frame given back.
abbrev pub unmapped : Memory → (virt : ℕ) → Memory
unmapped m virt =
    store (record m { pmm = pmm_free_page m.pmm (page_frame (load m (ptr_of m virt))) })
      (ptr_of m virt) 0

unwrap : (x y : Memory) → ◌≡◌ {A = Option Memory} (some x) (some y) → x ≡ y
unwrap x y e = ap (λ o. elim o [ none ↦ x | some z ↦ z ]) e

unmap_present :
    (m : Memory) (virt : ℕ)
    → virt % 4096 ≡ 0
    → HasTable m (directory_index virt)
    → paging_unmap_page m virt ≡ some (unmapped m virt)
unfolding paging_unmap_page
unmap_present m virt al t = rw (paging_unmap_page, get_present m virt false 0 al t) refl

-- In a valid address space, unmapping a page below the window whose table there is makes the page go
-- nowhere, leaves every other page below the window as it was, and gives back one block, that of the
-- frame in the page's entry.
pub paging_unmap_page_lem :
    (m : Memory) (virt : ℕ)
    → IsValid m
    → virt % 4096 ≡ 0
    → directory_index virt < 1023
    → HasTable m (directory_index virt)
    → (m' : Memory) × (paging_unmap_page m virt ≡ some m')
      × ((u : ℕ) → u / 4096 ≡ virt / 4096 → translate m' u ≡ none)
      × ((u : ℕ)
          → directory_index u < 1023
          → u / 4096 ≢ virt / 4096
          → translate m' u ≡ translate m u)
      × ((b : ℕ)
          → taken m'.pmm b ≡ (
              if page_frame (load m (ptr_of m virt)) / block_size == b
              then false
              else taken m.pmm b))
unfolding store pmm_free_page
paging_unmap_page_lem m virt v al low t =
    let q : Pmm = pmm_free_page m.pmm (page_frame (load m (ptr_of m virt))) in
    let plain : (u : ℕ) → translate (unmapped m virt) u ≡ translate (store m (ptr_of m virt) 0) u =
      λ u. translate_same (store m (ptr_of m virt) 0) (unmapped m virt) u refl (λ h. refl) in
    (
      unmapped m virt,
      unmap_present m virt al t,
      λ u h. plain u ∙ stored-here m virt 0 v low t u h,
      λ u h ne. plain u ∙ stored-other m virt 0 v low t u h ne,
      λ b. taken-mmap_unset m.pmm (page_frame (load m (ptr_of m virt)) / block_size) b,
    )

-- An allocation that finds block 0 free takes it for a sign that there is none.
zero_free :
    (p : Pmm) (a : ℕ) (q : Pmm)
    → taken p 0 ≡ false
    → 32 ≤ p.max_blocks
    → pmm_alloc_page p ≡ some (a, q)
    → a ≡ 0
unfolding pmm_alloc_page first_free
zero_free p a q free size e =
    let found : mmap_find_free p ≡ 0 =
      mmap_find_free-first_free p ∙ ap or_zero (first p (searched p) free (omega arith)) in
    let none_found : (mmap_find_free p == 0) ≡ true = ground (arith, found) in
    ground (arith, e, none_found)
  where
    first : (p : Pmm) (n : ℕ) → taken p 0 ≡ false → 0 < n → first_free p 0 n ≡ some 0
    first p zero free h = absurd (omega arith)
    first p (suc n) free h = rw free refl

-- In a valid address space with 32 blocks of memory at least, unmapping an aligned page below the
-- window whose table there is but whose entry is 0 has the effect that the next allocation of a page,
-- if it does not abort, returns 0.
pub paging_unmap_page-zero :
    (m m' : Memory) (virt a : ℕ) (q : Pmm)
    → IsValid m
    → virt % 4096 ≡ 0
    → directory_index virt < 1023
    → HasTable m (directory_index virt)
    → load m (ptr_of m virt) ≡ 0
    → 32 ≤ m.pmm.max_blocks
    → paging_unmap_page m virt ≡ some m'
    → pmm_alloc_page m'.pmm ≡ some (a, q)
    → a ≡ 0
unfolding store pmm_free_page mmap_unset
paging_unmap_page-zero m m' virt a q v al low t none_there size e got =
    let is : unmapped m virt ≡ m' =
      unwrap (unmapped m virt) m' (sym (unmap_present m virt al t) ∙ e) in
    let block : page_frame (load m (ptr_of m virt)) / block_size ≡ 0 =
      ap (λ x. page_frame x / block_size) none_there
      ∙ omega (arith, page_frame_lem 0 (omega arith)) in
    let free : taken (unmapped m virt).pmm 0 ≡ false =
      taken-mmap_unset m.pmm (page_frame (load m (ptr_of m virt)) / block_size) 0
      ∙ ground (arith, block) in
    zero_free (unmapped m virt).pmm a q free size (ap (λ x. pmm_alloc_page x.pmm) is ∙ got)

-- What an address goes to is a matter of its page.
none_page :
    (m : Memory) (virt u : ℕ)
    → u / 4096 ≡ virt / 4096
    → translate m virt ≡ none
    → translate m u ≡ none
unfolding directory_index
none_page m virt u same is =
    let di : directory_index u ≡ directory_index virt = omega arith in
    let ti : table_index u ≡ table_index virt =
      omega (arith, table_index_lem u, table_index_lem virt) in
    let e : ℕ = directory m (directory_index virt) in
    let p : ℕ = m.frames (page_frame e) (table_index virt) in
    let here = translate_cases m virt e p refl refl in
    let there = translate_cases m u e p (ap (directory m) di) (ap (m.frames (page_frame e)) ti) in
    there ∙ elim (Bool-cases (has e page_present)) [
      | inr absent ↦ rw absent refl
      | inl present ↦ elim (Bool-cases (has e page_large)) [
        | inl large ↦ absurd (ground (arith, (rw (present, large) at (sym here ∙ is))))
        | inr small ↦ elim (Bool-cases (has p page_present)) [
          | inl there' ↦ absurd (ground (arith, (rw (present, small, there') at (sym here ∙ is))))
          | inr absent ↦ rw (present, small, absent) refl
        ]
      ]
    ]

-- In a valid address space, for an aligned page below the window that lies in no page of 4 MiB, an
-- aligned frame, and flags without that of a large page, where the memory manager does not answer 0:
-- if the page is mapped, unmapping it succeeds, leads every page below the window where it led before
-- the mapping, and gives back the block of the frame.
pub paging_unmap_page-paging_map_page :
    (m m' : Memory) (virt phys flags : ℕ)
    → IsValid m
    → virt % 4096 ≡ 0
    → directory_index virt < 1023
    → phys % 4096 ≡ 0
    → phys < u32
    → has flags page_large ≡ false
    → has (directory m (directory_index virt)) page_large ≡ false
    → pmm_alloc_page m.pmm ≢ some (0, m.pmm)
    → paging_map_page m virt phys flags ≡ some m'
    → (m'' : Memory) × (paging_unmap_page m' virt ≡ some m'')
      × ((u : ℕ) → directory_index u < 1023 → translate m'' u ≡ translate m u)
      × ((b : ℕ) → taken m''.pmm b ≡ (if phys / block_size == b then false else taken m'.pmm b))
paging_unmap_page-paging_map_page m m' virt phys flags v al low a s small large memory e =
    elim (paging_map_page_lem m virt phys flags v al low a s small large) [
      | mapped_before to is refused ↦ absurd (ground (arith, (sym refused ∙ e)))
      | aborted absent is refused ↦ absurd (ground (arith, (sym refused ∙ e)))
      | no_memory is got ↦ absurd (memory got)
      | mapped n mapping before valid maps ↦
          let same : n ≡ m' = unwrap n m' (sym mapping ∙ e) in
          let (w, done, gone, others, blocks) =
            paging_unmap_page_lem n virt valid al low maps.table in
          (
            w,
            subst (λ x. paging_unmap_page x virt ≡ some w) same done,
            λ u h. elim (Bool-cases (u / 4096 == virt / 4096)) [
              | inl here ↦
                  let page : u / 4096 ≡ virt / 4096 = ground arith in
                  gone u page ∙ sym (none_page m virt u page before)
              | inr there ↦
                  let page : u / 4096 ≢ virt / 4096 = ground arith in
                  others u h page ∙ maps.others u h page
            ],
            λ b.
                blocks b
                ∙ (ap (λ f. if f / block_size == b then false else taken n.pmm b) maps.entry
                    ∙ ap (λ x. if phys / block_size == b then false else taken x.pmm b) same),
          )
    ]
