-- ===== src/Paging.antt =====
-- Paging (kernel/src/mem/paging.c) over the physical memory manager: page directories and tables as
-- the words of physical frames. The last entry of a directory maps the directory itself; an access
-- through the window at 0xFFC00000 that it gives is modelled as an access to the frame behind it. The
-- processor's cache of translations and the messages of errors are not modelled.
pub mod Entries
pub mod Space
pub mod Tables
pub mod Mapping
pub mod Unmapping
pub mod Reading
mod Tests
use saynaa_os.Prelude.{
  ℕ, zero, suc, ◌+◌, ◌*◌, ◌/◌, ◌%◌, ◌^◌, ◌==◌, has, Bool, true, false, not, ◌&&◌, Option, none,
  some, Array, write, bit_and, bit_or, if◌then◌else◌,
}
use saynaa_os.Pmm.{Pmm, pmm_alloc_page, pmm_free_page}

abbrev pub u32 : ℕ
u32 = 2 ^ 32

abbrev pub page_present : ℕ
page_present = 1

abbrev pub page_rw : ℕ
page_rw = 2

abbrev pub page_user : ℕ
page_user = 4

abbrev pub page_large : ℕ
page_large = 128

-- The masks `PAGE_FRAME` and `PAGE_FLAGS`.
unfoldable pub page_frame : ℕ → ℕ
page_frame e = bit_and e 0xFFFF_F000

unfoldable pub page_flags : ℕ → ℕ
page_flags e = bit_and e 0xFFF

-- The words of the frame at each physical address, the address of the directory in use, and the
-- memory manager.
pub record Memory : Type 0 where
  pub frames : Array (Array ℕ)
  pub cr3 : ℕ
  pub pmm : Pmm

-- `page_t*`: the address of a table, and the index of an entry in it.
pub record PagePtr : Type 0 where
  pub table : ℕ
  pub index : ℕ

unfoldable pub load : Memory → PagePtr → ℕ
load m p = m.frames p.table p.index

unfoldable pub store : Memory → PagePtr → ℕ → Memory
store m p e = record m { frames = write m.frames p.table (write (m.frames p.table) p.index e) }

unfoldable pub directory_index : ℕ → ℕ
directory_index x = x / 2 ^ 22

unfoldable pub table_index : ℕ → ℕ
table_index x = bit_and (x / 2 ^ 12) 0x3FF

-- The entry of the directory for an address.
unfoldable pub directory_entry : Memory → (virt : ℕ) → ℕ
unfolding directory_index
directory_entry m virt = m.frames m.cr3 (directory_index virt)

-- The entry of a new table.
unfoldable pub table_entry : (table flags : ℕ) → ℕ
unfolding page_flags
table_entry table flags = bit_or (bit_or (bit_or table page_present) page_rw) (page_flags flags)

-- The entry of a page.
unfoldable pub page_entry : (phys flags : ℕ) → ℕ
unfolding page_flags
page_entry phys flags = bit_or (bit_or phys page_present) (page_flags flags)

-- A new table at `table`, cleared.
unfoldable pub add_table : Memory → (virt table flags : ℕ) → Pmm → Memory
unfolding table_entry page_frame directory_index store
add_table m virt table flags pmm =
    let e : ℕ = table_entry table flags in
    let m' : Memory = store m (record { table = m.cr3; index = directory_index virt }) e in
    record m' { frames = write m'.frames (page_frame e) (λ _. 0); pmm = pmm }

-- The last part of `paging_get_page`.
unfoldable pub find_page : Memory → (virt : ℕ) → Option PagePtr
unfolding directory_entry page_frame table_index
find_page m virt =
    let e : ℕ = directory_entry m virt in
    if has e page_present
    then some (record { table = page_frame e; index = table_index virt })
    else none

-- The outer `none` stands for `abort()`.
unfoldable pub paging_get_page :
    Memory → (virt : ℕ) → (create : Bool) → (flags : ℕ) → Option (Option PagePtr × Memory)
unfolding directory_entry find_page add_table
paging_get_page m virt create flags =
    if not (virt % 0x1000 == 0)
    then none
    else if not (has (directory_entry m virt) page_present) && create
    then elim (pmm_alloc_page m.pmm) [
      | none ↦ none
      | some (new_table, pmm) ↦
          (let m' : Memory = add_table m virt new_table flags pmm in some (find_page m' virt, m'))
    ]
    else some (find_page m virt, m)

-- `none` stands for `abort()`, and for the access to a null pointer.
unfoldable pub paging_map_page : Memory → (virt phys flags : ℕ) → Option Memory
unfolding paging_get_page load store page_entry
paging_map_page m virt phys flags = elim (paging_get_page m virt true flags) [
  | none ↦ none
  | some (page, m') ↦ elim page [
    | none ↦ none
    | some p ↦
        if has (load m' p) page_present then none else some (store m' p (page_entry phys flags))
  ]
]

unfoldable pub paging_unmap_page : Memory → (virt : ℕ) → Option Memory
unfolding paging_get_page load store page_frame
paging_unmap_page m virt = elim (paging_get_page m virt false 0) [
  | none ↦ none
  | some (page, m') ↦ elim page [
    | none ↦ some m'
    | some p ↦ some (store (record m' { pmm = pmm_free_page m'.pmm (page_frame (load m' p)) }) p 0)
  ]
]

unfoldable pub paging_map_pages : Memory → (virt phys num flags : ℕ) → Option Memory
unfolding paging_map_page
paging_map_pages m virt phys zero flags = some m
paging_map_pages m virt phys (suc num) flags = elim (paging_map_page m virt phys flags) [
  | none ↦ none
  | some m' ↦ paging_map_pages m' ((virt + 0x1000) % u32) ((phys + 0x1000) % u32) num flags
]

unfoldable pub paging_unmap_pages : Memory → (virt num : ℕ) → Option Memory
unfolding paging_unmap_page
paging_unmap_pages m virt zero = some m
paging_unmap_pages m virt (suc num) = elim (paging_unmap_page m virt) [
  | none ↦ none
  | some m' ↦ paging_unmap_pages m' ((virt + 0x1000) % u32) num
]

-- The loop, from the round `i` on, with `n` left: whether all pages were got.
unfoldable pub alloc_from : Memory → (virt i n : ℕ) → Option (Bool × Memory)
unfolding paging_get_page store
alloc_from m virt i zero = some (true, m)
alloc_from m virt i (suc n) = elim (pmm_alloc_page m.pmm) [
  | none ↦ none
  | some (page, pmm) ↦
      let m' : Memory = record m { pmm = pmm } in
      elim (page == 0) [
        | true ↦ some (false, m')
        | false ↦
            elim (paging_get_page m' ((virt + i * 0x1000) % u32) true (bit_or page_rw page_user)) [
              | none ↦ none
              | some (ptr, m'') ↦ elim ptr [
                | none ↦ none
                | some p ↦
                    alloc_from
                      (store m'' p (bit_or (bit_or (bit_or page page_present) page_rw) page_user))
                      virt (i + 1) n
              ]
            ]
      ]
]

-- The pointer returned, of which 0 is `NULL`.
unfoldable pub paging_alloc_pages : Memory → (virt size : ℕ) → Option (ℕ × Memory)
unfolding alloc_from
paging_alloc_pages m virt size = elim (alloc_from m virt 0 size) [
  | none ↦ none
  | some (ok, m') ↦ some (if ok then virt else 0, m')
]

unfoldable pub paging_virt_to_phys : Memory → (virt : ℕ) → Option ℕ
unfolding paging_get_page load page_frame
paging_virt_to_phys m virt = elim (paging_get_page m (page_frame virt) false 0) [
  | none ↦ none
  | some (page, m') ↦ elim page [
    | none ↦ some 0
    | some p ↦ some ((page_frame (load m' p) + bit_and virt 0xFFF) % u32)
  ]
]
