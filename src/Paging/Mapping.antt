-- ===== src/Paging/Mapping.antt =====
-- What mapping a page does to the address space (kernel/src/mem/paging.c).
use saynaa_os.Prelude.{
  ℕ, ◌+◌, ◌/◌, ◌%◌, ◌<◌, ◌≡◌, ◌≢◌, ◌==◌, has, Bool, true, false, refl, ap, ◌∙◌, arith, Bool-cases,
  inl, inr, none, some,
}
use saynaa_os.Pmm.{Pmm, pmm_alloc_page}
use saynaa_os.Pmm.Alloc.{pmm_alloc_page_lem}
use saynaa_os.Paging.{
  u32, page_present, page_large, page_frame, page_entry, table_index, directory_index,
  directory_entry, Memory, PagePtr, load, store, find_page, add_table, paging_get_page,
  paging_map_page,
}
use saynaa_os.Paging.Entries.{page_entry-IsEntry}
use saynaa_os.Paging.Space.{
  directory, translate, HasTable, table_of, IsValid, translate_table, translate_absent,
  stored-IsValid, stored-HasTable, stored-entry, stored-here, stored-other,
}
use saynaa_os.Paging.Tables.{added-HasTable, added-IsValid, added-empty, added-translate}

-- The entry for an address whose table there is.
abbrev pub ptr_of : Memory → ℕ → PagePtr
ptr_of m virt = record { table = table_of m (directory_index virt); index = table_index virt }

find_page-some :
    (m : Memory) (virt : ℕ)
    → HasTable m (directory_index virt)
    → find_page m virt ≡ some (ptr_of m virt)
unfolding find_page directory_entry
find_page-some m virt t = rw t.present refl

pub get_present :
    (m : Memory) (virt : ℕ) (create : Bool) (flags : ℕ)
    → virt % 4096 ≡ 0
    → HasTable m (directory_index virt)
    → paging_get_page m virt create flags ≡ some (some (ptr_of m virt), m)
unfolding paging_get_page directory_entry
get_present m virt create flags a t =
    let aligned : (virt % 4096 == 0) ≡ true = ground (arith, a) in
    rw (paging_get_page, aligned, t.present) refl

get_new :
    (m : Memory) (virt flags a : ℕ) (q : Pmm)
    → virt % 4096 ≡ 0
    → has (directory m (directory_index virt)) page_present ≡ false
    → pmm_alloc_page m.pmm ≡ some (a, q)
    → HasTable (add_table m virt a flags q) (directory_index virt)
    → paging_get_page m virt true flags
      ≡ some (some (ptr_of (add_table m virt a flags q) virt), add_table m virt a flags q)
unfolding paging_get_page directory_entry
get_new m virt flags a q al absent e t =
    let aligned : (virt % 4096 == 0) ≡ true = ground (arith, al) in
    rw (paging_get_page, aligned, absent, e, find_page-some (add_table m virt a flags q) virt t)
      refl

-- From `m` to `m'` a page was mapped and nothing else.
pub record Maps (m m' : Memory) (virt phys : ℕ) : Type 0 where
  pub here : (u : ℕ) → u / 4096 ≡ virt / 4096 → translate m' u ≡ some (phys + u % 4096)
  pub table : HasTable m' (directory_index virt)
  pub entry : page_frame (load m' (ptr_of m' virt)) ≡ phys
  pub others :
      (u : ℕ) → directory_index u < 1023 → u / 4096 ≢ virt / 4096 → translate m' u ≡ translate m u

map_free :
    (m m' : Memory) (virt phys flags : ℕ)
    → paging_get_page m virt true flags ≡ some (some (ptr_of m' virt), m')
    → has (load m' (ptr_of m' virt)) page_present ≡ false
    → paging_map_page m virt phys flags ≡ some (store m' (ptr_of m' virt) (page_entry phys flags))
unfolding paging_map_page
map_free m m' virt phys flags e absent = rw (paging_map_page, e, absent) refl

map_taken :
    (m m' : Memory) (virt phys flags : ℕ)
    → paging_get_page m virt true flags ≡ some (some (ptr_of m' virt), m')
    → has (load m' (ptr_of m' virt)) page_present ≡ true
    → paging_map_page m virt phys flags ≡ none
unfolding paging_map_page
map_taken m m' virt phys flags e present = rw (paging_map_page, e, present) refl

map_abort :
    (m : Memory) (virt phys flags : ℕ)
    → virt % 4096 ≡ 0
    → has (directory m (directory_index virt)) page_present ≡ false
    → pmm_alloc_page m.pmm ≡ none
    → paging_map_page m virt phys flags ≡ none
unfolding paging_map_page paging_get_page directory_entry
map_abort m virt phys flags al absent e =
    let aligned : (virt % 4096 == 0) ≡ true = ground (arith, al) in
    rw (paging_map_page, paging_get_page, aligned, absent, e) refl

store-Maps :
    (m m' : Memory) (virt phys flags : ℕ)
    → ((u : ℕ) → directory_index u < 1023 → translate m' u ≡ translate m u)
    → IsValid m'
    → HasTable m' (directory_index virt)
    → directory_index virt < 1023
    → phys % 4096 ≡ 0
    → phys < u32
    → IsValid (store m' (ptr_of m' virt) (page_entry phys flags))
      × Maps m (store m' (ptr_of m' virt) (page_entry phys flags)) virt phys
unfolding load
store-Maps m m' virt phys flags same v t low a s =
    let e : ℕ = page_entry phys flags in
    let is = page_entry-IsEntry phys flags a s in
    (
      stored-IsValid m' virt e v low t,
      record {
        table = stored-HasTable m' virt e v low t;
        entry = ap page_frame (stored-entry m' virt e v low t) ∙ is.frame;
        here = λ u h. stored-here m' virt e v low t u h ∙ rw (is.present, is.frame) refl;
        others = λ u h ne. stored-other m' virt e v low t u h ne ∙ same u h;
      },
    )

-- How a mapping ends: with an abort, because the page was mapped or the memory manager aborts; with
-- the null page as a table, when the manager has none; or as it should.
pub data Ends (m : Memory) (virt phys flags : ℕ) : Type 0 where
  mapped_before :
      (a : ℕ)
      → translate m virt ≡ some a
      → paging_map_page m virt phys flags ≡ none
      → Ends m virt phys flags
  aborted :
      has (directory m (directory_index virt)) page_present ≡ false
      → pmm_alloc_page m.pmm ≡ none
      → paging_map_page m virt phys flags ≡ none
      → Ends m virt phys flags
  no_memory :
      has (directory m (directory_index virt)) page_present ≡ false
      → pmm_alloc_page m.pmm ≡ some (0, m.pmm)
      → Ends m virt phys flags
  mapped :
      (m' : Memory)
      → paging_map_page m virt phys flags ≡ some m'
      → translate m virt ≡ none
      → IsValid m'
      → Maps m m' virt phys
      → Ends m virt phys flags

-- In a valid address space, for an aligned page below the window that lies in no page of 4 MiB, an
-- aligned frame, and flags without that of a large page: a page that is mapped is refused; otherwise,
-- unless a table is wanted and there is no memory for it, the page is mapped to the frame, every
-- other page below the window goes where it went, and the address space is valid again. Without
-- memory the call aborts, or the memory manager answers 0, and then nothing is said.
pub paging_map_page_lem :
    (m : Memory) (virt phys flags : ℕ)
    → IsValid m
    → virt % 4096 ≡ 0
    → directory_index virt < 1023
    → phys % 4096 ≡ 0
    → phys < u32
    → has flags page_large ≡ false
    → has (directory m (directory_index virt)) page_large ≡ false
    → Ends m virt phys flags
unfolding load
paging_map_page_lem m virt phys flags v al low a s small large =
    elim (Bool-cases (has (directory m (directory_index virt)) page_present)) [
      | inl present ↦
          let t : HasTable m (directory_index virt) = record { present = present; small = large } in
          let p : ℕ = m.frames (table_of m (directory_index virt)) (table_index virt) in
          let got = get_present m virt true flags al t in
          elim (Bool-cases (has p page_present)) [
            | inl there ↦
                mapped_before (page_frame p + virt % 4096)
                  (translate_table m virt p t refl ∙ rw there refl)
                  (map_taken m m virt phys flags got there)
            | inr absent ↦
                let (v', maps) = store-Maps m m virt phys flags (λ u h. refl) v t low a s in
                mapped (store m (ptr_of m virt) (page_entry phys flags))
                  (map_free m m virt phys flags got absent)
                  (translate_table m virt p t refl ∙ rw absent refl) v' maps
          ]
      | inr absent ↦ elim (pmm_alloc_page_lem m.pmm v.manager) [
        | inl (none_left, e) ↦ aborted absent e (map_abort m virt phys flags al absent e)
        | inr rest ↦ elim rest [
          | inl (some_left, e, all) ↦ no_memory absent e
          | inr (some_left, f, q, e, takes) ↦
              let m' : Memory = add_table m virt f flags q in
              let t = added-HasTable m virt f flags q v low absent takes small in
              let (v', maps) =
                store-Maps m m' virt phys flags
                  (added-translate m virt f flags q v low absent takes small)
                  (added-IsValid m virt f flags q v low absent takes small) t low a s in
              let clear =
                ap (λ x. has x page_present)
                  (added-empty m virt f flags q v low absent takes small (table_index virt)) in
              mapped (store m' (ptr_of m' virt) (page_entry phys flags))
                (map_free m m' virt phys flags (get_new m virt flags f q al absent e t) clear)
                (translate_absent m virt absent) v' maps
        ]
      ]
    ]
