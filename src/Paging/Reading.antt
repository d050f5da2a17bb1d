-- ===== src/Paging/Reading.antt =====
-- The reading of a mapping (kernel/src/mem/paging.c).
use saynaa_os.Prelude.{
  ℕ, ◌+◌, ◌*◌, ◌/◌, ◌%◌, ◌<◌, ◌≡◌, ◌==◌, has, true, false, refl, sym, ap, subst, ◌∙◌, arith,
  Bool-cases, inl, inr, Option, none, some, bit_and,
}
use saynaa_os.Prelude.Masks.{bit_and_flags}
use saynaa_os.Paging.{
  u32, page_present, page_large, page_frame, table_index, directory_index, directory_entry, Memory,
  PagePtr, load, find_page, paging_get_page, paging_virt_to_phys,
}
use saynaa_os.Paging.Entries.{page_frame_lem, table_index_lem}
use saynaa_os.Paging.Space.{directory, translate, HasTable, table_of, translate_cases}
use saynaa_os.Paging.Mapping.{ptr_of, get_present}

get_absent :
    (m : Memory) (virt flags : ℕ)
    → virt % 4096 ≡ 0
    → has (directory m (directory_index virt)) page_present ≡ false
    → paging_get_page m virt false flags ≡ some (none, m)
unfolding paging_get_page find_page directory_entry
get_absent m virt flags al absent =
    let aligned : (virt % 4096 == 0) ≡ true = ground (arith, al) in
    rw (paging_get_page, aligned, absent) refl

-- The last part of `paging_virt_to_phys`.
read_page : ℕ → Option (Option PagePtr × Memory) → Option ℕ
read_page virt got = elim got [
  | none ↦ none
  | some (page, m') ↦ elim page [
    | none ↦ some 0
    | some p ↦ some ((page_frame (load m' p) + bit_and virt 0xFFF) % u32)
  ]
]

to_phys :
    (m : Memory) (virt : ℕ)
    → virt < u32
    → paging_virt_to_phys m virt ≡ read_page virt (paging_get_page m (virt / 4096 * 4096) false 0)
unfolding paging_virt_to_phys read_page
to_phys m virt h = ap (λ b. read_page virt (paging_get_page m b false 0)) (page_frame_lem virt h)

to_phys_table :
    (m : Memory) (virt : ℕ)
    → virt < u32
    → HasTable m (directory_index virt)
    → paging_virt_to_phys m virt
      ≡ some (
          (page_frame (m.frames (table_of m (directory_index virt)) (table_index virt))
            + virt % 4096)
          % u32)
unfolding read_page load directory_index
to_phys_table m virt h t =
    let base : ℕ = virt / 4096 * 4096 in
    let di : directory_index base ≡ directory_index virt = omega arith in
    let ti : table_index base ≡ table_index virt =
      omega (arith, table_index_lem base, table_index_lem virt) in
    to_phys m virt h
    ∙ (ap (read_page virt)
          (get_present m base false 0 (omega arith) (subst (HasTable m) (sym di) t))
        ∙ (ap
              (λ i. some (
                (page_frame (m.frames (table_of m i) (table_index base)) + bit_and virt 0xFFF)
                % u32))
              di
            ∙ (ap
                  (λ i. some (
                    (page_frame (m.frames (table_of m (directory_index virt)) i)
                      + bit_and virt 0xFFF)
                    % u32))
                  ti
                ∙ ap
                    (λ i. some (
                      (page_frame (m.frames (table_of m (directory_index virt)) (table_index virt))
                        + i)
                      % u32))
                    (bit_and_flags virt))))

to_phys_absent :
    (m : Memory) (virt : ℕ)
    → virt < u32
    → has (directory m (directory_index virt)) page_present ≡ false
    → paging_virt_to_phys m virt ≡ some 0
unfolding read_page directory_index
to_phys_absent m virt h absent =
    let base : ℕ = virt / 4096 * 4096 in
    let di : directory_index base ≡ directory_index virt = omega arith in
    to_phys m virt h
    ∙ ap (read_page virt)
        (get_absent m base 0 (omega arith) (ap (λ i. has (directory m i) page_present) di ∙ absent))

-- For an address outside the pages of 4 MiB: `paging_virt_to_phys` gives the address that the
-- processor goes to, and 0 where there is no table; but where there is a table whose entry for the
-- page is 0 it gives the address's offset in the page.
pub paging_virt_to_phys_lem :
    (m : Memory) (virt : ℕ)
    → virt < u32
    → has (directory m (directory_index virt)) page_large ≡ false
    → ((a : ℕ) → a < u32 → translate m virt ≡ some a → paging_virt_to_phys m virt ≡ some a)
      × (has (directory m (directory_index virt)) page_present ≡ false
          → paging_virt_to_phys m virt ≡ some 0)
      × (HasTable m (directory_index virt)
          → load m (ptr_of m virt) ≡ 0
          → paging_virt_to_phys m virt ≡ some (virt % 4096))
unfolding load
paging_virt_to_phys_lem m virt h large =
    let e : ℕ = directory m (directory_index virt) in
    let p : ℕ = m.frames (page_frame e) (table_index virt) in
    let here = translate_cases m virt e p refl refl in
    (
      λ a small is. elim (Bool-cases (has e page_present)) [
        | inr absent ↦ absurd (ground (arith, (rw absent at (sym here ∙ is))))
        | inl present ↦
            let t : HasTable m (directory_index virt) = record {
              present = present;
              small = large;
            } in
            elim (Bool-cases (has p page_present)) [
              | inr absent ↦
                  absurd (ground (arith, (rw (present, large, absent) at (sym here ∙ is))))
              | inl there ↦
                  let to : page_frame p + virt % 4096 ≡ a =
                    ground (arith, (rw (present, large, there) at (sym here ∙ is))) in
                  to_phys_table m virt h t ∙ ap some (ap (λ x. x % u32) to ∙ omega arith)
            ]
      ],
      to_phys_absent m virt h,
      λ t empty.
          to_phys_table m virt h t
          ∙ ap (λ x. some ((page_frame x + virt % 4096) % u32)) empty
          ∙ ap some (omega (arith, page_frame_lem 0 (omega arith))),
    )
