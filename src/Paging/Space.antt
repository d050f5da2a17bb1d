-- ===== src/Paging/Space.antt =====
-- An address space as the processor sees it, and the invariant of its tables
-- (kernel/src/mem/paging.c).
use saynaa_os.Prelude.{
  ℕ, ◌+◌, ◌*◌, ◌/◌, ◌%◌, ◌^◌, ◌<◌, ◌≡◌, ◌≢◌, ◌==◌, has, true, false, refl, sym, ap, subst, ◌∙◌,
  arith, not, Bool-cases, inl, inr, Option, none, some, if◌then◌else◌, Array, write, write_self,
  write_ne,
}
use saynaa_os.Pmm.{Pmm}
use saynaa_os.Pmm.Bitmap.{taken}
use saynaa_os.Pmm.Alloc
use saynaa_os.Paging.{
  page_present, page_large, page_frame, table_index, directory_index, Memory, store,
}
use saynaa_os.Paging.Entries.{table_index_lem}

abbrev pub directory : Memory → ℕ → ℕ
directory m i = m.frames m.cr3 i

-- What the processor makes of an address: a page of 4 MiB or one of 4 KiB, or none.
unfoldable pub translate : Memory → (virt : ℕ) → Option ℕ
unfolding directory_index page_frame table_index
translate m virt =
    let e : ℕ = directory m (directory_index virt) in
    if not (has e page_present)
    then none
    else if has e page_large
    then some (e / 2 ^ 22 * 2 ^ 22 + virt % 2 ^ 22)
    else (let p : ℕ = m.frames (page_frame e) (table_index virt) in
        if has p page_present then some (page_frame p + virt % 4096) else none)

-- An entry of a directory that has a table.
pub record IsTable (row : Array ℕ) (i : ℕ) : Type 0 where
  pub present : has (row i) page_present ≡ true
  pub small : has (row i) page_large ≡ false

abbrev pub HasTable : Memory → ℕ → Type 0
HasTable m i = IsTable (m.frames m.cr3) i

abbrev pub table_of : Memory → ℕ → ℕ
table_of m i = page_frame (directory m i)

-- A directory at `cr3` that maps itself at its end; its frame and those of its tables are taken, and
-- all of them are different.
pub record IsDirectory (pmm : Pmm) (cr3 : ℕ) (row : Array ℕ) : Type 0 where
  pub manager : Alloc.IsValid pmm
  pub root : taken pmm (cr3 / 4096) ≡ true
  pub self_present : IsTable row 1023
  pub self : page_frame (row 1023) ≡ cr3
  pub tables :
      (i : ℕ)
      → i < 1023
      → IsTable row i
      → (taken pmm (page_frame (row i) / 4096) ≡ true) × (page_frame (row i) ≢ cr3)
  pub apart :
      (i j : ℕ)
      → i < 1023
      → j < 1023
      → i ≢ j
      → IsTable row i
      → IsTable row j
      → page_frame (row i) ≢ page_frame (row j)

abbrev pub IsValid : Memory → Type 0
IsValid m = IsDirectory m.pmm m.cr3 (m.frames m.cr3)

-- The window of the directory's last entry shows, page by page, the tables of all entries.
pub translate-window :
    (m : Memory) (i : ℕ)
    → IsValid m
    → i < 1024
    → has (directory m i) page_present ≡ true
    → translate m (0xFFC0_0000 + i * 4096) ≡ some (table_of m i)
unfolding translate directory_index
translate-window m i v h present =
    let virt : ℕ = 0xFFC0_0000 + i * 4096 in
    let top : virt / 2 ^ 22 ≡ 1023 = omega arith in
    let index : table_index virt ≡ i = table_index_lem virt ∙ omega arith in
    let low : virt % 4096 ≡ 0 = omega arith in
    rw (top, v.self_present.present, v.self_present.small, v.self, index, present, low)
      (ap some (omega arith))

-- The same, with the answers of the entries put in.
pub translate_cases :
    (m : Memory) (virt e p : ℕ)
    → directory m (directory_index virt) ≡ e
    → m.frames (page_frame e) (table_index virt) ≡ p
    → translate m virt ≡ (
        if not (has e page_present)
        then none
        else if has e page_large
        then some (e / 2 ^ 22 * 2 ^ 22 + virt % 2 ^ 22)
        else if has p page_present
        then some (page_frame p + virt % 4096)
        else none)
unfolding translate
translate_cases m virt e p he hp = rw (he, hp) refl

-- Memories with the same directory and the same entry of the table translate an address alike.
pub translate_same :
    (m m' : Memory) (virt : ℕ)
    → directory m' (directory_index virt) ≡ directory m (directory_index virt)
    → (HasTable m (directory_index virt)
        → m'.frames (table_of m (directory_index virt)) (table_index virt)
          ≡ m.frames (table_of m (directory_index virt)) (table_index virt))
    → translate m' virt ≡ translate m virt
translate_same m m' virt same entry =
    let e : ℕ = directory m (directory_index virt) in
    let p : ℕ = m.frames (page_frame e) (table_index virt) in
    let p' : ℕ = m'.frames (page_frame e) (table_index virt) in
    let before = translate_cases m virt e p refl refl in
    let after = translate_cases m' virt e p' same refl in
    after
    ∙ (elim (Bool-cases (has e page_present)) [
      | inr absent ↦ rw absent refl
      | inl present ↦ elim (Bool-cases (has e page_large)) [
        | inl large ↦ rw (present, large) refl
        | inr small ↦
            rw (present, small)
              (ap (λ x. if has x page_present then some (page_frame x + virt % 4096) else none)
                (entry (record { present = present; small = small })))
      ]
    ]
        ∙ sym before)

-- With a table, an address goes where its entry says.
pub translate_table :
    (m : Memory) (virt p : ℕ)
    → HasTable m (directory_index virt)
    → m.frames (table_of m (directory_index virt)) (table_index virt) ≡ p
    → translate m virt ≡ (if has p page_present then some (page_frame p + virt % 4096) else none)
translate_table m virt p t hp =
    translate_cases m virt (directory m (directory_index virt)) p refl hp
    ∙ rw (t.present, t.small) refl

-- Without an entry of the directory it goes nowhere.
pub translate_absent :
    (m : Memory) (virt : ℕ)
    → has (directory m (directory_index virt)) page_present ≡ false
    → translate m virt ≡ none
translate_absent m virt absent =
    translate_cases m virt (directory m (directory_index virt))
      (m.frames (table_of m (directory_index virt)) (table_index virt)) refl refl
    ∙ rw absent refl

-- An entry of a page is stored.
module _ (m : Memory) (virt e : ℕ) (v : IsValid m) (low : directory_index virt < 1023)
    (t : HasTable m (directory_index virt)) where
  abbrev stored : Memory
  stored =
      store m (record { table = table_of m (directory_index virt); index = table_index virt }) e

  stored-directory : stored.frames m.cr3 ≡ m.frames m.cr3
  unfolding store
  stored-directory =
      write_ne m.frames (table_of m (directory_index virt)) m.cr3
        (write (m.frames (table_of m (directory_index virt))) (table_index virt) e)
        ((v.tables (directory_index virt) low t).1)

  pub stored-IsValid : IsValid stored
  unfolding store
  stored-IsValid = subst (IsDirectory m.pmm m.cr3) (sym stored-directory) v

  stored-row :
      stored.frames (table_of m (directory_index virt))
      ≡ write (m.frames (table_of m (directory_index virt))) (table_index virt) e
  unfolding store
  stored-row =
      write_self m.frames (table_of m (directory_index virt))
        (write (m.frames (table_of m (directory_index virt))) (table_index virt) e)

  pub stored-HasTable : HasTable stored (directory_index virt)
  unfolding store
  stored-HasTable = subst (λ r. IsTable r (directory_index virt)) (sym stored-directory) t

  pub stored-entry : stored.frames (table_of stored (directory_index virt)) (table_index virt) ≡ e
  unfolding store
  stored-entry =
      ap (λ r. stored.frames (page_frame (r (directory_index virt))) (table_index virt))
        stored-directory
      ∙ (ap (λ r. r (table_index virt)) stored-row
          ∙ write_self (m.frames (table_of m (directory_index virt))) (table_index virt) e)

  -- The page of `virt` goes where the entry says.
  pub stored-here :
      (u : ℕ)
      → u / 4096 ≡ virt / 4096
      → translate stored u ≡ (if has e page_present then some (page_frame e + u % 4096) else none)
  unfolding directory_index
  stored-here u same =
      let di : directory_index u ≡ directory_index virt = omega arith in
      let ti : table_index u ≡ table_index virt =
        omega (arith, table_index_lem u, table_index_lem virt) in
      translate_table stored u e (subst (HasTable stored) (sym di) stored-HasTable) (
        ap (λ i. stored.frames (table_of stored i) (table_index u)) di
        ∙ (ap (stored.frames (table_of stored (directory_index virt))) ti ∙ stored-entry))

  -- All other pages go where they went.
  pub stored-other :
      (u : ℕ)
      → directory_index u < 1023
      → u / 4096 ≢ virt / 4096
      → translate stored u ≡ translate m u
  unfolding directory_index store
  stored-other u h other =
      translate_same m stored u (ap (λ r. r (directory_index u)) stored-directory) (λ t'.
        elim (Bool-cases (directory_index u == directory_index virt)) [
          | inl near ↦
              let di : directory_index u ≡ directory_index virt = ground arith in
              let ne : table_index virt ≢ table_index u =
                λ z. other (omega (arith, di, z, table_index_lem u, table_index_lem virt)) in
              ap (λ i. stored.frames (table_of m i) (table_index u)) di
              ∙ (ap (λ r. r (table_index u)) stored-row
                  ∙ (write_ne (m.frames (table_of m (directory_index virt))) (table_index virt)
                        (table_index u) e ne
                      ∙ ap (λ i. m.frames (table_of m i) (table_index u)) (sym di)))
          | inr far ↦
              let di : directory_index virt ≢ directory_index u = ground arith in
              ap (λ r. r (table_index u))
                (write_ne m.frames (table_of m (directory_index virt))
                  (table_of m (directory_index u))
                  (write (m.frames (table_of m (directory_index virt))) (table_index virt) e)
                  (v.apart (directory_index virt) (directory_index u) low h di t t'))
        ])
