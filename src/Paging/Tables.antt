-- ===== src/Paging/Tables.antt =====
-- A new table in a directory (`paging_get_page` of kernel/src/mem/paging.c).
use saynaa_os.Prelude.{
  ℕ, ◌/◌, ◌<◌, ◌≡◌, ◌≢◌, ◌==◌, has, true, false, sym, ap, subst, ◌∙◌, arith, Bool-cases, inl, inr,
  none, Array, write, write_self, write_ne,
}
use saynaa_os.Pmm.{Pmm}
use saynaa_os.Pmm.Bitmap.{taken}
use saynaa_os.Pmm.Alloc
use saynaa_os.Paging.{
  page_present, page_large, page_frame, table_entry, table_index, directory_index, Memory, store,
  add_table,
}
use saynaa_os.Paging.Entries.{IsEntry, table_entry-IsEntry, table_entry-page_large}
use saynaa_os.Paging.Space.{
  directory, translate, IsTable, HasTable, table_of, IsDirectory, IsValid, translate_same,
  translate_table, translate_absent,
}

module _ (m : Memory) (virt a flags : ℕ) (q : Pmm) (v : IsValid m)
    (low : directory_index virt < 1023)
    (absent : has (directory m (directory_index virt)) page_present ≡ false)
    (t : Alloc.Takes m.pmm q a 1) (small : has flags page_large ≡ false) where
  abbrev e : ℕ
  e = table_entry a flags

  abbrev di : ℕ
  di = directory_index virt

  abbrev row : Array ℕ
  row = m.frames m.cr3

  abbrev added : Memory
  added = add_table m virt a flags q

  entry : IsEntry e a
  entry =
      table_entry-IsEntry a flags t.aligned (omega (arith, t.aligned, t.in_memory, v.manager.fits))

  -- The new table is no frame that was taken.
  fresh : (x : ℕ) → taken m.pmm (x / 4096) ≡ true → a ≢ x
  fresh x h z =
      let free = t.free (a / 4096) (omega arith) (omega arith) in
      ground (arith, free, h, ap (λ y. taken m.pmm (y / 4096)) z)

  still : (b : ℕ) → taken m.pmm b ≡ true → taken q b ≡ true
  still b h = ground (arith, t.now b, h)

  now_taken : taken q (a / 4096) ≡ true
  now_taken = ground (arith, t.now (a / 4096))

  added-row : added.frames m.cr3 ≡ write row di e
  unfolding add_table store
  added-row =
      write_ne (write m.frames m.cr3 (write row di e)) (page_frame e) m.cr3 (λ _. 0)
        (λ z. fresh m.cr3 v.root (sym entry.frame ∙ z))
      ∙ write_self m.frames m.cr3 (write row di e)

  old-IsTable : (i : ℕ) → di ≢ i → IsTable (write row di e) i → IsTable row i
  old-IsTable i ne h =
      let same = write_ne row di i e ne in
      record {
        present = ap (λ x. has x page_present) (sym same) ∙ h.present;
        small = ap (λ x. has x page_large) (sym same) ∙ h.small;
      }

  pub added-HasTable : HasTable added di
  unfolding add_table store
  added-HasTable =
      let same = ap (λ r. r di) added-row ∙ write_self row di e in
      record {
        present = ap (λ x. has x page_present) same ∙ entry.present;
        small =
            ap (λ x. has x page_large) same ∙ (table_entry-page_large a flags t.aligned ∙ small);
      }

  frame_here : page_frame (write row di e di) ≡ a
  frame_here = ap page_frame (write_self row di e) ∙ entry.frame

  frame_there : (i : ℕ) → di ≢ i → page_frame (write row di e i) ≡ page_frame (row i)
  frame_there i ne = ap page_frame (write_ne row di i e ne)

  tables_of :
      (i : ℕ)
      → i < 1023
      → IsTable (write row di e) i
      → (taken q (page_frame (write row di e i) / 4096) ≡ true)
        × (page_frame (write row di e i) ≢ m.cr3)
  tables_of i h has_table = elim (Bool-cases (di == i)) [
    | inl here ↦
        let at : di ≡ i = ground arith in
        subst
          (λ k.
            (taken q (page_frame (write row di e k) / 4096) ≡ true)
            × (page_frame (write row di e k) ≢ m.cr3))
          at
          (
            ap (λ f. taken q (f / 4096)) frame_here ∙ now_taken,
            λ z. fresh m.cr3 v.root (sym frame_here ∙ z),
          )
    | inr there ↦
        let ne : di ≢ i = ground arith in
        let (was, other) = v.tables i h (old-IsTable i ne has_table) in
        (
          ap (λ f. taken q (f / 4096)) (frame_there i ne) ∙ still (page_frame (row i) / 4096) was,
          λ z. other (sym (frame_there i ne) ∙ z),
        )
  ]

  -- The new table is none of the others.
  apart_new :
      (j : ℕ)
      → j < 1023
      → di ≢ j
      → IsTable (write row di e) j
      → page_frame (write row di e di) ≢ page_frame (write row di e j)
  apart_new j h ne has_table z =
      fresh (page_frame (row j)) (v.tables j h (old-IsTable j ne has_table)).0
        (sym frame_here ∙ (z ∙ frame_there j ne))

  apart_of :
      (i j : ℕ)
      → i < 1023
      → j < 1023
      → i ≢ j
      → IsTable (write row di e) i
      → IsTable (write row di e) j
      → page_frame (write row di e i) ≢ page_frame (write row di e j)
  apart_of i j hi hj ne ti tj z = elim (Bool-cases (di == i)) [
    | inl here ↦
        let at : di ≡ i = ground arith in
        apart_new j hj (λ w. ne (sym at ∙ w)) tj (ap (λ k. page_frame (write row di e k)) at ∙ z)
    | inr there ↦ elim (Bool-cases (di == j)) [
      | inl here ↦
          let at : di ≡ j = ground arith in
          apart_new i hi (λ w. ne (sym w ∙ at)) ti
            (ap (λ k. page_frame (write row di e k)) at ∙ sym z)
      | inr there' ↦
          let ni : di ≢ i = ground arith in
          let nj : di ≢ j = ground arith in
          v.apart i j hi hj ne (old-IsTable i ni ti) (old-IsTable j nj tj)
            (sym (frame_there i ni) ∙ (z ∙ frame_there j nj))
    ]
  ]

  pub added-IsValid : IsValid added
  unfolding add_table store
  added-IsValid = subst (IsDirectory q m.cr3) (sym added-row) (record {
    manager = t.valid;
    root = still (m.cr3 / 4096) v.root;
    self_present =
        let same = write_ne row di 1023 e (omega (arith, low)) in
        record {
          present = ap (λ x. has x page_present) same ∙ v.self_present.present;
          small = ap (λ x. has x page_large) same ∙ v.self_present.small;
        };
    self = frame_there 1023 (omega (arith, low)) ∙ v.self;
    tables = tables_of;
    apart = apart_of;
  })

  -- The new table is empty.
  pub added-empty : (k : ℕ) → added.frames (table_of added di) k ≡ 0
  unfolding add_table store
  added-empty k =
      let same : table_of added di ≡ page_frame e =
        ap (λ r. page_frame (r di)) added-row ∙ ap page_frame (write_self row di e) in
      ap (λ f. added.frames f k) same
      ∙ ap (λ r. r k) (write_self (write m.frames m.cr3 (write row di e)) (page_frame e) (λ _. 0))

  -- A new table changes no translation.
  pub added-translate : (u : ℕ) → directory_index u < 1023 → translate added u ≡ translate m u
  unfolding add_table store
  added-translate u h = elim (Bool-cases (di == directory_index u)) [
    | inl here ↦
        let at : di ≡ directory_index u = ground arith in
        translate_table added u 0 (subst (HasTable added) at added-HasTable) (
          ap (λ i. added.frames (table_of added i) (table_index u)) (sym at)
          ∙ added-empty (table_index u))
        ∙ sym (nothing at)
    | inr there ↦
        let ne : di ≢ directory_index u = ground arith in
        translate_same m added u
          (ap (λ r. r (directory_index u)) added-row ∙ write_ne row di (directory_index u) e ne)
          (λ t'.
            let (was, other) = v.tables (directory_index u) h t' in
            ap (λ r. r (table_index u))
              (write_ne (write m.frames m.cr3 (write row di e)) (page_frame e)
                  (table_of m (directory_index u)) (λ _. 0)
                  (λ z. fresh (table_of m (directory_index u)) was (sym entry.frame ∙ z))
                ∙ write_ne m.frames m.cr3 (table_of m (directory_index u)) (write row di e)
                    (λ z. other (sym z))))
  ]
    where
      nothing : di ≡ directory_index u → translate m u ≡ none
      nothing at =
          translate_absent m u (ap (λ i. has (directory m i) page_present) (sym at) ∙ absent)
