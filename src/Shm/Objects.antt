-- ===== src/Shm/Objects.antt =====
-- Objects of shared memory from their creation to their end (kernel/src/mem/shm.c).
use saynaa_os.Prelude.{
  ℕ, ◌<◌, ◌≡◌, ◌≢◌, refl, ap, ◌∙◌, ◌==◌, true, false, Option-cases, inl, inr, ◌⊎◌, Option, none,
  some, List, [], write, arith, length,
}
use saynaa_os.Pmm.{Pmm, divide_up}
use saynaa_os.Pmm.Bitmap.{taken}
use saynaa_os.Pmm.Alloc.{IsValid}
use saynaa_os.Shm.{
  Shm, ShmObj, find_from, shm_find, shm_alloc_slot, free_present, alloc_all, new_id, store,
  shm_create, shm_close, shm_max_objects, empty,
}
use saynaa_os.Shm.Laws.{
  Took, Took-nil, undo, alloc_all-cases, free_present-free_all, find_from-some, find_from-write,
}

module _ (s : Shm) (size_bytes slot : ℕ) (pages : List ℕ) (p : Pmm) where
  abbrev made : Shm
  made = (store s slot size_bytes pages p).1

  abbrev id : ℕ
  id = (new_id s).0

  new_id-nonzero : id ≢ 0
  new_id-nonzero = ground arith

  abbrev obj : ShmObj
  obj = record {
    id = id;
    size_bytes = size_bytes;
    num_pages = divide_up size_bytes 0x1000;
    pages_phys = pages;
    refcount = 1;
  }

  shm_find-store :
      slot < shm_max_objects
      → ((i : ℕ) → i < shm_max_objects → (s.objs i).id ≢ id)
      → shm_find made id ≡ some slot
  unfolding shm_find
  shm_find-store small fresh =
      find_from-write s.objs obj slot 0 64 (λ j low high. fresh j (omega arith)) (omega arith)
        (omega arith)

  -- Closing what was stored, while nobody else refers to it.
  shm_close-store :
      slot < shm_max_objects
      → ((i : ℕ) → i < shm_max_objects → (s.objs i).id ≢ id)
      → shm_close made id
        ≡ (true, record made { objs = write made.objs slot empty; pmm = free_present p pages })
  unfolding shm_close
  shm_close-store small fresh =
      let self : (slot == slot) ≡ true = ground arith in
      let used : (id == 0) ≡ false = ground (arith, new_id-nonzero) in
      rw (shm_find-store small fresh, shm_close, self, used) refl

-- When the manager is in its invariant, the size is not 0 and no object has the next id, a creation
-- aborts, or fails and leaves the pages taken that were, or takes as many pages as the size needs,
-- which were free; closing the new object then succeeds and gives them back.
pub shm_close-shm_create :
    (s : Shm) (size_bytes : ℕ)
    → IsValid s.pmm
    → size_bytes ≢ 0
    → ((i : ℕ) → i < shm_max_objects → (s.objs i).id ≢ (new_id s).0)
    → (shm_create s size_bytes true ≡ none)
      ⊎ ((t : Shm) × (shm_create s size_bytes true ≡ some (none, t))
          × ((b : ℕ) → taken t.pmm b ≡ taken s.pmm b))
      ⊎ ((id : ℕ) × (t : Shm) × (pages : List ℕ) × (shm_create s size_bytes true
            ≡ some (some id, t))
          × (length pages ≡ divide_up size_bytes 0x1000)
          × Took s.pmm t.pmm pages
          × ((shm_close t id).0 ≡ true)
          × ((b : ℕ) → taken (shm_close t id).1.pmm b ≡ taken s.pmm b))
unfolding shm_create shm_alloc_slot
shm_close-shm_create s size_bytes v ne fresh =
    let size_is : (size_bytes == 0) ≡ false = ground arith in
    elim (Option-cases (find_from s.objs 0 0 shm_max_objects)) [
      | inl full ↦ inr (inl (s, rw (size_is, full) refl, λ b. refl))
      | inr (slot, free) ↦
          let (low, small) = find_from-some s.objs 0 0 shm_max_objects slot free in
          let at : shm_create s size_bytes true
              ≡ by_pages slot (alloc_all s.pmm (divide_up size_bytes 0x1000) []) =
            rw (size_is, free) refl in
          elim (alloc_all-cases (divide_up size_bytes 0x1000) s.pmm s.pmm [] v (Took-nil s.pmm v)) [
            | inl stops ↦ inl (at ∙ ap (by_pages slot) stops)
            | inr (inl (r, e, same)) ↦
                inr (inl (record s { pmm = r }, at ∙ ap (by_pages slot) e, same))
            | inr (inr (pages, r, e, size, took)) ↦
                let t : Shm = (store s slot size_bytes pages r).1 in
                let closed = shm_close-store s size_bytes slot pages r (omega arith) fresh in
                inr (
                  inr (
                    (new_id s).0,
                    t,
                    pages,
                    at ∙ ap (by_pages slot) e,
                    omega (arith, size),
                    took,
                    ap (λ x. x.0) closed,
                    λ b.
                        ap (λ x. taken x.1.pmm b) closed
                        ∙ (ap (λ q. taken q b) (free_present-free_all pages r took.not_null)
                            ∙ undo s.pmm r pages took b),
                  ))
          ]
    ]
  where
    by_pages : ℕ → Option (Option (List ℕ) × Pmm) → Option (Option ℕ × Shm)
    by_pages slot o = elim o [
      | none ↦ none
      | some (pages, p) ↦ elim pages [
        | none ↦ some (none, record s { pmm = p })
        | some ps ↦ some (store s slot size_bytes ps p)
      ]
    ]
