-- ===== src/Kheap/Alloc.antt =====
-- Allocation: reusing a block, and growing the heap.
use saynaa_os.Prelude.{
  ℕ, ◌+◌, ◌-◌, ◌/◌, ◌%◌, ◌^◌, ◌<◌, ◌≤◌, ◌≡◌, refl, sym, ap, subst, ◌∙◌, ◌==◌, ltb, Bool-cases, inl,
  inr, ◌⊎◌, Option, none, some, Option-cases, List, [], ◌∷◌, ◌++◌, if◌then◌else◌, arith,
}
use saynaa_os.Pmm.{u32, pmm_alloc_pages}
use saynaa_os.Kheap.{
  Block, Kheap, heap_begin, heap_size, header_size, sizeof_block, payload, mem_block_size, align_to,
  mem_find_block, last_block, mem_new_block, place_block, set_up, bottom, reuse, grow, allocate,
  aligned_alloc,
}
use saynaa_os.Kheap.Align.{align_to_lem}
use saynaa_os.Kheap.Chain.{
  Chain, chain_end, Chain-append, used_size, used_total, used_total-append, IsValid,
}
use saynaa_os.Kheap.Find.{mem_find_block-Reuses}
use saynaa_os.Kheap.Place.{limit, place_block-Added, used_after, chain_end-last}

-- What an allocation did: the block whose data begins at `p` was not in use, has at least `size`
-- bytes and is in use from then on; every other block is in use as before.
pub record Allocates (h h' : Kheap) (align size p : ℕ) : Type 0 where
  pub aligned : p % align ≡ 0
  pub given : ℕ
  pub large : size ≤ given
  pub fresh : used_size h.blocks (p - header_size) ≡ none
  pub now :
      (a : ℕ)
      → used_size h'.blocks a ≡ (if p - header_size == a then some given else used_size h.blocks a)
  pub valid : IsValid h'

module _ (h : Kheap) (v : IsValid h) (b : Block) (bs : List Block) (is : h.blocks ≡ b ∷ bs)
    (size align : ℕ) (pos : 0 < align) (four : align % 4 ≡ 0) (small : align ≤ 2 ^ 20)
    (even : size % 2 ≡ 0) (fits : size ≤ 2 ^ 28) where
  reuse-Allocates :
      (found : Block)
      → mem_find_block h.blocks size align ≡ some found
      → Allocates h (reuse h found).1 align size (reuse h found).0
  reuse-Allocates found e =
      let r = mem_find_block-Reuses h.blocks heap_begin size align found v.chain e in
      let at : found.addr + header_size - header_size ≡ found.addr = omega arith in
      record {
        aligned = r.aligned;
        given = payload found.size;
        large = r.large;
        fresh = subst (λ a. used_size h.blocks a ≡ none) (sym at) r.fresh;
        now = λ a.
            r.now a
            ∙ ap (λ k. if k == a then some (payload found.size) else used_size h.blocks a) (sym at);
        valid = record { chain = r.chain; counter = omega (arith, r.total, r.unused, v.counter) };
      }

  abbrev top : Block
  top = last_block b bs

  abbrev end : ℕ
  end = chain_end heap_begin (b ∷ bs)

  chain_b : Chain heap_begin (b ∷ bs)
  chain_b = subst (Chain heap_begin) is v.chain

  end_lem :
      (end ≡ top.addr + sizeof_block + payload top.size)
      × (heap_begin ≤ top.addr)
      × (end ≤ limit + 4)
  end_lem = chain_end-last bs b heap_begin chain_b

  abbrev start : ℕ
  start = align_to (end + header_size) align

  start_lem :
      (end + header_size ≤ start) × (start < end + header_size + align) × (start % align ≡ 0)
  start_lem = align_to_lem (end + header_size) align pos (omega (arith, end_lem))

  abbrev placed : List Block × Block
  placed = place_block end size align

  grow-eq : grow h top size align ≡ (
      if ltb limit (start + size)
      then none
      else some (
        (placed.1.addr + header_size) % u32,
        record h { blocks = h.blocks ++ placed.0; used_memory = (h.used_memory + size) % u32 },
      ))
  unfolding grow mem_new_block
  grow-eq =
      let next : (top.addr + mem_block_size top) % u32 ≡ end = omega (arith, end_lem) in
      let start_at : (top.addr + mem_block_size top + header_size) % u32 ≡ end + header_size =
        omega (arith, end_lem) in
      let total : (start + size) % u32 ≡ start + size = omega (arith, end_lem, start_lem) in
      rw (next, start_at, total) refl

  -- Growing either stops, at the end of the heap, or allocates.
  grow-Allocates :
      (grow h top size align ≡ none)
      ⊎ ((p : ℕ) × (h' : Kheap) × (grow h top size align ≡ some (p, h'))
          × Allocates h h' align size p)
  grow-Allocates = elim (Bool-cases (ltb limit (start + size))) [
    | inl over ↦ inl (grow-eq ∙ rw over refl)
    | inr room ↦
        let fit : start + size ≤ limit = ground arith in
        let low : heap_begin ≤ end = omega (arith, end_lem) in
        let (more, new, placed_eq, added, here) =
          place_block-Added end size align pos four small even low end_lem.2 fit in
        let at_end : chain_end heap_begin h.blocks ≡ end = ap (chain_end heap_begin) is in
        let p : ℕ = (new.addr + header_size) % u32 in
        let at : p - header_size ≡ new.addr = omega (arith, here, start_lem, end_lem) in
        let (fresh, now) =
          used_after h.blocks more heap_begin size new.addr v.chain
            (omega (arith, at_end, added.past)) added.now in
        let h' : Kheap = record h {
          blocks = h.blocks ++ more;
          used_memory = (h.used_memory + size) % u32;
        } in
        inr (
          p,
          h',
          grow-eq ∙ (rw (room, placed_eq) refl),
          record {
            aligned =
                ap (λ k. k % align) {x = p} {y = start} (omega (arith, here, start_lem, end_lem))
                ∙ start_lem.2;
            given = size;
            large = omega arith;
            fresh = subst (λ k. used_size h.blocks k ≡ none) (sym at) fresh;
            now =
                λ a. now a ∙ ap (λ k. if k == a then some size else used_size h.blocks a) (sym at);
            valid = record {
              chain =
                  Chain-append h.blocks more heap_begin v.chain
                    (subst (λ k. Chain k more) (sym at_end) added.chain);
              counter = omega (arith, used_total-append h.blocks more, added.total, v.counter);
            };
          },
        )
  ]

-- The clauses of `set_up` and `allocate`, with the list of blocks apart.
abbrev set_up_from : Kheap → List Block → Kheap
set_up_from h l = elim l [
  | [] ↦ record h { blocks = bottom ∷ []; pmm = (pmm_alloc_pages h.pmm (heap_size / 0x1000)).1 }
  | b ∷ bs ↦ h
]

abbrev allocate_from : Kheap → (size align : ℕ) → List Block → Option (ℕ × Kheap)
allocate_from h size align l = elim l [
  | [] ↦ none
  | b ∷ bs ↦ elim (mem_find_block (b ∷ bs) size align) [
    | some found ↦ some (reuse h found)
    | none ↦ grow h (last_block b bs) size align
  ]
]

set_up_nil :
    (h : Kheap)
    → h.blocks ≡ []
    → set_up h
      ≡ record h { blocks = bottom ∷ []; pmm = (pmm_alloc_pages h.pmm (heap_size / 0x1000)).1 }
unfolding set_up
set_up_nil h e = ap (set_up_from h) e

set_up_cons : (h : Kheap) (b : Block) (bs : List Block) → h.blocks ≡ b ∷ bs → set_up h ≡ h
unfolding set_up
set_up_cons h b bs e = ap (set_up_from h) e

-- The heap as an allocation finds it: the first one makes the empty block at its bottom.
pub set_up-IsValid :
    (h : Kheap)
    → IsValid h
    → IsValid (set_up h) × ((b : Block) × (bs : List Block) × ((set_up h).blocks ≡ b ∷ bs))
unfolding used_total
set_up-IsValid h v = by_blocks h.blocks refl
  where
    by_blocks :
        (bs : List Block)
        → h.blocks ≡ bs
        → IsValid (set_up h) × ((b : Block) × (cs : List Block) × ((set_up h).blocks ≡ b ∷ cs))
    by_blocks [] e = rw (set_up_nil h e) (
      record {
        chain = (omega arith, omega arith, omega arith, tt);
        counter = v.counter ∙ ap (λ l. used_total l % u32) e;
      },
      (bottom, [], refl),
    )
    by_blocks (b ∷ bs) e = rw (set_up_cons h b bs e) (v, (b, bs, e))

allocate_found :
    (h : Kheap) (b : Block) (bs : List Block) (size align : ℕ) (found : Block)
    → h.blocks ≡ b ∷ bs
    → mem_find_block h.blocks size align ≡ some found
    → allocate h size align ≡ some (reuse h found)
unfolding allocate
allocate_found h b bs size align found is e =
    ap (allocate_from h size align) is
    ∙ (ap (λ o. elim o [ some x ↦ some (reuse h x) | none ↦ grow h (last_block b bs) size align ])
        (sym (ap (λ l. mem_find_block l size align) is) ∙ e))

allocate-grow :
    (h : Kheap) (b : Block) (bs : List Block) (size align : ℕ)
    → h.blocks ≡ b ∷ bs
    → mem_find_block h.blocks size align ≡ none
    → allocate h size align ≡ grow h (last_block b bs) size align
unfolding allocate
allocate-grow h b bs size align is e =
    ap (allocate_from h size align) is
    ∙ (ap (λ o. elim o [ some x ↦ some (reuse h x) | none ↦ grow h (last_block b bs) size align ])
        (sym (ap (λ l. mem_find_block l size align) is) ∙ e))

-- From a heap in its invariant, asked for at most 2 ^ 28 bytes at an alignment that is a multiple of
-- 4 and at most 2 ^ 20, `aligned_alloc` aborts or returns the data of a block that was not in use
-- and is from then on, aligned and large enough, with every other block in use as before; the
-- invariant holds again.
pub aligned_alloc_lem :
    (h : Kheap) (align size : ℕ)
    → IsValid h
    → 0 < align
    → align % 4 ≡ 0
    → align ≤ 2 ^ 20
    → size ≤ 2 ^ 28
    → (aligned_alloc h align size ≡ none)
      ⊎ ((p : ℕ) × (h' : Kheap) × (aligned_alloc h align size ≡ some (p, h'))
          × Allocates (set_up h) h' align size p)
unfolding aligned_alloc
aligned_alloc_lem h align size v pos four small fits =
    let (low, high, eight) = align_to_lem size 8 (omega arith) (omega arith) in
    let n : ℕ = align_to size 8 in
    let (v', (b, bs, is)) = set_up-IsValid h v in
    let even : n % 2 ≡ 0 = omega arith in
    let g : Kheap = set_up h in
    elim (Option-cases (mem_find_block g.blocks n align)) [
      | inr (found, e) ↦
          let a = reuse-Allocates g v' b bs is n align pos four small even (omega arith) found e in
          inr (
            (reuse g found).0,
            (reuse g found).1,
            allocate_found g b bs n align found is e,
            Allocates-le low a,
          )
      | inl e ↦ elim (grow-Allocates g v' b bs is n align pos four small even (omega arith)) [
        | inl stops ↦ inl (allocate-grow g b bs n align is e ∙ stops)
        | inr (p, h', made, a) ↦
            inr (p, h', allocate-grow g b bs n align is e ∙ made, Allocates-le low a)
      ]
    ]
  where
    Allocates-le :
        {h h' : Kheap} {align m n p : ℕ}
        → m ≤ n
        → Allocates h h' align n p
        → Allocates h h' align m p
    Allocates-le le a = record {
      aligned = a.aligned;
      given = a.given;
      large = omega (arith, le, a.large);
      fresh = a.fresh;
      now = a.now;
      valid = a.valid;
    }
