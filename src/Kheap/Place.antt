-- ===== src/Kheap/Place.antt =====
-- New blocks at the end of the chain (kernel/src/mem/malloc.c).
use saynaa_os.Prelude.{
  ℕ, ◌+◌, ◌-◌, ◌%◌, ◌^◌, ◌<◌, ◌≤◌, ◌≡◌, refl, ap, ◌∙◌, ◌==◌, ltb, ltb→lt, Bool-cases, inl, inr,
  none, some, List, [], ◌∷◌, ◌++◌, if◌then◌else◌, arith,
}
use saynaa_os.Pmm.{u32}
use saynaa_os.Kheap.{
  Block, heap_begin, heap_size, header_size, sizeof_block, min_align, payload, flagged, align_to,
  last_block, place_block,
}
use saynaa_os.Kheap.Align.{align_to_lem, multiple_of_four}
use saynaa_os.Kheap.Chain.{
  Chain, chain_end, used_size, used_total, used_size-append_past, used_size-append_none,
}

abbrev pub limit : ℕ
limit = heap_begin + heap_size

-- What is put behind a chain that ends at `e`.
pub record Added (e size align : ℕ) (added : List Block) (block : Block) : Type 0 where
  pub chain : Chain e added
  pub past : e ≤ block.addr
  pub aligned : (block.addr + header_size) % align ≡ 0
  pub now : (a : ℕ) → used_size added a ≡ (if block.addr == a then some size else none)
  pub total : used_total added ≡ size

module _ (e size align : ℕ) (pos : 0 < align) (four : align % 4 ≡ 0) (small : align ≤ 2 ^ 20)
    (even : size % 2 ≡ 0) (low : heap_begin ≤ e) (high : e ≤ limit + 4)
    (room : align_to (e + header_size) align + size ≤ limit) where
  abbrev r : ℕ
  r = align_to (e + header_size) align

  abbrev f : ℕ
  f = align_to (e + header_size) 4

  r_lem : (e + header_size ≤ r) × (r < e + header_size + align) × (r % align ≡ 0)
  r_lem = align_to_lem (e + header_size) align pos (omega arith)

  f_lem : (e + header_size ≤ f) × (f < e + header_size + 4) × (f % 4 ≡ 0)
  f_lem = align_to_lem (e + header_size) 4 (omega arith) (omega arith)

  four_r : r % 4 ≡ 0
  four_r = multiple_of_four r align four r_lem.2

  abbrev new_block : Block
  new_block = record { addr = r - header_size; size = flagged size }

  abbrev filler : Block
  filler = record { addr = f - header_size; size = r - f - sizeof_block }

  place_block-eq : place_block e size align ≡ (
    if ltb (sizeof_block + min_align) (r - f) then filler ∷ new_block ∷ [] else new_block ∷ [],
    new_block,
  )
  unfolding place_block
  place_block-eq =
      let e8 : (e + header_size) % u32 ≡ e + header_size = omega arith in
      let r8 : (r + u32 - header_size) % u32 ≡ r - header_size = omega (arith, r_lem) in
      let f8 : (f + u32 - header_size) % u32 ≡ f - header_size = omega (arith, f_lem) in
      let gap : (r - header_size + u32 - (f - header_size)) % u32 ≡ r - f =
        omega (arith, r_lem, f_lem, four_r) in
      rw (e8, r8, f8, gap)
        (elim (Bool-cases (ltb (sizeof_block + min_align) (r - f))) [
          | inr narrow ↦ rw narrow refl
          | inl wide ↦
              let wide_lt : sizeof_block + min_align < r - f = ltb→lt _ _ wide in
              let whole : (r - f + u32 - sizeof_block) % u32 ≡ r - f - sizeof_block =
                omega (arith, r_lem) in
              rw (wide, whole) refl
        ])

  back : (new_block.addr + header_size) % align ≡ 0
  back =
      ap (λ k. k % align) {x = r - header_size + header_size} {y = r} (omega (arith, r_lem))
      ∙ r_lem.2

  even_filler : (r - f - sizeof_block) % 2 ≡ 0
  even_filler = omega (arith, four_r, f_lem)

  whole_filler : payload (r - f - sizeof_block) ≡ r - f - sizeof_block
  whole_filler = omega (arith, even_filler)

  used_new : flagged size % 2 ≡ 1
  used_new = omega arith

  whole_new : payload (flagged size) ≡ size
  whole_new = omega (arith, even)

  new_chain : (lo : ℕ) → lo ≤ r - header_size → Chain lo (new_block ∷ [])
  new_chain lo h = (h, omega (arith, four_r, r_lem), omega (arith, whole_new, room, r_lem), tt)

  new-Added :
      Added e size align
        (if ltb (sizeof_block + min_align) (r - f) then filler ∷ new_block ∷ [] else new_block ∷ [])
        new_block
  unfolding used_size used_total
  new-Added = elim (Bool-cases (ltb (sizeof_block + min_align) (r - f))) [
    | inl wide ↦
        let wide_lt : sizeof_block + min_align < r - f = ltb→lt _ _ wide in
        rw wide (record {
          chain = (
            omega (arith, f_lem),
            omega (arith, f_lem),
            omega (arith, f_lem, r_lem, whole_filler, room),
            new_chain _ (omega (arith, whole_filler, f_lem, r_lem, wide_lt)),
          );
          past = omega (arith, r_lem);
          aligned = back;
          now = λ a. rw (even_filler, used_new, whole_new) (ground (arith, f_lem, r_lem, wide_lt));
          total = rw (even_filler, used_new, whole_new) (omega arith);
        })
    | inr narrow ↦ rw narrow (record {
      chain = new_chain e (omega (arith, r_lem));
      past = omega (arith, r_lem);
      aligned = back;
      now = λ a. rw (used_new, whole_new) refl;
      total = rw (used_new, whole_new) (omega arith);
    })
  ]

  pub place_block-Added :
      (added : List Block) × (block : Block) × (place_block e size align ≡ (added, block))
      × Added e size align added block
      × (block.addr + header_size ≡ r)
  place_block-Added = (_, new_block, place_block-eq, new-Added, omega (arith, r_lem))

pub used_after :
    (bs more : List Block) (lo size addr : ℕ)
    → Chain lo bs
    → chain_end lo bs ≤ addr
    → ((a : ℕ) → used_size more a ≡ (if addr == a then some size else none))
    → (used_size bs addr ≡ none)
      × ((a : ℕ) → used_size (bs ++ more) a ≡ (if addr == a then some size else used_size bs a))
used_after bs more lo size addr c past now = (
  (used_size-append_past bs more lo addr c past).1,
  λ a. elim (Bool-cases (addr == a)) [
    | inl here ↦
        let low : chain_end lo bs ≤ a = ground arith in
        rw here ((used_size-append_past bs more lo a c low).0 ∙ (now a ∙ rw here refl))
    | inr other ↦ rw other (used_size-append_none bs more a (now a ∙ rw other refl))
  ],
)

pub chain_end-last :
    (bs : List Block) (b : Block) (lo : ℕ)
    → Chain lo (b ∷ bs)
    → (chain_end lo (b ∷ bs)
        ≡ (last_block b bs).addr + sizeof_block + payload (last_block b bs).size)
      × (lo ≤ (last_block b bs).addr)
      × (chain_end lo (b ∷ bs) ≤ limit + 4)
unfolding last_block
chain_end-last [] b lo c = (refl, c.0, omega (arith, c.2))
chain_end-last (d ∷ ds) b lo c =
    let (is, low, high) = chain_end-last ds d (b.addr + sizeof_block + payload b.size) c.3 in
    (is, omega (arith, c.0), high)
