-- ===== src/Kheap/Find.antt =====
-- Searching the chain for a block to reuse (kernel/src/mem/malloc.c).
use saynaa_os.Prelude.{
  ℕ, ◌+◌, ◌%◌, ◌≤◌, ◌≡◌, sym, subst, ◌==◌, ltb, true, false, not, ◌||◌, Bool-cases, inl, inr, none,
  some, List, [], ◌∷◌, if◌then◌else◌, arith,
}
use saynaa_os.Kheap.{
  Block, heap_begin, heap_size, header_size, sizeof_block, payload, flagged, is_used,
  mem_is_aligned, mem_find_block, set_size,
}
use saynaa_os.Kheap.Chain.{Chain, used_size, used_total}

-- What a search that finds a block says of it, and what marking it does.
pub record Reuses (bs : List Block) (lo size align : ℕ) (b : Block) : Type 0 where
  pub low : lo ≤ b.addr
  pub large : size ≤ payload b.size
  pub unused : b.size % 2 ≡ 0
  pub aligned : (b.addr + header_size) % align ≡ 0
  pub inside : b.addr + header_size + payload b.size ≤ heap_begin + heap_size
  pub fresh : used_size bs b.addr ≡ none
  pub chain : Chain lo (set_size b.addr (flagged b.size) bs)
  pub now :
      (a : ℕ)
      → used_size (set_size b.addr (flagged b.size) bs) a
        ≡ (if b.addr == a then some (payload b.size) else used_size bs a)
  pub total : used_total (set_size b.addr (flagged b.size) bs) ≡ used_total bs + payload b.size

pub mem_find_block-Reuses :
    (bs : List Block) (lo size align : ℕ) (b : Block)
    → Chain lo bs
    → mem_find_block bs size align ≡ some b
    → Reuses bs lo size align b
unfolding mem_find_block used_size set_size used_total
mem_find_block-Reuses [] lo size align b c e = cc
mem_find_block-Reuses (x ∷ xs) lo size align b c e =
    elim (Bool-cases (ltb (payload x.size) size || is_used x || not (mem_is_aligned x align))) [
      | inl skip ↦
          let next : ℕ = x.addr + sizeof_block + payload x.size in
          let r = mem_find_block-Reuses xs next size align b c.3 (rw skip at e) in
          let ne : (x.addr == b.addr) ≡ false = ground (arith, r.low) in
          record {
            low = omega (arith, r.low);
            large = r.large;
            unused = r.unused;
            aligned = r.aligned;
            inside = r.inside;
            fresh = rw ne r.fresh;
            chain = rw ne (c.0, c.1, c.2, r.chain);
            now = λ a. ground (arith, r.now a);
            total = rw ne (omega (arith, r.total));
          }
      | inr take ↦
          let is : x ≡ b = some_injective (rw take at e) in
          let self : (x.addr == x.addr) ≡ true = ground arith in
          let same : payload (flagged x.size) ≡ payload x.size = omega arith in
          let even : x.size % 2 ≡ 0 = ground arith in
          subst (λ k. Reuses (x ∷ xs) lo size align k) is
            (record {
              low = c.0;
              large = ground arith;
              unused = even;
              aligned = ground arith;
              inside = c.2;
              fresh = ground arith;
              chain = rw self (
                c.0,
                c.1,
                omega arith,
                subst (λ k. Chain (x.addr + sizeof_block + k) xs) (sym same) c.3,
              );
              now = λ a. ground arith;
              total = ground arith;
            })
    ]
  where
    some_injective : {x y : Block} → some x ≡ some y → x ≡ y
    some_injective e = cc
