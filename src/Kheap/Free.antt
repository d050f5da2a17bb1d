-- ===== src/Kheap/Free.antt =====
-- Freeing a block, and freeing what was just allocated.
use saynaa_os.Prelude.{
  ℕ, ◌+◌, ◌-◌, ◌%◌, ◌≤◌, ◌≡◌, refl, sym, subst, ◌∙◌, ◌==◌, Bool, true, false, Bool-cases, inl, inr,
  none, some, List, [], ◌∷◌, if◌then◌else◌, arith,
}
use saynaa_os.Kheap.{
  Block, Kheap, heap_begin, heap_size, header_size, sizeof_block, payload, mem_get_block, set_size,
  size_at, kfree,
}
use saynaa_os.Kheap.Chain.{Chain, used_size, used_total, IsValid, used_size-ge}
use saynaa_os.Kheap.Alloc.{Allocates}

-- What clearing the flag of a block in use does to a chain.
record Clears (bs : List Block) (lo a m : ℕ) : Type 0 where
  found : payload (size_at bs a) ≡ m
  inside : a + m ≤ heap_begin + heap_size
  chain : Chain lo (set_size a m bs)
  now : (b : ℕ) → used_size (set_size a m bs) b ≡ (if a == b then none else used_size bs b)
  total : used_total bs ≡ used_total (set_size a m bs) + m

set_size-Clears :
    (bs : List Block) (lo a m : ℕ) → Chain lo bs → used_size bs a ≡ some m → Clears bs lo a m
unfolding used_size used_total set_size size_at
set_size-Clears [] lo a m c e = cc
set_size-Clears (x ∷ xs) lo a m c e = elim (Bool-cases (x.addr == a)) [
  | inl here ↦
      let same : x.addr ≡ a = ground arith in
      let used : (x.size % 2 == 1) ≡ true = used_of (x.size % 2 == 1) _ _ (rw here at e) in
      let size : payload x.size ≡ m = some_injective (rw (here, used) at e) in
      let even : m % 2 ≡ 0 = omega (arith, size) in
      let unused : (m % 2 == 1) ≡ false = ground arith in
      let whole : payload m ≡ payload x.size = omega (arith, size, even) in
      (record {
        found = rw here size;
        inside = omega (arith, c.2, same, size);
        chain = rw here (
          c.0,
          c.1,
          omega (arith, c.2, whole),
          subst (λ k. Chain (x.addr + sizeof_block + k) xs) (sym whole) c.3,
        );
        now = λ b. ground arith;
        total = rw (here, used, unused) (omega arith);
      })
  | inr other ↦
      let next : ℕ = x.addr + sizeof_block + payload x.size in
      let r = set_size-Clears xs next a m c.3 (rw other at e) in
      let low = used_size-ge xs next a m c.3 (rw other at e) in
      (record {
        found = rw other r.found;
        inside = r.inside;
        chain = rw other (c.0, c.1, c.2, r.chain);
        now = λ b. ground (arith, r.now b);
        total = rw other (omega (arith, r.total));
      })
]
  where
    some_injective : {x y : ℕ} → some x ≡ some y → x ≡ y
    some_injective e = cc

    used_of : (b : Bool) (k m : ℕ) → (if b then some k else none) ≡ some m → b ≡ true
    used_of true k m e = refl
    used_of false k m e = cc

-- When the pointer `p` is to the data of a block in use, `kfree` leaves that block free and every
-- other one in use as it was, and the heap is in its invariant again: the counter of the bytes in
-- use is what the blocks add up to.
pub kfree_lem :
    (h : Kheap) (p m : ℕ)
    → IsValid h
    → used_size h.blocks (p - header_size) ≡ some m
    → IsValid (kfree h p)
      × ((a : ℕ)
          → used_size (kfree h p).blocks a
            ≡ (if p - header_size == a then none else used_size h.blocks a))
unfolding kfree
kfree_lem h p m v e =
    let low = used_size-ge h.blocks heap_begin (p - header_size) m v.chain e in
    let r = set_size-Clears h.blocks heap_begin (p - header_size) m v.chain e in
    let nonzero : (p == 0) ≡ false = ground arith in
    let block : mem_get_block p ≡ p - header_size = omega (arith, low, r.inside) in
    rw (nonzero, block, r.found)
      (record { chain = r.chain; counter = omega (arith, v.counter, r.total, r.inside) }, r.now)

-- Freeing the pointer that an allocation returned gives back a heap in its invariant in which the
-- same blocks as before the allocation are in use.
pub kfree-Allocates :
    (h h' : Kheap) (align size p : ℕ)
    → Allocates h h' align size p
    → IsValid (kfree h' p) × ((a : ℕ) → used_size (kfree h' p).blocks a ≡ used_size h.blocks a)
kfree-Allocates h h' align size p r =
    let here : (p - header_size == p - header_size) ≡ true = ground arith in
    let used : used_size h'.blocks (p - header_size) ≡ some r.given =
      r.now (p - header_size) ∙ rw here refl in
    let (v, now) = kfree_lem h' p r.given r.valid used in
    (
      v,
      λ a. elim (Bool-cases (p - header_size == a)) [
        | inl same ↦
            let at : p - header_size ≡ a = ground arith in
            now a ∙ (rw same (sym (subst (λ k. used_size h.blocks k ≡ none) at r.fresh)))
        | inr other ↦ now a ∙ (rw other (r.now a ∙ rw other refl))
      ],
    )
