-- ===== src/Kheap/Chain.antt =====
-- The order of the heap's blocks, and which of them are in use.
use saynaa_os.Prelude.{
  ℕ, ◌+◌, ◌%◌, ◌<◌, ◌≤◌, ◌≡◌, refl, ap, ◌==◌, false, Bool-cases, inl, inr, Option, none, some, List,
  [], ◌∷◌, ◌++◌, if◌then◌else◌, arith,
}
use saynaa_os.Pmm.{u32}
use saynaa_os.Kheap.{
  Block, Kheap, heap_begin, heap_size, header_size, sizeof_block, payload, is_used,
}

-- Blocks one after the other from `lo` on, each with room for its header and its data before the
-- next, and with its data inside the heap.
abbrev pub Chain : ℕ → List Block → Type 0
Chain lo [] = Unit {0}
Chain lo (b ∷ bs) =
    (lo ≤ b.addr)
    × (b.addr % 4 ≡ 0)
    × (b.addr + header_size + payload b.size ≤ heap_begin + heap_size)
    × Chain (b.addr + sizeof_block + payload b.size) bs

-- Where the next block may begin.
abbrev pub chain_end : ℕ → List Block → ℕ
chain_end lo [] = lo
chain_end lo (b ∷ bs) = chain_end (b.addr + sizeof_block + payload b.size) bs

-- The size of the block at an address if it is in use.
unfoldable pub used_size : List Block → ℕ → Option ℕ
used_size [] a = none
used_size (b ∷ bs) a =
    let rest : Option ℕ = used_size bs a in
    if b.addr == a then (if is_used b then some (payload b.size) else none) else rest

-- The bytes in use.
unfoldable pub used_total : List Block → ℕ
used_total [] = 0
used_total (b ∷ bs) = (if is_used b then payload b.size else 0) + used_total bs

-- The blocks are in order, and the counter is that of the bytes in use.
pub record IsValid (h : Kheap) : Type 0 where
  pub chain : Chain heap_begin h.blocks
  pub counter : h.used_memory ≡ used_total h.blocks % u32

pub chain_end-ge : (bs : List Block) (lo : ℕ) → Chain lo bs → lo ≤ chain_end lo bs
chain_end-ge [] lo c = omega arith
chain_end-ge (b ∷ bs) lo c =
    omega (arith, chain_end-ge bs (b.addr + sizeof_block + payload b.size) c.3)

pub Chain-append :
    (bs cs : List Block) (lo : ℕ) → Chain lo bs → Chain (chain_end lo bs) cs → Chain lo (bs ++ cs)
Chain-append [] cs lo c d = d
Chain-append (b ∷ bs) cs lo c d =
    (c.0, c.1, c.2, Chain-append bs cs (b.addr + sizeof_block + payload b.size) c.3 d)

pub used_total-append : (bs cs : List Block) → used_total (bs ++ cs) ≡ used_total bs + used_total cs
unfolding used_total
used_total-append [] cs = omega arith
used_total-append (b ∷ bs) cs = omega (arith, used_total-append bs cs)

-- Past the end of a chain there is none of its blocks.
pub used_size-append_past :
    (bs cs : List Block) (lo a : ℕ)
    → Chain lo bs
    → chain_end lo bs ≤ a
    → (used_size (bs ++ cs) a ≡ used_size cs a) × (used_size bs a ≡ none)
unfolding used_size
used_size-append_past [] cs lo a c h = (refl, refl)
used_size-append_past (b ∷ bs) cs lo a c h =
    let next : ℕ = b.addr + sizeof_block + payload b.size in
    let ne : (b.addr == a) ≡ false = ground (arith, chain_end-ge bs next c.3) in
    rw ne (used_size-append_past bs cs next a c.3 h)

pub used_size-append_none :
    (bs cs : List Block) (a : ℕ) → used_size cs a ≡ none → used_size (bs ++ cs) a ≡ used_size bs a
unfolding used_size
used_size-append_none [] cs a e = e
used_size-append_none (b ∷ bs) cs a e =
    ap (λ o. if b.addr == a then (if is_used b then some (payload b.size) else none) else o)
      (used_size-append_none bs cs a e)

pub used_size-ge : (bs : List Block) (lo a m : ℕ) → Chain lo bs → used_size bs a ≡ some m → lo ≤ a
unfolding used_size
used_size-ge [] lo a m c e = cc
used_size-ge (b ∷ bs) lo a m c e = elim (Bool-cases (b.addr == a)) [
  | inl here ↦ ground arith
  | inr other ↦
      omega
        (arith, used_size-ge bs (b.addr + sizeof_block + payload b.size) a m c.3 (rw other at e))
]

-- Blocks in use do not overlap.
pub used_size-disjoint :
    (bs : List Block) (lo a b m n : ℕ)
    → Chain lo bs
    → used_size bs a ≡ some m
    → used_size bs b ≡ some n
    → a < b
    → (lo ≤ a) × (a + header_size + m ≤ b)
unfolding used_size
used_size-disjoint [] lo a b m n c ea eb h = cc
used_size-disjoint (x ∷ xs) lo a b m n c ea eb h = elim (Bool-cases (x.addr == a)) [
  | inl here ↦
      let ne : (x.addr == b) ≡ false = ground arith in
      let later = used_size-ge xs (x.addr + sizeof_block + payload x.size) b n c.3 (rw ne at eb) in
      ground arith
  | inr other ↦
      let next : ℕ = x.addr + sizeof_block + payload x.size in
      let there : used_size xs a ≡ some m = rw other at ea in
      let low = used_size-ge xs next a m c.3 there in
      let ne : (x.addr == b) ≡ false = ground arith in
      let (lo', apart) = used_size-disjoint xs next a b m n c.3 there (rw ne at eb) h in
      (omega arith, apart)
]
