-- ===== src/Kheap.antt =====
-- The kernel's heap (kernel/src/mem/malloc.c): a list of blocks that grows at its end and whose
-- blocks are reused but never merged. The list is that of the links `next`, from `bottom` to `top`.
-- The mapping of the heap's pages, which the first allocation makes, is not modelled.
pub mod Align
pub mod Chain
pub mod Find
pub mod Place
pub mod Alloc
pub mod Free
mod Tests
use saynaa_os.Prelude.{
  ℕ, zero, suc, ◌+◌, ◌-◌, ◌*◌, ◌/◌, ◌%◌, ◌^◌, ◌<◌, ◌≤◌, ◌==◌, ltb, Bool, true, false, not, ◌&&◌,
  ◌||◌, Option, none, some, List, [], ◌∷◌, ◌++◌, if◌then◌else◌,
}
use saynaa_os.Pmm.{Pmm, u32, pmm_alloc_pages}

-- `mem_block_t`: the address of the header, and the size with the flag in its last bit.
pub record Block : Type 0 where
  pub addr : ℕ
  pub size : ℕ

pub record Kheap : Type 0 where
  pub blocks : List Block
  pub used_memory : ℕ
  pub pmm : Pmm

abbrev pub heap_begin : ℕ
heap_begin = 0xC040_0000

abbrev pub heap_size : ℕ
heap_size = 0x1E0_0000

-- `sizeof(mem_block_t)`, and the offset of `data` in it.
abbrev pub sizeof_block : ℕ
sizeof_block = 12

abbrev pub header_size : ℕ
header_size = 8

abbrev pub min_align : ℕ
min_align = 4

-- `size & ~1` and `size | 1`
abbrev pub payload : ℕ → ℕ
payload size = size / 2 * 2

abbrev pub flagged : ℕ → ℕ
flagged size = size / 2 * 2 + 1

abbrev pub is_used : Block → Bool
is_used b = b.size % 2 == 1

unfoldable pub align_to : ℕ → ℕ → ℕ
align_to n align = if n % align == 0 then n else (n + (align - n % align)) % u32

abbrev pub mem_block_size : Block → ℕ
mem_block_size b = (sizeof_block + payload b.size) % u32

-- The address of the block that `pointer` points into.
abbrev pub mem_get_block : ℕ → ℕ
mem_get_block pointer = (pointer + u32 - sizeof_block + 4) % u32

abbrev pub mem_is_aligned : Block → ℕ → Bool
mem_is_aligned b align = (b.addr + header_size) % align == 0

-- The first block that is free, large enough and aligned.
unfoldable pub mem_find_block : List Block → (size align : ℕ) → Option Block
mem_find_block [] size align = none
mem_find_block (b ∷ bs) size align =
    let rest : Option Block = mem_find_block bs size align in
    if ltb (payload b.size) size || is_used b || not (mem_is_aligned b align) then rest else some b

-- The last block of a list that is not empty.
unfoldable pub last_block : Block → List Block → Block
last_block b [] = b
last_block b (c ∷ cs) = last_block c cs

-- The new block from `next` on, and the free block that fills the gap to it, if the gap is large.
unfoldable pub place_block : (next size align : ℕ) → List Block × Block
place_block next size align =
    let next_aligned : ℕ =
      (align_to ((next + header_size) % u32) align + u32 - header_size) % u32 in
    let block : Block = record { addr = next_aligned; size = flagged size } in
    let next' : ℕ = (align_to ((next + header_size) % u32) min_align + u32 - header_size) % u32 in
    let gap : ℕ = (next_aligned + u32 - next') % u32 in
    let filler : Block = record { addr = next'; size = (gap + u32 - sizeof_block) % u32 } in
    (if ltb (sizeof_block + min_align) gap then filler ∷ block ∷ [] else block ∷ [], block)

unfoldable pub mem_new_block : (top : Block) → (size align : ℕ) → List Block × Block
unfolding place_block
mem_new_block top size align = place_block ((top.addr + mem_block_size top) % u32) size align

-- The block at an address with another size.
unfoldable pub set_size : ℕ → ℕ → List Block → List Block
set_size a size [] = []
set_size a size (b ∷ bs) =
    if b.addr == a then record b { size = size } ∷ bs else b ∷ set_size a size bs

-- The first block, used and of size 0.
abbrev pub bottom : Block
bottom = record { addr = heap_begin; size = 1 }

-- The set-up of the list by the first allocation.
unfoldable pub set_up : Kheap → Kheap
set_up h = elim h.blocks [
  | [] ↦ record h { blocks = bottom ∷ []; pmm = (pmm_alloc_pages h.pmm (heap_size / 0x1000)).1 }
  | b ∷ bs ↦ h
]

-- A block that is reused.
abbrev pub reuse : Kheap → Block → ℕ × Kheap
reuse h b = (
  b.addr + header_size,
  record h {
    blocks = set_size b.addr (flagged b.size) h.blocks;
    used_memory = (h.used_memory + b.size) % u32;
  },
)

-- A new block at the end of the list; `none` stands for `abort()`.
unfoldable pub grow : Kheap → (top : Block) → (size align : ℕ) → Option (ℕ × Kheap)
unfolding mem_new_block
grow h top size align =
    let end : ℕ =
      (align_to ((top.addr + mem_block_size top + header_size) % u32) align + size) % u32 in
    if ltb (heap_begin + heap_size) end
    then none
    else (let (added, block) = mem_new_block top size align in
        some (
          (block.addr + header_size) % u32,
          record h { blocks = h.blocks ++ added; used_memory = (h.used_memory + size) % u32 },
        ))

-- `aligned_alloc` once the list is set up and the size rounded up.
unfoldable pub allocate : Kheap → (size align : ℕ) → Option (ℕ × Kheap)
unfolding grow
allocate h size align = elim h.blocks [
  | [] ↦ none
  | b ∷ bs ↦ elim (mem_find_block (b ∷ bs) size align) [
    | some found ↦ some (reuse h found)
    | none ↦ grow h (last_block b bs) size align
  ]
]

unfoldable pub aligned_alloc : Kheap → (align size : ℕ) → Option (ℕ × Kheap)
unfolding allocate set_up
aligned_alloc h align size = allocate (set_up h) (align_to size 8) align

unfoldable pub kmalloc : Kheap → ℕ → Option (ℕ × Kheap)
unfolding aligned_alloc
kmalloc h size = aligned_alloc h min_align size

unfoldable pub kamalloc : Kheap → (size align : ℕ) → Option (ℕ × Kheap)
unfolding aligned_alloc
kamalloc h size align = aligned_alloc h align size

-- The size field of the block at an address, and 0 where there is none.
unfoldable pub size_at : List Block → ℕ → ℕ
size_at [] a = 0
size_at (b ∷ bs) a = let rest : ℕ = size_at bs a in if b.addr == a then b.size else rest

unfoldable pub kfree : Kheap → (pointer : ℕ) → Kheap
unfolding size_at
kfree h pointer =
    if pointer == 0
    then h
    else (let size : ℕ = payload (size_at h.blocks (mem_get_block pointer)) in
        record h {
          blocks = set_size (mem_get_block pointer) size h.blocks;
          used_memory = (h.used_memory + u32 - size) % u32;
        })

-- The new pointer, 0 for null, the number of bytes that are copied to it, and the heap.
unfoldable pub krealloc : Kheap → (ptr size : ℕ) → Option (ℕ × ℕ × Kheap)
unfolding kmalloc kfree
krealloc h ptr size =
    if ptr == 0
    then elim (kmalloc h size) [ none ↦ none | some (p, h') ↦ some (p, 0, h') ]
    else if size == 0
    then some (0, 0, kfree h ptr)
    else elim (kmalloc h size) [
      | none ↦ none
      | some (p, h') ↦ some (p, payload (size_at h'.blocks (mem_get_block ptr)), kfree h' ptr)
    ]

unfoldable pub memory_usage : Kheap → ℕ
memory_usage h = h.used_memory
