-- ===== src/Pmm.antt =====
-- The physical memory manager (kernel/src/mem/pmm.c) with the two functions of
-- libraries/libc/src/math.c that it calls: a bitmap of 4 KiB blocks, in words of 32 bits, and a
-- counter. Numbers of type `uint32_t` and `uintptr_t` keep their wrap-around.
pub mod Bitmap
pub mod Find
pub mod Frame
pub mod Alloc
pub mod Init
mod Tests
use saynaa_os.Prelude.{
  ℕ, zero, suc, ◌+◌, ◌-◌, ◌*◌, ◌/◌, ◌%◌, ◌^◌, ◌<◌, ◌≤◌, ◌==◌, ltb, leb, has, Bool, true, false, not,
  ◌&&◌, ◌||◌, Option, none, some, List, [], ◌∷◌, if◌then◌else◌, Array, write, bit_and, bit_or,
  bit_xor, max,
}
use saynaa_os.Prelude.Bits.{nthbit, ones}

-- The static variables.
pub record Pmm : Type 0 where
  pub bitmap : Array ℕ
  pub mem_size : ℕ
  pub used_blocks : ℕ
  pub max_blocks : ℕ
  pub kernel_end : ℕ

abbrev pub u32 : ℕ
u32 = 2 ^ 32

abbrev pub block_size : ℕ
block_size = 4096

unfoldable pub divide_up : ℕ → ℕ → ℕ
divide_up n d = if n % d == 0 then n / d else 1 + n / d

unfoldable pub mmap_set : Pmm → ℕ → Pmm
mmap_set p bit = record p {
  bitmap = write p.bitmap (bit / 32) (bit_or (p.bitmap (bit / 32)) (nthbit (bit % 32)));
  used_blocks = (p.used_blocks + 1) % u32;
}

unfoldable pub mmap_unset : Pmm → ℕ → Pmm
mmap_unset p bit = record p {
  bitmap =
      write p.bitmap (bit / 32) (bit_and (p.bitmap (bit / 32)) (bit_xor ones (nthbit (bit % 32))));
  used_blocks = (p.used_blocks + u32 - 1) % u32;
}

unfoldable pub mmap_test : Pmm → ℕ → ℕ
mmap_test p bit = bit_and (p.bitmap (bit / 32)) (nthbit (bit % 32))

-- The loop over `j` of `mmap_find_free`, with `n` rounds left.
unfoldable pub find_in_word : (word i j n : ℕ) → Option ℕ
find_in_word word i j zero = none
find_in_word word i j (suc n) =
    let rest : Option ℕ = find_in_word word i (j + 1) n in
    if not (has word (nthbit j)) then some (i * 32 + j) else rest

-- The loop over `i`, with `n` rounds left.
unfoldable pub find_from : Array ℕ → (i n : ℕ) → ℕ
find_from bitmap i zero = 0
find_from bitmap i (suc n) =
    let rest : ℕ = find_from bitmap (i + 1) n in
    if bitmap i == ones
    then rest
    else elim (find_in_word (bitmap i) i 0 32) [ none ↦ rest | some b ↦ b ]

unfoldable pub mmap_find_free : Pmm → ℕ
mmap_find_free p = find_from p.bitmap 0 (p.max_blocks / 32)

-- The state of the search for a run: `done` is its result, `run` the variables `first` and `count`.
pub data Search : Type 0 where
  done : ℕ → Search
  run : (first count : ℕ) → Search

-- The end of a round: `if (count == frame_size) return first;`
abbrev pub check : ℕ → ℕ → ℕ → Search
check frame_size first count = if count == frame_size then done first else run first count

-- One bit `b`, taken or not, in the loop over `j`.
unfoldable pub search_bit : (frame_size b : ℕ) → Bool → ℕ → ℕ → Search
search_bit frame_size b false first count =
    check frame_size (if first == 0 then b else first) (count + 1)
search_bit frame_size b true first count = check frame_size 0 0

unfoldable pub search_word : (frame_size word i j n : ℕ) → Search → Search
search_word frame_size word i j zero s = s
search_word frame_size word i j (suc n) (done b) = done b
search_word frame_size word i j (suc n) (run first count) =
    search_word frame_size word i (j + 1) n
      (search_bit frame_size (i * 32 + j) (has word (nthbit j)) first count)

unfoldable pub search_from : ℕ → Array ℕ → (i n : ℕ) → Search → ℕ
search_from frame_size bitmap i n (done b) = b
search_from frame_size bitmap i zero (run first count) = 0
search_from frame_size bitmap i (suc n) (run first count) =
    search_from frame_size bitmap (i + 1) n (
      if bitmap i == ones
      then run 0 0
      else search_word frame_size (bitmap i) i 0 32 (run first count))

unfoldable pub mmap_find_free_frame : Pmm → ℕ → ℕ
mmap_find_free_frame p frame_size = search_from frame_size p.bitmap 0 (p.max_blocks / 32) (run 0 0)

-- The loops `mmap_set(base++)` and `mmap_unset(base++)`, `num` times.
unfoldable pub set_range : Pmm → (base num : ℕ) → Pmm
set_range p base zero = p
set_range p base (suc num) = set_range (mmap_set p base) (base + 1) num

unfoldable pub unset_range : Pmm → (base num : ℕ) → Pmm
unset_range p base zero = p
unset_range p base (suc num) = unset_range (mmap_unset p base) (base + 1) num

-- The number of blocks that a region touches.
abbrev pub region_blocks : ℕ → ℕ → ℕ
region_blocks addr size = divide_up ((size + addr % block_size) % u32) block_size

unfoldable pub pmm_init_region : Pmm → (addr size : ℕ) → Pmm
pmm_init_region p addr size =
    mmap_set (unset_range p (addr / block_size) (region_blocks addr size)) 0

unfoldable pub pmm_deinit_region : Pmm → (addr size : ℕ) → Pmm
pmm_deinit_region p addr size = set_range p (addr / block_size) (region_blocks addr size)

-- `max_blocks - used_blocks`, as the `uint32_t` that it is.
abbrev pub free_blocks : Pmm → ℕ
free_blocks p = (p.max_blocks + u32 - p.used_blocks) % u32

-- `none` stands for `abort()`.
unfoldable pub pmm_alloc_page : Pmm → Option (ℕ × Pmm)
pmm_alloc_page p =
    if leb (free_blocks p) 0
    then none
    else (let block : ℕ = mmap_find_free p in
        if block == 0 then some (0, p) else some (block * block_size % u32, mmap_set p block))

unfoldable pub pmm_alloc_pages : Pmm → ℕ → ℕ × Pmm
pmm_alloc_pages p num =
    if ltb (free_blocks p) num
    then (0, p)
    else (let first : ℕ = mmap_find_free_frame p num in
        if first == 0 then (0, p) else (first * block_size % u32, set_range p first num))

unfoldable pub pmm_alloc_aligned_large_page : Pmm → ℕ × Pmm
pmm_alloc_aligned_large_page p =
    if ltb (free_blocks p) (2 * 1024)
    then (0, p)
    else (let free : ℕ = mmap_find_free_frame p (2 * 1024) in
        let aligned : ℕ = (free / 1024 + 1) * 1024 in
        if free == 0 then (0, p) else (aligned * block_size % u32, set_range p aligned 1024))

unfoldable pub pmm_free_page : Pmm → ℕ → Pmm
pmm_free_page p addr = mmap_unset p (addr / block_size)

unfoldable pub pmm_free_pages : Pmm → (addr num : ℕ) → Pmm
pmm_free_pages p addr num = unset_range p (addr / block_size) num

unfoldable pub pmm_used_memory : Pmm → ℕ
pmm_used_memory p = p.used_blocks * block_size % u32

unfoldable pub pmm_total_memory : Pmm → ℕ
pmm_total_memory p = p.mem_size

unfoldable pub pmm_get_kernel_end : Pmm → ℕ
pmm_get_kernel_end p = (p.kernel_end + p.max_blocks / 8) % u32

-- An entry of the boot loader's memory map, and what `init_pmm` reads of the boot information: the
-- ends of the modules, the memory map, and the address and size of the information itself.
pub record MmapEntry : Type 0 where
  pub available : Bool
  pub base_addr : ℕ
  pub len : ℕ

pub record Boot : Type 0 where
  pub module_ends : List ℕ
  pub mmap : List MmapEntry
  pub addr : ℕ
  pub total_size : ℕ

-- `max(a, b)`, which compares its arguments as the numbers of type `int` that their words stand for.
unfoldable pub signed_max : ℕ → ℕ → ℕ
signed_max a b = if ltb ((b + 2 ^ 31) % u32) ((a + 2 ^ 31) % u32) then a else b

unfoldable pub last_end : ℕ → List ℕ → ℕ
last_end kernel_end [] = kernel_end
last_end kernel_end (e ∷ es) = last_end (signed_max e kernel_end) es

-- The loop over the memory map: the manager and the number of bytes that are available.
unfoldable pub init_regions : Pmm → ℕ → List MmapEntry → Pmm × ℕ
init_regions p available [] = (p, available)
init_regions p available (e ∷ es) =
    init_regions (if e.available then pmm_init_region p (e.base_addr % u32) (e.len % u32) else p)
      (if e.available then (available + e.len) % 2 ^ 64 else available) es

-- The last part of `init_pmm`.
unfoldable pub protect : Pmm → ℕ → Boot → Pmm
protect p available b =
    let mem_size : ℕ = available % u32 in
    let q : Pmm = record p {
      mem_size = mem_size;
      max_blocks = mem_size / block_size;
      used_blocks = mem_size / block_size;
    } in
    pmm_deinit_region (pmm_deinit_region q 0 q.kernel_end) b.addr b.total_size

-- `init_pmm`, for a kernel that ends at `kernel_phys` and is not too large for its first mapping.
unfoldable pub init_pmm : (kernel_phys : ℕ) → Pmm → Boot → Pmm
init_pmm kernel_phys p b =
    let q : Pmm = record p {
      kernel_end = max kernel_phys (last_end p.kernel_end b.module_ends);
      bitmap = λ _. ones;
    } in
    let (r, available) = init_regions q 0 b.mmap in protect r available b
