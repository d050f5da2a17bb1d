-- ===== src/Kheap/Tests.antt =====
-- Runs of the kernel's heap.
use saynaa_os.Prelude.{
  ℕ, ◌+◌, ◌-◌, ◌≤◌, ◌≡◌, refl, ◌==◌, none, some, [], ◌∷◌, ◌⊎◌, arith, if◌then◌else◌,
}
use saynaa_os.Kheap.{Kheap, heap_begin, header_size, bottom, set_up, aligned_alloc, kfree}
use saynaa_os.Kheap.Chain.{used_size, used_total, IsValid, used_size-disjoint}
use saynaa_os.Kheap.Alloc.{Allocates, aligned_alloc_lem}
use saynaa_os.Kheap.Free.{kfree_lem}

-- The bottom block, a free one of 64 bytes and one of 16 bytes in use.
abbrev heap : Kheap
heap = record {
  blocks =
      bottom
      ∷ record { addr = heap_begin + 12; size = 64 }
      ∷ record { addr = heap_begin + 88; size = 17 }
      ∷ [];
  used_memory = 16;
  pmm = record {
    bitmap = λ _. 0;
    mem_size = 262144;
    used_blocks = 0;
    max_blocks = 64;
    kernel_end = 0;
  };
}

heap-IsValid : IsValid heap
unfolding used_total
heap-IsValid = record {
  chain = (
    omega arith,
    omega arith,
    omega arith,
    (omega arith, omega arith, omega arith, (omega arith, omega arith, omega arith, tt)),
  );
  counter = refl;
}

aligned_alloc_lem_example :
    (aligned_alloc heap 4096 100 ≡ none)
    ⊎ ((p : ℕ) × (h' : Kheap) × (aligned_alloc heap 4096 100 ≡ some (p, h'))
        × Allocates (set_up heap) h' 4096 100 p)
aligned_alloc_lem_example =
    aligned_alloc_lem heap 4096 100 heap-IsValid (omega arith) (omega arith) (omega arith)
      (omega arith)

heap_used : used_size heap.blocks (heap_begin + 96 - header_size) ≡ some 16
unfolding used_size
heap_used = refl

kfree_lem_example :
    IsValid (kfree heap (heap_begin + 96))
    × ((a : ℕ)
        → used_size (kfree heap (heap_begin + 96)).blocks a
          ≡ (if heap_begin + 96 - header_size == a then none else used_size heap.blocks a))
kfree_lem_example = kfree_lem heap (heap_begin + 96) 16 heap-IsValid heap_used

heap_bottom : used_size heap.blocks heap_begin ≡ some 0
unfolding used_size
heap_bottom = refl

used_size-disjoint_example :
    (heap_begin ≤ heap_begin) × (heap_begin + header_size + 0 ≤ heap_begin + 96 - header_size)
used_size-disjoint_example =
    used_size-disjoint heap.blocks heap_begin heap_begin (heap_begin + 96 - header_size) 0 16
      heap-IsValid.chain heap_bottom heap_used (omega arith)
