-- ===== src/Shm.antt =====
-- Shared memory (kernel/src/mem/shm.c): 64 slots for objects that hold pages of the physical memory
-- manager. The mapping of an object into a process is not modelled but for its count of references,
-- and the array of pages, which `kmalloc` gives or aborts, is a list.
pub mod Laws
pub mod Objects
mod Tests
use saynaa_os.Prelude.{
  ℕ, zero, suc, ◌+◌, ◌-◌, ◌*◌, ◌/◌, ◌%◌, ◌^◌, ◌==◌, Bool, true, false, not, ◌||◌, Option, none,
  some, List, [], ◌∷◌, ◌++◌, if◌then◌else◌, Array, write,
}
use saynaa_os.Pmm.{Pmm, u32, divide_up, pmm_alloc_page, pmm_free_page}

-- `shm_obj_t`
pub record ShmObj : Type 0 where
  pub id : ℕ
  pub size_bytes : ℕ
  pub num_pages : ℕ
  pub pages_phys : List ℕ
  pub refcount : ℕ

pub record Shm : Type 0 where
  pub objs : Array ShmObj
  pub next_id : ℕ
  pub pmm : Pmm

abbrev pub shm_max_objects : ℕ
shm_max_objects = 64

abbrev pub empty : ShmObj
empty = record { id = 0; size_bytes = 0; num_pages = 0; pages_phys = []; refcount = 0 }

-- The first slot from `i` on of an id, with `n` slots left.
unfoldable pub find_from : Array ShmObj → (id i n : ℕ) → Option ℕ
find_from objs id i zero = none
find_from objs id i (suc n) =
    let rest : Option ℕ = find_from objs id (i + 1) n in if (objs i).id == id then some i else rest

unfoldable pub shm_find : Shm → (id : ℕ) → Option ℕ
unfolding find_from
shm_find s id = find_from s.objs id 0 shm_max_objects

-- A slot that is not used has the id 0.
unfoldable pub shm_alloc_slot : Shm → Option ℕ
unfolding find_from
shm_alloc_slot s = find_from s.objs 0 0 shm_max_objects

unfoldable pub free_all : Pmm → List ℕ → Pmm
free_all p [] = p
free_all p (a ∷ pages) = free_all (pmm_free_page p a) pages

-- The loop of `shm_create` with `n` pages to get: the pages, or `none` when there are no more, and
-- those it has got are freed again. The outer `none` stands for `abort()`.
unfoldable pub alloc_all : Pmm → (n : ℕ) → (got : List ℕ) → Option (Option (List ℕ) × Pmm)
unfolding free_all
alloc_all p zero got = some (some got, p)
alloc_all p (suc n) got = elim (pmm_alloc_page p) [
  | none ↦ none
  | some (phys, q) ↦
      let rest = alloc_all q n (got ++ phys ∷ []) in
      if phys == 0 then some (none, free_all q got) else rest
]

-- `shm_next_id++`, and again if the result is 0.
abbrev pub new_id : Shm → ℕ × ℕ
new_id s =
    let next : ℕ = (s.next_id + 1) % u32 in
    if s.next_id == 0 then (next, (next + 1) % u32) else (s.next_id, next)

-- The object in the slot, with its pages.
abbrev pub store : Shm → (slot size_bytes : ℕ) → List ℕ → Pmm → Option ℕ × Shm
store s slot size_bytes pages p =
    let (id, next) = new_id s in
    let obj : ShmObj = record {
      id = id;
      size_bytes = size_bytes;
      num_pages = divide_up size_bytes 0x1000;
      pages_phys = pages;
      refcount = 1;
    } in
    (some id, record { objs = write s.objs slot obj; next_id = next; pmm = p })

-- The id, or `none` for the result -1.
unfoldable pub shm_create : Shm → (size_bytes : ℕ) → (out_id : Bool) → Option (Option ℕ × Shm)
unfolding shm_alloc_slot alloc_all
shm_create s size_bytes out_id =
    if not out_id || size_bytes == 0 then some (none, s) else elim (shm_alloc_slot s) [
      | none ↦ some (none, s)
      | some slot ↦ elim (alloc_all s.pmm (divide_up size_bytes 0x1000) []) [
        | none ↦ none
        | some (pages, p) ↦ elim pages [
          | none ↦ some (none, record s { pmm = p })
          | some ps ↦ some (store s slot size_bytes ps p)
        ]
      ]
    ]

-- `if (page) pmm_free_page(page)` for each.
unfoldable pub free_present : Pmm → List ℕ → Pmm
free_present p [] = p
free_present p (a ∷ pages) =
    if a == 0 then free_present p pages else free_present (pmm_free_page p a) pages

-- Whether the result is 0, and not -1.
unfoldable pub shm_close : Shm → (id : ℕ) → Bool × Shm
unfolding shm_find free_present
shm_close s id = elim (shm_find s id) [
  | none ↦ (false, s)
  | some i ↦
      let obj : ShmObj = s.objs i in
      if obj.id == 0
      then (false, s)
      else if obj.refcount - 1 == 0
      then (true, record s { objs = write s.objs i empty; pmm = free_present s.pmm obj.pages_phys })
      else (true, record s { objs = write s.objs i (record obj { refcount = obj.refcount - 1 }) })
]
