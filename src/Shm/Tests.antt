-- ===== src/Shm/Tests.antt =====
-- A run of shared memory on a manager of 64 blocks, of which the first three are taken.
use saynaa_os.Prelude.{ℕ, ◌≡◌, refl, true, ◌⊎◌, none, some, List, length, write, arith}
use saynaa_os.Pmm.{Pmm, divide_up}
use saynaa_os.Pmm.Bitmap.{taken}
use saynaa_os.Pmm.Alloc.{IsValid}
use saynaa_os.Shm.{Shm, empty, shm_create, shm_close}
use saynaa_os.Shm.Laws.{Took}
use saynaa_os.Shm.Objects.{shm_close-shm_create}

abbrev memory : Pmm
memory = record {
  bitmap = write (λ _. 0) 0 7;
  mem_size = 262144;
  used_blocks = 3;
  max_blocks = 64;
  kernel_end = 0;
}

memory-IsValid : IsValid memory
unfolding taken
memory-IsValid = record { fits = omega arith; counter = omega arith; zero_taken = refl }

abbrev slots : Shm
slots = record { objs = λ _. empty; next_id = 1; pmm = memory }

shm_close-shm_create_example :
    (shm_create slots 5000 true ≡ none)
    ⊎ ((t : Shm) × (shm_create slots 5000 true ≡ some (none, t))
        × ((b : ℕ) → taken t.pmm b ≡ taken slots.pmm b))
    ⊎ ((id : ℕ) × (t : Shm) × (pages : List ℕ) × (shm_create slots 5000 true ≡ some (some id, t))
        × (length pages ≡ divide_up 5000 0x1000)
        × Took slots.pmm t.pmm pages
        × ((shm_close t id).0 ≡ true)
        × ((b : ℕ) → taken (shm_close t id).1.pmm b ≡ taken slots.pmm b))
shm_close-shm_create_example =
    shm_close-shm_create slots 5000 memory-IsValid (omega arith) (λ i lt. omega arith)
