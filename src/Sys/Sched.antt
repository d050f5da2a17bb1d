-- ===== src/Sys/Sched.antt =====
-- The round robin scheduler (kernel/src/sys/sched_robin.c). The circular list of nodes is the list of
-- their processes from the node `processes` on; the empty list is the null pointer. A node is
-- allocated by `kmalloc`, which aborts rather than return null.
pub mod Ring
pub mod Next
pub mod Turns
pub mod Exit
mod Tests
use saynaa_os.Prelude.{
  ℕ, zero, suc, ◌+◌, ◌-◌, ◌==◌, ltb, Bool, true, false, not, ◌&&◌, ◌||◌, Option, none, some, List,
  [], ◌∷◌, ◌++◌, if◌then◌else◌, Array, write,
}
use saynaa_os.Sys.Process.{Process}

-- The processes, by address, and the list of `sched_robin_t`.
pub record Sched : Type 0 where
  pub procs : Array Process
  pub ring : List ℕ

-- The scheduler as it is made, with no process.
abbrev sched_robin : Array Process → Sched
sched_robin procs = record { procs = procs; ring = [] }

abbrev pub proc_magic : ℕ
proc_magic = 0xC0FE_BABE

unfoldable pub proc_valid : Array Process → ℕ → Bool
proc_valid procs a =
    not (a == 0)
    && not ((procs a).directory == 0)
    && not ((procs a).saved_kernel_stack == 0)
    && (procs a).magic == proc_magic
    && (procs a).magic2 == proc_magic

-- The first loop of `sched_robin_prune`: invalid heads are dropped.
unfoldable pub drop_heads : Array Process → List ℕ → List ℕ
drop_heads procs [] = []
drop_heads procs (p ∷ ps) =
    let rest : List ℕ = drop_heads procs ps in if proc_valid procs p then p ∷ ps else rest

-- Its second loop, over the nodes behind the head.
unfoldable pub drop_others : Array Process → List ℕ → List ℕ
drop_others procs [] = []
drop_others procs (p ∷ ps) =
    let rest : List ℕ = drop_others procs ps in if proc_valid procs p then p ∷ rest else rest

unfoldable pub prune : Array Process → List ℕ → List ℕ
prune procs ring = elim (drop_heads procs ring) [ [] ↦ [] | p ∷ ps ↦ p ∷ drop_others procs ps ]

unfoldable pub sched_robin_get_current : Sched → Option ℕ × Sched
sched_robin_get_current s =
    let ring : List ℕ = prune s.procs s.ring in
    (elim ring [ [] ↦ none | p ∷ ps ↦ some p ], record s { ring = ring })

-- The insertion behind the head, or as the head of an empty list.
unfoldable pub insert : List ℕ → ℕ → List ℕ
insert [] new = new ∷ []
insert (p ∷ ps) new = p ∷ new ∷ ps

unfoldable pub sched_robin_add : Sched → ℕ → Sched
sched_robin_add s new =
    if new == 0 || (s.procs new).directory == 0 || (s.procs new).saved_kernel_stack == 0
    then s
    else record s { ring = insert (prune s.procs s.ring) new }

unfoldable pub exists_from : Array Process → List ℕ → ℕ → Bool
exists_from procs [] pid = false
exists_from procs (p ∷ ps) pid =
    let rest : Bool = exists_from procs ps pid in
    if not (p == 0) && (procs p).pid == pid then true else rest

unfoldable pub sched_robin_exists : Sched → ℕ → Bool
sched_robin_exists s pid = exists_from s.procs s.ring pid

-- `p->sleep_ticks--`
unfoldable pub tick : Array Process → ℕ → Array Process
tick procs p =
    let x : Process = procs p in write procs p (record x { sleep_ticks = x.sleep_ticks - 1 })

-- The loop of `sched_robin_next` over the nodes behind the head and then the head: the processes
-- after it, and the split at the first node whose process does not sleep. `seen` are those passed.
unfoldable pub search :
    Array Process → (seen nodes : List ℕ) → Array Process × Option (List ℕ × ℕ × List ℕ)
search procs seen [] = (procs, none)
search procs seen (x ∷ xs) =
    let rest = search (tick procs x) (seen ++ x ∷ []) xs in
    if ltb 0 (procs x).sleep_ticks then rest else (procs, some (seen, x, xs))

-- The list after the search from the head `h` with `ns` behind it. Without a result the list only
-- goes round. If the head itself is found, nothing changes. Any other node is put behind the head,
-- and then the list goes round by one.
unfoldable pub elect : (h : ℕ) (ns : List ℕ) → Option (List ℕ × ℕ × List ℕ) → List ℕ
elect h ns none = ns ++ h ∷ []
elect h ns (some (seen, x, [])) = h ∷ ns
elect h ns (some (seen, x, r ∷ rs)) = x ∷ seen ++ r ∷ rs

-- The first process of a list.
abbrev pub head : List ℕ → Option ℕ
head [] = none
head (p ∷ ps) = some p

-- `none` is the null pointer.
unfoldable pub sched_robin_next : Sched → Option ℕ × Sched
sched_robin_next s = elim (prune s.procs s.ring) [
  | [] ↦ (none, record s { ring = [] })
  | h ∷ ns ↦
      let (procs, found) = search s.procs [] (ns ++ h ∷ []) in
      let ring : List ℕ = elect h ns found in (head ring, record { procs = procs; ring = ring })
]

-- The search of `sched_robin_exit`: the split at the first node of the process, if there is one.
unfoldable pub split_at : ℕ → (seen nodes : List ℕ) → Option (List ℕ × List ℕ)
split_at process seen [] = none
split_at process seen (x ∷ xs) =
    let rest = split_at process (seen ++ x ∷ []) xs in
    if x == process then some (seen, xs) else rest

-- All but the last, and the last.
unfoldable pub split_last : List ℕ → Option (List ℕ × ℕ)
split_last [] = none
split_last (x ∷ xs) = elim (split_last xs) [ none ↦ some ([], x) | some (ys, y) ↦ some (x ∷ ys, y) ]

-- The list without the node, from its predecessor on. The nodes are those behind the head `h` and
-- then the head; if none was passed, the head is the predecessor and the last of `rest`.
unfoldable pub unlink : (h : ℕ) (seen rest : List ℕ) → List ℕ
unlink h seen rest = elim (split_last seen) [
  | none ↦ h ∷ elim (split_last rest) [ none ↦ [] | some (ys, y) ↦ ys ]
  | some (ys, y) ↦ y ∷ rest ++ ys
]

-- The list after an exit. A single node is freed whatever its process is.
unfoldable pub exit_ring : List ℕ → ℕ → List ℕ
exit_ring [] process = []
exit_ring (h ∷ []) process = []
exit_ring (h ∷ n ∷ more) process = elim (split_at process [] ((n ∷ more) ++ h ∷ [])) [
  | none ↦ h ∷ n ∷ more
  | some (seen, rest) ↦ unlink h seen rest
]

unfoldable pub sched_robin_exit : Sched → ℕ → Sched
unfolding exit_ring
sched_robin_exit s process = record s { ring = exit_ring s.ring process }
