-- ===== src/Sys/Proc/Laws.antt =====
-- Starting processes and putting them to sleep (kernel/src/sys/proc.c).
use saynaa_os.Prelude.{
  ℕ, ◌+◌, ◌*◌, ◌<◌, ◌≤◌, ◌≡◌, ◌≢◌, refl, ap, ◌∙◌, ◌==◌, true, false, List, [], ◌∷◌, ◌++◌, arith,
  inl, inr, some, Array, write,
}
use saynaa_os.Fs.Vfs.{VfsFileOps}
use saynaa_os.Sys.Process.{Process}
use saynaa_os.Sys.Sched.{Sched, proc_valid, insert, sched_robin_add, sched_robin_next}
use saynaa_os.Sys.Sched.Ring.{valid, prune-valid, AllValid, valid-AllValid}
use saynaa_os.Sys.Sched.Turns.{Waits, order, turn}
use saynaa_os.Sys.Kernel.{Kernel, u32}
use saynaa_os.Sys.Proc.{new_process, start_process, proc_schedule, sleep_ticks_of}

-- While the product does not pass 2 ^ 32, which is for about 11 hours, the ticks are the least
-- number of them, at 10 milliseconds each, that last as long as was asked for.
pub sleep_ticks_of_bounds :
    (ms : ℕ)
    → ms * 100 + 999 < u32
    → (ms ≤ sleep_ticks_of ms * 10) × (sleep_ticks_of ms * 10 < ms + 10)
unfolding sleep_ticks_of
sleep_ticks_of_bounds ms h = ground arith

AllValid-insert :
    (procs : Array Process) (ring : List ℕ) (new : ℕ)
    → AllValid procs ring
    → proc_valid procs new ≡ true
    → AllValid procs (insert ring new)
unfolding insert
AllValid-insert procs [] new v e = (e, tt)
AllValid-insert procs (p ∷ ps) new v e = (v.0, (e, v.1))

-- What a list looks like after an insertion: the new one is looked at first.
order-insert :
    (ring : List ℕ) (new : ℕ) → (behind : List ℕ) × (order (insert ring new) ≡ new ∷ behind)
unfolding order insert
order-insert [] new = ([], refl)
order-insert (p ∷ ps) new = (ps ++ p ∷ [], refl)

module _ (s : Sched) (new : ℕ) (new_ne : new ≢ 0) (directory : (s.procs new).directory ≢ 0)
    (stack : (s.procs new).saved_kernel_stack ≢ 0) (is : proc_valid s.procs new ≡ true)
    (up : (s.procs new).sleep_ticks ≡ 0) where
  sched_robin_add-insert :
      sched_robin_add s new ≡ record s { ring = insert (valid s.procs s.ring) new }
  unfolding sched_robin_add
  sched_robin_add-insert =
      let new_is : (new == 0) ≡ false = ground arith in
      let directory_is : ((s.procs new).directory == 0) ≡ false = ground arith in
      let stack_is : ((s.procs new).saved_kernel_stack == 0) ≡ false = ground arith in
      rw (new_is, directory_is, stack_is)
        (ap (λ l. record s { ring = insert l new }) (prune-valid s.procs s.ring))

  -- The election after an insertion.
  sched_robin_next-add : (sched_robin_next (sched_robin_add s new)).0 ≡ some new
  sched_robin_next-add =
      let t : Sched = record s { ring = insert (valid s.procs s.ring) new } in
      let (behind, place) = order-insert (valid s.procs s.ring) new in
      let waits : Waits new 0 t = record {
        pruned =
            AllValid-insert s.procs (valid s.procs s.ring) new (valid-AllValid s.procs s.ring) is;
        before = [];
        behind = behind;
        place = place;
        count = refl;
        awake = up;
      } in
      ap (λ x. (sched_robin_next x).0) sched_robin_add-insert
      ∙ (elim (turn new 0 t waits) [ inl now ↦ now | inr (m, e, w) ↦ absurd (omega arith) ])

-- The call of the scheduler by its result.
current-proc_schedule :
    (k : Kernel) (p : ℕ) → (sched_robin_next k.sched).0 ≡ some p → (proc_schedule k).current ≡ p
unfolding proc_schedule
current-proc_schedule k p e = rw (e, proc_schedule) refl

-- A process that has just been started, with an address, a page directory and a stack that are not
-- 0, is the one that runs after the next call of the scheduler.
pub proc_schedule-start_process :
    (ops : VfsFileOps ℕ) (k : Kernel) (process code_len directory stack : ℕ)
    → process ≢ 0
    → directory ≢ 0
    → stack ≢ 0
    → (proc_schedule (start_process ops k process code_len directory stack)).current ≡ process
unfolding start_process
proc_schedule-start_process ops k process code_len directory stack p_ne d_ne s_ne =
    let self : (process == process) ≡ true = ground arith in
    let process_is : (process == 0) ≡ false = ground arith in
    let directory_is : (directory == 0) ≡ false = ground arith in
    let stack_is : (stack == 0) ≡ false = ground arith in
    let p : Process = new_process ops k code_len directory stack in
    let s : Sched = record { procs = write k.sched.procs process p; ring = k.sched.ring } in
    let is_valid : proc_valid s.procs process ≡ true =
      unfold proc_valid in rw (self, process_is, directory_is, stack_is) refl in
    let next : (sched_robin_next (sched_robin_add s process)).0 ≡ some process =
      sched_robin_next-add s process p_ne (rw self d_ne) (rw self s_ne) is_valid (rw self refl) in
    current-proc_schedule (start_process ops k process code_len directory stack) process next
