-- ===== src/Sys/Sched/Tests.antt =====
-- Runs of the scheduler on two processes.
use mathlib.Core.List.{Perm}
use saynaa_os.Prelude.{ℕ, ◌≡◌, refl, true, some, [], ◌∷◌, Array, write}
use saynaa_os.Sys.Process.{Process}
use saynaa_os.Sys.Kernel.{closed}
use saynaa_os.Sys.Sched.Ring.{valid}
use saynaa_os.Sys.Sched.Next.{Passes, sched_robin_next-perm}
use saynaa_os.Sys.Sched.{Sched, proc_magic, proc_valid, sched_robin_next}
use saynaa_os.Sys.Sched.Turns.{Waits, order, elections, elected, elections-elected}

abbrev nothing : Process
nothing = record {
  magic = 0;
  pid = 0;
  code_len = 0;
  directory = 0;
  saved_kernel_stack = 0;
  mem_len = 0;
  sleep_ticks = 0;
  parent_pid = 0;
  cwd = [];
  stdout = 0;
  shm_next_virt = 0;
  fds = λ _. closed;
  magic2 = 0;
}

abbrev started : ℕ → Process
started pid = record nothing {
  magic = proc_magic;
  pid = pid;
  directory = 0x1000;
  saved_kernel_stack = 0x2000;
  magic2 = proc_magic;
}

abbrev procs : Array Process
procs = write (write (λ _. nothing) 100 (started 1)) 200 (started 2)

abbrev two : Sched
two = record { procs = procs; ring = 100 ∷ 200 ∷ [] }

two_first : (sched_robin_next two).0 ≡ some 200
unfolding sched_robin_next saynaa_os.Sys.Sched.prune saynaa_os.Sys.Sched.drop_heads
    saynaa_os.Sys.Sched.drop_others proc_valid saynaa_os.Sys.Sched.search saynaa_os.Sys.Sched.elect
    saynaa_os.Sys.Sched.tick
two_first = refl

two-Waits : Waits 100 1 two
unfolding order proc_valid
two-Waits = record {
  pruned = (refl, (refl, tt));
  before = 200 ∷ [];
  behind = [];
  place = refl;
  count = refl;
  awake = refl;
}

elections-elected_example : elected 100 (elections (λ _ p. p) 2 two) ≡ true
elections-elected_example =
    elections-elected 1 100 two (λ _ p. p) two-Waits
      (λ k. record { same_valid = λ p a. refl; awake = λ p e. e })

sched_robin_next-perm_example :
    Perm (sched_robin_next two).1.ring (valid two.procs two.ring)
    × Passes two.procs (sched_robin_next two).1.procs
sched_robin_next-perm_example = sched_robin_next-perm two
