-- ===== src/Sys/Kernel.antt =====
-- The state that the system calls work on (kernel/src/sys/proc.c and syscall.c): the running process,
-- the scheduler with the processes, the capture buffers, the file system's registry, the terminals,
-- and what was written to the console. Words of the machine are numbers below 2 ^ 32.
use saynaa_os.Prelude.{
  ℕ, zero, suc, ◌+◌, ◌-◌, ◌%◌, ◌^◌, ◌==◌, leb, Bool, true, false, ◌||◌, Option, none, some, List,
  [], ◌++◌, if◌then◌else◌, Array, write, has, length,
}
use saynaa_os.Prelude.Int.{ℤ, pos, negsuc}
use saynaa_os.Ring.{Ring}
use saynaa_os.Input.Tty.{Tty, ttydev_read_active}
use saynaa_os.Fs.Vfs.{Vfs}
use saynaa_os.Pty.Table.{Ptys}
use saynaa_os.Sys.Process.{Process, Fd}
use saynaa_os.Sys.Sched.{Sched}

abbrev pub u32 : ℕ
u32 = 2 ^ 32

-- The result -1 in a register.
abbrev pub minus_one : ℕ
minus_one = 0xFFFF_FFFF

-- A signed result in a register.
abbrev pub word : ℤ → ℕ
word (pos n) = n % u32
word (negsuc n) = (u32 - 1 - n % u32) % u32

-- `proc_stdout_t`
pub record Stdout : Type 0 where
  pub refcount : ℕ
  pub ring : Ring ℕ

-- The running process and the buffers are known by their addresses, and 0 is the null pointer.
pub record Kernel : Type 0 where
  pub current : ℕ
  pub sched : Sched
  pub outs : Array Stdout
  pub vfs : Vfs ℕ
  pub ptys : Ptys
  pub tty : Tty
  pub console : List ℕ
  pub next_pid : ℕ

abbrev pub proc_max_fd : ℕ
proc_max_fd = 32

-- The process that runs.
abbrev pub running : Kernel → Process
running k = k.sched.procs k.current

abbrev pub set_running : Kernel → Process → Kernel
set_running k p = record k {
  sched = record { procs = write k.sched.procs k.current p; ring = k.sched.ring };
}

-- The entry `i` of its table of files.
abbrev pub set_fd : Kernel → ℕ → Fd → Kernel
set_fd k i fd = let p : Process = running k in set_running k (record p { fds = write p.fds i fd })

abbrev pub closed : Fd
closed = record { used = false; flags = 0; offset = 0; node = 0 }

abbrev pub o_rdonly : ℕ
o_rdonly = 1

abbrev pub o_wronly : ℕ
o_wronly = 2

abbrev pub o_rdwr : ℕ
o_rdwr = 3

abbrev pub o_append : ℕ
o_append = 4

-- The argument `fd` is a signed integer: from 2 ^ 31 on it is negative.
abbrev pub is_negative : ℕ → Bool
is_negative w = leb (2 ^ 31) w

unfoldable pub fd_from_index : Kernel → (fd : ℕ) → Option Fd
fd_from_index k fd =
    if k.current == 0 || is_negative fd || leb proc_max_fd fd
    then none
    else if ((running k).fds fd).used
    then some ((running k).fds fd)
    else none

-- The first index from `i` on whose entry is not used, with `n` entries left.
unfoldable pub free_fd : Array Fd → (i n : ℕ) → Option ℕ
free_fd fds i zero = none
free_fd fds i (suc n) =
    let rest : Option ℕ = free_fd fds (i + 1) n in if (fds i).used then rest else some i

-- `length` is the node's.
unfoldable pub alloc_fd : Kernel → (node length flags : ℕ) → ℕ × Kernel
unfolding free_fd
alloc_fd k node length flags =
    if k.current == 0 || node == 0
    then (minus_one, k)
    else elim (free_fd (running k).fds 0 proc_max_fd) [
      | none ↦ (minus_one, k)
      | some i ↦
          let offset : ℕ = if has flags o_append then length else 0 in
          (i, set_fd k i (record { used = true; flags = flags; offset = offset; node = node }))
    ]

-- `ttydev_write_active`, whose characters go to the console; `none` is the null pointer.
unfoldable pub write_active : Kernel → Option (List ℕ) → ℕ × Kernel
write_active k none = (minus_one, k)
write_active k (some bytes) = (length bytes, record k { console = k.console ++ bytes })

-- `ttydev_read_active`
unfoldable pub read_active : Kernel → (buffer : Bool) → (size : ℕ) → ℕ × List ℕ × Kernel
unfolding ttydev_read_active
read_active k buffer size =
    let (bytes, t) = ttydev_read_active k.tty buffer size in
    elim bytes [
      | none ↦ (minus_one, [], record k { tty = t })
      | some bs ↦ (length bs, bs, record k { tty = t })
    ]
