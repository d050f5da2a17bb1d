-- ===== src/Sys/Proc.antt =====
-- Processes (kernel/src/sys/proc.c): what a new one gets, the switch to the next one, sleeping and
-- the end of one. The pages and stacks that `proc_run_code` sets up before that are not modelled,
-- and `fpu_switch` and `proc_switch_process` are only that the next process runs from then on.
pub mod Laws
use saynaa_os.Prelude.{
  ℕ, zero, suc, ◌+◌, ◌-◌, ◌*◌, ◌/◌, ◌%◌, ◌==◌, ltb, Bool, true, false, not, ◌||◌, ◌&&◌, Option,
  none, some, List, [], ◌∷◌, if◌then◌else◌, length, take, Array, write, has,
}
use saynaa_os.Input.Keyboard.{keyboard_set_tty_input}
use saynaa_os.Input.Tty.{Tty}
use saynaa_os.Fs.Vfs.{VfsFileOps, vfs_lookup}
use saynaa_os.Sys.Process.{Process, Fd}
use saynaa_os.Sys.Sched.{
  Sched, proc_magic, sched_robin_add, sched_robin_next, sched_robin_exit, sched_robin_exists,
  sched_robin_get_current,
}
use saynaa_os.Sys.Kernel.{
  Kernel, u32, minus_one, running, set_running, closed, o_rdonly, o_wronly, read_active,
}
use saynaa_os.Sys.Capture.{proc_stdout_retain, proc_stdout_release}

-- The table of a process with no parent: the terminal, if there is one, for input and output.
unfoldable pub proc_init_fd_table : Option ℕ → Array Fd
proc_init_fd_table none = λ _. closed
proc_init_fd_table (some tty) =
    write (write (λ _. closed) 0 (record { used = true; flags = o_rdonly; offset = 0; node = tty }))
      1 (record { used = true; flags = o_wronly; offset = 0; node = tty })

-- `/dev/tty` and `/`
abbrev pub tty_path : List ℕ
tty_path = b'/' ∷ b'd' ∷ b'e' ∷ b'v' ∷ b'/' ∷ b't' ∷ b't' ∷ b'y' ∷ []

abbrev pub root_path : List ℕ
root_path = b'/' ∷ []

-- The working directory of a new process.
abbrev pub parent_cwd : Kernel → List ℕ
parent_cwd k = if k.current == 0 || length (running k).cwd == 0 then root_path else (running k).cwd

-- The structure that `proc_run_code` fills, for a process whose pages and stacks `code_len`,
-- `directory` and `stack` describe.
unfoldable pub new_process : VfsFileOps ℕ → Kernel → (code_len directory stack : ℕ) → Process
unfolding proc_init_fd_table
new_process ops k code_len directory stack = record {
  magic = proc_magic;
  pid = k.next_pid;
  code_len = code_len;
  directory = directory;
  saved_kernel_stack = stack;
  mem_len = 0;
  sleep_ticks = 0;
  parent_pid = if k.current == 0 then 0 else (running k).pid;
  cwd = take 255 (parent_cwd k);
  stdout = if k.current == 0 then 0 else (running k).stdout;
  shm_next_virt = 0xB000_0000;
  fds =
      if k.current == 0
      then proc_init_fd_table (vfs_lookup ops k.vfs (some tty_path))
      else (running k).fds;
  magic2 = proc_magic;
}

-- The second half of `proc_run_code`: the process at the address `process` is filled in and started.
unfoldable pub start_process :
    VfsFileOps ℕ → Kernel → (process code_len directory stack : ℕ) → Kernel
unfolding new_process
start_process ops k process code_len directory stack =
    let p : Process = new_process ops k code_len directory stack in
    let k' : Kernel = proc_stdout_retain k p.stdout in
    record k' {
      sched =
          sched_robin_add (record { procs = write k.sched.procs process p; ring = k.sched.ring })
            process;
      next_pid = (k.next_pid + 1) % u32;
    }

unfoldable pub proc_schedule : Kernel → Kernel
proc_schedule k =
    let (next, s) = sched_robin_next k.sched in
    elim next [
      | none ↦ record k { sched = s; current = 0 }
      | some p ↦ record k { sched = s; current = p }
    ]

-- The running process, which is not null, ends. Without a process to run the machine then halts.
unfoldable pub proc_exit : Kernel → Kernel
unfolding proc_schedule
proc_exit k =
    let exiting : ℕ = k.current in
    let (freed, k') = proc_stdout_release k (running k).stdout in
    let p : Process = running k' in
    let k'' : Kernel = set_running k' (record p { stdout = 0 }) in
    proc_schedule (record k'' { sched = sched_robin_exit k''.sched exiting })

-- The ticks of `ms` milliseconds, at 100 ticks a second.
unfoldable pub sleep_ticks_of : ℕ → ℕ
sleep_ticks_of ms =
    if ms == 0
    then 0
    else (let ticks : ℕ = (ms * 100 % u32 + 999) % u32 / 1000 in if ticks == 0 then 1 else ticks)

unfoldable pub proc_sleep : Kernel → (ms : ℕ) → Kernel
unfolding sleep_ticks_of proc_schedule
proc_sleep k ms =
    if k.current == 0
    then k
    else (let p : Process = running k in
        proc_schedule (set_running k (record p { sleep_ticks = sleep_ticks_of ms })))

unfoldable pub proc_get_current_pid : Kernel → ℕ
proc_get_current_pid k = if k.current == 0 then 0 else (running k).pid

-- The system calls on processes, the keyboard and a character of input (kernel/src/sys/syscall.c).
unfoldable pub syscall_getpid : Kernel → ℕ
unfolding proc_get_current_pid
syscall_getpid k = proc_get_current_pid k

unfoldable pub syscall_yield : Kernel → Kernel
unfolding proc_schedule
syscall_yield k = proc_schedule k

unfoldable pub syscall_exit : Kernel → Kernel
unfolding proc_exit
syscall_exit k = proc_exit k

unfoldable pub syscall_sleep : Kernel → (ms : ℕ) → ℕ × Kernel
unfolding proc_sleep
syscall_sleep k ms = (0, proc_sleep k ms)

unfoldable pub syscall_set_kbd_mode : Kernel → (mode : ℕ) → ℕ × Kernel
syscall_set_kbd_mode k mode =
    if ltb 1 mode
    then (minus_one, k)
    else (let t : Tty = k.tty in
        (
          0,
          record k { tty = record t { keyboard = keyboard_set_tty_input t.keyboard (mode == 0) } },
        ))

unfoldable pub syscall_getchar : Kernel → ℕ × Kernel
unfolding read_active
syscall_getchar k =
    let (r, bytes, k') = read_active k true 1 in
    if r == 1 then (elim bytes [ [] ↦ 0 | ch ∷ more ↦ ch % 256 ], k') else (minus_one, k')

-- One round of the loop of `syscall_waitpid`: `none` when the process `pid` is gone, and otherwise
-- the state when the caller runs on.
unfoldable pub waitpid_round : Kernel → (pid : ℕ) → Option Kernel
unfolding proc_schedule
waitpid_round k pid = if sched_robin_exists k.sched pid then some (proc_schedule k) else none
