-- ===== src/Sys/Tests.antt =====
-- Runs of the system calls in one process.
use saynaa_os.Prelude.{
  ℕ, ◌+◌, ◌≡◌, refl, true, none, some, List, [], ◌∷◌, ◌++◌, ◌⊎◌, write, arith, length, take, drop,
  ◌<◌, ◌≤◌, ◌%◌, ◌*◌, if◌then◌else◌, ◌^◌, ◌≢◌, leb,
}
use saynaa_os.Sys.Process.{Fd, Process}
use saynaa_os.Sys.Kernel.{
  Kernel, closed, running, fd_from_index, alloc_fd, minus_one, u32, proc_max_fd,
}
use saynaa_os.Prelude.Int.{pos}
use saynaa_os.Libc.Pathutil.{normalize_path}
use saynaa_os.Libc.Pathutil.Bounds.{IsCanonicalPath}
use saynaa_os.Fs.Vfs.{VfsFileOps, vfs_read, vfs_lookup}
use saynaa_os.Input.Keyboard.{initial}
use saynaa_os.Ring.Contents.{contents}
use saynaa_os.Ring.Queue
use saynaa_os.Sys.Capture.{capture_size, stdout_of, syscall_readstdout}
use saynaa_os.Sys.Capture.Laws.{IsCapture, syscall_readstdout-syscall_write}
use saynaa_os.Sys.Files.{syscall_read, syscall_write, syscall_seek}
use saynaa_os.Sys.Files.Table.{OnlyFd, opened, alloc_fd-first}
use saynaa_os.Sys.Files.Reads.{IsFile, part, syscall_read_twice}
use saynaa_os.Sys.Files.Seek.{syscall_seek_lem, StartsAt}
use saynaa_os.Sys.Paths.{resolve_user_path, path_size, is_dir, syscall_chdir, syscall_getcwd}
use saynaa_os.Sys.Paths.Laws.{syscall_getcwd-syscall_chdir}
use saynaa_os.Sys.Proc.{start_process, proc_schedule, sleep_ticks_of}
use saynaa_os.Sys.Proc.Laws.{proc_schedule-start_process, sleep_ticks_of_bounds}

abbrev nothing : Process
nothing = record {
  magic = 0;
  pid = 0;
  code_len = 0;
  directory = 0;
  saved_kernel_stack = 0;
  mem_len = 0;
  sleep_ticks = 0;
  parent_pid = 0;
  cwd = [];
  stdout = 0;
  shm_next_virt = 0;
  fds = λ _. closed;
  magic2 = 0;
}

-- One process that runs, with a file of five bytes open as descriptor 3, at the address 9, and a
-- capture buffer at 500; the root directory is at 7.
abbrev text : List ℕ
text = b'h' ∷ b'e' ∷ b'l' ∷ b'l' ∷ b'o' ∷ []

abbrev ops : VfsFileOps ℕ
ops = record {
  read = λ node.
      some (λ offset size.
        (pos (length (take size (drop offset text))), take size (drop offset text)));
  write = λ node. none;
  ioctl = λ node. none;
  readdir = λ node. none;
  finddir = λ node. none;
}

abbrev flags_of : ℕ → ℕ
flags_of node = 2

abbrev length_of : ℕ → ℕ
length_of node = 5

abbrev entry : Fd
entry = record { used = true; flags = 1; offset = 0; node = 9 }

abbrev caller : Process
caller = record nothing {
  pid = 1;
  cwd = b'/' ∷ [];
  stdout = 500;
  fds = write (λ _. closed) 3 entry;
}

abbrev kernel : Kernel
kernel = record {
  current = 100;
  sched = record { procs = write (λ _. nothing) 100 caller; ring = 100 ∷ [] };
  outs = λ _. record { refcount = 1; ring = record { buf = λ _. 0; r = 0; w = 0 } };
  vfs = record { fs = []; root = some 7 };
  ptys = record { slots = λ _. none; devices = [] };
  tty = record { keyboard = initial; active_line = 0 };
  console = [];
  next_pid = 2;
}

kernel-entry : fd_from_index kernel 3 ≡ some entry
unfolding fd_from_index
kernel-entry = refl

text-IsFile : IsFile ops 9 text
unfolding vfs_read
text-IsFile = record {
  nonnull = omega arith;
  reads = λ offset size fits. refl;
  small = omega arith;
}

syscall_read_twice_example :
    let (r, first, k') = syscall_read ops length_of kernel 3 true 2 in
    let (s, second, k'') = syscall_read ops length_of k' 3 true 9 in
    (first ++ second ≡ part text 0 (2 + 9))
    × (r ≡ length first)
    × (s ≡ length second)
    × (fd_from_index k'' 3 ≡ some (record entry { offset = 0 + r + s }))
    × OnlyFd kernel k'' 3
syscall_read_twice_example =
    syscall_read_twice ops length_of kernel 3 entry kernel-entry text text-IsFile refl 2 9
      (omega arith) (omega arith) (omega arith)

alloc_fd-first_example :
    (((j : ℕ) → j < proc_max_fd → ((running kernel).fds j).used ≡ true)
      × (alloc_fd kernel 9 5 4 ≡ (minus_one, kernel)))
    ⊎ ((i : ℕ) × (i < proc_max_fd)
        × (fd_from_index kernel i ≡ none)
        × ((j : ℕ) → j < i → ((running kernel).fds j).used ≡ true)
        × ((alloc_fd kernel 9 5 4).0 ≡ i)
        × (fd_from_index (alloc_fd kernel 9 5 4).1 i ≡ some (opened 9 5 4))
        × OnlyFd kernel (alloc_fd kernel 9 5 4).1 i)
alloc_fd-first_example = alloc_fd-first kernel 9 5 4 (omega arith) (omega arith)

syscall_seek_lem_example :
    ((syscall_seek ops length_of kernel 3 1 2 ≡ (minus_one, kernel))
      × ((fd_from_index kernel 3 ≡ none)
          ⊎ ((e : Fd) × (fd_from_index kernel 3 ≡ some e) × (e.node ≡ 0))
          ⊎ (2 < 2)
          ⊎ ((e : Fd) × (base : ℕ) × (fd_from_index kernel 3 ≡ some e)
              × StartsAt (length_of e.node) 2 e base
              × (2 ^ 31 ≤ 1)
              × (base + 1 < u32))))
    ⊎ ((e : Fd) × (base to : ℕ) × (fd_from_index kernel 3 ≡ some e)
        × (e.node ≢ 0)
        × StartsAt (length_of e.node) 2 e base
        × (base + 1 ≡ to + (if leb (2 ^ 31) 1 then u32 else 0))
        × ((syscall_seek ops length_of kernel 3 1 2).0 ≡ to % u32)
        × (fd_from_index (syscall_seek ops length_of kernel 3 1 2).1 3
            ≡ some (record e { offset = to % u32 }))
        × OnlyFd kernel (syscall_seek ops length_of kernel 3 1 2).1 3)
syscall_seek_lem_example = syscall_seek_lem ops length_of kernel 3 1 2 (omega arith)

syscall_readstdout-syscall_write_example :
    let before : List ℕ = contents capture_size (kernel.outs (stdout_of kernel)).ring in
    let kept : List ℕ = Queue.last 4095 (before ++ text) in
    let (written, k') = syscall_write ops length_of kernel 1 (some text) in
    let (read, k'') = syscall_readstdout k' true 2 in
    (written ≡ length text)
    × (read ≡ take 2 kept)
    × (contents capture_size (k''.outs (stdout_of kernel)).ring ≡ drop 2 kept)
    × IsCapture (k''.outs (stdout_of kernel)).ring
syscall_readstdout-syscall_write_example =
    syscall_readstdout-syscall_write ops length_of kernel text 2 (omega arith)
      (omega arith, omega arith) (λ e. cc) (omega arith)

root-IsCanonicalPath : IsCanonicalPath (b'/' ∷ [])
unfolding normalize_path saynaa_os.Libc.Fields.skip_while saynaa_os.Libc.Pathutil.is_slash
root-IsCanonicalPath = record { absolute = ([], refl); short = omega arith; canonical = refl }

syscall_getcwd-syscall_chdir_example :
    (syscall_chdir ops flags_of length_of kernel (some (b'.' ∷ [])) ≡ (minus_one, kernel))
    ⊎ ((q : List ℕ) × (node : ℕ) × (k' : Kernel) × (resolve_user_path kernel
            (some (b'.' ∷ []))
            path_size
          ≡ some q)
        × (vfs_lookup ops kernel.vfs (some q) ≡ some node)
        × (is_dir ops flags_of length_of node ≡ true)
        × (syscall_chdir ops flags_of length_of kernel (some (b'.' ∷ [])) ≡ (0, k'))
        × IsCanonicalPath (running k').cwd
        × ((len : ℕ) → length q < len → syscall_getcwd k' true len ≡ (length q, some q)))
syscall_getcwd-syscall_chdir_example =
    syscall_getcwd-syscall_chdir ops flags_of length_of kernel (b'.' ∷ []) (omega arith)
      root-IsCanonicalPath

proc_schedule-start_process_example :
    (proc_schedule (start_process ops kernel 300 1 0x3000 0x4000)).current ≡ 300
proc_schedule-start_process_example =
    proc_schedule-start_process ops kernel 300 1 0x3000 0x4000 (omega arith) (omega arith)
      (omega arith)

sleep_ticks_of_bounds_example : (25 ≤ sleep_ticks_of 25 * 10) × (sleep_ticks_of 25 * 10 < 25 + 10)
sleep_ticks_of_bounds_example = sleep_ticks_of_bounds 25 (omega arith)
