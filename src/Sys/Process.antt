-- ===== src/Sys/Process.antt =====
-- The structure of a process (kernel/include/sys/proc.h). Processes, nodes of the file system and
-- capture buffers are known by their addresses, and 0 is the null pointer.
use saynaa_os.Prelude.{ℕ, Bool, List, Array}

-- `proc_fd_t`
pub record Fd : Type 0 where
  pub used : Bool
  pub flags : ℕ
  pub offset : ℕ
  pub node : ℕ

-- `process_t`, without the registers and stacks that only assembly touches.
pub record Process : Type 0 where
  pub magic : ℕ
  pub pid : ℕ
  pub code_len : ℕ
  pub directory : ℕ
  pub saved_kernel_stack : ℕ
  pub mem_len : ℕ
  pub sleep_ticks : ℕ
  pub parent_pid : ℕ
  pub cwd : List ℕ
  pub stdout : ℕ
  pub shm_next_virt : ℕ
  pub fds : Array Fd
  pub magic2 : ℕ
