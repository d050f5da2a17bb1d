-- ===== src/Sys/Files.antt =====
-- The system calls on open files (kernel/src/sys/syscall.c).
pub mod Table
pub mod Reads
pub mod Seek
pub mod Disk
use saynaa_os.Prelude.{
  ℕ, zero, suc, ◌+◌, ◌-◌, ◌%◌, ◌^◌, ◌==◌, ltb, leb, Bool, true, false, not, ◌||◌, ◌&&◌, Option,
  none, some, List, [], ◌∷◌, if◌then◌else◌, length, has,
}
use saynaa_os.Prelude.Int.{ℤ, pos, negsuc}
use saynaa_os.Fs.Vfs.{VfsFileOps, vfs_read, vfs_write, vfs_ioctl}
use saynaa_os.Sys.Process.{Fd}
use saynaa_os.Sys.Kernel.{
  Kernel, u32, minus_one, word, fd_from_index, set_fd, closed, is_negative, o_rdonly, o_wronly,
  write_active, read_active, running,
}
use saynaa_os.Sys.Capture.{stdout_of, set_ring, capture}

unfoldable pub syscall_close : Kernel → (fd : ℕ) → ℕ × Kernel
unfolding fd_from_index
syscall_close k fd = elim (fd_from_index k fd) [
  | none ↦ (minus_one, k)
  | some entry ↦ (0, set_fd k fd closed)
]

-- `entry->offset += n`
abbrev pub advance : Kernel → ℕ → Fd → ℕ → Kernel
advance k fd entry n = set_fd k fd (record entry { offset = (entry.offset + n) % u32 })

-- A node is known by its address, 0 for null; `ops` is what its driver offers, and `length_of` its
-- length.
module _ (ops : VfsFileOps ℕ) (length_of : ℕ → ℕ) where
  -- The result, what is stored to the buffer, and the state.
  unfoldable pub syscall_read : Kernel → (fd : ℕ) → (buf : Bool) → (size : ℕ) → ℕ × List ℕ × Kernel
  unfolding fd_from_index vfs_read read_active
  syscall_read k fd buf size =
      if not buf || size == 0 then (minus_one, [], k) else elim (fd_from_index k fd) [
        | none ↦ read_active k buf size
        | some entry ↦
            if not (has entry.flags o_rdonly) || entry.node == 0
            then read_active k buf size
            else (let (r, bytes) = vfs_read ops (some entry.node) entry.offset size in
                elim r [
                  | negsuc m ↦ read_active k buf size
                  | pos n ↦ (n % u32, bytes, if n == 0 then k else advance k fd entry n)
                ])
      ]

  -- `none` is the null pointer; the length is the argument `edx`.
  unfoldable pub syscall_write : Kernel → (fd : ℕ) → Option (List ℕ) → ℕ × Kernel
  unfolding capture fd_from_index vfs_write write_active
  syscall_write k fd none = (minus_one, k)
  syscall_write k fd (some buf) =
      if length buf == 0 || is_negative fd
      then (minus_one, k)
      else if fd == 1 && not (stdout_of k == 0)
      then (length buf, set_ring k (stdout_of k) (capture (k.outs (stdout_of k)).ring buf))
      else elim (fd_from_index k fd) [
        | none ↦ write_active k (some buf)
        | some entry ↦
            if not (has entry.flags o_wronly) || entry.node == 0
            then write_active k (some buf)
            else elim (vfs_write ops (some entry.node) entry.offset buf) [
              | negsuc m ↦ write_active k (some buf)
              | pos n ↦ (n % u32, if n == 0 then k else advance k fd entry n)
            ]
      ]

  -- `base + offset`, where `offset` is the signed value of the argument; `none` if it is negative.
  abbrev pub moved : (base offset : ℕ) → Option ℕ
  moved base offset =
      if is_negative offset
      then (if ltb base (u32 - offset) then none else some (base - (u32 - offset)))
      else some (base + offset)

  -- `base` for each `whence`.
  abbrev pub seek_base : Fd → (whence : ℕ) → Option ℕ
  seek_base entry whence =
      if whence == 0
      then some 0
      else if whence == 1
      then some entry.offset
      else if whence == 2
      then some (length_of entry.node)
      else none

  unfoldable pub syscall_seek : Kernel → (fd offset whence : ℕ) → ℕ × Kernel
  unfolding fd_from_index
  syscall_seek k fd offset whence = elim (fd_from_index k fd) [
    | none ↦ (minus_one, k)
    | some entry ↦ if entry.node == 0 then (minus_one, k) else elim (seek_base entry whence) [
      | none ↦ (minus_one, k)
      | some base ↦ elim (moved base offset) [
        | none ↦ (minus_one, k)
        | some n ↦ (n % u32, set_fd k fd (record entry { offset = n % u32 }))
      ]
    ]
  ]

  unfoldable pub syscall_ioctl : Kernel → (fd request : ℕ) → ℕ
  unfolding fd_from_index vfs_ioctl
  syscall_ioctl k fd request = elim (fd_from_index k fd) [
    | none ↦ minus_one
    | some entry ↦
        if entry.node == 0 then minus_one else word (vfs_ioctl ops (some entry.node) request)
  ]
