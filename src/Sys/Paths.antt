-- ===== src/Sys/Paths.antt =====
-- The system calls that take a path, and those on the working directory (kernel/src/sys/syscall.c).
pub mod Laws
use saynaa_os.Prelude.{
  ℕ, zero, suc, ◌+◌, ◌-◌, ◌%◌, ◌==◌, ltb, Bool, true, false, not, ◌||◌, ◌&&◌, Option, none, some,
  List, [], ◌∷◌, if◌then◌else◌, length, take, has,
}
use saynaa_os.Prelude.Int.{ℤ}
use saynaa_os.Libc.Strings.{same}
use saynaa_os.Libc.Pathutil.{make_abs_path}
use saynaa_os.Fs.Vfs.{VfsFileOps, vfs_lookup, vfs_readdir}
use saynaa_os.Pty.Table.{pty_open_master}
use saynaa_os.Sys.Process.{Process}
use saynaa_os.Sys.Kernel.{
  Kernel, minus_one, word, alloc_fd, running, set_running, o_rdonly, o_wronly, o_rdwr,
}

-- The size of `resolved`, and of `cwd`.
abbrev pub path_size : ℕ
path_size = 256

-- `none` is the null pointer for a path, and the result 0.
unfoldable pub resolve_user_path : Kernel → Option (List ℕ) → (out_len : ℕ) → Option (List ℕ)
resolve_user_path k none out_len = none
resolve_user_path k (some path) out_len =
    if out_len == 0 || k.current == 0 then none else make_abs_path true (running k).cwd path out_len

-- `/dev/ptmx`
abbrev pub ptmx_path : List ℕ
ptmx_path = b'/' ∷ b'd' ∷ b'e' ∷ b'v' ∷ b'/' ∷ b'p' ∷ b't' ∷ b'm' ∷ b'x' ∷ []

-- What `open` refuses: reading or writing where the node has no such operation.
abbrev pub refuses : VfsFileOps ℕ → (flags node : ℕ) → Bool
refuses ops flags node =
    (has flags o_rdonly && elim (ops.read node) [ none ↦ true | some r ↦ false ])
    || (has flags o_wronly && elim (ops.write node) [ none ↦ true | some w ↦ false ])

-- The branch of `syscall_open` for /dev/ptmx. `master` and `slave` are the addresses of the devices
-- that are allocated, and `node` that of the master's node, whose length is 0.
unfoldable pub open_ptmx : Kernel → (master slave node flags : ℕ) → ℕ × Kernel
unfolding alloc_fd
open_ptmx k master slave node flags =
    let (made, ptys) = pty_open_master k.ptys master slave in
    elim made [
      | none ↦ (minus_one, record k { ptys = ptys })
      | some m ↦ alloc_fd (record k { ptys = ptys }) node 0 (if flags == 0 then o_rdwr else flags)
    ]

-- Nodes are known by their addresses, with their operations, flags and lengths.
module _ (ops : VfsFileOps ℕ) (flags_of length_of : ℕ → ℕ) where
  unfoldable pub syscall_open :
      Kernel → Option (List ℕ) → (flags master slave node : ℕ) → ℕ × Kernel
  unfolding resolve_user_path alloc_fd open_ptmx
  syscall_open k path flags master slave node = elim (resolve_user_path k path path_size) [
    | none ↦ (minus_one, k)
    | some resolved ↦
        if same resolved ptmx_path
        then open_ptmx k master slave node flags
        else elim (vfs_lookup ops k.vfs (some resolved)) [
          | none ↦ (minus_one, k)
          | some found ↦
              if refuses ops flags found
              then (minus_one, k)
              else alloc_fd k found (length_of found) flags
        ]
  ]

  -- The node of a path of the caller.
  unfoldable pub lookup_user : Kernel → Option (List ℕ) → Option ℕ
  unfolding resolve_user_path
  lookup_user k path = elim (resolve_user_path k path path_size) [
    | none ↦ none
    | some resolved ↦ vfs_lookup ops k.vfs (some resolved)
  ]

  -- The result and the name that is stored through `out`, which is null if `out` is false.
  unfoldable pub syscall_readdir :
      Kernel → Option (List ℕ) → (index : ℕ) → (out : Bool) → ℕ × Option (List ℕ)
  unfolding lookup_user
  syscall_readdir k path index out =
      if not out then (minus_one, none) else elim (lookup_user k path) [
        | none ↦ (minus_one, none)
        | some node ↦ (let (r, entry) = vfs_readdir ops (some node) index in (word r, entry))
      ]

  -- The result, and the flags and the size that are stored.
  unfoldable pub syscall_stat : Kernel → Option (List ℕ) → (st : Bool) → ℕ × Option (ℕ × ℕ)
  unfolding lookup_user
  syscall_stat k path st = if not st then (minus_one, none) else elim (lookup_user k path) [
    | none ↦ (minus_one, none)
    | some node ↦ (0, some (flags_of node, length_of node))
  ]

  -- `VFS_NODE_DIR`
  abbrev pub is_dir : ℕ → Bool
  is_dir node = has (flags_of node) 2

  unfoldable pub syscall_chdir : Kernel → Option (List ℕ) → ℕ × Kernel
  unfolding resolve_user_path
  syscall_chdir k path = elim (resolve_user_path k path path_size) [
    | none ↦ (minus_one, k)
    | some resolved ↦ elim (vfs_lookup ops k.vfs (some resolved)) [
      | none ↦ (minus_one, k)
      | some node ↦
          if not (is_dir node)
          then (minus_one, k)
          else (let p : Process = running k in
              (0, set_running k (record p { cwd = take (path_size - 1) resolved })))
    ]
  ]

-- The result, and the string that is stored to the buffer of `len` bytes.
unfoldable pub syscall_getcwd : Kernel → (buf : Bool) → (len : ℕ) → ℕ × Option (List ℕ)
syscall_getcwd k buf len =
    if not buf || len == 0 || k.current == 0
    then (minus_one, none)
    else if ltb len (length (running k).cwd + 1)
    then (minus_one, none)
    else (length (running k).cwd, some (take (len - 1) (running k).cwd))
