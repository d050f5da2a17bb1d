-- ===== src/Fs/Vfs.antt =====
-- The virtual file system (kernel/src/fs/vfs.c). A node's operations are what its driver put into
-- its `ops`; they are parameters, with `none` for a null pointer.
pub mod Segments
pub mod Walk
use saynaa_os.Prelude.{
  ℕ, zero, suc, ◌+◌, ◌==◌, leb, Bool, true, false, Option, none, some, List, [], ◌∷◌, ◌++◌,
  if◌then◌else◌, length,
}
use saynaa_os.Prelude.Int.{ℤ, negsuc}
use saynaa_os.Libc.Strings.{same}

abbrev pub slash : ℕ
slash = b'/'

-- `vfs_file_ops_t`: what each node offers. A read gives its result and the bytes.
pub record VfsFileOps (N : Type 0) : Type 0 where
  pub read : N → Option (ℕ → ℕ → ℤ × List ℕ)
  pub write : N → Option (ℕ → List ℕ → ℤ)
  pub ioctl : N → Option (ℕ → ℤ)
  pub readdir : N → Option (ℕ → ℤ × Option (List ℕ))
  pub finddir : N → Option (List ℕ → Option N)

-- `vfs_fs_ops_t`; an image is known by its address.
pub record FsDriver (N : Type 0) : Type 0 where
  pub name : Option (List ℕ)
  pub mount : Option (ℕ → ℕ → Option N)

-- The static variables; the registry in the order of registration.
pub record Vfs (N : Type 0) : Type 0 where
  pub fs : List (List ℕ × (ℕ → ℕ → Option N))
  pub root : Option N

abbrev pub vfs_max_fs : ℕ
vfs_max_fs = 8

-- `while (*p == '/') p++`
unfoldable pub skip : List ℕ → List ℕ
skip [] = []
skip (c ∷ cs) = if c == slash then skip cs else c ∷ cs

-- The inner loop of `vfs_walk`: the characters copied into `segment`, at most `n`, and the rest.
unfoldable pub segment : ℕ → List ℕ → List ℕ × List ℕ
segment zero p = ([], p)
segment (suc n) [] = ([], [])
segment (suc n) (c ∷ cs) =
    let (seg, rest) = segment n cs in if c == slash then ([], c ∷ cs) else (c ∷ seg, rest)

module _ {N : Type 0} (ops : VfsFileOps N) where
  unfoldable pub vfs_init : Vfs N
  vfs_init = record { fs = []; root = none }

  unfoldable pub register : Vfs N → List ℕ → (ℕ → ℕ → Option N) → Bool × Vfs N
  register v name mount =
      if leb vfs_max_fs (length v.fs)
      then (false, v)
      else (true, record v { fs = v.fs ++ (name, mount) ∷ [] })

  -- `none` is the null pointer.
  unfoldable pub vfs_register_fs : Vfs N → Option (FsDriver N) → Bool × Vfs N
  unfolding register
  vfs_register_fs v none = (false, v)
  vfs_register_fs v (some d) = elim d.name [
    | none ↦ (false, v)
    | some name ↦ elim d.mount [ none ↦ (false, v) | some mount ↦ register v name mount ]
  ]

  unfoldable pub find_mount : List (List ℕ × (ℕ → ℕ → Option N)) → List ℕ → ℕ → ℕ → Option N
  find_mount [] fs_name image size = none
  find_mount ((name, mount) ∷ fs) fs_name image size =
      if same fs_name name then mount image size else find_mount fs fs_name image size

  unfoldable pub vfs_mount : Vfs N → Option (List ℕ) → ℕ → ℕ → Option N
  unfolding find_mount
  vfs_mount v none image size = none
  vfs_mount v (some fs_name) image size = find_mount v.fs fs_name image size

  unfoldable pub vfs_set_root : Vfs N → Option N → Bool × Vfs N
  vfs_set_root v none = (false, v)
  vfs_set_root v (some n) = (true, record v { root = some n })

  -- `current->ops.finddir(current, segment)`, or null without that operation.
  unfoldable pub descend : N → List ℕ → Option N
  descend current seg = elim (ops.finddir current) [ none ↦ none | some find ↦ find seg ]

  -- The outer loop of `vfs_walk`; `none` means that the fuel ran out.
  unfoldable pub walk_loop : ℕ → N → List ℕ → Option (Option N)
  walk_loop zero current p = none
  walk_loop (suc fuel) current [] = some (some current)
  walk_loop (suc fuel) current (c ∷ cs) =
      let (seg, rest) = segment 63 (c ∷ cs) in
      elim (descend current seg) [ none ↦ some none | some next ↦ walk_loop fuel next (skip rest) ]

  -- Each round takes a character at least, so that as many rounds as there are characters, and the
  -- last test, are enough. The outer `none` still means that the fuel ran out, and the inner one is
  -- the null pointer.
  unfoldable pub vfs_walk : N → List ℕ → Option (Option N)
  vfs_walk start path = walk_loop (length path + 1) start (skip path)

  -- The walk ends (Fs.Vfs.Walk), so that the first case of its result does not occur.
  unfoldable pub lookup_from : Vfs N → List ℕ → Option N
  lookup_from v [] = v.root
  lookup_from v (c ∷ cs) =
      if c == slash
      then elim v.root [
        | none ↦ none
        | some r ↦ elim (vfs_walk r (c ∷ cs)) [ none ↦ none | some found ↦ found ]
      ]
      else none

  unfoldable pub vfs_lookup : Vfs N → Option (List ℕ) → Option N
  unfolding lookup_from
  vfs_lookup v none = v.root
  vfs_lookup v (some path) = lookup_from v path

  unfoldable pub vfs_read : Option N → ℕ → ℕ → ℤ × List ℕ
  vfs_read none offset size = (negsuc 0, [])
  vfs_read (some n) offset size = elim (ops.read n) [
    | none ↦ (negsuc 0, [])
    | some read ↦ read offset size
  ]

  unfoldable pub vfs_write : Option N → ℕ → List ℕ → ℤ
  vfs_write none offset buffer = negsuc 0
  vfs_write (some n) offset buffer = elim (ops.write n) [
    | none ↦ negsuc 0
    | some write ↦ write offset buffer
  ]

  unfoldable pub vfs_ioctl : Option N → ℕ → ℤ
  vfs_ioctl none request = negsuc 0
  vfs_ioctl (some n) request = elim (ops.ioctl n) [ none ↦ negsuc 0 | some ioctl ↦ ioctl request ]

  unfoldable pub vfs_readdir : Option N → ℕ → ℤ × Option (List ℕ)
  vfs_readdir none index = (negsuc 0, none)
  vfs_readdir (some n) index = elim (ops.readdir n) [
    | none ↦ (negsuc 0, none)
    | some readdir ↦ readdir index
  ]

  unfoldable pub vfs_pread : Vfs N → Option (List ℕ) → ℕ → ℕ → ℤ × List ℕ
  unfolding vfs_lookup vfs_read
  vfs_pread v path offset size = vfs_read (vfs_lookup v path) offset size

  unfoldable pub vfs_pwrite : Vfs N → Option (List ℕ) → ℕ → List ℕ → ℤ
  unfolding vfs_lookup vfs_write
  vfs_pwrite v path offset buffer = vfs_write (vfs_lookup v path) offset buffer
