-- ===== src/Sys/Paths/Laws.antt =====
-- The working directory (kernel/src/sys/syscall.c).
use saynaa_os.Prelude.{
  ℕ, zero, suc, ◌+◌, ◌-◌, ◌<◌, ◌≤◌, ◌≡◌, ◌≢◌, refl, sym, ap, subst, ◌∙◌, ◌==◌, ltb, true, false,
  not, Bool-cases, Option-cases, inl, inr, ◌⊎◌, Option, none, some, List, [], ◌∷◌, if◌then◌else◌,
  length, take, arith,
}
use saynaa_os.Fs.Vfs.{VfsFileOps, vfs_lookup}
use saynaa_os.Libc.Pathutil.Bounds.{IsCanonicalPath, make_abs_path-IsCanonicalPath}
use saynaa_os.Sys.Process.{Process}
use saynaa_os.Sys.Kernel.{Kernel, minus_one, running, set_running}
use saynaa_os.Sys.Paths.{path_size, resolve_user_path, is_dir, syscall_chdir, syscall_getcwd}

pub resolve_user_path-IsCanonicalPath :
    (k : Kernel) (path : List ℕ)
    → k.current ≢ 0
    → IsCanonicalPath (running k).cwd
    → (q : List ℕ) × (resolve_user_path k (some path) path_size ≡ some q) × IsCanonicalPath q
unfolding resolve_user_path
resolve_user_path-IsCanonicalPath k path ne v =
    let (q, e, c) = make_abs_path-IsCanonicalPath (running k).cwd path v.absolute in
    let running_is : (k.current == 0) ≡ false = ground arith in (q, rw running_is e, c)

take_all : (n : ℕ) (l : List ℕ) → length l ≤ n → take n l ≡ l
take_all zero [] h = refl
take_all zero (c ∷ l) h = absurd (omega arith)
take_all (suc n) [] h = refl
take_all (suc n) (c ∷ l) h = ap (λ m. c ∷ m) (take_all n l (omega arith))

syscall_getcwd_lem :
    (k : Kernel) (q : List ℕ) (len : ℕ)
    → k.current ≢ 0
    → (running k).cwd ≡ q
    → length q < len
    → syscall_getcwd k true len ≡ (length q, some q)
unfolding syscall_getcwd
syscall_getcwd_lem k q len ne is fits =
    let running_is : (k.current == 0) ≡ false = ground arith in
    let len_is : (len == 0) ≡ false = ground arith in
    let room : ltb len (length q + 1) ≡ false = ground arith in
    rw (running_is, len_is, is, room)
      (ap (λ l. (length q, some l)) (take_all (len - 1) q (omega arith)))

-- In a process that runs and whose directory is canonical, `chdir` either fails and changes
-- nothing, or finds a directory under the canonical form of the path and makes that form the
-- working directory, which is canonical again and which `getcwd` returns to every buffer that has
-- room for it.
pub syscall_getcwd-syscall_chdir :
    (ops : VfsFileOps ℕ) (flags_of length_of : ℕ → ℕ) (k : Kernel) (path : List ℕ)
    → k.current ≢ 0
    → IsCanonicalPath (running k).cwd
    → (syscall_chdir ops flags_of length_of k (some path) ≡ (minus_one, k))
      ⊎ ((q : List ℕ) × (node : ℕ) × (k' : Kernel) × (resolve_user_path k (some path) path_size
            ≡ some q)
          × (vfs_lookup ops k.vfs (some q) ≡ some node)
          × (is_dir ops flags_of length_of node ≡ true)
          × (syscall_chdir ops flags_of length_of k (some path) ≡ (0, k'))
          × IsCanonicalPath (running k').cwd
          × ((len : ℕ) → length q < len → syscall_getcwd k' true len ≡ (length q, some q)))
unfolding syscall_chdir
syscall_getcwd-syscall_chdir ops flags_of length_of k path ne v =
    let (q, e, c) = resolve_user_path-IsCanonicalPath k path ne v in
    let at : syscall_chdir ops flags_of length_of k (some path) ≡ by_path (some q) = ap by_path e in
    elim (Option-cases (vfs_lookup ops k.vfs (some q))) [
      | inl nothing ↦ inl (at ∙ ap (by_node q) nothing)
      | inr (node, found) ↦ elim (Bool-cases (is_dir ops flags_of length_of node)) [
        | inr file ↦ inl (at ∙ ap (by_node q) found ∙ (rw file refl))
        | inl dir ↦
            let p : Process = running k in
            let k' : Kernel = set_running k (record p { cwd = take 255 q }) in
            let self : (k.current == k.current) ≡ true = ground arith in
            let now : (running k').cwd ≡ q = rw self (take_all 255 q c.short) in
            inr (
              q,
              node,
              k',
              e,
              found,
              dir,
              at ∙ ap (by_node q) found ∙ (rw dir refl),
              subst IsCanonicalPath (sym now) c,
              λ len fits. syscall_getcwd_lem k' q len ne now fits,
            )
      ]
    ]
  where
    by_node : List ℕ → Option ℕ → ℕ × Kernel
    by_node q o = elim o [
      | none ↦ (minus_one, k)
      | some node ↦
          if not (is_dir ops flags_of length_of node)
          then (minus_one, k)
          else (let p : Process = running k in (0, set_running k (record p { cwd = take 255 q })))
    ]

    by_path : Option (List ℕ) → ℕ × Kernel
    by_path o = elim o [
      | none ↦ (minus_one, k)
      | some q ↦ by_node q (vfs_lookup ops k.vfs (some q))
    ]
