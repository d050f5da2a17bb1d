-- ===== src/Sys/Capture.antt =====
-- The capture of a process's output (kernel/src/sys/syscall.c and proc.c): a buffer of 4096 bytes
-- that a process shares with those it starts.
pub mod Laws
use saynaa_os.Prelude.{
  ℕ, zero, suc, ◌+◌, ◌-◌, ◌%◌, ◌==◌, ltb, Bool, true, false, not, ◌||◌, Option, none, some, List,
  [], ◌∷◌, if◌then◌else◌, Array, write,
}
use saynaa_os.Ring.{Ring, push, pop}
use saynaa_os.Sys.Process.{Process}
use saynaa_os.Sys.Kernel.{Kernel, Stdout, running, set_running, minus_one, u32, write_active}

abbrev pub capture_size : ℕ
capture_size = 4096

-- The buffer of the process that runs, 0 for none.
abbrev pub stdout_of : Kernel → ℕ
stdout_of k = if k.current == 0 then 0 else (running k).stdout

abbrev pub set_ring : Kernel → ℕ → Ring ℕ → Kernel
set_ring k a q = record k {
  outs = write k.outs a (record { refcount = (k.outs a).refcount; ring = q });
}

-- The loop of `syscall_write` over the bytes.
unfoldable pub capture : Ring ℕ → List ℕ → Ring ℕ
capture q [] = q
capture q (c ∷ cs) = capture (push capture_size q c) cs

unfoldable pub syscall_putchar : Kernel → (ebx : ℕ) → ℕ × Kernel
unfolding write_active
syscall_putchar k ebx =
    let ch : ℕ = ebx % 256 in
    if stdout_of k == 0
    then (1, (write_active k (some (ch ∷ []))).1)
    else (1, set_ring k (stdout_of k) (push capture_size (k.outs (stdout_of k)).ring ch))

-- `kmalloc` of `proc_stdout_t` gives `addr`; it aborts rather than return null.
unfoldable pub syscall_maketty : Kernel → (addr : ℕ) → ℕ × Kernel
syscall_maketty k addr =
    if k.current == 0
    then (minus_one, k)
    else if not (stdout_of k == 0)
    then (0, k)
    else (let p : Process = running k in
        let empty : Stdout = record {
          refcount = 1;
          ring = record { buf = λ _. 0; r = 0; w = 0 };
        } in
        (0, set_running (record k { outs = write k.outs addr empty }) (record p { stdout = addr })))

-- The loop of `syscall_readstdout`.
unfoldable pub drain : ℕ → Ring ℕ → List ℕ × Ring ℕ
drain zero q = ([], q)
drain (suc n) q =
    let (c, q') = pop capture_size q in
    elim c [ none ↦ ([], q') | some x ↦ (let (xs, q'') = drain n q' in (x ∷ xs, q'')) ]

-- The bytes that are stored to the buffer, whose number is the result.
unfoldable pub syscall_readstdout : Kernel → (buf : Bool) → (size : ℕ) → List ℕ × Kernel
unfolding drain
syscall_readstdout k buf size =
    if stdout_of k == 0 || not buf || size == 0
    then ([], k)
    else (let (bytes, q) = drain size (k.outs (stdout_of k)).ring in
        (bytes, set_ring k (stdout_of k) q))

unfoldable pub proc_stdout_retain : Kernel → (out : ℕ) → Kernel
proc_stdout_retain k out = if out == 0 then k else record k {
  outs =
      write k.outs out
        (record { refcount = ((k.outs out).refcount + 1) % u32; ring = (k.outs out).ring });
}

-- The Boolean says whether the buffer is given to `kfree`.
unfoldable pub proc_stdout_release : Kernel → (out : ℕ) → Bool × Kernel
proc_stdout_release k out =
    if out == 0
    then (false, k)
    else (let n : ℕ = (k.outs out).refcount - 1 in
        (
          n == 0,
          record k { outs = write k.outs out (record { refcount = n; ring = (k.outs out).ring }) },
        ))
