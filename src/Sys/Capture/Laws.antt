-- ===== src/Sys/Capture/Laws.antt =====
-- What the capture buffer holds (kernel/src/sys/syscall.c).
use saynaa_os.Prelude.{
  ℕ, zero, suc, ◌≡◌, ◌≢◌, refl, sym, ap, subst, ◌∙◌, ◌==◌, true, false, List, [], ◌∷◌, ◌++◌, arith,
  inl, inr, some, take, drop, length,
}
use saynaa_os.Ring.{Ring, push, discard}
use saynaa_os.Ring.Contents
use saynaa_os.Ring.Contents.{contents, used-lt, length-contents, discard-IsValid}
use saynaa_os.Ring.Queue
use saynaa_os.Ring.Overwrite.{push-IsValid, push_refines, pop-cases}
use saynaa_os.Ring.History.{push_all-last}
use saynaa_os.Fs.Vfs.{VfsFileOps}
use saynaa_os.Sys.Kernel.{Kernel}
use saynaa_os.Sys.Capture.{capture_size, stdout_of, capture, drain, syscall_readstdout, set_ring}
use saynaa_os.Sys.Files.{syscall_write}

-- Both indices of a capture buffer lie in it.
abbrev pub IsCapture : Ring ℕ → Type 0
IsCapture q = Contents.IsValid capture_size q

capture-push_all :
    (bytes : List ℕ) (q : Ring ℕ)
    → IsCapture q
    → (contents capture_size (capture q bytes)
        ≡ Queue.push_all 4095 (contents capture_size q) bytes)
      × IsCapture (capture q bytes)
unfolding capture Queue.push_all
capture-push_all [] q v = (refl, v)
capture-push_all (c ∷ cs) q v =
    let (is, v') = capture-push_all cs (push capture_size q c) (push-IsValid capture_size q v c) in
    (is ∙ ap (λ l. Queue.push_all 4095 l cs) (push_refines capture_size q v (omega arith) c), v')

-- The buffer keeps the newest 4095 bytes.
pub capture_lem :
    (bytes : List ℕ) (q : Ring ℕ)
    → IsCapture q
    → (contents capture_size (capture q bytes) ≡ Queue.last 4095 (contents capture_size q ++ bytes))
      × IsCapture (capture q bytes)
capture_lem bytes q v =
    let (is, v') = capture-push_all bytes q v in
    (
      is
          ∙ push_all-last 4095 bytes (contents capture_size q) (omega arith)
              (omega (arith, length-contents capture_size q v, used-lt capture_size q v)),
      v',
    )

pub drain_lem :
    (n : ℕ) (q : Ring ℕ)
    → IsCapture q
    → ((drain n q).0 ≡ take n (contents capture_size q))
      × (contents capture_size (drain n q).1 ≡ drop n (contents capture_size q))
      × IsCapture (drain n q).1
unfolding drain
drain_lem zero q v = (refl, refl, v)
drain_lem (suc n) q v = elim (pop-cases capture_size q v) [
  | inl (nothing, e) ↦ rw (e, drain, e, nothing) (refl, refl, v)
  | inr (more, e) ↦
      let (bytes, rest, v') =
        drain_lem n (discard capture_size q) (discard-IsValid capture_size q v) in
      rw (e, drain, e, more) (ap (λ xs. q.buf q.r ∷ xs) bytes, rest, v')
]

ring-set_ring : (k : Kernel) (a : ℕ) (q : Ring ℕ) → ((set_ring k a q).outs a).ring ≡ q
ring-set_ring k a q = let self : (a == a) ≡ true = ground arith in rw self refl

syscall_write_captured :
    (ops : VfsFileOps ℕ) (length_of : ℕ → ℕ) (k : Kernel) (bytes : List ℕ)
    → stdout_of k ≢ 0
    → bytes ≢ []
    → syscall_write ops length_of k 1 (some bytes)
      ≡ (length bytes, set_ring k (stdout_of k) (capture (k.outs (stdout_of k)).ring bytes))
unfolding syscall_write
syscall_write_captured ops length_of k [] ne some_bytes = absurd (some_bytes refl)
syscall_write_captured ops length_of k (b ∷ bs) ne some_bytes =
    let out_is : (stdout_of k == 0) ≡ false = ground arith in
    let bytes_is : (length (b ∷ bs) == 0) ≡ false = ground arith in rw (bytes_is, out_is) refl

syscall_readstdout_captured :
    (k : Kernel) (size : ℕ)
    → stdout_of k ≢ 0
    → size ≢ 0
    → syscall_readstdout k true size ≡ (
      (drain size (k.outs (stdout_of k)).ring).0,
      set_ring k (stdout_of k) (drain size (k.outs (stdout_of k)).ring).1,
    )
unfolding syscall_readstdout
syscall_readstdout_captured k size ne size_ne =
    let out_is : (stdout_of k == 0) ≡ false = ground arith in
    let size_is : (size == 0) ≡ false = ground arith in rw (out_is, size_is) refl

-- When a process with a capture buffer, whose indices lie in it, writes bytes, at least one, to
-- descriptor 1 and then reads the buffer with a size that is not 0, the read returns the oldest of
-- the newest 4095 bytes, as many as it asks for or as there are, and the rest stay in the buffer.
pub syscall_readstdout-syscall_write :
    (ops : VfsFileOps ℕ) (length_of : ℕ → ℕ) (k : Kernel) (bytes : List ℕ) (size : ℕ)
    → stdout_of k ≢ 0
    → IsCapture (k.outs (stdout_of k)).ring
    → bytes ≢ []
    → size ≢ 0
    → let before : List ℕ = contents capture_size (k.outs (stdout_of k)).ring in
      let kept : List ℕ = Queue.last 4095 (before ++ bytes) in
      let (written, k') = syscall_write ops length_of k 1 (some bytes) in
      let (read, k'') = syscall_readstdout k' true size in
      (written ≡ length bytes)
      × (read ≡ take size kept)
      × (contents capture_size (k''.outs (stdout_of k)).ring ≡ drop size kept)
      × IsCapture (k''.outs (stdout_of k)).ring
syscall_readstdout-syscall_write ops length_of k bytes size ne v some_bytes size_ne =
    let a : ℕ = stdout_of k in
    let q : Ring ℕ = (k.outs a).ring in
    let (is, v') = capture_lem bytes q v in
    let (got, rest, v'') = drain_lem size (capture q bytes) v' in
    let k' : Kernel = set_ring k a (capture q bytes) in
    let stored : (k'.outs a).ring ≡ capture q bytes = ring-set_ring k a (capture q bytes) in
    let written : syscall_write ops length_of k 1 (some bytes) ≡ (length bytes, k') =
      syscall_write_captured ops length_of k bytes ne some_bytes in
    let read : syscall_readstdout k' true size
        ≡ ((drain size (capture q bytes)).0, set_ring k' a (drain size (capture q bytes)).1) =
      syscall_readstdout_captured k' size ne size_ne
      ∙ ap (λ r. ((drain size r).0, set_ring k' a (drain size r).1)) stored in
    let left : ((set_ring k' a (drain size (capture q bytes)).1).outs a).ring
        ≡ (drain size (capture q bytes)).1 =
      ring-set_ring k' a (drain size (capture q bytes)).1 in
    (
      ap (λ x. x.0) written,
      ap (λ x. (syscall_readstdout x.1 true size).0) written
          ∙ (ap (λ x. x.0) read ∙ (got ∙ ap (take size) is)),
      ap (λ x. contents capture_size ((syscall_readstdout x.1 true size).1.outs a).ring) written
          ∙ (ap (λ x. contents capture_size (x.1.outs a).ring) read
              ∙ (ap (contents capture_size) left ∙ (rest ∙ ap (drop size) is))),
      subst (λ x. IsCapture ((syscall_readstdout x.1 true size).1.outs a).ring) (sym written)
          (subst (λ x. IsCapture (x.1.outs a).ring) (sym read) (subst IsCapture (sym left) v'')),
    )
