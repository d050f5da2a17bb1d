-- ===== src/Pty/Endpoint/Invariant.antt =====
-- The invariant of a terminal, and sequences of calls on its two ends.
use saynaa_os.Prelude.{
  ℕ, ◌<◌, ◌≡◌, refl, Bool, Bool-cases, inl, inr, Option, none, some, List, [], ◌∷◌, length, slice,
  arith,
}
use saynaa_os.Pty.{Pty, pty_line_cap}
use saynaa_os.Pty.Fifo
use saynaa_os.Pty.Fifo.{bytes, fifo_read_lem}
use saynaa_os.Pty.Discipline.{View}
use saynaa_os.Pty.Output.{Shows, pty_write_output_lem}
use saynaa_os.Pty.Line.{pty_master_write_data_refines}
use saynaa_os.Pty.Endpoint.{
  Arg, refused, pty_master_read, pty_slave_read, pty_master_write, pty_slave_write, pty_ioctl,
}

-- The indices of both queues lie in their arrays, and the line leaves one byte of its buffer free.
pub record IsValid (p : Pty) : Type 0 where
  pub master_read : Fifo.IsValid p.master_read
  pub master_write : Fifo.IsValid p.master_write
  pub line_fits : p.line_len < pty_line_cap

-- The abstract state of a terminal.
unfoldable pub view : Pty → View
view p = record {
  line = slice p.line_buf 0 p.line_len;
  ready = bytes p.master_write;
  shown = bytes p.master_read;
}

pub view-Shows : (p : Pty) → IsValid p → Shows p (view p)
unfolding view
view-Shows p v = record {
  master_read = v.master_read;
  master_write = v.master_write;
  line_fits = v.line_fits;
  line = refl;
  ready = refl;
  shown = refl;
}

Shows-IsValid : {p : Pty} {v : View} → Shows p v → IsValid p
Shows-IsValid s = record {
  master_read = s.master_read;
  master_write = s.master_write;
  line_fits = s.line_fits;
}

-- A call on one of the ends.
pub data Call : Type 0 where
  read_master read_slave : (dev buffer : Bool) → ℕ → Call
  write_master write_slave : (dev buffer : Bool) → List ℕ → Call
  control : (dev : Bool) → ℕ → Option Arg → Call

unfoldable pub call : Pty → Call → Pty
call p (read_master dev buffer size) = (pty_master_read p dev buffer size).2
call p (read_slave dev buffer size) = (pty_slave_read p dev buffer size).2
call p (write_master dev buffer xs) = (pty_master_write p dev buffer xs).1
call p (write_slave dev buffer xs) = (pty_slave_write p dev buffer xs).1
call p (control dev request arg) = (pty_ioctl p dev request arg).2

unfoldable pub calls : Pty → List Call → Pty
calls p [] = p
calls p (c ∷ cs) = calls (call p c) cs

-- `ioctl` touches neither the queues nor the line.
pub pty_ioctl_frame :
    (p : Pty) (dev : Bool) (request : ℕ) (arg : Option Arg)
    → let q = (pty_ioctl p dev request arg).2 in
      (q.master_read ≡ p.master_read)
      × (q.master_write ≡ p.master_write)
      × (q.line_buf ≡ p.line_buf)
      × (q.line_len ≡ p.line_len)
unfolding pty_ioctl
pty_ioctl_frame p dev request none = ground arith
pty_ioctl_frame p dev request (some a) = ground arith

call-IsValid : (p : Pty) (c : Call) → IsValid p → IsValid (call p c)
unfolding call pty_master_read pty_slave_read pty_master_write pty_slave_write
call-IsValid p (read_master dev buffer size) v = elim (Bool-cases (refused dev buffer size)) [
  | inl error ↦ rw (error, call) v
  | inr go ↦
      rw (go, call)
        (record {
          master_read = (fifo_read_lem size p.master_read v.master_read).0;
          master_write = v.master_write;
          line_fits = v.line_fits;
        })
]
call-IsValid p (read_slave dev buffer size) v = elim (Bool-cases (refused dev buffer size)) [
  | inl error ↦ rw (error, call) v
  | inr go ↦
      rw (go, call)
        (record {
          master_read = v.master_read;
          master_write = (fifo_read_lem size p.master_write v.master_write).0;
          line_fits = v.line_fits;
        })
]
call-IsValid p (write_master dev buffer xs) v = elim (Bool-cases (refused dev buffer (length xs))) [
  | inl error ↦ rw (error, call) v
  | inr go ↦
      rw (go, call) (Shows-IsValid (pty_master_write_data_refines xs p (view p) (view-Shows p v)).0)
]
call-IsValid p (write_slave dev buffer xs) v = elim (Bool-cases (refused dev buffer (length xs))) [
  | inl error ↦ rw (error, call) v
  | inr go ↦ rw (go, call) (Shows-IsValid (pty_write_output_lem xs p (view p) (view-Shows p v)))
]
call-IsValid p (control dev request arg) v = ground (arith, pty_ioctl_frame p dev request arg)

-- A terminal in its invariant is in it after any calls on its two ends, in any order.
pub calls-IsValid : (cs : List Call) (p : Pty) → IsValid p → IsValid (calls p cs)
unfolding calls
calls-IsValid [] p v = v
calls-IsValid (c ∷ cs) p v = calls-IsValid cs (call p c) (call-IsValid p c v)
