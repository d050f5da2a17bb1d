-- ===== src/Ring.antt =====
-- Circular buffers with a read index `r` and a write index `w`, one slot kept free. The kernel has
-- them as the keyboard's text queue (kernel/src/drivers/keyboard.c), the event queues of
-- kernel/src/fs/dev/dev_kbd.c and dev_mouse.c, and the byte queues of dev_pty.c and dev_wm.c.
-- What they share stands here, over the capacity `cap`; the drivers instantiate it.
pub mod Contents
pub mod Queue
pub mod Overwrite
pub mod History
use saynaa_os.Prelude.{
  ℕ, ◌+◌, ◌-◌, ◌%◌, ◌<◌, ◌==◌, leb, if◌then◌else◌, Option, none, some, Array, write,
}

pub record Ring (A : Type 0) : Type 0 where
  pub buf : Array A
  pub r : ℕ
  pub w : ℕ

module _ {A : Type 0} (cap : ℕ) where
  -- The number of elements stored.
  unfoldable pub used : Ring A → ℕ
  used q = if leb q.r q.w then q.w - q.r else cap - q.r + q.w

  -- `q[w] = x; w = (w + 1) % cap`
  abbrev pub put : Ring A → A → Ring A
  put q x = record q { buf = write q.buf q.w x; w = (q.w + 1) % cap }

  -- `r = (r + 1) % cap`
  abbrev pub discard : Ring A → Ring A
  discard q = record q { r = (q.r + 1) % cap }

  -- A push that makes room, when there is none, by dropping the oldest element.
  unfoldable pub push : Ring A → A → Ring A
  push q x = put (if (q.w + 1) % cap == q.r then discard q else q) x

  -- `none` if the ring is empty.
  unfoldable pub pop : Ring A → Option A × Ring A
  pop q = if q.r == q.w then (none, q) else (some (q.buf q.r), discard q)
