-- ===== src/Pty/Endpoint.antt =====
-- The device operations of the two ends (kernel/src/fs/dev/dev_pty.c).
pub mod Invariant
use saynaa_os.Prelude.{
  ℕ, zero, suc, ◌==◌, Bool, true, false, not, ◌||◌, ◌&&◌, Option, none, some, List, [], ◌∷◌,
  if◌then◌else◌, length,
}
use saynaa_os.Prelude.Int.{ℤ, pos, negsuc}
use saynaa_os.Pty.{Pty, Termios, Winsize, fifo_read, pty_master_write_data, pty_write_output}

-- The checks before an operation: `dev` says whether the device, its endpoint and its terminal are
-- there, `buffer` whether the pointer is not null.
abbrev pub refused : (dev buffer : Bool) → ℕ → Bool
refused dev buffer size = not (dev && buffer) || size == 0

-- The result, the bytes put into the buffer, and the terminal.
unfoldable pub pty_master_read : Pty → (dev buffer : Bool) → ℕ → ℤ × List ℕ × Pty
pty_master_read p dev buffer size =
    if refused dev buffer size
    then (negsuc 0, [], p)
    else (let (xs, q) = fifo_read p.master_read size in
        (pos (length xs), xs, record p { master_read = q }))

unfoldable pub pty_slave_read : Pty → (dev buffer : Bool) → ℕ → ℤ × List ℕ × Pty
pty_slave_read p dev buffer size =
    if refused dev buffer size
    then (negsuc 0, [], p)
    else (let (xs, q) = fifo_read p.master_write size in
        (pos (length xs), xs, record p { master_write = q }))

-- The list is `buffer[0..size)`.
unfoldable pub pty_master_write : Pty → (dev buffer : Bool) → List ℕ → ℤ × Pty
pty_master_write p dev buffer xs =
    if refused dev buffer (length xs)
    then (negsuc 0, p)
    else (let (q, written) = pty_master_write_data p xs in (pos written, q))

unfoldable pub pty_slave_write : Pty → (dev buffer : Bool) → List ℕ → ℤ × Pty
pty_slave_write p dev buffer xs =
    if refused dev buffer (length xs)
    then (negsuc 0, p)
    else (pos (length xs), pty_write_output p xs)

-- What the memory behind `arg` holds, read as each of the types that a request may mean.
pub record Arg : Type 0 where
  pub termios : Termios
  pub winsize : Winsize
  pub number : ℕ

-- A request that needs its argument, with what it does: the memory behind `arg` and the terminal.
abbrev pub with_arg : Option Arg → Pty → (Arg → Arg × Pty) → ℤ × Option Arg × Pty
with_arg none p f = (negsuc 0, none, p)
with_arg (some a) p f = let (b, q) = f a in (pos 0, some b, q)

-- TCGETS, TCSETS, TCSETSW, TCSETSF, TIOCGWINSZ, TIOCSWINSZ, TIOCGPGRP, TIOCSPGRP, TIOCGPTN and
-- TIOCSPTLCK, in this order.
unfoldable pub pty_ioctl : Pty → (dev : Bool) → ℕ → Option Arg → ℤ × Option Arg × Pty
pty_ioctl p dev request arg =
    if not dev
    then (negsuc 0, arg, p)
    else if request == 0x5401
    then with_arg arg p (λ a. (record a { termios = p.term }, p))
    else if request == 0x5402 || (request == 0x5403 || request == 0x5404)
    then with_arg arg p (λ a. (a, record p { term = a.termios }))
    else if request == 0x5413
    then with_arg arg p (λ a. (record a { winsize = p.winsz }, p))
    else if request == 0x5414
    then with_arg arg p (λ a. (a, record p { winsz = a.winsize }))
    else if request == 0x540F
    then with_arg arg p (λ a. (record a { number = p.fg_pgid }, p))
    else if request == 0x5410
    then with_arg arg p (λ a. (a, record p { fg_pgid = a.number }))
    else if request == 0x80045430
    then with_arg arg p (λ a. (record a { number = p.id }, p))
    else if request == 0x40045431
    then (pos 0, arg, p)
    else (negsuc 0, arg, p)
