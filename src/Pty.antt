-- ===== src/Pty.antt =====
-- Pseudo terminals (kernel/src/fs/dev/dev_pty.c): the byte queues, the line discipline between the
-- master and the slave end, and `ioctl`. The table of terminals stands in `Pty.Table`.
pub mod Fifo
pub mod Discipline
pub mod Output
pub mod Line
pub mod Endpoint
pub mod Table
mod Tests
use saynaa_os.Prelude.{
  ℕ, zero, suc, ◌+◌, ◌-◌, ◌%◌, ◌<◌, ◌≤◌, ◌==◌, ltb, leb, has, Bool, true, false, not, ◌&&◌, ◌||◌,
  Option, none, some, List, [], ◌∷◌, if◌then◌else◌, Array, write, slice, bit_and, bit_or,
}
use saynaa_os.Ring.{Ring, used, put, discard}

-- The flags of libraries/libc/include/termios.h that the driver reads.
abbrev pub istrip : ℕ
istrip = 0o40

abbrev pub inlcr : ℕ
inlcr = 0o100

abbrev pub igncr : ℕ
igncr = 0o200

abbrev pub icrnl : ℕ
icrnl = 0o400

abbrev pub onlcr : ℕ
onlcr = 0o4

abbrev pub ocrnl : ℕ
ocrnl = 0o10

abbrev pub onlret : ℕ
onlret = 0o40

abbrev pub isig : ℕ
isig = 0o1

abbrev pub icanon : ℕ
icanon = 0o2

abbrev pub echo : ℕ
echo = 0o10

-- `\n`, `\r` and `\b`
abbrev pub nl : ℕ
nl = 10

abbrev pub cr : ℕ
cr = 13

abbrev pub bs : ℕ
bs = 8

abbrev pub verase : ℕ
verase = 2

-- `struct termios`
pub record Termios : Type 0 where
  pub c_iflag : ℕ
  pub c_oflag : ℕ
  pub c_cflag : ℕ
  pub c_lflag : ℕ
  pub c_line : ℕ
  pub c_cc : Array ℕ
  pub c_ispeed : ℕ
  pub c_ospeed : ℕ

-- `struct winsize`
pub record Winsize : Type 0 where
  pub ws_row : ℕ
  pub ws_col : ℕ
  pub ws_xpixel : ℕ
  pub ws_ypixel : ℕ

abbrev pub pty_buf_cap : ℕ
pty_buf_cap = 4096

abbrev pub pty_line_cap : ℕ
pty_line_cap = 4096

-- `pty_state_t`; the two devices are known by the identity `id`. `fg_pgid` is the bit pattern of
-- its `int32_t`.
pub record Pty : Type 0 where
  pub id : ℕ
  pub term : Termios
  pub winsz : Winsize
  pub master_read : Ring ℕ
  pub master_write : Ring ℕ
  pub line_buf : Array ℕ
  pub line_len : ℕ
  pub fg_pgid : ℕ

unfoldable pub fifo_count : Ring ℕ → ℕ
fifo_count q = used pty_buf_cap q

unfoldable pub fifo_free : Ring ℕ → ℕ
fifo_free q = pty_buf_cap - fifo_count q - 1

-- The list is `data[0..size)`.
unfoldable pub fifo_write : Ring ℕ → List ℕ → ℕ × Ring ℕ
fifo_write q [] = (0, q)
fifo_write q (x ∷ xs) =
    let rest : ℕ × Ring ℕ = fifo_write (put pty_buf_cap q x) xs in
    if ltb 0 (fifo_free q) then (rest.0 + 1, rest.1) else (0, q)

unfoldable pub fifo_read : Ring ℕ → ℕ → List ℕ × Ring ℕ
fifo_read q zero = ([], q)
fifo_read q (suc n) =
    let rest : List ℕ × Ring ℕ = fifo_read (discard pty_buf_cap q) n in
    if ltb 0 (fifo_count q) then (q.buf q.r ∷ rest.0, rest.1) else ([], q)

unfoldable pub default_termios : Termios
default_termios = record {
  c_iflag = bit_or 0 icrnl;
  c_oflag = bit_or 0 onlcr;
  c_cflag = 0;
  c_lflag = bit_or 0 (bit_or (bit_or echo icanon) isig);
  c_line = 0;
  c_cc = write (write (write (write (write (write (λ _. 0) 6 1) 5 0) 0 3) 10 26) 1 28) verase 127;
  c_ispeed = 0;
  c_ospeed = 0;
}

unfoldable pub default_winsize : Winsize
default_winsize = record { ws_col = 80; ws_row = 25; ws_xpixel = 0; ws_ypixel = 0 }

-- `none` if the character is dropped.
unfoldable pub pty_translate_input : Termios → ℕ → Option ℕ
pty_translate_input t c =
    let ch : ℕ = if has t.c_iflag istrip then bit_and c 0x7F else c in
    if ch == cr
    then (if has t.c_iflag igncr then none else if has t.c_iflag icrnl then some nl else some ch)
    else if ch == nl
    then (if has t.c_iflag inlcr then some cr else some ch)
    else some ch

-- `fifo_write(&pty->master_read, …)`
abbrev pub to_master : Pty → List ℕ → Pty
to_master p xs = record p { master_read = (fifo_write p.master_read xs).1 }

-- `fifo_write(&pty->master_write, …)`
abbrev pub to_slave : Pty → List ℕ → Pty
to_slave p xs = record p { master_write = (fifo_write p.master_write xs).1 }

-- One round of the loop in `pty_write_output`.
unfoldable pub output_char : Pty → ℕ → Pty
output_char p c =
    if c == cr && has p.term.c_oflag ocrnl
    then to_master p (nl ∷ [])
    else if c == cr && has p.term.c_oflag onlret
    then p
    else if c == nl && has p.term.c_oflag onlcr
    then to_master (to_master p (cr ∷ [])) (c ∷ [])
    else to_master p (c ∷ [])

unfoldable pub pty_write_output : Pty → List ℕ → Pty
unfolding output_char
pty_write_output p [] = p
pty_write_output p (c ∷ cs) = pty_write_output (output_char p c) cs

unfoldable pub pty_echo_char : Pty → ℕ → Pty
pty_echo_char p c = if not (has p.term.c_lflag echo) then p else pty_write_output p (c ∷ [])

unfoldable pub pty_echo_backspace : Pty → Pty
pty_echo_backspace p =
    if not (has p.term.c_lflag echo) then p else pty_write_output p (bs ∷ b' ' ∷ bs ∷ [])

unfoldable pub pty_commit_line : Pty → Pty
pty_commit_line p =
    if p.line_len == 0
    then to_slave p (nl ∷ [])
    else (let p' : Pty = to_slave (to_slave p (slice p.line_buf 0 p.line_len)) (nl ∷ []) in
        record p' { line_len = 0 })

-- A translated character of the master, and whether it counts as written.
unfoldable pub accept : Pty → ℕ → Pty × ℕ
accept p c =
    if has p.term.c_lflag icanon
    then (if c == p.term.c_cc verase || c == bs
        then (if ltb 0 p.line_len
            then (pty_echo_backspace (record p { line_len = p.line_len - 1 }), 0)
            else (p, 0))
        else if c == nl
        then (pty_echo_char (pty_commit_line p) c, 1)
        else if ltb p.line_len (pty_line_cap - 1)
        then (
          pty_echo_char
              (record p { line_buf = write p.line_buf p.line_len c; line_len = p.line_len + 1 }) c,
          1,
        )
        else (p, 0))
    else (pty_echo_char (to_slave p (c ∷ [])) c, 1)

-- One round of the loop in `pty_master_write_data`.
unfoldable pub master_char : Pty → ℕ → Pty × ℕ
master_char p c = elim (pty_translate_input p.term c) [ none ↦ (p, 0) | some ch ↦ accept p ch ]

unfoldable pub pty_master_write_data : Pty → List ℕ → Pty × ℕ
unfolding master_char
pty_master_write_data p [] = (p, 0)
pty_master_write_data p (c ∷ cs) =
    let rest : Pty × ℕ = pty_master_write_data (master_char p c).0 cs in
    (rest.0, (master_char p c).1 + rest.1)
