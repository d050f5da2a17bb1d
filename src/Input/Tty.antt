-- ===== src/Input/Tty.antt =====
-- The terminals (kernel/src/fs/dev/dev_tty.c): four lines and an alias for the active one. Reads
-- drain the keyboard's text queue. What is written goes to the frame buffer's console, which is
-- not modelled.
use saynaa_os.Prelude.{
  ℕ, ◌<◌, ◌≡◌, ◌≢◌, ◌==◌, leb, Bool, true, not, ◌||◌, Option, none, some, List, if◌then◌else◌,
  arith, take, drop,
}
use saynaa_os.Ring.Contents.{contents}
use saynaa_os.Input.Keyboard.{Keyboard, ttyq_len, pop_up_to}
use saynaa_os.Input.Keyboard.Queue.{IsValid, pop_up_to_lem}

-- `tty_binding_t`
pub record TtyBinding : Type 0 where
  pub line : ℕ
  pub use_active : Bool

-- The keyboard, and `g_active_line`.
pub record Tty : Type 0 where
  pub keyboard : Keyboard
  pub active_line : ℕ

abbrev pub virtual_consoles : ℕ
virtual_consoles = 4

-- `none` is the null pointer.
unfoldable pub tty_binding_line : Tty → Option TtyBinding → ℕ
tty_binding_line t none = 0
tty_binding_line t (some b) = if b.use_active then t.active_line else b.line

unfoldable pub ttydev_set_active_line : Tty → ℕ → Tty
ttydev_set_active_line t line = record t {
  active_line = if leb virtual_consoles line then 0 else line;
}

-- `none` stands for the result -1. The line and the offset are unused.
unfoldable pub ttydev_read_line : Tty → ℕ → (buffer : Bool) → ℕ → Option (List ℕ) × Tty
unfolding pop_up_to
ttydev_read_line t line buffer size =
    if not buffer || size == 0
    then (none, t)
    else (let (xs, q) = pop_up_to size t.keyboard.tty_q in
        let k : Keyboard = t.keyboard in (some xs, record t { keyboard = record k { tty_q = q } }))

unfoldable pub tty_device_read :
    Tty → Option TtyBinding → (buffer : Bool) → ℕ → Option (List ℕ) × Tty
unfolding ttydev_read_line
tty_device_read t binding buffer size = ttydev_read_line t (tty_binding_line t binding) buffer size

unfoldable pub ttydev_read_active : Tty → (buffer : Bool) → ℕ → Option (List ℕ) × Tty
unfolding ttydev_read_line
ttydev_read_active t buffer size = ttydev_read_line t t.active_line buffer size

-- Each device of `init_dev_tty` names a line that exists, whatever line has been made active.
pub tty_binding_line-lt :
    (t : Tty) (line : ℕ) (b : TtyBinding)
    → b.line < virtual_consoles
    → tty_binding_line (ttydev_set_active_line t line) (some b) < virtual_consoles
unfolding tty_binding_line ttydev_set_active_line
tty_binding_line-lt t line b h = ground arith

-- Every terminal drains the one text queue, if the keyboard is in its invariant: reads through
-- any two devices, one after the other and of sizes that are not 0, get consecutive pieces of it,
-- and leave what follows them.
tty_device_read_twice :
    (t : Tty) (a b : Option TtyBinding) (n m : ℕ)
    → IsValid t.keyboard
    → n ≢ 0
    → m ≢ 0
    → let text : List ℕ = contents ttyq_len t.keyboard.tty_q in
      let (first, t') = tty_device_read t a true n in
      let (second, t'') = tty_device_read t' b true m in
      (first ≡ some (take n text))
      × (second ≡ some (take m (drop n text)))
      × (contents ttyq_len t''.keyboard.tty_q ≡ drop m (drop n text))
unfolding tty_device_read
tty_device_read_twice t a b n m v hn hm = ground (
  arith,
  pop_up_to_lem n t.keyboard.tty_q v.text,
  pop_up_to_lem m (pop_up_to n t.keyboard.tty_q).1,
)
