-- ===== src/Input/Keyboard.antt =====
-- The PS/2 keyboard driver (kernel/src/drivers/keyboard.c) with the character classes of
-- libraries/libc/src/ctype that it calls. A character is its code; the ones that occur are ASCII.
pub mod Handler
pub mod Translate
pub mod Queue
use saynaa_os.Prelude.{
  ℕ, zero, suc, ◌+◌, ◌-◌, ◌%◌, ◌≤◌, ◌<◌, ◌==◌, ltb, leb, Bool, true, false, not, ◌&&◌, ◌||◌,
  if◌then◌else◌, Option, none, some, List, [], ◌∷◌, get_or, bit_and,
}
use mathlib.Core.Bool.{xor}
use saynaa_os.Prelude.Int.{ℤ, pos, negsuc}
use saynaa_os.Ring.{Ring, push, pop}
use saynaa_os.Input.Events.{KbdEvent, dev_kbd_push_event}

unfoldable pub isalpha : ℕ → Bool
isalpha c = (leb b'A' c && leb c b'Z') || (leb b'a' c && leb c b'z')

unfoldable pub tolower : ℕ → ℕ
tolower c = if leb b'A' c && leb c b'Z' then c + 32 else c

unfoldable pub toupper : ℕ → ℕ
toupper c = if leb b'a' c && leb c b'z' then c - 32 else c

-- `g_scancode_map`; the entries from 0x3B on are 0.
abbrev pub scancode_map : List ℕ
scancode_map =
    0 ∷ 27 ∷ b'1' ∷ b'2' ∷ b'3' ∷ b'4' ∷ b'5' ∷ b'6' ∷ b'7' ∷ b'8' ∷ b'9' ∷ b'0' ∷ b'-' ∷ b'=' ∷ 8
    ∷ 9 ∷ b'q' ∷ b'w' ∷ b'e' ∷ b'r' ∷ b't' ∷ b'y' ∷ b'u' ∷ b'i' ∷ b'o' ∷ b'p' ∷ b'[' ∷ b']' ∷ 10 ∷ 0
    ∷ b'a' ∷ b's' ∷ b'd' ∷ b'f' ∷ b'g' ∷ b'h' ∷ b'j' ∷ b'k' ∷ b'l' ∷ 59 ∷ 39 ∷ b'`' ∷ 0 ∷ 92 ∷ b'z'
    ∷ b'x' ∷ b'c' ∷ b'v' ∷ b'b' ∷ b'n' ∷ b'm' ∷ b',' ∷ b'.' ∷ b'/' ∷ 0 ∷ b'*' ∷ 0 ∷ b' ' ∷ []

-- The cases of the `switch` in `shift_char`, with 92 the backslash, 39 the quote, 34 the double
-- quote and 59 the semicolon.
abbrev pub shift_table : List (ℕ × ℕ)
shift_table =
    (b'1', b'!')
    ∷ (b'2', b'@')
    ∷ (b'3', b'#')
    ∷ (b'4', b'$')
    ∷ (b'5', b'%')
    ∷ (b'6', b'^')
    ∷ (b'7', b'&')
    ∷ (b'8', b'*')
    ∷ (b'9', b'(')
    ∷ (b'0', b')')
    ∷ (b'-', b'_')
    ∷ (b'=', b'+')
    ∷ (b'[', b'{')
    ∷ (b']', b'}')
    ∷ (92, b'|')
    ∷ (59, b':')
    ∷ (39, 34)
    ∷ (b',', b'<')
    ∷ (b'.', b'>')
    ∷ (b'/', b'?')
    ∷ (b'`', b'~')
    ∷ []

pub switch : List (ℕ × ℕ) → ℕ → ℕ
switch [] c = c
switch ((key, value) ∷ rest) c = if c == key then value else switch rest c

unfoldable pub shift_char : ℕ → ℕ
unfolding switch
shift_char c = switch shift_table c

unfoldable pub translate_key : (caps shift : Bool) → ℕ → ℕ
unfolding isalpha tolower toupper shift_char xor
translate_key caps shift sc =
    if leb 128 sc
    then 0
    else (let c : ℕ = get_or scancode_map sc 0 in
        if c == 0
        then 0
        else if isalpha c
        then (if xor caps shift then toupper c else tolower c)
        else if shift
        then shift_char c
        else c)

-- The driver's static variables, and the queue of /dev/kbd0 that its handler fills.
pub record Keyboard : Type 0 where
  pub tty_q : Ring ℕ
  pub tty_input_enabled : Bool
  pub shift : Bool
  pub caps : Bool
  pub e0 : Bool
  pub events : Ring KbdEvent

abbrev pub ttyq_len : ℕ
ttyq_len = 256

unfoldable pub ttyq_push : Ring ℕ → ℕ → Ring ℕ
ttyq_push q c = push ttyq_len q c

unfoldable pub ttyq_pop : Ring ℕ → Option ℕ × Ring ℕ
ttyq_pop q = pop ttyq_len q

-- The last part of the handler: `ch` goes to the text queue, if that is enabled, and to /dev/kbd0.
unfoldable pub deliver : Keyboard → ℕ → ℕ → Keyboard
deliver k code ch = if ch == 0 then k else record k {
  tty_q = if k.tty_input_enabled then ttyq_push k.tty_q ch else k.tty_q;
  events = dev_kbd_push_event k.events code true ch;
}

-- `keyboard_handler`, on the byte `sc` that the port delivers.
unfoldable pub keyboard_handler : Keyboard → ℕ → Keyboard
unfolding deliver
keyboard_handler k sc =
    let released : Bool = not (bit_and sc 0x80 == 0) in
    let code : ℕ = bit_and sc 0x7F in
    if sc == 0xE0
    then record k { e0 = true }
    else if k.e0
    then record k { e0 = false }
    else if code == 0x2A || code == 0x36
    then record k { shift = not released }
    else if released
    then k
    else if code == 0x3A
    then record k { caps = not k.caps }
    else deliver k code (translate_key k.caps k.shift code)

unfoldable pub keyboard_set_tty_input : Keyboard → Bool → Keyboard
keyboard_set_tty_input k enabled = record k { tty_input_enabled = enabled }

-- `while (n < sz && ttyq_pop(&c)) buf[n++] = c`: the bytes read and the queue that is left.
unfoldable pub pop_up_to : ℕ → Ring ℕ → List ℕ × Ring ℕ
pop_up_to zero q = ([], q)
pop_up_to (suc n) q =
    let (c, q') = ttyq_pop q in
    elim c [ none ↦ ([], q') | some x ↦ (let (xs, q'') = pop_up_to n q' in (x ∷ xs, q'')) ]

-- `none` stands for the result -1; otherwise the result is the number of bytes.
unfoldable pub keyboard_read : Keyboard → Bool → ℕ → Option (List ℕ) × Keyboard
unfolding pop_up_to
keyboard_read k buf sz =
    if not buf || sz == 0
    then (none, k)
    else (let (xs, q) = pop_up_to sz k.tty_q in (some xs, record k { tty_q = q }))

-- `out` says whether the pointer is not null.
unfoldable pub kb_try_getchar : Keyboard → Bool → Option ℕ × Keyboard
kb_try_getchar k out =
    if not out then (none, k) else (let (c, q) = ttyq_pop k.tty_q in (c, record k { tty_q = q }))

-- `init_keyboard` leaves the static variables as they are; this is what they start as.
abbrev pub initial : Keyboard
initial = record {
  tty_q = record { buf = λ _. 0; r = 0; w = 0 };
  tty_input_enabled = true;
  shift = false;
  caps = false;
  e0 = false;
  events = record { buf = λ _. record { keycode = 0; pressed = 0; repr = 0 }; r = 0; w = 0 };
}
