-- ===== src/Input/Events.antt =====
-- The event devices /dev/kbd0 (kernel/src/fs/dev/dev_kbd.c) and /dev/mouse0 (dev_mouse.c): a ring
-- of 128 events each, filled by the drivers and read one event at a time.
use saynaa_os.Prelude.{ℕ, ltb, Bool, true, false, if◌then◌else◌, Option, none, some, bit_or}
use saynaa_os.Prelude.Int.{ℤ, pos, negsuc}
use saynaa_os.Ring.{Ring, push, pop}

-- `kbd_event_t`, without its padding.
pub record KbdEvent : Type 0 where
  pub keycode : ℕ
  pub pressed : ℕ
  pub repr : ℕ

-- `mouse_event_t`, without its padding.
pub record MouseEvent : Type 0 where
  pub x : ℤ
  pub y : ℤ
  pub buttons : ℕ

abbrev pub kbdq_len : ℕ
kbdq_len = 128

abbrev pub mouseq_cap : ℕ
mouseq_cap = 128

-- `sizeof(kbd_event_t)`: a `uint32_t` and three bytes, padded to a multiple of 4.
abbrev pub sizeof_kbd_event : ℕ
sizeof_kbd_event = 8

-- `sizeof(mouse_event_t)`
abbrev pub sizeof_mouse_event : ℕ
sizeof_mouse_event = 12

unfoldable pub dev_kbd_push_event : Ring KbdEvent → ℕ → Bool → ℕ → Ring KbdEvent
dev_kbd_push_event q keycode pressed repr =
    push kbdq_len q (record { keycode = keycode; pressed = if pressed then 1 else 0; repr = repr })

-- The result, the event that is copied into the buffer if one is, and the queue. `buffer` says
-- whether the pointer is not null.
unfoldable pub dev_kbd_read : Ring KbdEvent → Bool → ℕ → ℤ × Option KbdEvent × Ring KbdEvent
dev_kbd_read q false size = (negsuc 0, none, q)
dev_kbd_read q true size =
    if ltb size sizeof_kbd_event
    then (negsuc 0, none, q)
    else (let (ev, q') = pop kbdq_len q in
        elim ev [ none ↦ (pos 0, none, q') | some e ↦ (pos sizeof_kbd_event, some e, q') ])

unfoldable pub dev_kbd_write : Ring KbdEvent → ℤ × Ring KbdEvent
dev_kbd_write q = (negsuc 0, q)

-- The bits `buttons |= 0x01`, `0x02` and `0x04`.
unfoldable pub button_bits : Bool → Bool → Bool → ℕ
button_bits left right middle =
    let b0 : ℕ = if left then bit_or 0 0x01 else 0 in
    let b1 : ℕ = if right then bit_or b0 0x02 else b0 in if middle then bit_or b1 0x04 else b1

unfoldable pub dev_mouse_push_event : Ring MouseEvent → ℤ → ℤ → Bool → Bool → Bool → Ring MouseEvent
dev_mouse_push_event q x y left right middle =
    push mouseq_cap q (record { x = x; y = y; buttons = button_bits left right middle })

unfoldable pub dev_mouse0_read :
    Ring MouseEvent → Bool → ℕ → ℤ × Option MouseEvent × Ring MouseEvent
dev_mouse0_read q false size = (negsuc 0, none, q)
dev_mouse0_read q true size =
    if ltb size sizeof_mouse_event
    then (negsuc 0, none, q)
    else (let (ev, q') = pop mouseq_cap q in
        elim ev [ none ↦ (pos 0, none, q') | some e ↦ (pos sizeof_mouse_event, some e, q') ])

unfoldable pub dev_mouse0_write : Ring MouseEvent → ℤ × Ring MouseEvent
dev_mouse0_write q = (negsuc 0, q)
