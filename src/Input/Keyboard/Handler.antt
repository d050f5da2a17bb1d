-- ===== src/Input/Keyboard/Handler.antt =====
-- The keyboard's interrupt handler as a state machine.
use saynaa_os.Prelude.{
  ℕ, ◌≡◌, ◌≢◌, ◌⊎◌, inl, inr, refl, Bool-cases, true, false, ◌==◌, arith, if◌then◌else◌, bit_and,
}
use saynaa_os.Input.Events.{dev_kbd_push_event}
use saynaa_os.Input.Keyboard.{Keyboard, ttyq_push, deliver, keyboard_handler, translate_key}

-- An extended key, the prefix 0xE0 and one more byte that is not the prefix again, leaves the
-- whole driver as it was, unless a prefix was pending.
keyboard_handler_extended :
    (k : Keyboard) (sc : ℕ)
    → k.e0 ≡ false
    → sc ≢ 0xE0
    → keyboard_handler (keyboard_handler k 0xE0) sc ≡ k
unfolding keyboard_handler
keyboard_handler_extended k sc e ne = ground arith

-- An interrupt leaves both queues alone or is a delivery.
handler-cases :
    (k : Keyboard) (sc : ℕ)
    → let k' = keyboard_handler k sc in
      ((k'.tty_q ≡ k.tty_q) × (k'.events ≡ k.events))
      ⊎ (k' ≡ deliver k (bit_and sc 0x7F) (translate_key k.caps k.shift (bit_and sc 0x7F)))
unfolding keyboard_handler
handler-cases k sc = ground arith

-- What became of the two queues between `k` and `k'`, at the key `code`.
abbrev Fed : Keyboard → ℕ → Keyboard → Type 0
Fed k code k' =
    ((k'.tty_q ≡ k.tty_q) × (k'.events ≡ k.events))
    ⊎ ((ch : ℕ) × (ch ≢ 0)
        × (k'.tty_q ≡ (if k.tty_input_enabled then ttyq_push k.tty_q ch else k.tty_q))
        × (k'.events ≡ dev_kbd_push_event k.events code true ch))

deliver-Fed : (k : Keyboard) (code ch : ℕ) → Fed k code (deliver k code ch)
unfolding deliver
deliver-Fed k code ch = elim (Bool-cases (ch == 0)) [
  | inl nothing ↦ inl (rw nothing (refl, refl))
  | inr char ↦ inr (ch, ground arith, rw char refl, rw char refl)
]

-- One interrupt leaves both queues alone, or appends one and the same character to both: to the
-- text queue only if that is enabled, and to the events as a press of the key.
keyboard_handler-Fed : (k : Keyboard) (sc : ℕ) → Fed k (bit_and sc 0x7F) (keyboard_handler k sc)
keyboard_handler-Fed k sc = elim (handler-cases k sc) [
  | inl same ↦ inl same
  | inr e ↦ rw e (deliver-Fed k (bit_and sc 0x7F) (translate_key k.caps k.shift (bit_and sc 0x7F)))
]

-- A press of either shift key turns shift on, and its release turns it off, with no other effect.
pub shift_press_release :
    (k : Keyboard)
    → k.e0 ≡ false
    → (keyboard_handler k 0x2A ≡ record k { shift = true })
      × (keyboard_handler k 0x36 ≡ record k { shift = true })
      × (keyboard_handler (keyboard_handler k 0x2A) 0xAA ≡ record k { shift = false })
      × (keyboard_handler (keyboard_handler k 0x36) 0xB6 ≡ record k { shift = false })
unfolding keyboard_handler
shift_press_release k e = ground arith

-- A second press of caps lock takes the first one back.
caps_twice : (k : Keyboard) → k.e0 ≡ false → keyboard_handler (keyboard_handler k 0x3A) 0x3A ≡ k
unfolding keyboard_handler
caps_twice k e = ground arith
