-- ===== src/Input/Tests.antt =====
-- Runs of the input drivers on small inputs.
use saynaa_os.Prelude.{◌+◌, ◌-◌, ◌<◌, ◌≡◌, refl, true, false, [], ◌∷◌, ◌++◌, arith}
use saynaa_os.Prelude.Int.{ℤ, pos}
use saynaa_os.Ring.{Ring}
use saynaa_os.Ring.Queue as Oldest
use saynaa_os.Ring.Contents.{contents}
use saynaa_os.Input.Keyboard.{Keyboard, ttyq_len, initial, translate_key, keyboard_handler}
use saynaa_os.Input.Keyboard.Translate.{translate_key-lt}
use saynaa_os.Input.Keyboard.Queue
use saynaa_os.Input.Keyboard.Queue.{keyboard_handler-IsValid, type, type-last}
use saynaa_os.Input.Mouse.{Mouse, delta, mouse_apply_packet, mouse_handler}
use saynaa_os.Input.Mouse.Screen
use saynaa_os.Input.Mouse.Screen.{mouse_handler-IsValid}
use saynaa_os.Input.Tty.{Tty}

-- Shift, the key `a`, and its release.
abbrev typed_a : Keyboard
typed_a = keyboard_handler (keyboard_handler (keyboard_handler initial 0x2A) 0x1E) 0x9E

typed_a-text : contents ttyq_len typed_a.tty_q ≡ b'A' ∷ []
unfolding keyboard_handler contents saynaa_os.Ring.used translate_key
    saynaa_os.Input.Keyboard.ttyq_push saynaa_os.Ring.push
typed_a-text = refl

initial-IsValid : Queue.IsValid initial
initial-IsValid = record { text = (omega arith, omega arith); events = (omega arith, omega arith) }

translate_key-lt_example : translate_key true false 0x1E < 128
translate_key-lt_example = translate_key-lt true false 0x1E

keyboard_handler-IsValid_example : Queue.IsValid (keyboard_handler initial 0x1E)
keyboard_handler-IsValid_example = keyboard_handler-IsValid initial initial-IsValid 0x1E

type-last_example :
    contents ttyq_len (type initial.tty_q (b'a' ∷ b'b' ∷ []))
    ≡ Oldest.last 255 (contents ttyq_len initial.tty_q ++ b'a' ∷ b'b' ∷ [])
type-last_example = type-last initial.tty_q (b'a' ∷ b'b' ∷ []) (omega arith, omega arith)

abbrev pointer : Mouse
pointer = record {
  packet = λ _. 0;
  packet_i = 0;
  x = pos 10;
  y = pos 10;
  left = false;
  right = false;
  middle = false;
  events = record { buf = λ _. record { x = pos 0; y = pos 0; buttons = 0 }; r = 0; w = 0 };
}

pointer-IsValid : Screen.IsValid 640 480 pointer
pointer-IsValid = record {
  index = omega arith;
  events = (omega arith, omega arith);
  x_in = omega arith;
  y_in = omega arith;
}

-- Five steps to the right with the left button down.
abbrev moved : Mouse
moved =
    mouse_handler 640 480 (mouse_handler 640 480 (mouse_handler 640 480 pointer 0x21 0x09) 0x21 5)
      0x21 0

moved-x : moved.x ≡ pos 15
unfolding mouse_handler mouse_apply_packet saynaa_os.Input.Mouse.clamp saynaa_os.Input.Mouse.int32
    saynaa_os.Prelude.Int.◌+ℤ◌ delta
moved-x = refl

mouse_handler-IsValid_example : Screen.IsValid 640 480 (mouse_handler 640 480 pointer 0x21 0x09)
mouse_handler-IsValid_example =
    mouse_handler-IsValid 640 480 (omega arith) (omega arith) (omega arith) (omega arith) pointer
      pointer-IsValid 0x21 0x09

-- A movement by -200 is read as one by 56.
delta_far : delta true 56 ≡ pos 56
unfolding delta
delta_far = refl

abbrev terminal : Tty
terminal = record { keyboard = initial; active_line = 0 }
