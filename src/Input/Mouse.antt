-- ===== src/Input/Mouse.antt =====
-- The PS/2 mouse driver (kernel/src/drivers/mouse.c): three-byte packets become pointer moves and
-- events. What the two ports and `get_fb` return is an argument. Coordinates are 32-bit integers, and
-- the sizes of the screen 32-bit words: sums wrap round, and a word is read as a signed number where
-- the code does so.
pub mod Packet
pub mod Screen
use saynaa_os.Prelude.{
  ℕ, ◌+◌, ◌-◌, ◌%◌, ◌^◌, ◌==◌, ltb, Bool, not, ◌&&◌, ◌||◌, if◌then◌else◌, Array, write, has,
}
use saynaa_os.Prelude.Int.{ℤ, pos, negsuc, ◌+ℤ◌, ◌-ℤ◌, ltb_ℤ}
use saynaa_os.Ring.{Ring}
use saynaa_os.Input.Events.{MouseEvent, dev_mouse_push_event}

-- The driver's static variables, and the queue of /dev/mouse0 that it fills.
pub record Mouse : Type 0 where
  pub packet : Array ℕ
  pub packet_i : ℕ
  pub x : ℤ
  pub y : ℤ
  pub left : Bool
  pub right : Bool
  pub middle : Bool
  pub events : Ring MouseEvent

-- `(int32_t) ((int8_t) b)` of a byte.
abbrev pub signed8 : ℕ → ℤ
signed8 b = if ltb b 128 then pos b else negsuc (255 - b)

-- The movement along one axis.
unfoldable pub delta : (negative : Bool) → ℕ → ℤ
delta negative b = if negative then signed8 b else pos b

-- `(int32_t) w` of a 32-bit word.
unfoldable pub signed32 : ℕ → ℤ
signed32 w = if ltb w (2 ^ 31) then pos w else negsuc (2 ^ 32 - 1 - w)

-- The 32-bit word of an integer, and the integer that is stored.
abbrev pub low_word : ℤ → ℕ
low_word (pos n) = n % 2 ^ 32
low_word (negsuc n) = 2 ^ 32 - 1 - n % 2 ^ 32

unfoldable pub int32 : ℤ → ℤ
unfolding signed32
int32 v = signed32 (low_word v)

-- `if (v < 0) v = 0; if (v >= (int32_t) size) v = size - 1`, where the difference is one of 32-bit
-- words; the code makes the four tests in another order, but those of one axis do not read the
-- other.
unfoldable pub clamp : ℤ → ℕ → ℤ
unfolding signed32
clamp v size =
    let low : ℤ = if ltb_ℤ v (pos 0) then pos 0 else v in
    if ltb_ℤ low (signed32 size) then low else signed32 ((size + 2 ^ 32 - 1) % 2 ^ 32)

unfoldable pub mouse_apply_packet : (width height : ℕ) → Mouse → Mouse
mouse_apply_packet width height m =
    let flags : ℕ = m.packet 0 in
    if not (has flags 0x08)
    then m
    else if has flags 0xC0
    then m
    else (let x : ℤ = int32 (m.x +ℤ delta (has flags 0x10) (m.packet 1)) in
        let y : ℤ = int32 (m.y -ℤ delta (has flags 0x20) (m.packet 2)) in
        if width == 0 || height == 0 then record m { x = x; y = y } else record m {
          x = clamp x width;
          y = clamp y height;
          left = has flags 0x01;
          right = has flags 0x02;
          middle = has flags 0x04;
          events =
              dev_mouse_push_event m.events (clamp x width) (clamp y height) (has flags 0x01)
                (has flags 0x02) (has flags 0x04);
        })

-- `mouse_handler`, where the status port reads `status` and the data port `byte`.
unfoldable pub mouse_handler : (width height : ℕ) → Mouse → (status byte : ℕ) → Mouse
mouse_handler width height m status byte =
    if not (has status 0x20)
    then m
    else if m.packet_i == 0 && not (has byte 0x08)
    then m
    else (let m' : Mouse = record m {
      packet = write m.packet m.packet_i byte;
      packet_i = m.packet_i + 1;
    } in
        if m'.packet_i == 3
        then mouse_apply_packet width height (record m' { packet_i = 0 })
        else m')
