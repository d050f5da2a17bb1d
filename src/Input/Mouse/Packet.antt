-- ===== src/Input/Mouse/Packet.antt =====
-- How bytes become packets, and what a movement byte stands for.
use saynaa_os.Prelude.{
  ℕ, ◌<◌, ◌≤◌, ◌≡◌, ◌↔◌, ◌⊎◌, refl, Bool, true, false, arith, write, has, if◌then◌else◌,
}
use saynaa_os.Prelude.Int.{ℤ, pos, sub_ℕ}
use saynaa_os.Input.Mouse.{Mouse, delta, mouse_apply_packet, mouse_handler}

-- The protocol's reading of a movement: nine bits in two's complement, the sign in the flags.
unfoldable nine_bit : (negative : Bool) → ℕ → ℤ
nine_bit negative b = if negative then sub_ℕ b 256 else pos b

-- The driver reads a movement byte as the protocol means it exactly if the movement is not
-- negative or the byte is at least 128, that is, except for negative movements by more than 128
-- steps.
delta-nine_bit_iff :
    (negative : Bool) (b : ℕ)
    → b < 256
    → (delta negative b ≡ nine_bit negative b) ↔ ((negative ≡ false) ⊎ (128 ≤ b))
unfolding delta nine_bit
delta-nine_bit_iff negative b h = (ground arith, ground arith)

module _ (width height : ℕ) (m : Mouse) (b : ℕ) where
  -- The status with its bits for "data is there" and "from the mouse".
  abbrev step : Mouse
  step = mouse_handler width height m 0x21 b

  first_byte :
      m.packet_i ≡ 0
      → has b 0x08 ≡ true
      → step ≡ record m { packet = write m.packet 0 b; packet_i = 1 }
  unfolding mouse_handler
  first_byte start marked = ground arith

  second_byte : m.packet_i ≡ 1 → step ≡ record m { packet = write m.packet 1 b; packet_i = 2 }
  unfolding mouse_handler
  second_byte at = ground arith

  third_byte :
      m.packet_i ≡ 2
      → step
        ≡ mouse_apply_packet width height (record m { packet = write m.packet 2 b; packet_i = 0 })
  unfolding mouse_handler
  third_byte at = ground arith

-- From a packet's boundary, a first byte with its marker bit and two more bytes of any value are one
-- packet, which is applied; the driver is at a boundary again.
mouse_handler_packet :
    (width height : ℕ) (m : Mouse) (b0 b1 b2 : ℕ)
    → m.packet_i ≡ 0
    → has b0 0x08 ≡ true
    → step width height (step width height (step width height m b0) b1) b2
      ≡ mouse_apply_packet width height
          (record m { packet = write (write (write m.packet 0 b0) 1 b1) 2 b2; packet_i = 0 })
mouse_handler_packet width height m b0 b1 b2 start marked =
    rw (first_byte width height m b0 start marked) (
      rw
        (second_byte width height (record m { packet = write m.packet 0 b0; packet_i = 1 }) b1 refl)
        (third_byte width height
          (record m { packet = write (write m.packet 0 b0) 1 b1; packet_i = 2 }) b2 refl))

-- Between packets a byte without the marker bit is dropped, as is any byte that is not the mouse's.
pub mouse_handler_resync :
    (width height : ℕ) (m : Mouse) (status b : ℕ)
    → (has status 0x20 ≡ false) ⊎ ((m.packet_i ≡ 0) × (has b 0x08 ≡ false))
    → mouse_handler width height m status b ≡ m
unfolding mouse_handler
mouse_handler_resync width height m status b h = ground arith
