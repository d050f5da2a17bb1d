-- ===== src/Input/Mouse/Screen.antt =====
-- The driver's invariant: the pointer stays on the screen.
use saynaa_os.Prelude.{
  ℕ, ◌+◌, ◌-◌, ◌%◌, ◌^◌, ◌<◌, ◌≡◌, refl, ◌==◌, ◌&&◌, false, not, arith, write, has, if◌then◌else◌,
  Bool-cases, inl, inr,
}
use saynaa_os.Prelude.Int.{ℤ, pos, negsuc, ltb_ℤ}
use saynaa_os.Ring.Contents
use saynaa_os.Ring.Overwrite.{push-IsValid}
use saynaa_os.Input.Events.{mouseq_cap, dev_mouse_push_event}
use saynaa_os.Input.Mouse.{Mouse, signed32, clamp, mouse_apply_packet, mouse_handler}

-- `0 <= v < size`
abbrev pub Within : ℕ → ℤ → Type 0
Within size (pos n) = n < size
Within size (negsuc n) = ⊥

pub record IsValid (width height : ℕ) (m : Mouse) : Type 0 where
  pub index : m.packet_i < 3
  pub events : Contents.IsValid mouseq_cap m.events
  pub x_in : Within width m.x
  pub y_in : Within height m.y

signed32_small : (w : ℕ) → w < 2 ^ 31 → signed32 w ≡ pos w
unfolding signed32
signed32_small w h = ground arith

clamp-Within : (v : ℤ) (size : ℕ) → 0 < size → size < 2 ^ 31 → Within size (clamp v size)
clamp-Within v size h small = rw is_clamped (by_sign v)
  where
    column : signed32 ((size + 2 ^ 32 - 1) % 2 ^ 32) ≡ pos (size - 1)
    column =
        let word : (size + 2 ^ 32 - 1) % 2 ^ 32 ≡ size - 1 = omega arith in
        rw word (signed32_small (size - 1) (omega arith))

    is_clamped : clamp v size ≡ (
        let low : ℤ = if ltb_ℤ v (pos 0) then pos 0 else v in
        if ltb_ℤ low (pos size) then low else pos (size - 1))
    is_clamped = unfold clamp in rw (signed32_small size small, column) refl

    by_sign :
        (v : ℤ)
        → Within size (
            let low : ℤ = if ltb_ℤ v (pos 0) then pos 0 else v in
            if ltb_ℤ low (pos size) then low else pos (size - 1))
    by_sign (pos n) = ground arith
    by_sign (negsuc n) = ground arith

module _ (width height : ℕ) (wide : 0 < width) (narrow : width < 2 ^ 31) (high : 0 < height)
    (low : height < 2 ^ 31) (m : Mouse) (v : IsValid width height m) where
  apply-IsValid : IsValid width height (mouse_apply_packet width height m)
  unfolding mouse_apply_packet dev_mouse_push_event
  apply-IsValid = elim (Bool-cases (has (m.packet 0) 0x08)) [
    | inr bad ↦ rw bad v
    | inl good ↦ elim (Bool-cases (has (m.packet 0) 0xC0)) [
      | inl over ↦ rw (good, over) v
      | inr fits ↦
          let e1 : (width == 0) ≡ false = ground arith in
          let e2 : (height == 0) ≡ false = ground arith in
          rw (good, fits, e1, e2)
            (record {
              index = v.index;
              events = push-IsValid mouseq_cap m.events v.events _;
              x_in = clamp-Within _ width wide narrow;
              y_in = clamp-Within _ height high low;
            })
    ]
  ]

module _ (width height : ℕ) (wide : 0 < width) (narrow : width < 2 ^ 31) (high : 0 < height)
    (low : height < 2 ^ 31) (m : Mouse) (v : IsValid width height m) where
  -- On a screen that is not empty, with fewer than 2 ^ 31 columns and rows, a pointer on it and valid
  -- indices of the packet and the queue stay so over any interrupt.
  pub mouse_handler-IsValid :
      (status byte : ℕ) → IsValid width height (mouse_handler width height m status byte)
  unfolding mouse_handler
  mouse_handler-IsValid status byte = elim (Bool-cases (has status 0x20)) [
    | inr other ↦ rw other v
    | inl mine ↦ elim (Bool-cases (m.packet_i == 0 && not (has byte 0x08))) [
      | inl resync ↦ rw (mine, resync) v
      | inr taken ↦ elim (Bool-cases (m.packet_i + 1 == 3)) [
        | inl last ↦
            rw (mine, taken, last)
              (apply-IsValid width height wide narrow high low
                (record m { packet = write m.packet m.packet_i byte; packet_i = 0 })
                (record { index = omega arith; events = v.events; x_in = v.x_in; y_in = v.y_in }))
        | inr more ↦
            rw (mine, taken, more)
              (record { index = ground arith; events = v.events; x_in = v.x_in; y_in = v.y_in })
      ]
    ]
  ]
