-- ===== src/Libc/Div64/Signed.antt =====
-- Signed 64-bit division (libraries/libc/src/stdlib/div64.c), on the words of the numbers.
use saynaa_os.Prelude.{
  ℕ, ◌-◌, ◌/◌, ◌%◌, ◌^◌, ◌<◌, ◌≤◌, ◌≡◌, ◌≢◌, ◌⊎◌, inl, inr, refl, ◌==◌, leb, Bool, true, false, not,
  ◌&&◌, if◌then◌else◌, arith,
}
use native.Mathlib.Nat.{div-le_self}
use saynaa_os.Libc.Div64.{u64, udivdi3, umoddi3, udivdi3-umoddi3}

-- `x < 0`, and `-x`
abbrev pub negative64 : ℕ → Bool
negative64 x = leb (2 ^ 63) x

abbrev pub negate64 : ℕ → ℕ
negate64 x = (u64 - x) % u64

abbrev pub magnitude : ℕ → ℕ
magnitude x = if negative64 x then negate64 x else x

unfoldable pub with_sign : Bool → ℕ → ℕ
with_sign sign x = if sign then negate64 x else x

abbrev pub signs_differ : Bool → Bool → Bool
signs_differ a b = if a then not b else b

unfoldable pub divdi3 : ℕ → ℕ → ℕ
unfolding udivdi3 with_sign
divdi3 a b =
    with_sign (signs_differ (negative64 a) (negative64 b)) (udivdi3 (magnitude a) (magnitude b))

unfoldable pub moddi3 : ℕ → ℕ → ℕ
unfolding umoddi3 with_sign
moddi3 a b = with_sign (negative64 a) (umoddi3 (magnitude a) (magnitude b))

magnitude_lem : (x : ℕ) → x < u64 → (magnitude x ≤ 2 ^ 63) × (x ≢ 0 → magnitude x ≢ 0)
magnitude_lem x h = ground arith

with_sign_lem :
    (sign : Bool) (x : ℕ)
    → x ≤ 2 ^ 63
    → (sign ≡ false → x ≢ 2 ^ 63)
    → (magnitude (with_sign sign x) ≡ x) × (negative64 (with_sign sign x) ≡ (sign && not (x == 0)))
unfolding with_sign
with_sign_lem true x h fits = ground arith
with_sign_lem false x h fits = ground (arith, fits refl)

-- A quotient is only too large if the divisor is 1 and the number the largest in size.
quotient_large : (x y : ℕ) → x ≤ 2 ^ 63 → y ≢ 0 → x / y ≡ 2 ^ 63 → (x ≡ 2 ^ 63) × (y ≡ 1)
quotient_large x y h ne e = grind arith

remainder_small : (x y : ℕ) → 0 < y → x % y < y
remainder_small x y pos = grind arith

fits_sign :
    (a b : ℕ)
    → a < u64
    → b < u64
    → (a ≢ 2 ^ 63) ⊎ (b ≢ u64 - 1)
    → signs_differ (negative64 a) (negative64 b) ≡ false
    → magnitude a ≡ 2 ^ 63
    → magnitude b ≢ 1
fits_sign a b ha hb other same large one = elim other [
  | inl ne ↦ ne (ground arith)
  | inr ne ↦ ne (ground arith)
]

-- For all signed 64-bit numbers and every divisor but 0, save the least number and the divisor -1:
-- the quotient and the remainder are those of the magnitudes; the quotient is negative when the signs
-- differ and it is not 0, and the remainder when the number is negative and it is not 0.
pub divdi3-moddi3 :
    (a b : ℕ)
    → a < u64
    → b < u64
    → b ≢ 0
    → (a ≢ 2 ^ 63) ⊎ (b ≢ u64 - 1)
    → (magnitude (divdi3 a b) ≡ magnitude a / magnitude b)
      × (negative64 (divdi3 a b)
          ≡ (signs_differ (negative64 a) (negative64 b) && not (magnitude a / magnitude b == 0)))
      × (magnitude (moddi3 a b) ≡ magnitude a % magnitude b)
      × (negative64 (moddi3 a b) ≡ (negative64 a && not (magnitude a % magnitude b == 0)))
unfolding divdi3 moddi3
divdi3-moddi3 a b ha hb ne other =
    let (big, some_a) = magnitude_lem a ha in
    let (big_b, some_b) = magnitude_lem b hb in
    let pos : 0 < magnitude b = omega (arith, some_b ne) in
    let (q, r) = udivdi3-umoddi3 (magnitude a) (magnitude b) (omega (arith, big)) pos in
    let low : magnitude a / magnitude b ≤ magnitude a = div-le_self (magnitude a) (magnitude b) in
    let (m1, s1) =
      with_sign_lem (signs_differ (negative64 a) (negative64 b)) (magnitude a / magnitude b)
        (omega (arith, big, low))
        (λ same e.
          let (la, lb) = quotient_large (magnitude a) (magnitude b) big (some_b ne) e in
          fits_sign a b ha hb other same la lb) in
    let below : magnitude a % magnitude b < magnitude b =
      remainder_small (magnitude a) (magnitude b) pos in
    let (m2, s2) =
      with_sign_lem (negative64 a) (magnitude a % magnitude b) (omega (arith, below, big_b))
        (λ same e. absurd (omega (arith, below, big_b, e))) in
    (rw q m1, rw q s1, rw r m2, rw r s2)
