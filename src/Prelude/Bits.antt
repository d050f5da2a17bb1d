-- ===== src/Prelude/Bits.antt =====
-- Binary digits: what the native bit operations do to each digit of their arguments.
use Prim.Native.Nat.{
  ℕ, zero, suc, ◌/◌, ◌%◌, ◌^◌, ◌≤◌, ◌<◌, min, max, bit_and, bit_or, bit_xor, digits, differ,
  bit_and-bitwise, bit_or-bitwise, bit_xor-bitwise,
}
use mathlib.Core.Path.{◌≡◌, refl, ap, ◌∙◌}
use mathlib.Core.Bool.{true, false}
use native.Mathlib.Omega.{arith}
use native.Mathlib.Nat.{pow-suc}
use mathlib.Core.Logic.{inl, inr}
use saynaa_os.Prelude.Tests.{
  ◌==◌, ==_iff, if◌then◌else◌, Bool-cases, has, all_below, all_below-true,
}

-- Digit `j`, the lowest being digit 0.
unfoldable pub dig : ℕ → ℕ → ℕ
dig w zero = w % 2
dig w (suc j) = dig (w / 2) j

pub dig-lt : (w j : ℕ) → dig w j < 2
unfolding dig
dig-lt w zero = omega arith
dig-lt w (suc j) = dig-lt (w / 2) j

pub zero-dig : (j : ℕ) → dig 0 j ≡ 0
unfolding dig
zero-dig zero = refl
zero-dig (suc j) = zero-dig j

module _ (z : ℕ → ℕ) (f : ℕ → ℕ → ℕ) (small : (x y : ℕ) → x < 2 → y < 2 → f x y < 2)
    (rest : (b j : ℕ) → dig (z b) j ≡ f 0 (dig b j)) where
  dig-digits : (n a b j : ℕ) → a ≤ n → dig (digits z f n a b) j ≡ f (dig a j) (dig b j)
  unfolding dig
  dig-digits zero zero b j h = rw (zero-dig j) (rest b j)
  dig-digits zero (suc a) b j h = absurd (omega arith)
  dig-digits (suc n) zero b j h = rw (zero-dig j) (rest b j)
  dig-digits (suc n) (suc a) b zero h =
      omega (arith, small (suc a % 2) (b % 2) (omega arith) (omega arith))
  dig-digits (suc n) (suc a) b (suc j) h =
      ap (λ k. dig k j) {y = digits z f n (suc a / 2) (b / 2)}
        (omega (arith, small (suc a % 2) (b % 2) (omega arith) (omega arith)))
      ∙ dig-digits n (suc a / 2) (b / 2) j (omega arith)

pub dig-bit_and : (a b j : ℕ) → dig (bit_and a b) j ≡ min (dig a j) (dig b j)
dig-bit_and a b j =
    ap (λ k. dig k j) (bit_and-bitwise a b)
    ∙ dig-digits (λ b. zero) min (λ x y h k. omega arith) (λ b j. omega (arith, zero-dig j)) a a b j
        (omega arith)

pub dig-bit_or : (a b j : ℕ) → dig (bit_or a b) j ≡ max (dig a j) (dig b j)
dig-bit_or a b j =
    ap (λ k. dig k j) (bit_or-bitwise a b)
    ∙ dig-digits (λ b. b) max (λ x y h k. omega arith) (λ b j. omega arith) a a b j (omega arith)

differ-lt : (x y : ℕ) → x < 2 → y < 2 → differ x y < 2
differ-lt zero y h k = k
differ-lt (suc x) zero h k = h
differ-lt (suc zero) (suc zero) h k = omega arith
differ-lt (suc zero) (suc (suc y)) h k = absurd (omega arith)
differ-lt (suc (suc x)) (suc y) h k = absurd (omega arith)

pub dig-bit_xor : (a b j : ℕ) → dig (bit_xor a b) j ≡ differ (dig a j) (dig b j)
dig-bit_xor a b j =
    ap (λ k. dig k j) (bit_xor-bitwise a b)
    ∙ dig-digits (λ b. b) differ differ-lt (λ b j. refl) a a b j (omega arith)

pub dig-pow : (i j : ℕ) → dig (2 ^ i) j ≡ (if i == j then 1 else 0)
unfolding dig
dig-pow zero zero = refl
dig-pow zero (suc j) = zero-dig j ∙ ground arith
dig-pow (suc i) zero = grind (arith, pow-suc 2 i)
dig-pow (suc i) (suc j) =
    ap (λ k. dig k j) {y = 2 ^ i} (omega (arith, pow-suc 2 i)) ∙ (dig-pow i j ∙ ground arith)

zero_of_digits : (m n : ℕ) → n ≤ m → ((j : ℕ) → dig n j ≡ 0) → n ≡ 0
unfolding dig
zero_of_digits m zero h all = refl
zero_of_digits zero (suc n) h all = absurd (omega arith)
zero_of_digits (suc m) (suc n) h all =
    omega (arith, zero_of_digits m (suc n / 2) (omega arith) (λ j. all (suc j)), all 0)

-- A test of one bit reads that digit.
pub has-pow : (w j : ℕ) → has w (2 ^ j) ≡ (dig w j == 1)
has-pow w j = elim (Bool-cases (dig w j == 1)) [
  | inl one ↦
      let e : dig (bit_and w (2 ^ j)) j ≡ 1 =
        ground (arith, dig-bit_and w (2 ^ j) j, dig-pow j j) in
      ground (arith, ap (λ k. dig k j) {x = bit_and w (2 ^ j)} {y = 0}, zero-dig j)
  | inr other ↦
      let gone : bit_and w (2 ^ j) ≡ 0 =
        zero_of_digits (bit_and w (2 ^ j)) (bit_and w (2 ^ j)) (omega arith)
          (λ k. ground (arith, dig-bit_and w (2 ^ j) k, dig-pow j k, dig-lt w j)) in
      rw (gone, other) refl
]

-- `1 << n` and `~(1 << n)` on 32 bits, and the tests behind them.
abbrev pub nthbit : ℕ → ℕ
nthbit n = 2 ^ n

abbrev pub ones : ℕ
ones = 0xFFFF_FFFF

ones_table : all_below 32 (λ j. dig ones j == 1) ≡ true
unfolding all_below dig
ones_table = refl

pub dig-ones : (j : ℕ) → j < 32 → dig ones j ≡ 1
dig-ones j h = (==_iff (dig ones j) 1).0 (all_below-true 32 (λ k. dig ones k == 1) j ones_table h)

pub has-bit_or :
    (w i j : ℕ) → has (bit_or w (nthbit i)) (nthbit j) ≡ (if i == j then true else has w (nthbit j))
has-bit_or w i j =
    rw (has-pow (bit_or w (nthbit i)) j, has-pow w j, dig-bit_or w (nthbit i) j, dig-pow i j)
      (ground (arith, dig-lt w j))

pub has-bit_and_not :
    (w i j : ℕ)
    → j < 32
    → has (bit_and w (bit_xor ones (nthbit i))) (nthbit j)
      ≡ (if i == j then false else has w (nthbit j))
has-bit_and_not w i j h =
    rw
      (
        has-pow (bit_and w (bit_xor ones (nthbit i))) j,
        has-pow w j,
        dig-bit_and w (bit_xor ones (nthbit i)) j,
        dig-bit_xor ones (nthbit i) j,
        dig-ones j h,
        dig-pow i j,
      )
      (ground (arith, dig-lt w j))
