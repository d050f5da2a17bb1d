-- ===== src/Libc/Div64.antt =====
-- 64-bit division by shifts (libraries/libc/src/stdlib/div64.c).
pub mod Signed
use saynaa_os.Prelude.{
  ℕ, zero, suc, ◌+◌, ◌-◌, ◌*◌, ◌/◌, ◌%◌, ◌^◌, ◌<◌, ◌≤◌, ◌≡◌, refl, sym, ap, ap₂, ◌∙◌, ltb, ltb→lt,
  Bool, Bool-cases, inl, inr, if◌then◌else◌, arith,
}
use native.Mathlib.Nat.{
  pow-suc, div-div-eq-div-mul, mul-add-div, mul-add-mod_self_left, div-eq_of_lt, mod-eq_of_lt,
  div-le_self, div-one, mul_assoc, mul_comm, mul-add, add-mul,
}

abbrev pub u64 : ℕ
u64 = 2 ^ 64

-- `(r << 1) | ((n >> i) & 1)`; the bit that the shift leaves clear is added.
unfoldable pub shifted : (n r i : ℕ) → ℕ
shifted n r i = r * 2 % u64 + n / 2 ^ i % 2

-- The loop of `__udivdi3` from bit `k - 1` down to bit 0: the quotient and the remainder. Bit `i` of
-- the quotient is clear before it is set.
unfoldable pub div_loop : (n d q r k : ℕ) → ℕ × ℕ
unfolding shifted
div_loop n d q r zero = (q, r)
div_loop n d q r (suc i) =
    let r' : ℕ = shifted n r i in
    let less : Bool = ltb r' d in
    div_loop n d (if less then q else q + 2 ^ i) (if less then r' else r' - d) i

unfoldable pub udivdi3 : ℕ → ℕ → ℕ
udivdi3 n d = (div_loop n d 0 0 64).0

-- The loop of `__umoddi3`, which is the same without the quotient.
unfoldable pub mod_loop : (n d r k : ℕ) → ℕ
unfolding shifted
mod_loop n d r zero = r
mod_loop n d r (suc i) =
    let r' : ℕ = shifted n r i in mod_loop n d (if ltb r' d then r' else r' - d) i

unfoldable pub umoddi3 : ℕ → ℕ → ℕ
umoddi3 n d = mod_loop n d 0 64

mod_loop-div_loop : (k n d q r : ℕ) → mod_loop n d r k ≡ (div_loop n d q r k).1
unfolding mod_loop div_loop
mod_loop-div_loop zero n d q r = refl
mod_loop-div_loop (suc i) n d q r = mod_loop-div_loop i n d _ _

twice : (d q : ℕ) → d * (q * 2) ≡ d * q * 2
twice d q = sym (mul_assoc d q 2)

twice_one : (d q : ℕ) → d * (q * 2 + 1) ≡ d * q * 2 + d
twice_one d q = mul-add d (q * 2) 1 ∙ omega (arith, twice d q)

shift_up : (q i : ℕ) → q * 2 ^ suc i ≡ q * 2 * 2 ^ i
shift_up q i = ap (λ x. q * x) (pow-suc 2 i ∙ mul_comm (2 ^ i) 2) ∙ sym (mul_assoc q 2 (2 ^ i))

shift_up_one : (q i : ℕ) → q * 2 ^ suc i + 2 ^ i ≡ (q * 2 + 1) * 2 ^ i
shift_up_one q i = omega (arith, shift_up q i, add-mul (q * 2) 1 (2 ^ i))

module _ (n d : ℕ) (pos : 0 < d) where
  unique : (q r : ℕ) → n ≡ d * q + r → r < d → (q ≡ n / d) × (r ≡ n % d)
  unique q r e h = (
    omega (arith, ap (λ x. x / d) e, mul-add-div pos q r, div-eq_of_lt h),
    omega (arith, ap (λ x. x % d) e, mul-add-mod_self_left d q r, mod-eq_of_lt h),
  )

  halved : (i : ℕ) → n / 2 ^ i / 2 ≡ n / 2 ^ suc i
  halved i = div-div-eq-div-mul n (2 ^ i) 2 ∙ ap (λ x. n / x) (sym (pow-suc 2 i))

  -- Before bit `k - 1` the upper bits of `n` are divided, with the quotient in the upper bits of `q`.
  div_loop_lem :
      (k q r : ℕ)
      → n < u64
      → n / 2 ^ k ≡ d * q + r
      → r < d
      → div_loop n d (q * 2 ^ k) r k ≡ (n / d, n % d)
  unfolding div_loop
  div_loop_lem zero q r small e h =
      let (a, b) = unique q r (sym (div-one n) ∙ e) h in ap₂ (λ x y. (x, y)) (omega (arith, a)) b
  div_loop_lem (suc i) q r small e h =
      let m : ℕ = n / 2 ^ i in
      let e2 : m / 2 ≡ d * q + r = halved i ∙ e in
      let bound : m ≤ n = div-le_self n (2 ^ i) in
      let is : shifted n r i ≡ r * 2 + m % 2 = unfold shifted in omega (arith, e2) in
      elim (Bool-cases (ltb (shifted n r i) d)) [
        | inl less ↦ rw less (
            ap (λ x. div_loop n d x (shifted n r i) i) (shift_up q i)
            ∙ div_loop_lem i (q * 2) (shifted n r i) small (omega (arith, e2, is, twice d q))
                (ltb→lt _ _ less))
        | inr more ↦
            let over : d ≤ shifted n r i = ground (arith, more) in
            rw more (
              ap (λ x. div_loop n d x (shifted n r i - d) i) (shift_up_one q i)
              ∙ div_loop_lem i (q * 2 + 1) (shifted n r i - d) small
                  (omega (arith, e2, is, twice_one d q)) (omega (arith, is)))
      ]

-- For all 64-bit numbers and every divisor but 0 the two loops give the quotient and the remainder,
-- although the shift drops the highest bit.
pub udivdi3-umoddi3 : (n d : ℕ) → n < u64 → 0 < d → (udivdi3 n d ≡ n / d) × (umoddi3 n d ≡ n % d)
unfolding udivdi3 umoddi3
udivdi3-umoddi3 n d small pos =
    let top : n / 2 ^ 64 ≡ d * 0 + 0 = omega (arith, div-eq_of_lt small) in
    let both : div_loop n d 0 0 64 ≡ (n / d, n % d) = div_loop_lem n d pos 64 0 0 small top pos in
    (ap (λ (x : ℕ × ℕ). x.0) both, mod_loop-div_loop 64 n d 0 0 ∙ ap (λ (x : ℕ × ℕ). x.1) both)
