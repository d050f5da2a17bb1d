-- ===== src/Libc/Printf/Values.antt =====
-- The digits of a number against its value (libraries/libc/src/stdio/vcbprintf.c).
use saynaa_os.Prelude.{
  ℕ, zero, suc, ◌+◌, ◌-◌, ◌*◌, ◌/◌, ◌%◌, ◌^◌, ◌<◌, ◌≤◌, ◌≡◌, refl, sym, ap, subst, ◌∙◌, ltb, leb,
  Bool, List, [], ◌∷◌, if◌then◌else◌, arith, Bool-cases, inl, inr,
}
use native.Mathlib.Nat.{pow-suc, pow-zero}
use saynaa_os.Libc.Printf.Digits.{digit_char, count_digits, fill_digits, convert_integer}

-- The digit that a character stands for, and the number that characters stand for in a base, behind
-- digits that stand for `n`.
abbrev pub char_digit : ℕ → ℕ
char_digit c = if ltb c 58 then c - 48 else if ltb c 91 then c - 55 else c - 87

abbrev pub digits_value : (base n : ℕ) → List ℕ → ℕ
digits_value base n [] = n
digits_value base n (c ∷ cs) = digits_value base (n * base + char_digit c) cs

char_digit-digit_char : (upper : Bool) (d : ℕ) → d < 16 → char_digit (digit_char upper d) ≡ d
unfolding digit_char
char_digit-digit_char upper d h = ground arith

div_pos : (v b : ℕ) → 2 ≤ b → b ≤ v → v / b < v
div_pos v b h k = grind arith

div_mul : (v b : ℕ) → 2 ≤ b → v / b * b + v % b ≡ v
div_mul v b h = grind arith

div_below : (v b p : ℕ) → 2 ≤ b → v < b * p → v / b < p
div_below v b p h k = grind arith

below_div : (v b p : ℕ) → 2 ≤ b → v / b < p → v < b * p
below_div v b p h k = grind arith

fill_value :
    (n v b : ℕ) (upper : Bool) (rest : List ℕ)
    → 2 ≤ b
    → b ≤ 16
    → v < b ^ n
    → digits_value b 0 (fill_digits upper n v b rest) ≡ digits_value b v rest
unfolding fill_digits
fill_value zero v b upper rest low high h =
    ap (λ x. digits_value b x rest) (omega (arith, h, pow-zero b))
fill_value (suc n) v b upper rest low high h =
    let digit : char_digit (digit_char upper (v % b)) ≡ v % b =
      char_digit-digit_char upper (v % b) (grind arith) in
    fill_value n (v / b) b upper (digit_char upper (v % b) ∷ rest) low high
      (div_below v b (b ^ n) low (omega (arith, h, pow-suc b n)))
    ∙ ap (λ x. digits_value b x rest) (omega (arith, digit, div_mul v b low))

count_shift :
    (fuel copy b r : ℕ) → count_digits fuel copy b (r + 1) ≡ count_digits fuel copy b r + 1
unfolding count_digits
count_shift zero copy b r = refl
count_shift (suc fuel) copy b r = elim (Bool-cases (leb b copy)) [
  | inl more ↦ rw more (count_shift fuel (copy / b) b (r + 1))
  | inr enough ↦ rw enough refl
]

to_one : (b : ℕ) → b ^ 1 ≡ b
to_one b = pow-suc b 0 ∙ (ap (λ x. x * b) (pow-zero b) ∙ omega arith)

count_enough : (fuel copy b : ℕ) → 2 ≤ b → copy ≤ fuel → copy < b ^ count_digits fuel copy b 1
unfolding count_digits
count_enough zero copy b low h = subst (λ k. copy < k) (sym (to_one b)) (omega (arith, h, low))
count_enough (suc fuel) copy b low h = elim (Bool-cases (leb b copy)) [
  | inl more ↦
      let deeper =
        count_enough fuel (copy / b) b low (omega (arith, h, div_pos copy b low (ground arith))) in
      let count : count_digits fuel (copy / b) b 2 ≡ count_digits fuel (copy / b) b 1 + 1 =
        count_shift fuel (copy / b) b 1 in
      let power = pow-suc b (count_digits fuel (copy / b) b 1) in
      rw (more, count)
        (rw
          (ap (λ k. b ^ k) {x = count_digits fuel (copy / b) b 1 + 1}
            {y = suc (count_digits fuel (copy / b) b 1)} (omega arith))
          (omega
            (arith, power, below_div copy b (b ^ count_digits fuel (copy / b) b 1) low deeper)))
  | inr enough ↦
      let below : copy < b = ground arith in
      rw enough (subst (λ k. copy < k) (sym (to_one b)) below)
]

-- In a base from 2 to 16 `convert_integer` writes digits that stand for the number.
pub convert_integer_lem :
    (value base : ℕ) (upper : Bool)
    → 2 ≤ base
    → base ≤ 16
    → digits_value base 0 (convert_integer value base upper) ≡ value
unfolding convert_integer
convert_integer_lem value base upper low high =
    fill_value (count_digits value value base 1) value base upper [] low high
      (count_enough value value base low (omega arith))
