-- ===== src/Kheap/Align.antt =====
-- Rounding up to a multiple (`align_to` of libraries/libc/src/math.c).
use native.Mathlib.Nat.{mod-mod_of_dvd, dvd_of_mod-eq-zero, div-add-mod, mul-mod_right, mul-add}
use saynaa_os.Prelude.{
  ℕ, ◌+◌, ◌-◌, ◌*◌, ◌/◌, ◌%◌, ◌<◌, ◌≤◌, ◌≡◌, sym, ap, ◌∙◌, ◌==◌, ==_iff, Bool-cases, inl, inr,
  arith, mod-lt,
}
use saynaa_os.Pmm.{u32}
use saynaa_os.Kheap.{align_to}

rounded : (n a : ℕ) → 0 < a → (n + (a - n % a)) % a ≡ 0
rounded n a pos =
    ap (λ k. k % a) {x = n + (a - n % a)} {y = a * (n / a + 1)}
      (omega (arith, div-add-mod n a, mod-lt n pos, mul-add a (n / a) 1))
    ∙ mul-mod_right a (n / a + 1)

-- Without overflow `align_to` gives the least multiple from the number on.
pub align_to_lem :
    (n a : ℕ)
    → 0 < a
    → n + a ≤ u32
    → (n ≤ align_to n a) × (align_to n a < n + a) × (align_to n a % a ≡ 0)
unfolding align_to
align_to_lem n a pos fits = elim (Bool-cases (n % a == 0)) [
  | inl e ↦ rw e (omega arith, omega arith, (==_iff (n % a) 0).0 e)
  | inr ne ↦
      let small : n % a < a = mod-lt n pos in
      let some_left : 0 < n % a = ground arith in
      let same : (n + (a - n % a)) % u32 ≡ n + (a - n % a) = omega arith in
      rw (ne, same) (omega arith, omega arith, rounded n a pos)
]

-- A multiple of a multiple of 4 is one.
pub multiple_of_four : (n a : ℕ) → a % 4 ≡ 0 → n % a ≡ 0 → n % 4 ≡ 0
multiple_of_four n a four e =
    sym (mod-mod_of_dvd 4 {b = a} n (dvd_of_mod-eq-zero 4 four)) ∙ ap (λ k. k % 4) e
