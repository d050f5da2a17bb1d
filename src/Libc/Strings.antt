-- ===== src/Libc/Strings.antt =====
-- The string functions of libraries/libc/src/string.
use saynaa_os.Prelude.{
  take, ℕ, zero, suc, ◌≡◌, ◌↔◌, refl, ap₂, ◌==◌, ==_iff, Bool, true, false, Bool-cases, List, [],
  ◌∷◌, if◌then◌else◌, arith, ◌≢◌, inl, inr, min, length,
}
use saynaa_os.Prelude.Int.{ℤ, pos, negsuc, sub_ℕ}

-- `*s1 - *s2` at the first difference; the characters are taken as unsigned.
unfoldable pub strcmp : List ℕ → List ℕ → ℤ
strcmp [] [] = pos 0
strcmp [] (y ∷ ys) = sub_ℕ 0 y
strcmp (x ∷ xs) [] = pos x
strcmp (x ∷ xs) (y ∷ ys) = if x == y then strcmp xs ys else sub_ℕ x y

-- `strcmp(a, b) == 0`
unfoldable pub same : List ℕ → List ℕ → Bool
unfolding strcmp
same a b = elim (strcmp a b) [ pos n ↦ n == 0 | negsuc n ↦ false ]

-- The number of characters before the terminator, at most `max_len`.
unfoldable pub strnlen : List ℕ → ℕ → ℕ
strnlen s zero = 0
strnlen [] (suc n) = 0
strnlen (c ∷ s) (suc n) = suc (strnlen s n)

-- No character is the terminator.
abbrev pub IsString : List ℕ → Type 0
IsString [] = Unit {0}
IsString (c ∷ cs) = (c ≢ 0) × IsString cs

-- On strings, without a terminator inside, `strcmp` is 0 exactly if they are equal.
strcmp_iff : (a b : List ℕ) → IsString a → IsString b → (strcmp a b ≡ pos 0) ↔ (a ≡ b)
unfolding strcmp
strcmp_iff [] [] va vb = (λ _. refl, λ _. refl)
strcmp_iff [] (y ∷ ys) va vb = (ground arith, λ e. cc)
strcmp_iff (x ∷ xs) [] va vb = (ground arith, λ e. cc)
strcmp_iff (x ∷ xs) (y ∷ ys) va vb = elim (Bool-cases (x == y)) [
  | inl e ↦ rw e (
    λ h. ap₂ ◌∷◌ ((==_iff x y).0 e) ((strcmp_iff xs ys va.1 vb.1).0 h),
    λ h. (strcmp_iff xs ys va.1 vb.1).1 (cc),
  )
  | inr ne ↦ rw ne (ground arith, λ h. (let e : x ≡ y = cc in ground arith))
]

pub same_iff : (a b : List ℕ) → IsString a → IsString b → (same a b ≡ true) ↔ (a ≡ b)
unfolding same
same_iff a b va vb =
    (λ h. (strcmp_iff a b va vb).0 (ground arith), λ e. ground (arith, (strcmp_iff a b va vb).1 e))

pub strnlen-min : (s : List ℕ) (n : ℕ) → strnlen s n ≡ min (length s) n
unfolding strnlen
strnlen-min s zero = omega arith
strnlen-min [] (suc n) = omega arith
strnlen-min (c ∷ s) (suc n) = omega (arith, strnlen-min s n)

unfoldable pub strncmp : List ℕ → List ℕ → ℕ → ℤ
strncmp xs ys zero = pos 0
strncmp [] [] (suc n) = pos 0
strncmp [] (y ∷ ys) (suc n) = sub_ℕ 0 y
strncmp (x ∷ xs) [] (suc n) = pos x
strncmp (x ∷ xs) (y ∷ ys) (suc n) =
    let rest : ℤ = strncmp xs ys n in if x == y then rest else sub_ℕ x y

-- On strings, without a terminator inside, `strncmp` is 0 exactly if they agree up to the bound.
strncmp_iff :
    (n : ℕ) (a b : List ℕ)
    → IsString a
    → IsString b
    → (strncmp a b n ≡ pos 0) ↔ (take n a ≡ take n b)
unfolding strncmp
strncmp_iff zero a b va vb = (λ h. refl, λ e. refl)
strncmp_iff (suc n) [] [] va vb = (λ h. refl, λ e. refl)
strncmp_iff (suc n) [] (y ∷ ys) va vb = (ground arith, λ e. cc)
strncmp_iff (suc n) (x ∷ xs) [] va vb = (ground arith, λ e. cc)
strncmp_iff (suc n) (x ∷ xs) (y ∷ ys) va vb = elim (Bool-cases (x == y)) [
  | inl e ↦ rw e (
    λ h. ap₂ ◌∷◌ ((==_iff x y).0 e) ((strncmp_iff n xs ys va.1 vb.1).0 h),
    λ h. (strncmp_iff n xs ys va.1 vb.1).1 (cc),
  )
  | inr ne ↦ rw ne (ground arith, λ h. (let e : x ≡ y = cc in ground arith))
]
