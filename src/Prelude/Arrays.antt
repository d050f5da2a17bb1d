-- ===== src/Prelude/Arrays.antt =====
-- A C array as a function from its indices, with a write at one index. That the indices in use lie
-- within the array's bound is part of the invariants of the modules that use it.
use Prim.Native.Nat.{ℕ, zero, suc, ◌+◌}
use mathlib.Core.Path.{◌≡◌}
use mathlib.Core.Logic.{◌≢◌}
use mathlib.Core.List.{List, [], ◌∷◌}
use native.Mathlib.Omega.{arith}
use saynaa_os.Prelude.Tests.{◌==◌, if◌then◌else◌}

abbrev pub Array {ℓ} : Type ℓ → Type ℓ
Array A = ℕ → A

module _ {ℓ} {A : Type ℓ} where
  abbrev pub write : Array A → ℕ → A → Array A
  write a i v j = if i == j then v else a j

  -- The `n` elements from index `i` on.
  abbrev pub slice : Array A → ℕ → ℕ → List A
  slice a i zero = []
  slice a i (suc n) = a i ∷ slice a (i + 1) n

  -- `memcpy(&a[i], xs, length of xs)`.
  unfoldable pub memcpy : Array A → ℕ → List A → Array A
  memcpy a i [] = a
  memcpy a i (x ∷ xs) = memcpy (write a i x) (i + 1) xs

  pub write_self : (a : Array A) (i : ℕ) (v : A) → write a i v i ≡ v
  write_self a i v = ground arith

  pub write_ne : (a : Array A) (i j : ℕ) (v : A) → i ≢ j → write a i v j ≡ a j
  write_ne a i j v h = ground arith
