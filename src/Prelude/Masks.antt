-- ===== src/Prelude/Masks.antt =====
-- Masks of low and of high bits: bit operations on numbers that are split at a bit.
use Prim.Native.Nat.{
  ℕ, zero, suc, ◌+◌, ◌-◌, ◌*◌, ◌/◌, ◌%◌, ◌^◌, ◌≤◌, ◌<◌, min, max, bit_and, bit_or,
}
use mathlib.Core.Path.{◌≡◌, sym, ap, ap₂, ◌∙◌}
use native.Mathlib.Omega.{arith}
use native.Mathlib.Nat.{pow-suc}
use saynaa_os.Prelude.Bits.{dig, dig-bit_and, dig-bit_or, zero-dig}

-- Numbers with the same digits are equal.
dig-ext : (m a b : ℕ) → a ≤ m → b ≤ m → ((j : ℕ) → dig a j ≡ dig b j) → a ≡ b
unfolding dig
dig-ext zero a b ha hb all = omega arith
dig-ext (suc m) a b ha hb all =
    omega (arith, all 0, dig-ext m (a / 2) (b / 2) (omega arith) (omega arith) (λ j. all (suc j)))

bit_and_step : (a b : ℕ) → bit_and a b ≡ bit_and (a / 2) (b / 2) * 2 + min (a % 2) (b % 2)
unfolding dig
bit_and_step a b =
    let r : ℕ = bit_and (a / 2) (b / 2) * 2 + min (a % 2) (b % 2) in
    dig-ext (bit_and a b + r) (bit_and a b) r (omega arith) (omega arith) (λ j. digit j)
  where
    digit :
        (j : ℕ) → dig (bit_and a b) j ≡ dig (bit_and (a / 2) (b / 2) * 2 + min (a % 2) (b % 2)) j
    digit zero = dig-bit_and a b 0 ∙ omega arith
    digit (suc j) =
        dig-bit_and a b (suc j)
        ∙ (sym (dig-bit_and (a / 2) (b / 2) j)
            ∙ ap (λ k. dig k j) {y = (bit_and (a / 2) (b / 2) * 2 + min (a % 2) (b % 2)) / 2}
                (omega arith))

bit_or_step : (a b : ℕ) → bit_or a b ≡ bit_or (a / 2) (b / 2) * 2 + max (a % 2) (b % 2)
unfolding dig
bit_or_step a b =
    let r : ℕ = bit_or (a / 2) (b / 2) * 2 + max (a % 2) (b % 2) in
    dig-ext (bit_or a b + r) (bit_or a b) r (omega arith) (omega arith) (λ j. digit j)
  where
    digit : (j : ℕ) → dig (bit_or a b) j ≡ dig (bit_or (a / 2) (b / 2) * 2 + max (a % 2) (b % 2)) j
    digit zero = dig-bit_or a b 0 ∙ omega arith
    digit (suc j) =
        dig-bit_or a b (suc j)
        ∙ (sym (dig-bit_or (a / 2) (b / 2) j)
            ∙ ap (λ k. dig k j) {y = (bit_or (a / 2) (b / 2) * 2 + max (a % 2) (b % 2)) / 2}
                (omega arith))

pub bit_and-zero : (a : ℕ) → bit_and a 0 ≡ 0
bit_and-zero a =
    dig-ext (bit_and a 0) (bit_and a 0) 0 (omega arith) (omega arith)
      (λ j. omega (arith, dig-bit_and a 0 j, zero-dig j))

pub bit_or-zero : (a : ℕ) → bit_or a 0 ≡ a
bit_or-zero a =
    dig-ext (bit_or a 0 + a) (bit_or a 0) a (omega arith) (omega arith)
      (λ j. omega (arith, dig-bit_or a 0 j, zero-dig j))

pub zero-bit_or : (a : ℕ) → bit_or 0 a ≡ a
zero-bit_or a =
    dig-ext (bit_or 0 a + a) (bit_or 0 a) a (omega arith) (omega arith)
      (λ j. omega (arith, dig-bit_or 0 a j, zero-dig j))

twice : (k x : ℕ) → x * 2 ^ suc k ≡ (x * 2 ^ k) * 2
twice k x = rw (pow-suc 2 k) (grind arith)

double : (k x f : ℕ) → (x * 2 ^ suc k + f) / 2 ≡ x * 2 ^ k + f / 2
double k x f = omega (arith, twice k x)

double_low : (k x f : ℕ) → (x * 2 ^ suc k + f) % 2 ≡ f % 2
double_low k x f = omega (arith, twice k x)

one : (x : ℕ) → x * 2 ^ 0 + 0 ≡ x
one x = omega arith

-- The low `k` bits and those above them are apart.
pub bit_and_split :
    (k x y f g : ℕ)
    → f < 2 ^ k
    → g < 2 ^ k
    → bit_and (x * 2 ^ k + f) (y * 2 ^ k + g) ≡ bit_and x y * 2 ^ k + bit_and f g
bit_and_split zero x y f g hf hg =
    let ef : f ≡ 0 = omega arith in
    let eg : g ≡ 0 = omega arith in
    rw (ef, eg) (ap₂ bit_and (one x) (one y) ∙ omega (arith, bit_and-zero 0))
bit_and_split (suc k) x y f g hf hg =
    let low =
      bit_and_split k x y (f / 2) (g / 2) (omega (arith, pow-suc 2 k))
        (omega (arith, pow-suc 2 k)) in
    let halves = ap₂ bit_and (double k x f) (double k y g) ∙ low in
    let whole = bit_and_step (x * 2 ^ suc k + f) (y * 2 ^ suc k + g) in
    omega (
      arith,
      twice k (bit_and x y),
      halves,
      whole,
      double_low k x f,
      double_low k y g,
      bit_and_step f g,
    )

pub bit_or_split :
    (k x y f g : ℕ)
    → f < 2 ^ k
    → g < 2 ^ k
    → bit_or (x * 2 ^ k + f) (y * 2 ^ k + g) ≡ bit_or x y * 2 ^ k + bit_or f g
bit_or_split zero x y f g hf hg =
    let ef : f ≡ 0 = omega arith in
    let eg : g ≡ 0 = omega arith in
    rw (ef, eg) (ap₂ bit_or (one x) (one y) ∙ omega (arith, bit_or-zero 0))
bit_or_split (suc k) x y f g hf hg =
    let low =
      bit_or_split k x y (f / 2) (g / 2) (omega (arith, pow-suc 2 k))
        (omega (arith, pow-suc 2 k)) in
    let halves = ap₂ bit_or (double k x f) (double k y g) ∙ low in
    let whole = bit_or_step (x * 2 ^ suc k + f) (y * 2 ^ suc k + g) in
    omega (
      arith,
      twice k (bit_or x y),
      halves,
      whole,
      double_low k x f,
      double_low k y g,
      bit_or_step f g,
    )

-- All of the low `k` bits.
bit_and_ones_small : (k f : ℕ) → f < 2 ^ k → bit_and f (2 ^ k - 1) ≡ f
bit_and_ones_small zero f h = let e : f ≡ 0 = omega arith in rw e (bit_and-zero 0)
bit_and_ones_small (suc k) f h =
    let low = bit_and_ones_small k (f / 2) (omega (arith, pow-suc 2 k)) in
    let half =
      ap (bit_and (f / 2)) {x = (2 ^ suc k - 1) / 2} {y = 2 ^ k - 1} (omega (arith, pow-suc 2 k)) in
    omega (arith, pow-suc 2 k, bit_and_step f (2 ^ suc k - 1), half, low)

-- The masks of a page table's entry: of its flags and of its frame.
pub bit_and_flags : (a : ℕ) → bit_and a 0xFFF ≡ a % 4096
bit_and_flags a =
    ap (λ x. bit_and x 0xFFF) {y = a / 4096 * 2 ^ 12 + a % 4096} (omega arith)
    ∙ (bit_and_split 12 (a / 4096) 0 (a % 4096) 0xFFF (omega arith) (omega arith)
        ∙ omega (arith, bit_and-zero (a / 4096), bit_and_ones_small 12 (a % 4096) (omega arith)))

pub bit_and_frame : (a : ℕ) → a < 2 ^ 32 → bit_and a 0xFFFF_F000 ≡ a / 4096 * 4096
bit_and_frame a h =
    ap (λ x. bit_and x 0xFFFF_F000) {y = a / 4096 * 2 ^ 12 + a % 4096} (omega arith)
    ∙ (bit_and_split 12 (a / 4096) 0xFFFFF (a % 4096) 0 (omega arith) (omega arith)
        ∙ omega (arith, bit_and-zero (a % 4096), bit_and_ones_small 20 (a / 4096) (omega arith)))

pub bit_and_ten : (a : ℕ) → bit_and a 0x3FF ≡ a % 1024
bit_and_ten a =
    ap (λ x. bit_and x 0x3FF) {y = a / 1024 * 2 ^ 10 + a % 1024} (omega arith)
    ∙ (bit_and_split 10 (a / 1024) 0 (a % 1024) 0x3FF (omega arith) (omega arith)
        ∙ omega (arith, bit_and-zero (a / 1024), bit_and_ones_small 10 (a % 1024) (omega arith)))

pub bit_and_one : (a : ℕ) → bit_and a 1 ≡ a % 2
bit_and_one a = omega (arith, bit_and_step a 1, bit_and-zero (a / 2))

-- Flags set in a number that may have some.
pub bit_or_flags :
    (a f g : ℕ) → a % 4096 ≡ 0 → f < 4096 → g < 4096 → bit_or (a + f) g ≡ a + bit_or f g
bit_or_flags a f g h hf hg =
    ap (λ x. bit_or x g) {x = a + f} {y = a / 4096 * 2 ^ 12 + f} (omega arith)
    ∙ (ap (bit_or (a / 4096 * 2 ^ 12 + f)) {x = g} {y = 0 * 2 ^ 12 + g} (omega arith)
        ∙ (bit_or_split 12 (a / 4096) 0 f g hf hg ∙ omega (arith, bit_or-zero (a / 4096))))

pub bit_or_lt : (k f g : ℕ) → f < 2 ^ k → g < 2 ^ k → bit_or f g < 2 ^ k
bit_or_lt zero f g hf hg =
    let ef : f ≡ 0 = omega arith in
    let eg : g ≡ 0 = omega arith in rw (ef, eg) (omega (arith, bit_or-zero 0))
bit_or_lt (suc k) f g hf hg = omega (
  arith,
  pow-suc 2 k,
  bit_or_step f g,
  bit_or_lt k (f / 2) (g / 2) (omega (arith, pow-suc 2 k)) (omega (arith, pow-suc 2 k)),
)

pub bit_or_odd : (f g : ℕ) → bit_or f g % 2 ≡ max (f % 2) (g % 2)
bit_or_odd f g = omega (arith, bit_or_step f g)
