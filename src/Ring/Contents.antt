-- ===== src/Ring/Contents.antt =====
-- What a ring holds, oldest first, and how `put` and `discard` change it.
use saynaa_os.Prelude.{
  ℕ, zero, suc, ◌+◌, ◌-◌, ◌%◌, ◌<◌, ◌≡◌, ◌≢◌, refl, ap, ap₂, ◌∙◌, List, [], ◌∷◌, ◌++◌, arith, leb,
  if◌then◌else◌, Array, write, write_ne, length, mod-add-mod, mod-eq_of_lt, mod-eq-sub-mod, inl,
  inr, ◌==◌, Bool-cases, ltb, ltb→lt,
}
use saynaa_os.Ring.{Ring, used, put, discard}

-- Both indices lie in the array.
abbrev pub IsValid : {A : Type 0} → ℕ → Ring A → Type 0
IsValid cap q = (q.r < cap) × (q.w < cap)

-- The `n` elements from index `h` on, going round at `cap`.
abbrev pub window : {A : Type 0} → ℕ → Array A → ℕ → ℕ → List A
window cap a h zero = []
window cap a h (suc n) = a h ∷ window cap a ((h + 1) % cap) n

unfoldable pub contents : {A : Type 0} → ℕ → Ring A → List A
contents cap q = window cap q.buf q.r (used cap q)

-- Fewer than `cap` steps forward do not come back to the start.
around : (cap h k : ℕ) → h < cap → suc k < cap → (h + suc k) % cap ≢ h
around cap h k hh hk = elim (Bool-cases (ltb (h + suc k) cap)) [
  | inl p ↦ omega (arith, mod-eq_of_lt {n = h + suc k} {m = cap} (ltb→lt _ _ p))
  | inr p ↦ grind (
    arith,
    mod-eq-sub-mod {n = h + suc k} {m = cap},
    mod-eq_of_lt {n = h + suc k - cap} {m = cap},
  )
]

-- The next index, without `%`.
pub next_index : (cap i : ℕ) → i < cap → (i + 1) % cap ≡ (if i + 1 == cap then 0 else i + 1)
next_index cap i h = grind arith

module _ {A : Type 0} where
  pub length-window : (cap : ℕ) (a : Array A) (h n : ℕ) → length (window cap a h n) ≡ n
  length-window cap a h zero = refl
  length-window cap a h (suc n) = ap suc (length-window cap a ((h + 1) % cap) n)

  -- A write just behind the window makes it one element longer.
  pub window-write :
      (cap : ℕ) (a : Array A) (x : A) (n h i : ℕ)
      → h < cap
      → n < cap
      → i ≡ (h + n) % cap
      → window cap (write a i x) h (suc n) ≡ window cap a h n ++ (x ∷ [])
  window-write cap a x zero h i hh hn e =
      ap (λ v. v ∷ []) (ground (arith, mod-eq_of_lt {n = h} {m = cap}))
  window-write cap a x (suc n) h i hh hn e =
      ap₂ ◌∷◌ (write_ne a i h x (rw e (around cap h n hh hn)))
        (window-write cap a x n ((h + 1) % cap) i (omega arith) (omega arith) (e ∙ later))
    where
      later : (h + suc n) % cap ≡ ((h + 1) % cap + n) % cap
      later = rw mod-add-mod (ap (λ k. k % cap) (omega arith))

  module _ (cap : ℕ) (q : Ring A) (v : IsValid cap q) where
    pub used-lt : used cap q < cap
    unfolding used
    used-lt = ground arith

    -- The write index is the read index moved on by the number of elements.
    w-eq : q.w ≡ (q.r + used cap q) % cap
    unfolding used
    w-eq = elim (Bool-cases (leb q.r q.w)) [
      | inl p ↦ ground (arith, mod-eq_of_lt {n = q.w} {m = cap})
      | inr p ↦
          ground (arith, mod-eq-sub-mod {n = q.w + cap} {m = cap}, mod-eq_of_lt {n = q.w} {m = cap})
    ]

    pub used-zero_iff : (q.r == q.w) ≡ (used cap q == 0)
    unfolding used
    used-zero_iff = ground arith

    pub used-put : (x : A) → used cap q + 1 < cap → used cap (put cap q x) ≡ used cap q + 1
    unfolding used
    used-put x room = ground (arith, next_index cap q.w)

    pub used-discard : used cap q ≢ 0 → used cap (discard cap q) ≡ used cap q - 1
    unfolding used
    used-discard ne = ground (arith, next_index cap q.r)

    pub put-IsValid : (x : A) → IsValid cap (put cap q x)
    put-IsValid x = omega arith

    pub discard-IsValid : IsValid cap (discard cap q)
    discard-IsValid = omega arith

    pub contents-put :
        (x : A) → used cap q + 1 < cap → contents cap (put cap q x) ≡ contents cap q ++ (x ∷ [])
    unfolding contents
    contents-put x room =
        ap (window cap (write q.buf q.w x) q.r) {y = suc (used cap q)}
          (omega (arith, used-put x room))
        ∙ window-write cap q.buf x (used cap q) q.r q.w v.0 used-lt w-eq

    pub contents-nil : used cap q ≡ 0 → contents cap q ≡ []
    unfolding contents
    contents-nil e = rw e

    pub contents-discard :
        used cap q ≢ 0 → contents cap q ≡ q.buf q.r ∷ contents cap (discard cap q)
    unfolding contents
    contents-discard ne =
        ap (window cap q.buf q.r) {y = suc (used cap (discard cap q))}
          (omega (arith, used-discard ne))

    pub length-contents : length (contents cap q) ≡ used cap q
    unfolding contents
    length-contents = length-window cap q.buf q.r (used cap q)

    -- The test by which a push finds the ring full.
    pub full_iff : ((q.w + 1) % cap == q.r) ≡ (used cap q + 1 == cap)
    unfolding used
    full_iff = ground (arith, next_index cap q.w)
