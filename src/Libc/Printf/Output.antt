-- ===== src/Libc/Printf/Output.antt =====
-- The output, and the arguments of a call (libraries/libc/src/stdio/vcbprintf.c).
use saynaa_os.Prelude.{
  ℕ, zero, suc, ◌+◌, ◌-◌, ◌*◌, ◌%◌, ◌^◌, ◌==◌, leb, Bool, Option, none, some, List, [], ◌∷◌,
  if◌then◌else◌, length,
}

abbrev pub u32 : ℕ
u32 = 2 ^ 32

-- What the characters go to: the result is the number of characters that were taken.
abbrev pub Callback : Type 0 → Type 0
Callback A = A → List ℕ → ℕ × A

-- The state of a call: the callback's context, `written`, the arguments that are left, and what was
-- stored through the pointers of `%n`, latest first.
pub record Print (A : Type 0) : Type 0 where
  pub ctx : A
  pub written : ℕ
  pub args : List ℕ
  pub stores : List (ℕ × ℕ)

-- A call of the callback, and the addition to `written`; `none` stands for `return -1`.
unfoldable pub emit : {A : Type 0} → Callback A → List ℕ → Print A → Option (Print A)
emit callback s p =
    let (n, ctx) = callback p.ctx s in
    if n == length s
    then some (record p { ctx = ctx; written = (p.written + length s) % u32 })
    else none

-- The same, left out for no characters.
unfoldable pub emit_some : {A : Type 0} → Callback A → List ℕ → Print A → Option (Print A)
unfolding emit
emit_some callback s p = if length s == 0 then some p else emit callback s p

-- The loop that pads, `n` times.
unfoldable pub pad : {A : Type 0} → Callback A → (c n : ℕ) → Print A → Option (Print A)
unfolding emit
pad callback c zero p = some p
pad callback c (suc n) p = elim (emit callback (c ∷ []) p) [
  | none ↦ none
  | some p' ↦ pad callback c n p'
]

abbrev pub and_then : {A B : Type 0} → Option A → (A → Option B) → Option B
and_then x f = elim x [ none ↦ none | some a ↦ f a ]

-- `va_arg` of a word and of two words.
unfoldable pub next_word : {A : Type 0} → Print A → ℕ × Print A
next_word p = elim p.args [ [] ↦ (0, p) | x ∷ xs ↦ (x, record p { args = xs }) ]

unfoldable pub next_two_words : {A : Type 0} → Print A → ℕ × Print A
unfolding next_word
next_two_words p =
    let (low, p') = next_word p in let (high, p'') = next_word p' in (low + high * u32, p'')

abbrev pub negate : ℕ → ℕ
negate w = (u32 - w) % u32

abbrev pub is_negative : ℕ → Bool
is_negative w = leb (2 ^ 31) w
