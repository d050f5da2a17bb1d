-- ===== src/Libc/Printf/Widths.antt =====
-- The padding of a number (libraries/libc/src/stdio/vcbprintf.c).
use saynaa_os.Prelude.{ℕ, ◌+◌, ◌^◌, ◌<◌, ◌≤◌, ◌≡◌, ◌⊎◌}
use saynaa_os.Libc.Printf.Integers.{Padding}

-- All the characters of a number with `prefix` characters before its `output` digits.
abbrev pub total : Padding → (prefix output : ℕ) → ℕ
total q prefix output = q.left + q.zeros + q.digits + q.right + (prefix + output)

-- The word of a field's width is the width of a number that stands at the right of its field, below
-- 2 ^ 31, or the negative of the width of one that stands at the left of it.
abbrev pub Aligned : (word width : ℕ) → Padding → Type 0
Aligned word width q =
    ((word ≡ width) × (width < 2 ^ 31) × (q.right ≡ 0))
    ⊎ ((word + width ≡ 2 ^ 32) × (width ≤ 2 ^ 31) × (q.left ≡ 0) × (q.zeros ≡ 0))
