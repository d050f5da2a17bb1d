-- ===== src/Libc/Printf/Digits.antt =====
-- The digits of a number (libraries/libc/src/stdio/vcbprintf.c).
use saynaa_os.Prelude.{ℕ, zero, suc, ◌+◌, ◌/◌, ◌%◌, ltb, leb, Bool, List, [], ◌∷◌, if◌then◌else◌}

-- `digits[d]`, for either table of digits.
unfoldable pub digit_char : (upper : Bool) → (d : ℕ) → ℕ
digit_char upper d = if ltb d 10 then 48 + d else if upper then 55 + d else 87 + d

-- The first loop of `convert_integer`, with `fuel` rounds: the number of digits.
unfoldable pub count_digits : (fuel copy base result : ℕ) → ℕ
count_digits zero copy base result = result
count_digits (suc fuel) copy base result =
    let rest : ℕ = count_digits fuel (copy / base) base (result + 1) in
    if leb base copy then rest else result

-- The second loop, with `n` digits left; `destination` is what stands behind them.
unfoldable pub fill_digits : (upper : Bool) → (n value base : ℕ) → (destination : List ℕ) → List ℕ
unfolding digit_char
fill_digits upper zero value base destination = destination
fill_digits upper (suc n) value base destination =
    fill_digits upper n (value / base) base (digit_char upper (value % base) ∷ destination)

unfoldable pub convert_integer : (value base : ℕ) → (upper : Bool) → List ℕ
unfolding count_digits fill_digits
convert_integer value base upper = fill_digits upper (count_digits value value base 1) value base []
