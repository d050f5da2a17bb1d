-- ===== src/Libc/Tests.antt =====
-- Runs of the library functions on small inputs.
use saynaa_os.Prelude.{
  ℕ, ◌&&◌, not, inr, ◌==◌, ◌+◌, ◌-◌, ◌/◌, ◌%◌, ◌^◌, ◌≡◌, refl, true, some, List, [], ◌∷◌, take,
  arith,
}
use saynaa_os.Libc.Fields.{fields}
use saynaa_os.Libc.Args.{is_ws, split_args}
use saynaa_os.Libc.Div64.Signed.{magnitude, negative64, signs_differ, divdi3, moddi3, divdi3-moddi3}
use saynaa_os.Libc.Div64.{udivdi3}
use saynaa_os.Libc.Pathutil.{slash, is_slash, normalize_path, make_abs_path}
use saynaa_os.Libc.Strings.{IsString}
use saynaa_os.Libc.Pathutil.Components.{Steps, path_of, normalize_path_lem}

abbrev text_a : List ℕ
text_a = b'a' ∷ []

abbrev text_b : List ℕ
text_b = b'b' ∷ []

-- " ls  -a"
abbrev line : List ℕ
line = b' ' ∷ b'l' ∷ b's' ∷ b' ' ∷ b' ' ∷ b'-' ∷ b'a' ∷ []

split_line : split_args true line 8 ≡ (b'l' ∷ b's' ∷ []) ∷ (b'-' ∷ b'a' ∷ []) ∷ []
unfolding split_args saynaa_os.Libc.Fields.skip_while is_ws saynaa_os.Libc.Fields.word
split_line = refl

-- "a/./b/../c"
abbrev path : List ℕ
path = b'a' ∷ slash ∷ b'.' ∷ slash ∷ b'b' ∷ slash ∷ b'.' ∷ b'.' ∷ slash ∷ b'c' ∷ []

-- "/a/c"
abbrev clean : List ℕ
clean = slash ∷ b'a' ∷ slash ∷ b'c' ∷ []

cleaned : normalize_path (some path) ≡ some clean
unfolding normalize_path saynaa_os.Libc.Fields.skip_while is_slash saynaa_os.Libc.Fields.word
    saynaa_os.Libc.Pathutil.push_segment saynaa_os.Libc.Strings.same saynaa_os.Libc.Pathutil.render
cleaned = refl

-- ".." at the root stays there.
above_root :
    make_abs_path true (slash ∷ []) (b'.' ∷ b'.' ∷ slash ∷ b'a' ∷ []) 64 ≡ some (slash ∷ b'a' ∷ [])
unfolding make_abs_path normalize_path saynaa_os.Libc.Pathutil.joined saynaa_os.Libc.Strings.same
    saynaa_os.Libc.Fields.skip_while is_slash saynaa_os.Libc.Fields.word
    saynaa_os.Libc.Pathutil.push_segment saynaa_os.Libc.Pathutil.render
above_root = refl

path-IsString : IsString path
path-IsString = (
  λ e. omega arith,
  (
    λ e. omega arith,
    (
      λ e. omega arith,
      (
        λ e. omega arith,
        (
          λ e. omega arith,
          (
            λ e. omega arith,
            (λ e. omega arith, (λ e. omega arith, (λ e. omega arith, (λ e. omega arith, tt)))),
          ),
        ),
      ),
    ),
  ),
)

normalize_path_lem_example :
    (way : List (List ℕ)) × Steps [] (fields (λ c. c == b'/') (take 255 path)) way
    × (normalize_path (some path) ≡ some (path_of way))
normalize_path_lem_example = normalize_path_lem path (omega arith) path-IsString

-- The largest number, and a divisor above 2 ^ 63.
large_quotient : udivdi3 (2 ^ 64 - 1) (2 ^ 63 + 1) ≡ 1
unfolding udivdi3 saynaa_os.Libc.Div64.div_loop
large_quotient = refl

-- -1000 divided by 7
divdi3-moddi3_example :
    (magnitude (divdi3 (2 ^ 64 - 1000) 7) ≡ magnitude (2 ^ 64 - 1000) / magnitude 7)
    × (negative64 (divdi3 (2 ^ 64 - 1000) 7) ≡ (
        signs_differ (negative64 (2 ^ 64 - 1000)) (negative64 7)
        && not (magnitude (2 ^ 64 - 1000) / magnitude 7 == 0)))
    × (magnitude (moddi3 (2 ^ 64 - 1000) 7) ≡ magnitude (2 ^ 64 - 1000) % magnitude 7)
    × (negative64 (moddi3 (2 ^ 64 - 1000) 7)
        ≡ (negative64 (2 ^ 64 - 1000) && not (magnitude (2 ^ 64 - 1000) % magnitude 7 == 0)))
divdi3-moddi3_example =
    divdi3-moddi3 (2 ^ 64 - 1000) 7 (omega arith) (omega arith) (omega arith) (inr (omega arith))
