-- ===== src/Libc/Printf/Parse.antt =====
-- The parts of a conversion: flags, field width, precision and length modifier (libraries/libc/src/stdio/vcbprintf.c).
use saynaa_os.Prelude.{
  ℕ, zero, suc, ◌+◌, ◌-◌, ◌*◌, ◌%◌, ◌==◌, ltb, leb, Bool, true, false, not, ◌&&◌, ◌||◌, Option,
  none, some, List, [], ◌∷◌, if◌then◌else◌, length, drop,
}
use saynaa_os.Libc.Printf.Output.{u32, Print, next_word, negate, is_negative}

abbrev pub max_format_scan : ℕ
max_format_scan = 4096

-- `enum length_t`
pub data Length : Type 0 where
  short_short : Length
  short : Length
  default : Length
  long : Length
  long_long : Length
  long_double : Length
  intmax_t : Length
  size_t : Length
  ptrdiff_t : Length

-- The flags, the field width, the precision (`none` for `SIZE_MAX`) and the length modifier.
pub record Spec : Type 0 where
  pub alternate : Bool
  pub zero_pad : Bool
  pub width_negative : Bool
  pub blank : Bool
  pub plus : Bool
  pub field_width : ℕ
  pub precision : Option ℕ
  pub size : Length

abbrev pub no_spec : Spec
no_spec = record {
  alternate = false;
  zero_pad = false;
  width_negative = false;
  blank = false;
  plus = false;
  field_width = 0;
  precision = none;
  size = default;
}

-- The flags, of which `'` and `I` are read and not used.
unfoldable pub parse_flags : Spec → List ℕ → Spec × List ℕ
parse_flags s [] = (s, [])
parse_flags s (f ∷ fs) =
    let known : Bool =
      f == b'#' || f == b'0' || f == b'-' || f == b' ' || f == b'+' || f == 39 || f == b'I' in
    let rest : Spec × List ℕ =
      parse_flags
        (record s {
          alternate = s.alternate || f == b'#';
          zero_pad = s.zero_pad || f == b'0';
          width_negative = s.width_negative || f == b'-';
          blank = s.blank || f == b' ';
          plus = s.plus || f == b'+';
        })
        fs in
    if known then rest else (s, f ∷ fs)

unfoldable pub is_digit : ℕ → Bool
is_digit c = leb 48 c && leb c 57

-- A number of at most `count` digits.
unfoldable pub parse_number : (count n : ℕ) → List ℕ → ℕ × List ℕ
unfolding is_digit
parse_number zero n fmt = (n, fmt)
parse_number (suc count) n [] = (n, [])
parse_number (suc count) n (c ∷ cs) =
    let rest : ℕ × List ℕ = parse_number count ((10 * n + (c - 48)) % u32) cs in
    if is_digit c then rest else (n, c ∷ cs)

-- A number as the code reads it: `none`, for `return -1`, if it has too many digits.
unfoldable pub parse_bounded : List ℕ → Option (ℕ × List ℕ)
unfolding parse_number
parse_bounded fmt =
    let (n, rest) = parse_number max_format_scan 0 fmt in
    if leb max_format_scan (length fmt - length rest) then none else some (n, rest)

unfoldable pub skip_digits : List ℕ → List ℕ
unfolding is_digit
skip_digits [] = []
skip_digits (c ∷ cs) = let rest : List ℕ = skip_digits cs in if is_digit c then rest else c ∷ cs

-- The field width: the words of type `int` keep their sign.
unfoldable pub parse_width :
    {A : Type 0} → Spec → List ℕ → Print A → Option (Spec × List ℕ × Print A)
unfolding next_word parse_bounded
parse_width s [] p = some (s, [], p)
parse_width s (c ∷ cs) p =
    if c == b'*'
    then (let (w, p') = next_word p in
        some (record s { field_width = if s.width_negative then negate w else w }, cs, p'))
    else elim (parse_bounded (c ∷ cs)) [
      | none ↦ none
      | some (w, rest) ↦
          some (record s { field_width = if s.width_negative then negate w else w }, rest, p)
    ]

-- What stands behind the point of a precision.
unfoldable pub parse_precision_value :
    {A : Type 0} → Spec → List ℕ → Print A → Option (Spec × List ℕ × Print A)
unfolding next_word parse_bounded skip_digits
parse_precision_value s [] p = some (record s { precision = some 0 }, [], p)
parse_precision_value s (c ∷ cs) p =
    if c == b'*'
    then (let (w, p') = next_word p in
        some (record s { precision = some (if is_negative w then 0 else w) }, cs, p'))
    else if c == b'-'
    then some (record s { precision = some 0 }, skip_digits cs, p)
    else elim (parse_bounded (c ∷ cs)) [
      | none ↦ none
      | some (n, rest) ↦
          some (record s { precision = if n == u32 - 1 then none else some n }, rest, p)
    ]

unfoldable pub parse_precision :
    {A : Type 0} → Spec → List ℕ → Print A → Option (Spec × List ℕ × Print A)
unfolding parse_precision_value
parse_precision s [] p = some (s, [], p)
parse_precision s (c ∷ cs) p =
    if c == b'.' then parse_precision_value s cs p else some (s, c ∷ cs, p)

abbrev pub length_modifiers : List (List ℕ × Length)
length_modifiers =
    (104 ∷ 104 ∷ [], short_short)
    ∷ (104 ∷ [], short)
    ∷ ([], default)
    ∷ (108 ∷ [], long)
    ∷ (108 ∷ 108 ∷ [], long_long)
    ∷ (76 ∷ [], long_double)
    ∷ (106 ∷ [], intmax_t)
    ∷ (122 ∷ [], size_t)
    ∷ (116 ∷ [], ptrdiff_t)
    ∷ []

-- `strncmp(format, name, nl) == 0`
unfoldable pub starts_with : (name fmt : List ℕ) → Bool
starts_with [] fmt = true
starts_with (n ∷ ns) [] = false
starts_with (n ∷ ns) (c ∷ cs) = n == c && starts_with ns cs

-- The loop over the modifiers.
unfoldable pub best_modifier :
    List (List ℕ × Length) → List ℕ → Length → (best_len : ℕ) → Length × ℕ
unfolding starts_with
best_modifier [] fmt size best_len = (size, best_len)
best_modifier ((name, size') ∷ ms) fmt size best_len =
    let other : Bool = ltb (length name) best_len || not (starts_with name fmt) in
    best_modifier ms fmt (if other then size else size') (if other then best_len else length name)

unfoldable pub parse_length : Spec → List ℕ → Spec × List ℕ
unfolding best_modifier
parse_length s fmt =
    let (size, n) = best_modifier length_modifiers fmt default 0 in
    (record s { size = size }, drop n fmt)

abbrev pub abs_width : ℕ → ℕ
abs_width w = if is_negative w then u32 - w else w
