-- ===== src/Libc/Printf/Integers.antt =====
-- The conversions of integers and pointers (libraries/libc/src/stdio/vcbprintf.c).
use saynaa_os.Prelude.{
  ℕ, ◌+◌, ◌-◌, ◌^◌, ◌==◌, ltb, leb, Bool, true, false, not, ◌&&◌, ◌||◌, Option, none, some, List,
  [], ◌∷◌, ◌++◌, if◌then◌else◌, length,
}
use saynaa_os.Libc.Printf.Output.{
  u32, Callback, Print, emit_some, pad, and_then, next_word, next_two_words, is_negative,
}
use saynaa_os.Libc.Printf.Digits.{convert_integer}
use saynaa_os.Libc.Printf.Parse.{
  Length, short_short, short, default, long, long_long, long_double, intmax_t, size_t, ptrdiff_t,
  Spec, starts_with, abs_width,
}

-- How a conversion ends: with `return -1`, at `bad_conv`, or with the next round.
pub data Conv (A : Type 0) : Type 0 where
  failed : Conv A
  bad : Print A → Conv A
  printed : Print A → Conv A

abbrev pub conv_of : {A : Type 0} → Option (Print A) → Conv A
conv_of x = elim x [ none ↦ failed | some p ↦ printed p ]

-- A number that `va_arg` gives: its sign, its value, and the state behind it.
abbrev pub signed_word : {A : Type 0} → Print A → Option (Bool × ℕ × Print A)
signed_word p =
    let (w, p') = next_word p in some (is_negative w, if is_negative w then u32 - w else w, p')

abbrev pub signed_two_words : {A : Type 0} → Print A → Option (Bool × ℕ × Print A)
signed_two_words p =
    let (w, p') = next_two_words p in
    some (leb (2 ^ 63) w, if leb (2 ^ 63) w then 2 ^ 64 - w else w, p')

abbrev pub unsigned_word : {A : Type 0} → Print A → Option (Bool × ℕ × Print A)
unsigned_word p = let (w, p') = next_word p in some (false, w, p')

abbrev pub unsigned_two_words : {A : Type 0} → Print A → Option (Bool × ℕ × Print A)
unsigned_two_words p = let (w, p') = next_two_words p in some (false, w, p')

-- `none` stands for `goto bad_conv`.
unfoldable pub signed_argument : {A : Type 0} → Length → Print A → Option (Bool × ℕ × Print A)
unfolding next_word next_two_words
signed_argument short_short p = signed_word p
signed_argument short p = signed_word p
signed_argument default p = signed_word p
signed_argument long p = signed_word p
signed_argument long_long p = signed_two_words p
signed_argument long_double p = none
signed_argument intmax_t p = signed_two_words p
signed_argument size_t p = unsigned_word p
signed_argument ptrdiff_t p = signed_word p

unfoldable pub unsigned_argument : {A : Type 0} → Length → Print A → Option (Bool × ℕ × Print A)
unfolding next_word next_two_words
unsigned_argument short_short p = unsigned_word p
unsigned_argument short p = unsigned_word p
unsigned_argument default p = unsigned_word p
unsigned_argument long p = unsigned_word p
unsigned_argument long_long p = unsigned_two_words p
unsigned_argument long_double p = none
unsigned_argument intmax_t p = unsigned_two_words p
unsigned_argument size_t p = unsigned_word p
unsigned_argument ptrdiff_t p =
    let (w, p') = next_word p in some (false, if is_negative w then w + (2 ^ 64 - u32) else w, p')

-- The sign and the mark of the base.
unfoldable pub prefix_of : Spec → (conversion : ℕ) → (negative : Bool) → (value : ℕ) → List ℕ
prefix_of s conversion negative value =
    (if negative
      then b'-' ∷ []
      else if s.plus
      then b'+' ∷ []
      else if s.blank
      then b' ' ∷ []
      else [])
    ++ (if s.alternate && (conversion == b'x' || conversion == b'X') && not (value == 0)
        then b'0' ∷ conversion ∷ []
        else if s.alternate && conversion == b'o' && not (value == 0)
        then b'0' ∷ []
        else [])

-- The digits: none for 0 with the precision 0.
unfoldable pub output_of : Spec → (conversion value : ℕ) → List ℕ
unfolding convert_integer
output_of s conversion value =
    let hex : Bool = conversion == b'x' || conversion == b'X' in
    let base : ℕ = if hex then 16 else if conversion == b'o' then 8 else 10 in
    let output : List ℕ = convert_integer value base (conversion == b'X') in
    elim s.precision [
      | none ↦ output
      | some precision ↦
          if precision == 0 && length output == 1 && starts_with (b'0' ∷ []) output
          then []
          else output
    ]

-- The numbers of characters that pad a number: on the left, zeros for the width, zeros for the
-- precision, and on the right.
pub record Padding : Type 0 where
  pub left : ℕ
  pub zeros : ℕ
  pub digits : ℕ
  pub right : ℕ

unfoldable pub padding_of : Spec → (prefix_length output_length : ℕ) → Padding
padding_of s prefix_length output_length =
    let width : ℕ = abs_width s.field_width in
    let negative : Bool = is_negative s.field_width in
    let with_precision : ℕ = elim s.precision [
      | none ↦ output_length
      | some precision ↦ if ltb output_length precision then precision else output_length
    ] in
    let missing : ℕ = elim s.precision [
      | none ↦ 0
      | some precision ↦ precision - (prefix_length + output_length)
    ] in
    let zero_pad : Bool =
      s.zero_pad && not negative && elim s.precision [ none ↦ true | some _ ↦ false ] in
    let space : ℕ = width - (prefix_length + with_precision) in
    record {
      left = if not zero_pad && not negative then space else 0;
      zeros = if zero_pad then width - (prefix_length + output_length) else 0;
      digits = missing;
      right = if not zero_pad && negative then space else 0;
    }

-- The output of a number.
unfoldable pub print_integer :
    {A : Type 0}
    → Callback A
    → Spec
    → (conversion : ℕ) → (negative : Bool) → (value : ℕ) → Print A
    → Option (Print A)
unfolding prefix_of output_of padding_of pad emit_some
print_integer callback s conversion negative value p =
    let prefix : List ℕ = prefix_of s conversion negative value in
    let output : List ℕ = output_of s conversion value in
    let padding : Padding = padding_of s (length prefix) (length output) in
    and_then (pad callback b' ' padding.left p) (λ p1.
      and_then (emit_some callback prefix p1) (λ p2.
        and_then (pad callback b'0' padding.zeros p2) (λ p3.
          and_then (pad callback b'0' padding.digits p3) (λ p4.
            and_then (emit_some callback output p4) (λ p5. pad callback b' ' padding.right p5)))))

abbrev pub without_sign : Spec → Spec
without_sign s = record s { blank = false; plus = false }

-- The conversions of integers and pointers.
unfoldable pub convert_number : {A : Type 0} → Callback A → Spec → (conv : ℕ) → Print A → Conv A
unfolding next_word signed_argument unsigned_argument print_integer
convert_number callback s conv p =
    if conv == b'p'
    then (let (w, p') = next_word p in
        conv_of (
          print_integer callback (record (without_sign s) { alternate = not s.alternate }) b'x'
            false w p'))
    else if conv == b'i' || conv == b'd'
    then elim (signed_argument s.size p) [
      | none ↦ bad p
      | some (negative, value, p') ↦ conv_of (print_integer callback s conv negative value p')
    ]
    else elim (unsigned_argument s.size p) [
      | none ↦ bad p
      | some (negative, value, p') ↦
          conv_of (print_integer callback (without_sign s) conv negative value p')
    ]
