-- ===== src/Libc/Printf/Convert.antt =====
-- The other conversions, and the choice among all (libraries/libc/src/stdio/vcbprintf.c).
use saynaa_os.Prelude.{
  ℕ, ◌+◌, ◌-◌, ◌%◌, ◌^◌, ◌==◌, ltb, Bool, ◌&&◌, ◌||◌, Option, none, some, List, [], ◌∷◌,
  if◌then◌else◌, length, take,
}
use saynaa_os.Libc.Printf.Output.{u32, Callback, Print, emit, pad, and_then, next_word}
use saynaa_os.Libc.Printf.Parse.{
  short_short, short, default, long, long_long, long_double, intmax_t, size_t, ptrdiff_t, Spec,
  abs_width,
}
use saynaa_os.Libc.Printf.Integers.{Conv, failed, bad, printed, conv_of, convert_number}

abbrev pub max_string_scan : ℕ
max_string_scan = 8192

-- Text with blanks to the field width before it or, with the flag `-`, after it.
unfoldable pub print_text : {A : Type 0} → Callback A → Spec → List ℕ → Print A → Option (Print A)
unfolding pad emit
print_text callback s text p =
    let space : ℕ = abs_width s.field_width - length text in
    and_then (pad callback b' ' (if s.width_negative then 0 else space) p) (λ p1.
      and_then (emit callback text p1)
        (λ p2. pad callback b' ' (if s.width_negative then space else 0) p2))

unfoldable pub convert_char : {A : Type 0} → Callback A → Spec → Print A → Conv A
unfolding next_word print_text
convert_char callback s p = elim s.size [
  | short_short ↦ bad p
  | short ↦ bad p
  | default ↦ (let (w, p') = next_word p in conv_of (print_text callback s (w % 256 ∷ []) p'))
  | long ↦ bad (next_word p).1
  | long_long ↦ bad p
  | long_double ↦ bad p
  | intmax_t ↦ bad p
  | size_t ↦ bad p
  | ptrdiff_t ↦ bad p
]

-- `(null)`
abbrev pub null_text : List ℕ
null_text = 40 ∷ 110 ∷ 117 ∷ 108 ∷ 108 ∷ 41 ∷ []

-- What is printed of a string.
unfoldable pub text_of : (texts : ℕ → List ℕ) → Spec → (conv w : ℕ) → List ℕ
text_of texts s conv w =
    let text : List ℕ = if conv == b's' && w == 0 then null_text else texts w in
    let max_scan : ℕ = elim s.precision [
      | none ↦ max_string_scan
      | some precision ↦ if ltb precision max_string_scan then precision else max_string_scan
    ] in
    take max_scan text

unfoldable pub convert_string :
    {A : Type 0} → Callback A → (texts : ℕ → List ℕ) → Spec → (conv : ℕ) → Print A → Conv A
unfolding next_word print_text text_of
convert_string callback texts s conv p = elim s.size [
  | short_short ↦ bad p
  | short ↦ bad p
  | default ↦
      (let (w, p') = next_word p in conv_of (print_text callback s (text_of texts s conv w) p'))
  | long ↦ bad (next_word p).1
  | long_long ↦ bad p
  | long_double ↦ bad p
  | intmax_t ↦ bad p
  | size_t ↦ bad p
  | ptrdiff_t ↦ bad p
]

-- The store of `%n`: `limit` is that of the type pointed to.
abbrev pub store_written : {A : Type 0} → (limit : ℕ) → Print A → Conv A
store_written limit p =
    let (w, p') = next_word p in
    if w == 0 then failed else printed (record p' { stores = (w, p'.written % limit) ∷ p'.stores })

unfoldable pub convert_written : {A : Type 0} → Spec → Print A → Conv A
unfolding next_word
convert_written s p = elim s.size [
  | short_short ↦ store_written 256 p
  | short ↦ store_written 65536 p
  | default ↦ store_written u32 p
  | long ↦ store_written u32 p
  | long_long ↦ store_written (2 ^ 64) p
  | long_double ↦ bad p
  | intmax_t ↦ store_written (2 ^ 64) p
  | size_t ↦ store_written u32 p
  | ptrdiff_t ↦ store_written u32 p
]

-- The strings at addresses, and of the words of a floating point number what `convert_float` makes of
-- it with a precision and whether it is below 0.
pub record World : Type 0 where
  pub texts : ℕ → List ℕ
  pub float_text : List ℕ → (precision : ℕ) → List ℕ
  pub float_negative : List ℕ → Bool

-- A character that is not counted.
unfoldable pub emit_sign : {A : Type 0} → Callback A → (sign : ℕ) → Print A → Option (Print A)
unfolding emit
emit_sign callback sign p = elim (emit callback (sign ∷ []) p) [
  | none ↦ none
  | some p' ↦ some (record p' { written = p.written })
]

unfoldable pub print_float :
    {A : Type 0} → Callback A → World → Spec → (words : List ℕ) → Print A → Option (Print A)
unfolding pad emit emit_sign
print_float callback world s words p =
    let precision : ℕ = elim s.precision [ none ↦ 6 | some precision ↦ precision ] in
    let text : List ℕ = world.float_text words precision in
    let negative : Bool = world.float_negative words in
    let signed : Bool = negative || s.plus || s.blank in
    let total : ℕ = length text + (if signed then 1 else 0) in
    let space : ℕ = abs_width s.field_width - total in
    and_then
      (if signed
        then emit_sign callback (if negative then b'-' else if s.plus then b'+' else b' ') p
        else some p)
      (λ p1. and_then (pad callback b' ' (if s.width_negative then 0 else space) p1) (λ p2.
        and_then (emit callback text p2)
          (λ p3. pad callback b' ' (if s.width_negative then space else 0) p3)))

unfoldable pub convert_real : {A : Type 0} → Callback A → World → Spec → Print A → Conv A
unfolding next_word print_float
convert_real callback world s p =
    let (w1, p1) = next_word p in
    let (w2, p2) = next_word p1 in
    let (w3, p3) = next_word p2 in
    elim s.size [
      | short_short ↦ bad p
      | short ↦ bad p
      | default ↦ conv_of (print_float callback world s (w1 ∷ w2 ∷ []) p2)
      | long ↦ bad p
      | long_long ↦ bad p
      | long_double ↦ conv_of (print_float callback world s (w1 ∷ w2 ∷ w3 ∷ []) p3)
      | intmax_t ↦ bad p
      | size_t ↦ bad p
      | ptrdiff_t ↦ bad p
    ]

unfoldable pub is_real : (conv : ℕ) → Bool
is_real c =
    c == b'e'
    || c == b'E'
    || c == b'f'
    || c == b'F'
    || c == b'g'
    || c == b'G'
    || c == b'a'
    || c == b'A'

unfoldable pub is_number : (conv : ℕ) → Bool
is_number c =
    c == b'd' || c == b'i' || c == b'o' || c == b'u' || c == b'x' || c == b'X' || c == b'p'

unfoldable pub convert : {A : Type 0} → Callback A → World → Spec → (conv : ℕ) → Print A → Conv A
unfolding convert_number convert_real convert_char convert_string convert_written is_number is_real
convert callback world s conv p =
    if is_number conv
    then convert_number callback s conv p
    else if is_real conv
    then convert_real callback world s p
    else if conv == b'c'
    then convert_char callback s p
    else if conv == b's' || conv == b'm'
    then convert_string callback world.texts s conv p
    else if conv == b'n'
    then convert_written s p
    else bad p
