-- ===== src/Libc/Printf/Conversions.antt =====
-- The count of the characters of a conversion (libraries/libc/src/stdio/vcbprintf.c).
use saynaa_os.Prelude.{
  ℕ, ◌+◌, ◌-◌, ◌%◌, ◌^◌, ◌≤◌, ◌≡◌, sym, subst, ◌==◌, ◌||◌, Bool, List, [], ◌∷◌, if◌then◌else◌,
  Option, none, some, length, arith, Bool-cases, inl, inr,
}
use saynaa_os.Libc.Printf.Output.{u32, Callback, Print, emit, pad, and_then, next_word}
use saynaa_os.Libc.Printf.Parse.{
  Spec, Length, short_short, short, default, long, long_long, long_double, intmax_t, size_t,
  ptrdiff_t, abs_width,
}
use saynaa_os.Libc.Printf.Integers.{Conv, failed, bad, printed, conv_of}
use saynaa_os.Libc.Printf.Convert.{
  World, print_text, convert_char, text_of, convert_string, store_written, convert_written,
  emit_sign, print_float, convert_real, is_real, is_number, convert,
}
use saynaa_os.Libc.Printf.Counting.{
  Counted, AllCounted, ConvCounted, and_then-AllCounted, emit-AllCounted, pad-AllCounted,
  next_word-Counted, conv_of-ConvCounted, if-ConvCounted, convert_number-ConvCounted,
}

-- The letters of a format that may be a conversion of a floating point number.
abbrev pub real : ℕ → ℕ
real c = if is_real c then 1 else 0

module _ {A : Type 0} (callback : Callback A) (size : A → ℕ)
    (takes : (a : A) (s : List ℕ)
      → (callback a s).0 ≡ length s
      → size (callback a s).1 ≡ size a + length s) where
  print_text-AllCounted :
      (k : ℕ) (s : Spec) (text : List ℕ) (p : Print A)
      → Counted callback size takes k p
      → AllCounted callback size takes k (print_text callback s text p)
  unfolding print_text
  print_text-AllCounted k s text p h =
      let space : ℕ = abs_width s.field_width - length text in
      and_then-AllCounted callback size takes k k _ _
        (pad-AllCounted callback size takes (if s.width_negative then 0 else space) k b' ' p h)
        (λ p1 h1.
          and_then-AllCounted callback size takes k k _ _
            (emit-AllCounted callback size takes k text p1 h1)
            (λ p2 h2.
              pad-AllCounted callback size takes (if s.width_negative then space else 0) k b' ' p2
                h2))

  convert_char-ConvCounted :
      (k : ℕ) (s : Spec) (p : Print A)
      → Counted callback size takes k p
      → ConvCounted callback size takes k (convert_char callback s p)
  unfolding convert_char
  convert_char-ConvCounted k s p h = by_size s.size
    where
      text : Conv A
      text = conv_of (print_text callback s ((next_word p).0 % 256 ∷ []) (next_word p).1)

      by_size :
          (l : Length)
          → ConvCounted callback size takes k (elim l [
            | short_short ↦ bad p
            | short ↦ bad p
            | default ↦ text
            | long ↦ bad (next_word p).1
            | long_long ↦ bad p
            | long_double ↦ bad p
            | intmax_t ↦ bad p
            | size_t ↦ bad p
            | ptrdiff_t ↦ bad p
          ])
      by_size short_short = h
      by_size short = h
      by_size default = conv_of-ConvCounted callback size takes k _ (
          print_text-AllCounted k s ((next_word p).0 % 256 ∷ []) (next_word p).1
            (next_word-Counted callback size takes k p h))
      by_size long = next_word-Counted callback size takes k p h
      by_size long_long = h
      by_size long_double = h
      by_size intmax_t = h
      by_size size_t = h
      by_size ptrdiff_t = h

  convert_string-ConvCounted :
      (k : ℕ) (texts : ℕ → List ℕ) (s : Spec) (conv : ℕ) (p : Print A)
      → Counted callback size takes k p
      → ConvCounted callback size takes k (convert_string callback texts s conv p)
  unfolding convert_string
  convert_string-ConvCounted k texts s conv p h = by_size s.size
    where
      text : List ℕ
      text = text_of texts s conv (next_word p).0

      by_size :
          (l : Length)
          → ConvCounted callback size takes k (elim l [
            | short_short ↦ bad p
            | short ↦ bad p
            | default ↦ conv_of (print_text callback s text (next_word p).1)
            | long ↦ bad (next_word p).1
            | long_long ↦ bad p
            | long_double ↦ bad p
            | intmax_t ↦ bad p
            | size_t ↦ bad p
            | ptrdiff_t ↦ bad p
          ])
      by_size short_short = h
      by_size short = h
      by_size default = conv_of-ConvCounted callback size takes k _ (
          print_text-AllCounted k s text (next_word p).1
            (next_word-Counted callback size takes k p h))
      by_size long = next_word-Counted callback size takes k p h
      by_size long_long = h
      by_size long_double = h
      by_size intmax_t = h
      by_size size_t = h
      by_size ptrdiff_t = h

  store_written-ConvCounted :
      (limit k : ℕ) (p : Print A)
      → Counted callback size takes k p
      → ConvCounted callback size takes k (store_written limit p)
  store_written-ConvCounted limit k p h =
      if-ConvCounted callback size takes ((next_word p).0 == 0) k _ _ tt
        (next_word-Counted callback size takes k p h)

  convert_written-ConvCounted :
      (k : ℕ) (s : Spec) (p : Print A)
      → Counted callback size takes k p
      → ConvCounted callback size takes k (convert_written s p)
  unfolding convert_written
  convert_written-ConvCounted k s p h = by_size s.size
    where
      by_size :
          (l : Length)
          → ConvCounted callback size takes k (elim l [
            | short_short ↦ store_written 256 p
            | short ↦ store_written 65536 p
            | default ↦ store_written u32 p
            | long ↦ store_written u32 p
            | long_long ↦ store_written (2 ^ 64) p
            | long_double ↦ bad p
            | intmax_t ↦ store_written (2 ^ 64) p
            | size_t ↦ store_written u32 p
            | ptrdiff_t ↦ store_written u32 p
          ])
      by_size short_short = store_written-ConvCounted 256 k p h
      by_size short = store_written-ConvCounted 65536 k p h
      by_size default = store_written-ConvCounted u32 k p h
      by_size long = store_written-ConvCounted u32 k p h
      by_size long_long = store_written-ConvCounted (2 ^ 64) k p h
      by_size long_double = h
      by_size intmax_t = store_written-ConvCounted (2 ^ 64) k p h
      by_size size_t = store_written-ConvCounted u32 k p h
      by_size ptrdiff_t = store_written-ConvCounted u32 k p h

  -- A sign goes uncounted.
  emit_sign-AllCounted :
      (k sign : ℕ) (p : Print A)
      → Counted callback size takes k p
      → AllCounted callback size takes (k + 1) (emit_sign callback sign p)
  unfolding emit_sign emit
  emit_sign-AllCounted k sign p h = elim (Bool-cases ((callback p.ctx (sign ∷ [])).0 == 1)) [
    | inr refused ↦ subst (λ b. AllCounted callback size takes (k + 1) (after b)) (sym refused) tt
    | inl taken ↦
        let more = takes p.ctx (sign ∷ []) (ground arith) in
        subst (λ b. AllCounted callback size takes (k + 1) (after b)) (sym taken)
          (omega (arith, h, more))
  ]
    where
      after : Bool → Option (Print A)
      after b =
          elim (if b
            then some
                (record p { ctx = (callback p.ctx (sign ∷ [])).1; written = (p.written + 1) % u32 })
            else none) [ none ↦ none | some p' ↦ some (record p' { written = p.written }) ]

  -- What is behind the sign of a floating point number.
  float_text-AllCounted :
      (k space : ℕ) (s : Spec) (text : List ℕ) (p : Print A)
      → Counted callback size takes k p
      → AllCounted callback size takes k (
          and_then (pad callback b' ' (if s.width_negative then 0 else space) p) (λ p2.
            and_then
              (emit callback text p2)
              (λ p3. pad callback b' ' (if s.width_negative then space else 0) p3)))
  float_text-AllCounted k space s text p h =
      and_then-AllCounted callback size takes k k _ _
        (pad-AllCounted callback size takes (if s.width_negative then 0 else space) k b' ' p h)
        (λ p2 h2.
          and_then-AllCounted callback size takes k k _ _
            (emit-AllCounted callback size takes k text p2 h2)
            (λ p3 h3.
              pad-AllCounted callback size takes (if s.width_negative then space else 0) k b' ' p3
                h3))

  print_float-AllCounted :
      (k : ℕ) (world : World) (s : Spec) (words : List ℕ) (p : Print A)
      → Counted callback size takes k p
      → (j : ℕ) × (k ≤ j)
        × (j ≤ k + 1)
        × AllCounted callback size takes j (print_float callback world s words p)
  unfolding print_float
  print_float-AllCounted k world s words p h =
      let negative : Bool = world.float_negative words in
      elim (Bool-cases (negative || s.plus || s.blank)) [
        | inl signed ↦ (
          k + 1,
          omega arith,
          omega arith,
          rw signed (
              and_then-AllCounted callback size takes (k + 1) (k + 1) _ _
                (emit_sign-AllCounted k (if negative then b'-' else if s.plus then b'+' else b' ') p
                  h)
                (λ p1 h1. float_text-AllCounted (k + 1) _ s _ p1 h1)),
        )
        | inr plain ↦ (k, omega arith, omega arith, rw plain (float_text-AllCounted k _ s _ p h))
      ]

  -- The count behind a conversion: `k` where it is refused, `j` where it is done.
  abbrev pub ConvEnds : (k j : ℕ) → Conv A → Type 0
  ConvEnds k j failed = Unit {0}
  ConvEnds k j (bad p) = Counted callback size takes k p
  ConvEnds k j (printed p) = Counted callback size takes j p

  same-ConvEnds : (k : ℕ) (x : Conv A) → ConvCounted callback size takes k x → ConvEnds k k x
  same-ConvEnds k failed h = h
  same-ConvEnds k (bad p) h = h
  same-ConvEnds k (printed p) h = h

  conv_of-ConvEnds :
      (k j : ℕ) (x : Option (Print A))
      → AllCounted callback size takes j x
      → ConvEnds k j (conv_of x)
  conv_of-ConvEnds k j none h = tt
  conv_of-ConvEnds k j (some p) h = h

  conv_of-print_float :
      (k : ℕ) (world : World) (s : Spec) (words : List ℕ) (p : Print A)
      → Counted callback size takes k p
      → (j : ℕ) × (k ≤ j)
        × (j ≤ k + 1)
        × ConvEnds k j (conv_of (print_float callback world s words p))
  conv_of-print_float k world s words p h =
      let (j, low, high, is) = print_float-AllCounted k world s words p h in
      (j, low, high, conv_of-ConvEnds k j (print_float callback world s words p) is)

  convert_real-ConvEnds :
      (k : ℕ) (world : World) (s : Spec) (p : Print A)
      → Counted callback size takes k p
      → (j : ℕ) × (k ≤ j) × (j ≤ k + 1) × ConvEnds k j (convert_real callback world s p)
  unfolding convert_real
  convert_real-ConvEnds k world s p h = by_size s.size
    where
      p1 : Print A
      p1 = (next_word p).1

      p2 : Print A
      p2 = (next_word p1).1

      p3 : Print A
      p3 = (next_word p2).1

      two : List ℕ
      two = (next_word p).0 ∷ (next_word p1).0 ∷ []

      three : List ℕ
      three = (next_word p).0 ∷ (next_word p1).0 ∷ (next_word p2).0 ∷ []

      h2 : Counted callback size takes k p2
      h2 = next_word-Counted callback size takes k p1 (next_word-Counted callback size takes k p h)

      same : (j : ℕ) × (k ≤ j) × (j ≤ k + 1) × Counted callback size takes k p
      same = (k, omega arith, omega arith, h)

      by_size :
          (l : Length)
          → (j : ℕ) × (k ≤ j)
            × (j ≤ k + 1)
            × ConvEnds k j (elim l [
              | short_short ↦ bad p
              | short ↦ bad p
              | default ↦ conv_of (print_float callback world s two p2)
              | long ↦ bad p
              | long_long ↦ bad p
              | long_double ↦ conv_of (print_float callback world s three p3)
              | intmax_t ↦ bad p
              | size_t ↦ bad p
              | ptrdiff_t ↦ bad p
            ])
      by_size short_short = same
      by_size short = same
      by_size default = conv_of-print_float k world s two p2 h2
      by_size long = same
      by_size long_long = same
      by_size long_double =
          conv_of-print_float k world s three p3 (next_word-Counted callback size takes k p2 h2)
      by_size intmax_t = same
      by_size size_t = same
      by_size ptrdiff_t = same

  pub convert-ConvEnds :
      (k : ℕ) (world : World) (s : Spec) (conv : ℕ) (p : Print A)
      → Counted callback size takes k p
      → (j : ℕ) × (k ≤ j) × (j ≤ k + real conv) × ConvEnds k j (convert callback world s conv p)
  unfolding convert
  convert-ConvEnds k world s conv p h = elim (Bool-cases (is_number conv)) [
    | inl number ↦ (
      k,
      omega arith,
      omega arith,
      rw number (same-ConvEnds k _ (convert_number-ConvCounted callback size takes k s conv p h)),
    )
    | inr n1 ↦ elim (Bool-cases (is_real conv)) [
      | inl is ↦
          let (j, low, high, counted) = convert_real-ConvEnds k world s p h in
          (j, low, rw is high, rw (n1, is) counted)
      | inr n2 ↦ (
        k,
        omega arith,
        omega arith,
        rw (n1, n2)
            (same-ConvEnds k _ (
              if-ConvCounted callback size takes (conv == b'c') k _ _
                (convert_char-ConvCounted k s p h)
                (if-ConvCounted callback size takes (conv == b's' || conv == b'm') k _ _
                  (convert_string-ConvCounted k world.texts s conv p h)
                  (if-ConvCounted callback size takes (conv == b'n') k _ _
                    (convert_written-ConvCounted k s p h) h)))),
      )
    ]
  ]
