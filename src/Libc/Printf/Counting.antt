-- ===== src/Libc/Printf/Counting.antt =====
-- The count of the characters (libraries/libc/src/stdio/vcbprintf.c).
use saynaa_os.Prelude.{
  ℕ, zero, suc, ◌+◌, ◌%◌, ◌≡◌, ap, ◌==◌, not, ◌||◌, Bool, true, false, List, [], ◌∷◌, if◌then◌else◌,
  Option, none, some, length, arith, Bool-cases, inl, inr,
}
use saynaa_os.Libc.Printf.Output.{
  u32, Callback, Print, emit, emit_some, pad, and_then, next_word, next_two_words,
}
use saynaa_os.Libc.Printf.Parse.{
  Spec, Length, short_short, short, default, long, long_long, long_double, intmax_t, size_t,
  ptrdiff_t,
}
use saynaa_os.Libc.Printf.Integers.{
  Conv, failed, bad, printed, conv_of, signed_argument, unsigned_argument, prefix_of, output_of,
  padding_of, print_integer, without_sign, convert_number,
}
use saynaa_os.Libc.Printf.Suffix.{next_word-same}

module _ {A : Type 0} (callback : Callback A) (size : A → ℕ)
    (takes : (a : A) (s : List ℕ)
      → (callback a s).0 ≡ length s
      → size (callback a s).1 ≡ size a + length s) where
  -- `written` is the number of characters taken, but for `k` that were not counted.
  abbrev pub Counted : ℕ → Print A → Type 0
  Counted k p = (p.written + k) % u32 ≡ size p.ctx % u32

  abbrev pub AllCounted : ℕ → Option (Print A) → Type 0
  AllCounted k none = Unit {0}
  AllCounted k (some p) = Counted k p

  pub and_then-AllCounted :
      (k j : ℕ) (x : Option (Print A)) (f : Print A → Option (Print A))
      → AllCounted k x
      → ((p : Print A) → Counted k p → AllCounted j (f p))
      → AllCounted j (and_then x f)
  and_then-AllCounted k j none f h g = tt
  and_then-AllCounted k j (some p) f h g = g p h

  pub emit-AllCounted :
      (k : ℕ) (s : List ℕ) (p : Print A) → Counted k p → AllCounted k (emit callback s p)
  unfolding emit
  emit-AllCounted k s p h = elim (Bool-cases ((callback p.ctx s).0 == length s)) [
    | inr refused ↦ rw refused tt
    | inl taken ↦ let more = takes p.ctx s (ground arith) in rw taken (omega (arith, h, more))
  ]

  emit_some-AllCounted :
      (k : ℕ) (s : List ℕ) (p : Print A) → Counted k p → AllCounted k (emit_some callback s p)
  unfolding emit_some
  emit_some-AllCounted k s p h = elim (Bool-cases (length s == 0)) [
    | inl nothing ↦ rw nothing h
    | inr more ↦ rw more (emit-AllCounted k s p h)
  ]

  pub pad-AllCounted : (n k c : ℕ) (p : Print A) → Counted k p → AllCounted k (pad callback c n p)
  unfolding pad
  pad-AllCounted zero k c p h = h
  pad-AllCounted (suc n) k c p h =
      and_then-AllCounted k k (emit callback (c ∷ []) p) (pad callback c n)
        (emit-AllCounted k (c ∷ []) p h) (pad-AllCounted n k c)

  pub next_word-Counted : (k : ℕ) (p : Print A) → Counted k p → Counted k (next_word p).1
  next_word-Counted k p h =
      let (ctx, written) = next_word-same p in omega (arith, h, written, ap size ctx)

  next_two_words-Counted : (k : ℕ) (p : Print A) → Counted k p → Counted k (next_two_words p).1
  unfolding next_two_words
  next_two_words-Counted k p h = next_word-Counted k (next_word p).1 (next_word-Counted k p h)

  print_integer-AllCounted :
      (k : ℕ) (s : Spec) (conversion : ℕ) (negative : Bool) (value : ℕ) (p : Print A)
      → Counted k p
      → AllCounted k (print_integer callback s conversion negative value p)
  unfolding print_integer
  print_integer-AllCounted k s conversion negative value p h =
      let before = prefix_of s conversion negative value in
      let output = output_of s conversion value in
      let padding = padding_of s (length before) (length output) in
      and_then-AllCounted k k _ _ (pad-AllCounted padding.left k b' ' p h) (λ p1 h1.
        and_then-AllCounted k k _ _ (emit_some-AllCounted k before p1 h1) (λ p2 h2.
          and_then-AllCounted k k _ _ (pad-AllCounted padding.zeros k b'0' p2 h2) (λ p3 h3.
            and_then-AllCounted k k _ _ (pad-AllCounted padding.digits k b'0' p3 h3) (λ p4 h4.
              and_then-AllCounted k k _ _ (emit_some-AllCounted k output p4 h4)
                (λ p5 h5. pad-AllCounted padding.right k b' ' p5 h5)))))

  abbrev pub ConvCounted : ℕ → Conv A → Type 0
  ConvCounted k failed = Unit {0}
  ConvCounted k (bad p) = Counted k p
  ConvCounted k (printed p) = Counted k p

  pub conv_of-ConvCounted :
      (k : ℕ) (x : Option (Print A)) → AllCounted k x → ConvCounted k (conv_of x)
  conv_of-ConvCounted k none h = tt
  conv_of-ConvCounted k (some p) h = h

  pub if-ConvCounted :
      (b : Bool) (k : ℕ) (x y : Conv A)
      → ConvCounted k x
      → ConvCounted k y
      → ConvCounted k (if b then x else y)
  if-ConvCounted true k x y hx hy = hx
  if-ConvCounted false k x y hx hy = hy

  -- What a number's argument leaves.
  abbrev ArgCounted : ℕ → Option (Bool × ℕ × Print A) → Type 0
  ArgCounted k none = Unit {0}
  ArgCounted k (some (negative, value, p)) = Counted k p

  signed-ArgCounted :
      (k : ℕ) (l : Length) (p : Print A) → Counted k p → ArgCounted k (signed_argument l p)
  unfolding signed_argument
  signed-ArgCounted k short_short p h = next_word-Counted k p h
  signed-ArgCounted k short p h = next_word-Counted k p h
  signed-ArgCounted k default p h = next_word-Counted k p h
  signed-ArgCounted k long p h = next_word-Counted k p h
  signed-ArgCounted k long_long p h = next_two_words-Counted k p h
  signed-ArgCounted k long_double p h = tt
  signed-ArgCounted k intmax_t p h = next_two_words-Counted k p h
  signed-ArgCounted k size_t p h = next_word-Counted k p h
  signed-ArgCounted k ptrdiff_t p h = next_word-Counted k p h

  unsigned-ArgCounted :
      (k : ℕ) (l : Length) (p : Print A) → Counted k p → ArgCounted k (unsigned_argument l p)
  unfolding unsigned_argument
  unsigned-ArgCounted k short_short p h = next_word-Counted k p h
  unsigned-ArgCounted k short p h = next_word-Counted k p h
  unsigned-ArgCounted k default p h = next_word-Counted k p h
  unsigned-ArgCounted k long p h = next_word-Counted k p h
  unsigned-ArgCounted k long_long p h = next_two_words-Counted k p h
  unsigned-ArgCounted k long_double p h = tt
  unsigned-ArgCounted k intmax_t p h = next_two_words-Counted k p h
  unsigned-ArgCounted k size_t p h = next_word-Counted k p h
  unsigned-ArgCounted k ptrdiff_t p h = next_word-Counted k p h

  arg-ConvCounted :
      (k : ℕ) (x : Option (Bool × ℕ × Print A)) (p : Print A)
      (f : Bool → ℕ → Print A → Option (Print A))
      → Counted k p
      → ArgCounted k x
      → ((negative : Bool) (value : ℕ) (q : Print A)
          → Counted k q
          → AllCounted k (f negative value q))
      → ConvCounted k
          (elim x [ none ↦ bad p | some (negative, value, q) ↦ conv_of (f negative value q) ])
  arg-ConvCounted k none p f h a g = h
  arg-ConvCounted k (some (negative, value, q)) p f h a g =
      conv_of-ConvCounted k (f negative value q) (g negative value q a)

  pub convert_number-ConvCounted :
      (k : ℕ) (s : Spec) (conv : ℕ) (p : Print A)
      → Counted k p
      → ConvCounted k (convert_number callback s conv p)
  unfolding convert_number
  convert_number-ConvCounted k s conv p h =
      if-ConvCounted (conv == b'p') k _ _
        (conv_of-ConvCounted k _ (
          print_integer-AllCounted k (record (without_sign s) { alternate = not s.alternate }) b'x'
            false (next_word p).0 (next_word p).1 (next_word-Counted k p h)))
        (if-ConvCounted (conv == b'i' || conv == b'd') k _ _
          (arg-ConvCounted k (signed_argument s.size p) p (print_integer callback s conv) h
            (signed-ArgCounted k s.size p h) (print_integer-AllCounted k s conv))
          (arg-ConvCounted k (unsigned_argument s.size p) p
            (print_integer callback (without_sign s) conv) h (unsigned-ArgCounted k s.size p h)
            (print_integer-AllCounted k (without_sign s) conv)))
