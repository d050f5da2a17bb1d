-- ===== src/Libc/Printf/Laws.antt =====
-- The rounds of formatted output (libraries/libc/src/stdio/vcbprintf.c).
use saynaa_os.Prelude.{
  ℕ, zero, suc, ◌+◌, ◌-◌, ◌%◌, ◌^◌, ◌<◌, ◌≤◌, ◌≡◌, refl, sym, ap, subst, ◌==◌, ltb, leb, Bool, true,
  false, List, [], ◌∷◌, if◌then◌else◌, Option, none, some, length, drop, arith, Bool-cases, inl,
  inr,
}
use saynaa_os.Libc.Printf.Output.{u32, Callback, Print, emit, and_then}
use saynaa_os.Libc.Printf.Parse.{
  max_format_scan, Spec, no_spec, parse_flags, parse_precision, parse_length,
}
use saynaa_os.Libc.Printf.Integers.{Conv, failed, bad, printed}
use saynaa_os.Libc.Printf.Convert.{World, convert}
use saynaa_os.Libc.Printf.Loop.{
  literal_run, Round, stop, next, then_next, percent, end_conversion, last_part, after_precision,
  after_width, specifier, at_percent, round, print_loop, vcbprintf,
}
use saynaa_os.Libc.Printf.Suffix.{
  Suffix, Suffix-refl, Suffix-trans, Suffix-cons, Suffix-length, Keeps, parse_flags-Suffix,
  parse_width-Keeps, parse_precision-Keeps, parse_length-Suffix,
}
use saynaa_os.Libc.Printf.Counting.{Counted, AllCounted, emit-AllCounted}
use saynaa_os.Libc.Printf.Conversions.{real, ConvEnds, convert-ConvEnds}

abbrev pub reals : List ℕ → ℕ
reals [] = 0
reals (c ∷ cs) = real c + reals cs

reals-Suffix : (rest fmt : List ℕ) → Suffix rest fmt → reals rest ≤ reals fmt
reals-Suffix rest fmt (n, e) = subst (λ l. reals l ≤ reals fmt) (sym e) (fewer n fmt)
  where
    fewer : (n : ℕ) (l : List ℕ) → reals (drop n l) ≤ reals l
    fewer zero l = omega arith
    fewer (suc n) [] = omega arith
    fewer (suc n) (x ∷ l) = omega (arith, fewer n l)

literal_run-Suffix : (count : ℕ) (fmt : List ℕ) → Suffix (literal_run count fmt).1 fmt
unfolding literal_run
literal_run-Suffix zero fmt = Suffix-refl fmt
literal_run-Suffix (suc count) [] = Suffix-refl []
literal_run-Suffix (suc count) (c ∷ cs) = elim (Bool-cases (c == b'%')) [
  | inl is ↦ rw is (Suffix-refl (c ∷ cs))
  | inr other ↦ rw other (Suffix-cons _ c cs (literal_run-Suffix count cs))
]

-- A run that starts with another character than `%` is not empty.
literal_first :
    (count c : ℕ) (cs : List ℕ)
    → (c == b'%') ≡ false
    → Suffix (literal_run (suc count) (c ∷ cs)).1 cs
unfolding literal_run
literal_first count c cs other = rw other (literal_run-Suffix count cs)

module _ {A : Type 0} (callback : Callback A) (size : A → ℕ)
    (takes : (a : A) (s : List ℕ)
      → (callback a s).0 ≡ length s
      → size (callback a s).1 ≡ size a + length s) where
  -- What a round leaves of the format `cs` behind its first character, and of the count.
  abbrev Goes : (k : ℕ) → (cs : List ℕ) → Round A → Type 0
  Goes k cs stop = Unit {0}
  Goes k cs (next p rejected fmt) =
      Suffix fmt cs
      × (j : ℕ) × (k ≤ j)
      × (j + reals fmt ≤ k + reals cs)
      × Counted callback size takes j p

  then_next-Goes :
      (k : ℕ) (cs rest : List ℕ) (rejected : Bool) (x : Option (Print A))
      → Suffix rest cs
      → AllCounted callback size takes k x
      → Goes k cs (then_next rejected rest x)
  then_next-Goes k cs rest rejected none suffix h = tt
  then_next-Goes k cs rest rejected (some p) suffix h =
      (suffix, k, omega arith, omega (arith, reals-Suffix rest cs suffix), h)

  percent-Goes :
      (k : ℕ) (cs rest : List ℕ) (rejected : Bool) (p : Print A)
      → Suffix rest cs
      → Counted callback size takes k p
      → Goes k cs (then_next rejected rest (emit callback percent p))
  percent-Goes k cs rest rejected p suffix h =
      then_next-Goes k cs rest rejected (emit callback percent p) suffix
        (emit-AllCounted callback size takes k percent p h)

  end_conversion-Goes :
      (k j : ℕ) (cs f5 : List ℕ) (conv : ℕ) (x : Conv A)
      → Suffix (conv ∷ f5) cs
      → k ≤ j
      → j ≤ k + real conv
      → ConvEnds callback size takes k j x
      → Goes k cs (end_conversion callback cs f5 x)
  unfolding end_conversion
  end_conversion-Goes k j cs f5 conv failed suffix low high h = tt
  end_conversion-Goes k j cs f5 conv (bad p) suffix low high h =
      percent-Goes k cs cs true p (Suffix-refl cs) h
  end_conversion-Goes k j cs f5 conv (printed p) suffix low high h = (
    Suffix-trans f5 (conv ∷ f5) cs (1, refl) suffix,
    j,
    low,
    omega (arith, reals-Suffix (conv ∷ f5) cs suffix, high),
    h,
  )

  last_part-Goes :
      (k : ℕ) (cs : List ℕ) (world : World) (s : Spec) (f4 : List ℕ) (p : Print A)
      → Suffix f4 cs
      → Counted callback size takes k p
      → Goes k cs (last_part callback world cs s f4 p)
  unfolding last_part
  last_part-Goes k cs world s [] p suffix h = percent-Goes k cs cs false p (Suffix-refl cs) h
  last_part-Goes k cs world s (conv ∷ f5) p suffix h =
      let (j, low, high, ends) = convert-ConvEnds callback size takes k world s conv p h in
      end_conversion-Goes k j cs f5 conv (convert callback world s conv p) suffix low high ends

  moved :
      (k : ℕ) (p q : Print A)
      → q.ctx ≡ p.ctx
      → q.written ≡ p.written
      → Counted callback size takes k p
      → Counted callback size takes k q
  moved k p q ctx written h = omega (arith, h, written, ap size ctx)

  after_precision-Goes :
      (k : ℕ) (cs f : List ℕ) (world : World) (p : Print A) (x : Option (Spec × List ℕ × Print A))
      → Suffix f cs
      → Keeps p f x
      → Counted callback size takes k p
      → Goes k cs (after_precision callback world cs x)
  unfolding after_precision
  after_precision-Goes k cs f world p none suffix keeps h = tt
  after_precision-Goes k cs f world p (some (s, f3, q)) suffix (shorter, ctx, written) h =
      last_part-Goes k cs world (parse_length s f3).0 (parse_length s f3).1 q
        (Suffix-trans _ f3 cs (parse_length-Suffix s f3) (Suffix-trans f3 f cs shorter suffix))
        (moved k p q ctx written h)

  after_width-Goes :
      (k : ℕ) (cs f : List ℕ) (world : World) (p : Print A) (x : Option (Spec × List ℕ × Print A))
      → Suffix f cs
      → Keeps p f x
      → Counted callback size takes k p
      → Goes k cs (after_width callback world cs x)
  unfolding after_width
  after_width-Goes k cs f world p none suffix keeps h = tt
  after_width-Goes k cs f world p (some (s, f2, q)) suffix (shorter, ctx, written) h =
      after_precision-Goes k cs f2 world q (parse_precision s f2 q)
        (Suffix-trans f2 f cs shorter suffix) (parse_precision-Keeps s f2 q)
        (moved k p q ctx written h)

  specifier-Goes :
      (k : ℕ) (world : World) (p : Print A) (cs : List ℕ)
      → Counted callback size takes k p
      → Goes k cs (specifier callback world p cs)
  unfolding specifier
  specifier-Goes k world p cs h =
      after_width-Goes k cs (parse_flags no_spec cs).1 world p _ (parse_flags-Suffix cs no_spec)
        (parse_width-Keeps (parse_flags no_spec cs).0 (parse_flags no_spec cs).1 p) h

  at_percent-Goes :
      (k : ℕ) (world : World) (rejected : Bool) (p : Print A) (cs : List ℕ)
      → Counted callback size takes k p
      → Goes k cs (at_percent callback world rejected p cs)
  unfolding at_percent
  at_percent-Goes k world true p [] h = percent-Goes k [] [] true p (Suffix-refl []) h
  at_percent-Goes k world false p [] h = specifier-Goes k world p [] h
  at_percent-Goes k world rejected p (c ∷ cs) h = elim (Bool-cases (c == b'%')) [
    | inl twice ↦ rw twice (percent-Goes k (c ∷ cs) cs rejected p (1, refl) h)
    | inr other ↦ rw other (by_flag rejected)
  ]
    where
      by_flag :
          (b : Bool)
          → Goes k (c ∷ cs) (
              if b
              then then_next true (c ∷ cs) (emit callback percent p)
              else specifier callback world p (c ∷ cs))
      by_flag true = percent-Goes k (c ∷ cs) (c ∷ cs) true p (Suffix-refl (c ∷ cs)) h
      by_flag false = specifier-Goes k world p (c ∷ cs) h

  round-Goes :
      (k : ℕ) (world : World) (rejected : Bool) (p : Print A) (c : ℕ) (cs : List ℕ)
      → Counted callback size takes k p
      → Goes k cs (round callback world rejected p c cs)
  unfolding round
  round-Goes k world rejected p c cs h = elim (Bool-cases (c == b'%')) [
    | inl percent_sign ↦
        subst (λ b. Goes k cs (either b)) (sym percent_sign)
          (at_percent-Goes k world rejected p cs h)
    | inr other ↦
        subst (λ b. Goes k cs (either b)) (sym other)
          (by_length (leb max_format_scan (length (literal_run max_format_scan (c ∷ cs)).0))
            (literal_first 4095 c cs other))
  ]
    where
      either : Bool → Round A
      either b =
          if b
          then at_percent callback world rejected p cs
          else if leb max_format_scan (length (literal_run max_format_scan (c ∷ cs)).0)
          then stop
          else then_next rejected (literal_run max_format_scan (c ∷ cs)).1
              (emit callback (literal_run max_format_scan (c ∷ cs)).0 p)

      by_length :
          (b : Bool)
          → Suffix (literal_run max_format_scan (c ∷ cs)).1 cs
          → Goes k cs (
              if b
              then stop
              else then_next rejected
                  (literal_run max_format_scan (c ∷ cs)).1
                  (emit callback (literal_run max_format_scan (c ∷ cs)).0 p))
      by_length true suffix = tt
      by_length false suffix =
          then_next-Goes k cs (literal_run max_format_scan (c ∷ cs)).1 rejected _ suffix
            (emit-AllCounted callback size takes k (literal_run max_format_scan (c ∷ cs)).0 p h)

  -- The end of the loop.
  abbrev Ends : (k : ℕ) → List ℕ → Option (Print A) → Type 0
  Ends k fmt none = Unit {0}
  Ends k fmt (some p) = (j : ℕ) × (j ≤ k + reals fmt) × Counted callback size takes j p

  Ends-more :
      (k j : ℕ) (rest cs : List ℕ) (c : ℕ) (x : Option (Print A))
      → j + reals rest ≤ k + reals cs
      → Ends j rest x
      → Ends k (c ∷ cs) x
  Ends-more k j rest cs c none h e = tt
  Ends-more k j rest cs c (some p) h (i, low, counted) = (i, omega (arith, low, h), counted)

  print_loop-Ends :
      (fuel k : ℕ) (world : World) (rejected : Bool) (p : Print A) (fmt : List ℕ)
      → length fmt < fuel
      → Counted callback size takes k p
      → (x : Option (Print A)) × (print_loop fuel callback world rejected p fmt ≡ some x)
        × Ends k fmt x
  unfolding print_loop
  print_loop-Ends zero k world rejected p fmt short h = absurd (omega (arith, short))
  print_loop-Ends (suc fuel) k world rejected p [] short h = (some p, refl, (k, omega arith, h))
  print_loop-Ends (suc fuel) k world rejected p (c ∷ cs) short h =
      by_round (round callback world rejected p c cs) (round-Goes k world rejected p c cs h)
        (λ j q b fmt. print_loop-Ends fuel j world b q fmt)
    where
      by_round :
          (r : Round A)
          → Goes k cs r
          → ((j : ℕ) (q : Print A) (b : Bool) (fmt : List ℕ)
              → length fmt < fuel
              → Counted callback size takes j q
              → (x : Option (Print A)) × (print_loop fuel callback world b q fmt ≡ some x)
                × Ends j fmt x)
          → (x : Option (Print A)) × (elim r [
            | stop ↦ some none
            | next q b fmt ↦ print_loop fuel callback world b q fmt
          ]
              ≡ some x)
            × Ends k (c ∷ cs) x
      by_round stop goes more = (none, refl, tt)
      by_round (next q b fmt) (suffix, j, low, fewer, counted) more =
          let (x, e, ends) =
            more j q b fmt (omega (arith, Suffix-length fmt cs suffix, short)) counted in
          (x, e, Ends-more k j fmt cs c x fewer ends)

  -- Where the callback only says that it took all characters if it did, and has none at first:
  -- `vcbprintf` ends for every format. If it does not end with -1, its result is the number of
  -- characters taken, modulo 2 ^ 32, less at most one for each of the letters aAeEfFgG in the format.
  pub vcbprintf_lem :
      (world : World) (ctx : A) (args fmt : List ℕ)
      → size ctx ≡ 0
      → (x : Option (ℕ × Print A)) × (vcbprintf callback world ctx args fmt ≡ some x)
        × ((n : ℕ) (p : Print A)
            → x ≡ some (n, p)
            → (k : ℕ) × (k ≤ reals fmt) × ((n + k) % u32 ≡ size p.ctx % u32))
  unfolding vcbprintf
  vcbprintf_lem world ctx args fmt empty =
      let start : Print A = record { ctx = ctx; written = 0; args = args; stores = [] } in
      let (x, e, ends) =
        print_loop-Ends (length fmt + 1) 0 world false start fmt (omega arith)
          (omega (arith, empty)) in
      (
        and_then x (λ p. if ltb (2 ^ 31 - 1) p.written then none else some (p.written, p)),
        ap
            (λ r. elim r [
              | none ↦ none
              | some x ↦ some (
                  and_then x
                    (λ p. if ltb (2 ^ 31 - 1) p.written then none else some (p.written, p)))
            ])
            e,
        by_result x ends,
      )
    where
      result : Print A → Bool → Option (ℕ × Print A)
      result p b = if b then none else some (p.written, p)

      by_limit :
          (b : Bool) (p : Print A) (n : ℕ) (q : Print A)
          → Ends 0 fmt (some p)
          → result p b ≡ some (n, q)
          → (k : ℕ) × (k ≤ reals fmt) × ((n + k) % u32 ≡ size q.ctx % u32)
      by_limit true p n q ends is = absurd (ground (arith, is))
      by_limit false p n q (j, low, counted) is =
          let same : ◌≡◌ {A = ℕ × Print A} (p.written, p) (n, q) =
            ap {B = ℕ × Print A} (λ o. elim o [ none ↦ (p.written, p) | some r ↦ r ]) is in
          subst (λ r. (k : ℕ) × (k ≤ reals fmt) × ((r.0 + k) % u32 ≡ size r.1.ctx % u32)) same
            (j, omega (arith, low), counted)

      by_result :
          (x : Option (Print A))
          → Ends 0 fmt x
          → (n : ℕ) (p : Print A)
          → and_then x (λ p. result p (ltb (2 ^ 31 - 1) p.written)) ≡ some (n, p)
          → (k : ℕ) × (k ≤ reals fmt) × ((n + k) % u32 ≡ size p.ctx % u32)
      by_result none ends n p is = absurd (ground (arith, is))
      by_result (some q) ends n p is = by_limit (ltb (2 ^ 31 - 1) q.written) q n p ends is
