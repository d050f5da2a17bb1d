-- ===== src/Libc/Printf/Loop.antt =====
-- The loop over the format (libraries/libc/src/stdio/vcbprintf.c).
use saynaa_os.Prelude.{
  ℕ, zero, suc, ◌+◌, ◌-◌, ◌^◌, ◌==◌, ltb, leb, Bool, true, false, Option, none, some, List, [], ◌∷◌,
  if◌then◌else◌, length,
}
use saynaa_os.Libc.Printf.Output.{Callback, Print, emit, and_then}
use saynaa_os.Libc.Printf.Parse.{
  Spec, max_format_scan, no_spec, parse_flags, parse_width, parse_precision, parse_length,
}
use saynaa_os.Libc.Printf.Integers.{Conv, failed, bad, printed}
use saynaa_os.Libc.Printf.Convert.{World, convert}

-- The run up to the next `%`, of at most `count` characters, and what is behind it.
unfoldable pub literal_run : (count : ℕ) → List ℕ → List ℕ × List ℕ
literal_run zero fmt = ([], fmt)
literal_run (suc count) [] = ([], [])
literal_run (suc count) (c ∷ cs) =
    let (run, rest) = literal_run count cs in if c == b'%' then ([], c ∷ cs) else (c ∷ run, rest)

-- A round of the loop ends it with `return -1`, or goes on with the rest of the format; the Boolean is
-- `rejected_bad_specifier`.
pub data Round (A : Type 0) : Type 0 where
  stop : Round A
  next : Print A → Bool → List ℕ → Round A

abbrev pub then_next : {A : Type 0} → Bool → List ℕ → Option (Print A) → Round A
then_next rejected fmt x = elim x [ none ↦ stop | some p ↦ next p rejected fmt ]

abbrev pub percent : List ℕ
percent = b'%' ∷ []

-- The end of a conversion behind the `%` that `cs` follows.
unfoldable pub end_conversion : {A : Type 0} → Callback A → (cs f5 : List ℕ) → Conv A → Round A
unfolding emit
end_conversion callback cs f5 failed = stop
end_conversion callback cs f5 (bad p) = then_next true cs (emit callback percent p)
end_conversion callback cs f5 (printed p) = next p false f5

-- The conversion itself, from its last character on.
unfoldable pub last_part :
    {A : Type 0} → Callback A → World → (cs : List ℕ) → Spec → List ℕ → Print A → Round A
unfolding end_conversion convert emit
last_part callback world cs s [] p = then_next false cs (emit callback percent p)
last_part callback world cs s (conv ∷ f5) p =
    end_conversion callback cs f5 (convert callback world s conv p)

unfoldable pub after_precision :
    {A : Type 0} → Callback A → World → (cs : List ℕ) → Option (Spec × List ℕ × Print A) → Round A
unfolding parse_length last_part
after_precision callback world cs none = stop
after_precision callback world cs (some (s, f, p)) =
    let (s', f') = parse_length s f in last_part callback world cs s' f' p

unfoldable pub after_width :
    {A : Type 0} → Callback A → World → (cs : List ℕ) → Option (Spec × List ℕ × Print A) → Round A
unfolding parse_precision after_precision
after_width callback world cs none = stop
after_width callback world cs (some (s, f, p)) =
    after_precision callback world cs (parse_precision s f p)

-- A conversion, from behind the `%` on; `cs` is the format there.
unfoldable pub specifier : {A : Type 0} → Callback A → World → Print A → (cs : List ℕ) → Round A
unfolding parse_flags parse_width after_width
specifier callback world p cs =
    let (s, f) = parse_flags no_spec cs in after_width callback world cs (parse_width s f p)

unfoldable pub at_percent :
    {A : Type 0} → Callback A → World → (rejected : Bool) → Print A → (cs : List ℕ) → Round A
unfolding specifier emit
at_percent callback world rejected p [] =
    if rejected then then_next true [] (emit callback percent p) else specifier callback world p []
at_percent callback world rejected p (c ∷ cs) =
    if c == b'%'
    then then_next rejected cs (emit callback percent p)
    else if rejected
    then then_next true (c ∷ cs) (emit callback percent p)
    else specifier callback world p (c ∷ cs)

unfoldable pub round :
    {A : Type 0}
    → Callback A
    → World
    → (rejected : Bool) → Print A
    → (c : ℕ) → (cs : List ℕ) → Round A
unfolding literal_run emit at_percent
round callback world rejected p c cs =
    if c == b'%'
    then at_percent callback world rejected p cs
    else (let (run, rest) = literal_run max_format_scan (c ∷ cs) in
        if leb max_format_scan (length run)
        then stop
        else then_next rejected rest (emit callback run p))

-- The loop over the format, with `fuel` rounds: the outer `none` means that they did not suffice, the
-- inner one stands for `return -1`.
unfoldable pub print_loop :
    {A : Type 0}
    → (fuel : ℕ) → Callback A
    → World
    → (rejected : Bool) → Print A
    → List ℕ
    → Option (Option (Print A))
unfolding round
print_loop zero callback world rejected p fmt = none
print_loop (suc fuel) callback world rejected p [] = some (some p)
print_loop (suc fuel) callback world rejected p (c ∷ cs) =
    elim (round callback world rejected p c cs) [
      | stop ↦ some none
      | next p' rejected' fmt ↦ print_loop fuel callback world rejected' p' fmt
    ]

-- `none` stands for the result -1; the number is the result. A format has no character 0.
unfoldable pub vcbprintf :
    {A : Type 0} → Callback A → World → A → (args fmt : List ℕ) → Option (Option (ℕ × Print A))
unfolding print_loop
vcbprintf callback world ctx args fmt =
    elim (print_loop (length fmt + 1) callback world false
      (record { ctx = ctx; written = 0; args = args; stores = [] }) fmt) [
        | none ↦ none
        | some x ↦
            some
              (and_then x (λ p. if ltb (2 ^ 31 - 1) p.written then none else some (p.written, p)))
      ]
