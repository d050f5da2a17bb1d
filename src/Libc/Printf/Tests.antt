-- ===== src/Libc/Printf/Tests.antt =====
-- Runs of formatted output into a list (libraries/libc/src/stdio/vcbprintf.c).
use saynaa_os.Prelude.{
  ℕ, ◌+◌, ◌%◌, ◌-◌, ◌^◌, ◌≤◌, ◌≡◌, refl, List, [], ◌∷◌, ◌++◌, Option, none, some, false, length,
  length-append, arith,
}
use saynaa_os.Libc.Printf.Output.{u32, Callback, Print}
use saynaa_os.Libc.Printf.Parse.{Spec, no_spec}
use saynaa_os.Libc.Printf.Digits.{convert_integer}
use saynaa_os.Libc.Printf.Convert.{World}
use saynaa_os.Libc.Printf.Loop.{vcbprintf}
use saynaa_os.Libc.Printf.Values.{digits_value, convert_integer_lem}
use saynaa_os.Libc.Printf.Laws.{reals, vcbprintf_lem}

abbrev collect : Callback (List ℕ)
collect out s = (length s, out ++ s)

abbrev small_world : World
small_world = record {
  texts = λ _. 104 ∷ 105 ∷ [];
  float_text = λ _ _. 49 ∷ [];
  float_negative = λ _. false;
}

-- What a format prints of arguments.
abbrev printed_by : (args fmt : List ℕ) → List ℕ
printed_by args fmt = elim (vcbprintf collect small_world [] args fmt) [
  | none ↦ []
  | some x ↦ elim x [ none ↦ [] | some (n, p) ↦ p.ctx ]
]

-- `a%5d` of 42
width_of_five :
    printed_by (42 ∷ []) (b'a' ∷ b'%' ∷ b'5' ∷ b'd' ∷ []) ≡ b'a' ∷ 32 ∷ 32 ∷ 32 ∷ b'4' ∷ b'2' ∷ []
unfolding vcbprintf
width_of_five = refl

-- `%.3d` of -5 has two digits.
short_precision :
    printed_by ((2 ^ 32 - 5) ∷ []) (b'%' ∷ b'.' ∷ b'3' ∷ b'd' ∷ []) ≡ b'-' ∷ b'0' ∷ b'5' ∷ []
unfolding vcbprintf
short_precision = refl

-- `%s|%x` of a string and 255
text_and_hex :
    printed_by (4096 ∷ 255 ∷ []) (b'%' ∷ b's' ∷ b'|' ∷ b'%' ∷ b'x' ∷ [])
    ≡ 104 ∷ 105 ∷ b'|' ∷ b'f' ∷ b'f' ∷ []
unfolding vcbprintf
text_and_hex = refl

convert_integer_lem_example : digits_value 16 0 (convert_integer 48879 16 false) ≡ 48879
convert_integer_lem_example = convert_integer_lem 48879 16 false (omega arith) (omega arith)

abbrev precise : Spec
precise = record no_spec { precision = some 3; field_width = 8 }

vcbprintf_lem_example :
    (x : Option (ℕ × Print (List ℕ))) × (vcbprintf collect small_world []
        (42 ∷ [])
        (b'%' ∷ b'd' ∷ [])
      ≡ some x)
    × ((n : ℕ) (p : Print (List ℕ))
        → x ≡ some (n, p)
        → (k : ℕ) × (k ≤ reals (b'%' ∷ b'd' ∷ [])) × ((n + k) % u32 ≡ length p.ctx % u32))
vcbprintf_lem_example =
    vcbprintf_lem collect length (λ out s e. length-append out s) small_world [] (42 ∷ [])
      (b'%' ∷ b'd' ∷ []) refl
