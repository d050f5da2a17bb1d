-- ===== src/Input/Keyboard/Translate.antt =====
-- The characters that a scan code stands for under the two modifiers.
use saynaa_os.Prelude.{
  ℕ, ◌<◌, ◌≤◌, ◌==◌, ==_iff, ltb, ltb→lt, ◌≡◌, refl, Bool, true, false, not, inl, inr, Bool-cases,
  all_below, all_below-true, if◌then◌else◌, arith,
}
use saynaa_os.Input.Keyboard.{translate_key, isalpha}

-- Past the map every key is dropped.
translate_key_above : (caps shift : Bool) (sc : ℕ) → 128 ≤ sc → translate_key caps shift sc ≡ 0
unfolding translate_key
translate_key_above caps shift sc h = ground arith

-- A property of all scan codes: one evaluation for the map, and the case of no character.
for_all_codes :
    (p : ℕ → Bool)
    → all_below 128 p ≡ true
    → ((sc : ℕ) → 128 ≤ sc → p sc ≡ true)
    → (sc : ℕ) → p sc ≡ true
for_all_codes p table above sc = elim (Bool-cases (ltb sc 128)) [
  | inl low ↦ all_below-true 128 p sc table (ltb→lt sc 128 low)
  | inr high ↦ above sc (ground arith)
]

abbrev in_ascii : Bool → Bool → ℕ → Bool
in_ascii caps shift sc = ltb (translate_key caps shift sc) 128

in_ascii_table : (caps shift : Bool) → all_below 128 (in_ascii caps shift) ≡ true
unfolding all_below translate_key
in_ascii_table true true = refl
in_ascii_table true false = refl
in_ascii_table false true = refl
in_ascii_table false false = refl

-- Whatever the scan code and the modifiers, the character is in ASCII.
pub translate_key-lt : (caps shift : Bool) (sc : ℕ) → translate_key caps shift sc < 128
translate_key-lt caps shift sc = ltb→lt _ 128 (
    for_all_codes (in_ascii caps shift) (in_ascii_table caps shift)
      (λ sc h. rw (translate_key_above caps shift sc h)) sc)

abbrev caps_rule : Bool → ℕ → Bool
caps_rule shift sc =
    let plain : ℕ = translate_key false shift sc in
    translate_key true shift sc
    == (if isalpha plain then translate_key false (not shift) sc else plain)

caps_rule_table : (shift : Bool) → all_below 128 (caps_rule shift) ≡ true
unfolding all_below translate_key
caps_rule_table true = refl
caps_rule_table false = refl

-- Caps lock acts on letters alone, and there it turns the meaning of shift round.
translate_key_caps :
    (shift : Bool) (sc : ℕ)
    → translate_key true shift sc ≡ (
        if isalpha (translate_key false shift sc)
        then translate_key false (not shift) sc
        else translate_key false shift sc)
translate_key_caps shift sc =
    (==_iff _ _).0 (for_all_codes (caps_rule shift) (caps_rule_table shift) dropped sc)
  where
    dropped : (sc : ℕ) → 128 ≤ sc → caps_rule shift sc ≡ true
    dropped sc h = ground (
      arith,
      translate_key_above true shift sc h,
      translate_key_above false shift sc h,
      translate_key_above false (not shift) sc h,
    )
