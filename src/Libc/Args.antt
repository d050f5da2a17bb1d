-- ===== src/Libc/Args.antt =====
-- Splitting a command line into arguments (libraries/libc/src/args.c).
use saynaa_os.Prelude.{
  ℕ, zero, suc, ◌≡◌, refl, sym, ap, ◌∙◌, ◌==◌, ◌||◌, Bool, true, false, not, List, [], ◌∷◌,
  if◌then◌else◌, drop, take, arith,
}
use saynaa_os.Libc.Fields.{
  skip_while, word, fields, fields-skip_while, fields-cons, fields-nil, skip_while-stop,
}

unfoldable pub is_ws : ℕ → Bool
is_ws c = c == b' ' || c == 9 || c == 13 || c == 10

-- The outer loop, for `n` more arguments. An argument is the text from its pointer to the terminator
-- that the loop writes behind it.
unfoldable pub args_from : ℕ → List ℕ → List (List ℕ)
args_from zero p = []
args_from (suc n) p = elim (skip_while is_ws p) [
  | [] ↦ []
  | c ∷ cs ↦ (word is_ws (c ∷ cs)).0 ∷ args_from n (drop 1 (word is_ws (c ∷ cs)).1)
]

-- The arguments; their number is the result. `present` says whether neither pointer is null.
unfoldable pub split_args : (present : Bool) → List ℕ → (max_args : ℕ) → List (List ℕ)
unfolding args_from
split_args present line max_args =
    if not present || max_args == 0 then [] else args_from max_args line

args_from-fields : (n : ℕ) (p : List ℕ) → args_from n p ≡ take n (fields is_ws p)
unfolding args_from
args_from-fields zero p = refl
args_from-fields (suc n) p =
    by_first (args_from-fields n) (skip_while is_ws p) refl
    ∙ ap (take (suc n)) (fields-skip_while is_ws p)
  where
    by_first :
        ((q : List ℕ) → args_from n q ≡ take n (fields is_ws q))
        → (t : List ℕ) → skip_while is_ws p ≡ t
        → (elim t [
          | [] ↦ []
          | c ∷ cs ↦ (word is_ws (c ∷ cs)).0 ∷ args_from n (drop 1 (word is_ws (c ∷ cs)).1)
        ])
          ≡ take (suc n) (fields is_ws t)
    by_first shorter [] e = sym (ap (take (suc n)) (fields-nil is_ws))
    by_first shorter (c ∷ cs) e =
        let ne : is_ws c ≡ false = skip_while-stop is_ws p c cs e in
        ap (λ l. (word is_ws (c ∷ cs)).0 ∷ l) (shorter (drop 1 (word is_ws (c ∷ cs)).1))
        ∙ sym (ap (take (suc n)) (fields-cons is_ws c cs ne))

-- `split_args` gives the longest stretches without white space, in order, at most `max_args` of
-- them.
split_args-fields :
    (line : List ℕ) (max_args : ℕ)
    → split_args true line max_args ≡ take max_args (fields is_ws line)
unfolding split_args
split_args-fields line max_args = ground (arith, args_from-fields max_args line)
