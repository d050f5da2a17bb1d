-- ===== src/Libc/Fields.antt =====
-- Cutting text at separators: the two inner loops that `split_args` and `normalize_path` have in
-- common, and the fields of a text as they should come out.
use saynaa_os.Prelude.{
  ℕ, ◌<◌, ◌≤◌, ◌≡◌, refl, sym, ap, ◌∙◌, Bool, true, false, Bool-cases, inl, inr, List, [], ◌∷◌,
  ◌++◌, append_assoc, append-nil, if◌then◌else◌, length, drop, arith,
}

module _ (stop : ℕ → Bool) where
  -- `while (*p && stop(*p)) p++`
  unfoldable pub skip_while : List ℕ → List ℕ
  skip_while [] = []
  skip_while (c ∷ cs) = let rest : List ℕ = skip_while cs in if stop c then rest else c ∷ cs

  -- `while (*p && !stop(*p)) p++`: what was passed, and what is left.
  unfoldable pub word : List ℕ → List ℕ × List ℕ
  word [] = ([], [])
  word (c ∷ cs) =
      let rest : List ℕ × List ℕ = word cs in if stop c then ([], c ∷ cs) else (c ∷ rest.0, rest.1)

-- A field, unless it is empty, before others.
abbrev pub flush : List ℕ → List (List ℕ) → List (List ℕ)
flush [] r = r
flush (c ∷ cs) r = (c ∷ cs) ∷ r

module _ (stop : ℕ → Bool) where
  -- The fields of a text, of whose first one `acc` has been read.
  unfoldable pub fields_from : List ℕ → List ℕ → List (List ℕ)
  fields_from acc [] = flush acc []
  fields_from acc (c ∷ cs) =
      let next : List (List ℕ) = fields_from [] cs in
      let more : List (List ℕ) = fields_from (acc ++ c ∷ []) cs in
      if stop c then flush acc next else more

  -- The longest stretches without a separator, in order.
  abbrev pub fields : List ℕ → List (List ℕ)
  fields t = fields_from [] t

  pub fields_from-word :
      (acc t : List ℕ) → fields_from acc t ≡ flush (acc ++ (word stop t).0) (fields (word stop t).1)
  unfolding fields_from word
  fields_from-word acc [] = ap (λ l. flush l []) (sym (append-nil acc))
  fields_from-word acc (c ∷ cs) = elim (Bool-cases (stop c)) [
    | inl e ↦ rw (e, append-nil, e) refl
    | inr ne ↦ rw ne (
        fields_from-word (acc ++ c ∷ []) cs
        ∙ ap (λ l. flush l (fields (word stop cs).1)) (append_assoc acc (c ∷ []) (word stop cs).0))
  ]

  pub fields-skip_while : (t : List ℕ) → fields (skip_while stop t) ≡ fields t
  unfolding fields_from skip_while
  fields-skip_while [] = refl
  fields-skip_while (c ∷ cs) = elim (Bool-cases (stop c)) [
    | inl e ↦ rw e (fields-skip_while cs)
    | inr ne ↦ rw (ne, skip_while, ne) refl
  ]

  -- Behind a word stands a separator, if anything, which may be dropped.
  pub fields-drop-word : (t : List ℕ) → fields (drop 1 (word stop t).1) ≡ fields (word stop t).1
  unfolding fields_from word
  fields-drop-word [] = refl
  fields-drop-word (c ∷ cs) = elim (Bool-cases (stop c)) [
    | inl e ↦ rw (e, fields_from, e) refl
    | inr ne ↦ rw ne (fields-drop-word cs)
  ]

  pub length-word : (t : List ℕ) → length (word stop t).1 ≤ length t
  unfolding word
  length-word [] = omega arith
  length-word (c ∷ cs) = ground (arith, length-word cs)

  pub length-skip_while : (t : List ℕ) → length (skip_while stop t) ≤ length t
  unfolding skip_while
  length-skip_while [] = omega arith
  length-skip_while (c ∷ cs) = ground (arith, length-skip_while cs)

  -- What is left after `skip_while` does not begin with a separator.
  pub skip_while-stop :
      (t : List ℕ) (c : ℕ) (cs : List ℕ) → skip_while stop t ≡ c ∷ cs → stop c ≡ false
  unfolding skip_while
  skip_while-stop [] c cs e = cc
  skip_while-stop (d ∷ ds) c cs e = elim (Bool-cases (stop d)) [
    | inl s ↦ skip_while-stop ds c cs (rw s at e)
    | inr ns ↦
        let same : d ∷ ds ≡ c ∷ cs = rw ns at e in let head : d ≡ c = cc in sym (ap stop head) ∙ ns
  ]

  pub word-cons :
      (c : ℕ) (cs : List ℕ)
      → stop c ≡ false
      → word stop (c ∷ cs) ≡ (c ∷ (word stop cs).0, (word stop cs).1)
  unfolding word
  word-cons c cs ne = rw ne refl

  -- A text that does not begin with a separator: its first field, and those behind it.
  pub fields-cons :
      (c : ℕ) (cs : List ℕ)
      → stop c ≡ false
      → fields (c ∷ cs) ≡ (word stop (c ∷ cs)).0 ∷ fields (drop 1 (word stop (c ∷ cs)).1)
  fields-cons c cs ne =
      fields_from-word [] (c ∷ cs) ∙ rw (fields-drop-word (c ∷ cs), word-cons c cs ne) refl

  pub fields-nil : fields [] ≡ []
  unfolding fields_from
  fields-nil = refl

  -- Dropping one element does not lengthen a list.
  pub length-rest :
      (c : ℕ) (cs : List ℕ) → stop c ≡ false → length (drop 1 (word stop (c ∷ cs)).1) ≤ length cs
  length-rest c cs ne = rw (word-cons c cs ne) (shorter (word stop cs).1 (length-word cs))
    where
      shorter : (l : List ℕ) → length l ≤ length cs → length (drop 1 l) ≤ length cs
      shorter [] h = omega arith
      shorter (d ∷ l) h = omega arith

  -- No separator is in the text.
  abbrev pub Free : List ℕ → Type 0
  Free [] = Unit {0}
  Free (c ∷ cs) = (stop c ≡ false) × Free cs

  -- All are texts as fields are: not empty, and without a separator.
  abbrev pub AllFields : List (List ℕ) → Type 0
  AllFields [] = Unit {0}
  AllFields (s ∷ ss) = (0 < length s) × Free s × AllFields ss

  flush-AllFields :
      (acc : List ℕ) (r : List (List ℕ)) → Free acc → AllFields r → AllFields (flush acc r)
  flush-AllFields [] r f a = a
  flush-AllFields (c ∷ cs) r f a = (omega arith, f, a)

  Free-snoc : (acc : List ℕ) (c : ℕ) → Free acc → stop c ≡ false → Free (acc ++ c ∷ [])
  Free-snoc [] c f ne = (ne, tt)
  Free-snoc (d ∷ acc) c f ne = (f.0, Free-snoc acc c f.1 ne)

  pub fields_from-AllFields : (acc t : List ℕ) → Free acc → AllFields (fields_from acc t)
  unfolding fields_from
  fields_from-AllFields acc [] f = flush-AllFields acc [] f tt
  fields_from-AllFields acc (c ∷ cs) f = elim (Bool-cases (stop c)) [
    | inl e ↦ rw e (flush-AllFields acc (fields cs) f (fields_from-AllFields [] cs tt))
    | inr ne ↦ rw ne (fields_from-AllFields (acc ++ c ∷ []) cs (Free-snoc acc c f ne))
  ]

  flush-append : (acc : List ℕ) (r q : List (List ℕ)) → flush acc (r ++ q) ≡ flush acc r ++ q
  flush-append [] r q = refl
  flush-append (c ∷ cs) r q = refl

  -- The fields of two texts with a separator between them.
  pub fields_from-append :
      (acc a : List ℕ) (c : ℕ) (b : List ℕ)
      → stop c ≡ true
      → fields_from acc (a ++ c ∷ b) ≡ fields_from acc a ++ fields b
  unfolding fields_from
  fields_from-append acc [] c b e = rw e (flush-append acc [] (fields b))
  fields_from-append acc (d ∷ a) c b e = elim (Bool-cases (stop d)) [
    | inl s ↦
        rw s
          (ap (flush acc) (fields_from-append [] a c b e) ∙ flush-append acc (fields a) (fields b))
    | inr ns ↦ rw ns (fields_from-append (acc ++ d ∷ []) a c b e)
  ]

  pub fields_from-Free : (acc s : List ℕ) → Free s → fields_from acc s ≡ flush (acc ++ s) []
  unfolding fields_from
  fields_from-Free acc [] f = ap (λ l. flush l []) (sym (append-nil acc))
  fields_from-Free acc (c ∷ cs) f = rw f.0 (
      fields_from-Free (acc ++ c ∷ []) cs f.1 ∙ ap (λ l. flush l []) (append_assoc acc (c ∷ []) cs))
