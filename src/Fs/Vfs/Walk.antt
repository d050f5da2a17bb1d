-- ===== src/Fs/Vfs/Walk.antt =====
-- Walks along the components of a path (`vfs_walk` of kernel/src/fs/vfs.c).
use saynaa_os.Prelude.{
  ℕ, zero, suc, ◌+◌, ◌<◌, ◌≤◌, ◌≡◌, refl, sym, ap, subst, ◌∙◌, ◌==◌, false, Bool-cases, inl, inr,
  List, [], ◌∷◌, ◌++◌, length, arith, Option, none, some, Option-cases,
}
use saynaa_os.Fs.Vfs.{slash, skip, segment, VfsFileOps, descend, walk_loop, vfs_walk}
use saynaa_os.Fs.Vfs.Segments.{
  components, components_from, components-append, name, after, components-name, components-skip,
  segment-name, length-skip, length-after,
}

-- Every component fits into the buffer `segment[64]` with its terminator.
abbrev pub Short : List (List ℕ) → Type 0
Short [] = Unit {0}
Short (s ∷ ss) = (length s ≤ 63) × Short ss

-- The first character is no slash.
abbrev Trimmed : List ℕ → Type 0
Trimmed [] = Unit {0}
Trimmed (c ∷ cs) = (c == slash) ≡ false

skip-Trimmed : (p : List ℕ) → Trimmed (skip p)
unfolding skip
skip-Trimmed [] = tt
skip-Trimmed (c ∷ cs) = elim (Bool-cases (c == slash)) [
  | inl e ↦ rw e (skip-Trimmed cs)
  | inr ne ↦ rw ne ne
]

first_component :
    (c : ℕ) (cs : List ℕ)
    → Trimmed (c ∷ cs)
    → components (c ∷ cs) ≡ (c ∷ name cs) ∷ components (after cs)
first_component c cs t = components-name [] (c ∷ cs) ∙ (unfold name after in rw t refl)

first_segment :
    (c : ℕ) (cs : List ℕ)
    → Trimmed (c ∷ cs)
    → length (c ∷ name cs) ≤ 63
    → segment 63 (c ∷ cs) ≡ (c ∷ name cs, after cs)
first_segment c cs t h =
    let e : name (c ∷ cs) ≡ c ∷ name cs = unfold name in rw t refl in
    segment-name 63 (c ∷ cs) (omega (arith, ap length e)) ∙ (unfold name after in rw t refl)

length-segment_le : (n : ℕ) (p : List ℕ) → length (segment n p).1 ≤ length p
unfolding segment
length-segment_le zero p = omega arith
length-segment_le (suc n) [] = omega arith
length-segment_le (suc n) (c ∷ cs) = elim (Bool-cases (c == slash)) [
  | inl e ↦ rw e (omega arith)
  | inr ne ↦ rw ne (omega (arith, length-segment_le n cs))
]

length-segment :
    (n c : ℕ) (cs : List ℕ)
    → Trimmed (c ∷ cs)
    → length (segment (suc n) (c ∷ cs)).1 < length (c ∷ cs)
unfolding segment
length-segment n c cs t = rw t (omega (arith, length-segment_le n cs))

module _ {N : Type 0} (ops : VfsFileOps N) where
  -- Each name in turn is looked up by the operation of the node that the names before it led to:
  -- nothing without that operation, and where it finds nothing.
  unfoldable pub resolve : N → List (List ℕ) → Option N
  resolve n [] = some n
  resolve n (s ∷ ss) = elim (ops.finddir n) [
    | none ↦ none
    | some find ↦ elim (find s) [ none ↦ none | some next ↦ resolve next ss ]
  ]

  resolve-descend :
      (n : N) (s : List ℕ) (ss : List (List ℕ))
      → resolve n (s ∷ ss) ≡ elim (descend ops n s) [ none ↦ none | some next ↦ resolve next ss ]
  unfolding resolve descend
  resolve-descend n s ss = elim (Option-cases (ops.finddir n)) [
    | inl e ↦ rw (e, resolve) refl
    | inr (find, e) ↦ rw (e, resolve) refl
  ]

  -- What a round of the loop does after it has looked the segment up, and its counterpart.
  abbrev go_on : ℕ → Option N → List ℕ → Option (Option N)
  go_on fuel o rest = elim o [ none ↦ some none | some next ↦ walk_loop ops fuel next (skip rest) ]

  abbrev resolved : Option N → List (List ℕ) → Option N
  resolved o ss = elim o [ none ↦ none | some next ↦ resolve next ss ]

  walk_loop-resolve :
      (fuel : ℕ) (n : N) (p : List ℕ)
      → length p < fuel
      → Trimmed p
      → Short (components p)
      → walk_loop ops fuel n p ≡ some (resolve n (components p))
  unfolding walk_loop
  walk_loop-resolve zero n p h t s = absurd (omega arith)
  walk_loop-resolve (suc fuel) n [] h t s = unfold components_from resolve in refl
  walk_loop-resolve (suc fuel) n (c ∷ cs) h t s =
      let parts = first_component c cs t in
      let (fits, rest) = subst Short parts s in
      let left : List ℕ = skip (after cs) in
      let shorter : length left < fuel = omega (arith, length-skip (after cs), length-after cs) in
      ap (λ (seg : List ℕ × List ℕ). go_on fuel (descend ops n seg.0) seg.1)
        (first_segment c cs t fits)
      ∙ (elim (Option-cases (descend ops n (c ∷ name cs))) [
        | inl e ↦
            ap (λ o. go_on fuel o (after cs)) e
            ∙ sym (
                ap some (resolve-descend n (c ∷ name cs) (components (after cs)))
                ∙ ap (λ o. some (resolved o (components (after cs)))) e)
        | inr (next, e) ↦
            ap (λ o. go_on fuel o (after cs)) e
            ∙ (walk_loop-resolve fuel next left shorter (skip-Trimmed (after cs))
                  (subst Short (sym (components-skip (after cs))) rest)
                ∙ (ap (λ l. some (resolve next l)) (components-skip (after cs))
                    ∙ sym (
                        ap some (resolve-descend n (c ∷ name cs) (components (after cs)))
                        ∙ ap (λ o. some (resolved o (components (after cs)))) e)))
      ]
          ∙ sym (ap (λ l. some (resolve n l)) parts))

  -- On a path with components of at most 63 characters the walk ends, and gives the node where its
  -- components lead, each found by the one before it, or the null pointer if one is not found,
  -- however many slashes stand between, before and behind them.
  pub vfs_walk-resolve :
      (n : N) (p : List ℕ)
      → Short (components p)
      → vfs_walk ops n p ≡ some (resolve n (components p))
  unfolding vfs_walk
  vfs_walk-resolve n p s =
      walk_loop-resolve (length p + 1) n (skip p) (omega (arith, length-skip p)) (skip-Trimmed p)
        (subst Short (sym (components-skip p)) s)
      ∙ ap (λ l. some (resolve n l)) (components-skip p)

  -- On any path the walk ends.
  walk_loop_ends :
      (fuel : ℕ) (n : N) (p : List ℕ)
      → length p < fuel
      → Trimmed p
      → (r : Option N) × (walk_loop ops fuel n p ≡ some r)
  unfolding walk_loop
  walk_loop_ends zero n p h t = absurd (omega arith)
  walk_loop_ends (suc fuel) n [] h t = (some n, refl)
  walk_loop_ends (suc fuel) n (c ∷ cs) h t =
      let (seg, rest) = segment 63 (c ∷ cs) in
      elim (Option-cases (descend ops n seg)) [
        | inl e ↦ (none, ap (λ o. go_on fuel o rest) e)
        | inr (next, e) ↦
            let shorter : length (skip rest) < fuel =
              omega (arith, length-skip rest, length-segment 62 c cs t) in
            let (r, is) = walk_loop_ends fuel next (skip rest) shorter (skip-Trimmed rest) in
            (r, ap (λ o. go_on fuel o rest) e ∙ is)
      ]

  vfs_walk_ends : (n : N) (p : List ℕ) → (r : Option N) × (vfs_walk ops n p ≡ some r)
  unfolding vfs_walk
  vfs_walk_ends n p =
      walk_loop_ends (length p + 1) n (skip p) (omega (arith, length-skip p)) (skip-Trimmed p)

  resolve-append :
      (n : N) (a b : List (List ℕ))
      → resolve n (a ++ b) ≡ elim (resolve n a) [ none ↦ none | some m ↦ resolve m b ]
  unfolding resolve
  resolve-append n [] b = refl
  resolve-append n (s ∷ a) b = elim (Option-cases (descend ops n s)) [
    | inl e ↦ rw (resolve-descend n s (a ++ b), resolve-descend n s a, e) refl
    | inr (next, e) ↦
        rw (resolve-descend n s (a ++ b), resolve-descend n s a, e) (resolve-append next a b)
  ]

  Short-append : (a b : List (List ℕ)) → Short a → Short b → Short (a ++ b)
  Short-append [] b sa sb = sb
  Short-append (s ∷ a) b sa sb = (sa.0, Short-append a b sa.1 sb)

  -- A walk along two paths with a slash between them, with components of at most 63 characters,
  -- is the walk along the first and then, from the node it found, along the second.
  vfs_walk-append :
      (n : N) (a b : List ℕ)
      → Short (components a)
      → Short (components b)
      → vfs_walk ops n (a ++ slash ∷ b)
        ≡ elim (resolve n (components a)) [ none ↦ some none | some m ↦ vfs_walk ops m b ]
  vfs_walk-append n a b sa sb =
      vfs_walk-resolve n (a ++ slash ∷ b)
        (subst Short (sym (components-append [] a b)) (Short-append _ _ sa sb))
      ∙ (ap (λ l. some (resolve n l)) (components-append [] a b)
          ∙ (ap some (resolve-append n (components a) (components b))
              ∙ then_b (resolve n (components a))))
    where
      then_b :
          (o : Option N)
          → some (elim o [ none ↦ none | some m ↦ resolve m (components b) ])
            ≡ elim o [ none ↦ some none | some m ↦ vfs_walk ops m b ]
      then_b none = refl
      then_b (some m) = sym (vfs_walk-resolve m b sb)
