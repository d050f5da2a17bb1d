-- ===== src/Sys/Sched/Exit.antt =====
-- Leaving the scheduler's list (`sched_robin_exit` of kernel/src/sys/sched_robin.c).
use saynaa_os.Prelude.{
  ℕ, ◌≡◌, refl, sym, ap, ◌∙◌, ◌==◌, ==_iff, Bool, false, ◌||◌, Bool-cases, inl, inr, ◌⊎◌, none,
  some, List, [], ◌∷◌, ◌++◌, append_assoc, append-nil, arith, length, length-append,
}
use saynaa_os.Sys.Sched.Turns.{order, last_same}
use saynaa_os.Sys.Sched.{split_at, split_last, unlink, exit_ring}

-- The process stands in the list.
unfoldable listed : ℕ → List ℕ → Bool
listed process [] = false
listed process (x ∷ xs) = x == process || listed process xs

split_last-some : (ys : List ℕ) (y : ℕ) → split_last (ys ++ y ∷ []) ≡ some (ys, y)
unfolding split_last
split_last-some [] y = refl
split_last-some (x ∷ ys) y = rw (split_last-some ys y) refl

-- A list is empty or has a last element.
last_cases : (xs : List ℕ) → (xs ≡ []) ⊎ ((ys : List ℕ) × (y : ℕ) × (xs ≡ ys ++ y ∷ []))
last_cases [] = inl refl
last_cases (x ∷ xs) = elim (last_cases xs) [
  | inl e ↦ inr ([], x, ap (λ l. x ∷ l) e)
  | inr (ys, y, e) ↦ inr (x ∷ ys, y, ap (λ l. x ∷ l) e)
]

split_at-cases :
    (process : ℕ) (nodes seen : List ℕ)
    → ((split_at process seen nodes ≡ none) × (listed process nodes ≡ false))
      ⊎ ((pre rest : List ℕ) × (split_at process seen nodes ≡ some (seen ++ pre, rest))
          × (nodes ≡ pre ++ process ∷ rest))
unfolding split_at listed
split_at-cases process [] seen = inl (refl, refl)
split_at-cases process (x ∷ xs) seen = elim (Bool-cases (x == process)) [
  | inl e ↦ rw e (
      inr (
        [],
        xs,
        ap (λ l. some (l, xs)) (sym (append-nil seen)),
        ap (λ k. k ∷ xs) ((==_iff x process).0 e),
      ))
  | inr ne ↦ elim (split_at-cases process xs (seen ++ x ∷ [])) [
    | inl (e, out) ↦ rw ne (inl (e, out))
    | inr (pre, rest, e, split) ↦ rw ne (
        inr (
          x ∷ pre,
          rest,
          e ∙ ap (λ l. some (l, rest)) (append_assoc seen (x ∷ []) pre),
          ap (λ l. x ∷ l) split,
        ))
  ]
]

unlink_some :
    (h : ℕ) (ys : List ℕ) (y : ℕ) (rest : List ℕ) → unlink h (ys ++ y ∷ []) rest ≡ y ∷ rest ++ ys
unfolding unlink
unlink_some h ys y rest = rw (split_last-some ys y, unlink) refl

unlink_none : (h : ℕ) (ys : List ℕ) (y : ℕ) → unlink h [] (ys ++ y ∷ []) ≡ h ∷ ys
unfolding unlink split_last
unlink_none h ys y = rw (split_last-some ys y, unlink) refl

order_cons : (h : ℕ) (ns : List ℕ) → order (h ∷ ns) ≡ ns ++ h ∷ []
unfolding order
order_cons h ns = refl

unlink-order :
    (h : ℕ) (ns pre rest : List ℕ) (process n : ℕ)
    → (n ∷ ns) ++ h ∷ [] ≡ pre ++ process ∷ rest
    → order (unlink h pre rest) ≡ rest ++ pre
unlink-order h ns pre rest process n e = elim (last_cases pre) [
  | inr (ys, y, is) ↦ rw is (
      ap order (unlink_some h ys y rest)
      ∙ (order_cons y (rest ++ ys) ∙ append_assoc rest ys (y ∷ [])))
  | inl is ↦ elim (last_cases rest) [
    | inl nothing ↦ absurd (
        omega (
          arith,
          ap length e,
          ap length is,
          ap length nothing,
          length-append (n ∷ ns) (h ∷ []),
          length-append pre (process ∷ rest),
        ))
    | inr (ys, y, end) ↦
        let split : (n ∷ ns) ++ h ∷ [] ≡ (process ∷ ys) ++ y ∷ [] =
          e ∙ (ap (λ l. l ++ process ∷ rest) is ∙ ap (λ l. process ∷ l) end) in
        let same : h ≡ y = last_same (n ∷ ns) (process ∷ ys) h y split in
        rw (is, end)
          (ap order (unlink_none h ys y)
            ∙ (order_cons h ys ∙ (ap (λ k. ys ++ k ∷ []) same ∙ sym (append-nil (ys ++ y ∷ [])))))
  ]
]

exit_some :
    (h n : ℕ) (more : List ℕ) (process : ℕ) (pre rest : List ℕ)
    → split_at process [] ((n ∷ more) ++ h ∷ []) ≡ some (pre, rest)
    → exit_ring (h ∷ n ∷ more) process ≡ unlink h pre rest
unfolding exit_ring
exit_some h n more process pre rest e = rw (e, exit_ring) refl

exit_none :
    (h n : ℕ) (more : List ℕ) (process : ℕ)
    → split_at process [] ((n ∷ more) ++ h ∷ []) ≡ none
    → exit_ring (h ∷ n ∷ more) process ≡ h ∷ n ∷ more
unfolding exit_ring
exit_none h n more process e = rw (e, exit_ring) refl

-- With two nodes or more in the list, the end of a process that is not in it leaves the list;
-- otherwise the first of its nodes, in the order in which the election looks at them, is taken out,
-- and the nodes behind it come first from then on.
exit_ring-order :
    (h n : ℕ) (more : List ℕ) (process : ℕ)
    → ((listed process (order (h ∷ n ∷ more)) ≡ false)
        × (exit_ring (h ∷ n ∷ more) process ≡ h ∷ n ∷ more))
      ⊎ ((pre rest : List ℕ) × (order (h ∷ n ∷ more) ≡ pre ++ process ∷ rest)
          × (order (exit_ring (h ∷ n ∷ more) process) ≡ rest ++ pre))
unfolding order
exit_ring-order h n more process = elim (split_at-cases process ((n ∷ more) ++ h ∷ []) []) [
  | inl (e, out) ↦ inl (out, exit_none h n more process e)
  | inr (pre, rest, e, split) ↦ inr (
    pre,
    rest,
    split,
    ap order (exit_some h n more process pre rest e) ∙ unlink-order h more pre rest process n split,
  )
]
