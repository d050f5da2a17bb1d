-- ===== src/Ring/History.antt =====
-- Pushing many elements onto a queue that drops its oldest, and the newest of them.
use saynaa_os.Prelude.{
  ℕ, zero, suc, ◌-◌, ◌≤◌, ◌<◌, ◌≡◌, ◌∙◌, refl, ap, List, [], ◌∷◌, ◌++◌, arith, inl, inr, Bool-cases,
  ◌==◌, length, drop, length-append, append_assoc, append-nil, sym,
}
use saynaa_os.Ring.Queue

module _ {A : Type 0} where
  -- Dropping from a list with a non-empty front drops from that front first.
  drop_suc-cons : (n : ℕ) (x : A) (xs : List A) → 0 < n → drop n (x ∷ xs) ≡ drop (n - 1) xs
  drop_suc-cons zero x xs h = absurd (omega arith)
  drop_suc-cons (suc n) x xs h = ap (λ k. drop k xs) (omega arith)

  drop-zero : (n : ℕ) (xs : List A) → n ≡ 0 → drop n xs ≡ xs
  drop-zero zero xs e = refl
  drop-zero (suc n) xs e = absurd (omega arith)

  last-push :
      (m : ℕ) (q : List A) (x : A) (xs : List A)
      → 0 < m
      → Queue.last m (Queue.push m q x ++ xs) ≡ Queue.last m (q ++ x ∷ xs)
  unfolding Queue.push
  last-push m [] x xs pos = ground arith
  last-push m (y ∷ q) x xs pos = elim (Bool-cases (suc (length q) == m)) [
    | inl full ↦
        rw (full, append_assoc)
          (ground (
            arith,
            length-append q (x ∷ xs),
            drop_suc-cons (suc (length (q ++ x ∷ xs)) - m) y (q ++ x ∷ xs),
          ))
    | inr room ↦ rw room (ap (Queue.last m) (append_assoc (y ∷ q) (x ∷ []) xs))
  ]

  length-push : (m : ℕ) (q : List A) (x : A) → length q ≤ m → 0 < m → length (Queue.push m q x) ≤ m
  unfolding Queue.push
  length-push m [] x small pos = ground arith
  length-push m (y ∷ q) x small pos =
      ground (arith, length-append q (x ∷ []), length-append (y ∷ q) (x ∷ []))

  pub push_all-last :
      (m : ℕ) (xs q : List A)
      → 0 < m
      → length q ≤ m
      → Queue.push_all m q xs ≡ Queue.last m (q ++ xs)
  unfolding Queue.push_all
  push_all-last m [] q pos small = rw append-nil (sym (drop-zero (length q - m) q (omega arith)))
  push_all-last m (x ∷ xs) q pos small =
      push_all-last m xs (Queue.push m q x) pos (length-push m q x small pos)
      ∙ last-push m q x xs pos
