-- ===== src/Ring/Overwrite.antt =====
-- `push` and `pop` on a ring against those of the bounded queue of its contents.
use saynaa_os.Prelude.{
  ℕ, ◌-◌, ◌<◌, ◌≡◌, [], ◌∷◌, arith, none, some, ◌==◌, ◌⊎◌, inl, inr, Bool-cases,
}
use saynaa_os.Ring.{Ring, discard, push, pop}
use saynaa_os.Ring.Queue
use saynaa_os.Ring.Contents.{
  IsValid, contents, used-lt, used-discard, discard-IsValid, contents-put, contents-nil,
  contents-discard, length-contents, full_iff, used-zero_iff,
}

module _ {A : Type 0} (cap : ℕ) (q : Ring A) (v : IsValid cap q) where
  pub push-IsValid : (x : A) → IsValid cap (push cap q x)
  unfolding push
  push-IsValid x = ground arith

  pub pop-IsValid : IsValid cap (pop cap q).1
  unfolding pop
  pop-IsValid = ground arith

  pub push_refines :
      1 < cap → (x : A) → contents cap (push cap q x) ≡ Queue.push (cap - 1) (contents cap q) x
  unfolding push Queue.push
  push_refines two x = ground (
    arith,
    full_iff cap q v,
    length-contents cap q v,
    used-discard cap q v,
    contents-discard cap q v,
    contents-put cap q v x,
    contents-put cap (discard cap q) (discard-IsValid cap q v) x,
    used-lt cap q v,
  )

  pub pop_refines : ((pop cap q).0, contents cap (pop cap q).1) ≡ Queue.pop (contents cap q)
  unfolding pop Queue.pop
  pop_refines =
      ground (arith, used-zero_iff cap q v, contents-nil cap q v, contents-discard cap q v)

  -- A pop finds the ring empty and leaves it, or takes the oldest element.
  pub pop-cases :
      ((contents cap q ≡ []) × (pop cap q ≡ (none, q)))
      ⊎ ((contents cap q ≡ q.buf q.r ∷ contents cap (discard cap q))
          × (pop cap q ≡ (some (q.buf q.r), discard cap q)))
  unfolding pop
  pop-cases = elim (Bool-cases (q.r == q.w)) [
    | inl empty ↦ inl (contents-nil cap q v (ground (arith, used-zero_iff cap q v)), rw empty)
    | inr more ↦ inr (contents-discard cap q v (ground (arith, used-zero_iff cap q v)), rw more)
  ]
