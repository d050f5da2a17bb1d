-- ===== src/Ring/Queue.antt =====
-- The abstract queue of which a ring keeps the elements: a list, oldest first, of at most `m`
-- elements, whose `push` drops the oldest one when the queue is full.
use saynaa_os.Prelude.{
  ℕ, ◌-◌, List, [], ◌∷◌, ◌++◌, Option, none, some, ◌==◌, if◌then◌else◌, length, drop,
}

module _ {A : Type 0} where
  abbrev pub tail : List A → List A
  tail [] = []
  tail (x ∷ xs) = xs

  unfoldable pub push : ℕ → List A → A → List A
  push m q x = (if length q == m then tail q else q) ++ (x ∷ [])

  unfoldable pub pop : List A → Option A × List A
  pop [] = (none, [])
  pop (x ∷ q) = (some x, q)

  -- The last `m` elements.
  abbrev pub last : ℕ → List A → List A
  last m xs = drop (length xs - m) xs

  unfoldable pub push_all : ℕ → List A → List A → List A
  push_all m q [] = q
  push_all m q (x ∷ xs) = push_all m (push m q x) xs
