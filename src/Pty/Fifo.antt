-- ===== src/Pty/Fifo.antt =====
-- The byte queues of kernel/src/fs/dev/dev_pty.c as lists of bytes, oldest first.
use saynaa_os.Prelude.{
  ℕ, zero, suc, ◌+◌, ◌-◌, ◌<◌, ◌≤◌, ◌≡◌, ◌≢◌, refl, sym, ap, ◌∙◌, List, [], ◌∷◌, ◌++◌, arith, ltb,
  inl, inr, Bool-cases, ltb→lt, length, take, drop, append-nil, append_assoc, min,
}
use saynaa_os.Ring.{Ring, put, discard, used}
use saynaa_os.Ring.Contents
use saynaa_os.Ring.Contents.{
  contents, used-lt, used-put, used-discard, put-IsValid, discard-IsValid, contents-put,
  contents-nil, contents-discard, length-contents,
}
use saynaa_os.Pty.{pty_buf_cap, fifo_count, fifo_free, fifo_write, fifo_read}

abbrev pub IsValid : Ring ℕ → Type 0
IsValid = Contents.IsValid pty_buf_cap

-- What the queue holds, oldest first.
abbrev pub bytes : Ring ℕ → List ℕ
bytes q = contents pty_buf_cap q

-- The most that a queue holds.
abbrev pub room : ℕ
room = pty_buf_cap - 1

pub take_all : (n : ℕ) (xs : List ℕ) → length xs ≤ n → take n xs ≡ xs
take_all zero [] h = refl
take_all zero (x ∷ xs) h = absurd (omega arith)
take_all (suc n) [] h = refl
take_all (suc n) (x ∷ xs) h = ap (λ t. x ∷ t) (take_all n xs (omega arith))

take-append_le : (n : ℕ) (xs ys : List ℕ) → n ≤ length xs → take n (xs ++ ys) ≡ take n xs
take-append_le zero xs ys h = refl
take-append_le (suc n) [] ys h = absurd (omega arith)
take-append_le (suc n) (x ∷ xs) ys h = ap (λ t. x ∷ t) (take-append_le n xs ys (omega arith))

pub drop_all : (xs : List ℕ) → drop (length xs) xs ≡ []
drop_all [] = refl
drop_all (x ∷ xs) = drop_all xs

-- Cutting a front off early makes no difference.
pub take-take-append : (n : ℕ) (xs ys : List ℕ) → take n (take n xs ++ ys) ≡ take n (xs ++ ys)
take-take-append zero xs ys = refl
take-take-append (suc n) [] ys = refl
take-take-append (suc n) (x ∷ xs) ys = ap (λ t. x ∷ t) (take-take-append n xs ys)

pub length-bytes : (q : Ring ℕ) → IsValid q → length (bytes q) ≤ room
length-bytes q v = omega (arith, length-contents pty_buf_cap q v, used-lt pty_buf_cap q v)

fifo_count-eq : (q : Ring ℕ) → IsValid q → fifo_count q ≡ length (bytes q)
unfolding fifo_count
fifo_count-eq q v = sym (length-contents pty_buf_cap q v)

fifo_free-eq : (q : Ring ℕ) → IsValid q → fifo_free q ≡ room - length (bytes q)
unfolding fifo_free
fifo_free-eq q v = omega (arith, fifo_count-eq q v)

-- In a queue with valid indices, a write appends as much of the data as there is room for, and
-- returns how much.
pub fifo_write_lem :
    (q : Ring ℕ) (xs : List ℕ)
    → IsValid q
    → IsValid (fifo_write q xs).1
      × (bytes (fifo_write q xs).1 ≡ take room (bytes q ++ xs))
      × ((fifo_write q xs).0 ≡ min (length xs) (room - length (bytes q)))
unfolding fifo_write
fifo_write_lem q [] v =
    (v, rw append-nil (sym (take_all room (bytes q) (length-bytes q v))), omega arith)
fifo_write_lem q (x ∷ xs) v = elim (Bool-cases (ltb 0 (fifo_free q))) [
  | inl free ↦
      let fits : used pty_buf_cap q + 1 < pty_buf_cap =
        omega
          (arith, fifo_free-eq q v, length-contents pty_buf_cap q v, ltb→lt 0 (fifo_free q) free) in
      let one = contents-put pty_buf_cap q v x fits in
      let (v', rest, count) =
        fifo_write_lem (put pty_buf_cap q x) xs (put-IsValid pty_buf_cap q v x) in
      rw free (
        v',
        rest
            ∙ (ap (λ l. take room (l ++ xs)) one
                ∙ ap (take room) (append_assoc (bytes q) (x ∷ []) xs)),
        omega (
          arith,
          count,
          length-contents pty_buf_cap q v,
          used-put pty_buf_cap q v x fits,
          length-contents pty_buf_cap (put pty_buf_cap q x) (put-IsValid pty_buf_cap q v x),
        ),
      )
  | inr full ↦
      let all : room ≤ length (bytes q) = ground (arith, fifo_free-eq q v) in
      rw full (
        v,
        sym (
            take-append_le room (bytes q) (x ∷ xs) all
            ∙ take_all room (bytes q) (length-bytes q v)),
        omega arith,
      )
]

-- In a queue with valid indices, a read takes the oldest bytes, as many as it asks for or as
-- there are.
pub fifo_read_lem :
    (n : ℕ) (q : Ring ℕ)
    → IsValid q
    → IsValid (fifo_read q n).1
      × ((fifo_read q n).0 ≡ take n (bytes q))
      × (bytes (fifo_read q n).1 ≡ drop n (bytes q))
unfolding fifo_read
fifo_read_lem zero q v = (v, refl, refl)
fifo_read_lem (suc n) q v = elim (Bool-cases (ltb 0 (fifo_count q))) [
  | inl more ↦
      let filled : used pty_buf_cap q ≢ 0 =
        ground (arith, fifo_count-eq q v, length-contents pty_buf_cap q v) in
      let (v', got, left) =
        fifo_read_lem n (discard pty_buf_cap q) (discard-IsValid pty_buf_cap q v) in
      rw (more, contents-discard pty_buf_cap q v filled) (v', ap (λ l. q.buf q.r ∷ l) got, left)
  | inr nothing ↦
      let none_left : used pty_buf_cap q ≡ 0 =
        ground (arith, fifo_count-eq q v, length-contents pty_buf_cap q v) in
      rw (nothing, contents-nil pty_buf_cap q v none_left) (v, refl, refl)
]

-- What fits is read back as it was written.
pub fifo_read-fifo_write :
    (q : Ring ℕ) (xs : List ℕ)
    → IsValid q
    → bytes q ≡ []
    → length xs ≤ room
    → ((fifo_read (fifo_write q xs).1 (length xs)).0 ≡ xs)
      × (bytes (fifo_read (fifo_write q xs).1 (length xs)).1 ≡ [])
fifo_read-fifo_write q xs v empty small =
    let (v', full, count) = fifo_write_lem q xs v in
    let (v'', got, left) = fifo_read_lem (length xs) (fifo_write q xs).1 v' in
    let held : bytes (fifo_write q xs).1 ≡ xs =
      full ∙ (ap (λ l. take room (l ++ xs)) empty ∙ take_all room xs small) in
    (
      got ∙ (ap (take (length xs)) held ∙ take_all (length xs) xs (omega arith)),
      left ∙ (ap (drop (length xs)) held ∙ drop_all xs),
    )

-- A queue's contents fit.
pub take-bytes : (q : Ring ℕ) → IsValid q → take room (bytes q) ≡ bytes q
take-bytes q v = take_all room (bytes q) (length-bytes q v)
