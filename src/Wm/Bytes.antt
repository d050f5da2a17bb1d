-- ===== src/Wm/Bytes.antt =====
-- The block copies of the queue against its contents (kernel/src/fs/dev/dev_wm.c).
use saynaa_os.Prelude.{
  ℕ, zero, suc, ◌+◌, ◌-◌, ◌%◌, ◌<◌, ◌≤◌, ◌≡◌, refl, sym, ap, ap₂, subst, ◌∙◌, List, [], ◌∷◌, ◌++◌,
  arith, leb, Array, write, slice, memcpy, length, take, drop, take-append-drop, length-take,
  length-drop, Bool-cases, inl, inr, append_assoc, append-nil,
}
use saynaa_os.Ring.{Ring, used, put}
use saynaa_os.Ring.Contents
use saynaa_os.Ring.Contents.{
  window, contents, used-lt, used-put, put-IsValid, contents-put, length-window,
}
use saynaa_os.Wm.{wmq_bytes, q_used, q_write, q_bytes, q_read}

abbrev pub IsValid : Ring ℕ → Type 0
IsValid q = Contents.IsValid wmq_bytes q

abbrev pub bytes : Ring ℕ → List ℕ
bytes q = contents wmq_bytes q

-- Bytes put one after the other.
puts : Ring ℕ → List ℕ → Ring ℕ
puts q [] = q
puts q (x ∷ xs) = puts (put wmq_bytes q x) xs

puts-append : (xs ys : List ℕ) (q : Ring ℕ) → puts q (xs ++ ys) ≡ puts (puts q xs) ys
unfolding puts
puts-append [] ys q = refl
puts-append (x ∷ xs) ys q = puts-append xs ys (put wmq_bytes q x)

-- Up to the end of the array it is one copy.
puts-memcpy :
    (xs : List ℕ) (q : Ring ℕ)
    → q.w < wmq_bytes
    → q.w + length xs ≤ wmq_bytes
    → puts q xs ≡ record q { buf = memcpy q.buf q.w xs; w = (q.w + length xs) % wmq_bytes }
unfolding puts memcpy
puts-memcpy [] q h fits = ap (λ k. record q { w = k }) (omega arith)
puts-memcpy (x ∷ []) q h fits = refl
puts-memcpy (x ∷ y ∷ xs) q h fits =
    let next : (q.w + 1) % wmq_bytes ≡ q.w + 1 = omega arith in
    puts-memcpy (y ∷ xs) (put wmq_bytes q x) (omega arith) (omega arith)
    ∙ (rw next (
        ap
          (λ k. record q { buf = memcpy (write q.buf q.w x) (q.w + 1) (y ∷ xs); w = k % wmq_bytes })
          {x = q.w + 1 + length (y ∷ xs)} {y = q.w + length (x ∷ y ∷ xs)} (omega arith)))

q_write-puts :
    (q : Ring ℕ) (src : List ℕ)
    → q.w < wmq_bytes
    → length src ≤ wmq_bytes
    → q_write q src ≡ puts q src
unfolding q_write
q_write-puts q src h small = elim (Bool-cases (leb (length src) (wmq_bytes - q.w))) [
  | inl fits ↦ rw fits (sym (puts-memcpy src q h (ground arith)))
  | inr wraps ↦
      let end : ℕ = wmq_bytes - q.w in
      let longer : end < length src = ground arith in
      let front : length (take end src) ≡ end = omega (arith, length-take end src) in
      let back : length (drop end src) ≡ length src - end = length-drop end src in
      let first : puts q (take end src)
          ≡ record q { buf = memcpy q.buf q.w (take end src); w = 0 } =
        puts-memcpy (take end src) q h (omega arith)
        ∙ ap (λ k. record q { buf = memcpy q.buf q.w (take end src); w = k }) (omega arith) in
      rw wraps (
        sym (
          ap (puts q) (sym (take-append-drop end src))
          ∙ (puts-append (take end src) (drop end src) q
              ∙ (ap (λ p. puts p (drop end src)) first
                  ∙ (puts-memcpy (drop end src)
                        (record q { buf = memcpy q.buf q.w (take end src); w = 0 }) (omega arith)
                        (omega arith)
                      ∙ ap
                          (λ k. record q {
                            buf = memcpy (memcpy q.buf q.w (take end src)) 0 (drop end src);
                            w = k;
                          })
                          {x = (0 + length (drop end src)) % wmq_bytes} {y = length src - end}
                          (omega arith))))))
]

puts-contents :
    (xs : List ℕ) (q : Ring ℕ)
    → IsValid q
    → q_used q + length xs < wmq_bytes
    → (bytes (puts q xs) ≡ bytes q ++ xs) × IsValid (puts q xs)
unfolding puts
puts-contents [] q v room = (sym (append-nil (bytes q)), v)
puts-contents (x ∷ xs) q v room =
    let more = used-put wmq_bytes q v x (omega arith) in
    let (is, v') =
      puts-contents xs (put wmq_bytes q x) (put-IsValid wmq_bytes q v x) (omega arith) in
    (
      is
          ∙ (ap (λ l. l ++ xs) (contents-put wmq_bytes q v x (omega arith))
              ∙ append_assoc (bytes q) (x ∷ []) xs),
      v',
    )

-- A write that has room puts its bytes behind the others.
pub q_write_lem :
    (q : Ring ℕ) (src : List ℕ)
    → IsValid q
    → q_used q + length src < wmq_bytes
    → (bytes (q_write q src) ≡ bytes q ++ src) × IsValid (q_write q src)
q_write_lem q src v room =
    subst (λ p. (bytes p ≡ bytes q ++ src) × IsValid p) (sym (q_write-puts q src v.1 (omega arith)))
      (puts-contents src q v room)

window-append :
    (a : Array ℕ) (n m h : ℕ)
    → h < wmq_bytes
    → window wmq_bytes a h (n + m)
      ≡ window wmq_bytes a h n ++ window wmq_bytes a ((h + n) % wmq_bytes) m
window-append a zero m h small =
    ap (window wmq_bytes a h) {x = 0 + m} {y = m} (omega arith)
    ∙ ap (λ i. window wmq_bytes a i m) {x = h} {y = (h + 0) % wmq_bytes} (omega arith)
window-append a (suc n) m h small =
    ap (window wmq_bytes a h) {x = suc n + m} {y = suc (n + m)} (omega arith)
    ∙ ap (λ l. a h ∷ l)
        (window-append a n m ((h + 1) % wmq_bytes) (omega arith)
          ∙ ap (λ i. window wmq_bytes a ((h + 1) % wmq_bytes) n ++ window wmq_bytes a i m)
              (omega arith))

window-slice : (a : Array ℕ) (n h : ℕ) → h + n ≤ wmq_bytes → window wmq_bytes a h n ≡ slice a h n
window-slice a zero h fits = refl
window-slice a (suc zero) h fits = refl
window-slice a (suc (suc n)) h fits =
    let next : (h + 1) % wmq_bytes ≡ h + 1 = omega arith in
    ap (λ l. a h ∷ l)
      (ap (λ i. window wmq_bytes a i (suc n)) next ∙ window-slice a (suc n) (h + 1) (omega arith))

q_bytes-window :
    (q : Ring ℕ) (n : ℕ)
    → q.r < wmq_bytes
    → n ≤ wmq_bytes
    → q_bytes q n ≡ window wmq_bytes q.buf q.r n
unfolding q_bytes
q_bytes-window q n h small = elim (Bool-cases (leb n (wmq_bytes - q.r))) [
  | inl fits ↦ rw fits (sym (window-slice q.buf n q.r (ground arith)))
  | inr wraps ↦
      let end : ℕ = wmq_bytes - q.r in
      let longer : end < n = ground arith in
      rw wraps (
        sym (
          ap (window wmq_bytes q.buf q.r) {x = n} {y = end + (n - end)} (omega arith)
          ∙ (window-append q.buf end (n - end) q.r h
              ∙ ap₂ ◌++◌ (window-slice q.buf end q.r (omega arith)) (
                  ap (λ i. window wmq_bytes q.buf i (n - end)) {x = (q.r + end) % wmq_bytes} {y = 0}
                    (omega arith)
                  ∙ window-slice q.buf (n - end) 0 (omega arith)))))
]

pub take-length-append : (xs ys : List ℕ) → take (length xs) (xs ++ ys) ≡ xs
take-length-append [] ys = refl
take-length-append (x ∷ xs) ys = ap (λ l. x ∷ l) (take-length-append xs ys)

pub drop-length-append : (xs ys : List ℕ) → drop (length xs) (xs ++ ys) ≡ ys
drop-length-append [] ys = refl
drop-length-append (x ∷ xs) ys = drop-length-append xs ys

-- The next index to read, without the case distinction.
after_read :
    (q : Ring ℕ) (n : ℕ)
    → q.r < wmq_bytes
    → n ≤ wmq_bytes
    → (q_read q n).1 ≡ record q { r = (q.r + n) % wmq_bytes }
unfolding q_read
after_read q n h small = elim (Bool-cases (leb n (wmq_bytes - q.r))) [
  | inl fits ↦ rw fits refl
  | inr wraps ↦ rw wraps (ap (λ k. record q { r = k }) (ground arith))
]

pub q_used-read :
    (q : Ring ℕ) (n : ℕ)
    → IsValid q
    → n ≤ q_used q
    → (q_used (q_read q n).1 ≡ q_used q - n) × IsValid (q_read q n).1
unfolding used
q_used-read q n v low =
    let small : n ≤ wmq_bytes = ground arith in
    subst (λ p. (q_used p ≡ q_used q - n) × IsValid p) (sym (after_read q n v.0 small))
      (grind arith)

-- A read of no more than there is takes the oldest bytes and leaves the others.
pub q_read_lem :
    (q : Ring ℕ) (n : ℕ)
    → IsValid q
    → n ≤ q_used q
    → ((q_read q n).0 ≡ take n (bytes q)) × (bytes (q_read q n).1 ≡ drop n (bytes q))
unfolding contents q_read
q_read_lem q n v low =
    let small : q_used q < wmq_bytes = used-lt wmq_bytes q v in
    let front : List ℕ = window wmq_bytes q.buf q.r n in
    let left : List ℕ = window wmq_bytes q.buf ((q.r + n) % wmq_bytes) (q_used q - n) in
    let whole : bytes q ≡ front ++ left =
      ap (window wmq_bytes q.buf q.r) {x = q_used q} {y = n + (q_used q - n)} (omega arith)
      ∙ window-append q.buf n (q_used q - n) q.r v.0 in
    let size : length front ≡ n = length-window wmq_bytes q.buf q.r n in
    let (used_is, v') = q_used-read q n v low in
    (
      q_bytes-window q n v.0 (omega arith)
          ∙ sym (
              ap (take n) whole
              ∙ (ap (λ k. take k (front ++ left)) (sym size) ∙ take-length-append front left)),
      ap (λ k. window wmq_bytes q.buf (q_read q n).1.r k) used_is
          ∙ (ap (λ p. window wmq_bytes q.buf p.r (q_used q - n)) (after_read q n v.0 (omega arith))
              ∙ sym (
                  ap (drop n) whole
                  ∙ (ap (λ k. drop k (front ++ left)) (sym size) ∙ drop-length-append front left))),
    )
