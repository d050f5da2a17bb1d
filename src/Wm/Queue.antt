-- ===== src/Wm/Queue.antt =====
-- The queue as messages (kernel/src/fs/dev/dev_wm.c).
use saynaa_os.Prelude.{
  ℕ, zero, suc, ◌+◌, ◌-◌, ◌%◌, ◌<◌, ◌≤◌, ◌≡◌, refl, sym, ap, ◌∙◌, List, [], ◌∷◌, ◌++◌, arith, leb,
  ltb, ◌==◌, ◌&&◌, ◌||◌, true, false, if◌then◌else◌, length, length-append, take, drop, Bool-cases,
  inl, inr, append_assoc, append-nil, some,
}
use saynaa_os.Ring.{Ring}
use saynaa_os.Ring.Contents.{used-lt, length-contents}
use saynaa_os.Wm.{
  u32, wmq_bytes, wm_max_payload, hdr_size, q_used, q_free, q_read, q_peek, q_bytes, word_at,
  hdr_bytes, discard_loop, drop_loop,
}
use saynaa_os.Wm.Words.{word_at-hdr_bytes, length-hdr_bytes}
use saynaa_os.Wm.Bytes.{
  IsValid, bytes, q_read_lem, q_used-read, take-length-append, drop-length-append,
}

pub record Message : Type 0 where
  pub src : ℕ
  pub type : ℕ
  pub payload : List ℕ

-- The header and the payload, as they lie in the queue and as a reader gets them.
abbrev pub encode : Message → List ℕ
encode m = hdr_bytes m.src m.type (length m.payload) ++ m.payload

abbrev pub encodes : List Message → List ℕ
encodes [] = []
encodes (m ∷ ms) = encode m ++ encodes ms

pub record IsMessage (m : Message) : Type 0 where
  pub src : m.src < u32
  pub type : m.type < u32
  pub payload : length m.payload ≤ wm_max_payload

abbrev pub AllMessages : List Message → Type 0
AllMessages [] = Unit {0}
AllMessages (m ∷ ms) = IsMessage m × AllMessages ms

-- The queue holds the messages, oldest first.
pub record Holds (q : Ring ℕ) (ms : List Message) : Type 0 where
  pub valid : IsValid q
  pub is : bytes q ≡ encodes ms
  pub all : AllMessages ms

-- The bytes that a message takes, and those that messages take.
abbrev pub size_of : Message → ℕ
size_of m = hdr_size + length m.payload

abbrev pub size : List Message → ℕ
size [] = 0
size (m ∷ ms) = size_of m + size ms

-- What is left when the oldest messages are dropped until there are `total` bytes of room.
abbrev pub make_room : (total : ℕ) → List Message → List Message
make_room total [] = []
make_room total (m ∷ ms) =
    let rest : List Message = make_room total ms in
    if ltb (wmq_bytes - 1) (size (m ∷ ms) + total) then rest else m ∷ ms

pub length-encode : (m : Message) → length (encode m) ≡ size_of m
length-encode m = omega (
  arith,
  length-append (hdr_bytes m.src m.type (length m.payload)) m.payload,
  length-hdr_bytes m.src m.type (length m.payload),
)

pub length-encodes : (ms : List Message) → length (encodes ms) ≡ size ms
length-encodes [] = refl
length-encodes (m ∷ ms) =
    omega (arith, length-append (encode m) (encodes ms), length-encode m, length-encodes ms)

pub used-Holds : (q : Ring ℕ) (ms : List Message) → Holds q ms → q_used q ≡ size ms
used-Holds q ms h = sym (length-contents wmq_bytes q h.valid) ∙ (ap length h.is ∙ length-encodes ms)

pub length-size : (ms : List Message) → length ms ≤ size ms
length-size [] = omega arith
length-size (m ∷ ms) = omega (arith, length-size ms)

-- The header in front of a queue.
pub header_of :
    (q : Ring ℕ) (m : Message) (ms : List Message)
    → Holds q (m ∷ ms)
    → (q_bytes q hdr_size ≡ hdr_bytes m.src m.type (length m.payload))
      × (word_at (q_bytes q hdr_size) 8 ≡ length m.payload)
unfolding q_read
header_of q m ms h =
    let header : List ℕ = hdr_bytes m.src m.type (length m.payload) in
    let has = used-Holds q (m ∷ ms) h in
    let (v, valid) = h.all in
    let (got, left) = q_read_lem q hdr_size h.valid (omega (arith, has)) in
    let front : q_bytes q hdr_size ≡ header =
      got
      ∙ (ap (take hdr_size) (h.is ∙ append_assoc header m.payload (encodes ms))
          ∙ (ap (λ k. take k (header ++ (m.payload ++ encodes ms)))
                (sym (length-hdr_bytes m.src m.type (length m.payload)))
              ∙ take-length-append header (m.payload ++ encodes ms))) in
    let (s, t, len) =
      word_at-hdr_bytes m.src m.type (length m.payload) [] v.src v.type
        (omega (arith, v.payload)) in
    (front, ap (λ l. word_at l 8) (front ∙ sym (append-nil header)) ∙ len)

pub drop-drop : (n m : ℕ) (xs : List ℕ) → drop m (drop n xs) ≡ drop (n + m) xs
drop-drop zero m xs = ap (λ k. drop k xs) (omega arith)
drop-drop (suc n) m [] = drop-nil m ∙ sym (drop-nil (suc n + m))
  where
    drop-nil : (k : ℕ) → ◌≡◌ {A = List ℕ} (drop k []) []
    drop-nil zero = refl
    drop-nil (suc k) = refl
drop-drop (suc n) m (x ∷ xs) =
    drop-drop n m xs ∙ ap (λ k. drop k (x ∷ xs)) {x = suc (n + m)} {y = suc n + m} (omega arith)

discard_loop_lem :
    (fuel : ℕ) (q : Ring ℕ) (n : ℕ)
    → IsValid q
    → n ≤ q_used q
    → n < fuel
    → (q' : Ring ℕ) × (discard_loop fuel q n ≡ some q') × (bytes q' ≡ drop n (bytes q)) × IsValid q'
unfolding discard_loop
discard_loop_lem zero q n v low h = absurd (omega arith)
discard_loop_lem (suc fuel) q n v low h = elim (Bool-cases (n == 0)) [
  | inl done ↦
      let none_left : n ≡ 0 = ground arith in
      (q, rw done refl, sym (ap (λ k. drop k (bytes q)) none_left), v)
  | inr more ↦
      let chunk : ℕ = if ltb 64 n then 64 else n in
      let part : (chunk ≤ n) × (0 < chunk) = ground arith in
      let (used_is, v') = q_used-read q chunk v (omega (arith, part)) in
      let (got, left) = q_read_lem q chunk v (omega (arith, part)) in
      let (q', e, is, valid) =
        discard_loop_lem fuel (q_read q chunk).1 (n - chunk) v' (omega (arith, used_is, part))
          (omega (arith, part)) in
      (
        q',
        rw more e,
        is
            ∙ (ap (drop (n - chunk)) left
                ∙ (drop-drop chunk (n - chunk) (bytes q)
                    ∙ ap (λ k. drop k (bytes q)) {x = chunk + (n - chunk)} {y = n}
                        (omega (arith, part)))),
        valid,
      )
]

pub peek_some : (q : Ring ℕ) (n : ℕ) → n ≤ q_used q → q_peek q n ≡ some (q_bytes q n)
unfolding q_peek
peek_some q n h = let low : ltb (q_used q) n ≡ false = ground arith in rw low refl

drop_stop :
    (fuel : ℕ) (q : Ring ℕ) (total : ℕ)
    → (ltb (q_free q) total && leb hdr_size (q_used q)) ≡ false
    → drop_loop (suc fuel) q total ≡ some q
unfolding drop_loop
drop_stop fuel q total stop = rw stop refl

drop_step :
    (fuel : ℕ) (q : Ring ℕ) (total : ℕ) (old : ℕ) (q' : Ring ℕ)
    → (ltb (q_free q) total && leb hdr_size (q_used q)) ≡ true
    → (hdr_size + word_at (q_bytes q hdr_size) 8) % u32 ≡ old
    → (old == 0 || ltb (wmq_bytes - 1) old) ≡ false
    → discard_loop (old + 1) q old ≡ some q'
    → drop_loop (suc fuel) q total ≡ drop_loop fuel q' total
unfolding drop_loop
drop_step fuel q total old q' go is fine e =
    let peek : q_peek q hdr_size ≡ some (q_bytes q hdr_size) =
      peek_some q hdr_size (ground arith) in
    rw (go, peek, is, fine, e) refl

-- The loop that makes room in a queue of messages ends if it is given more rounds than there are
-- messages; it drops the oldest messages whole, as few as leave `total` bytes free, or all.
pub drop_loop_lem :
    (ms : List Message) (fuel : ℕ) (q : Ring ℕ) (total : ℕ)
    → Holds q ms
    → length ms < fuel
    → (q' : Ring ℕ) × (drop_loop fuel q total ≡ some q') × Holds q' (make_room total ms)
drop_loop_lem ms zero q total h f = absurd (omega arith)
drop_loop_lem [] (suc fuel) q total h f =
    let empty = used-Holds q [] h in (q, drop_stop fuel q total (ground (arith, empty)), h)
drop_loop_lem (m ∷ ms) (suc fuel) q total h f =
    let has = used-Holds q (m ∷ ms) h in
    let small = used-lt wmq_bytes q h.valid in
    elim (Bool-cases (ltb (wmq_bytes - 1) (size (m ∷ ms) + total))) [
      | inr room ↦ (q, drop_stop fuel q total (ground (arith, has)), rw room h)
      | inl full ↦
          let (front, len) = header_of q m ms h in
          let (v, valid) = h.all in
          let old : (hdr_size + word_at (q_bytes q hdr_size) 8) % u32 ≡ size_of m =
            omega (arith, len, v.payload) in
          let fine : (size_of m == 0 || ltb (wmq_bytes - 1) (size_of m)) ≡ false =
            ground (arith, has, small) in
          let (q', e, is, valid') =
            discard_loop_lem (size_of m + 1) q (size_of m) h.valid (omega (arith, has))
              (omega arith) in
          let left : bytes q' ≡ encodes ms =
            is
            ∙ (ap (drop (size_of m)) h.is
                ∙ (ap (λ k. drop k (encodes (m ∷ ms))) (sym (length-encode m))
                    ∙ drop-length-append (encode m) (encodes ms))) in
          let (q'', e', held) =
            drop_loop_lem ms fuel q' total (record { valid = valid'; is = left; all = valid })
              (omega arith) in
          (
            q'',
            drop_step fuel q total (size_of m) q' (ground (arith, has)) old fine e ∙ e',
            rw full held,
          )
    ]
