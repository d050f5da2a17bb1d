-- ===== src/Wm/Messages.antt =====
-- Messages put into a queue and taken out of it (kernel/src/fs/dev/dev_wm.c).
use saynaa_os.Prelude.{
  ℕ, ◌+◌, ◌-◌, ◌%◌, ◌<◌, ◌≤◌, ◌≡◌, refl, sym, ap, ap₂, subst, ◌∙◌, List, [], ◌∷◌, ◌++◌, arith, ltb,
  ◌==◌, ◌||◌, true, false, if◌then◌else◌, length, length-append, take, drop, Bool-cases, inl, inr,
  append_assoc, append-nil, Option, none, some,
}
use saynaa_os.Ring.{Ring}
use saynaa_os.Ring.Contents.{used-lt, length-contents}
use saynaa_os.Wm.{
  u32, wmq_bytes, wm_max_payload, hdr_size, q_used, q_free, q_write, q_read, q_bytes, word_at,
  hdr_bytes, drop_loop, put_message, get_message,
}
use saynaa_os.Wm.Words.{length-hdr_bytes}
use saynaa_os.Wm.Bytes.{
  IsValid, bytes, q_write_lem, q_read_lem, q_used-read, take-length-append, drop-length-append,
}
use saynaa_os.Wm.Queue.{
  Message, encode, encodes, IsMessage, AllMessages, Holds, size_of, size, make_room, used-Holds,
  length-size, header_of, drop_loop_lem, peek_some,
}

-- After room is made the message fits.
make_room-fits :
    (total : ℕ) (ms : List Message)
    → total < wmq_bytes
    → size (make_room total ms) + total < wmq_bytes
make_room-fits total [] h = omega arith
make_room-fits total (m ∷ ms) h = elim (Bool-cases (ltb (wmq_bytes - 1) (size (m ∷ ms) + total))) [
  | inl full ↦ rw full (make_room-fits total ms h)
  | inr room ↦ rw room (ground arith)
]

encodes-append : (ms ns : List Message) → encodes (ms ++ ns) ≡ encodes ms ++ encodes ns
encodes-append [] ns = refl
encodes-append (m ∷ ms) ns =
    ap (λ l. encode m ++ l) (encodes-append ms ns)
    ∙ sym (append_assoc (encode m) (encodes ms) (encodes ns))

all-append :
    (ms : List Message) (m : Message) → AllMessages ms → IsMessage m → AllMessages (ms ++ m ∷ [])
all-append [] m h v = (v, tt)
all-append (n ∷ ms) m (w, h) v = (w, all-append ms m h v)

none_in : (l : List ℕ) → length l ≡ 0 → l ≡ []
none_in [] e = refl
none_in (x ∷ l) e = absurd (omega (arith, e))

-- The two writes of a message, of which the second is left out without a payload.
write_message : Ring ℕ → Message → Ring ℕ
write_message q m =
    let q' : Ring ℕ = q_write q (hdr_bytes m.src m.type (length m.payload)) in
    if length m.payload == 0 then q' else q_write q' m.payload

write_message_lem :
    (q : Ring ℕ) (m : Message)
    → IsValid q
    → q_used q + size_of m < wmq_bytes
    → (bytes (write_message q m) ≡ bytes q ++ encode m) × IsValid (write_message q m)
unfolding write_message
write_message_lem q m v room =
    let header : List ℕ = hdr_bytes m.src m.type (length m.payload) in
    let long = length-hdr_bytes m.src m.type (length m.payload) in
    let q' : Ring ℕ = q_write q header in
    let (is, v') = q_write_lem q header v (omega (arith, long)) in
    let used_is : q_used q' ≡ q_used q + hdr_size =
      sym (length-contents wmq_bytes q' v')
      ∙ (ap length is
          ∙ omega (arith, length-append (bytes q) header, long, length-contents wmq_bytes q v)) in
    let (is', v'') = q_write_lem q' m.payload v' (omega (arith, used_is)) in
    elim (Bool-cases (length m.payload == 0)) [
      | inl empty ↦
          let nothing : m.payload ≡ [] = none_in m.payload (ground arith) in
          rw empty (
            is
                ∙ ap (λ l. bytes q ++ l)
                    (sym (append-nil header) ∙ ap (λ l. header ++ l) (sym nothing)),
            v',
          )
      | inr more ↦
          rw more
            (is' ∙ (ap (λ l. l ++ m.payload) is ∙ append_assoc (bytes q) header m.payload), v'')
    ]

put_step :
    (q p : Ring ℕ) (m : Message)
    → drop_loop wmq_bytes q (size_of m) ≡ some p
    → ltb (q_free p) (size_of m) ≡ false
    → put_message q m.src m.type m.payload ≡ some (true, write_message p m)
unfolding put_message write_message
put_step q p m e room = rw (put_message, e, room) refl

has_room : (q : Ring ℕ) (n : ℕ) → q_used q + n < wmq_bytes → ltb (q_free q) n ≡ false
has_room q n h = ground arith

-- In a queue that holds messages, a message whose sender and type are words and whose payload has at
-- most 256 bytes goes behind those that are left when the oldest are dropped for it; the fuel of the
-- loop suffices.
pub put_message_lem :
    (q : Ring ℕ) (ms : List Message) (m : Message)
    → Holds q ms
    → IsMessage m
    → (q' : Ring ℕ) × (put_message q m.src m.type m.payload ≡ some (true, q'))
      × Holds q' (make_room (size_of m) ms ++ m ∷ [])
put_message_lem q ms m h v =
    let enough = length-size ms in
    let has = used-Holds q ms h in
    let small = used-lt wmq_bytes q h.valid in
    let (p, e, held) =
      drop_loop_lem ms wmq_bytes q (size_of m) h (omega (arith, enough, has, small)) in
    let fits = make_room-fits (size_of m) ms (omega (arith, v.payload)) in
    let now = used-Holds p (make_room (size_of m) ms) held in
    let room : ltb (q_free p) (size_of m) ≡ false =
      has_room p (size_of m) (omega (arith, fits, now)) in
    let (is, v') = write_message_lem p m held.valid (omega (arith, fits, now)) in
    (
      write_message p m,
      put_step q p m e room,
      record {
        valid = v';
        is =
            is
            ∙ (ap (λ l. l ++ encode m) held.is
                ∙ sym (
                    encodes-append (make_room (size_of m) ms) (m ∷ [])
                    ∙ ap (λ l. encodes (make_room (size_of m) ms) ++ l) (append-nil (encode m))));
        all = all-append (make_room (size_of m) ms) m held.all v;
      },
    )

-- What a reader gets of the messages with a buffer of `n` bytes, and those that are left.
abbrev pub take_message : List Message → (n : ℕ) → Option (List ℕ) × List Message
take_message [] n = (some [], [])
take_message (m ∷ ms) n = if ltb n (size_of m) then (none, m ∷ ms) else (some (encode m), ms)

-- The header and the payload of the message in front.
read_message : Ring ℕ → (len : ℕ) → Option (List ℕ) × Ring ℕ
read_message q len =
    let (header, q') = q_read q hdr_size in
    if len == 0
    then (some header, q')
    else (let (payload, q'') = q_read q' len in (some (header ++ payload), q''))

get_empty : (q : Ring ℕ) (n : ℕ) → q_used q ≡ 0 → get_message q n ≡ (some [], q)
unfolding get_message
get_empty q n h = let e : (q_used q == 0) ≡ true = ground (arith, h) in rw (get_message, e) refl

get_small :
    (q : Ring ℕ) (n len : ℕ)
    → hdr_size ≤ q_used q
    → word_at (q_bytes q hdr_size) 8 ≡ len
    → len ≤ wm_max_payload
    → n < hdr_size + len
    → get_message q n ≡ (none, q)
unfolding get_message
get_small q n len h is low small =
    let e : (q_used q == 0) ≡ false = ground (arith, h) in
    let f : (ltb wm_max_payload len || ltb n ((hdr_size + len) % u32)) ≡ true =
      ground (arith, low, small) in
    rw (get_message, e, peek_some q hdr_size h, is, f) refl

get_fits :
    (q : Ring ℕ) (n len : ℕ)
    → hdr_size ≤ q_used q
    → word_at (q_bytes q hdr_size) 8 ≡ len
    → len ≤ wm_max_payload
    → hdr_size + len ≤ n
    → get_message q n ≡ read_message q len
unfolding get_message read_message
get_fits q n len h is low fits =
    let e : (q_used q == 0) ≡ false = ground (arith, h) in
    let f : (ltb wm_max_payload len || ltb n ((hdr_size + len) % u32)) ≡ false =
      ground (arith, low, fits) in
    rw (get_message, e, peek_some q hdr_size h, is, f) refl

read_message_lem :
    (q : Ring ℕ) (m : Message) (ms : List Message)
    → Holds q (m ∷ ms)
    → ((read_message q (length m.payload)).0 ≡ some (encode m))
      × Holds (read_message q (length m.payload)).1 ms
unfolding read_message q_read
read_message_lem q m ms h =
    let header : List ℕ = hdr_bytes m.src m.type (length m.payload) in
    let long = length-hdr_bytes m.src m.type (length m.payload) in
    let has = used-Holds q (m ∷ ms) h in
    let (v, valid) = h.all in
    let (front, len) = header_of q m ms h in
    let q' : Ring ℕ = (q_read q hdr_size).1 in
    let (used_is, v') = q_used-read q hdr_size h.valid (omega (arith, has)) in
    let (got, left) = q_read_lem q hdr_size h.valid (omega (arith, has)) in
    let behind : bytes q' ≡ m.payload ++ encodes ms =
      left
      ∙ (ap (drop hdr_size) (h.is ∙ append_assoc header m.payload (encodes ms))
          ∙ (ap (λ k. drop k (header ++ (m.payload ++ encodes ms))) (sym long)
              ∙ drop-length-append header (m.payload ++ encodes ms))) in
    elim (Bool-cases (length m.payload == 0)) [
      | inl empty ↦
          let nothing : m.payload ≡ [] = none_in m.payload (ground arith) in
          rw empty (
            ap some (front ∙ (sym (append-nil header) ∙ ap (λ l. header ++ l) (sym nothing))),
            record { valid = v'; is = behind ∙ ap (λ l. l ++ encodes ms) nothing; all = valid },
          )
      | inr more ↦
          let (got', left') = q_read_lem q' (length m.payload) v' (omega (arith, has, used_is)) in
          let (used', v'') = q_used-read q' (length m.payload) v' (omega (arith, has, used_is)) in
          rw more (
            ap some (
                ap₂ ◌++◌ front (
                  got'
                  ∙ (ap (take (length m.payload)) behind
                      ∙ take-length-append m.payload (encodes ms)))),
            record {
              valid = v'';
              is =
                  left'
                  ∙ (ap (drop (length m.payload)) behind
                      ∙ drop-length-append m.payload (encodes ms));
              all = valid;
            },
          )
    ]

-- From a queue that holds messages, a read takes the oldest message if the buffer has room for it;
-- otherwise it leaves the messages as they are, with the result -1, or with no bytes when there is no
-- message.
pub get_message_lem :
    (q : Ring ℕ) (ms : List Message) (n : ℕ)
    → Holds q ms
    → ((get_message q n).0 ≡ (take_message ms n).0)
      × Holds (get_message q n).1 (take_message ms n).1
get_message_lem q [] n h =
    subst (λ r. (r.0 ≡ some []) × Holds r.1 []) (sym (get_empty q n (used-Holds q [] h))) (refl, h)
get_message_lem q (m ∷ ms) n h =
    let has = used-Holds q (m ∷ ms) h in
    let (front, len) = header_of q m ms h in
    let (v, valid) = h.all in
    elim (Bool-cases (ltb n (size_of m))) [
      | inl small ↦ rw small (
          subst (λ r. (r.0 ≡ none) × Holds r.1 (m ∷ ms))
            (sym
              (get_small q n (length m.payload) (omega (arith, has)) len v.payload (ground arith)))
            (refl, h))
      | inr fits ↦ rw fits (
          subst (λ r. (r.0 ≡ some (encode m)) × Holds r.1 ms)
            (sym
              (get_fits q n (length m.payload) (omega (arith, has)) len v.payload (ground arith)))
            (read_message_lem q m ms h))
    ]
