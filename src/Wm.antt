-- ===== src/Wm.antt =====
-- The device of the window manager (kernel/src/fs/dev/dev_wm.c, with the headers of
-- kernel/include/fs/dev/dev_wm.h): a byte queue of messages for each process. The stack buffer that
-- a discarded message is copied to is not modelled.
pub mod Words
pub mod Bytes
pub mod Queue
pub mod Messages
pub mod Endpoints
pub mod Access
mod Tests
use saynaa_os.Prelude.{
  ℕ, zero, suc, ◌+◌, ◌-◌, ◌*◌, ◌/◌, ◌%◌, ◌^◌, ◌==◌, ltb, leb, Bool, true, false, not, ◌||◌, ◌&&◌,
  Option, none, some, List, [], ◌∷◌, ◌++◌, if◌then◌else◌, length, take, drop, get_or, Array, write,
  slice, memcpy,
}
use saynaa_os.Ring.{Ring, used}

abbrev pub u32 : ℕ
u32 = 2 ^ 32

abbrev pub wm_endpoints : ℕ
wm_endpoints = 32

abbrev pub wmq_bytes : ℕ
wmq_bytes = 8192

abbrev pub wm_max_payload : ℕ
wm_max_payload = 256

-- `endpoint_t`
pub record Endpoint : Type 0 where
  pub pid : ℕ
  pub q : Ring ℕ

pub record Wm : Type 0 where
  pub eps : Array Endpoint
  pub server_pid : ℕ

-- The first endpoint of a pid from `i` on, with `n` left.
unfoldable pub find_from : Array Endpoint → (pid i n : ℕ) → Option ℕ
find_from eps pid i zero = none
find_from eps pid i (suc n) =
    let rest : Option ℕ = find_from eps pid (i + 1) n in if (eps i).pid == pid then some i else rest

unfoldable pub find_ep : Wm → (pid : ℕ) → Option ℕ
unfolding find_from
find_ep m pid = find_from m.eps pid 0 wm_endpoints

abbrev pub empty_queue : Ring ℕ
empty_queue = record { buf = λ _. 0; r = 0; w = 0 }

unfoldable pub ensure_ep : Wm → (pid : ℕ) → Option ℕ × Wm
unfolding find_ep
ensure_ep m pid = elim (find_ep m pid) [
  | some i ↦ (some i, m)
  | none ↦ elim (find_ep m 0) [
    | none ↦ (none, m)
    | some i ↦ (some i, record m { eps = write m.eps i (record { pid = pid; q = empty_queue }) })
  ]
]

abbrev pub q_used : Ring ℕ → ℕ
q_used q = used wmq_bytes q

abbrev pub q_free : Ring ℕ → ℕ
q_free q = wmq_bytes - 1 - q_used q

-- `n` is the length of `src`.
unfoldable pub q_write : Ring ℕ → List ℕ → Ring ℕ
q_write q src =
    let n : ℕ = length src in
    let end : ℕ = wmq_bytes - q.w in
    if leb n end
    then record q { buf = memcpy q.buf q.w src; w = (q.w + n) % wmq_bytes }
    else record q { buf = memcpy (memcpy q.buf q.w (take end src)) 0 (drop end src); w = n - end }

-- The `n` bytes from the read index on.
unfoldable pub q_bytes : Ring ℕ → (n : ℕ) → List ℕ
q_bytes q n =
    let end : ℕ = wmq_bytes - q.r in
    if leb n end then slice q.buf q.r n else slice q.buf q.r end ++ slice q.buf 0 (n - end)

unfoldable pub q_read : Ring ℕ → (n : ℕ) → List ℕ × Ring ℕ
unfolding q_bytes
q_read q n =
    let end : ℕ = wmq_bytes - q.r in
    (q_bytes q n, record q { r = if leb n end then (q.r + n) % wmq_bytes else n - end })

unfoldable pub q_peek : Ring ℕ → (n : ℕ) → Option (List ℕ)
unfolding q_bytes
q_peek q n = if ltb (q_used q) n then none else some (q_bytes q n)

-- A word in memory, its lowest byte first.
unfoldable pub word_bytes : ℕ → List ℕ
word_bytes v = v % 256 ∷ v / 256 % 256 ∷ v / 65536 % 256 ∷ v / 16777216 % 256 ∷ []

-- The word at an offset of a buffer.
unfoldable pub word_at : List ℕ → (offset : ℕ) → ℕ
word_at bytes offset =
    get_or bytes offset 0
    + get_or bytes (offset + 1) 0 * 256
    + get_or bytes (offset + 2) 0 * 65536
    + get_or bytes (offset + 3) 0 * 16777216

-- The size of either header, of three words.
abbrev pub hdr_size : ℕ
hdr_size = 12

-- `wm_recv_hdr_t`
unfoldable pub hdr_bytes : (src type len : ℕ) → List ℕ
unfolding word_bytes
hdr_bytes src type len = word_bytes src ++ word_bytes type ++ word_bytes len

-- The loop over chunks of at most 64 bytes, with `fuel` rounds; `none` if they do not suffice.
unfoldable pub discard_loop : (fuel : ℕ) → Ring ℕ → (old_total : ℕ) → Option (Ring ℕ)
unfolding q_read
discard_loop zero q old_total = none
discard_loop (suc fuel) q old_total =
    let chunk : ℕ = if ltb 64 old_total then 64 else old_total in
    let rest : Option (Ring ℕ) = discard_loop fuel (q_read q chunk).1 (old_total - chunk) in
    if old_total == 0 then some q else rest

-- The loop that drops the oldest messages until `total` bytes are free, with `fuel` rounds.
unfoldable pub drop_loop : (fuel : ℕ) → Ring ℕ → (total : ℕ) → Option (Ring ℕ)
unfolding q_peek word_at discard_loop
drop_loop zero q total = none
drop_loop (suc fuel) q total =
    if ltb (q_free q) total && leb hdr_size (q_used q)
    then elim (q_peek q hdr_size) [
      | none ↦ some q
      | some old ↦
          let old_total : ℕ = (hdr_size + word_at old 8) % u32 in
          if old_total == 0 || ltb (wmq_bytes - 1) old_total
          then some (record q { r = 0; w = 0 })
          else elim (discard_loop (old_total + 1) q old_total) [
            | none ↦ none
            | some q' ↦ drop_loop fuel q' total
          ]
    ]
    else some q

-- A message of `total` bytes put behind the others: the queue is left without it when it has no room
-- even so. The outer `none` means that the fuel ran out; each round drops a byte at least.
unfoldable pub put_message : Ring ℕ → (src type : ℕ) → (payload : List ℕ) → Option (Bool × Ring ℕ)
unfolding drop_loop q_write hdr_bytes
put_message q src type payload =
    let total : ℕ = hdr_size + length payload in
    elim (drop_loop wmq_bytes q total) [
      | none ↦ none
      | some q' ↦
          if ltb (q_free q') total
          then some (false, q')
          else (let q'' : Ring ℕ = q_write q' (hdr_bytes src type (length payload)) in
              some (true, if length payload == 0 then q'' else q_write q'' payload))
    ]

-- The length of the message is that of `payload`.
unfoldable pub enqueue_msg :
    Wm → (dst_pid src_pid type : ℕ) → (payload : List ℕ) → Option (Bool × Wm)
unfolding ensure_ep put_message
enqueue_msg m dst_pid src_pid type payload =
    if ltb wm_max_payload (length payload)
    then some (false, m)
    else (let (ep, m') = ensure_ep m dst_pid in
        elim ep [
          | none ↦ some (false, m')
          | some i ↦ elim (put_message (m'.eps i).q src_pid type payload) [
            | none ↦ none
            | some (ok, q) ↦
                some
                  (ok, record m' { eps = write m'.eps i (record { pid = (m'.eps i).pid; q = q }) })
          ]
        ])

-- What a read takes from a queue: `none` stands for the result -1, and otherwise the result is the
-- number of bytes that are stored.
unfoldable pub get_message : Ring ℕ → (size : ℕ) → Option (List ℕ) × Ring ℕ
unfolding q_peek word_at q_read
get_message q size = if q_used q == 0 then (some [], q) else elim (q_peek q hdr_size) [
  | none ↦ (some [], q)
  | some hdr ↦
      let len : ℕ = word_at hdr 8 in
      if ltb wm_max_payload len || ltb size ((hdr_size + len) % u32)
      then (none, q)
      else (let (header, q') = q_read q hdr_size in
          if len == 0
          then (some header, q')
          else (let (payload, q'') = q_read q' len in (some (header ++ payload), q'')))
]

-- `pid` is that of the process that runs, if one does.
unfoldable pub dev_wm_read :
    Wm → (pid : Option ℕ) → (buffer : Bool) → (size : ℕ) → Option (List ℕ) × Wm
unfolding find_ep get_message
dev_wm_read m none buffer size = (none, m)
dev_wm_read m (some pid) buffer size =
    if not buffer || ltb size hdr_size then (none, m) else elim (find_ep m pid) [
      | none ↦ (some [], m)
      | some i ↦
          (let (got, q) = get_message (m.eps i).q size in
            (got, record m { eps = write m.eps i (record { pid = (m.eps i).pid; q = q }) }))
    ]

-- The registration of the sender, of whom the first becomes the server.
unfoldable pub register_sender : Wm → (src : ℕ) → Wm
unfolding ensure_ep
register_sender m src =
    let m' : Wm =
      if m.server_pid == 0 then (ensure_ep (record m { server_pid = src }) src).1 else m in
    (ensure_ep m' src).1

-- The result is the number of bytes, and -1 if it is `none`. The outer `none` is that of
-- `enqueue_msg`. The buffer has the size of the argument.
unfoldable pub dev_wm_write :
    Wm → (pid : Option ℕ) → (buffer : Option (List ℕ)) → Option (Option ℕ × Wm)
unfolding word_at register_sender enqueue_msg
dev_wm_write m none buffer = some (none, m)
dev_wm_write m (some src) none = some (none, m)
dev_wm_write m (some src) (some buffer) =
    let len : ℕ = word_at buffer 8 in
    if ltb (length buffer) hdr_size
      || ltb wm_max_payload len
      || ltb (length buffer) (hdr_size + len)
    then some (none, m)
    else (let m' : Wm = register_sender m src in
        let dst : ℕ = if word_at buffer 0 == 0 then m'.server_pid else word_at buffer 0 in
        if not (src == m'.server_pid) && not (dst == m'.server_pid)
        then some (none, m')
        else elim (enqueue_msg m' dst src (word_at buffer 4) (take len (drop hdr_size buffer))) [
          | none ↦ none
          | some (ok, m'') ↦ some (if ok then some (hdr_size + len) else none, m'')
        ])
