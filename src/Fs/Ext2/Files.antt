-- ===== src/Fs/Ext2/Files.antt =====
-- Reading a file against its contents (kernel/src/fs/ext2.c).
use saynaa_os.Prelude.{
  ℕ, zero, suc, ◌+◌, ◌-◌, ◌*◌, ◌/◌, ◌%◌, ◌<◌, ◌≤◌, ◌≡◌, ◌≢◌, refl, sym, ap, ◌∙◌, ◌==◌, ltb, leb,
  false, Bool-cases, inl, inr, Option, some, List, ◌∷◌, ◌++◌, if◌then◌else◌, length, replicate,
  take, drop, Array, slice, arith, min,
}
use saynaa_os.Fs.Ext2.{Ext2, Inode, u32, behind, read_loop, clamped, ext2_read_file}
use saynaa_os.Fs.Ext2.Blocks.{
  block_at, reach, byte_at, IsMapped, ext2_block_ptr_lem, ext2_get_data_block-block_at,
}

slice-append : (a : Array ℕ) (i n m : ℕ) → slice a i n ++ slice a (i + n) m ≡ slice a i (n + m)
slice-append a i zero m =
    ap (λ k. slice a k m) {x = i + 0} {y = i} (omega arith)
    ∙ ap (slice a i) {x = m} {y = 0 + m} (omega arith)
slice-append a i (suc n) m =
    ap (λ k. a i ∷ (slice a (i + 1) n ++ slice a k m)) {x = i + suc n} {y = i + 1 + n} (omega arith)
    ∙ (ap (λ l. a i ∷ l) (slice-append a (i + 1) n m)
        ∙ ap (slice a i) {x = suc (n + m)} {y = suc n + m} (omega arith))

pub length-slice : (a : Array ℕ) (i n : ℕ) → length (slice a i n) ≡ n
length-slice a i zero = refl
length-slice a i (suc n) = omega (arith, length-slice a (i + 1) n)

-- Two arrays that agree on a stretch.
slice_same :
    (a b : Array ℕ) (i j n : ℕ)
    → ((k : ℕ) → k < n → a (i + k) ≡ b (j + k))
    → slice a i n ≡ slice b j n
slice_same a b i j zero h = refl
slice_same a b i j (suc n) h =
    let head : a i ≡ b j =
      ap a {x = i} {y = i + 0} (omega arith)
      ∙ (h 0 (omega arith) ∙ ap b {x = j + 0} {y = j} (omega arith)) in
    rw head (
      ap (λ l. b j ∷ l)
        (slice_same a b (i + 1) (j + 1) n (λ k lt.
          ap a {x = i + 1 + k} {y = i + suc k} (omega arith)
          ∙ (h (suc k) (omega arith) ∙ ap b {x = j + suc k} {y = j + 1 + k} (omega arith)))))

replicate-slice :
    (a : Array ℕ) (n i : ℕ) → ((k : ℕ) → k < n → a (i + k) ≡ 0) → replicate n 0 ≡ slice a i n
replicate-slice a zero i h = refl
replicate-slice a (suc n) i h =
    let head : a i ≡ 0 = ap a {x = i} {y = i + 0} (omega arith) ∙ h 0 (omega arith) in
    rw head (
      ap (λ l. 0 ∷ l)
        (replicate-slice a n (i + 1)
          (λ k lt. ap a {x = i + 1 + k} {y = i + suc k} (omega arith) ∙ h (suc k) (omega arith))))

lt_of_mul : (i n b : ℕ) → i * b < n * b → i < n
lt_of_mul i n b h = grind arith

-- What is left after a part of a block ends where the whole ended, or is nothing.
next_within :
    (i o left n b : ℕ)
    → o < b
    → i < n
    → i * b + o + left ≤ n * b
    → (i + 1) * b + 0 + (left - (if ltb left (b - o) then left else b - o)) ≤ n * b
next_within i o left n b h near end = elim (Bool-cases (ltb left (b - o))) [
  | inl last ↦ rw last (grind arith)
  | inr more ↦ rw more (grind arith)
]

module _ (fs : Ext2) (inode : Inode) where
  -- Positions inside one block.
  byte_at-block :
      (i o k : ℕ)
      → o + k < fs.block_size
      → byte_at fs inode (i * fs.block_size + o + k) ≡ (
          let blk : ℕ = block_at fs inode i in
          if blk == 0 then 0 else fs.image (blk * fs.block_size + (o + k)))
  unfolding byte_at
  byte_at-block i o k h =
      let whole : (i * fs.block_size + o + k) / fs.block_size ≡ i = grind arith in
      let part : (i * fs.block_size + o + k) % fs.block_size ≡ o + k = grind arith in
      rw (whole, part) refl

  -- One chunk, as the loop copies it.
  chunk_lem :
      (i o n : ℕ)
      → o + n ≤ fs.block_size
      → let blk : ℕ = block_at fs inode i in
        (if blk == 0 then replicate n 0 else slice fs.image (blk * fs.block_size + o) n)
        ≡ slice (byte_at fs inode) (i * fs.block_size + o) n
  chunk_lem i o n h = elim (Bool-cases (block_at fs inode i == 0)) [
    | inl hole ↦ rw hole (
        replicate-slice (byte_at fs inode) n (i * fs.block_size + o)
          (λ k lt. byte_at-block i o k (omega arith) ∙ (rw hole refl)))
    | inr data_block ↦ rw data_block (
        slice_same fs.image (byte_at fs inode) _ _ n (λ k lt.
          ap fs.image {x = block_at fs inode i * fs.block_size + o + k}
            {y = block_at fs inode i * fs.block_size + (o + k)} (omega arith)
          ∙ sym (byte_at-block i o k (omega arith) ∙ (rw data_block refl))))
  ]

  -- One round of the loop on a file whose blocks are mapped.
  read_loop-suc :
      (fuel i o left : ℕ)
      → IsMapped fs inode
      → i < reach fs
      → o < fs.block_size
      → left ≢ 0
      → let n : ℕ = if ltb left (fs.block_size - o) then left else fs.block_size - o in
        read_loop fs inode (suc fuel) i o left
        ≡ behind
            (slice (byte_at fs inode) (i * fs.block_size + o) n)
            (read_loop fs inode fuel (i + 1) 0 (left - n))
  unfolding read_loop
  read_loop-suc fuel i o left v near h ne =
      let left_is : (left == 0) ≡ false = ground arith in
      let n : ℕ = if ltb left (fs.block_size - o) then left else fs.block_size - o in
      let fits : o + n ≤ fs.block_size = ground arith in
      let rest : Option (List ℕ) = read_loop fs inode fuel (i + 1) 0 (left - n) in
      let chunk = chunk_lem i o n fits in
      rw (left_is, ext2_get_data_block-block_at fs inode v i near)
        (elim (Bool-cases (block_at fs inode i == 0)) [
          | inl hole ↦ rw hole (ap (λ l. behind l rest) (rw hole at chunk))
          | inr data_block ↦ elim (v.mapped i near) [
            | inl zero_block ↦ absurd (ground arith)
            | inr inside ↦
                rw (data_block, ext2_block_ptr_lem fs inode v (block_at fs inode i) inside)
                  (ap (λ l. behind l rest) (rw data_block at chunk))
          ]
        ])

  -- With more fuel than bytes to copy, the loop copies the file's bytes.
  pub read_loop-slice :
      (fuel i o left : ℕ)
      → IsMapped fs inode
      → o < fs.block_size
      → i * fs.block_size + o + left ≤ reach fs * fs.block_size
      → left < fuel
      → read_loop fs inode fuel i o left
        ≡ some (slice (byte_at fs inode) (i * fs.block_size + o) left)
  unfolding read_loop
  read_loop-slice zero i o left v h end lt = absurd (omega arith)
  read_loop-slice (suc fuel) i o zero v h end lt = refl
  read_loop-slice (suc fuel) i o (suc left) v h end lt =
      let near : i < reach fs = lt_of_mul i (reach fs) fs.block_size (omega arith) in
      let n : ℕ = if ltb (suc left) (fs.block_size - o) then suc left else fs.block_size - o in
      let b : Array ℕ = byte_at fs inode in
      let start : ℕ = i * fs.block_size + o in
      let fewer : suc left - n < fuel = ground arith in
      let within : (i + 1) * fs.block_size + 0 + (suc left - n) ≤ reach fs * fs.block_size =
        next_within i o (suc left) (reach fs) fs.block_size h near end in
      let next : slice b ((i + 1) * fs.block_size + 0) (suc left - n)
          ≡ slice b (start + n) (suc left - n) =
        elim (Bool-cases (ltb (suc left) (fs.block_size - o))) [
          | inl last ↦ rw last (
              ap (slice b ((i + 1) * fs.block_size + 0)) {x = suc left - suc left} {y = 0}
                (omega arith)
              ∙ sym
                  (ap (slice b (start + suc left)) {x = suc left - suc left} {y = 0} (omega arith)))
          | inr more ↦ rw more (ap (λ k. slice b k (suc left - (fs.block_size - o))) (grind arith))
        ] in
      read_loop-suc fuel i o (suc left) v near h (omega arith)
      ∙ (ap (behind (slice b start n))
            (read_loop-slice fuel (i + 1) 0 (suc left - n) v v.room within fewer)
          ∙ (ap (λ l. some (slice b start n ++ l)) next
              ∙ ap some (
                  slice-append b start n (suc left - n)
                  ∙ ap (slice b start) {x = n + (suc left - n)} {y = suc left} (ground arith))))

-- The contents of a file.
abbrev pub content : Ext2 → Inode → List ℕ
content fs inode = slice (byte_at fs inode) 0 inode.size

take-slice : (a : Array ℕ) (i n m : ℕ) → take n (slice a i m) ≡ slice a i (min n m)
take-slice a i zero m = ap (slice a i) {x = 0} {y = min 0 m} (omega arith)
take-slice a i (suc n) zero = ap (slice a i) {x = 0} {y = min (suc n) 0} (omega arith)
take-slice a i (suc n) (suc m) =
    ap (λ l. a i ∷ l) (take-slice a (i + 1) n m)
    ∙ ap (slice a i) {x = suc (min n m)} {y = min (suc n) (suc m)} (omega arith)

drop-slice : (a : Array ℕ) (i n m : ℕ) → drop n (slice a i m) ≡ slice a (i + n) (m - n)
drop-slice a i zero m =
    ap (slice a i) {x = m} {y = m - 0} (omega arith) ∙ ap (λ k. slice a k (m - 0)) (omega arith)
drop-slice a i (suc n) zero = ap (slice a (i + suc n)) {x = 0} {y = 0 - suc n} (omega arith)
drop-slice a i (suc n) (suc m) =
    drop-slice a (i + 1) n m
    ∙ (ap (λ k. slice a k (m - n)) {x = i + 1 + n} {y = i + suc n} (omega arith)
        ∙ ap (slice a (i + suc n)) {x = m - n} {y = suc m - suc n} (omega arith))

-- A read from any offset of a file, which ends where the twelve direct blocks and one block of
-- words reach, and whose blocks are holes or begin inside the image, ends and returns the bytes of
-- its contents from there on, as many as were asked for or as there are, if the sum of the offset
-- and the size is below 2 ^ 32. The contents are those that the inode and the block of words list.
pub ext2_read_file-content :
    (fs : Ext2) (inode : Inode) (offset size : ℕ)
    → IsMapped fs inode
    → offset + size < u32
    → ext2_read_file fs inode offset size ≡ some (take size (drop offset (content fs inode)))
unfolding ext2_read_file
ext2_read_file-content fs inode offset size v fits =
    let b : Array ℕ = byte_at fs inode in
    let part : take size (drop offset (content fs inode))
        ≡ slice b offset (min size (inode.size - offset)) =
      ap (take size) (drop-slice b 0 offset inode.size)
      ∙ (take-slice b (0 + offset) size (inode.size - offset)
          ∙ ap (λ k. slice b k (min size (inode.size - offset))) {x = 0 + offset} {y = offset}
              (omega arith)) in
    let whole : (offset + size) % u32 ≡ offset + size = omega arith in
    elim (Bool-cases (leb inode.size offset)) [
      | inl past ↦
          let nothing : min size (inode.size - offset) ≡ 0 = ground arith in
          rw past (sym (ap some (part ∙ ap (slice b offset) nothing)))
      | inr inside ↦
          let left : clamped inode offset size ≡ min size (inode.size - offset) =
            rw whole (ground arith) in
          let n : ℕ = clamped inode offset size in
          let before : offset < inode.size = ground arith in
          let at : offset / fs.block_size * fs.block_size + offset % fs.block_size ≡ offset =
            grind arith in
          let small : offset % fs.block_size < fs.block_size = grind (arith, v.room) in
          rw inside (
            read_loop-slice fs inode (n + 1) (offset / fs.block_size) (offset % fs.block_size) n v
              small (omega (arith, v.short, at, left)) (omega arith)
            ∙ ap some (ap (λ k. slice b k n) at ∙ (ap (slice b offset) left ∙ sym part)))
    ]
