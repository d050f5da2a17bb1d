-- ===== src/Fs/Ext2/Blocks.antt =====
-- Where the bytes of a file stand (kernel/src/fs/ext2.c): a block map written out from the format, and
-- the code's function for it.
use saynaa_os.Prelude.{
  ℕ, ◌+◌, ◌-◌, ◌*◌, ◌/◌, ◌%◌, ◌<◌, ◌≤◌, ◌≡◌, refl, ap, ◌==◌, ltb, leb, true, false, Bool-cases, inl,
  inr, ◌⊎◌, some, if◌then◌else◌, Array, arith,
}
use saynaa_os.Fs.Ext2.{Ext2, Inode, u32, read_u16, read_u32, ext2_block_ptr, ext2_get_data_block}

-- The little-endian word of the image at a position.
unfoldable pub word_at : Array ℕ → ℕ → ℕ
word_at image a = image a + 256 * image (a + 1) + 65536 * image (a + 2) + 16777216 * image (a + 3)

-- The block that has the `i`-th part of a file: the first twelve are listed in the inode, and the
-- others in the block that the inode names for this, as words; 0 is a hole.
unfoldable pub block_at : Ext2 → Inode → Array ℕ
block_at fs inode i =
    if ltb i 12
    then inode.block i
    else if inode.block 12 == 0
    then 0
    else word_at fs.image (inode.block 12 * fs.block_size + 4 * (i - 12))

-- How many parts the twelve blocks and the one block of words reach.
abbrev pub reach : Ext2 → ℕ
reach fs = 12 + fs.block_size / 4

-- The byte of a file at a position: that of its block, or 0 in a hole.
unfoldable pub byte_at : Ext2 → Inode → Array ℕ
byte_at fs inode p =
    let blk : ℕ = block_at fs inode (p / fs.block_size) in
    if blk == 0 then 0 else fs.image (blk * fs.block_size + p % fs.block_size)

-- A block is a hole or begins inside the image.
abbrev pub IsInside : Ext2 → (blk : ℕ) → Type 0
IsInside fs blk = (blk ≡ 0) ⊎ (blk * fs.block_size < fs.size)

-- The image's size is a 32-bit word, the file ends where the direct blocks and the block of words
-- reach, and these and the block of words are holes or begin inside the image.
pub record IsMapped (fs : Ext2) (inode : Inode) : Type 0 where
  pub room : 0 < fs.block_size
  pub image : fs.size < u32
  pub words : IsInside fs (inode.block 12)
  pub mapped : (i : ℕ) → i < reach fs → IsInside fs (block_at fs inode i)
  pub short : inode.size ≤ reach fs * fs.block_size

module _ (fs : Ext2) (inode : Inode) (v : IsMapped fs inode) where
  pub ext2_block_ptr_lem :
      (blk : ℕ) → blk * fs.block_size < fs.size → ext2_block_ptr fs blk ≡ some (blk * fs.block_size)
  unfolding ext2_block_ptr
  ext2_block_ptr_lem blk h =
      let fits = v.image in
      let whole : blk * fs.block_size % u32 ≡ blk * fs.block_size = omega arith in
      let inside : leb fs.size (blk * fs.block_size) ≡ false = ground arith in
      rw (whole, inside) refl

  -- Inside its reach the function of the code finds the file's blocks.
  pub ext2_get_data_block-block_at :
      (i : ℕ) → i < reach fs → ext2_get_data_block fs inode i ≡ block_at fs inode i
  unfolding ext2_get_data_block block_at
  ext2_get_data_block-block_at i h = elim (Bool-cases (ltb i 12)) [
    | inl direct ↦ rw direct refl
    | inr far ↦
        let near : ltb (i - 12) (fs.block_size / 4) ≡ true = ground arith in
        elim (Bool-cases (inode.block 12 == 0)) [
          | inl none_there ↦ rw (far, near, none_there) refl
          | inr used ↦ elim v.words [
            | inl hole ↦ absurd (ground arith)
            | inr inside ↦
                rw (far, near, used, ext2_block_ptr_lem (inode.block 12) inside)
                  (word_lem (inode.block 12 * fs.block_size + 4 * (i - 12)))
          ]
        ]
  ]
    where
      word_lem : (a : ℕ) → read_u32 fs.image a ≡ word_at fs.image a
      word_lem a =
          unfold read_u32 read_u16 word_at in
          (let last : fs.image (a + 2 + 1) ≡ fs.image (a + 3) = ap fs.image (omega arith) in
            omega (arith, last))
