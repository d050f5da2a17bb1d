-- ===== src/Fs/Ext2.antt =====
-- The ext2 driver (kernel/src/fs/ext2.c, with the structures of kernel/include/fs/ext2.h), which only
-- reads. The image is its bytes, as numbers below 256, by their offsets. Block and group sizes of 0,
-- by which the source would divide, are not excluded.
pub mod Blocks
pub mod Files
pub mod Dirs
pub mod Lookup
mod Tests
use saynaa_os.Prelude.{
  ℕ, zero, suc, ◌+◌, ◌-◌, ◌*◌, ◌/◌, ◌%◌, ◌^◌, ◌==◌, ltb, leb, Bool, true, false, not, ◌||◌, ◌&&◌,
  Option, none, some, List, [], ◌∷◌, ◌++◌, if◌then◌else◌, length, replicate, take, Array, slice,
  has, bit_and,
}
use saynaa_os.Prelude.Int.{ℤ, pos, negsuc}
use saynaa_os.Libc.Strings.{strncmp, same}

abbrev pub u32 : ℕ
u32 = 2 ^ 32

-- Little-endian words of the image.
unfoldable pub read_u16 : Array ℕ → ℕ → ℕ
read_u16 image a = image a + image (a + 1) * 256

unfoldable pub read_u32 : Array ℕ → ℕ → ℕ
unfolding read_u16
read_u32 image a = read_u16 image a + read_u16 image (a + 2) * 65536

-- `ext2_fs_t`, with the one field of the superblock that is used after the mount.
pub record Ext2 : Type 0 where
  pub image : Array ℕ
  pub size : ℕ
  pub inodes_per_group : ℕ
  pub block_size : ℕ
  pub inode_size : ℕ

-- `ext2_inode_t`: the fields that are used.
pub record Inode : Type 0 where
  pub mode : ℕ
  pub size : ℕ
  pub block : Array ℕ

unfoldable pub inode_at : Array ℕ → ℕ → Inode
unfolding read_u16 read_u32
inode_at image a = record {
  mode = read_u16 image a;
  size = read_u32 image (a + 4);
  block = λ i. read_u32 image (a + 40 + 4 * i);
}

unfoldable pub ext2_create_fs : Array ℕ → (size : ℕ) → Option Ext2
unfolding read_u16 read_u32
ext2_create_fs image size =
    if ltb size 2048
    then none
    else if not (read_u16 image (1024 + 56) == 0xEF53)
    then none
    else some (record {
      image = image;
      size = size;
      inodes_per_group = read_u32 image (1024 + 40);
      block_size = 1024 * 2 ^ read_u32 image (1024 + 24) % u32;
      inode_size = let field : ℕ = read_u16 image (1024 + 88) in if field == 0 then 128 else field;
    })

-- The offset of a block in the image; `none` is the null pointer.
unfoldable pub ext2_block_ptr : Ext2 → (block : ℕ) → Option ℕ
ext2_block_ptr fs block =
    let offset : ℕ = block * fs.block_size % u32 in if leb fs.size offset then none else some offset

-- The offset of a group's descriptor, of 32 bytes.
unfoldable pub ext2_bg_desc : Ext2 → (group : ℕ) → Option ℕ
ext2_bg_desc fs group =
    let bgdt_offset : ℕ = if fs.block_size == 1024 then fs.block_size * 2 else fs.block_size in
    let offset : ℕ = (bgdt_offset + group * 32) % u32 in
    if ltb fs.size ((offset + 32) % u32) then none else some offset

unfoldable pub ext2_get_inode : Ext2 → (inode : ℕ) → Option Inode
unfolding ext2_bg_desc inode_at
ext2_get_inode fs inode =
    if inode == 0 then none else elim (ext2_bg_desc fs ((inode - 1) / fs.inodes_per_group)) [
      | none ↦ none
      | some bgd ↦
          let index : ℕ = (inode - 1) % fs.inodes_per_group in
          let table_block : ℕ = read_u32 fs.image (bgd + 8) in
          let offset : ℕ = (table_block * fs.block_size + index * fs.inode_size) % u32 in
          if ltb fs.size ((offset + fs.inode_size) % u32)
          then none
          else some (inode_at fs.image offset)
    ]

-- `inode->mode & EXT2_S_IFDIR`
abbrev pub is_dir : Inode → Bool
is_dir inode = has inode.mode 0x4000

unfoldable pub ext2_get_data_block : Ext2 → Inode → (block_index : ℕ) → ℕ
unfolding ext2_block_ptr read_u32
ext2_get_data_block fs inode block_index =
    if ltb block_index 12
    then inode.block block_index
    else (let idx : ℕ = block_index - 12 in
        if ltb idx (fs.block_size / 4) && not (inode.block 12 == 0)
        then elim (ext2_block_ptr fs (inode.block 12)) [
          | none ↦ 0
          | some indir ↦ read_u32 fs.image (indir + 4 * idx)
        ]
        else 0)

-- What is copied, and then the rest.
abbrev pub behind : List ℕ → Option (List ℕ) → Option (List ℕ)
behind bytes o = elim o [ none ↦ none | some rest ↦ some (bytes ++ rest) ]

-- The loop of `ext2_read_file` with `left` bytes to copy: what it copies. The outer `none` means
-- that the fuel ran out.
unfoldable pub read_loop : Ext2 → Inode → (fuel block_index block_offset left : ℕ) → Option (List ℕ)
unfolding ext2_get_data_block ext2_block_ptr
read_loop fs inode zero block_index block_offset left = none
read_loop fs inode (suc fuel) block_index block_offset left =
    let room : ℕ = fs.block_size - block_offset in
    let chunk : ℕ = if ltb left room then left else room in
    let rest : Option (List ℕ) = read_loop fs inode fuel (block_index + 1) 0 (left - chunk) in
    let blk : ℕ = ext2_get_data_block fs inode block_index in
    if left == 0
    then some []
    else if blk == 0
    then behind (replicate chunk 0) rest
    else elim (ext2_block_ptr fs blk) [
      | none ↦ some []
      | some blk_ptr ↦ behind (slice fs.image (blk_ptr + block_offset) chunk) rest
    ]

-- The size that is left of a read.
abbrev pub clamped : Inode → (offset size : ℕ) → ℕ
clamped inode offset size =
    if ltb inode.size ((offset + size) % u32) then inode.size - offset else size

-- Each round of the loop copies a byte at least.
unfoldable pub ext2_read_file : Ext2 → Inode → (offset size : ℕ) → Option (List ℕ)
unfolding read_loop
ext2_read_file fs inode offset size =
    if leb inode.size offset
    then some []
    else (let left : ℕ = clamped inode offset size in
        read_loop fs inode (left + 1) (offset / fs.block_size) (offset % fs.block_size) left)

-- `ext2_read` of a node whose handle has the number `inode`: the result and the bytes. That the
-- fuel suffices is a theorem.
unfoldable pub ext2_read : Ext2 → (inode offset size : ℕ) → ℤ × List ℕ
unfolding ext2_get_inode ext2_read_file
ext2_read fs inode offset size = elim (ext2_get_inode fs inode) [
  | none ↦ (negsuc 0, [])
  | some i ↦ if is_dir i then (negsuc 0, []) else elim (ext2_read_file fs i offset size) [
    | none ↦ (negsuc 0, [])
    | some bytes ↦ (pos (length bytes), bytes)
  ]
]

unfoldable pub ext2_write : ℤ
ext2_write = negsuc 0

-- `ext2_dirent_t` at an address: the fields, and the name's bytes.
pub record Dirent : Type 0 where
  pub inode : ℕ
  pub rec_len : ℕ
  pub name : List ℕ

unfoldable pub dirent_at : Array ℕ → ℕ → Dirent
unfolding read_u16 read_u32
dirent_at image a = record {
  inode = read_u32 image a;
  rec_len = read_u16 image (a + 4);
  name = slice image (a + 8) (image (a + 6));
}

abbrev pub is_entry : Dirent → Bool
is_entry d = not (d.inode == 0) && not (length d.name == 0) && not (d.rec_len == 0)

-- The inner loop of `ext2_readdir` over one block: the entry `index`, or how many were seen.
unfoldable pub readdir_block : Ext2 → (fuel blk_ptr offset seen index : ℕ) → Option Dirent × ℕ
unfolding dirent_at
readdir_block fs zero blk_ptr offset seen index = (none, seen)
readdir_block fs (suc fuel) blk_ptr offset seen index =
    let d : Dirent = dirent_at fs.image (blk_ptr + offset) in
    let passed = readdir_block fs fuel blk_ptr (offset + d.rec_len) (seen + 1) index in
    let skipped = readdir_block fs fuel blk_ptr (offset + d.rec_len) seen index in
    if leb fs.block_size offset
    then (none, seen)
    else if is_entry d
    then (if seen == index then (some d, seen) else passed)
    else if d.rec_len == 0
    then (none, seen)
    else skipped

-- The loop over the direct blocks from `b` on, `n` of them.
unfoldable pub readdir_blocks : Ext2 → Inode → (n b seen index : ℕ) → Option Dirent × ℕ
unfolding readdir_block ext2_block_ptr
readdir_blocks fs inode zero b seen index = (none, seen)
readdir_blocks fs inode (suc n) b seen index =
    let rest : ℕ → Option Dirent × ℕ = λ s. readdir_blocks fs inode n (b + 1) s index in
    if inode.block b == 0 then rest seen else elim (ext2_block_ptr fs (inode.block b)) [
      | none ↦ rest seen
      | some blk_ptr ↦
          let (found, seen') = readdir_block fs fs.block_size blk_ptr 0 seen index in
          elim found [ none ↦ rest seen' | some d ↦ (some d, seen') ]
    ]

abbrev pub dev_name : List ℕ
dev_name = b'd' ∷ b'e' ∷ b'v' ∷ []

-- The name and the inode that are stored; `none` stands for the result -1. The root has one more
-- entry, `dev`, behind its own.
unfoldable pub ext2_readdir : Ext2 → (inode index : ℕ) → Option (List ℕ × ℕ)
unfolding ext2_get_inode readdir_blocks
ext2_readdir fs inode index = elim (ext2_get_inode fs inode) [
  | none ↦ none
  | some i ↦
      if not (is_dir i)
      then none
      else (let (found, seen) = readdir_blocks fs i 12 0 0 index in
          elim found [
            | some d ↦ some (take 255 d.name, d.inode)
            | none ↦ if inode == 2 && index == seen then some (dev_name, 0) else none
          ])
]

-- `d->name_len == strlen(name) && strncmp(d->name, name, d->name_len) == 0`
abbrev pub matches : Dirent → List ℕ → Bool
matches d name =
    length d.name == length name
    && elim (strncmp d.name name (length d.name)) [ pos n ↦ n == 0 | negsuc n ↦ false ]

-- The inner loop of `ext2_finddir` over one block.
unfoldable pub finddir_block : Ext2 → (fuel blk_ptr offset : ℕ) → List ℕ → Option ℕ
unfolding dirent_at
finddir_block fs zero blk_ptr offset name = none
finddir_block fs (suc fuel) blk_ptr offset name =
    let d : Dirent = dirent_at fs.image (blk_ptr + offset) in
    let rest : Option ℕ = finddir_block fs fuel blk_ptr (offset + d.rec_len) name in
    if leb fs.block_size offset
    then none
    else if is_entry d && matches d name
    then some d.inode
    else if d.rec_len == 0
    then none
    else rest

unfoldable pub finddir_blocks : Ext2 → Inode → (n b : ℕ) → List ℕ → Option ℕ
unfolding finddir_block ext2_block_ptr
finddir_blocks fs inode zero b name = none
finddir_blocks fs inode (suc n) b name =
    let rest : Option ℕ = finddir_blocks fs inode n (b + 1) name in
    if inode.block b == 0 then rest else elim (ext2_block_ptr fs (inode.block b)) [
      | none ↦ rest
      | some blk_ptr ↦ elim (finddir_block fs fs.block_size blk_ptr 0 name) [
        | none ↦ rest
        | some found ↦ some found
      ]
    ]

-- What a lookup finds: the root of the device file system, or a new node for an inode.
pub data Found : Type 0 where
  devfs_root : Found
  node_of : (inode length flags : ℕ) → (name : List ℕ) → Found

-- `kmalloc` aborts rather than return null.
unfoldable pub ext2_make_node : Ext2 → (inode_no : ℕ) → (name : List ℕ) → Option Found
unfolding ext2_get_inode
ext2_make_node fs inode_no name = elim (ext2_get_inode fs inode_no) [
  | none ↦ none
  | some i ↦
      let flags : ℕ = if bit_and i.mode 0xF000 == 0x4000 then 2 else 1 in
      some (node_of inode_no i.size flags (take 63 name))
]

unfoldable pub ext2_finddir : Ext2 → (inode : ℕ) → (name : List ℕ) → Option Found
unfolding ext2_get_inode finddir_blocks ext2_make_node
ext2_finddir fs inode name = elim (ext2_get_inode fs inode) [
  | none ↦ none
  | some i ↦
      if not (is_dir i)
      then none
      else if inode == 2 && same name dev_name
      then some devfs_root
      else elim (finddir_blocks fs i 12 0 name) [
        | none ↦ none
        | some number ↦ ext2_make_node fs number name
      ]
]

-- The driver and the root node, a directory with the number 2.
unfoldable pub ext2_mount : Array ℕ → (size : ℕ) → Option (Ext2 × Found)
unfolding ext2_create_fs ext2_get_inode
ext2_mount image size = elim (ext2_create_fs image size) [
  | none ↦ none
  | some fs ↦
      let length : ℕ = elim (ext2_get_inode fs 2) [ none ↦ 0 | some i ↦ i.size ] in
      some (fs, node_of 2 length 2 (b'/' ∷ []))
]
