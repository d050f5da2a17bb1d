-- ===== src/Fs/Ext2/Tests.antt =====
-- Runs of the ext2 driver on a small image, with blocks of 128 bytes: inode 1 is a file of five bytes
-- and inode 2 a directory of two entries.
use saynaa_os.Prelude.{
  ℕ, ◌+◌, ◌*◌, ◌≤◌, ◌≡◌, refl, ◌==◌, ltb, ◌||◌, ◌&&◌, bit_and, Bool, true, inl, ◌⊎◌, none, some,
  List, [], ◌∷◌, if◌then◌else◌, length, take, drop, get_elem?, arith, all_below, all_below-true,
}
use saynaa_os.Fs.Vfs.{VfsFileOps}
use saynaa_os.Sys.Files.Reads.{IsFile}
use saynaa_os.Sys.Files.Disk.{ext2_read-IsFile}
use saynaa_os.Fs.Ext2.{
  ext2_read, Ext2, Inode, Dirent, ext2_get_inode, ext2_read_file, ext2_readdir, devfs_root, node_of,
  ext2_finddir, dev_name, read_u32,
}
use saynaa_os.Fs.Ext2.Blocks.{IsMapped, IsInside, block_at}
use saynaa_os.Fs.Ext2.Files.{content, ext2_read_file-content}
use saynaa_os.Fs.Ext2.Dirs.{entries, ext2_readdir-entries}
use saynaa_os.Fs.Ext2.Lookup.{FirstNamed, NotBefore, ext2_finddir-entries}

-- The bytes that are not 0: the table's block, the two inodes, the file and the directory.
abbrev bytes : List (ℕ × ℕ)
bytes =
    (136, 2)
    ∷ (257, 0x80)
    ∷ (260, 5)
    ∷ (296, 4)
    ∷ (385, 0x40)
    ∷ (424, 5)
    ∷ (512, b'h')
    ∷ (513, b'e')
    ∷ (514, b'l')
    ∷ (515, b'l')
    ∷ (516, b'o')
    ∷ (640, 1)
    ∷ (644, 12)
    ∷ (646, 1)
    ∷ (648, b'a')
    ∷ (652, 2)
    ∷ (656, 116)
    ∷ (658, 1)
    ∷ (660, b'b')
    ∷ []

abbrev look_up : List (ℕ × ℕ) → ℕ → ℕ
look_up [] a = 0
look_up ((key, value) ∷ rest) a = if a == key then value else look_up rest a

abbrev disk : Ext2
disk = record {
  image = look_up bytes;
  size = 1024;
  inodes_per_group = 8;
  block_size = 128;
  inode_size = 128;
}

abbrev file : Inode
file = record { mode = 0x8000; size = 5; block = λ i. read_u32 (look_up bytes) (296 + 4 * i) }

abbrev root : Inode
root = record { mode = 0x4000; size = 0; block = λ i. read_u32 (look_up bytes) (424 + 4 * i) }

disk_read : ext2_read_file disk file 1 3 ≡ some (b'e' ∷ b'l' ∷ b'l' ∷ [])
unfolding ext2_read_file
disk_read = refl

disk_name : ext2_readdir disk 2 1 ≡ some (b'b' ∷ [], 2)
unfolding ext2_readdir
disk_name = refl

abbrev in_image : ℕ → Bool
in_image i = let blk : ℕ = block_at disk file i in blk == 0 || ltb (blk * 128) 1024

all_mapped : all_below 44 in_image ≡ true
unfolding block_at all_below read_u32
all_mapped = refl

in_image-IsInside : (blk : ℕ) → (blk == 0 || ltb (blk * 128) 1024) ≡ true → IsInside disk blk
in_image-IsInside blk h = ground arith

file-IsMapped : IsMapped disk file
unfolding read_u32
file-IsMapped = record {
  room = omega arith;
  image = omega arith;
  words = inl refl;
  mapped =
      λ i h. in_image-IsInside (block_at disk file i) (all_below-true 44 in_image i all_mapped h);
  short = omega arith;
}

ext2_read_file-content_example :
    ext2_read_file disk file 1 300 ≡ some (take 300 (drop 1 (content disk file)))
ext2_read_file-content_example = ext2_read_file-content disk file 1 300 file-IsMapped (omega arith)

-- A file of holes but for its part 13, which the second word of block 6 says is block 4.
abbrev far_disk : Ext2
far_disk = record disk { image = λ a. if a == 772 then 4 else look_up bytes a }

abbrev far_file : Inode
far_file = record { mode = 0x8000; size = 1669; block = λ i. if i == 12 then 6 else 0 }

far_read :
    ext2_read_file far_disk far_file 1662 9 ≡ some (0 ∷ 0 ∷ b'h' ∷ b'e' ∷ b'l' ∷ b'l' ∷ b'o' ∷ [])
unfolding ext2_read_file
far_read = refl

file_found : ext2_get_inode disk 1 ≡ some file
unfolding ext2_get_inode
file_found = refl

root_found : ext2_get_inode disk 2 ≡ some root
unfolding ext2_get_inode
root_found = refl

ext2_readdir-entries_example :
    ((d : Dirent) × (get_elem? (entries disk root 12 0) 1 ≡ some d)
      × (ext2_readdir disk 2 1 ≡ some (take 255 d.name, d.inode)))
    ⊎ ((length (entries disk root 12 0) ≤ 1)
        × (ext2_readdir disk 2 1 ≡ (
            if 2 == 2 && 1 == length (entries disk root 12 0) then some (dev_name, 0) else none)))
ext2_readdir-entries_example = ext2_readdir-entries disk 2 1 root root_found refl

abbrev name_b : List ℕ
name_b = b'b' ∷ []

ext2_finddir-entries_example :
    ((◌≡◌ {A = ℕ} 2 2)
      × (name_b ≡ b'd' ∷ b'e' ∷ b'v' ∷ [])
      × (ext2_finddir disk 2 name_b ≡ some devfs_root))
    ⊎ ((¬ ((◌≡◌ {A = ℕ} 2 2) × (name_b ≡ b'd' ∷ b'e' ∷ b'v' ∷ [])))
        × (((index : ℕ) × (d : Dirent) × FirstNamed (entries disk root 12 0) name_b index d
              × (ext2_finddir disk 2 name_b ≡ elim (ext2_get_inode disk d.inode) [
                | none ↦ none
                | some i ↦
                    let flags : ℕ = if bit_and i.mode 0xF000 == 0x4000 then 2 else 1 in
                    some (node_of d.inode i.size flags (take 63 name_b))
              ]))
            ⊎ (NotBefore (entries disk root 12 0) name_b (length (entries disk root 12 0))
                × (ext2_finddir disk 2 name_b ≡ none))))
ext2_finddir-entries_example =
    ext2_finddir-entries disk 2 root name_b root_found refl (λ e. omega arith, tt)

disk_found : ext2_finddir disk 2 (b'b' ∷ []) ≡ some (node_of 2 0 2 (b'b' ∷ []))
unfolding ext2_finddir saynaa_os.Libc.Strings.same saynaa_os.Libc.Strings.strncmp
disk_found = refl

-- A driver whose nodes all read inode 1.
abbrev disk_ops : VfsFileOps ℕ
disk_ops = record {
  read = λ node. some (ext2_read disk 1);
  write = λ node. none;
  ioctl = λ node. none;
  readdir = λ node. none;
  finddir = λ node. none;
}

ext2_read-IsFile_example : IsFile disk_ops 9 (content disk file)
ext2_read-IsFile_example =
    ext2_read-IsFile disk_ops 9 disk 1 file (omega arith) refl file_found refl file-IsMapped
      (omega arith)
