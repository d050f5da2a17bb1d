-- ===== src/Sys/Files/Disk.antt =====
-- Files of the ext2 driver as the system calls read them (kernel/src/fs/ext2.c, kernel/src/sys/syscall.c).
use saynaa_os.Prelude.{
  ℕ, ◌<◌, ◌^◌, ◌≡◌, ◌≢◌, ap, ◌∙◌, refl, none, some, List, [], length, false, arith,
}
use saynaa_os.Prelude.Int.{pos, negsuc}
use saynaa_os.Fs.Vfs.{VfsFileOps, vfs_read}
use saynaa_os.Fs.Ext2.{Ext2, Inode, is_dir, ext2_get_inode, ext2_read_file, ext2_read}
use saynaa_os.Fs.Ext2.Blocks.{IsMapped, byte_at}
use saynaa_os.Fs.Ext2.Files.{content, ext2_read_file-content, length-slice}
use saynaa_os.Sys.Files.Reads.{IsFile, part}

ext2_read-eq :
    (fs : Ext2) (number : ℕ) (inode : Inode) (offset size : ℕ) (bytes : List ℕ)
    → ext2_get_inode fs number ≡ some inode
    → is_dir inode ≡ false
    → ext2_read_file fs inode offset size ≡ some bytes
    → ext2_read fs number offset size ≡ (pos (length bytes), bytes)
unfolding ext2_read
ext2_read-eq fs number inode offset size bytes is file e = rw (is, ext2_read, file, e) refl

-- A node that is not null, whose read is that of the ext2 driver for an inode that is found, is not
-- a directory, has a size below 2 ^ 31 that the direct blocks and one block of words reach, and
-- blocks that are holes or begin inside the image, is a regular file of the contents of that inode:
-- what the system calls on files ask of a driver.
pub ext2_read-IsFile :
    (ops : VfsFileOps ℕ) (node : ℕ) (fs : Ext2) (number : ℕ) (inode : Inode)
    → node ≢ 0
    → ops.read node ≡ some (ext2_read fs number)
    → ext2_get_inode fs number ≡ some inode
    → is_dir inode ≡ false
    → IsMapped fs inode
    → inode.size < 2 ^ 31
    → IsFile ops node (content fs inode)
unfolding vfs_read
ext2_read-IsFile ops node fs number inode ne forwards is file v small = record {
  nonnull = ne;
  reads = λ offset size fits.
      ap (λ o. elim o [ none ↦ (negsuc 0, []) | some read ↦ read offset size ]) forwards
      ∙ ext2_read-eq fs number inode offset size (part (content fs inode) offset size) is file
          (ext2_read_file-content fs inode offset size v fits);
  small = omega (arith, length-slice (byte_at fs inode) 0 inode.size);
}
