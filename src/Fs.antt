-- ===== src/Fs.antt =====
-- The file system layer: path lookup (kernel/src/fs/vfs.c) and the device registry
-- (kernel/src/fs/device.c), and the ext2 driver (kernel/src/fs/ext2.c).
pub mod Vfs
pub mod Device
pub mod Ext2
mod Tests
