-- ===== src/Lib.antt =====
-- A model of Saynaa OS, a small x86 kernel with its C library, and the properties of its parts.
--
-- Parts, and how they interact. An interrupt of the keyboard or the mouse ends in queues that the
-- device files read; terminals drain the keyboard's queue. A pseudo terminal joins two ends by
-- two byte queues with a line discipline between them, and registers a device for each end. The
-- device registry gives each device a node of the virtual file system, whose walk looks paths up.
-- The physical memory manager hands out 4 KiB blocks; the kernel's heap cuts its area into a
-- chain of blocks in use and free ones, objects of shared memory hold pages, and page tables lie in
-- pages themselves. The window manager's device keeps a queue of messages for each process. A
-- process has a table of open files, a working directory and perhaps a buffer that captures its
-- output; its system calls resolve paths with the C library's helpers, look them up in the virtual file
-- system, of which ext2 is a driver, and read and write through its nodes. The scheduler elects a
-- process from a circular list.
--
-- Files:
--   Prelude    shared names, Boolean tests, arrays as functions, binary digits, integers
--   Ring       circular buffers with one free slot, over their capacity and element type
--   Input      kernel/src/drivers/keyboard.c and mouse.c, kernel/src/fs/dev/dev_kbd.c, dev_mouse.c
--              and dev_tty.c, libraries/libc/src/ctype
--   Pty        kernel/src/fs/dev/dev_pty.c, libraries/libc/include/termios.h; Pty.Discipline is the
--              abstract line discipline, Pty.Endpoint the devices' operations, Pty.Table creation
--              and /dev/pts
--   Pmm        kernel/src/mem/pmm.c, libraries/libc/src/math.c
--   Paging     kernel/src/mem/paging.c; Paging.Space is what the processor makes of the tables
--   Kheap      kernel/src/mem/malloc.c; Kheap.Chain is the order of the blocks
--   Shm        kernel/src/mem/shm.c, over the pages of Pmm
--   Fs         kernel/src/fs/vfs.c, device.c and ext2.c; Fs.Ext2.Blocks has the block map of a file and
--              Fs.Ext2.Dirs the list of a directory's entries
--   Wm         kernel/src/fs/dev/dev_wm.c; Wm.Queue has the queue as a list of messages
--   Sys        kernel/src/sys: Sys.Sched is sched_robin.c, Sys.Proc proc.c, and the others the calls
--              of syscall.c on files (Sys.Files), paths (Sys.Paths) and captured output (Sys.Capture),
--              over the state of Sys.Kernel; Sys.Files.Reads has the interface of a regular file's
--              driver, which Sys.Files.Disk fills with ext2
--   Libc       libraries/libc/src/string, args.c, pathutil.c, stdlib/div64.c and stdio/vcbprintf.c, whose
--              parts are Libc.Printf.Output to Libc.Printf.Loop; Libc.Pathutil.Components says what
--              each component of a path means
-- Each has its runs on small inputs in a module Tests.
--
-- State is passed explicitly: the static variables of a file are a record, an operation a
-- function to its result and the new record. A definition carries the name of the C function;
-- those without a counterpart of their name are pieces of one, as their comments say. Numbers of
-- `uint32_t` wrap round where the code lets them; indices of rings are below their capacity. A
-- null pointer is `none`, or a Boolean argument where only its presence matters; an array is a
-- function.
--
-- Loops over a range recurse on the rounds left. `vfs_walk` runs on one more round than the path
-- has characters, `normalize_path` likewise: each round of either consumes a character. A read of
-- an ext2 file has one round more than bytes to copy, and a directory block one for each of its
-- bytes. A queue of the window manager drops a byte at least in each round, and has 8191 at most.
-- A round of `vcbprintf` consumes a character of the format at least. An election looks at each
-- node of the list once. Interrupts are disabled round each modelled operation, which therefore
-- is one step.
--
-- Addresses of processes, nodes and capture buffers are numbers, and 0 is the null pointer. What
-- a driver does to its own state when it is called through a node is the driver's model.
--
-- Not modelled: ports, descriptor tables, context switches, the processor's cache of translations,
-- program loading, mapping shared memory, the device file system's directory, the window system,
-- formatted input, the user's heap, user programs. What `kmalloc`, the ports, the
-- screen's size and the boot information supply are arguments.
pub mod Prelude
pub mod Ring
pub mod Input
pub mod Pty
pub mod Pmm
pub mod Kheap
pub mod Shm
pub mod Libc
pub mod Fs
pub mod Wm
pub mod Paging
pub mod Sys
