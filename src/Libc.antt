-- ===== src/Libc.antt =====
-- Functions of the C library (libraries/libc/src) that the kernel or the shell depend on.
pub mod Strings
pub mod Fields
pub mod Args
pub mod Pathutil
pub mod Div64
pub mod Printf
mod Tests
