-- ===== src/Sys.antt =====
-- Processes, their scheduling and the system calls (kernel/src/sys).
pub mod Process
pub mod Sched
pub mod Kernel
pub mod Capture
pub mod Files
pub mod Paths
pub mod Proc
mod Tests
