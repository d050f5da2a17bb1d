-- ===== src/Input.antt =====
-- The input path: the PS/2 keyboard and mouse drivers (kernel/src/drivers), the event devices that
-- they fill and the terminals that drain the keyboard's text queue (kernel/src/fs/dev).
pub mod Events
pub mod Keyboard
pub mod Mouse
pub mod Tty
mod Tests
