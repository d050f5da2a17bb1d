-- ===== src/Libc/Printf.antt =====
-- Formatted output (libraries/libc/src/stdio/vcbprintf.c). The function that takes the characters is
-- an argument; what it has when a call of it ends the output is not kept. The arguments of a call are the words on the
-- stack, lowest address first. What is read through pointers to strings, and what the processor makes
-- of floating point numbers, are arguments.
pub mod Output
pub mod Digits
pub mod Parse
pub mod Integers
pub mod Convert
pub mod Loop
pub mod Values
pub mod Widths
pub mod Suffix
pub mod Counting
pub mod Conversions
pub mod Laws
mod Tests
