-- ===== src/Console.antt =====
-- kern/console.c and kern/printf.c. `Ring` is the input buffer, `Crt` the text screen, `Output` the
-- way of a character to the three output devices, `Keyboard` the scan codes, and `Cprintf` what
-- kern/printf.c prints.
pub mod Keyboard
pub mod Ring
pub mod Crt
pub mod Output
pub mod Cprintf
pub mod Setup
