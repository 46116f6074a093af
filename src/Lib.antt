-- ===== src/Lib.antt =====
-- A model of JOS at its first lab: the boot loader, the C library that the kernel is linked with,
-- the kernel's console and its monitor.
--
-- The program. boot/main.c reads the kernel image from the disk and jumps to it. The kernel
-- (kern/init.c) sets up the console (kern/console.c), on which kern/printf.c prints with the
-- formats of lib/printfmt.c; both use the string routines of lib/string.c.
--
-- The files.
--   Prelude: Boolean tests, lists indexed by native numbers, integers, laws of `|`, table checks.
--   Memory: the flat byte memory, regions copied and filled, NUL-terminated strings.
--   Strings, Block: lib/string.c. Each function has its C name; a pointer is its address, and a
--     function that writes returns the new memory beside its result. `Block` has the version with
--     the string instructions (`#if ASM`), `Block.Portable` the other one. `Strings.Scan` is `strtol`.
--   Format: lib/printfmt.c. `Format` scans an escape (`reswitch`), `Format.Numeral` is `printnum`,
--     `Format.Text` the `%s` conversion, `Format.Vprintfmt` the other conversions and the loop, with the
--     rules for the pieces of a format in `Format.Vprintfmt.Pieces`, and
--     `Format.Buffer` is `sprintputch`, `vsnprintf` and `snprintf`. What `putch` is called with is
--     the list of characters that a call returns.
--   Console: kern/console.c. `Ring` is the input buffer, `Crt` the cells of the screen, `Output` the
--     way of a character to the serial port, the parallel port and the screen, `Keyboard` the tables
--     of scan codes and `kbd_proc_data`, with inc/kbdreg.h, `Cprintf` is kern/printf.c, and `Setup` has
--     `cons_init` with `cga_init` and `serial_init`, over what the hardware answers.
--   Boot: boot/main.c over a disk that is a function. `Boot` has `readseg` and `readsect`,
--     `Boot.Loader` has `bootmain` and the headers of inc/elf.h.
--   Pages: the address parts of inc/mmu.h, the two tables of kern/entrypgdir.c (`Pages.Table` has the
--     page table line by line), the rounding macros of inc/types.h, and the memory map of
--     inc/memlayout.h (`Pages.Layout`).
--   Descriptors: the segment and gate descriptors of inc/mmu.h, with their bytes.
--   Stabs: the stabs of inc/stab.h and `stab_binsearch` of kern/kdebug.c.
--   Debuginfo: `debuginfo_eip` of kern/kdebug.c over `Stabs` and `strfind`.
--   Readline: lib/readline.c over what `getchar` returns, with its prompt in `Readline.Prompt`.
--   Monitor: kern/monitor.c. `Monitor.Tokens` is the parsing in `runcmd`, `Monitor.Backtrace` is
--     `mon_backtrace`, and `Monitor` has the commands, `runcmd` and the loop of `monitor`.
--   Init: kern/init.c, which calls the other parts; `test_backtrace` and the monitor have each a stack.
--   Tests: runs at small inputs, and each theorem at one of them.
--
-- Numbers. `uint32_t` and `uint16_t` arithmetic wraps where the code can get there (`readseg`,
-- `crt_pos`). An `int` that is only counted up is a native number; widths and precisions are
-- integers, and signed overflow, which C leaves undefined, is not modelled but in `strtol`,
-- where it wraps. Pointer arithmetic does not wrap, since C gives a pointer outside of its object no
-- meaning, but in the words of a stack frame.
--
-- Fuel. A loop that only the text ends (`strlen`, `strcpy`, `strcat`, `strcmp`, `strchr`,
-- `strfind`, `strtol`, `%s`) runs on fuel, and its theorem asks for more rounds than the string has
-- bytes. `printnum` runs on 64 rounds, since a 64-bit number has at most 64 digits. `readseg` asks
-- for two rounds more than the segment has sectors, `runcmd` for more rounds than the line has bytes,
-- `mon_backtrace` for more than there are frames, and `stab_binsearch` for more than twice the width of the region. The loop of `vprintfmt` takes a round
-- for a character or an escape, and its strings need as many rounds as they have bytes.
--
-- Hypotheses on what is not in the repository: the disk controller delivers the sector that the
-- command names (`Boot.Disk`), a device's status register is an arbitrary function, what else the
-- hardware answers is `Console.Setup.Hardware`, the frames of a backtrace are in the memory,
-- in the monitor those that `Monitor.Stack` makes of the memory and the devices at the command, and the
-- linker has put the literals somewhere (`Format.Vprintfmt.Literals`) and `entry_pgtable` on a page above
-- KERNBASE, the tables of the stabs (`Debuginfo.Tables`) and the symbols (`Monitor.Symbols`). The
-- buffer of `vsnprintf` does not overlap the strings that the format reads.
--
-- Not modelled: the assembly files and the inline assembly of inc/x86.h, which are for the hardware;
-- `struct Taskstate`, `struct Pseudodesc` and the flags of the control registers in inc/mmu.h and the section
-- headers of inc/elf.h, which no code of this lab uses; user/ and fs/, whose kernel part is not in the
-- repository.
pub mod Block
pub mod Boot
pub mod Console
pub mod Format
pub mod Memory
pub mod Pages
pub mod Prelude
pub mod Strings
pub mod Stabs
pub mod Readline
pub mod Monitor
pub mod Init
pub mod Debuginfo
pub mod Descriptors
mod Tests
