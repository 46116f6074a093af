-- ===== src/Init.antt =====
-- kern/init.c: the start of the kernel, `_panic` and `_warn`.
-- What is typed is the argument `input`. `test_backtrace` runs in the memory with the frames of its deepest
-- call, where `ebp` is what `read_ebp` returns; the monitor has its own stack.
pub mod Nested
pub mod Start
pub mod Panic
use jos.Prelude.{ℕ, zero, suc, ◌+◌, ◌-◌, ◌%◌, ◌^◌, List, [], ◌∷◌, ◌==◌, if◌then◌else◌}
use jos.Prelude.Int.{ℤ}
use jos.Prelude.Texts.{codes}
use jos.Memory.{Mem}
use jos.Block.{memset}
use jos.Format.{Result, ok, ◌>>=◌, Args}
use jos.Format.Vprintfmt.{Literals}
use jos.Console.Crt.{cga_set_bg, cga_set_fg, cga_reset}
use jos.Console.Output.{Outb, Machine}
use jos.Console.Cprintf.{vcprintf, cprintf}
use jos.Console.Setup.{Hardware, cons_init}
use jos.Debuginfo.{Tables}
use jos.Monitor.{Stack, Names, Symbols, Session, halted, monitor}
use jos.Monitor.Backtrace.{on_screen, Traced, traced, panicked, mon_backtrace}

abbrev pub entering_format : List ℕ
entering_format = codes "entering test_backtrace %d\n"

abbrev pub leaving_format : List ℕ
leaving_format = codes "leaving test_backtrace %d\n"

module _ (lits : Literals) (t : Tables) (ebp k : ℕ) (m : Mem) where
  -- A line in red on grey
  unfoldable pub announce : List ℕ → ℕ → Machine → Result Machine
  unfolding on_screen cprintf
  announce fmt x s = do
    (cnt, s') ← cprintf lits k m fmt (x ∷ []) (on_screen (λ c. cga_set_fg 4 (cga_set_bg 7 c)) s)
    ok (on_screen cga_reset s')

  leave : ℕ → Traced → Result Traced
  unfolding announce
  leave x (panicked s) = ok (panicked s)
  leave x (traced s) = do s' ← announce leaving_format x s; ok (traced s')

  -- For an `int` that is not negative; the kernel calls it with 5.
  unfoldable pub test_backtrace : ℕ → Machine → Result Traced
  unfolding leave announce mon_backtrace
  test_backtrace zero s = announce entering_format 0 s >>= mon_backtrace lits t k m ebp >>= leave 0
  test_backtrace (suc x) s =
      announce entering_format (suc x) s >>= test_backtrace x >>= leave (suc x)

module _ (lits : Literals) (t : Tables) (names : Names) (symbols : Symbols) (stack : Stack)
    (k : ℕ) where
  -- The first message of a panic; `panicstr` is 0 before. The two instructions of the inline assembly
  -- do not touch memory.
  panic_message : Mem → ℕ → ℕ → List ℕ → Args → Machine → Result Machine
  unfolding cprintf vcprintf
  panic_message m file line fmt args s = do
    (cnt, s) ← cprintf lits k m (codes "kernel panic at %s:%d: ") (file ∷ line ∷ []) s
    (cnt, s) ← vcprintf lits k m fmt args s
    (cnt, s) ← cprintf lits k m (codes "\n") [] s
    ok s

  -- `fmt_addr` is the address of the format; the result has the new `panicstr`. The monitor runs for `n`
  -- rounds.
  unfoldable pub panic :
      ℕ → ℕ → ℕ → ℕ → ℕ → List ℕ → Args → List ℤ → Mem → Machine → Result (ℕ × Session)
  unfolding panic_message monitor
  panic n panicstr file line fmt_addr fmt args input m s =
      if panicstr == 0
      then (do
        s ← panic_message m file line fmt args s
        session ← monitor lits t names symbols stack k n input m s
        ok (fmt_addr, session))
      else (do session ← monitor lits t names symbols stack k n input m s; ok (panicstr, session))

  unfoldable pub warn : ℕ → ℕ → List ℕ → Args → Mem → Machine → Result Machine
  unfolding cprintf vcprintf
  warn file line fmt args m s = do
    (cnt, s) ← cprintf lits k m (codes "kernel warning at %s:%d: ") (file ∷ line ∷ []) s
    (cnt, s) ← vcprintf lits k m fmt args s
    (cnt, s) ← cprintf lits k m (codes "\n") [] s
    ok s

  enter_monitor : ℕ → List ℤ → Mem → Traced → Result Session
  unfolding monitor
  enter_monitor n input m (panicked s) = ok (halted s)
  enter_monitor n input m (traced s) = monitor lits t names symbols stack k n input m s

  -- The BSS section is cleared first. `monitor` does not return, so its loop is one call.
  -- At the deepest call of `test_backtrace` `%ebp` is `ebp`, and `deep` makes of the memory the one with the
  -- frames of the calls in it; `stack` is the stack at a command of the monitor.
  unfoldable pub i386_init :
      ℕ → (Mem → Mem) → ℕ → Hardware → List Outb → List ℤ → Mem → Result Session
  unfolding memset cons_init cprintf test_backtrace enter_monitor
  i386_init ebp deep n hw written input m0 =
      let m = (memset m0 symbols.edata 0 ((symbols.end + (2 ^ 32 - symbols.edata)) % 2 ^ 32)).1 in
      do
        (exists, s) ← cons_init lits k m hw written
        (cnt, s) ← cprintf lits k m (codes "6828 decimal is %o octal!\n") (6828 ∷ []) s
        r ← test_backtrace lits t ebp k (deep m) 5 s
        enter_monitor n input m r
