-- ===== src/Monitor.antt =====
-- kern/monitor.c: the commands of the kernel monitor, and its loop.
-- The linker's symbols and the addresses of the literals are parameters.
pub mod Tokens
pub mod Backtrace
pub mod Run
pub mod Dispatch
pub mod Round
pub mod Printing
pub mod Kerninfo
pub mod Help
pub mod Answers
use jos.Prelude.{
  ℕ, zero, suc, ◌+◌, ◌-◌, ◌/◌, ◌%◌, ◌^◌, Option, none, some, List, [], ◌∷◌, ltb, if◌then◌else◌,
  get_or, length,
}
use jos.Prelude.Int.{ℤ, pos, ltb_ℤ, eqb_ℤ}
use jos.Prelude.Texts.{codes}
use jos.Memory.{Mem, within}
use jos.Strings.{strcmp}
use jos.Format.{Result, ok, err, out_of_fuel, ◌>>=◌}
use jos.Format.Vprintfmt.{Literals}
use jos.Console.Output.{Machine}
use jos.Console.Cprintf.{cprintf}
use jos.Debuginfo.{Tables}
use jos.Pages.{kernbase, roundup}
use jos.Readline.{Answer, waits, null, line, buflen, readline}
use jos.Monitor.Tokens.{Split, arguments, too_many, maxargs, split}
use jos.Monitor.Backtrace.{Traced, traced, panicked, fueled, mon_backtrace}

-- The routine of a command
pub data Func : Type 0 where
  help : Func
  kerninfo : Func
  backtrace : Func

-- `struct Command`
pub record Command : Type 0 where
  pub name : ℕ
  pub desc : ℕ
  pub func : Func

-- The addresses of the literals
pub record Names : Type 0 where
  pub help_name : ℕ
  pub help_desc : ℕ
  pub kerninfo_name : ℕ
  pub kerninfo_desc : ℕ
  pub backtrace_name : ℕ
  pub backtrace_desc : ℕ
  pub whitespace : ℕ
  pub prompt : ℕ
  -- the static buffer of lib/readline.c
  pub line_buf : ℕ

abbrev pub commands : Names → List Command
commands n =
    record { name = n.help_name; desc = n.help_desc; func = help }
    ∷ record { name = n.kerninfo_name; desc = n.kerninfo_desc; func = kerninfo }
    ∷ record { name = n.backtrace_name; desc = n.backtrace_desc; func = backtrace }
    ∷ []

-- The symbols that the linker defines
pub record Symbols : Type 0 where
  pub start_label : ℕ
  pub entry : ℕ
  pub etext : ℕ
  pub edata : ℕ
  pub end : ℕ

-- The stack at the call of a command, which the compiler lays out: `%ebp`, and what the memory is with the
-- frames of the calls in it, whose words may depend on what was typed and shown before, which the devices
-- have in their log.
pub record Stack : Type 0 where
  pub ebp : ℕ
  pub frames : Machine → Mem → Mem

-- A command line has run, with the `int` that `runcmd` returns, or the kernel has panicked.
pub data Ran : Type 0 where
  ran : ℤ → Mem → Machine → Ran
  stopped : Machine → Ran

abbrev pub too_many_format : List ℕ
too_many_format = codes "Too many arguments (max %d)\n"

abbrev pub unknown_format : List ℕ
unknown_format = codes "Unknown command '%s'\n"

-- `p - KERNBASE`
abbrev pub phys : ℕ → ℕ
phys p = (p + (2 ^ 32 - kernbase)) % 2 ^ 32

-- `ROUNDUP(end - entry, 1024) / 1024`, a quotient of an `int`, which is rounded towards 0
pub footprint : ℕ → ℕ → ℕ
unfolding roundup
footprint entry end =
    let size = roundup ((end + (2 ^ 32 - entry)) % 2 ^ 32) 1024 in
    if ltb size (2 ^ 31) then size / 1024 else (2 ^ 32 - (2 ^ 32 - size) / 1024) % 2 ^ 32

-- The bytes of a buffer in memory, and the memory with other bytes in it
abbrev pub contents : Mem → ℕ → ℕ → List ℕ
contents m p zero = []
contents m p (suc n) = m p ∷ contents m (p + 1) n

abbrev pub placed : Mem → ℕ → List ℕ → Mem
placed m p bytes a = if within p (length bytes) a then get_or bytes (a - p) 0 else m a

-- The monitor waits for input, has panicked, or has returned.
pub data Session : Type 0 where
  waiting : Session
  halted : Machine → Session
  left : Machine → Session

module _ (lits : Literals) (t : Tables) (names : Names) (symbols : Symbols) (stack : Stack)
    (k : ℕ) where
  -- `cprintf` as a statement
  pub print : Mem → List ℕ → List ℕ → Machine → Result Machine
  unfolding cprintf
  print m fmt args s = do (cnt, s') ← cprintf lits k m fmt args s; ok s'

  list_commands : Mem → List Command → Machine → Result Machine
  unfolding print
  list_commands m [] s = ok s
  list_commands m (c ∷ cs) s =
      print m (codes "%s - %s\n") (c.name ∷ c.desc ∷ []) s >>= list_commands m cs

  unfoldable pub mon_help : Mem → Machine → Result Ran
  unfolding list_commands
  mon_help m s = do s' ← list_commands m (commands names) s; ok (ran (pos 0) m s')

  list_symbols : Mem → Machine → Result Machine
  unfolding print footprint
  list_symbols m s = do
    s ← print m (codes "Special kernel symbols:\n") [] s
    s ← print m (codes "  _start                  %08x (phys)\n") (symbols.start_label ∷ []) s
    s ←
        print m (codes "  entry  %08x (virt)  %08x (phys)\n")
          (symbols.entry ∷ phys symbols.entry ∷ []) s
    s ←
        print m (codes "  etext  %08x (virt)  %08x (phys)\n")
          (symbols.etext ∷ phys symbols.etext ∷ []) s
    s ←
        print m (codes "  edata  %08x (virt)  %08x (phys)\n")
          (symbols.edata ∷ phys symbols.edata ∷ []) s
    s ←
        print m (codes "  end    %08x (virt)  %08x (phys)\n") (symbols.end ∷ phys symbols.end ∷ [])
          s
    print m (codes "Kernel executable memory footprint: %dKB\n")
        (footprint symbols.entry symbols.end ∷ []) s

  unfoldable pub mon_kerninfo : Mem → Machine → Result Ran
  unfolding list_symbols
  mon_kerninfo m s = do s' ← list_symbols m s; ok (ran (pos 0) m s')

  after_trace : Mem → Traced → Result Ran
  after_trace m (traced s) = ok (ran (pos 0) m s)
  after_trace m (panicked s) = ok (stopped s)

  -- `commands[i].func(argc, argv, tf)`; no command looks at its arguments.
  unfoldable pub invoke : Func → Mem → Machine → Result Ran
  unfolding mon_help mon_kerninfo mon_backtrace after_trace
  invoke help m s = mon_help m s
  invoke kerninfo m s = mon_kerninfo m s
  invoke backtrace m s = mon_backtrace lits t k (stack.frames s m) stack.ebp s >>= after_trace m

  -- The loop over `commands`
  unfoldable pub lookup : Mem → ℕ → List Command → Result (Option Func)
  unfolding strcmp
  lookup m word [] = ok none
  lookup m word (c ∷ cs) =
      let rest = lookup m word cs in
      fueled (strcmp k m word c.name) >>= λ order.
      if eqb_ℤ order (pos 0) then ok (some c.func) else rest

  -- A message, and `return 0`
  unfoldable pub complain : Mem → List ℕ → List ℕ → Machine → Result Ran
  unfolding print
  complain m fmt args s = do s' ← print m fmt args s; ok (ran (pos 0) m s')

  unfoldable pub run_found : Mem → ℕ → Machine → Option Func → Result Ran
  unfolding invoke complain
  run_found m word s none = complain m unknown_format (word ∷ []) s
  run_found m word s (some f) = invoke f m s

  -- `runcmd` behind the parsing
  run_split : Machine → Split → Result Ran
  unfolding lookup run_found complain
  run_split s (too_many m) = complain m too_many_format (maxargs ∷ []) s
  run_split s (arguments [] m) = ok (ran (pos 0) m s)
  run_split s (arguments (word ∷ argv) m) = lookup m word (commands names) >>= run_found m word s

  unfoldable pub runcmd : Mem → ℕ → Machine → Result Ran
  unfolding run_split split
  runcmd m buf s = fueled (split k names.whitespace k m buf []) >>= run_split s

  unfoldable pub after_run :
      (List ℤ → Mem → Machine → Result Session) → List ℤ → Ran → Result Session
  after_run next input (ran r m s) = if ltb_ℤ r (pos 0) then ok (left s) else next input m s
  after_run next input (stopped s) = ok (halted s)

  after_read : (List ℤ → Mem → Machine → Result Session) → Mem → Answer → Result Session
  unfolding runcmd after_run
  after_read next m waits = ok waiting
  after_read next m (null e input) = next input (placed m names.line_buf e.buf) e.out
  after_read next m (line e input) =
      runcmd (placed m names.line_buf e.buf) names.line_buf e.out >>= after_run next input

  -- `while (1)`, on fuel
  unfoldable pub command_loop : ℕ → List ℤ → Mem → Machine → Result Session
  unfolding after_read readline
  command_loop zero input m s = err out_of_fuel
  command_loop (suc n) input m s =
      readline lits k m names.prompt input (contents m names.line_buf buflen) s
      >>= after_read (command_loop n) m

  banner : Mem → Machine → Result Machine
  unfolding print
  banner m s =
      print m (codes "Welcome to the JOS kernel monitor!\n") [] s
      >>= print m (codes "Type 'help' for a list of commands.\n") []

  unfoldable pub monitor : ℕ → List ℤ → Mem → Machine → Result Session
  unfolding command_loop banner
  monitor n input m s = banner m s >>= command_loop n input m
