-- ===== src/Monitor/Run.antt =====
-- What `runcmd` does with a line, and that the monitor never returns.
use jos.Prelude.{ℕ, zero, suc, ◌≡◌, ◌≢◌, refl, Option, none, some, List, [], ◌∷◌}
use mathlib.Core.Path.{subst}
use jos.Prelude.Int.{ℤ, pos}
use jos.Memory.{Mem}
use jos.Format.{Result, ok, err, ◌>>=◌}
use jos.Format.Vprintfmt.{Literals}
use jos.Console.Output.{Machine}
use jos.Debuginfo.{Tables}
use jos.Readline.{Answer, waits, null, line, buflen, readline}
use jos.Monitor.Tokens.{Split, arguments, too_many, maxargs, split}
use jos.Monitor.Backtrace.{Traced, traced, panicked, fueled, mon_backtrace}
use jos.Monitor.{
  Stack, Func, help, kerninfo, backtrace, Names, commands, Symbols, Ran, ran, stopped, Session,
  waiting, halted, left, too_many_format, print, list_commands, mon_help, mon_kerninfo, after_trace,
  invoke, lookup, complain, list_symbols, run_found, run_split, runcmd, after_run, after_read,
  command_loop, monitor, banner, placed, contents, unknown_format,
}

-- The result is no `int` but 0.
abbrev ReturnsZero : Result Ran → Type 0
ReturnsZero (err e) = Unit {0}
ReturnsZero (ok (stopped s)) = Unit {0}
ReturnsZero (ok (ran r m s)) = r ≡ pos 0

ReturnsZero-bind :
    {A : Type 0} (r : Result A) (f : A → Result Ran)
    → ((a : A) → ReturnsZero (f a))
    → ReturnsZero (r >>= f)
ReturnsZero-bind (err e) f h = tt
ReturnsZero-bind (ok a) f h = h a

abbrev Stays : Result Session → Type 0
Stays (err e) = Unit {0}
Stays (ok waiting) = Unit {0}
Stays (ok (halted s)) = Unit {0}
Stays (ok (left s)) = ⊥

Stays-bind :
    {A : Type 0} (r : Result A) (f : A → Result Session) → ((a : A) → Stays (f a)) → Stays (r >>= f)
Stays-bind (err e) f h = tt
Stays-bind (ok a) f h = h a

module _ (lits : Literals) (t : Tables) (names : Names) (symbols : Symbols) (stack : Stack)
    (k : ℕ) where
  abbrev end : Mem → Machine → Result Ran
  end m s = ok (ran (pos 0) m s)

  complain-ReturnsZero :
      (m : Mem) (fmt args : List ℕ) (s : Machine)
      → ReturnsZero (complain lits t names symbols stack k m fmt args s)
  unfolding complain
  complain-ReturnsZero m fmt args s =
      ReturnsZero-bind (print lits t names symbols stack k m fmt args s) (end m) (λ s'. refl)

  after_trace-ReturnsZero :
      (m : Mem) (r : Traced) → ReturnsZero (after_trace lits t names symbols stack k m r)
  unfolding after_trace
  after_trace-ReturnsZero m (traced s) = refl
  after_trace-ReturnsZero m (panicked s) = tt

  invoke-ReturnsZero :
      (f : Func) (m : Mem) (s : Machine) → ReturnsZero (invoke lits t names symbols stack k f m s)
  unfolding invoke mon_help mon_kerninfo
  invoke-ReturnsZero help m s =
      ReturnsZero-bind (list_commands lits t names symbols stack k m (commands names) s) (end m)
        (λ s'. refl)
  invoke-ReturnsZero kerninfo m s =
      ReturnsZero-bind (list_symbols lits t names symbols stack k m s) (end m) (λ s'. refl)
  invoke-ReturnsZero backtrace m s =
      ReturnsZero-bind (mon_backtrace lits t k (stack.frames s m) stack.ebp s)
        (after_trace lits t names symbols stack k m) (after_trace-ReturnsZero m)

  run_found-ReturnsZero :
      (m : Mem) (word : ℕ) (s : Machine) (f : Option Func)
      → ReturnsZero (run_found lits t names symbols stack k m word s f)
  unfolding run_found
  run_found-ReturnsZero m word s none = complain-ReturnsZero m unknown_format (word ∷ []) s
  run_found-ReturnsZero m word s (some f) = invoke-ReturnsZero f m s

  run_split-ReturnsZero :
      (s : Machine) (r : Split) → ReturnsZero (run_split lits t names symbols stack k s r)
  unfolding run_split
  run_split-ReturnsZero s (too_many m) = complain-ReturnsZero m too_many_format (maxargs ∷ []) s
  run_split-ReturnsZero s (arguments [] m) = refl
  run_split-ReturnsZero s (arguments (word ∷ argv) m) =
      ReturnsZero-bind (lookup lits t names symbols stack k m word (commands names))
        (run_found lits t names symbols stack k m word s) (run_found-ReturnsZero m word s)

  runcmd-ReturnsZero :
      (m : Mem) (buf : ℕ) (s : Machine) → ReturnsZero (runcmd lits t names symbols stack k m buf s)
  unfolding runcmd
  runcmd-ReturnsZero m buf s =
      ReturnsZero-bind (fueled (split k names.whitespace k m buf []))
        (run_split lits t names symbols stack k s) (run_split-ReturnsZero s)

  Stays-after_run :
      (next : List ℤ → Mem → Machine → Result Session) (input : List ℤ) (r : Result Ran)
      → ((input : List ℤ) (m : Mem) (s : Machine) → Stays (next input m s))
      → ReturnsZero r
      → Stays (r >>= after_run lits t names symbols stack k next input)
  unfolding after_run
  Stays-after_run next input (err e) h returns = tt
  Stays-after_run next input (ok (stopped s)) h returns = tt
  Stays-after_run next input (ok (ran r m s)) h returns = rw returns (h input m s)

  Stays-after_read :
      (next : List ℤ → Mem → Machine → Result Session) (m : Mem) (a : Answer)
      → ((input : List ℤ) (m : Mem) (s : Machine) → Stays (next input m s))
      → Stays (after_read lits t names symbols stack k next m a)
  unfolding after_read
  Stays-after_read next m waits h = tt
  Stays-after_read next m (null e input) h = h input _ e.out
  Stays-after_read next m (line e input) h =
      Stays-after_run next input
        (runcmd lits t names symbols stack k (placed m names.line_buf e.buf) names.line_buf e.out) h
        (runcmd-ReturnsZero (placed m names.line_buf e.buf) names.line_buf e.out)

  Stays-command_loop :
      (n : ℕ) (input : List ℤ) (m : Mem) (s : Machine)
      → Stays (command_loop lits t names symbols stack k n input m s)
  unfolding command_loop
  Stays-command_loop zero input m s = tt
  Stays-command_loop (suc n) input m s =
      let next = command_loop lits t names symbols stack k n in
      Stays-bind (readline lits k m names.prompt input (contents m names.line_buf buflen) s)
        (after_read lits t names symbols stack k next m)
        (λ a. Stays-after_read next m a (Stays-command_loop n))

  -- However long it runs and whatever is typed, `monitor` does not return: no command returns a
  -- negative `int`.
  pub monitor_stays :
      (n : ℕ) (input : List ℤ) (m : Mem) (s s' : Machine)
      → monitor lits t names symbols stack k n input m s ≢ ok (left s')
  unfolding monitor
  monitor_stays n input m s s' e = subst Stays e (
      Stays-bind (banner lits t names symbols stack k m s)
        (command_loop lits t names symbols stack k n input m) (Stays-command_loop n input m))
