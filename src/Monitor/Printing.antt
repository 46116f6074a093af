-- ===== src/Monitor/Printing.antt =====
-- Sequences of calls of `cprintf` in the commands of the monitor.
use jos.Prelude.{ℕ, ◌≤◌, ◌≡◌, ap, ◌∙◌, List, ◌++◌}
use jos.Memory.{Mem}
use jos.Format.{Result, ok, ◌>>=◌}
use jos.Format.Vprintfmt.{Literals}
use jos.Format.Vprintfmt.Pieces.{Puts}
use jos.Console.Output.{Machine}
use jos.Console.Output.Sent.{Apart, put_line}
use jos.Console.Cprintf.Printed.{Prints, Prints-append, Prints-Apart, cprintf-Prints}
use jos.Debuginfo.{Tables}
use jos.Monitor.{Stack, Names, Symbols, print}

module _ (lits : Literals) (t : Tables) (names : Names) (symbols : Symbols) (stack : Stack) (k : ℕ)
    (m : Mem) where
  -- The call leaves the devices with the text printed.
  abbrev pub Shows : List ℕ → Machine → Result Machine → Type 0
  Shows text s r = (s' : Machine) × (r ≡ ok s') × Prints text s s'

  pub print-Shows :
      (n : ℕ) (fmt args text : List ℕ) (s : Machine)
      → Puts lits m n fmt args text
      → n ≤ k
      → Apart s
      → Shows text s (print lits t names symbols stack k m fmt args s)
  unfolding print
  print-Shows n fmt args text s h fuel apart =
      let (run, prints) = cprintf-Prints lits k m fmt args s text (h.puts k fuel) h.bytes apart in
      (put_line text s, ap (λ r. r >>= λ (cnt, s'). ok s') run, prints)

  pub print-then :
      (n : ℕ) (fmt args text rest : List ℕ) (s : Machine) (next : Machine → Result Machine)
      → Puts lits m n fmt args text
      → n ≤ k
      → Apart s
      → ((s1 : Machine) → Apart s1 → Shows rest s1 (next s1))
      → Shows (text ++ rest) s (print lits t names symbols stack k m fmt args s >>= next)
  print-then n fmt args text rest s next h fuel apart after =
      let (s1, run, prints) = print-Shows n fmt args text s h fuel apart in
      let (s', run', prints') = after s1 (Prints-Apart text s s1 prints apart) in
      (s', ap (λ r. r >>= next) run ∙ run', Prints-append text rest s s1 s' prints prints')
