-- ===== src/Monitor/Help.antt =====
-- What `mon_help` prints.
use jos.Prelude.{ℕ, suc, ◌+◌, ◌-◌, sym, ◌≡◌, refl, ap, List, [], ◌∷◌, ◌++◌, arith}
use mathlib.Core.Path.{subst}
use jos.Prelude.Int.{pos}
use jos.Prelude.Texts.{codes}
use jos.Memory.{Mem}
use jos.Format.{ok, ◌>>=◌}
use jos.Format.Vprintfmt.{Literals}
use jos.Format.Vprintfmt.Pieces.{Puts, Puts-end, Puts-text, Puts-string, Puts-weaken, IsLiteral}
use jos.Console.Output.{Machine}
use jos.Console.Output.Sent.{Apart, Sends-nothing}
use jos.Console.Cprintf.Printed.{Prints}
use jos.Debuginfo.{Tables}
use jos.Monitor.{Stack, Names, Symbols, Command, commands, ran, list_commands, mon_help}
use jos.Monitor.Printing.{Shows, print-then}
use jos.Monitor.Backtrace.Frames.{concat}

-- A name and what is said of it
abbrev pub help_line : List ℕ → List ℕ → List ℕ
help_line name desc = name ++ (codes " - " ++ (desc ++ codes "\n"))

module _ (k : ℕ) (m : Mem) where
  -- The lines for the entries of a table of commands
  abbrev pub Describe : List Command → List (List ℕ) → Type 0
  Describe [] [] = Unit {0}
  Describe [] (l ∷ lines) = ⊥
  Describe (c ∷ cs) [] = ⊥
  Describe (c ∷ cs) (l ∷ lines) =
      (name : List ℕ) × (desc : List ℕ) × IsLiteral k m c.name name
      × IsLiteral k m c.desc desc
      × (l ≡ help_line name desc)
      × Describe cs lines

  -- The literals of `commands`
  pub record Documented (names : Names) : Type 0 where
    pub help_named : IsLiteral k m names.help_name (codes "help")
    pub help_said : IsLiteral k m names.help_desc (codes "Display this list of commands")
    pub kerninfo_named : IsLiteral k m names.kerninfo_name (codes "kerninfo")
    pub kerninfo_said :
        IsLiteral k m names.kerninfo_desc (codes "Display information about the kernel")
    pub backtrace_named : IsLiteral k m names.backtrace_name (codes "backtrace")
    pub backtrace_said : IsLiteral k m names.backtrace_desc []

abbrev pub help_lines : List (List ℕ)
help_lines =
    help_line (codes "help") (codes "Display this list of commands")
    ∷ help_line (codes "kerninfo") (codes "Display information about the kernel")
    ∷ help_line (codes "backtrace") []
    ∷ []

module _ (lits : Literals) (t : Tables) (names : Names) (symbols : Symbols) (stack : Stack) (k : ℕ)
    (m : Mem) where
  help_line-Puts :
      (name desc : List ℕ) (c : Command)
      → IsLiteral k m c.name name
      → IsLiteral k m c.desc desc
      → Puts lits m (k - 2) (codes "%s - %s\n") (c.name ∷ c.desc ∷ []) (help_line name desc)
  help_line-Puts name desc c h h' =
      let room = h.short in
      let room' = h'.short in
      let newline =
        Puts-text lits m 1 (codes "\n") [] [] [] (ground arith) (ground arith)
          (Puts-end lits m []) in
      let ends = Puts-weaken lits m 2 (k - 7) (codes "\n") [] (codes "\n") (omega arith) newline in
      let said =
        Puts-string lits m (k - 7) c.desc desc (codes "\n") [] (codes "\n") h'.nonnull h'.spelled
          h'.ascii (omega arith) h'.sized ends in
      let dashed =
        Puts-text lits m (suc (k - 7)) (codes " - ") (codes "%s\n") (c.desc ∷ [])
          (desc ++ codes "\n") (ground arith) (ground arith) said in
      let whole =
        Puts-string lits m (3 + suc (k - 7)) c.name name (codes " - %s\n") (c.desc ∷ [])
          (codes " - " ++ (desc ++ codes "\n")) h.nonnull h.spelled h.ascii (omega arith) h.sized
          dashed in
      Puts-weaken lits m (suc (3 + suc (k - 7))) (k - 2) (codes "%s - %s\n") (c.name ∷ c.desc ∷ [])
        (help_line name desc) (omega arith) whole

  list_commands-Shows :
      (cs : List Command) (lines : List (List ℕ)) (s : Machine)
      → Describe k m cs lines
      → Apart s
      → Shows lits t names symbols stack k m
          (concat lines)
          s
          (list_commands lits t names symbols stack k m cs s)
  unfolding list_commands
  list_commands-Shows [] [] s h apart =
      (s, refl, record { sent = Sends-nothing s; screen = λ v. v })
  list_commands-Shows [] (l ∷ lines) s h apart = absurd h
  list_commands-Shows (c ∷ cs) [] s h apart = absurd h
  list_commands-Shows (c ∷ cs) (l ∷ lines) s (name, desc, h, h', same, rest) apart =
      let line = help_line-Puts name desc c h h' in
      print-then lits t names symbols stack k m (k - 2) (codes "%s - %s\n") (c.name ∷ c.desc ∷ []) l
        (concat lines) s (list_commands lits t names symbols stack k m cs)
        (subst (Puts lits m (k - 2) (codes "%s - %s\n") (c.name ∷ c.desc ∷ [])) (sym same) line)
        (omega arith) apart (λ s' apart'. list_commands-Shows cs lines s' rest apart')

  -- `mon_help` returns 0 and prints a line for each command in the order of the table.
  pub mon_help-Prints :
      (s : Machine)
      → Documented k m names
      → Apart s
      → (s' : Machine) × (mon_help lits t names symbols stack k m s ≡ ok (ran (pos 0) m s'))
        × Prints (concat help_lines) s s'
  unfolding mon_help
  mon_help-Prints s d apart =
      let (s', run, prints) =
        list_commands-Shows (commands names) help_lines s
          (
            codes "help",
            codes "Display this list of commands",
            d.help_named,
            d.help_said,
            refl,
            (
              codes "kerninfo",
              codes "Display information about the kernel",
              d.kerninfo_named,
              d.kerninfo_said,
              refl,
              (codes "backtrace", [], d.backtrace_named, d.backtrace_said, refl, tt),
            ),
          )
          apart in
      (s', ap (λ r. r >>= λ s'. ok (ran (pos 0) m s')) run, prints)
