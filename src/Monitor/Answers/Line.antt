-- ===== src/Monitor/Answers/Line.antt =====
-- `runcmd` answers a line.
use jos.Prelude.{
  ℕ, ◌+◌, ◌^◌, ◌≤◌, ◌<◌, ◌≡◌, ◌≢◌, ◌⊎◌, refl, ◌∙◌, some, List, [], ◌∷◌, length, get_or, lt→ltb,
  le→ltb, arith,
}
use jos.Prelude.Int.{pos}
use jos.Prelude.Texts.{codes}
use jos.Memory.{Mem, CString, SameOutside}
use jos.Memory.Frame.{CString-frame}
use jos.Format.{ok}
use jos.Format.Vprintfmt.{Literals}
use jos.Format.Vprintfmt.Escapes.{IsAscii}
use jos.Format.Vprintfmt.Pieces.{IsLiteral}
use jos.Console.Output.{Machine}
use jos.Console.Output.Sent.{Apart, Sends-nothing}
use jos.Console.Cprintf.Printed.{Prints}
use jos.Debuginfo.{Tables}
use jos.Monitor.Tokens.{maxargs}
use jos.Monitor.Tokens.Words.{words}
use jos.Monitor.Tokens.Argv.{Strings, Stored, entered, surplus}
use jos.Monitor.Tokens.Places.{AllFrom}
use jos.Monitor.Dispatch.{chosen, HasNames, AreClear, respond, runcmd_lem}
use jos.Monitor.Help.{Documented}
use jos.Monitor.Kerninfo.Lines.{Linked}
use jos.Monitor.Answers.{
  AreShort, words_from-AreShort, Reply, silence, too_long, many_line, Says, many-Says, found-Says,
}
use jos.Monitor.{Stack, Names, Symbols, backtrace, ran, runcmd}

-- The descriptions do not meet the line.
pub record AreAway (names : Names) (buf n : ℕ) : Type 0 where
  pub help_away : (names.help_desc + 29 < buf) ⊎ (buf + n < names.help_desc)
  pub kerninfo_away : (names.kerninfo_desc + 36 < buf) ⊎ (buf + n < names.kerninfo_desc)
  pub backtrace_away : (names.backtrace_desc < buf) ⊎ (buf + n < names.backtrace_desc)

module _ (k : ℕ) (m m' : Mem) (buf n : ℕ) (frame : SameOutside m' m buf n) where
  IsLiteral-frame :
      (p l : ℕ) (s : List ℕ)
      → length s ≤ l
      → (p + l < buf) ⊎ (buf + n < p)
      → IsLiteral k m p s
      → IsLiteral k m' p s
  IsLiteral-frame p l s le away h = record {
    nonnull = h.nonnull;
    spelled = CString-frame m m' p s (λ a lo hi. frame a (omega arith)) h.spelled;
    ascii = h.ascii;
    short = h.short;
    sized = h.sized;
  }

  pub Documented-frame :
      (names : Names)
      → AreClear names buf n
      → AreAway names buf n
      → Documented k m names
      → Documented k m' names
  Documented-frame names clear away d = record {
    help_named =
        IsLiteral-frame names.help_name 9 (codes "help") (omega arith) clear.help_clear
          d.help_named;
    help_said =
        IsLiteral-frame names.help_desc 29 (codes "Display this list of commands") (omega arith)
          away.help_away d.help_said;
    kerninfo_named =
        IsLiteral-frame names.kerninfo_name 9 (codes "kerninfo") (omega arith) clear.kerninfo_clear
          d.kerninfo_named;
    kerninfo_said =
        IsLiteral-frame names.kerninfo_desc 36 (codes "Display information about the kernel")
          (omega arith) away.kerninfo_away d.kerninfo_said;
    backtrace_named =
        IsLiteral-frame names.backtrace_name 9 (codes "backtrace") (omega arith)
          clear.backtrace_clear d.backtrace_named;
    backtrace_said =
        IsLiteral-frame names.backtrace_desc 0 [] (omega arith)
          (let h = away.backtrace_away in omega arith) d.backtrace_said;
  }

-- The first word does not ask for a backtrace.
abbrev pub NoBacktrace : List (List ℕ) → Type 0
NoBacktrace [] = Unit {0}
NoBacktrace (w ∷ ws) = chosen w ≢ some backtrace

module _ (lits : Literals) (t : Tables) (names : Names) (symbols : Symbols) (stack : Stack) (k : ℕ)
    (fuel : 64 ≤ k) (linked : Linked symbols) where
  -- What `respond` says for words that stand in memory.
  respond-Reply :
      (m : Mem) (buf n : ℕ) (argv : List ℕ) (ws : List (List ℕ)) (s : Machine)
      → Documented k m names
      → AreShort n ws
      → n + 20 ≤ k
      → n < 2 ^ 32
      → buf ≢ 0
      → NoBacktrace ws
      → Stored ws (Strings m argv ws × AllFrom buf argv)
      → Apart s
      → (text : List ℕ) × Reply symbols ws text
        × Says lits t names symbols stack k fuel m text s
            (respond lits t names symbols stack k m (get_or argv 0 0) ws s)
  respond-Reply m buf n argv [] s documented short room small ne other held apart =
      ([], silence, (s, refl, record { sent = Sends-nothing s; screen = λ v. v }))
  respond-Reply m buf n argv (w ∷ ws) s documented ((ascii, le), short) room small ne other
        (surplus ge) apart =
      let (s', run, prints) = many-Says lits t names symbols stack k fuel m s apart in
      (many_line, too_long ge, rw (le→ltb (length (w ∷ ws)) maxargs ge) (s', run, prints))
  respond-Reply m buf n argv (w ∷ ws) s documented ((ascii, le), short) room small ne other
        (entered lt held) apart =
      let (p_ne, spelled) = first argv held in
      let (text, is, says) =
        found-Says lits t names symbols stack k fuel m (get_or argv 0 0) w ws s (chosen w) refl
          other lt
          (record {
            nonnull = p_ne;
            spelled = spelled;
            ascii = ascii;
            short = omega arith;
            sized = omega arith;
          })
          documented linked apart in
      (text, is, rw (lt→ltb (length (w ∷ ws)) maxargs lt) says)
    where
      first :
          (argv : List ℕ)
          → Strings m argv (w ∷ ws) × AllFrom buf argv
          → (get_or argv 0 0 ≢ 0) × CString m (get_or argv 0 0) w
      first [] (h, from) = absurd h
      first (p ∷ argv) ((h, h'), (le', from)) = (λ e. omega arith, h)

  -- On an ASCII line that stands away from the literals and does not ask for a backtrace, `runcmd` returns
  -- 0 and prints what the words of the line ask for: nothing, the help, the information on the kernel, the
  -- complaint about an unknown command with the first word in it, or the complaint about more than 15
  -- words. No byte but the line's changes.
  pub runcmd-Reply :
      (m : Mem) (buf : ℕ) (line : List ℕ) (s : Machine)
      → CString m buf line
      → IsAscii line
      → buf ≢ 0
      → length line + 20 ≤ k
      → length line < 2 ^ 32
      → HasNames m names
      → Documented k m names
      → AreClear names buf (length line)
      → AreAway names buf (length line)
      → NoBacktrace (words line)
      → Apart s
      → (m' : Mem) × (text : List ℕ) × (s' : Machine) × Reply symbols (words line) text
        × (runcmd lits t names symbols stack k m buf s ≡ ok (ran (pos 0) m' s'))
        × Prints text s s'
        × SameOutside m' m buf (length line)
  runcmd-Reply m buf line s h ascii ne room small names_in documented clear away other apart =
      let (m', argv, run, held, frame) =
        runcmd_lem lits t names symbols stack k (omega arith) m buf line s h names_in clear
          (omega arith) in
      let documented' =
        Documented-frame k m m' buf (length line) frame names clear away documented in
      let (text, is, (s', run', prints)) =
        respond-Reply m' buf (length line) argv (words line) s documented'
          (words_from-AreShort (length line) [] line tt ascii (omega arith)) room small ne other
          held apart in
      (m', text, s', is, run ∙ run', prints, frame)
