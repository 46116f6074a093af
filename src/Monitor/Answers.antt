-- ===== src/Monitor/Answers.antt =====
-- What the monitor prints for a line.
pub mod Line
pub mod Typed
use mathlib.Core.Path.{subst}
use jos.Prelude.{
  ℕ, suc, ◌+◌, ◌-◌, ◌≤◌, ◌<◌, ◌≡◌, ◌≢◌, refl, ap, Option, none, some, List, [], ◌∷◌, ◌++◌, length,
  length-append, Bool-cases, inl, inr, arith,
}
use jos.Prelude.Int.{pos}
use jos.Prelude.Texts.{codes}
use jos.Memory.{Mem}
use jos.Format.{Result, ok, ◌>>=◌, fresh}
use jos.Format.Numeral.Digits.{IsNumeral}
use jos.Format.Vprintfmt.{Literals, put_signed}
use jos.Format.Vprintfmt.Laws.{extended}
use jos.Format.Vprintfmt.Escapes.{IsAscii}
use jos.Format.Vprintfmt.Pieces.{
  Puts, Puts-end, Puts-text, Puts-string, Puts-signed, Puts-weaken, IsLiteral,
}
use jos.Console.Output.{Machine}
use jos.Console.Output.Sent.{Apart}
use jos.Console.Cprintf.Printed.{Prints}
use jos.Debuginfo.{Tables}
use jos.Monitor.Tokens.{maxargs}
use jos.Monitor.Tokens.Words.{is_space, flush, words_from}
use jos.Monitor.Backtrace.Frames.{concat}
use jos.Monitor.Dispatch.{chosen}
use jos.Monitor.Help.{Documented, help_lines, mon_help-Prints}
use jos.Monitor.Kerninfo.Lines.{Linked, kilobytes}
use jos.Monitor.Kerninfo.{kerninfo_text, mon_kerninfo-Prints}
use jos.Monitor.Printing.{print-Shows}
use jos.Monitor.{
  Stack, Func, help, kerninfo, backtrace, Names, Symbols, Ran, ran, too_many_format, unknown_format,
  complain, run_found, invoke,
}

-- An ASCII word of at most `n` bytes
abbrev pub IsShort : ℕ → List ℕ → Type 0
IsShort n w = IsAscii w × (length w ≤ n)

abbrev pub AreShort : ℕ → List (List ℕ) → Type 0
AreShort n [] = Unit {0}
AreShort n (w ∷ ws) = IsShort n w × AreShort n ws

pub IsAscii-append : (s t : List ℕ) → IsAscii s → IsAscii t → IsAscii (s ++ t)
IsAscii-append [] t h h' = h'
IsAscii-append (c ∷ s) t (lt, h) h' = (lt, IsAscii-append s t h h')

-- The words of an ASCII line are ASCII texts that are no longer than the line.
pub words_from-AreShort :
    (n : ℕ) (w line : List ℕ)
    → IsAscii w
    → IsAscii line
    → length w + length line ≤ n
    → AreShort n (words_from w line)
unfolding words_from
words_from-AreShort n [] [] h h' le = tt
words_from-AreShort n (c ∷ w) [] h h' le = ((h, omega arith), tt)
words_from-AreShort n w (c ∷ line) h (lt, h') le = elim (Bool-cases (is_space c)) [
  | inl e ↦ rw e (flushed w h (omega arith) (words_from-AreShort n [] line tt h' (omega arith)))
  | inr e ↦ rw e (
      words_from-AreShort n (w ++ c ∷ []) line (IsAscii-append w (c ∷ []) h (lt, tt)) h'
        (omega (arith, length-append w (c ∷ []))))
]
  where
    flushed :
        (w : List ℕ)
        → IsAscii w
        → length w ≤ n
        → AreShort n (words_from [] line)
        → AreShort n (flush w (words_from [] line))
    flushed [] h le ws = ws
    flushed (d ∷ w) h le ws = ((h, le), ws)

abbrev pub unknown_line : List ℕ → List ℕ
unknown_line w = codes "Unknown command '" ++ (w ++ codes "'\n")

abbrev pub many_line : List ℕ
many_line = codes "Too many arguments (max 16)\n"

-- The answer to the words of a line that does not ask for a backtrace
pub data Reply (symbols : Symbols) : List (List ℕ) → List ℕ → Type 0 where
  silence : Reply symbols [] []
  too_long : {ws : List (List ℕ)} → maxargs ≤ length ws → Reply symbols ws many_line
  unknown :
      {w : List ℕ} {ws : List (List ℕ)}
      → length (w ∷ ws) < maxargs
      → chosen w ≡ none
      → Reply symbols (w ∷ ws) (unknown_line w)
  helping :
      {w : List ℕ} {ws : List (List ℕ)}
      → length (w ∷ ws) < maxargs
      → chosen w ≡ some help
      → Reply symbols (w ∷ ws) (concat help_lines)
  informing :
      {w : List ℕ} {ws : List (List ℕ)} {ds : List ℕ}
      → length (w ∷ ws) < maxargs
      → chosen w ≡ some kerninfo
      → IsNumeral 10 (kilobytes symbols) ds
      → Reply symbols (w ∷ ws) (kerninfo_text symbols ds)

max_digits : put_signed (extended 16) fresh ≡ ok (codes "16")
unfolding put_signed
max_digits = refl

module _ (lits : Literals) (t : Tables) (names : Names) (symbols : Symbols) (stack : Stack) (k : ℕ)
    (fuel : 64 ≤ k) where
  -- A call that returns 0 after it has printed the text
  abbrev pub Says : Mem → List ℕ → Machine → Result Ran → Type 0
  Says m text s r = (s' : Machine) × (r ≡ ok (ran (pos 0) m s')) × Prints text s s'

  complain-Says :
      (m : Mem) (n : ℕ) (fmt args text : List ℕ) (s : Machine)
      → Puts lits m n fmt args text
      → n ≤ k
      → Apart s
      → Says m text s (complain lits t names symbols stack k m fmt args s)
  unfolding complain
  complain-Says m n fmt args text s h le apart =
      let (s', run, prints) =
        print-Shows lits t names symbols stack k m n fmt args text s h le apart in
      (s', ap (λ r. r >>= λ s'. ok (ran (pos 0) m s')) run, prints)

  pub many-Says :
      (m : Mem) (s : Machine)
      → Apart s
      → Says m many_line s
          (complain lits t names symbols stack k m too_many_format (maxargs ∷ []) s)
  many-Says m s apart =
      let rest =
        Puts-text lits m 1 (codes ")\n") [] [] [] (ground arith) (ground arith)
          (Puts-end lits m []) in
      complain-Says m 28 too_many_format (maxargs ∷ []) many_line s
        (Puts-text lits m 4 (codes "Too many arguments (max ") (codes "%d)\n") (maxargs ∷ [])
          (codes "16)\n") (ground arith) (ground arith)
          (Puts-signed lits m 3 16 (codes ")\n") [] (codes "16") (codes ")\n") max_digits
            (ground arith) rest))
        (omega arith) apart

  unknown-Says :
      (m : Mem) (p : ℕ) (w : List ℕ) (s : Machine)
      → IsLiteral k m p w
      → Apart s
      → Says m
          (unknown_line w)
          s
          (complain lits t names symbols stack k m unknown_format (p ∷ []) s)
  unknown-Says m p w s h apart =
      let room = h.short in
      let quote =
        Puts-text lits m 1 (codes "'\n") [] [] [] (ground arith) (ground arith)
          (Puts-end lits m []) in
      let word =
        Puts-string lits m (k - 20) p w (codes "'\n") [] (codes "'\n") h.nonnull h.spelled h.ascii
          (omega arith) h.sized
          (Puts-weaken lits m 3 (k - 20) (codes "'\n") [] (codes "'\n") (omega arith) quote) in
      complain-Says m (17 + suc (k - 20)) unknown_format (p ∷ []) (unknown_line w) s
        (Puts-text lits m (suc (k - 20)) (codes "Unknown command '") (codes "%s'\n") (p ∷ [])
          (w ++ codes "'\n") (ground arith) (ground arith) word)
        (omega arith) apart

  -- The chosen command answers.
  pub found-Says :
      (m : Mem) (p : ℕ) (w : List ℕ) (ws : List (List ℕ)) (s : Machine) (f : Option Func)
      → chosen w ≡ f
      → f ≢ some backtrace
      → length (w ∷ ws) < maxargs
      → IsLiteral k m p w
      → Documented k m names
      → Linked symbols
      → Apart s
      → (text : List ℕ) × Reply symbols (w ∷ ws) text
        × Says m text s (run_found lits t names symbols stack k m p s f)
  unfolding run_found invoke
  found-Says m p w ws s none e ne few h documented linked apart =
      (unknown_line w, unknown few e, unknown-Says m p w s h apart)
  found-Says m p w ws s (some help) e ne few h documented linked apart = (
    concat help_lines,
    helping few e,
    mon_help-Prints lits t names symbols stack k m s documented apart,
  )
  found-Says m p w ws s (some kerninfo) e ne few h documented linked apart =
      let (ds, s', is, run, prints) =
        mon_kerninfo-Prints lits t names symbols stack k m linked fuel s apart in
      (kerninfo_text symbols ds, informing few e is, (s', run, prints))
  found-Says m p w ws s (some backtrace) e ne few h documented linked apart = absurd (ne refl)
