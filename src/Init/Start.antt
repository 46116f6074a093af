-- ===== src/Init/Start.antt =====
-- `i386_init` from the cleared BSS to the call of the monitor.
use jos.Prelude.{
  ℕ, ◌+◌, ◌-◌, ◌%◌, ◌^◌, ◌<◌, ◌≤◌, ◌≡◌, refl, ap, ◌∙◌, Bool, List, [], ◌∷◌, ◌++◌, length, arith,
}
use jos.Prelude.Int.{ℤ}
use jos.Prelude.Texts.{codes}
use jos.Memory.{Mem, filled}
use jos.Block.{memset}
use jos.Block.Fill.{memset_lem}
use jos.Format.{Result, ok, fresh, ◌>>=◌}
use jos.Format.Vprintfmt.{Literals, number}
use jos.Format.Vprintfmt.Pieces.{Puts, Puts-end, Puts-text, Puts-octal}
use jos.Console.Crt.Bounds.{IsValid}
use jos.Console.Output.{Outb, Machine}
use jos.Console.Output.Sent.{Apart, put_line}
use jos.Console.Cprintf.{cprintf}
use jos.Console.Cprintf.Printed.{Prints, Prints-append, Prints-Apart, cprintf-Prints}
use jos.Console.Setup.{Hardware, cons_init}
use jos.Console.Setup.Ready.{IsTextMode, IsReady, cons_init-IsReady}
use jos.Debuginfo.{Tables}
use jos.Monitor.{Stack, Names, Symbols, Session, monitor}
use jos.Monitor.Backtrace.{heading}
use jos.Monitor.Backtrace.Frames.{Chain, concat}
use jos.Monitor.Backtrace.Shown.{AreFound, AreShown, frame_texts}
use jos.Init.{test_backtrace, enter_monitor, i386_init}
use jos.Init.Nested.{Nested, test_backtrace-Prints}

abbrev pub octal_line : List ℕ
octal_line = codes "6828 decimal is 15254 octal!\n"

octal_number : number 6828 8 fresh ≡ ok (codes "15254")
unfolding number
octal_number = refl

octal-Puts :
    (lits : Literals) (m : Mem)
    → Puts lits m 26 (codes "6828 decimal is %o octal!\n") (6828 ∷ []) octal_line
octal-Puts lits m =
    let rest =
      Puts-text lits m 1 (codes " octal!\n") [] [] [] (ground arith) (ground arith)
        (Puts-end lits m []) in
    Puts-text lits m 10 (codes "6828 decimal is ") (codes "%o octal!\n") (6828 ∷ [])
      (codes "15254 octal!\n") (ground arith) (ground arith)
      (Puts-octal lits m 9 6828 (codes " octal!\n") [] (codes "15254") (codes " octal!\n")
        octal_number (ground arith) rest)

-- The memory with the bytes from `edata` to `end` cleared
abbrev pub cleared : Symbols → Mem → Mem
cleared symbols m = filled m symbols.edata 0 (symbols.end - symbols.edata)

memset-cleared :
    (symbols : Symbols) (m : Mem)
    → symbols.edata ≤ symbols.end
    → symbols.end < 2 ^ 32
    → (memset m symbols.edata 0 ((symbols.end + (2 ^ 32 - symbols.edata)) % 2 ^ 32)).1
      ≡ cleared symbols m
memset-cleared symbols m order fits =
    let size : (symbols.end + (2 ^ 32 - symbols.edata)) % 2 ^ 32 ≡ symbols.end - symbols.edata =
      omega arith in
    rw size (ap (λ p. p.1) (memset_lem m symbols.edata 0 (symbols.end - symbols.edata)))

module _ (lits : Literals) (t : Tables) (names : Names) (symbols : Symbols) (ebp : ℕ)
    (deep : Mem → Mem) (stack : Stack) (k n : ℕ) (hw : Hardware) (written : List Outb)
    (input : List ℤ) where
  -- What the kernel does in the memory `m`, once the BSS is cleared.
  abbrev after_message : Mem → ℕ × Machine → Result Session
  after_message m (cnt, s) =
      test_backtrace lits t ebp k (deep m) 5 s
      >>= enter_monitor lits t names symbols stack k n input m

  abbrev after_console : Mem → Bool × Machine → Result Session
  after_console m (exists, s) =
      cprintf lits k m (codes "6828 decimal is %o octal!\n") (6828 ∷ []) s >>= after_message m

  -- The message, the nested calls and the step into the monitor
  runs_on :
      (m : Mem) (frames : List ℕ) (exists : Bool) (s : Machine)
      → Chain (deep m) ebp frames
      → (found : AreFound t k (deep m) frames) → length frames < k
      → 40 ≤ k
      → Apart s
      → (texts : List (List ℕ)) × (out : List ℕ) × (s' : Machine) × AreShown t k
          (deep m)
          frames
          found
          texts
        × Nested (heading ++ concat texts) 5 out
        × Prints (octal_line ++ out) s s'
        × (after_console m (exists, s) ≡ monitor lits t names symbols stack k n input m s')
  unfolding enter_monitor
  runs_on m frames exists s chain found lt fuel apart =
      let (texts, are, shown) = frame_texts lits t k (deep m) fuel frames found in
      let message = octal-Puts lits m in
      let (run, prints) =
        cprintf-Prints lits k m (codes "6828 decimal is %o octal!\n") (6828 ∷ []) s octal_line
          (message.puts k (omega arith)) message.bytes apart in
      let s1 = put_line octal_line s in
      let (out, s', run', nested, prints') =
        test_backtrace-Prints lits t ebp k (deep m) frames texts chain are lt (omega arith) 5 s1
          (omega arith) (Prints-Apart octal_line s s1 prints apart) in
      (
        texts,
        out,
        s',
        shown,
        nested,
        Prints-append octal_line out s s1 s' prints prints',
        ap (λ r. r >>= after_message m) run
            ∙ ap (λ r. r >>= enter_monitor lits t names symbols stack k n input m) run',
      )

  i386_init-after :
      (m0 m : Mem)
      → (memset m0 symbols.edata 0 ((symbols.end + (2 ^ 32 - symbols.edata)) % 2 ^ 32)).1 ≡ m
      → i386_init lits t names symbols stack k ebp deep n hw written input m0
        ≡ (cons_init lits k m hw written >>= after_console m)
  unfolding i386_init
  i386_init-after m0 m e = ap (λ m. cons_init lits k m hw written >>= after_console m) e

  -- In text mode, with a stack at the deepest call of `test_backtrace` whose frames form a chain and have
  -- return addresses that `debuginfo_eip` finds, in the memory whose BSS is cleared, `i386_init` clears the
  -- BSS, sets the console up, prints the line with the octal number and the lines of the calls of
  -- `test_backtrace` from 5 down to 0 and up again, with the backtrace inside, and goes on as the monitor
  -- does on what is typed, with a stack of its own and a valid screen.
  pub i386_init_lem :
      (m0 : Mem) (frames : List ℕ)
      → symbols.edata ≤ symbols.end
      → symbols.end < 2 ^ 32
      → IsTextMode hw
      → Chain (deep (cleared symbols m0)) ebp frames
      → (found : AreFound t k (deep (cleared symbols m0)) frames) → length frames < k
      → 40 ≤ k
      → (exists : Bool) × (s : Machine) × (texts : List (List ℕ)) × (out : List ℕ) × (s' : Machine)
        × (cons_init lits k (cleared symbols m0) hw written ≡ ok (exists, s))
        × IsReady hw exists s
        × AreShown t k (deep (cleared symbols m0)) frames found texts
        × Nested (heading ++ concat texts) 5 out
        × Prints (octal_line ++ out) s s'
        × IsValid s'.crt
        × (i386_init lits t names symbols stack k ebp deep n hw written input m0
            ≡ monitor lits t names symbols stack k n input (cleared symbols m0) s')
  i386_init_lem m0 frames order fits mode chain found lt fuel =
      let m = cleared symbols m0 in
      let (exists, s, run, ready) = cons_init-IsReady lits k m hw written mode (omega arith) in
      let (texts, out, s', shown, nested, prints, on) =
        runs_on m frames exists s chain found lt fuel ready.apart in
      (
        exists,
        s,
        texts,
        out,
        s',
        run,
        ready,
        shown,
        nested,
        prints,
        prints.screen ready.valid,
        i386_init-after m0 m (memset-cleared symbols m0 order fits)
            ∙ ap (λ r. r >>= after_console m) run
            ∙ on,
      )
