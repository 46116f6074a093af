-- ===== src/Init/Panic.antt =====
-- What `_panic` and `_warn` print, and what a second panic does.
use jos.Prelude.{
  ℕ, suc, ◌+◌, ◌-◌, ◌^◌, ◌≤◌, ◌<◌, ◌≡◌, ◌≢◌, refl, ap, ◌∙◌, false, List, [], ◌∷◌, ◌++◌, length,
  ◌==◌, arith,
}
use jos.Prelude.Int.{ℤ}
use jos.Prelude.Texts.{codes}
use jos.Memory.{Mem}
use jos.Format.{Result, ok, ◌>>=◌, Args}
use jos.Format.Numeral.Digits.{IsNumeral}
use jos.Format.Vprintfmt.{Literals, vprintfmt}
use jos.Format.Vprintfmt.Laws.{Plain}
use jos.Format.Vprintfmt.Pieces.{
  Puts, Puts-end, Puts-text, Puts-string, Puts-natural, Puts-weaken, IsLiteral,
}
use jos.Console.Crt.Bounds.{IsValid}
use jos.Console.Output.{Machine}
use jos.Console.Output.Sent.{AllBytes, Apart, put_line}
use jos.Console.Cprintf.{cprintf, vcprintf}
use jos.Console.Cprintf.Printed.{Prints, Prints-append, Prints-Apart, cprintf-Prints}
use jos.Debuginfo.{Tables}
use jos.Monitor.{Stack, Names, Symbols, monitor}
use jos.Init.{panic_message, panic, warn}

-- The place in the source, behind the first words
abbrev pub place : (head file ds : List ℕ) → List ℕ
place head file ds = head ++ (file ++ (codes ":" ++ (ds ++ codes ": ")))

module _ (lits : Literals) (k : ℕ) (m : Mem) where
  place-Puts :
      (head : List ℕ) (p line : ℕ) (file : List ℕ)
      → Plain head
      → AllBytes head
      → length head ≤ 18
      → IsLiteral (k - 20) m p file
      → line < 2 ^ 31
      → (ds : List ℕ) × IsNumeral 10 line ds
        × Puts lits m k (head ++ codes "%s:%d: ") (p ∷ line ∷ []) (place head file ds)
  place-Puts head p line file plain bytes short at small =
      let room = at.short in
      let colon =
        Puts-text lits m 1 (codes ": ") [] [] [] (ground arith) (ground arith)
          (Puts-end lits m []) in
      let (ds, is, numbered) =
        Puts-natural lits m 3 line (codes ": ") [] (codes ": ") small colon in
      let behind : List ℕ = codes ":" ++ (ds ++ codes ": ") in
      let lined =
        Puts-text lits m 4 (codes ":") (codes "%d: ") (line ∷ []) (ds ++ codes ": ") (ground arith)
          (ground arith) numbered in
      let named =
        Puts-string lits m (k - 20) p file (codes ":%d: ") (line ∷ []) behind at.nonnull at.spelled
          at.ascii (omega arith) at.sized
          (Puts-weaken lits m 5 (k - 20) (codes ":%d: ") (line ∷ []) behind (omega arith) lined) in
      let whole =
        Puts-text lits m (suc (k - 20)) head (codes "%s:%d: ") (p ∷ line ∷ []) (file ++ behind)
          plain bytes named in
      (
        ds,
        is,
        Puts-weaken lits m (length head + suc (k - 20)) k (head ++ codes "%s:%d: ") (p ∷ line ∷ [])
            (place head file ds) (omega arith) whole,
      )

  -- The three calls that `_panic` and `_warn` print with
  abbrev message : List ℕ → ℕ → ℕ → List ℕ → Args → Machine → Result Machine
  message head p line fmt args s = do
    (cnt, s) ← cprintf lits k m (head ++ codes "%s:%d: ") (p ∷ line ∷ []) s
    (cnt, s) ← vcprintf lits k m fmt args s
    (cnt, s) ← cprintf lits k m (codes "\n") [] s
    ok s

  newline-Puts : Puts lits m 2 (codes "\n") [] (codes "\n")
  newline-Puts =
      Puts-text lits m 1 (codes "\n") [] [] [] (ground arith) (ground arith) (Puts-end lits m [])

  message-Prints :
      (head : List ℕ) (p line : ℕ) (file fmt : List ℕ) (args : Args) (out : List ℕ) (s : Machine)
      → Plain head
      → AllBytes head
      → length head ≤ 18
      → IsLiteral (k - 20) m p file
      → line < 2 ^ 31
      → vprintfmt lits k m fmt args ≡ ok out
      → AllBytes out
      → Apart s
      → (ds : List ℕ) × (s' : Machine) × IsNumeral 10 line ds
        × (message head p line fmt args s ≡ ok s')
        × Prints (place head file ds ++ (out ++ codes "\n")) s s'
  unfolding cprintf
  message-Prints head p line file fmt args out s plain bytes short at small puts all apart =
      let room = at.short in
      let (ds, is, placed) = place-Puts head p line file plain bytes short at small in
      let (run, prints) =
        cprintf-Prints lits k m (head ++ codes "%s:%d: ") (p ∷ line ∷ []) s (place head file ds)
          (placed.puts k (omega arith)) placed.bytes apart in
      let s1 = put_line (place head file ds) s in
      let apart1 = Prints-Apart (place head file ds) s s1 prints apart in
      let (run', prints') = cprintf-Prints lits k m fmt args s1 out puts all apart1 in
      let s2 = put_line out s1 in
      let (run'', prints'') =
        cprintf-Prints lits k m (codes "\n") [] s2 (codes "\n") (newline-Puts.puts k (omega arith))
          newline-Puts.bytes (Prints-Apart out s1 s2 prints' apart1) in
      let s3 = put_line (codes "\n") s2 in
      (
        ds,
        s3,
        is,
        ap
              (λ r. r >>= λ (cnt, s). vcprintf lits k m fmt args s >>= λ (cnt, s).
                cprintf lits k m (codes "\n") [] s >>= λ (cnt, s). ok s)
              run
            ∙ ap (λ r. r >>= λ (cnt, s). cprintf lits k m (codes "\n") [] s >>= λ (cnt, s). ok s)
                run'
            ∙ ap (λ r. r >>= λ (cnt, s). ok s) run'',
        Prints-append (place head file ds) (out ++ codes "\n") s s1 s3 prints
            (Prints-append out (codes "\n") s1 s2 s3 prints' prints''),
      )

module _ (lits : Literals) (t : Tables) (names : Names) (symbols : Symbols) (stack : Stack) (k : ℕ)
    (m : Mem) (p line : ℕ) (file fmt : List ℕ) (args : Args) (out : List ℕ) (s : Machine)
    (at : IsLiteral (k - 20) m p file) (small : line < 2 ^ 31)
    (puts : vprintfmt lits k m fmt args ≡ ok out) (all : AllBytes out) (apart : Apart s)
    (v : IsValid s.crt) where
  -- The first panic prints the place and the message and takes the address of the format down; a panic
  -- while one is on prints nothing and leaves it. Both go on as the monitor does, the first one with
  -- a screen that is still valid.
  pub panic_lem :
      (n fmt_addr panicstr : ℕ) (input : List ℤ)
      → panicstr ≢ 0
      → (ds : List ℕ) × (s' : Machine) × IsNumeral 10 line ds
        × Prints (place (codes "kernel panic at ") file ds ++ (out ++ codes "\n")) s s'
        × IsValid s'.crt
        × (panic lits t names symbols stack k n 0 p line fmt_addr fmt args input m s ≡ (
            monitor lits t names symbols stack k n input m s' >>= λ session.
            ok (fmt_addr, session)))
        × (panic lits t names symbols stack k n panicstr p line fmt_addr fmt args input m s ≡ (
            monitor lits t names symbols stack k n input m s >>= λ session. ok (panicstr, session)))
  unfolding panic panic_message
  panic_lem n fmt_addr panicstr input ne =
      let (ds, s', is, run, prints) =
        message-Prints lits k m (codes "kernel panic at ") p line file fmt args out s (ground arith)
          (ground arith) (omega arith) at small puts all apart in
      (
        ds,
        s',
        is,
        prints,
        prints.screen v,
        ap
            (λ r. r >>= λ s. monitor lits t names symbols stack k n input m s >>= λ session.
              ok (fmt_addr, session))
            run,
        let on : (panicstr == 0) ≡ false = ground arith in rw on refl,
      )

  -- `_warn` prints the place and the message, and the caller goes on.
  pub warn_lem :
      (ds : List ℕ) × (s' : Machine) × IsNumeral 10 line ds
      × (warn lits t names symbols stack k p line fmt args m s ≡ ok s')
      × Prints (place (codes "kernel warning at ") file ds ++ (out ++ codes "\n")) s s'
  unfolding warn
  warn_lem =
      message-Prints lits k m (codes "kernel warning at ") p line file fmt args out s (ground arith)
        (ground arith) (omega arith) at small puts all apart
