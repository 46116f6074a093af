-- ===== src/Monitor/Answers/Typed.antt =====
-- A line that is typed at the prompt is answered.
use jos.Prelude.{
  ℕ, zero, suc, ◌+◌, ◌-◌, ◌%◌, ◌^◌, ◌≤◌, ◌<◌, ◌≡◌, ◌≢◌, ◌⊎◌, ap, ◌∙◌, ◌&&◌, ◌||◌, List, [], ◌∷◌,
  ◌++◌, map, length, take, ◌==◌, ltb, leb, Bool-cases, inl, inr, arith,
}
use mathlib.Core.Path.{subst}
use jos.Prelude.Int.{ℤ, pos}
use jos.Memory.{Mem, SameOutside}
use jos.Format.{◌>>=◌}
use jos.Format.Vprintfmt.{Literals}
use jos.Format.Vprintfmt.Escapes.{IsAscii}
use jos.Console.Crt.Bounds.{IsValid}
use jos.Console.Output.{Machine}
use jos.Console.Output.Sent.{Apart, put_line}
use jos.Console.Output.Steady.{put_line-Apart}
use jos.Readline.Prompt.{IsPrompt}
use jos.Console.Cprintf.Printed.{Prints}
use jos.Debuginfo.{Tables}
use jos.Readline.{buflen}
use jos.Readline.Edit.{press, pressed, typed, GoOn, readline_lem}
use jos.Monitor.Tokens.Words.{words}
use jos.Monitor.Dispatch.{HasNames, AreClear, HasNames-frame}
use jos.Monitor.Help.{Documented}
use jos.Monitor.Kerninfo.Lines.{Linked}
use jos.Monitor.Round.{
  AreBytes, NonNul-pressed, Ends-CString, AreClear-shorter, length-contents, placed_frame,
}
use jos.Monitor.Answers.{IsAscii-append, Reply}
use jos.Monitor.Answers.Line.{AreAway, Documented-frame, NoBacktrace, runcmd-Reply}
use jos.Monitor.{
  Stack, Names, Symbols, contents, placed, after_run, after_read, runcmd, command_loop,
}

IsAscii-take : (n : ℕ) (s : List ℕ) → IsAscii s → IsAscii (take n s)
IsAscii-take zero s h = tt
IsAscii-take (suc n) [] h = tt
IsAscii-take (suc n) (c ∷ s) (lt, h) = (lt, IsAscii-take n s h)

IsAscii-press : (text : List ℕ) (c : ℕ) → c < 2 ^ 7 → IsAscii text → IsAscii (press text c)
IsAscii-press text c lt h = elim (Bool-cases ((c == 8 || c == 127) && ltb 0 (length text))) [
  | inl e ↦ rw e (IsAscii-take (length text - 1) text h)
  | inr e ↦ elim (Bool-cases (leb b' ' c && ltb (length text) (buflen - 1))) [
    | inl e' ↦ rw (e, e') (IsAscii-append text (c % 2 ^ 8 ∷ []) h (omega arith, tt))
    | inr e' ↦ rw (e, e') h
  ]
]

IsAscii-pressed : (text cs : List ℕ) → IsAscii cs → IsAscii text → IsAscii (pressed text cs)
IsAscii-pressed text [] ascii h = h
IsAscii-pressed text (c ∷ cs) (lt, ascii) h =
    IsAscii-pressed (press text c) cs ascii (IsAscii-press text c lt h)

AreBytes-ascii : (cs : List ℕ) → IsAscii cs → AreBytes cs
AreBytes-ascii [] h = tt
AreBytes-ascii (c ∷ cs) (lt, h) = (omega arith, AreBytes-ascii cs h)

AreAway-shorter :
    (names : Names) (buf n n' : ℕ) → n' ≤ n → AreAway names buf n → AreAway names buf n'
AreAway-shorter names buf n n' le away = record {
  help_away = let a = away.help_away in omega arith;
  kerninfo_away = let a = away.kerninfo_away in omega arith;
  backtrace_away = let a = away.backtrace_away in omega arith;
}

module _ (lits : Literals) (t : Tables) (names : Names) (symbols : Symbols) (stack : Stack) (k : ℕ)
    (fuel : buflen + 20 ≤ k) (linked : Linked symbols) where
  -- With the literals away from the buffer, a line of ASCII keys that ends with a newline or a carriage
  -- return and does not ask for a backtrace is answered. The prompt, a null pointer or an ASCII string that is
  -- short for the fuel, what each key shows and a newline are put on the console one after the
  -- other, and behind them nothing but what the words of the edited line ask for is printed; then the loop
  -- goes on with the rest of the input, in a memory that differs at most in the buffer, and with a valid
  -- screen. The screen is valid before, and the ports of the 6845 are not the serial port's.
  pub command_loop-Reply :
      (n : ℕ) (said cs : List ℕ) (c : ℕ) (rest : List ℤ) (m : Mem) (s : Machine)
      → GoOn cs
      → IsAscii cs
      → (c ≡ 10) ⊎ (c ≡ 13)
      → NoBacktrace (words (pressed [] cs))
      → names.line_buf ≢ 0
      → HasNames m names
      → Documented k m names
      → AreClear names names.line_buf buflen
      → AreAway names names.line_buf buflen
      → IsPrompt k m names.prompt said
      → Apart s
      → IsValid s.crt
      → (m' : Mem) × (text : List ℕ) × (answered : Machine) × Reply symbols
          (words (pressed [] cs))
          text
        × (command_loop lits t names symbols stack k (suc n) (map pos cs ++ pos c ∷ rest) m s
            ≡ command_loop lits t names symbols stack k n rest m' answered)
        × Prints text (put_line (said ++ typed [] cs) s) answered
        × IsValid answered.crt
        × SameOutside m' m names.line_buf buflen
  unfolding command_loop after_read after_run
  command_loop-Reply n said cs c rest m s go ascii ends_line other nonnull in_memory documented
        clear away is_prompt apart v =
      let buf = names.line_buf in
      let text = pressed [] cs in
      let out = put_line (said ++ typed [] cs) s in
      let next = command_loop lits t names symbols stack k n in
      let (e, run, ends) =
        readline_lem lits k m names.prompt said cs c rest (contents m buf buflen) s go ends_line
          (length-contents m buf buflen) is_prompt apart v in
      let m1 = placed m buf e.buf in
      let frame1 = placed_frame m buf buflen e.buf ends.size in
      let (m', reply, answered, is, run', prints, frame') =
        runcmd-Reply lits t names symbols stack k (omega arith) linked m1 buf text out
          (Ends-CString out m buf e text ends (NonNul-pressed [] cs (AreBytes-ascii cs ascii) tt))
          (IsAscii-pressed [] cs ascii tt) nonnull (omega (arith, ends.short))
          (omega (arith, ends.short)) (HasNames-frame m m1 names buf buflen clear frame1 in_memory)
          (Documented-frame k m m1 buf buflen frame1 names clear away documented)
          (AreClear-shorter names buf buflen (length text) (omega (arith, ends.short)) clear)
          (AreAway-shorter names buf buflen (length text) (omega (arith, ends.short)) away) other
          (put_line-Apart (said ++ typed [] cs) s apart) in
      (
        m',
        reply,
        answered,
        is,
        ap (λ r. r >>= after_read lits t names symbols stack k next m) run
            ∙ ap
                (λ o.
                  runcmd lits t names symbols stack k m1 buf o
                  >>= after_run lits t names symbols stack k next rest)
                ends.out
            ∙ ap (λ r. r >>= after_run lits t names symbols stack k next rest) run',
        prints,
        prints.screen (subst (λ o. IsValid o.crt) ends.out ends.screen),
        λ a outside. frame' a (omega (arith, ends.short)) ∙ frame1 a outside,
      )
