-- ===== src/Monitor/Round.antt =====
-- A round of the monitor: the line that is typed is the line that is run.
use jos.Prelude.{
  ℕ, zero, suc, ◌+◌, ◌-◌, ◌%◌, ◌^◌, ◌≤◌, ◌<◌, ◌≡◌, ◌≢◌, ◌⊎◌, refl, sym, ap, ◌∙◌, true, false, ◌&&◌,
  ◌||◌, List, [], ◌∷◌, ◌++◌, map, length, take, get_or, ◌==◌, ltb, leb, Bool-cases, inl, inr, arith,
}
use mathlib.Core.Path.{subst}
use jos.Prelude.Int.{ℤ, pos}
use jos.Memory.{Mem, CString, SameOutside, within}
use jos.Strings.Compare.{NonNul}
use jos.Format.{◌>>=◌}
use jos.Format.Vprintfmt.{Literals}
use jos.Console.Crt.Bounds.{IsValid}
use jos.Console.Output.{Machine}
use jos.Debuginfo.{Tables}
use jos.Console.Output.Sent.{Apart, put_line}
use jos.Readline.{buflen, Editing}
use jos.Readline.Prompt.{IsPrompt}
use jos.Readline.Edit.{press, pressed, typed, GoOn, Ends, readline_lem}
use jos.Monitor.Tokens.Words.{words}
use jos.Monitor.Tokens.Argv.{Strings, Stored, entered, surplus}
use jos.Monitor.Dispatch.{HasNames, AreClear, HasNames-frame, respond, runcmd_lem}
use jos.Monitor.{
  Stack, Names, Symbols, contents, placed, after_run, after_read, runcmd, command_loop,
}

pub length-contents : (m : Mem) (p n : ℕ) → length (contents m p n) ≡ n
length-contents m p zero = refl
length-contents m p (suc n) = ap suc (length-contents m (p + 1) n)

only_strings : {ws : List (List ℕ)} {P Q : Type 0} → Stored ws (P × Q) → Stored ws P
only_strings (entered lt (p, q)) = entered lt p
only_strings (surplus ge) = surplus ge

-- The keys are bytes.
abbrev pub AreBytes : List ℕ → Type 0
AreBytes [] = Unit {0}
AreBytes (c ∷ cs) = (c < 2 ^ 8) × AreBytes cs

NonNul-take : (n : ℕ) (s : List ℕ) → NonNul s → NonNul (take n s)
NonNul-take zero s h = tt
NonNul-take (suc n) [] h = tt
NonNul-take (suc n) (c ∷ s) (ne, h) = (ne, NonNul-take n s h)

NonNul-append : (s : List ℕ) (c : ℕ) → NonNul s → c ≢ 0 → NonNul (s ++ c ∷ [])
NonNul-append [] c h ne = (ne, tt)
NonNul-append (d ∷ s) c (ne', h) ne = (ne', NonNul-append s c h ne)

NonNul-press : (text : List ℕ) (c : ℕ) → c < 2 ^ 8 → NonNul text → NonNul (press text c)
NonNul-press text c lt h = elim (Bool-cases ((c == 8 || c == 127) && ltb 0 (length text))) [
  | inl e ↦ rw e (NonNul-take (length text - 1) text h)
  | inr e ↦ elim (Bool-cases (leb b' ' c && ltb (length text) (buflen - 1))) [
    | inl e' ↦ rw (e, e') (NonNul-append text (c % 2 ^ 8) h (ground arith))
    | inr e' ↦ rw (e, e') h
  ]
]

pub NonNul-pressed : (text cs : List ℕ) → AreBytes cs → NonNul text → NonNul (pressed text cs)
NonNul-pressed text [] bytes h = h
NonNul-pressed text (c ∷ cs) (lt, bytes) h =
    NonNul-pressed (press text c) cs bytes (NonNul-press text c lt h)

get_or-take : (n i : ℕ) (l : List ℕ) → i < n → get_or (take n l) i 0 ≡ get_or l i 0
get_or-take zero i l lt = absurd (omega arith)
get_or-take (suc n) i [] lt = refl
get_or-take (suc n) zero (x ∷ l) lt = refl
get_or-take (suc n) (suc i) (x ∷ l) lt = get_or-take n i l (omega arith)

CString-bytes :
    (m : Mem) (p : ℕ) (s : List ℕ)
    → NonNul s
    → ((i : ℕ) → i < length s → m (p + i) ≡ get_or s i 0)
    → m (p + length s) ≡ 0
    → CString m p s
CString-bytes m p [] h bytes nul = ap m (omega arith) ∙ nul
CString-bytes m p (c ∷ s) (ne, h) bytes nul = (
  ap m (omega arith) ∙ bytes 0 (omega arith),
  ne,
  CString-bytes m (p + 1) s h (λ i lt. ap m (omega arith) ∙ bytes (suc i) (omega arith))
      (ap m (omega arith) ∙ nul),
)

placed_at : (m : Mem) (p i : ℕ) (l : List ℕ) → i < length l → placed m p l (p + i) ≡ get_or l i 0
placed_at m p i l lt =
    let offset : p + i - p ≡ i = omega arith in
    let inside : within p (length l) (p + i) ≡ true = ground arith in rw (inside, offset) refl

pub placed_frame :
    (m : Mem) (p n : ℕ) (l : List ℕ) → length l ≡ n → SameOutside (placed m p l) m p n
placed_frame m p n l e a out =
    let outside : within p (length l) a ≡ false = ground arith in rw outside refl

pub Ends-CString :
    (s : Machine) (m : Mem) (p : ℕ) (e : Editing) (text : List ℕ)
    → Ends s e text
    → NonNul text
    → CString (placed m p e.buf) p text
Ends-CString s m p e text ends h =
    CString-bytes (placed m p e.buf) p text h
      (λ i lt.
        placed_at m p i e.buf (omega (arith, ends.size, ends.short))
        ∙ sym (get_or-take (length text) i e.buf lt)
        ∙ ap (λ l. get_or l i 0) ends.bytes)
      (placed_at m p (length text) e.buf (omega (arith, ends.size, ends.short)) ∙ ends.stop)

pub AreClear-shorter :
    (names : Names) (buf n n' : ℕ) → n' ≤ n → AreClear names buf n → AreClear names buf n'
AreClear-shorter names buf n n' le clear = record {
  help_clear = let c = clear.help_clear in omega arith;
  kerninfo_clear = let c = clear.kerninfo_clear in omega arith;
  backtrace_clear = let c = clear.backtrace_clear in omega arith;
  whitespace_clear = let c = clear.whitespace_clear in omega arith;
}

module _ (lits : Literals) (t : Tables) (names : Names) (symbols : Symbols) (stack : Stack) (k : ℕ)
    (fuel : buflen < k) where
  -- With the literals away from the buffer, a line of byte keys that ends with a newline or a carriage
  -- return makes a round of the monitor: the prompt, a null pointer or an ASCII string that is short for the
  -- fuel, is shown, then what each key shows and a newline, put on the console one after the other, and
  -- then what the words of the edited line ask for is done, on a valid screen and in a memory that differs
  -- at most in the buffer and in which the words, if they are 15 at most, stand at the addresses of
  -- `argv`, and then the loop goes on with the rest of the input if the command returns. The screen is valid
  -- before, and the ports of the 6845 are not the serial port's.
  pub command_loop_lem :
      (n : ℕ) (said cs : List ℕ) (c : ℕ) (rest : List ℤ) (m : Mem) (s : Machine)
      → GoOn cs
      → AreBytes cs
      → (c ≡ 10) ⊎ (c ≡ 13)
      → HasNames m names
      → AreClear names names.line_buf buflen
      → IsPrompt k m names.prompt said
      → Apart s
      → IsValid s.crt
      → (m' : Mem) × (argv : List ℕ) × (command_loop lits t names symbols stack k
            (suc n)
            (map pos cs ++ pos c ∷ rest)
            m
            s
          ≡ (respond lits t names symbols stack k m'
                (get_or argv 0 0)
                (words (pressed [] cs))
                (put_line (said ++ typed [] cs) s)
              >>= after_run lits t names symbols stack k
                  (command_loop lits t names symbols stack k n)
                  rest))
        × Stored (words (pressed [] cs)) (Strings m' argv (words (pressed [] cs)))
        × IsValid (put_line (said ++ typed [] cs) s).crt
        × SameOutside m' m names.line_buf buflen
  unfolding command_loop after_read
  command_loop_lem n said cs c rest m s go bytes ends_line in_memory clear is apart v =
      let buf = names.line_buf in
      let text = pressed [] cs in
      let out = put_line (said ++ typed [] cs) s in
      let next = command_loop lits t names symbols stack k n in
      let (e, run, ends) =
        readline_lem lits k m names.prompt said cs c rest (contents m buf buflen) s go ends_line
          (length-contents m buf buflen) is apart v in
      let m1 = placed m buf e.buf in
      let frame1 = placed_frame m buf buflen e.buf ends.size in
      let (m', argv, run', strings, frame') =
        runcmd_lem lits t names symbols stack k (omega arith) m1 buf text out
          (Ends-CString out m buf e text ends (NonNul-pressed [] cs bytes tt))
          (HasNames-frame m m1 names buf buflen clear frame1 in_memory)
          (AreClear-shorter names buf buflen (length text) (omega (arith, ends.short)) clear)
          (omega (arith, ends.short)) in
      (
        m',
        argv,
        ap (λ r. r >>= after_read lits t names symbols stack k next m) run
            ∙ ap
                (λ o.
                  runcmd lits t names symbols stack k m1 buf o
                  >>= after_run lits t names symbols stack k next rest)
                ends.out
            ∙ ap (λ r. r >>= after_run lits t names symbols stack k next rest) run',
        only_strings strings,
        subst (λ o. IsValid o.crt) ends.out ends.screen,
        λ a out. frame' a (omega (arith, ends.short)) ∙ frame1 a out,
      )
