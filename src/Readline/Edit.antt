-- ===== src/Readline/Edit.antt =====
-- `readline` edits a text of at most 1023 bytes and ends it with a NUL.
use jos.Prelude.{
  ℕ, zero, suc, ◌+◌, ◌-◌, ◌%◌, ◌^◌, ◌≤◌, ◌<◌, ◌≡◌, ◌≢◌, refl, sym, ap, ◌∙◌, Bool, true, false, ◌&&◌,
  ◌||◌, List, [], ◌∷◌, ◌++◌, map, set, get_or, take, length, length-set, length-take,
  get_or-set_self, ◌==◌, ltb, leb, if◌then◌else◌, Bool-cases, inl, inr, arith, length-append, ◌⊎◌,
}
use mathlib.Core.Path.{subst}
use jos.Prelude.Int.{ℤ, pos}
use jos.Memory.{Mem}
use jos.Format.{Result, ok, ◌>>=◌}
use jos.Format.Vprintfmt.{Literals}
use jos.Console.Crt.Bounds.{IsValid}
use jos.Console.Output.{Machine, cputchar}
use jos.Console.Output.Keeps.{cons_putc-IsValid}
use jos.Console.Output.Sent.{Apart, put_line, put_line-put_line}
use jos.Readline.Prompt.{IsPrompt, show_prompt-put_line}
use jos.Readline.{
  buflen, iscons, Editing, Answer, line, Turn, again, finished, echo, key, read_loop, readline,
}

-- What a key makes of the text.
abbrev pub press : List ℕ → ℕ → List ℕ
press text c =
    if (c == 8 || c == 127) && ltb 0 (length text)
    then take (length text - 1) text
    else if leb b' ' c && ltb (length text) (buflen - 1)
    then text ++ c % 2 ^ 8 ∷ []
    else text

abbrev pub pressed : List ℕ → List ℕ → List ℕ
pressed text [] = text
pressed text (c ∷ cs) = pressed (press text c) cs

-- What a key makes the console show: the backspace of a key that takes a character back, or the character.
abbrev pub key_text : List ℕ → ℕ → List ℕ
key_text text c =
    if (c == 8 || c == 127) && ltb 0 (length text)
    then 8 ∷ []
    else if leb b' ' c && ltb (length text) (buflen - 1)
    then c ∷ []
    else []

-- What a line makes it show, with the newline that ends it.
abbrev pub typed : List ℕ → List ℕ → List ℕ
typed text [] = 10 ∷ []
typed text (c ∷ cs) = key_text text c ++ typed (press text c) cs

-- No key ends the line.
abbrev pub GoOn : List ℕ → Type 0
GoOn [] = Unit {0}
GoOn (c ∷ cs) = (c ≢ 10) × (c ≢ 13) × GoOn cs

-- The first `i` bytes of the buffer are the text.
pub record Shows (s : Machine) (e : Editing) (text : List ℕ) : Type 0 where
  pub size : length e.buf ≡ buflen
  pub at : e.i ≡ length text
  pub room : e.i < buflen
  pub bytes : take e.i e.buf ≡ text
  pub screen : IsValid e.out.crt
  pub out : e.out ≡ s

take-set :
    (n : ℕ) (l : List ℕ) (v : ℕ) → n < length l → take (n + 1) (set l n v) ≡ take n l ++ v ∷ []
take-set n [] v h = absurd (omega arith)
take-set zero (x ∷ l) v h = refl
take-set (suc n) (x ∷ l) v h =
    ap (λ k. take k (x ∷ set l n v)) {x = suc n + 1} {y = suc (n + 1)} (omega arith)
    ∙ ap (λ t. x ∷ t) (take-set n l v (omega arith))

take-set_out : (n : ℕ) (l : List ℕ) (v : ℕ) → take n (set l n v) ≡ take n l
take-set_out zero l v = refl
take-set_out (suc n) [] v = refl
take-set_out (suc n) (x ∷ l) v = ap (λ t. x ∷ t) (take-set_out n l v)

take-take : (n k : ℕ) (l : List ℕ) → n ≤ k → take n (take k l) ≡ take n l
take-take zero k l h = refl
take-take (suc n) zero l h = absurd (omega arith)
take-take (suc n) (suc k) [] h = refl
take-take (suc n) (suc k) (x ∷ l) h = ap (λ t. x ∷ t) (take-take n k l (omega arith))

below_last : (b : Bool) (i : ℕ) → (b && ltb i (buflen - 1)) ≡ true → i < buflen - 1
below_last b i h = ground arith

-- A key that does not end the line.
key-press :
    (s : Machine) (c : ℕ) (e : Editing) (text : List ℕ)
    → c ≢ 10
    → c ≢ 13
    → Shows s e text
    → (e' : Editing) × (key true c e ≡ again e')
      × Shows (put_line (key_text text c) s) e' (press text c)
unfolding key echo cputchar
key-press s c e text ne ne' shows =
    elim (Bool-cases ((c == 8 || c == 127) && ltb 0 (length text))) [
      | inl h ↦
          let here = ap (λ n. (c == 8 || c == 127) && ltb 0 n) shows.at ∙ h in
          (
            record e { i = e.i - 1; out = cputchar 8 e.out },
            rw (key, here) refl,
            rw h (record {
              size = shows.size;
              at = omega (arith, shows.at, length-take (length text - 1) text);
              room = omega (arith, shows.room);
              bytes =
                  sym (take-take (e.i - 1) e.i e.buf (omega arith))
                  ∙ ap (take (e.i - 1)) shows.bytes
                  ∙ ap (λ n. take (n - 1) text) shows.at;
              screen = cons_putc-IsValid 8 e.out shows.screen;
              out = ap (cputchar 8) shows.out;
            }),
          )
      | inr h ↦
          let here = ap (λ n. (c == 8 || c == 127) && ltb 0 n) shows.at ∙ h in
          elim (Bool-cases (leb b' ' c && ltb (length text) (buflen - 1))) [
            | inl h' ↦
                let here' = ap (λ n. leb b' ' c && ltb n (buflen - 1)) shows.at ∙ h' in
                (
                  record e { buf = set e.buf e.i (c % 2 ^ 8); i = e.i + 1; out = cputchar c e.out },
                  rw (key, here, here') refl,
                  rw (h, h')
                      (record {
                        size = length-set e.buf e.i (c % 2 ^ 8) ∙ shows.size;
                        at = omega (arith, shows.at, length-append text (c % 2 ^ 8 ∷ []));
                        room = omega (arith, below_last (leb b' ' c) e.i here');
                        bytes =
                            take-set e.i e.buf (c % 2 ^ 8) (omega (arith, shows.size, shows.room))
                            ∙ ap (λ t. t ++ c % 2 ^ 8 ∷ []) shows.bytes;
                        screen = cons_putc-IsValid c e.out shows.screen;
                        out = ap (cputchar c) shows.out;
                      }),
                )
            | inr h' ↦
                let here' = ap (λ n. leb b' ' c && ltb n (buflen - 1)) shows.at ∙ h' in
                let stays : (c == 10 || c == 13) ≡ false = ground arith in
                (e, rw (key, here, here', stays) refl, rw (h, h') shows)
          ]
    ]

-- The buffer holds the text with a NUL behind it.
pub record Ends (s : Machine) (e : Editing) (text : List ℕ) : Type 0 where
  pub size : length e.buf ≡ buflen
  pub short : length text < buflen
  pub bytes : take (length text) e.buf ≡ text
  pub stop : get_or e.buf (length text) 0 ≡ 0
  pub screen : IsValid e.out.crt
  pub out : e.out ≡ s

key-Ends :
    (s : Machine) (c : ℕ) (e : Editing) (text : List ℕ)
    → (c ≡ 10) ⊎ (c ≡ 13)
    → Shows s e text
    → (e' : Editing) × (key true c e ≡ finished e') × Ends (put_line (10 ∷ []) s) e' text
unfolding key echo cputchar
key-Ends s c e text h shows = (
  record e { buf = set e.buf e.i 0; out = cputchar 10 e.out },
  end_branch h,
  record {
    size = length-set e.buf e.i 0 ∙ shows.size;
    short = omega (arith, shows.at, shows.room);
    bytes =
        ap (λ n. take n (set e.buf e.i 0)) (sym shows.at) ∙ take-set_out e.i e.buf 0 ∙ shows.bytes;
    stop =
        ap (λ n. get_or (set e.buf e.i 0) n 0) (sym shows.at)
        ∙ get_or-set_self e.buf e.i 0 0 (omega (arith, shows.size, shows.room));
    screen = cons_putc-IsValid 10 e.out shows.screen;
    out = ap (cputchar 10) shows.out;
  },
)
  where
    end_branch :
        (c ≡ 10) ⊎ (c ≡ 13)
        → key true c e ≡ finished (record e { buf = set e.buf e.i 0; out = cputchar 10 e.out })
    end_branch (inl h) = rw h refl
    end_branch (inr h) = rw h refl

module _ (lits : Literals) (k : ℕ) (m : Mem) where
  abbrev turn : List ℤ → Turn → Result Answer
  turn input (again e) = read_loop lits k m true input e
  turn input (finished e) = ok (line e input)

  read_loop-Ends :
      (s : Machine) (cs : List ℕ) (c : ℕ) (rest : List ℤ) (e : Editing) (text : List ℕ)
      → GoOn cs
      → (c ≡ 10) ⊎ (c ≡ 13)
      → Shows s e text
      → (e' : Editing) × (read_loop lits k m true (map pos cs ++ pos c ∷ rest) e
          ≡ ok (line e' rest))
        × Ends (put_line (typed text cs) s) e' (pressed text cs)
  unfolding read_loop
  read_loop-Ends s [] c rest e text go h shows =
      let (e', run, ends) = key-Ends s c e text h shows in (e', ap (turn rest) run, ends)
  read_loop-Ends s (d ∷ cs) c rest e text (ne, ne', go) h shows =
      let (e1, run, shows1) = key-press s d e text ne ne' shows in
      let (e', run', ends) =
        read_loop-Ends (put_line (key_text text d) s) cs c rest e1 (press text d) go h shows1 in
      (
        e',
        ap (turn (map pos cs ++ pos c ∷ rest)) run ∙ run',
        subst (λ t. Ends t e' (pressed (press text d) cs))
            (sym (put_line-put_line (key_text text d) (typed (press text d) cs) s)) ends,
      )

  -- With a line that is ended by a newline or a carriage return, whatever the buffer held, `readline`
  -- shows the prompt, a null pointer or an ASCII string that is short for the fuel, and returns the buffer,
  -- where the text that the keys before it edit stands with a NUL behind it, of at most 1023 bytes; the
  -- rest of the input is left. The devices are as the prompt, what each key shows and a newline leave them,
  -- put on the console one after the other, and a valid screen stays valid. The ports of the 6845 are
  -- not the serial port's.
  pub readline_lem :
      (prompt : ℕ) (said cs : List ℕ) (c : ℕ) (rest : List ℤ) (buf : List ℕ) (s : Machine)
      → GoOn cs
      → (c ≡ 10) ⊎ (c ≡ 13)
      → length buf ≡ buflen
      → IsPrompt k m prompt said
      → Apart s
      → IsValid s.crt
      → (e : Editing) × (readline lits k m prompt (map pos cs ++ pos c ∷ rest) buf s
          ≡ ok (line e rest))
        × Ends (put_line (said ++ typed [] cs) s) e (pressed [] cs)
  unfolding readline iscons
  readline_lem prompt said cs c rest buf s go h size is apart v =
      let input = map pos cs ++ pos c ∷ rest in
      let s' = put_line said s in
      let (prompted, prints) = show_prompt-put_line lits k m prompt said s is apart in
      let start : Editing = record { buf = buf; i = 0; out = s' } in
      let shows : Shows s' start [] = record {
        size = size;
        at = refl;
        room = omega arith;
        bytes = refl;
        screen = prints.screen v;
        out = refl;
      } in
      let (e, run, ends) = read_loop-Ends s' cs c rest start [] go h shows in
      (
        e,
        ap (λ r. r >>= λ t. read_loop lits k m true input record { buf = buf; i = 0; out = t })
              prompted
            ∙ run,
        subst (λ t. Ends t e (pressed [] cs)) (sym (put_line-put_line said (typed [] cs) s)) ends,
      )
