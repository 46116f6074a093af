-- ===== src/Readline.antt =====
-- lib/readline.c: a line is read and edited in a static buffer. `input` is what the calls of `getchar`
-- return, one after the other; `iscons` of kern/console.c says that the characters are echoed.
pub mod Edit
pub mod Prompt
use jos.Prelude.{
  ℕ, ◌+◌, ◌-◌, ◌%◌, ◌^◌, Bool, true, ◌&&◌, ◌||◌, List, [], ◌∷◌, set, ◌==◌, ltb, leb, if◌then◌else◌,
}
use jos.Prelude.Int.{ℤ, pos, negsuc}
use jos.Memory.{Mem}
use jos.Format.{Result, ok, ◌>>=◌}
use jos.Format.Vprintfmt.{Literals}
use jos.Console.Output.{Machine, cputchar}
use jos.Console.Cprintf.{cprintf}

abbrev pub buflen : ℕ
buflen = 1024

unfoldable pub iscons : ℕ → Bool
iscons fdnum = true

-- The buffer, the place in it, and the devices.
pub record Editing : Type 0 where
  pub buf : List ℕ
  pub i : ℕ
  pub out : Machine

-- A call still waits for input, returns a null pointer, or returns the buffer; with what the static
-- buffer holds and the input left.
pub data Answer : Type 0 where
  waits : Answer
  null : Editing → List ℤ → Answer
  line : Editing → List ℤ → Answer

-- The loop goes on or returns the line.
pub data Turn : Type 0 where
  again : Editing → Turn
  finished : Editing → Turn

echo : Bool → ℕ → Machine → Machine
unfolding cputchar
echo echoing c s = if echoing then cputchar c s else s

-- The branches for a character that is no error.
unfoldable pub key : Bool → ℕ → Editing → Turn
unfolding echo
key echoing c e =
    if (c == 8 || c == 127) && ltb 0 e.i
    then again (record e { i = e.i - 1; out = echo echoing 8 e.out })
    else if leb b' ' c && ltb e.i (buflen - 1)
    then again
        (record e { buf = set e.buf e.i (c % 2 ^ 8); i = e.i + 1; out = echo echoing c e.out })
    else if c == 10 || c == 13
    then finished (record e { buf = set e.buf e.i 0; out = echo echoing 10 e.out })
    else again e

-- "read error: %e\n" and "%s"
abbrev error_format : List ℕ
error_format =
    b'r' ∷ b'e' ∷ b'a' ∷ b'd' ∷ b' ' ∷ b'e' ∷ b'r' ∷ b'r' ∷ b'o' ∷ b'r' ∷ b':' ∷ b' ' ∷ b'%' ∷ b'e'
    ∷ 10 ∷ []

abbrev prompt_format : List ℕ
prompt_format = b'%' ∷ b's' ∷ []

module _ (lits : Literals) (k : ℕ) (m : Mem) where
  unfoldable pub read_loop : Bool → List ℤ → Editing → Result Answer
  unfolding key cprintf
  read_loop echoing [] e = ok waits
  read_loop echoing (negsuc n ∷ input) e =
      cprintf lits k m error_format ((2 ^ 32 - (n + 1)) ∷ []) e.out >>= λ (cnt, s).
      ok (null (record e { out = s }) input)
  read_loop echoing (pos c ∷ input) e = elim (key echoing c e) [
    | again e' ↦ read_loop echoing input e'
    | finished e' ↦ ok (line e' input)
  ]

  unfoldable pub show_prompt : ℕ → Machine → Result Machine
  unfolding cprintf
  show_prompt prompt s =
      if prompt == 0
      then ok s
      else (cprintf lits k m prompt_format (prompt ∷ []) s >>= λ (cnt, s'). ok s')

  -- `buf` is what the last call left in the static buffer.
  unfoldable pub readline : ℕ → List ℤ → List ℕ → Machine → Result Answer
  unfolding read_loop show_prompt iscons
  readline prompt input buf s = show_prompt prompt s >>= λ s'.
      read_loop (iscons 0) input record { buf = buf; i = 0; out = s' }
