-- ===== src/Format.antt =====
-- lib/printfmt.c: the `%` escapes and their scanning; the children have the conversions, the loop of
-- `vprintfmt`, and `vsnprintf`.
-- A format is the list of its bytes, without the NUL. The variable arguments are the 32-bit words of
-- the i386 argument area, in order; reading past them is the error `no_argument`.
pub mod Numeral
pub mod Text
pub mod Vprintfmt
pub mod Buffer
use jos.Prelude.{
  ℕ, ◌+◌, ◌-◌, ◌*◌, ◌^◌, Bool, true, false, ◌&&◌, Option, none, some, List, [], ◌∷◌, ◌==◌, ltb, leb,
  if◌then◌else◌,
}
use jos.Prelude.Int.{ℤ, pos, negsuc, ltb_ℤ}

-- Why a call gives no output: the fuel of a loop over memory ran out, or an argument is missing.
pub data Error : Type 0 where
  out_of_fuel : Error
  no_argument : Error

pub data Result {ℓ} (A : Type ℓ) : Type ℓ where
  ok : A → Result A
  err : Error → Result A

infixl 5 ◌>>=◌
abbrev pub ◌>>=◌ {ℓ κ} : {A : Type ℓ} {B : Type κ} → Result A → (A → Result B) → Result B
ok a >>= f = f a
err e >>= f = err e

-- The local variables that an escape sets.
pub record Spec : Type 0 where
  pub padc : ℕ
  pub width : ℤ
  pub precision : ℤ
  pub lflag : ℕ
  pub altflag : Bool

abbrev pub fresh : Spec
fresh = record { padc = b' '; width = negsuc 0; precision = negsuc 0; lflag = 0; altflag = false }

abbrev pub Args : Type 0
Args = List ℕ

-- `va_arg(ap, int)`, and so for any argument of one word.
unfoldable pub va_word : Args → Result (ℕ × Args)
va_word [] = err no_argument
va_word (w ∷ args) = ok (w, args)

-- `va_arg(ap, long long)`: the low word comes first.
unfoldable pub va_long_long : Args → Result (ℕ × Args)
unfolding va_word
va_long_long args = do
  (lo, args) ← va_word args
  (hi, args) ← va_word args
  ok (hi * 2 ^ 32 + lo, args)

-- The integer that a 32-bit pattern stands for.
unfoldable pub signed32 : ℕ → ℤ
signed32 w = if ltb w (2 ^ 31) then pos w else negsuc (2 ^ 32 - w - 1)

-- `process_precision`
unfoldable pub process_precision : Spec → ℤ → Spec
process_precision s p =
    if ltb_ℤ s.width (pos 0)
    then record s { width = p; precision = negsuc 0 }
    else record s { precision = p }

-- What the switch does with a character: it scans on, with the digits of a field read so far, or
-- leaves the loop for a conversion.
pub data Next : Type 0 where
  again : Option ℕ → Spec → Args → Next
  stop : Spec → Args → Next

is_digit : ℕ → Bool
is_digit ch = leb b'0' ch && leb ch b'9'

-- The cases of the switch that `goto reswitch`; any other character is a conversion.
switch : Spec → Args → ℕ → Result Next
switch s args ch =
    if ch == b'-'
    then ok (again none (record s { padc = b'-' }) args)
    else if ch == b'0'
    then ok (again none (record s { padc = b'0' }) args)
    else if is_digit ch
    then ok (again (some (ch - b'0')) s args)
    else if ch == b'*'
    then (do (p, args) ← va_word args; ok (again none (process_precision s (signed32 p)) args))
    else if ch == b'.'
    then ok
        (again none (record s { width = if ltb_ℤ s.width (pos 0) then pos 0 else s.width }) args)
    else if ch == b'#'
    then ok (again none (record s { altflag = true }) args)
    else if ch == b'l'
    then ok (again none (record s { lflag = s.lflag + 1 }) args)
    else ok (stop s args)

-- In a width field `some n` is the number read so far; the first character that is no digit ends it.
step : Option ℕ → Spec → Args → ℕ → Result Next
unfolding switch is_digit process_precision va_word signed32
step none s args ch = switch s args ch
step (some n) s args ch =
    if is_digit ch
    then ok (again (some (n * 10 + (ch - b'0'))) s args)
    else switch (process_precision s (pos n)) args ch

-- A scanned escape: its settings, its conversion character (0 for the NUL at the end), the format
-- behind it and the arguments that are left.
pub record Escape : Type 0 where
  pub spec : Spec
  pub conversion : ℕ
  pub behind : List ℕ
  pub args : Args

settle : Option ℕ → Spec → Spec
settle none s = s
settle (some n) s = process_precision s (pos n)

unfoldable pub reswitch : Option ℕ → Spec → Args → List ℕ → Result Escape
unfolding step settle
reswitch field s args [] =
    ok (record { spec = settle field s; conversion = 0; behind = []; args = args })
reswitch field s args (ch ∷ fmt) = elim (step field s args ch) [
  | err e ↦ err e
  | ok (again field' s' args') ↦ reswitch field' s' args' fmt
  | ok (stop s' args') ↦ ok (record { spec = s'; conversion = ch; behind = fmt; args = args' })
]
