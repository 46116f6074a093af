-- ===== src/Format/Vprintfmt.antt =====
-- The conversions of `vprintfmt` and its loop, and `printfmt`.
pub mod Laws
pub mod Ends
pub mod Total
pub mod Escapes
pub mod Pieces
use jos.Prelude.{
  ℕ, zero, suc, ◌+◌, ◌-◌, ◌%◌, ◌^◌, Option, none, some, List, [], ◌∷◌, ◌++◌, ◌==◌, ltb, leb,
  if◌then◌else◌,
}
use jos.Memory.{Mem}
use jos.Format.{
  Result, ok, err, out_of_fuel, ◌>>=◌, Spec, fresh, Args, va_word, va_long_long, reswitch,
}
use jos.Format.Numeral.{printnum}
use jos.Format.Text.{put_text}

-- Where the linker has put the literals that the code points at: `"(null)"`, and the entries of
-- `error_string`, of which the one for 0 is a null pointer.
pub record Literals : Type 0 where
  pub null_text : ℕ
  pub error_string : ℕ → ℕ

abbrev pub max_error : ℕ
max_error = 7

-- `getuint` and `getint` give 64-bit patterns; a signed word is sign-extended.
unfoldable pub getuint : Args → ℕ → Result (ℕ × Args)
unfolding va_word va_long_long
getuint args lflag = if leb 2 lflag then va_long_long args else va_word args

unfoldable pub getint : Args → ℕ → Result (ℕ × Args)
unfolding va_word va_long_long
getint args lflag = if leb 2 lflag then va_long_long args else (do
  (w, args) ← va_word args
  ok (if ltb w (2 ^ 31) then w else w + (2 ^ 64 - 2 ^ 32), args))

-- A 64-bit number has at most 64 digits.
unfoldable pub number : ℕ → ℕ → Spec → Result (List ℕ)
unfolding printnum
number num base s = printnum 64 num base s.width s.padc

unfoldable pub put_signed : ℕ → Spec → Result (List ℕ)
unfolding number
put_signed num s =
    if ltb num (2 ^ 63)
    then number num 10 s
    else (do out ← number (2 ^ 64 - num) 10 s; ok (b'-' ∷ out))

-- `if (err < 0) err = -err;` on a 32-bit pattern
unfoldable pub magnitude : ℕ → ℕ
magnitude w = if ltb w (2 ^ 31) then w else 2 ^ 32 - w

abbrev pub error_format : List ℕ
error_format = b'e' ∷ b'r' ∷ b'r' ∷ b'o' ∷ b'r' ∷ b' ' ∷ b'%' ∷ b'd' ∷ []

abbrev pub text_format : List ℕ
text_format = b'%' ∷ b's' ∷ []

-- What a conversion puts, and the arguments that are left; `none` for an unknown conversion.
-- `printfmt` is the recursive call that `%e` makes.
module _ (lits : Literals) (k : ℕ) (m : Mem) (printfmt : List ℕ → Args → Result (List ℕ)) where
  put_error : ℕ → Result (List ℕ)
  unfolding magnitude
  put_error w =
      let e = magnitude w in
      let p = lits.error_string e in
      if leb max_error e
      then printfmt error_format (e ∷ [])
      else if p == 0
      then printfmt error_format (e ∷ [])
      else printfmt text_format (p ∷ [])

  string_arg : ℕ → ℕ
  string_arg p = if p == 0 then lits.null_text else p

  unfoldable pub convert : Spec → Args → ℕ → Result (Option (List ℕ × Args))
  unfolding put_error string_arg getuint getint number put_signed put_text
  convert s args ch =
      if ch == b'c'
      then (do (w, args) ← va_word args; ok (some (w ∷ [], args)))
      else if ch == b'e'
      then (do (w, args) ← va_word args; out ← put_error w; ok (some (out, args)))
      else if ch == b's'
      then (do (p, args) ← va_word args; out ← put_text k m (string_arg p) s; ok (some (out, args)))
      else if ch == b'd'
      then (do (n, args) ← getint args s.lflag; out ← put_signed n s; ok (some (out, args)))
      else if ch == b'u'
      then (do (n, args) ← getuint args s.lflag; out ← number n 10 s; ok (some (out, args)))
      else if ch == b'o'
      then (do (n, args) ← getuint args s.lflag; out ← number n 8 s; ok (some (out, args)))
      else if ch == b'p'
      then (do (n, args) ← va_word args; out ← number n 16 s; ok (some (b'0' ∷ b'x' ∷ out, args)))
      else if ch == b'x'
      then (do (n, args) ← getuint args s.lflag; out ← number n 16 s; ok (some (out, args)))
      else if ch == b'%'
      then ok (some (b'%' ∷ [], args))
      else ok none

  -- An escape from behind its `%`: what it puts and what the rest of the format puts. An unknown
  -- escape is put again from behind its `%`, with the arguments that it has not taken.
  unfoldable pub escape : Args → List ℕ → Result (List ℕ)
  unfolding convert reswitch
  escape args fmt = do
    e ← reswitch none fresh args fmt
    r ← convert e.spec e.args e.conversion
    elim r [
      | none ↦ (do rest ← printfmt fmt e.args; ok (b'%' ∷ rest))
      | some (out, args') ↦ (do rest ← printfmt e.behind args'; ok (out ++ rest))
    ]

-- The outer loop, on fuel: each round takes at least one character of the format. The NUL that ends
-- a format is the end of the list.
unfoldable pub vprintfmt : Literals → ℕ → Mem → List ℕ → Args → Result (List ℕ)
vprintfmt lits zero m fmt args = err out_of_fuel
vprintfmt lits (suc k) m [] args = ok []
vprintfmt lits (suc k) m (ch ∷ fmt) args =
    let again = vprintfmt lits k m in
    if ch == b'%'
    then escape lits (suc k) m again args fmt
    else (do rest ← again fmt args; ok (ch ∷ rest))

unfoldable pub printfmt : Literals → ℕ → Mem → List ℕ → Args → Result (List ℕ)
unfolding vprintfmt
printfmt lits k m fmt args = vprintfmt lits k m fmt args
