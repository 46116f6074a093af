-- ===== src/Format/Text.antt =====
-- The `%s` conversion: padding in front, the bytes of the string up to the precision, padding behind.
pub mod Laws
use jos.Prelude.{
  ℕ, zero, suc, ◌+◌, ◌-◌, ◌^◌, Bool, ◌&&◌, ◌||◌, not, List, [], ◌∷◌, ◌++◌, ◌==◌, ltb, if◌then◌else◌,
}
use jos.Prelude.Int.{ℤ, pos, negsuc, ◌-ℤ◌, ltb_ℤ}
use jos.Memory.{Mem}
use jos.Strings.{strnlen}
use jos.Format.{Result, ok, err, out_of_fuel, ◌>>=◌, Spec}

-- `for (; width > 0; width--) putch(c)`: the characters, and the width behind the loop.
unfoldable pub pad_loop : ℤ → ℕ → List ℕ × ℤ
pad_loop (pos zero) c = ([], pos zero)
pad_loop (pos (suc n)) c = let (out, width) = pad_loop (pos n) c in (c ∷ out, width)
pad_loop (negsuc n) c = ([], negsuc n)

-- A conversion to `size_t`.
unfoldable pub to_size : ℤ → ℕ
to_size (pos n) = n
to_size (negsuc n) = 2 ^ 32 - n - 1

-- `ch` is an `int` that `*p++` has sign-extended from a `char`; integers are 32-bit patterns here.
unfoldable pub extend_char : ℕ → ℕ
extend_char b = if ltb b 128 then b else b + (2 ^ 32 - 2 ^ 8)

-- With `altflag` a character that is not printable, one of 128 and up among them, is put as `?`.
unfoldable pub shown : Bool → ℕ → ℕ
unfolding extend_char
shown altflag b = if altflag && (ltb b b' ' || ltb b'~' b) then b'?' else extend_char b

-- The middle loop; the result is what is put and the width behind the loop.
unfoldable pub text_loop : ℕ → Mem → ℕ → Bool → ℤ → ℤ → Result (List ℕ × ℤ)
unfolding shown ◌-ℤ◌
text_loop zero m p altflag precision width = err out_of_fuel
text_loop (suc k) m p altflag precision width =
    let bounded = not (ltb_ℤ precision (pos 0)) in
    let precision' = if bounded then precision -ℤ pos 1 else precision in
    let rest = text_loop k m (p + 1) altflag precision' (width -ℤ pos 1) in
    if m p == 0
    then ok ([], width)
    else if bounded && ltb_ℤ precision' (pos 0)
    then ok ([], width)
    else (rest >>= λ (out, width'). ok (shown altflag (m p) ∷ out, width'))

-- The first loop: `width -= strnlen(p, precision)`, then the padding.
unfoldable pub pad_front : Mem → ℕ → Spec → List ℕ × ℤ
unfolding pad_loop to_size ◌-ℤ◌
pad_front m p s =
    if ltb_ℤ (pos 0) s.width && not (s.padc == b'-')
    then pad_loop (s.width -ℤ pos (strnlen m p (to_size s.precision))) s.padc
    else ([], s.width)

unfoldable pub put_text : ℕ → Mem → ℕ → Spec → Result (List ℕ)
unfolding pad_front text_loop pad_loop
put_text k m p s = do
  let (front, width) = pad_front m p s
  (body, width') ← text_loop k m p s.altflag s.precision width
  ok (front ++ (body ++ (pad_loop width' b' ').0))
