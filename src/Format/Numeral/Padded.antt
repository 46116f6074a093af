-- ===== src/Format/Numeral/Padded.antt =====
-- `printnum` with zeros in front: a hexadecimal number that fits the width is put digit by digit.
use jos.Prelude.{
  ℕ, zero, suc, ◌-◌, ◌/◌, ◌%◌, ◌^◌, ◌<◌, ◌≡◌, refl, ap, ◌∙◌, List, [], ◌∷◌, ◌++◌, replicate, get_or,
  leb, true, false, Bool-cases, inl, inr, arith,
}
use native.Mathlib.Nat.{pow-suc}
use jos.Prelude.Int.{pos, ◌-ℤ◌, int_laws}
use jos.Console.Output.Sent.{AllBytes, AllBytes-append}
use jos.Format.{ok, ◌>>=◌}
use jos.Format.Numeral.{digit_chars, printnum}
use jos.Format.Numeral.Bytes.{digit_byte}
use jos.Format.Numeral.Digits.{pad_before-replicate}

-- The last `width` hexadecimal digits of a number, the most significant first.
unfoldable pub hex_digits : ℕ → ℕ → List ℕ
hex_digits zero num = []
hex_digits (suc width) num = hex_digits width (num / 16) ++ get_or digit_chars (num % 16) 0 ∷ []

replicate-snoc : (n c : ℕ) → replicate n c ++ c ∷ [] ≡ c ∷ replicate n c
replicate-snoc zero c = refl
replicate-snoc (suc n) c = ap (λ l. c ∷ l) (replicate-snoc n c)

-- All digits of 0 are 0.
hex_digits-zero : (width : ℕ) → hex_digits width 0 ≡ replicate width b'0'
unfolding hex_digits
hex_digits-zero zero = refl
hex_digits-zero (suc width) =
    ap (λ l. l ++ b'0' ∷ []) (hex_digits-zero width) ∙ replicate-snoc width b'0'

pub hex_digits-AllBytes : (width num : ℕ) → AllBytes (hex_digits width num)
unfolding hex_digits
hex_digits-AllBytes zero num = tt
hex_digits-AllBytes (suc width) num =
    AllBytes-append (hex_digits width (num / 16)) (get_or digit_chars (num % 16) 0 ∷ [])
      (hex_digits-AllBytes width (num / 16)) (digit_byte (num % 16) (omega arith), tt)

-- One digit, with zeros in front.
last_digit :
    (k num width : ℕ)
    → num < 16
    → printnum (suc k) num 16 (pos (suc width)) b'0' ≡ ok (hex_digits (suc width) num)
unfolding printnum hex_digits
last_digit k num width h =
    let small : leb 16 num ≡ false = ground arith in
    let none : num / 16 ≡ 0 = omega arith in
    let zeros = pad_before-replicate (pos (suc width)) b'0' in
    let count : suc width - 1 ≡ width = omega arith in
    rw (small, zeros, none, count, hex_digits-zero width) refl

pred_pos : (n : ℕ) → pos (suc n) -ℤ pos 1 ≡ pos n
pred_pos n = omega int_laws

-- A digit behind the others.
more :
    (k num width : ℕ)
    → printnum k (num / 16) 16 (pos (suc width)) b'0' ≡ ok (hex_digits (suc width) (num / 16))
    → leb 16 num ≡ true
    → printnum (suc k) num 16 (pos (suc (suc width))) b'0' ≡ ok (hex_digits (suc (suc width)) num)
unfolding printnum hex_digits
more k num width rest big = rw big (
    ap
      (λ w.
        printnum k (num / 16) 16 w b'0' >>= λ out. ok (out ++ get_or digit_chars (num % 16) 0 ∷ []))
      (pred_pos (suc width))
    ∙ ap (λ r. r >>= λ out. ok (out ++ get_or digit_chars (num % 16) 0 ∷ [])) rest)

-- With more rounds than digits, the pad character 0 and a width that the number fits, the digits of
-- that width are put.
pub printnum-hex_digits :
    (k num width : ℕ)
    → width < k
    → num < 16 ^ suc width
    → printnum k num 16 (pos (suc width)) b'0' ≡ ok (hex_digits (suc width) num)
printnum-hex_digits zero num width fuel fits = absurd (omega arith)
printnum-hex_digits (suc k) num zero fuel fits = last_digit k num 0 (omega arith)
printnum-hex_digits (suc k) num (suc width) fuel fits = elim (Bool-cases (leb 16 num)) [
  | inl big ↦
      let rest =
        printnum-hex_digits k (num / 16) width (omega arith)
          (omega (arith, pow-suc 16 (suc width))) in
      more k num width rest big
  | inr small ↦ last_digit k num (suc width) (ground arith)
]
