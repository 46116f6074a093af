-- ===== src/Format/Numeral.antt =====
-- `printnum`: padding, then the digits of a number, the most significant first.
pub mod Digits
pub mod Bytes
pub mod Padded
use jos.Prelude.{ℕ, zero, suc, ◌/◌, ◌%◌, List, [], ◌∷◌, ◌++◌, get_or, leb, if◌then◌else◌}
use jos.Prelude.Int.{ℤ, pos, ◌-ℤ◌}
use jos.Format.{Result, ok, err, out_of_fuel, ◌>>=◌}

-- `"0123456789abcdef"`
abbrev pub digit_chars : List ℕ
digit_chars =
    b'0' ∷ b'1' ∷ b'2' ∷ b'3' ∷ b'4' ∷ b'5' ∷ b'6' ∷ b'7' ∷ b'8' ∷ b'9' ∷ b'a' ∷ b'b' ∷ b'c' ∷ b'd'
    ∷ b'e' ∷ b'f' ∷ []

-- `while (--width > 0) putch(padc, putdat);`
unfoldable pub pad_before : ℤ → ℕ → List ℕ
pad_before (pos (suc (suc n))) padc = padc ∷ pad_before (pos (suc n)) padc
pad_before _ padc = []

-- The characters that are put. The fuel bounds the depth of the recursion.
unfoldable pub printnum : ℕ → ℕ → ℕ → ℤ → ℕ → Result (List ℕ)
unfolding pad_before ◌-ℤ◌
printnum zero num base width padc = err out_of_fuel
printnum (suc k) num base width padc =
    let preceding = printnum k (num / base) base (width -ℤ pos 1) padc in
    (if leb base num then preceding else ok (pad_before width padc)) >>= λ out.
    ok (out ++ get_or digit_chars (num % base) 0 ∷ [])
