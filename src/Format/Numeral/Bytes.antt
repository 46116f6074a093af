-- ===== src/Format/Numeral/Bytes.antt =====
-- The characters of numerals are bytes.
use mathlib.Core.Path.{subst}
use jos.Prelude.{ℕ, ◌^◌, ◌<◌, ◌≤◌, ◌≡◌, refl, sym, List, [], ◌∷◌, get_or, ltb, true, ltb→lt, arith}
use jos.Prelude.Table.{all_below, all_below_at}
use jos.Console.Output.Sent.{AllBytes}
use jos.Format.Numeral.{digit_chars}
use jos.Format.Numeral.Digits.{digit_value, AllDigits}

digit_bytes : all_below 16 (λ d. ltb (get_or digit_chars d 0) (2 ^ 8)) ≡ true
unfolding all_below
digit_bytes = refl

pub digit_byte : (d : ℕ) → d < 16 → get_or digit_chars d 0 < 2 ^ 8
digit_byte d h =
    ltb→lt (get_or digit_chars d 0) (2 ^ 8)
      (all_below_at 16 (λ d. ltb (get_or digit_chars d 0) (2 ^ 8)) d digit_bytes h)

pub AllDigits-AllBytes : (base : ℕ) (ds : List ℕ) → base ≤ 16 → AllDigits base ds → AllBytes ds
AllDigits-AllBytes base [] le h = tt
AllDigits-AllBytes base (c ∷ ds) le (lt, e, h) = (
  subst (λ x. x < 2 ^ 8) (sym e) (digit_byte (digit_value c) (omega arith)),
  AllDigits-AllBytes base ds le h,
)
