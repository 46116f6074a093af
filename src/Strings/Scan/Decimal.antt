-- ===== src/Strings/Scan/Decimal.antt =====
-- `strtol` reads back the decimal numerals that `%d` prints.
use mathlib.Core.Path.{subst}
use jos.Prelude.{
  ℕ, zero, suc, ◌+◌, ◌-◌, ◌*◌, ◌%◌, ◌^◌, ◌<◌, ◌≤◌, ◌≡◌, refl, ap, sym, ◌∙◌, Bool, true, false, ◌&&◌,
  ◌||◌, Option, none, some, List, [], ◌∷◌, length, get_or, ◌==◌, ltb, ltb→le, leb, if◌then◌else◌,
  Bool-cases, inl, inr, arith,
}
use jos.Prelude.Table.{all_below, all_below_at}
use jos.Prelude.Int.{ℤ, pos, negsuc, nonneg, negative}
use jos.Memory.{Mem, CString}
use jos.Format.{signed32}
use jos.Format.Numeral.{digit_chars}
use jos.Format.Numeral.Digits.{IsNumeral, AllDigits, value, digit_value}
use jos.Format.Vprintfmt.Laws.{IsDecimal}
use jos.Strings.Scan.{space_loop, digit_of, digit_loop, sign, prefix, scanned, strtol}

is_digit_of : ℕ → Bool
unfolding digit_of
is_digit_of d = let c = get_or digit_chars d 0 in (leb b'0' c && leb c b'9') && (c - b'0' == d)

digit_table : all_below 10 is_digit_of ≡ true
unfolding all_below is_digit_of
digit_table = refl

digit_bounds :
    (d : ℕ)
    → d < 10
    → (b'0' ≤ get_or digit_chars d 0)
      × (get_or digit_chars d 0 ≤ b'9')
      × (get_or digit_chars d 0 - b'0' ≡ d)
unfolding is_digit_of
digit_bounds d h = let e = all_below_at 10 is_digit_of d digit_table h in ground arith

digit_of_char : (c d : ℕ) → b'0' ≤ c → c ≤ b'9' → c - b'0' ≡ d → digit_of c ≡ some d
unfolding digit_of
digit_of_char c d lo hi e = ground arith

-- What a digit of a decimal numeral is.
char_lem :
    (c : ℕ)
    → digit_value c < 10
    → c ≡ get_or digit_chars (digit_value c) 0
    → (b'0' ≤ c) × (c ≤ b'9') × (digit_of c ≡ some (digit_value c))
char_lem c h e =
    let (lo, hi, d) = digit_bounds (digit_value c) h in
    let lo' = subst (λ x. b'0' ≤ x) (sym e) lo in
    let hi' = subst (λ x. x ≤ b'9') (sym e) hi in
    let d' = ap (λ x. x - b'0') e ∙ d in (lo', hi', digit_of_char c (digit_value c) lo' hi' d')

value_mono : (ds : List ℕ) (val : ℕ) → val ≤ value 10 val ds
value_mono [] val = omega arith
value_mono (c ∷ ds) val = let h = value_mono ds (val * 10 + digit_value c) in omega arith

digit_loop_lem :
    (ds : List ℕ) (k : ℕ) (m : Mem) (s val : ℕ)
    → length ds < k
    → AllDigits 10 ds
    → CString m s ds
    → value 10 val ds < 2 ^ 32
    → digit_loop k m s 10 val ≡ some (value 10 val ds, s + length ds)
unfolding digit_loop
digit_loop_lem ds zero m s val fuel digits str fits = absurd (omega arith)
digit_loop_lem [] (suc k) m s val fuel digits str fits =
    let e : digit_of (m s) ≡ none = ap digit_of str in
    rw (digit_loop, e) (ap (λ a. some (val, a)) (omega arith))
digit_loop_lem (c ∷ ds) (suc k) m s val fuel (small, e, digits) (at, ne, str) fits =
    let (lo, hi, d) = char_lem c small e in
    let ed : digit_of (m s) ≡ some (digit_value c) = ap digit_of at ∙ d in
    let live : leb 10 (digit_value c) ≡ false = ground arith in
    let whole : (val * 10 + digit_value c) % 2 ^ 32 ≡ val * 10 + digit_value c =
      omega (arith, value_mono ds (val * 10 + digit_value c)) in
    rw (digit_loop, ed, live, whole)
      (digit_loop_lem ds k m (s + 1) (val * 10 + digit_value c) (omega arith) digits str fits
        ∙ ap (λ a. some (value 10 (val * 10 + digit_value c) ds, a)) (omega arith))

scanned_from :
    (k : ℕ) (m : Mem) (s t end val : ℕ) (neg : Bool)
    → sign m s ≡ (neg, t)
    → digit_loop k m t 10 0 ≡ some (val, end)
    → scanned k m s 10 ≡ some (if neg then (2 ^ 32 - val) % 2 ^ 32 else val, end)
unfolding scanned prefix
scanned_from k m s t end val neg e run =
    rw (scanned, e, prefix, run)
      (ap (λ r. some (if r.0 then (2 ^ 32 - val) % 2 ^ 32 else val, end)) e)

-- A run over a sign and digits that starts with no space.
strtol_from :
    (k : ℕ) (m : Mem) (s t end val : ℕ) (neg : Bool)
    → (m s == b' ' || m s == 9) ≡ false
    → sign m s ≡ (neg, t)
    → digit_loop (suc k) m t 10 0 ≡ some (val, end)
    → strtol (suc k) m s 10 ≡ some (if neg then (2 ^ 32 - val) % 2 ^ 32 else val, end)
unfolding strtol space_loop
strtol_from k m s t end val neg solid e run =
    ap
      (λ b. elim (if b then space_loop k m (s + 1) else some s) as (λ r. Option (ℕ × ℕ)) [
        | none ↦ none
        | some a ↦ scanned (suc k) m a 10
      ])
      solid
    ∙ scanned_from (suc k) m s t end val neg e run

sign_digit : (m : Mem) (s c : ℕ) → m s ≡ c → b'0' ≤ c → sign m s ≡ (false, s)
unfolding sign
sign_digit m s c at lo = ground arith

sign_minus : (m : Mem) (s : ℕ) → m s ≡ b'-' → sign m s ≡ (true, s + 1)
unfolding sign
sign_minus m s at = ground arith

solid_lem : (x : ℕ) → b'-' ≤ x → (x == b' ' || x == 9) ≡ false
solid_lem x h = ground arith

-- The numeral of a number that fits.
strtol_digits :
    (ds : List ℕ) (k : ℕ) (m : Mem) (s num : ℕ)
    → IsNumeral 10 num ds
    → CString m s ds
    → length ds < k
    → num < 2 ^ 32
    → strtol k m s 10 ≡ some (num, s + length ds)
strtol_digits [] k m s num is str fuel fits = absurd (let h = is.some_digit in omega arith)
strtol_digits (c ∷ ds) zero m s num is str fuel fits = absurd (omega arith)
strtol_digits (c ∷ ds) (suc k) m s num is (at, ne, str) fuel fits =
    let (small, e, rest) = is.digits in
    let (lo, hi, d) = char_lem c small e in
    let run =
      digit_loop_lem (c ∷ ds) (suc k) m s 0 fuel is.digits (at, ne, str)
        (subst (λ x. x < 2 ^ 32) (sym is.spells) fits) in
    strtol_from k m s s (s + length (c ∷ ds)) num false (solid_lem (m s) (rw at (omega arith)))
      (sign_digit m s c at lo) (run ∙ ap (λ x. some (x, s + length (c ∷ ds))) is.spells)

strtol_minus :
    (ds : List ℕ) (k : ℕ) (m : Mem) (s num : ℕ)
    → IsNumeral 10 num ds
    → CString m s (b'-' ∷ ds)
    → suc (length ds) < k
    → num < 2 ^ 32
    → strtol k m s 10 ≡ some ((2 ^ 32 - num) % 2 ^ 32, s + suc (length ds))
strtol_minus ds zero m s num is str fuel fits = absurd (omega arith)
strtol_minus ds (suc k) m s num is (at, ne, str) fuel fits =
    let run =
      digit_loop_lem ds (suc k) m (s + 1) 0 (omega arith) is.digits str
        (subst (λ x. x < 2 ^ 32) (sym is.spells) fits) in
    strtol_from k m s (s + 1) (s + suc (length ds)) num true (solid_lem (m s) (rw at (omega arith)))
      (sign_minus m s at)
      (run
        ∙ ap some (ap (λ x. (x, s + 1 + length ds)) is.spells ∙ ap (λ a. (num, a)) (omega arith)))

-- The 32 bits of an integer.
abbrev bits : ℤ → ℕ
bits (pos n) = n
bits (negsuc n) = (2 ^ 32 - suc n) % 2 ^ 32

abbrev Fits : ℤ → Type 0
Fits (pos n) = n < 2 ^ 32
Fits (negsuc n) = suc n < 2 ^ 32

strtol_integer :
    (n : ℤ) (k : ℕ) (m : Mem) (s : ℕ) (out : List ℕ)
    → IsDecimal n out
    → Fits n
    → CString m s out
    → length out < k
    → strtol k m s 10 ≡ some (bits n, s + length out)
strtol_integer (pos n) k m s out is fits =
    let e = is.shape ∙ ap (λ b. if b then b'-' ∷ is.digits else is.digits) (nonneg n) in
    subst (λ o. CString m s o → length o < k → strtol k m s 10 ≡ some (n, s + length o)) (sym e)
      (λ str fuel. strtol_digits is.digits k m s n is.numeral str fuel fits)
strtol_integer (negsuc n) k m s out is fits =
    let e = is.shape ∙ ap (λ b. if b then b'-' ∷ is.digits else is.digits) (negative n) in
    subst
      (λ o.
        CString m s o
        → length o < k
        → strtol k m s 10 ≡ some ((2 ^ 32 - suc n) % 2 ^ 32, s + length o))
      (sym e) (λ str fuel. strtol_minus is.digits k m s (suc n) is.numeral str fuel fits)

bits-signed32 : (w : ℕ) → w < 2 ^ 32 → bits (signed32 w) ≡ w
unfolding signed32
bits-signed32 w h = ground arith

signed32-Fits : (w : ℕ) → w < 2 ^ 32 → Fits (signed32 w)
unfolding signed32
signed32-Fits w h = elim (Bool-cases (ltb w (2 ^ 31))) [
  | inl e ↦ rw e h
  | inr e ↦ let big = ltb→le w (2 ^ 31) e in rw e (omega arith)
]

-- `strtol` in base 10, on the text that `%d` prints for a 32-bit word, gives the word back and the
-- address behind the text, if the fuel is more than the length of the text.
pub strtol-IsDecimal :
    (k : ℕ) (m : Mem) (s w : ℕ) (out : List ℕ)
    → w < 2 ^ 32
    → IsDecimal (signed32 w) out
    → CString m s out
    → length out < k
    → strtol k m s 10 ≡ some (w, s + length out)
strtol-IsDecimal k m s w out h is str fuel =
    strtol_integer (signed32 w) k m s out is (signed32-Fits w h) str fuel
    ∙ ap (λ n. some (n, s + length out)) (bits-signed32 w h)
