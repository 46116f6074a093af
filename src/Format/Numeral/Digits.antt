-- ===== src/Format/Numeral/Digits.antt =====
-- What `printnum` prints: padding up to the width, and the numeral of the number.
use mathlib.Core.List.{foldl}
use jos.Prelude.{
  ℕ, zero, suc, ◌+◌, ◌-◌, ◌*◌, ◌/◌, ◌%◌, ◌^◌, ◌≤◌, ◌<◌, ◌≡◌, ◌≢◌, inl, inr, refl, ap, ◌∙◌, sym,
  List, [], ◌∷◌, ◌++◌, append_assoc, length, length-append, replicate, get_or, leb, ◌==◌, ==_iff,
  Bool-cases, if◌then◌else◌, arith, true, false,
}
use native.Mathlib.Nat.{zero-add, pow-suc}
use jos.Prelude.Table.{all_below, all_below_at}
use jos.Prelude.Int.{ℤ, pos, negsuc, pos_part, ◌-ℤ◌}
use jos.Format.{Result, ok}
use jos.Format.Numeral.{digit_chars, pad_before, printnum}

-- The number that a digit character stands for.
abbrev pub digit_value : ℕ → ℕ
digit_value c = if leb b'a' c then c - (b'a' - 10) else c - b'0'

-- The number that a text of digits spells, read behind `acc`.
abbrev pub value : ℕ → ℕ → List ℕ → ℕ
value base = foldl (λ n c. n * base + digit_value c)

abbrev pub AllDigits : ℕ → List ℕ → Type 0
AllDigits base [] = Unit {0}
AllDigits base (c ∷ ds) =
    (digit_value c < base) × (c ≡ get_or digit_chars (digit_value c) 0) × AllDigits base ds

-- `ds` is the numeral of `num`: at least one digit, and no 0 in front but that of 0 itself.
pub record IsNumeral (base num : ℕ) (ds : List ℕ) : Type 0 where
  pub some_digit : 0 < length ds
  pub digits : AllDigits base ds
  pub spells : value base 0 ds ≡ num
  pub leading : num ≢ 0 → get_or ds 0 0 ≢ b'0'

digit_table : all_below 16 (λ d. digit_value (get_or digit_chars d 0) == d) ≡ true
unfolding all_below
digit_table = refl

pub digit_value_char : (d : ℕ) → d < 16 → digit_value (get_or digit_chars d 0) ≡ d
digit_value_char d h =
    (==_iff _ d).0
      (all_below_at 16 (λ d. digit_value (get_or digit_chars d 0) == d) d digit_table h)

value-append :
    (base acc c : ℕ) (ds : List ℕ)
    → value base acc (ds ++ c ∷ []) ≡ value base acc ds * base + digit_value c
value-append base acc c [] = refl
value-append base acc c (d ∷ ds) = value-append base (acc * base + digit_value d) c ds

AllDigits-append :
    (base d : ℕ) (ds : List ℕ)
    → d < base
    → base ≤ 16
    → AllDigits base ds
    → AllDigits base (ds ++ get_or digit_chars d 0 ∷ [])
AllDigits-append base d [] lt le h =
    let e = digit_value_char d (omega arith) in
    (rw e lt, ap (λ x. get_or digit_chars x 0) (sym e), tt)
AllDigits-append base d (c ∷ ds) lt le (h, h', rest) =
    (h, h', AllDigits-append base d ds lt le rest)

char_nonzero : (d : ℕ) → d < 16 → d ≢ 0 → get_or digit_chars d 0 ≢ b'0'
char_nonzero d lt ne e = ne (sym (digit_value_char d lt) ∙ ap (λ c. digit_value c) e)

IsNumeral-one :
    (base num : ℕ) → num < base → base ≤ 16 → IsNumeral base num (get_or digit_chars num 0 ∷ [])
IsNumeral-one base num lt le = record {
  some_digit = omega arith;
  digits = AllDigits-append base num [] lt le tt;
  spells =
      ap (λ (n : ℕ). n + digit_value (get_or digit_chars num 0)) (omega arith)
      ∙ zero-add _
      ∙ digit_value_char num (omega arith);
  leading = char_nonzero num (omega arith);
}

get_or-append : (ds es : List ℕ) → 0 < length ds → get_or (ds ++ es) 0 0 ≡ get_or ds 0 0
get_or-append [] es h = absurd (omega arith)
get_or-append (c ∷ ds) es h = refl

IsNumeral-append :
    (base num : ℕ) (ds : List ℕ)
    → 2 ≤ base
    → base ≤ 16
    → base ≤ num
    → IsNumeral base (num / base) ds
    → IsNumeral base num (ds ++ get_or digit_chars (num % base) 0 ∷ [])
IsNumeral-append base num ds two le big h = record {
  some_digit = omega (arith, length-append ds (get_or digit_chars (num % base) 0 ∷ []));
  digits = AllDigits-append base (num % base) ds (grind arith) le h.digits;
  spells =
      value-append base 0 (get_or digit_chars (num % base) 0) ds
      ∙ rw (h.spells, digit_value_char (num % base) (grind arith)) (grind arith);
  leading = λ ne.
      rw (get_or-append ds (get_or digit_chars (num % base) 0 ∷ []) h.some_digit)
        (h.leading (grind arith));
}

pub pad_before-replicate : (w : ℤ) (c : ℕ) → pad_before w c ≡ replicate (pos_part w - 1) c
unfolding pad_before
pad_before-replicate (pos zero) c = refl
pad_before-replicate (pos (suc zero)) c = refl
pad_before-replicate (pos (suc (suc n))) c =
    ap (λ l. c ∷ l) (pad_before-replicate (pos (suc n)) c)
    ∙ ap (λ k. replicate k c) {x = suc (suc n - 1)} {y = suc (suc n) - 1} (omega arith)
pad_before-replicate (negsuc n) c = refl

pos_part_pred : (w : ℤ) → pos_part (w -ℤ pos 1) ≡ pos_part w - 1
unfolding ◌-ℤ◌
pos_part_pred w = ground arith

-- What a call of `printnum` is to return.
abbrev pub Prints : ℕ → ℕ → ℤ → ℕ → Result (List ℕ) → Type 0
Prints num base width padc r =
    (ds : List ℕ) × (r ≡ ok (replicate (pos_part width - length ds) padc ++ ds))
    × IsNumeral base num ds

printnum_last :
    (k num base : ℕ) (width : ℤ) (padc : ℕ)
    → base ≤ 16
    → leb base num ≡ false
    → Prints num base width padc (printnum (suc k) num base width padc)
unfolding printnum
printnum_last k num base width padc le small =
    let lt : num < base = ground arith in
    let same : num % base ≡ num = grind arith in
    (
      get_or digit_chars num 0 ∷ [],
      rw (small, same, pad_before-replicate width padc),
      IsNumeral-one base num lt le,
    )

printnum_more :
    (k num base : ℕ) (width : ℤ) (padc : ℕ)
    → 2 ≤ base
    → base ≤ 16
    → leb base num ≡ true
    → Prints
        (num / base)
        base
        (width -ℤ pos 1)
        padc
        (printnum k (num / base) base (width -ℤ pos 1) padc)
    → Prints num base width padc (printnum (suc k) num base width padc)
unfolding printnum
printnum_more k num base width padc two le big (ds, run, is) =
    let c = get_or digit_chars (num % base) 0 in
    (
      ds ++ c ∷ [],
      rw (big, run)
          (ap ok (
            append_assoc (replicate (pos_part (width -ℤ pos 1) - length ds) padc) ds (c ∷ [])
            ∙ ap (λ n. replicate n padc ++ (ds ++ c ∷ []))
                (omega (arith, pos_part_pred width, length-append ds (c ∷ []))))),
      IsNumeral-append base num ds two le (ground arith) is,
    )

half_fits : (k num base : ℕ) → 2 ≤ base → num < 2 ^ suc k → num / base < 2 ^ k
half_fits k num base two fits = omega (arith, double, below, pow-suc 2 k)
  where
    double : num / base * 2 ≤ num / base * base
    double = grind arith

    below : num / base * base ≤ num
    below = grind arith

-- For a base of 2 to 16 and a number below `2 ^ k`, `k` rounds of fuel are enough, and `printnum`
-- puts the numeral of the number in that base, behind the pad characters that are missing to the
-- width.
pub printnum_lem :
    (k num base : ℕ) (width : ℤ) (padc : ℕ)
    → 2 ≤ base
    → base ≤ 16
    → 0 < k
    → num < 2 ^ k
    → Prints num base width padc (printnum k num base width padc)
printnum_lem zero num base width padc two le fuel fits = absurd (omega arith)
printnum_lem (suc zero) num base width padc two le fuel fits =
    printnum_last 0 num base width padc le (ground arith)
printnum_lem (suc (suc k)) num base width padc two le fuel fits = elim (Bool-cases (leb base num)) [
  | inl big ↦ printnum_more (suc k) num base width padc two le big (
      printnum_lem (suc k) (num / base) base (width -ℤ pos 1) padc two le (omega arith)
        (half_fits (suc k) num base two fits))
  | inr small ↦ printnum_last (suc k) num base width padc le small
]
