-- ===== src/Tests/Numbers.antt =====
-- `strtol` at concrete texts.
use jos.Prelude.{◌≡◌, ◌+◌, length, some, refl, arith}
use jos.Format.{signed32}
use jos.Format.Vprintfmt.Laws.{IsDecimal}
use jos.Strings.Scan.{strtol}
use jos.Strings.Scan.Decimal.{strtol-IsDecimal}
use jos.Tests.Memory.{codes, holding}

hex : strtol 10 (holding "\t 0x1fz") 100 0 ≡ some (0x1f, 106)
unfolding strtol
hex = refl

minus_two : IsDecimal (signed32 0xfffffffe) (codes "-2")
unfolding signed32
minus_two = record {
  digits = codes "2";
  shape = refl;
  numeral = record {
    some_digit = omega arith;
    digits = (omega arith, refl, tt);
    spells = refl;
    leading = λ ne e. omega arith;
  };
}

strtol-IsDecimal_example :
    strtol 5 (holding "-2") 100 10 ≡ some (0xfffffffe, 100 + length (codes "-2"))
strtol-IsDecimal_example =
    strtol-IsDecimal 5 (holding "-2") 100 0xfffffffe (codes "-2") (omega arith) minus_two
      (omega arith) (omega arith)
