-- ===== src/Tests/Printing.antt =====
-- `cprintf` at a concrete format.
use jos.Prelude.{ℕ, ◌≡◌, ◌++◌, [], ◌∷◌, replicate, length-replicate, refl, arith}
use jos.Format.{ok}
use jos.Format.Vprintfmt.{Literals, vprintfmt, escape}
use jos.Console.Crt.Bounds.{IsValid}
use jos.Console.Output.{Machine}
use jos.Console.Output.Sent.{serial, echoed}
use jos.Console.Cprintf.{cprintf}
use jos.Console.Cprintf.Printed.{cprintf_lem}
use jos.Tests.Memory.{codes, holding}

abbrev literals : Literals
literals = record { null_text = 0; error_string = λ e. 0 }

abbrev machine : Machine
machine = record {
  crt = record { buf = replicate 2000 0x0720; pos = 1999; bg = 0; fg = 0 };
  addr_6845 = 0x3D4;
  written = [];
}

puts : vprintfmt literals 20 (holding "") (codes "%d\tK") (42 ∷ []) ≡ ok (codes "42\tK")
unfolding vprintfmt escape
puts = refl

-- The tab reaches the serial port with five spaces behind it.
tab_spaces : echoed (codes "42\tK") ≡ codes "42\t     K"
tab_spaces = refl

cprintf_lem_example :
    (s' : Machine) × (cprintf literals 20 (holding "") (codes "%d\tK") (42 ∷ []) machine
      ≡ ok (0, s'))
    × (serial s'.written ≡ [] ++ echoed (codes "42\tK"))
    × IsValid s'.crt
cprintf_lem_example =
    cprintf_lem literals 20 (holding "") (codes "%d\tK") (42 ∷ []) machine (codes "42\tK") puts
      (omega arith, (omega arith, (omega arith, (omega arith, tt)))) (omega arith, omega arith)
      record { cells = length-replicate {A = ℕ} 2000 0x0720; on = omega arith }
