-- ===== src/Tests/Panics.antt =====
-- A panic with a message, and a second one.
use jos.Prelude.{ℕ, ◌≡◌, ◌++◌, refl, List, [], ◌∷◌, arith}
use jos.Memory.{Mem}
use jos.Format.{ok, ◌>>=◌}
use jos.Format.Numeral.Digits.{IsNumeral}
use jos.Format.Vprintfmt.{vprintfmt, escape}
use jos.Format.Vprintfmt.Pieces.{IsLiteral}
use jos.Console.Crt.Bounds.{IsValid}
use jos.Console.Output.{Machine}
use jos.Console.Cprintf.Printed.{Prints}
use jos.Monitor.{monitor}
use jos.Init.{panic}
use jos.Init.Panic.{place, panic_lem}
use jos.Tests.Memory.{no_frames, codes, holding}
use jos.Tests.Commands.{literals, machine, machine-IsValid, names, symbols, tables}

abbrev memory : Mem
memory = holding "kern/env.c"

file-IsLiteral : IsLiteral 60 memory 100 (codes "kern/env.c")
file-IsLiteral = record {
  nonnull = omega arith;
  spelled = omega arith;
  ascii = omega arith;
  short = omega arith;
  sized = omega arith;
}

put : vprintfmt literals 80 memory (codes "bad %d") (5 ∷ []) ≡ ok (codes "bad 5")
unfolding vprintfmt escape
put = refl

panic_lem_example :
    (ds : List ℕ) × (s' : Machine) × IsNumeral 10 42 ds
    × Prints
        (place (codes "kernel panic at ") (codes "kern/env.c") ds ++ (codes "bad 5" ++ codes "\n"))
        machine
        s'
    × IsValid s'.crt
    × (panic literals tables names symbols no_frames 80 3 0 100 42 200
          (codes "bad %d")
          (5 ∷ [])
          []
          memory
          machine
        ≡ (monitor literals tables names symbols no_frames 80 3 [] memory s' >>= λ session.
            ok (200, session)))
    × (panic literals tables names symbols no_frames 80 3 7 100 42 200
          (codes "bad %d")
          (5 ∷ [])
          []
          memory
          machine
        ≡ (monitor literals tables names symbols no_frames 80 3 [] memory machine >>= λ session.
            ok (7, session)))
panic_lem_example =
    panic_lem literals tables names symbols no_frames 80 memory 100 42 (codes "kern/env.c")
      (codes "bad %d") (5 ∷ []) (codes "bad 5") machine file-IsLiteral (omega arith) put
      (omega arith) (omega arith, omega arith) machine-IsValid 3 200 7 [] (omega arith)
