-- ===== src/Console/Cprintf.antt =====
-- kern/printf.c: `putch`, `vcprintf` and `cprintf` over the console.
pub mod Printed
use jos.Prelude.{ℕ, List, [], ◌∷◌}
use jos.Memory.{Mem}
use jos.Format.{Result, ok, ◌>>=◌, Args}
use jos.Format.Vprintfmt.{Literals, vprintfmt}
use jos.Console.Output.{Machine, cputchar}

-- The `int` that the pointer `cnt` is to. `*cnt++` moves the copy of the pointer and leaves the `int`.
unfoldable pub putch : ℕ → ℕ × Machine → ℕ × Machine
unfolding cputchar
putch ch (cnt, s) = (cnt, cputchar ch s)

unfoldable pub put_each : List ℕ → ℕ × Machine → ℕ × Machine
unfolding putch
put_each [] t = t
put_each (ch ∷ out) t = put_each out (putch ch t)

unfoldable pub vcprintf : Literals → ℕ → Mem → List ℕ → Args → Machine → Result (ℕ × Machine)
unfolding put_each vprintfmt
vcprintf lits k m fmt args s = do out ← vprintfmt lits k m fmt args; ok (put_each out (0, s))

unfoldable pub cprintf : Literals → ℕ → Mem → List ℕ → Args → Machine → Result (ℕ × Machine)
unfolding vcprintf
cprintf lits k m fmt args s = vcprintf lits k m fmt args s
