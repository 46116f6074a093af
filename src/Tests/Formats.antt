-- ===== src/Tests/Formats.antt =====
-- Formats that the kernel uses, run on small memories, and the theorems of `Format` at such inputs.
use jos.Prelude.{ℕ, ◌≡◌, ◌+◌, ◌%◌, ◌^◌, ◌<◌, ◌++◌, refl, List, [], ◌∷◌, get_or, arith}
use jos.Prelude.Int.{pos}
use jos.Memory.{Mem, SameOutside}
use jos.Format.{ok, ◌>>=◌, fresh, signed32}
use jos.Format.Numeral.{printnum}
use jos.Format.Numeral.Digits.{Prints, printnum_lem}
use jos.Format.Text.{to_size, put_text}
use jos.Format.Text.Laws.{put_text_lem, padded, upto}
use jos.Format.Vprintfmt.{Literals, escape, vprintfmt}
use jos.Format.Vprintfmt.Laws.{IsDecimal, vprintfmt-IsDecimal}
use jos.Format.Buffer.{vsnprintf}
use jos.Format.Buffer.Laws.{vsnprintf_lem}
use jos.Tests.Memory.{codes, holding}

abbrev literals : Literals
literals = record { null_text = 0; error_string = λ e. 0 }

backtrace_line :
    vprintfmt literals 40
      (holding "kern/monitor.c")
      (codes "%s:%u: %08x|%-5d|%5d|%q|%%")
      (100 ∷ 143 ∷ 0xf0100 ∷ 0xfffffffe ∷ 12 ∷ [])
    ≡ ok (codes "kern/monitor.c:143: 000f0100|-----2|   12|%q|%")
unfolding vprintfmt escape
backtrace_line = refl

error_line :
    vprintfmt literals 40 (holding "") (codes "read error: %e") (0xfffffff0 ∷ [])
    ≡ ok (codes "read error: error 16")
unfolding vprintfmt escape
error_line = refl

printnum_lem_example : Prints 6828 8 (pos 7) b' ' (printnum 64 6828 8 (pos 7) b' ')
printnum_lem_example =
    printnum_lem 64 6828 8 (pos 7) b' ' (omega arith) (omega arith) (omega arith) (omega arith)

put_text_lem_example :
    put_text 20 (holding "hello") 100 (record fresh { width = pos 8; precision = pos 3 })
    ≡ ok (padded (record fresh { width = pos 8; precision = pos 3 }) (upto (pos 3) (codes "hello")))
unfolding to_size
put_text_lem_example =
    put_text_lem 20 (holding "hello") 100 (record fresh { width = pos 8; precision = pos 3 })
      (codes "hello") (omega arith) (omega arith) (omega arith)

vprintfmt-IsDecimal_example :
    (out : List ℕ) × IsDecimal (signed32 0xfffffffe) out
    × (vprintfmt literals 10 (holding "") (codes "%d\n") (0xfffffffe ∷ [])
        ≡ (vprintfmt literals 9 (holding "") (codes "\n") [] >>= λ rest. ok (out ++ rest)))
vprintfmt-IsDecimal_example =
    vprintfmt-IsDecimal literals 9 (holding "") (codes "\n") 0xfffffffe [] (omega arith)

-- "x=12" into a buffer of 3 bytes.
vsnprintf_lem_example :
    (m' : Mem) × (vsnprintf literals 20 (holding "") 500 (pos 3) (codes "x=%d") (12 ∷ [])
      ≡ ok (pos 4, m'))
    × ((i : ℕ) → i < 2 → m' (500 + i) ≡ get_or (codes "x=12") i 0 % 2 ^ 8)
    × (m' (500 + 2) ≡ 0)
    × SameOutside m' (holding "") 500 3
unfolding vprintfmt escape
vsnprintf_lem_example =
    vsnprintf_lem literals 20 (holding "") 500 (codes "x=%d") (12 ∷ []) 3 (codes "x=12")
      (omega arith) (omega arith) refl
