-- ===== src/Format/Buffer.antt =====
-- `sprintputch`, `vsnprintf` and `snprintf`.
-- The format and the strings that it names are read from the memory before the call: the buffer
-- does not overlap them.
pub mod Laws
use jos.Prelude.{ℕ, ◌+◌, ◌-◌, ◌%◌, ◌^◌, ◌||◌, List, [], ◌∷◌, ◌==◌, ltb, if◌then◌else◌}
use jos.Prelude.Int.{ℤ, pos, negsuc, ltb_ℤ, pos_part}
use jos.Memory.{Mem, store}
use jos.Format.{Result, ok, ◌>>=◌, Args}
use jos.Format.Vprintfmt.{Literals, vprintfmt}

-- `struct sprintbuf`
pub record Sprintbuf : Type 0 where
  pub buf : ℕ
  pub ebuf : ℕ
  pub cnt : ℕ

unfoldable pub sprintputch : ℕ → Sprintbuf → Mem → Sprintbuf × Mem
sprintputch ch b m =
    if ltb b.buf b.ebuf
    then (record b { buf = b.buf + 1; cnt = b.cnt + 1 }, store m b.buf (ch % 2 ^ 8))
    else (record b { cnt = b.cnt + 1 }, m)

-- What `vprintfmt` puts, one character after the other.
unfoldable pub put_all : List ℕ → Sprintbuf → Mem → Sprintbuf × Mem
unfolding sprintputch
put_all [] b m = (b, m)
put_all (ch ∷ out) b m = let (b', m') = sprintputch ch b m in put_all out b' m'

-- `-E_INVAL`
abbrev pub minus_E_inval : ℤ
minus_E_inval = negsuc 2

unfoldable pub vsnprintf : Literals → ℕ → Mem → ℕ → ℤ → List ℕ → Args → Result (ℤ × Mem)
unfolding put_all vprintfmt
vsnprintf lits k m buf n fmt args =
    if buf == 0 || ltb_ℤ n (pos 1) then ok (minus_E_inval, m) else (do
      out ← vprintfmt lits k m fmt args
      let start : Sprintbuf = record { buf = buf; ebuf = buf + pos_part n - 1; cnt = 0 }
      let (b, m') = put_all out start m
      ok (pos b.cnt, store m' b.buf 0))

unfoldable pub snprintf : Literals → ℕ → Mem → ℕ → ℤ → List ℕ → Args → Result (ℤ × Mem)
unfolding vsnprintf
snprintf lits k m buf n fmt args = vsnprintf lits k m buf n fmt args
