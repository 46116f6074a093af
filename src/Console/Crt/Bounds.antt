-- ===== src/Console/Crt/Bounds.antt =====
-- The cursor stays on the screen, and the screen keeps its size.
use jos.Prelude.{
  ℕ, zero, suc, ◌+◌, ◌-◌, ◌<◌, ◌≡◌, refl, ◌∙◌, List, length, length-set, length-append, length-take,
  length-drop, take, drop, set, arith, ◌*◌, ◌/◌, ◌%◌, ◌^◌, bit_or, leb, Bool-cases, inl, inr,
}
use jos.Console.Crt.{Crt, crt_cols, crt_size, put_cell, moved_up, blank_loop, scroll}

-- Between characters.
pub record IsValid (s : Crt) : Type 0 where
  pub cells : length s.buf ≡ crt_size
  pub on : s.pos < crt_size

-- Between the switch and the scrolling.
pub record IsWritten (s : Crt) : Type 0 where
  pub cells : length s.buf ≡ crt_size
  pub near : s.pos < crt_size + crt_cols

pub put_cell-IsWritten : (c : ℕ) (s : Crt) → IsValid s → IsWritten (put_cell c s)
unfolding put_cell
put_cell-IsWritten c s v = ground (
  arith,
  length-set s.buf (s.pos - 1) (bit_or (c / 2 ^ 8 * 2 ^ 8) b' ' % 2 ^ 16),
  length-set s.buf s.pos (c % 2 ^ 16),
)

length-blank_loop : (n i : ℕ) (buf : List ℕ) → length (blank_loop n i buf) ≡ length buf
unfolding blank_loop
length-blank_loop zero i buf = refl
length-blank_loop (suc n) i buf =
    length-blank_loop n (i + 1) (set buf i 0x0720) ∙ length-set buf i 0x0720

pub length-moved_up : (buf : List ℕ) → length buf ≡ crt_size → length (moved_up buf) ≡ crt_size
unfolding moved_up
length-moved_up buf h = omega (
  arith,
  length-append (take (crt_size - crt_cols) (drop crt_cols buf)) (drop (crt_size - crt_cols) buf),
  length-take (crt_size - crt_cols) (drop crt_cols buf),
  length-drop crt_cols buf,
  length-drop (crt_size - crt_cols) buf,
)

pub scroll-IsValid : (s : Crt) → IsWritten s → IsValid (scroll s)
unfolding scroll
scroll-IsValid s v = elim (Bool-cases (leb crt_size s.pos)) [
  | inl e ↦ rw e (record {
    cells =
        length-blank_loop crt_cols (crt_size - crt_cols) (moved_up s.buf)
        ∙ length-moved_up s.buf v.cells;
    on = ground arith;
  })
  | inr e ↦ rw e (record { cells = v.cells; on = ground arith })
]

pub IsValid-IsWritten : (s : Crt) → IsValid s → IsWritten s
IsValid-IsWritten s v = record { cells = v.cells; near = omega arith }
