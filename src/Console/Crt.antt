-- ===== src/Console/Crt.antt =====
-- The text screen of kern/console.c: the attribute bytes and what a character does to the cells.
pub mod Bounds
pub mod Cells
use jos.Prelude.{
  ℕ, zero, suc, ◌+◌, ◌-◌, ◌*◌, ◌/◌, ◌%◌, ◌^◌, ◌&&◌, List, ◌++◌, set, take, drop, ◌==◌, ltb, leb,
  if◌then◌else◌, bit_or,
}

abbrev pub crt_cols : ℕ
crt_cols = 80

abbrev pub crt_size : ℕ
crt_size = 25 * crt_cols

-- `crt_buf`, a cell of 16 bits for each place, `crt_pos`, and the colours.
pub record Crt : Type 0 where
  pub buf : List ℕ
  pub pos : ℕ
  pub bg : ℕ
  pub fg : ℕ

unfoldable pub cga_set_bg : ℕ → Crt → Crt
cga_set_bg bg s = record s { bg = bg }

unfoldable pub cga_set_fg : ℕ → Crt → Crt
cga_set_fg fg s = record s { fg = fg }

unfoldable pub cga_reset : Crt → Crt
cga_reset s = record s { fg = 0; bg = 0 }

-- The character with its attribute: `CGA_COLOR_GRAY` on `CGA_COLOR_BLACK` if no colour is set.
unfoldable pub attributed : Crt → ℕ → ℕ
attributed s c =
    if s.bg == 0 && s.fg == 0
    then bit_or c (bit_or (7 * 2 ^ 8) (0 * 2 ^ 12))
    else bit_or c (bit_or (s.fg * 2 ^ 8) (s.bg * 2 ^ 12))

-- The cases of the switch for an attributed character, but for the tab. A cell takes the low 16 bits.
unfoldable pub put_cell : ℕ → Crt → Crt
put_cell c s =
    if c % 2 ^ 8 == 8
    then (if ltb 0 s.pos
        then record s {
          buf = set s.buf (s.pos - 1) (bit_or (c / 2 ^ 8 * 2 ^ 8) b' ' % 2 ^ 16);
          pos = s.pos - 1;
        }
        else s)
    else if c % 2 ^ 8 == 10
    then (let pos = (s.pos + crt_cols) % 2 ^ 16 in record s { pos = pos - pos % crt_cols })
    else if c % 2 ^ 8 == 13
    then record s { pos = s.pos - s.pos % crt_cols }
    else record s { buf = set s.buf s.pos (c % 2 ^ 16); pos = (s.pos + 1) % 2 ^ 16 }

-- `memmove` of the last 24 rows to the top, and the loop that blanks the last row.
unfoldable pub moved_up : List ℕ → List ℕ
moved_up buf = take (crt_size - crt_cols) (drop crt_cols buf) ++ drop (crt_size - crt_cols) buf

unfoldable pub blank_loop : ℕ → ℕ → List ℕ → List ℕ
blank_loop zero i buf = buf
blank_loop (suc n) i buf = blank_loop n (i + 1) (set buf i 0x0720)

unfoldable pub scroll : Crt → Crt
unfolding moved_up blank_loop
scroll s =
    if leb crt_size s.pos
    then record s {
      buf = blank_loop crt_cols (crt_size - crt_cols) (moved_up s.buf);
      pos = s.pos - crt_cols;
    }
    else s
