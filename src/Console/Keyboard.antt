-- ===== src/Console/Keyboard.antt =====
-- The keyboard of kern/console.c: the tables of scan codes and `kbd_proc_data`, and the key codes of
-- inc/kbdreg.h. The characters of a table come first in their order, then the designated entries.
pub mod Keys
use jos.Prelude.{
  ℕ, ◌+◌, ◌-◌, ◌^◌, Bool, false, ◌&&◌, not, Option, none, some, List, [], ◌∷◌, get_or, length, ◌==◌,
  ltb, leb, if◌then◌else◌, bit_and, bit_or, bit_xor,
}
use jos.Console.Ring.{Cons, cons_intr}

abbrev no : ℕ
no = 0

abbrev pub key_home : ℕ
key_home = 0xE0

abbrev key_end : ℕ
key_end = 0xE1

abbrev key_up : ℕ
key_up = 0xE2

abbrev key_dn : ℕ
key_dn = 0xE3

abbrev key_lf : ℕ
key_lf = 0xE4

abbrev key_rt : ℕ
key_rt = 0xE5

abbrev key_pgup : ℕ
key_pgup = 0xE6

abbrev key_pgdn : ℕ
key_pgdn = 0xE7

abbrev key_ins : ℕ
key_ins = 0xE8

abbrev pub key_del : ℕ
key_del = 0xE9

abbrev pub shift_key : ℕ
shift_key = 1

abbrev pub ctl : ℕ
ctl = 2

abbrev pub alt : ℕ
alt = 4

abbrev pub capslock : ℕ
capslock = 8

abbrev pub numlock : ℕ
numlock = 16

abbrev pub scrolllock : ℕ
scrolllock = 32

abbrev pub e0esc : ℕ
e0esc = 64

designated : List (ℕ × ℕ) → ℕ → ℕ
designated [] code = 0
designated ((at, value) ∷ entries) code =
    let rest = designated entries code in if code == at then value else rest

table : List ℕ → List (ℕ × ℕ) → ℕ → ℕ
unfolding designated
table first entries code =
    if ltb code (length first) then get_or first code 0 else designated entries code

unfoldable pub shiftcode : ℕ → ℕ
unfolding designated
shiftcode = designated (
    (0x1D, ctl)
    ∷ (0x2A, shift_key)
    ∷ (0x36, shift_key)
    ∷ (0x38, alt)
    ∷ (0x9D, ctl)
    ∷ (0xB8, alt)
    ∷ [])

unfoldable pub togglecode : ℕ → ℕ
unfolding designated
togglecode = designated ((0x3A, capslock) ∷ (0x45, numlock) ∷ (0x46, scrolllock) ∷ [])

unfoldable pub normalmap : ℕ → ℕ
unfolding table
normalmap =
    table
      (no ∷ 0x1B ∷ b'1' ∷ b'2' ∷ b'3' ∷ b'4' ∷ b'5' ∷ b'6' ∷ b'7' ∷ b'8' ∷ b'9' ∷ b'0' ∷ b'-' ∷ b'='
        ∷ 8 ∷ 9 ∷ b'q' ∷ b'w' ∷ b'e' ∷ b'r' ∷ b't' ∷ b'y' ∷ b'u' ∷ b'i' ∷ b'o' ∷ b'p' ∷ b'[' ∷ b']'
        ∷ 10 ∷ no ∷ b'a' ∷ b's' ∷ b'd' ∷ b'f' ∷ b'g' ∷ b'h' ∷ b'j' ∷ b'k' ∷ b'l' ∷ b';' ∷ 39 ∷ b'`'
        ∷ no ∷ 92 ∷ b'z' ∷ b'x' ∷ b'c' ∷ b'v' ∷ b'b' ∷ b'n' ∷ b'm' ∷ b',' ∷ b'.' ∷ b'/' ∷ no ∷ b'*'
        ∷ no ∷ b' ' ∷ no ∷ no ∷ no ∷ no ∷ no ∷ no ∷ no ∷ no ∷ no ∷ no ∷ no ∷ no ∷ no ∷ b'7' ∷ b'8'
        ∷ b'9' ∷ b'-' ∷ b'4' ∷ b'5' ∷ b'6' ∷ b'+' ∷ b'1' ∷ b'2' ∷ b'3' ∷ b'0' ∷ b'.' ∷ no ∷ no ∷ no
        ∷ no ∷ [])
      ((0xC7, key_home)
        ∷ (0x9C, 10)
        ∷ (0xB5, b'/')
        ∷ (0xC8, key_up)
        ∷ (0xC9, key_pgup)
        ∷ (0xCB, key_lf)
        ∷ (0xCD, key_rt)
        ∷ (0xCF, key_end)
        ∷ (0xD0, key_dn)
        ∷ (0xD1, key_pgdn)
        ∷ (0xD2, key_ins)
        ∷ (0xD3, key_del)
        ∷ [])

unfoldable pub shiftmap : ℕ → ℕ
unfolding table
shiftmap =
    table
      (no ∷ 27 ∷ b'!' ∷ b'@' ∷ b'#' ∷ b'$' ∷ b'%' ∷ b'^' ∷ b'&' ∷ b'*' ∷ b'(' ∷ b')' ∷ b'_' ∷ b'+'
        ∷ 8 ∷ 9 ∷ b'Q' ∷ b'W' ∷ b'E' ∷ b'R' ∷ b'T' ∷ b'Y' ∷ b'U' ∷ b'I' ∷ b'O' ∷ b'P' ∷ b'{' ∷ b'}'
        ∷ 10 ∷ no ∷ b'A' ∷ b'S' ∷ b'D' ∷ b'F' ∷ b'G' ∷ b'H' ∷ b'J' ∷ b'K' ∷ b'L' ∷ b':' ∷ b'"'
        ∷ b'~' ∷ no ∷ b'|' ∷ b'Z' ∷ b'X' ∷ b'C' ∷ b'V' ∷ b'B' ∷ b'N' ∷ b'M' ∷ b'<' ∷ b'>' ∷ b'?'
        ∷ no ∷ b'*' ∷ no ∷ b' ' ∷ no ∷ no ∷ no ∷ no ∷ no ∷ no ∷ no ∷ no ∷ no ∷ no ∷ no ∷ no ∷ no
        ∷ b'7' ∷ b'8' ∷ b'9' ∷ b'-' ∷ b'4' ∷ b'5' ∷ b'6' ∷ b'+' ∷ b'1' ∷ b'2' ∷ b'3' ∷ b'0' ∷ b'.'
        ∷ no ∷ no ∷ no ∷ no ∷ [])
      ((0xC7, key_home)
        ∷ (0x9C, 10)
        ∷ (0xB5, b'/')
        ∷ (0xC8, key_up)
        ∷ (0xC9, key_pgup)
        ∷ (0xCB, key_lf)
        ∷ (0xCD, key_rt)
        ∷ (0xCF, key_end)
        ∷ (0xD0, key_dn)
        ∷ (0xD1, key_pgdn)
        ∷ (0xD2, key_ins)
        ∷ (0xD3, key_del)
        ∷ [])

unfoldable pub ctlmap : ℕ → ℕ
unfolding table
ctlmap =
    table
      (no ∷ no ∷ no ∷ no ∷ no ∷ no ∷ no ∷ no ∷ no ∷ no ∷ no ∷ no ∷ no ∷ no ∷ no ∷ no ∷ 17 ∷ 23 ∷ 5
        ∷ 18 ∷ 20 ∷ 25 ∷ 21 ∷ 9 ∷ 15 ∷ 16 ∷ no ∷ no ∷ 13 ∷ no ∷ 1 ∷ 19 ∷ 4 ∷ 6 ∷ 7 ∷ 8 ∷ 10 ∷ 11
        ∷ 12 ∷ no ∷ no ∷ no ∷ no ∷ 28 ∷ 26 ∷ 24 ∷ 3 ∷ 22 ∷ 2 ∷ 14 ∷ 13 ∷ no ∷ no ∷ 239 ∷ no ∷ no
        ∷ [])
      ((0x97, key_home)
        ∷ (0xB5, 239)
        ∷ (0xC8, key_up)
        ∷ (0xC9, key_pgup)
        ∷ (0xCB, key_lf)
        ∷ (0xCD, key_rt)
        ∷ (0xCF, key_end)
        ∷ (0xD0, key_dn)
        ∷ (0xD1, key_pgdn)
        ∷ (0xD2, key_ins)
        ∷ (0xD3, key_del)
        ∷ [])

-- `charcode[modifiers]`, for two bits
unfoldable pub charcode : ℕ → ℕ → ℕ
unfolding normalmap shiftmap ctlmap
charcode modifiers =
    if modifiers == 0 then normalmap else if modifiers == 1 then shiftmap else ctlmap

-- `~mask` on 32 bits
complement : ℕ → ℕ
complement mask = bit_xor (2 ^ 32 - 1) mask

swap_case : ℕ → ℕ
swap_case c =
    if leb b'a' c && leb c b'z'
    then c - (b'a' - b'A')
    else if leb b'A' c && leb c b'Z'
    then c + (b'a' - b'A')
    else c

-- What a call leaves: the character, the state of the modifiers, and whether it reboots.
pub record Outcome : Type 0 where
  pub c : ℕ
  pub shift : ℕ
  pub reboot : Bool

-- A key is released.
release : ℕ → ℕ → Outcome
unfolding shiftcode complement
release code shift =
    let code' = if bit_and shift e0esc == 0 then bit_and code 0x7F else code in
    record {
      c = 0;
      shift = bit_and shift (complement (bit_or (shiftcode code') e0esc));
      reboot = false;
    }

-- A key is pressed; the escape is already taken off.
press : ℕ → ℕ → Outcome
unfolding shiftcode togglecode charcode complement swap_case
press code shift =
    let shift' = bit_xor (bit_or shift (shiftcode code)) (togglecode code) in
    let c = charcode (bit_and shift' (bit_or ctl shift_key)) code in
    let c' = if bit_and shift' capslock == 0 then c else swap_case c in
    record {
      c = c';
      shift = shift';
      reboot = bit_and (complement shift') (bit_or ctl alt) == 0 && c' == key_del;
    }

-- `kbd_proc_data` behind its checks of the status
unfoldable pub key_event : ℕ → ℕ → Outcome
unfolding release press complement
key_event code shift =
    if code == 0xE0
    then record { c = 0; shift = bit_or shift e0esc; reboot = false }
    else if not (bit_and code 0x80 == 0)
    then release code shift
    else if bit_and shift e0esc == 0
    then press code shift
    else press (bit_or code 0x80) (bit_and shift (complement e0esc))

-- `none` is the result -1: no data, or data from the mouse.
unfoldable pub kbd_proc_data : ℕ → ℕ → ℕ → Option Outcome
unfolding key_event
kbd_proc_data stat code shift =
    if bit_and stat 0x01 == 0
    then none
    else if not (bit_and stat 0x20 == 0)
    then none
    else some (key_event code shift)

-- The values of the calls that `cons_intr` makes until one is -1, and the state behind them;
-- `reads` has the status and the data of each call, whose list ends when no data is left.
unfoldable pub kbd_values : List (ℕ × ℕ) → ℕ → List ℕ × ℕ
unfolding kbd_proc_data
kbd_values [] shift = ([], shift)
kbd_values ((stat, code) ∷ reads) shift = elim (kbd_proc_data stat code shift) [
  | none ↦ ([], shift)
  | some o ↦ let (cs, last) = kbd_values reads o.shift in (o.c ∷ cs, last)
]

unfoldable pub kbd_intr : List (ℕ × ℕ) → ℕ → Cons → ℕ × Cons
unfolding kbd_values
kbd_intr reads shift s = let (cs, last) = kbd_values reads shift in (last, cons_intr cs s)
