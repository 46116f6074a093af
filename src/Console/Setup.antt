-- ===== src/Console/Setup.antt =====
-- `cons_init` of kern/console.c with `cga_init` and `serial_init`, and the input from the serial port.
-- What the hardware answers to reads is the record `Hardware`.
pub mod Ready
use jos.Prelude.{
  ℕ, ◌+◌, ◌*◌, ◌/◌, ◌%◌, ◌^◌, Bool, not, Option, none, some, List, [], ◌∷◌, ◌++◌, set, get_or, ◌==◌,
  if◌then◌else◌, bit_and, bit_or,
}
use jos.Prelude.Texts.{codes}
use jos.Memory.{Mem}
use jos.Format.{Result, ok, ◌>>=◌}
use jos.Format.Vprintfmt.{Literals}
use jos.Console.Output.{Outb, outb, Machine}
use jos.Console.Cprintf.{cprintf}
use jos.Console.Ring.{Cons, cons_intr}

-- The cells of the two text buffers, what the first cell of the colour buffer reads after 0xA55A has
-- been written to it, the registers 14 and 15 of the 6845, and the line status of the serial port.
pub record Hardware : Type 0 where
  pub cga_cells : List ℕ
  pub mono_cells : List ℕ
  pub read_back : ℕ
  pub cursor_high : ℕ
  pub cursor_low : ℕ
  pub line_status : ℕ

abbrev pub mono_base : ℕ
mono_base = 0x3B4

abbrev pub cga_base : ℕ
cga_base = 0x3D4

-- `addr_6845` and the buffer that is chosen
choose_buffer : Hardware → ℕ × List ℕ
choose_buffer hw =
    let was = get_or hw.cga_cells 0 0 in
    let probed = set hw.cga_cells 0 0xA55A in
    if not (hw.read_back == 0xA55A)
    then (mono_base, hw.mono_cells)
    else (cga_base, set probed 0 was)

-- The colours are 0 at the start.
unfoldable pub cga_init : Hardware → List Outb → Machine
unfolding choose_buffer
cga_init hw written =
    let (addr, cells) = choose_buffer hw in
    record {
      crt = record {
        buf = cells;
        pos = bit_or (hw.cursor_high * 2 ^ 8) hw.cursor_low % 2 ^ 16;
        bg = 0;
        fg = 0;
      };
      addr_6845 = addr;
      written = written ++ outb addr 14 ∷ outb addr 15 ∷ [];
    }

-- `serial_exists` and the machine
unfoldable pub serial_init : Hardware → Machine → Bool × Machine
serial_init hw s = (
  not (hw.line_status == 0xFF),
  record s {
    written =
        s.written
        ++ outb (0x3F8 + 2) 0
          ∷ outb (0x3F8 + 3) 0x80
          ∷ outb 0x3F8 (115200 / 9600)
          ∷ outb (0x3F8 + 1) 0
          ∷ outb (0x3F8 + 3) 0x03
          ∷ outb (0x3F8 + 4) 0
          ∷ outb (0x3F8 + 1) 0x01
          ∷ [];
  },
)

abbrev pub no_serial_port : List ℕ
no_serial_port = codes "Serial port does not exist!\n"

-- `kbd_init` does nothing.
unfoldable pub cons_init : Literals → ℕ → Mem → Hardware → List Outb → Result (Bool × Machine)
unfolding cga_init serial_init cprintf
cons_init lits k m hw written =
    let (exists, s) = serial_init hw (cga_init hw written) in
    if not exists
    then (do (cnt, s') ← cprintf lits k m no_serial_port [] s; ok (exists, s'))
    else ok (exists, s)

-- A poll of the serial port: its line status and its receive buffer. The result is `none` for -1.
unfoldable pub serial_proc_data : ℕ × ℕ → Option ℕ
serial_proc_data (status, received) = if bit_and status 1 == 0 then none else some received

-- What `serial_proc_data` returns until it returns -1
serial_values : List (ℕ × ℕ) → List ℕ
unfolding serial_proc_data
serial_values [] = []
serial_values (poll ∷ polls) =
    let rest = serial_values polls in elim (serial_proc_data poll) [ none ↦ [] | some c ↦ c ∷ rest ]

unfoldable pub serial_intr : Bool → List (ℕ × ℕ) → Cons → Cons
unfolding serial_values cons_intr
serial_intr exists polls s = if exists then cons_intr (serial_values polls) s else s
