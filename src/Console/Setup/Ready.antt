-- ===== src/Console/Setup/Ready.antt =====
-- `cons_init` leaves a console on which `cprintf` prints.
use jos.Prelude.{
  ℕ, ◌+◌, ◌*◌, ◌%◌, ◌^◌, ◌<◌, ◌≡◌, ◌⊎◌, refl, ap, ◌∙◌, Bool, true, false, not, List, [], ◌∷◌, set,
  get_or, length, ◌==◌, if◌then◌else◌, bit_or, Bool-cases, inl, inr, arith,
}
use jos.Prelude.Bits.{bit_or_high}
use jos.Memory.{Mem}
use jos.Format.{ok, ◌>>=◌}
use jos.Format.Vprintfmt.{Literals}
use jos.Format.Vprintfmt.Laws.{Plain, vprintfmt_text}
use jos.Console.Crt.{crt_size}
use jos.Console.Crt.Bounds.{IsValid}
use jos.Console.Output.{Outb, Machine}
use jos.Console.Output.Sent.{AllBytes, Apart, put_line}
use jos.Console.Cprintf.Printed.{Prints-Apart, cprintf-Prints}
use jos.Console.Setup.{
  Hardware, mono_base, cga_base, choose_buffer, cga_init, serial_init, no_serial_port, cons_init,
}

-- Both buffers have the cells of a screen, and the cursor is on it.
pub record IsTextMode (hw : Hardware) : Type 0 where
  pub cga_size : length hw.cga_cells ≡ crt_size
  pub mono_size : length hw.mono_cells ≡ crt_size
  pub low_byte : hw.cursor_low < 2 ^ 8
  pub on_screen : hw.cursor_high * 2 ^ 8 + hw.cursor_low < crt_size

-- The probe leaves the colour buffer as it was.
set_back : (l : List ℕ) (v : ℕ) → set (set l 0 v) 0 (get_or l 0 0) ≡ l
set_back [] v = refl
set_back (c ∷ l) v = refl

-- What `cons_init` leaves, and what the functions of the console ask for.
pub record IsReady (hw : Hardware) (exists : Bool) (s : Machine) : Type 0 where
  pub serial_known : exists ≡ not (hw.line_status == 0xFF)
  pub apart : Apart s
  pub valid : IsValid s.crt
  pub unchanged :
      exists ≡ true
      → (s.crt.buf ≡ (if hw.read_back == 0xA55A then hw.cga_cells else hw.mono_cells))
        × (s.crt.pos ≡ hw.cursor_high * 2 ^ 8 + hw.cursor_low)

choose_buffer_lem :
    (hw : Hardware)
    → choose_buffer hw
      ≡ (if hw.read_back == 0xA55A then (cga_base, hw.cga_cells) else (mono_base, hw.mono_cells))
unfolding choose_buffer
choose_buffer_lem hw = elim (Bool-cases (hw.read_back == 0xA55A)) [
  | inl e ↦ rw (choose_buffer, e) (ap (λ l. (cga_base, l)) (set_back hw.cga_cells 0xA55A))
  | inr e ↦ rw (choose_buffer, e) refl
]

chosen_cells :
    (hw : Hardware)
    → (choose_buffer hw).1 ≡ (if hw.read_back == 0xA55A then hw.cga_cells else hw.mono_cells)
chosen_cells hw =
    ap (λ p. p.1) (choose_buffer_lem hw)
    ∙ (elim (Bool-cases (hw.read_back == 0xA55A)) [ inl e ↦ rw e refl | inr e ↦ rw e refl ])

chosen_size : (hw : Hardware) → IsTextMode hw → length (choose_buffer hw).1 ≡ crt_size
chosen_size hw text = ap length (chosen_cells hw) ∙ (elim (Bool-cases (hw.read_back == 0xA55A)) [
  | inl e ↦ rw e text.cga_size
  | inr e ↦ rw e text.mono_size
])

chosen_port :
    (hw : Hardware) → ((choose_buffer hw).0 ≡ cga_base) ⊎ ((choose_buffer hw).0 ≡ mono_base)
chosen_port hw = elim (Bool-cases (hw.read_back == 0xA55A)) [
  | inl e ↦ inl (ap (λ p. p.0) (choose_buffer_lem hw) ∙ rw e refl)
  | inr e ↦ inr (ap (λ p. p.0) (choose_buffer_lem hw) ∙ rw e refl)
]

cursor_at :
    (hw : Hardware)
    → IsTextMode hw
    → bit_or (hw.cursor_high * 2 ^ 8) hw.cursor_low % 2 ^ 16
      ≡ hw.cursor_high * 2 ^ 8 + hw.cursor_low
cursor_at hw text =
    rw (bit_or_high 8 hw.cursor_high hw.cursor_low text.low_byte)
      (let on = text.on_screen in omega arith)

no_serial_port-Plain : Plain no_serial_port
no_serial_port-Plain = ground arith

no_serial_port-AllBytes : AllBytes no_serial_port
no_serial_port-AllBytes = ground arith

module _ (lits : Literals) (k : ℕ) (m : Mem) (hw : Hardware) (written : List Outb)
    (text : IsTextMode hw) where
  abbrev started : Machine
  started = (serial_init hw (cga_init hw written)).1

  started-Apart : Apart started
  unfolding serial_init cga_init
  started-Apart = elim (chosen_port hw) [
    | inl e ↦ rw e (omega arith, omega arith)
    | inr e ↦ rw e (omega arith, omega arith)
  ]

  started-IsValid : IsValid started.crt
  unfolding serial_init cga_init
  started-IsValid = record {
    cells = chosen_size hw text;
    on = let on = text.on_screen in omega (arith, cursor_at hw text);
  }

  -- In text mode, with the cursor on the screen, `cons_init` returns with fuel for the message it may
  -- print, and leaves a valid screen and a 6845 apart from the serial port, as the console's other
  -- functions ask for. If the serial port exists, the cells and the cursor are those that the hardware
  -- had: the probe for the colour buffer leaves no trace.
  pub cons_init-IsReady :
      length no_serial_port < k
      → (exists : Bool) × (s : Machine) × (cons_init lits k m hw written ≡ ok (exists, s))
        × IsReady hw exists s
  unfolding cons_init serial_init cga_init
  cons_init-IsReady fuel = elim (Bool-cases (hw.line_status == 0xFF)) [
    | inl absent ↦
        let (run, prints) =
          cprintf-Prints lits k m no_serial_port [] started no_serial_port
            (vprintfmt_text lits k m no_serial_port [] no_serial_port-Plain fuel)
            no_serial_port-AllBytes started-Apart in
        let s = put_line no_serial_port started in
        (
          false,
          s,
          rw absent (ap (λ r. r >>= λ (cnt, s'). ok (false, s')) run),
          record {
            serial_known = rw absent refl;
            apart = Prints-Apart no_serial_port started s prints started-Apart;
            valid = prints.screen started-IsValid;
            unchanged = λ e. absurd (ground arith);
          },
        )
    | inr present ↦ (
      true,
      started,
      rw present refl,
      record {
        serial_known = rw present refl;
        apart = started-Apart;
        valid = started-IsValid;
        unchanged = λ e. (chosen_cells hw, cursor_at hw text);
      },
    )
  ]
