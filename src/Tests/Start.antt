-- ===== src/Tests/Start.antt =====
-- The console set up on a colour screen without a serial port.
use jos.Prelude.{ℕ, Bool, ◌≡◌, [], replicate, length-replicate, arith}
use jos.Format.{ok}
use jos.Format.Vprintfmt.{Literals}
use jos.Console.Output.{Machine}
use jos.Console.Setup.{Hardware, cons_init}
use jos.Console.Setup.Ready.{IsTextMode, IsReady, cons_init-IsReady}
use jos.Tests.Memory.{holding}

abbrev literals : Literals
literals = record { null_text = 0; error_string = λ e. 0 }

-- The cursor is on the tenth row.
abbrev pub hardware : Hardware
hardware = record {
  cga_cells = replicate 2000 0x0720;
  mono_cells = replicate 2000 0;
  read_back = 0xA55A;
  cursor_high = 3;
  cursor_low = 32;
  line_status = 0xFF;
}

pub hardware-IsTextMode : IsTextMode hardware
hardware-IsTextMode = record {
  cga_size = length-replicate {A = ℕ} 2000 0x0720;
  mono_size = length-replicate {A = ℕ} 2000 0;
  low_byte = omega arith;
  on_screen = omega arith;
}

cons_init-IsReady_example :
    (exists : Bool) × (s : Machine) × (cons_init literals 40 (holding "") hardware []
      ≡ ok (exists, s))
    × IsReady hardware exists s
cons_init-IsReady_example =
    cons_init-IsReady literals 40 (holding "") hardware [] hardware-IsTextMode (omega arith)
