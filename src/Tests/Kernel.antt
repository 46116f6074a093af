-- ===== src/Tests/Kernel.antt =====
-- The information on the kernel, a format that ends, and the start of the kernel.
use jos.Prelude.{ℕ, Bool, ◌≡◌, ◌++◌, List, [], ◌∷◌, refl, arith}
use jos.Prelude.Int.{pos, negsuc}
use jos.Memory.{Mem, filled}
use jos.Format.{ok}
use jos.Format.Numeral.Digits.{IsNumeral}
use jos.Format.Numeral.Padded.{hex_digits}
use jos.Format.Vprintfmt.{vprintfmt}
use jos.Format.Vprintfmt.Ends.{Finishes}
use jos.Format.Vprintfmt.Pieces.{IsLiteral}
use jos.Format.Vprintfmt.Total.{vprintfmt-Ends}
use jos.Console.Crt.Bounds.{IsValid}
use jos.Console.Output.{Machine}
use jos.Console.Output.Sent.{serial, echoed}
use jos.Console.Cprintf.Printed.{Prints}
use jos.Console.Setup.{cons_init}
use jos.Console.Setup.Ready.{IsReady}
use jos.Debuginfo.{initial, debuginfo_eip}
use jos.Monitor.{ran, mon_kerninfo, monitor}
use jos.Monitor.Backtrace.{frame_word, heading}
use jos.Monitor.Backtrace.Frames.{Chain, concat}
use jos.Monitor.Backtrace.Shown.{IsFound, AreFound, AreShown}
use jos.Monitor.Kerninfo.Lines.{Linked, kilobytes}
use jos.Monitor.Kerninfo.{kerninfo_text, mon_kerninfo_lem}
use jos.Init.{i386_init}
use jos.Init.Nested.{Nested}
use jos.Init.Start.{cleared, octal_line, i386_init_lem}
use jos.Tests.Memory.{no_frames, codes, holding}
use jos.Tests.Commands.{literals, machine, machine-IsValid, names, symbols, tables, stack}
use jos.Tests.Start.{hardware, hardware-IsTextMode}

pub symbols-Linked : Linked symbols
symbols-Linked = record {
  start_fits = omega arith;
  above = omega arith;
  code = omega arith;
  data_part = omega arith;
  bss = omega arith;
  end_fits = omega arith;
}

mon_kerninfo_lem_example :
    (ds : List ℕ) × (s' : Machine) × IsNumeral 10 (kilobytes symbols) ds
    × (mon_kerninfo literals tables names symbols no_frames 64 stack machine
        ≡ ok (ran (pos 0) stack s'))
    × (serial s'.written ≡ [] ++ echoed (kerninfo_text symbols ds))
    × IsValid s'.crt
mon_kerninfo_lem_example =
    mon_kerninfo_lem literals tables names symbols no_frames 64 stack symbols-Linked (omega arith)
      machine (omega arith, omega arith) machine-IsValid

-- What the command prints, as it stands on the screen
kerninfo_printed :
    kerninfo_text symbols (codes "75")
    ≡ codes "Special kernel symbols:\n"
      ++ codes "  _start                  0010000c (phys)\n"
      ++ codes "  entry  f010000c (virt)  0010000c (phys)\n"
      ++ codes "  etext  f0101a00 (virt)  00101a00 (phys)\n"
      ++ codes "  edata  f0112300 (virt)  00112300 (phys)\n"
      ++ codes "  end    f0112960 (virt)  00112960 (phys)\n"
      ++ codes "Kernel executable memory footprint: 75KB\n"
unfolding hex_digits
kerninfo_printed = refl

-- A string at 100
abbrev described : Mem
described = holding "help"

-- A format with all kinds of escapes, on a string of four bytes and words
vprintfmt-Ends_example : Finishes (
    vprintfmt literals 60 described
      (codes "%-8s|%5d|%#x|%e|%z|%.*s")
      (100 ∷ 7 ∷ 255 ∷ 3 ∷ 2 ∷ 100 ∷ []))
vprintfmt-Ends_example =
    vprintfmt-Ends literals described 20 ((0, omega arith, refl), λ e ne. absurd (ne refl)) 60
      (codes "%-8s|%5d|%#x|%e|%z|%.*s") (100 ∷ 7 ∷ 255 ∷ 3 ∷ 2 ∷ 100 ∷ [])
      (
        omega arith,
        (4, omega arith, refl),
        (
          omega arith,
          (0, omega arith, refl),
          (
            omega arith,
            (0, omega arith, refl),
            (
              omega arith,
              (0, omega arith, refl),
              (omega arith, (0, omega arith, refl), (omega arith, (4, omega arith, refl), tt)),
            ),
          ),
        ),
      )
      (omega arith)

-- The stack in the memory with a cleared BSS
abbrev booted : Mem
booted = cleared symbols stack

unknown-IsLiteral : IsLiteral 90 booted 100 (codes "<unknown>")
unfolding filled
unknown-IsLiteral = record {
  nonnull = omega arith;
  spelled = omega arith;
  ascii = omega arith;
  short = omega arith;
  sized = omega arith;
}

inner-IsFound : IsFound tables 90 booted 1000
unfolding debuginfo_eip frame_word filled
inner-IsFound = record {
  words = omega arith;
  value = negsuc 0;
  info = initial tables 0xf0100040;
  looked_up = refl;
  file = codes "<unknown>";
  file_at = unknown-IsLiteral;
  name = codes "<unknown>";
  name_at = unknown-IsLiteral;
  line_fits = omega arith;
  len_fits = omega arith;
}

outer-IsFound : IsFound tables 90 booted 2000
unfolding debuginfo_eip frame_word filled
outer-IsFound = record {
  words = omega arith;
  value = negsuc 0;
  info = initial tables 0xf0100008;
  looked_up = refl;
  file = codes "<unknown>";
  file_at = unknown-IsLiteral;
  name = codes "<unknown>";
  name_at = unknown-IsLiteral;
  line_fits = omega arith;
  len_fits = omega arith;
}

two_frames : Chain booted 1000 (1000 ∷ 2000 ∷ [])
unfolding frame_word filled
two_frames = (refl, omega arith, (refl, omega arith, refl))

found : AreFound tables 90 booted (1000 ∷ 2000 ∷ [])
found = (inner-IsFound, (outer-IsFound, tt))

-- The frames are in the memory from the start.
abbrev deep : Mem → Mem
deep m = m

i386_init_lem_example :
    (exists : Bool) × (s : Machine) × (texts : List (List ℕ)) × (out : List ℕ) × (s' : Machine)
    × (cons_init literals 90 booted hardware [] ≡ ok (exists, s))
    × IsReady hardware exists s
    × AreShown tables 90 booted (1000 ∷ 2000 ∷ []) found texts
    × Nested (heading ++ concat texts) 5 out
    × Prints (octal_line ++ out) s s'
    × IsValid s'.crt
    × (i386_init literals tables names symbols no_frames 90 1000 deep 3 hardware [] [] stack
        ≡ monitor literals tables names symbols no_frames 90 3 [] booted s')
i386_init_lem_example =
    i386_init_lem literals tables names symbols 1000 deep no_frames 90 3 hardware [] [] stack
      (1000 ∷ 2000 ∷ []) (omega arith) (omega arith) hardware-IsTextMode two_frames found
      (omega arith) (omega arith)
