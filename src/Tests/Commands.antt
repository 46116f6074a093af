-- ===== src/Tests/Commands.antt =====
-- The kernel monitor on small lines, and a backtrace of two frames.
use jos.Prelude.{
  ℕ, ◌≡◌, ◌≢◌, ◌++◌, List, [], ◌∷◌, get_or, replicate, length-replicate, refl, ◌==◌, if◌then◌else◌,
  arith,
}
use jos.Prelude.Int.{pos, negsuc}
use jos.Memory.{Mem, SameOutside}
use jos.Format.{ok}
use jos.Format.Numeral.Padded.{hex_digits}
use jos.Format.Vprintfmt.Pieces.{IsLiteral}
use jos.Format.Vprintfmt.{Literals, vprintfmt, escape}
use jos.Console.Crt.Bounds.{IsValid}
use jos.Console.Output.{Machine}
use jos.Console.Output.Sent.{serial, echoed}
use jos.Debuginfo.{Tables, initial, debuginfo_eip}
use jos.Monitor.Tokens.{split}
use jos.Monitor.Tokens.Words.{words, words_from}
use jos.Monitor.Tokens.Argv.{Strings, Stored, Leaves, split-words}
use jos.Monitor.Backtrace.{traced, frame_word, mon_backtrace, heading, place_format, place_args}
use jos.Monitor.Backtrace.Frames.{Chain, concat}
use jos.Monitor.Backtrace.Lines.{frame_line}
use jos.Monitor.Backtrace.Shown.{IsFound, AreShown, mon_backtrace_lem}
use jos.Monitor.{Names, Symbols, left, runcmd, monitor}
use jos.Monitor.Tokens.Places.{AllFrom}
use jos.Monitor.Dispatch.{respond, runcmd_lem}
use jos.Monitor.Run.{monitor_stays}
use jos.Init.{test_backtrace}
use jos.Init.Nested.{Nested, test_backtrace_lem}
use jos.Tests.Memory.{no_frames, codes, holding}

abbrev pub literals : Literals
literals = record { null_text = 0; error_string = λ e. 0 }

abbrev pub machine : Machine
machine = record {
  crt = record { buf = replicate 2000 0x0720; pos = 0; bg = 0; fg = 0 };
  addr_6845 = 0x3D4;
  written = [];
}

pub machine-IsValid : IsValid machine.crt
machine-IsValid = record { cells = length-replicate {A = ℕ} 2000 0x0720; on = omega arith }

-- A line at 100, the names of the commands from 109 on, and the whitespace at 133.
abbrev memory : Mem
memory = holding " help me\0help\0kerninfo\0backtrace\0\t\r\n "

abbrev pub names : Names
names = record {
  help_name = 109;
  help_desc = 113;
  kerninfo_name = 114;
  kerninfo_desc = 113;
  backtrace_name = 123;
  backtrace_desc = 113;
  whitespace = 133;
  prompt = 0;
  line_buf = 4096;
}

abbrev pub symbols : Symbols
symbols = record {
  start_label = 0x10000c;
  entry = 0xf010000c;
  etext = 0xf0101a00;
  edata = 0xf0112300;
  end = 0xf0112960;
}

abbrev pub tables : Tables
tables = record {
  stabs = λ i. record { n_strx = 0; n_type = 0; n_other = 0; n_desc = 0; n_value = 0 };
  count = 0;
  stabstr = 0;
  stabstr_end = 0;
  unknown = 100;
}

two_words : words (codes " help me") ≡ codes "help" ∷ codes "me" ∷ []
unfolding words_from
two_words = refl

split-words_example :
    (m' : Mem) × (argv : List ℕ) × Leaves memory m' 100 8
      (words (codes " help me"))
      argv
      (split 10 133 10 memory 100 [])
split-words_example =
    split-words 10 133 (omega arith) memory 100 (codes " help me") (omega arith) (omega arith)
      (omega arith) (omega arith)

runcmd_lem_example :
    (m' : Mem) × (argv : List ℕ) × (runcmd literals tables names symbols no_frames 20 memory 100
        machine
      ≡ respond literals tables names symbols no_frames 20 m'
          (get_or argv 0 0)
          (words (codes " help me"))
          machine)
    × Stored
        (words (codes " help me"))
        (Strings m' argv (words (codes " help me")) × AllFrom 100 argv)
    × SameOutside m' memory 100 8
runcmd_lem_example =
    runcmd_lem literals tables names symbols no_frames 20 (omega arith) memory 100
      (codes " help me") machine (omega arith)
      record {
        help_named = omega arith;
        kerninfo_named = omega arith;
        backtrace_named = omega arith;
        whitespace_named = omega arith;
      }
      record {
        help_clear = omega arith;
        kerninfo_clear = omega arith;
        backtrace_clear = omega arith;
        whitespace_clear = omega arith;
      }
      (omega arith)

monitor_stays_example :
    monitor literals tables names symbols no_frames 20 3 (pos b'x' ∷ pos 13 ∷ []) memory machine
    ≢ ok (left machine)
monitor_stays_example =
    monitor_stays literals tables names symbols no_frames 20 3 (pos b'x' ∷ pos 13 ∷ []) memory
      machine machine

-- Frames at 1000 and 2000, with the return addresses 0xf0100040 and 0xf0100008.
abbrev pub stack : Mem
stack a =
    if a == 1000
    then 0xD0
    else if a == 1001
    then 7
    else if a == 1004
    then 0x40
    else if a == 1006
    then 0x10
    else if a == 1007
    then 0xF0
    else if a == 2004
    then 8
    else if a == 2006
    then 0x10
    else if a == 2007
    then 0xF0
    else holding "<unknown>" a

unknown-IsLiteral : IsLiteral 90 stack 100 (codes "<unknown>")
unknown-IsLiteral = record {
  nonnull = omega arith;
  spelled = omega arith;
  ascii = omega arith;
  short = omega arith;
  sized = omega arith;
}

inner-IsFound : IsFound tables 90 stack 1000
unfolding debuginfo_eip frame_word
inner-IsFound = record {
  words = omega arith;
  value = negsuc 0;
  info = initial tables 0xf0100040;
  looked_up = refl;
  file = codes "<unknown>";
  file_at = unknown-IsLiteral;
  name = codes "<unknown>";
  name_at = unknown-IsLiteral;
  line_fits = omega arith;
  len_fits = omega arith;
}

outer-IsFound : IsFound tables 90 stack 2000
unfolding debuginfo_eip frame_word
outer-IsFound = record {
  words = omega arith;
  value = negsuc 0;
  info = initial tables 0xf0100008;
  looked_up = refl;
  file = codes "<unknown>";
  file_at = unknown-IsLiteral;
  name = codes "<unknown>";
  name_at = unknown-IsLiteral;
  line_fits = omega arith;
  len_fits = omega arith;
}

two_frames : Chain stack 1000 (1000 ∷ 2000 ∷ [])
unfolding frame_word
two_frames = (refl, omega arith, (refl, omega arith, refl))

mon_backtrace_lem_example :
    (texts : List (List ℕ)) × (s' : Machine) × AreShown tables 90 stack
      (1000 ∷ 2000 ∷ [])
      (inner-IsFound, (outer-IsFound, tt))
      texts
    × (mon_backtrace literals tables 90 stack 1000 machine ≡ ok (traced s'))
    × (serial s'.written ≡ [] ++ echoed (heading ++ concat texts))
    × IsValid s'.crt
mon_backtrace_lem_example =
    mon_backtrace_lem literals tables 90 stack (omega arith) 1000 (1000 ∷ 2000 ∷ []) machine
      two_frames (inner-IsFound, (outer-IsFound, tt)) (omega arith) (omega arith, omega arith)
      machine-IsValid

test_backtrace_lem_example :
    (texts : List (List ℕ)) × (out : List ℕ) × (s' : Machine) × AreShown tables 90 stack
      (1000 ∷ 2000 ∷ [])
      (inner-IsFound, (outer-IsFound, tt))
      texts
    × (test_backtrace literals tables 1000 90 stack 5 machine ≡ ok (traced s'))
    × Nested (heading ++ concat texts) 5 out
    × (serial s'.written ≡ [] ++ echoed out)
    × IsValid s'.crt
test_backtrace_lem_example =
    test_backtrace_lem literals tables 1000 90 stack (1000 ∷ 2000 ∷ []) 5 machine two_frames
      (inner-IsFound, (outer-IsFound, tt)) (omega arith) (omega arith) (omega arith)
      (omega arith, omega arith) machine-IsValid

-- The two lines of the inner frame
inner_words :
    frame_line stack 1000
    ≡ codes "  ebp 000003e8  eip f0100040  args 00000000 00000000 00000000 00000000 00000000\n"
unfolding frame_word hex_digits
inner_words = refl

inner_place :
    vprintfmt literals 90 stack place_format (place_args 0xf0100040 (initial tables 0xf0100040))
    ≡ ok (codes "        <unknown>:0: <unknown>+0\n")
unfolding vprintfmt escape
inner_place = refl

-- The first message of the kernel
octal :
    vprintfmt literals 40 memory (codes "6828 decimal is %o octal!\n") (6828 ∷ [])
    ≡ ok (codes "6828 decimal is 15254 octal!\n")
unfolding vprintfmt escape
octal = refl
