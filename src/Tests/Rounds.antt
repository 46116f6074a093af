-- ===== src/Tests/Rounds.antt =====
-- A round of the monitor on a line that names no command.
use jos.Prelude.{
  ℕ, ◌≡◌, ◌++◌, List, [], ◌∷◌, map, get_or, replicate, length-replicate, refl, inr, arith,
}
use jos.Prelude.Int.{pos}
use jos.Memory.{Mem, SameOutside}
use jos.Format.{◌>>=◌}
use jos.Format.Vprintfmt.{Literals}
use jos.Console.Crt.Bounds.{IsValid}
use jos.Console.Output.{Machine}
use jos.Debuginfo.{Tables}
use jos.Readline.Prompt.{IsPrompt, spoken}
use jos.Console.Output.Sent.{put_line}
use jos.Readline.Edit.{pressed, typed}
use jos.Monitor.Tokens.Words.{words}
use jos.Monitor.Tokens.Argv.{Strings, Stored}
use jos.Monitor.Dispatch.{respond}
use jos.Monitor.{Names, Symbols, after_run, command_loop}
use jos.Monitor.Round.{command_loop_lem}
use jos.Tests.Memory.{no_frames, codes, holding}

abbrev literals : Literals
literals = record { null_text = 0; error_string = λ e. 0 }

abbrev machine : Machine
machine = record {
  crt = record { buf = replicate 2000 0x0720; pos = 0; bg = 0; fg = 0 };
  addr_6845 = 0x3D4;
  written = [];
}

-- The names of the commands from 100 on, and the whitespace at 124, with the prompt behind it.
abbrev memory : Mem
memory = holding "help\0kerninfo\0backtrace\0\t\r\n \0K> "

abbrev names : Names
names = record {
  help_name = 100;
  help_desc = 104;
  kerninfo_name = 105;
  kerninfo_desc = 104;
  backtrace_name = 114;
  backtrace_desc = 104;
  whitespace = 124;
  prompt = 129;
  line_buf = 4096;
}

abbrev symbols : Symbols
symbols = record { start_label = 0; entry = 0; etext = 0; edata = 0; end = 0 }

abbrev tables : Tables
tables = record {
  stabs = λ i. record { n_strx = 0; n_type = 0; n_other = 0; n_desc = 0; n_value = 0 };
  count = 0;
  stabstr = 0;
  stabstr_end = 0;
  unknown = 104;
}

abbrev prompt : List ℕ
prompt = codes "K> "

prompt-IsPrompt : IsPrompt 1030 memory 129 prompt
prompt-IsPrompt = spoken (record {
  nonnull = omega arith;
  spelled = omega arith;
  ascii = omega arith;
  short = omega arith;
  sized = omega arith;
})

command_loop_lem_example :
    (m' : Mem) × (argv : List ℕ) × (command_loop literals tables names symbols no_frames 1030 3
        (map pos (codes "ab c") ++ pos 13 ∷ [])
        memory
        machine
      ≡ (respond literals tables names symbols no_frames 1030 m'
            (get_or argv 0 0)
            (words (pressed [] (codes "ab c")))
            (put_line (prompt ++ typed [] (codes "ab c")) machine)
          >>= after_run literals tables names symbols no_frames 1030
              (command_loop literals tables names symbols no_frames 1030 2)
              []))
    × Stored
        (words (pressed [] (codes "ab c")))
        (Strings m' argv (words (pressed [] (codes "ab c"))))
    × IsValid (put_line (prompt ++ typed [] (codes "ab c")) machine).crt
    × SameOutside m' memory 4096 1024
command_loop_lem_example =
    command_loop_lem literals tables names symbols no_frames 1030 (omega arith) 2 prompt
      (codes "ab c") 13 [] memory machine (omega arith) (omega arith) (inr refl)
      record {
        help_named = omega arith;
        kerninfo_named = omega arith;
        backtrace_named = omega arith;
        whitespace_named = omega arith;
      }
      record {
        help_clear = omega arith;
        kerninfo_clear = omega arith;
        backtrace_clear = omega arith;
        whitespace_clear = omega arith;
      }
      prompt-IsPrompt (omega arith, omega arith)
      record { cells = length-replicate {A = ℕ} 2000 0x0720; on = omega arith }
