-- ===== src/Tests/Answers.antt =====
-- `runcmd` answers a line, and the monitor one that is typed.
use jos.Prelude.{ℕ, ◌≡◌, List, [], ◌∷◌, ◌++◌, map, length-replicate, refl, inr, arith}
use jos.Prelude.Int.{pos}
use jos.Memory.{Mem, SameOutside}
use jos.Format.{ok}
use jos.Console.Crt.Bounds.{IsValid}
use jos.Console.Output.{Machine}
use jos.Readline.Prompt.{IsPrompt, spoken}
use jos.Console.Output.Sent.{put_line}
use jos.Readline.Edit.{pressed, typed}
use jos.Console.Cprintf.Printed.{Prints}
use jos.Monitor.Dispatch.{HasNames}
use jos.Monitor.Help.{Documented}
use jos.Monitor.Tokens.Words.{words, words_from}
use jos.Monitor.{Names, ran, runcmd, command_loop}
use jos.Monitor.Answers.{Reply}
use jos.Monitor.Answers.Line.{NoBacktrace, runcmd-Reply}
use jos.Monitor.Answers.Typed.{command_loop-Reply}
use jos.Tests.Memory.{no_frames, codes, holding}
use jos.Tests.Commands.{literals, machine, symbols, tables}
use jos.Tests.Kernel.{symbols-Linked}

-- The line at 100 with the literals behind it
abbrev memory : Mem
memory =
    holding
      " help me\0help\0Display this list of commands\0kerninfo\0Display information about the kernel\0backtrace\0\0\t\r\n \0K> "

abbrev names : Names
names = record {
  help_name = 109;
  help_desc = 114;
  kerninfo_name = 144;
  kerninfo_desc = 153;
  backtrace_name = 190;
  backtrace_desc = 200;
  whitespace = 201;
  prompt = 206;
  line_buf = 4096;
}

names-HasNames : HasNames memory names
names-HasNames = record {
  help_named = omega arith;
  kerninfo_named = omega arith;
  backtrace_named = omega arith;
  whitespace_named = omega arith;
}

names-Documented : Documented 1100 memory names
names-Documented = record {
  help_named = record {
    nonnull = omega arith;
    spelled = omega arith;
    ascii = omega arith;
    short = omega arith;
    sized = omega arith;
  };
  help_said = record {
    nonnull = omega arith;
    spelled = omega arith;
    ascii = omega arith;
    short = omega arith;
    sized = omega arith;
  };
  kerninfo_named = record {
    nonnull = omega arith;
    spelled = omega arith;
    ascii = omega arith;
    short = omega arith;
    sized = omega arith;
  };
  kerninfo_said = record {
    nonnull = omega arith;
    spelled = omega arith;
    ascii = omega arith;
    short = omega arith;
    sized = omega arith;
  };
  backtrace_named = record {
    nonnull = omega arith;
    spelled = omega arith;
    ascii = omega arith;
    short = omega arith;
    sized = omega arith;
  };
  backtrace_said = record {
    nonnull = omega arith;
    spelled = omega arith;
    ascii = omega arith;
    short = omega arith;
    sized = omega arith;
  };
}

-- The first word is "help".
not_backtrace : NoBacktrace (words (codes " help me"))
unfolding words_from
not_backtrace = cc

runcmd-Reply_example :
    (m' : Mem) × (text : List ℕ) × (s' : Machine) × Reply symbols (words (codes " help me")) text
    × (runcmd literals tables names symbols no_frames 1100 memory 100 machine
        ≡ ok (ran (pos 0) m' s'))
    × Prints text machine s'
    × SameOutside m' memory 100 8
runcmd-Reply_example =
    runcmd-Reply literals tables names symbols no_frames 1100 (omega arith) symbols-Linked memory
      100 (codes " help me") machine (omega arith) (omega arith) (omega arith) (omega arith)
      (omega arith) names-HasNames names-Documented
      record {
        help_clear = omega arith;
        kerninfo_clear = omega arith;
        backtrace_clear = omega arith;
        whitespace_clear = omega arith;
      }
      record { help_away = omega arith; kerninfo_away = omega arith; backtrace_away = omega arith }
      not_backtrace (omega arith, omega arith)

-- A typing error, corrected, and a second word
abbrev keys : List ℕ
keys = codes "helo" ++ 8 ∷ codes "p x"

corrected : NoBacktrace (words (pressed [] keys))
unfolding words_from
corrected = cc

abbrev prompt : List ℕ
prompt = codes "K> "

prompt-IsPrompt : IsPrompt 1100 memory 206 prompt
prompt-IsPrompt = spoken (record {
  nonnull = omega arith;
  spelled = omega arith;
  ascii = omega arith;
  short = omega arith;
  sized = omega arith;
})

command_loop-Reply_example :
    (m' : Mem) × (text : List ℕ) × (answered : Machine) × Reply symbols
      (words (pressed [] keys))
      text
    × (command_loop literals tables names symbols no_frames 1100 3
          (map pos keys ++ pos 13 ∷ [])
          memory
          machine
        ≡ command_loop literals tables names symbols no_frames 1100 2 [] m' answered)
    × Prints text (put_line (prompt ++ typed [] keys) machine) answered
    × IsValid answered.crt
    × SameOutside m' memory 4096 1024
command_loop-Reply_example =
    command_loop-Reply literals tables names symbols no_frames 1100 (omega arith) symbols-Linked 2
      prompt keys 13 [] memory machine (omega arith) (omega arith) (inr refl) corrected
      (omega arith) names-HasNames names-Documented
      record {
        help_clear = omega arith;
        kerninfo_clear = omega arith;
        backtrace_clear = omega arith;
        whitespace_clear = omega arith;
      }
      record { help_away = omega arith; kerninfo_away = omega arith; backtrace_away = omega arith }
      prompt-IsPrompt (omega arith, omega arith)
      record { cells = length-replicate {A = ℕ} 2000 0x0720; on = omega arith }
