-- ===== src/Tests/Lines.antt =====
-- `readline` on a few keys.
use jos.Prelude.{ℕ, ◌≡◌, ◌++◌, [], ◌∷◌, List, map, inr, replicate, length-replicate, refl, arith}
use jos.Prelude.Int.{pos}
use jos.Format.{ok}
use jos.Format.Vprintfmt.{Literals}
use jos.Memory.{Mem}
use jos.Console.Output.Sent.{put_line}
use jos.Console.Output.{Machine}
use jos.Readline.{Editing, line, readline}
use jos.Readline.Prompt.{IsPrompt, spoken}
use jos.Readline.Edit.{press, pressed, typed, Ends, readline_lem}
use jos.Tests.Memory.{codes, holding}

abbrev literals : Literals
literals = record { null_text = 0; error_string = λ e. 0 }

abbrev machine : Machine
machine = record {
  crt = record { buf = replicate 2000 0x0720; pos = 0; bg = 0; fg = 0 };
  addr_6845 = 0x3D4;
  written = [];
}

-- The text "hwlp" with two keys taken back
abbrev keys : List ℕ
keys = codes "hwl" ++ 8 ∷ 8 ∷ codes "elp"

edited : pressed [] keys ≡ codes "help"
edited = refl

-- On an empty line the delete key is taken for a character.
delete_first : press [] 127 ≡ 127 ∷ []
delete_first = refl

-- The keys show three characters, two backspaces and three characters.
echo_shown : typed [] keys ≡ codes "hwl" ++ 8 ∷ 8 ∷ codes "elp\n"
echo_shown = refl

-- The prompt of the monitor, at 100
abbrev memory : Mem
memory = holding "K> "

abbrev prompt : List ℕ
prompt = codes "K> "

prompt-IsPrompt : IsPrompt 30 memory 100 prompt
prompt-IsPrompt = spoken (record {
  nonnull = omega arith;
  spelled = omega arith;
  ascii = omega arith;
  short = omega arith;
  sized = omega arith;
})

readline_lem_example :
    (e : Editing) × (readline literals 30 memory 100
        (map pos keys ++ pos 13 ∷ pos b'x' ∷ [])
        (replicate 1024 7)
        machine
      ≡ ok (line e (pos b'x' ∷ [])))
    × Ends (put_line (prompt ++ typed [] keys) machine) e (pressed [] keys)
readline_lem_example =
    readline_lem literals 30 memory 100 prompt keys 13 (pos b'x' ∷ []) (replicate 1024 7) machine
      (omega arith) (inr refl) (length-replicate {A = ℕ} 1024 7) prompt-IsPrompt
      (omega arith, omega arith)
      record { cells = length-replicate {A = ℕ} 2000 0x0720; on = omega arith }
