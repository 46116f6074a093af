-- ===== src/Monitor/Backtrace/Lines.antt =====
-- The lines that a frame is shown with.
use jos.Prelude.{ℕ, suc, ◌+◌, ◌-◌, ◌%◌, ◌^◌, ◌<◌, List, [], ◌∷◌, ◌++◌, take, arith}
use jos.Prelude.Texts.{codes}
use jos.Memory.{Mem}
use jos.Format.{signed32}
use jos.Format.Numeral.Digits.{IsNumeral}
use jos.Format.Numeral.Padded.{hex_digits}
use jos.Format.Vprintfmt.{Literals}
use jos.Format.Vprintfmt.Laws.{IsDecimal}
use jos.Format.Vprintfmt.Pieces.{
  Puts, Puts-end, Puts-text, Puts-hex, Puts-unsigned, Puts-IsDecimal, Puts-string, Puts-limited,
  Puts-weaken, IsLiteral,
}
use jos.Debuginfo.{Eipdebuginfo}
use jos.Monitor.Backtrace.{frame_word, frame_format, place_format, frame_args, place_args}

-- Words in eight digits each, with a space before each
abbrev pub spaced : List ℕ → List ℕ
spaced [] = codes "\n"
spaced (w ∷ ws) = codes " " ++ (hex_digits 8 w ++ spaced ws)

-- The words of a frame: its address, its return address and five words that may be arguments.
abbrev pub frame_line : Mem → ℕ → List ℕ
frame_line m f =
    codes "  ebp "
    ++ (hex_digits 8 f
        ++ (codes "  eip "
            ++ (hex_digits 8 (frame_word m f 1)
                ++ (codes "  args"
                    ++ spaced (
                        frame_word m f 2
                        ∷ frame_word m f 3
                        ∷ frame_word m f 4
                        ∷ frame_word m f 5
                        ∷ frame_word m f 6
                        ∷ [])))))

-- The file, the line, the function and the offset in it
abbrev pub place_line : (file line name offset : List ℕ) → List ℕ
place_line file line name offset =
    codes "        "
    ++ (file
        ++ (codes ":" ++ (line ++ (codes ": " ++ (name ++ (codes "+" ++ (offset ++ codes "\n")))))))

abbrev pub Words : List ℕ → Type 0
Words [] = Unit {0}
Words (w ∷ ws) = (w < 2 ^ 32) × Words ws

module _ (lits : Literals) (m : Mem) where
  last_newline : Puts lits m 2 (codes "\n") [] (spaced [])
  last_newline =
      Puts-text lits m 1 (codes "\n") [] [] [] (ground arith) (ground arith) (Puts-end lits m [])

  -- One more word behind a space
  spaced-Puts :
      (n w : ℕ) (fmt args ws : List ℕ)
      → w < 2 ^ 32
      → Puts lits m n fmt args (spaced ws)
      → Puts lits m (1 + suc n) (codes " %08x" ++ fmt) (w ∷ args) (spaced (w ∷ ws))
  spaced-Puts n w fmt args ws small h =
      Puts-text lits m (suc n) (codes " ") (codes "%08x" ++ fmt) (w ∷ args)
        (hex_digits 8 w ++ spaced ws) (ground arith) (ground arith)
        (Puts-hex lits m n w fmt args (spaced ws) small h)

  pub frame_line-Puts :
      (f : ℕ)
      → Words (frame_args m f)
      → Puts lits m 32 frame_format (frame_args m f) (frame_line m f)
  frame_line-Puts f (lt, (lt1, (lt2, (lt3, (lt4, (lt5, (lt6, u))))))) =
      let w = frame_word m f in
      let args = spaced (w 2 ∷ w 3 ∷ w 4 ∷ w 5 ∷ w 6 ∷ []) in
      let five =
        spaced-Puts 10 (w 2) (codes " %08x %08x %08x %08x\n") (w 3 ∷ w 4 ∷ w 5 ∷ w 6 ∷ [])
          (w 3 ∷ w 4 ∷ w 5 ∷ w 6 ∷ []) lt2
          (spaced-Puts 8 (w 3) (codes " %08x %08x %08x\n") (w 4 ∷ w 5 ∷ w 6 ∷ [])
            (w 4 ∷ w 5 ∷ w 6 ∷ []) lt3
            (spaced-Puts 6 (w 4) (codes " %08x %08x\n") (w 5 ∷ w 6 ∷ []) (w 5 ∷ w 6 ∷ []) lt4 (
              spaced-Puts 4 (w 5) (codes " %08x\n") (w 6 ∷ []) (w 6 ∷ []) lt5
                (spaced-Puts 2 (w 6) (codes "\n") [] [] lt6 last_newline)))) in
      let eip =
        Puts-hex lits m 18 (w 1) (codes "  args %08x %08x %08x %08x %08x\n")
          (w 2 ∷ w 3 ∷ w 4 ∷ w 5 ∷ w 6 ∷ []) (codes "  args" ++ args) lt1
          (Puts-text lits m 12 (codes "  args") (codes " %08x %08x %08x %08x %08x\n")
            (w 2 ∷ w 3 ∷ w 4 ∷ w 5 ∷ w 6 ∷ []) args (ground arith) (ground arith) five) in
      Puts-text lits m 26 (codes "  ebp ") (codes "%08x  eip %08x  args %08x %08x %08x %08x %08x\n")
        (frame_args m f)
        (hex_digits 8 f ++ (codes "  eip " ++ (hex_digits 8 (w 1) ++ (codes "  args" ++ args))))
        (ground arith) (ground arith)
        (Puts-hex lits m 25 f (codes "  eip %08x  args %08x %08x %08x %08x %08x\n")
          (w 1 ∷ w 2 ∷ w 3 ∷ w 4 ∷ w 5 ∷ w 6 ∷ [])
          (codes "  eip " ++ (hex_digits 8 (w 1) ++ (codes "  args" ++ args))) lt
          (Puts-text lits m 19 (codes "  eip ") (codes "%08x  args %08x %08x %08x %08x %08x\n")
            (w 1 ∷ w 2 ∷ w 3 ∷ w 4 ∷ w 5 ∷ w 6 ∷ [])
            (hex_digits 8 (w 1) ++ (codes "  args" ++ args)) (ground arith) (ground arith) eip))

  -- The function's name and the offset, with room for the name
  name_part :
      (k len p by : ℕ) (name : List ℕ)
      → IsLiteral k m p name
      → len < 2 ^ 31
      → by < 2 ^ 32
      → (offset : List ℕ) × IsDecimal (signed32 by) offset
        × Puts lits m
            (suc (k - 16))
            (codes "%.*s+%d\n")
            (len ∷ p ∷ by ∷ [])
            (take len name ++ (codes "+" ++ (offset ++ codes "\n")))
  name_part k len p by name at len_fits by_fits =
      let room = at.short in
      let (offset, is_offset, offset_puts) =
        Puts-IsDecimal lits m 2 by (codes "\n") [] (codes "\n") by_fits last_newline in
      let behind : List ℕ = codes "+" ++ (offset ++ codes "\n") in
      let plus =
        Puts-text lits m 3 (codes "+") (codes "%d\n") (by ∷ []) (offset ++ codes "\n")
          (ground arith) (ground arith) offset_puts in
      (
        offset,
        is_offset,
        Puts-limited lits m (k - 16) len p name (codes "+%d\n") (by ∷ []) behind len_fits at.nonnull
            at.spelled at.ascii (omega arith)
            (Puts-weaken lits m 4 (k - 16) (codes "+%d\n") (by ∷ []) behind (omega arith) plus),
      )

  pub place_line-Puts :
      (k ret_addr : ℕ) (info : Eipdebuginfo) (file name : List ℕ)
      → IsLiteral k m info.eip_file file
      → IsLiteral k m info.eip_fn_name name
      → info.eip_line < 2 ^ 32
      → info.eip_fn_namelen < 2 ^ 31
      → (line : List ℕ) × (offset : List ℕ) × IsNumeral 10 info.eip_line line
        × IsDecimal (signed32 ((ret_addr + (2 ^ 32 - info.eip_fn_addr)) % 2 ^ 32)) offset
        × Puts lits m k place_format
            (place_args ret_addr info)
            (place_line file line (take info.eip_fn_namelen name) offset)
  place_line-Puts k ret_addr info file name at_file at_name line_fits len_fits =
      let room = at_file.short in
      let by = (ret_addr + (2 ^ 32 - info.eip_fn_addr)) % 2 ^ 32 in
      let len = info.eip_fn_namelen in
      let (offset, is_offset, named) =
        name_part k len info.eip_fn_name by name at_name len_fits (omega arith) in
      let from_name : List ℕ = take len name ++ (codes "+" ++ (offset ++ codes "\n")) in
      let colon =
        Puts-text lits m (suc (k - 16)) (codes ": ") (codes "%.*s+%d\n")
          (len ∷ info.eip_fn_name ∷ by ∷ []) from_name (ground arith) (ground arith) named in
      let (line, is_line, line_puts) =
        Puts-unsigned lits m (2 + suc (k - 16)) info.eip_line (codes ": %.*s+%d\n")
          (len ∷ info.eip_fn_name ∷ by ∷ []) (codes ": " ++ from_name) line_fits colon in
      let from_line : List ℕ = line ++ (codes ": " ++ from_name) in
      let args : List ℕ = info.eip_line ∷ len ∷ info.eip_fn_name ∷ by ∷ [] in
      let colon' =
        Puts-text lits m (suc (2 + suc (k - 16))) (codes ":") (codes "%u: %.*s+%d\n") args from_line
          (ground arith) (ground arith) line_puts in
      let placed =
        Puts-string lits m (1 + suc (2 + suc (k - 16))) info.eip_file file (codes ":%u: %.*s+%d\n")
          args (codes ":" ++ from_line) at_file.nonnull at_file.spelled at_file.ascii (omega arith)
          at_file.sized colon' in
      let whole =
        Puts-text lits m (suc (1 + suc (2 + suc (k - 16)))) (codes "        ")
          (codes "%s:%u: %.*s+%d\n") (info.eip_file ∷ args) (file ++ (codes ":" ++ from_line))
          (ground arith) (ground arith) placed in
      (
        line,
        offset,
        is_line,
        is_offset,
        Puts-weaken lits m (8 + suc (1 + suc (2 + suc (k - 16)))) k place_format
            (info.eip_file ∷ args) (place_line file line (take len name) offset) (omega arith)
            whole,
      )
