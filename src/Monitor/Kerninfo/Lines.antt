-- ===== src/Monitor/Kerninfo/Lines.antt =====
-- The lines of `mon_kerninfo`, as their formats put them.
use jos.Prelude.{
  ℕ, ◌+◌, ◌-◌, ◌/◌, ◌%◌, ◌^◌, ◌<◌, ◌≤◌, ◌≡◌, List, [], ◌∷◌, ◌++◌, length, ltb, true, lt→ltb, arith,
}
use jos.Prelude.Texts.{codes}
use jos.Memory.{Mem}
use jos.Format.Numeral.Digits.{IsNumeral}
use jos.Format.Numeral.Padded.{hex_digits}
use jos.Format.Vprintfmt.{Literals}
use jos.Format.Vprintfmt.Laws.{Plain}
use jos.Format.Vprintfmt.Pieces.{Puts, Puts-end, Puts-text, Puts-hex, Puts-natural}
use jos.Console.Output.Sent.{AllBytes}
use jos.Pages.{kernbase, roundup}
use jos.Pages.Rounding.{roundup_lem}
use jos.Monitor.{Symbols, phys, footprint}

-- The linker has put the kernel above KERNBASE, and the symbols in their order.
pub record Linked (symbols : Symbols) : Type 0 where
  pub start_fits : symbols.start_label < 2 ^ 32
  pub above : kernbase ≤ symbols.entry
  pub code : symbols.entry ≤ symbols.etext
  pub data_part : symbols.etext ≤ symbols.edata
  pub bss : symbols.edata ≤ symbols.end
  pub end_fits : symbols.end < 2 ^ 32

-- The size of the kernel in memory in units of 1024 bytes, rounded up.
abbrev pub kilobytes : Symbols → ℕ
kilobytes symbols = (symbols.end - symbols.entry + 1023) / 1024

abbrev pub symbol_line : List ℕ → ℕ → List ℕ
symbol_line name p =
    name
    ++ (hex_digits 8 p ++ (codes " (virt)  " ++ (hex_digits 8 (p - kernbase) ++ codes " (phys)\n")))

module _ (lits : Literals) (symbols : Symbols) (m : Mem) (linked : Linked symbols) where
  tail-Puts : Puts lits m 9 (codes " (phys)\n") [] (codes " (phys)\n")
  tail-Puts =
      Puts-text lits m 1 (codes " (phys)\n") [] [] [] (ground arith) (ground arith)
        (Puts-end lits m [])

  symbol-Puts :
      (name : List ℕ) (p : ℕ)
      → Plain name
      → AllBytes name
      → kernbase ≤ p
      → p < 2 ^ 32
      → Puts lits m
          (length name + 20)
          (name ++ codes "%08x (virt)  %08x (phys)\n")
          (p ∷ phys p ∷ [])
          (symbol_line name p)
  symbol-Puts name p plain bytes high small =
      let low : phys p ≡ p - kernbase = omega arith in
      let phys_part =
        Puts-hex lits m 9 (p - kernbase) (codes " (phys)\n") [] (codes " (phys)\n") (omega arith)
          tail-Puts in
      let virt_part =
        Puts-hex lits m 19 p (codes " (virt)  %08x (phys)\n") ((p - kernbase) ∷ [])
          (codes " (virt)  " ++ (hex_digits 8 (p - kernbase) ++ codes " (phys)\n")) small
          (Puts-text lits m 10 (codes " (virt)  ") (codes "%08x (phys)\n") ((p - kernbase) ∷ [])
            (hex_digits 8 (p - kernbase) ++ codes " (phys)\n") (ground arith) (ground arith)
            phys_part) in
      rw low (
        Puts-text lits m 20 name (codes "%08x (virt)  %08x (phys)\n") (p ∷ (p - kernbase) ∷ [])
          (hex_digits 8 p
            ++ (codes " (virt)  " ++ (hex_digits 8 (p - kernbase) ++ codes " (phys)\n")))
          plain bytes virt_part)

  bounds :
      (symbols.entry < 2 ^ 32)
      × (kernbase ≤ symbols.etext)
      × (symbols.etext < 2 ^ 32)
      × (kernbase ≤ symbols.edata)
      × (symbols.edata < 2 ^ 32)
      × (kernbase ≤ symbols.end)
  bounds = omega (arith, linked.above, linked.code, linked.data_part, linked.bss, linked.end_fits)

  pub entry-Puts :
      Puts lits m 29
        (codes "  entry  %08x (virt)  %08x (phys)\n")
        (symbols.entry ∷ phys symbols.entry ∷ [])
        (symbol_line (codes "  entry  ") symbols.entry)
  entry-Puts =
      let b = bounds in
      symbol-Puts (codes "  entry  ") symbols.entry (ground arith) (ground arith) linked.above b.0

  pub etext-Puts :
      Puts lits m 29
        (codes "  etext  %08x (virt)  %08x (phys)\n")
        (symbols.etext ∷ phys symbols.etext ∷ [])
        (symbol_line (codes "  etext  ") symbols.etext)
  etext-Puts =
      let b = bounds in
      symbol-Puts (codes "  etext  ") symbols.etext (ground arith) (ground arith) b.1 b.2

  pub edata-Puts :
      Puts lits m 29
        (codes "  edata  %08x (virt)  %08x (phys)\n")
        (symbols.edata ∷ phys symbols.edata ∷ [])
        (symbol_line (codes "  edata  ") symbols.edata)
  edata-Puts =
      let b = bounds in
      symbol-Puts (codes "  edata  ") symbols.edata (ground arith) (ground arith) b.3 b.4

  pub end-Puts :
      Puts lits m 29
        (codes "  end    %08x (virt)  %08x (phys)\n")
        (symbols.end ∷ phys symbols.end ∷ [])
        (symbol_line (codes "  end    ") symbols.end)
  end-Puts =
      let b = bounds in
      symbol-Puts (codes "  end    ") symbols.end (ground arith) (ground arith) b.5 linked.end_fits

  pub heading-Puts :
      Puts lits m 25 (codes "Special kernel symbols:\n") [] (codes "Special kernel symbols:\n")
  heading-Puts =
      Puts-text lits m 1 (codes "Special kernel symbols:\n") [] [] [] (ground arith) (ground arith)
        (Puts-end lits m [])

  pub start-Puts :
      Puts lits m 36 (codes "  _start                  %08x (phys)\n") (symbols.start_label ∷ []) (
        codes "  _start                  "
        ++ (hex_digits 8 symbols.start_label ++ codes " (phys)\n"))
  start-Puts =
      Puts-text lits m 10 (codes "  _start                  ") (codes "%08x (phys)\n")
        (symbols.start_label ∷ []) (hex_digits 8 symbols.start_label ++ codes " (phys)\n")
        (ground arith) (ground arith)
        (Puts-hex lits m 9 symbols.start_label (codes " (phys)\n") [] (codes " (phys)\n")
          linked.start_fits tail-Puts)

  footprint_lem : footprint symbols.entry symbols.end ≡ kilobytes symbols
  unfolding footprint
  footprint_lem =
      let bytes = symbols.end - symbols.entry in
      let high = linked.above in
      let fits = linked.end_fits in
      let word : (symbols.end + (2 ^ 32 - symbols.entry)) % 2 ^ 32 ≡ bytes =
        omega (arith, linked.code, linked.data_part, linked.bss) in
      let (whole, le, lt) = roundup_lem bytes 1024 (omega arith) (omega arith) in
      let small : ltb (roundup bytes 1024) (2 ^ 31) ≡ true = lt→ltb _ _ (omega arith) in
      rw (word, small) (omega arith)

  pub footprint-Puts :
      (ds : List ℕ) × IsNumeral 10 (kilobytes symbols) ds
      × Puts lits m 41
          (codes "Kernel executable memory footprint: %dKB\n")
          (footprint symbols.entry symbols.end ∷ [])
          (codes "Kernel executable memory footprint: " ++ (ds ++ codes "KB\n"))
  footprint-Puts =
      let (ds, is, puts) =
        Puts-natural lits m 4 (kilobytes symbols) (codes "KB\n") [] (codes "KB\n")
          (let fits = linked.end_fits in omega arith)
          (Puts-text lits m 1 (codes "KB\n") [] [] [] (ground arith) (ground arith)
            (Puts-end lits m [])) in
      (
        ds,
        is,
        rw footprint_lem (
            Puts-text lits m 5 (codes "Kernel executable memory footprint: ") (codes "%dKB\n")
              (kilobytes symbols ∷ []) (ds ++ codes "KB\n") (ground arith) (ground arith) puts),
      )
