-- ===== src/Monitor/Kerninfo.antt =====
-- What `mon_kerninfo` prints.
pub mod Lines
use jos.Prelude.{ℕ, ◌+◌, ◌-◌, ◌≤◌, ◌≡◌, ap, List, ◌++◌, arith}
use jos.Prelude.Int.{pos}
use jos.Prelude.Texts.{codes}
use jos.Memory.{Mem}
use jos.Format.{ok, ◌>>=◌}
use jos.Format.Numeral.Digits.{IsNumeral}
use jos.Format.Numeral.Padded.{hex_digits}
use jos.Format.Vprintfmt.{Literals}
use jos.Console.Crt.Bounds.{IsValid}
use jos.Console.Output.{Machine}
use jos.Console.Output.Sent.{serial, echoed, Apart}
use jos.Console.Cprintf.Printed.{Prints}
use jos.Debuginfo.{Tables}
use jos.Monitor.{Stack, Names, Symbols, ran, phys, footprint, list_symbols, mon_kerninfo}
use jos.Monitor.Printing.{Shows, print-Shows, print-then}
use jos.Monitor.Kerninfo.Lines.{
  Linked, kilobytes, symbol_line, entry-Puts, etext-Puts, edata-Puts, end-Puts, heading-Puts,
  start-Puts, footprint-Puts,
}

-- The lines of the symbols, the last line with the digits `ds`.
abbrev pub kerninfo_text : Symbols → List ℕ → List ℕ
kerninfo_text symbols ds =
    codes "Special kernel symbols:\n"
    ++ (codes "  _start                  "
        ++ (hex_digits 8 symbols.start_label ++ codes " (phys)\n")
        ++ (symbol_line (codes "  entry  ") symbols.entry
            ++ (symbol_line (codes "  etext  ") symbols.etext
                ++ (symbol_line (codes "  edata  ") symbols.edata
                    ++ (symbol_line (codes "  end    ") symbols.end
                        ++ (codes "Kernel executable memory footprint: "
                            ++ (ds ++ codes "KB\n")))))))

module _ (lits : Literals) (t : Tables) (names : Names) (symbols : Symbols) (stack : Stack) (k : ℕ)
    (m : Mem) (linked : Linked symbols) (fuel : 64 ≤ k) where
  list_symbols-Shows :
      (s : Machine)
      → Apart s
      → (ds : List ℕ) × IsNumeral 10 (kilobytes symbols) ds
        × Shows lits t names symbols stack k m
            (kerninfo_text symbols ds)
            s
            (list_symbols lits t names symbols stack k m s)
  unfolding list_symbols
  list_symbols-Shows s apart =
      let (ds, is, puts) = (footprint-Puts lits symbols m linked) in
      let step = print-then lits t names symbols stack k m in
      let last : List ℕ = codes "Kernel executable memory footprint: " ++ (ds ++ codes "KB\n") in
      let symbol : List ℕ → ℕ → List ℕ → List ℕ = λ name p rest. symbol_line name p ++ rest in
      let from_end = symbol (codes "  end    ") symbols.end last in
      let from_edata = symbol (codes "  edata  ") symbols.edata from_end in
      let from_etext = symbol (codes "  etext  ") symbols.etext from_edata in
      let from_entry = symbol (codes "  entry  ") symbols.entry from_etext in
      let start =
        codes "  _start                  "
        ++ (hex_digits 8 symbols.start_label ++ codes " (phys)\n") in
      (
        ds,
        is,
        step 25 _ _ _ (start ++ from_entry) s _ (heading-Puts lits symbols m linked) (omega arith)
            apart
            (λ s apart.
              step 36 _ _ _ from_entry s _ (start-Puts lits symbols m linked) (omega arith) apart
                (λ s apart.
                  step 29 _ _ _ from_etext s _ (entry-Puts lits symbols m linked) (omega arith)
                    apart
                    (λ s apart.
                      step 29 _ _ _ from_edata s _ (etext-Puts lits symbols m linked) (omega arith)
                        apart
                        (λ s apart.
                          step 29 _ _ _ from_end s _ (edata-Puts lits symbols m linked)
                            (omega arith) apart
                            (λ s apart.
                              step 29 _ _ _ last s _ (end-Puts lits symbols m linked) (omega arith)
                                apart
                                (λ s apart.
                                  print-Shows lits t names symbols stack k m 41 _ _ _ s puts
                                    (omega arith) apart)))))),
      )

  pub mon_kerninfo-Prints :
      (s : Machine)
      → Apart s
      → (ds : List ℕ) × (s' : Machine) × IsNumeral 10 (kilobytes symbols) ds
        × (mon_kerninfo lits t names symbols stack k m s ≡ ok (ran (pos 0) m s'))
        × Prints (kerninfo_text symbols ds) s s'
  unfolding mon_kerninfo
  mon_kerninfo-Prints s apart =
      let (ds, is, (s', run, prints)) = list_symbols-Shows s apart in
      (ds, s', is, ap (λ r. r >>= λ s'. ok (ran (pos 0) m s')) run, prints)

  -- With a kernel that is linked above KERNBASE `mon_kerninfo` returns 0, and the serial port gets the
  -- heading, the address of `_start` and the virtual and the physical address of the other symbols in
  -- eight hexadecimal digits each, and the decimal numeral of the kernel's size in memory in KB, rounded up; a
  -- valid screen stays valid.
  pub mon_kerninfo_lem :
      (s : Machine)
      → Apart s
      → IsValid s.crt
      → (ds : List ℕ) × (s' : Machine) × IsNumeral 10 (kilobytes symbols) ds
        × (mon_kerninfo lits t names symbols stack k m s ≡ ok (ran (pos 0) m s'))
        × (serial s'.written ≡ serial s.written ++ echoed (kerninfo_text symbols ds))
        × IsValid s'.crt
  mon_kerninfo_lem s apart v =
      let (ds, s', is, run, prints) = mon_kerninfo-Prints s apart in
      (ds, s', is, run, prints.sent.0, prints.screen v)
