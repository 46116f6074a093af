-- ===== src/Console/Output/Steady.antt =====
-- Output leaves the address of the 6845 as it is.
use jos.Prelude.{List, [], ◌∷◌, ◌≡◌, ℕ, refl, ◌∙◌, ◌==◌, Bool-cases, inl, inr, ◌%◌, ◌^◌}
use jos.Console.Output.Sent.{Apart, Apart-moved, put_line}
use jos.Console.Crt.{attributed}
use jos.Console.Output.{
  Machine, serial_putc, lpt_putc, show_cursor, cga_with, cons_with, put_space, put_tab, finish,
  cons_putc, cputchar,
}

-- The ports of the 6845 are the same in both.
abbrev Steady : Machine → Machine → Type 0
Steady s t = t.addr_6845 ≡ s.addr_6845

finish-Steady : (s : Machine) → Steady s (finish s)
unfolding finish show_cursor
finish-Steady s = refl

cons_with-Steady :
    (tab : Machine → Machine) (c : ℕ) (s : Machine)
    → ((t : Machine) → Steady t (tab t))
    → Steady s (cons_with tab c s)
unfolding cons_with cga_with serial_putc lpt_putc
cons_with-Steady tab c s h = elim (Bool-cases (attributed s.crt c % 2 ^ 8 == 9)) [
  | inl e ↦ let t = lpt_putc c (serial_putc c s) in rw e (finish-Steady (tab t) ∙ h t)
  | inr e ↦ rw e (finish-Steady _)
]

put_space-Steady : (s : Machine) → Steady s (put_space s)
unfolding put_space
put_space-Steady s = cons_with-Steady (λ t. t) b' ' s (λ t. refl)

put_tab-Steady : (s : Machine) → Steady s (put_tab s)
unfolding put_tab
put_tab-Steady s =
    let s1 = put_space s in
    let s2 = put_space s1 in
    let s3 = put_space s2 in
    let s4 = put_space s3 in
    put_space-Steady s4
    ∙ put_space-Steady s3
    ∙ put_space-Steady s2
    ∙ put_space-Steady s1
    ∙ put_space-Steady s

cputchar-Steady : (c : ℕ) (s : Machine) → Steady s (cputchar c s)
unfolding cputchar cons_putc
cputchar-Steady c s = cons_with-Steady put_tab c s put_tab-Steady

put_line-Steady : (text : List ℕ) (s : Machine) → Steady s (put_line text s)
put_line-Steady [] s = refl
put_line-Steady (c ∷ text) s = put_line-Steady text (cputchar c s) ∙ cputchar-Steady c s

pub put_line-Apart : (text : List ℕ) (s : Machine) → Apart s → Apart (put_line text s)
put_line-Apart text s = Apart-moved s (put_line text s) (put_line-Steady text s)
