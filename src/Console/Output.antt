-- ===== src/Console/Output.antt =====
-- The way of a character to the serial port, the parallel port and the screen: `cons_putc`.
-- What a status register returns to the reads of a waiting loop is a function of the read's number.
pub mod Keeps
pub mod Sent
pub mod Steady
use jos.Prelude.{
  ℕ, zero, suc, ◌+◌, ◌/◌, ◌%◌, ◌^◌, List, [], ◌∷◌, ◌++◌, ◌==◌, if◌then◌else◌, bit_and,
}
use jos.Console.Crt.{Crt, attributed, put_cell, scroll}

-- A byte written to a port.
pub record Outb : Type 0 where
  pub port : ℕ
  pub value : ℕ

abbrev pub outb : ℕ → ℕ → Outb
outb port value = record { port = port; value = value % 2 ^ 8 }

-- The screen, the base port of the 6845, and all that has been written to ports so far.
pub record Machine : Type 0 where
  pub crt : Crt
  pub addr_6845 : ℕ
  pub written : List Outb

emit : List Outb → Machine → Machine
emit ws s = record s { written = s.written ++ ws }

-- `for (i = 0; !(inb(port) & mask) && i < 12800; i++) delay();`, started at `i` with `n` rounds left:
-- the rounds that it makes.
wait_loop : (ℕ → ℕ) → ℕ → ℕ → ℕ → ℕ
wait_loop status mask zero i = i
wait_loop status mask (suc n) i =
    let rest = wait_loop status mask n (i + 1) in if bit_and (status i) mask == 0 then rest else i

abbrev pub wait_limit : ℕ
wait_limit = 12800

unfoldable pub wait_ready : (ℕ → ℕ) → ℕ → ℕ
unfolding wait_loop
wait_ready status mask = wait_loop status mask wait_limit 0

-- Waiting changes nothing, so the writes that follow are all that the two routines do.
unfoldable pub serial_putc : ℕ → Machine → Machine
unfolding emit
serial_putc c s = emit (outb 0x3F8 c ∷ []) s

unfoldable pub lpt_putc : ℕ → Machine → Machine
unfolding emit
lpt_putc c s = emit (outb 0x378 c ∷ outb 0x37A (8 + 4 + 1) ∷ outb 0x37A 8 ∷ []) s

-- The end of `cga_putc`: scrolling and the cursor.
unfoldable pub show_cursor : Machine → Machine
unfolding emit
show_cursor s =
    emit
      (outb s.addr_6845 14
        ∷ outb (s.addr_6845 + 1) (s.crt.pos / 2 ^ 8)
        ∷ outb s.addr_6845 15
        ∷ outb (s.addr_6845 + 1) s.crt.pos
        ∷ [])
      s

finish : Machine → Machine
finish s = show_cursor (record s { crt = scroll s.crt })

-- `cga_putc`, given what it does for a tab. The colours are those at its start.
cga_with : (Machine → Machine) → ℕ → Machine → Machine
unfolding finish
cga_with tab c s =
    let c' = attributed s.crt c in
    if c' % 2 ^ 8 == 9 then finish (tab s) else finish (record s { crt = put_cell c' s.crt })

cons_with : (Machine → Machine) → ℕ → Machine → Machine
unfolding cga_with
cons_with tab c s = cga_with tab c (lpt_putc c (serial_putc c s))

-- `cons_putc(' ')`, which makes no further call, and five of them for a tab.
unfoldable pub put_space : Machine → Machine
unfolding cons_with
put_space = cons_with (λ s. s) b' '

unfoldable pub put_tab : Machine → Machine
put_tab s = put_space (put_space (put_space (put_space (put_space s))))

unfoldable pub cga_putc : ℕ → Machine → Machine
unfolding cga_with
cga_putc = cga_with put_tab

unfoldable pub cons_putc : ℕ → Machine → Machine
unfolding cons_with
cons_putc = cons_with put_tab

-- What `cprintf` and `readline` print.
unfoldable pub cputchar : ℕ → Machine → Machine
unfolding cons_putc
cputchar = cons_putc
