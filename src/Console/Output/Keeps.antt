-- ===== src/Console/Output/Keeps.antt =====
-- Every character keeps the screen valid, and no device keeps the kernel waiting for ever.
use jos.Prelude.{ℕ, zero, suc, ◌+◌, ◌≤◌, ◌%◌, ◌^◌, ◌==◌, Bool-cases, inl, inr, arith}
use jos.Console.Crt.{attributed, put_cell}
use jos.Console.Crt.Bounds.{IsValid, put_cell-IsWritten, scroll-IsValid, IsValid-IsWritten}
use jos.Console.Output.{
  Machine, wait_loop, wait_ready, wait_limit, serial_putc, lpt_putc, show_cursor, cga_with,
  cons_with, put_space, put_tab, cons_putc,
}

module _ (tab : Machine → Machine)
    (keeps : (s : Machine) → IsValid s.crt → IsValid (tab s).crt) where
  cga_with-IsValid : (c : ℕ) (s : Machine) → IsValid s.crt → IsValid (cga_with tab c s).crt
  unfolding cga_with show_cursor
  cga_with-IsValid c s v = elim (Bool-cases (attributed s.crt c % 2 ^ 8 == 9)) [
    | inl e ↦ rw e (scroll-IsValid (tab s).crt (IsValid-IsWritten (tab s).crt (keeps s v)))
    | inr e ↦ rw e (
        scroll-IsValid (put_cell (attributed s.crt c) s.crt)
          (put_cell-IsWritten (attributed s.crt c) s.crt v))
  ]

  cons_with-IsValid : (c : ℕ) (s : Machine) → IsValid s.crt → IsValid (cons_with tab c s).crt
  unfolding cons_with lpt_putc serial_putc
  cons_with-IsValid c s v = cga_with-IsValid c (lpt_putc c (serial_putc c s)) v

put_space-IsValid : (s : Machine) → IsValid s.crt → IsValid (put_space s).crt
unfolding put_space
put_space-IsValid = cons_with-IsValid (λ s. s) (λ s v. v) b' '

put_tab-IsValid : (s : Machine) → IsValid s.crt → IsValid (put_tab s).crt
unfolding put_tab
put_tab-IsValid s v = let keep = put_space-IsValid in keep _ (keep _ (keep _ (keep _ (keep s v))))

-- `cons_putc` of any character leaves the cursor on the screen and the screen with its 2000 cells,
-- if they were so before.
pub cons_putc-IsValid : (c : ℕ) (s : Machine) → IsValid s.crt → IsValid (cons_putc c s).crt
unfolding cons_putc
cons_putc-IsValid = cons_with-IsValid put_tab put_tab-IsValid

wait_loop-le : (status : ℕ → ℕ) (mask n i : ℕ) → wait_loop status mask n i ≤ i + n
unfolding wait_loop
wait_loop-le status mask zero i = omega arith
wait_loop-le status mask (suc n) i = ground (arith, wait_loop-le status mask n (i + 1))

-- A device that never becomes ready is waited for 12800 rounds at most.
pub wait_ready-le : (status : ℕ → ℕ) (mask : ℕ) → wait_ready status mask ≤ wait_limit
unfolding wait_ready
wait_ready-le status mask = wait_loop-le status mask wait_limit 0
