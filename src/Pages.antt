-- ===== src/Pages.antt =====
-- The parts of an address of inc/mmu.h, the rounding of inc/types.h, and the two tables of
-- kern/entrypgdir.c that map the first 4 MB at 0 and at KERNBASE; the page table is `Table`.
-- The address of `entry_pgtable` is the linker's: it is the argument `pgtable`.
pub mod Layout
pub mod Table
pub mod Entry
pub mod Rounding
use jos.Prelude.{ℕ, ◌+◌, ◌-◌, ◌*◌, ◌/◌, ◌%◌, ◌^◌, ◌==◌, if◌then◌else◌, bit_and, bit_or}

abbrev pub kernbase : ℕ
kernbase = 0xF0000000

abbrev pub pte_p : ℕ
pte_p = 1

abbrev pub pte_w : ℕ
pte_w = 2

unfoldable pub pgnum : ℕ → ℕ
pgnum la = la / 2 ^ 12

unfoldable pub pdx : ℕ → ℕ
pdx la = bit_and (la / 2 ^ 22) 0x3FF

unfoldable pub ptx : ℕ → ℕ
ptx la = bit_and (la / 2 ^ 12) 0x3FF

unfoldable pub pgoff : ℕ → ℕ
pgoff la = bit_and la 0xFFF

-- The shifts stay below `2 ^ 32` for parts in their ranges.
unfoldable pub pgaddr : ℕ → ℕ → ℕ → ℕ
pgaddr d t o = bit_or (bit_or (d * 2 ^ 22) (t * 2 ^ 12)) o

-- `~0xFFF` has the 20 higher bits.
unfoldable pub pte_addr : ℕ → ℕ
pte_addr pte = bit_and pte (2 ^ 32 - 2 ^ 12)

-- Entry 0 and entry `KERNBASE >> PDXSHIFT`; the other entries are 0.
unfoldable pub entry_pgdir : ℕ → ℕ → ℕ
entry_pgdir pgtable i =
    if i == 0
    then (pgtable + (2 ^ 32 - kernbase)) % 2 ^ 32 + pte_p
    else if i == kernbase / 2 ^ 22
    then (pgtable + (2 ^ 32 - kernbase)) % 2 ^ 32 + pte_p + pte_w
    else 0

-- `a` is 32 bits wide and `n` is not 0.
unfoldable pub rounddown : ℕ → ℕ → ℕ
rounddown a n = a - a % n

unfoldable pub roundup : ℕ → ℕ → ℕ
unfolding rounddown
roundup a n = rounddown ((a + n + (2 ^ 32 - 1)) % 2 ^ 32) n
