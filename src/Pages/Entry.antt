-- ===== src/Pages/Entry.antt =====
-- The parts of an address, and what the two tables say of each address.
use jos.Prelude.{
  ℕ, ◌+◌, ◌-◌, ◌*◌, ◌/◌, ◌%◌, ◌^◌, ◌<◌, ◌≤◌, ◌≡◌, ◌≢◌, ◌⊎◌, inl, inr, refl, ap, ◌∙◌, Bool, true,
  ◌&&◌, ◌==◌, bit_and, bit_or, length, arith,
}
use mathlib.Core.Path.{subst}
use jos.Prelude.Bits.{bit_and_ones, bit_and_shifted, bit_or-add}
use jos.Prelude.Table.{all_numbered, all_numbered_at}
use jos.Pages.{kernbase, pte_p, pte_w, pdx, ptx, pgoff, pgaddr, pte_addr, entry_pgdir}
use jos.Pages.Table.{row, pgtable_rows, entry_pgtable}

pdx_mod : (la : ℕ) → pdx la ≡ la / 2 ^ 22 % 2 ^ 10
unfolding pdx
pdx_mod la = bit_and_ones 10 (la / 2 ^ 22)

ptx_mod : (la : ℕ) → ptx la ≡ la / 2 ^ 12 % 2 ^ 10
unfolding ptx
ptx_mod la = bit_and_ones 10 (la / 2 ^ 12)

pgoff_mod : (la : ℕ) → pgoff la ≡ la % 2 ^ 12
unfolding pgoff
pgoff_mod la = bit_and_ones 12 la

pgaddr_sum : (d t o : ℕ) → t < 2 ^ 10 → o < 2 ^ 12 → pgaddr d t o ≡ d * 2 ^ 22 + t * 2 ^ 12 + o
unfolding pgaddr
pgaddr_sum d t o h h' =
    let inner : bit_or (d * 2 ^ 22) (t * 2 ^ 12) ≡ d * 2 ^ 22 + t * 2 ^ 12 =
      bit_or-add 22 d (d * 2 ^ 22) (t * 2 ^ 12) refl (omega arith) in
    ap (λ x. bit_or x o) inner
    ∙ bit_or-add 12 (d * 2 ^ 10 + t) (d * 2 ^ 22 + t * 2 ^ 12) o (omega arith) h'

-- The three parts of a 32-bit address give it back, and each part is below its bound.
pgaddr_lem :
    (la : ℕ)
    → la < 2 ^ 32
    → (pgaddr (pdx la) (ptx la) (pgoff la) ≡ la)
      × (pdx la < 1024)
      × (ptx la < 1024)
      × (pgoff la < 4096)
pgaddr_lem la h =
    let d = pdx_mod la in
    let t = ptx_mod la in
    let o = pgoff_mod la in
    (
      pgaddr_sum (pdx la) (ptx la) (pgoff la) (omega arith) (omega arith) ∙ omega arith,
      omega arith,
      omega arith,
      omega arith,
    )

-- What the check of the table tests of the entry with number `i`.
entry : ℕ → ℕ → Bool
unfolding pte_addr
entry i pte = (pte_addr pte == i * 2 ^ 12) && (bit_and pte (pte_p + pte_w) == pte_p + pte_w)

entry_table : all_numbered entry 0 pgtable_rows ≡ true
unfolding all_numbered entry row
entry_table = refl

length-pgtable_rows : length pgtable_rows ≡ 1024
unfolding row
length-pgtable_rows = refl

pte_addr_lem : (pte : ℕ) → pte < 2 ^ 32 → pte_addr pte ≡ pte / 2 ^ 12 * 2 ^ 12
unfolding pte_addr
pte_addr_lem pte h =
    omega (arith, bit_and_shifted 12 (2 ^ 20 - 1) pte, bit_and_ones 20 (pte / 2 ^ 12))

-- What the directory says for the number of an entry.
pgdir_zero : (pgtable i : ℕ) → i ≢ 0 → i ≢ 960 → entry_pgdir pgtable i ≡ 0
unfolding entry_pgdir
pgdir_zero pgtable i h h' = ground arith

pgdir_low :
    (pgtable : ℕ)
    → kernbase ≤ pgtable
    → pgtable < 2 ^ 32
    → entry_pgdir pgtable 0 ≡ pgtable - kernbase + 1
unfolding entry_pgdir
pgdir_low pgtable h h' = omega arith

pgdir_high :
    (pgtable : ℕ)
    → kernbase ≤ pgtable
    → pgtable < 2 ^ 32
    → entry_pgdir pgtable 960 ≡ pgtable - kernbase + 3
unfolding entry_pgdir
pgdir_high pgtable h h' = omega arith

pgtable_lem :
    (i : ℕ)
    → i < 1024
    → (pte_addr (entry_pgtable i) ≡ i * 2 ^ 12) × (bit_and (entry_pgtable i) 3 ≡ 3)
unfolding entry entry_pgtable
pgtable_lem i h =
    let e =
      all_numbered_at entry 0 pgtable_rows i 0 entry_table (omega (arith, length-pgtable_rows)) in
    ground arith

-- The two entries of an address say that it stands for the frame `pa`, with the directory's `flags`.
abbrev pub Maps : ℕ → ℕ → ℕ → ℕ → Type 0
Maps pgtable la pa flags =
    (pte_addr (entry_pgdir pgtable (pdx la)) ≡ pgtable - kernbase)
    × (bit_and (entry_pgdir pgtable (pdx la)) (pte_p + pte_w) ≡ flags)
    × (pte_addr (entry_pgtable (ptx la)) + pgoff la ≡ pa)
    × (bit_and (entry_pgtable (ptx la)) (pte_p + pte_w) ≡ pte_p + pte_w)

flags_mod : (pte : ℕ) → bit_and pte 3 ≡ pte % 4
flags_mod pte = bit_and_ones 2 pte

-- An address whose directory entry is the page table's address with some flags.
maps :
    (pgtable la flags : ℕ)
    → la < 2 ^ 32
    → pgtable % 4096 ≡ 0
    → pgtable < 2 ^ 32
    → flags < 4
    → entry_pgdir pgtable (pdx la) ≡ pgtable - kernbase + flags
    → kernbase ≤ pgtable
    → Maps pgtable la (la % 2 ^ 22) flags
maps pgtable la flags lt aligned below few e high =
    let t = ptx_mod la in
    let (at, present) = pgtable_lem (ptx la) (omega arith) in
    (
      ap pte_addr e ∙ pte_addr_lem (pgtable - kernbase + flags) (omega arith) ∙ omega arith,
      ap (λ x. bit_and x 3) e ∙ flags_mod (pgtable - kernbase + flags) ∙ omega arith,
      omega (arith, pgoff_mod la),
      present,
    )

-- With the page table on a page boundary above KERNBASE, the addresses below 4 MB stand for
-- themselves, and their directory entry does not allow writing.
entry_pgdir_low :
    (pgtable la : ℕ)
    → pgtable % 4096 ≡ 0
    → kernbase ≤ pgtable
    → pgtable < 2 ^ 32
    → la < 2 ^ 22
    → Maps pgtable la la pte_p
entry_pgdir_low pgtable la aligned high below low =
    let small : la % 2 ^ 22 ≡ la = omega arith in
    let d : pdx la ≡ 0 = omega (arith, pdx_mod la) in
    let e = ap (entry_pgdir pgtable) d ∙ pgdir_low pgtable high below in
    subst (λ pa. Maps pgtable la pa pte_p) small
      (maps pgtable la 1 (omega arith) aligned below (omega arith) e high)

-- With the page table on a page boundary above KERNBASE, the 4 MB from KERNBASE on stand for the first
-- 4 MB of physical memory and may be written.
pub entry_pgdir-kernbase :
    (pgtable la : ℕ)
    → pgtable % 4096 ≡ 0
    → kernbase ≤ pgtable
    → pgtable < 2 ^ 32
    → kernbase ≤ la
    → la < kernbase + 2 ^ 22
    → Maps pgtable la (la - kernbase) (pte_p + pte_w)
entry_pgdir-kernbase pgtable la aligned high below from to =
    let part : la % 2 ^ 22 ≡ la - kernbase = omega arith in
    let d : pdx la ≡ 960 = omega (arith, pdx_mod la) in
    let e = ap (entry_pgdir pgtable) d ∙ pgdir_high pgtable high below in
    subst (λ pa. Maps pgtable la pa 3) part
      (maps pgtable la 3 (omega arith) aligned below (omega arith) e high)

-- No other 32-bit address is mapped: its directory entry is 0.
entry_pgdir_zero :
    (pgtable la : ℕ)
    → la < 2 ^ 32
    → 2 ^ 22 ≤ la
    → (la < kernbase) ⊎ (kernbase + 2 ^ 22 ≤ la)
    → entry_pgdir pgtable (pdx la) ≡ 0
entry_pgdir_zero pgtable la lt above out =
    let d = pdx_mod la in pgdir_zero pgtable (pdx la) (λ e. omega arith) (other out d)
  where
    other :
        (la < kernbase) ⊎ (kernbase + 2 ^ 22 ≤ la) → pdx la ≡ la / 2 ^ 22 % 2 ^ 10 → pdx la ≢ 960
    other (inl h) d e = omega arith
    other (inr h) d e = omega arith
