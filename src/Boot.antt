-- ===== src/Boot.antt =====
-- boot/main.c: the loader reads the kernel image from the disk, in sectors of 512 bytes.
-- The disk controller is not part of the program; `readsect` is the transfer that it makes for the
-- commands that are written to its ports, and `Disk` is what the sectors hold.
pub mod Segment
pub mod Command
pub mod Loader
use jos.Prelude.{
  ℕ, zero, suc, ◌+◌, ◌-◌, ◌*◌, ◌/◌, ◌%◌, ◌^◌, Option, none, some, List, [], ◌∷◌, ltb, if◌then◌else◌,
  bit_or,
}
use jos.Memory.{Mem}

abbrev pub sectsize : ℕ
sectsize = 512

-- The bytes of the disk; sector `n` is the 512 bytes from `n * 512` on.
abbrev pub Disk : Type 0
Disk = ℕ → ℕ

-- `insl(0x1F0, dst, SECTSIZE/4)`: the bytes of the sector, at `dst`.
unfoldable pub readsect : Disk → Mem → ℕ → ℕ → Mem
readsect disk m dst offset a =
    if ltb a dst
    then m a
    else if ltb a (dst + sectsize)
    then disk (offset * sectsize + (a - dst))
    else m a

-- The bytes that `readsect` writes to ports 0x1F2 to 0x1F7: the count, the sector's number, the
-- command.
unfoldable pub command : ℕ → List ℕ
command offset =
    1
    ∷ offset % 2 ^ 8
    ∷ offset / 2 ^ 8 % 2 ^ 8
    ∷ offset / 2 ^ 16 % 2 ^ 8
    ∷ bit_or (offset / 2 ^ 24) 0xE0 % 2 ^ 8
    ∷ 0x20
    ∷ []

-- `while (pa < end_pa)`, on fuel; `uint32_t` arithmetic wraps.
readseg_loop : ℕ → Disk → Mem → ℕ → ℕ → ℕ → Option Mem
readseg_loop zero disk m pa end_pa offset = none
readseg_loop (suc k) disk m pa end_pa offset =
    let rest =
      readseg_loop k disk (readsect disk m pa offset) ((pa + sectsize) % 2 ^ 32) end_pa
        ((offset + 1) % 2 ^ 32) in
    if ltb pa end_pa then rest else some m

unfoldable pub readseg : ℕ → Disk → Mem → ℕ → ℕ → ℕ → Option Mem
unfolding readseg_loop
readseg k disk m pa count offset =
    let end_pa = (pa + count) % 2 ^ 32 in
    readseg_loop k disk m (pa / sectsize * sectsize) end_pa (offset / sectsize + 1)
