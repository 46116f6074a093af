-- ===== src/Boot/Command.antt =====
-- The bytes that `readsect` gives the disk controller spell the number of the sector.
use jos.Prelude.{ℕ, ◌+◌, ◌*◌, ◌/◌, ◌%◌, ◌^◌, ◌<◌, ◌≡◌, refl, List, get_or, bit_or, arith}
use jos.Prelude.Bits.{bit_or_low}
use jos.Boot.{command}

-- The 28-bit sector number and the high bits of the drive register, as the controller reads them.
unfoldable pub sector_number : List ℕ → ℕ
sector_number bytes =
    get_or bytes 1 0
    + get_or bytes 2 0 * 2 ^ 8
    + get_or bytes 3 0 * 2 ^ 16
    + get_or bytes 4 0 % 2 ^ 4 * 2 ^ 24

-- For a sector below `2 ^ 28` the controller reads the number of that sector, LBA mode on the first
-- drive (0xE), one sector, and the command to read.
command_lem :
    (offset : ℕ)
    → offset < 2 ^ 28
    → (sector_number (command offset) ≡ offset)
      × (get_or (command offset) 4 0 / 2 ^ 4 ≡ 0xE)
      × (get_or (command offset) 0 0 ≡ 1)
      × (get_or (command offset) 5 0 ≡ 0x20)
unfolding command sector_number
command_lem offset h =
    let drive : bit_or (offset / 2 ^ 24) 0xE0 ≡ 0xE0 + offset / 2 ^ 24 =
      bit_or_low 4 0xE (offset / 2 ^ 24) (omega arith) in
    (rw drive (omega arith), rw drive (omega arith), refl, refl)
