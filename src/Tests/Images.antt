-- ===== src/Tests/Images.antt =====
-- The boot loader on an image of two segments.
use jos.Prelude.{ℕ, ◌+◌, ◌-◌, ◌*◌, ◌%◌, ◌≡◌, ◌≤◌, some, refl, ◌==◌, leb, if◌then◌else◌, arith}
use jos.Memory.{Mem, load16, load32}
use jos.Boot.{Disk}
use jos.Boot.Loader.{elf_at, elf_magic, elfhdr, enters, bootmain}
use jos.Boot.Loader.Segments.{image, Segments, AreLoaded, bootmain_lem}

-- The ELF header, with the entry point 0x10000c and two program headers at 52: 700 bytes from 0x1000
-- on, for 0x100000, and 16 bytes from 0x2000 on, for 0x101000.
abbrev headers : ℕ → ℕ
headers i =
    if i == 0
    then 0x7F
    else if i == 1
    then b'E'
    else if i == 2
    then b'L'
    else if i == 3
    then b'F'
    else if i == 24
    then 0x0C
    else if i == 26
    then 0x10
    else if i == 28
    then 52
    else if i == 44
    then 2
    else if i == 57
    then 0x10
    else if i == 66
    then 0x10
    else if i == 72
    then 0xBC
    else if i == 73
    then 2
    else if i == 89
    then 0x20
    else if i == 97
    then 0x10
    else if i == 98
    then 0x10
    else if i == 104
    then 16
    else 0

abbrev disk : Disk
disk a = if leb 0x1000 (a - 512) then a % 251 else headers (a - 512)

is_elf : (elf_at (image disk) 0).e_magic ≡ elf_magic
unfolding load32
is_elf = refl

headers_fit : (elf_at (image disk) 0).e_phoff + 32 * (elf_at (image disk) 0).e_phnum ≤ 4096
unfolding load32 load16
headers_fit = omega arith

Segments-disk :
    Segments 11 disk (elf_at (image disk) 0).e_phnum (elf_at (image disk) 0).e_phoff (elfhdr + 4096)
unfolding load32 load16
Segments-disk = (
  omega arith,
  refl,
  omega arith,
  omega arith,
  omega arith,
  (omega arith, refl, omega arith, omega arith, omega arith, tt),
)

bootmain_lem_example :
    (m' : Mem) × (bootmain 11 disk (λ a. 0) ≡ some (enters (elf_at (image disk) 0).e_entry m'))
    × AreLoaded 11 disk (elf_at (image disk) 0).e_phnum (elf_at (image disk) 0).e_phoff m'
bootmain_lem_example =
    bootmain_lem 11 disk (λ a. 0) is_elf headers_fit Segments-disk (omega arith) (omega arith)
