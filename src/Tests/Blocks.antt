-- ===== src/Tests/Blocks.antt =====
-- The theorems of `Block` at small memories, overlapping and aligned blocks among them.
use jos.Prelude.{◌≡◌, refl}
use jos.Memory.{Mem, store, copied, filled}
use jos.Block.{memset, memmove}
use jos.Block.Portable
use jos.Block.Fill.{memset_lem}
use jos.Block.Move.{memmove_lem, memmove-portable}
use jos.Tests.Memory.{holding}

abbrev digits : Mem
digits = holding "0123456789abcdef"

-- Moved up by 4 in place, by longs and with the direction flag set.
moved_down :
    let m' = (memmove digits 104 100 8).1 in (m' 104 ≡ b'0') × (m' 108 ≡ b'4') × (m' 111 ≡ b'7')
unfolding memmove store
moved_down = (refl, refl, refl)

memset_lem_example : memset digits 100 0x141 8 ≡ (100, filled digits 100 0x41 8)
memset_lem_example = memset_lem digits 100 0x141 8

memmove_lem_example : memmove digits 104 100 8 ≡ (104, copied digits 104 100 8)
memmove_lem_example = memmove_lem digits 104 100 8

memmove-portable_example : memmove digits 103 100 7 ≡ Portable.memmove digits 103 100 7
memmove-portable_example = memmove-portable digits 103 100 7
