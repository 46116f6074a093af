-- ===== src/Descriptors/Seg.antt =====
-- What the processor reads from the bytes of a segment descriptor, and the two macros SEG.
use jos.Prelude.{
  ℕ, ◌+◌, ◌-◌, ◌*◌, ◌/◌, ◌%◌, ◌^◌, ◌<◌, ◌≡◌, bit_and, bit_or, List, get_or, ◌==◌, if◌then◌else◌,
  arith,
}
use jos.Prelude.Bits.{bit_and_ones, bit_or_high}
use jos.Descriptors.{seg, seg16, segdesc_bytes, seg_bytes}

-- A C descriptor of privilege level 0 is, byte by byte, the assembler's.
pub seg-seg_bytes :
    (type base lim : ℕ)
    → type < 16
    → base < 2 ^ 32
    → lim < 2 ^ 32
    → segdesc_bytes (seg type base lim 0) ≡ seg_bytes type base lim
unfolding segdesc_bytes seg seg_bytes
seg-seg_bytes type base lim ht hb hl =
    let ones = bit_and_ones in
    let t : bit_or 144 type ≡ 144 + type = bit_or_high 4 9 type ht in
    let l : bit_or 192 (bit_and (lim / 2 ^ 28) 15) ≡ 192 + bit_and (lim / 2 ^ 28) 15 =
      bit_or_high 4 12 (bit_and (lim / 2 ^ 28) 15) (omega (arith, bit_and_ones 4 (lim / 2 ^ 28))) in
    ground (
      arith,
      t,
      l,
      bit_and_ones 16 (lim / 2 ^ 12),
      bit_and_ones 16 base,
      bit_and_ones 8 (base / 2 ^ 16),
      bit_and_ones 8 (base / 2 ^ 24),
      bit_and_ones 4 (lim / 2 ^ 28),
    )

-- The processor's reading: the base from bytes 2 to 4 and 7, the limit from bytes 0 and 1 and the low
-- half of byte 6, the flags from byte 5 and the high half of byte 6.
unfoldable pub base_of : List ℕ → ℕ
base_of d = get_or d 2 0 + get_or d 3 0 * 2 ^ 8 + get_or d 4 0 * 2 ^ 16 + get_or d 7 0 * 2 ^ 24

-- The last offset in the segment: a granular limit counts pages.
unfoldable pub last_of : List ℕ → ℕ
last_of d =
    let limit = get_or d 0 0 + get_or d 1 0 * 2 ^ 8 + get_or d 6 0 % 2 ^ 4 * 2 ^ 16 in
    if get_or d 6 0 / 2 ^ 7 == 1 then limit * 2 ^ 12 + (2 ^ 12 - 1) else limit

-- A present 32-bit segment of code or data with this type, privilege level, base and last offset.
abbrev pub Describes : List ℕ → (type dpl base last : ℕ) → Type 0
Describes d type dpl base last =
    (base_of d ≡ base)
    × (last_of d ≡ last)
    × (get_or d 5 0 % 2 ^ 4 ≡ type)
    × (get_or d 5 0 / 2 ^ 4 % 2 ≡ 1)
    × (get_or d 5 0 / 2 ^ 5 % 2 ^ 2 ≡ dpl)
    × (get_or d 5 0 / 2 ^ 7 ≡ 1)
    × (get_or d 6 0 / 2 ^ 6 % 2 ≡ 1)

-- The processor reads from a SEG descriptor its type, level and base, and the end of the page of its
-- limit as the last offset.
pub seg-Describes :
    (type base lim dpl : ℕ)
    → type < 16
    → base < 2 ^ 32
    → lim < 2 ^ 32
    → dpl < 4
    → Describes
        (segdesc_bytes (seg type base lim dpl))
        type
        dpl
        base
        (lim / 2 ^ 12 * 2 ^ 12 + (2 ^ 12 - 1))
unfolding segdesc_bytes seg base_of last_of
seg-Describes type base lim dpl ht hb hl hd =
    ground
      (arith, bit_and_ones 16 (lim / 2 ^ 12), bit_and_ones 16 base, bit_and_ones 8 (base / 2 ^ 16))

-- The processor reads from a SEG16 descriptor its type, level and base, and its limit as the last
-- offset, if the limit has 20 bits.
pub seg16-Describes :
    (type base lim dpl : ℕ)
    → type < 16
    → base < 2 ^ 32
    → lim < 2 ^ 20
    → dpl < 4
    → Describes (segdesc_bytes (seg16 type base lim dpl)) type dpl base lim
unfolding segdesc_bytes seg16 base_of last_of
seg16-Describes type base lim dpl ht hb hl hd =
    ground (arith, bit_and_ones 16 lim, bit_and_ones 16 base, bit_and_ones 8 (base / 2 ^ 16))
