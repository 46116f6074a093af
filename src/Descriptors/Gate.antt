-- ===== src/Descriptors/Gate.antt =====
-- What the processor reads from the bytes of a gate.
use jos.Prelude.{
  ℕ, ◌+◌, ◌*◌, ◌/◌, ◌%◌, ◌^◌, ◌<◌, ◌≡◌, List, get_or, Bool, if◌then◌else◌, true, false, arith,
}
use jos.Prelude.Bits.{bit_and_ones}
use jos.Descriptors.{Gatedesc, setgate, setcallgate, gatedesc_bytes, sts_cg32, sts_ig32, sts_tg32}

-- The processor's reading of a present 32-bit gate without arguments: the offset from the first and
-- the last two bytes, the selector from bytes 2 and 3, the type and the level from byte 5.
abbrev pub IsGate : List ℕ → (type sel off dpl : ℕ) → Type 0
IsGate d type sel off dpl =
    (get_or d 0 0 + get_or d 1 0 * 2 ^ 8 + get_or d 6 0 * 2 ^ 16 + get_or d 7 0 * 2 ^ 24 ≡ off)
    × (get_or d 2 0 + get_or d 3 0 * 2 ^ 8 ≡ sel)
    × (get_or d 4 0 ≡ 0)
    × (get_or d 5 0 % 2 ^ 5 ≡ type)
    × (get_or d 5 0 / 2 ^ 5 % 2 ^ 2 ≡ dpl)
    × (get_or d 5 0 / 2 ^ 7 ≡ 1)

-- Whatever the gate was, the processor reads from it after SETGATE a trap or an interrupt gate, and
-- after SETCALLGATE a call gate, with the given selector, offset and level.
pub setgate-IsGate :
    (gate : Gatedesc) (istrap : Bool) (sel off dpl : ℕ)
    → sel < 2 ^ 16
    → off < 2 ^ 32
    → dpl < 4
    → IsGate
        (gatedesc_bytes (setgate gate istrap sel off dpl))
        (if istrap then sts_tg32 else sts_ig32)
        sel
        off
        dpl
      × IsGate (gatedesc_bytes (setcallgate gate sel off dpl)) sts_cg32 sel off dpl
unfolding gatedesc_bytes setgate setcallgate
setgate-IsGate gate true sel off dpl hs ho hd = ground (arith, bit_and_ones 16 off)
setgate-IsGate gate false sel off dpl hs ho hd = ground (arith, bit_and_ones 16 off)
