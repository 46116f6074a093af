-- ===== src/Memory.antt =====
-- The flat byte memory that the C code of lib/string.c works on, and NUL-terminated strings in it.
pub mod Frame
pub mod Regions
use jos.Prelude.{
  ℕ, ◌+◌, ◌-◌, ◌*◌, ◌^◌, ◌≤◌, ◌<◌, ◌≡◌, ◌≢◌, ◌⊎◌, Bool, ◌&&◌, List, [], ◌∷◌, ◌==◌, ltb, leb,
  if◌then◌else◌,
}

-- The byte at each address. The boot loader and the kernel run with all addresses mapped.
abbrev pub Mem : Type 0
Mem = ℕ → ℕ

-- `*p = v` for a `char` pointer.
unfoldable pub store : Mem → ℕ → ℕ → Mem
store m p v a = if a == p then v else m a

-- `*p` for a pointer to `uint16_t` and to `uint32_t`: the low byte comes first.
unfoldable pub load16 : Mem → ℕ → ℕ
load16 m p = m p + m (p + 1) * 2 ^ 8

unfoldable pub load32 : Mem → ℕ → ℕ
load32 m p = m p + m (p + 1) * 2 ^ 8 + m (p + 2) * 2 ^ 16 + m (p + 3) * 2 ^ 24

-- The address `a` lies in the `n` bytes from `p` on.
abbrev pub within : ℕ → ℕ → ℕ → Bool
within p n a = leb p a && ltb a (p + n)

-- The memory after the `n` bytes at `s` have been copied to `d`, all at once.
unfoldable pub copied : Mem → ℕ → ℕ → ℕ → Mem
copied m d s n a = if within d n a then m (s + (a - d)) else m a

-- The memory after the `n` bytes from `p` on have been set to `v`.
unfoldable pub filled : Mem → ℕ → ℕ → ℕ → Mem
filled m p v n a = if within p n a then v else m a

abbrev pub Outside : ℕ → ℕ → ℕ → Type 0
Outside p n a = (a < p) ⊎ (p + n ≤ a)

-- The two memories differ at most in the `n` bytes from `p` on.
abbrev pub SameOutside : Mem → Mem → ℕ → ℕ → Type 0
SameOutside m' m p n = (a : ℕ) → Outside p n a → m' a ≡ m a

-- At `p` stand the bytes of `s`, none of them NUL, and a NUL behind them.
abbrev pub CString : Mem → ℕ → List ℕ → Type 0
CString m p [] = m p ≡ 0
CString m p (c ∷ s) = (m p ≡ c) × (c ≢ 0) × CString m (p + 1) s
