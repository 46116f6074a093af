-- ===== src/Block.antt =====
-- The routines of lib/string.c on blocks of bytes: `memset`, `memmove`, `memcpy` in the version that
-- is compiled (`#if ASM`), `memcmp` and `memfind`.
-- `rep stosb`, `stosl`, `movsb` and `movsl` are loops that count %ecx down: they recur on it.
pub mod Fill
pub mod Move
pub mod Portable
pub mod Scan
use jos.Prelude.{
  ℕ, zero, suc, ◌+◌, ◌-◌, ◌*◌, ◌/◌, ◌%◌, ◌^◌, Bool, ◌&&◌, ◌==◌, ltb, if◌then◌else◌, bit_or,
}
use jos.Prelude.Int.{ℤ, pos, sub_ℕ}
use jos.Memory.{Mem, store}

-- `stosl` writes the four bytes of %eax, the lowest first.
store_long : Mem → ℕ → ℕ → Mem
store_long m d w =
    store
      (store (store (store m d (w % 2 ^ 8)) (d + 1) (w / 2 ^ 8 % 2 ^ 8)) (d + 2)
        (w / 2 ^ 16 % 2 ^ 8))
      (d + 3) (w / 2 ^ 24 % 2 ^ 8)

rep_stosb : Mem → ℕ → ℕ → ℕ → Mem
rep_stosb m d a zero = m
rep_stosb m d a (suc n) = rep_stosb (store m d (a % 2 ^ 8)) (d + 1) a n

rep_stosl : Mem → ℕ → ℕ → ℕ → Mem
rep_stosl m d a zero = m
rep_stosl m d a (suc n) = rep_stosl (store_long m d a) (d + 4) a n

-- `(c<<24)|(c<<16)|(c<<8)|c`
spread : ℕ → ℕ
spread c = bit_or (bit_or (bit_or (c * 2 ^ 24) (c * 2 ^ 16)) (c * 2 ^ 8)) c

-- `c` is the 32-bit pattern of the argument. An address is a multiple of 4 as an `int` exactly
-- when it is one as an unsigned number.
unfoldable pub memset : Mem → ℕ → ℕ → ℕ → ℕ × Mem
unfolding rep_stosb rep_stosl store_long spread
memset m v c n =
    if n == 0
    then (v, m)
    else if v % 4 == 0 && n % 4 == 0
    then (v, rep_stosl m v (spread (c % 2 ^ 8)) (n / 4))
    else (v, rep_stosb m v c n)

-- `movsl` reads four bytes and then writes them.
move_long : Mem → ℕ → ℕ → Mem
move_long m d s =
    store (store (store (store m d (m s)) (d + 1) (m (s + 1))) (d + 2) (m (s + 2))) (d + 3)
      (m (s + 3))

-- With the direction flag clear the registers move up behind each transfer,
rep_movsb_up : Mem → ℕ → ℕ → ℕ → Mem
rep_movsb_up m d s zero = m
rep_movsb_up m d s (suc n) = rep_movsb_up (store m d (m s)) (d + 1) (s + 1) n

rep_movsl_up : Mem → ℕ → ℕ → ℕ → Mem
rep_movsl_up m d s zero = m
rep_movsl_up m d s (suc n) = rep_movsl_up (move_long m d s) (d + 4) (s + 4) n

-- and with the flag set (`std`) they move down. No transfer follows the one that ends at `s`, so it
-- does not matter that the subtraction stops at 0 there.
rep_movsb_down : Mem → ℕ → ℕ → ℕ → Mem
rep_movsb_down m d s zero = m
rep_movsb_down m d s (suc n) = rep_movsb_down (store m d (m s)) (d - 1) (s - 1) n

rep_movsl_down : Mem → ℕ → ℕ → ℕ → Mem
rep_movsl_down m d s zero = m
rep_movsl_down m d s (suc n) = rep_movsl_down (move_long m d s) (d - 4) (s - 4) n

longs : ℕ → ℕ → ℕ → Bool
longs s d n = s % 4 == 0 && d % 4 == 0 && n % 4 == 0

unfoldable pub memmove : Mem → ℕ → ℕ → ℕ → ℕ × Mem
unfolding longs move_long rep_movsb_up rep_movsl_up rep_movsb_down rep_movsl_down
memmove m dst src n =
    if ltb src dst && ltb dst (src + n)
    then (let s = src + n in
        let d = dst + n in
        if longs s d n
        then (dst, rep_movsl_down m (d - 4) (s - 4) (n / 4))
        else (dst, rep_movsb_down m (d - 1) (s - 1) n))
    else if longs src dst n
    then (dst, rep_movsl_up m dst src (n / 4))
    else (dst, rep_movsb_up m dst src n)

unfoldable pub memcpy : Mem → ℕ → ℕ → ℕ → ℕ × Mem
unfolding memmove
memcpy m dst src n = memmove m dst src n

unfoldable pub memcmp : Mem → ℕ → ℕ → ℕ → ℤ
memcmp m s1 s2 zero = pos 0
memcmp m s1 s2 (suc n) =
    let rest = memcmp m (s1 + 1) (s2 + 1) n in if m s1 == m s2 then rest else sub_ℕ (m s1) (m s2)

-- `for (; s < ends; s++)`: the bytes left are `ends - s`.
memfind_loop : Mem → ℕ → ℕ → ℕ → ℕ
memfind_loop m s c zero = s
memfind_loop m s c (suc n) =
    let rest = memfind_loop m (s + 1) c n in if m s == c % 2 ^ 8 then s else rest

unfoldable pub memfind : Mem → ℕ → ℕ → ℕ → ℕ
unfolding memfind_loop
memfind m s c n = memfind_loop m s c n
