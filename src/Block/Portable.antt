-- ===== src/Block/Portable.antt =====
-- `memset` and `memmove` of lib/string.c as they are where `ASM` is 0.
use jos.Prelude.{ℕ, zero, suc, ◌+◌, ◌-◌, ◌%◌, ◌^◌, ◌&&◌, ltb, if◌then◌else◌}
use jos.Memory.{Mem, store}

-- `while (--m >= 0) *p++ = c;`
unfoldable pub memset_loop : Mem → ℕ → ℕ → ℕ → Mem
memset_loop m p c zero = m
memset_loop m p c (suc n) = memset_loop (store m p (c % 2 ^ 8)) (p + 1) c n

-- From 2^31 bytes on the `int m` is negative, and the loop makes no round; at 2^31 itself `--m` overflows,
-- which C leaves undefined.
unfoldable pub memset : Mem → ℕ → ℕ → ℕ → ℕ × Mem
unfolding memset_loop
memset m v c n = if ltb n (2 ^ 31) then (v, memset_loop m v c n) else (v, m)

-- `while (n-- > 0) *--d = *--s;`
unfoldable pub move_down : Mem → ℕ → ℕ → ℕ → Mem
move_down m d s zero = m
move_down m d s (suc n) = move_down (store m (d - 1) (m (s - 1))) (d - 1) (s - 1) n

-- `while (n-- > 0) *d++ = *s++;`
unfoldable pub move_up : Mem → ℕ → ℕ → ℕ → Mem
move_up m d s zero = m
move_up m d s (suc n) = move_up (store m d (m s)) (d + 1) (s + 1) n

unfoldable pub memmove : Mem → ℕ → ℕ → ℕ → ℕ × Mem
unfolding move_down move_up
memmove m dst src n =
    if ltb src dst && ltb dst (src + n)
    then (dst, move_down m (dst + n) (src + n) n)
    else (dst, move_up m dst src n)
