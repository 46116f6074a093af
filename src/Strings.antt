-- ===== src/Strings.antt =====
-- The routines of lib/string.c on NUL-terminated strings, over the byte memory of `Memory`.
-- A loop that only a NUL stops runs on fuel, and `none` says that the fuel ran out; a loop that
-- counts `size` down recurs on it. A pointer is its address, and pointer arithmetic is addition.
pub mod Measure
pub mod Copy
pub mod Compare
pub mod Find
pub mod Scan
use jos.Prelude.{ℕ, zero, suc, ◌+◌, ◌-◌, ◌&&◌, not, Option, none, some, ◌==◌, if◌then◌else◌}
use jos.Prelude.Int.{ℤ, pos, sub_ℕ}
use jos.Memory.{Mem, store}

strlen_loop : ℕ → Mem → ℕ → ℕ → Option ℕ
strlen_loop zero m s n = none
strlen_loop (suc k) m s n =
    let rest = strlen_loop k m (s + 1) (n + 1) in if m s == 0 then some n else rest

unfoldable pub strlen : ℕ → Mem → ℕ → Option ℕ
unfolding strlen_loop
strlen k m s = strlen_loop k m s 0

strnlen_loop : Mem → ℕ → ℕ → ℕ → ℕ
strnlen_loop m s zero n = n
strnlen_loop m s (suc size) n =
    let rest = strnlen_loop m (s + 1) size (n + 1) in if m s == 0 then n else rest

unfoldable pub strnlen : Mem → ℕ → ℕ → ℕ
unfolding strnlen_loop
strnlen m s size = strnlen_loop m s size 0

-- Each round writes `*dst = *src`, and the NUL ends the loop after it is written.
strcpy_loop : ℕ → Mem → ℕ → ℕ → Option Mem
strcpy_loop zero m dst src = none
strcpy_loop (suc k) m dst src =
    let rest = strcpy_loop k (store m dst (m src)) (dst + 1) (src + 1) in
    if m src == 0 then some (store m dst (m src)) else rest

-- The result is the pointer that the function returns and the memory that it leaves.
unfoldable pub strcpy : ℕ → Mem → ℕ → ℕ → Option (ℕ × Mem)
unfolding strcpy_loop
strcpy k m dst src = elim (strcpy_loop k m dst src) [ none ↦ none | some m' ↦ some (dst, m') ]

unfoldable pub strcat : ℕ → Mem → ℕ → ℕ → Option (ℕ × Mem)
unfolding strlen strcpy
strcat k m dst src = elim (strlen k m dst) [
  | none ↦ none
  | some len ↦ elim (strcpy k m (dst + len) src) [ none ↦ none | some (_, m') ↦ some (dst, m') ]
]

-- `src` stays on the NUL once it has got there, so the rest of `dst` is padded.
strncpy_loop : Mem → ℕ → ℕ → ℕ → Mem
strncpy_loop m dst src zero = m
strncpy_loop m dst src (suc size) =
    let m' = store m dst (m src) in
    strncpy_loop m' (dst + 1) (if m' src == 0 then src else src + 1) size

unfoldable pub strncpy : Mem → ℕ → ℕ → ℕ → ℕ × Mem
unfolding strncpy_loop
strncpy m dst src size = (dst, strncpy_loop m dst src size)

-- `while (--size > 0 && *src != '\0')`: the counter is `size` after the first decrement.
strlcpy_loop : Mem → ℕ → ℕ → ℕ → ℕ × Mem
strlcpy_loop m dst src zero = (dst, m)
strlcpy_loop m dst src (suc size) =
    let rest = strlcpy_loop (store m dst (m src)) (dst + 1) (src + 1) size in
    if m src == 0 then (dst, m) else rest

-- The result is `dst - dst_in` and the memory.
unfoldable pub strlcpy : Mem → ℕ → ℕ → ℕ → ℕ × Mem
unfolding strlcpy_loop
strlcpy m dst src zero = (dst - dst, m)
strlcpy m dst src (suc size) =
    let (end, m') = strlcpy_loop m dst src size in (end - dst, store m' end 0)

-- The difference of two `unsigned char`s as an `int`.
strcmp_loop : ℕ → Mem → ℕ → ℕ → Option ℤ
strcmp_loop zero m p q = none
strcmp_loop (suc k) m p q =
    let rest = strcmp_loop k m (p + 1) (q + 1) in
    if not (m p == 0) && (m p == m q) then rest else some (sub_ℕ (m p) (m q))

unfoldable pub strcmp : ℕ → Mem → ℕ → ℕ → Option ℤ
unfolding strcmp_loop
strcmp k m p q = strcmp_loop k m p q

unfoldable pub strncmp : Mem → ℕ → ℕ → ℕ → ℤ
strncmp m p q zero = pos 0
strncmp m p q (suc n) =
    let rest = strncmp m (p + 1) (q + 1) n in
    if not (m p == 0) && (m p == m q) then rest else sub_ℕ (m p) (m q)

-- The outer option is the fuel; the inner one is the pointer, `none` for a null pointer.
unfoldable pub strchr : ℕ → Mem → ℕ → ℕ → Option (Option ℕ)
strchr zero m s c = none
strchr (suc k) m s c =
    let rest = strchr k m (s + 1) c in
    if m s == 0 then some none else if m s == c then some (some s) else rest

unfoldable pub strfind : ℕ → Mem → ℕ → ℕ → Option ℕ
strfind zero m s c = none
strfind (suc k) m s c =
    let rest = strfind k m (s + 1) c in
    if m s == 0 then some s else if m s == c then some s else rest
