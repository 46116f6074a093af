-- ===== src/Strings/Scan.antt =====
-- `strtol` of lib/string.c. The result is the 32 bits of the `long` and the address that `*endptr`
-- gets; the sums wrap. The loops over spaces and digits run on fuel.
pub mod Decimal
use jos.Prelude.{
  ℕ, zero, suc, ◌+◌, ◌-◌, ◌*◌, ◌%◌, ◌^◌, Bool, true, false, ◌&&◌, ◌||◌, Option, none, some, ◌==◌,
  leb, if◌then◌else◌,
}
use jos.Memory.{Mem}

-- `while (*s == ' ' || *s == '\t') s++;`
space_loop : ℕ → Mem → ℕ → Option ℕ
space_loop zero m s = none
space_loop (suc k) m s =
    let rest = space_loop k m (s + 1) in if m s == b' ' || m s == 9 then rest else some s

-- The digit of a character, in any base up to 36.
unfoldable pub digit_of : ℕ → Option ℕ
digit_of c =
    if leb b'0' c && leb c b'9'
    then some (c - b'0')
    else if leb b'a' c && leb c b'z'
    then some (c - b'a' + 10)
    else if leb b'A' c && leb c b'Z'
    then some (c - b'A' + 10)
    else none

digit_loop : ℕ → Mem → ℕ → ℕ → ℕ → Option (ℕ × ℕ)
unfolding digit_of
digit_loop zero m s base val = none
digit_loop (suc k) m s base val = elim (digit_of (m s)) [
  | none ↦ some (val, s)
  | some dig ↦
      let rest = digit_loop k m (s + 1) base ((val * base + dig) % 2 ^ 32) in
      if leb base dig then some (val, s) else rest
]

-- The sign: `neg` and the address behind it.
sign : Mem → ℕ → Bool × ℕ
sign m s = if m s == b'+' then (false, s + 1) else if m s == b'-' then (true, s + 1) else (false, s)

-- The prefix: the base and the address behind it.
prefix : Mem → ℕ → ℕ → ℕ × ℕ
prefix m s base =
    if (base == 0 || base == 16) && (m s == b'0' && m (s + 1) == b'x')
    then (16, s + 2)
    else if base == 0 && m s == b'0'
    then (8, s + 1)
    else if base == 0
    then (10, s)
    else (base, s)

-- The part of `strtol` behind the white space.
scanned : ℕ → Mem → ℕ → ℕ → Option (ℕ × ℕ)
unfolding sign prefix digit_loop
scanned k m s base =
    let (neg, s) = sign m s in
    let (base, s) = prefix m s base in
    elim (digit_loop k m s base 0) [
      | none ↦ none
      | some (val, s) ↦ some (if neg then (2 ^ 32 - val) % 2 ^ 32 else val, s)
    ]

unfoldable pub strtol : ℕ → Mem → ℕ → ℕ → Option (ℕ × ℕ)
unfolding space_loop scanned
strtol k m s base = elim (space_loop k m s) [ none ↦ none | some s ↦ scanned k m s base ]
