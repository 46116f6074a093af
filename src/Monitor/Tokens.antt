-- ===== src/Monitor/Tokens.antt =====
-- How `runcmd` of kern/monitor.c takes a line apart, in place: the whitespace becomes NULs, and
-- `argv` gets the addresses of the words. `whitespace` is the address of the literal `WHITESPACE`.
pub mod Words
pub mod Scans
pub mod Places
pub mod Argv
use jos.Prelude.{
  ℕ, zero, suc, ◌+◌, ◌-◌, Bool, true, false, Option, none, some, List, [], ◌∷◌, ◌++◌, length, ◌==◌,
  if◌then◌else◌,
}
use jos.Prelude.Options.{◌>>=◌}
use jos.Memory.{Mem, store}
use jos.Strings.{strchr}

abbrev pub maxargs : ℕ
maxargs = 16

abbrev present : Option ℕ → Bool
present none = false
present (some p) = true

-- The line is in `argv` with the memory that is left, or a word is too much.
pub data Split : Type 0 where
  arguments : List ℕ → Mem → Split
  too_many : Mem → Split

module _ (k : ℕ) (whitespace : ℕ) where
  -- `while (*buf && strchr(WHITESPACE, *buf)) *buf++ = 0;`
  unfoldable pub gobble : ℕ → Mem → ℕ → Option (Mem × ℕ)
  unfolding strchr store
  gobble zero m buf = none
  gobble (suc n) m buf =
      let rest = gobble n (store m buf 0) (buf + 1) in
      if m buf == 0 then some (m, buf) else (do
        found ← strchr k m whitespace (m buf)
        (if present found then rest else some (m, buf)))

  -- `while (*buf && !strchr(WHITESPACE, *buf)) buf++;`
  unfoldable pub scan_past : ℕ → Mem → ℕ → Option ℕ
  unfolding strchr
  scan_past zero m buf = none
  scan_past (suc n) m buf =
      let rest = scan_past n m (buf + 1) in
      if m buf == 0
      then some buf
      else (do found ← strchr k m whitespace (m buf); (if present found then some buf else rest))

  -- The rounds of `while (1)`, on fuel; `argc` is the length of `argv`.
  unfoldable pub split : ℕ → Mem → ℕ → List ℕ → Option Split
  unfolding gobble scan_past
  split zero m buf argv = none
  split (suc n) m buf argv = do
    (m', word) ← gobble k m buf
    let rest = λ (behind : ℕ). split n m' behind (argv ++ word ∷ [])
    (if m' word == 0
        then some (arguments argv m')
        else if length argv == maxargs - 1
        then some (too_many m')
        else scan_past k m' word >>= rest)
