-- ===== src/Strings/Measure.antt =====
-- `strlen` and `strnlen`.
use jos.Prelude.{
  ℕ, zero, suc, ◌+◌, ◌≤◌, ◌<◌, ◌≡◌, ◌≢◌, inl, inr, some, List, [], ◌∷◌, length, min, arith, ◌==◌,
  Bool-cases,
}
use native.Mathlib.Nat.{add-zero}
use jos.Memory.{Mem, CString}
use jos.Strings.{strlen_loop, strlen, strnlen_loop, strnlen}

strlen_loop_lem :
    (k : ℕ) (m : Mem) (p n : ℕ) (s : List ℕ)
    → CString m p s
    → length s < k
    → strlen_loop k m p n ≡ some (n + length s)
unfolding strlen_loop
strlen_loop_lem zero m p n s h fuel = absurd (omega arith)
strlen_loop_lem (suc k) m p n [] h fuel = ground arith
strlen_loop_lem (suc k) m p n (c ∷ s) h fuel =
    ground (arith, strlen_loop_lem k m (p + 1) (n + 1) s h.2)

-- With more fuel than the string has bytes, `strlen` returns the number of its bytes.
pub strlen_lem :
    (k : ℕ) (m : Mem) (p : ℕ) (s : List ℕ)
    → CString m p s
    → length s < k
    → strlen k m p ≡ some (length s)
unfolding strlen
strlen_lem k m p s h fuel = ground (arith, strlen_loop_lem k m p 0 s h fuel)

-- `r` is the length, at most `size`, of the string at `p`.
abbrev pub IsLengthUpTo : Mem → ℕ → ℕ → ℕ → Type 0
IsLengthUpTo m p size r =
    (r ≤ size) × (r < size → m (p + r) ≡ 0) × ((i : ℕ) → i < r → m (p + i) ≢ 0)

IsLengthUpTo-suc :
    (m : Mem) (p size r : ℕ)
    → m p ≢ 0
    → IsLengthUpTo m (p + 1) size r
    → IsLengthUpTo m p (suc size) (suc r)
IsLengthUpTo-suc m p size r ne (le, stop, before) =
    (omega arith, λ lt. rw step (stop (omega arith)), shifted)
  where
    step : p + suc r ≡ p + 1 + r
    step = omega arith

    shifted : (i : ℕ) → i < suc r → m (p + i) ≢ 0
    shifted zero lt = rw add-zero ne
    shifted (suc i) lt =
        let e : p + suc i ≡ p + 1 + i = omega arith in rw e (before i (omega arith))

strnlen_loop_lem :
    (m : Mem) (p size n : ℕ) → (r : ℕ) × (strnlen_loop m p size n ≡ n + r) × IsLengthUpTo m p size r
unfolding strnlen_loop
strnlen_loop_lem m p zero n =
    (0, omega arith, (omega arith, λ lt. absurd (omega arith), λ i lt. absurd (omega arith)))
strnlen_loop_lem m p (suc size) n = elim (Bool-cases (m p == 0)) [
  | inl e ↦ (0, rw e (omega arith), (omega arith, λ lt. ground arith, λ i lt. absurd (omega arith)))
  | inr e ↦
      let (r, eq, is) = strnlen_loop_lem m (p + 1) size (n + 1) in
      (suc r, rw e (omega arith), IsLengthUpTo-suc m p size r (ground arith) is)
]

-- `strnlen` returns the number of bytes before the first NUL, or `size` if there is none among
-- the first `size` bytes, whether or not the string is terminated.
pub strnlen_lem : (m : Mem) (p size : ℕ) → IsLengthUpTo m p size (strnlen m p size)
unfolding strnlen
strnlen_lem m p size =
    let (r, eq, is) = strnlen_loop_lem m p size 0 in
    let e : strnlen_loop m p size 0 ≡ r = omega arith in rw e is

strnlen_loop_string :
    (m : Mem) (p size n : ℕ) (s : List ℕ)
    → CString m p s
    → strnlen_loop m p size n ≡ n + min size (length s)
unfolding strnlen_loop
strnlen_loop_string m p zero n s h = omega arith
strnlen_loop_string m p (suc size) n [] h = ground arith
strnlen_loop_string m p (suc size) n (c ∷ s) (e, ne, h) =
    ground (arith, strnlen_loop_string m (p + 1) size (n + 1) s h)

-- For a terminated string that is the smaller of its length and `size`.
pub strnlen_string :
    (m : Mem) (p size : ℕ) (s : List ℕ) → CString m p s → strnlen m p size ≡ min size (length s)
unfolding strnlen
strnlen_string m p size s h = omega (arith, strnlen_loop_string m p size 0 s h)
