-- ===== src/Strings/Copy.antt =====
-- `strcpy`, `strcat`, `strncpy` and `strlcpy`.
use native.Mathlib.Nat.{add_comm}
use mathlib.Core.Path.{ap₂}
use jos.Prelude.{
  ℕ, zero, suc, ◌+◌, ◌-◌, ◌≤◌, ◌<◌, ◌≡◌, ◌⊎◌, inl, refl, sym, ap, ◌∙◌, some, false, List, [], ◌∷◌,
  ◌++◌, length, take, get_or, min, arith, ◌==◌,
}
use jos.Memory.{Mem, store, copied, CString, SameOutside}
use jos.Memory.Regions.{copied-copied_up, copied_one, copied_none}
use jos.Memory.Frame.{
  CString-store, CString-moved, CString-append, CString-take, copied_in, copied_out, store_self,
  store_ne, store_same,
}
use jos.Strings.{strcpy_loop, strcpy, strcat, strncpy_loop, strncpy, strlcpy_loop, strlcpy}
use jos.Strings.Measure.{strlen_lem}

abbrev pair : ℕ → Mem → ℕ × Mem
pair a m = (a, m)

-- The bytes from `dst` on may be written without changing a byte of the source before it is read.
abbrev pub Ahead : ℕ → ℕ → ℕ → Type 0
Ahead dst src n = (dst ≤ src) ⊎ (src + n ≤ dst)

-- A first byte and then the `n` behind it are `n + 1` bytes.
copied-store :
    (m : Mem) (d s n : ℕ)
    → Ahead d s (n + 1)
    → copied (store m d (m s)) (d + 1) (s + 1) n ≡ copied m d s (n + 1)
copied-store m d s n h =
    rw (copied_one m d s)
      (rw (copied-copied_up m d s 1 n (omega arith)) (ap (copied m d s) (add_comm 1 n)))

strcpy_loop_lem :
    (k : ℕ) (m : Mem) (dst src : ℕ) (s : List ℕ)
    → CString m src s
    → Ahead dst src (length s + 1)
    → length s < k
    → strcpy_loop k m dst src ≡ some (copied m dst src (length s + 1))
unfolding strcpy_loop
strcpy_loop_lem zero m dst src s h apart fuel = absurd (omega arith)
strcpy_loop_lem (suc k) m dst src [] h apart fuel =
    rw h (ap some (ap (store m dst) (sym h) ∙ copied_one m dst src))
strcpy_loop_lem (suc k) m dst src (c ∷ s) (e, ne, h) apart fuel =
    let live : (m src == 0) ≡ false = ground arith in
    rw live (
      strcpy_loop_lem k (store m dst (m src)) (dst + 1) (src + 1) s
        (CString-store m (src + 1) dst (m src) s (omega arith) h) (omega arith) (omega arith)
      ∙ ap some (
          copied-store m dst src (length s + 1) (omega arith)
          ∙ ap (copied m dst src) (omega arith)))

-- `dst` holds the string `s`, and no byte but those of it and its NUL has changed.
abbrev pub Holds : Mem → Mem → ℕ → List ℕ → Type 0
Holds m' m dst s = CString m' dst s × SameOutside m' m dst (length s + 1)

copied-Holds :
    (m : Mem) (d p : ℕ) (s : List ℕ) → CString m p s → Holds (copied m d p (length s + 1)) m d s
copied-Holds m d p s h = (
  CString-moved m _ p d s (λ i le. copied_in m d p (length s + 1) i (omega arith)) h,
  copied_out m d p (length s + 1),
)

-- `strcpy` returns `dst` and leaves there the string of `src`, its NUL included, and all other
-- bytes as they were, if the destination starts at or before the source, or behind its NUL.
pub strcpy_lem :
    (k : ℕ) (m : Mem) (dst src : ℕ) (s : List ℕ)
    → CString m src s
    → Ahead dst src (length s + 1)
    → length s < k
    → (m' : Mem) × (strcpy k m dst src ≡ some (dst, m')) × Holds m' m dst s
unfolding strcpy
strcpy_lem k m dst src s h apart fuel = (
  copied m dst src (length s + 1),
  rw (strcpy_loop_lem k m dst src s h apart fuel, strcpy),
  copied-Holds m dst src s h,
)

-- `strcat` returns `dst`, where the string of `dst` is followed by that of `src`; only the bytes
-- from the old NUL of `dst` on change. The source lies behind that NUL, or ends before it.
pub strcat_lem :
    (k : ℕ) (m : Mem) (dst src : ℕ) (s t : List ℕ)
    → CString m dst s
    → CString m src t
    → Ahead (dst + length s) src (length t + 1)
    → length s < k
    → length t < k
    → (m' : Mem) × (strcat k m dst src ≡ some (dst, m'))
      × CString m' dst (s ++ t)
      × SameOutside m' m (dst + length s) (length t + 1)
unfolding strcat
strcat_lem k m dst src s t hs ht apart fuel_s fuel_t =
    let (m', run, (here, same)) = strcpy_lem k m (dst + length s) src t ht apart fuel_t in
    (
      m',
      rw (strlen_lem k m dst s hs fuel_s, run, strcat),
      CString-append m' dst s t m hs (λ a lo hi. same a (inl hi)) here,
      same,
    )

-- The `size` bytes from `dst` on are those of `s`, padded with NULs; all others are as before.
abbrev pub Padded : Mem → Mem → ℕ → ℕ → List ℕ → Type 0
Padded m' m dst size s =
    ((i : ℕ) → i < size → m' (dst + i) ≡ get_or s i 0) × SameOutside m' m dst size

Padded-suc :
    (r m : Mem) (dst src size : ℕ) (s t : List ℕ)
    → m src ≡ get_or s 0 0
    → ((i : ℕ) → get_or s (suc i) 0 ≡ get_or t i 0)
    → Padded r (store m dst (m src)) (dst + 1) size t
    → Padded r m dst (suc size) s
Padded-suc r m dst src size s t first later (bytes, same) =
    (written, λ a out. same a (omega arith) ∙ store_ne m dst (m src) a (omega arith))
  where
    written : (i : ℕ) → i < suc size → r (dst + i) ≡ get_or s i 0
    written zero lt = ap r (omega arith) ∙ same dst (omega arith) ∙ store_self m dst (m src) ∙ first
    written (suc i) lt = ap r (omega arith) ∙ bytes i (omega arith) ∙ sym (later i)

-- Once `src` stands on the NUL, every byte written is 0.
strncpy_pad :
    (m : Mem) (dst src size : ℕ) → m src ≡ 0 → Padded (strncpy_loop m dst src size) m dst size []
unfolding strncpy_loop
strncpy_pad m dst src zero h = (λ i lt. absurd (omega arith), λ a out. refl)
strncpy_pad m dst src (suc size) h =
    let z : store m dst (m src) src ≡ 0 = store_same m dst src ∙ h in
    rw z (
      Padded-suc _ m dst src size [] [] h (λ i. refl)
        (strncpy_pad (store m dst (m src)) (dst + 1) src size z))

strncpy_loop_lem :
    (m : Mem) (dst src size : ℕ) (s : List ℕ)
    → CString m src s
    → Ahead dst src (length s + 1)
    → Padded (strncpy_loop m dst src size) m dst size s
unfolding strncpy_loop
strncpy_loop_lem m dst src zero s h apart = (λ i lt. absurd (omega arith), λ a out. refl)
strncpy_loop_lem m dst src (suc size) [] h apart = strncpy_pad m dst src (suc size) h
strncpy_loop_lem m dst src (suc size) (c ∷ s) (e, ne, h) apart =
    let live : (store m dst (m src) src == 0) ≡ false = ground (arith, store_same m dst src) in
    rw live (
      Padded-suc _ m dst src size (c ∷ s) s e (λ i. refl)
        (strncpy_loop_lem (store m dst (m src)) (dst + 1) (src + 1) size s
          (CString-store m (src + 1) dst (m src) s (omega arith) h) (omega arith)))

-- `strncpy` returns `dst` and writes exactly `size` bytes there: the bytes of `src` that fit, and
-- NULs behind them, so the result is not terminated when the string has `size` bytes or more.
pub strncpy_lem :
    (m : Mem) (dst src size : ℕ) (s : List ℕ)
    → CString m src s
    → Ahead dst src (length s + 1)
    → ((strncpy m dst src size).0 ≡ dst) × Padded (strncpy m dst src size).1 m dst size s
unfolding strncpy
strncpy_lem m dst src size s h apart = (refl, strncpy_loop_lem m dst src size s h apart)

strlcpy_loop_lem :
    (m : Mem) (dst src n : ℕ) (s : List ℕ)
    → CString m src s
    → Ahead dst src (length s + 1)
    → strlcpy_loop m dst src n ≡ (dst + min n (length s), copied m dst src (min n (length s)))
unfolding strlcpy_loop
strlcpy_loop_lem m dst src zero s h apart =
    ap₂ pair (omega arith) (copied_none m dst src ∙ ap (copied m dst src) (omega arith))
strlcpy_loop_lem m dst src (suc n) [] h apart =
    rw h (ap₂ pair (omega arith) (copied_none m dst src ∙ ap (copied m dst src) (omega arith)))
strlcpy_loop_lem m dst src (suc n) (c ∷ s) (e, ne, h) apart =
    let live : (m src == 0) ≡ false = ground arith in
    rw live (
      strlcpy_loop_lem (store m dst (m src)) (dst + 1) (src + 1) n s
        (CString-store m (src + 1) dst (m src) s (omega arith) h) (omega arith)
      ∙ ap₂ pair (omega arith) (
          copied-store m dst src (min n (length s)) (omega arith)
          ∙ ap (copied m dst src) (omega arith)))

-- With `size` above 0, `strlcpy` leaves at `dst` the string of the first `size - 1` bytes of
-- `src`, terminated, writes at most `size` bytes, and returns the length of what it left.
pub strlcpy_lem :
    (m : Mem) (dst src size : ℕ) (s : List ℕ)
    → CString m src s
    → Ahead dst src (length s + 1)
    → 0 < size
    → let (n, m') = strlcpy m dst src size in
      (n ≡ min (size - 1) (length s))
      × CString m' dst (take (size - 1) s)
      × SameOutside m' m dst (min size (length s + 1))
unfolding strlcpy
strlcpy_lem m dst src zero s h apart pos = absurd (omega arith)
strlcpy_lem m dst src (suc n) s h apart pos =
    let one : suc n - 1 ≡ n = omega arith in
    rw (strlcpy_loop_lem m dst src n s h apart, one)
      (
        omega arith,
        CString-take m _ src dst n s
            (λ i lt.
              store_ne _ (dst + min n (length s)) 0 (dst + i) (omega arith)
              ∙ copied_in m dst src (min n (length s)) i lt)
            (store_self _ (dst + min n (length s)) 0) h,
        λ a out.
            store_ne _ (dst + min n (length s)) 0 a (omega arith)
            ∙ copied_out m dst src (min n (length s)) a (omega arith),
      )

-- With `size` 0, `strlcpy` writes nothing.
strlcpy_zero : (m : Mem) (dst src : ℕ) → strlcpy m dst src 0 ≡ (0, m)
unfolding strlcpy
strlcpy_zero m dst src = ap₂ pair (omega arith) refl
