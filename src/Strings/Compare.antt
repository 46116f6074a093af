-- ===== src/Strings/Compare.antt =====
-- `strcmp` and `strncmp`.
use jos.Prelude.{
  ℕ, zero, suc, ◌+◌, ◌<◌, ◌≡◌, ◌≢◌, ◌↔◌, refl, sym, ap, ◌∙◌, some, List, [], ◌∷◌, length, take, min,
  ◌==◌, if◌then◌else◌, arith,
}
use jos.Prelude.Int.{ℤ, pos, sub_ℕ}
use jos.Memory.{Mem, CString}
use jos.Strings.{strcmp_loop, strcmp, strncmp}

-- The difference of two strings at the first place where they differ; the end counts as 0.
unfoldable pub difference : List ℕ → List ℕ → ℤ
difference [] [] = pos 0
difference [] (d ∷ t) = sub_ℕ 0 d
difference (c ∷ s) [] = sub_ℕ c 0
difference (c ∷ s) (d ∷ t) = if c == d then difference s t else sub_ℕ c d

strcmp_loop_lem :
    (k : ℕ) (m : Mem) (p q : ℕ) (s t : List ℕ)
    → CString m p s
    → CString m q t
    → min (length s) (length t) < k
    → strcmp_loop k m p q ≡ some (difference s t)
unfolding strcmp_loop difference
strcmp_loop_lem zero m p q s t hs ht fuel = absurd (omega arith)
strcmp_loop_lem (suc k) m p q [] [] hs ht fuel = ground arith
strcmp_loop_lem (suc k) m p q [] (d ∷ t) hs ht fuel = ground arith
strcmp_loop_lem (suc k) m p q (c ∷ s) [] hs ht fuel = ground arith
strcmp_loop_lem (suc k) m p q (c ∷ s) (d ∷ t) (e, ne, hs) (e', ne', ht) fuel =
    ground (arith, strcmp_loop_lem k m (p + 1) (q + 1) s t hs ht)

-- Enough fuel gives `strcmp` its result: the difference of the first bytes that differ.
pub strcmp_lem :
    (k : ℕ) (m : Mem) (p q : ℕ) (s t : List ℕ)
    → CString m p s
    → CString m q t
    → length s < k
    → strcmp k m p q ≡ some (difference s t)
unfolding strcmp
strcmp_lem k m p q s t hs ht fuel = strcmp_loop_lem k m p q s t hs ht (omega arith)

-- The fuel for the second string is enough too.
pub strcmp_second :
    (k : ℕ) (m : Mem) (p q : ℕ) (s t : List ℕ)
    → CString m p s
    → CString m q t
    → length t < k
    → strcmp k m p q ≡ some (difference s t)
unfolding strcmp
strcmp_second k m p q s t hs ht fuel = strcmp_loop_lem k m p q s t hs ht (omega arith)

-- `strncmp` is the difference of the first `n` bytes of the two strings.
pub strncmp_lem :
    (m : Mem) (p q n : ℕ) (s t : List ℕ)
    → CString m p s
    → CString m q t
    → strncmp m p q n ≡ difference (take n s) (take n t)
unfolding strncmp difference
strncmp_lem m p q zero s t hs ht = refl
strncmp_lem m p q (suc n) [] [] hs ht = ground arith
strncmp_lem m p q (suc n) [] (d ∷ t) hs ht = ground arith
strncmp_lem m p q (suc n) (c ∷ s) [] hs ht = ground arith
strncmp_lem m p q (suc n) (c ∷ s) (d ∷ t) (e, ne, hs) (e', ne', ht) =
    ground (arith, strncmp_lem m (p + 1) (q + 1) n s t hs ht)

-- No byte of the list is the terminator.
abbrev pub NonNul : List ℕ → Type 0
NonNul [] = Unit {0}
NonNul (c ∷ s) = (c ≢ 0) × NonNul s

pub NonNul-CString : (m : Mem) (p : ℕ) (s : List ℕ) → CString m p s → NonNul s
NonNul-CString m p [] h = tt
NonNul-CString m p (c ∷ s) (e, ne, h) = (ne, NonNul-CString m (p + 1) s h)

CString-NonNul : (m : Mem) (p n : ℕ) (s : List ℕ) → CString m p s → NonNul (take n s)
CString-NonNul m p zero s h = tt
CString-NonNul m p (suc n) [] h = tt
CString-NonNul m p (suc n) (c ∷ s) (e, ne, h) = (ne, CString-NonNul m (p + 1) n s h)

difference_zero : (s t : List ℕ) → NonNul s → NonNul t → difference s t ≡ pos 0 → s ≡ t
unfolding difference
difference_zero [] [] hs ht h = refl
difference_zero [] (d ∷ t) hs ht h = absurd (ground arith)
difference_zero (c ∷ s) [] hs ht h = absurd (ground arith)
difference_zero (c ∷ s) (d ∷ t) hs ht h = ground (arith, difference_zero s t hs.1 ht.1)

difference_self : (s : List ℕ) → difference s s ≡ pos 0
unfolding difference
difference_self [] = refl
difference_self (c ∷ s) = ground (arith, difference_self s)

-- `strncmp` returns 0 exactly when the two strings agree in their first `n` bytes.
pub strncmp_zero_iff :
    (m : Mem) (p q n : ℕ) (s t : List ℕ)
    → CString m p s
    → CString m q t
    → (strncmp m p q n ≡ pos 0) ↔ (take n s ≡ take n t)
strncmp_zero_iff m p q n s t hs ht = (
  λ z.
      difference_zero (take n s) (take n t) (CString-NonNul m p n s hs) (CString-NonNul m q n t ht)
        (sym (strncmp_lem m p q n s t hs ht) ∙ z),
  λ e.
      strncmp_lem m p q n s t hs ht
      ∙ ap (difference (take n s)) (sym e)
      ∙ difference_self (take n s),
)
