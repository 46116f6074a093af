-- ===== src/Memory/Frame.antt =====
-- What a write leaves alone.
use native.Mathlib.Nat.{add-zero}
use jos.Prelude.{
  ℕ, zero, suc, ◌+◌, ◌-◌, ◌≤◌, ◌<◌, ◌≡◌, ◌⊎◌, refl, ◌∙◌, ap, List, [], ◌∷◌, ◌++◌, length, take,
  get_or, min, arith,
}
use jos.Memory.{Mem, load16, load32, store, copied, filled, CString, SameOutside}

pub store_self : (m : Mem) (p v : ℕ) → store m p v p ≡ v
unfolding store
store_self m p v = ground arith

pub store_ne : (m : Mem) (p v a : ℕ) → (a < p) ⊎ (p < a) → store m p v a ≡ m a
unfolding store
store_ne m p v a h = ground arith

-- Writing at `p` the byte of `a` does not change the byte of `a`.
pub store_same : (m : Mem) (p a : ℕ) → store m p (m a) a ≡ m a
unfolding store
store_same m p a = ground arith

-- A string survives writes that spare its bytes and its NUL.
pub CString-frame :
    (m m' : Mem) (p : ℕ) (s : List ℕ)
    → ((a : ℕ) → p ≤ a → a ≤ p + length s → m' a ≡ m a)
    → CString m p s
    → CString m' p s
CString-frame m m' p [] same h = ground (arith, same p)
CString-frame m m' p (c ∷ s) same (e, ne, h) = (
  ground (arith, same p),
  ne,
  CString-frame m m' (p + 1) s (λ a lo hi. same a (omega arith) (omega arith)) h,
)

pub CString-store :
    (m : Mem) (p a v : ℕ) (s : List ℕ)
    → (a < p) ⊎ (p + length s < a)
    → CString m p s
    → CString (store m a v) p s
CString-store m p a v s h =
    CString-frame m (store m a v) p s (λ b lo hi. store_ne m a v b (omega arith))

-- The first `n` bytes of a string, found again at `d` with a NUL behind them, are a string there.
pub CString-take :
    (m m' : Mem) (p d n : ℕ) (s : List ℕ)
    → ((i : ℕ) → i < min n (length s) → m' (d + i) ≡ m (p + i))
    → m' (d + min n (length s)) ≡ 0
    → CString m p s
    → CString m' d (take n s)
CString-take m m' p d zero s same stop h = ground (arith, add-zero d)
CString-take m m' p d (suc n) [] same stop h = ground (arith, add-zero d)
CString-take m m' p d (suc n) (c ∷ s) same stop (e, ne, h) = (
  rw (← e) (ap m' (omega arith) ∙ same 0 (omega arith) ∙ ap m (omega arith)),
  ne,
  CString-take m m' (p + 1) (d + 1) n s
      (λ i lt. ap m' (omega arith) ∙ same (suc i) (omega arith) ∙ ap m (omega arith))
      (ap m' (omega arith) ∙ stop) h,
)

take_all : (n : ℕ) (s : List ℕ) → length s ≤ n → take n s ≡ s
take_all zero [] h = refl
take_all zero (c ∷ s) h = absurd (omega arith)
take_all (suc n) [] h = refl
take_all (suc n) (c ∷ s) h = ap (λ t. c ∷ t) (take_all n s (omega arith))

-- The byte at a place of a string, its NUL included.
pub CString-byte :
    (m : Mem) (p i : ℕ) (s : List ℕ) → CString m p s → i ≤ length s → m (p + i) ≡ get_or s i 0
CString-byte m p i [] h lt = ap m (omega arith) ∙ h
CString-byte m p zero (c ∷ s) (e, _, h) lt = ap m (omega arith) ∙ e
CString-byte m p (suc i) (c ∷ s) (e, _, h) lt =
    ap m (omega arith) ∙ CString-byte m (p + 1) i s h (omega arith)

pub CString-moved :
    (m m' : Mem) (p d : ℕ) (s : List ℕ)
    → ((i : ℕ) → i ≤ length s → m' (d + i) ≡ m (p + i))
    → CString m p s
    → CString m' d s
CString-moved m m' p d s same h = rw (take_all (length s) s (omega arith)) at (
    CString-take m m' p d (length s) s (λ i lt. same i (omega arith))
      (ap m' (omega arith) ∙ same (length s) (omega arith) ∙ nul) h)
  where
    nul : m (p + length s) ≡ 0
    nul = CString-byte m p (length s) s h (omega arith) ∙ past s
      where
        past : (t : List ℕ) → get_or t (length t) 0 ≡ 0
        past [] = refl
        past (c ∷ t) = past t

pub CString-append :
    (m : Mem) (p : ℕ) (s t : List ℕ) (m' : Mem)
    → CString m' p s
    → ((a : ℕ) → p ≤ a → a < p + length s → m a ≡ m' a)
    → CString m (p + length s) t
    → CString m p (s ++ t)
CString-append m p [] t m' hs same ht = rw add-zero at ht
CString-append m p (c ∷ s) t m' (e, ne, hs) same ht = (
  same p (omega arith) (omega arith) ∙ e,
  ne,
  CString-append m (p + 1) s t m' hs (λ a lo hi. same a (omega arith) (omega arith))
      (let q : p + 1 + length s ≡ p + suc (length s) = omega arith in rw q ht),
)

-- Reading inside and outside of a copy and of a fill.
pub copied_in : (m : Mem) (d s n i : ℕ) → i < n → copied m d s n (d + i) ≡ m (s + i)
unfolding copied
copied_in m d s n i h = let e : d + i - d ≡ i = omega arith in ground (arith, e)

pub copied_out : (m : Mem) (d s n : ℕ) → SameOutside (copied m d s n) m d n
unfolding copied
copied_out m d s n a h = ground arith

pub filled_in : (m : Mem) (p v n a : ℕ) → p ≤ a → a < p + n → filled m p v n a ≡ v
unfolding filled
filled_in m p v n a lo hi = ground arith

pub filled_out : (m : Mem) (p v n : ℕ) → SameOutside (filled m p v n) m p n
unfolding filled
filled_out m p v n a h = ground arith

-- Words at two places with the same bytes
pub load16_same :
    (m m' : Mem) (p q : ℕ) → ((i : ℕ) → i < 2 → m (p + i) ≡ m' (q + i)) → load16 m p ≡ load16 m' q
unfolding load16
load16_same m m' p q h =
    let zeroth : m p ≡ m' q = ap m (omega arith) ∙ h 0 (omega arith) ∙ ap m' (omega arith) in
    rw (zeroth, h 1 (omega arith)) refl

pub load32_same :
    (m m' : Mem) (p q : ℕ) → ((i : ℕ) → i < 4 → m (p + i) ≡ m' (q + i)) → load32 m p ≡ load32 m' q
unfolding load32
load32_same m m' p q h =
    let zeroth : m p ≡ m' q = ap m (omega arith) ∙ h 0 (omega arith) ∙ ap m' (omega arith) in
    rw (zeroth, h 1 (omega arith), h 2 (omega arith), h 3 (omega arith)) refl
