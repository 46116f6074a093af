-- ===== src/Strings/Find.antt =====
-- `strchr` and `strfind`.
use jos.Prelude.{
  ℕ, zero, suc, ◌+◌, ◌≤◌, ◌<◌, ◌≡◌, ◌≢◌, inl, inr, none, some, List, [], ◌∷◌, length, get_or, ◌==◌,
  ltb, if◌then◌else◌, Bool-cases, arith,
}
use jos.Memory.{Mem, CString}
use jos.Strings.{strchr, strfind}

-- `i` is the first place where `s` has the byte `c`, or the length of `s` if there is none.
pub record IsFirst (c : ℕ) (s : List ℕ) (i : ℕ) : Type 0 where
  pub within : i ≤ length s
  pub found : i < length s → get_or s i 0 ≡ c
  pub before : (j : ℕ) → j < i → get_or s j 0 ≢ c

IsFirst-suc : (c d : ℕ) (s : List ℕ) (i : ℕ) → d ≢ c → IsFirst c s i → IsFirst c (d ∷ s) (suc i)
IsFirst-suc c d s i ne h = record {
  within = ground (arith, h.within);
  found = λ lt. h.found (omega arith);
  before = earlier;
}
  where
    earlier : (j : ℕ) → j < suc i → get_or (d ∷ s) j 0 ≢ c
    earlier zero lt = ne
    earlier (suc j) lt = h.before j (omega arith)

unfoldable pub first_index : ℕ → List ℕ → ℕ
first_index c [] = 0
first_index c (d ∷ s) = if d == c then 0 else suc (first_index c s)

pub first_index-IsFirst : (c : ℕ) (s : List ℕ) → IsFirst c s (first_index c s)
unfolding first_index
first_index-IsFirst c [] = record {
  within = omega arith;
  found = λ lt. absurd (omega arith);
  before = λ j lt. absurd (omega arith);
}
first_index-IsFirst c (d ∷ s) = elim (Bool-cases (d == c)) [
  | inl e ↦ rw e (record {
    within = omega arith;
    found = λ lt. ground arith;
    before = λ j lt. absurd (omega arith);
  })
  | inr e ↦ rw e (IsFirst-suc c d s (first_index c s) (ground arith) (first_index-IsFirst c s))
]

pub strfind_index :
    (k : ℕ) (m : Mem) (p c : ℕ) (s : List ℕ)
    → CString m p s
    → length s < k
    → strfind k m p c ≡ some (p + first_index c s)
unfolding strfind first_index
strfind_index zero m p c s h fuel = absurd (omega arith)
strfind_index (suc k) m p c [] h fuel = ground arith
strfind_index (suc k) m p c (d ∷ s) (e, ne, h) fuel =
    ground (arith, strfind_index k m (p + 1) c s h)

pub strchr_index :
    (k : ℕ) (m : Mem) (p c : ℕ) (s : List ℕ)
    → CString m p s
    → length s < k
    → strchr k m p c
      ≡ some (if ltb (first_index c s) (length s) then some (p + first_index c s) else none)
unfolding strchr first_index
strchr_index zero m p c s h fuel = absurd (omega arith)
strchr_index (suc k) m p c [] h fuel = ground arith
strchr_index (suc k) m p c (d ∷ s) (e, ne, h) fuel = ground (arith, strchr_index k m (p + 1) c s h)

-- `strfind` returns the address of the first `c` of the string, or of its NUL, and `strchr` the
-- same address if it is that of a `c`, and otherwise a null pointer.
strfind-strchr :
    (k : ℕ) (m : Mem) (p c : ℕ) (s : List ℕ)
    → CString m p s
    → length s < k
    → (i : ℕ) × IsFirst c s i
      × (strfind k m p c ≡ some (p + i))
      × (strchr k m p c ≡ some (if ltb i (length s) then some (p + i) else none))
strfind-strchr k m p c s h fuel = (
  first_index c s,
  first_index-IsFirst c s,
  strfind_index k m p c s h fuel,
  strchr_index k m p c s h fuel,
)
