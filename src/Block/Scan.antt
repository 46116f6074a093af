-- ===== src/Block/Scan.antt =====
-- `memcmp` and `memfind`.
use jos.Prelude.{
  ℕ, zero, suc, ◌+◌, ◌%◌, ◌^◌, ◌≤◌, ◌<◌, ◌≡◌, ◌≢◌, inl, inr, refl, ap, arith, ◌==◌, Bool-cases,
}
use jos.Prelude.Int.{pos, sub_ℕ}
use jos.Memory.{Mem}
use jos.Block.{memcmp, memfind_loop, memfind}

-- `i` is the first place below `n` with `P`, or `n` if there is none; `Q` holds before it.
pub record FirstBelow (P Q : ℕ → Type 0) (n i : ℕ) : Type 0 where
  pub bound : i ≤ n
  pub holds : i < n → P i
  pub before : (j : ℕ) → j < i → Q j

FirstBelow-zero : (P Q : ℕ → Type 0) → FirstBelow P Q 0 0
FirstBelow-zero P Q = record {
  bound = omega arith;
  holds = λ lt. absurd (omega arith);
  before = λ j lt. absurd (omega arith);
}

FirstBelow-here : (P Q : ℕ → Type 0) (n : ℕ) → P 0 → FirstBelow P Q (suc n) 0
FirstBelow-here P Q n h = record {
  bound = omega arith;
  holds = λ lt. h;
  before = λ j lt. absurd (omega arith);
}

FirstBelow-suc :
    (P Q P' Q' : ℕ → Type 0) (n i : ℕ)
    → Q 0
    → ((j : ℕ) → P' j → P (suc j))
    → ((j : ℕ) → Q' j → Q (suc j))
    → FirstBelow P' Q' n i
    → FirstBelow P Q (suc n) (suc i)
FirstBelow-suc P Q P' Q' n i first shift shift' h = record {
  bound = omega (arith, h.bound);
  holds = λ lt. shift i (h.holds (omega arith));
  before = earlier;
}
  where
    earlier : (j : ℕ) → j < suc i → Q j
    earlier zero lt = first
    earlier (suc j) lt = shift' j (h.before j (omega arith))

byte_zero : (m : Mem) (p : ℕ) → m (p + 0) ≡ m p
byte_zero m p = ap m (omega arith)

byte_suc : (m : Mem) (p j : ℕ) → m (p + suc j) ≡ m (p + 1 + j)
byte_suc m p j = ap m (omega arith)

-- `memcmp` returns the difference of the two blocks at the first of the `n` places where they
-- differ, and 0 if they agree at all of them.
memcmp_lem :
    (m : Mem) (p q n : ℕ)
    → (i : ℕ) × FirstBelow (λ j. m (p + j) ≢ m (q + j)) (λ j. m (p + j) ≡ m (q + j)) n i
      × (i < n → memcmp m p q n ≡ sub_ℕ (m (p + i)) (m (q + i)))
      × (i ≡ n → memcmp m p q n ≡ pos 0)
unfolding memcmp
memcmp_lem m p q zero = (0, FirstBelow-zero _ _, λ lt. absurd (omega arith), λ e. refl)
memcmp_lem m p q (suc n) = elim (Bool-cases (m p == m q)) [
  | inl e ↦
      let (i, first, differ, same) = memcmp_lem m (p + 1) (q + 1) n in
      (
        suc i,
        FirstBelow-suc _ _ _ _ n i (rw (byte_zero m p, byte_zero m q) (ground arith))
            (λ j h. rw (byte_suc m p j, byte_suc m q j) h)
            (λ j h. rw (byte_suc m p j, byte_suc m q j) h) first,
        λ lt. rw (e, byte_suc m p i, byte_suc m q i) (differ (omega arith)),
        λ eq. rw e (same (omega arith)),
      )
  | inr e ↦ (
    0,
    FirstBelow-here _ _ n (rw (byte_zero m p, byte_zero m q) (ground arith)),
    λ lt. rw (e, byte_zero m p, byte_zero m q),
    λ eq. absurd (omega arith),
  )
]

memfind_loop_lem :
    (m : Mem) (s c n : ℕ)
    → (i : ℕ) × FirstBelow (λ j. m (s + j) ≡ c % 2 ^ 8) (λ j. m (s + j) ≢ c % 2 ^ 8) n i
      × (memfind_loop m s c n ≡ s + i)
unfolding memfind_loop
memfind_loop_lem m s c zero = (0, FirstBelow-zero _ _, omega arith)
memfind_loop_lem m s c (suc n) = elim (Bool-cases (m s == c % 2 ^ 8)) [
  | inl e ↦ (0, FirstBelow-here _ _ n (rw (byte_zero m s) (ground arith)), rw e (omega arith))
  | inr e ↦
      let (i, first, found) = memfind_loop_lem m (s + 1) c n in
      (
        suc i,
        FirstBelow-suc _ _ _ _ n i (rw (byte_zero m s) (ground arith))
            (λ j h. rw (byte_suc m s j) h) (λ j h. rw (byte_suc m s j) h) first,
        rw e (omega arith),
      )
]

-- `memfind` returns the address of the first of the `n` bytes that is the low byte of `c`, or the
-- end of the block if there is none.
pub memfind_lem :
    (m : Mem) (s c n : ℕ)
    → (i : ℕ) × FirstBelow (λ j. m (s + j) ≡ c % 2 ^ 8) (λ j. m (s + j) ≢ c % 2 ^ 8) n i
      × (memfind m s c n ≡ s + i)
unfolding memfind
memfind_lem m s c n = memfind_loop_lem m s c n
