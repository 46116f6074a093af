-- ===== src/Format/Vprintfmt/Ends.antt =====
-- Every loop of a call of `vprintfmt` ends: what the argument words are good for, and the results
-- that a call can have then.
use jos.Prelude.{
  ℕ, zero, suc, ◌+◌, ◌-◌, ◌^◌, ◌≤◌, ◌<◌, ◌≡◌, List, [], ◌∷◌, length, ◌==◌, true, false, Bool, ltb,
  leb, if◌then◌else◌, Bool-cases, inl, inr, Option, none, some, arith,
}
use jos.Prelude.Int.{ℤ, pos}
use jos.Memory.{Mem}
use jos.Format.{
  Result, ok, err, no_argument, ◌>>=◌, Spec, Args, va_word, va_long_long, Next, again, stop, switch,
  step, Escape, reswitch, is_digit, process_precision,
}
use jos.Format.Numeral.Digits.{printnum_lem}
use jos.Format.Text.{text_loop, put_text}
use jos.Format.Vprintfmt.{getuint, getint, number, put_signed}
use mathlib.Core.Path.{subst}

-- The call returns a value with the property, or wants an argument that is not there.
pub data Ends {ℓ} {A : Type ℓ} (P : A → Type 0) : Result A → Type ℓ where
  returns : {a : A} → P a → Ends P (ok a)
  lacks : Ends P (err no_argument)

pub Ends-bind {ℓ κ} :
    {A : Type ℓ} {B : Type κ} {P : A → Type 0} {Q : B → Type 0} {r : Result A} {f : A → Result B}
    → Ends P r
    → ((a : A) → P a → Ends Q (f a))
    → Ends Q (r >>= f)
Ends-bind (returns {a = a} h) next = next a h
Ends-bind lacks next = lacks

pub Ends-map {ℓ} :
    {A : Type ℓ} {P Q : A → Type 0} {r : Result A} → Ends P r → ((a : A) → P a → Q a) → Ends Q r
Ends-map (returns {a = a} h) next = returns (next a h)
Ends-map lacks next = lacks

pub Ends-if {ℓ} :
    {A : Type ℓ} {P : A → Type 0} (b : Bool) {r r' : Result A}
    → Ends P r
    → Ends P r'
    → Ends P (if b then r else r')
Ends-if true h h' = h
Ends-if false h h' = h'

-- The call returns, with whatever value.
abbrev pub Finishes {ℓ} : {A : Type ℓ} → Result A → Type ℓ
Finishes r = Ends (λ a. Unit {0}) r

-- A NUL stands at most `n` bytes behind `p`.
abbrev pub Near : Mem → ℕ → ℕ → Type 0
Near m n p = (i : ℕ) × (i ≤ n) × (m (p + i) ≡ 0)

-- 32-bit words, and a string of at most `n` bytes for each as an address.
abbrev pub Fit : Mem → ℕ → Args → Type 0
Fit m n [] = Unit {0}
Fit m n (w ∷ args) = (w < 2 ^ 32) × Near m n w × Fit m n args

module _ (m : Mem) (n : ℕ) where
  -- What `va_arg` takes, and what is left.
  abbrev pub Word : ℕ × Args → Type 0
  Word (w, rest) = (w < 2 ^ 32) × Near m n w × Fit m n rest

  abbrev pub Number : ℕ × Args → Type 0
  Number (v, rest) = (v < 2 ^ 64) × Fit m n rest

  pub va_word-Ends : (args : Args) → Fit m n args → Ends Word (va_word args)
  unfolding va_word
  va_word-Ends [] h = lacks
  va_word-Ends (w ∷ args) h = returns h

  va_long_long-Ends : (args : Args) → Fit m n args → Ends Number (va_long_long args)
  unfolding va_long_long va_word
  va_long_long-Ends [] h = lacks
  va_long_long-Ends (w ∷ []) h = lacks
  va_long_long-Ends (w ∷ w' ∷ args) (h, near, (h', near', rest)) = returns (omega arith, rest)

  pub getuint-Ends : (args : Args) (lflag : ℕ) → Fit m n args → Ends Number (getuint args lflag)
  unfolding getuint
  getuint-Ends args lflag h =
      Ends-if (leb 2 lflag) (va_long_long-Ends args h)
        (Ends-map (va_word-Ends args h) (λ (w, rest) (lt, near, fit). (omega arith, fit)))

  pub getint-Ends : (args : Args) (lflag : ℕ) → Fit m n args → Ends Number (getint args lflag)
  unfolding getint
  getint-Ends args lflag h =
      Ends-if (leb 2 lflag) (va_long_long-Ends args h)
        (Ends-bind (va_word-Ends args h) (λ (w, rest) (lt, near, fit). returns (ground arith, fit)))

  -- The scanning of an escape.
  abbrev Scanned : Next → Type 0
  Scanned (again f s args) = Fit m n args
  Scanned (stop s args) = Fit m n args

  switch-Ends : (s : Spec) (args : Args) (ch : ℕ) → Fit m n args → Ends Scanned (switch s args ch)
  unfolding switch
  switch-Ends s args ch h = Ends-if (ch == b'-') (returns h) (
      Ends-if (ch == b'0') (returns h) (
        Ends-if (is_digit ch) (returns h) (
          Ends-if (ch == b'*')
            (Ends-bind (va_word-Ends args h) (λ (w, rest) (lt, near, fit). returns fit))
            (Ends-if (ch == b'.') (returns h)
              (Ends-if (ch == b'#') (returns h) (Ends-if (ch == b'l') (returns h) (returns h)))))))

  step-Ends :
      (field : Option ℕ) (s : Spec) (args : Args) (ch : ℕ)
      → Fit m n args
      → Ends Scanned (step field s args ch)
  unfolding step
  step-Ends none s args ch h = switch-Ends s args ch h
  step-Ends (some v) s args ch h =
      Ends-if (is_digit ch) (returns h) (switch-Ends (process_precision s (pos v)) args ch h)

  -- The escape ends, and what is behind it is no longer than the format.
  abbrev pub Behind : List ℕ → Escape → Type 0
  Behind fmt e = Fit m n e.args × (length e.behind ≤ length fmt)

  -- What is scanned behind a step that ends.
  after_step :
      (ch : ℕ) (fmt : List ℕ) {r : Result Next}
      → Ends Scanned r
      → ((f : Option ℕ) (s : Spec) (args : Args)
          → Fit m n args
          → Ends (Behind fmt) (reswitch f s args fmt))
      → Ends (Behind (ch ∷ fmt)) (elim r [
        | err e ↦ err e
        | ok (again f s args) ↦ reswitch f s args fmt
        | ok (stop s args) ↦ ok (record { spec = s; conversion = ch; behind = fmt; args = args })
      ])
  after_step ch fmt (returns {a = again f s args} h) rest =
      Ends-map (rest f s args h) (λ e (fit, le). (fit, omega arith))
  after_step ch fmt (returns {a = stop s args} h) rest = returns (h, omega arith)
  after_step ch fmt lacks rest = lacks

  pub reswitch-Ends :
      (field : Option ℕ) (s : Spec) (args : Args) (fmt : List ℕ)
      → Fit m n args
      → Ends (Behind fmt) (reswitch field s args fmt)
  unfolding reswitch
  reswitch-Ends field s args [] h = returns (h, omega arith)
  reswitch-Ends field s args (ch ∷ fmt) h =
      after_step ch fmt (step-Ends field s args ch h)
        (λ f s' args' fit. reswitch-Ends f s' args' fmt fit)

  -- With a base that `printnum` is called with, 64 rounds are enough.
  pub number-Ends :
      (num base : ℕ) (s : Spec) → num < 2 ^ 64 → 2 ≤ base → base ≤ 16 → Finishes (number num base s)
  unfolding number
  number-Ends num base s h two le =
      let (ds, run, is) = printnum_lem 64 num base s.width s.padc two le (omega arith) h in
      rw run (returns tt)

  pub put_signed-Ends : (num : ℕ) (s : Spec) → num < 2 ^ 64 → Finishes (put_signed num s)
  unfolding put_signed
  put_signed-Ends num s h = elim (Bool-cases (ltb num (2 ^ 63))) [
    | inl e ↦ rw e (number-Ends num 10 s h (omega arith) (omega arith))
    | inr e ↦
        let small : 2 ^ 64 - num < 2 ^ 64 = ground arith in
        rw e (
          Ends-bind (number-Ends (2 ^ 64 - num) 10 s small (omega arith) (omega arith))
            (λ out h. returns tt))
  ]

  text_loop-Ends :
      (k i p : ℕ) (altflag : Bool) (precision width : ℤ)
      → m (p + i) ≡ 0
      → i < k
      → Finishes (text_loop k m p altflag precision width)
  unfolding text_loop
  text_loop-Ends zero i p altflag precision width h lt = absurd (omega arith)
  text_loop-Ends (suc k) zero p altflag precision width h lt =
      let at : p + 0 ≡ p = omega arith in
      let end : (m p == 0) ≡ true = ground (arith, subst (λ a. m a ≡ 0) at h) in rw end (returns tt)
  text_loop-Ends (suc k) (suc i) p altflag precision width h lt =
      let at : p + suc i ≡ p + 1 + i = omega arith in
      Ends-if (m p == 0) (returns tt) (
        Ends-if _ (returns tt) (
          Ends-bind
            (text_loop-Ends k i (p + 1) altflag _ _ (subst (λ a. m a ≡ 0) at h) (omega arith))
            (λ out fit. returns tt)))

  pub put_text-Ends : (k p : ℕ) (s : Spec) → Near m n p → n < k → Finishes (put_text k m p s)
  unfolding put_text
  put_text-Ends k p s (i, le, h) lt =
      Ends-bind (text_loop-Ends k i p s.altflag s.precision _ h (omega arith))
        (λ out fit. returns tt)
