-- ===== src/Monitor/Tokens/Places.antt =====
-- The addresses in `argv` lie on the line.
use jos.Prelude.{
  ℕ, zero, suc, ◌+◌, ◌-◌, ◌≤◌, ◌≡◌, Bool, true, false, Option, none, some, List, [], ◌∷◌, ◌++◌,
  length, ◌==◌, if◌then◌else◌, arith,
}
use mathlib.Core.Path.{subst}
use jos.Prelude.Options.{◌>>=◌}
use jos.Memory.{Mem, store}
use jos.Strings.{strchr}
use jos.Monitor.Tokens.{Split, arguments, too_many, maxargs, present, gobble, scan_past, split}

-- Whatever the result is, it has the property.
data Each {A : Type 0} (P : A → Type 0) : Option A → Type 0 where
  nothing : Each P none
  just : {a : A} → P a → Each P (some a)

Each-bind :
    {A : Type 0} {B : Type 0} {P : A → Type 0} {Q : B → Type 0} {r : Option A} {f : A → Option B}
    → Each P r
    → ((a : A) → P a → Each Q (f a))
    → Each Q (r >>= f)
Each-bind nothing next = nothing
Each-bind (just {a = a} h) next = next a h

Each-if :
    {A : Type 0} {P : A → Type 0} (b : Bool) {r r' : Option A}
    → Each P r
    → Each P r'
    → Each P (if b then r else r')
Each-if true h h' = h
Each-if false h h' = h'

Each-any : {A : Type 0} (r : Option A) → Each (λ a. Unit {0}) r
Each-any none = nothing
Each-any (some a) = just tt

Each-map :
    {A : Type 0} {P Q : A → Type 0} {r : Option A} → Each P r → ((a : A) → P a → Q a) → Each Q r
Each-map nothing next = nothing
Each-map (just {a = a} h) next = just (next a h)

-- All addresses are at least `p`.
abbrev pub AllFrom : ℕ → List ℕ → Type 0
AllFrom p [] = Unit {0}
AllFrom p (q ∷ argv) = (p ≤ q) × AllFrom p argv

AllFrom-append :
    (p : ℕ) (argv : List ℕ) (q : ℕ) → AllFrom p argv → p ≤ q → AllFrom p (argv ++ q ∷ [])
AllFrom-append p [] q h le = (le, tt)
AllFrom-append p (a ∷ argv) q (h, h') le = (h, AllFrom-append p argv q h' le)

abbrev SplitFrom : ℕ → Split → Type 0
SplitFrom p (arguments argv m) = AllFrom p argv
SplitFrom p (too_many m) = Unit {0}

module _ (k whitespace : ℕ) where
  gobble-Each :
      (n : ℕ) (m : Mem) (buf : ℕ) → Each (λ (m', word). buf ≤ word) (gobble k whitespace n m buf)
  unfolding gobble
  gobble-Each zero m buf = nothing
  gobble-Each (suc n) m buf = Each-if (m buf == 0) (just (omega arith)) (
      Each-bind (Each-any (strchr k m whitespace (m buf))) (λ found u.
        Each-if (present found)
          (Each-map (gobble-Each n (store m buf 0) (buf + 1)) (λ (m', word) le. omega arith))
          (just (omega arith))))

  scan_past-Each :
      (n : ℕ) (m : Mem) (buf : ℕ) → Each (λ behind. buf ≤ behind) (scan_past k whitespace n m buf)
  unfolding scan_past
  scan_past-Each zero m buf = nothing
  scan_past-Each (suc n) m buf = Each-if (m buf == 0) (just (omega arith)) (
      Each-bind (Each-any (strchr k m whitespace (m buf))) (λ found u.
        Each-if (present found) (just (omega arith))
          (Each-map (scan_past-Each n m (buf + 1)) (λ behind le. omega arith))))

  split-Each :
      (p n : ℕ) (m : Mem) (buf : ℕ) (argv : List ℕ)
      → p ≤ buf
      → AllFrom p argv
      → Each (SplitFrom p) (split k whitespace n m buf argv)
  unfolding split
  split-Each p zero m buf argv le h = nothing
  split-Each p (suc n) m buf argv le h = Each-bind (gobble-Each k m buf) (λ (m', word) le'.
      Each-if (m' word == 0) (just h) (
        Each-if (length argv == maxargs - 1) (just tt) (
          Each-bind (scan_past-Each k m' word) (λ behind le''.
            split-Each p n m' behind (argv ++ word ∷ []) (omega arith)
              (AllFrom-append p argv word h (omega arith))))))

  -- No address that `split` leaves in `argv` is below the line.
  pub split-AllFrom :
      (m : Mem) (buf : ℕ) (argv : List ℕ) (m' : Mem)
      → split k whitespace k m buf [] ≡ some (arguments argv m')
      → AllFrom buf argv
  split-AllFrom m buf argv m' e =
      taken (subst (Each (SplitFrom buf)) e (split-Each buf k m buf [] (omega arith) tt))
    where
      taken : Each (SplitFrom buf) (some (arguments argv m')) → AllFrom buf argv
      taken (just h) = h
