-- ===== src/Prelude/Bits.antt =====
-- Laws of the bit operations at variables: the lowest digit of a disjunction and of a conjunction.
use Prim.Native.Nat.{
  ℕ, zero, suc, ◌+◌, ◌*◌, ◌/◌, ◌%◌, ◌^◌, ◌≤◌, ◌<◌, ◌-◌, max, min, bit_or, bit_and, digits,
  bit_or-bitwise, bit_and-bitwise,
}
use mathlib.Core.Path.{◌≡◌, refl, ap, ◌∙◌}
use native.Mathlib.Nat.{
  pow-suc, div-div-eq-div-mul, div-add-mod, mod-lt, mod-eq_of_lt, mul-add-mod_self_left,
}
use native.Mathlib.Omega.{arith}

-- The digit recursion that the native operations stand for, with any fuel that is enough.
digits_enough :
    (rest : ℕ → ℕ) (op : ℕ → ℕ → ℕ) (n m a b : ℕ)
    → a ≤ n
    → a ≤ m
    → digits rest op n a b ≡ digits rest op m a b
digits_enough rest op zero zero a b p q = refl
digits_enough rest op zero (suc m) zero b p q = refl
digits_enough rest op zero (suc m) (suc a) b p q = absurd (omega arith)
digits_enough rest op (suc n) zero zero b p q = refl
digits_enough rest op (suc n) zero (suc a) b p q = absurd (omega arith)
digits_enough rest op (suc n) (suc m) zero b p q = refl
digits_enough rest op (suc n) (suc m) (suc a) b p q =
    omega (arith, digits_enough rest op n m (suc a / 2) (b / 2) (omega arith) (omega arith))

zero-bit_or : (b : ℕ) → bit_or 0 b ≡ b
zero-bit_or b = bit_or-bitwise 0 b

pub bit_or_step : (a b : ℕ) → bit_or a b ≡ bit_or (a / 2) (b / 2) * 2 + max (a % 2) (b % 2)
bit_or_step zero b = omega (arith, zero-bit_or b, zero-bit_or (b / 2))
bit_or_step (suc a) b = omega (
  arith,
  bit_or-bitwise (suc a) b,
  bit_or-bitwise (suc a / 2) (b / 2),
  digits_enough (λ y. y) max a (suc a / 2) (suc a / 2) (b / 2) (omega arith) (omega arith),
)

bit_or-zero_fuel : (n a : ℕ) → a ≤ n → bit_or a 0 ≡ a
bit_or-zero_fuel n zero h = refl
bit_or-zero_fuel zero (suc a) h = absurd (omega arith)
bit_or-zero_fuel (suc n) (suc a) h =
    omega (arith, bit_or_step (suc a) 0, bit_or-zero_fuel n (suc a / 2) (omega arith))

-- One more shift to the left doubles.
double : (k q : ℕ) → q * 2 ^ suc k ≡ 2 * (q * 2 ^ k)
double k q = rw pow-suc (omega arith)

-- Fields that do not overlap are added by `|`, whichever stands first.
pub bit_or_high : (k q r : ℕ) → r < 2 ^ k → bit_or (q * 2 ^ k) r ≡ q * 2 ^ k + r
bit_or_high zero q r h = ground (arith, bit_or-zero_fuel q q)
bit_or_high (suc k) q r h =
    rw double (ground (arith, bit_or_step (2 * (q * 2 ^ k)) r, bit_or_high k q (r / 2), double k 1))

pub bit_or_low : (k q r : ℕ) → r < 2 ^ k → bit_or r (q * 2 ^ k) ≡ q * 2 ^ k + r
bit_or_low zero q r h = ground (arith, zero-bit_or q)
bit_or_low (suc k) q r h =
    rw double (ground (arith, bit_or_step r (2 * (q * 2 ^ k)), bit_or_low k q (r / 2), double k 1))

-- The same where the high field is given as a multiple.
pub bit_or-add : (k q x r : ℕ) → x ≡ q * 2 ^ k → r < 2 ^ k → bit_or x r ≡ x + r
bit_or-add k q x r e h = rw e (bit_or_high k q r h)

-- The conjunction by its lowest digit and the halves.
bit_and_step : (x y : ℕ) → bit_and x y ≡ min (x % 2) (y % 2) + 2 * bit_and (x / 2) (y / 2)
bit_and_step zero y =
    let whole = bit_and-bitwise 0 y in let half = bit_and-bitwise 0 (y / 2) in omega arith
bit_and_step (suc n) y =
    let half = (suc n) / 2 in
    let fuel = digits_enough (λ z. 0) min n half half (y / 2) (omega arith) (omega arith) in
    omega (arith, fuel, bit_and-bitwise half (y / 2), bit_and-bitwise (suc n) y)

bit_and-zero_below : (k x : ℕ) → x < 2 ^ k → bit_and x 0 ≡ 0
bit_and-zero_below zero x h =
    ap (λ z. bit_and z 0) {x = x} {y = 0} (omega arith) ∙ bit_and-bitwise 0 0
bit_and-zero_below (suc k) x h =
    let rest = bit_and-zero_below k (x / 2) (omega (arith, pow-suc 2 k)) in
    omega (arith, bit_and_step x 0, rest)

-- The lowest digit of a rest modulo an even number.
mod_double : (p a : ℕ) → 0 < p → a % (2 * p) ≡ 2 * (a / 2 % p) + a % 2
mod_double p a h =
    ap (λ n. n % (2 * p)) {x = a} {y = 2 * p * (a / 2 / p) + (2 * (a / 2 % p) + a % 2)}
      (grind (arith, div-add-mod (a / 2) p))
    ∙ mul-add-mod_self_left (2 * p) (a / 2 / p) (2 * (a / 2 % p) + a % 2)
    ∙ mod-eq_of_lt (omega (arith, mod-lt (a / 2) {m = p} h))

pow_positive : (k : ℕ) → 0 < 2 ^ k
pow_positive zero = omega arith
pow_positive (suc k) = omega (arith, pow-suc 2 k, pow_positive k)

below_pow : (x : ℕ) → x < 2 ^ x
below_pow zero = omega arith
below_pow (suc x) = omega (arith, pow-suc 2 x, below_pow x)

-- A mask of the `k` lowest bits gives the rest modulo `2 ^ k`.
pub bit_and_ones : (k a : ℕ) → bit_and a (2 ^ k - 1) ≡ a % 2 ^ k
bit_and_ones zero a = omega (arith, bit_and-zero_below a a (below_pow a))
bit_and_ones (suc k) a =
    let big = pow_positive k in
    omega (
      arith,
      pow-suc 2 k,
      bit_and_step a (2 ^ suc k - 1),
      ap (λ b. bit_and (a / 2) b) {x = (2 ^ suc k - 1) / 2} {y = 2 ^ k - 1}
          (omega (arith, pow-suc 2 k, big)),
      bit_and_ones k (a / 2),
      mod_double (2 ^ k) a big,
      ap (λ n. a % n) {x = 2 ^ suc k} {y = 2 * 2 ^ k} (omega (arith, pow-suc 2 k)),
    )

-- A mask whose `k` lowest bits are 0.
pub bit_and_shifted : (k n a : ℕ) → bit_and a (n * 2 ^ k) ≡ bit_and (a / 2 ^ k) n * 2 ^ k
bit_and_shifted zero n a =
    ap (λ b. bit_and a b) {x = n * 1} {y = n} (omega arith)
    ∙ ap (λ b. bit_and b n) {x = a} {y = a / 1} (omega arith)
    ∙ omega arith
bit_and_shifted (suc k) n a = omega (
  arith,
  bit_and_step a (n * 2 ^ suc k),
  double k n,
  double k (bit_and (a / 2 ^ suc k) n),
  ap (λ b. bit_and (a / 2) b) {x = n * 2 ^ suc k / 2} {y = n * 2 ^ k} (omega (arith, double k n)),
  bit_and_shifted k n (a / 2),
  ap (λ b. bit_and b n * 2 ^ k) {x = a / 2 / 2 ^ k} {y = a / 2 ^ suc k}
      (div-div-eq-div-mul a 2 (2 ^ k) ∙ ap (λ b. a / b) (omega (arith, pow-suc 2 k))),
)

pub bit_or_shifted : (k a b : ℕ) → bit_or (a * 2 ^ k) (b * 2 ^ k) ≡ bit_or a b * 2 ^ k
bit_or_shifted zero a b =
    ap (λ x. bit_or x (b * 1)) {x = a * 1} {y = a} (omega arith)
    ∙ ap (λ x. bit_or a x) {x = b * 1} {y = b} (omega arith)
    ∙ omega arith
bit_or_shifted (suc k) a b = omega (
  arith,
  bit_or_step (a * 2 ^ suc k) (b * 2 ^ suc k),
  double k a,
  double k b,
  double k (bit_or a b),
  ap (λ x. bit_or x (b * 2 ^ suc k / 2)) {x = a * 2 ^ suc k / 2} {y = a * 2 ^ k}
      (omega (arith, double k a)),
  ap (λ x. bit_or (a * 2 ^ k) x) {x = b * 2 ^ suc k / 2} {y = b * 2 ^ k}
      (omega (arith, double k b)),
  bit_or_shifted k a b,
)
