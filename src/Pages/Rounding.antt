-- ===== src/Pages/Rounding.antt =====
-- Rounding to multiples.
use jos.Prelude.{ℕ, ◌+◌, ◌-◌, ◌*◌, ◌/◌, ◌%◌, ◌^◌, ◌<◌, ◌≤◌, ◌≡◌, arith, ap, ◌∙◌}
use native.Mathlib.Nat.{div-add-mod, mod-lt, mul-mod_right}
use jos.Pages.{rounddown, roundup}

rounddown-div : (a n : ℕ) → rounddown a n ≡ n * (a / n)
unfolding rounddown
rounddown-div a n = omega (arith, div-add-mod a n)

-- The result is the multiple of `n` that is at most `a` and less than `n` below it.
pub rounddown_lem :
    (a n : ℕ) → 0 < n → (rounddown a n % n ≡ 0) × (rounddown a n ≤ a) × (a < rounddown a n + n)
rounddown_lem a n h =
    let d = div-add-mod a n in
    let m = mod-lt a {m = n} h in
    let e = rounddown-div a n in
    (ap (λ x. x % n) e ∙ mul-mod_right n (a / n), omega arith, omega arith)

roundup-rounddown : (a n : ℕ) → 0 < n → a + n ≤ 2 ^ 32 → roundup a n ≡ rounddown (a + n - 1) n
unfolding roundup
roundup-rounddown a n h fits =
    ap (λ x. rounddown x n) {x = (a + n + (2 ^ 32 - 1)) % 2 ^ 32} (omega arith)

-- While the sum of `a` and `n` is at most 2 ^ 32, the result is the multiple of `n` that is at least `a` and less
-- than `n` above it.
pub roundup_lem :
    (a n : ℕ)
    → 0 < n
    → a + n ≤ 2 ^ 32
    → (roundup a n % n ≡ 0) × (a ≤ roundup a n) × (roundup a n < a + n)
roundup_lem a n h fits =
    let (multiple, below, above) = rounddown_lem (a + n - 1) n h in
    let e = roundup-rounddown a n h fits in (ap (λ x. x % n) e ∙ multiple, omega arith, omega arith)
