-- ===== src/Prelude/Table.antt =====
-- Facts about all numbers below a bound, or all places of a list, checked one by one.
use jos.Prelude.{
  ℕ, zero, suc, ◌+◌, ◌<◌, ◌≡◌, Bool, true, ◌&&◌, List, [], ◌∷◌, length, get_or, arith,
}

unfoldable pub all_below : ℕ → (ℕ → Bool) → Bool
all_below zero p = true
all_below (suc n) p = p n && all_below n p

pub all_below_at : (n : ℕ) (p : ℕ → Bool) (x : ℕ) → all_below n p ≡ true → x < n → p x ≡ true
unfolding all_below
all_below_at zero p x h lt = absurd (omega arith)
all_below_at (suc n) p x h lt = ground (arith, all_below_at n p x)

-- `p` holds of each element of a list with its number, which starts at `n`.
module _ {ℓ} {A : Type ℓ} (p : ℕ → A → Bool) where
  unfoldable pub all_numbered : ℕ → List A → Bool
  all_numbered n [] = true
  all_numbered n (x ∷ xs) = p n x && all_numbered (suc n) xs

  pub all_numbered_at :
      (n : ℕ) (xs : List A) (i : ℕ) (d : A)
      → all_numbered n xs ≡ true
      → i < length xs
      → p (n + i) (get_or xs i d) ≡ true
  unfolding all_numbered
  all_numbered_at n [] i d h lt = absurd (omega arith)
  all_numbered_at n (x ∷ xs) zero d h lt = ground arith
  all_numbered_at n (x ∷ xs) (suc i) d h lt = ground (arith, all_numbered_at (suc n) xs i d)
