-- ===== src/Stabs/Scan.antt =====
-- Indices, and the scan for a matching stab downwards.
use jos.Prelude.{
  ℕ, zero, suc, ◌+◌, ◌-◌, ◌≤◌, ◌<◌, ◌≡◌, ◌≢◌, false, ◌⊎◌, inl, inr, ◌==◌, ==_iff, Bool-cases, arith,
}
use jos.Prelude.Int.{
  ℤ, pos, pos_part, neg_part, ◌+ℤ◌, ◌-ℤ◌, ◌≤ℤ◌, ◌<ℤ◌, ltb_ℤ, half, int_laws, ltb_ℤ→<ℤ, ltb_ℤ→≤ℤ,
  eq_of_parts,
}
use jos.Stabs.{Stab, last_match}

pub half_bounds : (l r : ℤ) → pos 0 ≤ℤ l → l ≤ℤ r → (l ≤ℤ half (l +ℤ r)) × (half (l +ℤ r) ≤ℤ r)
unfolding ◌+ℤ◌
half_bounds l r h h' = ground arith

pub ≤ℤ_antisym : (a b : ℤ) → a ≤ℤ b → b ≤ℤ a → a ≡ b
≤ℤ_antisym a b h k = eq_of_parts a b (omega arith)

pub ≤ℤ_cases : (i m : ℤ) → i ≤ℤ m → (i ≡ m) ⊎ (i ≤ℤ (m -ℤ pos 1))
≤ℤ_cases i m h = elim (Bool-cases (ltb_ℤ i m)) [
  | inl e ↦ let lt = ltb_ℤ→<ℤ i m e in inr (omega int_laws)
  | inr e ↦ inl (≤ℤ_antisym i m h (ltb_ℤ→≤ℤ i m e))
]

abbrev pub width : ℤ → ℤ → ℕ
width l r = pos_part (r -ℤ l +ℤ pos 1)

pub width_parts : (l r : ℤ) → width l r ≡ pos_part r + neg_part l + 1 - (neg_part r + pos_part l)
unfolding ◌+ℤ◌ ◌-ℤ◌
width_parts l r = ground arith

pub width-lt : (l l' r : ℤ) → l <ℤ l' → l ≤ℤ r → width l' r < width l r
width-lt l l' r h k = omega (arith, width_parts l r, width_parts l' r)

pub width-lt_right : (l r r' : ℤ) → r' <ℤ r → l ≤ℤ r → width l r' < width l r
width-lt_right l r r' h k = omega (arith, width_parts l r, width_parts l r')

pub width-le : (l l' r : ℤ) → l ≤ℤ l' → width l' r ≤ width l r
width-le l l' r h = omega (arith, width_parts l r, width_parts l' r)

pub below_next : (v a : ℕ) → a ≤ v → v ≤ a + 1 → v ≢ a + 1 → v ≡ a
below_next v a h k ne = ground arith

pub back_one : (m : ℤ) → m -ℤ pos 1 +ℤ pos 1 ≡ m
back_one m = eq_of_parts _ m (omega int_laws)

module _ (stabs : ℤ → Stab) (kind : ℕ) where
  abbrev pub Matches : ℤ → Type 0
  Matches i = (stabs i).n_type ≡ kind

  abbrev pub value : ℤ → ℕ
  value i = (stabs i).n_value

  -- `m'` is where the scan downwards from `m` stops, which ends at `low` at the latest.
  pub record Stops (low m m' : ℤ) : Type 0 where
    pub above : low ≤ℤ m'
    pub below : m' ≤ℤ m
    pub found : (low ≡ m') ⊎ Matches m'
    pub skipped : (i : ℤ) → m' <ℤ i → i ≤ℤ m → Matches i → ⊥

  -- `m` is `n` above `low`.
  abbrev Above : ℕ → ℤ → ℤ → Type 0
  Above n low m = pos_part m + neg_part low ≡ pos_part low + neg_part m + n

  pub last_match-Stops :
      (n : ℕ) (low m : ℤ) → Above n low m → Stops low m (last_match stabs kind n m)
  unfolding last_match
  last_match-Stops zero low m h = record {
    above = omega arith;
    below = omega arith;
    found = inl (eq_of_parts low m (omega arith));
    skipped = λ i lo hi e. omega arith;
  }
  last_match-Stops (suc n) low m h = elim (Bool-cases ((stabs m).n_type == kind)) [
    | inl e ↦ rw e (record {
      above = omega arith;
      below = omega arith;
      found = inr ((==_iff _ _).0 e);
      skipped = λ i lo hi e'. omega arith;
    })
    | inr e ↦
        let rest = last_match-Stops n low (m -ℤ pos 1) (omega int_laws) in
        rw e (record {
          above = rest.above;
          below = omega (int_laws, rest.below);
          found = rest.found;
          skipped = λ i lo hi e'. last_or i (≤ℤ_cases i m hi) lo e' rest.skipped (false_ne e);
        })
  ]
    where
      last_or :
          (i : ℤ)
          → (i ≡ m) ⊎ (i ≤ℤ (m -ℤ pos 1))
          → last_match stabs kind n (m -ℤ pos 1) <ℤ i
          → Matches i
          → ((i : ℤ)
              → last_match stabs kind n (m -ℤ pos 1) <ℤ i
              → i ≤ℤ (m -ℤ pos 1)
              → Matches i
              → ⊥)
          → (Matches m → ⊥)
          → ⊥
      last_or i (inl e) lo e' skipped ne = ne (rw (← e) e')
      last_or i (inr hi) lo e' skipped ne = skipped i lo hi e'

      false_ne : ((stabs m).n_type == kind) ≡ false → Matches m → ⊥
      false_ne e e' = ground arith
