-- ===== src/Stabs/Rounds.antt =====
-- The rounds of `stab_binsearch` end with its invariant.
use jos.Prelude.{
  ℕ, zero, suc, ◌+◌, ◌^◌, ◌≤◌, ◌<◌, ◌≡◌, refl, some, inl, inr, ltb, Bool-cases, ltb→lt, ltb→le,
  arith,
}
use jos.Prelude.Int.{
  ℤ, pos, pos_part, ◌+ℤ◌, ◌-ℤ◌, ◌≤ℤ◌, ◌<ℤ◌, ltb_ℤ, half, int_laws, ltb_ℤ→<ℤ, ltb_ℤ→≤ℤ,
}
use jos.Stabs.{Stab, Search, last_match, probe, round, rounds}
use jos.Stabs.Scan.{half_bounds, width_parts, Stops, last_match-Stops}
use jos.Stabs.Round.{IsOrdered, Inv, rounds_left, Next, no_match, below, above, exact}

module _ (stabs : ℤ → Stab) (kind : ℕ) (left right : ℤ) (addr : ℕ)
    (ordered : IsOrdered stabs kind left right addr) (small : addr + 1 < 2 ^ 32) where
  abbrev pub Keeps : Search → Type 0
  Keeps = Inv stabs kind left right addr ordered small

  abbrev Goes : Search → Search → Type 0
  Goes = Next stabs kind left right addr ordered small

  probe-Goes :
      (s : Search)
      → Keeps s
      → s.l ≤ℤ s.r
      → (true_m m : ℤ) → s.l ≤ℤ true_m
      → true_m ≤ℤ s.r
      → Stops stabs kind (s.l -ℤ pos 1) true_m m
      → Goes s (probe stabs kind true_m m s)
  unfolding probe
  probe-Goes s inv some_left true_m m from to stops = elim (Bool-cases (ltb_ℤ m s.l)) [
    | inl e ↦
        rw (probe, e)
          (no_match stabs kind left right addr ordered small s inv some_left true_m m from to stops
            (ltb_ℤ→<ℤ m s.l e))
    | inr e ↦
        let inside = ltb_ℤ→≤ℤ m s.l e in
        elim (Bool-cases (ltb (stabs m).n_value s.addr)) [
          | inl e' ↦
              rw (probe, e, e')
                (below stabs kind left right addr ordered small s inv some_left true_m m from to
                  stops inside (ltb→lt _ _ e'))
          | inr e' ↦ elim (Bool-cases (ltb s.addr (stabs m).n_value)) [
            | inl e'' ↦
                rw (probe, e, e', e'')
                  (above stabs kind left right addr ordered small s inv some_left true_m m from to
                    stops inside (ltb→lt _ _ e''))
            | inr e'' ↦
                rw (probe, e, e', e'')
                  (exact stabs kind left right addr ordered small s inv some_left true_m m from to
                    stops inside (meet (ltb→le _ _ e') (ltb→le _ _ e'')))
          ]
        ]
  ]
    where
      meet : s.addr ≤ (stabs m).n_value → (stabs m).n_value ≤ s.addr → (stabs m).n_value ≡ s.addr
      meet h k = omega arith

  round-Goes : (s : Search) → pos 0 ≤ℤ left → Keeps s → s.l ≤ℤ s.r → Goes s (round stabs kind s)
  unfolding round
  round-Goes s nonneg inv some_left =
      let true_m = half (s.l +ℤ s.r) in
      let (from, to) = half_bounds s.l s.r (omega (arith, inv.lo)) some_left in
      let n = pos_part (true_m -ℤ s.l +ℤ pos 1) in
      let m = last_match stabs kind n true_m in
      let stops =
        last_match-Stops stabs kind n (s.l -ℤ pos 1) true_m
          (omega (int_laws, width_parts s.l true_m)) in
      probe-Goes s inv some_left true_m m from to stops

  pub rounds_lem :
      (k : ℕ) (s : Search)
      → pos 0 ≤ℤ left
      → Keeps s
      → rounds_left stabs kind left right addr ordered small s < k
      → (t : Search) × (rounds stabs kind k s ≡ some t) × Keeps t × (t.r <ℤ t.l)
  unfolding rounds
  rounds_lem zero s nonneg inv fuel = absurd (omega arith)
  rounds_lem (suc k) s nonneg inv fuel = elim (Bool-cases (ltb_ℤ s.r s.l)) [
    | inl e ↦ (s, rw (rounds, e) refl, inv, ltb_ℤ→<ℤ s.r s.l e)
    | inr e ↦
        let (inv', less) = round-Goes s nonneg inv (ltb_ℤ→≤ℤ s.r s.l e) in
        let (t, run, inv'', out) = rounds_lem k (round stabs kind s) nonneg inv' (omega arith) in
        (t, rw (rounds, e) run, inv'', out)
  ]
