-- ===== src/Stabs/Adjacent.antt =====
-- Two matching stabs at neighbouring addresses.
use jos.Prelude.{
  refl, ltb, false, ℕ, suc, ◌+◌, ◌<◌, ◌^◌, ◌≡◌, ap, ◌∙◌, Option, none, some, true, arith,
}
use jos.Prelude.Int.{ℤ, pos, ltb_ℤ, ◌+ℤ◌, ◌-ℤ◌}
use jos.Stabs.{Stab, Search, start, last_match, probe, round, rounds, region, stab_binsearch}
use jos.Stabs.Scan.{Matches, value}

module _ (stabs : ℤ → Stab) (kind addr i : ℕ) (small : addr + 2 < 2 ^ 32)
    (m0 : Matches stabs kind (pos i)) (m1 : Matches stabs kind (pos (i + 1)))
    (v0 : value stabs kind (pos i) ≡ addr) (v1 : value stabs kind (pos (i + 1)) ≡ addr + 1) where
  -- The search at the index `l`, after `region_left` was set to `e`, with the address raised by `n`.
  abbrev at : ℕ → ℕ → ℕ → Search
  at l e n = record {
    l = pos l;
    r = pos (i + 1);
    addr = addr + n;
    region_left = pos e;
    region_right = pos (i + 1);
    any_matches = true;
  }

  first : round stabs kind (start (pos i) (pos (i + 1)) addr) ≡ at i i 1
  unfolding round last_match probe ◌+ℤ◌ ◌-ℤ◌
  first = ground arith

  second : round stabs kind (at i i 1) ≡ at (i + 1) i 1
  unfolding round last_match probe ◌+ℤ◌ ◌-ℤ◌
  second = ground arith

  third : round stabs kind (at (i + 1) i 1) ≡ at (i + 1) (i + 1) 2
  unfolding round last_match probe ◌+ℤ◌ ◌-ℤ◌
  third = ground arith

  fourth : round stabs kind (at (i + 1) (i + 1) 2) ≡ at (i + 2) (i + 1) 2
  unfolding round last_match probe ◌+ℤ◌ ◌-ℤ◌
  fourth = ground arith

  goes_on :
      (k : ℕ) (s : Search)
      → ltb_ℤ s.r s.l ≡ false
      → rounds stabs kind (suc k) s ≡ rounds stabs kind k (round stabs kind s)
  unfolding rounds
  goes_on k s h = rw h refl

  stops : (k : ℕ) → rounds stabs kind (suc k) (at (i + 2) (i + 1) 2) ≡ some (at (i + 2) (i + 1) 2)
  unfolding rounds
  stops k = let h : ltb (i + 1 + 0) (i + 2 + 0) ≡ true = ground arith in rw h refl

  step :
      (k : ℕ) (s s' : Search) (r : Option Search)
      → ltb_ℤ s.r s.l ≡ false
      → round stabs kind s ≡ s'
      → rounds stabs kind k s' ≡ r
      → rounds stabs kind (suc k) s ≡ r
  step k s s' r h e rest = goes_on k s h ∙ ap (rounds stabs kind k) e ∙ rest

  all_rounds :
      (k : ℕ)
      → rounds stabs kind (suc (suc (suc (suc (suc k))))) (start (pos i) (pos (i + 1)) addr)
        ≡ some (at (i + 2) (i + 1) 2)
  all_rounds k =
      step (suc (suc (suc (suc k)))) (start (pos i) (pos (i + 1)) addr) (at i i 1) _ (ground arith)
        first
        (step (suc (suc (suc k))) (at i i 1) (at (i + 1) i 1) _ (ground arith) second (
          step (suc (suc k)) (at (i + 1) i 1) (at (i + 1) (i + 1) 2) _ (ground arith) third (
            step (suc k) (at (i + 1) (i + 1) 2) (at (i + 2) (i + 1) 2) _ (ground arith) fourth
              (stops k))))

  last_region : region stabs kind (at (i + 2) (i + 1) 2) ≡ (pos (i + 1), pos (i + 1))
  unfolding region last_match ◌-ℤ◌
  last_region = ground arith

  -- `addr` is raised at each exact match: in a region of just two entries that both match, the second at
  -- an address one byte behind the first's, the search for the address of the first leaves the second,
  -- with at least five rounds.
  pub stab_binsearch_adjacent :
      (k : ℕ)
      → stab_binsearch stabs kind (5 + k) (pos i) (pos (i + 1)) addr
        ≡ some (pos (i + 1), pos (i + 1))
  unfolding stab_binsearch
  stab_binsearch_adjacent k =
      ap
        (λ r. elim r as (λ r. Option (ℤ × ℤ)) [ none ↦ none | some s ↦ some (region stabs kind s) ])
        (ap (λ n. rounds stabs kind n (start (pos i) (pos (i + 1)) addr)) {x = 5 + k}
            {y = suc (suc (suc (suc (suc k))))} (omega arith)
          ∙ all_rounds k)
      ∙ ap some last_region
