-- ===== src/Stabs/Brackets.antt =====
-- The rounds of `stab_binsearch` end, and what they leave in the region.
use jos.Prelude.{
  Option, none, ℕ, ◌+◌, ◌-◌, ◌*◌, ◌^◌, ◌≤◌, ◌<◌, ◌≡◌, refl, sym, ap, ◌∙◌, true, false, some, ◌⊎◌,
  inl, inr, Bool-cases, arith,
}
use mathlib.Core.Path.{subst}
use jos.Prelude.Int.{ℤ, pos, pos_part, neg_part, ◌+ℤ◌, ◌-ℤ◌, ◌≤ℤ◌, ◌<ℤ◌, ltb_ℤ, ltb_ℤ→<ℤ, ltb_ℤ→≤ℤ}
use jos.Stabs.{Stab, Search, start, last_match, region, stab_binsearch}
use jos.Stabs.Scan.{≤ℤ_antisym, width, Matches, value, Stops, last_match-Stops}
use jos.Stabs.Rounds.{Keeps, rounds_lem}
use jos.Stabs.Round.{IsOrdered, NoneBelow, below}

module _ (stabs : ℤ → Stab) (kind : ℕ) (left right : ℤ) (addr : ℕ) where
  -- The stab at `e` is the last one that is not above the address; up to `f` no other follows.
  pub record IsContained (e f : ℤ) : Type 0 where
    pub at : Matches stabs kind e
    pub starts : value stabs kind e ≤ addr
    pub from : left ≤ℤ e
    pub ends : e ≤ℤ f
    pub last : (i : ℤ) → e <ℤ i → i ≤ℤ f → Matches stabs kind i → ⊥
    pub next :
        (f ≡ right)
        ⊎ ((f <ℤ right) × Matches stabs kind (f +ℤ pos 1) × (addr < value stabs kind (f +ℤ pos 1)))

  -- No stab from `left` to `right` matches.
  pub record IsAbsent (e f : ℤ) : Type 0 where
    pub none_matches : (i : ℤ) → left ≤ℤ i → i ≤ℤ right → Matches stabs kind i → ⊥
    pub left_end : e ≡ left
    pub right_end : f ≡ left -ℤ pos 1

  -- There are matching stabs, and the first of them, behind `f`, is above the address.
  pub record IsBefore (e f : ℤ) : Type 0 where
    pub first : Matches stabs kind (f +ℤ pos 1)
    pub above : addr < value stabs kind (f +ℤ pos 1)
    pub from : left ≤ℤ (f +ℤ pos 1)
    pub inside : f <ℤ right
    pub none_before : (i : ℤ) → left ≤ℤ i → i ≤ℤ f → Matches stabs kind i → ⊥
    pub left_end : e ≤ℤ left
    pub overlap : e ≤ℤ f

  abbrev pub Brackets : ℤ × ℤ → Type 0
  Brackets (e, f) = IsContained e f ⊎ IsAbsent e f ⊎ IsBefore e f

minus_parts : (r l : ℤ) → pos_part (r -ℤ l) ≡ pos_part r + neg_part l - (neg_part r + pos_part l)
unfolding ◌-ℤ◌
minus_parts r l = ground arith

last_match-Stops_down :
    (stabs : ℤ → Stab) (kind : ℕ) (l r : ℤ)
    → l ≤ℤ r
    → Stops stabs kind l r (last_match stabs kind (pos_part (r -ℤ l)) r)
last_match-Stops_down stabs kind l r h =
    last_match-Stops stabs kind (pos_part (r -ℤ l)) l r (omega (arith, minus_parts r l))

-- The last loop makes no round.
last_match_stays :
    (stabs : ℤ → Stab) (kind : ℕ) (l r : ℤ)
    → r ≤ℤ l
    → last_match stabs kind (pos_part (r -ℤ l)) r ≡ r
last_match_stays stabs kind l r h =
    let stops =
      last_match-Stops stabs kind (pos_part (r -ℤ l)) r r (omega (arith, minus_parts r l)) in
    ≤ℤ_antisym _ r stops.below stops.above

module _ (stabs : ℤ → Stab) (kind : ℕ) (left right : ℤ) (addr : ℕ)
    (ordered : IsOrdered stabs kind left right addr) (small : addr + 1 < 2 ^ 32) where
  abbrev KeepsAll : Search → Type 0
  KeepsAll = Keeps stabs kind left right addr ordered small

  start-KeepsAll : left ≤ℤ (right +ℤ pos 1) → KeepsAll (start left right addr)
  start-KeepsAll h = record {
    lo = omega arith;
    hi = omega arith;
    gap = h;
    same = refl;
    from_addr = omega arith;
    to_addr = omega arith;
    low = λ i lo hi e. omega arith;
    high = λ i lo hi e. omega arith;
    left_end = inl (refl, (λ i lo hi e. omega arith), inl refl);
    right_end = inl refl;
    unmatched = λ e. ((λ i lo hi e. omega arith), refl);
  }

  module _ (s : Search) (inv : KeepsAll s) (out : s.r <ℤ s.l) where
    absent-Brackets :
        s.any_matches ≡ false
        → Brackets stabs kind left right addr (s.region_left, s.region_left -ℤ pos 1)
    absent-Brackets any = elim inv.left_end [
      | inl (e, none_below, a) ↦
          let (none_at, at_end) = inv.unmatched any in
          inr (
            inl (record {
              none_matches = λ i lo hi e'. none_at i lo (before i hi at_end) e';
              left_end = e;
              right_end = ap (λ x. x -ℤ pos 1) e;
            }))
      | inr (any', e, v, k, k', k'') ↦ absurd (cc)
    ]
      where
        before : (i : ℤ) → i ≤ℤ right → s.r ≡ right → i <ℤ s.l
        before i hi e = let hi' : i ≤ℤ s.r = rw e hi in omega arith

    upto_l : (i : ℤ) → i ≤ℤ s.r → i <ℤ s.l
    upto_l i h = omega arith

    contained :
        Matches stabs kind s.region_left
        → value stabs kind s.region_left ≤ addr
        → left ≤ℤ s.region_left
        → s.region_left ≤ℤ s.r
        → IsContained stabs kind left right addr s.region_left s.r
    contained e v k k' = record {
      at = e;
      starts = v;
      from = k;
      ends = k';
      last = λ i lo hi e'. omega (arith, inv.low i (omega arith) (upto_l i hi) e');
      next = elim inv.right_end [ inl e' ↦ inl e' | inr (a, e', v', lt) ↦ inr (lt, e', v') ];
    }

    Stops-left :
        left ≤ℤ s.region_left → (m : ℤ) → Stops stabs kind s.region_left s.r m → m ≡ s.region_left
    Stops-left k m stops = elim stops.found [
      | inl e ↦ sym e
      | inr e ↦
          ≤ℤ_antisym m s.region_left
            (inv.low m (omega (arith, stops.above)) (upto_l m stops.below) e).1 stops.above
    ]

    Stops-before :
        s.region_left ≡ left
        → NoneBelow stabs kind left right addr ordered small s.l
        → (m : ℤ) → Stops stabs kind s.region_left s.r m
        → m ≤ℤ left
    Stops-before e none_below m stops = elim stops.found [
      | inl e' ↦ rw (← e, e') (omega arith)
      | inr e' ↦ absurd (none_below m (rw (← e) stops.above) (upto_l m stops.below) e')
    ]

    before :
        s.region_left ≡ left
        → NoneBelow stabs kind left right addr ordered small s.l
        → s.r <ℤ right
        → (m : ℤ) → m ≤ℤ left
        → m ≤ℤ s.r
        → IsBefore stabs kind left right addr m s.r
    before e none_below inside m low below = elim inv.right_end [
      | inl e' ↦ absurd (not_right e')
      | inr (a, e', v', lt) ↦ record {
        first = e';
        above = v';
        from = omega (arith, inv.lo, inv.gap);
        inside = lt;
        none_before = λ i lo hi. none_below i lo (upto_l i hi);
        left_end = low;
        overlap = below;
      }
    ]
      where
        not_right : s.r ≡ right → ⊥
        not_right e' = let h : right ≤ℤ s.r = rw e' (omega arith) in omega arith

    last_end : ℤ
    last_end = last_match stabs kind (pos_part (s.r -ℤ s.region_left)) s.r

    last_end_cases :
        (Stops stabs kind s.region_left s.r last_end × (s.region_left ≤ℤ s.r))
        ⊎ ((last_end ≡ s.r) × (s.r ≤ℤ s.region_left))
    unfolding last_end
    last_end_cases = elim (Bool-cases (ltb_ℤ s.r s.region_left)) [
      | inl e ↦
          let h = ltb_ℤ→<ℤ s.r s.region_left e in
          let h' : s.r ≤ℤ s.region_left = omega arith in
          inr (last_match_stays stabs kind s.region_left s.r h', h')
      | inr e ↦
          let h = ltb_ℤ→≤ℤ s.r s.region_left e in
          inl (last_match-Stops_down stabs kind s.region_left s.r h, h)
    ]

    last_end-Brackets : s.any_matches ≡ true → Brackets stabs kind left right addr (last_end, s.r)
    last_end-Brackets any = elim inv.left_end [
      | inr (a, e, v, k, k', k'') ↦ inl (
          subst (λ x. IsContained stabs kind left right addr x s.r)
            (sym (Stops-left k last_end (down k'' last_end_cases))) (contained e v k k''))
      | inl (e, none_below, inl a) ↦ absurd (cc)
      | inl (e, none_below, inr inside) ↦ inr (
          inr (elim last_end_cases [
            | inl (stops, h) ↦
                before e none_below inside last_end (Stops-before e none_below last_end stops)
                  stops.below
            | inr (e', h) ↦
                before e none_below inside last_end (rw (e', ← e) h) (rw e' (omega arith))
          ]))
    ]
      where
        over : (i : ℤ) → last_end <ℤ i → i ≤ℤ s.r → s.r ≤ℤ last_end → ⊥
        over i lo hi h = omega arith

        down :
            s.region_left ≤ℤ s.r
            → (Stops stabs kind s.region_left s.r last_end × (s.region_left ≤ℤ s.r))
              ⊎ ((last_end ≡ s.r) × (s.r ≤ℤ s.region_left))
            → Stops stabs kind s.region_left s.r last_end
        down h (inl (stops, h')) = stops
        down h (inr (e, h')) =
            let same = ≤ℤ_antisym s.region_left s.r h h' in
            record {
              above = rw e h;
              below = rw e (omega arith);
              found = inl (same ∙ sym e);
              skipped = λ i lo hi e'. over i lo hi (rw e (omega arith));
            }

    region-Brackets : Brackets stabs kind left right addr (region stabs kind s)
    unfolding region last_end
    region-Brackets = elim (Bool-cases s.any_matches) [
      | inl e ↦ rw (e, inv.same) (last_end-Brackets e)
      | inr e ↦ rw e (absent-Brackets e)
    ]

  -- With more than twice as many rounds as the region has entries, the search ends. If the matching
  -- stabs of the region are in the order of their addresses and none has the address `addr + 1`, it
  -- leaves the last matching stab that is not above `addr` and the entry before the next matching one;
  -- without a matching stab it leaves an empty region; and if all are above `addr`, the entry before
  -- the first of them as the right end and a left end that is not behind it.
  pub stab_binsearch-Brackets :
      (k : ℕ)
      → pos 0 ≤ℤ left
      → left ≤ℤ (right +ℤ pos 1)
      → 2 * width left right + 1 < k
      → (e f : ℤ) × (stab_binsearch stabs kind k left right addr ≡ some (e, f))
        × Brackets stabs kind left right addr (e, f)
  unfolding stab_binsearch
  stab_binsearch-Brackets k nonneg fits fuel =
      let s0 = start left right addr in
      let (t, run, inv, out) =
        rounds_lem stabs kind left right addr ordered small k s0 nonneg (start-KeepsAll fits)
          (omega arith) in
      (
        (region stabs kind t).0,
        (region stabs kind t).1,
        ap
            (λ r. elim r as (λ r. Option (ℤ × ℤ)) [
              | none ↦ none
              | some s ↦ some (region stabs kind s)
            ])
            run,
        region-Brackets t inv out,
      )
