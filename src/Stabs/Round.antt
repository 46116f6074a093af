-- ===== src/Stabs/Round.antt =====
-- One round of `stab_binsearch` keeps its invariant and has fewer rounds left.
use jos.Prelude.{
  ◌*◌, ℕ, ◌+◌, ◌-◌, ◌%◌, ◌^◌, ◌≤◌, ◌<◌, ◌≡◌, ◌≢◌, refl, sym, ◌∙◌, Bool, true, false, ◌⊎◌, inl, inr,
  Bool-cases, arith,
}
use jos.Prelude.Int.{ℤ, pos, ◌+ℤ◌, ◌-ℤ◌, ◌≤ℤ◌, ◌<ℤ◌, ltb_ℤ, int_laws, ltb_ℤ→<ℤ, ltb_ℤ→≤ℤ}
use jos.Stabs.{Stab, Search}
use jos.Stabs.Scan.{
  ≤ℤ_cases, width, width-lt, width-lt_right, width-le, below_next, back_one, Matches, value, Stops,
}

module _ (stabs : ℤ → Stab) (kind : ℕ) where
  -- The matching stabs from `left` to `right` are in order, and none has the address behind `addr`.
  pub record IsOrdered (left right : ℤ) (addr : ℕ) : Type 0 where
    pub sorted :
        (i j : ℤ)
        → left ≤ℤ i
        → i ≤ℤ j
        → j ≤ℤ right
        → Matches stabs kind i
        → Matches stabs kind j
        → value stabs kind i ≤ value stabs kind j
    pub apart :
        (i : ℤ) → left ≤ℤ i → i ≤ℤ right → Matches stabs kind i → value stabs kind i ≢ addr + 1

  module _ (left right : ℤ) (addr : ℕ) (ordered : IsOrdered left right addr)
      (small : addr + 1 < 2 ^ 32) where
    abbrev pub NoneBelow : ℤ → Type 0
    NoneBelow l = (i : ℤ) → left ≤ℤ i → i <ℤ l → Matches stabs kind i → ⊥

    -- What is known of `region_left`, at a search from `l` to `r`.
    abbrev pub LeftEnd : ℤ → ℤ → ℤ → Bool → Type 0
    LeftEnd l r e any =
        ((e ≡ left) × NoneBelow l × ((any ≡ false) ⊎ (r <ℤ right)))
        ⊎ ((any ≡ true)
            × Matches stabs kind e
            × (value stabs kind e ≤ addr)
            × (left ≤ℤ e)
            × (e ≤ℤ l)
            × (e ≤ℤ r))

    abbrev pub RightEnd : ℤ → Bool → Type 0
    RightEnd r any =
        (r ≡ right)
        ⊎ ((any ≡ true)
            × Matches stabs kind (r +ℤ pos 1)
            × (addr < value stabs kind (r +ℤ pos 1))
            × (r <ℤ right))

    pub record Inv (s : Search) : Type 0 where
      pub lo : left ≤ℤ s.l
      pub hi : s.r ≤ℤ right
      pub gap : s.l ≤ℤ (s.r +ℤ pos 1)
      pub same : s.region_right ≡ s.r
      pub from_addr : addr ≤ s.addr
      pub to_addr : s.addr ≤ addr + 1
      pub low :
          (i : ℤ)
          → left ≤ℤ i
          → i <ℤ s.l
          → Matches stabs kind i
          → (value stabs kind i ≤ addr) × (i ≤ℤ s.region_left)
      pub high : (i : ℤ) → s.r <ℤ i → i ≤ℤ right → Matches stabs kind i → addr < value stabs kind i
      pub left_end : LeftEnd s.l s.r s.region_left s.any_matches
      pub right_end : RightEnd s.r s.any_matches
      pub unmatched : s.any_matches ≡ false → NoneBelow s.l × (s.r ≡ right)

    still_any : (r : ℤ) (any : Bool) → RightEnd r any → RightEnd r true
    still_any r any (inl e) = inl e
    still_any r any (inr (h, e, v, k)) = inr (refl, e, v, k)

    abbrev pub rounds_left : Search → ℕ
    rounds_left s = 2 * width s.l s.r + (addr + 1 - s.addr)

    abbrev pub Next : Search → Search → Type 0
    Next s t = Inv t × (rounds_left t < rounds_left s)

    module _ (s : Search) (inv : Inv s) (some_left : s.l ≤ℤ s.r) (true_m m : ℤ)
        (from : s.l ≤ℤ true_m) (to : true_m ≤ℤ s.r)
        (stops : Stops stabs kind (s.l -ℤ pos 1) true_m m) where
      scan :
          (i : ℤ)
          → i <ℤ (true_m +ℤ pos 1)
          → Matches stabs kind i
          → (i <ℤ s.l) ⊎ ((s.l ≤ℤ i) × (i ≤ℤ m))
      scan i h e = elim (Bool-cases (ltb_ℤ i s.l)) [
        | inl k ↦ inl (ltb_ℤ→<ℤ i s.l k)
        | inr k ↦ inr (ltb_ℤ→≤ℤ i s.l k, in_scan i h e)
      ]
        where
          in_scan : (i : ℤ) → i <ℤ (true_m +ℤ pos 1) → Matches stabs kind i → i ≤ℤ m
          in_scan i h e = elim (Bool-cases (ltb_ℤ m i)) [
            | inl k ↦ absurd (stops.skipped i (ltb_ℤ→<ℤ m i k) (omega int_laws) e)
            | inr k ↦ ltb_ℤ→≤ℤ m i k
          ]

      -- The inner loop found nothing.
      pub no_match : m <ℤ s.l → Next s (record s { l = true_m +ℤ pos 1 })
      no_match out = (
        record {
          lo = omega (int_laws, inv.lo);
          hi = inv.hi;
          gap = omega int_laws;
          same = inv.same;
          from_addr = inv.from_addr;
          to_addr = inv.to_addr;
          low = λ i from_left h e. elim (scan i h e) [
            | inl k ↦ inv.low i from_left k e
            | inr (k, k') ↦ omega arith
          ];
          high = inv.high;
          left_end = elim inv.left_end [
            | inl (e, none_below, a) ↦ inl (e, further none_below, a)
            | inr (any, e, v, k, k', k'') ↦ inr (any, e, v, k, omega int_laws, k'')
          ];
          right_end = inv.right_end;
          unmatched = λ e. (further (inv.unmatched e).0, (inv.unmatched e).1);
        },
        omega (arith, width-lt s.l (true_m +ℤ pos 1) s.r (omega int_laws) some_left),
      )
        where
          further : NoneBelow s.l → NoneBelow (true_m +ℤ pos 1)
          further none_below i from_left h e = elim (scan i h e) [
            | inl k ↦ none_below i from_left k e
            | inr (k, k') ↦ omega arith
          ]

      module _ (inside : s.l ≤ℤ m) where
        at_m : Matches stabs kind m
        at_m = elim stops.found [ inl e ↦ absurd (not_below e) | inr e ↦ e ]
          where
            not_below : (s.l -ℤ pos 1) ≡ m → ⊥
            not_below e = let k : m ≤ℤ (s.l -ℤ pos 1) = rw e (omega arith) in omega int_laws

        in_range : (left ≤ℤ m) × (m ≤ℤ right)
        in_range = (omega (arith, inv.lo), omega (arith, stops.below, inv.hi))

        value_apart : value stabs kind m ≢ addr + 1
        value_apart = ordered.apart m in_range.0 in_range.1 at_m

        still_right : RightEnd s.r true
        still_right = still_any s.r s.any_matches inv.right_end

        -- `m` is not above the address.
        pub below :
            value stabs kind m < s.addr
            → Next s (record s { any_matches = true; region_left = m; l = true_m +ℤ pos 1 })
        below h = (
          record {
            lo = omega (int_laws, inv.lo);
            hi = inv.hi;
            gap = omega int_laws;
            same = inv.same;
            from_addr = inv.from_addr;
            to_addr = inv.to_addr;
            low = λ i from_left k e. elim (scan i k e) [
              | inl k' ↦ (omega (arith, inv.low i from_left k' e, upto), omega (arith, inside))
              | inr (k', k'') ↦
                  (omega (arith, ordered.sorted i m from_left k'' in_range.1 e at_m, upto), k'')
            ];
            high = inv.high;
            left_end = inr (
              refl,
              at_m,
              upto,
              in_range.0,
              omega (int_laws, stops.below),
              omega (arith, stops.below),
            );
            right_end = still_right;
            unmatched = λ e. absurd (cc);
          },
          omega (arith, width-lt s.l (true_m +ℤ pos 1) s.r (omega int_laws) some_left),
        )
          where
            upto : value stabs kind m ≤ addr
            upto = omega (arith, inv.to_addr)

        -- `m` is above the address.
        pub above :
            s.addr < value stabs kind m
            → Next s (record s { any_matches = true; region_right = m -ℤ pos 1; r = m -ℤ pos 1 })
        above h = (
          record {
            lo = inv.lo;
            hi = omega (int_laws, in_range.1);
            gap = omega int_laws;
            same = refl;
            from_addr = inv.from_addr;
            to_addr = inv.to_addr;
            low = inv.low;
            high = λ i k to_right e. over i k to_right e (Bool-cases (ltb_ℤ s.r i));
            left_end = elim inv.left_end [
              | inl (e, none_below, a) ↦ inl (e, none_below, inr (omega (int_laws, in_range.1)))
              | inr (any, e, v, k, k', k'') ↦
                  inr (refl, e, v, k, k', strict s.region_left v (omega arith))
            ];
            right_end = inr (
              refl,
              rw (back_one m) at_m,
              rw (back_one m) (omega (arith, inv.from_addr)),
              omega (int_laws, in_range.1),
            );
            unmatched = λ e. absurd (cc);
          },
          omega (
            arith,
            width-lt_right s.l s.r (m -ℤ pos 1) (omega (int_laws, stops.below)) some_left,
          ),
        )
          where
            not_at : (e : ℤ) → value stabs kind e ≤ addr → e ≡ m → ⊥
            not_at e v k =
                let v' : value stabs kind m ≤ addr = rw (← k) v in omega (arith, inv.from_addr)

            strict : (e : ℤ) → value stabs kind e ≤ addr → e ≤ℤ m → e ≤ℤ (m -ℤ pos 1)
            strict e v k = elim (≤ℤ_cases e m k) [ inl k' ↦ absurd (not_at e v k') | inr k' ↦ k' ]

            over :
                (i : ℤ)
                → (m -ℤ pos 1) <ℤ i
                → i ≤ℤ right
                → Matches stabs kind i
                → (ltb_ℤ s.r i ≡ true) ⊎ (ltb_ℤ s.r i ≡ false)
                → addr < value stabs kind i
            over i k to_right e (inl h') = inv.high i (ltb_ℤ→<ℤ s.r i h') to_right e
            over i k to_right e (inr h') = omega (
              arith,
              ordered.sorted m i in_range.0 (omega int_laws) to_right at_m e,
              inv.from_addr,
            )

        -- `m` is at the address.
        pub exact :
            value stabs kind m ≡ s.addr
            → Next s (record s {
              any_matches = true;
              region_left = m;
              l = m;
              addr = (s.addr + 1) % 2 ^ 32;
            })
        exact h = (
          record {
            lo = in_range.0;
            hi = inv.hi;
            gap = omega (int_laws, stops.below);
            same = inv.same;
            from_addr = omega (arith, first);
            to_addr = omega (arith, first);
            low = λ i from_left k e. elim (scan i (omega (int_laws, stops.below)) e) [
              | inl k' ↦ (omega (arith, inv.low i from_left k' e, first), omega (arith, inside))
              | inr (k', k'') ↦
                  (omega (arith, ordered.sorted i m from_left k'' in_range.1 e at_m, first), k'')
            ];
            high = inv.high;
            left_end = inr (
              refl,
              at_m,
              omega (arith, first),
              in_range.0,
              omega arith,
              omega (arith, stops.below),
            );
            right_end = still_right;
            unmatched = λ e. absurd (cc);
          },
          omega (arith, first, width-le s.l m s.r inside),
        )
          where
            first : s.addr ≡ addr
            first =
                sym h
                ∙ below_next (value stabs kind m) addr (omega (arith, inv.from_addr))
                    (omega (arith, inv.to_addr)) value_apart
