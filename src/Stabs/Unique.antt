-- ===== src/Stabs/Unique.antt =====
-- A region that contains the address is the only one that brackets it.
use jos.Prelude.{ℕ, ◌+◌, ◌≤◌, ◌<◌, ◌≡◌, ◌⊎◌, inl, inr, ap, ◌∙◌, ◌*◌, ◌^◌, arith, Bool-cases, some}
use mathlib.Core.Path.{subst}
use jos.Prelude.Int.{ℤ, pos, ◌+ℤ◌, ◌≤ℤ◌, ◌<ℤ◌, ltb_ℤ, ltb_ℤ→<ℤ, ltb_ℤ→≤ℤ, int_laws}
use jos.Stabs.{Stab, stab_binsearch}
use jos.Stabs.Scan.{≤ℤ_antisym, Matches, value, width}
use jos.Stabs.Round.{IsOrdered}
use jos.Stabs.Brackets.{IsContained, Brackets, stab_binsearch-Brackets}

module _ (stabs : ℤ → Stab) (kind : ℕ) (left right : ℤ) (addr : ℕ)
    (ordered : IsOrdered stabs kind left right addr) where
  abbrev pub Contained : ℤ → ℤ → Type 0
  Contained = IsContained stabs kind left right addr

  pub f-le-right : (e f : ℤ) → Contained e f → f ≤ℤ right
  f-le-right e f c = elim c.next [ inl h ↦ rw h (omega arith) | inr (h, m, v) ↦ omega arith ]

  -- No matching stab behind `e` is at most at the address.
  last-le :
      (e f i : ℤ)
      → Contained e f
      → Matches stabs kind i
      → value stabs kind i ≤ addr
      → i ≤ℤ right
      → left ≤ℤ i
      → i ≤ℤ e
  last-le e f i c m v hi lo = elim (Bool-cases (ltb_ℤ e i)) [
    | inr h ↦ ltb_ℤ→≤ℤ e i h
    | inl h ↦ elim (Bool-cases (ltb_ℤ f i)) [
      | inr k ↦ absurd (c.last i (ltb_ℤ→<ℤ e i h) (ltb_ℤ→≤ℤ f i k) m)
      | inl k ↦ absurd (beyond (ltb_ℤ→<ℤ f i k) c.next)
    ]
  ]
    where
      beyond :
          f <ℤ i
          → (f ≡ right)
            ⊎ ((f <ℤ right)
                × Matches stabs kind (f +ℤ pos 1)
                × (addr < value stabs kind (f +ℤ pos 1)))
          → ⊥
      beyond k (inl e') = let h : right ≤ℤ f = rw e' (omega arith) in omega arith
      beyond k (inr (h, m', v')) =
          let first : left ≤ℤ (f +ℤ pos 1) = omega (int_laws, c.from, c.ends) in
          let upto : (f +ℤ pos 1) ≤ℤ i = omega int_laws in
          omega (arith, ordered.sorted (f +ℤ pos 1) i first upto hi m' m)

  f_lem : (e f f' : ℤ) → Contained e f → Contained e f' → f ≤ℤ f'
  f_lem e f f' c c' = elim (Bool-cases (ltb_ℤ f' f)) [
    | inr h ↦ ltb_ℤ→≤ℤ f' f h
    | inl h ↦ absurd (beyond (ltb_ℤ→<ℤ f' f h) c'.next)
  ]
    where
      beyond :
          f' <ℤ f
          → (f' ≡ right)
            ⊎ ((f' <ℤ right)
                × Matches stabs kind (f' +ℤ pos 1)
                × (addr < value stabs kind (f' +ℤ pos 1)))
          → ⊥
      beyond k (inl e') =
          let h : right ≤ℤ f' = rw e' (omega arith) in omega (arith, f-le-right e f c)
      beyond k (inr (h, m', v')) =
          c.last (f' +ℤ pos 1) (omega (int_laws, c'.ends)) (omega int_laws) m'

  Contained-unique :
      (e f e' f' : ℤ)
      → Contained e f
      → Brackets stabs kind left right addr (e', f')
      → (e' ≡ e) × (f' ≡ f)
  Contained-unique e f e' f' c (inl c') =
      let below =
        last-le e f e' c c'.at c'.starts (omega (arith, c'.ends, f-le-right e' f' c')) c'.from in
      let above =
        last-le e' f' e c' c.at c.starts (omega (arith, c.ends, f-le-right e f c)) c.from in
      let same = ≤ℤ_antisym e' e below above in
      let c'' = subst (λ x. Contained x f') same c' in
      (same, ≤ℤ_antisym f' f (f_lem e f' f c'' c) (f_lem e f f' c c''))
  Contained-unique e f e' f' c (inr (inl absent)) =
      absurd (absent.none_matches e c.from (omega (arith, c.ends, f-le-right e f c)) c.at)
  Contained-unique e f e' f' c (inr (inr b)) = elim (Bool-cases (ltb_ℤ f' e)) [
    | inr h ↦ absurd (b.none_before e c.from (ltb_ℤ→≤ℤ f' e h) c.at)
    | inl h ↦ absurd (beyond (ltb_ℤ→<ℤ f' e h))
  ]
    where
      beyond : f' <ℤ e → ⊥
      beyond h =
          let upto : (f' +ℤ pos 1) ≤ℤ e = omega int_laws in
          let within : e ≤ℤ right = omega (arith, c.ends, f-le-right e f c) in
          omega (
            arith,
            ordered.sorted (f' +ℤ pos 1) e b.from upto within b.first c.at,
            b.above,
            c.starts,
          )

  -- So `stab_binsearch` finds it.
  pub stab_binsearch-IsContained :
      (k : ℕ) (e f : ℤ)
      → addr + 1 < 2 ^ 32
      → pos 0 ≤ℤ left
      → 2 * width left right + 1 < k
      → IsContained stabs kind left right addr e f
      → stab_binsearch stabs kind k left right addr ≡ some (e, f)
  stab_binsearch-IsContained k e f small nonneg fuel c =
      let (e', f', run, b) =
        stab_binsearch-Brackets stabs kind left right addr ordered small k nonneg
          (omega (int_laws, c.from, c.ends, f-le-right e f c)) fuel in
      let (same, same') = Contained-unique e f e' f' c b in
      run ∙ ap (λ x. some (x, f')) same ∙ ap (λ x. some (e, x)) same'
