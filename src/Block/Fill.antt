-- ===== src/Block/Fill.antt =====
-- `memset` fills, whichever instruction it uses.
use jos.Prelude.{
  ℕ, zero, suc, ◌+◌, ◌*◌, ◌/◌, ◌%◌, ◌^◌, ◌<◌, ◌≡◌, inl, inr, refl, ap, ◌∙◌, arith, ◌==◌, ◌&&◌,
  Bool-cases, fun_ext,
}
use jos.Prelude.Bits.{bit_or-add}
use jos.Memory.{Mem, store, filled}
use jos.Memory.Regions.{filled-filled, filled_one, filled_none}
use jos.Block.{store_long, rep_stosb, rep_stosl, spread, memset}

abbrev pair : ℕ → Mem → ℕ × Mem
pair v m = (v, m)

-- Each of the four bytes of the spread word is `c`.
spread_lem : (c : ℕ) → c < 2 ^ 8 → spread c ≡ c * 2 ^ 24 + c * 2 ^ 16 + c * 2 ^ 8 + c
unfolding spread
spread_lem c h = rw (bit_or-add 24 c (c * 2 ^ 24) (c * 2 ^ 16) refl (omega arith)) (
    rw
      (bit_or-add 16 (c * 2 ^ 8 + c) (c * 2 ^ 24 + c * 2 ^ 16) (c * 2 ^ 8) (omega arith)
        (omega arith))
      (bit_or-add 8 (c * 2 ^ 16 + c * 2 ^ 8 + c) (c * 2 ^ 24 + c * 2 ^ 16 + c * 2 ^ 8) c
        (omega arith) h))

store_long-filled : (m : Mem) (d c : ℕ) → c < 2 ^ 8 → store_long m d (spread c) ≡ filled m d c 4
unfolding store_long store filled
store_long-filled m d c h = fun_ext λ a. ground (arith, spread_lem c h)

rep_stosb-filled : (m : Mem) (d a n : ℕ) → rep_stosb m d a n ≡ filled m d (a % 2 ^ 8) n
unfolding rep_stosb
rep_stosb-filled m d a zero = filled_none m d (a % 2 ^ 8)
rep_stosb-filled m d a (suc n) =
    rep_stosb-filled (store m d (a % 2 ^ 8)) (d + 1) a n
    ∙ ap (λ m'. filled m' (d + 1) (a % 2 ^ 8) n) (filled_one m d (a % 2 ^ 8))
    ∙ filled-filled m d (a % 2 ^ 8) 1 n
    ∙ ap (filled m d (a % 2 ^ 8)) (omega arith)

rep_stosl-filled :
    (m : Mem) (d c n : ℕ) → c < 2 ^ 8 → rep_stosl m d (spread c) n ≡ filled m d c (4 * n)
unfolding rep_stosl
rep_stosl-filled m d c zero h = filled_none m d c
rep_stosl-filled m d c (suc n) h =
    rep_stosl-filled (store_long m d (spread c)) (d + 4) c n h
    ∙ ap (λ m'. filled m' (d + 4) c (4 * n)) (store_long-filled m d c h)
    ∙ filled-filled m d c 4 (4 * n)
    ∙ ap (filled m d c) (omega arith)

-- `memset` returns `v`, sets each of the `n` bytes from `v` on to the low byte of `c`, and changes
-- no other byte, whether it stores bytes or, at an aligned block, longs.
pub memset_lem : (m : Mem) (v c n : ℕ) → memset m v c n ≡ (v, filled m v (c % 2 ^ 8) n)
unfolding memset
memset_lem m v c n = elim (Bool-cases (n == 0)) [
  | inl e ↦
      rw e (ap (pair v) (filled_none m v (c % 2 ^ 8) ∙ ap (filled m v (c % 2 ^ 8)) (ground arith)))
  | inr e ↦ elim (Bool-cases (v % 4 == 0 && n % 4 == 0)) [
    | inl e' ↦
        rw (e, e')
          (ap (pair v) (
            rep_stosl-filled m v (c % 2 ^ 8) (n / 4) (omega arith)
            ∙ ap (filled m v (c % 2 ^ 8)) (ground arith)))
    | inr e' ↦ rw (e, e') (ap (pair v) (rep_stosb-filled m v c n))
  ]
]
