-- ===== src/Block/Move.antt =====
-- `memmove` copies, whichever direction and instruction it uses.
use jos.Prelude.{
  ℕ, zero, suc, ◌+◌, ◌-◌, ◌*◌, ◌/◌, ◌%◌, ◌≤◌, ◌≡◌, ◌⊎◌, inl, inr, ap, sym, ◌∙◌, arith, ◌==◌, ◌&&◌,
  ltb, Bool-cases, fun_ext,
}
use jos.Memory.{Mem, store, copied}
use jos.Memory.Regions.{copied-copied_up, copied-copied_down, copied_one, copied_none}
use jos.Block.{
  move_long, rep_movsb_up, rep_movsl_up, rep_movsb_down, rep_movsl_down, longs, memmove,
}
use jos.Block.Portable.{move_up, move_down}
use jos.Block.Portable

-- One transfer, whatever its width `w`, is a copy of `w` bytes.
move_long-copied : (m : Mem) (d s : ℕ) → move_long m d s ≡ copied m d s 4
unfolding move_long store copied
move_long-copied m d s = fun_ext λ a. ground arith

rep_movsb_up-copied :
    (m : Mem) (d s n : ℕ) → (d ≤ s) ⊎ (s + n ≤ d) → rep_movsb_up m d s n ≡ copied m d s n
unfolding rep_movsb_up
rep_movsb_up-copied m d s zero h = copied_none m d s
rep_movsb_up-copied m d s (suc n) h =
    rep_movsb_up-copied (store m d (m s)) (d + 1) (s + 1) n (omega arith)
    ∙ ap (λ m'. copied m' (d + 1) (s + 1) n) (copied_one m d s)
    ∙ copied-copied_up m d s 1 n (omega arith)
    ∙ ap (copied m d s) (omega arith)

rep_movsl_up-copied :
    (m : Mem) (d s n : ℕ) → (d ≤ s) ⊎ (s + 4 * n ≤ d) → rep_movsl_up m d s n ≡ copied m d s (4 * n)
unfolding rep_movsl_up
rep_movsl_up-copied m d s zero h = copied_none m d s
rep_movsl_up-copied m d s (suc n) h =
    rep_movsl_up-copied (move_long m d s) (d + 4) (s + 4) n (omega arith)
    ∙ ap (λ m'. copied m' (d + 4) (s + 4) (4 * n)) (move_long-copied m d s)
    ∙ copied-copied_up m d s 4 (4 * n) (omega arith)
    ∙ ap (copied m d s) (omega arith)

-- The registers start at the last byte, or the last long, of the block.
rep_movsb_down-copied :
    (m : Mem) (d s n : ℕ) → s ≤ d → rep_movsb_down m (d + n - 1) (s + n - 1) n ≡ copied m d s n
unfolding rep_movsb_down
rep_movsb_down-copied m d s zero h = copied_none m d s
rep_movsb_down-copied m d s (suc n) h =
    let ed : d + suc n - 1 ≡ d + n = omega arith in
    let es : s + suc n - 1 ≡ s + n = omega arith in
    rw (ed, es)
      (rep_movsb_down-copied (store m (d + n) (m (s + n))) d s n h
        ∙ ap (λ m'. copied m' d s n) (copied_one m (d + n) (s + n))
        ∙ copied-copied_down m d s 1 n h
        ∙ ap (copied m d s) (omega arith))

rep_movsl_down-copied :
    (m : Mem) (d s n : ℕ)
    → s ≤ d
    → rep_movsl_down m (d + 4 * n - 4) (s + 4 * n - 4) n ≡ copied m d s (4 * n)
unfolding rep_movsl_down
rep_movsl_down-copied m d s zero h = copied_none m d s
rep_movsl_down-copied m d s (suc n) h =
    let ed : d + 4 * suc n - 4 ≡ d + 4 * n = omega arith in
    let es : s + 4 * suc n - 4 ≡ s + 4 * n = omega arith in
    rw (ed, es)
      (rep_movsl_down-copied (move_long m (d + 4 * n) (s + 4 * n)) d s n h
        ∙ ap (λ m'. copied m' d s (4 * n)) (move_long-copied m (d + 4 * n) (s + 4 * n))
        ∙ copied-copied_down m d s 4 (4 * n) h
        ∙ ap (copied m d s) (omega arith))

abbrev pair : ℕ → Mem → ℕ × Mem
pair v m = (v, m)

-- `memmove` returns `dst` and copies the `n` bytes as if at once, however the two blocks overlap,
-- and changes no other byte, on each of its four ways.
pub memmove_lem : (m : Mem) (dst src n : ℕ) → memmove m dst src n ≡ (dst, copied m dst src n)
unfolding memmove longs
memmove_lem m dst src n = elim (Bool-cases (ltb src dst && ltb dst (src + n))) [
  | inl down ↦ elim (Bool-cases ((src + n) % 4 == 0 && (dst + n) % 4 == 0 && n % 4 == 0)) [
    | inl e ↦
        let q : 4 * (n / 4) ≡ n = ground arith in
        rw (down, e)
          (ap (pair dst) (rw q at (rep_movsl_down-copied m dst src (n / 4) (ground arith))))
    | inr e ↦ rw (down, e) (ap (pair dst) (rep_movsb_down-copied m dst src n (ground arith)))
  ]
  | inr up ↦ elim (Bool-cases (src % 4 == 0 && dst % 4 == 0 && n % 4 == 0)) [
    | inl e ↦
        let q : 4 * (n / 4) ≡ n = ground arith in
        rw (up, e) (ap (pair dst) (rw q at (rep_movsl_up-copied m dst src (n / 4) (ground arith))))
    | inr e ↦ rw (up, e) (ap (pair dst) (rep_movsb_up-copied m dst src n (ground arith)))
  ]
]

move_up-copied : (m : Mem) (d s n : ℕ) → (d ≤ s) ⊎ (s + n ≤ d) → move_up m d s n ≡ copied m d s n
unfolding move_up
move_up-copied m d s zero h = copied_none m d s
move_up-copied m d s (suc n) h =
    move_up-copied (store m d (m s)) (d + 1) (s + 1) n (omega arith)
    ∙ ap (λ m'. copied m' (d + 1) (s + 1) n) (copied_one m d s)
    ∙ copied-copied_up m d s 1 n (omega arith)
    ∙ ap (copied m d s) (omega arith)

move_down-copied : (m : Mem) (d s n : ℕ) → s ≤ d → move_down m (d + n) (s + n) n ≡ copied m d s n
unfolding move_down
move_down-copied m d s zero h = copied_none m d s
move_down-copied m d s (suc n) h =
    let ed : d + suc n - 1 ≡ d + n = omega arith in
    let es : s + suc n - 1 ≡ s + n = omega arith in
    rw (ed, es)
      (move_down-copied (store m (d + n) (m (s + n))) d s n h
        ∙ ap (λ m'. copied m' d s n) (copied_one m (d + n) (s + n))
        ∙ copied-copied_down m d s 1 n h
        ∙ ap (copied m d s) (omega arith))

-- The compiled `memmove` and the portable one are the same function.
pub memmove-portable :
    (m : Mem) (dst src n : ℕ) → memmove m dst src n ≡ Portable.memmove m dst src n
unfolding Portable.memmove
memmove-portable m dst src n =
    memmove_lem m dst src n ∙ elim (Bool-cases (ltb src dst && ltb dst (src + n))) [
      | inl down ↦ rw down (ap (pair dst) (sym (move_down-copied m dst src n (ground arith))))
      | inr up ↦ rw up (ap (pair dst) (sym (move_up-copied m dst src n (ground arith))))
    ]
