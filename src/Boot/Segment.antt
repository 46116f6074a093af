-- ===== src/Boot/Segment.antt =====
-- `readseg` brings the bytes of the segment to its address.
use jos.Prelude.{
  ℕ, zero, suc, ◌+◌, ◌-◌, ◌*◌, ◌/◌, ◌%◌, ◌^◌, ◌≤◌, ◌<◌, ◌≡◌, ◌⊎◌, refl, ap, ◌∙◌, some, ltb,
  Bool-cases, inl, inr, arith, lt→ltb, le→ltb, Option,
}
use native.Mathlib.Decide.{dec_lt}
use jos.Memory.{Mem}
use jos.Boot.{sectsize, Disk, readsect, readseg_loop, readseg}

-- From `pa` to `top` the memory has the bytes that stand on the disk from `start` on, and elsewhere,
-- it is as before.
abbrev pub Loaded : Disk → Mem → Mem → ℕ → ℕ → ℕ → Type 0
Loaded disk m' m pa top start =
    ((a : ℕ) → pa ≤ a → a < top → m' a ≡ disk (start + (a - pa)))
    × ((a : ℕ) → (a < pa) ⊎ (top ≤ a) → m' a ≡ m a)

-- One sector and then the ones behind it.
Loaded-readsect :
    (disk : Disk) (m' m : Mem) (pa top offset : ℕ)
    → pa + sectsize ≤ top
    → Loaded disk m' (readsect disk m pa offset) (pa + sectsize) top ((offset + 1) * sectsize)
    → Loaded disk m' m pa top (offset * sectsize)
unfolding readsect
Loaded-readsect disk m' m pa top offset le (inside, outside) =
    (bytes, λ a h. outside a (omega arith) ∙ ground arith)
  where
    here : (a : ℕ) → pa ≤ a → a < pa + sectsize → m' a ≡ disk (offset * sectsize + (a - pa))
    here a lo hi = outside a (inl hi) ∙ ground arith

    later : (a : ℕ) → pa + sectsize ≤ a → a < top → m' a ≡ disk (offset * sectsize + (a - pa))
    later a lo hi = inside a lo hi ∙ ap disk (omega arith)

    bytes : (a : ℕ) → pa ≤ a → a < top → m' a ≡ disk (offset * sectsize + (a - pa))
    bytes a lo hi = elim (Bool-cases (ltb a (pa + sectsize))) [
      | inl e ↦ here a lo (ground arith)
      | inr e ↦ later a (ground arith) hi
    ]

-- What the loop is to leave: the memory, loaded up to the first end of a sector that is
-- not below the end.
abbrev pub Reads : Disk → Mem → ℕ → ℕ → ℕ → Option Mem → Type 0
Reads disk m pa end_pa offset r =
    (m' : Mem) × (top : ℕ) × (r ≡ some m')
    × (pa ≤ top)
    × (end_pa ≤ top)
    × (top < end_pa + sectsize)
    × (top % sectsize ≡ pa % sectsize)
    × Loaded disk m' m pa top (offset * sectsize)

readseg_step :
    (k : ℕ) (disk : Disk) (m : Mem) (pa end_pa offset : ℕ)
    → pa < end_pa
    → pa + sectsize < 2 ^ 32
    → offset + 1 < 2 ^ 32
    → readseg_loop (suc k) disk m pa end_pa offset
      ≡ readseg_loop k disk (readsect disk m pa offset) (pa + sectsize) end_pa (offset + 1)
unfolding readseg_loop
readseg_step k disk m pa end_pa offset lt h h' =
    let pa_fits : (pa + sectsize) % 2 ^ 32 ≡ pa + sectsize = omega arith in
    let offset_fits : (offset + 1) % 2 ^ 32 ≡ offset + 1 = omega arith in
    rw (lt→ltb pa end_pa lt, pa_fits, offset_fits)

readseg_end :
    (k : ℕ) (disk : Disk) (m : Mem) (pa end_pa offset : ℕ)
    → end_pa ≤ pa
    → readseg_loop (suc k) disk m pa end_pa offset ≡ some m
unfolding readseg_loop
readseg_end k disk m pa end_pa offset le = rw (le→ltb pa end_pa le)

readseg_loop_lem :
    (k : ℕ) (disk : Disk) (m : Mem) (pa end_pa offset : ℕ)
    → end_pa + sectsize < 2 ^ 32
    → offset + k < 2 ^ 32
    → pa < end_pa + sectsize
    → end_pa + sectsize ≤ pa + k * sectsize
    → Reads disk m pa end_pa offset (readseg_loop k disk m pa end_pa offset)
readseg_loop_lem zero disk m pa end_pa offset fits fits' near fuel = absurd (omega arith)
readseg_loop_lem (suc k) disk m pa end_pa offset fits fits' near fuel = elim (dec_lt pa end_pa) [
  | yes lt ↦
      let (m', top, run, from, le, near', whole, loaded) =
        readseg_loop_lem k disk (readsect disk m pa offset) (pa + sectsize) end_pa (offset + 1) fits
          (omega arith) (omega arith) (omega arith) in
      (
        m',
        top,
        readseg_step k disk m pa end_pa offset lt (omega arith) (omega arith) ∙ run,
        omega arith,
        le,
        near',
        omega (arith, whole),
        Loaded-readsect disk m' m pa top offset from loaded,
      )
  | no ge ↦ (
    m,
    pa,
    readseg_end k disk m pa end_pa offset (omega arith),
    omega arith,
    omega arith,
    near,
    refl,
    (λ a lo hi. absurd (omega arith), λ a h. refl),
  )
]

-- The image starts at the second sector of the disk. If the address and the offset of a segment are
-- the same modulo the sector size and nothing wraps, then `count / 512 + 3` rounds are enough, and
-- `readseg` leaves at `pa` the `count` bytes of the image from `offset` on; no byte changes below
-- the 512 bytes in which the segment begins, nor from the next multiple of 512 at or behind its end on.
pub readseg_lem :
    (k : ℕ) (disk : Disk) (m : Mem) (pa count offset : ℕ)
    → pa % sectsize ≡ offset % sectsize
    → pa + count + sectsize < 2 ^ 32
    → offset / sectsize + 1 + k < 2 ^ 32
    → count / sectsize + 2 < k
    → (m' : Mem) × (readseg k disk m pa count offset ≡ some m')
      × ((i : ℕ) → i < count → m' (pa + i) ≡ disk (sectsize + offset + i))
      × ((a : ℕ)
          → (a < pa / sectsize * sectsize)
            ⊎ ((pa + count + (sectsize - 1)) / sectsize * sectsize ≤ a)
          → m' a ≡ m a)
unfolding readseg
readseg_lem k disk m pa count offset aligned fits fits' fuel =
    let end_fits : (pa + count) % 2 ^ 32 ≡ pa + count = omega arith in
    let (m', top, run, from, le, near, whole, (inside, outside)) =
      readseg_loop_lem k disk m (pa / sectsize * sectsize) (pa + count) (offset / sectsize + 1) fits
        (omega arith) (omega arith) (omega arith) in
    (
      m',
      ap (λ e. readseg_loop k disk m (pa / sectsize * sectsize) e (offset / sectsize + 1)) end_fits
          ∙ run,
      λ i lt. inside (pa + i) (omega arith) (omega arith) ∙ ap disk (omega arith),
      λ a h. outside a (omega (arith, whole)),
    )
