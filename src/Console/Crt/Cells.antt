-- ===== src/Console/Crt/Cells.antt =====
-- What stands on the screen behind a character.
use jos.Prelude.{
  ℕ, zero, suc, ◌+◌, ◌-◌, ◌*◌, ◌^◌, ◌≤◌, ◌<◌, ◌≡◌, ◌⊎◌, refl, ap, ◌∙◌, sym, List, length,
  length-set, length-drop, set, get_or, get_or-set_self, get_or-set_ne, get_or-drop,
  get_or-take_append, drop, ◌==◌, ◌&&◌, ltb, leb, if◌then◌else◌, Bool-cases, inl, inr, bit_or,
  arith, true, false,
}
use jos.Prelude.Bits.{bit_or_low}
use jos.Console.Crt.{Crt, crt_cols, crt_size, attributed, moved_up, blank_loop, scroll}
use jos.Console.Crt.Bounds.{length-moved_up}

-- The attribute byte: the two colours, or gray on black.
abbrev pub attribute : Crt → ℕ
attribute s = if s.bg == 0 && s.fg == 0 then 7 else s.bg * 16 + s.fg

-- A character gets the attribute byte above it.
pub attributed_lem :
    (s : Crt) (c : ℕ) → c < 2 ^ 8 → s.fg < 16 → attributed s c ≡ attribute s * 2 ^ 8 + c
unfolding attributed
attributed_lem s c h hf = elim (Bool-cases (s.bg == 0 && s.fg == 0)) [
  | inl e ↦ rw e (bit_or_low 8 7 c h)
  | inr e ↦
      rw (e, bit_or_low 12 s.bg (s.fg * 2 ^ 8) (omega arith))
        (ap (bit_or c) (omega arith) ∙ bit_or_low 8 (s.bg * 16 + s.fg) c h)
]

blank_loop_out :
    (n i j : ℕ) (buf : List ℕ)
    → (j < i) ⊎ (i + n ≤ j)
    → get_or (blank_loop n i buf) j 0 ≡ get_or buf j 0
unfolding blank_loop
blank_loop_out zero i j buf h = refl
blank_loop_out (suc n) i j buf h =
    blank_loop_out n (i + 1) j (set buf i 0x0720) (omega arith)
    ∙ get_or-set_ne buf i j 0x0720 0 (omega arith)

blank_loop_in :
    (n i j : ℕ) (buf : List ℕ)
    → i ≤ j
    → j < i + n
    → j < length buf
    → get_or (blank_loop n i buf) j 0 ≡ 0x0720
unfolding blank_loop
blank_loop_in zero i j buf lo hi h = absurd (omega arith)
blank_loop_in (suc n) i j buf lo hi h = elim (Bool-cases (i == j)) [
  | inl e ↦
      let same : i ≡ j = ground arith in
      blank_loop_out n (i + 1) j (set buf i 0x0720) (omega arith)
      ∙ ap (λ k. get_or (set buf i 0x0720) k 0) (sym same)
      ∙ get_or-set_self buf i 0x0720 0 (omega arith)
  | inr e ↦
      blank_loop_in n (i + 1) j (set buf i 0x0720) (ground arith) (omega arith)
        (omega (arith, length-set buf i 0x0720))
]

-- When the cursor has left the last row, each row moves up by one, the last row is blank with gray
-- on black, and the cursor stays in its column; otherwise nothing changes.
pub scroll_lem :
    (s : Crt) (j : ℕ)
    → length s.buf ≡ crt_size
    → j < crt_size
    → (s.pos < crt_size → scroll s ≡ s)
      × (crt_size ≤ s.pos
          → ((scroll s).pos + crt_cols ≡ s.pos)
            × (get_or (scroll s).buf j 0
                ≡ (if ltb j (crt_size - crt_cols) then get_or s.buf (j + crt_cols) 0 else 0x0720)))
unfolding scroll
scroll_lem s j h lt = (λ on. rw (on_screen on), λ off. rw (off_screen off) (ground arith, rows))
  where
    on_screen : s.pos < crt_size → leb crt_size s.pos ≡ false
    on_screen on = ground arith

    off_screen : crt_size ≤ s.pos → leb crt_size s.pos ≡ true
    off_screen off = ground arith

    up : j < crt_size - crt_cols → get_or (moved_up s.buf) j 0 ≡ get_or s.buf (j + crt_cols) 0
    up in_rows =
        get_or-take_append (crt_size - crt_cols) j (drop crt_cols s.buf)
          (drop (crt_size - crt_cols) s.buf) 0 in_rows (omega (arith, length-drop crt_cols s.buf))
        ∙ get_or-drop crt_cols j s.buf 0
        ∙ ap (λ i. get_or s.buf i 0) (omega arith)

    rows :
        get_or (blank_loop crt_cols (crt_size - crt_cols) (moved_up s.buf)) j 0
        ≡ (if ltb j (crt_size - crt_cols) then get_or s.buf (j + crt_cols) 0 else 0x0720)
    rows = elim (Bool-cases (ltb j (crt_size - crt_cols))) [
      | inl e ↦ rw e (
          blank_loop_out crt_cols (crt_size - crt_cols) j (moved_up s.buf) (ground arith)
          ∙ up (ground arith))
      | inr e ↦ rw e (
          blank_loop_in crt_cols (crt_size - crt_cols) j (moved_up s.buf) (ground arith)
            (omega arith) (omega (arith, length-moved_up s.buf h)))
    ]
