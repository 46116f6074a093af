-- ===== src/Boot/Loader/Segments.antt =====
-- `bootmain` loads the segments of the image and enters it.
use jos.Prelude.{
  ℕ, zero, suc, ◌+◌, ◌*◌, ◌/◌, ◌%◌, ◌^◌, ◌≤◌, ◌<◌, ◌≡◌, refl, sym, ap, ◌∙◌, Option, some, ◌==◌,
  if◌then◌else◌, inl, arith,
}
use jos.Prelude.Options.{◌>>=◌}
use jos.Memory.{Mem, load16, load32}
use jos.Memory.Frame.{load16_same, load32_same}
use jos.Boot.{sectsize, Disk}
use jos.Boot.Segment.{readseg_lem}
use jos.Boot.Loader.{
  elf_at, proghdr_at, elf_magic, elfhdr, Booted, enters, bad, load_segments, bootmain,
}

-- The image begins at the second sector.
abbrev pub image : Disk → Mem
image disk i = disk (sectsize + i)

-- The first page of the image stands at `ELFHDR`.
abbrev HasPage : Disk → Mem → Type 0
HasPage disk m = (i : ℕ) → i < 4096 → m (elfhdr + i) ≡ image disk i

module _ (k : ℕ) (disk : Disk) where
  load16_page :
      (m : Mem) (i : ℕ)
      → HasPage disk m
      → i + 2 ≤ 4096
      → load16 m (elfhdr + i) ≡ load16 (image disk) i
  load16_page m i h lt =
      load16_same m (image disk) (elfhdr + i) i
        (λ j lt'. ap m (omega arith) ∙ h (i + j) (omega arith))

  load32_page :
      (m : Mem) (i : ℕ)
      → HasPage disk m
      → i + 4 ≤ 4096
      → load32 m (elfhdr + i) ≡ load32 (image disk) i
  load32_page m i h lt =
      load32_same m (image disk) (elfhdr + i) i
        (λ j lt'. ap m (omega arith) ∙ h (i + j) (omega arith))

  -- From `ph` on there are `n` program headers; the segments lie one behind the other, from `low` on,
  -- the next one beginning in a later sector, and the fuel is enough for each.
  abbrev pub Segments : ℕ → ℕ → ℕ → Type 0
  Segments zero ph low = Unit {0}
  Segments (suc n) ph low =
      let p = proghdr_at (image disk) ph in
      (low ≤ p.p_pa / sectsize * sectsize)
      × (p.p_pa % sectsize ≡ p.p_offset % sectsize)
      × (p.p_pa + p.p_memsz + sectsize < 2 ^ 32)
      × (p.p_offset / sectsize + 1 + k < 2 ^ 32)
      × (p.p_memsz / sectsize + 2 < k)
      × Segments n (ph + 32) (p.p_pa + p.p_memsz)

  -- The memory has the bytes of the segments.
  abbrev pub AreLoaded : ℕ → ℕ → Mem → Type 0
  AreLoaded zero ph m = Unit {0}
  AreLoaded (suc n) ph m =
      let p = proghdr_at (image disk) ph in
      ((i : ℕ) → i < p.p_memsz → m (p.p_pa + i) ≡ image disk (p.p_offset + i))
      × AreLoaded n (ph + 32) m

  field_page :
      (m : Mem) (ph i : ℕ)
      → HasPage disk m
      → ph + i + 4 ≤ 4096
      → load32 m (elfhdr + ph + i) ≡ load32 (image disk) (ph + i)
  field_page m ph i h lt = ap (load32 m) (omega arith) ∙ load32_page m (ph + i) h (omega arith)

  load_segments_lem :
      (n ph low : ℕ) (m : Mem)
      → HasPage disk m
      → ph + 32 * n ≤ 4096
      → Segments n ph low
      → elfhdr + 4096 ≤ low
      → (m' : Mem) × (load_segments k disk n m (elfhdr + ph) ≡ some m')
        × AreLoaded n ph m'
        × ((a : ℕ) → a < low → m' a ≡ m a)
  unfolding load_segments
  load_segments_lem zero ph low m page fits segs high = (m, refl, tt, λ a lt. refl)
  load_segments_lem (suc n) ph low m page fits (from, aligned, fits', fits'', fuel, segs) high =
      let p = proghdr_at (image disk) ph in
      let (m1, run, bytes, frame) =
        readseg_lem k disk m p.p_pa p.p_memsz p.p_offset aligned fits' fits'' fuel in
      let (m', run', loaded, frame') =
        load_segments_lem n (ph + 32) (p.p_pa + p.p_memsz) m1
          (λ i lt. frame (elfhdr + i) (inl (omega arith)) ∙ page i lt) (omega arith) segs
          (omega arith) in
      let next : elfhdr + (ph + 32) ≡ elfhdr + ph + 32 = omega arith in
      (
        m',
        rw
            (
              field_page m ph 4 page (omega arith),
              field_page m ph 12 page (omega arith),
              field_page m ph 20 page (omega arith),
              run,
            )
            (ap (load_segments k disk n m1) (sym next) ∙ run'),
        (λ i lt. frame' (p.p_pa + i) (omega arith) ∙ bytes i lt ∙ ap disk (omega arith), loaded),
        λ a lt. frame' a (omega arith) ∙ frame a (inl (omega arith)),
      )

  -- `bootmain` behind its first call.
  abbrev behind_header : Mem → Option Booted
  behind_header m =
      if load32 m elfhdr == elf_magic
      then (load_segments k disk (load16 m (elfhdr + 44)) m (elfhdr + load32 m (elfhdr + 28))
          >>= λ m'. some (enters (load32 m' (elfhdr + 24)) m'))
      else some (bad m)

  -- If the disk holds from its second sector on an ELF image whose program headers stand in the first
  -- 4096 bytes and whose segments lie above the scratch page, one behind the other and each beginning in
  -- a sector behind the one in which the last ends, at an address that agrees with its offset modulo the
  -- sector size, then with enough fuel for each segment `bootmain` enters the image at its entry point,
  -- and the memory has the bytes of every segment at its physical address.
  pub bootmain_lem :
      (m : Mem)
      → (elf_at (image disk) 0).e_magic ≡ elf_magic
      → (elf_at (image disk) 0).e_phoff + 32 * (elf_at (image disk) 0).e_phnum ≤ 4096
      → Segments (elf_at (image disk) 0).e_phnum (elf_at (image disk) 0).e_phoff (elfhdr + 4096)
      → 11 ≤ k
      → k < 2 ^ 31
      → (m' : Mem) × (bootmain k disk m ≡ some (enters (elf_at (image disk) 0).e_entry m'))
        × AreLoaded (elf_at (image disk) 0).e_phnum (elf_at (image disk) 0).e_phoff m'
  unfolding bootmain
  bootmain_lem m magic fits segs fuel small =
      let e = elf_at (image disk) 0 in
      let (m1, run, bytes, frame) =
        readseg_lem k disk m elfhdr 4096 0 refl (omega arith) (omega arith) (omega arith) in
      let page : HasPage disk m1 = λ i lt. bytes i lt ∙ ap disk (omega arith) in
      let (m', run', loaded, frame') =
        load_segments_lem e.e_phnum e.e_phoff (elfhdr + 4096) m1 page fits segs (omega arith) in
      let page' : HasPage disk m' = λ i lt. frame' (elfhdr + i) (omega arith) ∙ page i lt in
      (
        m',
        ap (λ r. r >>= behind_header) run
            ∙ ap
                (λ (magic : ℕ).
                  if magic == elf_magic
                  then (load_segments k disk (load16 m1 (elfhdr + 44)) m1
                        (elfhdr + load32 m1 (elfhdr + 28))
                      >>= λ m'. some (enters (load32 m' (elfhdr + 24)) m'))
                  else some (bad m1))
                (load32_page m1 0 page (omega arith) ∙ magic)
            ∙ ap
                (λ n. load_segments k disk n m1 (elfhdr + load32 m1 (elfhdr + 28)) >>= λ m'.
                  some (enters (load32 m' (elfhdr + 24)) m'))
                (load16_page m1 44 page (omega arith))
            ∙ ap
                (λ off. load_segments k disk e.e_phnum m1 (elfhdr + off) >>= λ m'.
                  some (enters (load32 m' (elfhdr + 24)) m'))
                (load32_page m1 28 page (omega arith))
            ∙ ap (λ r. r >>= λ m'. some (enters (load32 m' (elfhdr + 24)) m')) run'
            ∙ ap (λ entry. some (enters entry m')) (load32_page m' 24 page' (omega arith)),
        loaded,
      )
