-- ===== src/Tests/Devices.antt =====
-- The theorems of `Console` and `Boot` at concrete states.
use jos.Prelude.{
  ℕ, ◌≡◌, ◌⊎◌, ◌+◌, ◌-◌, ◌*◌, ◌/◌, ◌%◌, ◌≤◌, ◌<◌, ◌++◌, [], ◌∷◌, some, replicate, length-replicate,
  get_or, ltb, if◌then◌else◌, refl, arith,
}
use jos.Memory.{Mem}
use jos.Console.Ring.{Cons, take_in, cons_intr}
use jos.Console.Ring.Queue.{IsValid, contents, cons_intr-contents, take_in_overflow}
use jos.Console.Crt.{Crt, crt_size, crt_cols, scroll}
use jos.Console.Crt.Bounds
use jos.Console.Crt.Cells.{scroll_lem}
use jos.Console.Output.{Machine, cons_putc}
use jos.Console.Output.Keeps.{cons_putc-IsValid}
use jos.Boot.{Disk, readseg}
use jos.Boot.Segment.{readseg_lem}
use jos.Tests.Memory.{codes}

-- Two characters wait round the end of the buffer.
abbrev wrapped : Cons
wrapped = record { buf = replicate 512 b'x'; rpos = 511; wpos = 1 }

wrapped-IsValid : IsValid wrapped
wrapped-IsValid = record {
  size = length-replicate {A = ℕ} 512 b'x';
  rpos = omega arith;
  wpos = omega arith;
}

cons_intr-contents_example :
    contents (cons_intr (b'h' ∷ 0 ∷ b'i' ∷ []) wrapped) ≡ contents wrapped ++ codes "hi"
cons_intr-contents_example =
    cons_intr-contents (b'h' ∷ 0 ∷ b'i' ∷ []) wrapped wrapped-IsValid (omega arith)

abbrev full : Cons
full = record { buf = replicate 512 b'x'; rpos = 7; wpos = 6 }

full-IsValid : IsValid full
full-IsValid = record {
  size = length-replicate {A = ℕ} 512 b'x';
  rpos = omega arith;
  wpos = omega arith;
}

take_in_overflow_example : contents (take_in b'y' full) ≡ []
take_in_overflow_example = take_in_overflow b'y' full full-IsValid (omega arith) refl

-- The cursor one behind the last place, white on blue.
abbrev screen : Crt
screen = record { buf = replicate 2000 0x0720; pos = 2000; bg = 1; fg = 15 }

scroll_lem_example :
    (screen.pos < crt_size → scroll screen ≡ screen)
    × (crt_size ≤ screen.pos
        → ((scroll screen).pos + crt_cols ≡ screen.pos)
          × (get_or (scroll screen).buf 5 0 ≡ (
              if ltb 5 (crt_size - crt_cols) then get_or screen.buf (5 + crt_cols) 0 else 0x0720)))
scroll_lem_example = scroll_lem screen 5 (length-replicate {A = ℕ} 2000 0x0720) (omega arith)

abbrev machine : Machine
machine = record { crt = record screen { pos = 1999 }; addr_6845 = 0x3D4; written = [] }

machine-IsValid : Bounds.IsValid machine.crt
machine-IsValid = record { cells = length-replicate {A = ℕ} 2000 0x0720; on = omega arith }

cons_putc-IsValid_example : Bounds.IsValid (cons_putc 9 machine).crt
cons_putc-IsValid_example = cons_putc-IsValid 9 machine machine-IsValid

-- A disk whose byte `n` is `n` modulo 251, and a segment of 700 bytes.
abbrev disk : Disk
disk n = n % 251

readseg_lem_example :
    (m' : Mem) × (readseg 9 disk (λ a. 0) 0x100010 700 0x1010 ≡ some m')
    × ((i : ℕ) → i < 700 → m' (0x100010 + i) ≡ disk (512 + 0x1010 + i))
    × ((a : ℕ)
        → (a < 0x100010 / 512 * 512) ⊎ ((0x100010 + 700 + (512 - 1)) / 512 * 512 ≤ a)
        → m' a ≡ 0)
readseg_lem_example =
    readseg_lem 9 disk (λ a. 0) 0x100010 700 0x1010 refl (omega arith) (omega arith) (omega arith)
