-- ===== src/Tests/Addresses.antt =====
-- The theorems of `Pages` and `Descriptors` at concrete addresses.
use jos.Prelude.{◌+◌, ◌-◌, ◌*◌, ◌%◌, ◌≡◌, ◌<◌, bit_or, true, refl, [], ◌∷◌, arith}
use jos.Pages.{kernbase, pte_p, pte_w}
use jos.Pages.Entry.{Maps, entry_pgdir-kernbase}
use jos.Pages.Layout.{
  ptsize, iophysmem, extphysmem, kstacktop, kstksize, kstkgap, mmiolim, mmiobase, ulim, uvpt,
  upages, uenvs, utop, uxstacktop, ustacktop, utext, utemp, pftemp, ustabdata,
}
use jos.Descriptors.{
  seg, seg16, seg_bytes, seg_null, seg_fault, segdesc_bytes, Gatedesc, setgate, setcallgate,
  gatedesc_bytes, sta_x, sta_w, sta_r, sts_tg32, sts_cg32,
}
use jos.Descriptors.Seg.{Describes, seg-seg_bytes, seg-Describes, seg16-Describes}
use jos.Descriptors.Gate.{IsGate, setgate-IsGate}

entry_pgdir-kernbase_example : Maps 0xF0112000 0xF0105ABC (0xF0105ABC - kernbase) (pte_p + pte_w)
entry_pgdir-kernbase_example =
    entry_pgdir-kernbase 0xF0112000 0xF0105ABC (omega arith) (omega arith) (omega arith)
      (omega arith) (omega arith)

-- The two segments of boot/boot.S.
seg-code :
    seg_bytes (bit_or sta_x sta_r) 0 0xffffffff ≡ 0xff ∷ 0xff ∷ 0 ∷ 0 ∷ 0 ∷ 0x9a ∷ 0xcf ∷ 0 ∷ []
unfolding seg_bytes
seg-code = refl

seg-data : seg_bytes sta_w 0 0xffffffff ≡ 0xff ∷ 0xff ∷ 0 ∷ 0 ∷ 0 ∷ 0x92 ∷ 0xcf ∷ 0 ∷ []
unfolding seg_bytes
seg-data = refl

seg_null-bytes : segdesc_bytes seg_null ≡ 0 ∷ 0 ∷ 0 ∷ 0 ∷ 0 ∷ 0 ∷ 0 ∷ 0 ∷ []
unfolding segdesc_bytes
seg_null-bytes = refl

seg_fault-bytes : segdesc_bytes seg_fault ≡ 0 ∷ 0 ∷ 0 ∷ 0 ∷ 0 ∷ 0x90 ∷ 0x40 ∷ 0 ∷ []
unfolding segdesc_bytes
seg_fault-bytes = refl

seg-seg_bytes_example :
    segdesc_bytes (seg 0xA 0xF0100000 0x12345678 0) ≡ seg_bytes 0xA 0xF0100000 0x12345678
seg-seg_bytes_example =
    seg-seg_bytes 0xA 0xF0100000 0x12345678 (omega arith) (omega arith) (omega arith)

seg-Describes_example : Describes (segdesc_bytes (seg 0x2 0 0xffffffff 3)) 0x2 3 0 0xffffffff
seg-Describes_example =
    seg-Describes 0x2 0 0xffffffff 3 (omega arith) (omega arith) (omega arith) (omega arith)

seg16-Describes_example :
    Describes (segdesc_bytes (seg16 0x9 0xF0112040 0x67 0)) 0x9 0 0xF0112040 0x67
seg16-Describes_example =
    seg16-Describes 0x9 0xF0112040 0x67 0 (omega arith) (omega arith) (omega arith) (omega arith)

abbrev stale_gate : Gatedesc
stale_gate = record {
  gd_off_15_0 = 7;
  gd_sel = 7;
  gd_args = 7;
  gd_rsv1 = 7;
  gd_type = 7;
  gd_s = 1;
  gd_dpl = 1;
  gd_p = 0;
  gd_off_31_16 = 7;
}

setgate-IsGate_example :
    IsGate (gatedesc_bytes (setgate stale_gate true 8 0xF0103C9E 3)) sts_tg32 8 0xF0103C9E 3
    × IsGate (gatedesc_bytes (setcallgate stale_gate 8 0xF0103C9E 3)) sts_cg32 8 0xF0103C9E 3
setgate-IsGate_example =
    setgate-IsGate stale_gate true 8 0xF0103C9E 3 (omega arith) (omega arith) (omega arith)

-- The areas of the memory map do not overlap, the larger ones begin with a page table's 4 MB, and the
-- kernel's stacks with their gaps lie above the devices.
layout :
    (ustabdata < pftemp)
    × (utemp < pftemp)
    × (pftemp < utext)
    × (utext < ustacktop)
    × (ustacktop < uxstacktop)
    × (uxstacktop ≡ utop)
    × (utop ≡ uenvs)
    × (uenvs + ptsize ≡ upages)
    × (upages + ptsize ≡ uvpt)
    × (uvpt + ptsize ≡ ulim)
    × (ulim ≡ mmiobase)
    × (ulim ≡ 0xEF800000)
    × (utop % ptsize ≡ 0)
    × (mmiolim + 64 * (kstksize + kstkgap) ≡ kstacktop)
    × (iophysmem < extphysmem)
layout = omega arith
