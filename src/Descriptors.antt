-- ===== src/Descriptors.antt =====
-- The segment and gate descriptors of inc/mmu.h: `struct Segdesc` with the initializers SEG_NULL,
-- SEG_FAULT, SEG and SEG16, `struct Gatedesc` with SETGATE and SETCALLGATE, and the bytes that the
-- macro SEG for the assembler puts. A value stored in a bit-field keeps the field's bits, and the
-- compiler places the bit-fields of a 32-bit unit from the lowest bit up.
pub mod Seg
pub mod Gate
use jos.Prelude.{
  ℕ, ◌+◌, ◌*◌, ◌/◌, ◌%◌, ◌^◌, bit_and, bit_or, List, [], ◌∷◌, ◌++◌, Bool, if◌then◌else◌,
}

pub record Segdesc : Type 0 where
  pub sd_lim_15_0 : ℕ
  pub sd_base_15_0 : ℕ
  pub sd_base_23_16 : ℕ
  pub sd_type : ℕ
  pub sd_s : ℕ
  pub sd_dpl : ℕ
  pub sd_p : ℕ
  pub sd_lim_19_16 : ℕ
  pub sd_avl : ℕ
  pub sd_rsv1 : ℕ
  pub sd_db : ℕ
  pub sd_g : ℕ
  pub sd_base_31_24 : ℕ

-- The other initializers differ in few fields of these two.
abbrev pub seg_null : Segdesc
seg_null = record {
  sd_lim_15_0 = 0;
  sd_base_15_0 = 0;
  sd_base_23_16 = 0;
  sd_type = 0;
  sd_s = 0;
  sd_dpl = 0;
  sd_p = 0;
  sd_lim_19_16 = 0;
  sd_avl = 0;
  sd_rsv1 = 0;
  sd_db = 0;
  sd_g = 0;
  sd_base_31_24 = 0;
}

abbrev pub seg_fault : Segdesc
seg_fault = record seg_null { sd_s = 1; sd_p = 1; sd_db = 1 }

-- `lim` and `base` are 32 bits wide.
unfoldable pub seg : (type base lim dpl : ℕ) → Segdesc
seg type base lim dpl = record {
  sd_lim_15_0 = bit_and (lim / 2 ^ 12) 0xffff;
  sd_base_15_0 = bit_and base 0xffff;
  sd_base_23_16 = bit_and (base / 2 ^ 16) 0xff;
  sd_type = type % 2 ^ 4;
  sd_s = 1;
  sd_dpl = dpl % 2 ^ 2;
  sd_p = 1;
  sd_lim_19_16 = lim / 2 ^ 28 % 2 ^ 4;
  sd_avl = 0;
  sd_rsv1 = 0;
  sd_db = 1;
  sd_g = 1;
  sd_base_31_24 = base / 2 ^ 24 % 2 ^ 8;
}

unfoldable pub seg16 : (type base lim dpl : ℕ) → Segdesc
seg16 type base lim dpl = record {
  sd_lim_15_0 = bit_and lim 0xffff;
  sd_base_15_0 = bit_and base 0xffff;
  sd_base_23_16 = bit_and (base / 2 ^ 16) 0xff;
  sd_type = type % 2 ^ 4;
  sd_s = 1;
  sd_dpl = dpl % 2 ^ 2;
  sd_p = 1;
  sd_lim_19_16 = lim / 2 ^ 16 % 2 ^ 4;
  sd_avl = 0;
  sd_rsv1 = 0;
  sd_db = 1;
  sd_g = 0;
  sd_base_31_24 = base / 2 ^ 24 % 2 ^ 8;
}

-- Readable code or writeable data.
abbrev pub sta_x : ℕ
sta_x = 0x8

abbrev pub sta_w : ℕ
sta_w = 0x2

abbrev pub sta_r : ℕ
sta_r = 0x2

-- The four bytes of a 32-bit unit, the low byte first.
abbrev unit_bytes : ℕ → List ℕ
unit_bytes n = n % 2 ^ 8 ∷ n / 2 ^ 8 % 2 ^ 8 ∷ n / 2 ^ 16 % 2 ^ 8 ∷ n / 2 ^ 24 % 2 ^ 8 ∷ []

unfoldable pub segdesc_bytes : Segdesc → List ℕ
segdesc_bytes d =
    unit_bytes (d.sd_lim_15_0 + d.sd_base_15_0 * 2 ^ 16)
    ++ unit_bytes (
        d.sd_base_23_16
        + d.sd_type * 2 ^ 8
        + d.sd_s * 2 ^ 12
        + d.sd_dpl * 2 ^ 13
        + d.sd_p * 2 ^ 15
        + d.sd_lim_19_16 * 2 ^ 16
        + d.sd_avl * 2 ^ 20
        + d.sd_rsv1 * 2 ^ 21
        + d.sd_db * 2 ^ 22
        + d.sd_g * 2 ^ 23
        + d.sd_base_31_24 * 2 ^ 24)

-- The bytes of a `.word`.
abbrev word_bytes : ℕ → List ℕ
word_bytes n = n % 2 ^ 8 ∷ n / 2 ^ 8 % 2 ^ 8 ∷ []

-- What the macro SEG for the assembler puts.
unfoldable pub seg_bytes : (type base lim : ℕ) → List ℕ
seg_bytes type base lim =
    word_bytes (bit_and (lim / 2 ^ 12) 0xffff)
    ++ word_bytes (bit_and base 0xffff)
    ++ (bit_and (base / 2 ^ 16) 0xff
        ∷ bit_or 0x90 type
        ∷ bit_or 0xC0 (bit_and (lim / 2 ^ 28) 0xf)
        ∷ bit_and (base / 2 ^ 24) 0xff
        ∷ [])

pub record Gatedesc : Type 0 where
  pub gd_off_15_0 : ℕ
  pub gd_sel : ℕ
  pub gd_args : ℕ
  pub gd_rsv1 : ℕ
  pub gd_type : ℕ
  pub gd_s : ℕ
  pub gd_dpl : ℕ
  pub gd_p : ℕ
  pub gd_off_31_16 : ℕ

abbrev pub sts_cg32 : ℕ
sts_cg32 = 0xC

abbrev pub sts_ig32 : ℕ
sts_ig32 = 0xE

abbrev pub sts_tg32 : ℕ
sts_tg32 = 0xF

-- `off` is 32 bits wide.
unfoldable pub setgate : Gatedesc → (istrap : Bool) (sel off dpl : ℕ) → Gatedesc
setgate gate istrap sel off dpl = record gate {
  gd_off_15_0 = bit_and off 0xffff;
  gd_sel = sel % 2 ^ 16;
  gd_args = 0;
  gd_rsv1 = 0;
  gd_type = if istrap then sts_tg32 else sts_ig32;
  gd_s = 0;
  gd_dpl = dpl % 2 ^ 2;
  gd_p = 1;
  gd_off_31_16 = off / 2 ^ 16 % 2 ^ 16;
}

unfoldable pub setcallgate : Gatedesc → (sel off dpl : ℕ) → Gatedesc
setcallgate gate sel off dpl = record gate {
  gd_off_15_0 = bit_and off 0xffff;
  gd_sel = sel % 2 ^ 16;
  gd_args = 0;
  gd_rsv1 = 0;
  gd_type = sts_cg32;
  gd_s = 0;
  gd_dpl = dpl % 2 ^ 2;
  gd_p = 1;
  gd_off_31_16 = off / 2 ^ 16 % 2 ^ 16;
}

unfoldable pub gatedesc_bytes : Gatedesc → List ℕ
gatedesc_bytes d =
    unit_bytes (d.gd_off_15_0 + d.gd_sel * 2 ^ 16)
    ++ unit_bytes (
        d.gd_args
        + d.gd_rsv1 * 2 ^ 5
        + d.gd_type * 2 ^ 8
        + d.gd_s * 2 ^ 12
        + d.gd_dpl * 2 ^ 13
        + d.gd_p * 2 ^ 15
        + d.gd_off_31_16 * 2 ^ 16)
