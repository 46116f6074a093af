-- ===== src/Boot/Loader.antt =====
-- `bootmain` of boot/main.c, and the headers of inc/elf.h.
pub mod Segments
use jos.Prelude.{ℕ, zero, suc, ◌+◌, ◌*◌, Option, some, ◌==◌, if◌then◌else◌}
use jos.Prelude.Options.{◌>>=◌}
use jos.Memory.{Mem, load16, load32}
use jos.Boot.{sectsize, Disk, readseg}

-- `struct Elf`, but for the bytes of `e_elf`
pub record Elf : Type 0 where
  pub e_magic : ℕ
  pub e_type : ℕ
  pub e_machine : ℕ
  pub e_version : ℕ
  pub e_entry : ℕ
  pub e_phoff : ℕ
  pub e_shoff : ℕ
  pub e_flags : ℕ
  pub e_ehsize : ℕ
  pub e_phentsize : ℕ
  pub e_phnum : ℕ
  pub e_shentsize : ℕ
  pub e_shnum : ℕ
  pub e_shstrndx : ℕ

-- `struct Proghdr`
pub record Proghdr : Type 0 where
  pub p_type : ℕ
  pub p_offset : ℕ
  pub p_va : ℕ
  pub p_pa : ℕ
  pub p_filesz : ℕ
  pub p_memsz : ℕ
  pub p_flags : ℕ
  pub p_align : ℕ

-- The structs as they stand in memory
abbrev pub elf_at : Mem → ℕ → Elf
elf_at m p = record {
  e_magic = load32 m p;
  e_type = load16 m (p + 16);
  e_machine = load16 m (p + 18);
  e_version = load32 m (p + 20);
  e_entry = load32 m (p + 24);
  e_phoff = load32 m (p + 28);
  e_shoff = load32 m (p + 32);
  e_flags = load32 m (p + 36);
  e_ehsize = load16 m (p + 40);
  e_phentsize = load16 m (p + 42);
  e_phnum = load16 m (p + 44);
  e_shentsize = load16 m (p + 46);
  e_shnum = load16 m (p + 48);
  e_shstrndx = load16 m (p + 50);
}

abbrev pub proghdr_at : Mem → ℕ → Proghdr
proghdr_at m p = record {
  p_type = load32 m p;
  p_offset = load32 m (p + 4);
  p_va = load32 m (p + 8);
  p_pa = load32 m (p + 12);
  p_filesz = load32 m (p + 16);
  p_memsz = load32 m (p + 20);
  p_flags = load32 m (p + 24);
  p_align = load32 m (p + 28);
}

abbrev pub elf_magic : ℕ
elf_magic = 0x464C457F

abbrev pub elfhdr : ℕ
elfhdr = 0x10000

-- `bootmain` calls the entry point, with the memory then, or goes to `bad`, where it stays.
pub data Booted : Type 0 where
  enters : ℕ → Mem → Booted
  bad : Mem → Booted

module _ (k : ℕ) (disk : Disk) where
  -- `for (; ph < eph; ph++)`, where `n` headers are left
  unfoldable pub load_segments : ℕ → Mem → ℕ → Option Mem
  unfolding readseg
  load_segments zero m ph = some m
  load_segments (suc n) m ph =
      let rest = λ (m' : Mem). load_segments n m' (ph + 32) in
      let p = proghdr_at m ph in readseg k disk m p.p_pa p.p_memsz p.p_offset >>= rest

  unfoldable pub bootmain : Mem → Option Booted
  unfolding load_segments
  bootmain m = do
    m ← readseg k disk m elfhdr (sectsize * 8) 0
    (if (elf_at m elfhdr).e_magic == elf_magic
        then (do
          m' ← load_segments (elf_at m elfhdr).e_phnum m (elfhdr + (elf_at m elfhdr).e_phoff)
          some (enters (elf_at m' elfhdr).e_entry m'))
        else some (bad m))
