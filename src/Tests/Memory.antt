-- ===== src/Tests/Memory.antt =====
-- A small memory with two strings, for the tests.
use Prim.Native.String.{String}
use jos.Prelude.{◌-◌, get_or, leb, if◌then◌else◌}
pub use jos.Prelude.Texts.{codes}
use jos.Memory.{Mem}
use jos.Monitor.{Stack}

-- A memory with the text at address 100 and NULs elsewhere.
abbrev pub holding : String → Mem
holding s a = if leb 100 a then get_or (codes s) (a - 100) 0 else 0

-- A stack without a frame
abbrev pub no_frames : Stack
no_frames = record { ebp = 0; frames = λ s m. m }
