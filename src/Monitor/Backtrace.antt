-- ===== src/Monitor/Backtrace.antt =====
-- `mon_backtrace` of kern/monitor.c: the stack frames from the current one up to a saved `%ebp` of 0.
pub mod Frames
pub mod Lines
pub mod Shown
use jos.Prelude.{
  ℕ, zero, suc, ◌+◌, ◌-◌, ◌*◌, ◌%◌, ◌^◌, Option, none, some, List, [], ◌∷◌, ◌==◌, if◌then◌else◌,
}
use jos.Prelude.Texts.{codes}
use jos.Memory.{Mem, load32}
use jos.Format.{Result, ok, err, out_of_fuel, ◌>>=◌}
use jos.Format.Vprintfmt.{Literals}
use jos.Console.Crt.{Crt, cga_set_bg, cga_set_fg, cga_reset}
use jos.Console.Output.{Machine}
use jos.Console.Cprintf.{cprintf}
use jos.Debuginfo.{Tables, Eipdebuginfo, Outcome, panics, returns, debuginfo_eip}

-- A loop whose fuel runs out is an error of the caller.
abbrev pub fueled {ℓ} : {A : Type ℓ} → Option A → Result A
fueled none = err out_of_fuel
fueled (some a) = ok a

-- `ebp[i]`
unfoldable pub frame_word : Mem → ℕ → ℕ → ℕ
unfolding load32
frame_word m ebp i = load32 m ((ebp + 4 * i) % 2 ^ 32)

unfoldable pub on_screen : (Crt → Crt) → Machine → Machine
on_screen f s = record s { crt = f s.crt }

-- A call returns, or `panic` has been called in it.
pub data Traced : Type 0 where
  traced : Machine → Traced
  panicked : Machine → Traced

abbrev pub heading : List ℕ
heading = codes "Stack backtrace:\n"

abbrev pub frame_format : List ℕ
frame_format = codes "  ebp %08x  eip %08x  args %08x %08x %08x %08x %08x\n"

abbrev pub place_format : List ℕ
place_format = codes "        %s:%u: %.*s+%d\n"

abbrev pub frame_args : Mem → ℕ → List ℕ
frame_args m ebp =
    ebp
    ∷ frame_word m ebp 1
    ∷ frame_word m ebp 2
    ∷ frame_word m ebp 3
    ∷ frame_word m ebp 4
    ∷ frame_word m ebp 5
    ∷ frame_word m ebp 6
    ∷ []

abbrev pub place_args : ℕ → Eipdebuginfo → List ℕ
place_args ret_addr info =
    info.eip_file
    ∷ info.eip_line
    ∷ info.eip_fn_namelen
    ∷ info.eip_fn_name
    ∷ (ret_addr + (2 ^ 32 - info.eip_fn_addr)) % 2 ^ 32
    ∷ []

module _ (lits : Literals) (t : Tables) (k : ℕ) (m : Mem) where
  -- What a round does with the information on the return address; the `int` is not looked at.
  unfoldable pub show_place : ℕ → Machine → Outcome → Result Traced
  unfolding on_screen cprintf
  show_place ret_addr s panics = ok (panicked s)
  show_place ret_addr s (returns r info) = do
    (cnt, s') ←
        cprintf lits k m place_format (place_args ret_addr info) (on_screen (cga_set_fg 0xE) s)
    ok (traced (on_screen cga_reset s'))

  -- The body of the loop.
  unfoldable pub show_frame : ℕ → Machine → Result Traced
  unfolding show_place debuginfo_eip
  show_frame ebp s = do
    (cnt, s') ←
        cprintf lits k m frame_format (frame_args m ebp)
          (on_screen (λ c. cga_set_fg 0xF (cga_set_bg 1 c)) s)
    outcome ← fueled (debuginfo_eip t k m (frame_word m ebp 1))
    show_place (frame_word m ebp 1) (on_screen cga_reset s') outcome

  continue : (Machine → Result Traced) → Traced → Result Traced
  continue next (traced s) = next s
  continue next (panicked s) = ok (panicked s)

  -- `for (; ebp != init_ebp; ebp = saved_ebp)`, on fuel
  unfoldable pub trace : ℕ → ℕ → Machine → Result Traced
  unfolding show_frame continue
  trace zero ebp s = err out_of_fuel
  trace (suc n) ebp s =
      let next = trace n (frame_word m ebp 0) in
      if ebp == 0 then ok (traced s) else (show_frame ebp s >>= continue next)

  -- `ebp` is what `read_ebp` returns.
  unfoldable pub mon_backtrace : ℕ → Machine → Result Traced
  unfolding trace
  mon_backtrace ebp s = do (cnt, s') ← cprintf lits k m heading [] s; trace k ebp s'
