-- ===== src/Debuginfo.antt =====
-- `debuginfo_eip` of kern/kdebug.c: the file, the function and the line of an instruction.
-- The linker's tables are the parameters; the memory `m` holds the string table.
pub mod Found
use jos.Prelude.{
  ℕ, zero, suc, ◌+◌, ◌-◌, ◌%◌, ◌^◌, Bool, ◌&&◌, ◌||◌, not, Option, some, ltb, leb, ◌==◌,
  if◌then◌else◌,
}
use jos.Prelude.Options.{◌>>=◌}
use jos.Prelude.Int.{ℤ, pos, negsuc, pos_part, ◌+ℤ◌, ◌-ℤ◌, ltb_ℤ, eqb_ℤ}
use jos.Memory.{Mem}
use jos.Strings.{strfind}
use jos.Pages.Layout.{ulim}
use jos.Stabs.{Stab, n_so, n_sol, n_fun, n_sline, n_psym, stab_binsearch}

-- `__STAB_BEGIN__` with its number of entries, the bounds of the string table, and the literal
-- "<unknown>".
pub record Tables : Type 0 where
  pub stabs : ℤ → Stab
  pub count : ℕ
  pub stabstr : ℕ
  pub stabstr_end : ℕ
  pub unknown : ℕ

-- `struct Eipdebuginfo`
pub record Eipdebuginfo : Type 0 where
  pub eip_file : ℕ
  pub eip_line : ℕ
  pub eip_fn_name : ℕ
  pub eip_fn_namelen : ℕ
  pub eip_fn_addr : ℕ
  pub eip_fn_narg : ℕ

-- The call panics on a user address; else it returns an `int` and leaves the information.
pub data Outcome : Type 0 where
  panics : Outcome
  returns : ℤ → Eipdebuginfo → Outcome

abbrev pub initial : Tables → ℕ → Eipdebuginfo
initial t addr = record {
  eip_file = t.unknown;
  eip_line = 0;
  eip_fn_name = t.unknown;
  eip_fn_namelen = 9;
  eip_fn_addr = addr;
  eip_fn_narg = 0;
}

module _ (t : Tables) where
  -- `stabs[i].n_strx < stabstr_end - stabstr`
  in_strings : ℤ → Bool
  in_strings i = ltb (t.stabs i).n_strx (t.stabstr_end - t.stabstr)

  -- The function's name and address, if its stab was found.
  with_function : Bool → ℤ → ℕ → Eipdebuginfo → Eipdebuginfo
  unfolding in_strings
  with_function hit lfun addr info =
      if hit
      then record info {
        eip_fn_name =
            if in_strings lfun then t.stabstr + (t.stabs lfun).n_strx else info.eip_fn_name;
        eip_fn_addr = (t.stabs lfun).n_value;
      }
      else record info { eip_fn_addr = addr }

  -- `while (lline >= lfile && …) lline--;`, where `lline - lfile + 1` rounds are left
  file_stab : ℕ → ℤ → ℤ
  file_stab zero lline = lline
  file_stab (suc n) lline =
      let rest = file_stab n (lline -ℤ pos 1) in
      let s = t.stabs lline in
      if s.n_type == n_sol || (s.n_type == n_so && not (s.n_value == 0)) then lline else rest

  with_file : ℤ → ℤ → Eipdebuginfo → Eipdebuginfo
  unfolding file_stab in_strings
  with_file lfile lline info =
      let s = file_stab (pos_part (lline -ℤ lfile +ℤ pos 1)) lline in
      if not (ltb_ℤ s lfile) && in_strings s
      then record info { eip_file = t.stabstr + (t.stabs s).n_strx }
      else info

  -- The parameters behind `lline`, where `rfun - lline` rounds are left.
  count_args : ℕ → ℤ → ℕ → ℕ
  count_args zero lline narg = narg
  count_args (suc n) lline narg =
      let rest = count_args n (lline +ℤ pos 1) (narg + 1) in
      if (t.stabs lline).n_type == n_psym then rest else narg

  with_args : ℤ → ℤ → Eipdebuginfo → Eipdebuginfo
  unfolding count_args
  with_args lfun rfun info =
      if ltb_ℤ lfun rfun
      then record info {
        eip_fn_narg =
            count_args (pos_part (rfun -ℤ (lfun +ℤ pos 1))) (lfun +ℤ pos 1) info.eip_fn_narg;
      }
      else info

  -- What a found line adds.
  located : ℤ → ℤ → ℤ → ℤ → Eipdebuginfo → Eipdebuginfo
  unfolding with_file with_args
  located lfile lfun rfun lline info =
      with_args lfun rfun
        (with_file lfile lline (record info { eip_line = (t.stabs lline).n_desc }))

  module _ (k : ℕ) (m : Mem) where
    -- The line, behind the search for the function; `addr` is relative to it if it was found.
    find_line : ℤ → ℤ → ℤ → ℤ → ℤ → ℕ → Eipdebuginfo → Option Outcome
    unfolding located
    find_line lfile lfun rfun lline rline addr info = do
      (lline, rline) ← stab_binsearch t.stabs n_sline k lline rline addr
      (if ltb_ℤ rline lline
          then some (returns (negsuc 0) info)
          else some (returns (pos 0) (located lfile lfun rfun lline info)))

    -- The function, in the entries of a file.
    find_function : ℤ → ℤ → ℕ → Eipdebuginfo → Option Outcome
    unfolding find_line with_function
    find_function lfile rfile addr info = do
      (lfun, rfun) ← stab_binsearch t.stabs n_fun k lfile rfile addr
      let hit = not (ltb_ℤ rfun lfun)
      let named = with_function hit lfun addr info
      colon ← strfind k m named.eip_fn_name b':'
      find_line lfile lfun rfun (if hit then lfun else lfile) (if hit then rfun else rfile)
          (if hit then (addr + (2 ^ 32 - named.eip_fn_addr)) % 2 ^ 32 else addr)
          (record named { eip_fn_namelen = colon - named.eip_fn_name })

    unfoldable pub debuginfo_eip : ℕ → Option Outcome
    unfolding find_function
    debuginfo_eip addr =
        if ltb addr ulim
        then some panics
        else if leb t.stabstr_end t.stabstr || not (m (t.stabstr_end - 1) == 0)
        then some (returns (negsuc 0) (initial t addr))
        else (do
          (lfile, rfile) ← stab_binsearch t.stabs n_so k (pos 0) (pos t.count -ℤ pos 1) addr
          (if eqb_ℤ lfile (pos 0)
              then some (returns (negsuc 0) (initial t addr))
              else find_function lfile rfile addr (initial t addr)))
