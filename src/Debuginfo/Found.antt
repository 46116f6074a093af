-- ===== src/Debuginfo/Found.antt =====
-- What `debuginfo_eip` reports for an address whose file, function and line are in the table.
use jos.Prelude.{
  ℕ, ◌+◌, ◌-◌, ◌*◌, ◌%◌, ◌^◌, ◌≤◌, ◌<◌, ◌≡◌, refl, ap, sym, ◌∙◌, Bool, true, false, ◌&&◌, not,
  Option, some, leb, if◌then◌else◌, List, length, le→ltb, lt→ltb, arith, Bool-cases, inl, inr,
}
use mathlib.Core.Path.{subst}
use jos.Prelude.Options.{◌>>=◌}
use jos.Prelude.Int.{ℤ, pos, negsuc, pos_part, ◌+ℤ◌, ◌-ℤ◌, ◌≤ℤ◌, ltb_ℤ, eqb_ℤ, int_laws}
use jos.Memory.{Mem, CString}
use jos.Strings.{strfind}
use jos.Strings.Find.{IsFirst, first_index, first_index-IsFirst, strfind_index}
use jos.Stabs.{Stab, n_so, n_fun, n_sline, stab_binsearch}
use jos.Stabs.Scan.{width, width_parts}
use jos.Stabs.Round.{IsOrdered}
use jos.Stabs.Brackets.{IsContained}
use jos.Stabs.Unique.{f-le-right, stab_binsearch-IsContained}
use jos.Pages.Layout.{ulim}
use jos.Debuginfo.{
  Tables, Eipdebuginfo, Outcome, returns, initial, in_strings, with_function, file_stab, with_file,
  with_args, located, find_line, find_function, debuginfo_eip,
}

-- The stab at `e` is the one of its kind that an address lies in, between `left` and `right`.
pub record IsAt (stabs : ℤ → Stab) (kind : ℕ) (left right : ℤ) (addr : ℕ) (e f : ℤ) : Type 0 where
  pub ordered : IsOrdered stabs kind left right addr
  pub contained : IsContained stabs kind left right addr e f

-- The tables say where `addr` is, in searches whose matching stabs are in order, with none one byte behind
-- what is looked for: in the entries `file` to `rfile`, there in the function at `fun`, and
-- in it at the line at `line`.
pub record IsLocated (t : Tables) (m : Mem) (addr : ℕ) (file rfile fun rfun line rline : ℤ)
    : Type 0 where
  pub in_file : IsAt t.stabs n_so (pos 0) (pos t.count -ℤ pos 1) addr file rfile
  pub file_nonzero : pos 1 ≤ℤ file
  pub in_function : IsAt t.stabs n_fun file rfile addr fun rfun
  pub on_line : IsAt t.stabs n_sline fun rfun (addr - (t.stabs fun).n_value) line rline
  pub strings : t.stabstr < t.stabstr_end
  pub terminated : m (t.stabstr_end - 1) ≡ 0
  pub name_inside : (t.stabs fun).n_strx < t.stabstr_end - t.stabstr

lt→leb : (a b : ℕ) → b < a → leb a b ≡ false
lt→leb a b h = ground arith

pos-eqb_ℤ : (i : ℤ) → pos 1 ≤ℤ i → eqb_ℤ i (pos 0) ≡ false
pos-eqb_ℤ i h = ground arith

module _ (t : Tables) (k : ℕ) (m : Mem) (addr : ℕ) (file rfile fun rfun line rline : ℤ)
    (located_at : IsLocated t m addr file rfile fun rfun line rline) (high : ulim ≤ addr)
    (small : addr + 1 < 2 ^ 32) (fuel : 2 * t.count + 3 < k) (name : List ℕ)
    (named : CString m (t.stabstr + (t.stabs fun).n_strx) name) (short : length name < k) where
  open located_at use {
    in_file, file_nonzero, in_function, on_line, strings, terminated, name_inside,
  }

  abbrev last_stab : ℤ
  last_stab = pos t.count -ℤ pos 1

  rfile-le : rfile ≤ℤ last_stab
  rfile-le =
      f-le-right t.stabs n_so (pos 0) last_stab addr in_file.ordered file rfile in_file.contained

  rfun-le : rfun ≤ℤ rfile
  rfun-le =
      f-le-right t.stabs n_fun file rfile addr in_function.ordered fun rfun in_function.contained

  fun-le : file ≤ℤ fun
  fun-le = in_function.contained.from

  narrow : (l r : ℤ) → pos 0 ≤ℤ l → r ≤ℤ last_stab → 2 * width l r + 1 < k
  narrow l r h h' = omega (int_laws, width_parts l r)

  file_search : stab_binsearch t.stabs n_so k (pos 0) last_stab addr ≡ some (file, rfile)
  file_search =
      stab_binsearch-IsContained t.stabs n_so (pos 0) last_stab addr in_file.ordered k file rfile
        small (omega arith) (narrow (pos 0) last_stab (omega arith) (omega arith)) in_file.contained

  function_search : stab_binsearch t.stabs n_fun k file rfile addr ≡ some (fun, rfun)
  function_search =
      stab_binsearch-IsContained t.stabs n_fun file rfile addr in_function.ordered k fun rfun small
        (omega arith) (narrow file rfile (omega arith) rfile-le) in_function.contained

  line_search :
      stab_binsearch t.stabs n_sline k fun rfun (addr - (t.stabs fun).n_value) ≡ some (line, rline)
  line_search =
      stab_binsearch-IsContained t.stabs n_sline fun rfun (addr - (t.stabs fun).n_value)
        on_line.ordered k line rline (omega arith) (omega (arith, fun-le))
        (narrow fun rfun (omega (arith, fun-le)) (omega (arith, rfun-le, rfile-le)))
        on_line.contained

  fun_starts : (t.stabs fun).n_value ≤ addr
  fun_starts = in_function.contained.starts

  abbrev in_function_info : Eipdebuginfo
  in_function_info = record (initial t addr) {
    eip_fn_name = t.stabstr + (t.stabs fun).n_strx;
    eip_fn_namelen = first_index b':' name;
    eip_fn_addr = (t.stabs fun).n_value;
  }

  find_line_lem :
      (info : Eipdebuginfo)
      → find_line t k m file fun rfun fun rfun (addr - (t.stabs fun).n_value) info
        ≡ some (returns (pos 0) (located t file fun rfun line info))
  unfolding find_line
  find_line_lem info =
      ap
        (λ r. r >>= λ (l, r).
          if ltb_ℤ r l
          then some (returns (negsuc 0) info)
          else some (returns (pos 0) (located t file fun rfun l info)))
        line_search
      ∙ ap
          (λ b.
            if b
            then some (returns (negsuc 0) info)
            else some (returns (pos 0) (located t file fun rfun line info)))
          (le→ltb _ _ on_line.contained.ends)

  -- Behind the search for the function.
  abbrev behind : Bool → Eipdebuginfo → Option Outcome
  behind hit named = do
    colon ← strfind k m named.eip_fn_name b':'
    find_line t k m file fun rfun (if hit then fun else file) (if hit then rfun else rfile)
        (if hit then (addr + (2 ^ 32 - named.eip_fn_addr)) % 2 ^ 32 else addr)
        (record named { eip_fn_namelen = colon - named.eip_fn_name })

  abbrev named_info : Eipdebuginfo
  named_info = record (initial t addr) {
    eip_fn_name = t.stabstr + (t.stabs fun).n_strx;
    eip_fn_addr = (t.stabs fun).n_value;
  }

  named_lem : with_function t true fun addr (initial t addr) ≡ named_info
  unfolding with_function in_strings
  named_lem =
      ap
        (λ b. record (initial t addr) {
          eip_fn_name = if b then t.stabstr + (t.stabs fun).n_strx else t.unknown;
          eip_fn_addr = (t.stabs fun).n_value;
        })
        (lt→ltb _ _ name_inside)

  behind_lem :
      behind true named_info
      ≡ some (returns (pos 0) (located t file fun rfun line in_function_info))
  behind_lem =
      let p = t.stabstr + (t.stabs fun).n_strx in
      let colon = strfind_index k m p b':' name named short in
      let relative : (addr + (2 ^ 32 - (t.stabs fun).n_value)) % 2 ^ 32
          ≡ addr - (t.stabs fun).n_value =
        omega (arith, fun_starts) in
      let len : p + first_index b':' name - p ≡ first_index b':' name = omega arith in
      ap
        (λ r. r >>= λ c.
          find_line t k m file fun rfun fun rfun
            ((addr + (2 ^ 32 - (t.stabs fun).n_value)) % 2 ^ 32)
            (record named_info { eip_fn_namelen = c - p }))
        colon
      ∙ ap
          (λ a.
            find_line t k m file fun rfun fun rfun a
              (record named_info { eip_fn_namelen = p + first_index b':' name - p }))
          relative
      ∙ ap
          (λ n.
            find_line t k m file fun rfun fun rfun (addr - (t.stabs fun).n_value)
              (record named_info { eip_fn_namelen = n }))
          len
      ∙ find_line_lem in_function_info

  find_function_lem :
      find_function t k m file rfile addr (initial t addr)
      ≡ some (returns (pos 0) (located t file fun rfun line in_function_info))
  unfolding find_function
  find_function_lem =
      ap
        (λ r. r >>= λ (l, r).
          let hit = not (ltb_ℤ r l) in
          let named = with_function t hit l addr (initial t addr) in
          strfind k m named.eip_fn_name b':' >>= λ colon.
          find_line t k m file l r (if hit then l else file) (if hit then r else rfile)
            (if hit then (addr + (2 ^ 32 - named.eip_fn_addr)) % 2 ^ 32 else addr)
            (record named { eip_fn_namelen = colon - named.eip_fn_name }))
        function_search
      ∙ ap (λ b. behind (not b) (with_function t (not b) fun addr (initial t addr)))
          (le→ltb _ _ in_function.contained.ends)
      ∙ ap (λ i. behind true i) named_lem
      ∙ behind_lem

  -- The fields of the line and the function.
  abbrev Agrees : Eipdebuginfo → Eipdebuginfo → Type 0
  Agrees i j =
      (i.eip_line ≡ j.eip_line)
      × (i.eip_fn_name ≡ j.eip_fn_name)
      × (i.eip_fn_namelen ≡ j.eip_fn_namelen)
      × (i.eip_fn_addr ≡ j.eip_fn_addr)

  with_file-Agrees : (info : Eipdebuginfo) → Agrees (with_file t file line info) info
  unfolding with_file
  with_file-Agrees info =
      let s = file_stab t (pos_part (line -ℤ file +ℤ pos 1)) line in
      elim (Bool-cases (not (ltb_ℤ s file) && in_strings t s)) [
        | inl e ↦ rw (with_file, e) (refl, refl, refl, refl)
        | inr e ↦ rw (with_file, e) (refl, refl, refl, refl)
      ]

  with_args-Agrees : (info : Eipdebuginfo) → Agrees (with_args t fun rfun info) info
  unfolding with_args
  with_args-Agrees info = elim (Bool-cases (ltb_ℤ fun rfun)) [
    | inl e ↦ rw (with_args, e) (refl, refl, refl, refl)
    | inr e ↦ rw (with_args, e) (refl, refl, refl, refl)
  ]

  located-Agrees :
      (info : Eipdebuginfo)
      → Agrees
          (located t file fun rfun line info)
          (record info { eip_line = (t.stabs line).n_desc })
  unfolding located
  located-Agrees info =
      let info' : Eipdebuginfo = record info { eip_line = (t.stabs line).n_desc } in
      let (a, b, c, d) = with_file-Agrees info' in
      let (a', b', c', d') = with_args-Agrees (with_file t file line info') in
      (a' ∙ a, b' ∙ b, c' ∙ c, d' ∙ d)

  abbrev found_info : Eipdebuginfo
  found_info = located t file fun rfun line in_function_info

  debuginfo_eip_found : debuginfo_eip t k m addr ≡ some (returns (pos 0) found_info)
  unfolding debuginfo_eip
  debuginfo_eip_found =
      rw (le→ltb addr ulim high, lt→leb t.stabstr_end t.stabstr strings, terminated)
        (ap
            (λ r. r >>= λ (l, r).
              if eqb_ℤ l (pos 0)
              then some (returns (negsuc 0) (initial t addr))
              else find_function t k m l r addr (initial t addr))
            file_search
          ∙ ap
              (λ b.
                if b
                then some (returns (negsuc 0) (initial t addr))
                else find_function t k m file rfile addr (initial t addr))
              (pos-eqb_ℤ file file_nonzero)
          ∙ find_function_lem)

  -- An address from ULIM on that the tables locate, with the matching stabs in the order of their addresses
  -- in each of the three searches and none of them one byte behind the address, is found, with more than twice as many rounds of fuel
  -- as there are stabs: the call returns 0 with the line number of its line stab, and with the name, the
  -- length of the name up to a colon, and the address of its function.
  pub debuginfo_eip_lem :
      (info : Eipdebuginfo) × (debuginfo_eip t k m addr ≡ some (returns (pos 0) info))
      × (info.eip_line ≡ (t.stabs line).n_desc)
      × (info.eip_fn_name ≡ t.stabstr + (t.stabs fun).n_strx)
      × IsFirst b':' name info.eip_fn_namelen
      × (info.eip_fn_addr ≡ (t.stabs fun).n_value)
  debuginfo_eip_lem =
      let (a, b, c, d) = located-Agrees in_function_info in
      (
        found_info,
        debuginfo_eip_found,
        a,
        b,
        subst (IsFirst b':' name) (sym c) (first_index-IsFirst b':' name),
        d,
      )
