-- ===== src/Tests/Symbols.antt =====
-- The search of stabs and `debuginfo_eip` on a small table.
use jos.Strings.Find.{IsFirst}
use jos.Stabs.Adjacent.{stab_binsearch_adjacent}
use jos.Debuginfo.Found.{IsLocated, debuginfo_eip_lem}
use jos.Debuginfo.{Tables, Eipdebuginfo, returns, debuginfo_eip}
use jos.Stabs.Brackets.{Brackets, IsContained, stab_binsearch-Brackets}
use jos.Stabs.Round.{IsOrdered}
use jos.Stabs.Scan.{Matches, value}
use jos.Prelude.{ℕ, ◌+◌, ◌≤◌, ◌≡◌, some, ◌==◌, if◌then◌else◌, refl, inl, inr, arith, ◌≢◌}
use jos.Prelude.Int.{ℤ, pos, negsuc, ◌+ℤ◌, ◌-ℤ◌, ◌≤ℤ◌, ◌<ℤ◌}
use jos.Memory.{Mem}
use jos.Stabs.{Stab, n_so, n_fun, n_sline, stab_binsearch}
use jos.Tests.Memory.{codes, holding}

abbrev stab : ℕ → ℕ → ℕ → ℕ → Stab
stab strx kind desc value = record {
  n_strx = strx;
  n_type = kind;
  n_other = 0;
  n_desc = desc;
  n_value = value;
}

abbrev padding : Stab
padding = stab 0 0 0 0

-- The N_SO stabs of the source's comment, at their indices.
abbrev source_files : ℤ → Stab
source_files (negsuc n) = padding
source_files (pos i) =
    if i == 0
    then stab 0 n_so 0 0xf0100000
    else if i == 13
    then stab 0 n_so 0 0xf0100040
    else if i == 117
    then stab 0 n_so 0 0xf0100176
    else if i == 118
    then stab 0 n_so 0 0xf0100178
    else if i == 555
    then stab 0 n_so 0 0xf0100652
    else if i == 556
    then stab 0 n_so 0 0xf0100654
    else if i == 657
    then stab 0 n_so 0 0xf0100849
    else padding

comment_example :
    stab_binsearch source_files n_so 40 (pos 0) (pos 657) 0xf0100184 ≡ some (pos 118, pos 554)
unfolding stab_binsearch
comment_example = refl

-- An address below the first matching stab gives a region that is not empty.
below_first :
    stab_binsearch source_files n_so 40 (pos 0) (pos 657) 0xf00fffff ≡ some (negsuc 0, negsuc 0)
unfolding stab_binsearch
below_first = refl

-- A file with one function of two lines.
abbrev entries : ℤ → Stab
entries (negsuc n) = padding
entries (pos i) =
    if i == 1
    then stab 0 n_so 0 0xf0100000
    else if i == 2
    then stab 1 n_fun 0 0xf0100000
    else if i == 3
    then stab 0 n_sline 10 0
    else if i == 4
    then stab 0 n_sline 11 6
    else if i == 5
    then stab 0 n_so 0 0xf0100020
    else padding

abbrev tables : Tables
tables = record { stabs = entries; count = 6; stabstr = 100; stabstr_end = 107; unknown = 200 }

files-IsOrdered : IsOrdered entries n_so (pos 0) (pos 5) 0xf0100008
files-IsOrdered = record {
  sorted = λ i j lo le hi mi mj. grow i j le mi mj;
  apart = λ i lo hi m. gap i m;
}
  where
    grow :
        (i j : ℤ)
        → i ≤ℤ j
        → Matches entries n_so i
        → Matches entries n_so j
        → value entries n_so i ≤ value entries n_so j
    grow (negsuc i) j le mi mj = ground arith
    grow (pos i) (negsuc j) le mi mj = omega arith
    grow (pos i) (pos j) le mi mj = ground arith

    gap : (i : ℤ) → Matches entries n_so i → value entries n_so i ≢ 0xf0100008 + 1
    gap (negsuc i) m = ground arith
    gap (pos i) m = ground arith

functions-IsOrdered : IsOrdered entries n_fun (pos 1) (pos 4) 0xf0100008
functions-IsOrdered = record {
  sorted = λ i j lo le hi mi mj. grow i j le mi mj;
  apart = λ i lo hi m. gap i m;
}
  where
    grow :
        (i j : ℤ)
        → i ≤ℤ j
        → Matches entries n_fun i
        → Matches entries n_fun j
        → value entries n_fun i ≤ value entries n_fun j
    grow (negsuc i) j le mi mj = ground arith
    grow (pos i) (negsuc j) le mi mj = omega arith
    grow (pos i) (pos j) le mi mj = ground arith

    gap : (i : ℤ) → Matches entries n_fun i → value entries n_fun i ≢ 0xf0100008 + 1
    gap (negsuc i) m = ground arith
    gap (pos i) m = ground arith

lines-IsOrdered : IsOrdered entries n_sline (pos 2) (pos 4) 8
lines-IsOrdered = record {
  sorted = λ i j lo le hi mi mj. grow i j le mi mj;
  apart = λ i lo hi m. gap i m;
}
  where
    grow :
        (i j : ℤ)
        → i ≤ℤ j
        → Matches entries n_sline i
        → Matches entries n_sline j
        → value entries n_sline i ≤ value entries n_sline j
    grow (negsuc i) j le mi mj = ground arith
    grow (pos i) (negsuc j) le mi mj = omega arith
    grow (pos i) (pos j) le mi mj = ground arith

    gap : (i : ℤ) → Matches entries n_sline i → value entries n_sline i ≢ 8 + 1
    gap (negsuc i) m = ground arith
    gap (pos i) m = ground arith

files-IsContained : IsContained entries n_so (pos 0) (pos 5) 0xf0100008 (pos 1) (pos 4)
unfolding ◌+ℤ◌
files-IsContained = record {
  at = refl;
  starts = omega arith;
  from = omega arith;
  ends = omega arith;
  last = λ i lo hi. later i lo hi;
  next = inr (omega arith, refl, omega arith);
}
  where
    later : (i : ℤ) → pos 1 <ℤ i → i ≤ℤ pos 4 → Matches entries n_so i → ⊥
    later (negsuc i) lo hi m = omega arith
    later (pos i) lo hi m = ground arith

functions-IsContained : IsContained entries n_fun (pos 1) (pos 4) 0xf0100008 (pos 2) (pos 4)
unfolding ◌+ℤ◌
functions-IsContained = record {
  at = refl;
  starts = omega arith;
  from = omega arith;
  ends = omega arith;
  last = λ i lo hi. later i lo hi;
  next = inl refl;
}
  where
    later : (i : ℤ) → pos 2 <ℤ i → i ≤ℤ pos 4 → Matches entries n_fun i → ⊥
    later (negsuc i) lo hi m = omega arith
    later (pos i) lo hi m = ground arith

lines-IsContained : IsContained entries n_sline (pos 2) (pos 4) 8 (pos 4) (pos 4)
unfolding ◌+ℤ◌
lines-IsContained = record {
  at = refl;
  starts = omega arith;
  from = omega arith;
  ends = omega arith;
  last = λ i lo hi. later i lo hi;
  next = inl refl;
}
  where
    later : (i : ℤ) → pos 4 <ℤ i → i ≤ℤ pos 4 → Matches entries n_sline i → ⊥
    later (negsuc i) lo hi m = omega arith
    later (pos i) lo hi m = ground arith

stab_binsearch-Brackets_example :
    (e f : ℤ) × (stab_binsearch entries n_so 20 (pos 0) (pos 5) 0xf0100008 ≡ some (e, f))
    × Brackets entries n_so (pos 0) (pos 5) 0xf0100008 (e, f)
unfolding ◌+ℤ◌ ◌-ℤ◌
stab_binsearch-Brackets_example =
    stab_binsearch-Brackets entries n_so (pos 0) (pos 5) 0xf0100008 files-IsOrdered (omega arith) 20
      (omega arith) (omega arith) (omega arith)

-- "\0f:F1" at 100
abbrev text : Mem
text = holding "\0f:F1"

entries-IsLocated : IsLocated tables text 0xf0100008 (pos 1) (pos 4) (pos 2) (pos 4) (pos 4) (pos 4)
unfolding ◌-ℤ◌
entries-IsLocated = record {
  in_file = record { ordered = files-IsOrdered; contained = files-IsContained };
  file_nonzero = omega arith;
  in_function = record { ordered = functions-IsOrdered; contained = functions-IsContained };
  on_line = record { ordered = lines-IsOrdered; contained = lines-IsContained };
  strings = omega arith;
  terminated = refl;
  name_inside = omega arith;
}

debuginfo_eip_lem_example :
    (info : Eipdebuginfo) × (debuginfo_eip tables 20 text 0xf0100008 ≡ some (returns (pos 0) info))
    × (info.eip_line ≡ 11)
    × (info.eip_fn_name ≡ 101)
    × IsFirst b':' (codes "f:F1") info.eip_fn_namelen
    × (info.eip_fn_addr ≡ 0xf0100000)
debuginfo_eip_lem_example =
    debuginfo_eip_lem tables 20 text 0xf0100008 (pos 1) (pos 4) (pos 2) (pos 4) (pos 4) (pos 4)
      entries-IsLocated (omega arith) (omega arith) (omega arith) (codes "f:F1") (omega arith)
      (omega arith)

-- Lines at 0 and 1
abbrev dense : ℤ → Stab
dense (negsuc n) = padding
dense (pos i) = stab 0 n_sline (10 + i) i

stab_binsearch_adjacent_example :
    stab_binsearch dense n_sline 7 (pos 3) (pos 4) 3 ≡ some (pos 4, pos 4)
stab_binsearch_adjacent_example =
    stab_binsearch_adjacent dense n_sline 3 3 (omega arith) refl refl refl refl 2
