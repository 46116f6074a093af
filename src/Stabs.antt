-- ===== src/Stabs.antt =====
-- The debugging information of inc/stab.h, and its search by address: `stab_binsearch` of
-- kern/kdebug.c. An index is an `int`, since `region_right` can be -1; the table is a function of it.
pub mod Scan
pub mod Round
pub mod Rounds
pub mod Brackets
pub mod Unique
pub mod Adjacent
use jos.Prelude.{
  ℕ, zero, suc, ◌+◌, ◌%◌, ◌^◌, Bool, true, false, Option, none, some, ltb, ◌==◌, if◌then◌else◌,
}
use jos.Prelude.Int.{ℤ, pos, pos_part, ◌+ℤ◌, ◌-ℤ◌, ltb_ℤ, half}

-- `struct Stab`
pub record Stab : Type 0 where
  pub n_strx : ℕ
  pub n_type : ℕ
  pub n_other : ℕ
  pub n_desc : ℕ
  pub n_value : ℕ

abbrev pub n_fun : ℕ
n_fun = 0x24

abbrev pub n_sline : ℕ
n_sline = 0x44

abbrev pub n_so : ℕ
n_so = 0x64

abbrev pub n_sol : ℕ
n_sol = 0x84

abbrev pub n_psym : ℕ
n_psym = 0xA0

-- The variables of the search.
pub record Search : Type 0 where
  pub l : ℤ
  pub r : ℤ
  pub addr : ℕ
  pub region_left : ℤ
  pub region_right : ℤ
  pub any_matches : Bool

abbrev start : ℤ → ℤ → ℕ → Search
start left right addr = record {
  l = left;
  r = right;
  addr = addr;
  region_left = left;
  region_right = right;
  any_matches = false;
}

module _ (stabs : ℤ → Stab) (kind : ℕ) where
  -- `while (m >= l && stabs[m].n_type != type) m--;`, where `m - l + 1` rounds are left
  pub last_match : ℕ → ℤ → ℤ
  last_match zero m = m
  last_match (suc n) m =
      let rest = last_match n (m -ℤ pos 1) in if (stabs m).n_type == kind then m else rest

  -- The tests behind the inner loop, which stopped at `m`.
  probe : ℤ → ℤ → Search → Search
  probe true_m m s =
      if ltb_ℤ m s.l
      then record s { l = true_m +ℤ pos 1 }
      else if ltb (stabs m).n_value s.addr
      then record s { any_matches = true; region_left = m; l = true_m +ℤ pos 1 }
      else if ltb s.addr (stabs m).n_value
      then record s { any_matches = true; region_right = m -ℤ pos 1; r = m -ℤ pos 1 }
      else record s { any_matches = true; region_left = m; l = m; addr = (s.addr + 1) % 2 ^ 32 }

  -- One round of the outer loop.
  round : Search → Search
  round s =
      let true_m = half (s.l +ℤ s.r) in
      probe true_m (last_match (pos_part (true_m -ℤ s.l +ℤ pos 1)) true_m) s

  -- `while (l <= r)`, on fuel
  pub rounds : ℕ → Search → Option Search
  rounds zero s = none
  rounds (suc k) s = let rest = rounds k (round s) in if ltb_ℤ s.r s.l then some s else rest

  -- What is left in `*region_left` and `*region_right`. The last loop makes `region_right -
  -- region_left` rounds at most.
  region : Search → ℤ × ℤ
  region s =
      if s.any_matches
      then (last_match (pos_part (s.region_right -ℤ s.region_left)) s.region_right, s.region_right)
      else (s.region_left, s.region_left -ℤ pos 1)

  unfoldable pub stab_binsearch : ℕ → ℤ → ℤ → ℕ → Option (ℤ × ℤ)
  unfolding last_match probe round rounds region ◌+ℤ◌ ◌-ℤ◌
  stab_binsearch k left right addr = elim (rounds k (start left right addr)) [
    | none ↦ none
    | some s ↦ some (region s)
  ]
