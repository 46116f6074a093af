-- ===== src/Monitor/Dispatch.antt =====
-- The command that `runcmd` chooses for a line.
use jos.Prelude.{
  ℕ, ◌+◌, ◌≤◌, ◌<◌, ◌≡◌, ◌⊎◌, refl, ap, ◌∙◌, Bool, true, false, Option, none, some, List, [], ◌∷◌,
  ◌&&◌, length, get_or, ◌==◌, ltb, if◌then◌else◌, lt→ltb, le→ltb, arith,
}
use jos.Prelude.Int.{pos, eqb_ℤ}
use jos.Prelude.Texts.{codes}
use jos.Memory.{Mem, CString, SameOutside}
use jos.Memory.Frame.{CString-frame}
use jos.Strings.Compare.{NonNul, NonNul-CString, difference, strcmp_second}
use jos.Format.{Result, ok, ◌>>=◌}
use jos.Format.Vprintfmt.{Literals}
use jos.Console.Output.{Machine}
use jos.Debuginfo.{Tables}
use jos.Monitor.Tokens.{arguments, too_many, maxargs, split}
use jos.Monitor.Tokens.Words.{spaces, words}
use jos.Monitor.Tokens.Argv.{Strings, Stored, entered, surplus, split-words}
use jos.Monitor.Tokens.Places.{AllFrom, split-AllFrom}
use jos.Monitor.Backtrace.{fueled}
use jos.Monitor.{
  Stack, Func, help, kerninfo, backtrace, Command, Names, commands, Symbols, Ran, ran,
  too_many_format, complain, lookup, run_found, run_split, runcmd,
}

abbrev pub same : List ℕ → List ℕ → Bool
same [] [] = true
same [] (d ∷ t) = false
same (c ∷ s) [] = false
same (c ∷ s) (d ∷ t) = c == d && same s t

-- The command with a name
abbrev pub chosen : List ℕ → Option Func
chosen w =
    if same w (codes "help")
    then some help
    else if same w (codes "kerninfo")
    then some kerninfo
    else if same w (codes "backtrace")
    then some backtrace
    else none

difference-same : (s t : List ℕ) → NonNul s → NonNul t → eqb_ℤ (difference s t) (pos 0) ≡ same s t
unfolding difference
difference-same [] [] hs ht = refl
difference-same [] (d ∷ t) hs ht = ground arith
difference-same (c ∷ s) [] hs ht = ground arith
difference-same (c ∷ s) (d ∷ t) (ne, hs) (ne', ht) = ground (arith, difference-same s t hs ht)

-- The literals stand in the memory.
pub record HasNames (m : Mem) (names : Names) : Type 0 where
  pub help_named : CString m names.help_name (codes "help")
  pub kerninfo_named : CString m names.kerninfo_name (codes "kerninfo")
  pub backtrace_named : CString m names.backtrace_name (codes "backtrace")
  pub whitespace_named : CString m names.whitespace spaces

-- A literal of at most nine bytes at `p` does not meet the line.
abbrev pub Clear : ℕ → ℕ → ℕ → Type 0
Clear p buf n = (p + 9 < buf) ⊎ (buf + n < p)

pub record AreClear (names : Names) (buf n : ℕ) : Type 0 where
  pub help_clear : Clear names.help_name buf n
  pub kerninfo_clear : Clear names.kerninfo_name buf n
  pub backtrace_clear : Clear names.backtrace_name buf n
  pub whitespace_clear : Clear names.whitespace buf n

pub HasNames-frame :
    (m m' : Mem) (names : Names) (buf n : ℕ)
    → AreClear names buf n
    → SameOutside m' m buf n
    → HasNames m names
    → HasNames m' names
HasNames-frame m m' names buf n clear frame h = record {
  help_named = stays names.help_name (codes "help") clear.help_clear (omega arith) h.help_named;
  kerninfo_named =
      stays names.kerninfo_name (codes "kerninfo") clear.kerninfo_clear (omega arith)
        h.kerninfo_named;
  backtrace_named =
      stays names.backtrace_name (codes "backtrace") clear.backtrace_clear (omega arith)
        h.backtrace_named;
  whitespace_named =
      stays names.whitespace spaces clear.whitespace_clear (omega arith) h.whitespace_named;
}
  where
    stays : (p : ℕ) (s : List ℕ) → Clear p buf n → length s ≤ 9 → CString m p s → CString m' p s
    stays p s c short = CString-frame m m' p s (λ a lo hi. frame a (omega arith))

choose :
    (a b c : Bool)
    → Path
        (Result (Option Func))
        (if a
          then ok (some help)
          else if b
          then ok (some kerninfo)
          else if c
          then ok (some backtrace)
          else ok none)
        (ok (
          if a then some help else if b then some kerninfo else if c then some backtrace else none))
choose true b c = refl
choose false true c = refl
choose false false true = refl
choose false false false = refl

module _ (lits : Literals) (t : Tables) (names : Names) (symbols : Symbols) (stack : Stack)
    (k : ℕ) where
  -- What `runcmd` does for the words of a line: nothing if there are none, a complaint about more than
  -- 15 or about a first word that names no command, or the command that the first word names.
  abbrev pub respond : Mem → ℕ → List (List ℕ) → Machine → Result Ran
  respond m word [] s = ok (ran (pos 0) m s)
  respond m word (w ∷ ws) s =
      if ltb (length (w ∷ ws)) maxargs
      then run_found lits t names symbols stack k m word s (chosen w)
      else complain lits t names symbols stack k m too_many_format (maxargs ∷ []) s

module _ (lits : Literals) (t : Tables) (names : Names) (symbols : Symbols) (stack : Stack) (k : ℕ)
    (fuel : 9 < k) where
  lookup_step :
      (m : Mem) (word : ℕ) (w : List ℕ) (c : Command) (cs : List Command) (name : List ℕ)
      → CString m word w
      → CString m c.name name
      → length name < k
      → lookup lits t names symbols stack k m word (c ∷ cs)
        ≡ (if same w name then ok (some c.func) else lookup lits t names symbols stack k m word cs)
  unfolding lookup
  lookup_step m word w c cs name hw hn short =
      ap
        (λ r. fueled r >>= λ order.
          if eqb_ℤ order (pos 0)
          then ok (some c.func)
          else lookup lits t names symbols stack k m word cs)
        (strcmp_second k m word c.name w name hw hn short)
      ∙ ap (λ b. if b then ok (some c.func) else lookup lits t names symbols stack k m word cs)
          (difference-same w name (NonNul-CString m word w hw) (NonNul-CString m c.name name hn))

  lookup-chosen :
      (m : Mem) (word : ℕ) (w : List ℕ)
      → HasNames m names
      → CString m word w
      → lookup lits t names symbols stack k m word (commands names) ≡ ok (chosen w)
  unfolding lookup
  lookup-chosen m word w h hw =
      rw
        (
          lookup_step m word w
              record { name = names.help_name; desc = names.help_desc; func = help }
              (record { name = names.kerninfo_name; desc = names.kerninfo_desc; func = kerninfo }
                ∷ record {
                  name = names.backtrace_name;
                  desc = names.backtrace_desc;
                  func = backtrace;
                }
                ∷ [])
              (codes "help") hw h.help_named (omega arith),
          lookup_step m word w
              record { name = names.kerninfo_name; desc = names.kerninfo_desc; func = kerninfo }
              (record { name = names.backtrace_name; desc = names.backtrace_desc; func = backtrace }
                ∷ [])
              (codes "kerninfo") hw h.kerninfo_named (omega arith),
          lookup_step m word w
              record { name = names.backtrace_name; desc = names.backtrace_desc; func = backtrace }
              [] (codes "backtrace") hw h.backtrace_named (omega arith),
        )
        (choose (same w (codes "help")) (same w (codes "kerninfo")) (same w (codes "backtrace")))

  run_first :
      (m : Mem) (argv : List ℕ) (w : List ℕ) (ws : List (List ℕ)) (s : Machine)
      → HasNames m names
      → Strings m argv (w ∷ ws)
      → run_split lits t names symbols stack k s (arguments argv m)
        ≡ run_found lits t names symbols stack k m (get_or argv 0 0) s (chosen w)
  unfolding run_split
  run_first m [] w ws s h strings = absurd strings
  run_first m (p ∷ argv) w ws s h (hp, strings) =
      ap (λ r. r >>= run_found lits t names symbols stack k m p s) (lookup-chosen m p w h hp)

  run_split-respond :
      (m : Mem) (argv : List ℕ) (ws : List (List ℕ)) (s : Machine)
      → HasNames m names
      → Stored ws (Strings m argv ws)
      → run_split lits t names symbols stack k s
          (if ltb (length ws) maxargs then arguments argv m else too_many m)
        ≡ respond lits t names symbols stack k m (get_or argv 0 0) ws s
  unfolding run_split
  run_split-respond m [] [] s h strings = refl
  run_split-respond m (p ∷ argv) [] s h (entered lt strings) = absurd strings
  run_split-respond m (p ∷ argv) [] s h (surplus ge) = absurd (omega arith)
  run_split-respond m argv (w ∷ ws) s h (entered lt strings) =
      rw (lt→ltb (length (w ∷ ws)) maxargs lt) (run_first m argv w ws s h strings)
  run_split-respond m argv (w ∷ ws) s h (surplus ge) = rw (le→ltb (length (w ∷ ws)) maxargs ge) refl

  -- The addresses that are kept are not below the line.
  stored-AllFrom :
      (m : Mem) (buf : ℕ) (ws : List (List ℕ)) (argv : List ℕ) (m' : Mem)
      → split k names.whitespace k m buf []
        ≡ some (if ltb (length ws) maxargs then arguments argv m' else too_many m')
      → Stored ws (Strings m' argv ws)
      → Stored ws (Strings m' argv ws × AllFrom buf argv)
  stored-AllFrom m buf ws argv m' e (entered lt strings) =
      let fits = lt→ltb (length ws) maxargs lt in
      entered lt (
        strings,
        split-AllFrom k names.whitespace m buf argv m'
            (e ∙ ap (λ b. some (if b then arguments argv m' else too_many m')) fits),
      )
  stored-AllFrom m buf ws argv m' e (surplus ge) = surplus ge

  -- For a line that stands away from the literals, `runcmd` does what the words of the line ask for,
  -- in a memory that differs from the one before at most in the line, where up to 15 words stand as
  -- strings at addresses that are not below the line.
  pub runcmd_lem :
      (m : Mem) (buf : ℕ) (line : List ℕ) (s : Machine)
      → CString m buf line
      → HasNames m names
      → AreClear names buf (length line)
      → length line < k
      → (m' : Mem) × (argv : List ℕ) × (runcmd lits t names symbols stack k m buf s
          ≡ respond lits t names symbols stack k m' (get_or argv 0 0) (words line) s)
        × Stored (words line) (Strings m' argv (words line) × AllFrom buf argv)
        × SameOutside m' m buf (length line)
  unfolding runcmd
  runcmd_lem m buf line s h names_in clear lt =
      let (m', argv, leaves) =
        split-words k names.whitespace (omega arith) m buf line h names_in.whitespace_named
          (omega (arith, clear.whitespace_clear)) lt in
      (
        m',
        argv,
        ap (λ r. fueled r >>= run_split lits t names symbols stack k s) leaves.returns
            ∙ run_split-respond m' argv (words line) s
                (HasNames-frame m m' names buf (length line) clear leaves.frame names_in)
                leaves.strings,
        stored-AllFrom m buf (words line) argv m' leaves.returns leaves.strings,
        leaves.frame,
      )
