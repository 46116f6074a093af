-- ===== src/Monitor/Tokens/Argv.antt =====
-- What `runcmd` finds on a line: its words, if they are 15 at most.
use jos.Prelude.{
  ℕ, zero, suc, ◌+◌, ◌-◌, ◌≤◌, ◌<◌, ◌≡◌, ◌≢◌, ◌⊎◌, refl, sym, ap, ◌∙◌, false, Option, some, List,
  [], ◌∷◌, ◌++◌, append_assoc, append-nil, length, length-append, ◌==◌, ltb, if◌then◌else◌,
  Bool-cases, lt→ltb, le→ltb, inl, inr, arith,
}
use mathlib.Core.Path.{subst}
use jos.Prelude.Options.{◌>>=◌}
use jos.Memory.{Mem, CString, SameOutside}
use jos.Memory.Frame.{CString-frame}
use jos.Monitor.Tokens.{maxargs, Split, arguments, too_many, scan_past, split}
use jos.Monitor.Tokens.Words.{
  spaces, is_space, words, words_from, cut-on, from_word, word_at, behind_word, AtGap, AtWord,
  from_word-AtWord, behind_word-AtGap, words-from_word, words-behind_word, length-word_at,
}
use jos.Monitor.Tokens.Scans.{AwayFrom, Gobbled, gobble_lem, scan_past_lem}

-- The strings at the addresses of `argv` are the words.
abbrev pub Strings : Mem → List ℕ → List (List ℕ) → Type 0
Strings m [] [] = Unit {0}
Strings m [] (w ∷ ws) = ⊥
Strings m (p ∷ argv) [] = ⊥
Strings m (p ∷ argv) (w ∷ ws) = CString m p w × Strings m argv ws

Strings-append :
    (m : Mem) (argv : List ℕ) (ws : List (List ℕ)) (p : ℕ) (w : List ℕ)
    → Strings m argv ws
    → CString m p w
    → Strings m (argv ++ p ∷ []) (ws ++ w ∷ [])
Strings-append m [] [] p w h hw = (hw, tt)
Strings-append m [] (v ∷ ws) p w h hw = absurd h
Strings-append m (q ∷ argv) [] p w h hw = absurd h
Strings-append m (q ∷ argv) (v ∷ ws) p w (hv, h) hw = (hv, Strings-append m argv ws p w h hw)

-- The words so far are strings as soon as there is a NUL at `buf`.
abbrev pub Pending : Mem → ℕ → List ℕ → List (List ℕ) → Type 0
Pending m buf argv ws =
    (m' : Mem) → ((a : ℕ) → a < buf → m' a ≡ m a) → (m' buf ≡ 0) → Strings m' argv ws

-- What is kept of the words of a line: `runcmd` takes 15 at most.
pub data Stored (ws : List (List ℕ)) (P : Type 0) : Type 0 where
  entered : length ws < maxargs → P → Stored ws P
  surplus : maxargs ≤ length ws → Stored ws P

-- What a call of `split` leaves, for a line at `buf` of `n` bytes with the words `ws`.
pub record Leaves (m m' : Mem) (buf n : ℕ) (ws : List (List ℕ)) (argv : List ℕ)
    (result : Option Split) : Type 0 where
  pub returns : result ≡ some (if ltb (length ws) maxargs then arguments argv m' else too_many m')
  pub strings : Stored ws (Strings m' argv ws)
  pub frame : SameOutside m' m buf n

Strings-none :
    (m : Mem) (argv : List ℕ) (ws : List (List ℕ))
    → argv ≡ []
    → length argv ≡ length ws
    → Strings m argv ws
Strings-none m [] [] e h = tt
Strings-none m [] (w ∷ ws) e h = absurd (omega arith)
Strings-none m (p ∷ argv) ws e h =
    absurd (let z : length (p ∷ argv) ≡ 0 = ap length e in omega arith)

-- There is a further word on the line.
length-words :
    (ws : List (List ℕ)) (c : ℕ) (line : List ℕ)
    → is_space c ≡ false
    → length ws < length (ws ++ words (c ∷ line))
length-words ws c line e =
    omega (arith, length-append ws (words (c ∷ line)), ap length (words-behind_word c line e))

Gobbled-frame :
    (m m' : Mem) (buf word : ℕ) (line : List ℕ)
    → Gobbled m m' buf word line
    → SameOutside m' m buf (length line)
Gobbled-frame m m' buf word line g a (inl lo) = g.below a lo
Gobbled-frame m m' buf word line g a (inr hi) = g.above a (omega (arith, g.end))

words_end : (ws : List (List ℕ)) → ws ≡ ws ++ words []
unfolding words_from
words_end ws = sym (append-nil ws)

module _ (k : ℕ) (whitespace : ℕ) (fuel : 4 < k) where
  -- The claim on `split` with `n` rounds of fuel.
  abbrev pub Splits : ℕ → Type 0
  Splits n =
      (m : Mem) (buf : ℕ) (argv : List ℕ) (ws : List (List ℕ)) (line : List ℕ)
      → CString m buf line
      → CString m whitespace spaces
      → AwayFrom whitespace buf (length line)
      → length line < n
      → length line < k
      → length argv ≡ length ws
      → length argv < maxargs
      → (argv ≡ []) ⊎ AtGap line
      → Pending m buf argv ws
      → (m' : Mem) × (argv' : List ℕ) × Leaves m m' buf (length line) (ws ++ words line) argv'
          (split k whitespace n m buf argv)

  -- A round behind the whitespace.
  unfoldable turn : ℕ → Mem → ℕ → List ℕ → Option Split
  unfolding scan_past split
  turn n m word argv =
      if m word == 0
      then some (arguments argv m)
      else if length argv == maxargs - 1
      then some (too_many m)
      else scan_past k whitespace k m word >>= λ behind.
          split k whitespace n m behind (argv ++ word ∷ [])

  turn_lem :
      (n : ℕ)
      → Splits n
      → (m : Mem) (word : ℕ) (argv : List ℕ) (ws : List (List ℕ)) (line : List ℕ)
      → CString m word line
      → CString m whitespace spaces
      → AwayFrom whitespace word (length line)
      → length line < suc n
      → length line < k
      → length argv ≡ length ws
      → length argv < maxargs
      → AtWord line
      → ((m' : Mem) → ((a : ℕ) → a ≤ word → m' a ≡ m a) → Strings m' argv ws)
      → (m' : Mem) × (argv' : List ℕ) × Leaves m m' word
          (length line)
          (ws ++ words line)
          argv'
          (turn n m word argv)
  unfolding turn
  turn_lem n splits m word argv ws [] h hs away lt short same few at held = (
    m,
    argv,
    subst (λ vs. Leaves m m word 0 vs argv (turn n m word argv)) (words_end ws)
        (record {
          returns = rw h (
              ap (λ b. some (if b then arguments argv m else too_many m))
                (sym (lt→ltb (length ws) maxargs (omega arith))));
          strings = entered (omega arith) (held m (λ a le. refl));
          frame = λ a out. refl;
        }),
  )
  turn_lem n splits m word argv ws (c ∷ line) (e, ne, h) hs away lt short same few at held =
      let on : (m word == 0) ≡ false = ground arith in
      elim (Bool-cases (length argv == maxargs - 1)) [
        | inl full ↦
            let many : maxargs ≤ length (ws ++ words (c ∷ line)) =
              let full' : length argv ≡ maxargs - 1 = ground arith in
              omega (arith, length-words ws c line at) in
            (
              m,
              argv,
              record {
                returns =
                    rw (on, full)
                      (ap (λ b. some (if b then arguments argv m else too_many m))
                        (sym (le→ltb (length (ws ++ words (c ∷ line))) maxargs many)));
                strings = surplus (omega (arith, many));
                frame = λ a out. refl;
              },
            )
        | inr room ↦
            let (end, run, scanned) =
              scan_past_lem k whitespace fuel k m word (c ∷ line) (e, ne, h) hs short in
            let w = word_at (c ∷ line) in
            let line' = behind_word (c ∷ line) in
            let longer : end ≡ word + suc (length (word_at line)) =
              scanned.size ∙ ap (λ v. word + length v) (cut-on c line at).0 in
            let split_size : suc (length (word_at line)) + length line' ≡ suc (length line) =
              omega (arith, length-word_at (c ∷ line), ap length (cut-on c line at).0) in
            let (m', argv', leaves) =
              splits m end (argv ++ word ∷ []) (ws ++ w ∷ []) line' scanned.rest hs
                (omega (arith, longer, split_size)) (omega (arith, split_size))
                (omega (arith, split_size))
                (omega (arith, length-append argv (word ∷ []), length-append ws (w ∷ [])))
                (let room' : length argv ≢ maxargs - 1 = ground arith in
                  omega (arith, length-append argv (word ∷ [])))
                (inr (behind_word-AtGap (c ∷ line)))
                (λ m' same nul.
                  Strings-append m' argv ws word w
                    (held m' (λ a le. same a (omega (arith, longer))))
                    (scanned.word m' (λ a lo hi. same a hi) nul)) in
            let all : (ws ++ w ∷ []) ++ words line' ≡ ws ++ words (c ∷ line) =
              append_assoc ws (w ∷ []) (words line')
              ∙ ap (λ vs. ws ++ vs) (sym (words-behind_word c line at)) in
            (
              m',
              argv',
              subst (λ vs. Leaves m m' word (suc (length line)) vs argv' (turn n m word argv)) all
                  (record {
                    returns =
                        rw (on, room)
                          (ap
                              (λ r.
                                r >>= λ behind. split k whitespace n m behind (argv ++ word ∷ []))
                              run
                            ∙ leaves.returns);
                    strings = leaves.strings;
                    frame = λ a out. leaves.frame a (omega (arith, longer, split_size));
                  }),
            )
      ]

  split_lem : (n : ℕ) → Splits n
  unfolding split turn
  split_lem zero m buf argv ws line h hs away lt short same few gap pending = absurd (omega arith)
  split_lem (suc n) m buf argv ws line h hs away lt short same few gap pending =
      let (m', word, run, g) = gobble_lem k whitespace fuel k m buf line h hs away short in
      let rest = from_word line in
      let same_outside = Gobbled-frame m m' buf word line g in
      let hs' : CString m' whitespace spaces =
        CString-frame m m' whitespace spaces (λ a lo hi. same_outside a (omega arith)) hs in
      let (m'', argv', leaves) =
        turn_lem n (split_lem n) m' word argv ws rest g.string hs' (omega (arith, g.from, g.end))
          (omega (arith, g.from, g.end)) (omega (arith, g.from, g.end)) same few
          (from_word-AtWord line)
          (λ m'' unchanged. elim gap [
            | inl none_yet ↦ Strings-none m'' argv ws none_yet same
            | inr at ↦
                pending m'' (λ a lt. unchanged a (omega (arith, g.from)) ∙ g.below a lt)
                  (unchanged buf g.from ∙ g.ended at)
          ]) in
      (
        m'',
        argv',
        subst
            (λ vs.
              Leaves m m'' buf (length line) (ws ++ vs) argv'
                (split k whitespace (suc n) m buf argv))
            (sym (words-from_word line))
            (record {
              returns = ap (λ r. r >>= λ (m', word). turn n m' word argv) run ∙ leaves.returns;
              strings = leaves.strings;
              frame = λ a out. leaves.frame a (omega (arith, g.from, g.end)) ∙ same_outside a out;
            }),
      )

  -- A line that stands away from the literal `WHITESPACE` is split into its words, with fuel for each
  -- of its bytes: `argv` gets an address for each, where it stands as a string in the memory that is
  -- left, or, if there are more than 15, the parsing ends with the 16th. No byte but the line's changes.
  pub split-words :
      (m : Mem) (buf : ℕ) (line : List ℕ)
      → CString m buf line
      → CString m whitespace spaces
      → AwayFrom whitespace buf (length line)
      → length line < k
      → (m' : Mem) × (argv : List ℕ) × Leaves m m' buf
          (length line)
          (words line)
          argv
          (split k whitespace k m buf [])
  split-words m buf line h hs away lt =
      split_lem k m buf [] [] line h hs away lt lt refl (omega arith) (inl refl) (λ m' same nul. tt)
