-- ===== src/Monitor/Tokens/Scans.antt =====
-- The two scans of `runcmd`: over the whitespace, which becomes NULs, and over a word.
use jos.Prelude.{
  ℕ, zero, suc, ◌+◌, ◌≤◌, ◌<◌, ◌≡◌, ◌≢◌, ◌⊎◌, refl, ap, ◌∙◌, false, Option, some, List, [], ◌∷◌,
  length, ◌==◌, if◌then◌else◌, Bool-cases, inl, inr, arith,
}
use jos.Prelude.Options.{◌>>=◌}
use jos.Memory.{Mem, store, CString}
use jos.Memory.Frame.{CString-store, store_self, store_ne}
use jos.Strings.{strchr}
use jos.Strings.Find.{first_index, strchr_index}
use jos.Monitor.Tokens.{present, gobble, scan_past}
use jos.Monitor.Tokens.Words.{spaces, is_space, from_word, word_at, behind_word, AtGap}

-- `[p, p + 4]` and `[buf, buf + n]` do not meet.
abbrev pub AwayFrom : ℕ → ℕ → ℕ → Type 0
AwayFrom p buf n = (p + 4 < buf) ⊎ (buf + n < p)

-- From `buf` to `word` there were spaces, and there are NULs.
pub record Gobbled (m m' : Mem) (buf word : ℕ) (line : List ℕ) : Type 0 where
  pub from : buf ≤ word
  pub end : word + length (from_word line) ≡ buf + length line
  pub string : CString m' word (from_word line)
  pub below : (a : ℕ) → a < buf → m' a ≡ m a
  pub above : (a : ℕ) → word ≤ a → m' a ≡ m a
  pub ended : AtGap line → m' buf ≡ 0

-- From `buf` to `end` there is a word, which is a string once a NUL is put behind it.
pub record Scanned (m : Mem) (buf end : ℕ) (line : List ℕ) : Type 0 where
  pub size : end ≡ buf + length (word_at line)
  pub rest : CString m end (behind_word line)
  pub word :
      (m' : Mem)
      → ((a : ℕ) → buf ≤ a → a < end → m' a ≡ m a)
      → m' end ≡ 0
      → CString m' buf (word_at line)

module _ (k : ℕ) (whitespace : ℕ) (fuel : 4 < k) where
  -- The test of both loops.
  strchr-is_space :
      (m : Mem) (c : ℕ)
      → CString m whitespace spaces
      → (r : Option ℕ) × (strchr k m whitespace c ≡ some r) × (present r ≡ is_space c)
  unfolding first_index
  strchr-is_space m c h = (_, strchr_index k m whitespace c spaces h fuel, ground arith)

  gobble_step :
      (n : ℕ) (m : Mem) (buf c : ℕ)
      → CString m whitespace spaces
      → m buf ≡ c
      → c ≢ 0
      → gobble k whitespace (suc n) m buf
        ≡ (if is_space c then gobble k whitespace n (store m buf 0) (buf + 1) else some (m, buf))
  unfolding gobble
  gobble_step n m buf c h e ne =
      let (r, run, is) = strchr-is_space m (m buf) h in
      let go_on : (m buf == 0) ≡ false = ground arith in
      rw go_on (
        ap
          (λ r. r >>= λ found.
            if present found
            then gobble k whitespace n (store m buf 0) (buf + 1)
            else some (m, buf))
          run
        ∙ ap (λ b. if b then gobble k whitespace n (store m buf 0) (buf + 1) else some (m, buf))
            (is ∙ ap is_space e))

  scan_past_step :
      (n : ℕ) (m : Mem) (buf c : ℕ)
      → CString m whitespace spaces
      → m buf ≡ c
      → c ≢ 0
      → scan_past k whitespace (suc n) m buf
        ≡ (if is_space c then some buf else scan_past k whitespace n m (buf + 1))
  unfolding scan_past
  scan_past_step n m buf c h e ne =
      let (r, run, is) = strchr-is_space m (m buf) h in
      let go_on : (m buf == 0) ≡ false = ground arith in
      rw go_on (
        ap
          (λ r.
            r >>= λ found. if present found then some buf else scan_past k whitespace n m (buf + 1))
          run
        ∙ ap (λ b. if b then some buf else scan_past k whitespace n m (buf + 1))
            (is ∙ ap is_space e))

  pub gobble_lem :
      (n : ℕ) (m : Mem) (buf : ℕ) (line : List ℕ)
      → CString m buf line
      → CString m whitespace spaces
      → AwayFrom whitespace buf (length line)
      → length line < n
      → (m' : Mem) × (word : ℕ) × (gobble k whitespace n m buf ≡ some (m', word))
        × Gobbled m m' buf word line
  unfolding gobble from_word
  gobble_lem zero m buf line h hs away lt = absurd (omega arith)
  gobble_lem (suc n) m buf [] h hs away lt = (
    m,
    buf,
    rw h refl,
    record {
      from = omega arith;
      end = refl;
      string = h;
      below = λ a lt. refl;
      above = λ a le. refl;
      ended = λ g. h;
    },
  )
  gobble_lem (suc n) m buf (c ∷ line) (e, ne, h) hs away lt = elim (Bool-cases (is_space c)) [
    | inl space ↦
        let m1 = store m buf 0 in
        let (m', word, run, g) =
          gobble_lem n m1 (buf + 1) line
            (CString-store m (buf + 1) buf 0 line (inl (omega arith)) h)
            (CString-store m whitespace buf 0 spaces (omega arith) hs) (omega arith)
            (omega arith) in
        let stays : from_word (c ∷ line) ≡ from_word line = rw (from_word, space) refl in
        (
          m',
          word,
          gobble_step n m buf c hs e ne ∙ rw space run,
          record {
            from = omega (arith, g.from);
            end = ap (λ l. word + length l) stays ∙ omega (arith, g.end);
            string = rw stays g.string;
            below = λ a lt. g.below a (omega arith) ∙ store_ne m buf 0 a (omega arith);
            above = λ a le. g.above a le ∙ store_ne m buf 0 a (omega (arith, g.from));
            ended = λ at. g.below buf (omega arith) ∙ store_self m buf 0;
          },
        )
    | inr word ↦ (
      m,
      buf,
      gobble_step n m buf c hs e ne ∙ rw word refl,
      let stays : from_word (c ∷ line) ≡ c ∷ line = rw (from_word, word) refl in
          record {
            from = omega arith;
            end = ap (λ l. buf + length l) stays;
            string = rw stays (e, ne, h);
            below = λ a lt. refl;
            above = λ a le. refl;
            ended = λ space. absurd (ground arith);
          },
    )
  ]

  pub scan_past_lem :
      (n : ℕ) (m : Mem) (buf : ℕ) (line : List ℕ)
      → CString m buf line
      → CString m whitespace spaces
      → length line < n
      → (end : ℕ) × (scan_past k whitespace n m buf ≡ some end) × Scanned m buf end line
  unfolding scan_past word_at behind_word
  scan_past_lem zero m buf line h hs lt = absurd (omega arith)
  scan_past_lem (suc n) m buf [] h hs lt =
      (buf, rw h refl, record { size = omega arith; rest = h; word = λ m' same nul. nul })
  scan_past_lem (suc n) m buf (c ∷ line) (e, ne, h) hs lt = elim (Bool-cases (is_space c)) [
    | inl space ↦ (
      buf,
      scan_past_step n m buf c hs e ne ∙ rw space refl,
      let nothing : word_at (c ∷ line) ≡ [] = rw (word_at, space) refl in
          let all : behind_word (c ∷ line) ≡ c ∷ line = rw (behind_word, space) refl in
          record {
            size = omega (arith, ap length nothing);
            rest = rw all (e, ne, h);
            word = λ m' same nul. rw nothing nul;
          },
    )
    | inr word ↦
        let (end, run, scanned) = scan_past_lem n m (buf + 1) line h hs (omega arith) in
        let more : word_at (c ∷ line) ≡ c ∷ word_at line = rw (word_at, word) refl in
        let rest : behind_word (c ∷ line) ≡ behind_word line = rw (behind_word, word) refl in
        (
          end,
          scan_past_step n m buf c hs e ne ∙ rw word run,
          record {
            size = omega (arith, ap length more, scanned.size);
            rest = rw rest scanned.rest;
            word = λ m' same nul. rw more (
              same buf (omega arith) (omega (arith, scanned.size)) ∙ e,
              ne,
              scanned.word m' (λ a lo hi. same a (omega arith) hi) nul,
            );
          },
        )
  ]
