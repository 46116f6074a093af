-- ===== src/Monitor/Tokens/Words.antt =====
-- The words of a command line, and the two scans of `runcmd` that find them.
use jos.Prelude.{
  ℕ, ◌+◌, ◌≡◌, refl, sym, ap, ◌∙◌, Bool, true, false, ◌||◌, List, [], ◌∷◌, ◌++◌, length, ◌==◌,
  if◌then◌else◌, Bool-cases, append-nil, append_assoc, inl, inr, arith,
}

abbrev pub spaces : List ℕ
spaces = 9 ∷ 13 ∷ 10 ∷ b' ' ∷ []

abbrev pub is_space : ℕ → Bool
is_space c = c == 9 || c == 13 || c == 10 || c == b' '

abbrev pub flush : List ℕ → List (List ℕ) → List (List ℕ)
flush [] ws = ws
flush (c ∷ w) ws = (c ∷ w) ∷ ws

-- The words of a text behind the beginning `w` of one.
unfoldable pub words_from : List ℕ → List ℕ → List (List ℕ)
words_from w [] = flush w []
words_from w (c ∷ line) =
    let gap = words_from [] line in
    let on = words_from (w ++ c ∷ []) line in if is_space c then flush w gap else on

abbrev pub words : List ℕ → List (List ℕ)
words line = words_from [] line

unfoldable pub from_word : List ℕ → List ℕ
from_word [] = []
from_word (c ∷ line) = let rest = from_word line in if is_space c then rest else c ∷ line

unfoldable pub word_at : List ℕ → List ℕ
word_at [] = []
word_at (c ∷ line) = let rest = word_at line in if is_space c then [] else c ∷ rest

unfoldable pub behind_word : List ℕ → List ℕ
behind_word [] = []
behind_word (c ∷ line) = let rest = behind_word line in if is_space c then c ∷ line else rest

abbrev pub AtGap : List ℕ → Type 0
AtGap [] = Unit {0}
AtGap (c ∷ line) = is_space c ≡ true

abbrev pub AtWord : List ℕ → Type 0
AtWord [] = Unit {0}
AtWord (c ∷ line) = is_space c ≡ false

pub from_word-AtWord : (line : List ℕ) → AtWord (from_word line)
unfolding from_word
from_word-AtWord [] = tt
from_word-AtWord (c ∷ line) = elim (Bool-cases (is_space c)) [
  | inl e ↦ rw e (from_word-AtWord line)
  | inr e ↦ rw e e
]

pub behind_word-AtGap : (line : List ℕ) → AtGap (behind_word line)
unfolding behind_word
behind_word-AtGap [] = tt
behind_word-AtGap (c ∷ line) = elim (Bool-cases (is_space c)) [
  | inl e ↦ rw e e
  | inr e ↦ rw e (behind_word-AtGap line)
]

pub words-from_word : (line : List ℕ) → words line ≡ words (from_word line)
unfolding words_from from_word
words-from_word [] = refl
words-from_word (c ∷ line) = elim (Bool-cases (is_space c)) [
  | inl e ↦ rw (words_from, from_word, e) (words-from_word line)
  | inr e ↦
      let stays : from_word (c ∷ line) ≡ c ∷ line = rw (from_word, e) refl in ap words (sym stays)
]

words_from-gap :
    (w : List ℕ) (c : ℕ) (line : List ℕ)
    → is_space c ≡ true
    → words_from w (c ∷ line) ≡ flush w (words line)
unfolding words_from
words_from-gap w c line e = rw e refl

words_from-on :
    (w : List ℕ) (c : ℕ) (line : List ℕ)
    → is_space c ≡ false
    → words_from w (c ∷ line) ≡ words_from (w ++ c ∷ []) line
unfolding words_from
words_from-on w c line e = rw e refl

cut-gap :
    (c : ℕ) (line : List ℕ)
    → is_space c ≡ true
    → (word_at (c ∷ line) ≡ []) × (behind_word (c ∷ line) ≡ c ∷ line)
unfolding word_at behind_word
cut-gap c line e = rw e (refl, refl)

pub cut-on :
    (c : ℕ) (line : List ℕ)
    → is_space c ≡ false
    → (word_at (c ∷ line) ≡ c ∷ word_at line) × (behind_word (c ∷ line) ≡ behind_word line)
unfolding word_at behind_word
cut-on c line e = rw e (refl, refl)

words_from_end :
    (d : ℕ) (w : List ℕ) → words_from (d ∷ w) [] ≡ (d ∷ w ++ word_at []) ∷ words (behind_word [])
unfolding words_from word_at behind_word
words_from_end d w = ap (λ v. (d ∷ v) ∷ words []) (sym (append-nil w))

words_from-behind :
    (d : ℕ) (w line : List ℕ)
    → words_from (d ∷ w) line ≡ (d ∷ w ++ word_at line) ∷ words (behind_word line)
words_from-behind d w [] = words_from_end d w
words_from-behind d w (c ∷ line) = elim (Bool-cases (is_space c)) [
  | inl e ↦
      let (none_left, all_left) = cut-gap c line e in
      words_from-gap (d ∷ w) c line e
      ∙ ap (λ ws. (d ∷ w) ∷ ws) (sym (words_from-gap [] c line e))
      ∙ ap (λ v. (d ∷ v) ∷ words (c ∷ line)) (sym (append-nil w))
      ∙ ap (λ v. (d ∷ w ++ v) ∷ words (c ∷ line)) (sym none_left)
      ∙ ap (λ l. (d ∷ w ++ word_at (c ∷ line)) ∷ words l) (sym all_left)
  | inr e ↦
      let (more, rest) = cut-on c line e in
      words_from-on (d ∷ w) c line e
      ∙ words_from-behind d (w ++ c ∷ []) line
      ∙ ap (λ v. (d ∷ v) ∷ words (behind_word line)) (append_assoc w (c ∷ []) (word_at line))
      ∙ ap (λ v. (d ∷ w ++ v) ∷ words (behind_word line)) (sym more)
      ∙ ap (λ l. (d ∷ w ++ word_at (c ∷ line)) ∷ words l) (sym rest)
]

pub words-behind_word :
    (c : ℕ) (line : List ℕ)
    → is_space c ≡ false
    → words (c ∷ line) ≡ word_at (c ∷ line) ∷ words (behind_word (c ∷ line))
words-behind_word c line e =
    let (more, rest) = cut-on c line e in
    words_from-on [] c line e
    ∙ words_from-behind c [] line
    ∙ ap (λ v. v ∷ words (behind_word line)) (sym more)
    ∙ ap (λ l. word_at (c ∷ line) ∷ words l) (sym rest)

pub length-word_at :
    (line : List ℕ) → length (word_at line) + length (behind_word line) ≡ length line
unfolding word_at behind_word
length-word_at [] = refl
length-word_at (c ∷ line) = elim (Bool-cases (is_space c)) [
  | inl e ↦ rw (word_at, behind_word, e) (omega arith)
  | inr e ↦ rw (word_at, behind_word, e) (omega (arith, length-word_at line))
]
