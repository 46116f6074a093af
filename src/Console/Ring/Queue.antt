-- ===== src/Console/Ring/Queue.antt =====
-- The input buffer is a queue of at most 511 characters.
use jos.Prelude.{
  ℕ, zero, suc, ◌+◌, ◌-◌, ◌%◌, ◌^◌, ◌<◌, ◌≡◌, ◌≢◌, ◌⊎◌, refl, ap, sym, ◌∙◌, List, [], ◌∷◌, ◌++◌,
  append-nil, append_assoc, length, get_or, set, length-set, get_or-set_self, get_or-set_ne, ◌==◌,
  if◌then◌else◌, Bool-cases, inl, inr, arith, true, false,
}
use mathlib.Core.Path.{ap₂}
use jos.Console.Ring.{Cons, cons_buf_size, advance, take_in, cons_intr, next_char}

pub record IsValid (s : Cons) : Type 0 where
  pub size : length s.buf ≡ cons_buf_size
  pub rpos : s.rpos < cons_buf_size
  pub wpos : s.wpos < cons_buf_size

-- The values of `f` at 0, 1, … , `n - 1`.
abbrev items : (ℕ → ℕ) → ℕ → List ℕ
items f zero = []
items f (suc n) = f 0 ∷ items (λ i. f (i + 1)) n

items_ext : (f g : ℕ → ℕ) (n : ℕ) → ((i : ℕ) → i < n → f i ≡ g i) → items f n ≡ items g n
items_ext f g zero h = refl
items_ext f g (suc n) h =
    ap₂ ◌∷◌ (h 0 (omega arith))
      (items_ext (λ i. f (i + 1)) (λ i. g (i + 1)) n (λ i lt. h (i + 1) (omega arith)))

items-suc : (f : ℕ → ℕ) (n : ℕ) → items f (suc n) ≡ items f n ++ f n ∷ []
items-suc f zero = refl
items-suc f (suc n) =
    ap (λ l. f 0 ∷ l)
      (items-suc (λ i. f (i + 1)) n
        ∙ ap (λ k. items (λ i. f (i + 1)) n ++ f k ∷ []) {x = n + 1} {y = suc n} (omega arith))

length-items : (f : ℕ → ℕ) (n : ℕ) → length (items f n) ≡ n
length-items f zero = refl
length-items f (suc n) = ap suc (length-items (λ i. f (i + 1)) n)

-- How many characters wait, and which, the oldest first.
abbrev pub waiting : Cons → ℕ
waiting s = (s.wpos + cons_buf_size - s.rpos) % cons_buf_size

abbrev at : Cons → ℕ → ℕ
at s i = get_or s.buf ((s.rpos + i) % cons_buf_size) 0

abbrev pub contents : Cons → List ℕ
contents s = items (at s) (waiting s)

pub length-contents : (s : Cons) → length (contents s) ≡ waiting s
length-contents s = length-items (at s) (waiting s)

-- The characters that a device delivers: each value but 0, as a byte.
abbrev pub delivered : List ℕ → List ℕ
delivered [] = []
delivered (c ∷ cs) = if c == 0 then delivered cs else (c % 2 ^ 8) ∷ delivered cs

pub take_in-IsValid : (c : ℕ) (s : Cons) → IsValid s → IsValid (take_in c s)
unfolding take_in
take_in-IsValid c s v = ground (arith, length-set s.buf s.wpos (c % 2 ^ 8))

-- The state behind a character, and its number of waiting characters.
abbrev taken : ℕ → Cons → Cons
taken c s = record s { buf = set s.buf s.wpos (c % 2 ^ 8); wpos = advance s.wpos }

take_in-taken : (c : ℕ) (s : Cons) → c ≢ 0 → take_in c s ≡ taken c s
unfolding take_in
take_in-taken c s ne = ground arith

waiting-taken :
    (c : ℕ) (s : Cons)
    → IsValid s
    → waiting s + 1 < cons_buf_size
    → waiting (taken c s) ≡ suc (waiting s)
unfolding advance
waiting-taken c s v room = ground arith

items-taken :
    (c : ℕ) (s : Cons)
    → IsValid s
    → items (at (taken c s)) (suc (waiting s)) ≡ contents s ++ (c % 2 ^ 8) ∷ []
items-taken c s v =
    let b = c % 2 ^ 8 in
    let free : (s.rpos + waiting s) % cons_buf_size ≡ s.wpos = omega arith in
    items-suc (at (taken c s)) (waiting s)
    ∙ ap₂ (λ l x. l ++ x ∷ [])
        (items_ext (at (taken c s)) (at s) (waiting s)
          (λ i lt. get_or-set_ne s.buf s.wpos ((s.rpos + i) % cons_buf_size) b 0 (omega arith)))
        (ap (λ i. get_or (set s.buf s.wpos b) i 0) free
          ∙ get_or-set_self s.buf s.wpos b 0 (omega arith))

take_in-contents :
    (c : ℕ) (s : Cons)
    → IsValid s
    → c ≢ 0
    → waiting s + 1 < cons_buf_size
    → contents (take_in c s) ≡ contents s ++ (c % 2 ^ 8) ∷ []
take_in-contents c s v ne room =
    ap contents (take_in-taken c s ne)
    ∙ ap (items (at (taken c s))) (waiting-taken c s v room)
    ∙ items-taken c s v

pub cons_intr-IsValid : (cs : List ℕ) (s : Cons) → IsValid s → IsValid (cons_intr cs s)
unfolding cons_intr
cons_intr-IsValid [] s v = v
cons_intr-IsValid (c ∷ cs) s v = cons_intr-IsValid cs (take_in c s) (take_in-IsValid c s v)

take_in_zero : (c : ℕ) (s : Cons) → c ≡ 0 → take_in c s ≡ s
unfolding take_in
take_in_zero c s z = ground arith

delivered_zero : (c : ℕ) (cs : List ℕ) → (c == 0) ≡ true → delivered (c ∷ cs) ≡ delivered cs
delivered_zero c cs z = rw z

delivered_cons :
    (c : ℕ) (cs : List ℕ) → (c == 0) ≡ false → delivered (c ∷ cs) ≡ (c % 2 ^ 8) ∷ delivered cs
delivered_cons c cs nz = rw nz

next_char_idle : (s : Cons) → (s.rpos == s.wpos) ≡ true → next_char s ≡ (0, s)
unfolding next_char
next_char_idle s e = rw e

next_char_busy :
    (s : Cons)
    → (s.rpos == s.wpos) ≡ false
    → next_char s ≡ (get_or s.buf s.rpos 0, record s { rpos = advance s.rpos })
unfolding next_char
next_char_busy s e = rw e

fetched-IsValid : (s : Cons) → IsValid s → IsValid (record s { rpos = advance s.rpos })
unfolding advance
fetched-IsValid s v = ground arith

waiting_full : (c : ℕ) (s : Cons) → IsValid s → waiting s ≡ 511 → waiting (taken c s) ≡ 0
unfolding advance
waiting_full c s v full = ground arith

waiting-fetched :
    (s : Cons)
    → IsValid s
    → (s.rpos == s.wpos) ≡ false
    → waiting s ≡ suc (waiting (record s { rpos = advance s.rpos }))
unfolding advance
waiting-fetched s v e = ground arith

-- As long as fewer than 512 characters wait, `cons_intr` appends what the device delivers, in order,
-- and leaves the zeros out.
pub cons_intr-contents :
    (cs : List ℕ) (s : Cons)
    → IsValid s
    → waiting s + length (delivered cs) < cons_buf_size
    → contents (cons_intr cs s) ≡ contents s ++ delivered cs
unfolding cons_intr
cons_intr-contents [] s v room = sym (append-nil (contents s))
cons_intr-contents (c ∷ cs) s v room = elim (Bool-cases (c == 0)) [
  | inl z ↦
      ap (λ t. contents (cons_intr cs t)) (take_in_zero c s (ground arith))
      ∙ cons_intr-contents cs s v (ground arith)
      ∙ ap (λ l. contents s ++ l) (sym (delivered_zero c cs z))
  | inr nz ↦
      let ne : c ≢ 0 = ground arith in
      let fits : waiting s + 1 + length (delivered cs) < cons_buf_size = ground arith in
      let more : waiting (take_in c s) ≡ suc (waiting s) =
        ap waiting (take_in-taken c s ne) ∙ waiting-taken c s v (omega arith) in
      cons_intr-contents cs (take_in c s) (take_in-IsValid c s v) (omega arith)
      ∙ ap (λ l. l ++ delivered cs) (take_in-contents c s v ne (omega arith))
      ∙ append_assoc (contents s) ((c % 2 ^ 8) ∷ []) (delivered cs)
      ∙ ap (λ l. contents s ++ l) (sym (delivered_cons c cs nz))
]

-- The state behind the oldest character.
abbrev fetched : Cons → Cons
fetched s = record s { rpos = advance s.rpos }

items-fetched :
    (s : Cons) (n : ℕ)
    → IsValid s
    → items (at s) (suc n) ≡ get_or s.buf s.rpos 0 ∷ items (at (fetched s)) n
unfolding advance
items-fetched s n v =
    ap₂ ◌∷◌
      (ap (λ i. get_or s.buf i 0) {x = (s.rpos + 0) % cons_buf_size} {y = s.rpos} (omega arith))
      (items_ext (λ i. at s (i + 1)) (at (fetched s)) n
        (λ i lt. ap (λ j. get_or s.buf j 0) (ground arith)))

-- `cons_getc` without new input returns 0 and changes nothing if no character waits, and otherwise
-- returns the oldest one and leaves the others; the buffer stays valid.
pub next_char_lem :
    (s : Cons)
    → IsValid s
    → IsValid (next_char s).1
      × ((contents s ≡ []) × (next_char s ≡ (0, s))
          ⊎ (contents s ≡ (next_char s).0 ∷ contents (next_char s).1))
next_char_lem s v = elim (Bool-cases (s.rpos == s.wpos)) [
  | inl e ↦
      let idle = next_char_idle s e in
      let none : waiting s ≡ 0 = ground arith in (rw idle v, inl (ap (items (at s)) none, idle))
  | inr e ↦
      let busy = next_char_busy s e in
      (
        rw busy (fetched-IsValid s v),
        inr (rw busy (ap (items (at s)) (waiting-fetched s v e) ∙ items-fetched s _ v)),
      )
]

-- A character that comes when 511 wait makes the buffer look empty: all 512 are lost.
pub take_in_overflow :
    (c : ℕ) (s : Cons) → IsValid s → c ≢ 0 → waiting s ≡ 511 → contents (take_in c s) ≡ []
take_in_overflow c s v ne full =
    ap contents (take_in-taken c s ne) ∙ ap (items (at (taken c s))) (waiting_full c s v full)
