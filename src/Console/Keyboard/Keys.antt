-- ===== src/Console/Keyboard/Keys.antt =====
-- What the keys do: the modifiers, the letters, the keys behind an escape, and the reboot.
-- The facts on one event are checked for all states and scan codes.
use jos.Prelude.{
  ℕ, ◌+◌, ◌-◌, ◌<◌, ◌≡◌, refl, ap, sym, Bool, true, false, ◌&&◌, ◌||◌, not, ◌==◌, ==_iff, ltb, leb,
  ltb→lt, if◌then◌else◌, bit_and, bit_xor, arith, inl, inr, Option-cases, some, List, [], ◌∷◌,
}
use jos.Prelude.Table.{all_below, all_below_at}
use jos.Console.Keyboard.{
  Outcome, key_event, kbd_proc_data, kbd_values, shiftcode, togglecode, normalmap, charcode,
  shift_key, ctl, alt, capslock, e0esc,
}

-- A fact on all pairs of a state and a scan code.
all_pairs : ℕ → ℕ → (ℕ → ℕ → Bool) → Bool
unfolding all_below
all_pairs n k p = all_below n (λ shift. all_below k (p shift))

all_pairs_at :
    (n k : ℕ) (p : ℕ → ℕ → Bool) (shift code : ℕ)
    → all_pairs n k p ≡ true
    → shift < n
    → code < k
    → p shift code ≡ true
unfolding all_pairs
all_pairs_at n k p shift code h lt lt' =
    all_below_at k (p shift) code (all_below_at n (λ shift. all_below k (p shift)) shift h lt) lt'

bounded : ℕ → ℕ → Bool
unfolding key_event
bounded shift code = let o = key_event code shift in ltb o.shift 128 && ltb o.c 256

bounded_table : all_pairs 128 256 bounded ≡ true
unfolding all_pairs bounded
bounded_table = refl

-- The modifiers of a state.
abbrev pub has : ℕ → ℕ → Bool
has mask shift = bit_and shift mask == mask

restored : ℕ → ℕ → Bool
unfolding key_event togglecode shiftcode
restored shift code =
    not (bit_and shift (shiftcode code) == 0)
    || ((key_event (code + 128) (key_event code shift).shift).shift
        == bit_xor shift (togglecode code))

restored_table : all_pairs 64 96 restored ≡ true
unfolding all_pairs restored
restored_table = refl

abbrev pub is_letter : ℕ → Bool
is_letter c = leb b'a' c && leb c b'z'

letter : ℕ → ℕ → Bool
unfolding key_event normalmap
letter shift code =
    not (bit_and shift ctl == 0)
    || (not (is_letter (normalmap code))
        || ((key_event code shift).c == (
            if has shift_key shift
            then (if has capslock shift then normalmap code else normalmap code - 32)
            else (if has capslock shift then normalmap code - 32 else normalmap code))))

letter_table : all_pairs 64 128 letter ≡ true
unfolding all_pairs letter
letter_table = refl

escaped : ℕ → ℕ → Bool
unfolding key_event shiftcode charcode
escaped shift code =
    let o = key_event code (key_event 0xE0 shift).shift in
    not (shiftcode (code + 128) == 0)
    || (o.shift == shift && (o.c == charcode (bit_and shift (ctl + shift_key)) (code + 128)))

escaped_table : all_pairs 64 128 escaped ≡ true
unfolding all_pairs escaped
escaped_table = refl

same : Bool → Bool → Bool
same true b = b
same false b = not b

rebooting : ℕ → ℕ → Bool
unfolding key_event same
rebooting shift code =
    same (key_event code shift).reboot (code == 0x53 && has (ctl + alt + e0esc) shift)

rebooting_table : all_pairs 128 256 rebooting ≡ true
unfolding all_pairs rebooting
rebooting_table = refl

Bool-or : (a b : Bool) → (a || b) ≡ true → a ≡ false → b ≡ true
Bool-or true b h isnt = absurd (ground arith)
Bool-or false b h isnt = h

Bool-both : (a b : Bool) → (a && b) ≡ true → (a ≡ true) × (b ≡ true)
Bool-both true b h = (refl, h)
Bool-both false b h = absurd (ground arith)

==_true : (a b : ℕ) → a ≡ b → not (a == b) ≡ false
==_true a b e = ground arith

-- From a state without an escape, pressing and releasing a key below 96 whose modifier is not held
-- leaves the state as it was, but for the lock that the key toggles.
pub release-press :
    (shift code : ℕ)
    → shift < 64
    → code < 96
    → bit_and shift (shiftcode code) ≡ 0
    → (key_event (code + 128) (key_event code shift).shift).shift ≡ bit_xor shift (togglecode code)
unfolding restored
release-press shift code lt lt' free = (==_iff _ _).0 (
    Bool-or (not (bit_and shift (shiftcode code) == 0)) _
      (all_pairs_at 64 96 restored shift code restored_table lt lt') (==_true _ 0 free))

-- Without an escape and the control key, a letter key gives its letter, as a capital exactly when one
-- of the shift and the caps lock is on.
pub key_event-is_letter :
    (shift code : ℕ)
    → shift < 64
    → code < 128
    → bit_and shift ctl ≡ 0
    → is_letter (normalmap code) ≡ true
    → (key_event code shift).c ≡ (
        if has shift_key shift
        then (if has capslock shift then normalmap code else normalmap code - 32)
        else (if has capslock shift then normalmap code - 32 else normalmap code))
unfolding letter
key_event-is_letter shift code lt lt' free is = (==_iff _ _).0 (
    Bool-or (not (is_letter (normalmap code))) _
      (Bool-or (not (bit_and shift ctl == 0)) _
        (all_pairs_at 64 128 letter shift code letter_table lt lt') (==_true _ 0 free))
      (ap not is))

-- A key that is no modifier, pressed behind the escape 0xE0, gives the entry of the second half of the
-- table that the shift and control keys choose, whatever the caps lock, and the escape is taken off.
key_event-escape :
    (shift code : ℕ)
    → shift < 64
    → code < 128
    → shiftcode (code + 128) ≡ 0
    → ((key_event code (key_event 0xE0 shift).shift).shift ≡ shift)
      × ((key_event code (key_event 0xE0 shift).shift).c
          ≡ charcode (bit_and shift (ctl + shift_key)) (code + 128))
unfolding escaped
key_event-escape shift code lt lt' plain =
    let (kept, c) = Bool-both _ _ (
      Bool-or (not (shiftcode (code + 128) == 0)) _
        (all_pairs_at 64 128 escaped shift code escaped_table lt lt') (==_true _ 0 plain)) in
    ((==_iff _ _).0 kept, (==_iff _ _).0 c)

same_eq : (a b : Bool) → same a b ≡ true → a ≡ b
unfolding same
same_eq true b h = sym h
same_eq false true h = absurd (ground arith)
same_eq false false h = refl

-- In every state, the machine is rebooted exactly when the key with the code 0x53 is pressed behind an
-- escape while a control and an alt key are held.
pub key_event-reboot :
    (shift code : ℕ)
    → shift < 128
    → code < 256
    → (key_event code shift).reboot ≡ (code == 0x53 && has (ctl + alt + e0esc) shift)
unfolding rebooting
key_event-reboot shift code lt lt' =
    same_eq _ _ (all_pairs_at 128 256 rebooting shift code rebooting_table lt lt')

abbrev pub Bytes : List (ℕ × ℕ) → Type 0
Bytes [] = Unit {0}
Bytes ((stat, code) ∷ reads) = (code < 256) × Bytes reads

abbrev pub AllBytes : List ℕ → Type 0
AllBytes [] = Unit {0}
AllBytes (c ∷ cs) = (c < 256) × AllBytes cs

key_event_bounds :
    (shift code : ℕ)
    → shift < 128
    → code < 256
    → ((key_event code shift).shift < 128) × ((key_event code shift).c < 256)
unfolding bounded
key_event_bounds shift code lt lt' =
    let (a, b) = Bool-both _ _ (all_pairs_at 128 256 bounded shift code bounded_table lt lt') in
    (ltb→lt _ 128 a, ltb→lt _ 256 b)

kbd_proc_data_bounds :
    (stat shift code : ℕ) (o : Outcome)
    → shift < 128
    → code < 256
    → kbd_proc_data stat code shift ≡ some o
    → (o.shift < 128) × (o.c < 256)
unfolding kbd_proc_data
kbd_proc_data_bounds stat shift code o lt lt' e =
    let keeps = key_event_bounds shift code lt lt' in ground arith

-- Whatever bytes the keyboard sends, the state stays within its seven bits and every value for the
-- input buffer is a byte.
pub kbd_values_bounds :
    (reads : List (ℕ × ℕ)) (shift : ℕ)
    → shift < 128
    → Bytes reads
    → AllBytes (kbd_values reads shift).0 × ((kbd_values reads shift).1 < 128)
unfolding kbd_values
kbd_values_bounds [] shift lt h = (tt, lt)
kbd_values_bounds ((stat, code) ∷ reads) shift lt (byte, h) =
    elim (Option-cases (kbd_proc_data stat code shift)) [
      | inl e ↦ rw (kbd_values, e) (tt, lt)
      | inr (o, e) ↦
          let (below, c) = kbd_proc_data_bounds stat shift code o lt byte e in
          let (cs, last) = kbd_values_bounds reads o.shift below h in
          rw (kbd_values, e) ((c, cs), last)
    ]
