-- ===== src/Tests/Keys.antt =====
-- The keyboard's theorems at concrete keys.
use jos.Prelude.{ℕ, ◌+◌, ◌≡◌, true, List, [], ◌∷◌, refl, bit_and, bit_xor, arith}
use jos.Console.Keyboard.{key_event, shiftcode, togglecode, normalmap, ctl, capslock, key_home}
use jos.Console.Keyboard.Keys.{is_letter, release-press}

caps_free : bit_and capslock (shiftcode 0x2A) ≡ 0
unfolding shiftcode
caps_free = refl

-- The left shift key while the caps lock is on
release-press_example :
    (key_event (0x2A + 128) (key_event 0x2A capslock).shift).shift
    ≡ bit_xor capslock (togglecode 0x2A)
release-press_example = release-press capslock 0x2A (omega arith) (omega arith) caps_free

q_letter : is_letter (normalmap 0x10) ≡ true
unfolding normalmap
q_letter = refl

home_free : shiftcode (0x47 + 128) ≡ 0
unfolding shiftcode
home_free = refl

-- With the control key it gives no character.
ctl_home : (key_event 0x47 (key_event 0xE0 ctl).shift).c ≡ 0
unfolding key_event
ctl_home = refl

plain_home : (key_event 0x47 (key_event 0xE0 0).shift).c ≡ key_home
unfolding key_event
plain_home = refl

-- A key is pressed and released; then nothing is left.
abbrev typed : List (ℕ × ℕ)
typed = (1, 0x10) ∷ (1, 0x90) ∷ (0, 0) ∷ []
