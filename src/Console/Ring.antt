-- ===== src/Console/Ring.antt =====
-- The console input buffer of kern/console.c: `cons_intr` and `cons_getc`.
-- A device's routine `proc` is the list of the values that it returns until it returns -1.
pub mod Queue
use jos.Prelude.{ℕ, ◌+◌, ◌%◌, ◌^◌, List, [], ◌∷◌, set, get_or, ◌==◌, if◌then◌else◌}

abbrev pub cons_buf_size : ℕ
cons_buf_size = 512

pub record Cons : Type 0 where
  pub buf : List ℕ
  pub rpos : ℕ
  pub wpos : ℕ

-- `pos++`, and back to 0 at the end of the buffer
unfoldable pub advance : ℕ → ℕ
advance pos = if pos + 1 == cons_buf_size then 0 else pos + 1

-- One round of the loop of `cons_intr`; 0 is what a device returns for no character.
unfoldable pub take_in : ℕ → Cons → Cons
unfolding advance
take_in c s =
    if c == 0 then s else record s { buf = set s.buf s.wpos (c % 2 ^ 8); wpos = advance s.wpos }

unfoldable pub cons_intr : List ℕ → Cons → Cons
cons_intr [] s = s
cons_intr (c ∷ cs) s = cons_intr cs (take_in c s)

-- The end of `cons_getc`, behind the polling of the devices.
unfoldable pub next_char : Cons → ℕ × Cons
unfolding advance
next_char s =
    if s.rpos == s.wpos then (0, s) else (get_or s.buf s.rpos 0, record s { rpos = advance s.rpos })

-- `cons_getc` polls the serial port and then the keyboard; a serial port that does not exist is not
-- polled, which gives no values.
unfoldable pub cons_getc : List ℕ → List ℕ → Cons → ℕ × Cons
unfolding cons_intr next_char
cons_getc serial kbd s = next_char (cons_intr kbd (cons_intr serial s))

-- `getchar` waits until `cons_getc` returns a character: `polls` is what the devices return at each
-- call, and the rest of it is what they return later; 0 stands for a wait that is not over.
unfoldable pub getchar : List (List ℕ × List ℕ) → Cons → ℕ × List (List ℕ × List ℕ) × Cons
unfolding cons_getc
getchar [] s = (0, [], s)
getchar ((serial, kbd) ∷ polls) s =
    let (c, s') = cons_getc serial kbd s in
    let rest = getchar polls s' in if c == 0 then rest else (c, polls, s')
