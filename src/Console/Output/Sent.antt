-- ===== src/Console/Output/Sent.antt =====
-- What the serial port is sent: the printed bytes, and five spaces behind each tab.
use mathlib.Core.List.{append-nil, append_assoc}
use mathlib.Core.Path.{subst}
use jos.Prelude.{
  ℕ, ◌+◌, ◌*◌, ◌%◌, ◌^◌, ◌<◌, ◌≡◌, ◌≢◌, refl, ap, sym, ◌∙◌, List, [], ◌∷◌, ◌++◌, ◌==◌, true, false,
  if◌then◌else◌, Bool-cases, inl, inr, bit_or, ◌&&◌, arith,
}
use jos.Prelude.Bits.{bit_or_low, bit_or_shifted}
use jos.Console.Crt.{Crt, attributed, put_cell, scroll}
use jos.Console.Output.{
  Outb, Machine, serial_putc, lpt_putc, show_cursor, cga_with, cons_with, put_space, put_tab,
  finish, cons_putc, cputchar,
}

-- The bytes written to the data register of the serial port.
abbrev pub serial : List Outb → List ℕ
serial [] = []
serial (w ∷ ws) = let rest = serial ws in if w.port == 0x3F8 then w.value ∷ rest else rest

abbrev spaces : List ℕ
spaces = b' ' ∷ b' ' ∷ b' ' ∷ b' ' ∷ b' ' ∷ []

-- What is sent for the bytes of a text.
abbrev pub echoed : List ℕ → List ℕ
echoed [] = []
echoed (c ∷ text) = let rest = echoed text in if c == 9 then c ∷ (spaces ++ rest) else c ∷ rest

abbrev pub AllBytes : List ℕ → Type 0
AllBytes [] = Unit {0}
AllBytes (c ∷ text) = (c < 2 ^ 8) × AllBytes text

serial-append : (ws vs : List Outb) → serial (ws ++ vs) ≡ serial ws ++ serial vs
serial-append [] vs = refl
serial-append (w ∷ ws) vs = elim (Bool-cases (w.port == 0x3F8)) [
  | inl e ↦ rw e (ap (λ l. w.value ∷ l) (serial-append ws vs))
  | inr e ↦ rw e (serial-append ws vs)
]

attributed_low : (s : Crt) (c : ℕ) → c < 2 ^ 8 → attributed s c % 2 ^ 8 ≡ c
unfolding attributed
attributed_low s c h = elim (Bool-cases (s.bg == 0 && s.fg == 0)) [
  | inl e ↦ rw e (omega (arith, bit_or_low 8 7 c h))
  | inr e ↦
      let q = bit_or s.fg (s.bg * 2 ^ 4) in
      let high : bit_or (s.fg * 2 ^ 8) (s.bg * 2 ^ 12) ≡ q * 2 ^ 8 =
        ap (λ x. bit_or (s.fg * 2 ^ 8) x) (omega arith) ∙ bit_or_shifted 8 s.fg (s.bg * 2 ^ 4) in
      rw (e, high) (omega (arith, bit_or_low 8 q c h))
]

-- The machine `t` comes from `s` by sending `bytes`.
abbrev pub Sends : List ℕ → Machine → Machine → Type 0
Sends bytes s t = (serial t.written ≡ serial s.written ++ bytes) × (t.addr_6845 ≡ s.addr_6845)

-- The two registers of the 6845 are not the serial port's.
abbrev pub Apart : Machine → Type 0
Apart s = (s.addr_6845 ≢ 0x3F8) × (s.addr_6845 + 1 ≢ 0x3F8)

pub Sends-nothing : (s : Machine) → Sends [] s s
Sends-nothing s = (sym (append-nil (serial s.written)), refl)

pub Sends-append :
    (xs ys : List ℕ) (s t u : Machine) → Sends xs s t → Sends ys t u → Sends (xs ++ ys) s u
Sends-append xs ys s t u (e, a) (e', a') =
    (e' ∙ ap (λ l. l ++ ys) e ∙ append_assoc (serial s.written) xs ys, a' ∙ a)

Sends-show_cursor : (s : Machine) → Apart s → Sends [] s (show_cursor s)
unfolding show_cursor
Sends-show_cursor s (n, n') =
    let e : (s.addr_6845 == 0x3F8) ≡ false = ground arith in
    let e' : (s.addr_6845 + 1 == 0x3F8) ≡ false = ground arith in
    (serial-append s.written _ ∙ ap (λ l. serial s.written ++ l) (rw (e, e') refl), refl)

Sends-serial_putc : (c : ℕ) (s : Machine) → Sends (c % 2 ^ 8 ∷ []) s (serial_putc c s)
unfolding serial_putc
Sends-serial_putc c s = (serial-append s.written _, refl)

Sends-lpt_putc : (c : ℕ) (s : Machine) → Sends [] s (lpt_putc c s)
unfolding lpt_putc
Sends-lpt_putc c s = (serial-append s.written _, refl)

pub Apart-moved : (s t : Machine) → t.addr_6845 ≡ s.addr_6845 → Apart s → Apart t
Apart-moved s t a (n, n') = (λ x. n (sym a ∙ x), λ x. n' (ap (λ (r : ℕ). r + 1) (sym a) ∙ x))

Sends-finish : (xs : List ℕ) (s t : Machine) → Apart s → Sends xs s t → Sends xs s (finish t)
unfolding finish
Sends-finish xs s t apart (e, a) =
    let (f, b) =
      Sends-show_cursor (record t { crt = scroll t.crt })
        (Apart-moved s (record t { crt = scroll t.crt }) a apart) in
    (f ∙ append-nil (serial t.written) ∙ e, b ∙ a)

module _ (tab : Machine → Machine) (extra : List ℕ)
    (sends : (s : Machine) → Apart s → Sends extra s (tab s)) where
  Sends-cga_with :
      (c : ℕ) (s : Machine)
      → c < 2 ^ 8
      → Apart s
      → Sends (if c == 9 then extra else []) s (cga_with tab c s)
  unfolding cga_with
  Sends-cga_with c s h apart =
      let low = attributed_low s.crt c h in
      elim (Bool-cases (c == 9)) [
        | inl e ↦
            let e' : (attributed s.crt c % 2 ^ 8 == 9) ≡ true = ap (λ x. x == 9) low ∙ e in
            rw (e, e') (Sends-finish extra s (tab s) apart (sends s apart))
        | inr e ↦
            let e' : (attributed s.crt c % 2 ^ 8 == 9) ≡ false = ap (λ x. x == 9) low ∙ e in
            rw (e, e')
              (Sends-finish [] s (record s { crt = put_cell (attributed s.crt c) s.crt }) apart
                (sym (append-nil (serial s.written)), refl))
      ]

  Sends-cons_with :
      (c : ℕ) (s : Machine)
      → c < 2 ^ 8
      → Apart s
      → Sends (c ∷ (if c == 9 then extra else [])) s (cons_with tab c s)
  unfolding cons_with
  Sends-cons_with c s h apart =
      let s1 = serial_putc c s in
      let s2 = lpt_putc c s1 in
      let one = Sends-serial_putc c s in
      let two = Sends-append (c % 2 ^ 8 ∷ []) [] s s1 s2 one (Sends-lpt_putc c s1) in
      let apart' = Apart-moved s s2 two.1 apart in
      let low : c % 2 ^ 8 ≡ c = omega arith in
      subst (λ d. Sends (d ∷ (if c == 9 then extra else [])) s (cons_with tab c s)) low
        (Sends-append (c % 2 ^ 8 ∷ []) (if c == 9 then extra else []) s s2 (cons_with tab c s) two
          (Sends-cga_with c s2 h apart'))

Sends-put_space : (s : Machine) → Apart s → Sends (b' ' ∷ []) s (put_space s)
unfolding put_space
Sends-put_space s apart =
    Sends-cons_with (λ t. t) [] (λ t apart'. Sends-nothing t) b' ' s (omega arith) apart

-- One more space.
more :
    (xs : List ℕ) (s t : Machine) → Apart s → Sends xs s t → Sends (xs ++ b' ' ∷ []) s (put_space t)
more xs s t apart h =
    Sends-append xs (b' ' ∷ []) s t (put_space t) h (Sends-put_space t (Apart-moved s t h.1 apart))

Sends-put_tab : (s : Machine) → Apart s → Sends spaces s (put_tab s)
unfolding put_tab
Sends-put_tab s apart =
    let s1 = put_space s in
    let s2 = put_space s1 in
    let s3 = put_space s2 in
    let s4 = put_space s3 in
    let one = Sends-put_space s apart in
    let two = more (b' ' ∷ []) s s1 apart one in
    let three = more (b' ' ∷ b' ' ∷ []) s s2 apart two in
    let four = more (b' ' ∷ b' ' ∷ b' ' ∷ []) s s3 apart three in
    more (b' ' ∷ b' ' ∷ b' ' ∷ b' ' ∷ []) s s4 apart four

-- The character is sent, and five spaces behind it if it is a tab.
Sends-cputchar :
    (c : ℕ) (s : Machine)
    → c < 2 ^ 8
    → Apart s
    → Sends (c ∷ (if c == 9 then spaces else [])) s (cputchar c s)
unfolding cputchar cons_putc
Sends-cputchar = Sends-cons_with put_tab spaces Sends-put_tab

-- Each character of a text, one after the other.
abbrev pub put_line : List ℕ → Machine → Machine
put_line [] s = s
put_line (c ∷ text) s = put_line text (cputchar c s)

pub put_line-put_line :
    (xs ys : List ℕ) (s : Machine) → put_line (xs ++ ys) s ≡ put_line ys (put_line xs s)
put_line-put_line [] ys s = refl
put_line-put_line (c ∷ xs) ys s = put_line-put_line xs ys (cputchar c s)

pub echoed-echoed : (xs ys : List ℕ) → echoed (xs ++ ys) ≡ echoed xs ++ echoed ys
echoed-echoed [] ys = refl
echoed-echoed (c ∷ xs) ys = ground (arith, echoed-echoed xs ys)

pub AllBytes-append : (xs ys : List ℕ) → AllBytes xs → AllBytes ys → AllBytes (xs ++ ys)
AllBytes-append [] ys h h' = h'
AllBytes-append (c ∷ xs) ys (b, h) h' = (b, AllBytes-append xs ys h h')

echoed-append :
    (c : ℕ) (text : List ℕ)
    → (c ∷ (if c == 9 then spaces else [])) ++ echoed text ≡ echoed (c ∷ text)
echoed-append c text = ground arith

pub Sends-put_line :
    (text : List ℕ) (s : Machine)
    → AllBytes text
    → Apart s
    → Sends (echoed text) s (put_line text s)
Sends-put_line [] s bytes apart = Sends-nothing s
Sends-put_line (c ∷ text) s (byte, bytes) apart =
    let s' = cputchar c s in
    let h = Sends-cputchar c s byte apart in
    subst (λ l. Sends l s (put_line text s')) (echoed-append c text)
      (Sends-append (c ∷ (if c == 9 then spaces else [])) (echoed text) s s' (put_line text s') h
        (Sends-put_line text s' bytes (Apart-moved s s' h.1 apart)))

-- The bytes of a text that is put on the console reach the serial port in their order, with five
-- spaces behind each tab.
pub serial-put_line :
    (text : List ℕ) (s : Machine)
    → AllBytes text
    → Apart s
    → serial (put_line text s).written ≡ serial s.written ++ echoed text
serial-put_line text s bytes apart = (Sends-put_line text s bytes apart).0
