-- ===== src/Format/Vprintfmt/Escapes.antt =====
-- What single escapes put: `%08x`, `%u`, `%s` and `%.*s`.
use jos.Prelude.{
  ℕ, zero, suc, ◌-◌, ◌^◌, ◌<◌, ◌≡◌, ◌≢◌, refl, ◌∙◌, List, [], ◌∷◌, ◌++◌, length, length-take, take,
  map, ◌==◌, false, arith,
}
use jos.Prelude.Int.{pos}
use jos.Memory.{Mem, CString}
use jos.Console.Output.Sent.{AllBytes}
use jos.Format.{Result, ok, ◌>>=◌, Spec, fresh, Args}
use jos.Format.Numeral.Padded.{hex_digits, printnum-hex_digits}
use jos.Format.Text.{put_text, shown, extend_char, to_size}
use jos.Format.Text.Laws.{put_text_lem}
use jos.Format.Vprintfmt.{Literals, getuint, number, string_arg, escape}
use jos.Format.Vprintfmt.Laws.{signed32-pos}

pub escape_hex :
    (lits : Literals) (k : ℕ) (m : Mem) (again : List ℕ → Args → Result (List ℕ)) (fmt : List ℕ)
    (w : ℕ) (args : Args)
    → w < 2 ^ 32
    → escape lits k m again (w ∷ args) (b'0' ∷ b'8' ∷ b'x' ∷ fmt)
      ≡ (again fmt args >>= λ rest. ok (hex_digits 8 w ++ rest))
unfolding escape getuint number
escape_hex lits k m again fmt w args h = rw (printnum-hex_digits 64 w 7 (omega arith) h) refl

pub escape_octal :
    (lits : Literals) (k : ℕ) (m : Mem) (again : List ℕ → Args → Result (List ℕ)) (fmt : List ℕ)
    (w : ℕ) (args : Args) (ds : List ℕ)
    → number w 8 fresh ≡ ok ds
    → escape lits k m again (w ∷ args) (b'o' ∷ fmt) ≡ (again fmt args >>= λ rest. ok (ds ++ rest))
unfolding escape getuint
escape_octal lits k m again fmt w args ds run = rw run refl

pub escape_unsigned :
    (lits : Literals) (k : ℕ) (m : Mem) (again : List ℕ → Args → Result (List ℕ)) (fmt : List ℕ)
    (w : ℕ) (args : Args) (ds : List ℕ)
    → number w 10 fresh ≡ ok ds
    → escape lits k m again (w ∷ args) (b'u' ∷ fmt) ≡ (again fmt args >>= λ rest. ok (ds ++ rest))
unfolding escape getuint
escape_unsigned lits k m again fmt w args ds run = rw run refl

-- `%s`, and `%.*s` with a precision that is not negative.
pub escape_string :
    (lits : Literals) (k : ℕ) (m : Mem) (again : List ℕ → Args → Result (List ℕ)) (fmt : List ℕ)
    (p : ℕ) (args : Args) (text : List ℕ)
    → p ≢ 0
    → put_text k m p fresh ≡ ok text
    → escape lits k m again (p ∷ args) (b's' ∷ fmt) ≡ (again fmt args >>= λ rest. ok (text ++ rest))
unfolding escape string_arg
escape_string lits k m again fmt p args text ne run =
    let live : (p == 0) ≡ false = ground arith in rw (live, run) refl

abbrev pub limited : ℕ → Spec
limited n = record fresh { width = pos 0; precision = pos n }

pub escape-limited :
    (lits : Literals) (k : ℕ) (m : Mem) (again : List ℕ → Args → Result (List ℕ)) (fmt : List ℕ)
    (n p : ℕ) (args : Args) (text : List ℕ)
    → n < 2 ^ 31
    → p ≢ 0
    → put_text k m p (limited n) ≡ ok text
    → escape lits k m again (n ∷ p ∷ args) (b'.' ∷ b'*' ∷ b's' ∷ fmt)
      ≡ (again fmt args >>= λ rest. ok (text ++ rest))
unfolding escape string_arg
escape-limited lits k m again fmt n p args text small ne run =
    let live : (p == 0) ≡ false = ground arith in rw (signed32-pos n small, live, run) refl

-- A text of ASCII characters is put as it stands.
abbrev pub IsAscii : List ℕ → Type 0
IsAscii [] = Unit {0}
IsAscii (c ∷ s) = (c < 128) × IsAscii s

pub IsAscii-take : (n : ℕ) (s : List ℕ) → IsAscii s → IsAscii (take n s)
IsAscii-take zero s h = tt
IsAscii-take (suc n) [] h = tt
IsAscii-take (suc n) (c ∷ s) (lt, h) = (lt, IsAscii-take n s h)

plain_char : (c : ℕ) → c < 128 → extend_char c ≡ c
unfolding extend_char
plain_char c h = ground arith

map-shown : (s : List ℕ) → IsAscii s → map (shown false) s ≡ s
unfolding shown
map-shown [] h = refl
map-shown (c ∷ s) (lt, h) =
    let same : extend_char c ≡ c = plain_char c lt in rw (same, map-shown s h) refl

pub put_text-fresh :
    (k : ℕ) (m : Mem) (p : ℕ) (s : List ℕ)
    → CString m p s
    → IsAscii s
    → length s < k
    → length s < 2 ^ 32
    → put_text k m p fresh ≡ ok s
unfolding to_size
put_text-fresh k m p s string ascii fuel short =
    let none : 0 - length s ≡ 0 = omega arith in
    put_text_lem k m p fresh s string fuel (omega arith) ∙ rw (none, map-shown s ascii) refl

pub put_text-limited :
    (k : ℕ) (m : Mem) (p n : ℕ) (s : List ℕ)
    → CString m p s
    → IsAscii s
    → length s < k
    → put_text k m p (limited n) ≡ ok (take n s)
unfolding to_size
put_text-limited k m p n s string ascii fuel =
    let none : 0 - length (take n s) ≡ 0 = omega arith in
    put_text_lem k m p (limited n) s string fuel (omega (arith, length-take n s))
    ∙ rw (none, map-shown (take n s) (IsAscii-take n s ascii)) refl

pub IsAscii-AllBytes : (s : List ℕ) → IsAscii s → AllBytes s
IsAscii-AllBytes [] h = tt
IsAscii-AllBytes (c ∷ s) (lt, h) = (omega arith, IsAscii-AllBytes s h)
