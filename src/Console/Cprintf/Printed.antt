-- ===== src/Console/Cprintf/Printed.antt =====
-- What `cprintf` returns and what it leaves on the devices.
use jos.Prelude.{ℕ, ◌≡◌, refl, ap, sym, ◌∙◌, List, [], ◌∷◌, ◌++◌}
use mathlib.Core.Path.{subst}
use jos.Memory.{Mem}
use jos.Format.{ok, ◌>>=◌, Args}
use jos.Format.Vprintfmt.{Literals, vprintfmt}
use jos.Console.Crt.Bounds.{IsValid}
use jos.Console.Output.{Machine, cputchar}
use jos.Console.Output.Keeps.{cons_putc-IsValid}
use jos.Console.Output.Sent.{
  serial, echoed, AllBytes, Apart, put_line, Sends, Sends-append, Sends-put_line, Apart-moved,
  echoed-echoed,
}
use jos.Console.Cprintf.{put_each, vcprintf, cprintf}

put_each-put_line :
    (out : List ℕ) (cnt : ℕ) (s : Machine) → put_each out (cnt, s) ≡ (cnt, put_line out s)
unfolding put_each
put_each-put_line [] cnt s = refl
put_each-put_line (c ∷ out) cnt s = put_each-put_line out cnt (cputchar c s)

put_line-IsValid : (out : List ℕ) (s : Machine) → IsValid s.crt → IsValid (put_line out s).crt
unfolding cputchar
put_line-IsValid [] s v = v
put_line-IsValid (c ∷ out) s v = put_line-IsValid out (cputchar c s) (cons_putc-IsValid c s v)

-- From `s` to `s'` a text is printed.
pub record Prints (text : List ℕ) (s s' : Machine) : Type 0 where
  pub sent : Sends (echoed text) s s'
  pub screen : IsValid s.crt → IsValid s'.crt

pub Prints-append :
    (xs ys : List ℕ) (s t u : Machine) → Prints xs s t → Prints ys t u → Prints (xs ++ ys) s u
Prints-append xs ys s t u h h' = record {
  sent =
      subst (λ l. Sends l s u) (sym (echoed-echoed xs ys))
        (Sends-append (echoed xs) (echoed ys) s t u h.sent h'.sent);
  screen = λ v. h'.screen (h.screen v);
}

pub Prints-Apart : (xs : List ℕ) (s t : Machine) → Prints xs s t → Apart s → Apart t
Prints-Apart xs s t h apart = Apart-moved s t h.sent.1 apart

pub cprintf-Prints :
    (lits : Literals) (k : ℕ) (m : Mem) (fmt : List ℕ) (args : Args) (s : Machine) (out : List ℕ)
    → vprintfmt lits k m fmt args ≡ ok out
    → AllBytes out
    → Apart s
    → (cprintf lits k m fmt args s ≡ ok (0, put_line out s)) × Prints out s (put_line out s)
unfolding cprintf vcprintf
cprintf-Prints lits k m fmt args s out puts bytes apart = (
  ap (λ r. r >>= λ out. ok (put_each out (0, s))) puts ∙ ap ok (put_each-put_line out 0 s),
  record { sent = Sends-put_line out s bytes apart; screen = put_line-IsValid out s },
)

-- Where the format puts bytes only, `cprintf` returns 0, however many it puts; it sends them to the
-- serial port in their order, with five spaces behind each tab, and leaves a valid screen valid.
pub cprintf_lem :
    (lits : Literals) (k : ℕ) (m : Mem) (fmt : List ℕ) (args : Args) (s : Machine) (out : List ℕ)
    → vprintfmt lits k m fmt args ≡ ok out
    → AllBytes out
    → Apart s
    → IsValid s.crt
    → (s' : Machine) × (cprintf lits k m fmt args s ≡ ok (0, s'))
      × (serial s'.written ≡ serial s.written ++ echoed out)
      × IsValid s'.crt
cprintf_lem lits k m fmt args s out puts bytes apart v =
    let (run, prints) = cprintf-Prints lits k m fmt args s out puts bytes apart in
    (put_line out s, run, prints.sent.0, prints.screen v)
