-- ===== src/Format/Text/Laws.antt =====
-- What `%s` puts: the string up to the precision, padded to the width.
use jos.Prelude.{
  ℕ, zero, suc, ◌+◌, ◌-◌, ◌≤◌, ◌<◌, ◌≡◌, inl, inr, refl, ap, sym, ◌∙◌, Bool, List, [], ◌∷◌, ◌++◌,
  map, length, length-take, take, replicate, append-nil, ◌==◌, Bool-cases, if◌then◌else◌, arith,
  true, false, ◌&&◌, not,
}
use jos.Prelude.Int.{ℤ, pos, negsuc, ◌-ℤ◌, pos_part, ltb_ℤ, int_laws, nonneg, negative}
use jos.Memory.{Mem, CString}
use jos.Strings.{strnlen}
use jos.Strings.Measure.{strnlen_string}
use jos.Format.{Result, ok, Spec}
use jos.Format.Text.{pad_loop, to_size, shown, text_loop, pad_front, put_text}

pad_loop-replicate : (w : ℤ) (c : ℕ) → (pad_loop w c).0 ≡ replicate (pos_part w) c
unfolding pad_loop
pad_loop-replicate (pos zero) c = refl
pad_loop-replicate (pos (suc n)) c = ap (λ l. c ∷ l) (pad_loop-replicate (pos n) c)
pad_loop-replicate (negsuc n) c = refl

-- The width is used up behind the loop.
pad_loop-width : (w : ℤ) (c : ℕ) → pos_part (pad_loop w c).1 ≡ 0
unfolding pad_loop
pad_loop-width (pos zero) c = refl
pad_loop-width (pos (suc n)) c = pad_loop-width (pos n) c
pad_loop-width (negsuc n) c = refl

-- The bytes of a string that a precision lets through; a negative one lets all through.
abbrev pub upto : ℤ → List ℕ → List ℕ
upto (pos n) s = take n s
upto (negsuc n) s = s

-- The result of `text_loop` for those bytes.
abbrev shows : Bool → ℤ → List ℕ → Result (List ℕ × ℤ)
shows altflag width s = ok (map (shown altflag) s, width -ℤ pos (length s))

sub_zero : (w : ℤ) → w -ℤ pos 0 ≡ w
sub_zero w = omega int_laws

sub_suc : (w : ℤ) (n : ℕ) → w -ℤ pos 1 -ℤ pos n ≡ w -ℤ pos (suc n)
sub_suc w n = omega int_laws

pred_pos : (n : ℕ) → pos (suc n) -ℤ pos 1 ≡ pos n
pred_pos n = omega int_laws

take_nil : (n : ℕ) → take {A = ℕ} n [] ≡ []
take_nil zero = refl
take_nil (suc n) = refl

shows-cons :
    (altflag : Bool) (width : ℤ) (b c : ℕ) (s : List ℕ)
    → b ≡ c
    → ◌≡◌ {A = Result (List ℕ × ℤ)}
        (ok (shown altflag b ∷ map (shown altflag) s, width -ℤ pos 1 -ℤ pos (length s)))
        (shows altflag width (c ∷ s))
shows-cons altflag width b c s e = rw (e, sub_suc width (length s))

text_loop_lem :
    (k : ℕ) (m : Mem) (p : ℕ) (altflag : Bool) (precision width : ℤ) (s : List ℕ)
    → CString m p s
    → length s < k
    → text_loop k m p altflag precision width ≡ shows altflag width (upto precision s)
unfolding text_loop
text_loop_lem zero m p altflag precision width s h fuel = absurd (omega arith)
text_loop_lem (suc k) m p altflag (pos n) width [] h fuel = rw (h, take_nil n, sub_zero width)
text_loop_lem (suc k) m p altflag (negsuc n) width [] h fuel = rw (h, sub_zero width)
text_loop_lem (suc k) m p altflag (pos zero) width (c ∷ s) (e, ne, h) fuel =
    let live : (m p == 0) ≡ false = ground arith in rw (live, sub_zero width)
text_loop_lem (suc k) m p altflag (pos (suc n)) width (c ∷ s) (e, ne, h) fuel =
    let live : (m p == 0) ≡ false = ground arith in
    rw
      (
        live,
        nonneg (suc n),
        pred_pos n,
        nonneg n,
        text_loop_lem k m (p + 1) altflag (pos n) (width -ℤ pos 1) s h (omega arith),
      )
      (shows-cons altflag width (m p) c (take n s) e)
text_loop_lem (suc k) m p altflag (negsuc n) width (c ∷ s) (e, ne, h) fuel =
    let live : (m p == 0) ≡ false = ground arith in
    rw
      (
        live,
        negative n,
        text_loop_lem k m (p + 1) altflag (negsuc n) (width -ℤ pos 1) s h (omega arith),
      )
      (shows-cons altflag width (m p) c s e)

-- The number of pad characters that bring the text to the width.
abbrev pub missing : ℤ → List ℕ → ℕ
missing width s = pos_part width - length s

-- The padding stands behind the text for the flag `-`, and before it otherwise.
abbrev pub padded : Spec → List ℕ → List ℕ
padded s text =
    if s.padc == b'-'
    then map (shown s.altflag) text ++ replicate (missing s.width text) b' '
    else replicate (missing s.width text) s.padc ++ map (shown s.altflag) text

strnlen-upto :
    (m : Mem) (p : ℕ) (precision : ℤ) (s : List ℕ)
    → CString m p s
    → length (upto precision s) ≤ to_size precision
    → strnlen m p (to_size precision) ≡ length (upto precision s)
unfolding to_size
strnlen-upto m p (pos n) s h fits = strnlen_string m p n s h ∙ sym (length-take n s)
strnlen-upto m p (negsuc n) s h fits = strnlen_string m p _ s h ∙ omega arith

pos_part_sub : (w : ℤ) (n : ℕ) → pos_part (w -ℤ pos n) ≡ pos_part w - n
unfolding ◌-ℤ◌
pos_part_sub w n = ground arith

-- The padding behind, from the width that the first loop has left.
pad_behind : (w : ℤ) (n : ℕ) → (pad_loop (w -ℤ pos n) b' ').0 ≡ replicate (pos_part w - n) b' '
pad_behind w n = pad_loop-replicate _ b' ' ∙ ap (λ k. replicate k b' ') (pos_part_sub w n)

put_text_from :
    (k : ℕ) (m : Mem) (p : ℕ) (spec : Spec) (s : List ℕ)
    → CString m p s
    → length s < k
    → let text = upto spec.precision s in
      let (front, width) = pad_front m p spec in
      put_text k m p spec
      ≡ ok (
          front ++ (map (shown spec.altflag) text ++ replicate (pos_part width - length text) b' '))
unfolding put_text
put_text_from k m p spec s h fuel =
    let text = upto spec.precision s in
    rw (
      text_loop_lem k m p spec.altflag spec.precision (pad_front m p spec).1 s h fuel,
      pad_behind (pad_front m p spec).1 (length text),
    )

-- Whether the first loop pads.
abbrev pads_front : Spec → Bool
pads_front s = ltb_ℤ (pos 0) s.width && not (s.padc == b'-')

pad_front_some :
    (m : Mem) (p : ℕ) (spec : Spec)
    → pads_front spec ≡ true
    → ((pad_front m p spec).0
        ≡ replicate (pos_part spec.width - strnlen m p (to_size spec.precision)) spec.padc)
      × (pos_part (pad_front m p spec).1 ≡ 0)
unfolding pad_front
pad_front_some m p spec e =
    let n = strnlen m p (to_size spec.precision) in
    (
      rw e (
          pad_loop-replicate _ spec.padc
          ∙ ap (λ k. replicate k spec.padc) (pos_part_sub spec.width n)),
      rw e (pad_loop-width (spec.width -ℤ pos n) spec.padc),
    )

pad_front_none :
    (m : Mem) (p : ℕ) (spec : Spec)
    → pads_front spec ≡ false
    → pad_front m p spec ≡ ([], spec.width)
unfolding pad_front
pad_front_none m p spec e = rw e

-- The text with what is padded before and behind it, in the two cases of the first loop.
padded_some :
    (spec : Spec) (text : List ℕ) (w : ℕ)
    → pads_front spec ≡ true
    → w ≡ 0
    → replicate (missing spec.width text) spec.padc
        ++ (map (shown spec.altflag) text ++ replicate (w - length text) b' ')
      ≡ padded spec text
padded_some spec text w e z =
    let dash : (spec.padc == b'-') ≡ false = ground arith in
    let none : w - length text ≡ 0 = omega arith in rw (dash, none, append-nil)

padded_none :
    (spec : Spec) (text : List ℕ)
    → pads_front spec ≡ false
    → map (shown spec.altflag) text ++ replicate (missing spec.width text) b' ' ≡ padded spec text
padded_none spec text e = elim (Bool-cases (spec.padc == b'-')) [
  | inl dash ↦ rw dash
  | inr other ↦
      let none : missing spec.width text ≡ 0 = ground arith in rw (other, none, append-nil)
]

-- With more fuel than the string has bytes, `%s` puts the bytes of the string up to the precision,
-- each as `shown` says, padded to the width: behind, with spaces, for the flag `-`, and otherwise
-- before, with the pad character. Without a precision the length fits the `size_t` it turns into.
pub put_text_lem :
    (k : ℕ) (m : Mem) (p : ℕ) (spec : Spec) (s : List ℕ)
    → CString m p s
    → length s < k
    → length (upto spec.precision s) ≤ to_size spec.precision
    → put_text k m p spec ≡ ok (padded spec (upto spec.precision s))
unfolding put_text pad_front
put_text_lem k m p spec s h fuel fits =
    let text = upto spec.precision s in
    put_text_from k m p spec s h fuel
    ∙ ap ok (elim (Bool-cases (pads_front spec)) [
      | inl e ↦
          let (front, used) = pad_front_some m p spec e in
          ap
            (λ l.
              l
              ++ (map (shown spec.altflag) text
                  ++ replicate (pos_part (pad_front m p spec).1 - length text) b' '))
            (front
              ∙ ap (λ n. replicate (pos_part spec.width - n) spec.padc)
                  (strnlen-upto m p spec.precision s h fits))
          ∙ padded_some spec text (pos_part (pad_front m p spec).1) e used
      | inr e ↦ rw (pad_front_none m p spec e) (padded_none spec text e)
    ])
