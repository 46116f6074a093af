-- ===== src/Format/Vprintfmt/Laws.antt =====
-- What `vprintfmt` puts for literal text and for `%d`.
use jos.Prelude.{
  ℕ, zero, suc, ◌+◌, ◌-◌, ◌^◌, ◌<◌, ◌≡◌, ◌≢◌, refl, ap, sym, ◌∙◌, List, [], ◌∷◌, ◌++◌, length,
  replicate, ◌==◌, false, ltb, if◌then◌else◌, Bool-cases, inl, inr, ltb→lt, lt→ltb, ltb→le, le→ltb,
  arith,
}
use jos.Prelude.Int.{ℤ, pos, negsuc, ltb_ℤ, nonneg, negative}
use jos.Memory.{Mem}
use jos.Format.{Result, ok, err, ◌>>=◌, fresh, Args, signed32}
use jos.Format.Numeral.Digits.{IsNumeral, printnum_lem}
use jos.Format.Vprintfmt.{Literals, getint, number, put_signed, escape, vprintfmt}

-- No character of the text is `%`.
abbrev pub Plain : List ℕ → Type 0
Plain [] = Unit {0}
Plain (c ∷ text) = (c ≢ b'%') × Plain text

bind_ok {ℓ} : {A : Type ℓ} (r : Result A) → (r >>= λ a. ok a) ≡ r
bind_ok (ok a) = refl
bind_ok (err e) = refl

bind_map :
    (r : Result (List ℕ)) (c : ℕ) (text : List ℕ)
    → ((r >>= λ rest. ok (text ++ rest)) >>= λ rest. ok (c ∷ rest))
      ≡ (r >>= λ rest. ok (c ∷ (text ++ rest)))
bind_map (ok a) c text = refl
bind_map (err e) c text = refl

abbrev abs : ℤ → ℕ
abs (pos n) = n
abs (negsuc n) = suc n

vprintfmt_plain :
    (lits : Literals) (k : ℕ) (m : Mem) (c : ℕ) (fmt : List ℕ) (args : Args)
    → c ≢ b'%'
    → vprintfmt lits (suc k) m (c ∷ fmt) args
      ≡ (vprintfmt lits k m fmt args >>= λ rest. ok (c ∷ rest))
unfolding vprintfmt
vprintfmt_plain lits k m c fmt args ne =
    let live : (c == b'%') ≡ false = ground arith in
    ap
      (λ b.
        if b
        then escape lits (suc k) m (vprintfmt lits k m) args fmt
        else (vprintfmt lits k m fmt args >>= λ rest. ok (c ∷ rest)))
      live

pub vprintfmt-escape :
    (lits : Literals) (k : ℕ) (m : Mem) (fmt : List ℕ) (args : Args)
    → vprintfmt lits (suc k) m (b'%' ∷ fmt) args
      ≡ escape lits (suc k) m (vprintfmt lits k m) args fmt
unfolding vprintfmt
vprintfmt-escape lits k m fmt args = refl

-- Text without `%` is put as it stands, before what the rest of the format puts.
pub vprintfmt-append :
    (lits : Literals) (k : ℕ) (m : Mem) (text fmt : List ℕ) (args : Args)
    → Plain text
    → vprintfmt lits (length text + k) m (text ++ fmt) args
      ≡ (vprintfmt lits k m fmt args >>= λ rest. ok (text ++ rest))
vprintfmt-append lits k m [] fmt args h =
    let e : 0 + k ≡ k = omega arith in rw e (sym (bind_ok (vprintfmt lits k m fmt args)))
vprintfmt-append lits k m (c ∷ text) fmt args (ne, h) =
    let e : suc (length text) + k ≡ suc (length text + k) = omega arith in
    rw
      (
        e,
        vprintfmt_plain lits (length text + k) m c (text ++ fmt) args ne,
        vprintfmt-append lits k m text fmt args h,
      )
      (bind_map (vprintfmt lits k m fmt args) c text)

-- Text without `%` is put as it is.
pub vprintfmt_text :
    (lits : Literals) (k : ℕ) (m : Mem) (text : List ℕ) (args : Args)
    → Plain text
    → length text < k
    → vprintfmt lits k m text args ≡ ok text
unfolding vprintfmt
vprintfmt_text lits zero m text args h lt = absurd (omega arith)
vprintfmt_text lits (suc k) m [] args h lt = refl
vprintfmt_text lits (suc k) m (c ∷ text) args (ne, h) lt =
    vprintfmt_plain lits k m c text args ne
    ∙ ap (λ r. r >>= λ rest. ok (c ∷ rest)) (vprintfmt_text lits k m text args h (omega arith))

-- The sign and the digits of `%d`.
pub record IsDecimal (n : ℤ) (out : List ℕ) : Type 0 where
  pub digits : List ℕ
  pub shape : out ≡ (if ltb_ℤ n (pos 0) then b'-' ∷ digits else digits)
  pub numeral : IsNumeral 10 (abs n) digits

pub signed32-pos : (x : ℕ) → x < 2 ^ 31 → signed32 x ≡ pos x
unfolding signed32
signed32-pos x h = rw (lt→ltb x (2 ^ 31) h) refl

-- The sign extension of a word to 64 bits.
abbrev pub extended : ℕ → ℕ
extended w = if ltb w (2 ^ 31) then w else w + (2 ^ 64 - 2 ^ 32)

-- `%d` as it stands, with no flag.
pub escape_decimal :
    (lits : Literals) (k : ℕ) (m : Mem) (again : List ℕ → Args → Result (List ℕ)) (fmt : List ℕ)
    (w : ℕ) (args : Args) (out : List ℕ)
    → put_signed (extended w) fresh ≡ ok out
    → escape lits k m again (w ∷ args) (b'd' ∷ fmt) ≡ (again fmt args >>= λ rest. ok (out ++ rest))
unfolding escape getint
escape_decimal lits k m again fmt w args out run = rw run

pub number-fresh :
    (n : ℕ) → n < 2 ^ 64 → (ds : List ℕ) × (number n 10 fresh ≡ ok ds) × IsNumeral 10 n ds
unfolding number
number-fresh n h =
    let (ds, run, is) =
      printnum_lem 64 n 10 (negsuc 0) b' ' (omega arith) (omega arith) (omega arith) h in
    let none : 0 - length ds ≡ 0 = omega arith in
    (ds, run ∙ ap (λ k. ok (replicate k b' ' ++ ds)) none, is)

pub put_signed_lem :
    (w : ℕ)
    → w < 2 ^ 32
    → (out : List ℕ) × IsDecimal (signed32 w) out × (put_signed (extended w) fresh ≡ ok out)
unfolding put_signed signed32
put_signed_lem w h = elim (Bool-cases (ltb w (2 ^ 31))) [
  | inl e ↦
      let (ds, run, is) = number-fresh w (omega arith) in
      let small = lt→ltb w (2 ^ 63) (omega (arith, ltb→lt w (2 ^ 31) e)) in
      (ds, rw e (record { digits = ds; shape = rw nonneg; numeral = is }), rw (e, small) run)
  | inr e ↦
      let wide = ltb→le w (2 ^ 31) e in
      let (ds, run, is) = number-fresh (2 ^ 32 - w) (omega arith) in
      let big = le→ltb (w + (2 ^ 64 - 2 ^ 32)) (2 ^ 63) (omega arith) in
      let same : 2 ^ 64 - (w + (2 ^ 64 - 2 ^ 32)) ≡ 2 ^ 32 - w = omega arith in
      let same' : suc (2 ^ 32 - w - 1) ≡ 2 ^ 32 - w = omega arith in
      (
        b'-' ∷ ds,
        rw e (record { digits = ds; shape = rw negative; numeral = rw same' is }),
        rw (e, big, same, run),
      )
]

-- `%d` takes one argument word and puts the decimal numeral of the integer that it stands for, a
-- minus sign before a negative one; the rest of the format follows, with the arguments that are left.
pub vprintfmt-IsDecimal :
    (lits : Literals) (k : ℕ) (m : Mem) (fmt : List ℕ) (w : ℕ) (args : Args)
    → w < 2 ^ 32
    → (out : List ℕ) × IsDecimal (signed32 w) out
      × (vprintfmt lits (suc k) m (b'%' ∷ b'd' ∷ fmt) (w ∷ args)
          ≡ (vprintfmt lits k m fmt args >>= λ rest. ok (out ++ rest)))
vprintfmt-IsDecimal lits k m fmt w args h =
    let (out, is, run) = put_signed_lem w h in
    (
      out,
      is,
      vprintfmt-escape lits k m (b'd' ∷ fmt) (w ∷ args)
          ∙ escape_decimal lits (suc k) m (vprintfmt lits k m) fmt w args out run,
    )
