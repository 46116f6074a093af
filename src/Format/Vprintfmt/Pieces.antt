-- ===== src/Format/Vprintfmt/Pieces.antt =====
-- What a format puts, piece by piece: the rules put a text or an escape in front of a format of which
-- it is known what it puts.
use mathlib.Core.Path.{subst}
use jos.Prelude.{
  ℕ, suc, ◌+◌, ◌-◌, ◌^◌, ◌<◌, ◌≤◌, ◌≡◌, refl, ◌≢◌, ap, sym, ◌∙◌, List, [], ◌∷◌, ◌++◌, length, take,
  Bool, true, false, if◌then◌else◌, arith,
}
use jos.Prelude.Int.{ℤ, pos, ltb_ℤ, nonneg}
use jos.Memory.{Mem, CString}
use jos.Console.Output.Sent.{AllBytes, AllBytes-append}
use jos.Format.{fresh, Result, ok, ◌>>=◌, Args, signed32}
use jos.Format.Numeral.Digits.{IsNumeral}
use jos.Format.Numeral.Bytes.{AllDigits-AllBytes}
use jos.Format.Numeral.Padded.{hex_digits, hex_digits-AllBytes}
use jos.Format.Vprintfmt.{Literals, number, put_signed, escape, vprintfmt}
use jos.Format.Vprintfmt.Laws.{
  Plain, IsDecimal, vprintfmt_text, vprintfmt-append, vprintfmt-escape, put_signed_lem, extended,
  signed32-pos, escape_decimal, number-fresh,
}
use jos.Format.Vprintfmt.Escapes.{
  escape_hex, escape_unsigned, escape_octal, escape_string, escape-limited, put_text-fresh,
  put_text-limited, IsAscii, IsAscii-take, IsAscii-AllBytes,
}

-- At `p` stands the ASCII text `s`, for which `k` rounds are enough in any format of this program.
pub record IsLiteral (k : ℕ) (m : Mem) (p : ℕ) (s : List ℕ) : Type 0 where
  pub nonnull : p ≢ 0
  pub spelled : CString m p s
  pub ascii : IsAscii s
  pub short : length s + 20 ≤ k
  pub sized : length s < 2 ^ 32

module _ (lits : Literals) (m : Mem) where
  -- With `n` rounds and more the format puts `out`, which is bytes only.
  pub record Puts (n : ℕ) (fmt : List ℕ) (args : Args) (out : List ℕ) : Type 0 where
    pub puts : (k : ℕ) → n ≤ k → vprintfmt lits k m fmt args ≡ ok out
    pub bytes : AllBytes out

  pub Puts-weaken :
      (n n' : ℕ) (fmt : List ℕ) (args : Args) (out : List ℕ)
      → n ≤ n'
      → Puts n fmt args out
      → Puts n' fmt args out
  Puts-weaken n n' fmt args out le h = record {
    puts = λ k le'. h.puts k (omega arith);
    bytes = h.bytes;
  }

  pub Puts-end : (args : Args) → Puts 1 [] args []
  Puts-end args = record {
    puts = λ k h. vprintfmt_text lits k m [] args tt (omega arith);
    bytes = tt;
  }

  pub Puts-text :
      (n : ℕ) (text fmt : List ℕ) (args : Args) (out : List ℕ)
      → Plain text
      → AllBytes text
      → Puts n fmt args out
      → Puts (length text + n) (text ++ fmt) args (text ++ out)
  Puts-text n text fmt args out plain bytes h = record {
    puts = λ k le.
        let fuel : length text + (k - length text) ≡ k = omega arith in
        ap (λ j. vprintfmt lits j m (text ++ fmt) args) (sym fuel)
        ∙ vprintfmt-append lits (k - length text) m text fmt args plain
        ∙ ap (λ r. r >>= λ rest. ok (text ++ rest)) (h.puts (k - length text) (omega arith));
    bytes = AllBytes-append text out bytes h.bytes;
  }

  -- An escape that takes the arguments `args` in front of `args'` and puts `piece`.
  Puts-escape :
      (n : ℕ) (esc fmt : List ℕ) (args args' : Args) (piece out : List ℕ)
      → ((k : ℕ) (again : List ℕ → Args → Result (List ℕ))
          → n < k
          → escape lits k m again args esc ≡ (again fmt args' >>= λ rest. ok (piece ++ rest)))
      → AllBytes piece
      → Puts n fmt args' out
      → Puts (suc n) (b'%' ∷ esc) args (piece ++ out)
  Puts-escape n esc fmt args args' piece out run bytes h = record {
    puts = λ k le.
        let fuel : suc (k - 1) ≡ k = omega arith in
        ap (λ j. vprintfmt lits j m (b'%' ∷ esc) args) (sym fuel)
        ∙ vprintfmt-escape lits (k - 1) m esc args
        ∙ run (suc (k - 1)) (vprintfmt lits (k - 1) m) (omega arith)
        ∙ ap (λ r. r >>= λ rest. ok (piece ++ rest)) (h.puts (k - 1) (omega arith));
    bytes = AllBytes-append piece out bytes h.bytes;
  }

  -- `%08x` puts the eight digits of a word.
  pub Puts-hex :
      (n w : ℕ) (fmt : List ℕ) (args : Args) (out : List ℕ)
      → w < 2 ^ 32
      → Puts n fmt args out
      → Puts (suc n) (b'%' ∷ b'0' ∷ b'8' ∷ b'x' ∷ fmt) (w ∷ args) (hex_digits 8 w ++ out)
  Puts-hex n w fmt args out small h =
      Puts-escape n (b'0' ∷ b'8' ∷ b'x' ∷ fmt) fmt (w ∷ args) args (hex_digits 8 w) out
        (λ k again lt. escape_hex lits k m again fmt w args small) (hex_digits-AllBytes 8 w) h

  -- `%o` of a number whose octal digits are known
  pub Puts-octal :
      (n w : ℕ) (fmt : List ℕ) (args : Args) (ds out : List ℕ)
      → number w 8 fresh ≡ ok ds
      → AllBytes ds
      → Puts n fmt args out
      → Puts (suc n) (b'%' ∷ b'o' ∷ fmt) (w ∷ args) (ds ++ out)
  Puts-octal n w fmt args ds out run bytes h =
      Puts-escape n (b'o' ∷ fmt) fmt (w ∷ args) args ds out
        (λ k again lt. escape_octal lits k m again fmt w args ds run) bytes h

  pub Puts-unsigned :
      (n w : ℕ) (fmt : List ℕ) (args : Args) (out : List ℕ)
      → w < 2 ^ 32
      → Puts n fmt args out
      → (ds : List ℕ) × IsNumeral 10 w ds × Puts (suc n) (b'%' ∷ b'u' ∷ fmt) (w ∷ args) (ds ++ out)
  Puts-unsigned n w fmt args out small h =
      let (ds, run, is) = number-fresh w (omega arith) in
      (
        ds,
        is,
        Puts-escape n (b'u' ∷ fmt) fmt (w ∷ args) args ds out
            (λ k again lt. escape_unsigned lits k m again fmt w args ds run)
            (AllDigits-AllBytes 10 ds (omega arith) is.digits) h,
      )

  IsDecimal-AllBytes : (i : ℤ) (out : List ℕ) → IsDecimal i out → AllBytes out
  IsDecimal-AllBytes i out is =
      let bytes = AllDigits-AllBytes 10 is.digits (omega arith) is.numeral.digits in
      subst AllBytes (sym is.shape) (signed (ltb_ℤ i (pos 0)) is.digits bytes)
    where
      signed : (b : Bool) (ds : List ℕ) → AllBytes ds → AllBytes (if b then b'-' ∷ ds else ds)
      signed true ds h = (omega arith, h)
      signed false ds h = h

  -- `%d` of a word whose digits are known
  pub Puts-signed :
      (n w : ℕ) (fmt : List ℕ) (args : Args) (ds out : List ℕ)
      → put_signed (extended w) fresh ≡ ok ds
      → AllBytes ds
      → Puts n fmt args out
      → Puts (suc n) (b'%' ∷ b'd' ∷ fmt) (w ∷ args) (ds ++ out)
  Puts-signed n w fmt args ds out run bytes h =
      Puts-escape n (b'd' ∷ fmt) fmt (w ∷ args) args ds out
        (λ k again lt. escape_decimal lits k m again fmt w args ds run) bytes h

  pub Puts-IsDecimal :
      (n w : ℕ) (fmt : List ℕ) (args : Args) (out : List ℕ)
      → w < 2 ^ 32
      → Puts n fmt args out
      → (ds : List ℕ) × IsDecimal (signed32 w) ds
        × Puts (suc n) (b'%' ∷ b'd' ∷ fmt) (w ∷ args) (ds ++ out)
  Puts-IsDecimal n w fmt args out small h =
      let (ds, is, run) = put_signed_lem w small in
      (ds, is, Puts-signed n w fmt args ds out run (IsDecimal-AllBytes (signed32 w) ds is) h)

  pub Puts-string :
      (n p : ℕ) (s fmt : List ℕ) (args : Args) (out : List ℕ)
      → p ≢ 0
      → CString m p s
      → IsAscii s
      → length s ≤ n
      → length s < 2 ^ 32
      → Puts n fmt args out
      → Puts (suc n) (b'%' ∷ b's' ∷ fmt) (p ∷ args) (s ++ out)
  Puts-string n p s fmt args out ne string ascii fuel short h =
      Puts-escape n (b's' ∷ fmt) fmt (p ∷ args) args s out
        (λ k again lt.
          escape_string lits k m again fmt p args s ne
            (put_text-fresh k m p s string ascii (omega arith) short))
        (IsAscii-AllBytes s ascii) h

  pub Puts-limited :
      (n width p : ℕ) (s fmt : List ℕ) (args : Args) (out : List ℕ)
      → width < 2 ^ 31
      → p ≢ 0
      → CString m p s
      → IsAscii s
      → length s ≤ n
      → Puts n fmt args out
      → Puts (suc n) (b'%' ∷ b'.' ∷ b'*' ∷ b's' ∷ fmt) (width ∷ p ∷ args) (take width s ++ out)
  Puts-limited n width p s fmt args out small ne string ascii fuel h =
      Puts-escape n (b'.' ∷ b'*' ∷ b's' ∷ fmt) fmt (width ∷ p ∷ args) args (take width s) out
        (λ k again lt.
          escape-limited lits k m again fmt width p args (take width s) small ne
            (put_text-limited k m p width s string ascii (omega arith)))
        (IsAscii-AllBytes (take width s) (IsAscii-take width s ascii)) h

  -- `%d` of an `int` that is not negative
  pub Puts-natural :
      (n w : ℕ) (fmt : List ℕ) (args : Args) (out : List ℕ)
      → w < 2 ^ 31
      → Puts n fmt args out
      → (ds : List ℕ) × IsNumeral 10 w ds × Puts (suc n) (b'%' ∷ b'd' ∷ fmt) (w ∷ args) (ds ++ out)
  Puts-natural n w fmt args out small h =
      let (ds, is, puts) = Puts-IsDecimal n w fmt args out (omega arith) h in
      let is' : IsDecimal (pos w) ds = subst (λ i. IsDecimal i ds) (signed32-pos w small) is in
      let same : ds ≡ is'.digits = is'.shape ∙ rw nonneg refl in
      (ds, subst (IsNumeral 10 w) (sym same) is'.numeral, puts)
