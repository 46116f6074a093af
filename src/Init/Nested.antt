-- ===== src/Init/Nested.antt =====
-- The lines that `test_backtrace` prints.
use mathlib.Core.Path.{subst}
use jos.Prelude.{
  ℕ, zero, suc, ◌+◌, ◌-◌, ◌^◌, ◌<◌, ◌≤◌, ◌≡◌, refl, ap, ◌∙◌, List, [], ◌∷◌, ◌++◌, length, arith,
}
use jos.Prelude.Int.{pos, nonneg}
use jos.Prelude.Texts.{codes}
use jos.Memory.{Mem}
use jos.Format.{Result, ok, ◌>>=◌}
use jos.Format.Numeral.Digits.{IsNumeral}
use jos.Format.Numeral.Bytes.{AllDigits-AllBytes}
use jos.Format.Vprintfmt.{Literals, vprintfmt}
use jos.Format.Vprintfmt.Laws.{
  Plain, IsDecimal, vprintfmt-append, vprintfmt-IsDecimal, signed32-pos, vprintfmt_text,
}
use jos.Console.Crt.{cga_set_bg, cga_set_fg, cga_reset}
use jos.Console.Crt.Bounds.{IsValid}
use jos.Console.Output.{Machine}
use jos.Console.Output.Sent.{serial, echoed, AllBytes, AllBytes-append, Apart, put_line}
use jos.Console.Cprintf.Printed.{Prints, Prints-append, Prints-Apart, cprintf-Prints}
use jos.Debuginfo.{Tables}
use jos.Monitor.Backtrace.{on_screen, Traced, traced, heading, mon_backtrace}
use jos.Monitor.Backtrace.Frames.{Chain, AreTexts, concat, recoloured, mon_backtrace-Prints}
use jos.Monitor.Backtrace.Shown.{AreFound, AreShown, frame_texts}
use jos.Init.{entering_format, announce, leave, test_backtrace}

abbrev pub entering : List ℕ
entering = codes "entering test_backtrace "

abbrev pub leaving : List ℕ
leaving = codes "leaving test_backtrace "

-- A text with a numeral and a newline behind it
abbrev numbered : List ℕ → List ℕ → List ℕ
numbered text ds = text ++ (ds ++ 10 ∷ [])

abbrev pub IsLine : List ℕ → ℕ → List ℕ → Type 0
IsLine text x line = (ds : List ℕ) × IsNumeral 10 x ds × (line ≡ text ++ (ds ++ 10 ∷ []))

-- The lines of the calls for `x` down to 0, with the backtrace inside.
abbrev pub Nested : List ℕ → ℕ → List ℕ → Type 0
Nested inside zero out =
    (first : List ℕ) × (last : List ℕ) × IsLine entering 0 first
    × IsLine leaving 0 last
    × (out ≡ first ++ (inside ++ last))
Nested inside (suc x) out =
    (first : List ℕ) × (last : List ℕ) × (inner : List ℕ) × IsLine entering (suc x) first
    × IsLine leaving (suc x) last
    × Nested inside x inner
    × (out ≡ first ++ (inner ++ last))

entering-Plain : Plain entering
entering-Plain = ground arith

leaving-Plain : Plain leaving
leaving-Plain = ground arith

entering-AllBytes : AllBytes entering
entering-AllBytes = ground arith

leaving-AllBytes : AllBytes leaving
leaving-AllBytes = ground arith

module _ (lits : Literals) (t : Tables) (ebp k : ℕ) (m : Mem) where
  -- A text with `%d` and a newline behind it
  announced_text :
      (text : List ℕ) (x : ℕ)
      → Plain text
      → AllBytes text
      → length text + 3 < k
      → x < 2 ^ 31
      → (ds : List ℕ) × IsNumeral 10 x ds
        × (vprintfmt lits k m (text ++ b'%' ∷ b'd' ∷ 10 ∷ []) (x ∷ []) ≡ ok (numbered text ds))
        × AllBytes (numbered text ds)
  announced_text text x plain bytes fuel small =
      let k' = k - length text - 1 in
      let (out, is, run) = vprintfmt-IsDecimal lits k' m (10 ∷ []) x [] (omega arith) in
      let is' : IsDecimal (pos x) out = subst (λ n. IsDecimal n out) (signed32-pos x small) is in
      let same : out ≡ is'.digits = is'.shape ∙ rw nonneg refl in
      let fuel_split : k ≡ length text + suc k' = omega arith in
      (
        is'.digits,
        is'.numeral,
        ap (λ n. vprintfmt lits n m (text ++ b'%' ∷ b'd' ∷ 10 ∷ []) (x ∷ [])) fuel_split
            ∙ vprintfmt-append lits (suc k') m text (b'%' ∷ b'd' ∷ 10 ∷ []) (x ∷ []) plain
            ∙ ap (λ r. r >>= λ rest. ok (text ++ rest))
                (run
                  ∙ ap (λ r. r >>= λ rest. ok (out ++ rest))
                      (vprintfmt_text lits k' m (10 ∷ []) [] (omega arith, tt) (omega arith))
                  ∙ ap (λ o. ok (o ++ 10 ∷ [])) same),
        AllBytes-append text (is'.digits ++ 10 ∷ []) bytes (
            AllBytes-append is'.digits (10 ∷ [])
              (AllDigits-AllBytes 10 is'.digits (omega arith) is'.numeral.digits)
              (omega arith, tt)),
      )

  announce-Prints :
      (fmt : List ℕ) (x : ℕ) (text : List ℕ) (s : Machine)
      → vprintfmt lits k m fmt (x ∷ []) ≡ ok text
      → AllBytes text
      → Apart s
      → (s' : Machine) × (announce lits t ebp k m fmt x s ≡ ok s') × Prints text s s'
  unfolding announce on_screen cga_set_bg cga_set_fg cga_reset
  announce-Prints fmt x text s puts bytes apart =
      let s1 = on_screen (λ c. cga_set_fg 4 (cga_set_bg 7 c)) s in
      let (run, prints) = cprintf-Prints lits k m fmt (x ∷ []) s1 text puts bytes apart in
      (
        on_screen cga_reset (put_line text s1),
        ap (λ r. r >>= λ (cnt, s'). ok (on_screen cga_reset s')) run,
        recoloured text 7 4 0 0 s (put_line text s1) prints,
      )

  announce_lem :
      (text : List ℕ) (x : ℕ) (s : Machine)
      → Plain text
      → AllBytes text
      → length text + 3 < k
      → x < 2 ^ 31
      → Apart s
      → (line : List ℕ) × (s' : Machine) × IsLine text x line
        × (announce lits t ebp k m (text ++ b'%' ∷ b'd' ∷ 10 ∷ []) x s ≡ ok s')
        × Prints line s s'
  announce_lem text x s plain bytes fuel small apart =
      let (ds, numeral, puts, all) = announced_text text x plain bytes fuel small in
      let (s', run, prints) =
        announce-Prints (text ++ b'%' ∷ b'd' ∷ 10 ∷ []) x (numbered text ds) s puts all apart in
      (numbered text ds, s', (ds, numeral, refl), run, prints)

  -- The call around one for a smaller number, or around the backtrace
  call_lem :
      (x : ℕ) (body : Machine → Result Traced) (Inner : List ℕ → Type 0) (s : Machine)
      → x < 2 ^ 31
      → 27 < k
      → Apart s
      → ((s1 : Machine)
          → Apart s1
          → (inner : List ℕ) × (s2 : Machine) × (body s1 ≡ ok (traced s2))
            × Inner inner
            × Prints inner s1 s2)
      → (first : List ℕ) × (last : List ℕ) × (inner : List ℕ) × (s' : Machine) × IsLine entering x
          first
        × IsLine leaving x last
        × Inner inner
        × ((announce lits t ebp k m entering_format x s >>= body >>= leave lits t ebp k m x)
            ≡ ok (traced s'))
        × Prints (first ++ (inner ++ last)) s s'
  unfolding leave
  call_lem x body Inner s small fuel apart calls =
      let (first, s1, is_first, run1, prints1) =
        announce_lem entering x s entering-Plain entering-AllBytes (omega arith) small apart in
      let apart1 = Prints-Apart first s s1 prints1 apart in
      let (inner, s2, run2, is_inner, prints2) = calls s1 apart1 in
      let (last, s3, is_last, run3, prints3) =
        announce_lem leaving x s2 leaving-Plain leaving-AllBytes (omega arith) small
          (Prints-Apart inner s1 s2 prints2 apart1) in
      (
        first,
        last,
        inner,
        s3,
        is_first,
        is_last,
        is_inner,
        ap (λ r. r >>= body >>= leave lits t ebp k m x) run1
            ∙ ap (λ r. r >>= leave lits t ebp k m x) run2
            ∙ ap (λ r. r >>= λ s'. ok (traced s')) run3,
        Prints-append first (inner ++ last) s s1 s3 prints1
            (Prints-append inner last s1 s2 s3 prints2 prints3),
      )

  module _ (frames : List ℕ) (texts : List (List ℕ)) (chain : Chain m ebp frames)
      (are : AreTexts lits t k m frames texts) (fuel : length frames < k) (fuel' : 27 < k) where
    pub test_backtrace-Prints :
        (x : ℕ) (s : Machine)
        → x < 2 ^ 31
        → Apart s
        → (out : List ℕ) × (s' : Machine) × (test_backtrace lits t ebp k m x s ≡ ok (traced s'))
          × Nested (heading ++ concat texts) x out
          × Prints out s s'
    unfolding test_backtrace
    test_backtrace-Prints zero s small apart =
        let inside = heading ++ concat texts in
        let (first, last, inner, s', is_first, is_last, same, run, prints) =
          call_lem 0 (mon_backtrace lits t k m ebp) (λ inner. inner ≡ inside) s small fuel' apart
            (λ s1 apart1.
              let (s2, run2, prints2) =
                mon_backtrace-Prints lits t k m ebp frames texts s1 chain are fuel (omega arith)
                  apart1 in
              (inside, s2, run2, refl, prints2)) in
        (
          first ++ (inner ++ last),
          s',
          run,
          (first, last, is_first, is_last, ap (λ t. first ++ (t ++ last)) same),
          prints,
        )
    test_backtrace-Prints (suc x) s small apart =
        let (first, last, inner, s', is_first, is_last, nested, run, prints) =
          call_lem (suc x) (test_backtrace lits t ebp k m x) (Nested (heading ++ concat texts) x) s
            small fuel' apart
            (λ s1 apart1.
              let (inner, s2, run2, nested, prints2) =
                test_backtrace-Prints x s1 (omega arith) apart1 in
              (inner, s2, run2, nested, prints2)) in
        (
          first ++ (inner ++ last),
          s',
          run,
          (first, last, inner, is_first, is_last, nested, refl),
          prints,
        )

  -- For an `int` that is not negative, a stack whose frames form a chain that ends with 0, and return
  -- addresses that `debuginfo_eip` finds, `test_backtrace` returns and sends to the serial port: a line
  -- "entering" for each number from `x` down to 0, the backtrace with the two lines of each frame, and a
  -- line "leaving" for each number from 0 up to `x`, each with the decimal numeral of the number; a valid
  -- screen stays valid.
  pub test_backtrace_lem :
      (frames : List ℕ) (x : ℕ) (s : Machine)
      → Chain m ebp frames
      → (found : AreFound t k m frames) → length frames < k
      → 40 ≤ k
      → x < 2 ^ 31
      → Apart s
      → IsValid s.crt
      → (texts : List (List ℕ)) × (out : List ℕ) × (s' : Machine) × AreShown t k m frames found
          texts
        × (test_backtrace lits t ebp k m x s ≡ ok (traced s'))
        × Nested (heading ++ concat texts) x out
        × (serial s'.written ≡ serial s.written ++ echoed out)
        × IsValid s'.crt
  test_backtrace_lem frames x s chain found lt fuel small apart v =
      let (texts, are, shown) = frame_texts lits t k m fuel frames found in
      let (out, s', run, nested, prints) =
        test_backtrace-Prints frames texts chain are lt (omega arith) x s small apart in
      (texts, out, s', shown, run, nested, prints.sent.0, prints.screen v)
