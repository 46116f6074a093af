-- ===== src/Monitor/Backtrace/Frames.antt =====
-- What `mon_backtrace` prints for a chain of frames.
use jos.Prelude.{
  ℕ, zero, suc, ◌<◌, ◌≡◌, ◌≢◌, refl, sym, ap, ◌∙◌, List, [], ◌∷◌, ◌++◌, length, some, ◌==◌,
  if◌then◌else◌, false, arith,
}
use mathlib.Core.Path.{subst}
use jos.Prelude.Int.{ℤ}
use jos.Memory.{Mem}
use jos.Format.{ok, ◌>>=◌}
use jos.Format.Vprintfmt.{Literals, vprintfmt}
use jos.Format.Vprintfmt.Laws.{Plain, vprintfmt_text}
use jos.Console.Crt.{cga_set_bg, cga_set_fg, cga_reset}
use jos.Console.Output.{Machine}
use jos.Console.Output.Sent.{AllBytes, Apart, Sends-nothing, put_line}
use jos.Console.Cprintf.Printed.{Prints, Prints-append, Prints-Apart, cprintf-Prints}
use jos.Debuginfo.{Tables, Eipdebuginfo, returns, debuginfo_eip}
use jos.Monitor.Backtrace.{
  fueled, frame_word, on_screen, traced, heading, frame_format, place_format, frame_args,
  place_args, show_place, show_frame, continue, trace, mon_backtrace,
}

-- From `ebp` on the saved `%ebp`s are `frames`, and then 0.
abbrev pub Chain : Mem → ℕ → List ℕ → Type 0
Chain m ebp [] = ebp ≡ 0
Chain m ebp (f ∷ frames) = (ebp ≡ f) × (f ≢ 0) × Chain m (frame_word m f 0) frames

-- A change of the colours prints nothing.
pub recoloured :
    (text : List ℕ) (bg fg bg' fg' : ℕ) (s t : Machine)
    → Prints text (on_screen (λ c. record c { bg = bg; fg = fg }) s) t
    → Prints text s (on_screen (λ c. record c { bg = bg'; fg = fg' }) t)
unfolding on_screen
recoloured text bg fg bg' fg' s t h = record {
  sent = h.sent;
  screen = λ v.
      let w = h.screen (record { cells = v.cells; on = v.on }) in
      record { cells = w.cells; on = w.on };
}

heading-AllBytes : AllBytes heading
heading-AllBytes = ground arith

heading-Plain : Plain heading
heading-Plain = ground arith

abbrev pub concat : List (List ℕ) → List ℕ
concat [] = []
concat (x ∷ texts) = x ++ concat texts

module _ (lits : Literals) (t : Tables) (k : ℕ) (m : Mem) where
  -- The two lines of a frame: its words, and what `debuginfo_eip` finds for its return address.
  pub record IsText (f : ℕ) (text : List ℕ) : Type 0 where
    pub words : List ℕ
    pub place : List ℕ
    pub value : ℤ
    pub info : Eipdebuginfo
    pub shape : text ≡ words ++ place
    pub words_put : vprintfmt lits k m frame_format (frame_args m f) ≡ ok words
    pub looked_up : debuginfo_eip t k m (frame_word m f 1) ≡ some (returns value info)
    pub place_put : vprintfmt lits k m place_format (place_args (frame_word m f 1) info) ≡ ok place
    pub words_bytes : AllBytes words
    pub place_bytes : AllBytes place

  abbrev pub AreTexts : List ℕ → List (List ℕ) → Type 0
  AreTexts [] [] = Unit {0}
  AreTexts [] (x ∷ texts) = ⊥
  AreTexts (f ∷ frames) [] = ⊥
  AreTexts (f ∷ frames) (x ∷ texts) = IsText f x × AreTexts frames texts

  show_frame-Prints :
      (f : ℕ) (text : List ℕ) (s : Machine)
      → IsText f text
      → Apart s
      → (s' : Machine) × (show_frame lits t k m f s ≡ ok (traced s')) × Prints text s s'
  unfolding show_frame show_place on_screen cga_set_bg cga_set_fg cga_reset
  show_frame-Prints f text s is apart =
      let s1 = on_screen (λ c. cga_set_fg 0xF (cga_set_bg 1 c)) s in
      let (run1, prints1) =
        cprintf-Prints lits k m frame_format (frame_args m f) s1 is.words is.words_put
          is.words_bytes apart in
      let s2 = put_line is.words s1 in
      let s3 = on_screen (cga_set_fg 0xE) (on_screen cga_reset s2) in
      let (run2, prints2) =
        cprintf-Prints lits k m place_format (place_args (frame_word m f 1) is.info) s3 is.place
          is.place_put is.place_bytes (Prints-Apart is.words s1 s2 prints1 apart) in
      (
        on_screen cga_reset (put_line is.place s3),
        ap
              (λ r. r >>= λ (cnt, s').
                fueled (debuginfo_eip t k m (frame_word m f 1)) >>= λ outcome.
                show_place lits t k m (frame_word m f 1) (on_screen cga_reset s') outcome)
              run1
            ∙ ap
                (λ o. fueled o >>= λ outcome.
                  show_place lits t k m (frame_word m f 1) (on_screen cga_reset s2) outcome)
                is.looked_up
            ∙ ap (λ r. r >>= λ (cnt, s'). ok (traced (on_screen cga_reset s'))) run2,
        subst (λ x. Prints x s (on_screen cga_reset (put_line is.place s3))) (sym is.shape)
            (Prints-append is.words is.place s s2 (on_screen cga_reset (put_line is.place s3))
              (recoloured is.words 1 0xF s2.crt.bg s2.crt.fg s s2 prints1)
              (recoloured is.place 0 0xE 0 0 s2 (put_line is.place s3) prints2)),
      )

  trace_lem :
      (n ebp : ℕ) (frames : List ℕ) (texts : List (List ℕ)) (s : Machine)
      → Chain m ebp frames
      → AreTexts frames texts
      → length frames < n
      → Apart s
      → (s' : Machine) × (trace lits t k m n ebp s ≡ ok (traced s')) × Prints (concat texts) s s'
  unfolding trace continue
  trace_lem zero ebp frames texts s chain are lt apart = absurd (omega arith)
  trace_lem (suc n) ebp [] [] s chain are lt apart =
      (s, rw chain refl, record { sent = Sends-nothing s; screen = λ v. v })
  trace_lem (suc n) ebp [] (x ∷ texts) s chain are lt apart = absurd are
  trace_lem (suc n) ebp (f ∷ frames) [] s chain are lt apart = absurd are
  trace_lem (suc n) ebp (f ∷ frames) (x ∷ texts) s (e, ne, chain) (is, are) lt apart =
      let (s1, run, prints) = show_frame-Prints f x s is apart in
      let (s', run', prints') =
        trace_lem n (frame_word m f 0) frames texts s1 chain are (omega arith)
          (Prints-Apart x s s1 prints apart) in
      let live : (f == 0) ≡ false = ground arith in
      (
        s',
        ap (λ b. trace lits t k m (suc n) b s) e
            ∙ ap
                (λ b.
                  if b
                  then ok (traced s)
                  else (show_frame lits t k m f s
                      >>= continue lits t k m (trace lits t k m n (frame_word m f 0))))
                live
            ∙ ap (λ r. r >>= continue lits t k m (trace lits t k m n (frame_word m f 0))) run
            ∙ run',
        Prints-append x (concat texts) s s1 s' prints prints',
      )

  pub mon_backtrace-Prints :
      (ebp : ℕ) (frames : List ℕ) (texts : List (List ℕ)) (s : Machine)
      → Chain m ebp frames
      → AreTexts frames texts
      → length frames < k
      → length heading < k
      → Apart s
      → (s' : Machine) × (mon_backtrace lits t k m ebp s ≡ ok (traced s'))
        × Prints (heading ++ concat texts) s s'
  unfolding mon_backtrace
  mon_backtrace-Prints ebp frames texts s chain are lt long apart =
      let (run, prints) =
        cprintf-Prints lits k m heading [] s heading
          (vprintfmt_text lits k m heading [] heading-Plain long) heading-AllBytes apart in
      let s1 = put_line heading s in
      let (s', run', prints') =
        trace_lem k ebp frames texts s1 chain are lt (Prints-Apart heading s s1 prints apart) in
      (
        s',
        ap (λ r. r >>= λ (cnt, s1). trace lits t k m k ebp s1) run ∙ run',
        Prints-append heading (concat texts) s s1 s' prints prints',
      )
