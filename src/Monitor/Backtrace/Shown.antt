-- ===== src/Monitor/Backtrace/Shown.antt =====
-- What `mon_backtrace` prints for frames whose return addresses `debuginfo_eip` finds.
use jos.Prelude.{
  ℕ, ◌+◌, ◌-◌, ◌%◌, ◌^◌, ◌<◌, ◌≤◌, ◌≡◌, refl, List, [], ◌∷◌, ◌++◌, length, take, some, arith,
}
use jos.Prelude.Int.{ℤ}
use jos.Memory.{Mem}
use jos.Format.{ok, signed32}
use jos.Format.Numeral.Digits.{IsNumeral}
use jos.Format.Vprintfmt.{Literals}
use jos.Format.Vprintfmt.Laws.{IsDecimal}
use jos.Format.Vprintfmt.Pieces.{IsLiteral}
use jos.Console.Crt.Bounds.{IsValid}
use jos.Console.Output.{Machine}
use jos.Console.Output.Sent.{serial, echoed, Apart}
use jos.Debuginfo.{Tables, Eipdebuginfo, returns, debuginfo_eip}
use jos.Monitor.Backtrace.{frame_word, frame_args, traced, heading, mon_backtrace}
use jos.Monitor.Backtrace.Frames.{Chain, IsText, AreTexts, concat, mon_backtrace-Prints}
use jos.Monitor.Backtrace.Lines.{Words, frame_line, place_line, frame_line-Puts, place_line-Puts}

module _ (t : Tables) (k : ℕ) (m : Mem) where
  -- The words of the frame fit, and `debuginfo_eip` leaves the address of an ASCII file name and of an
  -- ASCII function name.
  pub record IsFound (f : ℕ) : Type 0 where
    pub words : Words (frame_args m f)
    pub value : ℤ
    pub info : Eipdebuginfo
    pub looked_up : debuginfo_eip t k m (frame_word m f 1) ≡ some (returns value info)
    pub file : List ℕ
    pub file_at : IsLiteral k m info.eip_file file
    pub name : List ℕ
    pub name_at : IsLiteral k m info.eip_fn_name name
    pub line_fits : info.eip_line < 2 ^ 32
    pub len_fits : info.eip_fn_namelen < 2 ^ 31

  abbrev pub AreFound : List ℕ → Type 0
  AreFound [] = Unit {0}
  AreFound (f ∷ frames) = IsFound f × AreFound frames

  -- The two lines of a frame: its words, then file, line, the name up to its length, and the offset of
  -- the return address in the function.
  abbrev pub IsShown : (f : ℕ) → IsFound f → List ℕ → Type 0
  IsShown f found text =
      (line : List ℕ) × (offset : List ℕ) × IsNumeral 10 found.info.eip_line line
      × IsDecimal (signed32 ((frame_word m f 1 + (2 ^ 32 - found.info.eip_fn_addr)) % 2 ^ 32))
          offset
      × (text
          ≡ frame_line m f
            ++ place_line found.file line (take found.info.eip_fn_namelen found.name) offset)

  abbrev pub AreShown : (frames : List ℕ) → AreFound frames → List (List ℕ) → Type 0
  AreShown [] found [] = Unit {0}
  AreShown [] found (x ∷ texts) = ⊥
  AreShown (f ∷ frames) found [] = ⊥
  AreShown (f ∷ frames) (is, found) (x ∷ texts) = IsShown f is x × AreShown frames found texts

module _ (lits : Literals) (t : Tables) (k : ℕ) (m : Mem) (fuel : 40 ≤ k) where
  frame-IsText :
      (f : ℕ) (found : IsFound t k m f)
      → (text : List ℕ) × IsText lits t k m f text × IsShown t k m f found text
  frame-IsText f found =
      let words = frame_line-Puts lits m f found.words in
      let (line, offset, is_line, is_offset, place) =
        place_line-Puts lits m k (frame_word m f 1) found.info found.file found.name found.file_at
          found.name_at found.line_fits found.len_fits in
      let there = place_line found.file line (take found.info.eip_fn_namelen found.name) offset in
      (
        frame_line m f ++ there,
        record {
          words = frame_line m f;
          place = there;
          value = found.value;
          info = found.info;
          shape = refl;
          words_put = words.puts k (omega arith);
          looked_up = found.looked_up;
          place_put = place.puts k (omega arith);
          words_bytes = words.bytes;
          place_bytes = place.bytes;
        },
        (line, offset, is_line, is_offset, refl),
      )

  pub frame_texts :
      (frames : List ℕ) (found : AreFound t k m frames)
      → (texts : List (List ℕ)) × AreTexts lits t k m frames texts
        × AreShown t k m frames found texts
  frame_texts [] found = ([], tt, tt)
  frame_texts (f ∷ frames) (is, found) =
      let (x, is_text, shown) = frame-IsText f is in
      let (texts, are, all) = frame_texts frames found in (x ∷ texts, (is_text, are), (shown, all))

  -- If the saved `%ebp`s form a chain of frames that ends with 0, and `debuginfo_eip` finds the return
  -- address of each frame, then with more fuel than frames `mon_backtrace` returns, and the serial port
  -- gets the heading and the two lines of each frame, from the innermost outwards, and no more; a valid
  -- screen stays valid. The first line has the words of the frame in eight hexadecimal digits, the
  -- second one the file, the decimal numeral of the line, the function's name up to its length and the
  -- decimal numeral of the offset in the function.
  pub mon_backtrace_lem :
      (ebp : ℕ) (frames : List ℕ) (s : Machine)
      → Chain m ebp frames
      → (found : AreFound t k m frames) → length frames < k
      → Apart s
      → IsValid s.crt
      → (texts : List (List ℕ)) × (s' : Machine) × AreShown t k m frames found texts
        × (mon_backtrace lits t k m ebp s ≡ ok (traced s'))
        × (serial s'.written ≡ serial s.written ++ echoed (heading ++ concat texts))
        × IsValid s'.crt
  mon_backtrace_lem ebp frames s chain found lt apart v =
      let (texts, are, shown) = frame_texts frames found in
      let (s', run, prints) =
        mon_backtrace-Prints lits t k m ebp frames texts s chain are lt (omega arith) apart in
      (texts, s', shown, run, prints.sent.0, prints.screen v)
