-- ===== src/Format/Buffer/Laws.antt =====
-- `vsnprintf` never writes out of its buffer, terminates what it writes, and counts all characters.
use jos.Prelude.{
  ℕ, zero, suc, ◌+◌, ◌-◌, ◌%◌, ◌^◌, ◌<◌, ◌≡◌, ◌≢◌, ◌⊎◌, refl, ap, ◌∙◌, List, [], ◌∷◌, length,
  get_or, min, ◌==◌, ◌||◌, false, arith,
}
use jos.Prelude.Int.{ℤ, pos, ◌≤ℤ◌, ltb_ℤ}
use jos.Memory.{Mem, store, SameOutside}
use jos.Memory.Frame.{store_self, store_ne}
use jos.Format.{ok, Args}
use jos.Format.Vprintfmt.{Literals, vprintfmt}
use jos.Format.Buffer.{Sprintbuf, sprintputch, put_all, vsnprintf, minus_E_inval}

-- `r` is the state after `out` has been put into a buffer with `room` bytes left at `buf`.
record Put (out : List ℕ) (room : ℕ) (b : Sprintbuf) (m : Mem) (r : Sprintbuf × Mem) : Type 0 where
  end : r.0.buf ≡ b.buf + min room (length out)
  count : r.0.cnt ≡ b.cnt + length out
  bytes : (i : ℕ) → i < min room (length out) → r.1 (b.buf + i) ≡ get_or out i 0 % 2 ^ 8
  same : SameOutside r.1 m b.buf room

sprintputch_full :
    (ch : ℕ) (b : Sprintbuf) (m : Mem)
    → b.ebuf ≡ b.buf + 0
    → sprintputch ch b m ≡ (record b { cnt = b.cnt + 1 }, m)
unfolding sprintputch
sprintputch_full ch b m e = ground arith

sprintputch_room :
    (ch room : ℕ) (b : Sprintbuf) (m : Mem)
    → b.ebuf ≡ b.buf + suc room
    → sprintputch ch b m
      ≡ (record b { buf = b.buf + 1; cnt = b.cnt + 1 }, store m b.buf (ch % 2 ^ 8))
unfolding sprintputch
sprintputch_room ch room b m e = ground arith

Put-full :
    (ch : ℕ) (out : List ℕ) (b : Sprintbuf) (m : Mem) (r : Sprintbuf × Mem)
    → Put out 0 (record b { cnt = b.cnt + 1 }) m r
    → Put (ch ∷ out) 0 b m r
Put-full ch out b m r h = record {
  end = omega (arith, h.end);
  count = omega (arith, h.count);
  bytes = λ i lt. absurd (omega arith);
  same = h.same;
}

Put-room :
    (ch room : ℕ) (out : List ℕ) (b : Sprintbuf) (m : Mem) (r : Sprintbuf × Mem)
    → Put out room (record b { buf = b.buf + 1; cnt = b.cnt + 1 }) (store m b.buf (ch % 2 ^ 8)) r
    → Put (ch ∷ out) (suc room) b m r
Put-room ch room out b m r h = record {
  end = omega (arith, h.end);
  count = omega (arith, h.count);
  bytes = written;
  same = λ a far. h.same a (omega arith) ∙ store_ne m b.buf (ch % 2 ^ 8) a (omega arith);
}
  where
    written :
        (i : ℕ)
        → i < min (suc room) (suc (length out))
        → r.1 (b.buf + i) ≡ get_or (ch ∷ out) i 0 % 2 ^ 8
    written zero lt =
        ap r.1 (omega arith) ∙ h.same b.buf (omega arith) ∙ store_self m b.buf (ch % 2 ^ 8)
    written (suc i) lt = ap r.1 (omega arith) ∙ h.bytes i (omega arith)

put_all-Put :
    (out : List ℕ) (room : ℕ) (b : Sprintbuf) (m : Mem)
    → b.ebuf ≡ b.buf + room
    → Put out room b m (put_all out b m)
unfolding put_all
put_all-Put [] room b m e = record {
  end = omega arith;
  count = omega arith;
  bytes = λ i lt. absurd (omega arith);
  same = λ a far. refl;
}
put_all-Put (ch ∷ out) zero b m e =
    rw (sprintputch_full ch b m e) (Put-full ch out b m _ (put_all-Put out 0 _ m e))
put_all-Put (ch ∷ out) (suc room) b m e =
    rw (sprintputch_room ch room b m e)
      (Put-room ch room out b m _ (put_all-Put out room _ _ (omega arith)))

module _ (lits : Literals) (k : ℕ) (m : Mem) (buf : ℕ) (fmt : List ℕ) (args : Args) where
  -- If the format puts the characters `out`, then `vsnprintf` with a buffer of `n` bytes, `n` at
  -- least 1, returns the number of all of them, leaves the low bytes of the first `n - 1` in the
  -- buffer with a NUL behind them, and writes no byte outside the buffer.
  pub vsnprintf_lem :
      (n : ℕ) (out : List ℕ)
      → buf ≢ 0
      → 0 < n
      → vprintfmt lits k m fmt args ≡ ok out
      → (m' : Mem) × (vsnprintf lits k m buf (pos n) fmt args ≡ ok (pos (length out), m'))
        × ((i : ℕ) → i < min (n - 1) (length out) → m' (buf + i) ≡ get_or out i 0 % 2 ^ 8)
        × (m' (buf + min (n - 1) (length out)) ≡ 0)
        × SameOutside m' m buf n
  unfolding vsnprintf
  vsnprintf_lem n out ne room run =
      let start : Sprintbuf = record { buf = buf; ebuf = buf + n - 1; cnt = 0 } in
      let h = put_all-Put out (n - 1) start m (omega arith) in
      let (b, m') = put_all out start m in
      let live : (buf == 0 || ltb_ℤ (pos n) (pos 1)) ≡ false = ground arith in
      let end : b.buf ≡ buf + min (n - 1) (length out) = h.end in
      (
        store m' b.buf 0,
        rw (live, run)
            (ap (λ c. ok (pos c, store m' b.buf 0)) {x = b.cnt} {y = length out}
              (omega (arith, h.count))),
        λ i lt. store_ne m' b.buf 0 (buf + i) (omega arith) ∙ h.bytes i lt,
        ap (store m' b.buf 0) {x = buf + min (n - 1) (length out)} {y = b.buf} (omega arith)
            ∙ store_self m' b.buf 0,
        λ a far. store_ne m' b.buf 0 a (omega arith) ∙ h.same a (omega arith),
      )

  -- A null buffer, and a size below 1, give `-E_INVAL`, and nothing is formatted or written.
  vsnprintf_invalid :
      (n : ℤ) → (buf ≡ 0) ⊎ (n ≤ℤ pos 0) → vsnprintf lits k m buf n fmt args ≡ ok (minus_E_inval, m)
  unfolding vsnprintf
  vsnprintf_invalid n h = ground arith
