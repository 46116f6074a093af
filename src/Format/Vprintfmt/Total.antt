-- ===== src/Format/Vprintfmt/Total.antt =====
-- `vprintfmt` ends on any format: it returns, or wants an argument that is not there.
use jos.Prelude.{
  ℕ, zero, suc, ◌+◌, ◌-◌, ◌^◌, ◌≤◌, ◌<◌, ◌≡◌, ◌≢◌, ap, ◌∙◌, List, [], ◌∷◌, ◌++◌, length, ◌==◌, leb,
  if◌then◌else◌, Bool-cases, inl, inr, Option, none, some, arith,
}
use mathlib.Core.Path.{subst}
use jos.Memory.{Mem}
use jos.Format.{Result, ok, ◌>>=◌, Spec, fresh, Args, va_word, Escape}
use jos.Format.Vprintfmt.{
  Literals, getuint, number, magnitude, error_format, text_format, put_error, string_arg, convert,
  escape, vprintfmt, max_error,
}
use jos.Format.Vprintfmt.Laws.{vprintfmt-append, vprintfmt-IsDecimal}
use jos.Format.Vprintfmt.Ends.{
  Ends, returns, Ends-bind, Ends-if, Finishes, Near, Fit, va_word-Ends, getuint-Ends, getint-Ends,
  reswitch-Ends, number-Ends, put_signed-Ends, put_text-Ends,
}

-- The literals are strings of at most `n` bytes.
abbrev pub Spelled : Mem → ℕ → Literals → Type 0
Spelled m n lits =
    Near m n lits.null_text × ((e : ℕ) → lits.error_string e ≢ 0 → Near m n (lits.error_string e))

magnitude_small : (w : ℕ) → w < 2 ^ 32 → magnitude w < 2 ^ 32
unfolding magnitude
magnitude_small w h = ground arith

module _ (lits : Literals) (m : Mem) (n : ℕ) (spelled : Spelled m n lits) where
  string_arg-Near :
      (k : ℕ) (printfmt : List ℕ → Args → Result (List ℕ)) (p : ℕ)
      → Near m n p
      → Near m n (string_arg lits k m printfmt p)
  unfolding string_arg
  string_arg-Near k printfmt p h = elim (Bool-cases (p == 0)) [
    | inl e ↦ rw e spelled.0
    | inr e ↦ rw e h
  ]

  abbrev IsSome : Option (List ℕ × Args) → Type 0
  IsSome none = ⊥
  IsSome (some r) = Unit {0}

  -- The two formats that `%e` prints with.
  error_format-Finishes :
      (k w : ℕ) → 8 ≤ k → w < 2 ^ 32 → Finishes (vprintfmt lits k m error_format (w ∷ []))
  unfolding vprintfmt
  error_format-Finishes k w h lt =
      let text : List ℕ = b'e' ∷ b'r' ∷ b'r' ∷ b'o' ∷ b'r' ∷ b' ' ∷ [] in
      let (out, is, run) = vprintfmt-IsDecimal lits (k - 7) m [] w [] lt in
      let at : length text + suc (k - 7) ≡ k = omega arith in
      let last : k - 7 ≡ suc (k - 8) = omega arith in
      let number = run ∙ ap (λ j. vprintfmt lits j m [] [] >>= λ rest. ok (out ++ rest)) last in
      subst (λ j. Finishes (vprintfmt lits j m error_format (w ∷ []))) at
        (rw
          (
            vprintfmt-append lits (suc (k - 7)) m text (b'%' ∷ b'd' ∷ []) (w ∷ []) (ground arith),
            number,
          )
          (returns tt))

  text_format-Finishes :
      (k p : ℕ) → n + 2 < k → Near m n p → Finishes (vprintfmt lits k m text_format (p ∷ []))
  unfolding vprintfmt escape
  text_format-Finishes (suc (suc k)) p h near =
      let again : List ℕ → Args → Result (List ℕ) = λ fmt args. vprintfmt lits (suc k) m fmt args in
      let string = string_arg-Near (suc (suc k)) again p near in
      let put =
        put_text-Ends m n (suc (suc k)) (string_arg lits (suc (suc k)) m again p) fresh string
          (omega arith) in
      Ends-bind {P = IsSome} (Ends-bind put (λ out u. returns tt)) (λ r is. printed r is)
    where
      printed :
          (r : Option (List ℕ × Args))
          → IsSome r
          → Finishes (elim r [
            | none ↦ (do rest ← vprintfmt lits (suc k) m (b's' ∷ []) (p ∷ []); ok (b'%' ∷ rest))
            | some (out, args') ↦ (do rest ← vprintfmt lits (suc k) m [] []; ok (out ++ rest))
          ])
      printed none is = absurd is
      printed (some r) is = returns tt
  text_format-Finishes (suc zero) p h near = absurd (omega arith)
  text_format-Finishes zero p h near = absurd (omega arith)

  -- What a conversion leaves.
  abbrev Converted : Option (List ℕ × Args) → Type 0
  Converted none = Unit {0}
  Converted (some (out, args)) = Fit m n args

  module _ (k : ℕ) (printfmt : List ℕ → Args → Result (List ℕ)) (fuel : n < k)
      (error_ends : (w : ℕ) → w < 2 ^ 32 → Finishes (printfmt error_format (w ∷ [])))
      (text_ends : (p : ℕ) → Near m n p → Finishes (printfmt text_format (p ∷ []))) where
    put_error-Finishes : (w : ℕ) → w < 2 ^ 32 → Finishes (put_error lits k m printfmt w)
    unfolding put_error
    put_error-Finishes w h =
        let e = magnitude w in
        let small = magnitude_small w h in
        Ends-if (leb max_error e) (error_ends e small)
          (elim (Bool-cases (lits.error_string e == 0)) [
            | inl z ↦ rw z (error_ends e small)
            | inr z ↦ rw z (text_ends (lits.error_string e) (spelled.1 e (ground arith)))
          ])

    -- The conversions of unsigned numbers.
    unsigned-Ends :
        (s : Spec) (args : Args) (base : ℕ)
        → Fit m n args
        → 2 ≤ base
        → base ≤ 16
        → Ends Converted
            (do (v, rest) ← getuint args s.lflag; out ← number v base s; ok (some (out, rest)))
    unsigned-Ends s args base h two le =
        Ends-bind (getuint-Ends m n args s.lflag h) (λ (v, rest) (lt, fit).
          Ends-bind (number-Ends m n v base s lt two le) (λ out u. returns fit))

    -- The cases of the switch from `%u` on.
    convert_unsigned :
        (s : Spec) (args : Args) (ch : ℕ)
        → Fit m n args
        → Ends Converted (
            if ch == b'u'
            then (do (n, args) ← getuint args s.lflag; out ← number n 10 s; ok (some (out, args)))
            else if ch == b'o'
            then (do (n, args) ← getuint args s.lflag; out ← number n 8 s; ok (some (out, args)))
            else if ch == b'p'
            then (do
              (n, args) ← va_word args
              out ← number n 16 s
              ok (some (b'0' ∷ b'x' ∷ out, args)))
            else if ch == b'x'
            then (do (n, args) ← getuint args s.lflag; out ← number n 16 s; ok (some (out, args)))
            else if ch == b'%'
            then ok (some (b'%' ∷ [], args))
            else ok none)
    convert_unsigned s args ch h =
        Ends-if (ch == b'u') (unsigned-Ends s args 10 h (omega arith) (omega arith)) (
          Ends-if (ch == b'o') (unsigned-Ends s args 8 h (omega arith) (omega arith)) (
            Ends-if (ch == b'p')
              (Ends-bind (va_word-Ends m n args h) (λ (v, rest) (lt, near, fit).
                Ends-bind (number-Ends m n v 16 s (omega arith) (omega arith) (omega arith))
                  (λ out u. returns fit)))
              (Ends-if (ch == b'x') (unsigned-Ends s args 16 h (omega arith) (omega arith))
                (Ends-if (ch == b'%') (returns h) (returns tt)))))

    convert-Ends :
        (s : Spec) (args : Args) (ch : ℕ)
        → Fit m n args
        → Ends Converted (convert lits k m printfmt s args ch)
    unfolding convert
    convert-Ends s args ch h =
        let word = va_word-Ends m n args h in
        Ends-if (ch == b'c') (Ends-bind word (λ (w, rest) (lt, near, fit). returns fit)) (
          Ends-if (ch == b'e')
            (Ends-bind word (λ (w, rest) (lt, near, fit).
              Ends-bind (put_error-Finishes w lt) (λ out u. returns fit)))
            (Ends-if (ch == b's')
              (Ends-bind word (λ (p, rest) (lt, near, fit).
                Ends-bind
                  (put_text-Ends m n k (string_arg lits k m printfmt p) s
                    (string_arg-Near k printfmt p near) fuel)
                  (λ out u. returns fit)))
              (Ends-if (ch == b'd')
                (Ends-bind (getint-Ends m n args s.lflag h) (λ (v, rest) (lt, fit).
                  Ends-bind (put_signed-Ends m n v s lt) (λ out u. returns fit)))
                (convert_unsigned s args ch h))))

    -- An escape ends if the rest of the format does.
    escape-Ends :
        (args : Args) (fmt : List ℕ)
        → Fit m n args
        → ((fmt' : List ℕ) (args' : Args)
            → length fmt' ≤ length fmt
            → Fit m n args'
            → Finishes (printfmt fmt' args'))
        → Finishes (escape lits k m printfmt args fmt)
    unfolding escape
    escape-Ends args fmt h rest =
        Ends-bind (reswitch-Ends m n none fresh args fmt h)
          (λ e (fit, le). Ends-bind (convert-Ends e.spec e.args e.conversion fit) (after e fit le))
      where
        after :
            (e : Escape)
            → Fit m n e.args
            → length e.behind ≤ length fmt
            → (r : Option (List ℕ × Args)) → Converted r
            → Finishes (elim r [
              | none ↦ (do rest ← printfmt fmt e.args; ok (b'%' ∷ rest))
              | some (out, args') ↦ (do rest ← printfmt e.behind args'; ok (out ++ rest))
            ])
        after e fit le none u = Ends-bind (rest fmt e.args (omega arith) fit) (λ out u. returns tt)
        after e fit le (some (out, args')) fit' =
            Ends-bind (rest e.behind args' le fit') (λ out u. returns tt)

  -- More rounds than the format and the longest string together have bytes, and ten, are enough.
  pub vprintfmt-Ends :
      (k : ℕ) (fmt : List ℕ) (args : Args)
      → Fit m n args
      → length fmt + n + 10 < k
      → Finishes (vprintfmt lits k m fmt args)
  unfolding vprintfmt
  vprintfmt-Ends zero fmt args h lt = absurd (omega arith)
  vprintfmt-Ends (suc k) [] args h lt = returns tt
  vprintfmt-Ends (suc k) (ch ∷ fmt) args h lt =
      Ends-if (ch == b'%')
        (escape-Ends (suc k) (vprintfmt lits k m) (omega arith)
          (λ w lt'. error_format-Finishes k w (omega arith) lt')
          (λ p near. text_format-Finishes k p (omega arith) near) args fmt h
          (λ fmt' args' le fit. vprintfmt-Ends k fmt' args' fit (omega arith)))
        (Ends-bind (vprintfmt-Ends k fmt args h (omega arith)) (λ out u. returns tt))
