-- ===== src/Readline/Prompt.antt =====
-- What `readline` prints before it reads.
use jos.Prelude.{
  ℕ, suc, ◌-◌, ◌∷◌, ◌≡◌, refl, ap, ◌∙◌, false, List, [], ◌==◌, ◌++◌, append-nil, arith,
}
use mathlib.Core.Path.{subst}
use jos.Memory.{Mem}
use jos.Format.{ok, ◌>>=◌}
use jos.Format.Vprintfmt.{Literals}
use jos.Format.Vprintfmt.Pieces.{Puts, Puts-end, Puts-string, Puts-weaken, IsLiteral}
use jos.Console.Output.{Machine}
use jos.Console.Output.Sent.{AllBytes, Apart, put_line, Sends-nothing}
use jos.Console.Cprintf.Printed.{Prints, cprintf-Prints}
use jos.Readline.{prompt_format, show_prompt}

-- The text of a prompt: none for a null pointer, and otherwise the ASCII string at the address
pub data IsPrompt (k : ℕ) (m : Mem) : ℕ → List ℕ → Type 0 where
  silent : IsPrompt k m 0 []
  spoken : {p : ℕ} {text : List ℕ} → IsLiteral k m p text → IsPrompt k m p text

module _ (lits : Literals) (k : ℕ) (m : Mem) where
  prompt-Puts :
      (p : ℕ) (text : List ℕ)
      → IsLiteral k m p text
      → Puts lits m k prompt_format (p ∷ []) (text ++ [])
  prompt-Puts p text h =
      let room = h.short in
      Puts-weaken lits m (suc (k - 1)) k prompt_format (p ∷ []) (text ++ []) (omega arith) (
        Puts-string lits m (k - 1) p text [] [] [] h.nonnull h.spelled h.ascii (omega arith) h.sized
          (Puts-weaken lits m 1 (k - 1) [] [] [] (omega arith) (Puts-end lits m [])))

  pub show_prompt-put_line :
      (p : ℕ) (text : List ℕ) (s : Machine)
      → IsPrompt k m p text
      → Apart s
      → (show_prompt lits k m p s ≡ ok (put_line text s)) × Prints text s (put_line text s)
  unfolding show_prompt
  show_prompt-put_line p text s silent apart =
      (refl, record { sent = Sends-nothing s; screen = λ v. v })
  show_prompt-put_line p text s (spoken h) apart =
      let live : (p == 0) ≡ false = (let ne = h.nonnull in ground arith) in
      let puts = prompt-Puts p text h in
      let (run, prints) =
        cprintf-Prints lits k m prompt_format (p ∷ []) s text
          (puts.puts k (omega arith) ∙ ap ok (append-nil text))
          (subst AllBytes (append-nil text) puts.bytes) apart in
      (rw live (ap (λ r. r >>= λ (cnt, s'). ok s') run), prints)
