-- ===== src/Config/Shell/Quoting.antt =====
-- parseShell of internal/config/config.go on words in double quotes.
use mathlib.Core.List.{append_assoc, append-nil}
use ng_mux.Prelude.{
  ℕ, ◌≡◌, ◌<◌, refl, ap, ◌∙◌, Bool, true, false, List, [], ◌∷◌, ◌++◌, none, some, ◌==◌, Bytes, All,
  arith,
}
use ng_mux.Config.Shell.{Utf8}
use ng_mux.Config.Shell

-- A word in double quotes.
abbrev pub quoted : Bytes → Bytes
quoted w = b'"' ∷ (w ++ b'"' ∷ [])

-- Words in double quotes, with a space between two of them.
unfoldable pub quoted_line : List Bytes → Bytes
quoted_line [] = []
quoted_line (w ∷ []) = quoted w
quoted_line (w ∷ v ∷ ws) = b'"' ∷ (w ++ b'"' ∷ b' ' ∷ quoted_line (v ∷ ws))

abbrev within : List Bytes → Bytes → Shell.Words
within ws cur = record { words = ws; cur = cur; in_word = true; quote = some b'"' }

abbrev after : List Bytes → Bytes → Shell.Words
after ws cur = record { words = ws; cur = cur; in_word = true; quote = none }

abbrev between : List Bytes → Shell.Words
between ws = record { words = ws; cur = []; in_word = false; quote = none }

-- A byte below 128 is a rune by itself, wherever it stands: no part of another rune is one.
pub record SplitsAtAscii (utf8 : Utf8) : Type 0 where
  pub empty : utf8.runes [] ≡ []
  pub ascii :
      (w : Bytes) (b : ℕ) (s : Bytes)
      → b < 128
      → utf8.runes (w ++ b ∷ s) ≡ utf8.runes w ++ b ∷ utf8.runes s

module _ (utf8 : Utf8) where
  -- The bytes of runes.
  abbrev pub write_runes : List ℕ → Bytes
  write_runes [] = []
  write_runes (r ∷ rs) = utf8.write_rune r ++ write_runes rs

  -- Valid UTF-8 is what its runes are written as.
  abbrev pub IsUtf8 : Bytes → Type 0
  IsUtf8 w = write_runes (utf8.runes w) ≡ w

  abbrev pub HasNoQuote : Bytes → Type 0
  HasNoQuote w = All (λ r. (r == b'"') ≡ false) (utf8.runes w)

  abbrev pub IsQuotable : Bytes → Type 0
  IsQuotable w = IsUtf8 w × HasNoQuote w

  step-quoted :
      (ws : List Bytes) (cur : Bytes) (r : ℕ)
      → (r == b'"') ≡ false
      → Shell.shell_step utf8 (some b'"') (within ws cur) r ≡ within ws (cur ++ utf8.write_rune r)
  unfolding Shell.shell_step
  step-quoted ws cur r h = rw h refl

  run-quoted :
      (ws : List Bytes) (cur : Bytes) (rs rest : List ℕ)
      → All (λ r. (r == b'"') ≡ false) rs
      → Shell.shell_run utf8 (within ws cur) (rs ++ b'"' ∷ rest)
        ≡ Shell.shell_run utf8 (after ws (cur ++ write_runes rs)) rest
  unfolding Shell.shell_run Shell.shell_step
  run-quoted ws cur [] rest h = rw (append-nil cur) refl
  run-quoted ws cur (r ∷ rs) rest h =
      ap (λ s. Shell.shell_run utf8 s (rs ++ b'"' ∷ rest)) (step-quoted ws cur r h.0)
      ∙ run-quoted ws (cur ++ utf8.write_rune r) rs rest h.1
      ∙ ap (λ c. Shell.shell_run utf8 (after ws c) rest)
          (append_assoc cur (utf8.write_rune r) (write_runes rs))

  -- A word in quotes, from outside any word.
  run-word :
      (ws : List Bytes) (w : Bytes) (rest : List ℕ)
      → IsQuotable w
      → Shell.shell_run utf8 (between ws) (b'"' ∷ (utf8.runes w ++ b'"' ∷ rest))
        ≡ Shell.shell_run utf8 (after ws w) rest
  unfolding Shell.shell_run Shell.shell_step
  run-word ws w rest h =
      run-quoted ws [] (utf8.runes w) rest h.1
      ∙ ap (λ c. Shell.shell_run utf8 (after ws c) rest) h.0

  module _ (ok : SplitsAtAscii utf8) where
    runes-ascii : (b : ℕ) (rest : Bytes) → b < 128 → utf8.runes (b ∷ rest) ≡ b ∷ utf8.runes rest
    runes-ascii b rest h = ok.ascii [] b rest h ∙ ap (λ x. x ++ b ∷ utf8.runes rest) ok.empty

    runes-quoted :
        (w rest : Bytes)
        → utf8.runes (b'"' ∷ (w ++ b'"' ∷ rest)) ≡ b'"' ∷ (utf8.runes w ++ b'"' ∷ utf8.runes rest)
    runes-quoted w rest =
        runes-ascii b'"' (w ++ b'"' ∷ rest) (omega arith)
        ∙ ap (λ x. b'"' ∷ x) (ok.ascii w b'"' rest (omega arith))

    run-next :
        (ws : List Bytes) (w rest : Bytes)
        → IsQuotable w
        → Shell.shell_run utf8 (between ws) (utf8.runes (b'"' ∷ (w ++ b'"' ∷ b' ' ∷ rest)))
          ≡ Shell.shell_run utf8 (between (ws ++ w ∷ [])) (utf8.runes rest)
    unfolding Shell.shell_run Shell.shell_step
    run-next ws w rest h =
        ap (Shell.shell_run utf8 (between ws)) (
          runes-quoted w (b' ' ∷ rest)
          ∙ ap (λ x. b'"' ∷ (utf8.runes w ++ b'"' ∷ x)) (runes-ascii b' ' rest (omega arith)))
        ∙ run-word ws w (b' ' ∷ utf8.runes rest) h

    run-quoted_line :
        (ws : List Bytes) (w : Bytes) (vs : List Bytes)
        → All IsQuotable (w ∷ vs)
        → let s = Shell.shell_run utf8 (between ws) (utf8.runes (quoted_line (w ∷ vs))) in
          Shell.shell_result s.quote s ≡ Shell.program_of (ws ++ w ∷ vs)
    unfolding Shell.shell_run Shell.shell_step Shell.shell_result Shell.shell_words quoted_line
    run-quoted_line ws w [] h =
        ap (λ s. Shell.shell_result s.quote s)
          (ap (Shell.shell_run utf8 (between ws))
              (runes-quoted w [] ∙ ap (λ x. b'"' ∷ (utf8.runes w ++ b'"' ∷ x)) ok.empty)
            ∙ run-word ws w [] h.0)
    run-quoted_line ws w (v ∷ vs) h =
        ap (λ s. Shell.shell_result s.quote s) (run-next ws w (quoted_line (v ∷ vs)) h.0)
        ∙ run-quoted_line (ws ++ w ∷ []) v vs h.1
        ∙ ap Shell.program_of (append_assoc ws (w ∷ []) (v ∷ vs))

    -- A default-shell value that puts each word in double quotes, with one space between two of
    -- them, is parsed back into the program and its arguments, where each word is valid UTF-8
    -- without a double quote, the program is not empty, the value as a whole names no file, and
    -- a byte below 128 is a rune by itself wherever it stands.
    pub parse_shell-quoted_line :
        (exists : Bytes → Bool) (b : ℕ) (w : Bytes) (vs : List Bytes)
        → All IsQuotable ((b ∷ w) ∷ vs)
        → exists (quoted_line ((b ∷ w) ∷ vs)) ≡ false
        → Shell.parse_shell utf8 (quoted_line ((b ∷ w) ∷ vs)) exists ≡ some (b ∷ w, vs)
    unfolding Shell.parse_shell Shell.program_of
    parse_shell-quoted_line exists b w vs h n = rw n (run-quoted_line [] (b ∷ w) vs h)
