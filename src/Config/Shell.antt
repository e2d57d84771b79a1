-- ===== src/Config/Shell.antt =====
-- parseShell of internal/config/config.go. How a string is read as runes and a rune is written is the
-- work of unicode/utf8, and enters as a parameter.
pub mod Quoting
use ng_mux.Prelude.{
  ℕ, Bool, true, false, ◌||◌, List, [], ◌∷◌, ◌++◌, Option, none, some, if◌then◌else◌, ◌==◌, Bytes,
}

-- The runes that a loop over a string goes through, U+FFFD for each byte that is not UTF-8, and the
-- bytes that WriteRune writes.
pub record Utf8 : Type 0 where
  pub runes : Bytes → List ℕ
  pub write_rune : ℕ → Bytes

-- The state of the loop.
pub record Words : Type 0 where
  pub words : List Bytes
  pub cur : Bytes
  pub in_word : Bool
  pub quote : Option ℕ

abbrev pub no_words : Words
no_words = record { words = []; cur = []; in_word = false; quote = none }

module _ (utf8 : Utf8) where
  unfoldable pub shell_step : Option ℕ → Words → ℕ → Words
  shell_step (some q) s r =
      if r == q then record s { quote = none } else record s { cur = s.cur ++ utf8.write_rune r }
  shell_step none s r =
      if r == b'"' || r == b'\''
      then record s { quote = some r; in_word = true }
      else if r == b' ' || r == b'\t'
      then (if s.in_word
          then record s { words = s.words ++ s.cur ∷ []; cur = []; in_word = false }
          else s)
      else record s { cur = s.cur ++ utf8.write_rune r; in_word = true }

  unfoldable pub shell_run : Words → List ℕ → Words
  shell_run s [] = s
  shell_run s (r ∷ rs) = shell_run (shell_step s.quote s r) rs

-- The words of a value whose quotes are closed.
unfoldable pub shell_words : Words → List Bytes
shell_words s = if s.in_word then s.words ++ s.cur ∷ [] else s.words

unfoldable pub program_of : List Bytes → Option (Bytes × List Bytes)
program_of [] = none
program_of ([] ∷ ws) = none
program_of ((b ∷ w) ∷ ws) = some (b ∷ w, ws)

unfoldable pub shell_result : Option ℕ → Words → Option (Bytes × List Bytes)
shell_result (some q) s = none
shell_result none s = program_of (shell_words s)

unfoldable pub parse_shell : Utf8 → Bytes → (Bytes → Bool) → Option (Bytes × List Bytes)
parse_shell utf8 v exists =
    if exists v
    then some (v, [])
    else (let s = shell_run utf8 no_words (utf8.runes v) in shell_result s.quote s)
