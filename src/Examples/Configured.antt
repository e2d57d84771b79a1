-- ===== src/Examples/Configured.antt =====
-- The theorems about the configuration file, of internal/config, at concrete inputs.
use mathlib.Core.List.{map-append}
use ng_mux.Prelude.{
  ℕ, ◌++◌, map, ltb, ap, ◌∙◌, arith, ◌≡◌, refl, Bool, false, List, [], ◌∷◌, none, some, Bytes,
  bytes_eq, codes, if◌then◌else◌,
}
use ng_mux.Prelude.Int.{pos}
use ng_mux.Config.{GoText, default_config, load_lines, apply}
use ng_mux.Config.Shell.{Utf8, no_words, shell_run, shell_words, parse_shell}
use ng_mux.Config.Settings.{IsValid, load-IsValid}
use ng_mux.Config.Rejecting.{KeptOnError, apply-KeptOnError}
use ng_mux.Config.Shell.Quoting.{SplitsAtAscii, quoted_line, parse_shell-quoted_line}

-- Runes of one byte; other bytes are read as U+FFFD, of three.
abbrev ascii_rune : ℕ → ℕ
ascii_rune b = if ltb b 128 then b else 0xfffd

abbrev ascii_only : Utf8
ascii_only = record {
  runes = map ascii_rune;
  write_rune = λ r. if ltb r 128 then r ∷ [] else 0xef ∷ 0xbf ∷ 0xbd ∷ [];
}

ascii_only-SplitsAtAscii : SplitsAtAscii ascii_only
ascii_only-SplitsAtAscii = record {
  empty = refl;
  ascii = λ w b s h.
      map-append ascii_rune w (b ∷ s)
      ∙ ap (λ r. map ascii_rune w ++ r ∷ map ascii_rune s) (ground arith);
}

-- Texts of small letters, in which the only number is 5 and a word is as long as its bytes.
abbrev plain_text : GoText
plain_text = record {
  atoi = λ s. if bytes_eq s (codes "5") then some (pos 5) else none;
  to_lower = λ s. s;
  trim_space = λ s. s;
  fields = λ s. shell_words (shell_run ascii_only no_words s);
  utf8 = ascii_only;
}

abbrev no_file : Bytes → Bool
no_file s = false

abbrev some_lines : List Bytes
some_lines =
    codes "set history-limit 5"
    ∷ codes "# colours"
    ∷ codes "set status-fg bright-red"
    ∷ codes "set theme pink"
    ∷ codes "bind S split-window -v"
    ∷ []

load-IsValid_example :
    IsValid plain_text (load_lines plain_text no_file default_config 1 some_lines).0
load-IsValid_example = load-IsValid plain_text no_file some_lines

apply-KeptOnError_example :
    KeptOnError default_config
      (apply plain_text no_file default_config (codes "set" ∷ codes "theme" ∷ codes "pink" ∷ []))
apply-KeptOnError_example =
    apply-KeptOnError plain_text no_file default_config
      (codes "set" ∷ codes "theme" ∷ codes "pink" ∷ [])

parse_shell-quoted_line_example :
    parse_shell ascii_only (quoted_line (codes "/my sh" ∷ codes "-l" ∷ [])) no_file
    ≡ some (codes "/my sh", codes "-l" ∷ [])
parse_shell-quoted_line_example =
    parse_shell-quoted_line ascii_only ascii_only-SplitsAtAscii no_file b'/' (codes "my sh")
      (codes "-l" ∷ [])
      ((refl, (refl, (refl, (refl, (refl, (refl, (refl, tt))))))), ((refl, (refl, (refl, tt))), tt))
      refl
