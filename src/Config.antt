-- ===== src/Config.antt =====
-- internal/config/config.go: the configuration file. The functions of strconv, strings and
-- unicode/utf8 that it calls are a parameter, and so is what the file system says. Texts are byte
-- strings; the words of an error are not kept.
pub mod Shell
pub mod Settings
pub mod Rejecting
use ng_mux.Prelude.{
  ℕ, zero, suc, ◌+◌, ◌-◌, Bool, true, false, not, ◌&&◌, ◌||◌, List, [], ◌∷◌, ◌++◌, Option, none,
  some, if◌then◌else◌, leb, ltb, ◌==◌, length, Bytes, bytes_eq, codes, has_name, put, get_elem?,
}
use ng_mux.Prelude.Int.{ℤ, pos, negsuc, ltb_ℤ}
use ng_mux.Config.Shell.{Utf8, parse_shell}

-- strconv.Atoi, strings.ToLower, TrimSpace and Fields, and the runes of a string.
pub record GoText : Type 0 where
  pub atoi : Bytes → Option ℤ
  pub to_lower : Bytes → Bytes
  pub trim_space : Bytes → Bytes
  pub fields : Bytes → List Bytes
  pub utf8 : Utf8

pub record Config : Type 0 where
  pub prefix : ℕ
  pub history_limit : ℤ
  pub default_shell : Bytes
  pub default_shell_args : List Bytes
  pub mouse : Bool
  pub escape_time : ℤ
  pub status_fg : ℤ
  pub status_bg : ℤ
  pub set_clipboard : Bool
  pub theme : Bytes
  pub pane_titles : Bool
  pub binds : List (Bytes × Bytes)
  pub colours : List (Bytes × ℤ)

unfoldable pub default_config : Config
default_config = record {
  prefix = 2;
  history_limit = pos 2000;
  default_shell = [];
  default_shell_args = [];
  mouse = true;
  escape_time = pos 25;
  status_fg = negsuc 0;
  status_bg = negsuc 0;
  set_clipboard = true;
  theme = codes "dark";
  pane_titles = true;
  binds = [];
  colours = [];
}

-- The names of colourKeys, and those of the themes.
unfoldable pub colour_keys : List Bytes
colour_keys =
    codes "session-fg"
    ∷ codes "session-bg"
    ∷ codes "tab-fg"
    ∷ codes "tab-bg"
    ∷ codes "tab-active-fg"
    ∷ codes "tab-active-bg"
    ∷ codes "tab-alert-fg"
    ∷ codes "tab-alert-bg"
    ∷ codes "mode-fg"
    ∷ codes "mode-bg"
    ∷ codes "border-fg"
    ∷ codes "border-active-fg"
    ∷ codes "pane-title-active-fg"
    ∷ codes "pane-title-active-bg"
    ∷ []

unfoldable pub theme_names : List Bytes
theme_names = codes "dark" ∷ codes "light" ∷ codes "mono" ∷ []

pub data ConfigError : Type 0 where
  bad_key bad_number bad_shell bad_bool bad_colour bad_theme unknown_setting : ConfigError
  set_needs_value bind_needs_command bind_needs_one_character unknown_directive : ConfigError

-- ctrl
unfoldable pub ctrl : ℕ → Option ℕ
ctrl r =
    if leb b'a' r && leb r b'z'
    then some (r - b'a' + 1)
    else if leb b'A' r && leb r b'Z'
    then some (r - b'A' + 1)
    else none

unfoldable pub parse_key : Bytes → Option ℕ
parse_key (a ∷ []) = some a
parse_key (a ∷ b ∷ []) = if a == b'^' then ctrl b else none
parse_key (a ∷ b ∷ c ∷ []) = if (a == b'C' || a == b'c') && b == b'-' then ctrl c else none
parse_key _ = none

abbrev pub on_words : List Bytes
on_words = codes "on" ∷ codes "true" ∷ codes "yes" ∷ codes "1" ∷ []

abbrev pub off_words : List Bytes
off_words = codes "off" ∷ codes "false" ∷ codes "no" ∷ codes "0" ∷ []

unfoldable pub colour_names : List Bytes
colour_names =
    codes "black"
    ∷ codes "red"
    ∷ codes "green"
    ∷ codes "yellow"
    ∷ codes "blue"
    ∷ codes "magenta"
    ∷ codes "cyan"
    ∷ codes "white"
    ∷ []

-- theme.Default
abbrev pub default_colour : ℕ
default_colour = 16777216

-- strings.CutPrefix
abbrev pub cut_prefix : Bytes → Bytes → Option Bytes
cut_prefix [] s = some s
cut_prefix (p ∷ ps) [] = none
cut_prefix (p ∷ ps) (b ∷ s) = if b == p then cut_prefix ps s else none

-- The index of a name in a list of names.
unfoldable pub name_index : Bytes → ℕ → List Bytes → Option ℕ
name_index n i [] = none
name_index n i (x ∷ xs) = if bytes_eq n x then some i else name_index n (i + 1) xs

-- The index of a name after "bright-".
unfoldable pub bright_index : Option Bytes → Option ℕ
bright_index none = none
bright_index (some base) = name_index base 8 colour_names

-- strings.Join with a space.
abbrev pub join_words : List Bytes → Bytes
join_words [] = []
join_words (w ∷ []) = w
join_words (w ∷ v ∷ ws) = w ++ (b' ' ∷ join_words (v ∷ ws))

-- A line that is empty or starts with '#'.
abbrev pub is_skipped : Bytes → Bool
is_skipped [] = true
is_skipped (b ∷ t) = b == b'#'

-- The text before the first '#'.
abbrev pub before_comment : Bytes → Bytes
before_comment [] = []
before_comment (b ∷ s) = if b == b'#' then [] else b ∷ before_comment s

-- The settings, by name.
pub data Setting : Type 0 where
  prefix history_limit default_shell mouse set_clipboard escape_time status_fg status_bg theme
        pane_titles :
      Setting
  element : Bytes → Setting
  unknown : Setting

unfoldable pub setting_of : Bytes → Setting
setting_of n =
    if bytes_eq n (codes "prefix")
    then Setting.prefix
    else if bytes_eq n (codes "history-limit")
    then Setting.history_limit
    else if bytes_eq n (codes "default-shell")
    then Setting.default_shell
    else if bytes_eq n (codes "mouse")
    then Setting.mouse
    else if bytes_eq n (codes "set-clipboard")
    then Setting.set_clipboard
    else if bytes_eq n (codes "escape-time")
    then Setting.escape_time
    else if bytes_eq n (codes "status-fg")
    then Setting.status_fg
    else if bytes_eq n (codes "status-bg")
    then Setting.status_bg
    else if bytes_eq n (codes "theme")
    then Setting.theme
    else if bytes_eq n (codes "pane-titles")
    then Setting.pane_titles
    else if has_name n colour_keys
    then element n
    else unknown

module _ (go : GoText) where
  unfoldable pub parse_bool : Bytes → Option Bool
  parse_bool s =
      if has_name (go.to_lower s) on_words
      then some true
      else if has_name (go.to_lower s) off_words
      then some false
      else none

  unfoldable pub number_colour : Option ℤ → Option ℤ
  number_colour none = none
  number_colour (some n) = if ltb_ℤ n (pos 0) || ltb_ℤ (pos 255) n then none else some n

  -- The cases of parseColor: "default", a bright name, a plain name, and a number.
  unfoldable pub pick_colour : Bool → Option ℕ → Option ℕ → Bytes → Option ℤ
  pick_colour true bright plain s = some (pos default_colour)
  pick_colour false (some i) plain s = some (pos i)
  pick_colour false none (some i) s = some (pos i)
  pick_colour false none none s = number_colour (go.atoi s)

  unfoldable pub parse_color : Bytes → Option ℤ
  parse_color s =
      let name = go.to_lower s in
      pick_colour (bytes_eq name (codes "default"))
        (bright_index (cut_prefix (codes "bright-") name)) (name_index name 0 colour_names) s

  unfoldable pub parse_count : Option ℤ → Option ℤ
  parse_count none = none
  parse_count (some n) = if ltb_ℤ n (pos 0) then none else some n

  -- What a parsed value does to the configuration; a value that does not parse does nothing.
  abbrev pub store {ℓ} :
      {A : Type ℓ} → Config → ConfigError → Option A → (A → Config) → Config × Option ConfigError
  store c e none g = (c, some e)
  store c e (some a) g = (g a, none)

  module _ (exists : Bytes → Bool) where
    unfoldable pub set_value : Config → Setting → Bytes → Config × Option ConfigError
    set_value c Setting.prefix v = store c bad_key (parse_key v) (λ b. record c { prefix = b })
    set_value c Setting.history_limit v =
        store c bad_number (parse_count (go.atoi v)) (λ n. record c { history_limit = n })
    set_value c Setting.default_shell v =
        store c bad_shell (parse_shell go.utf8 v exists)
          (λ s. record c { default_shell = s.0; default_shell_args = s.1 })
    set_value c Setting.mouse v = store c bad_bool (parse_bool v) (λ b. record c { mouse = b })
    set_value c Setting.set_clipboard v =
        store c bad_bool (parse_bool v) (λ b. record c { set_clipboard = b })
    set_value c Setting.escape_time v =
        store c bad_number (parse_count (go.atoi v)) (λ n. record c { escape_time = n })
    set_value c Setting.status_fg v =
        store c bad_colour (parse_color v) (λ n. record c { status_fg = n })
    set_value c Setting.status_bg v =
        store c bad_colour (parse_color v) (λ n. record c { status_bg = n })
    set_value c Setting.theme v =
        if has_name v theme_names then (record c { theme = v }, none) else (c, some bad_theme)
    set_value c Setting.pane_titles v =
        store c bad_bool (parse_bool v) (λ b. record c { pane_titles = b })
    set_value c (element n) v =
        store c bad_colour (parse_color v) (λ k. record c { colours = put n k c.colours })
    set_value c unknown v = (c, some unknown_setting)

    unfoldable pub apply_set : Config → List Bytes → Config × Option ConfigError
    apply_set c (name ∷ v ∷ vs) = set_value c (setting_of name) (join_words (v ∷ vs))
    apply_set c _ = (c, some set_needs_value)

    unfoldable pub apply_bind : Config → List Bytes → Config × Option ConfigError
    apply_bind c (key ∷ w ∷ ws) =
        if length (go.utf8.runes key) == 1
        then (record c { binds = put key (join_words (w ∷ ws)) c.binds }, none)
        else (c, some bind_needs_one_character)
    apply_bind c _ = (c, some bind_needs_command)

    -- apply
    unfoldable pub apply : Config → List Bytes → Config × Option ConfigError
    apply c [] = (c, none)
    apply c (d ∷ rest) =
        if bytes_eq d (codes "set")
        then apply_set c rest
        else if bytes_eq d (codes "bind")
        then apply_bind c rest
        else (c, some unknown_directive)

    -- One line of the loop of LoadFile.
    unfoldable pub load_line : Config → Bytes → Config × Option ConfigError
    load_line c l =
        let text = go.trim_space l in
        if is_skipped text
        then (c, none)
        else apply c (go.fields (go.trim_space (before_comment text)))

    abbrev pub warn : ℕ → Option ConfigError → List (ℕ × ConfigError) → List (ℕ × ConfigError)
    warn n none warnings = warnings
    warn n (some e) warnings = (n, e) ∷ warnings

    -- The loop of LoadFile: the configuration and the warnings, with their line numbers.
    unfoldable pub load_lines : Config → ℕ → List Bytes → Config × List (ℕ × ConfigError)
    load_lines c n [] = (c, [])
    load_lines c n (l ∷ ls) =
        let (c', failed) = load_line c l in
        let (last, warnings) = load_lines c' (n + 1) ls in (last, warn n failed warnings)
