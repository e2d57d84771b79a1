-- ===== src/Config/Settings.antt =====
-- The configurations that internal/config/config.go can come to.
use ng_mux.Prelude.{
  ℕ, ◌+◌, ◌≡◌, ◌<◌, ◌⊎◌, inl, inr, refl, arith, Bool, true, false, List, [], ◌∷◌, Option, none,
  some, if◌then◌else◌, ◌==◌, Bytes, bytes_eq, codes, has_name, put, All, Bool-cases, length,
}
use ng_mux.Prelude.Int.{ℤ, pos, negsuc, ltb_ℤ}
use ng_mux.Config.Shell.{parse_shell}
use ng_mux.Config

-- A palette index, or the terminal's own colour.
abbrev pub IsColour : ℤ → Type 0
IsColour n =
    (n ≡ pos Config.default_colour) ⊎ ((ltb_ℤ n (pos 0) ≡ false) × (ltb_ℤ (pos 255) n ≡ false))

All-put {ℓ} :
    {V : Type 0} (P : Bytes × V → Type ℓ) (k : Bytes) (v : V) (m : List (Bytes × V))
    → P (k, v)
    → All P m
    → All P (put k v m)
All-put P k v [] p h = (p, tt)
All-put P k v ((j, w) ∷ m) p h = elim (Bool-cases (bytes_eq j k)) [
  | inl e ↦ rw e (p, h.1)
  | inr e ↦ rw e (h.0, All-put P k v m p h.1)
]

name_index_bound :
    (n : Bytes) (i : ℕ) (xs : List Bytes) (k : ℕ)
    → Config.name_index n i xs ≡ some k
    → k < i + length xs
unfolding Config.name_index
name_index_bound n i [] k h = absurd (ground arith)
name_index_bound n i (x ∷ xs) k h = ground (arith, name_index_bound n (i + 1) xs k)

length-colour_names : length Config.colour_names ≡ 8
unfolding Config.colour_names
length-colour_names = refl

bright_index_bound : (o : Option Bytes) (i : ℕ) → Config.bright_index o ≡ some i → i < 16
unfolding Config.bright_index
bright_index_bound none i h = absurd (ground arith)
bright_index_bound (some base) i h =
    omega (arith, length-colour_names, name_index_bound base 8 Config.colour_names i h)

-- The name of an element's colour is one of the list.
abbrev pub Known : Config.Setting → Type 0
Known (Config.element n) = has_name n Config.colour_keys ≡ true
Known _ = Unit {0}

either : (b : Bool) (x y : Config.Setting) → Known x → Known y → Known (if b then x else y)
either true x y p q = p
either false x y p q = q

element_or :
    (n : Bytes) (b : Bool)
    → has_name n Config.colour_keys ≡ b
    → Known (if b then Config.element n else Config.unknown)
element_or n true e = e
element_or n false e = tt

setting_of-Known : (n : Bytes) → Known (Config.setting_of n)
unfolding Config.setting_of
setting_of-Known n = ground arith

module _ (go : Config.GoText) where
  pub record IsValid (c : Config.Config) : Type 0 where
    pub limit : ltb_ℤ c.history_limit (pos 0) ≡ false
    pub delay : ltb_ℤ c.escape_time (pos 0) ≡ false
    pub status_text : (c.status_fg ≡ negsuc 0) ⊎ IsColour c.status_fg
    pub status_back : (c.status_bg ≡ negsuc 0) ⊎ IsColour c.status_bg
    pub known_theme : has_name c.theme Config.theme_names ≡ true
    pub elements : All (λ e. (has_name e.0 Config.colour_keys ≡ true) × IsColour e.1) c.colours
    pub keys : All (λ e. (length (go.utf8.runes e.0) == 1) ≡ true) c.binds

  number_colour-IsColour : (o : Option ℤ) (n : ℤ) → Config.number_colour go o ≡ some n → IsColour n
  unfolding Config.number_colour
  number_colour-IsColour none n h = absurd (ground arith)
  number_colour-IsColour (some k) n h = ground arith

  named-IsColour : (i : ℕ) (n : ℤ) → i < 16 → some (pos i) ≡ some n → IsColour n
  named-IsColour i n p h = ground arith

  pick_colour-IsColour :
      (b : Bool) (bright plain : Option ℕ) (s : Bytes) (n : ℤ)
      → ((i : ℕ) → bright ≡ some i → i < 16)
      → ((i : ℕ) → plain ≡ some i → i < 16)
      → Config.pick_colour go b bright plain s ≡ some n
      → IsColour n
  unfolding Config.pick_colour
  pick_colour-IsColour true bright plain s n p q h = ground arith
  pick_colour-IsColour false (some i) plain s n p q h = named-IsColour i n (p i refl) h
  pick_colour-IsColour false none (some i) s n p q h = named-IsColour i n (q i refl) h
  pick_colour-IsColour false none none s n p q h = number_colour-IsColour (go.atoi s) n h

  -- Every colour that parseColor accepts is an index of the palette or the terminal's own colour.
  pub parse_color-IsColour : (s : Bytes) (n : ℤ) → Config.parse_color go s ≡ some n → IsColour n
  unfolding Config.parse_color
  parse_color-IsColour s n h =
      let name = go.to_lower s in
      pick_colour-IsColour (bytes_eq name (codes "default"))
        (Config.bright_index (Config.cut_prefix (codes "bright-") name))
        (Config.name_index name 0 Config.colour_names) s n
        (λ i e. bright_index_bound (Config.cut_prefix (codes "bright-") name) i e)
        (λ i e. omega (arith, length-colour_names, name_index_bound name 0 Config.colour_names i e))
        h

  parse_count-positive :
      (o : Option ℤ) (n : ℤ) → Config.parse_count go o ≡ some n → ltb_ℤ n (pos 0) ≡ false
  unfolding Config.parse_count
  parse_count-positive none n h = absurd (ground arith)
  parse_count-positive (some k) n h = ground arith

  -- Storing a value that is allowed.
  store-IsValid {ℓ} :
      {A : Type ℓ} (c : Config.Config) (e : Config.ConfigError) (o : Option A)
      (g : A → Config.Config)
      → ((a : A) → o ≡ some a → IsValid (g a))
      → IsValid c
      → IsValid (Config.store go c e o g).0
  store-IsValid c e none g h v = v
  store-IsValid c e (some a) g h v = h a refl

  default_config-IsValid : IsValid Config.default_config
  unfolding Config.default_config Config.theme_names
  default_config-IsValid = record {
    limit = refl;
    delay = refl;
    status_text = inl refl;
    status_back = inl refl;
    known_theme = refl;
    elements = tt;
    keys = tt;
  }

  -- One field changed to an allowed value.
  status_fg-IsValid :
      (c : Config.Config) (n : ℤ) → IsColour n → IsValid c → IsValid (record c { status_fg = n })
  status_fg-IsValid c n p v = record {
    limit = v.limit;
    delay = v.delay;
    status_text = inr p;
    status_back = v.status_back;
    known_theme = v.known_theme;
    elements = v.elements;
    keys = v.keys;
  }

  status_bg-IsValid :
      (c : Config.Config) (n : ℤ) → IsColour n → IsValid c → IsValid (record c { status_bg = n })
  status_bg-IsValid c n p v = record {
    limit = v.limit;
    delay = v.delay;
    status_text = v.status_text;
    status_back = inr p;
    known_theme = v.known_theme;
    elements = v.elements;
    keys = v.keys;
  }

  theme-IsValid :
      (c : Config.Config) (name : Bytes)
      → has_name name Config.theme_names ≡ true
      → IsValid c
      → IsValid (record c { theme = name })
  theme-IsValid c name p v = record {
    limit = v.limit;
    delay = v.delay;
    status_text = v.status_text;
    status_back = v.status_back;
    known_theme = p;
    elements = v.elements;
    keys = v.keys;
  }

  element-IsValid :
      (c : Config.Config) (name : Bytes) (n : ℤ)
      → has_name name Config.colour_keys ≡ true
      → IsColour n
      → IsValid c
      → IsValid (record c { colours = put name n c.colours })
  element-IsValid c name n p q v = record {
    limit = v.limit;
    delay = v.delay;
    status_text = v.status_text;
    status_back = v.status_back;
    known_theme = v.known_theme;
    elements =
        All-put (λ e. (has_name e.0 Config.colour_keys ≡ true) × IsColour e.1) name n c.colours
          (p, q) v.elements;
    keys = v.keys;
  }

  bind-IsValid :
      (c : Config.Config) (key line : Bytes)
      → (length (go.utf8.runes key) == 1) ≡ true
      → IsValid c
      → IsValid (record c { binds = put key line c.binds })
  bind-IsValid c key line p v = record {
    limit = v.limit;
    delay = v.delay;
    status_text = v.status_text;
    status_back = v.status_back;
    known_theme = v.known_theme;
    elements = v.elements;
    keys = All-put (λ e. (length (go.utf8.runes e.0) == 1) ≡ true) key line c.binds p v.keys;
  }

  module _ (exists : Bytes → Bool) where
    set_value-IsValid :
        (c : Config.Config) (s : Config.Setting) (value : Bytes)
        → Known s
        → IsValid c
        → IsValid (Config.set_value go exists c s value).0
    unfolding Config.set_value
    set_value-IsValid c Config.Setting.prefix value k v =
        store-IsValid c Config.bad_key (Config.parse_key value) (λ b. record c { prefix = b })
          (λ b e. ground arith) v
    set_value-IsValid c Config.Setting.history_limit value k v =
        store-IsValid c Config.bad_number (Config.parse_count go (go.atoi value))
          (λ n. record c { history_limit = n })
          (λ n e. ground (arith, parse_count-positive (go.atoi value) n e)) v
    set_value-IsValid c Config.Setting.default_shell value k v =
        store-IsValid c Config.bad_shell (parse_shell go.utf8 value exists)
          (λ s. record c { default_shell = s.0; default_shell_args = s.1 }) (λ s e. ground arith) v
    set_value-IsValid c Config.Setting.mouse value k v =
        store-IsValid c Config.bad_bool (Config.parse_bool go value) (λ b. record c { mouse = b })
          (λ b e. ground arith) v
    set_value-IsValid c Config.Setting.set_clipboard value k v =
        store-IsValid c Config.bad_bool (Config.parse_bool go value)
          (λ b. record c { set_clipboard = b }) (λ b e. ground arith) v
    set_value-IsValid c Config.Setting.escape_time value k v =
        store-IsValid c Config.bad_number (Config.parse_count go (go.atoi value))
          (λ n. record c { escape_time = n })
          (λ n e. ground (arith, parse_count-positive (go.atoi value) n e)) v
    set_value-IsValid c Config.Setting.status_fg value k v =
        store-IsValid c Config.bad_colour (Config.parse_color go value)
          (λ n. record c { status_fg = n })
          (λ n e. status_fg-IsValid c n (parse_color-IsColour value n e) v) v
    set_value-IsValid c Config.Setting.status_bg value k v =
        store-IsValid c Config.bad_colour (Config.parse_color go value)
          (λ n. record c { status_bg = n })
          (λ n e. status_bg-IsValid c n (parse_color-IsColour value n e) v) v
    set_value-IsValid c Config.Setting.theme value k v =
        elim (Bool-cases (has_name value Config.theme_names)) [
          | inl e ↦ rw e (theme-IsValid c value e v)
          | inr e ↦ rw e v
        ]
    set_value-IsValid c Config.Setting.pane_titles value k v =
        store-IsValid c Config.bad_bool (Config.parse_bool go value)
          (λ b. record c { pane_titles = b }) (λ b e. ground arith) v
    set_value-IsValid c (Config.element n) value k v =
        store-IsValid c Config.bad_colour (Config.parse_color go value)
          (λ m. record c { colours = put n m c.colours })
          (λ m e. element-IsValid c n m k (parse_color-IsColour value m e) v) v
    set_value-IsValid c Config.unknown value k v = v

    apply_set-IsValid :
        (c : Config.Config) (rest : List Bytes)
        → IsValid c
        → IsValid (Config.apply_set go exists c rest).0
    unfolding Config.apply_set
    apply_set-IsValid c [] v = v
    apply_set-IsValid c (name ∷ []) v = v
    apply_set-IsValid c (name ∷ w ∷ ws) v =
        set_value-IsValid c (Config.setting_of name) (Config.join_words (w ∷ ws))
          (setting_of-Known name) v

    apply_bind-IsValid :
        (c : Config.Config) (rest : List Bytes)
        → IsValid c
        → IsValid (Config.apply_bind go exists c rest).0
    unfolding Config.apply_bind
    apply_bind-IsValid c [] v = v
    apply_bind-IsValid c (key ∷ []) v = v
    apply_bind-IsValid c (key ∷ w ∷ ws) v = elim (Bool-cases (length (go.utf8.runes key) == 1)) [
      | inl e ↦ rw e (bind-IsValid c key (Config.join_words (w ∷ ws)) e v)
      | inr e ↦ rw e v
    ]

    apply-IsValid :
        (c : Config.Config) (fields : List Bytes)
        → IsValid c
        → IsValid (Config.apply go exists c fields).0
    unfolding Config.apply
    apply-IsValid c [] v = v
    apply-IsValid c (d ∷ rest) v = elim (Bool-cases (bytes_eq d (codes "set"))) [
      | inl e ↦ rw e (apply_set-IsValid c rest v)
      | inr e ↦ elim (Bool-cases (bytes_eq d (codes "bind"))) [
        | inl f ↦ rw (e, f) (apply_bind-IsValid c rest v)
        | inr f ↦ rw (e, f) v
      ]
    ]

    load_line-IsValid :
        (c : Config.Config) (l : Bytes) → IsValid c → IsValid (Config.load_line go exists c l).0
    unfolding Config.load_line
    load_line-IsValid c l v = elim (Bool-cases (Config.is_skipped (go.trim_space l))) [
      | inl e ↦ rw e v
      | inr e ↦
          rw e (
            apply-IsValid c (go.fields (go.trim_space (Config.before_comment (go.trim_space l)))) v)
    ]

    load_lines-IsValid :
        (c : Config.Config) (n : ℕ) (lines : List Bytes)
        → IsValid c
        → IsValid (Config.load_lines go exists c n lines).0
    unfolding Config.load_lines
    load_lines-IsValid c n [] v = v
    load_lines-IsValid c n (l ∷ ls) v =
        load_lines-IsValid (Config.load_line go exists c l).0 (n + 1) ls (load_line-IsValid c l v)

    -- Whatever lines a configuration file has, what the loop of LoadFile makes of the default
    -- configuration is valid: the history limit and the escape time are not negative, each
    -- colour is an index from 0 to 255 or the terminal's own (or, for the status bar, unset),
    -- the theme and the coloured elements are known ones, and each bound key is one rune.
    pub load-IsValid :
        (lines : List Bytes) → IsValid (Config.load_lines go exists Config.default_config 1 lines).0
    load-IsValid lines = load_lines-IsValid Config.default_config 1 lines default_config-IsValid
