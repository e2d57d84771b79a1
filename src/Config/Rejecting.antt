-- ===== src/Config/Rejecting.antt =====
-- What a directive of internal/config/config.go that is refused leaves behind.
use ng_mux.Prelude.{
  ◌==◌, ◌≡◌, ◌⊎◌, inl, inr, refl, Bool, List, [], ◌∷◌, Option, none, some, Bytes, bytes_eq, codes,
  has_name, length, Bool-cases,
}
use ng_mux.Config.Shell.{parse_shell}
use ng_mux.Config

-- Either no error, or the configuration as it was.
abbrev pub KeptOnError : Config.Config → Config.Config × Option Config.ConfigError → Type 0
KeptOnError c r = (r.1 ≡ none) ⊎ (r.0 ≡ c)

module _ (go : Config.GoText) (exists : Bytes → Bool) where
  store-KeptOnError {ℓ} :
      {A : Type ℓ} (c : Config.Config) (e : Config.ConfigError) (o : Option A)
      (g : A → Config.Config)
      → KeptOnError c (Config.store go c e o g)
  store-KeptOnError c e none g = inr refl
  store-KeptOnError c e (some a) g = inl refl

  set_value-KeptOnError :
      (c : Config.Config) (s : Config.Setting) (v : Bytes)
      → KeptOnError c (Config.set_value go exists c s v)
  unfolding Config.set_value
  set_value-KeptOnError c Config.Setting.prefix v = store-KeptOnError c _ (Config.parse_key v) _
  set_value-KeptOnError c Config.Setting.history_limit v =
      store-KeptOnError c _ (Config.parse_count go (go.atoi v)) _
  set_value-KeptOnError c Config.Setting.default_shell v =
      store-KeptOnError c _ (parse_shell go.utf8 v exists) _
  set_value-KeptOnError c Config.Setting.mouse v = store-KeptOnError c _ (Config.parse_bool go v) _
  set_value-KeptOnError c Config.Setting.set_clipboard v =
      store-KeptOnError c _ (Config.parse_bool go v) _
  set_value-KeptOnError c Config.Setting.escape_time v =
      store-KeptOnError c _ (Config.parse_count go (go.atoi v)) _
  set_value-KeptOnError c Config.Setting.status_fg v =
      store-KeptOnError c _ (Config.parse_color go v) _
  set_value-KeptOnError c Config.Setting.status_bg v =
      store-KeptOnError c _ (Config.parse_color go v) _
  set_value-KeptOnError c Config.Setting.theme v =
      elim (Bool-cases (has_name v Config.theme_names)) [
        | inl e ↦ rw e (inl refl)
        | inr e ↦ rw e (inr refl)
      ]
  set_value-KeptOnError c Config.Setting.pane_titles v =
      store-KeptOnError c _ (Config.parse_bool go v) _
  set_value-KeptOnError c (Config.element n) v = store-KeptOnError c _ (Config.parse_color go v) _
  set_value-KeptOnError c Config.unknown v = inr refl

  apply_set-KeptOnError :
      (c : Config.Config) (rest : List Bytes) → KeptOnError c (Config.apply_set go exists c rest)
  unfolding Config.apply_set
  apply_set-KeptOnError c [] = inr refl
  apply_set-KeptOnError c (name ∷ []) = inr refl
  apply_set-KeptOnError c (name ∷ w ∷ ws) =
      set_value-KeptOnError c (Config.setting_of name) (Config.join_words (w ∷ ws))

  apply_bind-KeptOnError :
      (c : Config.Config) (rest : List Bytes) → KeptOnError c (Config.apply_bind go exists c rest)
  unfolding Config.apply_bind
  apply_bind-KeptOnError c [] = inr refl
  apply_bind-KeptOnError c (key ∷ []) = inr refl
  apply_bind-KeptOnError c (key ∷ w ∷ ws) = elim (Bool-cases (length (go.utf8.runes key) == 1)) [
    | inl e ↦ rw e (inl refl)
    | inr e ↦ rw e (inr refl)
  ]

  -- A directive that is refused, for whatever reason, leaves the configuration as it was.
  pub apply-KeptOnError :
      (c : Config.Config) (fields : List Bytes) → KeptOnError c (Config.apply go exists c fields)
  unfolding Config.apply
  apply-KeptOnError c [] = inl refl
  apply-KeptOnError c (d ∷ rest) = elim (Bool-cases (bytes_eq d (codes "set"))) [
    | inl e ↦ rw e (apply_set-KeptOnError c rest)
    | inr e ↦ elim (Bool-cases (bytes_eq d (codes "bind"))) [
      | inl f ↦ rw (e, f) (apply_bind-KeptOnError c rest)
      | inr f ↦ rw (e, f) (inr refl)
    ]
  ]
