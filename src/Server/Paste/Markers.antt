-- ===== src/Server/Paste/Markers.antt =====
-- Lemmas about the markers that internal/server/paste.go puts and removes.
use mathlib.Core.List.{append-nil}
use ng_mux.Prelude.{
  ◌≡◌, refl, sym, ap, ◌∙◌, arith, Bool, true, false, List, [], ◌∷◌, ◌++◌, Option, none, some, Bytes,
  codes, contains, All,
}
use ng_mux.Server.Paste.{
  esc, paste_start, paste_end, has_prefix, contains_bytes, remove_from, remove_all, filter_paste,
  bracket_paste,
}

-- No ESC byte, so no part of a marker's beginning.
abbrev pub NoEsc : Bytes → Type 0
NoEsc d = contains esc d ≡ false

remove_all_plain :
    (m d rest : Bytes) → NoEsc d → remove_all (esc ∷ m) (d ++ rest) ≡ d ++ remove_all (esc ∷ m) rest
unfolding remove_from has_prefix
remove_all_plain m [] rest h = refl
remove_all_plain m (x ∷ d) rest h = ground (arith, remove_all_plain m d rest)

contains_bytes_plain : (m d : Bytes) → NoEsc d → contains_bytes (esc ∷ m) d ≡ false
unfolding contains_bytes has_prefix
contains_bytes_plain m [] h = refl
contains_bytes_plain m (x ∷ d) h = ground (arith, contains_bytes_plain m d)

remove_end : (rest : Bytes) → remove_all paste_end (paste_end ++ rest) ≡ remove_all paste_end rest
unfolding remove_from has_prefix
remove_end rest = refl

-- Texts with the marker between them, and the texts alone.
abbrev pub marked : Bytes → List Bytes → Bytes
marked first [] = first
marked first (d ∷ ds) = first ++ (paste_end ++ marked d ds)

abbrev pub unmarked : Bytes → List Bytes → Bytes
unmarked first [] = first
unmarked first (d ∷ ds) = first ++ unmarked d ds

remove_all-nil : (m : Bytes) → remove_all m [] ≡ []
unfolding remove_from
remove_all-nil m = refl

remove_all-marked :
    (first : Bytes) (ds : List Bytes)
    → NoEsc first
    → All NoEsc ds
    → remove_all paste_end (marked first ds) ≡ unmarked first ds
remove_all-marked first [] h hs =
    ap (remove_all paste_end) (sym (append-nil first))
    ∙ remove_all_plain (codes "[201~") first [] h
    ∙ ap (◌++◌ first) (remove_all-nil paste_end)
    ∙ append-nil first
remove_all-marked first (d ∷ ds) h hs =
    remove_all_plain (codes "[201~") first (paste_end ++ marked d ds) h
    ∙ ap (◌++◌ first) (remove_end (marked d ds) ∙ remove_all-marked d ds hs.0 hs.1)

-- A paste of texts without ESC, with any number of end markers between them, reaches an app in
-- bracketed-paste mode as one paste of the texts alone; an app without the mode gets the text as
-- is.
pub bracket_paste-marked :
    (first : Bytes) (ds : List Bytes)
    → NoEsc first
    → All NoEsc ds
    → (bracket_paste (some true) (marked first ds)
        ≡ paste_start ++ (unmarked first ds ++ paste_end))
      × (bracket_paste (some false) (marked first ds) ≡ marked first ds)
unfolding bracket_paste
bracket_paste-marked first ds h hs =
    (ap (λ (t : Bytes). paste_start ++ (t ++ paste_end)) (remove_all-marked first ds h hs), refl)

split_marker :
    (rest : Bytes)
    → remove_all paste_end ((esc ∷ codes "[20") ++ (paste_end ++ (codes "1~" ++ rest)))
      ≡ paste_end ++ remove_all paste_end rest
unfolding remove_from has_prefix
split_marker rest = refl

-- An end marker hidden inside another one survives: a text of this shape, with no ESC around the
-- two, is sent with an end marker in its middle, so that the rest of it arrives as typed keys.
pub bracket_paste_ends_early :
    (pre post : Bytes)
    → NoEsc pre
    → NoEsc post
    → bracket_paste
        (some true)
        (pre ++ ((esc ∷ codes "[20") ++ (paste_end ++ (codes "1~" ++ post))))
      ≡ paste_start ++ ((pre ++ (paste_end ++ post)) ++ paste_end)
unfolding bracket_paste
bracket_paste_ends_early pre post h k =
    ap (λ (t : Bytes). paste_start ++ (t ++ paste_end))
      (remove_all_plain (codes "[201~") pre _ h
        ∙ ap (◌++◌ pre) (split_marker post ∙ ap (◌++◌ paste_end) (remove_all-marked post [] k tt)))

strip_markers :
    (d : Bytes)
    → NoEsc d
    → remove_all paste_end (remove_all paste_start (paste_start ++ (d ++ paste_end))) ≡ d
unfolding remove_from has_prefix
strip_markers d h =
    ap (remove_all paste_end) (remove_all_plain (codes "[200~") d paste_end h)
    ∙ remove_all_plain (codes "[201~") d paste_end h
    ∙ append-nil d

contains_start : (rest : Bytes) → contains_bytes paste_start (paste_start ++ rest) ≡ true
unfolding contains_bytes has_prefix
contains_start rest = refl

-- Input without ESC is passed on untouched in every mode; a paste that is one text without ESC
-- between the markers reaches an app with the mode as it is, and any other app as the text
-- alone.
pub filter_paste_modes :
    (bracketed : Option Bool) (d : Bytes)
    → NoEsc d
    → (filter_paste bracketed d ≡ d)
      × (filter_paste (some true) (paste_start ++ (d ++ paste_end))
          ≡ paste_start ++ (d ++ paste_end))
      × (filter_paste (some false) (paste_start ++ (d ++ paste_end)) ≡ d)
      × (filter_paste none (paste_start ++ (d ++ paste_end)) ≡ d)
unfolding filter_paste
filter_paste_modes bracketed d h =
    let stripped = strip_markers d h in
    let marked_start = contains_start (d ++ paste_end) in
    (
      simp (contains_bytes_plain (codes "[200~") d h, contains_bytes_plain (codes "[201~") d h),
      rw (marked_start, filter_paste) refl,
      rw (marked_start, filter_paste) stripped,
      rw (marked_start, filter_paste) stripped,
    )
