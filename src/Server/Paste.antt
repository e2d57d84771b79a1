-- ===== src/Server/Paste.antt =====
-- internal/server/paste.go: bracketed paste.
pub mod Markers
use ng_mux.Prelude.{
  ℕ, zero, suc, ◌-◌, Bool, true, false, not, ◌&&◌, ◌||◌, List, [], ◌∷◌, ◌++◌, Option, none, some,
  ◌==◌, if◌then◌else◌, length, Bytes, codes,
}

abbrev pub esc : ℕ
esc = 0x1b

abbrev pub paste_start : Bytes
paste_start = esc ∷ codes "[200~"

abbrev pub paste_end : Bytes
paste_end = esc ∷ codes "[201~"

unfoldable pub has_prefix : Bytes → Bytes → Bool
has_prefix [] ys = true
has_prefix (x ∷ xs) [] = false
has_prefix (x ∷ xs) (y ∷ ys) = x == y && has_prefix xs ys

-- bytes.Contains
unfoldable pub contains_bytes : Bytes → Bytes → Bool
contains_bytes m [] = has_prefix m []
contains_bytes m (x ∷ xs) = has_prefix m (x ∷ xs) || contains_bytes m xs

-- bytes.ReplaceAll(data, m, nil) for a marker that is not empty; `skip` bytes of a marker are still
-- to be dropped.
unfoldable pub remove_from : Bytes → ℕ → Bytes → Bytes
remove_from m skip [] = []
remove_from m (suc k) (x ∷ xs) = remove_from m k xs
remove_from m zero (x ∷ xs) = elim (has_prefix m (x ∷ xs)) [
  | true ↦ remove_from m (length m - 1) xs
  | false ↦ x ∷ remove_from m 0 xs
]

abbrev pub remove_all : Bytes → Bytes → Bytes
remove_all m = remove_from m 0

-- filterPaste; `bracketed` is the mode of the pane's emulator, if it has one.
unfoldable pub filter_paste : Option Bool → Bytes → Bytes
filter_paste bracketed d =
    if not (contains_bytes paste_start d) && not (contains_bytes paste_end d)
    then d
    else elim bracketed [ some true ↦ d | some false ↦ plain | none ↦ plain ]
  where
    plain : Bytes
    plain = remove_all paste_end (remove_all paste_start d)

-- bracketPaste
unfoldable pub bracket_paste : Option Bool → Bytes → Bytes
bracket_paste none text = text
bracket_paste (some false) text = text
bracket_paste (some true) text = paste_start ++ (remove_all paste_end text ++ paste_end)
