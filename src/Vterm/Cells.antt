-- ===== src/Vterm/Cells.antt =====
-- internal/vterm/vterm.go: the cells of a screen, made from the glyphs of the emulator. Bit masks
-- are tests of the bits of a number; a mode is read as the bit pattern of its int16.
pub mod Blank
use ng_mux.Prelude.{
  ℕ, ◌+◌, ◌/◌, ◌%◌, ◌^◌, Bool, true, false, not, ◌&&◌, ◌||◌, List, [], ◌∷◌, if◌then◌else◌, ltb,
  ◌==◌,
}

-- vt10x.Glyph
pub record Glyph : Type 0 where
  pub char : ℕ
  pub mode : ℕ
  pub fg : ℕ
  pub bg : ℕ

pub record Cell : Type 0 where
  pub ch : ℕ
  pub fg : ℕ
  pub bg : ℕ
  pub attr : ℕ
  pub width : ℕ

abbrev pub color_default : ℕ
color_default = 2 ^ 24

abbrev pub color_rgb : ℕ
color_rgb = 2 ^ 25

-- vt10x.DefaultFG, DefaultBG and DefaultCursor
abbrev pub default_fg : ℕ
default_fg = 2 ^ 24

abbrev pub default_bg : ℕ
default_bg = 2 ^ 24 + 1

abbrev pub default_cursor : ℕ
default_cursor = 2 ^ 24 + 2

unfoldable pub bit : ℕ → ℕ → Bool
bit m k = m / 2 ^ k % 2 == 1

unfoldable pub blank_cell : Cell
blank_cell = record { ch = b' '; fg = color_default; bg = color_default; attr = 0; width = 1 }

unfoldable pub is_rgb : ℕ → Bool
unfolding bit
is_rgb c = bit c 25

unfoldable pub packed : ℕ → ℕ
packed c = c % 2 ^ 24

unfoldable pub conv_color : ℕ → ℕ
conv_color c =
    if c == default_fg || c == default_bg || c == default_cursor
    then color_default
    else if is_rgb c
    then color_rgb + packed c
    else if ltb c 256
    then c
    else color_default

abbrev flag : Bool → ℕ → ℕ
flag b v = if b then v else 0

-- Reverse, underline, bold, italic, blink, dim, hidden, strike: bits 0, 1, 2, 4, 5, 9, 10 and 11 of
-- a mode, and bits 0 to 7 of an attribute.
unfoldable pub conv_attr : ℕ → ℕ
conv_attr m =
    flag (bit m 0) 1
    + flag (bit m 1) 2
    + flag (bit m 2) 4
    + flag (bit m 4) 8
    + flag (bit m 5) 16
    + flag (bit m 9) 32
    + flag (bit m 10) 64
    + flag (bit m 11) 128

-- AttrWide and AttrWideTail
unfoldable pub is_wide : ℕ → Bool
is_wide m = bit m 7

unfoldable pub is_tail : ℕ → Bool
is_tail m = bit m 8

unfoldable pub plain_blank : Glyph → Bool
plain_blank g =
    if not (g.char == 0) && not (g.char == b' ')
    then false
    else if g.mode == 0 && g.fg == default_fg && g.bg == default_bg
    then true
    else not (is_wide g.mode)
      && not (is_tail g.mode)
      && conv_attr g.mode == 0
      && conv_color g.fg == color_default
      && conv_color g.bg == color_default

unfoldable pub to_cell : Glyph → Cell
to_cell g =
    if is_tail g.mode
    then record {
      ch = 0;
      fg = conv_color g.fg;
      bg = conv_color g.bg;
      attr = conv_attr g.mode;
      width = 0;
    }
    else record {
      ch = if g.char == 0 then b' ' else g.char;
      fg = conv_color g.fg;
      bg = conv_color g.bg;
      attr = conv_attr g.mode;
      width = if is_wide g.mode then 2 else 1;
    }
