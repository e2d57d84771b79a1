-- ===== src/Vterm/Cells/Blank.antt =====
-- Which glyphs of internal/vterm/vterm.go show as a blank cell.
use ng_mux.Prelude.{◌≡◌, ◌↔◌, refl, arith, true, false}
use ng_mux.Vterm.Cells.{
  Glyph, default_fg, default_bg, color_default, blank_cell, conv_color, conv_attr, is_wide, is_tail,
  plain_blank, to_cell, bit,
}

conv_color-default_fg : conv_color default_fg ≡ color_default
unfolding conv_color
conv_color-default_fg = refl

conv_color-default_bg : conv_color default_bg ≡ color_default
unfolding conv_color
conv_color-default_bg = refl

conv_attr-zero : conv_attr 0 ≡ 0
unfolding conv_attr bit
conv_attr-zero = refl

is_wide-zero : is_wide 0 ≡ false
unfolding is_wide bit
is_wide-zero = refl

is_tail-zero : is_tail 0 ≡ false
unfolding is_tail bit
is_tail-zero = refl

-- plainBlank holds of a glyph exactly when toCell turns it into the blank cell.
pub plain_blank_iff : (g : Glyph) → (plain_blank g ≡ true) ↔ (to_cell g ≡ blank_cell)
unfolding plain_blank to_cell blank_cell
plain_blank_iff g = (
  λ h. ground (
    arith, conv_color-default_fg, conv_color-default_bg, conv_attr-zero, is_wide-zero, is_tail-zero,
  ),
  λ h. ground (
    arith, conv_color-default_fg, conv_color-default_bg, conv_attr-zero, is_wide-zero, is_tail-zero,
  ),
)
