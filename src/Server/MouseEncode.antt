-- ===== src/Server/MouseEncode.antt =====
-- internal/server/mouse_encode.go: mouse reports for the app in a pane.
pub mod Reports
use ng_mux.Prelude.{
  ℕ, ◌+◌, ◌-◌, ◌*◌, ◌%◌, ◌/◌, zero, suc, Bool, true, false, not, ◌&&◌, ◌||◌, List, [], ◌∷◌, ◌++◌,
  Option, none, some, Bytes, codes, if◌then◌else◌, ◌==◌, leb, ltb,
}
use ng_mux.Prelude.Int.{ℤ, pos, negsuc, ◌+ℤ◌, ◌-ℤ◌, ltb_ℤ, pos_part}
use ng_mux.Layout.{Rect}

-- vterm.InputModes
pub record InputModes : Type 0 where
  pub mouse_x10 : Bool
  pub mouse_button : Bool
  pub mouse_motion : Bool
  pub mouse_any : Bool
  pub mouse_sgr : Bool
  pub alt_screen : Bool
  pub app_cursor : Bool
  pub bracketed_paste : Bool

-- The kinds of a mouse event, protocol.MousePress and so on; `other` is any other name.
pub data Kind : Type 0 where
  press release drag wheel_up wheel_down other : Kind

unfoldable pub wants_mouse_tracking : InputModes → Bool
wants_mouse_tracking m = m.mouse_x10 || m.mouse_button || m.mouse_motion || m.mouse_any

unfoldable pub forward_kind_allowed : InputModes → Kind → Bool
unfolding wants_mouse_tracking
forward_kind_allowed m press = wants_mouse_tracking m
forward_kind_allowed m wheel_up = wants_mouse_tracking m
forward_kind_allowed m wheel_down = wants_mouse_tracking m
forward_kind_allowed m release = m.mouse_button || m.mouse_motion || m.mouse_any
forward_kind_allowed m drag = m.mouse_motion || m.mouse_any
forward_kind_allowed m other = false

-- The decimal digits of a number, as fmt prints %d; on fuel, which a number's own value bounds.
unfoldable pub decimal_digits : ℕ → ℕ → Bytes → Bytes
decimal_digits zero n rest = rest
decimal_digits (suc fuel) n rest = elim (ltb n 10) [
  | true ↦ (b'0' + n) ∷ rest
  | false ↦ decimal_digits fuel (n / 10) ((b'0' + n % 10) ∷ rest)
]

abbrev pub format_number : ℕ → Bytes
format_number n = decimal_digits (suc n) n []

abbrev pub format_int : ℤ → Bytes
format_int (pos n) = format_number n
format_int (negsuc n) = b'-' ∷ format_number (suc n)

unfoldable pub encode_sgr_mouse : ℤ → ℤ → ℤ → Bool → Bytes
encode_sgr_mouse cb x y released =
    (0x1b ∷ codes "[<")
    ++ (format_int cb
        ++ (b';'
            ∷ (format_int x
                ++ (b';' ∷ (format_int y ++ ((if released then b'm' else b'M') ∷ []))))))

unfoldable pub encode_x10_mouse : ℤ → ℤ → ℤ → Option Bytes
encode_x10_mouse cb x y =
    if ltb_ℤ x (pos 1)
      || ltb_ℤ y (pos 1)
      || ltb_ℤ (pos 223) x
      || ltb_ℤ (pos 223) y
      || ltb_ℤ cb (pos 0)
      || ltb_ℤ (pos 223) cb
    then none
    else some (
        0x1b
        ∷ b'['
        ∷ b'M'
        ∷ ((32 + pos_part cb) % 256)
        ∷ ((32 + pos_part x) % 256)
        ∷ ((32 + pos_part y) % 256)
        ∷ [])

unfoldable pub encode_mouse_report : Bool → ℤ → ℤ → ℤ → Bool → Option Bytes
encode_mouse_report sgr cb x y released =
    if sgr
    then some (encode_sgr_mouse cb (x +ℤ pos 1) (y +ℤ pos 1) released)
    else encode_x10_mouse (if released then pos 3 else cb) (x +ℤ pos 1) (y +ℤ pos 1)

unfoldable pub arrow_seq : Kind → Bool → Bytes
arrow_seq kind app_cursor =
    let final : ℕ = elim kind [ wheel_down ↦ b'B' | _ ↦ b'A' ] in
    let mid : ℕ = if app_cursor then b'O' else b'[' in 0x1b ∷ mid ∷ final ∷ []

-- One coordinate of localCoords, for a side that starts at `origin` and is `size` long.
unfoldable pub local_coord : ℕ → ℕ → ℤ → ℤ
local_coord origin size x =
    let lx = x -ℤ pos origin in
    let max_x = pos size -ℤ pos 1 in
    if ltb_ℤ lx (pos 0) then pos 0 else if ltb_ℤ max_x lx then max_x else lx

unfoldable pub local_coords : Rect → ℤ → ℤ → ℤ × ℤ
unfolding local_coord
local_coords r x y = (local_coord r.x r.w x, local_coord r.y r.h y)
