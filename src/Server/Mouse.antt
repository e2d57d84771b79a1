-- ===== src/Server/Mouse.antt =====
-- internal/server/mouse.go, with hitPane and paneAndRect of internal/server/window.go: what a mouse
-- event does to the window that is shown and to its client's gesture. Coordinates are integers.
-- The text of a selection is read off the emulator, and enters as a parameter.
pub mod Routing
use ng_mux.Prelude.{
  ℕ, zero, suc, ◌+◌, ◌-◌, ◌*◌, Bool, true, false, not, ◌&&◌, ◌||◌, List, [], ◌∷◌, ◌++◌, Option,
  none, some, if◌then◌else◌, leb, ltb, ◌==◌, length, lookup, modify, is_some, Bytes,
}
use ng_mux.Prelude.Int.{ℤ, pos, negsuc, ◌+ℤ◌, ◌-ℤ◌, ltb_ℤ, pos_part}
use ng_mux.Layout.{Float64, Axis, horizontal, vertical, along, PaneId, Rect, Node, Result, ok, err}
use ng_mux.Layout.Resize
use ng_mux.Server.CopyMode.{CopyState, set_anchor}
use ng_mux.Server.Pane.{Pane, sync_copy}
use ng_mux.Server.MouseEncode.{
  InputModes, Kind, press, release, drag, wheel_up, wheel_down, wants_mouse_tracking,
  forward_kind_allowed, encode_mouse_report, arrow_seq, local_coords,
}
use ng_mux.Server.Window.{
  Window, titled, zoomed_pane, hit_zoom, rect_of, outer, apply_layout, enter_copy, enter_copy_pane,
}

abbrev pub wheel_step : ℕ
wheel_step = 3

-- dragState, while it is active.
pub record Drag : Type 0 where
  pub pane : PaneId
  pub dir : Axis
  pub last_x : ℤ
  pub last_y : ℤ

-- mouseState; 0 is no pane.
pub record MouseState : Type 0 where
  pub drag : Option Drag
  pub fwd : PaneId
  pub sel : PaneId
  pub sel_x : ℤ
  pub sel_y : ℤ
  pub sel_active : Bool
  pub copied : Bytes

-- What an event comes to: the gesture, the window, the pane to write to and the bytes, whether to
-- repaint, and a new paste buffer.
pub record Outcome (F : Type 0) : Type 0 where
  pub mouse : MouseState
  pub window : Window F
  pub report : Option (PaneId × Bytes)
  pub repaint : Bool
  pub paste : Option Bytes

abbrev pub eq_ℤ : ℤ → ℤ → Bool
eq_ℤ a b = not (ltb_ℤ a b) && not (ltb_ℤ b a)

abbrev pub min_ℤ : ℤ → ℤ → ℤ
min_ℤ a b = if ltb_ℤ b a then b else a

abbrev pub max_ℤ : ℤ → ℤ → ℤ
max_ℤ a b = if ltb_ℤ a b then b else a

abbrev pub between : ℕ → ℕ → ℤ → Bool
between origin size x = not (ltb_ℤ x (pos origin)) && ltb_ℤ x (pos (origin + size))

-- paneAt; the rectangles of a layout share no cell, so the order of the map does not matter.
unfoldable pub pane_at : List (PaneId × Rect) → ℤ → ℤ → PaneId
pane_at [] x y = 0
pane_at ((id, r) ∷ rest) x y =
    if between r.x r.w x && between r.y r.h y then id else pane_at rest x y

-- The loop of titleAt.
unfoldable pub title_in : List (PaneId × Rect) → ℤ → ℤ → PaneId
title_in [] x y = 0
title_in ((id, r) ∷ rest) x y =
    if eq_ℤ (y +ℤ pos 1) (pos r.y) && between r.x r.w x then id else title_in rest x y

unfoldable pub drag_from : List (PaneId × Rect) → ℤ → ℤ → Option Drag
drag_from rects x y =
    let left = pane_at rects (x -ℤ pos 1) y in
    let right = pane_at rects (x +ℤ pos 1) y in
    let up = pane_at rects x (y -ℤ pos 1) in
    let down = pane_at rects x (y +ℤ pos 1) in
    if not (left == 0) && not (right == 0) && not (left == right)
    then some (record { pane = left; dir = horizontal; last_x = x; last_y = y })
    else if not (up == 0) && not (down == 0) && not (up == down)
    then some (record { pane = up; dir = vertical; last_x = x; last_y = y })
    else none

abbrev pub no_gesture : MouseState → MouseState
no_gesture ms = record ms { drag = none; fwd = 0; sel = 0; sel_active = false }

-- Scrolling a pane's copy-mode by one notch; down past the end leaves it.
unfoldable pub scroll_up : Pane → Pane
unfolding sync_copy
scroll_up p =
    let q = sync_copy p in
    record q {
      copy = elim (q.copy) [
        | none ↦ none
        | some c ↦ some (record c {
          offset =
              if ltb q.history_len (c.offset + wheel_step)
              then q.history_len
              else c.offset + wheel_step;
        })
      ];
    }

unfoldable pub scroll_down : Pane → Pane
unfolding sync_copy
scroll_down p =
    let q = sync_copy p in
    record q {
      copy = elim (q.copy) [
        | none ↦ none
        | some c ↦
            if leb c.offset wheel_step
            then none
            else some (record c { offset = c.offset - wheel_step })
      ];
    }

abbrev pub less_one : ℕ → ℤ
less_one n = pos n -ℤ pos 1

-- The pressed cell as the anchor, and the cell under the pointer as the cursor, cut to the pane.
unfoldable pub anchor_at : ℤ → ℤ → Pane → Pane
unfolding sync_copy
anchor_at x y p =
    let q = sync_copy p in
    record q {
      copy = elim (q.copy) [
        | none ↦ none
        | some c ↦ some (
            set_anchor c (pos_part (min_ℤ x (less_one c.cols)))
              (pos_part (min_ℤ y (less_one c.rows))))
      ];
    }

unfoldable pub cursor_at : ℤ → ℤ → Pane → Pane
unfolding sync_copy
cursor_at x y p =
    let q = sync_copy p in
    record q {
      copy = elim (q.copy) [
        | none ↦ none
        | some c ↦ some (record c {
          cx = pos_part (min_ℤ x (less_one c.cols));
          cy = pos_part (min_ℤ y (less_one c.rows));
        })
      ];
    }

-- The coordinates of a report and the mode that it is written in.
abbrev pub report_at : InputModes → Rect → ℤ → ℤ → ℤ → Bool → Option Bytes
report_at modes r cb x y released =
    let (lx, ly) = local_coords r x y in encode_mouse_report modes.mouse_sgr cb lx ly released

abbrev pub triple : Bytes → Bytes
triple d = d ++ (d ++ d)

module _ {F : Type 0} where
  abbrev pub unchanged : MouseState → Window F → Bool → Outcome F
  unchanged ms w repaint = record {
    mouse = ms;
    window = w;
    report = none;
    repaint = repaint;
    paste = none;
  }

  abbrev pub writes : MouseState → Window F → PaneId → Bool → Bytes → Outcome F
  writes ms w id repaint d = record {
    mouse = ms;
    window = w;
    report = some (id, d);
    repaint = repaint;
    paste = none;
  }

  -- hitPane
  unfoldable pub hit_pane : Window F → List (PaneId × Rect) → ℤ → ℤ → PaneId
  hit_pane w rects x y = elim (hit_zoom w) [ none ↦ pane_at rects x y | some id ↦ id ]

  unfoldable pub title_at : Window F → List (PaneId × Rect) → ℤ → ℤ → PaneId
  title_at w rects x y = if titled w then title_in rects x y else 0

  -- The pane that paneAndRect finds.
  unfoldable pub wheel_pane : Window F → List (PaneId × Rect) → ℤ → ℤ → PaneId
  wheel_pane w rects x y = let id = hit_pane w rects x y in if id == 0 then w.active else id

  -- routePress on a divider.
  unfoldable pub press_border : MouseState → Window F → List (PaneId × Rect) → ℤ → ℤ → Outcome F
  press_border ms w rects x y =
      let ms' = record ms { drag = drag_from rects x y } in
      let t = title_at w rects x y in
      if not (t == 0) && not (t == w.active)
      then unchanged ms' (record w { active = t }) true
      else unchanged ms' w false

  -- routePress on a pane, once it has the focus.
  unfoldable pub may_select :
      MouseState → Window F → Pane → PaneId → Rect → ℤ → ℤ → ℤ → Bool → Outcome F
  may_select ms w p id r x y button moved =
      if eq_ℤ button (pos 0) && (is_some p.copy || not (wants_mouse_tracking p.modes))
      then (let (lx, ly) = local_coords r x y in
          unchanged (record ms { sel = id; sel_x = lx; sel_y = ly }) w moved)
      else unchanged ms w moved

  unfoldable pub press_pane :
      MouseState → Window F → Option Pane → PaneId → Rect → ℤ → ℤ → ℤ → Bool → Outcome F
  press_pane ms w none id r x y button moved = unchanged ms w moved
  press_pane ms w (some p) id r x y button moved =
      if not (is_some p.copy) && forward_kind_allowed p.modes press
      then elim (report_at p.modes r button x y false) [
        | some d ↦ writes (record ms { fwd = id }) w id moved d
        | none ↦ may_select ms w p id r x y button moved
      ]
      else may_select ms w p id r x y button moved

  unfoldable pub route_press :
      MouseState → Window F → List (PaneId × Rect) → ℕ → ℕ → ℤ → ℤ → ℤ → Outcome F
  route_press ms w rects cols content x y button =
      let ms' = no_gesture ms in
      let w' = (zoomed_pane w).0 in
      let id = hit_pane w rects x y in
      if id == 0
      then press_border ms' w' rects x y
      else press_pane ms' (record w' { active = id }) (lookup id w'.panes) id
          (rect_of w' rects cols content id) x y button (not (id == w'.active))

  -- routeDrag and routeRelease on the pane that a press is forwarded to.
  unfoldable pub forward_to :
      MouseState → Window F → Kind → Bool → Option Pane → PaneId → Rect → ℤ → ℤ → ℤ → Outcome F
  forward_to ms w kind released none id r x y cb = unchanged ms w false
  forward_to ms w kind released (some p) id r x y cb =
      if is_some p.copy || not (forward_kind_allowed p.modes kind)
      then unchanged ms w false
      else elim (report_at p.modes r cb x y released) [
        | none ↦ unchanged ms (zoomed_pane w).0 false
        | some d ↦ writes ms (zoomed_pane w).0 id false d
      ]
