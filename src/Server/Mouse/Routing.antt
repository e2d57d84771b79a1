-- ===== src/Server/Mouse/Routing.antt =====
-- internal/server/mouse.go: wheel notches, drags and releases, and the routing of an event to them;
-- with statusClick of internal/server/session.go.
pub mod Gestures
use ng_mux.Prelude.{
  ℕ, zero, suc, ◌+◌, ◌-◌, Bool, true, false, not, ◌&&◌, ◌||◌, List, [], ◌∷◌, ◌++◌, Option, none,
  some, if◌then◌else◌, leb, ltb, ◌==◌, length, lookup, modify, is_some, set, Bytes,
}
use ng_mux.Prelude.Int.{ℤ, pos, negsuc, ◌+ℤ◌, ◌-ℤ◌, ltb_ℤ, pos_part}
use ng_mux.Layout.{Float64, Axis, horizontal, vertical, along, PaneId, Rect, Node, Result, ok, err}
use ng_mux.Layout.Resize
use ng_mux.Layout.Geometry.{compute}
use ng_mux.Server.Pane.{Pane, sync_copy}
use ng_mux.Server.MouseEncode.{
  InputModes, Kind, press, release, drag, wheel_up, wheel_down, other, wants_mouse_tracking,
  arrow_seq, local_coords,
}
use ng_mux.Server.Window.{
  Window, zoomed_pane, rect_of, outer, apply_layout, enter_copy, enter_copy_pane,
}
use ng_mux.Server.Session.{Session, current, content_rows, spawn_window}
use ng_mux.Server.Mouse.{
  Drag, MouseState, Outcome, eq_ℤ, min_ℤ, max_ℤ, no_gesture, scroll_up, scroll_down, anchor_at,
  cursor_at, less_one, report_at, triple, unchanged, writes, wheel_pane, route_press, forward_to,
}

abbrev pub wheel_button : Kind → ℤ
wheel_button wheel_down = pos 65
wheel_button _ = pos 64

-- A coordinate while a gesture is in progress.
unfoldable pub clamped : ℕ → ℤ → ℤ
clamped size x = max_ℤ (pos 0) (min_ℤ x (less_one size))

abbrev pub in_gesture : MouseState → Bool
in_gesture ms = not (ms.sel == 0) || not (ms.fwd == 0) || is_some ms.drag

abbrev pub keeps_gesture : Kind → Bool
keeps_gesture drag = true
keeps_gesture release = true
keeps_gesture _ = false

-- Where routeMouse takes the pointer to be, along an axis of some size.
unfoldable pub pointer : Kind → MouseState → ℕ → ℤ → ℤ
pointer kind ms size x = if keeps_gesture kind && in_gesture ms then clamped size x else x

abbrev pub is_inside : ℕ → ℕ → ℤ → ℤ → Bool
is_inside cols content x y =
    not (ltb_ℤ x (pos 0)) && not (ltb_ℤ y (pos 0)) && ltb_ℤ x (pos cols) && ltb_ℤ y (pos content)

module _ (f : Float64) where
  open f use {F}

  -- routeWheel on a pane that scrolls in copy-mode.
  unfoldable pub wheel_scroll : MouseState → Window F → Kind → PaneId → Bool → ℕ → ℕ → Outcome F
  wheel_scroll ms w wheel_up id in_copy cols content =
      if in_copy
      then unchanged ms (record w { panes = modify id scroll_up w.panes }) true
      else (let w' = enter_copy f w cols content in
          unchanged ms (record w' { panes = modify w'.active scroll_up w'.panes }) true)
  wheel_scroll ms w wheel_down id in_copy cols content =
      unchanged ms (record w { panes = modify id scroll_down w.panes }) true
  wheel_scroll ms w kind id in_copy cols content = unchanged ms w true

  -- routeWheel, once the pane under the pointer has the focus.
  unfoldable pub wheel_on :
      MouseState → Window F → Kind → Pane → PaneId → Rect → ℕ → ℕ → ℤ → ℤ → Outcome F
  wheel_on ms w kind p id r cols content x y =
      if not (is_some p.copy) && wants_mouse_tracking p.modes
      then elim (report_at p.modes r (wheel_button kind) x y false) [
        | none ↦ unchanged ms w true
        | some d ↦ writes ms w id true d
      ]
      else if not (is_some p.copy) && p.modes.alt_screen
      then writes ms w id true (triple (arrow_seq kind p.modes.app_cursor))
      else wheel_scroll ms w kind id (is_some p.copy) cols content

  unfoldable pub wheel_at :
      MouseState
      → Window F
      → List (PaneId × Rect)
      → Kind
      → Option Pane
      → PaneId
      → ℕ
      → ℕ
      → ℤ
      → ℤ
      → Outcome F
  wheel_at ms w rects kind none id cols content x y = unchanged ms w false
  wheel_at ms w rects kind (some p) id cols content x y =
      wheel_on ms (record w { active = p.id }) kind p id (rect_of w rects cols content id) cols
        content x y

  unfoldable pub route_wheel :
      MouseState → Window F → List (PaneId × Rect) → Kind → ℕ → ℕ → ℤ → ℤ → Outcome F
  route_wheel ms w rects kind cols content x y =
      let w' = (zoomed_pane w).0 in
      let id = wheel_pane w rects x y in
      wheel_at ms w' rects kind (lookup id w'.panes) id cols content x y

  -- dragSelect once the selection shows.
  unfoldable pub extend_selection : MouseState → Window F → Option Pane → ℤ → ℤ → Outcome F
  extend_selection ms w none lx ly = unchanged (record ms { sel = 0; sel_active = false }) w false
  extend_selection ms w (some p) lx ly =
      if is_some p.copy
      then unchanged ms (record w { panes = modify ms.sel (cursor_at lx ly) w.panes }) true
      else unchanged (record ms { sel = 0; sel_active = false }) w true

  -- The first move off the pressed cell.
  unfoldable pub start_selection : MouseState → Window F → ℕ → ℕ → ℤ → ℤ → Outcome F
  start_selection ms w cols content lx ly =
      if eq_ℤ lx ms.sel_x && eq_ℤ ly ms.sel_y
      then unchanged ms w false
      else (let w' = enter_copy_pane f w ms.sel cols content in
          elim (lookup ms.sel w'.panes) [
            | none ↦ unchanged (record ms { sel = 0 }) w' false
            | some p ↦
                if is_some p.copy
                then extend_selection (record ms { sel_active = true })
                    (record w' { panes = modify ms.sel (anchor_at ms.sel_x ms.sel_y) w'.panes })
                    (some p) lx ly
                else unchanged (record ms { sel = 0 }) w' false
          ])

  unfoldable pub drag_select :
      MouseState → Window F → List (PaneId × Rect) → ℕ → ℕ → ℤ → ℤ → Outcome F
  drag_select ms w rects cols content x y = elim (lookup ms.sel w.panes) [
    | none ↦ unchanged (record ms { sel = 0; sel_active = false }) w false
    | some p ↦
        let w' = (zoomed_pane w).0 in
        let (lx, ly) = local_coords (rect_of w' rects cols content ms.sel) x y in
        if ms.sel_active
        then extend_selection ms w' (some p) lx ly
        else start_selection ms w' cols content lx ly
  ]

  -- routeDrag on a border: the tree after the pointer moved by `d` along an axis.
  unfoldable pub pull_border : Window F → PaneId → Axis → ℤ → ℕ → ℕ → Window F
  pull_border w pane dir d cols content =
      if eq_ℤ d (pos 0)
      then w
      else elim (Resize.resize f w.tree pane (along dir) d (outer w cols content)) [
        | err _ ↦ w
        | ok tree ↦ record w { tree = some tree }
      ]

  unfoldable pub drag_border : MouseState → Window F → Drag → ℕ → ℕ → ℤ → ℤ → Outcome F
  drag_border ms w d cols content x y = elim (d.dir) [
    | horizontal ↦
        unchanged (record ms { drag = some (record d { last_x = x }) })
          (apply_layout f (pull_border w d.pane horizontal (x -ℤ d.last_x) cols content) cols
            content)
          true
    | vertical ↦
        unchanged (record ms { drag = some (record d { last_y = y }) })
          (apply_layout f (pull_border w d.pane vertical (y -ℤ d.last_y) cols content) cols content)
          true
  ]

  unfoldable pub route_drag :
      MouseState → Window F → List (PaneId × Rect) → ℕ → ℕ → ℤ → ℤ → ℤ → Outcome F
  route_drag ms w rects cols content x y button =
      if not (ms.sel == 0)
      then drag_select ms w rects cols content x y
      else if not (ms.fwd == 0)
      then forward_to ms w drag false (lookup ms.fwd w.panes) ms.fwd
          (rect_of w rects cols content ms.fwd) x y (pos 32 +ℤ button)
      else elim (ms.drag) [
        | none ↦ unchanged ms w false
        | some d ↦ drag_border ms w d cols content x y
      ]

  module _ (selected_text : Pane → Bytes) where
    leave_copy : Pane → Pane
    leave_copy p = record p { copy = none }

    -- A text that is not empty goes to the paste buffer and to the client.
    unfoldable pub copy_text : MouseState → Window F → Bytes → Outcome F
    copy_text ms w [] = unchanged ms w true
    copy_text ms w (b ∷ d) = record {
      mouse = record ms { copied = b ∷ d };
      window = w;
      report = none;
      repaint = true;
      paste = some (b ∷ d);
    }

    unfoldable pub finish_at : MouseState → Window F → PaneId → Option Pane → Outcome F
    unfolding leave_copy
    finish_at ms w id none = unchanged ms w true
    finish_at ms w id (some p) =
        if is_some p.copy
        then copy_text ms (record w { panes = modify id leave_copy w.panes })
            (selected_text (sync_copy p))
        else unchanged ms w true

    unfoldable pub finish_select : MouseState → Window F → Outcome F
    finish_select ms w =
        let ms' = record ms { sel = 0; sel_active = false } in
        if ms.sel_active
        then finish_at ms' w ms.sel (lookup ms.sel w.panes)
        else unchanged ms' w false

    unfoldable pub route_release :
        MouseState → Window F → List (PaneId × Rect) → ℕ → ℕ → ℤ → ℤ → ℤ → Outcome F
    route_release ms w rects cols content x y button =
        let ms' = record ms { drag = none } in
        if not (ms.sel == 0)
        then finish_select ms' w
        else if ms.fwd == 0
        then unchanged ms' w false
        else forward_to (record ms' { fwd = 0 }) w release true (lookup ms.fwd w.panes) ms.fwd
            (rect_of w rects cols content ms.fwd) x y button

    -- The switch of routeMouse.
    unfoldable pub route_kind :
        Kind → MouseState → Window F → List (PaneId × Rect) → ℕ → ℕ → ℤ → ℤ → ℤ → Outcome F
    route_kind wheel_up ms w rects cols content x y button =
        route_wheel ms w rects wheel_up cols content x y
    route_kind wheel_down ms w rects cols content x y button =
        route_wheel ms w rects wheel_down cols content x y
    route_kind press ms w rects cols content x y button =
        route_press ms w rects cols content x y button
    route_kind drag ms w rects cols content x y button =
        route_drag ms w rects cols content x y button
    route_kind release ms w rects cols content x y button =
        route_release ms w rects cols content x y button
    route_kind other ms w rects cols content x y button = unchanged ms w false

    -- routeMouse on the window that is shown, within the content area; `none` where the event is
    -- for the status row or for nothing.
    unfoldable pub route_inside :
        Kind → MouseState → Window F → ℕ → ℕ → ℤ → ℤ → ℤ → Option (Outcome F)
    route_inside kind ms w cols content x y button =
        if is_inside cols content x y
        then some
            (route_kind kind ms w (compute f w.tree (outer w cols content)) cols content x y button)
        else none

    unfoldable pub route_content :
        Kind → MouseState → Window F → ℕ → ℕ → ℤ → ℤ → ℤ → Option (Outcome F)
    route_content kind ms w cols content x y button =
        route_inside kind ms w cols content (pointer kind ms cols x) (pointer kind ms content y)
          button

-- statusHit, a region of the status row from x0 to x1.
pub data Action : Type 0 where
  to_window new_window other_action : Action

pub record StatusHit : Type 0 where
  pub x0 : ℤ
  pub x1 : ℤ
  pub action : Action
  pub n : ℤ

module _ {F : Type 0} where
  unfoldable pub act_on : Session F → StatusHit → Action → Bool → Session F × Bool
  act_on s h to_window starts = (
    if not (ltb_ℤ h.n (pos 0)) && ltb_ℤ h.n (pos (length s.windows))
        then record s { cur = pos_part h.n }
        else s,
    true,
  )
  act_on s h new_window starts =
      let (s', failed) = spawn_window s s.cols (content_rows s) starts in
      elim failed [ none ↦ (s', true) | some _ ↦ (s', false) ]
  act_on s h other_action starts = (s, true)

  -- statusClick: the session, and whether it acted. `starts` is whether the pty of a new pane
  -- starts.
  unfoldable pub status_click : Session F → List StatusHit → ℤ → Bool → Session F × Bool
  status_click s [] x starts = (s, false)
  status_click s (h ∷ hs) x starts =
      let rest = status_click s hs x starts in
      if ltb_ℤ x h.x0 || ltb_ℤ h.x1 x then rest else act_on s h h.action starts

-- What an event comes to for the session: the gesture, the session, the report and whether to
-- repaint.
pub record Routed (F : Type 0) : Type 0 where
  pub mouse : MouseState
  pub session : Session F
  pub report : Option (PaneId × Bytes)
  pub repaint : Bool

abbrev pub is_press : Kind → Bool
is_press press = true
is_press _ = false

abbrev pub paste_or : Bytes → Option Bytes → Bytes
paste_or old none = old
paste_or old (some d) = d

module _ (f : Float64) (selected_text : Pane → Bytes) where
  open f use {F}

  unfoldable pub with_outcome : Session F → Outcome F → Routed F
  with_outcome s o = record {
    mouse = o.mouse;
    session = record s {
      windows = set s.windows s.cur o.window;
      paste_buf = paste_or s.paste_buf o.paste;
    };
    report = o.report;
    repaint = o.repaint;
  }

  unfoldable pub on_status :
      MouseState → Session F → List StatusHit → Kind → ℤ → ℤ → Bool → Routed F
  on_status ms s hits kind x y starts =
      if is_press kind
        && not (ltb_ℤ x (pos 0))
        && ltb_ℤ x (pos s.cols)
        && eq_ℤ y (pos (content_rows s))
      then (let (s', acted) = status_click s hits x starts in
          record { mouse = ms; session = s'; report = none; repaint = acted })
      else record { mouse = ms; session = s; report = none; repaint = false }

  unfoldable pub conclude :
      MouseState → Session F → Option (Outcome F) → List StatusHit → Kind → ℤ → ℤ → Bool → Routed F
  conclude ms s (some o) hits kind x y starts = with_outcome s o
  conclude ms s none hits kind x y starts = on_status ms s hits kind x y starts

  unfoldable pub route_in :
      MouseState
      → Session F
      → Option (Window F)
      → List StatusHit
      → Kind
      → ℤ
      → ℤ
      → ℤ
      → Bool
      → Routed F
  route_in ms s none hits kind x y button starts = record {
    mouse = ms;
    session = s;
    report = none;
    repaint = false;
  }
  route_in ms s (some w) hits kind x y button starts =
      conclude ms s (route_content f selected_text kind ms w s.cols (content_rows s) x y button)
        hits kind x y starts

  -- routeMouse, with the clickable regions of the last frame.
  unfoldable pub route_mouse :
      MouseState → Session F → List StatusHit → Kind → ℤ → ℤ → ℤ → Bool → Routed F
  route_mouse ms s hits kind x y button starts =
      route_in ms (current s).0 (current s).1 hits kind x y button starts

  -- mouseAs: what was routed, the bytes to write, and the text that was copied.
  unfoldable pub mouse_as :
      MouseState → Session F → List StatusHit → Kind → ℤ → ℤ → ℤ → Bool → Routed F × Bytes
  mouse_as ms s hits kind x y button starts =
      let r = route_mouse ms s hits kind x y button starts in
      (record r { mouse = record (r.mouse) { copied = [] } }, r.mouse.copied)
