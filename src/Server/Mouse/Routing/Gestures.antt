-- ===== src/Server/Mouse/Routing/Gestures.antt =====
-- The gesture of a client through the mouse events of internal/server/mouse.go.
use ng_mux.Prelude.{
  ℕ, ◌<◌, ◌≡◌, ◌⊎◌, inl, inr, refl, arith, Bool, true, false, not, List, Option, none, some, ◌==◌,
  lookup, is_some, Bytes, Bool-cases,
}
use ng_mux.Prelude.Int.{ℤ, pos, ◌+ℤ◌, ◌-ℤ◌, ltb_ℤ}
use ng_mux.Layout.{Float64, PaneId, Rect}
use ng_mux.Server.Pane.{Pane}
use ng_mux.Server.MouseEncode.{Kind, press, release, drag, wheel_up, wheel_down, other}
use ng_mux.Layout.Geometry.{compute}
use ng_mux.Server.Window.{outer, Window, zoomed_pane, rect_of}
use ng_mux.Server.Session.{Session, current, content_rows}
use ng_mux.Server.Mouse.{
  hit_pane, wheel_pane, MouseState, route_press, press_border, press_pane, may_select, forward_to,
  no_gesture,
}
use ng_mux.Server.Mouse.Routing.{
  wheel_scroll, wheel_on, wheel_at, route_wheel, extend_selection, start_selection, drag_select,
  drag_border, route_drag, copy_text, finish_at, finish_select, route_release, route_kind, clamped,
  route_content, route_inside, pointer, in_gesture, is_inside, conclude, StatusHit, with_outcome,
  on_status, route_in, route_mouse,
}

-- At most one of a selection, a forwarded press and a border drag is in progress.
pub record IsOneGesture (ms : MouseState) : Type 0 where
  pub sel_or_fwd : (ms.sel ≡ 0) ⊎ (ms.fwd ≡ 0)
  pub drag_alone : (ms.drag ≡ none) ⊎ ((ms.sel ≡ 0) × (ms.fwd ≡ 0))

abbrev pub Ended : MouseState → Type 0
Ended ms = (ms.drag ≡ none) × (ms.sel ≡ 0) × (ms.fwd ≡ 0)

clamped-inside :
    (size : ℕ) (x : ℤ)
    → 0 < size
    → (ltb_ℤ (clamped size x) (pos 0) ≡ false) × (ltb_ℤ (clamped size x) (pos size) ≡ true)
unfolding clamped ◌-ℤ◌
clamped-inside size x p = ground arith

module _ {F : Type 0} where
  may_select-IsOneGesture :
      (ms : MouseState) (w : Window F) (p : Pane) (id : PaneId) (r : Rect) (x y button : ℤ)
      (moved : Bool)
      → Ended ms
      → IsOneGesture (may_select ms w p id r x y button moved).mouse
  unfolding may_select
  may_select-IsOneGesture ms w p id r x y button moved v = ground arith

  press_pane-IsOneGesture :
      (ms : MouseState) (w : Window F) (o : Option Pane) (id : PaneId) (r : Rect) (x y button : ℤ)
      (moved : Bool)
      → Ended ms
      → IsOneGesture (press_pane ms w o id r x y button moved).mouse
  unfolding press_pane
  press_pane-IsOneGesture ms w none id r x y button moved v = ground arith
  press_pane-IsOneGesture ms w (some p) id r x y button moved v =
      ground (arith, may_select-IsOneGesture ms w p id r x y button moved v)

  press_border-IsOneGesture :
      (ms : MouseState) (w : Window F) (rects : List (PaneId × Rect)) (x y : ℤ)
      → Ended ms
      → IsOneGesture (press_border ms w rects x y).mouse
  unfolding press_border
  press_border-IsOneGesture ms w rects x y v = ground arith

  route_press-IsOneGesture :
      (ms : MouseState) (w : Window F) (rects : List (PaneId × Rect)) (cols content : ℕ)
      (x y button : ℤ)
      → IsOneGesture (route_press ms w rects cols content x y button).mouse
  unfolding route_press
  route_press-IsOneGesture ms w rects cols content x y button =
      let id = hit_pane w rects x y in
      let w' = (zoomed_pane w).0 in
      elim (Bool-cases (id == 0)) [
        | inl e ↦ rw e (press_border-IsOneGesture (no_gesture ms) w' rects x y (refl, refl, refl))
        | inr e ↦ rw e (
            press_pane-IsOneGesture (no_gesture ms) (record w' { active = id }) (lookup id w'.panes)
              id (rect_of w' rects cols content id) x y button (not (id == w'.active))
              (refl, refl, refl))
      ]

  forward_to-mouse :
      (ms : MouseState) (w : Window F) (kind : Kind) (released : Bool) (o : Option Pane)
      (id : PaneId) (r : Rect) (x y cb : ℤ)
      → (forward_to ms w kind released o id r x y cb).mouse ≡ ms
  unfolding forward_to
  forward_to-mouse ms w kind released none id r x y cb = refl
  forward_to-mouse ms w kind released (some p) id r x y cb = ground arith

module _ (f : Float64) where
  open f use {F}

  wheel_scroll-mouse :
      (ms : MouseState) (w : Window F) (kind : Kind) (id : PaneId) (in_copy : Bool)
      (cols content : ℕ)
      → (wheel_scroll f ms w kind id in_copy cols content).mouse ≡ ms
  unfolding wheel_scroll
  wheel_scroll-mouse ms w wheel_up id in_copy cols content = ground arith
  wheel_scroll-mouse ms w wheel_down id in_copy cols content = refl
  wheel_scroll-mouse ms w press id in_copy cols content = refl
  wheel_scroll-mouse ms w release id in_copy cols content = refl
  wheel_scroll-mouse ms w drag id in_copy cols content = refl
  wheel_scroll-mouse ms w other id in_copy cols content = refl

  wheel_on-mouse :
      (ms : MouseState) (w : Window F) (kind : Kind) (p : Pane) (id : PaneId) (r : Rect)
      (cols content : ℕ) (x y : ℤ)
      → (wheel_on f ms w kind p id r cols content x y).mouse ≡ ms
  unfolding wheel_on
  wheel_on-mouse ms w kind p id r cols content x y =
      ground (arith, wheel_scroll-mouse ms w kind id (is_some p.copy) cols content)

  wheel_at-mouse :
      (ms : MouseState) (w : Window F) (rects : List (PaneId × Rect)) (kind : Kind)
      (o : Option Pane) (id : PaneId) (cols content : ℕ) (x y : ℤ)
      → (wheel_at f ms w rects kind o id cols content x y).mouse ≡ ms
  unfolding wheel_at
  wheel_at-mouse ms w rects kind none id cols content x y = refl
  wheel_at-mouse ms w rects kind (some p) id cols content x y =
      wheel_on-mouse ms (record w { active = p.id }) kind p id (rect_of w rects cols content id)
        cols content x y

  route_wheel-mouse :
      (ms : MouseState) (w : Window F) (rects : List (PaneId × Rect)) (kind : Kind)
      (cols content : ℕ) (x y : ℤ)
      → (route_wheel f ms w rects kind cols content x y).mouse ≡ ms
  unfolding route_wheel
  route_wheel-mouse ms w rects kind cols content x y =
      wheel_at-mouse ms (zoomed_pane w).0 rects kind
        (lookup (wheel_pane w rects x y) (zoomed_pane w).0.panes) (wheel_pane w rects x y) cols
        content x y

  -- A drag keeps what is in progress, or ends a selection.
  drag_select-mouse :
      (ms : MouseState) (w : Window F) (rects : List (PaneId × Rect)) (cols content : ℕ) (x y : ℤ)
      → IsOneGesture ms
      → IsOneGesture (drag_select f ms w rects cols content x y).mouse
  unfolding drag_select start_selection extend_selection
  drag_select-mouse ms w rects cols content x y v = ground arith

  route_drag-IsOneGesture :
      (ms : MouseState) (w : Window F) (rects : List (PaneId × Rect)) (cols content : ℕ)
      (x y button : ℤ)
      → IsOneGesture ms
      → IsOneGesture (route_drag f ms w rects cols content x y button).mouse
  unfolding route_drag drag_border
  route_drag-IsOneGesture ms w rects cols content x y button v = ground (
    arith,
    drag_select-mouse ms w rects cols content x y v,
    forward_to-mouse ms w drag false (lookup ms.fwd w.panes) ms.fwd
        (rect_of w rects cols content ms.fwd) x y (pos 32 +ℤ button),
  )

module _ (f : Float64) (selected_text : Pane → Bytes) where
  open f use {F}

  finish_select-Ended :
      (ms : MouseState) (w : Window F)
      → ms.drag ≡ none
      → ms.fwd ≡ 0
      → Ended (finish_select f selected_text ms w).mouse
  unfolding finish_select finish_at copy_text
  finish_select-Ended ms w p q = ground arith

  route_release-Ended :
      (ms : MouseState) (w : Window F) (rects : List (PaneId × Rect)) (cols content : ℕ)
      (x y button : ℤ)
      → IsOneGesture ms
      → Ended (route_release f selected_text ms w rects cols content x y button).mouse
  unfolding route_release
  route_release-Ended ms w rects cols content x y button v = ground (
    arith,
    finish_select-Ended (record ms { drag = none }) w refl,
    forward_to-mouse (record ms { drag = none; fwd = 0 }) w release true (lookup ms.fwd w.panes)
        ms.fwd (rect_of w rects cols content ms.fwd) x y button,
  )

  Ended-IsOneGesture : (ms : MouseState) → Ended ms → IsOneGesture ms
  Ended-IsOneGesture ms e = ground arith

  route_kind-IsOneGesture :
      (kind : Kind) (ms : MouseState) (w : Window F) (rects : List (PaneId × Rect))
      (cols content : ℕ) (x y button : ℤ)
      → IsOneGesture ms
      → IsOneGesture (route_kind f selected_text kind ms w rects cols content x y button).mouse
  unfolding route_kind
  route_kind-IsOneGesture wheel_up ms w rects cols content x y button v =
      rw (route_wheel-mouse f ms w rects wheel_up cols content x y) v
  route_kind-IsOneGesture wheel_down ms w rects cols content x y button v =
      rw (route_wheel-mouse f ms w rects wheel_down cols content x y) v
  route_kind-IsOneGesture press ms w rects cols content x y button v =
      route_press-IsOneGesture ms w rects cols content x y button
  route_kind-IsOneGesture drag ms w rects cols content x y button v =
      route_drag-IsOneGesture f ms w rects cols content x y button v
  route_kind-IsOneGesture release ms w rects cols content x y button v =
      Ended-IsOneGesture _ (route_release-Ended ms w rects cols content x y button v)
  route_kind-IsOneGesture other ms w rects cols content x y button v = v

  on_status-mouse :
      (ms : MouseState) (s : Session F) (hits : List StatusHit) (kind : Kind) (x y : ℤ)
      (starts : Bool)
      → (on_status f selected_text ms s hits kind x y starts).mouse ≡ ms
  unfolding on_status
  on_status-mouse ms s hits kind x y starts = ground arith

  conclude-IsOneGesture :
      (ms : MouseState) (s : Session F) (w : Window F) (hits : List StatusHit) (kind : Kind)
      (cols content : ℕ) (cx cy x y button : ℤ) (starts : Bool)
      → IsOneGesture ms
      → IsOneGesture
          (conclude f selected_text ms s
            (route_inside f selected_text kind ms w cols content cx cy button)
            hits
            kind
            x
            y
            starts).mouse
  unfolding route_inside
  conclude-IsOneGesture ms s w hits kind cols content cx cy x y button starts v =
      elim (Bool-cases (is_inside cols content cx cy)) [
        | inl e ↦ rw e (
            unfold conclude with_outcome in
            route_kind-IsOneGesture kind ms w (compute f w.tree (outer w cols content)) cols content
              cx cy button v)
        | inr e ↦ rw e (unfold conclude in rw (on_status-mouse ms s hits kind x y starts) v)
      ]

  route_in-IsOneGesture :
      (ms : MouseState) (s : Session F) (o : Option (Window F)) (hits : List StatusHit)
      (kind : Kind) (x y button : ℤ) (starts : Bool)
      → IsOneGesture ms
      → IsOneGesture (route_in f selected_text ms s o hits kind x y button starts).mouse
  unfolding route_in route_content
  route_in-IsOneGesture ms s none hits kind x y button starts v = v
  route_in-IsOneGesture ms s (some w) hits kind x y button starts v =
      conclude-IsOneGesture ms s w hits kind s.cols (content_rows s) (pointer kind ms s.cols x)
        (pointer kind ms (content_rows s) y) x y button starts v

  -- A release is taken to be inside, or there is nothing in progress.
  release_inside :
      (ms : MouseState) (cols content : ℕ) (x y : ℤ)
      → 0 < cols
      → 0 < content
      → (is_inside cols content (pointer release ms cols x) (pointer release ms content y) ≡ true)
        ⊎ Ended ms
  unfolding pointer
  release_inside ms cols content x y p q = elim (Bool-cases (in_gesture ms)) [
    | inl e ↦ inl (rw e (ground (arith, clamped-inside cols x p, clamped-inside content y q)))
    | inr e ↦ inr (ground arith)
  ]

  conclude-release :
      (ms : MouseState) (s : Session F) (w : Window F) (hits : List StatusHit) (cols content : ℕ)
      (cx cy x y button : ℤ) (starts : Bool)
      → IsOneGesture ms
      → (is_inside cols content cx cy ≡ true) ⊎ Ended ms
      → Ended
          (conclude f selected_text ms s
            (route_inside f selected_text release ms w cols content cx cy button)
            hits
            release
            x
            y
            starts).mouse
  unfolding route_inside
  conclude-release ms s w hits cols content cx cy x y button starts v inside =
      elim (Bool-cases (is_inside cols content cx cy)) [
        | inl e ↦ rw e (
            unfold conclude with_outcome route_kind in
            route_release-Ended ms w (compute f w.tree (outer w cols content)) cols content cx cy
              button v)
        | inr e ↦ elim inside [
          | inl e' ↦ absurd (ground arith)
          | inr done ↦
              rw e (unfold conclude in rw (on_status-mouse ms s hits release x y starts) done)
        ]
      ]

  route_in-release :
      (ms : MouseState) (s : Session F) (w : Window F) (hits : List StatusHit) (x y button : ℤ)
      (starts : Bool)
      → IsOneGesture ms
      → 0 < s.cols
      → 0 < content_rows s
      → Ended (route_in f selected_text ms s (some w) hits release x y button starts).mouse
  unfolding route_in route_content
  route_in-release ms s w hits x y button starts v p q =
      conclude-release ms s w hits s.cols (content_rows s) (pointer release ms s.cols x)
        (pointer release ms (content_rows s) y) x y button starts v
        (release_inside ms s.cols (content_rows s) x y p q)

  -- Whatever the event, its place and the session: where at most one of a drag selection, a
  -- forwarded press and a border drag is in progress, at most one is in progress afterwards.
  pub route_mouse-IsOneGesture :
      (ms : MouseState) (s : Session F) (hits : List StatusHit) (kind : Kind) (x y button : ℤ)
      (starts : Bool)
      → IsOneGesture ms
      → IsOneGesture (route_mouse f selected_text ms s hits kind x y button starts).mouse
  unfolding route_mouse
  route_mouse-IsOneGesture ms s hits kind x y button starts v =
      route_in-IsOneGesture ms (current s).0 (current s).1 hits kind x y button starts v

  -- A release ends whatever is in progress, wherever the pointer is, outside the session's area
  -- and on its status row too, in a session that has a window and whose area is not empty, where
  -- at most one gesture is in progress.
  pub route_mouse-release :
      (ms : MouseState) (s : Session F) (hits : List StatusHit) (x y button : ℤ) (starts : Bool)
      (w : Window F)
      → IsOneGesture ms
      → (current s).1 ≡ some w
      → 0 < (current s).0.cols
      → 0 < content_rows (current s).0
      → Ended (route_mouse f selected_text ms s hits release x y button starts).mouse
  unfolding route_mouse
  route_mouse-release ms s hits x y button starts w v here wide tall =
      rw here (route_in-release ms (current s).0 w hits x y button starts v wide tall)
