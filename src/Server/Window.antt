-- ===== src/Server/Window.antt =====
-- internal/server/window.go: a window, a split tree of panes with one focused pane. The tree is a
-- value here; where the source changes it in place, the window that comes back holds the new tree,
-- on error paths too.
pub mod Valid
pub mod Moves
pub mod Changes
pub mod Focus
pub mod Faults
use ng_mux.Prelude.{
  ℕ, ◌+◌, ◌-◌, Bool, true, false, not, ◌&&◌, ◌||◌, List, [], ◌∷◌, Option, none, some, if◌then◌else◌,
  leb, ltb, ◌==◌, length, lookup, insert, erase, modify, is_some, Bytes,
}
use ng_mux.Prelude.Int.{ℤ, pos, negsuc}
use ng_mux.Layout.{Float64, Axis, Orientation, along, PaneId, Rect, Node, leaf, Result, ok, err}
use ng_mux.Layout
use ng_mux.Layout.Geometry.{compute}
use ng_mux.Layout.Tree.{all_panes}
use ng_mux.Layout.Edit.{split_pane, remove, swap_panes, neighbor, rect_or_zero}
use ng_mux.Layout.Resize
use ng_mux.Server.CopyMode.{new_copy_state}
use ng_mux.Server.Pane.{Pane, started_pane}
use ng_mux.Server.Pane

pub record Window (F : Type 0) : Type 0 where
  pub id : ℕ
  pub name : Bytes
  pub tree : Option (Node F)
  pub panes : List (PaneId × Pane)
  pub active : PaneId
  pub zoom : PaneId
  pub activity_shown : Bool
  pub titles : Bool

-- A split fails in the layout, or because the pty of the new pane does not start.
pub data Error : Type 0 where
  layout_error : Layout.Error → Error
  start_failed : Error

abbrev pub max1 : ℕ → ℕ
max1 n = if ltb n 1 then 1 else n

abbrev pub full : ℕ → ℕ → Rect
full cols rows = record { x = 0; y = 0; w = cols; h = rows }

-- Every pane that has a rectangle is resized to it.
unfoldable pub apply_rects : List (PaneId × Rect) → List (PaneId × Pane) → List (PaneId × Pane)
apply_rects [] ps = ps
apply_rects ((id, r) ∷ rest) ps =
    apply_rects rest (modify id (λ p. Pane.resize p (max1 r.w) (max1 r.h)) ps)

abbrev pub close_each : List (PaneId × Pane) → List Pane
close_each [] = []
close_each ((id, p) ∷ ps) = Pane.close p ∷ close_each ps

abbrev pub is_nil : List (PaneId × Pane) → Bool
is_nil [] = true
is_nil (x ∷ xs) = false

-- hasOutput
unfoldable pub has_output : List (PaneId × Pane) → Bool
has_output [] = false
has_output ((id, p) ∷ ps) = p.output || has_output ps

-- clearOutput
unfoldable pub clear_output : List (PaneId × Pane) → List (PaneId × Pane)
clear_output [] = []
clear_output ((id, p) ∷ ps) = (id, record p { output = false }) ∷ clear_output ps

module _ {F : Type 0} where
  unfoldable pub wrap_window : ℕ → Bytes → Pane → Window F
  wrap_window id name p = record {
    id = id;
    name = name;
    tree = some (leaf p.id);
    panes = (p.id, record p { win = id }) ∷ [];
    active = p.id;
    zoom = 0;
    activity_shown = false;
    titles = false;
  }

  unfoldable pub outer_for : Window F → ℕ → ℕ → ℕ → Rect
  outer_for w cols rows n =
      if w.titles && ltb 1 n && ltb 1 rows
      then record { x = 0; y = 1; w = cols; h = rows - 1 }
      else full cols rows

  abbrev pub outer : Window F → ℕ → ℕ → Rect
  outer w cols rows = outer_for w cols rows (length w.panes)

  unfoldable pub titled : Window F → Bool
  titled w = w.titles && ltb 1 (length w.panes) && w.zoom == 0

  -- zoomedPane: the pane shown full-screen, and the window, whose zoom is cleared if that pane is
  -- gone.
  unfoldable pub zoomed_pane : Window F → Window F × Option Pane
  zoomed_pane w = if w.zoom == 0 then (w, none) else elim (lookup w.zoom w.panes) [
    | none ↦ (record w { zoom = 0 }, none)
    | some p ↦ (w, some p)
  ]

  unfoldable pub hit_zoom : Window F → Option PaneId
  hit_zoom w = elim (zoomed_pane w).1 [ none ↦ none | some p ↦ some p.id ]

  -- rectOf
  unfoldable pub rect_of : Window F → List (PaneId × Rect) → ℕ → ℕ → PaneId → Rect
  rect_of w rects cols rows id = elim (zoomed_pane w).1 [
    | none ↦ rect_or_zero (lookup id rects)
    | some zp ↦ if zp.id == id then full cols rows else rect_or_zero (lookup id rects)
  ]

  unfoldable pub focus : Window F → ℤ → Option (Window F)
  focus w delta = elim (neighbor w.tree w.active delta) [
    | none ↦ none
    | some id ↦ some (record w { active = id })
  ]

  -- closeAll: the emptied window, and the panes that were closed.
  unfoldable pub close_all : Window F → Window F × List Pane
  close_all w = (record w { panes = []; tree = none }, close_each w.panes)

  -- The tree and the focus after a pane has left; a failing Remove changes neither.
  unfoldable pub drop_leaf : Window F → PaneId → Window F
  drop_leaf w id = elim (remove w.tree id) [
    | err _ ↦ w
    | ok (tree, next) ↦ record w {
      tree = some tree;
      active = if w.active == id then next else w.active;
    }
  ]

module _ (f : Float64) where
  open f use {F}

  -- The two cases of applyLayout, by the pane that zoomedPane found.
  unfoldable pub lay_out : Window F → Option Pane → ℕ → ℕ → Window F
  lay_out w (some p) cols rows = record w {
    panes = modify w.zoom (λ q. Pane.resize q (max1 cols) (max1 rows)) w.panes;
  }
  lay_out w none cols rows = record w {
    panes = apply_rects (compute f w.tree (outer w cols rows)) w.panes;
  }

  unfoldable pub apply_layout : Window F → ℕ → ℕ → Window F
  apply_layout w cols rows = lay_out (zoomed_pane w).0 (zoomed_pane w).1 cols rows

  -- toggleZoom: the window, and whether it is zoomed now.
  unfoldable pub toggle_zoom : Window F → ℕ → ℕ → Window F × Bool
  toggle_zoom w cols rows =
      let w' =
        apply_layout
          (if not (w.zoom == 0)
            then record w { zoom = 0 }
            else if ltb 1 (length w.panes)
            then record w { zoom = w.active }
            else w)
          cols rows in
      (w', not (w'.zoom == 0))

  unfoldable pub unzoom : Window F → ℕ → ℕ → Window F
  unzoom w cols rows = if w.zoom == 0 then w else apply_layout (record w { zoom = 0 }) cols rows

  -- split with the id that nextPane gave; `starts` is whether the new pane's pty starts. Split has
  -- changed the tree in place by then, so a failed start leaves the window with the new tree.
  unfoldable pub split : Window F → PaneId → Axis → ℕ → ℕ → Bool → Window F × Option Error
  split w new dir cols rows starts =
      let room = outer_for w cols rows (length w.panes + 1) in
      elim (split_pane f w.tree w.active new (along dir) room) [
        | err e ↦ (w, some (layout_error e))
        | ok tree ↦
            if starts
            then (let r = rect_or_zero (lookup new (compute f (some tree) room)) in
                let p = record (started_pane new (max1 r.w) (max1 r.h)) { win = w.id } in
                (
                  apply_layout
                      (record w {
                        zoom = 0;
                        tree = some tree;
                        panes = insert new p w.panes;
                        active = new;
                      })
                      cols rows,
                  none,
                ))
            else (record w { tree = some tree }, some start_failed)
      ]

  unfoldable pub resize_active : Window F → Orientation → ℤ → ℕ → ℕ → Window F
  resize_active w dir delta cols rows =
      if not (w.zoom == 0)
      then w
      else elim (Resize.resize f w.tree w.active dir delta (outer w cols rows)) [
        | err _ ↦ w
        | ok tree ↦ apply_layout (record w { tree = some tree }) cols rows
      ]

  unfoldable pub enter_copy_pane : Window F → PaneId → ℕ → ℕ → Window F
  enter_copy_pane w id cols rows = elim (lookup id w.panes) [
    | none ↦ w
    | some p ↦ elim (p.copy) [
      | some _ ↦ w
      | none ↦
          let r =
            if w.zoom == id
            then full cols rows
            else rect_or_zero (lookup id (compute f w.tree (outer w cols rows))) in
          let c = record (new_copy_state (max1 r.w) (max1 r.h)) { seen = p.scrolled_total } in
          record w { panes = modify id (λ q. record q { copy = some c }) w.panes }
    ]
  ]

  abbrev pub enter_copy : Window F → ℕ → ℕ → Window F
  enter_copy w cols rows = enter_copy_pane w w.active cols rows

  -- removePane: the window, whether it is empty, and the pane that was closed.
  unfoldable pub remove_pane : Window F → PaneId → ℕ → ℕ → Window F × Bool × Option Pane
  unfolding drop_leaf
  remove_pane w id cols rows = elim (lookup id w.panes) [
    | none ↦ (w, is_nil w.panes, none)
    | some p ↦
        let w' = record w { panes = erase id w.panes } in
        if is_nil w'.panes
        then (record w' { tree = none }, true, some (Pane.close p))
        else (apply_layout (drop_leaf w' id) cols rows, false, some (Pane.close p))
  ]

  -- swapActive; `none` is the panic of Neighbor.
  unfoldable pub swap_active : Window F → ℤ → ℕ → ℕ → Option (Window F)
  swap_active w delta cols rows = elim (neighbor w.tree w.active delta) [
    | none ↦ none
    | some other ↦ if other == w.active then some w else elim (w.tree) [
      | none ↦ some w
      | some n ↦ elim (swap_panes n w.active other) [
        | none ↦ some w
        | some m ↦ some (apply_layout (record w { tree = some m; zoom = 0 }) cols rows)
      ]
    ]
  ]

  -- detachPane: the window, and the pane that left it.
  unfoldable pub detach_pane : Window F → PaneId → ℕ → ℕ → Window F × Option Pane
  unfolding drop_leaf
  detach_pane w id cols rows = elim (lookup id w.panes) [
    | none ↦ (w, none)
    | some p ↦ if leb (length w.panes) 1 then (w, none) else (
      apply_layout (record (drop_leaf (record w { panes = erase id w.panes }) id) { zoom = 0 }) cols
          rows,
      some p,
    )
  ]

  unfoldable pub adopt_pane : Window F → Pane → Axis → ℕ → ℕ → Result (Window F)
  adopt_pane w p dir cols rows =
      elim (split_pane f w.tree w.active p.id (along dir)
        (outer_for w cols rows (length w.panes + 1))) [
          | err e ↦ err e
          | ok tree ↦ ok (
              apply_layout
                (record w {
                  zoom = 0;
                  tree = some tree;
                  panes = insert p.id (record p { win = w.id }) w.panes;
                  active = p.id;
                })
                cols rows)
        ]
