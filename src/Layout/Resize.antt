-- ===== src/Layout/Resize.antt =====
-- walkPath and Resize of internal/layout/layout.go.
use ng_mux.Prelude.{ℕ, List, [], ◌∷◌, Option, none, some, if◌then◌else◌, ◌==◌}
use mathlib.Core.List.{map, reverse}
use ng_mux.Prelude.Int.{ℤ, pos, sub_ℕ}
use ng_mux.Layout.{
  Float64, Axis, horizontal, vertical, axis_eq, Orientation, at_leaf, along, PaneId, Rect, Node,
  leaf, split, divider_size, min_pane_w, min_pane_h, bad_direction, pane_not_found, no_room,
  no_split, Result, ok, err,
}
use ng_mux.Layout.Geometry.{split_rect}
use ng_mux.Layout.Tree.{Side, in_a, in_b, TreePath, set_ratio_at}

-- An ancestor of the target: its axis, ratio and rectangle, and the child that the path goes on to.
-- (The source keeps a pointer to the node, and compares child A with the next node of the path.)
pub record PathStep (F : Type 0) : Type 0 where
  pub axis : Axis
  pub ratio : F
  pub rect : Rect
  pub side : Side

abbrev pub under :
    {F : Type 0} → PathStep F → Option (List (PathStep F)) → Option (List (PathStep F))
under s none = none
under s (some up) = some (s ∷ up)

abbrev pub first_path :
    {F : Type 0}
    → Option (List (PathStep F))
    → Option (List (PathStep F))
    → Option (List (PathStep F))
first_path (some p) q = some p
first_path none q = q

-- The node at the end of the steps, which are listed from the root.
abbrev pub address : {F : Type 0} → List (PathStep F) → TreePath
address = map λ s. s.side

module _ (f : Float64) where
  open f use {F, of_int, decimal, add, sub, div, neg, lt}

  -- The ancestors of the target, root first; `none` if it is not below the node.
  unfoldable pub walk_path : Node F → Rect → PaneId → Option (List (PathStep F))
  walk_path (leaf p) r target = if p == target then some [] else none
  walk_path (split o q a b) r target =
      first_path
        (under (record { axis = o; ratio = q; rect = r; side = in_a })
          (walk_path a (split_rect f o r q).0 target))
        (under (record { axis = o; ratio = q; rect = r; side = in_b })
          (walk_path b (split_rect f o r q).1 target))

  unfoldable pub min_side_frac : Axis → F → F
  min_side_frac dir avail =
      let least = of_int (pos (elim dir [ horizontal ↦ min_pane_w | vertical ↦ min_pane_h ])) in
      let frac = div least avail in
      if lt (of_int (pos 0)) avail
      then (if lt (decimal 45 2) frac then decimal 45 2 else frac)
      else decimal 1 1

  unfoldable pub clamp : F → F → F → F
  clamp v lo hi = if lt v lo then lo else if lt hi v then hi else v

  abbrev pub signed_by : Side → F → F
  signed_by in_a d = d
  signed_by in_b d = neg d

  -- The span of the split along the axis.
  abbrev pub span_of : Axis → Rect → ℕ
  span_of horizontal r = r.w
  span_of vertical r = r.h

  -- The new ratio of the parent.
  unfoldable pub new_ratio : Axis → PathStep F → ℤ → F
  unfolding clamp min_side_frac
  new_ratio dir parent delta =
      let avail = of_int (sub_ℕ (span_of dir parent.rect) divider_size) in
      let frac = min_side_frac dir avail in
      clamp (add parent.ratio (signed_by parent.side (div (of_int delta) avail))) frac
        (sub (of_int (pos 1)) frac)

  -- The loop from the leaf upwards; the steps are listed from the deepest.
  unfoldable pub resize_up : List (PathStep F) → Axis → ℤ → Node F → Result (Node F)
  resize_up [] dir delta root = err no_split
  resize_up (parent ∷ up) dir delta root =
      if axis_eq parent.axis dir
      then (if lt (of_int (pos 0)) (of_int (sub_ℕ (span_of dir parent.rect) divider_size))
          then ok (set_ratio_at (address (reverse up)) (new_ratio dir parent delta) root)
          else err no_room)
      else resize_up up dir delta root

  unfoldable pub resize : Option (Node F) → PaneId → Orientation → ℤ → Rect → Result (Node F)
  resize root target at_leaf delta outer = err bad_direction
  resize none target (along dir) delta outer = err pane_not_found
  resize (some root) target (along dir) delta outer = elim (walk_path root outer target) [
    | none ↦ err pane_not_found
    | some path ↦ resize_up (reverse path) dir delta root
  ]
