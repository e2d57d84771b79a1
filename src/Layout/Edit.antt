-- ===== src/Layout/Edit.antt =====
-- Split, CanSplit, FitsMinimum, Remove, SwapPanes and Neighbor of internal/layout/layout.go. The
-- source changes the tree in place and hands back the root; here a call returns the new tree.
use ng_mux.Prelude.{
  ℕ, ◌-◌, ◌/◌, Bool, true, false, ◌&&◌, ◌||◌, List, [], ◌∷◌, Option, none, some, suc, ◌==◌, leb,
  ltb, if◌then◌else◌, lookup, length,
}
use ng_mux.Prelude.Int.{ℤ, pos, ◌+ℤ◌, go_rem, elem_at?}
use ng_mux.Layout.{
  Float64, Axis, horizontal, vertical, Orientation, at_leaf, along, PaneId, Rect, zero_rect, Node,
  leaf, split, divider_size, min_pane_w, min_pane_h, bad_direction, pane_not_found, no_room,
  last_pane, Result, ok, err,
}
use ng_mux.Layout.Geometry.{compute}
use ng_mux.Layout.Tree.{TreePath, all_panes, first_leaf, find, replace_at, set_pane_at}

-- rects[id], the zero rectangle for a missing pane.
abbrev pub rect_or_zero : Option Rect → Rect
rect_or_zero (some r) = r
rect_or_zero none = zero_rect

unfoldable pub fits : Axis → Rect → Bool
fits horizontal r = leb min_pane_w ((r.w - divider_size) / 2) && leb min_pane_h r.h
fits vertical r = leb min_pane_h ((r.h - divider_size) / 2) && leb min_pane_w r.w

-- find at a root that may be nil.
unfoldable pub find_in : {F : Type 0} → Option (Node F) → PaneId → Option TreePath
find_in none target = none
find_in (some n) target = find n target

unfoldable pub replace_in : {F : Type 0} → Option (Node F) → TreePath → Node F → Node F
replace_in none p new = new
replace_in (some n) p new = replace_at p new n

-- What removeIn returns.
pub record Removal (F : Type 0) : Type 0 where
  pub tree : Node F
  pub focus : PaneId
  pub found : Bool

module _ {F : Type 0} where
  unfoldable pub is_leaf_of : Node F → PaneId → Bool
  is_leaf_of (leaf p) target = p == target
  is_leaf_of (split o q a b) target = false

  unfoldable pub remove_in : Node F → PaneId → Removal F
  remove_in (leaf p) target = record { tree = leaf p; focus = 0; found = p == target }
  remove_in (split o q a b) target =
      let in_a = remove_in a target in
      let in_b = remove_in b target in
      if is_leaf_of a target
      then record { tree = b; focus = first_leaf b; found = true }
      else if is_leaf_of b target
      then record { tree = a; focus = first_leaf a; found = true }
      else if in_a.found
      then record { tree = split o q in_a.tree b; focus = in_a.focus; found = true }
      else if in_b.found
      then record { tree = split o q a in_b.tree; focus = in_b.focus; found = true }
      else record { tree = split o q a b; focus = 0; found = false }

  unfoldable pub remove : Option (Node F) → PaneId → Result (Node F × PaneId)
  remove none target = err pane_not_found
  remove (some (leaf p)) target = err (if p == target then last_pane else pane_not_found)
  remove (some (split o q a b)) target =
      let r = remove_in (split o q a b) target in
      if r.found then ok (r.tree, r.focus) else err pane_not_found

  -- SwapPanes; `none` where it reports false and changes nothing.
  unfoldable pub swap_panes : Node F → PaneId → PaneId → Option (Node F)
  swap_panes root a b = if a == b then none else elim (find root a) [
    | none ↦ none
    | some la ↦ elim (find root b) [
      | none ↦ none
      | some lb ↦ some (set_pane_at lb a (set_pane_at la b root))
    ]
  ]

-- The index of the first occurrence.
unfoldable pub index_of : ℕ → List ℕ → Option ℕ
index_of cur [] = none
index_of cur (x ∷ xs) =
    if x == cur then some 0 else elim (index_of cur xs) [ none ↦ none | some i ↦ some (suc i) ]

-- The pane `delta` places after `cur`, wrapping round. `none` stands for a panic, an index out of
-- range, which a delta below -len could cause.
unfoldable pub neighbor : {F : Type 0} → Option (Node F) → PaneId → ℤ → Option PaneId
neighbor root cur delta =
    let ids = all_panes root in
    elim (index_of cur ids) [
      | some i ↦ elem_at? ids (go_rem (pos i +ℤ delta +ℤ pos (length ids)) (length ids))
      | none ↦ some (elim ids [ [] ↦ cur | first ∷ _ ↦ first ])
    ]

module _ (f : Float64) where
  open f use {F, decimal}

  unfoldable pub split_pane :
      Option (Node F) → PaneId → PaneId → Orientation → Rect → Result (Node F)
  split_pane root target new at_leaf outer = err bad_direction
  split_pane root target new (along dir) outer = elim (find_in root target) [
    | none ↦ err pane_not_found
    | some path ↦
        if fits dir (rect_or_zero (lookup target (compute f root outer)))
        then ok (replace_in root path (split dir (decimal 5 1) (leaf target) (leaf new)))
        else err no_room
  ]

  unfoldable pub can_split : Option (Node F) → PaneId → Orientation → Rect → Bool
  can_split root target at_leaf outer = false
  can_split root target (along dir) outer = elim (find_in root target) [
    | none ↦ false
    | some _ ↦ fits dir (rect_or_zero (lookup target (compute f root outer)))
  ]

  unfoldable pub all_fit : List (PaneId × Rect) → Bool
  all_fit [] = true
  all_fit ((id, r) ∷ rest) =
      if ltb r.w min_pane_w || ltb r.h min_pane_h then false else all_fit rest

  unfoldable pub fits_minimum : Option (Node F) → Rect → Bool
  fits_minimum root outer = all_fit (compute f root outer)
