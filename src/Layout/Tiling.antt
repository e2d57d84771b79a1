-- ===== src/Layout/Tiling.antt =====
-- Lemmas about the rectangles that Compute of internal/layout/layout.go gives the panes.
use ng_mux.Prelude.{
  ℕ, ◌+◌, ◌-◌, ◌≤◌, ◌≡◌, ◌⊎◌, List, [], Option, none, some, arith, ◌==◌, if◌then◌else◌, lookup,
  lookup-insert, or_else, ◌∙◌,
}
use ng_mux.Prelude.Int.{ℤ, pos}
use ng_mux.Layout.{Float64, PaneId, Rect, Node, leaf, split, divider_size}
use ng_mux.Layout.Geometry.{clamp_span, split_axis, split_rect, compute_onto, compute}

-- Every cell of `s` is a cell of `r`.
pub record Within (s r : Rect) : Type 0 where
  pub left : r.x ≤ s.x
  pub top : r.y ≤ s.y
  pub right : s.x + s.w ≤ r.x + r.w
  pub bottom : s.y + s.h ≤ r.y + r.h

-- One of the rectangles ends before the other begins, along some axis.
abbrev pub Apart : Rect → Rect → Type 0
Apart s t = (s.x + s.w ≤ t.x) ⊎ (t.x + t.w ≤ s.x) ⊎ (s.y + s.h ≤ t.y) ⊎ (t.y + t.h ≤ s.y)

clamp_span_bounds : (avail : ℕ) (a : ℤ) → 1 ≤ avail → clamp_span avail a ≤ avail - 1
unfolding clamp_span
clamp_span_bounds avail a h = ground arith

pub clamp_span_pos : (avail : ℕ) (a : ℤ) → 2 ≤ avail → 1 ≤ clamp_span avail a
unfolding clamp_span
clamp_span_pos avail a h = ground arith

module _ (f : Float64) where
  open f use {F, of_int, to_int, mul}

  split_axis_sums :
      (total : ℕ) (ratio : F)
      → let s = split_axis f total ratio in
        (s.a_span + s.divider + s.b_span ≡ total)
        × (s.divider ≤ divider_size)
        × (3 ≤ total → (1 ≤ s.a_span) × (1 ≤ s.b_span))
  unfolding split_axis
  split_axis_sums total ratio =
      let a = to_int (mul (of_int (pos (total - 1))) ratio) in
      ground (arith, clamp_span_bounds (total - 1) a, clamp_span_pos (total - 1) a)

  -- Three cells and more are divided into two children of at least a cell each and the divider,
  -- with nothing left over, whatever the ratio.
  pub split_axis_exact :
      (total : ℕ) (ratio : F)
      → 3 ≤ total
      → let s = split_axis f total ratio in
        (s.a_span + s.divider + s.b_span ≡ total)
        × (s.divider ≡ divider_size)
        × (1 ≤ s.a_span)
        × (1 ≤ s.b_span)
  split_axis_exact total ratio h =
      let sums = split_axis_sums total ratio in
      let (left, right) = sums.2 h in (sums.0, (unfold split_axis in ground arith), left, right)

  -- The rectangle that pane `j` ends up with.
  unfoldable pub rect_of : Node F → Rect → PaneId → Option Rect
  rect_of (leaf p) r j = if p == j then some r else none
  rect_of (split o q a b) r j =
      or_else (rect_of b (split_rect f o r q).1 j) (rect_of a (split_rect f o r q).0 j)

  lookup-compute_onto :
      (n : Node F) (r : Rect) (out : List (PaneId × Rect)) (j : PaneId)
      → lookup j (compute_onto f n r out) ≡ or_else (rect_of n r j) (lookup j out)
  unfolding compute_onto rect_of
  lookup-compute_onto (leaf p) r out j = lookup-insert p j r out ∙ ground arith
  lookup-compute_onto (split o q a b) r out j =
      rw (lookup-compute_onto b, lookup-compute_onto a) (ground arith)

  pub lookup-compute :
      (n : Node F) (r : Rect) (j : PaneId) → lookup j (compute f (some n) r) ≡ rect_of n r j
  unfolding compute
  lookup-compute n r j = lookup-compute_onto n r [] j ∙ ground arith
