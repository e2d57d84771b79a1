-- ===== src/Layout/Geometry.antt =====
-- splitAxis, splitRect, compute and Compute of internal/layout/layout.go.
use ng_mux.Prelude.{ℕ, ◌+◌, ◌-◌, List, [], Option, none, some, ◌==◌, leb, if◌then◌else◌, insert}
use ng_mux.Prelude.Int.{ℤ, pos, ltb_ℤ, pos_part}
use ng_mux.Layout.{
  Float64, Axis, horizontal, vertical, PaneId, Rect, Node, leaf, split, divider_size,
}

-- The clamps of splitAxis on the scaled float, as signed integers.
unfoldable pub clamp_span : ℕ → ℤ → ℕ
clamp_span avail a =
    let at_least = if ltb_ℤ a (pos 1) then pos 1 else a in
    let at_most = if ltb_ℤ (pos (avail - 1)) at_least then pos (avail - 1) else at_least in
    pos_part (if ltb_ℤ at_most (pos 0) then pos 0 else at_most)

pub record Spans : Type 0 where
  pub a_span : ℕ
  pub divider : ℕ
  pub b_span : ℕ

module _ (f : Float64) where
  open f use {F, of_int, to_int, mul}

  unfoldable pub split_axis : ℕ → F → Spans
  unfolding clamp_span
  split_axis total ratio =
      if total == 0
      then record { a_span = 0; divider = 0; b_span = 0 }
      else if leb total divider_size
      then record { a_span = total; divider = 0; b_span = 0 }
      else (let avail = total - divider_size in
          let a = clamp_span avail (to_int (mul (of_int (pos avail)) ratio)) in
          record { a_span = a; divider = divider_size; b_span = avail - a })

  unfoldable pub split_rect : Axis → Rect → F → Rect × Rect
  split_rect horizontal r ratio =
      let s = split_axis r.w ratio in
      (
        record { x = r.x; y = r.y; w = s.a_span; h = r.h },
        record { x = r.x + s.a_span + s.divider; y = r.y; w = s.b_span; h = r.h },
      )
  split_rect vertical r ratio =
      let s = split_axis r.h ratio in
      (
        record { x = r.x; y = r.y; w = r.w; h = s.a_span },
        record { x = r.x; y = r.y + s.a_span + s.divider; w = r.w; h = s.b_span },
      )

  unfoldable pub compute_onto : Node F → Rect → List (PaneId × Rect) → List (PaneId × Rect)
  compute_onto (leaf p) r out = insert p r out
  compute_onto (split o q a b) r out =
      compute_onto b (split_rect o r q).1 (compute_onto a (split_rect o r q).0 out)

  -- Compute; a nil root is `none`.
  unfoldable pub compute : Option (Node F) → Rect → List (PaneId × Rect)
  compute none outer = []
  compute (some root) outer = compute_onto root outer []
