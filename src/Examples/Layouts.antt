-- ===== src/Examples/Layouts.antt =====
-- The theorems about internal/layout at concrete trees.
use ng_mux.Prelude.{
  ℕ, ◌≡◌, ◌⊎◌, refl, arith, true, false, List, [], ◌∷◌, Option, some, contains, Distinct, without,
  lookup, map,
}
use ng_mux.Prelude.Int.{ℤ, pos, negsuc}
use ng_mux.Layout.{
  horizontal, vertical, along, Rect, Node, leaf, split, ok, err, is_ok, pane_not_found, no_room,
  last_pane,
}
use ng_mux.Layout.Geometry.{compute, compute_onto, split_rect, split_axis, clamp_span}
use ng_mux.Layout.Tree.{panes, all_panes, find, replace_at, set_pane_at, set_ratio_at}
use ng_mux.Layout.Edit.{
  split_pane, fits, rect_or_zero, find_in, replace_in, remove, swap_panes, can_split, neighbor,
}
use ng_mux.Layout.Resize.{
  PathStep, resize, resize_up, walk_path, new_ratio, clamp, min_side_frac, address,
}
use ng_mux.Layout.Arrange.{arrange}
use ng_mux.Layout.SplitRects.{Halves, HasMinimum, split_pane-rects}
use ng_mux.Layout.Splitting.{split_pane_cases, can_split_predicts, insert_after}
use ng_mux.Layout.Removing.{remove_cases, remove-split_pane}
use ng_mux.Layout.Swapping.{swap_panes-exchange, exchange}
use ng_mux.Layout.Cycling.{neighbor_inverse}
use ng_mux.Layout.Resizing.{resize-Adjusts, Adjusts}
use ng_mux.Layout.Arranging.{arrange-panes}
use ng_mux.Examples.{thousandths, area, three}

thousandths-Halves : Halves thousandths
thousandths-Halves n small = ground arith

three-Distinct : Distinct (panes three)
unfolding panes
three-Distinct = (refl, (refl, (refl, tt)))

abbrev left_part : Rect
left_part = record { x = 0; y = 0; w = 39; h = 24 }

-- Pane 2 of the tree is split, into 2 and 4.
abbrev four : Node ℤ
four =
    split horizontal (pos 500) (leaf 1)
      (split vertical (pos 500) (split horizontal (pos 500) (leaf 2) (leaf 4)) (leaf 3))

split_made : split_pane thousandths (some three) 2 4 (along horizontal) area ≡ ok four
unfolding split_pane find_in find replace_in replace_at fits compute compute_onto split_rect
    split_axis clamp_span
split_made = refl

split_pane-rects_example :
    (lookup 1 (compute thousandths (some four) area)
      ≡ lookup 1 (compute thousandths (some three) area))
    × ((s : Rect) × (lookup 2 (compute thousandths (some four) area) ≡ some s) × HasMinimum s)
    × ((s : Rect) × (lookup 4 (compute thousandths (some four) area) ≡ some s) × HasMinimum s)
unfolding compute compute_onto split_rect split_axis clamp_span panes
split_pane-rects_example =
    split_pane-rects thousandths three four 2 4 1 horizontal area
      (record { x = 40; y = 0; w = 40; h = 11 }) thousandths-Halves three-Distinct refl refl
      (omega arith) (omega arith) split_made (λ e. absurd (ground arith))
      (λ e. absurd (ground arith))

split_pane_cases_example :
    let room = fits horizontal (rect_or_zero (lookup 2 (compute thousandths (some three) area))) in
    let result = split_pane thousandths (some three) 2 4 (along horizontal) area in
    ((contains 2 (panes three) ≡ false) × (result ≡ err pane_not_found))
    ⊎ ((contains 2 (panes three) ≡ true) × (room ≡ false) × (result ≡ err no_room))
    ⊎ ((contains 2 (panes three) ≡ true)
        × (room ≡ true)
        × ((m : Node ℤ) × (result ≡ ok m) × (panes m ≡ insert_after 2 4 (panes three))))
split_pane_cases_example = split_pane_cases thousandths three 2 4 horizontal area

remove_cases_example :
    ((contains 2 (panes three) ≡ false) × (remove (some three) 2 ≡ err pane_not_found))
    ⊎ ((panes three ≡ 2 ∷ []) × (remove (some three) 2 ≡ err last_pane))
    ⊎ ((contains 2 (panes three) ≡ true)
        × ((m : Node ℤ) × (focus : ℕ) × (remove (some three) 2 ≡ ok (m, focus))
            × (panes m ≡ without 2 (panes three))
            × (contains focus (panes m) ≡ true)))
remove_cases_example = remove_cases three 2 three-Distinct

remove-split_pane_example : remove (some four) 4 ≡ ok (three, 2)
remove-split_pane_example =
    remove-split_pane thousandths three four 2 4 horizontal area (unfold panes in refl) split_made

abbrev swapped : Node ℤ
swapped = split horizontal (pos 500) (leaf 3) (split vertical (pos 500) (leaf 2) (leaf 1))

swap_panes-exchange_example :
    (panes swapped ≡ map (exchange 1 3) (panes three))
    × (lookup 1 (compute thousandths (some swapped) area)
        ≡ lookup 3 (compute thousandths (some three) area))
swap_panes-exchange_example =
    swap_panes-exchange thousandths three swapped 1 3 1 area three-Distinct
      (unfold swap_panes find set_pane_at in refl)

can_split_predicts_example :
    can_split thousandths (some three) 2 (along vertical) area
    ≡ is_ok (split_pane thousandths (some three) 2 4 (along vertical) area)
can_split_predicts_example = can_split_predicts thousandths (some three) 2 4 (along vertical) area

neighbor_inverse_example :
    (after : ℕ) × (before : ℕ) × (neighbor (some three) 3 (pos 1) ≡ some after)
    × (neighbor (some three) after (negsuc 0) ≡ some 3)
    × (neighbor (some three) 3 (negsuc 0) ≡ some before)
    × (neighbor (some three) before (pos 1) ≡ some 3)
    × (contains after (all_panes (some three)) ≡ true)
    × (contains before (all_panes (some three)) ≡ true)
neighbor_inverse_example =
    neighbor_inverse (some three) (unfold all_panes in three-Distinct) 3
      (unfold all_panes panes in refl)

abbrev widened : Node ℤ
widened = split horizontal (pos 525) (leaf 1) (split vertical (pos 500) (leaf 2) (leaf 3))

resize-Adjusts_example :
    (steps : List (PathStep ℤ)) × (walk_path thousandths three area 1 ≡ some steps)
    × (find three 1 ≡ some (address steps))
    × Adjusts thousandths steps horizontal (pos 2) three widened
    × (panes widened ≡ panes three)
resize-Adjusts_example = resize-Adjusts thousandths three widened 1 horizontal (pos 2) area (
    unfold resize walk_path resize_up new_ratio clamp min_side_frac split_rect split_axis clamp_span
      set_ratio_at in
    refl)

arrange-panes_example :
    (tree : Option (Node ℤ)) × (arrange thousandths (1 ∷ 2 ∷ 3 ∷ 4 ∷ 5 ∷ []) "tiled" ≡ some tree)
    × (all_panes tree ≡ 1 ∷ 2 ∷ 3 ∷ 4 ∷ 5 ∷ [])
arrange-panes_example = arrange-panes thousandths (1 ∷ 2 ∷ 3 ∷ 4 ∷ 5 ∷ []) "tiled"
