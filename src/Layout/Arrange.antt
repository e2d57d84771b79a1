-- ===== src/Layout/Arrange.antt =====
-- Arrange and its presets, of internal/layout/layout.go. A call on an empty list of panes or rows,
-- which would panic in the source, is `none`.
use Prim.Native.String.{String}
use text.Mathlib.Text.{◌==◌ as str_eq}
use ng_mux.Prelude.{
  ℕ, zero, suc, ◌+◌, ◌-◌, ◌*◌, ◌/◌, true, false, List, [], ◌∷◌, Option, none, some, if◌then◌else◌,
  ltb, length, take, drop,
}
use ng_mux.Prelude.Int.{pos}
use ng_mux.Layout.{Float64, Axis, horizontal, vertical, PaneId, Node, leaf, split}

abbrev pub other_axis : Axis → Axis
other_axis vertical = horizontal
other_axis horizontal = vertical

-- for cols*cols < n { cols++ }, on fuel.
unfoldable pub grid_cols : ℕ → ℕ → ℕ → ℕ
grid_cols zero n cols = cols
grid_cols (suc fuel) n cols = elim (ltb (cols * cols) n) [
  | true ↦ grid_cols fuel n (cols + 1)
  | false ↦ cols
]

-- ids[start:end] with end cut to the length, where start is within the list.
unfoldable pub row_slice : List PaneId → ℕ → ℕ → List PaneId
row_slice ids start cols =
    let n = length ids in
    let stop = if ltb n (start + cols) then n else start + cols in
    take (stop - start) (drop start ids)

module _ (f : Float64) where
  open f use {F, of_int, decimal, div}

  -- 1.0 / float64(n)
  abbrev pub share : ℕ → F
  share n = div (decimal 1 0) (of_int (pos n))

  unfoldable pub even_chain : List PaneId → Axis → Option (Node F)
  even_chain [] dir = none
  even_chain (p ∷ []) dir = some (leaf p)
  even_chain (p ∷ q ∷ rest) dir = elim (even_chain (q ∷ rest) dir) [
    | none ↦ none
    | some b ↦ some (split dir (share (length (p ∷ q ∷ rest))) (leaf p) b)
  ]

  unfoldable pub main_split : List PaneId → Axis → Option (Node F)
  main_split [] dir = none
  main_split (p ∷ rest) dir = elim (even_chain rest (other_axis dir)) [
    | none ↦ none
    | some b ↦ some (split dir (decimal 5 1) (leaf p) b)
  ]

  unfoldable pub stack : List (Node F) → Axis → Option (Node F)
  stack [] dir = none
  stack (n ∷ []) dir = some n
  stack (n ∷ m ∷ rest) dir = elim (stack (m ∷ rest) dir) [
    | none ↦ none
    | some b ↦ some (split dir (share (length (n ∷ m ∷ rest))) n b)
  ]

  -- The rows from index `r` on, `left` of them.
  unfoldable pub grid_rows : List PaneId → ℕ → ℕ → ℕ → Option (List (Node F))
  grid_rows ids cols r zero = some []
  grid_rows ids cols r (suc left) = elim (even_chain (row_slice ids (r * cols) cols) horizontal) [
    | none ↦ none
    | some row ↦ elim (grid_rows ids cols (suc r) left) [
      | none ↦ none
      | some rest ↦ some (row ∷ rest)
    ]
  ]

  unfoldable pub tiled : List PaneId → Option (Node F)
  tiled ids =
      let n = length ids in
      let cols = grid_cols n n 1 in
      let rows = (n + cols - 1) / cols in
      elim (grid_rows ids cols 0 rows) [ none ↦ none | some nodes ↦ stack nodes vertical ]

  -- The presets for two panes and more.
  unfoldable pub arrange_many : List PaneId → String → Option (Node F)
  arrange_many ids name =
      if str_eq name "even-vertical"
      then even_chain ids vertical
      else if str_eq name "tiled"
      then tiled ids
      else if str_eq name "main-vertical"
      then main_split ids horizontal
      else if str_eq name "main-horizontal"
      then main_split ids vertical
      else even_chain ids horizontal

  -- Arrange: the outer option is the panic, the inner one the nil tree.
  unfoldable pub arrange : List PaneId → String → Option (Option (Node F))
  arrange [] name = some none
  arrange (p ∷ []) name = some (some (leaf p))
  arrange (p ∷ q ∷ rest) name = elim (arrange_many (p ∷ q ∷ rest) name) [
    | none ↦ none
    | some n ↦ some (some n)
  ]
