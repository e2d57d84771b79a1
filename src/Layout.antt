-- ===== src/Layout.antt =====
-- internal/layout/layout.go: the split tree of a window. A cell count is a number; ratios are
-- values of an abstract `Float64`, since the language has no floating point.
pub mod Geometry
pub mod Tiling
pub mod Tree
pub mod Edit
pub mod Panes
pub mod Splitting
pub mod SplitRects
pub mod Removing
pub mod Swapping
pub mod Cycling
pub mod Resize
pub mod Resizing
pub mod Arrange
pub mod Arranging
use ng_mux.Prelude.{
  ℕ, ◌-◌, Bool, true, false, List, [], ◌∷◌, ◌++◌, Option, none, some, if◌then◌else◌, ◌==◌,
}
use ng_mux.Prelude.Int.{ℤ}

-- What the code uses of Go's float64: `of_int` is the conversion float64(n), `to_int` the
-- conversion int(x), and `decimal m k` the constant m / 10^k.
pub record Float64 : Type 1 where
  pub F : Type 0
  pub of_int : ℤ → F
  pub to_int : F → ℤ
  pub decimal : ℕ → ℕ → F
  pub add : F → F → F
  pub sub : F → F → F
  pub mul : F → F → F
  pub div : F → F → F
  pub neg : F → F
  pub lt : F → F → Bool

-- The axis of an interior node.
pub data Axis : Type 0 where
  horizontal vertical : Axis

-- The source's Orientation: `at_leaf` is Leaf, the others are Horizontal and Vertical.
pub data Orientation : Type 0 where
  at_leaf : Orientation
  along : Axis → Orientation

abbrev pub axis_eq : Axis → Axis → Bool
axis_eq horizontal horizontal = true
axis_eq vertical vertical = true
axis_eq _ _ = false

abbrev pub PaneId : Type 0
PaneId = ℕ

pub record Rect : Type 0 where
  pub x : ℕ
  pub y : ℕ
  pub w : ℕ
  pub h : ℕ

abbrev pub zero_rect : Rect
zero_rect = record { x = 0; y = 0; w = 0; h = 0 }

-- A leaf with its pane, or an interior node with its ratio.
pub data Node (F : Type 0) : Type 0 where
  leaf : PaneId → Node F
  split : Axis → F → Node F → Node F → Node F

abbrev pub divider_size : ℕ
divider_size = 1

abbrev pub min_pane_w : ℕ
min_pane_w = 3

abbrev pub min_pane_h : ℕ
min_pane_h = 2

-- The errors of the package; `bad_direction` is the unnamed one for a direction that is Leaf.
pub data Error : Type 0 where
  bad_direction pane_not_found no_room last_pane no_split : Error

pub data Result {ℓ} (A : Type ℓ) : Type ℓ where
  ok : A → Result A
  err : Error → Result A

abbrev pub is_ok {ℓ} : {A : Type ℓ} → Result A → Bool
is_ok (ok a) = true
is_ok (err e) = false
