-- ===== src/Layout/Tree.antt =====
-- Panes, firstLeaf and find of internal/layout/layout.go. A pointer to a node is the path to it;
-- a store through it is one of the `…_at` functions.
use ng_mux.Prelude.{List, [], ◌∷◌, ◌++◌, Option, none, some, ◌==◌, if◌then◌else◌}
use ng_mux.Layout.{PaneId, Node, leaf, split}

-- Child A or child B.
pub data Side : Type 0 where
  in_a in_b : Side

abbrev pub TreePath : Type 0
TreePath = List Side

-- The found path below a child.
abbrev pub below : Side → Option TreePath → Option TreePath
below s none = none
below s (some p) = some (s ∷ p)

abbrev pub first_some : Option TreePath → Option TreePath → Option TreePath
first_some (some p) q = some p
first_some none q = q

module _ {F : Type 0} where
  unfoldable pub panes : Node F → List PaneId
  panes (leaf p) = p ∷ []
  panes (split o q a b) = panes a ++ panes b

  -- Panes at a root that may be nil.
  unfoldable pub all_panes : Option (Node F) → List PaneId
  all_panes none = []
  all_panes (some n) = panes n

  unfoldable pub first_leaf : Node F → PaneId
  first_leaf (leaf p) = p
  first_leaf (split o q a b) = first_leaf a

  -- The first leaf, in depth-first order, that holds the target.
  unfoldable pub find : Node F → PaneId → Option TreePath
  find (leaf p) target = if p == target then some [] else none
  find (split o q a b) target = first_some (below in_a (find a target)) (below in_b (find b target))

  unfoldable pub replace_at : TreePath → Node F → Node F → Node F
  replace_at [] new n = new
  replace_at (s ∷ p) new (leaf x) = leaf x
  replace_at (in_a ∷ p) new (split o q a b) = split o q (replace_at p new a) b
  replace_at (in_b ∷ p) new (split o q a b) = split o q a (replace_at p new b)

  -- leaf.Pane = v
  unfoldable pub set_pane_at : TreePath → PaneId → Node F → Node F
  set_pane_at [] v (leaf x) = leaf v
  set_pane_at [] v (split o q a b) = split o q a b
  set_pane_at (s ∷ p) v (leaf x) = leaf x
  set_pane_at (in_a ∷ p) v (split o q a b) = split o q (set_pane_at p v a) b
  set_pane_at (in_b ∷ p) v (split o q a b) = split o q a (set_pane_at p v b)

  -- node.Ratio = q'
  unfoldable pub set_ratio_at : TreePath → F → Node F → Node F
  set_ratio_at [] q' (leaf x) = leaf x
  set_ratio_at [] q' (split o q a b) = split o q' a b
  set_ratio_at (s ∷ p) q' (leaf x) = leaf x
  set_ratio_at (in_a ∷ p) q' (split o q a b) = split o q (set_ratio_at p q' a) b
  set_ratio_at (in_b ∷ p) q' (split o q a b) = split o q a (set_ratio_at p q' b)
